-- ===== src/Http/Inversion.antt =====
-- What is known of a sequence of actions that ends with a value.
use backendurdubolonest.Base.{◌≡◌, refl, Bool, true, false, Option, none, some, arith}
use backendurdubolonest.Http.{
  Error, Result, ok, err, then_do, Action, ◌>>=◌, pure, gets, or_raise, raise_if,
}

module _ {S A B : Type 0} where
  then_do-eq-ok :
      (v : Result A × S) (f : A → Action S B) (b : B) (t : S)
      → then_do v f ≡ (ok b, t)
      → (a : A) × (u : S) × (v ≡ (ok a, u)) × (f a u ≡ (ok b, t))
  then_do-eq-ok (ok a, u) f b t h = (a, u, refl, h)
  then_do-eq-ok (err e, u) f b t h = ground arith

  -- The first action ends with a value, and the second one goes on from there.
  pub bind-eq-ok :
      (m : Action S A) (f : A → Action S B) (s t : S) (b : B)
      → (m >>= f) s ≡ (ok b, t)
      → (a : A) × (u : S) × (m s ≡ (ok a, u)) × (f a u ≡ (ok b, t))
  unfolding ◌>>=◌
  bind-eq-ok m f s t b h = then_do-eq-ok (m s) f b t h

module _ {S : Type 0} where
  pub raise_if-eq-ok :
      (c : Bool) (e : Error) (s t : S) (a : Unit {0})
      → raise_if c e s ≡ (ok a, t)
      → (c ≡ false) × (t ≡ s)
  unfolding raise_if
  raise_if-eq-ok true e s t a h = ground arith
  raise_if-eq-ok false e s t a h = (refl, ground arith)

module _ {S A : Type 0} where
  pub pure-eq-ok : (a b : A) (s t : S) → pure a s ≡ (ok b, t) → (a ≡ b) × (s ≡ t)
  unfolding pure
  pure-eq-ok a b s t h = (ground arith, ground arith)

  pub gets-eq-ok : (f : S → A) (b : A) (s t : S) → gets f s ≡ (ok b, t) → (f s ≡ b) × (s ≡ t)
  unfolding gets
  gets-eq-ok f b s t h = (ground arith, ground arith)

  -- Past a `raise_if`, the test has failed and the state is the one before it.
  pub raise_if-bind-ok :
      (c : Bool) (e : Error) (f : Unit {0} → Action S A) (s t : S) (b : A)
      → (raise_if c e >>= f) s ≡ (ok b, t)
      → (c ≡ false) × (f tt s ≡ (ok b, t))
  unfolding ◌>>=◌
  raise_if-bind-ok true e f s t b h = ground arith
  raise_if-bind-ok false e f s t b h = (refl, h)

module _ {S A : Type 0} where
  pub or_raise-eq-ok :
      (e : Error) (o : Option A) (s t : S) (a : A)
      → or_raise e o s ≡ (ok a, t)
      → (o ≡ some a) × (s ≡ t)
  unfolding or_raise
  or_raise-eq-ok e none s t a h = ground arith
  or_raise-eq-ok e (some b) s t a h = (ground arith, ground arith)
