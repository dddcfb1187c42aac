-- ===== src/Http/Keeps.antt =====
-- Invariants of actions, one rule for each way to build an action.
use backendurdubolonest.Base.{◌≡◌, refl, Bool, true, false, Option, none, some, if◌then◌else◌}
use backendurdubolonest.Http.{
  Error, Result, ok, err, Action, pure, raise, gets, or_raise, settle, transaction, translated,
  rethrow, raise_if, modify, when, then_do, ◌>>=◌,
}

-- Whether it returns or raises, the action keeps the predicate.
pub record Keeps {S A : Type 0} (P : S → Type 0) (m : Action S A) : Type 0 where
  pub at : (s : S) → P s → P (m s).1

module _ {S A : Type 0} (P : S → Type 0) where
  settle-keeps : (s : S) (r : Result A × S) → P s → P r.1 → P (settle s r).1
  settle-keeps s (ok a, s') h k = k
  settle-keeps s (err e, s') h k = h

  translated-keeps : (t : Error → Error) (r : Result A × S) → P r.1 → P (translated t r).1
  translated-keeps t (ok a, s') k = k
  translated-keeps t (err e, s') k = k

module _ {S A : Type 0} {P : S → Type 0} where
  pub Keeps-pure : (a : A) → Keeps P (pure a)
  unfolding pure
  Keeps-pure a = record { at = λ s h. h }

  pub Keeps-raise : (e : Error) → Keeps P (raise {A = A} e)
  unfolding raise
  Keeps-raise e = record { at = λ s h. h }

  pub Keeps-gets : (f : S → A) → Keeps P (gets f)
  unfolding gets
  Keeps-gets f = record { at = λ s h. h }

  pub Keeps-or_raise : (e : Error) (o : Option A) → Keeps P (or_raise e o)
  unfolding or_raise
  Keeps-or_raise e none = record { at = λ s h. h }
  Keeps-or_raise e (some a) = record { at = λ s h. h }

  pub Keeps-transaction : (m : Action S A) → Keeps P m → Keeps P (transaction m)
  unfolding transaction
  Keeps-transaction m k = record { at = λ s h. settle-keeps P s (m s) h (k.at s h) }

  pub Keeps-rethrow : (t : Error → Error) (m : Action S A) → Keeps P m → Keeps P (rethrow t m)
  unfolding rethrow
  Keeps-rethrow t m k = record { at = λ s h. translated-keeps P t (m s) (k.at s h) }

  pub Keeps-if :
      (b : Bool) (m n : Action S A) → Keeps P m → Keeps P n → Keeps P (if b then m else n)
  Keeps-if true m n km kn = km
  Keeps-if false m n km kn = kn

module _ {S : Type 0} {P : S → Type 0} where
  pub Keeps-raise_if : (c : Bool) (e : Error) → Keeps P (raise_if c e)
  unfolding raise_if
  Keeps-raise_if c e = record { at = λ s h. h }

  pub Keeps-when : (c : Bool) (m : Action S (Unit {0})) → Keeps P m → Keeps P (when c m)
  unfolding when
  Keeps-when true m k = record { at = λ s h. k.at s h }
  Keeps-when false m k = record { at = λ s h. h }

module _ {S A B : Type 0} {P : S → Type 0} where
  then_do-keeps :
      (r : Result A × S) (f : A → Action S B)
      → P r.1
      → ((a : A) → Keeps P (f a))
      → P (then_do r f).1
  then_do-keeps (ok a, s) f k kf = (kf a).at s k
  then_do-keeps (err e, s) f k kf = k

  pub Keeps-bind :
      (m : Action S A) (f : A → Action S B)
      → Keeps P m
      → ((a : A) → Keeps P (f a))
      → Keeps P (m >>= f)
  unfolding ◌>>=◌
  Keeps-bind m f km kf = record { at = λ s h. then_do-keeps (m s) f (km.at s h) kf }

-- What holds before, and what holds after, whether the action returns or raises.
pub record Leads {S A : Type 0} (P Q : S → Type 0) (m : Action S A) : Type 0 where
  pub at : (s : S) → P s → Q (m s).1

module _ {S A : Type 0} {P : S → Type 0} where
  pub Keeps-Leads : (m : Action S A) → Keeps P m → Leads P P m
  Keeps-Leads m km = record { at = λ s h. km.at s h }

module _ {S A B : Type 0} (P Q : S → Type 0) where
  pub Leads-bind :
      (m : Action S A) (f : A → Action S B)
      → Leads P Q m
      → ((a : A) → Keeps Q (f a))
      → Leads P Q (m >>= f)
  unfolding ◌>>=◌
  Leads-bind m f lm kf = record { at = λ s h. then_do-keeps (m s) f (lm.at s h) kf }

module _ {S A B : Type 0} (P Q R : S → Type 0) where
  then_do-leads :
      (r : Result A × S) (f : A → Action S B)
      → ((s : S) → Q s → R s)
      → Q r.1
      → ((a : A) → Leads Q R (f a))
      → R (then_do r f).1
  then_do-leads (ok a, s) f weaker h lf = (lf a).at s h
  then_do-leads (err e, s) f weaker h lf = weaker s h

  -- Two steps in a row, where the condition between them implies the last one.
  pub Leads-trans :
      (m : Action S A) (f : A → Action S B)
      → ((s : S) → Q s → R s)
      → Leads P Q m
      → ((a : A) → Leads Q R (f a))
      → Leads P R (m >>= f)
  unfolding ◌>>=◌
  Leads-trans m f weaker lm lf = record { at = λ s h. then_do-leads (m s) f weaker (lm.at s h) lf }

module _ {S : Type 0} (P Q : S → Type 0) where
  pub Leads-modify : (f : S → S) → ((s : S) → P s → Q (f s)) → Leads P Q (modify f)
  unfolding modify
  Leads-modify f step = record { at = λ s h. step s h }

module _ {S A : Type 0} (P Q : S → Type 0) where
  settle-leads : (s : S) (r : Result A × S) → Q s → Q r.1 → Q (settle s r).1
  settle-leads s (ok a, t) h k = k
  settle-leads s (err e, t) h k = h

  translated-leads : (t : Error → Error) (r : Result A × S) → Q r.1 → Q (translated t r).1
  translated-leads t (ok a, s) h = h
  translated-leads t (err e, s) h = h

  pub Leads-rethrow : (t : Error → Error) (m : Action S A) → Leads P Q m → Leads P Q (rethrow t m)
  unfolding rethrow
  Leads-rethrow t m lm = record { at = λ s h. translated-leads t (m s) (lm.at s h) }

  pub Leads-transaction :
      (m : Action S A) → ((s : S) → P s → Q s) → Leads P Q m → Leads P Q (transaction m)
  unfolding transaction
  Leads-transaction m before lm = record {
    at = λ s h. settle-leads s (m s) (before s h) (lm.at s h);
  }

-- What holds after an action that the predicate held before: the predicate, and, where the action
-- returns, a condition on the value.
abbrev pub Outcome : {S A : Type 0} → (S → Type 0) → (A → Type 0) → Result A × S → Type 0
Outcome P Q (ok a, t) = P t × Q a
Outcome P Q (err e, t) = P t

pub record Yields {S A : Type 0} (P : S → Type 0) (Q : A → Type 0) (m : Action S A) : Type 0 where
  pub at : (s : S) → P s → Outcome P Q (m s)

module _ {S A B : Type 0} {P : S → Type 0} {Q : A → Type 0} where
  then_do-yields :
      (r : Result A × S) (f : A → Action S B)
      → Outcome P Q r
      → ((a : A) → Q a → Keeps P (f a))
      → P (then_do r f).1
  then_do-yields (ok a, s) f (h, q) kf = (kf a q).at s h
  then_do-yields (err e, s) f h kf = h

  -- A bind whose second part needs to know what the first one yields.
  pub Yields-bind :
      (m : Action S A) (f : A → Action S B)
      → Yields P Q m
      → ((a : A) → Q a → Keeps P (f a))
      → Keeps P (m >>= f)
  unfolding ◌>>=◌
  Yields-bind m f ym kf = record { at = λ s h. then_do-yields (m s) f (ym.at s h) kf }

module _ {S A B : Type 0} {P : S → Type 0} where
  then_do-Outcome :
      (r : Result A × S) (f : A → Action S B) (R : B → Type 0)
      → P r.1
      → ((a : A) → Yields P R (f a))
      → Outcome P R (then_do r f)
  then_do-Outcome (ok a, s) f R h yf = (yf a).at s h
  then_do-Outcome (err e, s) f R h yf = h

  pub Yields-after :
      (m : Action S A) (f : A → Action S B) (R : B → Type 0)
      → Keeps P m
      → ((a : A) → Yields P R (f a))
      → Yields P R (m >>= f)
  unfolding ◌>>=◌
  Yields-after m f R km yf = record { at = λ s h. then_do-Outcome (m s) f R (km.at s h) yf }

module _ {S A : Type 0} {P : S → Type 0} where
  pub Yields-pure : (Q : A → Type 0) (a : A) → Q a → Yields P Q (pure a)
  unfolding pure
  Yields-pure Q a q = record { at = λ s h. (h, q) }

module _ {S : Type 0} {P : S → Type 0} where
  -- An action that goes on after `raise_if` has seen the test fail.
  pub Yields-raise_if :
      (c : Bool) (e : Error) → Yields P (λ (_ : Unit {0}). c ≡ false) (raise_if c e)
  unfolding raise_if
  Yields-raise_if true e = record { at = λ s h. h }
  Yields-raise_if false e = record { at = λ s h. (h, refl) }

pub ruleset keeps_rules = (
  Keeps-pure, Keeps-raise, Keeps-gets, Keeps-or_raise, Keeps-transaction, Keeps-rethrow, Keeps-if,
  Keeps-raise_if, Keeps-when, Keeps-bind,
)
