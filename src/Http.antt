-- ===== src/Http.antt =====
-- What a handler does: it runs on the state of the backend and ends with a value or with one of
-- the exceptions of @nestjs/common. What was written before an exception stays written, except
-- inside a transaction.
pub mod Keeps
pub mod Inversion
use backendurdubolonest.Base.{Bool, Option, none, some, if◌then◌else◌, String}

pub data Error : Type 0 where
  bad_request unauthorized forbidden not_found conflict too_many_requests service_unavailable :
      String → Error
  -- An error of the database client that no handler translates, by its code.
  p2002 p2003 p2025 : Error
  -- Any other `Error`.
  internal : String → Error

pub data Result (A : Type 0) : Type 0 where
  ok : A → Result A
  err : Error → Result A

abbrev pub Action : Type 0 → Type 0 → Type 0
Action S A = S → Result A × S

module _ {S A : Type 0} where
  unfoldable pub pure : A → Action S A
  pure a s = (ok a, s)

  unfoldable pub raise : Error → Action S A
  raise e s = (err e, s)

  unfoldable pub gets : (S → A) → Action S A
  gets f s = (ok (f s), s)

  unfoldable pub or_raise : Error → Option A → Action S A
  or_raise e none s = (err e, s)
  or_raise e (some a) s = (ok a, s)

  abbrev pub settle : S → Result A × S → Result A × S
  settle before (ok a, s) = (ok a, s)
  settle before (err e, s) = (err e, before)

  -- `$transaction` with a callback: an exception undoes all that the callback wrote.
  unfoldable pub transaction : Action S A → Action S A
  transaction m s = settle s (m s)

  abbrev pub translated : (Error → Error) → Result A × S → Result A × S
  translated translate (ok a, s) = (ok a, s)
  translated translate (err e, s) = (err (translate e), s)

  -- `try { … } catch (error) { throw … }`
  unfoldable pub rethrow : (Error → Error) → Action S A → Action S A
  rethrow translate m s = translated translate (m s)

module _ {S : Type 0} where
  unfoldable pub modify : (S → S) → Action S (Unit {0})
  modify f s = (ok tt, f s)

  unfoldable pub raise_if : Bool → Error → Action S (Unit {0})
  raise_if c e s = (if c then err e else ok tt, s)

  unfoldable pub when : Bool → Action S (Unit {0}) → Action S (Unit {0})
  when c m s = if c then m s else (ok tt, s)

module _ {S A B : Type 0} where
  abbrev pub then_do : Result A × S → (A → Action S B) → Result B × S
  then_do (ok a, s) f = f a s
  then_do (err e, s) f = (err e, s)

  infixl 5 ◌>>=◌ ◌>>◌
  -- To open this is to open the other actions too.
  unfoldable pub ◌>>=◌ : Action S A → (A → Action S B) → Action S B
  unfolding pure raise gets or_raise transaction rethrow modify raise_if when
  ◌>>=◌ m f s = then_do (m s) f

  abbrev pub ◌>>◌ : Action S A → Action S B → Action S B
  m >> k = m >>= λ _. k
