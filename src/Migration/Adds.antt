-- ===== src/Migration/Adds.antt =====
-- What a step of the migration adds to the report.
use backendurdubolonest.Base.{
  ℕ, ◌+◌, ◌≡◌, refl, Bool, true, false, Option, none, some, List, [], ◌∷◌, ◌++◌, Text, length,
  arith, if◌then◌else◌,
}
use backendurdubolonest.Http.{
  Error, Result, ok, Action, ◌>>=◌, pure, gets, or_raise, modify, when, raise_if,
}
use backendurdubolonest.Http.Inversion.{bind-eq-ok}
use backendurdubolonest.Schema.{Backend}
use backendurdubolonest.Migration.{
  Entity, Migration, LegacyMigrationRecord, MigrationReport, bump, increment, note_error,
  note_duplicate, on_backend, placed,
}

abbrev pub total : List (Entity × ℕ) → ℕ
total [] = 0
total ((e, n) ∷ counts) = n + total counts

-- How many rows the report speaks of.
abbrev pub handled : MigrationReport → ℕ
handled r = total r.counts + (length r.duplicates + length r.errors)

total-bump : (e : Entity) (counts : List (Entity × ℕ)) → total (bump e counts) ≡ total counts + 1
total-bump e [] = refl
total-bump e ((k, n) ∷ counts) = ground (arith, total-bump e counts)

length-snoc : (t : Text) (ts : List Text) → length (ts ++ t ∷ []) ≡ length ts + 1
length-snoc t [] = refl
length-snoc t (u ∷ ts) = omega (arith, length-snoc t ts)

-- Where the action returns, the report speaks of that many rows more.
pub record Adds {A : Type 0} (n : ℕ) (m : Action Migration A) : Type 0 where
  pub at : (s t : Migration) (a : A) → m s ≡ (ok a, t) → handled t.report ≡ handled s.report + n

module _ {A B : Type 0} where
  pub Adds-bind :
      (n k : ℕ) (m : Action Migration A) (f : A → Action Migration B)
      → Adds n m
      → ((a : A) → Adds k (f a))
      → Adds (n + k) (m >>= f)
  Adds-bind n k m f am af = record {
    at = λ s t b h.
        let (a, u, h1, h2) = bind-eq-ok m f s t b h in
        omega (arith, am.at s u a h1, (af a).at u t b h2);
  }

  -- A bind whose first part says nothing in the report.
  pub Adds-after :
      (k : ℕ) (m : Action Migration A) (f : A → Action Migration B)
      → Adds 0 m
      → ((a : A) → Adds k (f a))
      → Adds k (m >>= f)
  Adds-after k m f am af = record {
    at = λ s t b h. omega (arith, (Adds-bind 0 k m f am af).at s t b h);
  }

module _ {A : Type 0} where
  pub Adds-pure : (a : A) → Adds 0 (pure a)
  unfolding pure
  Adds-pure a = record { at = λ s t b h. ground arith }

  pub Adds-gets : (f : Migration → A) → Adds 0 (gets f)
  unfolding gets
  Adds-gets f = record { at = λ s t b h. ground arith }

  pub Adds-or_raise : (e : Error) (o : Option A) → Adds 0 (or_raise e o)
  unfolding or_raise
  Adds-or_raise e none = record { at = λ s t b h. ground arith }
  Adds-or_raise e (some a) = record { at = λ s t b h. ground arith }

  placed-adds :
      (s t : Migration) (v : Result A × Backend) (a : A)
      → placed s v ≡ (ok a, t)
      → handled t.report ≡ handled s.report + 0
  placed-adds s t (r, b) a h = ground arith

  pub Adds-on_backend : (m : Action Backend A) → Adds 0 (on_backend m)
  unfolding on_backend
  Adds-on_backend m = record { at = λ s t a h. placed-adds s t (m s.backend) a h }

pub Adds-raise_if : (c : Bool) (e : Error) → Adds 0 (raise_if c e)
unfolding raise_if
Adds-raise_if true e = record { at = λ s t b h. ground arith }
Adds-raise_if false e = record { at = λ s t b h. ground arith }

pub Adds-if :
    {A : Type 0} (n : ℕ) (b : Bool) (m k : Action Migration A)
    → Adds n m
    → Adds n k
    → Adds n (if b then m else k)
Adds-if n true m k am ak = am
Adds-if n false m k am ak = ak

pub Adds-increment : (e : Entity) → Adds 1 (increment e)
unfolding increment modify
Adds-increment e = record { at = λ s t a h. ground (arith, h, total-bump e s.report.counts) }

pub Adds-note_error : (e : Text) → Adds 1 (note_error e)
unfolding note_error modify
Adds-note_error e = record { at = λ s t a h. ground (arith, h, length-snoc e s.report.errors) }

pub Adds-note_duplicate : (d : Text) → Adds 1 (note_duplicate d)
unfolding note_duplicate modify
Adds-note_duplicate d = record {
  at = λ s t a h. ground (arith, h, length-snoc d s.report.duplicates);
}

pub Adds-when : (c : Bool) (m : Action Migration (Unit {0})) → Adds 0 m → Adds 0 (when c m)
unfolding when
Adds-when true m am = record { at = λ s t a h. am.at s t a h }
Adds-when false m am = record { at = λ s t a h. ground arith }

pub Adds-keep_rows :
    (rs : List LegacyMigrationRecord) → Adds 0 (modify (λ s. record s { records = rs }))
unfolding modify
Adds-keep_rows rs = record { at = λ s t a h. ground arith }
