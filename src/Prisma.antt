-- ===== src/Prisma.antt =====
-- The Prisma client, a package outside the repository: what the services rely on of its queries.
-- A table is the list of its rows, the newest first; a `where` clause is a Boolean test.
pub mod Tables
pub mod Rows
use backendurdubolonest.Base.{
  ℕ, ◌≤◌, ◌≡◌, Bool, true, false, Option, none, some, List, ◌∷◌, if◌then◌else◌, any, count, keep,
  map_where, Among,
}

pub record Prisma : Type 1 where
  -- Which of several fitting rows `findFirst` returns is left open.
  pub find_first : {A : Type 0} → (A → Bool) → List A → Option A
  -- `findFirst` with a descending `orderBy`.
  pub find_latest : {A : Type 0} → (A → ℕ) → (A → Bool) → List A → Option A
  -- The rows of a query in the order of its `orderBy`: which rows stand before which.
  pub order_by : {A : Type 0} → (A → A → Bool) → List A → List A
  pub find_many : {A : Type 0} → (A → Bool) → List A → List A
  -- `updateMany` returns the number of rows that it changed beside the new table.
  pub update_many : {A : Type 0} → (A → Bool) → (A → A) → List A → List A × ℕ
  pub delete_many : {A : Type 0} → (A → Bool) → List A → List A × ℕ
  -- The number of rows that fit.
  pub count_rows : {A : Type 0} → (A → Bool) → List A → ℕ
  -- `create` under unique indexes: nothing where a row clashes with the new one (P2002).
  pub create : {A : Type 0} → (A → A → Bool) → A → List A → Option (List A)
  -- `create` where the generated key is the only unique one.
  pub insert : {A : Type 0} → A → List A → List A
  pub find_first_some :
      {A : Type 0} (p : A → Bool) (t : List A) (a : A)
      → find_first p t ≡ some a
      → Among a t × (p a ≡ true)
  pub find_first_none :
      {A : Type 0} (p : A → Bool) (t : List A) → find_first p t ≡ none → any p t ≡ false
  pub find_latest_some :
      {A : Type 0} (key : A → ℕ) (p : A → Bool) (t : List A) (a b : A)
      → find_latest key p t ≡ some a
      → Among a t × (p a ≡ true) × (Among b t → p b ≡ true → key b ≤ key a)
  pub find_latest_none :
      {A : Type 0} (key : A → ℕ) (p : A → Bool) (t : List A)
      → find_latest key p t ≡ none
      → any p t ≡ false
  pub find_many_lem : {A : Type 0} (p : A → Bool) (t : List A) → find_many p t ≡ keep p t
  pub update_many_lem :
      {A : Type 0} (p : A → Bool) (f : A → A) (t : List A)
      → update_many p f t ≡ (map_where p f t, count p t)
  pub delete_many_lem :
      {A : Type 0} (p : A → Bool) (t : List A)
      → delete_many p t ≡ (keep (λ a. if p a then false else true) t, count p t)
  pub count_rows_lem : {A : Type 0} (p : A → Bool) (t : List A) → count_rows p t ≡ count p t
  pub create_lem :
      {A : Type 0} (clash : A → A → Bool) (a : A) (t : List A)
      → create clash a t ≡ (if any (clash a) t then none else some (a ∷ t))
  pub insert_lem : {A : Type 0} (a : A) (t : List A) → insert a t ≡ a ∷ t
  -- Sorting neither loses nor adds a row.
  pub order_by_lem :
      {A : Type 0} (before : A → A → Bool) (p : A → Bool) (t : List A)
      → count p (order_by before t) ≡ count p t
