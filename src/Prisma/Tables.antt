-- ===== src/Prisma/Tables.antt =====
-- A client over plain lists, which meets the interface: used to run the model.
use backendurdubolonest.Base.{
  ℕ, ◌≤◌, ◌≡◌, refl, ap, Bool, true, false, Option, none, some, List, [], ◌∷◌, inl, inr, arith, leb,
  if◌then◌else◌, any, count, find, keep, map_where, Among, Option-cases,
}
use backendurdubolonest.Prisma.{Prisma}

module _ {A : Type 0} where
  abbrev latest : (A → ℕ) → Option A → A → Option A
  latest key none a = some a
  latest key (some b) a = if leb (key b) (key a) then some a else some b

  abbrev find_latest : (A → ℕ) → (A → Bool) → List A → Option A
  find_latest key p [] = none
  find_latest key p (x ∷ xs) =
      if p x then latest key (find_latest key p xs) x else find_latest key p xs

  pub find-some : (p : A → Bool) (t : List A) (a : A) → find p t ≡ some a → Among a t × (p a ≡ true)
  find-some p [] a h = cc
  find-some p (x ∷ xs) a h = ground (arith, find-some p xs a)

  pub find-none : (p : A → Bool) (t : List A) → find p t ≡ none → any p t ≡ false
  find-none p [] h = refl
  find-none p (x ∷ xs) h = ground (arith, find-none p xs)

  pub find_latest_none :
      (key : A → ℕ) (p : A → Bool) (t : List A) → find_latest key p t ≡ none → any p t ≡ false
  find_latest_none key p [] h = refl
  find_latest_none key p (x ∷ xs) h = ground (arith, find_latest_none key p xs)

  -- A row of the table that fits shows that some row fits.
  pub any-has-Among : (p : A → Bool) (b : A) (t : List A) → Among b t → p b ≡ true → any p t ≡ true
  any-has-Among p b [] m e = elim m [ ]
  any-has-Among p b (x ∷ xs) (inl same) e = ground (arith, ap p same)
  any-has-Among p b (x ∷ xs) (inr m) e = ground (arith, any-has-Among p b xs m e)

  pub find_latest_mem :
      (key : A → ℕ) (p : A → Bool) (t : List A) (a : A)
      → find_latest key p t ≡ some a
      → Among a t × (p a ≡ true)
  find_latest_mem key p [] a h = cc
  find_latest_mem key p (x ∷ xs) a h = elim (Option-cases (find_latest key p xs)) [
    | inl e ↦ ground arith
    | inr (c, e) ↦ ground (arith, find_latest_mem key p xs c e, find_latest_mem key p xs a)
  ]

  pub find_latest_max :
      (key : A → ℕ) (p : A → Bool) (t : List A) (a b : A)
      → find_latest key p t ≡ some a
      → Among b t
      → p b ≡ true
      → key b ≤ key a
  find_latest_max key p [] a b h m e = elim m [ ]
  find_latest_max key p (x ∷ xs) a b h (inl same) e = elim (Option-cases (find_latest key p xs)) [
    | inl none_left ↦ ground (arith, ap p same, ap key same)
    | inr (c, last) ↦ ground (arith, ap p same, ap key same)
  ]
  find_latest_max key p (x ∷ xs) a b h (inr m) e = elim (Option-cases (find_latest key p xs)) [
    | inl none_left ↦ cc (find_latest_none key p xs none_left, any-has-Among p b xs m e)
    | inr (c, last) ↦ ground (arith, find_latest_max key p xs c b last m e)
  ]

module _ {A : Type 0} where
  abbrev insert_row : (A → A → Bool) → A → List A → List A
  insert_row before a [] = a ∷ []
  insert_row before a (x ∷ xs) = if before x a then x ∷ insert_row before a xs else a ∷ x ∷ xs

  abbrev sort_rows : (A → A → Bool) → List A → List A
  sort_rows before [] = []
  sort_rows before (x ∷ xs) = insert_row before x (sort_rows before xs)

  insert_row-count :
      (before : A → A → Bool) (p : A → Bool) (a : A) (xs : List A)
      → count p (insert_row before a xs) ≡ count p (a ∷ xs)
  insert_row-count before p a [] = refl
  insert_row-count before p a (x ∷ xs) = ground (arith, insert_row-count before p a xs)

  pub sort_rows-count :
      (before : A → A → Bool) (p : A → Bool) (t : List A) → count p (sort_rows before t) ≡ count p t
  sort_rows-count before p [] = refl
  sort_rows-count before p (x ∷ xs) =
      ground (arith, insert_row-count before p x (sort_rows before xs), sort_rows-count before p xs)

abbrev pub list_client : Prisma
list_client = record {
  find_first = find;
  find_latest = find_latest;
  order_by = sort_rows;
  find_many = keep;
  update_many = λ p f t. (map_where p f t, count p t);
  delete_many = λ p t. (keep (λ a. if p a then false else true) t, count p t);
  count_rows = count;
  create = λ clash a t. if any (clash a) t then none else some (a ∷ t);
  insert = λ a t. a ∷ t;
  find_first_some = find-some;
  find_first_none = find-none;
  find_latest_some = λ key p t a b h.
      (let (m, e) = find_latest_mem key p t a h in (m, e, find_latest_max key p t a b h));
  find_latest_none = find_latest_none;
  find_many_lem = λ p t. refl;
  update_many_lem = λ p f t. refl;
  delete_many_lem = λ p t. refl;
  count_rows_lem = λ p t. refl;
  create_lem = λ clash a t. refl;
  insert_lem = λ a t. refl;
  order_by_lem = sort_rows-count;
}
