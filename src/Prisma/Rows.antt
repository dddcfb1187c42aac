-- ===== src/Prisma/Rows.antt =====
-- What an update or a new row does to a test over a whole table.
use backendurdubolonest.Base.{
  ◌≤◌, ◌≡◌, ◌∙◌, sym, refl, ap, Bool, true, false, List, [], ◌∷◌, inl, inr, arith, if◌then◌else◌,
  any, count, map_where, Among,
}

module _ {A : Type 0} where
  -- A test that the change leaves alone, or makes false, stays false of every row.
  pub any-map_where-false :
      (q p : A → Bool) (f : A → A) (t : List A)
      → ((a : A) → q a ≡ false → q (f a) ≡ false)
      → any q t ≡ false
      → any q (map_where p f t) ≡ false
  any-map_where-false q p f [] keeps h = refl
  any-map_where-false q p f (x ∷ xs) keeps h =
      ground (arith, keeps x, any-map_where-false q p f xs keeps)

  -- A test that the change leaves alone holds of as many rows as before.
  pub any-map_where :
      (q p : A → Bool) (f : A → A) (t : List A)
      → ((a : A) → q (f a) ≡ q a)
      → any q (map_where p f t) ≡ any q t
  any-map_where q p f [] same = refl
  any-map_where q p f (x ∷ xs) same = ground (arith, same x, any-map_where q p f xs same)

  -- An update of all rows that fit, after which they do not fit, leaves none that fits.
  pub any-map_where_cleared :
      (p : A → Bool) (f : A → A) (t : List A)
      → ((a : A) → p (f a) ≡ false)
      → any p (map_where p f t) ≡ false
  any-map_where_cleared p f [] clears = refl
  any-map_where_cleared p f (x ∷ xs) clears =
      ground (arith, clears x, any-map_where_cleared p f xs clears)

  -- No row fits exactly if the number of fitting rows is zero.
  pub count-any : (p : A → Bool) (t : List A) → any p t ≡ false → count p t ≡ 0
  count-any p [] h = refl
  count-any p (x ∷ xs) h = ground (arith, count-any p xs)

  pub any-of-count : (p : A → Bool) (t : List A) → count p t ≡ 0 → any p t ≡ false
  any-of-count p [] h = refl
  any-of-count p (x ∷ xs) h = ground (arith, any-of-count p xs)

  pub any-of-Among : (p : A → Bool) (a : A) (t : List A) → Among a t → p a ≡ true → any p t ≡ true
  any-of-Among p a [] m e = elim m [ ]
  any-of-Among p a (x ∷ xs) (inl same) e = ground (arith, ap p same)
  any-of-Among p a (x ∷ xs) (inr m) e = ground (arith, any-of-Among p a xs m e)

  -- A row of an updated table comes from a row of the table before.
  pub Among-map_where :
      (p : A → Bool) (f : A → A) (t : List A) (y : A)
      → Among y (map_where p f t)
      → (x : A) × Among x t × (y ≡ (if p x then f x else x))
  Among-map_where p f [] y m = elim m [ ]
  Among-map_where p f (x ∷ xs) y (inl same) = (x, inl refl, same)
  Among-map_where p f (x ∷ xs) y (inr m) =
      let (z, there, e) = Among-map_where p f xs y m in (z, inr there, e)

  count-of-Among : (p : A → Bool) (a : A) (t : List A) → Among a t → p a ≡ true → 1 ≤ count p t
  count-of-Among p a [] m e = elim m [ ]
  count-of-Among p a (x ∷ xs) (inl same) e = ground (arith, ap p same)
  count-of-Among p a (x ∷ xs) (inr m) e = ground (arith, count-of-Among p a xs m e)

  -- Where at most one row fits, two rows that fit are the same.
  pub unique-of-count :
      (p : A → Bool) (a b : A) (t : List A)
      → count p t ≤ 1
      → Among a t
      → Among b t
      → p a ≡ true
      → p b ≡ true
      → a ≡ b
  unique-of-count p a b [] one m n e h = elim m [ ]
  unique-of-count p a b (x ∷ xs) one (inl same) (inl alike) e h = same ∙ sym alike
  unique-of-count p a b (x ∷ xs) one (inl same) (inr n) e h =
      absurd (ground (arith, ap p same, count-of-Among p b xs n h))
  unique-of-count p a b (x ∷ xs) one (inr m) (inl alike) e h =
      absurd (ground (arith, ap p alike, count-of-Among p a xs m e))
  unique-of-count p a b (x ∷ xs) one (inr m) (inr n) e h =
      unique-of-count p a b xs (ground arith) m n e h
