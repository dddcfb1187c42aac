-- ===== src/Uploads/Chunks/Order.antt =====
-- The list of the chunks received: increasing, whatever order they come in.
use backendurdubolonest.Base.{
  ℕ, ◌≤◌, ◌≡◌, refl, ap, ◌∙◌, Bool, true, false, ◌&&◌, ◌||◌, inl, inr, List, [], ◌∷◌, arith, ltb,
  ◌==◌, all, elem, Bool-cases, ==_iff,
}
use backendurdubolonest.Uploads.Chunks.{insert_ordered, sort, add_chunk}

-- Strictly increasing, so without a repetition.
abbrev pub is_increasing : List ℕ → Bool
is_increasing [] = true
is_increasing (x ∷ xs) = all (ltb x) xs && is_increasing xs

pub insert_ordered-all :
    (p : ℕ → Bool) (n : ℕ) (xs : List ℕ) → all p (insert_ordered n xs) ≡ (p n && all p xs)
unfolding insert_ordered
insert_ordered-all p n [] = refl
insert_ordered-all p n (x ∷ xs) = ground (arith, insert_ordered-all p n xs)

pub insert_ordered-elem :
    (j n : ℕ) (xs : List ℕ) → elem j (insert_ordered n xs) ≡ (n == j || elem j xs)
unfolding insert_ordered
insert_ordered-elem j n [] = refl
insert_ordered-elem j n (x ∷ xs) = ground (arith, insert_ordered-elem j n xs)

all-ltb : (m n : ℕ) (xs : List ℕ) → m ≤ n → all (ltb n) xs ≡ true → all (ltb m) xs ≡ true
all-ltb m n [] le h = refl
all-ltb m n (x ∷ xs) le h = ground (arith, all-ltb m n xs)

pub insert_ordered-increasing :
    (n : ℕ) (xs : List ℕ)
    → elem n xs ≡ false
    → is_increasing xs ≡ true
    → is_increasing (insert_ordered n xs) ≡ true
unfolding insert_ordered
insert_ordered-increasing n [] new h = refl
insert_ordered-increasing n (x ∷ xs) new h =
    ground (arith, insert_ordered-increasing n xs, insert_ordered-all (ltb x) n xs, all-ltb n x xs)

insert_ordered-least : (n : ℕ) (xs : List ℕ) → all (ltb n) xs ≡ true → insert_ordered n xs ≡ n ∷ xs
unfolding insert_ordered
insert_ordered-least n [] h = refl
insert_ordered-least n (x ∷ xs) h = ground arith

-- `sort` leaves a sorted list alone.
pub sort-increasing : (xs : List ℕ) → is_increasing xs ≡ true → sort xs ≡ xs
unfolding sort
sort-increasing [] h = refl
sort-increasing (x ∷ xs) h =
    ap (insert_ordered x) (sort-increasing xs (ground arith))
    ∙ insert_ordered-least x xs (ground arith)

pub add_chunk-increasing :
    (i : ℕ) (xs : List ℕ) → is_increasing xs ≡ true → is_increasing (add_chunk i xs) ≡ true
unfolding add_chunk sort
add_chunk-increasing i xs h = ground (
  arith,
  sort-increasing xs h,
  insert_ordered-increasing i xs,
  ap (insert_ordered i) (sort-increasing xs h),
)

pub add_chunk-all :
    (p : ℕ → Bool) (i : ℕ) (xs : List ℕ)
    → is_increasing xs ≡ true
    → p i ≡ true
    → all p xs ≡ true
    → all p (add_chunk i xs) ≡ true
unfolding add_chunk sort
add_chunk-all p i xs h pi ps = ground (
  arith,
  sort-increasing xs h,
  insert_ordered-all p i xs,
  ap (insert_ordered i) (sort-increasing xs h),
)

pub add_chunk-elem :
    (j i : ℕ) (xs : List ℕ)
    → is_increasing xs ≡ true
    → elem j (add_chunk i xs) ≡ (i == j || elem j xs)
unfolding add_chunk sort
add_chunk-elem j i xs h = elim (Bool-cases (i == j)) [
  | inl e ↦ ground (
    arith,
    ap (λ k. elem k xs) ((==_iff i j).0 e),
    ap (elem j) (sort-increasing xs h),
    insert_ordered-elem j i (sort xs),
  )
  | inr e ↦ ground (arith, e, ap (elem j) (sort-increasing xs h), insert_ordered-elem j i (sort xs))
]
