-- ===== src/Uploads/Numbers.antt =====
-- The numbers of the chunks and of the parts when none is missing.
use backendurdubolonest.Base.{
  ℕ, zero, suc, ◌+◌, ◌≤◌, ◌≡◌, refl, sym, ap, subst, ◌∙◌, Bool, true, false, ◌&&◌, ◌||◌, List, [],
  ◌∷◌, map, arith, ltb, leb, ◌==◌, all, any, elem, ==_iff, length, Bool-cases, inl, inr,
}
use backendurdubolonest.Uploads.{R2Part, R2Upload, UploadManifest}
use backendurdubolonest.Uploads.Chunks.{is_part, insert_ordered, sort}
use backendurdubolonest.Uploads.Chunks.Order.{
  is_increasing, insert_ordered-all, insert_ordered-elem, insert_ordered-increasing,
}
use backendurdubolonest.Uploads.Chunks.Valid.{IsValid, PartsFit, are_distinct, is_numbered}
use backendurdubolonest.Uploads.Finish.{insert_part, sort_parts, listed_parts}

path_cons : {A : Type 0} {x y : A} {xs ys : List A} → x ≡ y → xs ≡ ys → x ∷ xs ≡ y ∷ ys
path_cons e f = cc

-- The numbers from `low` on, `n` of them.
abbrev pub range : ℕ → ℕ → List ℕ
range low zero = []
range low (suc n) = low ∷ range (low + 1) n

-- An increasing list has room below a bound of its members.
increasing-room :
    (x b : ℕ) (xs : List ℕ)
    → is_increasing (x ∷ xs) ≡ true
    → all (λ i. ltb i b) (x ∷ xs) ≡ true
    → x + length (x ∷ xs) ≤ b
increasing-room x b [] h below = ground arith
increasing-room x b (y ∷ ys) h below = ground (arith, increasing-room y b ys)

all-ltb_pred : (x : ℕ) (xs : List ℕ) → all (ltb x) xs ≡ true → all (λ i. leb (x + 1) i) xs ≡ true
all-ltb_pred x [] h = refl
all-ltb_pred x (y ∷ ys) h = ground (arith, all-ltb_pred x ys)

increasing-range :
    (low b : ℕ) (xs : List ℕ)
    → is_increasing xs ≡ true
    → all (λ i. leb low i) xs ≡ true
    → all (λ i. ltb i b) xs ≡ true
    → low + length xs ≡ b
    → xs ≡ range low (length xs)
increasing-range low b [] h above below e = refl
increasing-range low b (x ∷ xs) h above below e =
    let room = increasing-room x b xs h below in
    let same : x ≡ low = ground (arith, room) in
    let above : all (λ i. leb (low + 1) i) xs ≡ true =
      subst (λ k. all (λ i. leb (k + 1) i) xs ≡ true) same (all-ltb_pred x xs (ground arith)) in
    path_cons same
      (increasing-range (low + 1) b xs (ground arith) above (ground arith) (omega arith))

abbrev numbers : List R2Part → List ℕ
numbers ps = map (λ p. p.part_number) ps

insert_part-numbers :
    (p : R2Part) (ps : List R2Part)
    → numbers (insert_part p ps) ≡ insert_ordered p.part_number (numbers ps)
unfolding insert_part insert_ordered
insert_part-numbers p [] = refl
insert_part-numbers p (q ∷ qs) = ground (arith, insert_part-numbers p qs)

sort_parts-numbers : (ps : List R2Part) → numbers (sort_parts ps) ≡ sort (numbers ps)
unfolding sort_parts sort
sort_parts-numbers [] = refl
sort_parts-numbers (p ∷ ps) =
    insert_part-numbers p (sort_parts ps)
    ∙ ap (insert_ordered p.part_number) (sort_parts-numbers ps)

sort-elem : (j : ℕ) (xs : List ℕ) → elem j (sort xs) ≡ elem j xs
unfolding sort
sort-elem j [] = refl
sort-elem j (x ∷ xs) = insert_ordered-elem j x (sort xs) ∙ ap (λ b. x == j || b) (sort-elem j xs)

sort-all : (p : ℕ → Bool) (xs : List ℕ) → all p (sort xs) ≡ all p xs
unfolding sort
sort-all p [] = refl
sort-all p (x ∷ xs) = insert_ordered-all p x (sort xs) ∙ ap (λ b. p x && b) (sort-all p xs)

numbers-elem :
    (i : ℕ) (ps : List R2Part)
    → all is_numbered ps ≡ true
    → elem (i + 1) (numbers ps) ≡ any (is_part i) ps
numbers-elem i [] h = refl
numbers-elem i (p ∷ ps) h = ground (arith, numbers-elem i ps)

new_number :
    (p : R2Part) (ps : List R2Part)
    → any (is_part p.chunk_index) ps ≡ false
    → all is_numbered (p ∷ ps) ≡ true
    → elem p.part_number (sort (numbers ps)) ≡ false
new_number p ps new h =
    let e : p.part_number ≡ p.chunk_index + 1 = ground arith in
    sort-elem p.part_number (numbers ps)
    ∙ ap (λ k. elem k (numbers ps)) e
    ∙ numbers-elem p.chunk_index ps (ground arith)
    ∙ new

sorted_numbers-increasing :
    (ps : List R2Part)
    → are_distinct ps ≡ true
    → all is_numbered ps ≡ true
    → is_increasing (sort (numbers ps)) ≡ true
unfolding sort
sorted_numbers-increasing [] d h = refl
sorted_numbers-increasing (p ∷ ps) d h =
    insert_ordered-increasing p.part_number (sort (numbers ps))
      (new_number p ps (ground arith) (ground arith))
      (sorted_numbers-increasing ps (ground arith) (ground arith))

numbers-length : (ps : List R2Part) → length (numbers ps) ≡ length ps
numbers-length [] = refl
numbers-length (p ∷ ps) = ap suc (numbers-length ps)

insert_ordered-length : (n : ℕ) (xs : List ℕ) → length (insert_ordered n xs) ≡ suc (length xs)
unfolding insert_ordered
insert_ordered-length n [] = refl
insert_ordered-length n (x ∷ xs) = ground (arith, insert_ordered-length n xs)

sort-length : (xs : List ℕ) → length (sort xs) ≡ length xs
unfolding sort
sort-length [] = refl
sort-length (x ∷ xs) = insert_ordered-length x (sort xs) ∙ ap suc (sort-length xs)

all-elem : (p : ℕ → Bool) (i : ℕ) (xs : List ℕ) → all p xs ≡ true → elem i xs ≡ true → p i ≡ true
all-elem p i [] h e = ground arith
all-elem p i (x ∷ xs) h e = elim (Bool-cases (x == i)) [
  | inl same ↦ subst (λ k. p k ≡ true) ((==_iff x i).0 same) (ground arith)
  | inr other ↦ all-elem p i xs (ground arith) (ground arith)
]

numbers-below :
    (n : ℕ) (ps : List R2Part)
    → ((i : ℕ) → any (is_part i) ps ≡ true → ltb i n ≡ true)
    → all is_numbered ps ≡ true
    → all (λ i. ltb i (1 + n)) (numbers ps) ≡ true
numbers-below n [] h f = refl
numbers-below n (p ∷ ps) h f =
    ground (arith, h p.chunk_index, numbers-below n ps (λ i e. h i (ground arith)))

all-leb_zero : (xs : List ℕ) → all (λ i. leb 0 i) xs ≡ true
all-leb_zero [] = refl
all-leb_zero (x ∷ xs) = ground (arith, all-leb_zero xs)

-- The numbers of listed parts.
abbrev pub part_numbers : List (ℕ × ℕ) → List ℕ
part_numbers ps = map (λ (p : ℕ × ℕ). p.1) ps

listed-numbers :
    (ps : List R2Part) → part_numbers (map (λ p. (p.e_tag, p.part_number)) ps) ≡ numbers ps
listed-numbers [] = refl
listed-numbers (p ∷ ps) = ap (λ r. p.part_number ∷ r) (listed-numbers ps)

numbers-above :
    (ps : List R2Part) → all is_numbered ps ≡ true → all (λ i. leb 1 i) (numbers ps) ≡ true
numbers-above [] f = refl
numbers-above (p ∷ ps) f = ground (arith, numbers-above ps)

-- The chunks of a manifest that lists as many as its total are all chunks, in order.
pub chunks-range :
    (m : UploadManifest)
    → IsValid m
    → length m.chunks ≡ m.dto.total_chunks
    → m.chunks ≡ range 0 m.dto.total_chunks
chunks-range m valid e =
    increasing-range 0 m.dto.total_chunks m.chunks valid.increasing (all-leb_zero m.chunks)
      valid.below (omega (arith, e))
    ∙ ap (range 0) e

-- The parts with which an upload to R2 is completed are numbered from one on, in order.
pub listed_parts-range :
    (n : ℕ) (u : R2Upload) (chunks : List ℕ)
    → PartsFit u chunks
    → all (λ i. ltb i n) chunks ≡ true
    → length u.parts ≡ n
    → part_numbers (listed_parts u.parts) ≡ range 1 n
unfolding listed_parts
listed_parts-range n u chunks fit below e =
    listed-numbers (sort_parts u.parts)
    ∙ sort_parts-numbers u.parts
    ∙ increasing-range 1 (1 + n) (sort (numbers u.parts))
        (sorted_numbers-increasing u.parts fit.distinct fit.numbered)
        (sort-all (λ i. leb 1 i) (numbers u.parts) ∙ numbers-above u.parts fit.numbered)
        (sort-all (λ i. ltb i (1 + n)) (numbers u.parts)
          ∙ numbers-below n u.parts
              (λ i found. all-elem (λ j. ltb j n) i chunks below (sym (fit.same i) ∙ found))
              fit.numbered)
        (ap (λ k. 1 + k) (size ∙ e))
    ∙ ap (range 1) (size ∙ e)
  where
    size : length (sort (numbers u.parts)) ≡ length u.parts
    size = sort-length (numbers u.parts) ∙ numbers-length u.parts
