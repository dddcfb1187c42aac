-- ===== src/Uploads/Chunks/Valid.antt =====
-- The chunks that a manifest lists, and the parts at R2, agree with one another.
use backendurdubolonest.Base.{
  ℕ, ◌+◌, ◌≤◌, ◌≡◌, refl, sym, ap, ◌∙◌, Bool, true, false, not, ◌&&◌, ◌||◌, Option, none, some, inl,
  inr, List, [], ◌∷◌, ◌++◌, arith, ltb, ◌==◌, any, all, find, elem, Bool-cases, ==_iff,
}
use backendurdubolonest.Uploads.{R2Part, R2Upload, UploadManifest}
use backendurdubolonest.Uploads.Chunks.{add_chunk, is_part, replace_part, put_part_found, put_part}
use backendurdubolonest.Uploads.Chunks.Order.{is_increasing, add_chunk-elem}

abbrev pub sum_sizes : List R2Part → ℕ
sum_sizes [] = 0
sum_sizes (p ∷ ps) = p.size + sum_sizes ps

-- No two parts are of one chunk.
abbrev pub are_distinct : List R2Part → Bool
are_distinct [] = true
are_distinct (p ∷ ps) = not (any (is_part p.chunk_index) ps) && are_distinct ps

abbrev pub is_numbered : R2Part → Bool
is_numbered p = p.part_number == p.chunk_index + 1

-- The parts of an upload to R2 are those of the chunks.
pub record PartsFit (u : R2Upload) (chunks : List ℕ) : Type 0 where
  pub same : (i : ℕ) → any (is_part i) u.parts ≡ elem i chunks
  pub distinct : are_distinct u.parts ≡ true
  pub numbered : all is_numbered u.parts ≡ true
  pub bytes : u.uploaded_bytes ≡ sum_sizes u.parts

abbrev pub R2Fits : Option R2Upload → List ℕ → Type 0
R2Fits none chunks = Unit {0}
R2Fits (some u) chunks = PartsFit u chunks

pub record IsValid (m : UploadManifest) : Type 0 where
  pub increasing : is_increasing m.chunks ≡ true
  pub below : all (λ i. ltb i m.dto.total_chunks) m.chunks ≡ true
  pub r2 : R2Fits m.r2 m.chunks

replace_part-any :
    (j i e size : ℕ) (ps : List R2Part)
    → any (is_part j) (replace_part i e size ps) ≡ any (is_part j) ps
replace_part-any j i e size [] = refl
replace_part-any j i e size (p ∷ ps) = ground (arith, replace_part-any j i e size ps)

replace_part-distinct :
    (i e size : ℕ) (ps : List R2Part) → are_distinct (replace_part i e size ps) ≡ are_distinct ps
replace_part-distinct i e size [] = refl
replace_part-distinct i e size (p ∷ ps) =
    ground (arith, replace_part-any p.chunk_index i e size ps, replace_part-distinct i e size ps)

replace_part-numbered :
    (i e size : ℕ) (ps : List R2Part)
    → all is_numbered (replace_part i e size ps) ≡ all is_numbered ps
replace_part-numbered i e size [] = refl
replace_part-numbered i e size (p ∷ ps) = ground (arith, replace_part-numbered i e size ps)

-- The size of the part that is replaced leaves the sum, and the new size enters it.
replace_part-sum :
    (i e size : ℕ) (p : R2Part) (ps : List R2Part)
    → find (is_part i) ps ≡ some p
    → (sum_sizes (replace_part i e size ps) + p.size ≡ sum_sizes ps + size)
      × (p.size ≤ sum_sizes ps)
replace_part-sum i e size p [] h = ground arith
replace_part-sum i e size p (q ∷ qs) h = ground (arith, replace_part-sum i e size p qs)

find_part-any :
    (i : ℕ) (p : R2Part) (ps : List R2Part)
    → find (is_part i) ps ≡ some p
    → any (is_part i) ps ≡ true
find_part-any i p [] h = ground arith
find_part-any i p (q ∷ qs) h = ground (arith, find_part-any i p qs)

find-none-any : (i : ℕ) (ps : List R2Part) → find (is_part i) ps ≡ none → any (is_part i) ps ≡ false
find-none-any i [] h = refl
find-none-any i (q ∷ qs) h = ground (arith, find-none-any i qs)

push-any :
    (j : ℕ) (p : R2Part) (ps : List R2Part)
    → any (is_part j) (ps ++ p ∷ []) ≡ (p.chunk_index == j || any (is_part j) ps)
push-any j p [] = ground arith
push-any j p (q ∷ qs) = ground (arith, push-any j p qs)

push-distinct :
    (p : R2Part) (ps : List R2Part)
    → any (is_part p.chunk_index) ps ≡ false
    → are_distinct ps ≡ true
    → are_distinct (ps ++ p ∷ []) ≡ true
push-distinct p [] new h = refl
push-distinct p (q ∷ qs) new h = ground (arith, push-any q.chunk_index p qs, push-distinct p qs)

push-numbered :
    (p : R2Part) (ps : List R2Part)
    → all is_numbered (ps ++ p ∷ []) ≡ (is_numbered p && all is_numbered ps)
push-numbered p [] = ground arith
push-numbered p (q ∷ qs) = ground (arith, push-numbered p qs)

push-sum : (p : R2Part) (ps : List R2Part) → sum_sizes (ps ++ p ∷ []) ≡ sum_sizes ps + p.size
push-sum p [] = omega arith
push-sum p (q ∷ qs) = omega (arith, push-sum p qs)

part-seen :
    (i j : ℕ) (ps : List R2Part)
    → any (is_part i) ps ≡ true
    → (i == j || any (is_part j) ps) ≡ any (is_part j) ps
part-seen i j ps seen = elim (Bool-cases (i == j)) [
  | inl e ↦ ground (arith, ap (λ k. any (is_part k) ps) ((==_iff i j).0 e))
  | inr e ↦ ground (arith, e)
]

put_part_found-PartsFit :
    (i e size : ℕ) (found : Option R2Part) (u : R2Upload) (chunks : List ℕ)
    → find (is_part i) u.parts ≡ found
    → is_increasing chunks ≡ true
    → PartsFit u chunks
    → PartsFit (put_part_found i e size found u) (add_chunk i chunks)
put_part_found-PartsFit i e size none u chunks is_found h fit =
    let new : R2Part = record { chunk_index = i; part_number = i + 1; e_tag = e; size = size } in
    record {
      same = λ j.
          push-any j new u.parts
          ∙ ap (λ b. i == j || b) (fit.same j)
          ∙ sym (add_chunk-elem j i chunks h);
      distinct = push-distinct new u.parts (find-none-any i u.parts is_found) fit.distinct;
      numbered = ground (arith, push-numbered new u.parts, fit.numbered);
      bytes = omega (arith, push-sum new u.parts, fit.bytes);
    }
put_part_found-PartsFit i e size (some p) u chunks is_found h fit = record {
  same = λ j.
      replace_part-any j i e size u.parts
      ∙ sym (part-seen i j u.parts (find_part-any i p u.parts is_found))
      ∙ ap (λ b. i == j || b) (fit.same j)
      ∙ sym (add_chunk-elem j i chunks h);
  distinct = replace_part-distinct i e size u.parts ∙ fit.distinct;
  numbered = replace_part-numbered i e size u.parts ∙ fit.numbered;
  bytes = omega (arith, replace_part-sum i e size p u.parts is_found, fit.bytes);
}

pub put_part-PartsFit :
    (i e size : ℕ) (u : R2Upload) (chunks : List ℕ)
    → is_increasing chunks ≡ true
    → PartsFit u chunks
    → PartsFit (put_part i e size u) (add_chunk i chunks)
unfolding put_part
put_part-PartsFit i e size u chunks h fit =
    put_part_found-PartsFit i e size (find (is_part i) u.parts) u chunks refl h fit
