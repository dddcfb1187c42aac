-- ===== src/Uploads/Pieces.antt =====
-- The staged chunks of an upload are read back as one file.
use backendurdubolonest.Base.{
  ℕ, suc, ◌+◌, ◌<◌, ◌≡◌, refl, ap, ◌∙◌, false, not, some, List, [], ◌∷◌, ◌++◌, arith, ◌==◌, find,
  keep, length,
}
use backendurdubolonest.Http.{ok, ◌>>=◌, pure, modify}
use backendurdubolonest.Uploads.{
  Storage, Staging, Bytes, is_file, file_bytes, write_chunk, read_chunk,
}
use backendurdubolonest.Uploads.Finish.{read_chunks}

-- The pieces are written one after the other, at the indices from `i` on.
abbrev pub stage : ℕ → ℕ → List Bytes → Staging → Staging
stage id i [] s = s
stage id i (b ∷ bs) s = stage id (i + 1) bs (write_chunk id i b s).1

abbrev pub joined : List Bytes → Bytes
joined [] = []
joined (b ∷ bs) = b ++ joined bs

find-kept :
    (id i j : ℕ) (fs : List (ℕ × ℕ × Bytes))
    → (i == j) ≡ false
    → find (is_file id i) (keep (λ f. not (is_file id j f)) fs) ≡ find (is_file id i) fs
find-kept id i j [] h = refl
find-kept id i j ((k, l, b) ∷ fs) h = ground (arith, find-kept id i j fs h)

read_chunk-written :
    (id i : ℕ) (b : Bytes) (s : Staging) → read_chunk id i (write_chunk id i b s).1 ≡ some b
unfolding read_chunk write_chunk modify
read_chunk-written id i b s = ground arith

read_chunk-other :
    (id i j : ℕ) (b : Bytes) (s : Staging)
    → i < j
    → read_chunk id i (write_chunk id j b s).1 ≡ read_chunk id i s
unfolding read_chunk write_chunk modify
read_chunk-other id i j b s h =
    ap file_bytes (ground (arith, find-kept id i j s.files (ground arith)))

read_chunk-stage :
    (id i j : ℕ) (bs : List Bytes) (s : Staging)
    → i < j
    → read_chunk id i (stage id j bs s) ≡ read_chunk id i s
read_chunk-stage id i j [] s h = refl
read_chunk-stage id i j (b ∷ bs) s h =
    read_chunk-stage id i (j + 1) bs (write_chunk id j b s).1 (ground arith)
    ∙ read_chunk-other id i j b s h

read_step :
    (env : Storage) (id i n : ℕ) (s : Staging) (b rest : Bytes)
    → read_chunk id i s ≡ some b
    → read_chunks env id (i + 1) n s ≡ (ok rest, s)
    → read_chunks env id i (suc n) s ≡ (ok (b ++ rest), s)
unfolding read_chunks ◌>>=◌
read_step env id i n s b rest e f = rw (e, f) refl

-- Chunks that are staged one after the other, over whatever is staged already, an earlier version of
-- the same chunks included, are read back as the file that they are the pieces of, and reading leaves
-- the state as it is.
pub read_chunks-stage :
    (env : Storage) (id i : ℕ) (bs : List Bytes) (s : Staging)
    → read_chunks env id i (length bs) (stage id i bs s) ≡ (ok (joined bs), stage id i bs s)
unfolding read_chunks pure
read_chunks-stage env id i [] s = refl
read_chunks-stage env id i (b ∷ bs) s =
    let t = (write_chunk id i b s).1 in
    read_step env id i (length bs) (stage id (i + 1) bs t) b (joined bs)
      (read_chunk-stage id i (i + 1) bs t (ground arith) ∙ read_chunk-written id i b s)
      (read_chunks-stage env id (i + 1) bs t)
