-- ===== src/Uploads/Chunks.antt =====
-- `chunk` of src/uploads/uploads.service.ts.
pub mod Order
pub mod Valid
use backendurdubolonest.Base.{
  ℕ, ◌+◌, ◌-◌, Bool, true, false, not, ◌&&◌, ◌||◌, Option, none, some, List, [], ◌∷◌, ◌++◌, ltb,
  leb, ◌==◌, if◌then◌else◌, length, find, elem, is_none,
}
use backendurdubolonest.Http.{
  bad_request, service_unavailable, Action, ◌>>=◌, ◌>>◌, pure, raise, or_raise, raise_if,
}
use backendurdubolonest.Auth.{AuthenticatedPrincipal, Request}
use backendurdubolonest.Uploads.{
  R2Part, R2Upload, UploadManifest, Storage, Staging, Bytes, max_chunk_bytes, min_part_bytes,
  save_manifest, require_manifest, write_chunk, audit_upload, await,
}

-- `sort((a, b) => a - b)`
unfoldable pub insert_ordered : ℕ → List ℕ → List ℕ
insert_ordered n [] = n ∷ []
insert_ordered n (x ∷ xs) = if leb n x then n ∷ x ∷ xs else x ∷ insert_ordered n xs

unfoldable pub sort : List ℕ → List ℕ
unfolding insert_ordered
sort [] = []
sort (x ∷ xs) = insert_ordered x (sort xs)

-- `push` where the index is new, then `sort`.
unfoldable pub add_chunk : ℕ → List ℕ → List ℕ
unfolding sort
add_chunk i chunks = if elem i chunks then sort chunks else sort (i ∷ chunks)

abbrev pub is_part : ℕ → R2Part → Bool
is_part i p = p.chunk_index == i

-- The part that `find` has found is changed in place.
abbrev pub replace_part : ℕ → ℕ → ℕ → List R2Part → List R2Part
replace_part i e_tag size [] = []
replace_part i e_tag size (p ∷ ps) =
    if is_part i p
    then record p { e_tag = e_tag; size = size } ∷ ps
    else p ∷ replace_part i e_tag size ps

abbrev pub put_part_found : ℕ → ℕ → ℕ → Option R2Part → R2Upload → R2Upload
put_part_found i e_tag size none u = record u {
  parts =
      u.parts ++ record { chunk_index = i; part_number = i + 1; e_tag = e_tag; size = size } ∷ [];
  uploaded_bytes = u.uploaded_bytes + size;
}
put_part_found i e_tag size (some previous) u = record u {
  parts = replace_part i e_tag size u.parts;
  uploaded_bytes = u.uploaded_bytes - previous.size + size;
}

unfoldable pub put_part : ℕ → ℕ → ℕ → R2Upload → R2Upload
put_part i e_tag size u = put_part_found i e_tag size (find (is_part i) u.parts) u

module _ (env : Storage) where
  -- What a chunk makes of the R2 upload of its manifest, where it has one.
  unfoldable pub store_chunk :
      UploadManifest → ℕ → Bytes → Option R2Upload → Action Staging (Option R2Upload)
  unfolding put_part write_chunk await
  store_chunk m i bytes (some u) = do
    raise_if (not (i == m.dto.total_chunks - 1) && ltb (length bytes) min_part_bytes)
        (bad_request "Chunk is too small for multipart storage")
    result ← await (env.upload_part u.key u.provider_upload_id (i + 1) bytes)
    e_tag ← or_raise (service_unavailable "R2 upload part did not return an ETag") result
    pure (some (put_part i e_tag (length bytes) u))
  store_chunk m i bytes none = do write_chunk m.upload_id i bytes; pure none

  -- `chunk_index` is `none` where it is not an integer from zero on, `file` where no file was sent.
  -- The answer is how many chunks have been received.
  unfoldable pub chunk :
      ℕ → Option ℕ → Option Bytes → AuthenticatedPrincipal → Request → Action Staging ℕ
  unfolding require_manifest store_chunk add_chunk save_manifest audit_upload
  chunk upload_id chunk_index file actor r = do
    m ← require_manifest upload_id actor r.now
    i ← or_raise (bad_request "Chunk index is invalid") chunk_index
    raise_if (leb m.dto.total_chunks i) (bad_request "Chunk index is invalid")
    bytes ← or_raise (bad_request "Chunk is missing or too large") file
    raise_if (ltb max_chunk_bytes (length bytes)) (bad_request "Chunk is missing or too large")
    r2 ← store_chunk m i bytes m.r2
    let chunks = add_chunk i m.chunks
    save_manifest upload_id (record m { chunks = chunks; r2 = r2 }) r.now
    audit_upload "upload.chunk" actor upload_id r
    pure (length chunks)
