-- ===== src/Uploads/Finish.antt =====
-- `complete`, `cancel` and `forward` of src/uploads/uploads.service.ts.
use backendurdubolonest.Base.{
  ℕ, zero, suc, ◌+◌, Bool, not, ◌&&◌, Option, none, some, List, [], ◌∷◌, ◌++◌, map, Text, codes,
  is_empty, text_eq, leb, ◌==◌, if◌then◌else◌, length, is_none,
}
use backendurdubolonest.Http.{
  bad_request, service_unavailable, internal, Action, ◌>>=◌, ◌>>◌, pure, gets, or_raise, raise_if,
}
use backendurdubolonest.Auth.{AuthenticatedPrincipal, Request}
use backendurdubolonest.Uploads.{
  R2Part, R2Upload, UploadManifest, Remote, Storage, Stamp, Staging, Bytes, require_manifest,
  delete_manifest, read_chunk, cleanup, audit_upload, await,
}
use backendurdubolonest.Uploads.Manifest.{
  is_episode_video, strip_slashes, storage_key, is_unconfigured,
}

-- What `complete` answers of the stored file.
pub record Completed : Type 0 where
  pub file_size : ℕ
  pub encrypted_locator : Option Text
  pub storage_key : Option Text

-- `parts.sort((a, b) => a.partNumber - b.partNumber)`
unfoldable pub insert_part : R2Part → List R2Part → List R2Part
insert_part p [] = p ∷ []
insert_part p (q ∷ qs) =
    if leb p.part_number q.part_number then p ∷ q ∷ qs else q ∷ insert_part p qs

unfoldable pub sort_parts : List R2Part → List R2Part
unfolding insert_part
sort_parts [] = []
sort_parts (p ∷ ps) = insert_part p (sort_parts ps)

-- The parts that the multipart upload is completed with: tags and numbers.
unfoldable pub listed_parts : List R2Part → List (ℕ × ℕ)
unfolding sort_parts
listed_parts parts = map (λ p. (p.e_tag, p.part_number)) (sort_parts parts)

-- `remote.storageKey ?? staged`
abbrev key_or : Text → Option Text → Text
key_or staged none = staged
key_or staged (some key) = key

-- The address of a remote file, an empty one being none.
abbrev present : Option Text → Option Text
present none = none
present (some t) = if is_empty t then none else some t

abbrev pub is_file_missing : Remote → Bool
is_file_missing r = is_none (present r.storage_key) && is_none (present r.url)

module _ (env : Storage) where
  abbrev pub public_url : Text → Text
  public_url key = strip_slashes env.public_base_url ++ b'/' ∷ key

  -- The answer, with a locator for a video and with a key for anything else.
  abbrev pub r2_answer : UploadManifest → R2Upload → Completed
  r2_answer m u =
      if is_episode_video m.dto.purpose
      then record {
        file_size = u.uploaded_bytes;
        encrypted_locator = some (env.encrypt (public_url u.key));
        storage_key = none;
      }
      else record {
        file_size = u.uploaded_bytes;
        encrypted_locator = none;
        storage_key = some u.key;
      }

  -- `complete`, of an upload to R2.
  unfoldable pub complete_r2 :
      UploadManifest → R2Upload → ℕ → AuthenticatedPrincipal → Request → Action Staging Completed
  unfolding listed_parts await delete_manifest audit_upload
  complete_r2 m u upload_id actor r = do
    raise_if (not (length u.parts == m.dto.total_chunks))
        (bad_request "Not all storage parts have been received")
    raise_if (not (u.uploaded_bytes == m.dto.size_bytes))
        (bad_request "Uploaded file size does not match the manifest")
    _ ← await (env.complete_multipart u.key u.provider_upload_id (listed_parts u.parts))
    delete_manifest upload_id
    audit_upload "upload.complete" actor upload_id r
    pure (r2_answer m u)

  -- The chunks from `index` on, `left` of them; a file that is not there is an error of `readFile`.
  unfoldable pub read_chunks : ℕ → ℕ → ℕ → Action Staging Bytes
  unfolding read_chunk
  read_chunks upload_id index zero = pure []
  read_chunks upload_id index (suc left) = do
    bytes ← (gets (read_chunk upload_id index) >>= or_raise (internal "ENOENT"))
    rest ← read_chunks upload_id (index + 1) left
    pure (bytes ++ rest)

  unfoldable pub forward_to_r2 : UploadManifest → Stamp → Bytes → Action Staging Remote
  unfolding storage_key await
  forward_to_r2 m stamp file = do
    raise_if (is_unconfigured env) (service_unavailable "R2 storage is not fully configured")
    _ ← await (env.put_object (storage_key env m.dto stamp) file)
    pure (record {
      storage_key = some (storage_key env m.dto stamp);
      url = some (public_url (storage_key env m.dto stamp));
    })

  unfoldable pub forward_by_post : UploadManifest → Bytes → Action Staging Remote
  unfolding await
  forward_by_post m file = do
    protocol ←
        or_raise (service_unavailable "Storage upload endpoint is invalid")
          (env.protocol env.upload_url)
    raise_if (not (text_eq protocol (codes "https:")))
        (service_unavailable "Storage upload endpoint must use HTTPS")
    response ← await (env.fetch m file)
    raise_if (not response.0) (service_unavailable "Storage upload failed")
    raise_if (is_file_missing response.1) (service_unavailable "Storage upload response is invalid")
    pure response.1

  unfoldable pub forward : UploadManifest → Stamp → Bytes → Action Staging Remote
  unfolding forward_to_r2 forward_by_post
  forward m stamp file =
      if env.has_r2
      then forward_to_r2 m stamp file
      else (if is_empty env.upload_url
          then pure (record { storage_key = none; url = none })
          else forward_by_post m file)

  abbrev video_url : UploadManifest → Remote → Option Text
  video_url m remote = if is_episode_video m.dto.purpose then present remote.url else none

  abbrev pub staged_answer : ℕ → Text → Remote → Option Text → Completed
  staged_answer size staged remote (some url) = record {
    file_size = size;
    encrypted_locator = some (env.encrypt url);
    storage_key = none;
  }
  staged_answer size staged remote none = record {
    file_size = size;
    encrypted_locator = none;
    storage_key = some (key_or staged remote.storage_key);
  }

  -- `complete`, of an upload to the staging directory.
  unfoldable pub complete_staged :
      UploadManifest → ℕ → Stamp → AuthenticatedPrincipal → Request → Action Staging Completed
  unfolding read_chunks forward cleanup delete_manifest audit_upload
  complete_staged m upload_id stamp actor r = do
    combined ← read_chunks upload_id 0 m.dto.total_chunks
    raise_if (not (length combined == m.dto.size_bytes))
        (bad_request "Uploaded file size does not match the manifest")
    remote ← forward m stamp combined
    cleanup upload_id
    delete_manifest upload_id
    audit_upload "upload.complete" actor upload_id r
    pure (
        staged_answer (length combined) (codes "staged:" ++ stamp.id_text) remote
          (video_url m remote))

  unfoldable pub complete_found :
      UploadManifest
      → ℕ
      → Stamp
      → AuthenticatedPrincipal
      → Request
      → Option R2Upload
      → Action Staging Completed
  unfolding complete_r2 complete_staged
  complete_found m upload_id stamp actor r (some u) = complete_r2 m u upload_id actor r
  complete_found m upload_id stamp actor r none = complete_staged m upload_id stamp actor r

  unfoldable pub complete : ℕ → Stamp → AuthenticatedPrincipal → Request → Action Staging Completed
  unfolding require_manifest complete_found
  complete upload_id stamp actor r = do
    m ← require_manifest upload_id actor r.now
    raise_if (not (length m.chunks == m.dto.total_chunks))
        (bad_request "Not all upload chunks have been received")
    complete_found m upload_id stamp actor r m.r2

-- The command that aborts the upload at R2 changes nothing here, and its failure is ignored.
unfoldable pub discard : ℕ → Option R2Upload → Action Staging (Unit {0})
unfolding cleanup
discard upload_id (some u) = pure tt
discard upload_id none = cleanup upload_id

unfoldable pub cancel : ℕ → AuthenticatedPrincipal → Request → Action Staging (Unit {0})
unfolding require_manifest discard delete_manifest audit_upload
cancel upload_id actor r = do
  m ← require_manifest upload_id actor r.now
  discard upload_id m.r2
  delete_manifest upload_id
  audit_upload "upload.cancel" actor upload_id r
