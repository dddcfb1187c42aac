-- ===== src/Uploads.antt =====
-- src/uploads/uploads.service.ts: uploads in chunks, to a directory or to an R2 bucket. The S3
-- client, the file system, `fetch` and the locator cipher are the fields of `Storage`; a command
-- that it sends ends with a value or with an exception. What the service keeps is the manifests in
-- Redis, the staged chunks and the audit trail.
pub mod Manifest
pub mod Chunks
pub mod Finish
pub mod Staged
pub mod Steps
pub mod Numbers
pub mod Whole
pub mod Pieces
pub mod Owner
use backendurdubolonest.Base.{
  ℕ, ◌+◌, ◌-◌, ◌*◌, ◌≤◌, Bool, true, false, not, ◌&&◌, ◌||◌, Option, none, some, List, [], ◌∷◌,
  ◌++◌, map, Text, take, is_empty, ltb, leb, ◌==◌, if◌then◌else◌, length, find, keep, elem, String,
}
use backendurdubolonest.Http.{
  Error, Result, ok, err, bad_request, not_found, service_unavailable, Action, ◌>>=◌, ◌>>◌, pure,
  raise, gets, or_raise, raise_if, modify,
}
use backendurdubolonest.Schema.{AuditEvent, success}
use backendurdubolonest.Audit.{audit_input}
use backendurdubolonest.Auth.{AuthenticatedPrincipal, Request}

pub data Purpose : Type 0 where
  episode_video thumbnail notification_image banner apk support_attachment : Purpose

pub record InitUploadDto : Type 0 where
  pub purpose : Purpose
  pub target_id : Option ℕ
  pub original_name : Text
  pub mime_type : Text
  pub size_bytes : ℕ
  pub total_chunks : ℕ

pub record R2Part : Type 0 where
  pub chunk_index : ℕ
  pub part_number : ℕ
  pub e_tag : ℕ
  pub size : ℕ

pub record R2Upload : Type 0 where
  pub key : Text
  pub provider_upload_id : ℕ
  pub parts : List R2Part
  pub uploaded_bytes : ℕ

pub record UploadManifest : Type 0 where
  pub dto : InitUploadDto
  pub upload_id : ℕ
  pub actor_id : ℕ
  pub created_at : ℕ
  pub chunks : List ℕ
  pub r2 : Option R2Upload

-- What `forward` returns: a key or an address, where the storage gives one.
pub record Remote : Type 0 where
  pub storage_key : Option Text
  pub url : Option Text

pub record Storage : Type 0 where
  -- Whether the account, the key and the secret of R2 are configured.
  pub has_r2 : Bool
  pub bucket : Text
  pub public_base_url : Text
  pub max_upload_bytes : ℕ
  pub extname : Text → Text
  pub lower_case : Text → Text
  pub encrypt : Text → Text
  pub create_multipart : Text → Text → Result (Option ℕ)
  pub upload_part : Text → ℕ → ℕ → List ℕ → Result (Option ℕ)
  pub complete_multipart : Text → ℕ → List (ℕ × ℕ) → Result (Unit {0})
  pub put_object : Text → List ℕ → Result (Unit {0})
  -- `STORAGE_UPLOAD_URL`, empty where none is configured, and the protocol that `new URL` reads in it.
  pub upload_url : Text
  pub protocol : Text → Option Text
  -- The request to it: whether the response is `ok`, and its body.
  pub fetch : UploadManifest → List ℕ → Result (Bool × Remote)

-- The generated identifiers and the date of a request; `id_text`, `year` and `month` are the
-- identifier of the upload and the date as they are printed.
pub record Stamp : Type 0 where
  pub id : ℕ
  pub id_text : Text
  pub uuid : Text
  pub year : Text
  pub month : Text

pub record Staging : Type 0 where
  -- Under the key of an upload: when the entry expires, and the manifest.
  pub manifests : List (ℕ × ℕ × UploadManifest)
  -- A staged chunk by its upload and its index.
  pub files : List (ℕ × ℕ × List ℕ)
  pub audit_events : List AuditEvent

abbrev pub Bytes : Type 0
Bytes = List ℕ

abbrev pub max_chunk_bytes : ℕ
max_chunk_bytes = 16 * 1024 * 1024

abbrev pub min_part_bytes : ℕ
min_part_bytes = 5 * 1024 * 1024

abbrev pub manifest_ttl_seconds : ℕ
manifest_ttl_seconds = 24 * 60 * 60

abbrev pub not_this_manifest : ℕ → ℕ × ℕ × UploadManifest → Bool
not_this_manifest id (key, until, m) = not (key == id)

abbrev pub is_live_manifest : ℕ → ℕ → ℕ × ℕ × UploadManifest → Bool
is_live_manifest id now (key, until, m) = key == id && ltb now until

abbrev pub manifest_value : Option (ℕ × ℕ × UploadManifest) → Option UploadManifest
manifest_value none = none
manifest_value (some (key, until, m)) = some m

abbrev is_file_of : ℕ → ℕ × ℕ × Bytes → Bool
is_file_of id (upload_id, index, bytes) = upload_id == id

abbrev pub is_file : ℕ → ℕ → ℕ × ℕ × Bytes → Bool
is_file id index (upload_id, i, bytes) = upload_id == id && i == index

unfoldable pub save_manifest : ℕ → UploadManifest → ℕ → Action Staging (Unit {0})
save_manifest id m now = modify λ s. record s {
  manifests = (id, now + manifest_ttl_seconds * 1000, m) ∷ keep (not_this_manifest id) s.manifests;
}

unfoldable pub delete_manifest : ℕ → Action Staging (Unit {0})
delete_manifest id = modify λ s. record s { manifests = keep (not_this_manifest id) s.manifests }

unfoldable pub load_manifest : ℕ → ℕ → Staging → Option UploadManifest
load_manifest id now s = manifest_value (find (is_live_manifest id now) s.manifests)

-- `writeFile` with the flag `w`, `readFile` and `rm` of a directory.
unfoldable pub write_chunk : ℕ → ℕ → Bytes → Action Staging (Unit {0})
write_chunk id index bytes =
    modify
      λ s. record s { files = (id, index, bytes) ∷ keep (λ f. not (is_file id index f)) s.files }

abbrev pub file_bytes : Option (ℕ × ℕ × Bytes) → Option Bytes
file_bytes none = none
file_bytes (some (id, index, bytes)) = some bytes

unfoldable pub read_chunk : ℕ → ℕ → Staging → Option Bytes
read_chunk id index s = file_bytes (find (is_file id index) s.files)

unfoldable pub cleanup : ℕ → Action Staging (Unit {0})
cleanup id = modify λ s. record s { files = keep (λ f. not (is_file_of id f)) s.files }

unfoldable pub audit_upload :
    String → AuthenticatedPrincipal → ℕ → Request → Action Staging (Unit {0})
audit_upload action actor id r = modify λ s. record s {
  audit_events =
      audit_input (some actor.id) action "upload" (some id) success r.request_id ∷ s.audit_events;
}

-- A command that is awaited.
unfoldable pub await : {A : Type 0} → Result A → Action Staging A
await (ok a) s = (ok a, s)
await (err e) s = (err e, s)

abbrev pub is_owner : AuthenticatedPrincipal → Option UploadManifest → Bool
is_owner actor none = false
is_owner actor (some m) = m.actor_id == actor.id

-- `manifest`
unfoldable pub require_manifest : ℕ → AuthenticatedPrincipal → ℕ → Action Staging UploadManifest
unfolding load_manifest
require_manifest id actor now = do
  found ← gets (load_manifest id now)
  raise_if (not (is_owner actor found)) (not_found "Upload session not found")
  or_raise (not_found "Upload session not found") found
