-- ===== src/Uploads/Manifest.antt =====
-- `init` of src/uploads/uploads.service.ts, and the key under which a file is stored.
use backendurdubolonest.Base.{
  ℕ, Bool, true, false, not, ◌&&◌, ◌||◌, Option, none, some, [], ◌∷◌, ◌++◌, Text, codes, is_empty,
  ltb, leb, ◌==◌, if◌then◌else◌, length, keep,
}
use backendurdubolonest.Http.{
  bad_request, service_unavailable, Action, ◌>>=◌, ◌>>◌, pure, or_raise, raise_if,
}
use backendurdubolonest.Auth.{AuthenticatedPrincipal, Request}
use backendurdubolonest.Uploads.{
  Purpose, InitUploadDto, R2Upload, Storage, Stamp, Staging, save_manifest, audit_upload, await,
}

abbrev pub purpose_text : Purpose → Text
purpose_text Purpose.episode_video = codes "episode_video"
purpose_text Purpose.thumbnail = codes "thumbnail"
purpose_text Purpose.notification_image = codes "notification_image"
purpose_text Purpose.banner = codes "banner"
purpose_text Purpose.apk = codes "apk"
purpose_text Purpose.support_attachment = codes "support_attachment"

abbrev pub is_episode_video : Purpose → Bool
is_episode_video Purpose.episode_video = true
is_episode_video _ = false

-- `[a-z0-9.]`
abbrev pub is_extension_character : ℕ → Bool
is_extension_character c = (leb b'a' c && leb c b'z') || ((leb b'0' c && leb c b'9') || c == b'.')

abbrev pub pad_two : Text → Text
pad_two [] = b'0' ∷ b'0' ∷ []
pad_two (c ∷ []) = b'0' ∷ c ∷ []
pad_two (c ∷ d ∷ cs) = c ∷ d ∷ cs

-- `publicBaseUrl.replace(/\/+$/, '')`
unfoldable pub strip_slashes : Text → Text
strip_slashes [] = []
strip_slashes (c ∷ s) = elim (strip_slashes s) [
  | [] ↦ if c == b'/' then [] else c ∷ []
  | d ∷ r ↦ c ∷ d ∷ r
]

module _ (env : Storage) where
  abbrev raw_extension : Text → Text
  raw_extension name = keep is_extension_character (env.lower_case (env.extname name))

  unfoldable pub extension : Text → Text
  extension name =
      if not (is_empty (raw_extension name)) && leb (length (raw_extension name)) 10
      then raw_extension name
      else []

  unfoldable pub storage_key : InitUploadDto → Stamp → Text
  unfolding extension
  storage_key dto stamp =
      purpose_text dto.purpose
      ++ b'/'
        ∷ (stamp.year
            ++ b'/' ∷ (pad_two stamp.month ++ b'/' ∷ (stamp.uuid ++ extension dto.original_name)))

  abbrev pub content_type : Text → Text
  content_type mime_type =
      if is_empty mime_type then codes "application/octet-stream" else mime_type

  -- `!bucket || !publicBaseUrl`
  abbrev pub is_unconfigured : Bool
  is_unconfigured = is_empty env.bucket || is_empty (strip_slashes env.public_base_url)

  -- The upload that R2 opens, where there is a client.
  unfoldable pub open_r2 : InitUploadDto → Stamp → Action Staging (Option R2Upload)
  unfolding storage_key await
  open_r2 dto stamp = do
    raise_if is_unconfigured (service_unavailable "R2 storage is not fully configured")
    started ← await (env.create_multipart (storage_key dto stamp) (content_type dto.mime_type))
    provider_id ← or_raise (service_unavailable "R2 multipart upload could not start") started
    pure (
        some (record {
          key = storage_key dto stamp;
          provider_upload_id = provider_id;
          parts = [];
          uploaded_bytes = 0;
        }))

  unfoldable pub open_multipart : InitUploadDto → Stamp → Action Staging (Option R2Upload)
  unfolding open_r2
  open_multipart dto stamp = if env.has_r2 then open_r2 dto stamp else pure none

  unfoldable pub init : InitUploadDto → Stamp → AuthenticatedPrincipal → Request → Action Staging ℕ
  unfolding open_multipart save_manifest audit_upload
  init dto stamp actor r = do
    raise_if (ltb env.max_upload_bytes dto.size_bytes) (bad_request "File is too large")
    opened ← open_multipart dto stamp
    save_manifest stamp.id
        (record {
          dto = dto;
          upload_id = stamp.id;
          actor_id = actor.id;
          created_at = r.now;
          chunks = [];
          r2 = opened;
        })
        r.now
    audit_upload "upload.init" actor stamp.id r
    pure stamp.id
