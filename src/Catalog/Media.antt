-- ===== src/Catalog/Media.antt =====
-- src/media-assets/media-assets.service.ts: the methods that change media assets. `list`, `details`
-- and `validate` only read.
use backendurdubolonest.Base.{
  ℕ, ◌+◌, ◌&&◌, ◌||◌, Bool, false, not, Option, none, some, Text, trim, ◌==◌, if◌then◌else◌,
  is_some, is_none, String,
}
use backendurdubolonest.Prisma.{Prisma}
use backendurdubolonest.Http.{
  Error, not_found, conflict, p2002, p2025, Action, ◌>>=◌, ◌>>◌, pure, gets, or_raise, raise_if,
  modify, rethrow,
}
use backendurdubolonest.Schema.{Backend, MediaAsset, MediaStatus, MediaType, success}
use backendurdubolonest.Audit.{audit_input, write_audit}
use backendurdubolonest.Auth.{AuthenticatedPrincipal, Request, Runtime}
use backendurdubolonest.Catalog.{has_live_season, update_media, removed_media, or_default, or_old}

pub record CreateMediaAssetDto : Type 0 where
  pub episode_id : ℕ
  pub media_type : MediaType
  pub provider : Text
  pub encrypted_locator : ℕ
  pub checksum : Option Text
  pub status : Option MediaStatus
  pub metadata : Option ℕ
  pub version : Option ℕ
  pub duration_seconds : Option ℕ
  pub size_bytes : Option ℕ

pub record UpdateMediaAssetDto : Type 0 where
  pub media_type : Option MediaType
  pub provider : Option Text
  pub encrypted_locator : Option ℕ
  pub checksum : Option Text
  pub status : Option MediaStatus
  pub metadata : Option ℕ
  pub version : Option ℕ
  pub duration_seconds : Option ℕ
  pub size_bytes : Option ℕ

abbrev pub media_in_use : Error → Error
media_in_use p2002 = conflict "Episode already has a media asset"
media_in_use e = e

-- The unique columns of `media_assets`.
abbrev pub media_clash : MediaAsset → MediaAsset → Bool
media_clash a b = a.id == b.id || a.episode_id == b.episode_id

abbrev lower : Runtime → Option Text → Option Text
lower env none = none
lower env (some t) = some (env.lower_case t)

abbrev pub new_media : Runtime → CreateMediaAssetDto → ℕ → MediaAsset
new_media env dto id = record {
  id = id;
  episode_id = dto.episode_id;
  kind = dto.media_type;
  media_type = dto.media_type;
  provider = trim dto.provider;
  encrypted_locator = dto.encrypted_locator;
  checksum = lower env dto.checksum;
  status = or_default dto.status MediaStatus.processing;
  metadata = dto.metadata;
  duration_seconds = dto.duration_seconds;
  size_bytes = dto.size_bytes;
  version = or_default dto.version 1;
  rotated_at = none;
  deleted_at = none;
}

-- `locatorChanged`
abbrev pub locator_changed : Option ℕ → MediaAsset → Bool
locator_changed none current = false
locator_changed (some locator) current = not (locator == current.encrypted_locator)

abbrev changed_provider : Option Text → Text → Text
changed_provider none old = old
changed_provider (some provider) old = trim provider

abbrev pub changed_version : Option ℕ → Bool → MediaAsset → ℕ → ℕ
changed_version none rotated current old = if rotated then current.version + 1 else old
changed_version (some version) rotated current old = version

-- The data of the update, from the row as it was read before.
abbrev pub with_changes : Runtime → UpdateMediaAssetDto → MediaAsset → ℕ → MediaAsset → MediaAsset
with_changes env dto current now m = record m {
  kind = or_default dto.media_type m.kind;
  media_type = or_default dto.media_type m.media_type;
  provider = changed_provider dto.provider m.provider;
  encrypted_locator = or_default dto.encrypted_locator m.encrypted_locator;
  checksum = or_old (lower env dto.checksum) m.checksum;
  status = or_default dto.status m.status;
  metadata = or_old dto.metadata m.metadata;
  duration_seconds = or_old dto.duration_seconds m.duration_seconds;
  size_bytes = or_old dto.size_bytes m.size_bytes;
  version =
      changed_version dto.version (locator_changed dto.encrypted_locator current) current m.version;
  rotated_at = if locator_changed dto.encrypted_locator current then some now else m.rotated_at;
}

abbrev pub restored : MediaAsset → MediaAsset
restored m = record m { deleted_at = none; status = MediaStatus.processing }

abbrev pub is_kept_media : ℕ → MediaAsset → Bool
is_kept_media id m = m.id == id && is_none m.deleted_at

module _ (db : Prisma) where
  abbrev audit_media : String → AuthenticatedPrincipal → ℕ → Request → Action Backend (Unit {0})
  audit_media action actor id r =
      write_audit db
        (audit_input (some actor.id) action "media_asset" (some id) success r.request_id)

  abbrev pub has_live_episode : Backend → ℕ → Bool
  has_live_episode s id = is_some (
      db.find_first (λ e. e.id == id && (is_none e.deleted_at && has_live_season db s e.season_id))
        s.episodes)

  unfoldable pub ensure_episode : ℕ → Action Backend (Unit {0})
  ensure_episode id = do
    found ← gets (λ s. has_live_episode s id)
    raise_if (not found) (not_found "Episode not found")

  unfoldable pub create_row : MediaAsset → Action Backend (Unit {0})
  create_row row = do
    table ← gets (λ s. s.media_assets)
    grown ← or_raise p2002 (db.create media_clash row table)
    modify (λ s. record s { media_assets = grown })

  unfoldable pub create :
      Runtime
      → CreateMediaAssetDto
      → ℕ
      → AuthenticatedPrincipal
      → Request
      → Action Backend MediaAsset
  unfolding ensure_episode create_row
  create env dto id actor r = do
    ensure_episode dto.episode_id
    existing ←
        gets (λ s. is_some (db.find_first (λ m. m.episode_id == dto.episode_id) s.media_assets))
    raise_if existing (conflict "Episode already has a media asset; update or restore it instead")
    rethrow media_in_use do
      create_row (new_media env dto id)
      audit_media "content.media_create" actor id r
      pure (new_media env dto id)

  -- `update` of the row with this key; no unique column is among the data.
  unfoldable pub update_row : ℕ → (MediaAsset → MediaAsset) → Action Backend (Unit {0})
  unfolding update_media
  update_row id data_row = do
    changed ← update_media db (λ m. m.id == id) data_row
    raise_if (changed == 0) p2025

  unfoldable pub update :
      Runtime
      → ℕ
      → UpdateMediaAssetDto
      → AuthenticatedPrincipal
      → Request
      → Action Backend (Unit {0})
  unfolding update_row
  update env id dto actor r = do
    current ←
        (gets (λ s. db.find_first (is_kept_media id) s.media_assets)
          >>= or_raise (not_found "Media asset not found"))
    update_row id (with_changes env dto current r.now)
    audit_media "content.media_update" actor id r

  unfoldable pub remove : ℕ → AuthenticatedPrincipal → Request → Action Backend (Unit {0})
  unfolding update_media
  remove id actor r = do
    changed ← update_media db (is_kept_media id) (removed_media r.now)
    raise_if (changed == 0) (not_found "Media asset not found")
    audit_media "content.media_delete" actor id r

  unfoldable pub restore : ℕ → AuthenticatedPrincipal → Request → Action Backend (Unit {0})
  unfolding update_row
  restore id actor r = do
    found ← gets (λ s. is_some (
        db.find_first (λ m. m.id == id && (is_some m.deleted_at && has_live_episode s m.episode_id))
          s.media_assets))
    raise_if (not found) (not_found "Deleted media asset or parent is unavailable")
    update_row id restored
    audit_media "content.media_restore" actor id r
