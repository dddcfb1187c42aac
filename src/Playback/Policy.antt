-- ===== src/Playback/Policy.antt =====
-- `authorize` of src/playback/playback-policy.service.ts.
pub mod Sound
use backendurdubolonest.Base.{
  ℕ, Bool, true, false, not, ◌&&◌, ◌||◌, Option, none, some, Text, ltb, leb, ◌==◌, if◌then◌else◌,
  is_some, is_none, any,
}
use backendurdubolonest.Prisma.{Prisma}
use backendurdubolonest.Http.{
  Error, forbidden, not_found, Action, ◌>>=◌, ◌>>◌, pure, raise, gets, or_raise, raise_if, when,
}
use backendurdubolonest.Schema.{
  Backend, Drama, Season, Episode, MediaAsset, MediaType, TrustedDevice, PlaybackSession, denied,
  is_user_active, is_device_active, is_public, is_published_status, is_media_active,
  is_playback_active,
}
use backendurdubolonest.Audit.{audit_input, write_audit}
use backendurdubolonest.Auth.{AuthenticatedPrincipal, Request}
use backendurdubolonest.Auth.Devices.{find_device}
use backendurdubolonest.Subscriptions.{validate_subscription}
use backendurdubolonest.Access.Grants.{validate_access}
use backendurdubolonest.Playback.{PlaybackDeviceDto, Player, fingerprint_hash}

pub record PlaybackAuthorizationContext : Type 0 where
  pub user_id : ℕ
  pub episode_id : ℕ
  pub media_asset_id : ℕ
  pub media_type : MediaType
  pub encrypted_locator : ℕ
  pub is_premium : Bool
  pub trusted_device_id : ℕ
  pub fingerprint_hash : ℕ
  pub device_id : ℕ

-- `drama: { deletedAt: null, isPublished: true }`
abbrev pub is_drama_live : Backend → ℕ → Bool
is_drama_live s id = any (λ d. d.id == id && (is_none d.deleted_at && d.is_published)) s.dramas

-- `season: { deletedAt: null, drama: … }`
abbrev pub is_season_live : Backend → ℕ → Bool
is_season_live s id =
    any (λ x. x.id == id && (is_none x.deleted_at && is_drama_live s x.drama_id)) s.seasons

-- The `where` clause of the episode.
abbrev pub is_watchable : Backend → ℕ → Episode → Bool
is_watchable s id e =
    e.id == id
    && (is_none e.deleted_at
        && (e.is_published
            && (is_published_status e.status
                && (is_public e.visibility && is_season_live s e.season_id))))

abbrev pub is_available : MediaAsset → Bool
is_available m = is_none m.deleted_at && is_media_active m.status

-- Another playback than that of this episode on this device.
abbrev pub is_other_playback : ℕ → ℕ → ℕ → ℕ → PlaybackSession → Bool
is_other_playback user_id episode_id device_id now x =
    x.user_id == user_id
    && (is_playback_active x.status
        && (ltb now x.expires_at
            && not (x.episode_id == episode_id && x.trusted_device_id == device_id)))

abbrev pub is_trusted : Option TrustedDevice → Bool
is_trusted none = false
is_trusted (some d) = is_device_active d.status

module _ (db : Prisma) where
  unfoldable pub find_episode : ℕ → Backend → Option Episode
  find_episode id s = db.find_first (is_watchable s id) s.episodes

  unfoldable pub media_of : ℕ → Backend → Option MediaAsset
  media_of episode_id s = db.find_first (λ m. m.episode_id == episode_id) s.media_assets

  unfoldable pub count_other_playbacks : ℕ → ℕ → ℕ → ℕ → Backend → ℕ
  count_other_playbacks user_id episode_id device_id now s =
      db.count_rows (is_other_playback user_id episode_id device_id now) s.playback_sessions

  unfoldable pub write_denial : ℕ → ℕ → ℕ → Action Backend (Unit {0})
  unfolding write_audit
  write_denial actor_id episode_id request_id = write_audit db (
      audit_input (some actor_id) "playback.authorization_denied" "episode" (some episode_id) denied
        request_id)

  -- `if (…) { await this.denied(…); throw … }`
  unfoldable pub deny_if : Bool → ℕ → ℕ → ℕ → Error → Action Backend (Unit {0})
  unfolding write_denial
  deny_if c actor_id episode_id request_id e = do
    when c (write_denial actor_id episode_id request_id)
    raise_if c e

  -- Whether a subscription or a grant lets the user watch a premium episode.
  unfoldable pub is_entitled : ℕ → ℕ → ℕ → Backend → Bool
  is_entitled user_id episode_id now s =
      is_some (validate_subscription db user_id now s)
      || (validate_access db episode_id user_id now s).allowed

  module _ (env : Player) where
    -- From the device on; `device` is the row that `findUnique` has found.
    unfoldable pub authorize_device :
        AuthenticatedPrincipal
        → Episode
        → MediaAsset
        → PlaybackDeviceDto
        → Bool
        → Request
        → Option TrustedDevice
        → Action Backend PlaybackAuthorizationContext
    unfolding deny_if
    authorize_device principal episode media dto allow_existing_session r none = do
      deny_if true principal.id episode.id r.request_id (forbidden "Trusted device is required")
      raise (forbidden "Trusted device is required")
    authorize_device principal episode media dto allow_existing_session r (some device) = do
      deny_if (not (is_device_active device.status)) principal.id episode.id r.request_id
          (forbidden "Trusted device is required")
      deny_if (not (device.fingerprint_hash == fingerprint_hash env dto.fingerprint)) principal.id
          episode.id r.request_id (forbidden "Device validation failed")
      active ← gets (count_other_playbacks principal.id episode.id device.id r.now)
      deny_if (not allow_existing_session && leb env.max_concurrent_sessions active) principal.id
          episode.id r.request_id (forbidden "Concurrent playback limit reached")
      pure (record {
        user_id = principal.id;
        episode_id = episode.id;
        media_asset_id = media.id;
        media_type = media.media_type;
        encrypted_locator = media.encrypted_locator;
        is_premium = episode.is_premium;
        trusted_device_id = device.id;
        fingerprint_hash = fingerprint_hash env dto.fingerprint;
        device_id = dto.device_id;
      })

    unfoldable pub authorize :
        AuthenticatedPrincipal
        → ℕ
        → PlaybackDeviceDto
        → Bool
        → Request
        → Action Backend PlaybackAuthorizationContext
    unfolding deny_if is_entitled
    authorize principal episode_id dto allow_existing_session r = do
      raise_if (not (is_user_active principal.status)) (forbidden "Account is not active")
      episode ←
          (gets (find_episode episode_id) >>= or_raise (not_found "Published episode not found"))
      media ← (gets (media_of episode.id) >>= or_raise (forbidden "Media is not available"))
      raise_if (not (is_available media)) (forbidden "Media is not available")
      entitled ← gets (is_entitled principal.id episode_id r.now)
      deny_if (episode.is_premium && not entitled) principal.id episode_id r.request_id
          (forbidden "An active subscription or episode access is required")
      device ← gets (find_device db principal.id dto.device_id)
      authorize_device principal episode media dto allow_existing_session r device
