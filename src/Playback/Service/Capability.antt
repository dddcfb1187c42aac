-- ===== src/Playback/Service/Capability.antt =====
-- `validateCapability` and `validateGatewayCapability` of src/playback/playback.service.ts.
use backendurdubolonest.Base.{
  ℕ, ◌+◌, Bool, true, false, not, ◌&&◌, ◌||◌, Option, none, some, [], ◌==◌, is_none, any,
}
use backendurdubolonest.Prisma.{Prisma}
use backendurdubolonest.Http.{
  Error, unauthorized, Action, ◌>>=◌, ◌>>◌, pure, raise, gets, or_raise, raise_if, when,
}
use backendurdubolonest.Schema.{
  Backend, User, PlaybackSession, PlaybackCapabilityState, is_user_active,
}
use backendurdubolonest.Auth.{AuthenticatedPrincipal, Request}
use backendurdubolonest.Playback.{
  PlaybackDeviceDto, PlaybackCapabilityPayload, Player, fingerprint_hash, cache, cached, verify,
}
use backendurdubolonest.Playback.Policy.{PlaybackAuthorizationContext, authorize, is_available}
use backendurdubolonest.Playback.Service.{
  RevocationReason, update_playback, revoke_by_session, security_event, is_on_device, is_resumable,
  remaining_seconds,
}

abbrev mismatch : Error
mismatch = unauthorized "Playback capability does not match this session"

abbrev capability_gone : Error
capability_gone = unauthorized "Playback capability has expired or was revoked"

abbrev session_gone : Error
session_gone = unauthorized "Playback session is no longer valid"

abbrev pub is_of_session : ℕ → ℕ → Option PlaybackCapabilityState → Bool
is_of_session session_id user_id none = false
is_of_session session_id user_id (some c) = c.session_id == session_id && c.user_id == user_id

-- The `where` clause of the session that the capability is for.
abbrev pub is_bound :
    Player
    → ℕ
    → ℕ
    → PlaybackCapabilityPayload
    → ℕ
    → PlaybackDeviceDto
    → ℕ
    → Backend
    → PlaybackSession
    → Bool
is_bound env session_id token payload user_id dto now s x =
    is_resumable session_id user_id now x
    && (x.capability_jti == payload.jti
        && (x.capability_hash == env.hash token
            && is_on_device s x.trusted_device_id dto.device_id
                (fingerprint_hash env dto.fingerprint)))

-- `session.mediaAsset`, which a session always has.
abbrev pub has_media : Backend → ℕ → Bool
has_media s id = any (λ m. m.id == id && is_available m) s.media_assets

module _ (db : Prisma) (env : Player) where
  unfoldable pub bound_session :
      ℕ
      → ℕ
      → PlaybackCapabilityPayload
      → ℕ
      → PlaybackDeviceDto
      → ℕ
      → Backend
      → Option PlaybackSession
  bound_session session_id token payload user_id dto now s =
      db.find_first (is_bound env session_id token payload user_id dto now s) s.playback_sessions

  -- The last steps, for the session that `findFirst` has found or not.
  unfoldable pub touch_bound :
      ℕ
      → PlaybackCapabilityPayload
      → PlaybackCapabilityState
      → AuthenticatedPrincipal
      → Request
      → Option PlaybackSession
      → Action Backend PlaybackSession
  unfolding security_event cache update_playback
  touch_bound session_id payload entry principal r none = do
    security_event db principal.id session_id r.request_id
    raise session_gone
  touch_bound session_id payload entry principal r (some session) = do
    media ← gets (λ s. has_media s session.media_asset_id)
    when (not media) (security_event db principal.id session_id r.request_id)
    raise_if (not media) session_gone
    cache payload.jti
        (record entry { last_seen_at = r.now; request_count = entry.request_count + 1 })
        (remaining_seconds entry.expires_at r.now) r.now
    update_playback db session_id (λ x. record x { last_seen_at = r.now })
    pure session

  -- From the scope on, for what the policy has answered.
  unfoldable pub validate_scope :
      ℕ
      → ℕ
      → PlaybackCapabilityPayload
      → PlaybackDeviceDto
      → AuthenticatedPrincipal
      → Request
      → PlaybackCapabilityState
      → PlaybackAuthorizationContext
      → Action Backend PlaybackSession
  unfolding revoke_by_session
  validate_scope session_id token payload dto principal r entry policy = do
    let outside : Bool =
        not (policy.media_asset_id == payload.mid) || not (policy.episode_id == payload.eid)
    when outside (
        revoke_by_session db session_id (some principal.id)
          RevocationReason.capability_scope_mismatch r.now)
    raise_if outside (unauthorized "Playback capability scope is invalid")
    session ← gets (bound_session session_id token payload principal.id dto r.now)
    touch_bound session_id payload entry principal r session

  -- From the fingerprint on, for the state that Redis has of the capability.
  unfoldable pub validate_entry :
      ℕ
      → ℕ
      → PlaybackCapabilityPayload
      → PlaybackDeviceDto
      → AuthenticatedPrincipal
      → Request
      → PlaybackCapabilityState
      → Action Backend PlaybackSession
  unfolding revoke_by_session
  validate_entry session_id token payload dto principal r entry = do
    let foreign : Bool =
        not (payload.fp == fingerprint_hash env dto.fingerprint)
        || not (entry.fingerprint_hash == fingerprint_hash env dto.fingerprint)
    when foreign
        (revoke_by_session db session_id (some principal.id) RevocationReason.device_mismatch r.now)
    raise_if foreign (unauthorized "Playback device validation failed")
    policy ← authorize db env principal payload.eid dto true r
    validate_scope session_id token payload dto principal r entry policy

  unfoldable pub validate_capability :
      ℕ → ℕ → PlaybackDeviceDto → AuthenticatedPrincipal → Request → Action Backend PlaybackSession
  unfolding verify cached security_event
  validate_capability session_id token dto principal r = do
    payload ← verify env token r.now
    raise_if
        (not (payload.sid == session_id)
          || (not (payload.uid == principal.id) || not (payload.did == dto.device_id)))
        mismatch
    found ← gets (cached payload.jti r.now)
    when (not (is_of_session session_id principal.id found))
        (security_event db principal.id session_id r.request_id)
    raise_if (not (is_of_session session_id principal.id found)) capability_gone
    entry ← or_raise capability_gone found
    validate_entry session_id token payload dto principal r entry

  abbrev active_user : ℕ → Backend → Option User
  active_user id s =
      db.find_first (λ u. u.id == id && (is_user_active u.status && is_none u.deleted_at)) s.users

  -- `sessionId: 'gateway'` is 0.
  unfoldable pub validate_gateway_capability :
      ℕ → ℕ → PlaybackDeviceDto → Request → Action Backend PlaybackSession
  unfolding verify
  validate_gateway_capability session_id token dto r = do
    payload ← verify env token r.now
    user ←
        (gets (active_user payload.uid)
          >>= or_raise (unauthorized "Playback account is unavailable"))
    validate_capability session_id token dto
        (record {
          id = user.id;
          session_id = 0;
          roles = [];
          permissions = [];
          status = user.status;
        })
        r
