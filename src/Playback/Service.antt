-- ===== src/Playback/Service.antt =====
-- src/playback/playback.service.ts: a playback session, its capability and its end. `history`,
-- `continueWatching` and `recent` only read. The address of the manifest, which the answer repeats
-- from the configuration, is left out.
pub mod Capability
pub mod Handlers
pub mod Running
pub mod Ending
pub mod Concurrency
use backendurdubolonest.Base.{
  ℕ, ◌+◌, ◌-◌, ◌*◌, ◌/◌, min, max, Bool, true, false, not, ◌&&◌, ◌||◌, Option, none, some, String,
  Text, take, ltb, leb, ◌==◌, if◌then◌else◌, is_some, is_none, any,
}
use backendurdubolonest.Prisma.{Prisma}
use backendurdubolonest.Http.{
  Error, unauthorized, forbidden, not_found, p2002, p2025, Action, ◌>>=◌, ◌>>◌, pure, raise, gets,
  or_raise, raise_if, modify, when, transaction,
}
use backendurdubolonest.Schema.{
  Backend, MediaType, User, UserStatus, MediaAsset, PlaybackSession, PlaybackStatus,
  PlaybackHeartbeat, PlaybackHistory, PlaybackCapabilityState, denied, success, is_user_active,
  is_device_active, is_media_active, is_playback_active,
}
use backendurdubolonest.Audit.{audit_input, write_audit}
use backendurdubolonest.Auth.{AuthenticatedPrincipal, Request}
use backendurdubolonest.Playback.{
  PlaybackDeviceDto, PlaybackCapabilityPayload, Player, fingerprint_hash, cache, cached, revoke,
  verify, sign_capability,
}
use backendurdubolonest.Playback.Policy.{PlaybackAuthorizationContext, authorize, is_available}

-- The generated identifiers of a new session and of a new capability.
pub record FreshPlayback : Type 0 where
  pub session_id : ℕ
  pub jti : ℕ

pub record HeartbeatDto : Type 0 where
  pub position_seconds : ℕ
  pub buffered_seconds : Option ℕ

-- The answer to `start` and `resume`.
pub record PlaybackResponse : Type 0 where
  pub playback_session_id : ℕ
  pub playback_token : ℕ
  pub expires_at : ℕ
  pub media_type : MediaType
  pub is_premium : Bool
  pub resume_position_seconds : ℕ

-- What `issue` returns.
pub record Issued : Type 0 where
  pub token : ℕ
  pub expires_at : ℕ
  pub payload : PlaybackCapabilityPayload

-- The unique columns of `playback_sessions`.
abbrev pub playback_clash : PlaybackSession → PlaybackSession → Bool
playback_clash a b =
    a.id == b.id || (a.capability_jti == b.capability_jti || a.capability_hash == b.capability_hash)

-- Why `revokeBySession` ends a session.
pub data RevocationReason : Type 0 where
  expired_reason device_mismatch capability_scope_mismatch : RevocationReason

abbrev reason_action : RevocationReason → String
reason_action expired_reason = "playback.expired"
reason_action device_mismatch = "playback.device_mismatch"
reason_action capability_scope_mismatch = "playback.capability_scope_mismatch"

abbrev pub ended_by : RevocationReason → ℕ → PlaybackSession → PlaybackSession
ended_by expired_reason now x = record x { status = PlaybackStatus.expired; revoked_at = none }
ended_by device_mismatch now x = record x { status = PlaybackStatus.revoked; revoked_at = some now }
ended_by capability_scope_mismatch now x = record x {
  status = PlaybackStatus.revoked;
  revoked_at = some now;
}

abbrev of_user : Option ℕ → ℕ → Bool
of_user none user_id = true
of_user (some id) user_id = user_id == id

-- The session that `start` takes up again.
abbrev pub is_current : ℕ → ℕ → ℕ → ℕ → PlaybackSession → Bool
is_current user_id episode_id device_id now x =
    x.user_id == user_id
    && (x.episode_id == episode_id
        && (x.trusted_device_id == device_id
            && (is_playback_active x.status && ltb now x.expires_at)))

-- A session of the user that runs.
abbrev pub is_resumable : ℕ → ℕ → ℕ → PlaybackSession → Bool
is_resumable id user_id now x =
    x.id == id && (x.user_id == user_id && (is_playback_active x.status && ltb now x.expires_at))

-- `trustedDevice: { status: 'ACTIVE', deviceId, fingerprintHash }`
abbrev pub is_on_device : Backend → ℕ → ℕ → ℕ → Bool
is_on_device s trusted_device_id device_id fingerprint =
    any
      (λ d.
        d.id == trusted_device_id
        && (is_device_active d.status
            && (d.device_id == device_id && d.fingerprint_hash == fingerprint)))
      s.trusted_devices

-- The whole seconds until a time, rounded up, at least one.
abbrev pub remaining_seconds : ℕ → ℕ → ℕ
remaining_seconds expires_at now = max 1 ((expires_at - now + 999) / 1000)

module _ (db : Prisma) where
  unfoldable pub update_playbacks :
      (PlaybackSession → Bool) → (PlaybackSession → PlaybackSession) → Action Backend ℕ
  update_playbacks where_row data_row = do
    result ← gets (λ s. db.update_many where_row data_row s.playback_sessions)
    modify (λ s. record s { playback_sessions = result.0 })
    pure result.1

  unfoldable pub update_playback :
      ℕ → (PlaybackSession → PlaybackSession) → Action Backend (Unit {0})
  unfolding update_playbacks
  update_playback id data_row = do
    changed ← update_playbacks (λ x. x.id == id) data_row
    raise_if (changed == 0) p2025

  unfoldable pub update_history :
      (PlaybackHistory → Bool) → (PlaybackHistory → PlaybackHistory) → Action Backend (Unit {0})
  update_history where_row data_row =
      modify λ s. record s {
        playback_history = (db.update_many where_row data_row s.playback_history).0;
      }

  abbrev pub find_playback : ℕ → Backend → Option PlaybackSession
  find_playback id s = db.find_first (λ x. x.id == id) s.playback_sessions

  -- `revokeBySession`, for a session that `findFirst` has found or not.
  unfoldable pub revoke_found :
      RevocationReason → ℕ → ℕ → Option PlaybackSession → Action Backend (Unit {0})
  unfolding update_playback revoke
  revoke_found reason id now none = pure tt
  revoke_found reason id now (some session) = do
    update_playback id (ended_by reason now)
    revoke session.capability_jti
    write_audit db (
        audit_input (some session.user_id) (reason_action reason) "playback_session" (some id)
          denied 0)

  unfoldable pub revoke_by_session : ℕ → Option ℕ → RevocationReason → ℕ → Action Backend (Unit {0})
  unfolding revoke_found
  revoke_by_session id user_id reason now = do
    session ←
        gets (λ s. db.find_first (λ x. x.id == id && of_user user_id x.user_id) s.playback_sessions)
    revoke_found reason id now session

  unfoldable pub expire : ℕ → ℕ → Action Backend (Unit {0})
  unfolding update_history revoke_by_session update_playbacks
  expire id now = do
    _ ←
        update_playbacks (λ x. x.id == id && (is_playback_active x.status && leb x.expires_at now))
          (λ x. record x { status = PlaybackStatus.expired })
    update_history (λ h. h.playback_session_id == id && is_none h.ended_at)
        (λ h. record h { ended_at = some now; updated_at = now })
    revoke_by_session id none expired_reason now

  unfoldable pub security_event : ℕ → ℕ → ℕ → Action Backend (Unit {0})
  unfolding write_audit
  security_event actor_id session_id request_id = write_audit db (
      audit_input (some actor_id) "playback.security_violation" "playback_session" (some session_id)
        denied request_id)
