-- ===== src/Playback/Service/Running.antt =====
-- `resume`, `heartbeat`, `stop` and `status` of src/playback/playback.service.ts.
use backendurdubolonest.Base.{
  ℕ, ◌+◌, ◌-◌, min, Bool, true, not, ◌&&◌, Option, none, some, leb, ◌==◌, if◌then◌else◌,
}
use backendurdubolonest.Prisma.{Prisma}
use backendurdubolonest.Http.{
  forbidden, not_found, Action, ◌>>=◌, ◌>>◌, pure, gets, or_raise, raise_if, modify, when,
  transaction,
}
use backendurdubolonest.Schema.{
  Backend, PlaybackSession, PlaybackStatus, denied, success, is_playback_active,
}
use backendurdubolonest.Audit.{audit_input, write_audit}
use backendurdubolonest.Auth.{AuthenticatedPrincipal, Request}
use backendurdubolonest.Playback.{PlaybackDeviceDto, Player, revoke}
use backendurdubolonest.Playback.Policy.{authorize}
use backendurdubolonest.Playback.Service.{
  HeartbeatDto, PlaybackResponse, is_resumable, update_playbacks, update_playback, update_history,
  find_playback, expire,
}
use backendurdubolonest.Playback.Service.Capability.{validate_capability}
use backendurdubolonest.Playback.Service.Handlers.{rotate}

-- `Math.min(60, Math.max(0, dto.positionSeconds - session.lastPositionSeconds))`; subtraction
-- stops at 0, which is what `Math.max` does.
abbrev pub watched_delta : ℕ → ℕ → ℕ
watched_delta position last = min 60 (position - last)

abbrev owned_by : ℕ → ℕ → PlaybackSession → Bool
owned_by id user_id x = x.id == id && x.user_id == user_id

module _ (db : Prisma) (env : Player) where
  abbrev resumable : ℕ → ℕ → ℕ → Backend → Option PlaybackSession
  resumable id user_id now s = db.find_first (is_resumable id user_id now) s.playback_sessions

  unfoldable pub resume :
      ℕ → PlaybackDeviceDto → ℕ → AuthenticatedPrincipal → Request → Action Backend PlaybackResponse
  unfolding rotate
  resume session_id dto jti principal r = do
    session ←
        (gets (resumable session_id principal.id r.now)
          >>= or_raise (not_found "Playback session is unavailable"))
    context ← authorize db env principal session.episode_id dto true r
    raise_if (not (context.trusted_device_id == session.trusted_device_id))
        (forbidden "Playback device mismatch")
    result ← rotate db env session.id jti context principal r
    pure (record result { resume_position_seconds = session.last_position_seconds })

  -- The transaction of `heartbeat`.
  unfoldable pub heartbeat_rows : ℕ → HeartbeatDto → ℕ → ℕ → Action Backend (Unit {0})
  unfolding update_playback update_history
  heartbeat_rows session_id dto delta now = do
    update_playback db session_id (λ x. record x {
      last_seen_at = now;
      last_position_seconds = dto.position_seconds;
      watched_seconds = x.watched_seconds + delta;
    })
    modify (λ s. record s {
      playback_heartbeats =
          db.insert
            (record {
              playback_session_id = session_id;
              position_seconds = dto.position_seconds;
              buffered_seconds = dto.buffered_seconds;
            })
            s.playback_heartbeats;
    })
    update_history db (λ h. h.playback_session_id == session_id)
        (λ h. record h {
          last_position_seconds = dto.position_seconds;
          watched_seconds = h.watched_seconds + delta;
          updated_at = now;
        })

  -- The answer repeats the row that was updated, so it is left out.
  unfoldable pub heartbeat :
      ℕ
      → ℕ
      → PlaybackDeviceDto
      → HeartbeatDto
      → AuthenticatedPrincipal
      → Request
      → Action Backend (Unit {0})
  unfolding heartbeat_rows
  heartbeat session_id token device dto principal r = do
    session ← validate_capability db env session_id token device principal r
    transaction (
        heartbeat_rows session_id dto
          (watched_delta dto.position_seconds session.last_position_seconds) r.now)

  -- The transaction of `stop`.
  unfoldable pub stop_rows : ℕ → ℕ → ℕ → Action Backend ℕ
  unfolding update_playbacks update_history
  stop_rows session_id user_id now = do
    changed ←
        update_playbacks db
          (λ x. x.id == session_id && (x.user_id == user_id && is_playback_active x.status))
          (λ x. record x {
            status = PlaybackStatus.closed;
            closed_at = some now;
            last_seen_at = now;
          })
    update_history db (λ h. h.playback_session_id == session_id)
        (λ h. record h { ended_at = some now; updated_at = now })
    pure changed

  -- `revokeCachedCapability`, for the session that `findUnique` has found or not.
  unfoldable pub revoke_cached : Option PlaybackSession → Action Backend (Unit {0})
  unfolding revoke
  revoke_cached none = pure tt
  revoke_cached (some session) = revoke session.capability_jti

  unfoldable pub stop :
      ℕ → ℕ → PlaybackDeviceDto → AuthenticatedPrincipal → Request → Action Backend (Unit {0})
  unfolding stop_rows revoke_cached
  stop session_id token dto principal r = do
    _ ← validate_capability db env session_id token dto principal r
    changed ← transaction (stop_rows session_id principal.id r.now)
    session ← gets (find_playback db session_id)
    revoke_cached session
    write_audit db (
        audit_input (some principal.id) "playback.ended" "playback_session" (some session_id)
          (if changed == 0 then denied else success) r.request_id)

  abbrev is_over : PlaybackSession → ℕ → Bool
  is_over session now = is_playback_active session.status && leb session.expires_at now

  unfoldable pub status : ℕ → AuthenticatedPrincipal → ℕ → Action Backend PlaybackSession
  unfolding expire
  status session_id principal now = do
    session ←
        (gets (λ s. db.find_first (owned_by session_id principal.id) s.playback_sessions)
          >>= or_raise (not_found "Playback session not found"))
    when (is_over session now) (expire db session.id now)
    pure (
        if is_over session now then record session { status = PlaybackStatus.expired } else session)
