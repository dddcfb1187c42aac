-- ===== src/Playback/Service/Handlers.antt =====
-- `start`, `resume`, `heartbeat`, `stop` and `status` of src/playback/playback.service.ts.
use backendurdubolonest.Base.{ℕ, Bool, true, false, ◌&&◌, Option, none, some, take, ◌==◌}
use backendurdubolonest.Prisma.{Prisma}
use backendurdubolonest.Http.{
  p2002, p2025, Action, ◌>>=◌, ◌>>◌, pure, gets, or_raise, modify, transaction,
}
use backendurdubolonest.Schema.{Backend, PlaybackSession, PlaybackStatus, PlaybackHistory, success}
use backendurdubolonest.Audit.{audit_input, write_audit}
use backendurdubolonest.Auth.{AuthenticatedPrincipal, Request}
use backendurdubolonest.Playback.{
  PlaybackDeviceDto, PlaybackCapabilityPayload, Player, cache, revoke, verify, sign_capability,
}
use backendurdubolonest.Playback.Policy.{PlaybackAuthorizationContext, authorize}
use backendurdubolonest.Playback.Service.{
  FreshPlayback, PlaybackResponse, Issued, playback_clash, is_current, update_playback,
  update_history, find_playback,
}

module _ (db : Prisma) (env : Player) where
  unfoldable pub issue : ℕ → ℕ → PlaybackAuthorizationContext → ℕ → Action Backend Issued
  unfolding verify sign_capability
  issue session_id jti context now = do
    let (token, expires_at) =
        sign_capability env
          (record {
            sub = context.user_id;
            sid = session_id;
            jti = jti;
            uid = context.user_id;
            eid = context.episode_id;
            mid = context.media_asset_id;
            did = context.device_id;
            fp = context.fingerprint_hash;
            is_playback = true;
          })
          now
    payload ← verify env token now
    pure (record { token = token; expires_at = expires_at; payload = payload })

  unfoldable pub cache_capability :
      PlaybackCapabilityPayload → PlaybackAuthorizationContext → ℕ → ℕ → Action Backend (Unit {0})
  unfolding cache
  cache_capability payload context expires_at now =
      cache payload.jti
        (record {
          session_id = payload.sid;
          user_id = context.user_id;
          device_id = context.device_id;
          fingerprint_hash = context.fingerprint_hash;
          media_asset_id = context.media_asset_id;
          episode_id = context.episode_id;
          expires_at = expires_at;
          last_seen_at = now;
          request_count = 0;
        })
        env.capability_ttl_seconds now

  abbrev response : ℕ → Issued → PlaybackAuthorizationContext → ℕ → PlaybackResponse
  response session_id issued context position = record {
    playback_session_id = session_id;
    playback_token = issued.token;
    expires_at = issued.expires_at;
    media_type = context.media_type;
    is_premium = context.is_premium;
    resume_position_seconds = position;
  }

  unfoldable pub rotate :
      ℕ
      → ℕ
      → PlaybackAuthorizationContext
      → AuthenticatedPrincipal
      → Request
      → Action Backend PlaybackResponse
  unfolding issue cache_capability update_playback revoke
  rotate session_id jti context principal r = do
    current ← (gets (find_playback db session_id) >>= or_raise p2025)
    issued ← issue session_id jti context r.now
    update_playback db session_id (λ x. record x {
      capability_jti = jti;
      capability_hash = env.hash issued.token;
      device_fingerprint_hash = context.fingerprint_hash;
      expires_at = issued.expires_at;
      last_seen_at = r.now;
      ip_address = r.ip_address;
      user_agent = take 512 r.user_agent;
    })
    revoke current.capability_jti
    cache_capability issued.payload context issued.expires_at r.now
    write_audit db (
        audit_input (some principal.id) "playback.resumed" "playback_session" (some session_id)
          success r.request_id)
    pure (response session_id issued context current.last_position_seconds)

  abbrev pub new_playback :
      FreshPlayback
      → Issued
      → PlaybackAuthorizationContext
      → AuthenticatedPrincipal
      → Request
      → PlaybackSession
  new_playback fresh issued context principal r = record {
    id = fresh.session_id;
    user_id = principal.id;
    episode_id = context.episode_id;
    media_asset_id = context.media_asset_id;
    trusted_device_id = context.trusted_device_id;
    capability_jti = fresh.jti;
    capability_hash = env.hash issued.token;
    device_fingerprint_hash = context.fingerprint_hash;
    ip_address = r.ip_address;
    user_agent = take 512 r.user_agent;
    status = PlaybackStatus.active;
    started_at = r.now;
    last_seen_at = r.now;
    expires_at = issued.expires_at;
    closed_at = none;
    revoked_at = none;
    last_position_seconds = 0;
    watched_seconds = 0;
  }

  unfoldable pub create_playback : PlaybackSession → Action Backend (Unit {0})
  create_playback row = do
    table ← gets (λ s. s.playback_sessions)
    grown ← or_raise p2002 (db.create playback_clash row table)
    modify (λ s. record s { playback_sessions = grown })

  abbrev is_history : ℕ → ℕ → PlaybackHistory → Bool
  is_history user_id episode_id h = h.user_id == user_id && h.episode_id == episode_id

  -- `upsert`, by the row that there is for the user and the episode.
  unfoldable pub upsert_history :
      ℕ
      → PlaybackAuthorizationContext
      → AuthenticatedPrincipal
      → ℕ
      → Option PlaybackHistory
      → Action Backend (Unit {0})
  unfolding update_history
  upsert_history session_id context principal now (some old) =
      update_history db (is_history principal.id context.episode_id) (λ h. record h {
        playback_session_id = session_id;
        started_at = now;
        ended_at = none;
        updated_at = now;
      })
  upsert_history session_id context principal now none = modify λ s. record s {
    playback_history =
        db.insert
          (record {
            user_id = principal.id;
            episode_id = context.episode_id;
            playback_session_id = session_id;
            started_at = now;
            ended_at = none;
            last_position_seconds = 0;
            watched_seconds = 0;
            updated_at = now;
          })
          s.playback_history;
  }

  abbrev find_history : ℕ → ℕ → Backend → Option PlaybackHistory
  find_history user_id episode_id s =
      db.find_first (is_history user_id episode_id) s.playback_history

  unfoldable pub start_rows :
      FreshPlayback
      → Issued
      → PlaybackAuthorizationContext
      → AuthenticatedPrincipal
      → Request
      → Action Backend (Unit {0})
  unfolding create_playback upsert_history
  start_rows fresh issued context principal r = do
    create_playback (new_playback fresh issued context principal r)
    old ← gets (find_history principal.id context.episode_id)
    upsert_history fresh.session_id context principal r.now old

  -- What `start` does once the rows of a new session are written.
  unfoldable pub start_tail :
      FreshPlayback
      → Issued
      → PlaybackAuthorizationContext
      → AuthenticatedPrincipal
      → Request
      → Action Backend PlaybackResponse
  unfolding cache_capability
  start_tail fresh issued context principal r = do
    cache_capability issued.payload context issued.expires_at r.now
    write_audit db (
        audit_input (some principal.id) "playback.started" "playback_session"
          (some fresh.session_id) success r.request_id)
    pure (response fresh.session_id issued context 0)

  -- `start`, for the running session that `findFirst` has found or not.
  unfoldable pub start_found :
      FreshPlayback
      → PlaybackAuthorizationContext
      → AuthenticatedPrincipal
      → Request
      → Option PlaybackSession
      → Action Backend PlaybackResponse
  unfolding issue rotate start_rows start_tail
  start_found fresh context principal r (some existing) =
      rotate existing.id fresh.jti context principal r
  start_found fresh context principal r none = do
    issued ← issue fresh.session_id fresh.jti context r.now
    transaction (start_rows fresh issued context principal r)
    start_tail fresh issued context principal r

  unfoldable pub current_playback : ℕ → ℕ → ℕ → ℕ → Backend → Option PlaybackSession
  current_playback user_id episode_id device_id now s =
      db.find_latest (λ x. x.started_at) (is_current user_id episode_id device_id now)
        s.playback_sessions

  unfoldable pub start :
      ℕ
      → PlaybackDeviceDto
      → FreshPlayback
      → AuthenticatedPrincipal
      → Request
      → Action Backend PlaybackResponse
  unfolding start_found current_playback
  start episode_id dto fresh principal r = do
    context ← authorize db env principal episode_id dto false r
    existing ← gets (current_playback principal.id episode_id context.trusted_device_id r.now)
    start_found fresh context principal r existing
