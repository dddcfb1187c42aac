-- ===== src/Schema/Playback.antt =====
-- Playback sessions, heartbeats and history (models of prisma/schema.prisma), and the state of a
-- capability that Redis holds (`PlaybackCapabilityState` of src/playback/playback-token.service.ts).
use backendurdubolonest.Base.{ℕ, Bool, true, false, Option, Text}

pub data PlaybackStatus : Type 0 where
  active closed expired revoked : PlaybackStatus

pub record PlaybackSession : Type 0 where
  pub id : ℕ
  pub user_id : ℕ
  pub episode_id : ℕ
  pub media_asset_id : ℕ
  pub trusted_device_id : ℕ
  pub capability_jti : ℕ
  pub capability_hash : ℕ
  pub device_fingerprint_hash : ℕ
  pub ip_address : ℕ
  pub user_agent : Text
  pub status : PlaybackStatus
  pub started_at : ℕ
  pub last_seen_at : ℕ
  pub expires_at : ℕ
  pub closed_at : Option ℕ
  pub revoked_at : Option ℕ
  pub last_position_seconds : ℕ
  pub watched_seconds : ℕ

pub record PlaybackHeartbeat : Type 0 where
  pub playback_session_id : ℕ
  pub position_seconds : ℕ
  pub buffered_seconds : Option ℕ

pub record PlaybackHistory : Type 0 where
  pub user_id : ℕ
  pub episode_id : ℕ
  pub playback_session_id : ℕ
  pub started_at : ℕ
  pub ended_at : Option ℕ
  pub last_position_seconds : ℕ
  pub watched_seconds : ℕ
  pub updated_at : ℕ

pub record PlaybackCapabilityState : Type 0 where
  pub session_id : ℕ
  pub user_id : ℕ
  pub device_id : ℕ
  pub fingerprint_hash : ℕ
  pub media_asset_id : ℕ
  pub episode_id : ℕ
  pub expires_at : ℕ
  pub last_seen_at : ℕ
  pub request_count : ℕ

abbrev pub is_playback_active : PlaybackStatus → Bool
is_playback_active PlaybackStatus.active = true
is_playback_active PlaybackStatus.closed = false
is_playback_active PlaybackStatus.expired = false
is_playback_active PlaybackStatus.revoked = false
