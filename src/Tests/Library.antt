-- ===== src/Tests/Library.antt =====
-- A backend with a published premium episode, a subscription, a group and a grant, and a player,
-- for the runs of subscriptions, grants and playback.
use backendurdubolonest.Base.{ℕ, ◌+◌, true, false, none, some, [], ◌∷◌, ltb, if◌then◌else◌}
use backendurdubolonest.Schema.{
  Backend, DownloadAccess, EpisodeStatus, ContentVisibility, MediaStatus, MediaType, Subscription,
  SubscriptionStatus, GroupMember, EpisodeGrant, GrantStatus, PlaybackSession, PlaybackStatus,
  PlaybackCapabilityState,
}
use backendurdubolonest.Playback.{PlaybackCapabilityPayload, Player, PlaybackDeviceDto}
use backendurdubolonest.Tests.Sample.{backend}

abbrev pub payload : PlaybackCapabilityPayload
payload = record {
  sub = 101;
  sid = 71;
  jti = 72;
  uid = 101;
  eid = 51;
  mid = 52;
  did = 41;
  fp = 7;
  is_playback = true;
}

-- A token is the identifier of its capability; it lives until 1 000 000.
abbrev pub player : Player
player = record {
  hash = λ n. n + 1000;
  sha256 = λ t. 7;
  sign = λ now p. p.jti;
  verify_signature =
      λ token now. if ltb now 1_000_000 then some (record payload { jti = token }) else none;
  capability_ttl_seconds = 300;
  max_concurrent_sessions = 2;
}

abbrev pub phone : PlaybackDeviceDto
phone = record { device_id = 41; fingerprint = [] }

abbrev pub subscription : ℕ → ℕ → ℕ → Subscription
subscription id starts_at ends_at = record {
  id = id;
  user_id = 101;
  plan_id = 81;
  status = SubscriptionStatus.active;
  starts_at = starts_at;
  ends_at = ends_at;
  cancelled_at = none;
  note = none;
}

abbrev pub member_of_group : GroupMember
member_of_group = record {
  id = 92;
  group_id = 91;
  user_id = 102;
  starts_at = 0;
  ends_at = 500;
  revoked_at = none;
  comment = none;
  subscription = false;
}

abbrev pub grant : EpisodeGrant
grant = record {
  id = 93;
  episode_id = 51;
  user_id = none;
  group_id = some 91;
  starts_at = 0;
  ends_at = 400;
  status = GrantStatus.active;
  revoked_at = none;
}

abbrev pub playing : PlaybackSession
playing = record {
  id = 71;
  user_id = 101;
  episode_id = 51;
  media_asset_id = 52;
  trusted_device_id = 31;
  capability_jti = 72;
  capability_hash = 1072;
  device_fingerprint_hash = 7;
  ip_address = 1;
  user_agent = [];
  status = PlaybackStatus.active;
  started_at = 10;
  last_seen_at = 10;
  expires_at = 300_010;
  closed_at = none;
  revoked_at = none;
  last_position_seconds = 5;
  watched_seconds = 5;
}

abbrev pub capability : PlaybackCapabilityState
capability = record {
  session_id = 71;
  user_id = 101;
  device_id = 41;
  fingerprint_hash = 7;
  media_asset_id = 52;
  episode_id = 51;
  expires_at = 300_010;
  last_seen_at = 10;
  request_count = 0;
}

abbrev pub library : Backend
library = record backend {
  dramas =
      record {
        id = 53;
        name = [];
        slug = [];
        drama_number = none;
        total_seasons = 1;
        description = none;
        thumbnail_key = none;
        is_published = true;
        deleted_at = none;
      }
      ∷ [];
  seasons =
      record {
        id = 54;
        drama_id = 53;
        season_number = 1;
        title = none;
        total_episodes = 1;
        thumbnail_key = none;
        deleted_at = none;
      }
      ∷ [];
  episodes =
      record {
        id = 51;
        season_id = 54;
        episode_number = 1;
        title = none;
        is_published = true;
        status = EpisodeStatus.published;
        visibility = ContentVisibility.public;
        is_premium = true;
        description = none;
        thumbnail_key = none;
        download_access = DownloadAccess.gallery;
        deleted_at = none;
      }
      ∷ [];
  media_assets =
      record {
        id = 52;
        episode_id = 51;
        kind = MediaType.hls;
        media_type = MediaType.hls;
        provider = [];
        checksum = none;
        metadata = none;
        duration_seconds = none;
        size_bytes = none;
        encrypted_locator = 5;
        status = MediaStatus.active;
        version = 1;
        rotated_at = none;
        deleted_at = none;
      }
      ∷ [];
  plans =
      record {
        id = 81;
        code = [];
        name = [];
        price_pkr = 500;
        duration_days = 30;
        is_active = true;
      }
      ∷ [];
  subscriptions = subscription 82 0 1_000 ∷ [];
  access_groups = record { id = 91; name = [] } ∷ [];
  group_members = member_of_group ∷ [];
  episode_grants = grant ∷ [];
  playback_sessions = playing ∷ [];
  capabilities = (72, 300_010, capability) ∷ [];
}
