-- ===== src/Tests/PlaybackRuns.antt =====
-- Runs of the playback services, and their theorems at these runs.
use backendurdubolonest.Base.{◌≡◌, ◌≢◌, ◌≤◌, refl, true, false, some, ◌∷◌, count, trim, take, Among}
use backendurdubolonest.Prisma.Tables.{list_client}
use backendurdubolonest.Http.{ok, ◌>>=◌}
use backendurdubolonest.Audit.{write_audit}
use backendurdubolonest.Schema.{
  Backend, Episode, MediaAsset, MediaType, TrustedDevice, PlaybackCapabilityState, PlaybackSession,
  is_playback_active,
}
use backendurdubolonest.Auth.Devices.{find_device, is_device}
use backendurdubolonest.Subscriptions.{validate_subscription}
use backendurdubolonest.Access.Grants.{validate_access}
use backendurdubolonest.Playback.{PlaybackCapabilityPayload, cache, cached, revoke, verify}
use backendurdubolonest.Playback.Policy.{
  PlaybackAuthorizationContext, find_episode, media_of, count_other_playbacks, write_denial,
  deny_if, is_entitled, authorize_device, authorize,
}
use backendurdubolonest.Playback.Policy.Sound.{EpisodeTested, DeviceTested, authorize-eq-ok}
use backendurdubolonest.Playback.Service.{
  update_playbacks, update_playback, update_history, security_event, revoke_by_session,
}
use backendurdubolonest.Playback.Service.Capability.{
  bound_session, touch_bound, validate_scope, validate_entry, validate_capability, is_bound,
}
use backendurdubolonest.Playback.Service.Running.{stop, stop_rows, revoke_cached}
use backendurdubolonest.Playback.Service.Ending.{
  validate_capability-eq-ok, stop-validate_capability,
}
use backendurdubolonest.Playback.Service.{FreshPlayback, PlaybackResponse}
use backendurdubolonest.Playback.Service.Handlers.{
  issue, cache_capability, create_playback, upsert_history, start_rows, start_tail, start_found,
  current_playback, start,
}
use backendurdubolonest.Playback.Service.Concurrency.{runs_at, start-limit}
use backendurdubolonest.Base.{count, ◌≤◌, []}
use backendurdubolonest.Playback.{sign_capability}
use backendurdubolonest.Tests.Sample.{request, principal}
use backendurdubolonest.Tests.Library.{library, player, phone, playing}

opened : Unit {0}
unfolding trim take ◌>>=◌ write_audit find_device validate_subscription validate_access cache cached
    revoke verify find_episode media_of count_other_playbacks write_denial deny_if is_entitled
    authorize_device authorize update_playbacks update_playback update_history security_event
    revoke_by_session bound_session touch_bound validate_scope validate_entry validate_capability
    stop stop_rows revoke_cached sign_capability issue cache_capability create_playback
    upsert_history start_rows start_tail start_found current_playback start
opened = tt

abbrev context : PlaybackAuthorizationContext
context = record {
  user_id = 101;
  episode_id = 51;
  media_asset_id = 52;
  media_type = MediaType.hls;
  encrypted_locator = 5;
  is_premium = true;
  trusted_device_id = 31;
  fingerprint_hash = 7;
  device_id = 41;
}

authorize-eq-ok_example :
    (e : Episode) × (m : MediaAsset) × (d : TrustedDevice) × (library ≡ library)
    × (context.episode_id ≡ 51)
    × Among e library.episodes
    × Among m library.media_assets
    × Among d library.trusted_devices
    × (is_device 101 41 d ≡ true)
    × EpisodeTested list_client (principal 101 11) 20 library context e m
    × DeviceTested player (principal 101 11) phone false (request 20) library context d
unfolding opened
authorize-eq-ok_example =
    authorize-eq-ok list_client player (principal 101 11) 51 phone false (request 20) library
      library context refl

abbrev validated : Backend
validated =
    (validate_capability list_client player 71 72 phone (principal 101 11) (request 20) library).1

validate_capability-eq-ok_example :
    (payload : PlaybackCapabilityPayload) × (entry : PlaybackCapabilityState)
    × (player.verify_signature 72 20 ≡ some payload)
    × (cached payload.jti 20 library ≡ some entry)
    × (payload.sid ≡ 71)
    × (payload.uid ≡ 101)
    × (payload.did ≡ 41)
    × Among playing library.playback_sessions
    × (is_bound player 71 72 payload 101 phone 20 library playing ≡ true)
unfolding opened
validate_capability-eq-ok_example =
    validate_capability-eq-ok list_client player 71 72 phone (principal 101 11) (request 20) library
      validated playing refl

abbrev stopped : Backend
stopped = (stop list_client player 71 72 phone (principal 101 11) (request 20) library).1

stop-validate_capability_example :
    (validate_capability list_client player 71 72 phone (principal 101 11) (request 21) stopped).0
    ≢ ok playing
unfolding opened
stop-validate_capability_example =
    stop-validate_capability list_client player 71 72 72 phone phone (principal 101 11) (request 20)
      (request 21) library stopped playing refl

-- The first user runs nothing and starts the episode.
abbrev idle : Backend
idle = record library { playback_sessions = []; capabilities = [] }

abbrev fresh_playback : FreshPlayback
fresh_playback = record { session_id = 75; jti = 76 }

abbrev started : Backend
started = (start list_client player 51 phone fresh_playback (principal 101 11) (request 20) idle).1

abbrev answer : PlaybackResponse
answer = record {
  playback_session_id = 75;
  playback_token = 76;
  expires_at = 300_020;
  media_type = MediaType.hls;
  is_premium = true;
  resume_position_seconds = 0;
}

start-limit_example :
    ((new : PlaybackSession) × (started.playback_sessions ≡ new ∷ idle.playback_sessions)
      × (new.id ≡ 75)
      × (new.user_id ≡ 101)
      × (new.episode_id ≡ 51)
      × (is_playback_active new.status ≡ true))
    × (count (runs_at 101 20) started.playback_sessions ≤ 2)
unfolding opened
start-limit_example =
    start-limit list_client player 51 phone fresh_playback (principal 101 11) (request 20) idle
      started answer refl refl
