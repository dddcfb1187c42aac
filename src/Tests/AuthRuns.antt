-- ===== src/Tests/AuthRuns.antt =====
-- Runs of the authentication service, and its theorems at these runs.
use backendurdubolonest.Base.{
  ℕ, ◌≡◌, ◌≢◌, ◌⊎◌, refl, none, [], ◌∷◌, arith, trim, take, any, count, ◌+◌, ◌≤◌, false, ◌&&◌, ◌==◌,
}
use backendurdubolonest.Prisma.Tables.{list_client}
use backendurdubolonest.Http.{ok, err, p2002, ◌>>=◌}
use backendurdubolonest.Audit.{write_audit}
use backendurdubolonest.Schema.{Backend, User, UserStatus, DeviceStatus, is_playback_active}
use backendurdubolonest.Auth.{
  create_session, update_sessions, TokenPair, create_login_history, issue_token_pair,
}
use backendurdubolonest.Auth.Login.{
  LoginDto, login, login_lookup, login_found, password_matches, accept_login, reject_login,
  count_known, update_user, update_users, invalid_credentials,
}
use backendurdubolonest.Auth.Login.Lockout.{HasUniqueEmails, Admitted, login-eq-ok, lock_holds}
use backendurdubolonest.Auth.Refresh.{
  rotate_session, refresh_invalid, refresh, refresh_lookup, refresh_found, refresh_live,
  refresh_replay, owner_is_active, revoke_all, logout,
}
use backendurdubolonest.Auth.Refresh.Steps.{AuthStep, AuthReach}
use backendurdubolonest.Auth.Refresh.SingleUse.{HasUniqueTokens, rotate_session_once, refresh_once}
use backendurdubolonest.Auth.Sessions.{logout_all, validate, session_no_longer_valid}
use backendurdubolonest.Auth.Sessions.Revocation.{
  logout_all_final, update_status_final, remove_final,
}
use backendurdubolonest.Auth.Devices.{
  DeviceDto, register_device, register_device_row, upsert_device, find_device, create_device,
  set_devices, update_devices, revoke_playback, revoke_device, revoke_device_row, is_active_device,
}
use backendurdubolonest.Auth.Devices.Limit.{
  register_new_device-limit, register_revoked_device, revoke_device-ends,
}
use backendurdubolonest.Users.{update_status, update_status_rows, remove, remove_rows}
use backendurdubolonest.Tests.Sample.{
  runtime, request, fresh, session, member, device, backend, principal,
}

-- All that the runs compute with.
opened : Unit {0}
unfolding trim take ◌>>=◌ write_audit create_session update_sessions create_login_history
    issue_token_pair login login_lookup login_found password_matches accept_login reject_login
    count_known update_user update_users rotate_session refresh refresh_lookup refresh_found
    refresh_live refresh_replay owner_is_active revoke_all logout logout_all validate
    register_device register_device_row upsert_device find_device create_device set_devices
    update_devices revoke_playback revoke_device revoke_device_row update_status update_status_rows
    remove remove_rows
opened = tt

abbrev rotated : Backend
rotated = (rotate_session list_client runtime (request 5) (fresh 61) (session 11 101 21) backend).1

-- Between the two requests the user logs out everywhere.
abbrev logged_out : Backend
logged_out = (logout_all list_client (principal 101 61) (request 6) rotated).1

rotate_session_once_example :
    (rotate_session list_client runtime (request 7) (fresh 62) (session 11 101 21) logged_out
      ≡ (err p2002, logged_out))
    ⊎ (rotate_session list_client runtime (request 7) (fresh 62) (session 11 101 21) logged_out
        ≡ (err refresh_invalid, logged_out))
unfolding opened
rotate_session_once_example =
    rotate_session_once list_client runtime (request 5) (request 7) (fresh 61) (fresh 62)
      (session 11 101 21) backend rotated logged_out refl
      (AuthReach.next AuthReach.here
        (AuthStep.logged_out_everywhere (principal 101 61) (request 6)))

unique_tokens : HasUniqueTokens backend
unique_tokens x y m n e = ground arith

abbrev pair : TokenPair
pair = record { access_token = 162; refresh_token = 61; expires_in = 600 }

abbrev exchanged : Backend
exchanged = (refresh list_client runtime 21 (request 5) (fresh 61) backend).1

refresh_once_example : (refresh list_client runtime 21 (request 8) (fresh 63) exchanged).0 ≢ ok pair
unfolding opened
refresh_once_example =
    refresh_once list_client runtime 21 (request 5) (request 8) (fresh 61) (fresh 63) pair pair
      backend exchanged exchanged unique_tokens refl AuthReach.here

-- The second user, whose fifth attempt fails, then gives the right password.
abbrev attempt : ℕ → LoginDto
attempt user_id = record { email = user_id ∷ []; password = []; device_id = none }

unique_emails : HasUniqueEmails backend
unique_emails x y m n e = ground arith

lock_holds_example :
    let (first, t) = login list_client runtime (attempt 102) (request 10) (fresh 64) backend in
    let (second, v) = login list_client runtime (attempt 102) (request 500_000) (fresh 65) t in
    (first ≡ err invalid_credentials)
    × (second ≡ err invalid_credentials)
    × (v.users ≡ t.users)
    × (v.refresh_sessions ≡ backend.refresh_sessions)
unfolding opened
lock_holds_example =
    lock_holds list_client runtime (attempt 102) (attempt 102) (request 10) (request 500_000)
      (fresh 64) (fresh 65) backend (member 102 4 4) unique_emails refl refl refl (omega arith) refl
      (omega arith)

abbrev signed_in : Backend
signed_in = (login list_client runtime (attempt 101) (request 10) (fresh 66) backend).1

abbrev signed_pair : TokenPair
signed_pair = record { access_token = 167; refresh_token = 66; expires_in = 600 }

login-eq-ok_example :
    (u : User) × Admitted list_client runtime
      (attempt 101)
      (request 10)
      (fresh 66)
      backend
      signed_in
      u
unfolding opened
login-eq-ok_example =
    login-eq-ok list_client runtime (attempt 101) (request 10) (fresh 66) backend signed_in
      signed_pair refl

logout_all_final_example :
    validate list_client 101 11 20
      (logout_all list_client (principal 101 11) (request 15) backend).1
    ≡ (
      err session_no_longer_valid,
      (logout_all list_client (principal 101 11) (request 15) backend).1,
    )
logout_all_final_example =
    logout_all_final list_client runtime (principal 101 11) (request 15) 11 101 20 backend
      (logout_all list_client (principal 101 11) (request 15) backend).1
      (record { known = refl; sole = refl }) AuthReach.here

abbrev suspended : Backend
suspended =
    (update_status list_client 101 UserStatus.suspended (principal 102 12) (request 16) backend).1

update_status_final_example :
    validate list_client 101 11 20 suspended ≡ (err session_no_longer_valid, suspended)
unfolding opened
update_status_final_example =
    update_status_final list_client runtime 101 UserStatus.suspended (principal 102 12) (request 16)
      11 101 20 backend suspended suspended refl (record { known = refl; sole = refl }) refl
      AuthReach.here

abbrev removed : Backend
removed = (remove list_client 101 (principal 102 12) (request 16) backend).1

remove_final_example :
    validate list_client 101 11 20 removed ≡ (err session_no_longer_valid, removed)
unfolding opened
remove_final_example =
    remove_final list_client runtime 101 (principal 102 12) (request 16) 11 101 20 backend removed
      removed (record { known = refl; sole = refl }) refl AuthReach.here

abbrev offer : ℕ → DeviceDto
offer device_id = record {
  device_id = device_id;
  fingerprint = [];
  device_name = none;
  device_token = none;
}

-- The second user has no device yet.
abbrev registered : Backend
registered =
    (register_device list_client runtime (principal 102 12) (offer 43) 33 (request 17) backend).1

register_new_device-limit_example :
    (count (is_active_device 102) registered.trusted_devices ≤ 1)
    × (count (is_active_device 102) registered.trusted_devices
        ≡ count (is_active_device 102) backend.trusted_devices + 1)
unfolding opened
register_new_device-limit_example =
    register_new_device-limit list_client runtime (principal 102 12) (offer 43) 33 33 (request 17)
      backend registered refl refl

-- The first user has one active device, which is the limit, and registers a revoked one again.
register_revoked_device_example :
    let (result, t) =
      register_device list_client runtime (principal 101 11) (offer 42) 33 (request 17) backend in
    (result ≡ ok 32)
    × (count (is_active_device 101) t.trusted_devices
        ≡ count (is_active_device 101) backend.trusted_devices + 1)
unfolding opened
register_revoked_device_example =
    register_revoked_device list_client runtime (principal 101 11) (offer 42) 33 (request 17)
      backend (device 32 101 42 DeviceStatus.revoked) refl refl refl refl

abbrev device_ended : Backend
device_ended = (revoke_device list_client (principal 101 11) 31 (request 18) backend).1

revoke_device-ends_example :
    (any (λ d. d.id == 31 && is_active_device 101 d) device_ended.trusted_devices ≡ false)
    × (any
          (λ x. x.trusted_device_id == 31 && is_playback_active x.status)
          device_ended.playback_sessions
        ≡ false)
unfolding opened
revoke_device-ends_example =
    revoke_device-ends list_client (principal 101 11) 31 (request 18) backend device_ended refl
