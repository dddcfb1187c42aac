-- ===== src/Auth/Refresh/Steps.antt =====
-- The operations of the authentication and of the user service as steps of the backend. No step
-- brings a revoked session back.
use backendurdubolonest.Base.{ℕ, Text, Option, none, some}
use backendurdubolonest.Prisma.{Prisma}
use backendurdubolonest.Http.Keeps.{Keeps}
use backendurdubolonest.Schema.{Backend, User, UserStatus, TrustedDevice}
use backendurdubolonest.Auth.{Runtime, Request, Fresh, AuthenticatedPrincipal, issue_token_pair}
use backendurdubolonest.Auth.Login.{
  login, login_found, reject_login, accept_login, count_known, register, LoginDto, RegisterDto,
}
use backendurdubolonest.Auth.Refresh.{
  refresh, refresh_found, refresh_live, refresh_replay, rotate_session, logout, revoke_all,
}
use backendurdubolonest.Auth.Refresh.Spent.{Column, IsSpent, spent_rules}
use backendurdubolonest.Auth.Sessions.{logout_all, revoke_session, change_password}
use backendurdubolonest.Auth.Devices.{
  register_device, revoke_device, DeviceDto, upsert_device, register_device_row,
}
use backendurdubolonest.Users.{
  create, update_profile, update_status, remove, CreateUserDto, UpdateProfileDto,
}

-- One operation, with whatever arguments its caller chooses; it may return or raise.
pub data AuthStep (db : Prisma) (env : Runtime) (s : Backend) : Backend → Type 0 where
  registered :
      (dto : RegisterDto) (id salt : ℕ) (r : Request) (fresh : Fresh)
      → AuthStep db env s (register db env dto id salt r fresh s).1
  logged_in :
      (dto : LoginDto) (r : Request) (fresh : Fresh)
      → AuthStep db env s (login db env dto r fresh s).1
  refreshed :
      (token : ℕ) (r : Request) (fresh : Fresh)
      → AuthStep db env s (refresh db env token r fresh s).1
  logged_out : (token : ℕ) (r : Request) → AuthStep db env s (logout db env token r s).1
  logged_out_everywhere :
      (actor : AuthenticatedPrincipal) (r : Request) → AuthStep db env s (logout_all db actor r s).1
  session_revoked :
      (actor : AuthenticatedPrincipal) (id : ℕ) (r : Request)
      → AuthStep db env s (revoke_session db actor id r s).1
  password_changed :
      (actor : AuthenticatedPrincipal) (old new : Text) (salt : ℕ) (r : Request)
      → AuthStep db env s (change_password db env actor old new salt r s).1
  device_registered :
      (actor : AuthenticatedPrincipal) (dto : DeviceDto) (id : ℕ) (r : Request)
      → AuthStep db env s (register_device db env actor dto id r s).1
  device_revoked :
      (actor : AuthenticatedPrincipal) (id : ℕ) (r : Request)
      → AuthStep db env s (revoke_device db actor id r s).1
  user_created :
      (dto : CreateUserDto) (id salt : ℕ) (actor : AuthenticatedPrincipal) (r : Request)
      → AuthStep db env s (create db env dto id salt actor r s).1
  profile_updated :
      (id : ℕ) (dto : UpdateProfileDto) (actor : AuthenticatedPrincipal) (r : Request)
      → AuthStep db env s (update_profile db env id dto actor r s).1
  status_updated :
      (id : ℕ) (status : UserStatus) (actor : AuthenticatedPrincipal) (r : Request)
      → AuthStep db env s (update_status db id status actor r s).1
  user_removed :
      (id : ℕ) (actor : AuthenticatedPrincipal) (r : Request)
      → AuthStep db env s (remove db id actor r s).1

pub data AuthReach (db : Prisma) (env : Runtime) (s : Backend) : Backend → Type 0 where
  here : AuthReach db env s s
  next : {t u : Backend} → AuthReach db env s t → AuthStep db env t u → AuthReach db env s u

module _ (db : Prisma) (env : Runtime) (c : Column) (key : ℕ) where
  register-IsSpent :
      (dto : RegisterDto) (id salt : ℕ) (r : Request) (fresh : Fresh)
      → Keeps (IsSpent c key) (register db env dto id salt r fresh)
  unfolding register issue_token_pair
  register-IsSpent dto id salt r fresh = search spent_rules depth 30

  count_known-IsSpent :
      (now : ℕ) (found : Option User) → Keeps (IsSpent c key) (count_known db env now found)
  unfolding count_known
  count_known-IsSpent now none = search spent_rules depth 30
  count_known-IsSpent now (some u) = search spent_rules depth 30

  login_found-IsSpent :
      (dto : LoginDto) (r : Request) (fresh : Fresh) (found : Option User)
      → Keeps (IsSpent c key) (login_found db env dto r fresh found)
  unfolding login_found reject_login accept_login issue_token_pair
  login_found-IsSpent dto r fresh none = search (spent_rules, count_known-IsSpent) depth 30
  login_found-IsSpent dto r fresh (some u) = search (spent_rules, count_known-IsSpent) depth 30

  login-IsSpent :
      (dto : LoginDto) (r : Request) (fresh : Fresh)
      → Keeps (IsSpent c key) (login db env dto r fresh)
  unfolding login
  login-IsSpent dto r fresh = search (spent_rules, login_found-IsSpent) depth 30

  refresh-IsSpent :
      (token : ℕ) (r : Request) (fresh : Fresh)
      → Keeps (IsSpent c key) (refresh db env token r fresh)
  unfolding refresh refresh_found refresh_live refresh_replay rotate_session revoke_all
  refresh-IsSpent token r fresh = search spent_rules depth 30

  logout-IsSpent : (token : ℕ) (r : Request) → Keeps (IsSpent c key) (logout db env token r)
  unfolding logout
  logout-IsSpent token r = search spent_rules depth 30

  logout_all-IsSpent :
      (actor : AuthenticatedPrincipal) (r : Request) → Keeps (IsSpent c key) (logout_all db actor r)
  unfolding logout_all revoke_all
  logout_all-IsSpent actor r = search spent_rules depth 30

  revoke_session-IsSpent :
      (actor : AuthenticatedPrincipal) (id : ℕ) (r : Request)
      → Keeps (IsSpent c key) (revoke_session db actor id r)
  unfolding revoke_session
  revoke_session-IsSpent actor id r = search spent_rules depth 30

  change_password-IsSpent :
      (actor : AuthenticatedPrincipal) (old new : Text) (salt : ℕ) (r : Request)
      → Keeps (IsSpent c key) (change_password db env actor old new salt r)
  unfolding change_password
  change_password-IsSpent actor old new salt r = search spent_rules depth 30

  upsert_device-IsSpent :
      (actor : AuthenticatedPrincipal) (dto : DeviceDto) (id : ℕ) (r : Request)
      (existing : Option TrustedDevice)
      → Keeps (IsSpent c key) (upsert_device db env actor dto id r existing)
  unfolding upsert_device
  upsert_device-IsSpent actor dto id r none = search spent_rules depth 30
  upsert_device-IsSpent actor dto id r (some d) = search spent_rules depth 30

  register_device-IsSpent :
      (actor : AuthenticatedPrincipal) (dto : DeviceDto) (id : ℕ) (r : Request)
      → Keeps (IsSpent c key) (register_device db env actor dto id r)
  unfolding register_device register_device_row
  register_device-IsSpent actor dto id r = search (spent_rules, upsert_device-IsSpent) depth 30

  revoke_device-IsSpent :
      (actor : AuthenticatedPrincipal) (id : ℕ) (r : Request)
      → Keeps (IsSpent c key) (revoke_device db actor id r)
  unfolding revoke_device
  revoke_device-IsSpent actor id r = search spent_rules depth 30

  create-IsSpent :
      (dto : CreateUserDto) (id salt : ℕ) (actor : AuthenticatedPrincipal) (r : Request)
      → Keeps (IsSpent c key) (create db env dto id salt actor r)
  unfolding create
  create-IsSpent dto id salt actor r = search spent_rules depth 30

  update_profile-IsSpent :
      (id : ℕ) (dto : UpdateProfileDto) (actor : AuthenticatedPrincipal) (r : Request)
      → Keeps (IsSpent c key) (update_profile db env id dto actor r)
  unfolding update_profile
  update_profile-IsSpent id dto actor r = search spent_rules depth 30

  update_status-IsSpent :
      (id : ℕ) (status : UserStatus) (actor : AuthenticatedPrincipal) (r : Request)
      → Keeps (IsSpent c key) (update_status db id status actor r)
  unfolding update_status revoke_all
  update_status-IsSpent id status actor r = search spent_rules depth 30

  remove-IsSpent :
      (id : ℕ) (actor : AuthenticatedPrincipal) (r : Request)
      → Keeps (IsSpent c key) (remove db id actor r)
  unfolding remove revoke_all
  remove-IsSpent id actor r = search spent_rules depth 30

  AuthStep-IsSpent : {s t : Backend} → AuthStep db env s t → IsSpent c key s → IsSpent c key t
  AuthStep-IsSpent (registered dto id salt r fresh) h =
      (register-IsSpent dto id salt r fresh).at _ h
  AuthStep-IsSpent (logged_in dto r fresh) h = (login-IsSpent dto r fresh).at _ h
  AuthStep-IsSpent (refreshed token r fresh) h = (refresh-IsSpent token r fresh).at _ h
  AuthStep-IsSpent (logged_out token r) h = (logout-IsSpent token r).at _ h
  AuthStep-IsSpent (logged_out_everywhere actor r) h = (logout_all-IsSpent actor r).at _ h
  AuthStep-IsSpent (session_revoked actor id r) h = (revoke_session-IsSpent actor id r).at _ h
  AuthStep-IsSpent (password_changed actor old new salt r) h =
      (change_password-IsSpent actor old new salt r).at _ h
  AuthStep-IsSpent (device_registered actor dto id r) h =
      (register_device-IsSpent actor dto id r).at _ h
  AuthStep-IsSpent (device_revoked actor id r) h = (revoke_device-IsSpent actor id r).at _ h
  AuthStep-IsSpent (user_created dto id salt actor r) h =
      (create-IsSpent dto id salt actor r).at _ h
  AuthStep-IsSpent (profile_updated id dto actor r) h =
      (update_profile-IsSpent id dto actor r).at _ h
  AuthStep-IsSpent (status_updated id status actor r) h =
      (update_status-IsSpent id status actor r).at _ h
  AuthStep-IsSpent (user_removed id actor r) h = (remove-IsSpent id actor r).at _ h

  pub AuthReach-IsSpent : {s t : Backend} → AuthReach db env s t → IsSpent c key s → IsSpent c key t
  AuthReach-IsSpent here h = h
  AuthReach-IsSpent (next run step) h = AuthStep-IsSpent step (AuthReach-IsSpent run h)
