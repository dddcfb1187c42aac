-- ===== src/Tests/Sample.antt =====
-- A backend with two users, their sessions and devices, and a runtime, for the runs.
use backendurdubolonest.Base.{ℕ, ◌+◌, none, some, [], ◌∷◌, ◌==◌}
use backendurdubolonest.Schema.{
  Backend, User, UserStatus, RefreshSession, TrustedDevice, DeviceStatus,
}
use backendurdubolonest.Auth.{Runtime, Request, Fresh, AuthenticatedPrincipal}

-- A password is verified if the digest is its length.
abbrev pub runtime : Runtime
runtime = record {
  lower_case = λ t. t;
  hash_token = λ n. n + 1000;
  hash_fingerprint = λ t. 7;
  argon2_hash = λ salt t. 3;
  argon2_verify = λ hash t. some (hash == 3);
  sign_access = λ sub sid. sub + sid;
  argon2_dummy_hash = 0;
  refresh_token_ttl_days = 30;
  jwt_access_ttl_seconds = 600;
  max_trusted_devices = 1;
  users_write = 2;
}

abbrev pub request : ℕ → Request
request now = record { now = now; ip_address = 1; user_agent = 65 ∷ []; request_id = 9 }

abbrev pub fresh : ℕ → Fresh
fresh n = record { id = n; token = n }

abbrev pub member : ℕ → ℕ → ℕ → User
member id hash failures = record {
  id = id;
  username = 97 ∷ [];
  email = id ∷ [];
  password_hash = hash;
  status = UserStatus.active;
  profile_image_key = none;
  failed_login_count = failures;
  locked_until = none;
  last_login_at = none;
  deleted_at = none;
}

abbrev pub session : ℕ → ℕ → ℕ → RefreshSession
session id user_id token = record {
  id = id;
  user_id = user_id;
  token_hash = token + 1000;
  device_id = none;
  device_name = none;
  device_token = none;
  ip_address = 1;
  user_agent = [];
  last_seen_at = 0;
  expires_at = 1_000_000;
  revoked_at = none;
  replaced_by_id = none;
}

abbrev pub device : ℕ → ℕ → ℕ → DeviceStatus → TrustedDevice
device id user_id device_id status = record {
  id = id;
  user_id = user_id;
  device_id = device_id;
  device_name = none;
  fingerprint_hash = 7;
  status = status;
  last_seen_at = 0;
  revoked_at = none;
}

abbrev pub backend : Backend
backend = record {
  users = member 101 3 0 ∷ member 102 4 4 ∷ [];
  role_definitions = [];
  user_roles = [];
  permissions = [];
  role_permissions = [];
  user_permissions = [];
  refresh_sessions = session 11 101 21 ∷ session 12 102 22 ∷ [];
  trusted_devices =
      device 31 101 41 DeviceStatus.active ∷ device 32 101 42 DeviceStatus.revoked ∷ [];
  login_history = [];
  audit_events = [];
  dramas = [];
  seasons = [];
  episodes = [];
  media_assets = [];
  plans = [];
  subscriptions = [];
  subscription_history = [];
  access_groups = [];
  group_members = [];
  episode_grants = [];
  grant_history = [];
  playback_sessions = [];
  playback_heartbeats = [];
  playback_history = [];
  capabilities = [];
  support_conversations = [];
  support_messages = [];
}

abbrev pub principal : ℕ → ℕ → AuthenticatedPrincipal
principal id session_id = record {
  id = id;
  session_id = session_id;
  roles = [];
  permissions = [];
  status = UserStatus.active;
}
