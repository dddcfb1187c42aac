-- ===== src/Auth.antt =====
-- src/auth/auth.service.ts: what its methods share. The runtime and the packages that it calls
-- (argon2, SHA-256, the JWT signature, Unicode lower case) are fields of `Runtime`; a handler
-- reads the clock once, as `now`, and draws its random values beforehand, as `Fresh`.
pub mod Login
pub mod Refresh
pub mod Sessions
pub mod Devices
use backendurdubolonest.Base.{
  ℕ, ◌*◌, ◌+◌, Bool, true, false, Option, none, some, List, ◌||◌, Text, take, ◌==◌,
}
use backendurdubolonest.Prisma.{Prisma}
use backendurdubolonest.Http.{
  Error, unauthorized, p2002, Action, ◌>>=◌, ◌>>◌, pure, gets, or_raise, modify,
}
use backendurdubolonest.Schema.{Backend, RefreshSession, RoleCode, UserStatus, LoginHistory}

-- src/common/auth/auth.types.ts
pub record AuthenticatedPrincipal : Type 0 where
  pub id : ℕ
  pub session_id : ℕ
  pub roles : List RoleCode
  pub permissions : List ℕ
  pub status : UserStatus

pub record Runtime : Type 0 where
  pub lower_case : Text → Text
  pub hash_token : ℕ → ℕ
  pub hash_fingerprint : Text → ℕ
  -- The salt is drawn by the caller.
  pub argon2_hash : ℕ → Text → ℕ
  -- `none` is a rejected promise.
  pub argon2_verify : ℕ → Text → Option Bool
  pub sign_access : ℕ → ℕ → ℕ
  pub argon2_dummy_hash : ℕ
  pub refresh_token_ttl_days : ℕ
  pub jwt_access_ttl_seconds : ℕ
  pub max_trusted_devices : ℕ
  -- The permission `users.write`.
  pub users_write : ℕ

pub record Request : Type 0 where
  pub now : ℕ
  pub ip_address : ℕ
  pub user_agent : Text
  pub request_id : ℕ

-- A random identifier and a random token.
pub record Fresh : Type 0 where
  pub id : ℕ
  pub token : ℕ

pub record TokenPair : Type 0 where
  pub access_token : ℕ
  pub refresh_token : ℕ
  pub expires_in : ℕ

abbrev pub day_ms : ℕ
day_ms = 86_400_000

-- The unique columns of `refresh_sessions`.
abbrev pub session_clash : RefreshSession → RefreshSession → Bool
session_clash a b = a.id == b.id || a.token_hash == b.token_hash

module _ (db : Prisma) where
  unfoldable pub create_session : RefreshSession → Action Backend (Unit {0})
  create_session row = do
    table ← gets (λ s. s.refresh_sessions)
    grown ← or_raise p2002 (db.create session_clash row table)
    modify (λ s. record s { refresh_sessions = grown })

  unfoldable pub update_sessions :
      (RefreshSession → Bool) → (RefreshSession → RefreshSession) → Action Backend ℕ
  update_sessions where_row data_row = do
    result ← gets (λ s. db.update_many where_row data_row s.refresh_sessions)
    modify (λ s. record s { refresh_sessions = result.0 })
    pure result.1

  unfoldable pub create_login_history : LoginHistory → Action Backend (Unit {0})
  create_login_history row = modify λ s. record s { login_history = db.insert row s.login_history }

  module _ (env : Runtime) where
    -- `issueTokenPair`
    unfoldable pub issue_token_pair : ℕ → Option ℕ → Request → Fresh → Action Backend TokenPair
    issue_token_pair user_id device_id r fresh = do
      create_session (record {
        id = fresh.id;
        user_id = user_id;
        token_hash = env.hash_token fresh.token;
        device_id = device_id;
        device_name = none;
        device_token = none;
        ip_address = r.ip_address;
        user_agent = take 512 r.user_agent;
        last_seen_at = r.now;
        expires_at = r.now + env.refresh_token_ttl_days * day_ms;
        revoked_at = none;
        replaced_by_id = none;
      })
      pure (record {
        access_token = env.sign_access user_id fresh.id;
        refresh_token = fresh.token;
        expires_in = env.jwt_access_ttl_seconds;
      })
