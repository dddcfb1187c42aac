-- ===== src/Auth/Refresh.antt =====
-- `refresh` and `logout` of src/auth/auth.service.ts.
pub mod SingleUse
pub mod Spent
pub mod Steps
use backendurdubolonest.Base.{
  ℕ, ◌+◌, ◌*◌, Bool, false, not, ◌&&◌, ◌||◌, Option, none, some, take, leb, ◌==◌, if◌then◌else◌,
  any, is_some, is_none,
}
use backendurdubolonest.Prisma.{Prisma}
use backendurdubolonest.Http.{
  Error, unauthorized, Action, ◌>>=◌, ◌>>◌, pure, raise, gets, or_raise, raise_if, transaction,
}
use backendurdubolonest.Schema.{Backend, User, RefreshSession, success, denied, is_user_active}
use backendurdubolonest.Audit.{audit_input, write_audit}
use backendurdubolonest.Auth.{
  Runtime, Request, Fresh, TokenPair, day_ms, create_session, update_sessions,
}

abbrev pub refresh_invalid : Error
refresh_invalid = unauthorized "Refresh token is invalid or expired"

-- `user: { deletedAt: null }` of a `where` clause over rows that belong to a user.
abbrev pub owner_not_deleted : Backend → ℕ → Bool
owner_not_deleted s user_id = any (λ u. u.id == user_id && is_none u.deleted_at) s.users

module _ (db : Prisma) where
  -- `session.user.status === UserStatus.ACTIVE` of the row's owner.
  unfoldable pub owner_is_active : ℕ → Backend → Bool
  owner_is_active user_id s = elim (db.find_first (λ u. u.id == user_id) s.users) [
    | none ↦ false
    | some u ↦ is_user_active u.status
  ]

  -- The row that `refresh` looks up.
  unfoldable pub refresh_lookup : ℕ → Backend → Option RefreshSession
  refresh_lookup token_hash s =
      db.find_first (λ x. x.token_hash == token_hash && owner_not_deleted s x.user_id)
        s.refresh_sessions

  -- `revokedAt: null` rows of a user, each given a date.
  unfoldable pub revoke_all : ℕ → ℕ → Action Backend ℕ
  revoke_all user_id now =
      update_sessions db (λ x. x.user_id == user_id && is_none x.revoked_at)
        (λ x. record x { revoked_at = some now })

  module _ (env : Runtime) where
    -- A consumed token is presented again: every session of the user goes.
    unfoldable pub refresh_replay : Request → RefreshSession → Action Backend TokenPair
    refresh_replay r session = do
      _ ← revoke_all session.user_id r.now
      write_audit db (
          audit_input (some session.user_id) "auth.refresh_replay" "session" (some session.id)
            denied r.request_id)
      raise refresh_invalid

    -- The row that replaces a consumed one.
    abbrev pub replacement : Request → Fresh → RefreshSession → RefreshSession
    replacement r fresh session = record {
      id = fresh.id;
      user_id = session.user_id;
      token_hash = env.hash_token fresh.token;
      device_id = session.device_id;
      device_name = none;
      device_token = none;
      ip_address = r.ip_address;
      user_agent = take 512 r.user_agent;
      last_seen_at = r.now;
      expires_at = r.now + env.refresh_token_ttl_days * day_ms;
      revoked_at = none;
      replaced_by_id = none;
    }

    -- The transaction of `refresh`: the replacement first, then the row that was read, if it is
    -- not revoked by now.
    unfoldable pub rotate_session : Request → Fresh → RefreshSession → Action Backend (Unit {0})
    rotate_session r fresh session = transaction do
      create_session db (replacement r fresh session)
      changed ←
          update_sessions db (λ x. x.id == session.id && is_none x.revoked_at)
            (λ x. record x {
              revoked_at = some r.now;
              replaced_by_id = some fresh.id;
              last_seen_at = r.now;
            })
      raise_if (not (changed == 1)) refresh_invalid

    unfoldable pub refresh_live : Request → Fresh → RefreshSession → Action Backend TokenPair
    refresh_live r fresh session = do
      rotate_session r fresh session
      pure (record {
        access_token = env.sign_access session.user_id fresh.id;
        refresh_token = fresh.token;
        expires_in = env.jwt_access_ttl_seconds;
      })

    unfoldable pub refresh_found : Request → Fresh → RefreshSession → Action Backend TokenPair
    refresh_found r fresh session = do
      active ← gets (owner_is_active session.user_id)
      raise_if (not active || leb session.expires_at r.now) refresh_invalid
      (if is_some session.revoked_at
          then refresh_replay r session
          else refresh_live r fresh session)

    unfoldable pub refresh : ℕ → Request → Fresh → Action Backend TokenPair
    refresh refresh_token r fresh = do
      session ← (gets (refresh_lookup (env.hash_token refresh_token)) >>= or_raise refresh_invalid)
      refresh_found r fresh session

    unfoldable pub logout : ℕ → Request → Action Backend (Unit {0})
    logout refresh_token r = do
      _ ←
          update_sessions db
            (λ x. x.token_hash == env.hash_token refresh_token && is_none x.revoked_at)
            (λ x. record x { revoked_at = some r.now })
      write_audit db (audit_input none "auth.logout" "session" none success r.request_id)
