-- ===== src/Auth/Login.antt =====
-- `register` and `login` of src/auth/auth.service.ts.
pub mod Lockout
use backendurdubolonest.Base.{
  ℕ, ◌+◌, ◌*◌, Bool, true, false, not, ◌&&◌, ◌||◌, Option, none, some, String, Text, trim, take,
  ltb, leb, ◌==◌, if◌then◌else◌, is_none, text_eq,
}
use backendurdubolonest.Prisma.{Prisma}
use backendurdubolonest.Http.{
  Error, unauthorized, conflict, p2002, p2025, Action, ◌>>=◌, ◌>>◌, pure, raise, gets, or_raise,
  modify, raise_if, transaction, rethrow, when,
}
use backendurdubolonest.Schema.{
  Backend, User, UserStatus, RoleCode, RoleDefinition, UserRole, success, denied, is_user_active,
  role_code,
}
use backendurdubolonest.Audit.{audit_input, write_audit}
use backendurdubolonest.Auth.{
  Runtime, Request, Fresh, TokenPair, create_login_history, issue_token_pair,
}

abbrev pub lock_threshold : ℕ
lock_threshold = 5

abbrev pub lock_ms : ℕ
lock_ms = 15 * 60_000

pub record LoginDto : Type 0 where
  pub email : Text
  pub password : Text
  pub device_id : Option ℕ

pub record RegisterDto : Type 0 where
  pub username : Text
  pub email : Text
  pub password : Text
  pub device_id : Option ℕ

abbrev pub invalid_credentials : Error
invalid_credentials = unauthorized "Invalid credentials"

-- The unique columns of `users`, by the identifier and the address.
abbrev pub user_clash : User → User → Bool
user_clash a b = a.id == b.id || text_eq a.email b.email

-- The unique columns of `user_roles`.
abbrev pub user_role_clash : UserRole → UserRole → Bool
user_role_clash a b = a.user_id == b.user_id && a.role_id == b.role_id

abbrev pub email_in_use : Error → Error
email_in_use p2002 = conflict "Email or username is already in use"
email_in_use e = e

abbrev or_false : Option Bool → Bool
or_false none = false
or_false (some b) = b

-- `Boolean(user?.lockedUntil && user.lockedUntil > new Date())`
abbrev pub is_locked : Option User → ℕ → Bool
is_locked none now = false
is_locked (some u) now = elim (u.locked_until) [ none ↦ false | some until ↦ ltb now until ]

-- What a rejected attempt leaves in the row of a known user who is not locked.
abbrev pub count_failure : ℕ → User → User → User
count_failure now known u = record u {
  failed_login_count = known.failed_login_count + 1;
  locked_until =
      if leb lock_threshold (known.failed_login_count + 1) then some (now + lock_ms) else none;
}

abbrev pub clear_failures : ℕ → User → User
clear_failures now u = record u {
  failed_login_count = 0;
  locked_until = none;
  last_login_at = some now;
}

abbrev user_id : Option User → Option ℕ
user_id none = none
user_id (some u) = some u.id

module _ (db : Prisma) where
  unfoldable pub update_users : (User → Bool) → (User → User) → Action Backend ℕ
  update_users where_row data_row = do
    result ← gets (λ s. db.update_many where_row data_row s.users)
    modify (λ s. record s { users = result.0 })
    pure result.1

  unfoldable pub update_user : ℕ → (User → User) → Action Backend (Unit {0})
  update_user id data_row = do
    result ← gets (λ s. db.update_many (λ u. u.id == id) data_row s.users)
    raise_if (result.1 == 0) p2025
    modify (λ s. record s { users = result.0 })

  unfoldable pub create_user : User → Action Backend (Unit {0})
  create_user row = do
    table ← gets (λ s. s.users)
    grown ← or_raise p2002 (db.create user_clash row table)
    modify (λ s. record s { users = grown })

  unfoldable pub create_user_role : UserRole → Action Backend (Unit {0})
  create_user_role row = do
    table ← gets (λ s. s.user_roles)
    grown ← or_raise p2002 (db.create user_role_clash row table)
    modify (λ s. record s { user_roles = grown })

  unfoldable pub find_role : RoleCode → Backend → Option RoleDefinition
  find_role code s = db.find_first (λ d. role_code d.code == role_code code) s.role_definitions

  module _ (env : Runtime) where
    abbrev pub normal_email : Text → Text
    normal_email email = env.lower_case (trim email)

    unfoldable register_user : RegisterDto → ℕ → ℕ → Action Backend User
    unfolding find_role
    register_user dto id salt = transaction do
      let row : User = record {
        id = id;
        username = trim dto.username;
        email = normal_email dto.email;
        password_hash = env.argon2_hash salt dto.password;
        status = UserStatus.active;
        profile_image_key = none;
        failed_login_count = 0;
        locked_until = none;
        last_login_at = none;
        deleted_at = none;
      }
      create_user row
      role ← (gets (find_role RoleCode.user) >>= or_raise p2025)
      create_user_role (record { user_id = id; role_id = role.id })
      pure row

    -- What stands under `try` in `register`, up to the promise that it returns without `await`.
    unfoldable pub register_account : RegisterDto → ℕ → ℕ → Request → Action Backend User
    unfolding register_user
    register_account dto id salt r = rethrow email_in_use do
      created ← register_user dto id salt
      create_login_history db (record {
        user_id = some created.id;
        email = normal_email dto.email;
        succeeded = true;
        reason = "registration";
        ip_address = r.ip_address;
        user_agent = take 512 r.user_agent;
      })
      write_audit db (
          audit_input (some created.id) "auth.register" "user" (some created.id) success
            r.request_id)
      pure created

    unfoldable pub register : RegisterDto → ℕ → ℕ → Request → Fresh → Action Backend TokenPair
    unfolding register_account
    register dto id salt r fresh = do
      created ← register_account dto id salt r
      issue_token_pair db env created.id dto.device_id r fresh

    -- The row that `login` looks up.
    unfoldable pub login_lookup : Text → Backend → Option User
    login_lookup email s =
        db.find_first (λ u. text_eq u.email (normal_email email) && is_none u.deleted_at) s.users

    abbrev pub stored_hash : Option User → ℕ
    stored_hash none = env.argon2_dummy_hash
    stored_hash (some u) = u.password_hash

    -- `argon2.verify(hash, dto.password).catch(() => false)`
    unfoldable pub password_matches : Option User → Text → Bool
    password_matches found password = or_false (env.argon2_verify (stored_hash found) password)

    -- The known user's failure is counted, unless the account is locked.
    unfoldable pub count_known : ℕ → Option User → Action Backend (Unit {0})
    count_known now none = pure tt
    count_known now (some known) =
        when (not (is_locked (some known) now)) (update_user known.id (count_failure now known))

    unfoldable pub reject_login : LoginDto → Request → Option User → Action Backend TokenPair
    reject_login dto r found = do
      count_known r.now found
      let reason : String =
          if is_locked found r.now then "account_locked" else "invalid_credentials"
      create_login_history db (record {
        user_id = user_id found;
        email = normal_email dto.email;
        succeeded = false;
        reason = reason;
        ip_address = r.ip_address;
        user_agent = take 512 r.user_agent;
      })
      write_audit db
          (audit_input (user_id found) "auth.login" "user" (user_id found) denied r.request_id)
      raise invalid_credentials

    unfoldable pub accept_login : LoginDto → Request → Fresh → User → Action Backend TokenPair
    accept_login dto r fresh known = do
      update_user known.id (clear_failures r.now)
      create_login_history db (record {
        user_id = some known.id;
        email = normal_email dto.email;
        succeeded = true;
        reason = "login";
        ip_address = r.ip_address;
        user_agent = take 512 r.user_agent;
      })
      write_audit db
          (audit_input (some known.id) "auth.login" "user" (some known.id) success r.request_id)
      issue_token_pair db env known.id dto.device_id r fresh

    unfoldable pub login_found : LoginDto → Request → Fresh → Option User → Action Backend TokenPair
    login_found dto r fresh none = reject_login dto r none
    login_found dto r fresh (some known) =
        if password_matches (some known) dto.password
          && is_user_active known.status
          && not (is_locked (some known) r.now)
        then accept_login dto r fresh known
        else reject_login dto r (some known)

    unfoldable pub login : LoginDto → Request → Fresh → Action Backend TokenPair
    login dto r fresh = do found ← gets (login_lookup dto.email); login_found dto r fresh found
