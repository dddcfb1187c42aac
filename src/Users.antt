-- ===== src/Users.antt =====
-- src/users/users.service.ts: the methods that change accounts, `create`,
-- `updateProfile`, `updateStatus` and `remove`. `list` and `findById` only read.
use backendurdubolonest.Base.{
  ℕ, Bool, not, ◌&&◌, ◌||◌, Option, none, some, Text, String, trim, ◌==◌, is_none, is_empty, any,
  elem, if◌then◌else◌,
}
use backendurdubolonest.Prisma.{Prisma}
use backendurdubolonest.Http.{
  Error, conflict, not_found, p2002, p2025, Action, ◌>>=◌, ◌>>◌, pure, gets, or_raise, raise_if,
  when, transaction, rethrow,
}
use backendurdubolonest.Schema.{
  Backend, User, UserStatus, RoleCode, success, is_user_active, role_code,
}
use backendurdubolonest.Audit.{audit_input, write_audit}
use backendurdubolonest.Auth.{Runtime, Request, AuthenticatedPrincipal}
use backendurdubolonest.Auth.Login.{
  email_in_use, user_clash, create_user, create_user_role, find_role, normal_email, update_user,
  update_users,
}
use backendurdubolonest.Auth.Refresh.{revoke_all}

pub record CreateUserDto : Type 0 where
  pub username : Text
  pub email : Text
  pub password : Text
  pub role : Option RoleCode

-- `none` is a field that is left out; a picture may also be given as `null`.
pub record UpdateProfileDto : Type 0 where
  pub username : Option Text
  pub email : Option Text
  pub profile_image_key : Option (Option ℕ)

-- A text that is given and not empty replaces the one of the row.
abbrev changed_text : (Text → Text) → Option Text → Text → Text
changed_text f none old = old
changed_text f (some t) old = if is_empty t then old else f t

abbrev changed_image : Option (Option ℕ) → Option ℕ → Option ℕ
changed_image none old = old
changed_image (some key) old = key

abbrev pub user_not_found : Error
user_not_found = not_found "User not found"

abbrev status_action : UserStatus → String
status_action UserStatus.active = "users.active"
status_action UserStatus.suspended = "users.suspended"
status_action UserStatus.disabled = "users.disabled"

abbrev role_or_user : Option RoleCode → RoleCode
role_or_user none = RoleCode.user
role_or_user (some role) = role

module _ (db : Prisma) where
  unfoldable pub create_account : Runtime → CreateUserDto → ℕ → ℕ → Action Backend User
  create_account env dto id salt = transaction do
    let row : User = record {
      id = id;
      username = trim dto.username;
      email = normal_email db env dto.email;
      password_hash = env.argon2_hash salt dto.password;
      status = UserStatus.active;
      profile_image_key = none;
      failed_login_count = 0;
      locked_until = none;
      last_login_at = none;
      deleted_at = none;
    }
    create_user db row
    role ← (gets (find_role db (role_or_user dto.role)) >>= or_raise p2025)
    create_user_role db (record { user_id = id; role_id = role.id })
    pure row

  unfoldable pub create :
      Runtime → CreateUserDto → ℕ → ℕ → AuthenticatedPrincipal → Request → Action Backend User
  unfolding create_account
  create env dto id salt actor r = rethrow email_in_use do
    user ← create_account env dto id salt
    write_audit db
        (audit_input (some actor.id) "users.create" "user" (some user.id) success r.request_id)
    pure user

  abbrev pub profile_changes : Runtime → UpdateProfileDto → User → User
  profile_changes env dto u = record u {
    username = changed_text trim dto.username u.username;
    email = changed_text (normal_email db env) dto.email u.email;
    profile_image_key = changed_image dto.profile_image_key u.profile_image_key;
  }

  -- `update` of the row with this key, whose new columns may clash with those of another row.
  unfoldable pub update_profile_row : Runtime → ℕ → UpdateProfileDto → Action Backend User
  update_profile_row env id dto = do
    u ← (gets (λ s. db.find_first (λ u. u.id == id) s.users) >>= or_raise p2025)
    let row = profile_changes env dto u
    table ← gets (λ s. s.users)
    raise_if (any (λ v. not (v.id == id) && user_clash row v) table) p2002
    update_user db id (profile_changes env dto)
    pure row

  abbrev pub may_update_profile : Runtime → ℕ → AuthenticatedPrincipal → Bool
  may_update_profile env id actor =
      actor.id == id
      || any (λ code. role_code code == role_code RoleCode.super_admin) actor.roles
      || elem env.users_write actor.permissions

  unfoldable pub update_profile :
      Runtime → ℕ → UpdateProfileDto → AuthenticatedPrincipal → Request → Action Backend User
  unfolding update_profile_row
  update_profile env id dto actor r = do
    raise_if (not (may_update_profile env id actor)) user_not_found
    rethrow email_in_use do
      row ← update_profile_row env id dto
      write_audit db
          (audit_input (some actor.id) "users.profile_update" "user" (some id) success r.request_id)
      pure row

  abbrev pub live_user : ℕ → Backend → Option User
  live_user id s = db.find_first (λ u. u.id == id && is_none u.deleted_at) s.users

  unfoldable pub update_status_rows : ℕ → UserStatus → ℕ → Action Backend (Unit {0})
  update_status_rows id status now = do
    update_user db id (λ u. record u { status = status })
    when (not (is_user_active status)) (revoke_all db id now >>= λ _. pure tt)

  unfoldable pub update_status :
      ℕ → UserStatus → AuthenticatedPrincipal → Request → Action Backend (Unit {0})
  unfolding update_status_rows
  update_status id status actor r = do
    raise_if (actor.id == id && not (is_user_active status))
        (conflict "You cannot disable your own account")
    found ← (gets (live_user id) >>= or_raise user_not_found)
    transaction (update_status_rows id status r.now)
    write_audit db
        (audit_input (some actor.id) (status_action status) "user" (some id) success r.request_id)

  unfoldable pub remove_rows : ℕ → ℕ → Action Backend ℕ
  remove_rows id now = do
    changed ←
        update_users db (λ u. u.id == id && is_none u.deleted_at)
          (λ u. record u { deleted_at = some now; status = UserStatus.disabled })
    _ ← revoke_all db id now
    pure changed

  unfoldable pub remove : ℕ → AuthenticatedPrincipal → Request → Action Backend (Unit {0})
  unfolding remove_rows
  remove id actor r = do
    raise_if (actor.id == id) (conflict "You cannot delete your own account")
    changed ← transaction (remove_rows id r.now)
    raise_if (changed == 0) user_not_found
    write_audit db
        (audit_input (some actor.id) "users.delete" "user" (some id) success r.request_id)
