-- ===== src/Auth/Sessions.antt =====
-- Session management and the password of src/auth/auth.service.ts, and the check that every
-- protected request passes, `validate` of src/common/auth/jwt.strategy.ts.
pub mod Revocation
use backendurdubolonest.Base.{
  ℕ, Bool, false, not, ◌&&◌, Option, none, some, List, [], ◌∷◌, ◌++◌, map, Text, ltb, ◌==◌,
  if◌then◌else◌, is_none, elem,
}
use backendurdubolonest.Prisma.{Prisma}
use backendurdubolonest.Http.{
  Error, unauthorized, Action, ◌>>=◌, ◌>>◌, pure, gets, or_raise, raise_if, transaction,
}
use backendurdubolonest.Schema.{
  Backend, User, RefreshSession, RoleCode, success, denied, is_user_active,
}
use backendurdubolonest.Audit.{audit_input, write_audit}
use backendurdubolonest.Auth.{Runtime, Request, AuthenticatedPrincipal, update_sessions}
use backendurdubolonest.Auth.Login.{update_user}
use backendurdubolonest.Auth.Refresh.{owner_not_deleted, revoke_all}

abbrev pub session_no_longer_valid : Error
session_no_longer_valid = unauthorized "Authentication session is no longer valid"

abbrev pub password_incorrect : Error
password_incorrect = unauthorized "Current password is incorrect"

-- `Set.add` keeps the first of equal codes.
abbrev add_all : List ℕ → List ℕ → List ℕ
add_all seen [] = seen
add_all seen (c ∷ cs) = add_all (if elem c seen then seen else seen ++ c ∷ []) cs

module _ (db : Prisma) where
  unfoldable pub logout_all : AuthenticatedPrincipal → Request → Action Backend ℕ
  logout_all principal r = do
    revoked ← revoke_all db principal.id r.now
    write_audit db
        (audit_input (some principal.id) "auth.logout_all" "session" none success r.request_id)
    pure revoked

  unfoldable pub revoke_session : AuthenticatedPrincipal → ℕ → Request → Action Backend (Unit {0})
  revoke_session principal session_id r = do
    changed ←
        update_sessions db
          (λ x. x.id == session_id && (x.user_id == principal.id && is_none x.revoked_at))
          (λ x. record x { revoked_at = some r.now })
    write_audit db (
        audit_input (some principal.id) "auth.session_revoke" "session" (some session_id)
          (if changed == 0 then denied else success) r.request_id)

  -- The rows that `sessions` lists.
  unfoldable pub sessions : AuthenticatedPrincipal → ℕ → Backend → List RefreshSession
  sessions principal now s =
      db.find_many
        (λ x. x.user_id == principal.id && (is_none x.revoked_at && ltb now x.expires_at))
        s.refresh_sessions

  abbrev password_row : AuthenticatedPrincipal → Backend → Option User
  password_row principal s =
      db.find_first (λ u. u.id == principal.id && is_none u.deleted_at) s.users

  abbrev is_verified : Option Bool → Bool
  is_verified none = false
  is_verified (some b) = b

  unfoldable pub change_password :
      Runtime → AuthenticatedPrincipal → Text → Text → ℕ → Request → Action Backend (Unit {0})
  change_password env principal current_password new_password salt r = do
    user ← (gets (password_row principal) >>= or_raise password_incorrect)
    raise_if (not (is_verified (env.argon2_verify user.password_hash current_password)))
        password_incorrect
    transaction do
      update_user db principal.id
          (λ u. record u { password_hash = env.argon2_hash salt new_password })
      _ ←
          update_sessions db
            (λ x.
              x.user_id == principal.id
              && (not (x.id == principal.session_id) && is_none x.revoked_at))
            (λ x. record x { revoked_at = some r.now })
      pure tt
    write_audit db (
        audit_input (some principal.id) "auth.password_change" "user" (some principal.id) success
          r.request_id)

  -- The codes of the roles and of the permissions that a user has, in the order in which the query
  -- lists them.
  abbrev codes_of_role : Backend → ℕ → List ℕ
  codes_of_role s role_id =
      map (λ x. x.permission_id) (db.find_many (λ x. x.role_id == role_id) s.role_permissions)

  abbrev role_ids : Backend → ℕ → List ℕ
  role_ids s user_id = map (λ x. x.role_id) (db.find_many (λ x. x.user_id == user_id) s.user_roles)

  abbrev role_codes : Backend → List ℕ → List RoleCode
  role_codes s [] = []
  role_codes s (id ∷ ids) = elim (db.find_first (λ d. d.id == id) s.role_definitions) [
    | none ↦ role_codes s ids
    | some d ↦ d.code ∷ role_codes s ids
  ]

  abbrev role_permission_ids : Backend → List ℕ → List ℕ → List ℕ
  role_permission_ids s seen [] = seen
  role_permission_ids s seen (id ∷ ids) =
      role_permission_ids s (add_all seen (codes_of_role s id)) ids

  abbrev own_permission_ids : Backend → ℕ → List ℕ
  own_permission_ids s user_id =
      map (λ x. x.permission_id)
        (db.find_many (λ x. x.user_id == user_id && x.granted) s.user_permissions)

  unfoldable pub all_permissions : Backend → ℕ → List ℕ
  all_permissions s user_id =
      add_all (role_permission_ids s [] (role_ids s user_id)) (own_permission_ids s user_id)

  -- The row that `validate` looks up, by the claims of the access token.
  unfoldable pub session_row : ℕ → ℕ → ℕ → Backend → Option RefreshSession
  session_row sub sid now s =
      db.find_first
        (λ x.
          x.id == sid
          && (x.user_id == sub
              && (is_none x.revoked_at && (ltb now x.expires_at && owner_not_deleted s x.user_id))))
        s.refresh_sessions

  unfoldable pub owner : ℕ → Backend → Option User
  owner user_id s = db.find_first (λ u. u.id == user_id) s.users

  -- `JwtStrategy.validate`, for a token whose signature, issuer, audience and age passport accepts.
  unfoldable pub validate : ℕ → ℕ → ℕ → Action Backend AuthenticatedPrincipal
  unfolding session_row owner all_permissions
  validate sub sid now = do
    row ← (gets (session_row sub sid now) >>= or_raise session_no_longer_valid)
    u ← (gets (owner row.user_id) >>= or_raise session_no_longer_valid)
    raise_if (not (is_user_active u.status)) session_no_longer_valid
    gets λ s. record {
      id = u.id;
      session_id = sid;
      roles = role_codes s (role_ids s u.id);
      permissions = all_permissions s u.id;
      status = u.status;
    }
