-- ===== src/Auth/Sessions/Revocation.antt =====
-- A session that its owner or an administrator ends is never accepted again.
use backendurdubolonest.Base.{
  ℕ, ◌≡◌, ◌≢◌, ◌∙◌, refl, ap, true, false, not, ◌&&◌, some, List, [], ◌∷◌, inl, inr, arith, ◌==◌,
  any, map_where, is_none, Option-cases, ltb,
}
use backendurdubolonest.Prisma.{Prisma}
use backendurdubolonest.Prisma.Rows.{any-of-Among, any-map_where}
use backendurdubolonest.Http.{ok, err, ◌>>=◌}
use backendurdubolonest.Schema.{Backend, RefreshSession, UserStatus, is_user_active}
use backendurdubolonest.Audit.{write_audit}
use backendurdubolonest.Auth.{Runtime, Request, AuthenticatedPrincipal, update_sessions}
use backendurdubolonest.Auth.Login.{update_user, update_users}
use backendurdubolonest.Auth.Refresh.{owner_not_deleted, revoke_all}
use backendurdubolonest.Auth.Refresh.Spent.{by_id, is_live_row, IsSpent}
use backendurdubolonest.Auth.Refresh.Steps.{AuthReach, AuthReach-IsSpent}
use backendurdubolonest.Auth.Sessions.{logout_all, validate, session_row, session_no_longer_valid}
use backendurdubolonest.Users.{update_status, update_status_rows, remove, remove_rows}

-- The session exists, and its rows (there is one, by the primary key) are the user's.
pub record OwnedBy (user_id session_id : ℕ) (s : Backend) : Type 0 where
  pub known : any (λ x. x.id == session_id) s.refresh_sessions ≡ true
  pub sole : any (λ x. x.id == session_id && not (x.user_id == user_id)) s.refresh_sessions ≡ false

revoked-dead :
    (user_id session_id now : ℕ) (t : List RefreshSession)
    → any (λ x. x.id == session_id && not (x.user_id == user_id)) t ≡ false
    → any (is_live_row by_id session_id) (
        map_where
          (λ x. x.user_id == user_id && is_none x.revoked_at)
          (λ x. record x { revoked_at = some now })
          t)
      ≡ false
revoked-dead user_id session_id now [] sole = refl
revoked-dead user_id session_id now (x ∷ xs) sole =
    ground (arith, revoked-dead user_id session_id now xs)

-- The rows of the table after `revokedAt` is set on all that a user has.
abbrev pub all_revoked : ℕ → ℕ → List RefreshSession → List RefreshSession
all_revoked user_id now =
    map_where (λ x. x.user_id == user_id && is_none x.revoked_at)
      (λ x. record x { revoked_at = some now })

all_revoked-spends :
    (user_id session_id now : ℕ) (s t : Backend)
    → OwnedBy user_id session_id s
    → t.refresh_sessions ≡ all_revoked user_id now s.refresh_sessions
    → IsSpent by_id session_id t
all_revoked-spends user_id session_id now s t own same = record {
  known =
      ap (any (λ x. x.id == session_id)) same
      ∙ any-map_where (λ x. x.id == session_id) (λ x. x.user_id == user_id && is_none x.revoked_at)
          (λ x. record x { revoked_at = some now }) s.refresh_sessions (λ x. refl)
      ∙ own.known;
  dead =
      ap (any (is_live_row by_id session_id)) same
      ∙ revoked-dead user_id session_id now s.refresh_sessions own.sole;
}

module _ (db : Prisma) where
  logout_all_rows :
      (actor : AuthenticatedPrincipal) (r : Request) (s : Backend)
      → (logout_all db actor r s).1.refresh_sessions ≡ all_revoked actor.id r.now s.refresh_sessions
  unfolding logout_all revoke_all update_sessions write_audit ◌>>=◌
  logout_all_rows actor r s = grind (arith, db.update_many_lem)

  update_status_ok_rows :
      (id : ℕ) (status : UserStatus) (actor : AuthenticatedPrincipal) (r : Request) (s t : Backend)
      → is_user_active status ≡ false
      → update_status db id status actor r s ≡ (ok tt, t)
      → t.refresh_sessions ≡ all_revoked id r.now s.refresh_sessions
  unfolding update_status update_status_rows revoke_all update_user update_sessions write_audit
      ◌>>=◌
  update_status_ok_rows id status actor r s t closing h = grind (arith, db.update_many_lem)

  remove_ok_rows :
      (id : ℕ) (actor : AuthenticatedPrincipal) (r : Request) (s t : Backend)
      → remove db id actor r s ≡ (ok tt, t)
      → t.refresh_sessions ≡ all_revoked id r.now s.refresh_sessions
  unfolding remove remove_rows revoke_all update_users update_sessions write_audit ◌>>=◌
  remove_ok_rows id actor r s t h = grind (arith, db.update_many_lem)

  -- A spent session is refused by the check that every protected request passes.
  validate-spent :
      (sub sid now : ℕ) (s : Backend)
      → IsSpent by_id sid s
      → validate db sub sid now s ≡ (err session_no_longer_valid, s)
  unfolding validate ◌>>=◌
  validate-spent sub sid now s spent = elim (Option-cases (session_row db sub sid now s)) [
    | inl e ↦ ground arith
    | inr (x, e) ↦ absurd (no_row x e)
  ]
    where
      no_row : (x : RefreshSession) → session_row db sub sid now s ≢ some x
      no_row x e =
          let (there, fits) =
            db.find_first_some
              (λ y.
                y.id == sid
                && (y.user_id == sub
                    && (is_none y.revoked_at
                        && (ltb now y.expires_at && owner_not_deleted s y.user_id))))
              s.refresh_sessions x e in
          ground
            (arith, spent.dead, any-of-Among (is_live_row by_id sid) x s.refresh_sessions there)

  module _ (env : Runtime) where
    -- After `logoutAll` no session that the user had is accepted again, for whatever claims of a
    -- token that name it and at whatever time, whatever operations of the authentication and of
    -- the user service, one after the other, come in between.
    pub logout_all_final :
        (actor : AuthenticatedPrincipal) (r : Request) (session_id sub now : ℕ) (s u : Backend)
        → OwnedBy actor.id session_id s
        → AuthReach db env (logout_all db actor r s).1 u
        → validate db sub session_id now u ≡ (err session_no_longer_valid, u)
    logout_all_final actor r session_id sub now s u own run = validate-spent sub session_id now u (
        AuthReach-IsSpent db env by_id session_id run (
          all_revoked-spends actor.id session_id r.now s (logout_all db actor r s).1 own
            (logout_all_rows actor r s)))

    -- After an administrator suspends or disables an account no session that it had is accepted
    -- again, even if the account is made active later: whatever operations of the authentication
    -- and of the user service, one after the other, come in between.
    pub update_status_final :
        (id : ℕ) (status : UserStatus) (actor : AuthenticatedPrincipal) (r : Request)
        (session_id sub now : ℕ) (s t u : Backend)
        → is_user_active status ≡ false
        → OwnedBy id session_id s
        → update_status db id status actor r s ≡ (ok tt, t)
        → AuthReach db env t u
        → validate db sub session_id now u ≡ (err session_no_longer_valid, u)
    update_status_final id status actor r session_id sub now s t u closing own h run =
        validate-spent sub session_id now u (
          AuthReach-IsSpent db env by_id session_id run (
            all_revoked-spends id session_id r.now s t own
              (update_status_ok_rows id status actor r s t closing h)))

    -- After an account is deleted no session that it had is accepted again, whatever operations of
    -- the authentication and of the user service, one after the other, come in between.
    pub remove_final :
        (id : ℕ) (actor : AuthenticatedPrincipal) (r : Request) (session_id sub now : ℕ)
        (s t u : Backend)
        → OwnedBy id session_id s
        → remove db id actor r s ≡ (ok tt, t)
        → AuthReach db env t u
        → validate db sub session_id now u ≡ (err session_no_longer_valid, u)
    remove_final id actor r session_id sub now s t u own h run =
        validate-spent sub session_id now u (
          AuthReach-IsSpent db env by_id session_id run
            (all_revoked-spends id session_id r.now s t own (remove_ok_rows id actor r s t h)))
