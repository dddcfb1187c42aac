-- ===== src/Access/Grants.antt =====
-- The grants of src/access/access.service.ts: `createGrant`, `createBulkGrants`, `revokeGrant` and
-- `validate`. `grantDirect`, `grantGroup` and their bulk forms are these with one of the user and
-- the group left out.
pub mod Effect
use backendurdubolonest.Base.{
  ℕ, Bool, not, ◌&&◌, ◌||◌, Option, none, some, List, [], ◌∷◌, length, elem, String, ◌==◌, is_some,
  is_none,
}
use backendurdubolonest.Prisma.{Prisma}
use backendurdubolonest.Http.{
  not_found, p2025, Action, ◌>>=◌, ◌>>◌, pure, gets, or_raise, raise_if, modify, transaction,
}
use backendurdubolonest.Schema.{Backend, EpisodeGrant, GrantStatus, GrantHistory, success}
use backendurdubolonest.Audit.{audit_input, write_audit}
use backendurdubolonest.Auth.{Request, AuthenticatedPrincipal}
use backendurdubolonest.Access.{
  GrantDto, assert_window, ensure_user, ensure_group, is_direct_grant, is_group_grant,
}

abbrev grant_action : Option ℕ → String
grant_action (some user_id) = "access.direct_grant"
grant_action none = "access.group_grant"

abbrev bulk_action : Option ℕ → String
bulk_action (some user_id) = "access.direct_grant_bulk"
bulk_action none = "access.group_grant_bulk"

abbrev pub new_grant : GrantDto → ℕ × ℕ → ℕ → ℕ → EpisodeGrant
new_grant dto (starts_at, ends_at) id episode_id = record {
  id = id;
  episode_id = episode_id;
  user_id = dto.user_id;
  group_id = dto.group_id;
  starts_at = starts_at;
  ends_at = ends_at;
  status = GrantStatus.active;
  revoked_at = none;
}

-- What `validate` answers, with the grants that it has found.
pub record AccessDecision : Type 0 where
  pub allowed : Bool
  pub direct : Option EpisodeGrant
  pub group : Option EpisodeGrant

module _ (db : Prisma) where
  -- `if (userId) await this.ensureUser(userId)`
  unfoldable pub ensure_target :
      Option ℕ → (ℕ → Action Backend (Unit {0})) → Action Backend (Unit {0})
  ensure_target none ensure = pure tt
  ensure_target (some id) ensure = ensure id

  -- A grant and its first line of history.
  unfoldable pub insert_grant :
      GrantDto → AuthenticatedPrincipal → EpisodeGrant → Action Backend (Unit {0})
  insert_grant dto actor grant = modify λ s. record s {
    episode_grants = db.insert grant s.episode_grants;
    grant_history =
        db.insert
          (record {
            grant_id = grant.id;
            actor_id = actor.id;
            action = "created";
            old_status = none;
            new_status = GrantStatus.active;
            old_ends_at = none;
            new_ends_at = some grant.ends_at;
            note = dto.remark;
          })
          s.grant_history;
  }

  unfoldable pub create_grant :
      GrantDto → ℕ → ℕ → AuthenticatedPrincipal → Request → Action Backend EpisodeGrant
  unfolding assert_window ensure_target ensure_user ensure_group insert_grant
  create_grant dto episode_id id actor r = do
    window ← assert_window dto.starts_at dto.ends_at
    episode ←
        (gets (λ s. db.find_first (λ e. e.id == episode_id) s.episodes)
          >>= or_raise (not_found "Episode not found"))
    ensure_target dto.user_id (ensure_user db)
    ensure_target dto.group_id (ensure_group db)
    transaction (insert_grant dto actor (new_grant dto window id episode_id))
    write_audit db (
        audit_input (some actor.id) (grant_action dto.user_id) "episode_grant" (some id) success
          r.request_id)
    pure (new_grant dto window id episode_id)

  -- The loop of `createBulkGrants`; `new_id` is the identifier that an episode's grant gets.
  unfoldable pub insert_grants :
      GrantDto
      → AuthenticatedPrincipal
      → ℕ × ℕ
      → (ℕ → ℕ)
      → List ℕ
      → Action Backend (List EpisodeGrant)
  insert_grants dto actor window new_id [] = pure []
  insert_grants dto actor window new_id (episode_id ∷ episode_ids) = do
    insert_grant dto actor (new_grant dto window (new_id episode_id) episode_id)
    created ← insert_grants dto actor window new_id episode_ids
    pure (new_grant dto window (new_id episode_id) episode_id ∷ created)

  unfoldable pub create_bulk_grants :
      GrantDto
      → List ℕ
      → (ℕ → ℕ)
      → AuthenticatedPrincipal
      → Request
      → Action Backend (List EpisodeGrant)
  unfolding assert_window ensure_target ensure_user ensure_group
  create_bulk_grants dto episode_ids new_id actor r = do
    window ← assert_window dto.starts_at dto.ends_at
    ensure_target dto.user_id (ensure_user db)
    ensure_target dto.group_id (ensure_group db)
    found ←
        gets (λ s. db.count_rows (λ e. elem e.id episode_ids && is_none e.deleted_at) s.episodes)
    raise_if (not (found == length episode_ids)) (not_found "One or more episodes not found")
    grants ← transaction (insert_grants dto actor window new_id episode_ids)
    write_audit db (
        audit_input (some actor.id) (bulk_action dto.user_id) "episode_grant" none success
          r.request_id)
    pure grants

  abbrev pub find_grant : ℕ → Backend → Option EpisodeGrant
  find_grant id s = db.find_first (λ g. g.id == id) s.episode_grants

  unfoldable pub revoke_grant_row :
      ℕ → AuthenticatedPrincipal → Request → EpisodeGrant → Action Backend (Unit {0})
  revoke_grant_row id actor r current = do
    result ← gets (λ s.
        db.update_many (λ g. g.id == id)
          (λ g. record g { status = GrantStatus.revoked; revoked_at = some r.now })
          s.episode_grants)
    raise_if (result.1 == 0) p2025
    modify λ s. record s {
      episode_grants = result.0;
      grant_history =
          db.insert
            (record {
              grant_id = id;
              actor_id = actor.id;
              action = "revoked";
              old_status = some current.status;
              new_status = GrantStatus.revoked;
              old_ends_at = some current.ends_at;
              new_ends_at = some current.ends_at;
              note = none;
            })
            s.grant_history;
    }

  unfoldable pub revoke_grant : ℕ → AuthenticatedPrincipal → Request → Action Backend (Unit {0})
  unfolding revoke_grant_row
  revoke_grant id actor r = do
    current ← (gets (find_grant id) >>= or_raise (not_found "Grant not found"))
    transaction (revoke_grant_row id actor r current)
    write_audit db (
        audit_input (some actor.id) "access.grant_revoke" "episode_grant" (some id) success
          r.request_id)

  abbrev direct_of : ℕ → ℕ → ℕ → Backend → Option EpisodeGrant
  direct_of episode_id user_id now s =
      db.find_first (is_direct_grant episode_id user_id now) s.episode_grants

  abbrev group_of : ℕ → ℕ → ℕ → Backend → Option EpisodeGrant
  group_of episode_id user_id now s =
      db.find_first (is_group_grant episode_id user_id now s) s.episode_grants

  -- `validate`; `grantId` is that of the direct grant, or else that of the group grant.
  unfoldable pub validate_access : ℕ → ℕ → ℕ → Backend → AccessDecision
  validate_access episode_id user_id now s = record {
    allowed =
        is_some (direct_of episode_id user_id now s) || is_some (group_of episode_id user_id now s);
    direct = direct_of episode_id user_id now s;
    group = group_of episode_id user_id now s;
  }
