-- ===== src/Access.antt =====
-- src/access/access.service.ts: groups, their members, and the grants of episodes to users and to
-- groups. The lists of groups, members, grants and unlocked episodes only read. A date of a request
-- is `none` where `new Date` gives an invalid date.

pub mod Grants
use backendurdubolonest.Base.{
  ℕ, Bool, true, false, not, ◌&&◌, ◌||◌, Option, none, some, List, [], ◌∷◌, map, length, any, elem,
  Text, trim, text_eq, ltb, leb, ◌==◌, if◌then◌else◌, is_some, is_none, String,
}
use backendurdubolonest.Prisma.{Prisma}
use backendurdubolonest.Http.{
  Error, bad_request, not_found, conflict, p2002, p2003, p2025, Action, ◌>>=◌, ◌>>◌, pure, raise,
  gets, or_raise, raise_if, modify, when, transaction, rethrow,
}
use backendurdubolonest.Schema.{
  Backend, Episode, AccessGroup, GroupMember, EpisodeGrant, GrantStatus, GrantHistory, success,
  is_grant_active,
}
use backendurdubolonest.Audit.{audit_input, write_audit}
use backendurdubolonest.Auth.{Request, AuthenticatedPrincipal}
use backendurdubolonest.Users.{live_user, user_not_found}

pub record GroupMemberDto : Type 0 where
  pub user_id : ℕ
  pub starts_at : Option ℕ
  pub ends_at : Option ℕ
  pub comment : Option Text
  pub subscription : Option Bool

-- What a grant is for: the arguments that `createGrant` and `createBulkGrants` have in common.
pub record GrantDto : Type 0 where
  pub user_id : Option ℕ
  pub group_id : Option ℕ
  pub starts_at : Option ℕ
  pub ends_at : Option ℕ
  pub remark : Option Text

abbrev pub bad_window : Error
bad_window = bad_request "startsAt must be before endsAt"

abbrev pub group_not_found : Error
group_not_found = not_found "Group not found"

unfoldable pub assert_window : Option ℕ → Option ℕ → Action Backend (ℕ × ℕ)
assert_window none ends_at = raise bad_window
assert_window (some starts_at) none = raise bad_window
assert_window (some starts_at) (some ends_at) =
    if ltb starts_at ends_at then pure (starts_at, ends_at) else raise bad_window

abbrev pub in_window : ℕ → ℕ → ℕ → Bool
in_window now starts_at ends_at = leb starts_at now && ltb now ends_at

abbrev pub is_for : ℕ → Option ℕ → Bool
is_for id none = false
is_for id (some other) = other == id

abbrev or_text : Option Text → Option Text → Option Text
or_text none old = old
or_text (some new) old = some new

abbrev or_not : Option Bool → Bool
or_not none = false
or_not (some b) = b

abbrev pub is_membership : ℕ → ℕ → GroupMember → Bool
is_membership group_id user_id m = m.group_id == group_id && m.user_id == user_id

-- The conditions on a grant that do not depend on whom it is for.
abbrev pub is_open_grant : ℕ → ℕ → EpisodeGrant → Bool
is_open_grant episode_id now g =
    g.episode_id == episode_id
    && (is_grant_active g.status && (in_window now g.starts_at g.ends_at && is_none g.revoked_at))

-- `group: { members: { some: … } }`
abbrev pub has_member : ℕ → ℕ → Backend → Option ℕ → Bool
has_member user_id now s none = false
has_member user_id now s (some group_id) =
    any
      (λ m.
        is_membership group_id user_id m
        && (is_none m.revoked_at && in_window now m.starts_at m.ends_at))
      s.group_members

abbrev pub is_direct_grant : ℕ → ℕ → ℕ → EpisodeGrant → Bool
is_direct_grant episode_id user_id now g =
    is_open_grant episode_id now g && is_for user_id g.user_id

abbrev pub is_group_grant : ℕ → ℕ → ℕ → Backend → EpisodeGrant → Bool
is_group_grant episode_id user_id now s g =
    is_open_grant episode_id now g && has_member user_id now s g.group_id

abbrev pub group_clash : AccessGroup → AccessGroup → Bool
group_clash a b = a.id == b.id || text_eq a.name b.name

abbrev group_errors : Error → Error
group_errors p2002 = conflict "Group name already exists"
group_errors p2025 = group_not_found
group_errors e = e

abbrev group_in_use : Error → Error
group_in_use p2002 = conflict "Group name already exists"
group_in_use e = e

abbrev member_errors : Error → Error
member_errors p2003 = group_not_found
member_errors e = e

module _ (db : Prisma) where
  unfoldable pub create_group : Text → ℕ → AuthenticatedPrincipal → Request → Action Backend ℕ
  create_group name id actor r = rethrow group_in_use do
    table ← gets (λ s. s.access_groups)
    grown ← or_raise p2002 (db.create group_clash (record { id = id; name = trim name }) table)
    modify (λ s. record s { access_groups = grown })
    write_audit db (
        audit_input (some actor.id) "access.group_create" "access_group" (some id) success
          r.request_id)
    pure id

  -- The rows that refer to a deleted group go with it (`onDelete: Cascade`).
  unfoldable pub delete_group_rows : ℕ → Action Backend (Unit {0})
  delete_group_rows id = do
    deleted ← gets (λ s. db.delete_many (λ g. g.id == id) s.access_groups)
    raise_if (deleted.1 == 0) p2025
    modify (λ s. record s {
      access_groups = deleted.0;
      group_members = (db.delete_many (λ m. m.group_id == id) s.group_members).0;
      episode_grants = (db.delete_many (λ g. is_for id g.group_id) s.episode_grants).0;
    })

  unfoldable pub delete_group : ℕ → AuthenticatedPrincipal → Request → Action Backend (Unit {0})
  unfolding delete_group_rows
  delete_group id actor r = do
    rethrow group_errors (delete_group_rows id)
    write_audit db (
        audit_input (some actor.id) "access.group_delete" "access_group" (some id) success
          r.request_id)

  unfoldable pub ensure_user : ℕ → Action Backend (Unit {0})
  ensure_user id = do user ← (gets (live_user db id) >>= or_raise user_not_found); pure tt

  abbrev find_group : ℕ → Backend → Option AccessGroup
  find_group id s = db.find_first (λ g. g.id == id) s.access_groups

  unfoldable pub ensure_group : ℕ → Action Backend (Unit {0})
  ensure_group id = do group ← (gets (find_group id) >>= or_raise group_not_found); pure tt

  abbrev find_member : ℕ → ℕ → Backend → Option GroupMember
  find_member group_id user_id s = db.find_first (is_membership group_id user_id) s.group_members

  -- `upsert`, by the row that there is for the group and the user.
  unfoldable pub upsert_member :
      ℕ → GroupMemberDto → ℕ × ℕ → ℕ → Option GroupMember → Action Backend ℕ
  upsert_member group_id dto (starts_at, ends_at) id (some old) = do
    modify (λ s. record s {
      group_members =
          (db.update_many (is_membership group_id dto.user_id)
            (λ m. record m {
              starts_at = starts_at;
              ends_at = ends_at;
              comment = or_text dto.comment m.comment;
              subscription = or_not dto.subscription;
              revoked_at = none;
            })
            s.group_members).0;
    })
    pure old.id
  upsert_member group_id dto (starts_at, ends_at) id none = do
    group ← gets (find_group group_id)
    raise_if (is_none group) p2003
    modify (λ s. record s {
      group_members =
          db.insert
            (record {
              id = id;
              group_id = group_id;
              user_id = dto.user_id;
              starts_at = starts_at;
              ends_at = ends_at;
              revoked_at = none;
              comment = dto.comment;
              subscription = or_not dto.subscription;
            })
            s.group_members;
    })
    pure id

  unfoldable pub add_member :
      ℕ → GroupMemberDto → ℕ → AuthenticatedPrincipal → Request → Action Backend ℕ
  unfolding assert_window ensure_user upsert_member
  add_member group_id dto id actor r = do
    window ← assert_window dto.starts_at dto.ends_at
    ensure_user dto.user_id
    rethrow member_errors do
      old ← gets (find_member group_id dto.user_id)
      member ← upsert_member group_id dto window id old
      write_audit db (
          audit_input (some actor.id) "access.member_add" "group_member" (some member) success
            r.request_id)
      pure member

  unfoldable pub remove_member :
      ℕ → ℕ → AuthenticatedPrincipal → Request → Action Backend (Unit {0})
  remove_member group_id user_id actor r = do
    result ← gets (λ s.
        db.update_many (λ m. is_membership group_id user_id m && is_none m.revoked_at)
          (λ m. record m { revoked_at = some r.now }) s.group_members)
    modify (λ s. record s { group_members = result.0 })
    raise_if (result.1 == 0) (not_found "Group member not found")
    write_audit db (
        audit_input (some actor.id) "access.member_remove" "group_member" none success r.request_id)
