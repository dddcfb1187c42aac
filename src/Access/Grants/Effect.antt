-- ===== src/Access/Grants/Effect.antt =====
-- Whom the grants give access to an episode, and what revoking one leaves.
use backendurdubolonest.Base.{
  ℕ, ◌≤◌, ◌<◌, ◌≡◌, ◌⊎◌, refl, sym, ap, subst, ◌∙◌, Bool, true, false, not, ◌&&◌, ◌||◌, Option,
  none, some, List, [], ◌∷◌, inl, inr, arith, ◌==◌, leb, is_some, is_none, any, map_where, Among,
  Option-cases,
}
use backendurdubolonest.Prisma.{Prisma}
use backendurdubolonest.Prisma.Rows.{any-of-Among}
use backendurdubolonest.Http.{ok, ◌>>=◌}
use backendurdubolonest.Schema.{Backend, GroupMember, EpisodeGrant, GrantStatus, is_grant_active}
use backendurdubolonest.Audit.{write_audit}
use backendurdubolonest.Auth.{Request, AuthenticatedPrincipal}
use backendurdubolonest.Access.{
  GrantDto, assert_window, ensure_user, ensure_group, is_direct_grant, is_group_grant,
  remove_member, has_member, is_membership, in_window, is_for,
}
use backendurdubolonest.Access.Grants.{
  ensure_target, insert_grant, create_grant, revoke_grant_row, revoke_grant, validate_access,
}

-- A membership that holds at the time.
abbrev joined : ℕ → ℕ → ℕ → GroupMember → Bool
joined group_id user_id now m =
    not (is_some m.revoked_at)
    && (m.user_id == user_id
        && (m.group_id == group_id && (leb m.starts_at now && not (leb m.ends_at now))))

-- The grant is for the user, or for a group that the user has joined.
abbrev targets : ℕ → ℕ → Backend → EpisodeGrant → Bool
targets user_id now s g =
    elim (g.user_id) [ none ↦ false | some id ↦ id == user_id ] || elim (g.group_id) [
      | none ↦ false
      | some group_id ↦ any (joined group_id user_id now) s.group_members
    ]

-- What a grant is meant to do: it lets the users whom it targets watch its episode from its start
-- until before its end, unless it is revoked or its status is not active.
abbrev pub lets : ℕ → ℕ → ℕ → Backend → EpisodeGrant → Bool
lets episode_id user_id now s g =
    not (is_some g.revoked_at)
    && (is_grant_active g.status
        && (leb g.starts_at now
            && (not (leb g.ends_at now)
                && (g.episode_id == episode_id && targets user_id now s g))))

-- The conditions of the two queries of `validate` together say what `lets` says.
joined-has_member :
    (group_id user_id now : ℕ) (rows : List GroupMember)
    → any
        (λ m.
          is_membership group_id user_id m
          && (is_none m.revoked_at && in_window now m.starts_at m.ends_at))
        rows
      ≡ any (joined group_id user_id now) rows
joined-has_member group_id user_id now [] = refl
joined-has_member group_id user_id now (x ∷ xs) =
    ground (arith, joined-has_member group_id user_id now xs)

targets-cases :
    (user_id now : ℕ) (s : Backend) (g : EpisodeGrant)
    → (is_for user_id g.user_id || has_member user_id now s g.group_id) ≡ targets user_id now s g
targets-cases user_id now s g = elim (Option-cases g.group_id) [
  | inl e ↦ elim (Option-cases g.user_id) [ inl d ↦ rw (e, d) refl | inr (u, d) ↦ rw (e, d) refl ]
  | inr (k, e) ↦ elim (Option-cases g.user_id) [
    | inl d ↦ rw (e, d) (joined-has_member k user_id now s.group_members)
    | inr (u, d) ↦
        rw (e, d) (ap (λ b. u == user_id || b) (joined-has_member k user_id now s.group_members))
  ]
]

lets-queries :
    (episode_id user_id now : ℕ) (s : Backend) (g : EpisodeGrant)
    → (is_direct_grant episode_id user_id now g || is_group_grant episode_id user_id now s g)
      ≡ lets episode_id user_id now s g
lets-queries episode_id user_id now s g = ground (arith, targets-cases user_id now s g)

any_same : {A : Type 0} (p q : A → Bool) (t : List A) → ((a : A) → p a ≡ q a) → any p t ≡ any q t
any_same p q [] same = refl
any_same p q (x ∷ xs) same = ground (arith, same x, any_same p q xs same)

any_or : {A : Type 0} (p q : A → Bool) (t : List A) → any (λ a. p a || q a) t ≡ (any p t || any q t)
any_or p q [] = refl
any_or p q (x ∷ xs) = ground (arith, any_or p q xs)

abbrev revoked : Request → EpisodeGrant → EpisodeGrant
revoked r g = record g { status = GrantStatus.revoked; revoked_at = some r.now }

module _ (db : Prisma) where
  is_some-find_first :
      {A : Type 0} (p : A → Bool) (t : List A) → is_some (db.find_first p t) ≡ any p t
  is_some-find_first p t = elim (Option-cases (db.find_first p t)) [
    | inl e ↦ ground (arith, db.find_first_none p t e)
    | inr (a, e) ↦
        let (there, fits) = db.find_first_some p t a e in
        ground (arith, any-of-Among p a t there fits)
  ]

  -- `validate` allows the episode exactly if the table holds a grant for it that is active and not
  -- revoked, that has started and not ended, and that is for the user or for a group in which the user
  -- has a membership that is not revoked, has started and has not ended.
  pub validate_access-lets :
      (episode_id user_id now : ℕ) (s : Backend)
      → (validate_access db episode_id user_id now s).allowed
        ≡ any (lets episode_id user_id now s) s.episode_grants
  unfolding validate_access
  validate_access-lets episode_id user_id now s = ground (
    arith,
    is_some-find_first (is_direct_grant episode_id user_id now) s.episode_grants,
    is_some-find_first (is_group_grant episode_id user_id now s) s.episode_grants,
    any_or (is_direct_grant episode_id user_id now) (is_group_grant episode_id user_id now s)
        s.episode_grants,
    any_same
        (λ g. is_direct_grant episode_id user_id now g || is_group_grant episode_id user_id now s g)
        (lets episode_id user_id now s) s.episode_grants (lets-queries episode_id user_id now s),
  )

  revoke_grant-eq-ok :
      (id : ℕ) (actor : AuthenticatedPrincipal) (r : Request) (s t : Backend)
      → revoke_grant db id actor r s ≡ (ok tt, t)
      → (t.episode_grants ≡ map_where (λ g. g.id == id) (revoked r) s.episode_grants)
        × (t.group_members ≡ s.group_members)
  unfolding revoke_grant revoke_grant_row write_audit ◌>>=◌
  revoke_grant-eq-ok id actor r s t h = grind (arith, db.update_many_lem)

  -- Who is a member depends on the members alone.
  has_member_same :
      (user_id now : ℕ) (s t : Backend) (group : Option ℕ)
      → t.group_members ≡ s.group_members
      → has_member user_id now t group ≡ has_member user_id now s group
  has_member_same user_id now s t none same = refl
  has_member_same user_id now s t (some group_id) same = ap (any _) same

  lets-revoked :
      (id episode_id user_id now : ℕ) (r : Request) (s t : Backend) (rows : List EpisodeGrant)
      → t.group_members ≡ s.group_members
      → any (lets episode_id user_id now t) (map_where (λ g. g.id == id) (revoked r) rows)
        ≡ any (λ g. not (g.id == id) && lets episode_id user_id now s g) rows
  lets-revoked id episode_id user_id now r s t [] same = refl
  lets-revoked id episode_id user_id now r s t (x ∷ xs) same = ground (
    arith,
    has_member_same user_id now s t x.group_id same,
    lets-revoked id episode_id user_id now r s t xs same,
  )

  -- After `revokeGrant`, a user may watch an episode exactly if another grant than the revoked one
  -- let the user watch it before; the state of the members is that before the call.
  pub revoke_grant-validate_access :
      (id episode_id user_id now : ℕ) (actor : AuthenticatedPrincipal) (r : Request) (s t : Backend)
      → revoke_grant db id actor r s ≡ (ok tt, t)
      → (validate_access db episode_id user_id now t).allowed
        ≡ any (λ g. not (g.id == id) && lets episode_id user_id now s g) s.episode_grants
  revoke_grant-validate_access id episode_id user_id now actor r s t h =
      let (rows, members) = revoke_grant-eq-ok id actor r s t h in
      validate_access-lets episode_id user_id now t
      ∙ ap (any (lets episode_id user_id now t)) rows
      ∙ lets-revoked id episode_id user_id now r s t s.episode_grants members

  removed-any :
      (group_id user_id now : ℕ) (r : Request) (rows : List GroupMember)
      → any
          (λ m.
            is_membership group_id user_id m
            && (is_none m.revoked_at && in_window now m.starts_at m.ends_at))
          (map_where
            (λ m. is_membership group_id user_id m && is_none m.revoked_at)
            (λ m. record m { revoked_at = some r.now })
            rows)
        ≡ false
  removed-any group_id user_id now r [] = refl
  removed-any group_id user_id now r (x ∷ xs) =
      ground (arith, removed-any group_id user_id now r xs)

  -- In the state that `removeMember` leaves, the user is not a member of the group at any time, so no
  -- grant to the group opens an episode to the user.
  pub remove_member-has_member :
      (group_id user_id now : ℕ) (actor : AuthenticatedPrincipal) (r : Request) (s t : Backend)
      → remove_member db group_id user_id actor r s ≡ (ok tt, t)
      → has_member user_id now t (some group_id) ≡ false
  unfolding remove_member write_audit ◌>>=◌
  remove_member-has_member group_id user_id now actor r s t h =
      grind (arith, db.update_many_lem, removed-any group_id user_id now r s.group_members)

  create_grant-eq-ok :
      (dto : GrantDto) (episode_id id : ℕ) (actor : AuthenticatedPrincipal) (r : Request)
      (s t : Backend) (g : EpisodeGrant)
      → create_grant db dto episode_id id actor r s ≡ (ok g, t)
      → (t.episode_grants ≡ g ∷ s.episode_grants)
        × (t.group_members ≡ s.group_members)
        × (is_grant_active g.status ≡ true)
        × (g.revoked_at ≡ none)
        × (g.episode_id ≡ episode_id)
        × (g.user_id ≡ dto.user_id)
        × (g.group_id ≡ dto.group_id)
        × (g.starts_at < g.ends_at)
  unfolding create_grant assert_window ensure_target ensure_user ensure_group insert_grant
      write_audit ◌>>=◌
  create_grant-eq-ok dto episode_id id actor r s t g h = grind (arith, db.insert_lem)

  -- The grant that `createGrant` returns lets its user, or whoever is a member of its group at that
  -- time, watch the episode within its window.
  pub create_grant-validate_access :
      (dto : GrantDto) (episode_id id user_id now : ℕ) (actor : AuthenticatedPrincipal)
      (r : Request) (s t : Backend) (g : EpisodeGrant)
      → create_grant db dto episode_id id actor r s ≡ (ok g, t)
      → (dto.user_id ≡ some user_id) ⊎ (has_member user_id now s dto.group_id ≡ true)
      → g.starts_at ≤ now
      → now < g.ends_at
      → (validate_access db episode_id user_id now t).allowed ≡ true
  create_grant-validate_access dto episode_id id user_id now actor r s t g h target from until =
      let (rows, members, active, unrevoked, episode, user, group, _) =
        create_grant-eq-ok dto episode_id id actor r s t g h in
      validate_access-lets episode_id user_id now t
      ∙ any-of-Among (lets episode_id user_id now t) g t.episode_grants
          (subst (Among g) (sym rows) (inl refl))
          (elim target [
            | inl mine ↦ ground (arith, user ∙ mine)
            | inr joined ↦ ground (
              arith,
              has_member_same user_id now s t g.group_id members,
              ap (has_member user_id now s) group ∙ joined,
            )
          ])
