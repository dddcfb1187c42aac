-- ===== src/Auth/Refresh/SingleUse.antt =====
-- A refresh token is consumed at most once, whatever other requests do in between.
use backendurdubolonest.Base.{
  ℕ, ◌≡◌, ◌≢◌, ◌⊎◌, ◌∙◌, inl, inr, refl, ap, sym, true, false, ◌&&◌, some, none, List, [], ◌∷◌, suc,
  arith, ◌==◌, any, count, map_where, Option-cases, Among,
}
use backendurdubolonest.Prisma.{Prisma}
use backendurdubolonest.Prisma.Rows.{count-any, any-of-Among, any-map_where, any-map_where_cleared}
use backendurdubolonest.Http.{ok, err, p2002, ◌>>=◌}
use backendurdubolonest.Schema.{Backend, RefreshSession}
use backendurdubolonest.Auth.{
  Runtime, Request, Fresh, TokenPair, session_clash, create_session, update_sessions,
}
use backendurdubolonest.Auth.Refresh.Spent.{
  Column, by_id, by_token, column, is_live_row, IsSpent, fresh-ne-known,
}
use backendurdubolonest.Auth.Refresh.Steps.{AuthReach, AuthReach-IsSpent}
use backendurdubolonest.Auth.Refresh.{
  owner_not_deleted, replacement, rotate_session, refresh_invalid, refresh, refresh_lookup,
  refresh_found, refresh_live, refresh_replay,
}

-- A live row is a row.
known-of-live :
    (c : Column) (key n : ℕ) (t : List RefreshSession)
    → count (is_live_row c key) t ≡ suc n
    → any (λ x. column c x == key) t ≡ true
known-of-live c key n [] h = cc
known-of-live c key n (x ∷ xs) h = ground (arith, known-of-live c key n xs)

-- The unique index on `token_hash`.
abbrev pub HasUniqueTokens : Backend → Type 0
HasUniqueTokens s =
    (x y : RefreshSession)
    → Among x s.refresh_sessions
    → Among y s.refresh_sessions
    → x.token_hash ≡ y.token_hash
    → x.id ≡ y.id

module _ (db : Prisma) (env : Runtime) where
  rotate_session_spent :
      (r : Request) (fresh : Fresh) (session : RefreshSession) (s : Backend)
      → IsSpent by_id session.id s
      → (rotate_session db env r fresh session s ≡ (err p2002, s))
        ⊎ (rotate_session db env r fresh session s ≡ (err refresh_invalid, s))
  unfolding rotate_session create_session update_sessions ◌>>=◌
  rotate_session_spent r fresh session s spent = grind (
    arith,
    db.update_many_lem,
    db.create_lem,
    count-any (is_live_row by_id session.id) s.refresh_sessions spent.dead,
    fresh-ne-known by_id session.id (replacement db env r fresh session) s.refresh_sessions
        spent.known,
  )

  -- What a rotation that succeeds has done.
  abbrev rotated : Request → Fresh → RefreshSession → RefreshSession → RefreshSession
  rotated r fresh session x = record x {
    revoked_at = some r.now;
    replaced_by_id = some fresh.id;
    last_seen_at = r.now;
  }

  rotate_session-eq-ok :
      (r : Request) (fresh : Fresh) (session : RefreshSession) (s t : Backend)
      → rotate_session db env r fresh session s ≡ (ok tt, t)
      → let rows = replacement db env r fresh session ∷ s.refresh_sessions in
        (any (session_clash (replacement db env r fresh session)) s.refresh_sessions ≡ false)
        × (count (is_live_row by_id session.id) rows ≡ 1)
        × (t ≡ record s {
          refresh_sessions =
              map_where (is_live_row by_id session.id) (rotated r fresh session) rows;
        })
  unfolding rotate_session create_session update_sessions ◌>>=◌
  rotate_session-eq-ok r fresh session s t h = grind (arith, db.update_many_lem, db.create_lem)

  rotate_session_spends :
      (r : Request) (fresh : Fresh) (session : RefreshSession) (s t : Backend)
      → rotate_session db env r fresh session s ≡ (ok tt, t)
      → IsSpent by_id session.id t
  rotate_session_spends r fresh session s t h =
      let rows = replacement db env r fresh session ∷ s.refresh_sessions in
      let (_, one, same) = rotate_session-eq-ok r fresh session s t h in
      rw same (record {
        known =
            any-map_where (λ x. x.id == session.id) (is_live_row by_id session.id)
              (rotated r fresh session) rows (λ x. refl)
            ∙ known-of-live by_id session.id 0 rows one;
        dead =
            any-map_where_cleared (is_live_row by_id session.id) (rotated r fresh session) rows
              (λ x. ground arith);
      })

  -- Two requests may read the same live session before either writes. Once one of them has
  -- replaced it, then, whatever operations of the authentication and of the user service run in
  -- between, one after the other, the transaction of the other one fails and leaves the backend as it is.
  pub rotate_session_once :
      (r r' : Request) (fresh fresh' : Fresh) (session : RefreshSession) (s t u : Backend)
      → rotate_session db env r fresh session s ≡ (ok tt, t)
      → AuthReach db env t u
      → (rotate_session db env r' fresh' session u ≡ (err p2002, u))
        ⊎ (rotate_session db env r' fresh' session u ≡ (err refresh_invalid, u))
  rotate_session_once r r' fresh fresh' session s t u h run =
      rotate_session_spent r' fresh' session u (
        AuthReach-IsSpent db env by_id session.id run (rotate_session_spends r fresh session s t h))

  -- What a refresh that succeeds has found and done.
  refresh-eq-ok :
      (token : ℕ) (r : Request) (fresh : Fresh) (s t : Backend) (pair : TokenPair)
      → refresh db env token r fresh s ≡ (ok pair, t)
      → (x : RefreshSession) × (refresh_lookup db (env.hash_token token) s ≡ some x)
        × (x.revoked_at ≡ none)
        × (rotate_session db env r fresh x s ≡ (ok tt, t))
  unfolding refresh refresh_found refresh_live refresh_replay ◌>>=◌
  refresh-eq-ok token r fresh s t pair h =
      elim (Option-cases (refresh_lookup db (env.hash_token token) s)) [
        | inl e ↦ ground arith
        | inr (x, e) ↦ (x, e, ground arith, ground arith)
      ]

  -- No row with the token is live, so the lookup finds none or a revoked one.
  refresh_lookup_spent :
      (token : ℕ) (u : Backend) (y : RefreshSession)
      → IsSpent by_token (env.hash_token token) u
      → refresh_lookup db (env.hash_token token) u ≡ some y
      → y.revoked_at ≢ none
  unfolding refresh_lookup
  refresh_lookup_spent token u y spent e none_set =
      let (there, fits) =
        db.find_first_some
          (λ x. x.token_hash == env.hash_token token && owner_not_deleted u x.user_id)
          u.refresh_sessions y e in
      ground (
        arith,
        spent.dead,
        any-of-Among (is_live_row by_token (env.hash_token token)) y u.refresh_sessions there,
      )

  rotated-kills :
      (r : Request) (fresh : Fresh) (session : RefreshSession) (key : ℕ)
      (rows : List RefreshSession)
      → ((x : RefreshSession) → Among x rows → x.token_hash ≡ key → x.id ≡ session.id)
      → any
          (is_live_row by_token key)
          (map_where (is_live_row by_id session.id) (rotated r fresh session) rows)
        ≡ false
  rotated-kills r fresh session key [] sole = refl
  rotated-kills r fresh session key (x ∷ xs) sole =
      ground
        (arith, sole x (inl refl), rotated-kills r fresh session key xs (λ y m. sole y (inr m)))

  -- What `refresh` looks up stands in the table, with the hash of the token.
  refresh_lookup_found :
      (token : ℕ) (s : Backend) (x : RefreshSession)
      → refresh_lookup db (env.hash_token token) s ≡ some x
      → Among x s.refresh_sessions × (x.token_hash ≡ env.hash_token token)
  unfolding refresh_lookup
  refresh_lookup_found token s x e =
      let (there, fits) =
        db.find_first_some
          (λ y. y.token_hash == env.hash_token token && owner_not_deleted s y.user_id)
          s.refresh_sessions x e in
      (there, ground arith)

  sole_owner :
      (r : Request) (fresh : Fresh) (key : ℕ) (s : Backend) (x : RefreshSession)
      → HasUniqueTokens s
      → any (session_clash (replacement db env r fresh x)) s.refresh_sessions ≡ false
      → Among x s.refresh_sessions
      → x.token_hash ≡ key
      → (y : RefreshSession) → Among y (replacement db env r fresh x ∷ s.refresh_sessions)
      → y.token_hash ≡ key
      → y.id ≡ x.id
  sole_owner r fresh key s x unique apart there owns y (inl same) e =
      let other =
        fresh-ne-known by_token key (replacement db env r fresh x) s.refresh_sessions
          (any-of-Among (λ z. z.token_hash == key) x s.refresh_sessions there (ground arith))
          apart in
      ground (arith, other, ap (λ z. z.token_hash) same)
  sole_owner r fresh key s x unique apart there owns y (inr m) e = unique y x m there (e ∙ sym owns)

  refresh_spends :
      (token : ℕ) (r : Request) (fresh : Fresh) (s t : Backend) (pair : TokenPair)
      → HasUniqueTokens s
      → refresh db env token r fresh s ≡ (ok pair, t)
      → IsSpent by_token (env.hash_token token) t
  refresh_spends token r fresh s t pair unique h =
      let key = env.hash_token token in
      let (x, found, live, done) = refresh-eq-ok token r fresh s t pair h in
      let (apart, one, same) = rotate_session-eq-ok r fresh x s t done in
      let (there, owns) = refresh_lookup_found token s x found in
      let rows = replacement db env r fresh x ∷ s.refresh_sessions in
      rw same (record {
        known =
            any-map_where (λ y. y.token_hash == key) (is_live_row by_id x.id) (rotated r fresh x)
              rows (λ y. refl)
            ∙ any-of-Among (λ y. y.token_hash == key) x rows (inr there) (ground arith);
        dead =
            rotated-kills r fresh x key rows (sole_owner r fresh key s x unique apart there owns);
      })

  -- A refresh token that has been exchanged is never exchanged again: whatever operations of the
  -- authentication and of the user service run in between, one after the other, a later
  -- `refresh` with it does not return a pair of tokens. The premise on the first state is the unique index on `token_hash`.
  pub refresh_once :
      (token : ℕ) (r r' : Request) (fresh fresh' : Fresh) (pair pair' : TokenPair) (s t u : Backend)
      → HasUniqueTokens s
      → refresh db env token r fresh s ≡ (ok pair, t)
      → AuthReach db env t u
      → (refresh db env token r' fresh' u).0 ≢ ok pair'
  refresh_once token r r' fresh fresh' pair pair' s t u unique h run again =
      let spent =
        AuthReach-IsSpent db env by_token (env.hash_token token) run
          (refresh_spends token r fresh s t pair unique h) in
      let (y, found, live, _) =
        refresh-eq-ok token r' fresh' u (refresh db env token r' fresh' u).1 pair'
          (λ i. (again i, (refresh db env token r' fresh' u).1)) in
      refresh_lookup_spent token u y spent found live
