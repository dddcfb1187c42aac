-- ===== src/Auth/Login/Lockout.antt =====
-- Who gets in by `login`, and for how long failed attempts keep everybody out.
use backendurdubolonest.Base.{
  ℕ, ◌+◌, ◌<◌, ◌≤◌, ◌≡◌, ◌∙◌, sym, ap, subst, true, false, ◌&&◌, none, some, ◌∷◌, inl, inr, arith,
  Text, take, ◌==◌, any, map_where, is_none, text_eq, text_eq_sound, Among, Option-cases,
  if◌then◌else◌, ◌*◌,
}
use backendurdubolonest.Prisma.{Prisma}
use backendurdubolonest.Prisma.Rows.{any-of-count, any-of-Among, Among-map_where}
use backendurdubolonest.Http.{ok, err, ◌>>=◌}
use backendurdubolonest.Schema.{Backend, User, RefreshSession, is_user_active}
use backendurdubolonest.Audit.{write_audit}
use backendurdubolonest.Auth.{
  Runtime, Request, Fresh, TokenPair, day_ms, session_clash, create_session, create_login_history,
  issue_token_pair,
}
use backendurdubolonest.Auth.Login.{
  LoginDto, lock_ms, invalid_credentials, is_locked, count_failure, update_user, login_lookup,
  password_matches, count_known, reject_login, accept_login, login_found, login, normal_email,
}

-- The unique index on `email`.
abbrev pub HasUniqueEmails : Backend → Type 0
HasUniqueEmails s =
    (x y : User) → Among x s.users → Among y s.users → x.email ≡ y.email → x.id ≡ y.id

module _ (db : Prisma) (env : Runtime) where
  abbrev pub new_session : ℕ → LoginDto → Request → Fresh → RefreshSession
  new_session user_id dto r fresh = record {
    id = fresh.id;
    user_id = user_id;
    token_hash = env.hash_token fresh.token;
    device_id = dto.device_id;
    device_name = none;
    device_token = none;
    ip_address = r.ip_address;
    user_agent = take 512 r.user_agent;
    last_seen_at = r.now;
    expires_at = r.now + env.refresh_token_ttl_days * day_ms;
    revoked_at = none;
    replaced_by_id = none;
  }

  -- What a login that succeeds has tested and done.
  pub record Admitted (dto : LoginDto) (r : Request) (fresh : Fresh) (s t : Backend) (u : User)
      : Type 0 where
    pub found : login_lookup db env dto.email s ≡ some u
    pub verified : password_matches db env (some u) dto.password ≡ true
    pub active : is_user_active u.status ≡ true
    pub open_account : is_locked (some u) r.now ≡ false
    pub session : t.refresh_sessions ≡ new_session u.id dto r fresh ∷ s.refresh_sessions

  -- A login that returns tokens has found a user with the address who is not deleted, whose stored
  -- hash the password matches, who is active and not locked, and has added one session, for that
  -- user and with the lifetime of the configuration, to the sessions there were.
  pub login-eq-ok :
      (dto : LoginDto) (r : Request) (fresh : Fresh) (s t : Backend) (pair : TokenPair)
      → login db env dto r fresh s ≡ (ok pair, t)
      → (u : User) × Admitted dto r fresh s t u
  unfolding login login_found reject_login accept_login count_known create_session update_user
      create_login_history write_audit issue_token_pair ◌>>=◌
  login-eq-ok dto r fresh s t pair h = elim (Option-cases (login_lookup db env dto.email s)) [
    | inl e ↦ ground arith
    | inr (u, e) ↦ (
      u,
      ground (arith, db.create_lem session_clash (new_session u.id dto r fresh) s.refresh_sessions),
    )
  ]

  -- A locked account.
  pub login-locked :
      (dto : LoginDto) (r : Request) (fresh : Fresh) (s : Backend) (u : User)
      → login_lookup db env dto.email s ≡ some u
      → is_locked (some u) r.now ≡ true
      → let (result, t) = login db env dto r fresh s in
        (result ≡ err invalid_credentials)
        × (t.users ≡ s.users)
        × (t.refresh_sessions ≡ s.refresh_sessions)
  unfolding login login_found reject_login accept_login count_known create_session update_user
      create_login_history write_audit issue_token_pair ◌>>=◌
  login-locked dto r fresh s u found locked = ground arith

  -- An address that is not known.
  login-unknown :
      (dto : LoginDto) (r : Request) (fresh : Fresh) (s : Backend)
      → login_lookup db env dto.email s ≡ none
      → let (result, t) = login db env dto r fresh s in
        (result ≡ err invalid_credentials)
        × (t.users ≡ s.users)
        × (t.refresh_sessions ≡ s.refresh_sessions)
  unfolding login login_found reject_login accept_login count_known create_session update_user
      create_login_history write_audit issue_token_pair ◌>>=◌
  login-unknown dto r fresh s unknown = ground arith

  -- A wrong password for a known account that is not locked.
  pub login-wrong :
      (dto : LoginDto) (r : Request) (fresh : Fresh) (s : Backend) (u : User)
      → login_lookup db env dto.email s ≡ some u
      → password_matches db env (some u) dto.password ≡ false
      → is_locked (some u) r.now ≡ false
      → any (λ x. x.id == u.id) s.users ≡ true
      → let (result, t) = login db env dto r fresh s in
        (result ≡ err invalid_credentials)
        × (t.users ≡ map_where (λ x. x.id == u.id) (count_failure r.now u) s.users)
        × (t.refresh_sessions ≡ s.refresh_sessions)
  unfolding login login_found reject_login accept_login count_known create_session update_user
      create_login_history write_audit issue_token_pair ◌>>=◌
  login-wrong dto r fresh s u found wrong unlocked known = ground (
    arith,
    db.update_many_lem (λ (x : User). x.id == u.id) (count_failure r.now u) s.users,
    any-of-count (λ (x : User). x.id == u.id) s.users,
  )

  login_lookup_found :
      (email : Text) (s : Backend) (u : User)
      → login_lookup db env email s ≡ some u
      → Among u s.users × (u.email ≡ normal_email db env email)
  unfolding login_lookup
  login_lookup_found email s u e =
      let (there, fits) =
        db.find_first_some
          (λ x. text_eq x.email (normal_email db env email) && is_none x.deleted_at) s.users u e in
      (there, text_eq_sound _ _ (ground arith))

  locked_row :
      (r : Request) (now : ℕ) (u x y : User)
      → 4 ≤ u.failed_login_count
      → now < r.now + lock_ms
      → (x.email ≡ u.email → x.id ≡ u.id)
      → y ≡ (if x.id == u.id then count_failure r.now u x else x)
      → y.email ≡ u.email
      → is_locked (some y) now ≡ true
  locked_row r now u x y many early unique e own = ground arith

  -- The fifth failure in a row closes the account for a quarter of an hour: after a wrong password
  -- for an account with four failures or more that is not locked, a next login with
  -- that address within fifteen minutes, with whatever password, is answered as invalid credentials
  -- and creates no session. The premise on the first state is the unique index on `email`.
  pub lock_holds :
      (dto dto' : LoginDto) (r r' : Request) (fresh fresh' : Fresh) (s : Backend) (u : User)
      → HasUniqueEmails s
      → login_lookup db env dto.email s ≡ some u
      → password_matches db env (some u) dto.password ≡ false
      → is_locked (some u) r.now ≡ false
      → 4 ≤ u.failed_login_count
      → dto'.email ≡ dto.email
      → r'.now < r.now + lock_ms
      → let (first, t) = login db env dto r fresh s in
        let (second, v) = login db env dto' r' fresh' t in
        (first ≡ err invalid_credentials)
        × (second ≡ err invalid_credentials)
        × (v.users ≡ t.users)
        × (v.refresh_sessions ≡ s.refresh_sessions)
  lock_holds dto dto' r r' fresh fresh' s u unique found wrong unlocked many same early =
      let (there, own) = login_lookup_found dto.email s u found in
      let known = any-of-Among (λ x. x.id == u.id) u s.users there (ground arith) in
      let t = (login db env dto r fresh s).1 in
      let (rejected, users, sessions) = login-wrong dto r fresh s u found wrong unlocked known in
      elim (Option-cases (login_lookup db env dto'.email t)) [
        | inl none_left ↦
            let (again, users', sessions') = login-unknown dto' r' fresh' t none_left in
            (rejected, again, users', sessions' ∙ sessions)
        | inr (y, found') ↦
            let (again, users', sessions') =
              login-locked dto' r' fresh' t y found' (still_locked y found' users own there) in
            (rejected, again, users', sessions' ∙ sessions)
      ]
    where
      still_locked :
          (y : User)
          → login_lookup db env dto'.email (login db env dto r fresh s).1 ≡ some y
          → (login db env dto r fresh s).1.users
            ≡ map_where (λ x. x.id == u.id) (count_failure r.now u) s.users
          → u.email ≡ normal_email db env dto.email
          → Among u s.users
          → is_locked (some y) r'.now ≡ true
      still_locked y found' users own there =
          let (in_t, own') =
            login_lookup_found dto'.email (login db env dto r fresh s).1 y found' in
          let (x, in_s, e) =
            Among-map_where (λ z. z.id == u.id) (count_failure r.now u) s.users y
              (subst (Among y) users in_t) in
          locked_row r r'.now u x y many early (unique x u in_s there) e
            (own' ∙ ap (normal_email db env) same ∙ sym own)
