-- ===== src/Playback/Service/Concurrency.antt =====
-- The limit on the playbacks that a user runs at the same time.
use backendurdubolonest.Base.{
  ℕ, ◌≤◌, ◌≡◌, refl, sym, ap, ◌∙◌, Bool, true, false, ◌&&◌, Option, none, some, List, [], ◌∷◌, inl,
  inr, arith, ltb, ◌==◌, any, count, Option-cases, ◌+◌,
}
use backendurdubolonest.Prisma.{Prisma}
use backendurdubolonest.Prisma.Rows.{any-of-Among}
use backendurdubolonest.Http.{transaction, ok, ◌>>=◌, Action}
use backendurdubolonest.Http.Inversion.{bind-eq-ok}
use backendurdubolonest.Schema.{Backend, PlaybackSession, PlaybackHistory, is_playback_active}
use backendurdubolonest.Audit.{write_audit}
use backendurdubolonest.Auth.{AuthenticatedPrincipal, Request}
use backendurdubolonest.Playback.{PlaybackDeviceDto, Player, cache, verify, sign_capability}
use backendurdubolonest.Playback.Policy.{PlaybackAuthorizationContext, authorize, is_other_playback}
use backendurdubolonest.Playback.Policy.Sound.{authorize-eq-ok}
use backendurdubolonest.Playback.Service.{
  FreshPlayback, PlaybackResponse, Issued, is_current, playback_clash, update_history,
}
use backendurdubolonest.Playback.Service.Handlers.{
  issue, cache_capability, new_playback, create_playback, upsert_history, start_rows, start_tail,
  start_found, current_playback, start,
}

-- A playback that the user runs at the time.
abbrev pub runs_at : ℕ → ℕ → PlaybackSession → Bool
runs_at user_id now x =
    x.user_id == user_id && (is_playback_active x.status && ltb now x.expires_at)

-- Without a playback of the episode on the device, the others are all there are.
count-others :
    (user_id episode_id device_id now : ℕ) (rows : List PlaybackSession)
    → any (is_current user_id episode_id device_id now) rows ≡ false
    → count (runs_at user_id now) rows
      ≡ count (is_other_playback user_id episode_id device_id now) rows
count-others user_id episode_id device_id now [] h = refl
count-others user_id episode_id device_id now (x ∷ xs) h =
    ground (arith, count-others user_id episode_id device_id now xs)

none-current :
    (user_id episode_id device_id now : ℕ) (rows : List PlaybackSession)
    → any (λ x. runs_at user_id now x && x.episode_id == episode_id) rows ≡ false
    → any (is_current user_id episode_id device_id now) rows ≡ false
none-current user_id episode_id device_id now [] h = refl
none-current user_id episode_id device_id now (x ∷ xs) h =
    ground (arith, none-current user_id episode_id device_id now xs)

count-new :
    (user_id now : ℕ) (new : PlaybackSession) (rows : List PlaybackSession)
    → count (runs_at user_id now) (new ∷ rows) ≤ count (runs_at user_id now) rows + 1
count-new user_id now new rows = ground arith

module _ (db : Prisma) (env : Player) where
  upsert_history-sessions :
      (session_id : ℕ) (context : PlaybackAuthorizationContext) (principal : AuthenticatedPrincipal)
      (now : ℕ) (old : Option PlaybackHistory) (s t : Backend)
      → upsert_history db env session_id context principal now old s ≡ (ok tt, t)
      → t.playback_sessions ≡ s.playback_sessions
  unfolding upsert_history update_history ◌>>=◌
  upsert_history-sessions session_id context principal now none s t h = ground arith
  upsert_history-sessions session_id context principal now (some x) s t h = ground arith

  create_playback-sessions :
      (row : PlaybackSession) (s t : Backend)
      → create_playback db env row s ≡ (ok tt, t)
      → t.playback_sessions ≡ row ∷ s.playback_sessions
  unfolding create_playback ◌>>=◌
  create_playback-sessions row s t h =
      grind (arith, db.create_lem playback_clash row s.playback_sessions)

  start_rows-sessions :
      (fresh : FreshPlayback) (issued : Issued) (context : PlaybackAuthorizationContext)
      (principal : AuthenticatedPrincipal) (r : Request) (s t : Backend)
      → start_rows db env fresh issued context principal r s ≡ (ok tt, t)
      → t.playback_sessions
        ≡ new_playback db env fresh issued context principal r ∷ s.playback_sessions
  unfolding start_rows ◌>>=◌
  start_rows-sessions fresh issued context principal r s t h =
      let (_, u, created, rest) =
        bind-eq-ok (create_playback db env (new_playback db env fresh issued context principal r)) _
          s t tt h in
      upsert_history-sessions fresh.session_id context principal r.now _ u t rest
      ∙ create_playback-sessions (new_playback db env fresh issued context principal r) s u created

  issue-state :
      (session_id jti : ℕ) (context : PlaybackAuthorizationContext) (now : ℕ) (s t : Backend)
      (issued : Issued)
      → issue db env session_id jti context now s ≡ (ok issued, t)
      → t ≡ s
  unfolding issue verify sign_capability ◌>>=◌
  issue-state session_id jti context now s t issued h = ground arith

  transaction-eq-ok :
      (m : Action Backend (Unit {0})) (s t : Backend)
      → transaction m s ≡ (ok tt, t)
      → m s ≡ (ok tt, t)
  unfolding ◌>>=◌
  transaction-eq-ok m s t h = ground arith

  -- What is left of `start` once its rows are written.
  start_tail-sessions :
      (fresh : FreshPlayback) (issued : Issued) (context : PlaybackAuthorizationContext)
      (principal : AuthenticatedPrincipal) (r : Request) (s t : Backend) (answer : PlaybackResponse)
      → start_tail db env fresh issued context principal r s ≡ (ok answer, t)
      → t.playback_sessions ≡ s.playback_sessions
  unfolding start_tail cache_capability cache write_audit ◌>>=◌
  start_tail-sessions fresh issued context principal r s t answer h = ground arith

  start_found-new :
      (fresh : FreshPlayback) (context : PlaybackAuthorizationContext)
      (principal : AuthenticatedPrincipal) (r : Request) (s t : Backend) (answer : PlaybackResponse)
      → start_found db env fresh context principal r none s ≡ (ok answer, t)
      → (issued : Issued) × (t.playback_sessions
          ≡ new_playback db env fresh issued context principal r ∷ s.playback_sessions)
  unfolding start_found
  start_found-new fresh context principal r s t answer h =
      let (issued, u, is_issued, rest) =
        bind-eq-ok (issue db env fresh.session_id fresh.jti context r.now) _ s t answer h in
      let (_, v, written, left) =
        bind-eq-ok (transaction (start_rows db env fresh issued context principal r)) _ u t answer
          rest in
      (
        issued,
        start_tail-sessions fresh issued context principal r v t answer left
            ∙ start_rows-sessions fresh issued context principal r u v
                (transaction-eq-ok (start_rows db env fresh issued context principal r) u v written)
            ∙ ap (λ x. new_playback db env fresh issued context principal r ∷ x.playback_sessions)
                (issue-state fresh.session_id fresh.jti context r.now s u issued is_issued),
      )

  start_context :
      (episode_id : ℕ) (dto : PlaybackDeviceDto) (fresh : FreshPlayback)
      (principal : AuthenticatedPrincipal) (r : Request) (s t : Backend) (answer : PlaybackResponse)
      → start db env episode_id dto fresh principal r s ≡ (ok answer, t)
      → (c : PlaybackAuthorizationContext) × (u : Backend) × (authorize db env principal episode_id
            dto false r s
          ≡ (ok c, u))
        × (start_found db env fresh c principal r
              (current_playback db env principal.id episode_id c.trusted_device_id r.now u)
              u
            ≡ (ok answer, t))
  unfolding start ◌>>=◌
  start_context episode_id dto fresh principal r s t answer h =
      bind-eq-ok (authorize db env principal episode_id dto false r)
        (λ c u.
          start_found db env fresh c principal r
            (current_playback db env principal.id episode_id c.trusted_device_id r.now u) u)
        s t answer h

  -- Where the user runs no playback of the episode, `start` takes up none.
  current_playback-absent :
      (user_id episode_id device_id now : ℕ) (s : Backend)
      → any (λ x. runs_at user_id now x && x.episode_id == episode_id) s.playback_sessions ≡ false
      → (current_playback db env user_id episode_id device_id now s ≡ none)
        × (any (is_current user_id episode_id device_id now) s.playback_sessions ≡ false)
  unfolding current_playback
  current_playback-absent user_id episode_id device_id now s absent =
      let clear = none-current user_id episode_id device_id now s.playback_sessions absent in
      let test = is_current user_id episode_id device_id now in
      elim (Option-cases (db.find_latest (λ x. x.started_at) test s.playback_sessions)) [
        | inl e ↦ (e, clear)
        | inr (x, e) ↦
            let (there, fits, _) =
              db.find_latest_some (λ y. y.started_at) test s.playback_sessions x x e in
            ground (arith, clear, any-of-Among test x s.playback_sessions there fits)
      ]

  -- When a user who runs no playback of the episode starts one, it is a new session that is added
  -- to the others: an active one of the user for the episode, with the drawn identifier; and the user then runs at most the configured number of playbacks.
  pub start-limit :
      (episode_id : ℕ) (dto : PlaybackDeviceDto) (fresh : FreshPlayback)
      (principal : AuthenticatedPrincipal) (r : Request) (s t : Backend) (answer : PlaybackResponse)
      → any (λ x. runs_at principal.id r.now x && x.episode_id == episode_id) s.playback_sessions
        ≡ false
      → start db env episode_id dto fresh principal r s ≡ (ok answer, t)
      → ((new : PlaybackSession) × (t.playback_sessions ≡ new ∷ s.playback_sessions)
          × (new.id ≡ fresh.session_id)
          × (new.user_id ≡ principal.id)
          × (new.episode_id ≡ episode_id)
          × (is_playback_active new.status ≡ true))
        × (count (runs_at principal.id r.now) t.playback_sessions ≤ env.max_concurrent_sessions)
  start-limit episode_id dto fresh principal r s t answer absent h =
      let (c, u, answered, rest) = start_context episode_id dto fresh principal r s t answer h in
      let (_, _, d, same, is_id, _, _, _, _, _, tested) =
        authorize-eq-ok db env principal episode_id dto false r s u c answered in
      let missing : any (λ x. runs_at principal.id r.now x && x.episode_id == episode_id)
            u.playback_sessions
          ≡ false =
        rw same absent in
      let (not_found, clear) =
        current_playback-absent principal.id episode_id c.trusted_device_id r.now u missing in
      let (issued, grown) =
        start_found-new fresh c principal r u t answer
          (ap (λ o. start_found db env fresh c principal r o u) (sym not_found) ∙ rest) in
      let others =
        count-others principal.id episode_id c.trusted_device_id r.now u.playback_sessions clear in
      let more =
        count-new principal.id r.now (new_playback db env fresh issued c principal r)
          u.playback_sessions in
      (
        (
          new_playback db env fresh issued c principal r,
          grown
              ∙ ap
                  (λ (v : Backend).
                    new_playback db env fresh issued c principal r ∷ v.playback_sessions)
                  same,
          refl,
          refl,
          is_id,
          refl,
        ),
        ground (arith, grown, others, more, same, is_id, tested.device, tested.concurrent),
      )
