-- ===== src/Catalog/Rooted/Writes.antt =====
-- The single writes that the services of the catalog are made of, and what they keep.
use backendurdubolonest.Base.{
  ℕ, ◌≡◌, ap, Bool, true, false, ◌&&◌, Option, List, inl, inr, arith, ◌==◌, is_none, is_some, any,
  map_where, Bool-cases, Option-cases,
}
use backendurdubolonest.Prisma.{Prisma}
use backendurdubolonest.Prisma.Rows.{any-of-Among}
use backendurdubolonest.Http.{◌>>=◌, modify}
use backendurdubolonest.Http.Keeps.{Keeps, Leads}
use backendurdubolonest.Schema.{Backend, Drama, Season, Episode, MediaAsset, AuditEvent}
use backendurdubolonest.Audit.{write_audit}
use backendurdubolonest.Catalog.{
  is_live_season, has_live_season, update_dramas, update_seasons, update_media,
}
use backendurdubolonest.Catalog.Seasons
use backendurdubolonest.Catalog.Episodes
use backendurdubolonest.Catalog.Media
use backendurdubolonest.Catalog.Rooted.{
  is_season_at, is_episode_at, IsRooted, is_lost_episode, is_lost_media, any-weaker, any-changed,
  any-kept,
}

-- Seasons that stay alive keep their episodes.
seasons-changed :
    (p : Season → Bool) (f : Season → Season) (s : Backend)
    → ((k : ℕ) (x : Season) → is_season_at k x ≡ true → is_season_at k (f x) ≡ true)
    → IsRooted s
    → IsRooted (record s { seasons = map_where p f s.seasons })
seasons-changed p f s step (h, k) = (
  any-weaker _ _ s.episodes
      (λ e there kept. ground (
        arith,
        kept,
        any-kept (is_season_at e.season_id) p f s.seasons
            (λ x among at. ground (arith, at, step e.season_id x)),
      ))
      h,
  k,
)

pub episodes-changed :
    (p : Episode → Bool) (f : Episode → Episode) (s : Backend)
    → ((e : Episode)
        → p e ≡ true
        → is_lost_episode s.seasons e ≡ false
        → is_lost_episode s.seasons (f e) ≡ false)
    → ((k : ℕ) (e : Episode) → is_episode_at k e ≡ true → is_episode_at k (f e) ≡ true)
    → IsRooted s
    → IsRooted (record s { episodes = map_where p f s.episodes })
episodes-changed p f s rooted step (h, k) = (
  any-changed _ _ p f s.episodes
      (λ e there kept. elim (Bool-cases (p e)) [
        | inl hit ↦ rw hit (rooted e hit kept)
        | inr miss ↦ rw miss kept
      ])
      h,
  any-weaker _ _ s.media_assets
      (λ m there kept. ground (
        arith,
        kept,
        any-kept (is_episode_at m.episode_id) p f s.episodes
            (λ e among at. ground (arith, at, step m.episode_id e)),
      ))
      k,
)

module _ (db : Prisma) where
  pub Keeps-write_audit : (input : AuditEvent) → Keeps IsRooted (write_audit db input)
  unfolding write_audit
  Keeps-write_audit input = record { at = λ s h. h }

  pub Keeps-update_dramas :
      (p : Drama → Bool) (f : Drama → Drama) → Keeps IsRooted (update_dramas db p f)
  unfolding update_dramas ◌>>=◌
  Keeps-update_dramas p f = record { at = λ s h. h }

  pub Keeps-set_dramas : (ds : List Drama) → Keeps IsRooted (modify (λ s. record s { dramas = ds }))
  unfolding modify
  Keeps-set_dramas ds = record { at = λ s h. h }

  pub Keeps-update_seasons :
      (p : Season → Bool) (f : Season → Season)
      → ((k : ℕ) (x : Season) → is_season_at k x ≡ true → is_season_at k (f x) ≡ true)
      → Keeps IsRooted (update_seasons db p f)
  unfolding update_seasons ◌>>=◌
  Keeps-update_seasons p f step = record {
    at = λ s h. rw (db.update_many_lem p f s.seasons) (seasons-changed p f s step h);
  }

  pub Keeps-season_row : (row : Season) → Keeps IsRooted (Seasons.create_row db row)
  unfolding Seasons.create_row ◌>>=◌
  Keeps-season_row row = record {
    at = λ s (h, k). elim (Bool-cases (any (Seasons.season_clash row) s.seasons)) [
      | inl clash ↦ rw (db.create_lem Seasons.season_clash row s.seasons, clash) (h, k)
      | inr free ↦
          rw (db.create_lem Seasons.season_clash row s.seasons, free)
            (any-weaker _ _ s.episodes (λ e there kept. ground (arith, kept)) h, k)
    ];
  }

  pub Keeps-update_media :
      (p : MediaAsset → Bool) (f : MediaAsset → MediaAsset)
      → ((es : List Episode) (m : MediaAsset)
          → p m ≡ true
          → is_lost_media es m ≡ false
          → is_lost_media es (f m) ≡ false)
      → Keeps IsRooted (update_media db p f)
  unfolding update_media ◌>>=◌
  Keeps-update_media p f step = record {
    at = λ s (h, k). rw (db.update_many_lem p f s.media_assets) (
      h,
      any-changed _ _ p f s.media_assets
          (λ m there kept. elim (Bool-cases (p m)) [
            | inl hit ↦ rw hit (step s.episodes m hit kept)
            | inr miss ↦ rw miss kept
          ])
          k,
    );
  }

  -- A new episode of a living season, and new media of a living episode.
  pub episode_row-Leads :
      (row : Episode)
      → Leads
          (λ s. IsRooted s × (any (is_season_at row.season_id) s.seasons ≡ true))
          IsRooted
          (Episodes.create_row db row)
  unfolding Episodes.create_row ◌>>=◌
  episode_row-Leads row = record {
    at = λ s ((h, k), live). elim (Bool-cases (any (Episodes.episode_clash row) s.episodes)) [
      | inl clash ↦ rw (db.create_lem Episodes.episode_clash row s.episodes, clash) (h, k)
      | inr free ↦
          rw (db.create_lem Episodes.episode_clash row s.episodes, free)
            (
              ground (arith, live, h),
              any-weaker _ _ s.media_assets (λ m there kept. ground (arith, kept)) k,
            )
    ];
  }

  pub media_row-Leads :
      (row : MediaAsset)
      → Leads
          (λ s. IsRooted s × (any (is_episode_at row.episode_id) s.episodes ≡ true))
          IsRooted
          (Media.create_row db row)
  unfolding Media.create_row ◌>>=◌
  media_row-Leads row = record {
    at = λ s ((h, k), live). elim (Bool-cases (any (Media.media_clash row) s.media_assets)) [
      | inl clash ↦ rw (db.create_lem Media.media_clash row s.media_assets, clash) (h, k)
      | inr free ↦
          rw (db.create_lem Media.media_clash row s.media_assets, free) (h, ground (arith, live, k))
    ];
  }

  -- What a query finds is there.
  pub live_season-found :
      (s : Backend) (k : ℕ) → has_live_season db s k ≡ true → any (is_season_at k) s.seasons ≡ true
  live_season-found s k h = elim (Option-cases (db.find_first (is_live_season db s k) s.seasons)) [
    | inl e ↦ cc (ap (λ (o : Option Season). is_some o) e)
    | inr (x, e) ↦
        let (there, fits) = db.find_first_some _ _ x e in
        any-of-Among (is_season_at k) x s.seasons there (ground (arith, fits))
  ]

  pub live_episode-found :
      (s : Backend) (k : ℕ)
      → Media.has_live_episode db s k ≡ true
      → any (is_episode_at k) s.episodes ≡ true
  live_episode-found s k h =
      elim (Option-cases (
        db.find_first
          (λ (e : Episode). e.id == k && (is_none e.deleted_at && has_live_season db s e.season_id))
          s.episodes)) [
            | inl e ↦ cc (ap (λ (o : Option Episode). is_some o) e)
            | inr (x, e) ↦
                let (there, fits) = db.find_first_some _ _ x e in
                any-of-Among (is_episode_at k) x s.episodes there (ground (arith, fits))
          ]
