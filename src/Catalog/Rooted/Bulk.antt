-- ===== src/Catalog/Rooted/Bulk.antt =====
-- The deletions of several dramas or seasons at once.
use backendurdubolonest.Base.{
  ℕ, ◌≡◌, refl, sym, subst, Bool, true, false, ◌&&◌, List, [], ◌∷◌, arith, is_none, any, elem,
  map_where, count, Among,
}
use backendurdubolonest.Prisma.{Prisma}
use backendurdubolonest.Http.{ok, Result, ◌>>=◌, ◌>>◌, pure}
use backendurdubolonest.Http.Keeps.{Keeps, Leads, Leads-bind, Keeps-pure}
use backendurdubolonest.Schema.{Backend, Season, Episode}
use backendurdubolonest.Catalog.{
  update_dramas, update_seasons, update_episodes, update_media, removed_season, removed_episode,
  removed_media, season_ids, episode_ids,
}
use backendurdubolonest.Catalog.Dramas
use backendurdubolonest.Catalog.Seasons
use backendurdubolonest.Catalog.Rooted.{
  IsRooted, is_lost_episode, is_lost_media, map_where-none, any-never, elem-keys_changed,
  seasons-removed, episodes-removed,
}
use backendurdubolonest.Catalog.Rooted.Removal.{
  is_listed_media, elem-eq, remove_episodes_lem, below-IsRooted, seasons_removed,
}

abbrev is_episode_in : List ℕ → Episode → Bool
is_episode_in seasons e = elem e.season_id seasons && is_none e.deleted_at

abbrev is_season_in : List ℕ → Season → Bool
is_season_in dramas x = elem x.drama_id dramas && is_none x.deleted_at

module _ (db : Prisma) where
  -- A deletion leaves the keys as they are.
  season-listed :
      (ids : List ℕ) (p : Season → Bool) (now : ℕ) (s : Backend) (x : Season)
      → Among x s.seasons
      → elem x.drama_id ids ≡ true
      → elem x.id (
          season_ids db
            (λ k. elem k ids)
            (record s { seasons = map_where p (removed_season now) s.seasons }))
        ≡ true
  season-listed ids p now s x there h =
      rw
        (db.find_many_lem (λ (y : Season). elem y.drama_id ids)
          (map_where p (removed_season now) s.seasons))
        (elem-keys_changed (λ (y : Season). y.id) (λ (y : Season). elem y.drama_id ids) p
          (removed_season now) s.seasons x (λ b. refl) (λ b. refl) there h)

  episode-listed_after :
      (ids : List ℕ) (p : Episode → Bool) (now : ℕ) (s : Backend) (e : Episode)
      → Among e s.episodes
      → elem e.season_id ids ≡ true
      → elem e.id (
          episode_ids db
            (λ k. elem k ids)
            (record s { episodes = map_where p (removed_episode now) s.episodes }))
        ≡ true
  episode-listed_after ids p now s e there h =
      rw
        (db.find_many_lem (λ (y : Episode). elem y.season_id ids)
          (map_where p (removed_episode now) s.episodes))
        (elem-keys_changed (λ (y : Episode). y.id) (λ (y : Episode). elem y.season_id ids) p
          (removed_episode now) s.episodes e (λ b. refl) (λ b. refl) there h)

  -- The episodes of some seasons are deleted, and then the media of all their episodes.
  abbrev episodes_out : List ℕ → ℕ → Backend → Backend
  episodes_out seasons now s = record s {
    episodes = map_where (is_episode_in seasons) (removed_episode now) s.episodes;
  }

  abbrev media_out : List ℕ → ℕ → Backend → Backend
  media_out seasons now s =
      let s' = episodes_out seasons now s in
      record s' {
        media_assets =
            map_where (is_listed_media (episode_ids db (λ k. elem k seasons) s'))
              (removed_media now) s.media_assets;
      }

  bulk_remove_episodes_lem :
      (k : ℕ) (seasons : List ℕ) (now : ℕ) (s : Backend)
      → Dramas.bulk_remove_episodes db (k ∷ seasons) now s ≡ (ok tt, media_out (k ∷ seasons) now s)
  unfolding Dramas.bulk_remove_episodes update_episodes update_media ◌>>=◌
  bulk_remove_episodes_lem k seasons now s =
      rw
        (
          db.update_many_lem (is_episode_in (k ∷ seasons)) (removed_episode now) s.episodes,
          db.update_many_lem
              (is_listed_media
                (episode_ids db (λ j. elem j (k ∷ seasons)) (episodes_out (k ∷ seasons) now s)))
              (removed_media now) s.media_assets,
        )
        refl

  media_out-rooted :
      (seasons : List ℕ) (now : ℕ) (s : Backend)
      → any (is_lost_media s.episodes) s.media_assets ≡ false
      → any
          (is_lost_media (media_out seasons now s).episodes)
          (media_out seasons now s).media_assets
        ≡ false
  media_out-rooted seasons now s h =
      let ids = episode_ids db (λ k. elem k seasons) (episodes_out seasons now s) in
      episodes-removed (is_episode_in seasons) (is_listed_media ids) now s.episodes s.media_assets
        (λ e m there gone same live. ground (
          arith,
          live,
          elem-eq e.id m.episode_id ids same (
              episode-listed_after seasons (is_episode_in seasons) now s e there
                (ground (arith, gone))),
        ))
        h

  abbrev seasons_out : List ℕ → ℕ → Backend → Backend
  seasons_out ids now s = record s {
    seasons = map_where (is_season_in ids) (removed_season now) s.seasons;
  }

  episodes_out-rooted :
      (ids : List ℕ) (now : ℕ) (s : Backend)
      → any (is_lost_episode s.seasons) s.episodes ≡ false
      → any (is_lost_episode (seasons_out ids now s).seasons) (
          map_where
            (is_episode_in (season_ids db (λ k. elem k ids) (seasons_out ids now s)))
            (removed_episode now)
            s.episodes)
        ≡ false
  episodes_out-rooted ids now s h =
      let seasons = season_ids db (λ k. elem k ids) (seasons_out ids now s) in
      seasons-removed (is_season_in ids) (is_episode_in seasons) now s.seasons s.episodes
        (λ x e among there gone same live. ground (
          arith,
          live,
          elem-eq x.id e.season_id seasons same
              (season-listed ids (is_season_in ids) now s x among (ground (arith, gone))),
        ))
        h

  bulk_remove_episodes-IsRooted :
      (seasons : List ℕ) (now : ℕ) (s : Backend)
      → any (is_lost_episode s.seasons) (episodes_out seasons now s).episodes ≡ false
      → any (is_lost_media s.episodes) s.media_assets ≡ false
      → IsRooted (Dramas.bulk_remove_episodes db seasons now s).1
  unfolding Dramas.bulk_remove_episodes ◌>>=◌
  bulk_remove_episodes-IsRooted [] now s h k = (
    subst (λ (es : List Episode). any (is_lost_episode s.seasons) es ≡ false)
        (map_where-none (is_episode_in []) (removed_episode now) s.episodes (any-never s.episodes))
        h,
    k,
  )
  bulk_remove_episodes-IsRooted (j ∷ seasons) now s h k =
      subst (λ (v : Result (Unit {0}) × Backend). IsRooted v.1)
        (sym (bulk_remove_episodes_lem j seasons now s)) (h, media_out-rooted (j ∷ seasons) now s k)

  -- What comes before the look for the episodes.
  abbrev before_episodes : List ℕ → ℕ → Backend → Backend
  before_episodes ids now s = seasons_out ids now (record s {
    dramas = map_where (Dramas.is_kept_drama (λ k. elem k ids)) (Dramas.removed_drama now) s.dramas;
  })

  below-Leads :
      (ids : List ℕ) (now n : ℕ) (s : Backend)
      → IsRooted s
      → Leads
          (λ (u : Backend). u ≡ before_episodes ids now s)
          IsRooted
          (Dramas.bulk_remove_episodes db
              (season_ids db (λ k. elem k ids) (before_episodes ids now s))
              now
            >> pure n)
  below-Leads ids now n s (h, k) =
      Leads-bind _ IsRooted _ _
        (record {
          at = λ u same.
              subst
                (λ (v : Backend).
                  IsRooted
                    (Dramas.bulk_remove_episodes db
                      (season_ids db (λ j. elem j ids) (before_episodes ids now s)) now v).1)
                (sym same)
                (bulk_remove_episodes-IsRooted
                  (season_ids db (λ j. elem j ids) (before_episodes ids now s)) now
                  (before_episodes ids now s) (episodes_out-rooted ids now s h) k);
        })
        (λ _. Keeps-pure n)

  pub Keeps-bulk_drama : (ids : List ℕ) (now : ℕ) → Keeps IsRooted (Dramas.bulk_remove db ids now)
  unfolding Dramas.bulk_remove update_dramas update_seasons ◌>>=◌
  Keeps-bulk_drama ids now = record {
    at = λ s rooted.
        rw
          (
            db.update_many_lem (Dramas.is_kept_drama (λ k. elem k ids)) (Dramas.removed_drama now)
                s.dramas,
            db.update_many_lem (is_season_in ids) (removed_season now) s.seasons,
          )
          ((below-Leads ids now (count (Dramas.is_kept_drama (λ k. elem k ids)) s.dramas) s
              rooted).at
            (before_episodes ids now s) refl);
  }

  pub Keeps-bulk_season :
      (ids : List ℕ) (now : ℕ)
      → Keeps IsRooted (Seasons.bulk_rows db Seasons.BulkAction.bulk_delete ids now)
  unfolding Seasons.bulk_rows Seasons.remove_below update_seasons ◌>>=◌
  Keeps-bulk_season ids now = record {
    at = λ s rooted.
        let which : ℕ → Bool = λ (k : ℕ). elem k ids in
        rw
          (
            db.update_many_lem (Seasons.is_kept_season which) (removed_season now) s.seasons,
            remove_episodes_lem db (episode_ids db which s) now (seasons_removed db which now s),
          )
          (below-IsRooted db which now s rooted);
  }
