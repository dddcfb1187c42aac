-- ===== src/Catalog/Rooted/Removal.antt =====
-- The deletions of the catalog take everything with them that hangs on what they delete.
use backendurdubolonest.Base.{
  ℕ, ◌≡◌, refl, subst, Bool, true, false, ◌&&◌, List, [], ◌∷◌, inl, inr, arith, ◌==◌, ==_iff,
  is_none, any, elem, map_where, count, Among, Bool-cases,
}
use backendurdubolonest.Prisma.{Prisma}
use backendurdubolonest.Prisma.Rows.{any-of-count}
use backendurdubolonest.Http.{ok, ◌>>=◌}
use backendurdubolonest.Http.Keeps.{Keeps}
use backendurdubolonest.Schema.{Backend, Season, Episode, MediaAsset}
use backendurdubolonest.Catalog.{
  update_seasons, update_episodes, update_media, removed_season, removed_episode, removed_media,
  season_ids, episode_ids, remove_episodes,
}
use backendurdubolonest.Catalog.Dramas
use backendurdubolonest.Catalog.Seasons
use backendurdubolonest.Catalog.Rooted.{
  IsRooted, is_lost_media, map_where-none, any-never, elem-keys, seasons-removed, episodes-removed,
}

abbrev pub is_listed_season : List ℕ → Season → Bool
is_listed_season ids x = elem x.id ids && is_none x.deleted_at

abbrev pub is_listed_episode : List ℕ → Episode → Bool
is_listed_episode ids e = elem e.id ids && is_none e.deleted_at

abbrev pub is_listed_media : List ℕ → MediaAsset → Bool
is_listed_media ids m = elem m.episode_id ids && is_none m.deleted_at

pub elem-eq : (a b : ℕ) (ids : List ℕ) → (a == b) ≡ true → elem a ids ≡ true → elem b ids ≡ true
elem-eq a b ids e h = subst (λ (k : ℕ). elem k ids ≡ true) ((==_iff a b).0 e) h

module _ (db : Prisma) where
  abbrev pub episodes_gone : List ℕ → ℕ → Backend → Backend
  episodes_gone ids now s = record s {
    episodes = map_where (is_listed_episode ids) (removed_episode now) s.episodes;
    media_assets = map_where (is_listed_media ids) (removed_media now) s.media_assets;
  }

  abbrev seasons_gone : List ℕ → ℕ → Backend → Backend
  seasons_gone ids now s = record s {
    seasons = map_where (is_listed_season ids) (removed_season now) s.seasons;
  }

  pub remove_episodes_lem :
      (ids : List ℕ) (now : ℕ) (s : Backend)
      → remove_episodes db ids now s ≡ (ok tt, episodes_gone ids now s)
  unfolding remove_episodes update_episodes update_media ◌>>=◌
  remove_episodes_lem [] now s =
      rw
        (
          map_where-none (is_listed_episode []) (removed_episode now) s.episodes
              (any-never s.episodes),
          map_where-none (is_listed_media []) (removed_media now) s.media_assets
              (any-never s.media_assets),
        )
        refl
  remove_episodes_lem (k ∷ ids) now s =
      rw
        (
          db.update_many_lem (is_listed_episode (k ∷ ids)) (removed_episode now) s.episodes,
          db.update_many_lem (is_listed_media (k ∷ ids)) (removed_media now) s.media_assets,
        )
        refl

  remove_seasons_lem :
      (ids : List ℕ) (now : ℕ) (s : Backend)
      → Dramas.remove_seasons db ids now s ≡ (ok tt, seasons_gone ids now s)
  unfolding Dramas.remove_seasons update_seasons ◌>>=◌
  remove_seasons_lem [] now s =
      rw (map_where-none (is_listed_season []) (removed_season now) s.seasons (any-never s.seasons))
        refl
  remove_seasons_lem (k ∷ ids) now s =
      rw (db.update_many_lem (is_listed_season (k ∷ ids)) (removed_season now) s.seasons) refl

  pub listed-media :
      (ids : List ℕ) (now : ℕ) (es : List Episode) (ms : List MediaAsset)
      → any (is_lost_media es) ms ≡ false
      → any
          (is_lost_media (map_where (is_listed_episode ids) (removed_episode now) es))
          (map_where (is_listed_media ids) (removed_media now) ms)
        ≡ false
  listed-media ids now es ms h =
      episodes-removed (is_listed_episode ids) (is_listed_media ids) now es ms
        (λ e m there gone same live.
          ground (arith, elem-eq e.id m.episode_id ids, gone, same, live))
        h

  -- The keys that a query finds.
  pub episode-listed :
      (which : ℕ → Bool) (s : Backend) (e : Episode)
      → Among e s.episodes
      → which e.season_id ≡ true
      → elem e.id (episode_ids db which s) ≡ true
  episode-listed which s e there h =
      rw (db.find_many_lem (λ (y : Episode). which y.season_id) s.episodes) (
        elem-keys (λ (y : Episode). y.id) (λ (y : Episode). which y.season_id) s.episodes e there h)

  abbrev pub seasons_of : ℕ → Backend → List ℕ
  seasons_of id s = season_ids db (λ k. k == id) s

  abbrev pub episodes_of : ℕ → Backend → List ℕ
  episodes_of id s = episode_ids db (λ k. elem k (seasons_of id s)) s

  -- The state without what is below a drama.
  abbrev pub drama_gone : ℕ → ℕ → Backend → Backend
  drama_gone id now s = episodes_gone (episodes_of id s) now (seasons_gone (seasons_of id s) now s)

  pub remove_below_lem :
      (id now : ℕ) (s : Backend) → Dramas.remove_below db id now s ≡ (ok tt, drama_gone id now s)
  unfolding Dramas.remove_below ◌>>=◌
  remove_below_lem id now s =
      rw
        (
          remove_seasons_lem (seasons_of id s) now s,
          remove_episodes_lem (episodes_of id s) now (seasons_gone (seasons_of id s) now s),
        )
        refl

  drama_gone-IsRooted : (id now : ℕ) (s : Backend) → IsRooted s → IsRooted (drama_gone id now s)
  drama_gone-IsRooted id now s (rooted, media) = (
    seasons-removed (is_listed_season (seasons_of id s)) (is_listed_episode (episodes_of id s)) now
        s.seasons s.episodes
        (λ x e among there gone same live. ground (
          arith,
          live,
          episode-listed (λ k. elem k (seasons_of id s)) s e there
              (elem-eq x.id e.season_id (seasons_of id s) same (ground (arith, gone))),
        ))
        rooted,
    listed-media (episodes_of id s) now s.episodes s.media_assets media,
  )

  pub Keeps-drama_below : (id now : ℕ) → Keeps IsRooted (Dramas.remove_below db id now)
  Keeps-drama_below id now = record {
    at = λ s rooted. rw (remove_below_lem id now s) (drama_gone-IsRooted id now s rooted);
  }

  -- Some living seasons are deleted, and then all their episodes.
  abbrev pub seasons_removed : (ℕ → Bool) → ℕ → Backend → Backend
  seasons_removed which now s = record s {
    seasons = map_where (Seasons.is_kept_season which) (removed_season now) s.seasons;
  }

  pub below-IsRooted :
      (which : ℕ → Bool) (now : ℕ) (s : Backend)
      → IsRooted s
      → IsRooted (episodes_gone (episode_ids db which s) now (seasons_removed which now s))
  below-IsRooted which now s (rooted, media) =
      let episodes = episode_ids db which s in
      (
        seasons-removed (Seasons.is_kept_season which) (is_listed_episode episodes) now s.seasons
            s.episodes
            (λ x e among there gone same live. ground (
              arith,
              live,
              episode-listed which s e there (
                  subst (λ (k : ℕ). which k ≡ true) ((==_iff x.id e.season_id).0 same)
                    (ground (arith, gone))),
            ))
            rooted,
        listed-media episodes now s.episodes s.media_assets media,
      )

  pub seasons_removed-none :
      (which : ℕ → Bool) (now : ℕ) (s : Backend)
      → (count (Seasons.is_kept_season which) s.seasons == 0) ≡ true
      → IsRooted s
      → IsRooted (seasons_removed which now s)
  seasons_removed-none which now s h rooted =
      rw
        (map_where-none (Seasons.is_kept_season which) (removed_season now) s.seasons
          (any-of-count (Seasons.is_kept_season which) s.seasons ((==_iff _ 0).0 h)))
        rooted

  pub Keeps-season_rows : (id now : ℕ) → Keeps IsRooted (Seasons.remove_rows db id now)
  unfolding Seasons.remove_rows Seasons.remove_below update_seasons ◌>>=◌
  Keeps-season_rows id now = record {
    at = λ s rooted.
        let which : ℕ → Bool = λ (k : ℕ). k == id in
        elim (Bool-cases (count (Seasons.is_kept_season which) s.seasons == 0)) [
          | inl none_left ↦
              rw
                (
                  db.update_many_lem (Seasons.is_kept_season which) (removed_season now) s.seasons,
                  none_left,
                )
                (seasons_removed-none which now s none_left rooted)
          | inr some_left ↦
              rw
                (
                  db.update_many_lem (Seasons.is_kept_season which) (removed_season now) s.seasons,
                  some_left,
                  remove_episodes_lem (episode_ids db which s) now (seasons_removed which now s),
                )
                (below-IsRooted which now s rooted)
        ];
  }
