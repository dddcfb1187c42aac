-- ===== src/Catalog/Rooted/Chosen.antt =====
-- The deletions of episodes take their media along.
use backendurdubolonest.Base.{
  ℕ, ◌≡◌, refl, subst, Bool, true, ◌&&◌, List, inl, inr, arith, ◌==◌, ==_iff, is_none, elem,
  map_where, count, Bool-cases,
}
use backendurdubolonest.Prisma.{Prisma}
use backendurdubolonest.Prisma.Rows.{any-of-count}
use backendurdubolonest.Http.{◌>>=◌}
use backendurdubolonest.Http.Keeps.{Keeps}
use backendurdubolonest.Schema.{Backend, Episode, MediaAsset}
use backendurdubolonest.Catalog.{update_episodes, update_media, removed_episode, removed_media}
use backendurdubolonest.Catalog.Episodes
use backendurdubolonest.Catalog.Rooted.{IsRooted, map_where-none, any-changed, episodes-removed}

module _ (db : Prisma) where
  abbrev is_media_of : (ℕ → Bool) → MediaAsset → Bool
  is_media_of which m = which m.episode_id && is_none m.deleted_at

  abbrev is_episode_of : (ℕ → Bool) → Episode → Bool
  is_episode_of which e = which e.id && is_none e.deleted_at

  -- Some episodes are deleted with their media.
  chosen-removed :
      (which : ℕ → Bool) (now : ℕ) (s : Backend)
      → IsRooted s
      → IsRooted (record s {
        episodes = map_where (is_episode_of which) (removed_episode now) s.episodes;
        media_assets = map_where (is_media_of which) (removed_media now) s.media_assets;
      })
  chosen-removed which now s (h, k) = (
    any-changed _ _ (is_episode_of which) (removed_episode now) s.episodes
        (λ e there kept. elim (Bool-cases (is_episode_of which e)) [
          | inl gone ↦ rw gone refl
          | inr left ↦ rw left kept
        ])
        h,
    episodes-removed (is_episode_of which) (is_media_of which) now s.episodes s.media_assets
        (λ e m there gone same live. ground (
          arith,
          live,
          subst (λ (j : ℕ). which j ≡ true) ((==_iff e.id m.episode_id).0 same)
              (ground (arith, gone)),
        ))
        k,
  )

  none-removed :
      (which : ℕ → Bool) (now : ℕ) (s : Backend)
      → (count (is_episode_of which) s.episodes == 0) ≡ true
      → IsRooted s
      → IsRooted
          (record s { episodes = map_where (is_episode_of which) (removed_episode now) s.episodes })
  none-removed which now s h rooted =
      rw
        (map_where-none (is_episode_of which) (removed_episode now) s.episodes
          (any-of-count (is_episode_of which) s.episodes ((==_iff _ 0).0 h)))
        rooted

  pub Keeps-episode_rows : (id now : ℕ) → Keeps IsRooted (Episodes.remove_rows db id now)
  unfolding Episodes.remove_rows update_episodes update_media ◌>>=◌
  Keeps-episode_rows id now = record {
    at = λ s rooted.
        let which : ℕ → Bool = λ (k : ℕ). k == id in
        elim (Bool-cases (count (is_episode_of which) s.episodes == 0)) [
          | inl none_left ↦
              rw
                (
                  db.update_many_lem (is_episode_of which) (removed_episode now) s.episodes,
                  none_left,
                )
                (none-removed which now s none_left rooted)
          | inr some_left ↦
              rw
                (
                  db.update_many_lem (is_episode_of which) (removed_episode now) s.episodes,
                  some_left,
                  db.update_many_lem (is_media_of which) (removed_media now) s.media_assets,
                )
                (chosen-removed which now s rooted)
        ];
  }

  pub Keeps-bulk_episode :
      (ids : List ℕ) (now : ℕ)
      → Keeps IsRooted (Episodes.bulk_rows db Episodes.BulkAction.bulk_delete ids now)
  unfolding Episodes.bulk_rows update_episodes update_media ◌>>=◌
  Keeps-bulk_episode ids now = record {
    at = λ s rooted.
        let which : ℕ → Bool = λ (k : ℕ). elem k ids in
        rw
          (
            db.update_many_lem (is_episode_of which) (removed_episode now) s.episodes,
            db.update_many_lem (is_media_of which) (removed_media now) s.media_assets,
          )
          (chosen-removed which now s rooted);
  }
