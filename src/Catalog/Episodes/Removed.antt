-- ===== src/Catalog/Episodes/Removed.antt =====
-- A removed episode, and what it takes with it.
use backendurdubolonest.Base.{
  ℕ, ◌≡◌, sym, ap, ◌∙◌, Bool, false, ◌&&◌, arith, ◌==◌, is_none, any, map_where,
}
use backendurdubolonest.Prisma.{Prisma}
use backendurdubolonest.Prisma.Rows.{any-map_where_cleared}
use backendurdubolonest.Http.{Result, ok, ◌>>=◌, transaction}
use backendurdubolonest.Http.Inversion.{bind-eq-ok, raise_if-bind-ok}
use backendurdubolonest.Schema.{Backend, Episode, MediaAsset}
use backendurdubolonest.Audit.{write_audit}
use backendurdubolonest.Auth.{AuthenticatedPrincipal, Request}
use backendurdubolonest.Catalog.{update_episodes, update_media, removed_episode, removed_media}
use backendurdubolonest.Catalog.Episodes.{remove_rows, remove}

abbrev pub is_live_episode : ℕ → Episode → Bool
is_live_episode id e = e.id == id && is_none e.deleted_at

abbrev pub is_live_media : ℕ → MediaAsset → Bool
is_live_media id m = m.episode_id == id && is_none m.deleted_at

module _ (db : Prisma) where
  -- The rows after the transaction that removed some episode.
  remove_rows-rows :
      (id now n : ℕ) (s t : Backend)
      → transaction (remove_rows db id now) s ≡ (ok n, t)
      → (n == 0) ≡ false
      → (t.episodes ≡ map_where (is_live_episode id) (removed_episode now) s.episodes)
        × (t.media_assets ≡ map_where (is_live_media id) (removed_media now) s.media_assets)
  unfolding remove_rows update_episodes update_media ◌>>=◌
  remove_rows-rows id now n s t h some_row = grind (
    arith,
    db.update_many_lem (is_live_episode id) (removed_episode now) s.episodes,
    db.update_many_lem (is_live_media id) (removed_media now) s.media_assets,
    h,
    some_row,
  )

-- When `remove` returns, no episode with this identifier and no media of it is left that is not
-- deleted.
pub remove-eq-ok :
    (db : Prisma) (id : ℕ) (actor : AuthenticatedPrincipal) (r : Request) (s t : Backend)
    → remove db id actor r s ≡ (ok tt, t)
    → (any (is_live_episode id) t.episodes ≡ false)
      × (any (is_live_media id) t.media_assets ≡ false)
unfolding remove write_audit
remove-eq-ok db id actor r s t h =
    let (n, s1, e1, h1) = bind-eq-ok _ _ s t tt h in
    let (some_row, h2) = raise_if-bind-ok _ _ _ s1 t tt h1 in
    let (episodes, media) = remove_rows-rows db id r.now n s s1 e1 some_row in
    let same = ap (λ (v : Result (Unit {0}) × Backend). v.1.episodes) h2 in
    let same_media = ap (λ (v : Result (Unit {0}) × Backend). v.1.media_assets) h2 in
    (
      ap (any (is_live_episode id)) (sym same ∙ episodes)
          ∙ any-map_where_cleared (is_live_episode id) (removed_episode r.now) s.episodes
              (λ e. ground arith),
      ap (any (is_live_media id)) (sym same_media ∙ media)
          ∙ any-map_where_cleared (is_live_media id) (removed_media r.now) s.media_assets
              (λ m. ground arith),
    )
