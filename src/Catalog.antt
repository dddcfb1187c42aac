-- ===== src/Catalog.antt =====
-- The catalog: dramas, their seasons, their episodes and the media of an episode. What the services
-- of the catalog share.
pub mod Episodes
pub mod Dramas
pub mod Seasons
pub mod Media
pub mod Rooted
use backendurdubolonest.Base.{
  ℕ, ◌&&◌, Bool, true, false, not, Option, none, some, ◌==◌, is_some, is_none, elem, List, any,
  Text, trim, map, is_empty,
}
use backendurdubolonest.Prisma.{Prisma}
use backendurdubolonest.Http.{
  Error, not_found, p2002, Action, ◌>>=◌, ◌>>◌, pure, gets, when, or_raise, raise_if, modify,
}
use backendurdubolonest.Schema.{
  Backend, Drama, Season, Episode, MediaAsset, MediaStatus, EpisodeStatus,
}

-- `a ?? b`, and the spread of a field that is there, over a column that may be null.
abbrev pub or_default {ℓ} : {A : Type ℓ} → Option A → A → A
or_default none a = a
or_default (some b) a = b

abbrev pub or_old {ℓ} : {A : Type ℓ} → Option A → Option A → Option A
or_old none old = old
or_old (some new) old = some new

abbrev pub trimmed : Option Text → Option Text
trimmed none = none
trimmed (some t) = some (trim t)

abbrev pub is_live_drama : ℕ → Drama → Bool
is_live_drama id d = d.id == id && is_none d.deleted_at

-- What a deletion at a time makes of an episode and of its media.
abbrev pub removed_episode : ℕ → Episode → Episode
removed_episode now e = record e {
  deleted_at = some now;
  is_published = false;
  status = EpisodeStatus.archived;
}

abbrev pub removed_season : ℕ → Season → Season
removed_season now x = record x { deleted_at = some now }

abbrev pub removed_media : ℕ → MediaAsset → MediaAsset
removed_media now m = record m { deleted_at = some now; status = MediaStatus.inactive }

module _ (db : Prisma) where
  -- `drama: { deletedAt: null }` of a season, and `season: { deletedAt: null, drama: … }` of an
  -- episode.
  abbrev pub has_live_drama : Backend → ℕ → Bool
  has_live_drama s drama_id = is_some (db.find_first (is_live_drama drama_id) s.dramas)

  abbrev pub is_live_season : Backend → ℕ → Season → Bool
  is_live_season s id x = x.id == id && (is_none x.deleted_at && has_live_drama s x.drama_id)

  abbrev pub has_live_season : Backend → ℕ → Bool
  has_live_season s season_id = is_some (db.find_first (is_live_season s season_id) s.seasons)

  unfoldable pub update_dramas : (Drama → Bool) → (Drama → Drama) → Action Backend ℕ
  update_dramas where_row data_row = do
    result ← gets (λ s. db.update_many where_row data_row s.dramas)
    modify (λ s. record s { dramas = result.0 })
    pure result.1

  unfoldable pub update_seasons : (Season → Bool) → (Season → Season) → Action Backend ℕ
  update_seasons where_row data_row = do
    result ← gets (λ s. db.update_many where_row data_row s.seasons)
    modify (λ s. record s { seasons = result.0 })
    pure result.1

  -- The keys of the seasons of some dramas, and of the episodes of some seasons.
  abbrev pub season_ids : (ℕ → Bool) → Backend → List ℕ
  season_ids which s = map (λ (x : Season). x.id) (db.find_many (λ x. which x.drama_id) s.seasons)

  abbrev pub episode_ids : (ℕ → Bool) → Backend → List ℕ
  episode_ids which s =
      map (λ (e : Episode). e.id) (db.find_many (λ e. which e.season_id) s.episodes)

  unfoldable pub update_episodes : (Episode → Bool) → (Episode → Episode) → Action Backend ℕ
  update_episodes where_row data_row = do
    result ← gets (λ s. db.update_many where_row data_row s.episodes)
    modify (λ s. record s { episodes = result.0 })
    pure result.1

  unfoldable pub update_media : (MediaAsset → Bool) → (MediaAsset → MediaAsset) → Action Backend ℕ
  update_media where_row data_row = do
    result ← gets (λ s. db.update_many where_row data_row s.media_assets)
    modify (λ s. record s { media_assets = result.0 })
    pure result.1

  -- The episodes with these keys and their media, if there are any keys.
  unfoldable pub remove_episodes : List ℕ → ℕ → Action Backend (Unit {0})
  unfolding update_episodes update_media
  remove_episodes ids now = when (not (is_empty ids)) do
    _ ← update_episodes (λ e. elem e.id ids && is_none e.deleted_at) (removed_episode now)
    _ ← update_media (λ m. elem m.episode_id ids && is_none m.deleted_at) (removed_media now)
    pure tt
