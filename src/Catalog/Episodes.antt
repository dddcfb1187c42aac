-- ===== src/Catalog/Episodes.antt =====
-- src/episodes/episodes.service.ts: the methods that change episodes. `list` and `details` only read.
pub mod Removed
pub mod Published
pub mod Steps
pub mod Reach
use backendurdubolonest.Base.{
  ℕ, ◌&&◌, ◌||◌, Bool, true, false, not, Option, none, some, List, [], ◌∷◌, Text, trim, ◌==◌,
  if◌then◌else◌, is_some, is_none, elem, any, map, String,
}
use backendurdubolonest.Prisma.{Prisma}
use backendurdubolonest.Http.{
  Error, not_found, conflict, p2002, p2025, Action, ◌>>=◌, ◌>>◌, pure, gets, or_raise, raise_if,
  modify, when, transaction, rethrow,
}
use backendurdubolonest.Schema.{
  Backend, Episode, EpisodeStatus, ContentVisibility, DownloadAccess, success, is_published_status,
}
use backendurdubolonest.Audit.{audit_input, write_audit}
use backendurdubolonest.Auth.{AuthenticatedPrincipal, Request}
use backendurdubolonest.Catalog.{
  has_live_season, update_episodes, update_media, removed_episode, removed_media, or_default,
  or_old, trimmed,
}

pub record CreateEpisodeDto : Type 0 where
  pub season_id : ℕ
  pub episode_number : ℕ
  pub title : Option Text
  pub description : Option Text
  pub thumbnail_key : Option ℕ
  pub is_published : Option Bool
  pub visibility : Option ContentVisibility
  pub is_premium : Option Bool
  pub download_access : Option DownloadAccess
  pub status : Option EpisodeStatus

pub record UpdateEpisodeDto : Type 0 where
  pub season_id : Option ℕ
  pub episode_number : Option ℕ
  pub title : Option Text
  pub description : Option Text
  pub thumbnail_key : Option ℕ
  pub is_published : Option Bool
  pub visibility : Option ContentVisibility
  pub is_premium : Option Bool
  pub download_access : Option DownloadAccess
  pub status : Option EpisodeStatus

pub data BulkAction : Type 0 where
  bulk_publish bulk_unpublish bulk_delete bulk_restore : BulkAction

abbrev pub number_in_use : Error → Error
number_in_use p2002 = conflict "Episode number already exists for this season"
number_in_use e = e

-- The unique columns of `episodes`.
abbrev pub episode_clash : Episode → Episode → Bool
episode_clash a b =
    a.id == b.id || (a.season_id == b.season_id && a.episode_number == b.episode_number)

-- `isPublished ? 'PUBLISHED' : 'DRAFT'`
abbrev pub status_for : Bool → EpisodeStatus
status_for true = EpisodeStatus.published
status_for false = EpisodeStatus.draft

abbrev pub new_status : CreateEpisodeDto → EpisodeStatus
new_status dto = or_default dto.status (status_for (or_default dto.is_published false))

abbrev pub new_episode : CreateEpisodeDto → ℕ → Episode
new_episode dto id = record {
  id = id;
  season_id = dto.season_id;
  episode_number = dto.episode_number;
  title = trimmed dto.title;
  is_published = is_published_status (new_status dto);
  status = new_status dto;
  visibility = or_default dto.visibility ContentVisibility.private;
  is_premium = or_default dto.is_premium true;
  description = dto.description;
  thumbnail_key = dto.thumbnail_key;
  download_access = or_default dto.download_access DownloadAccess.gallery;
  deleted_at = none;
}

abbrev status_if : Option Bool → Option EpisodeStatus
status_if none = none
status_if (some b) = some (status_for b)

-- The status that an update sets, if it sets one.
abbrev pub changed_status : UpdateEpisodeDto → Option EpisodeStatus
changed_status dto = or_old dto.status (status_if dto.is_published)

abbrev with_status : Option EpisodeStatus → Episode → Episode
with_status none e = e
with_status (some status) e = record e {
  is_published = is_published_status status;
  status = status;
}

abbrev pub with_changes : UpdateEpisodeDto → Episode → Episode
with_changes dto e = with_status (changed_status dto) (record e {
  season_id = or_default dto.season_id e.season_id;
  episode_number = or_default dto.episode_number e.episode_number;
  title = or_old (trimmed dto.title) e.title;
  description = or_old dto.description e.description;
  thumbnail_key = or_old dto.thumbnail_key e.thumbnail_key;
  visibility = or_default dto.visibility e.visibility;
  is_premium = or_default dto.is_premium e.is_premium;
  download_access = or_default dto.download_access e.download_access;
})

abbrev pub published_as : Bool → Episode → Episode
published_as b e = record e { is_published = b; status = status_for b }

abbrev pub restored : Episode → Episode
restored e = record e { deleted_at = none; status = EpisodeStatus.draft }

-- The tests of `updateMany`; `parent` is that of a living season.
abbrev pub is_live : (ℕ → Bool) → (ℕ → Bool) → Episode → Bool
is_live which parent e = which e.id && (is_none e.deleted_at && parent e.season_id)

abbrev pub is_removed : (ℕ → Bool) → (ℕ → Bool) → Episode → Bool
is_removed which parent e = which e.id && (is_some e.deleted_at && parent e.season_id)

module _ (db : Prisma) where
  unfoldable pub ensure_season : ℕ → Action Backend (Unit {0})
  ensure_season id = do
    found ← gets (λ s. has_live_season db s id)
    raise_if (not found) (not_found "Season not found")

  abbrev pub ensure_new_season : Option ℕ → Action Backend (Unit {0})
  ensure_new_season none = pure tt
  ensure_new_season (some id) = ensure_season id

  unfoldable pub find_active : ℕ → Backend → Option Episode
  find_active id s = db.find_first (is_live (λ k. k == id) (has_live_season db s)) s.episodes

  unfoldable pub create_row : Episode → Action Backend (Unit {0})
  create_row row = do
    table ← gets (λ s. s.episodes)
    grown ← or_raise p2002 (db.create episode_clash row table)
    modify (λ s. record s { episodes = grown })

  abbrev audit_episode :
      String → AuthenticatedPrincipal → Option ℕ → Request → Action Backend (Unit {0})
  audit_episode action actor id r =
      write_audit db (audit_input (some actor.id) action "episode" id success r.request_id)

  unfoldable pub create :
      CreateEpisodeDto → ℕ → AuthenticatedPrincipal → Request → Action Backend Episode
  unfolding ensure_season create_row trim
  create dto id actor r = do
    ensure_season dto.season_id
    rethrow number_in_use do
      create_row (new_episode dto id)
      audit_episode "content.episode_create" actor (some id) r
      pure (new_episode dto id)

  -- `update` of the row with this key; the unique index refuses a number that is taken.
  unfoldable pub update_row : ℕ → (Episode → Episode) → Action Backend (Unit {0})
  unfolding update_episodes
  update_row id data_row = do
    row ← (gets (λ s. db.find_first (λ e. e.id == id) s.episodes) >>= or_raise p2025)
    taken ← gets (λ s. any (λ e. not (e.id == id) && episode_clash (data_row row) e) s.episodes)
    raise_if taken p2002
    _ ← update_episodes db (λ e. e.id == id) data_row
    pure tt

  unfoldable pub update :
      ℕ → UpdateEpisodeDto → AuthenticatedPrincipal → Request → Action Backend (Unit {0})
  unfolding ensure_season find_active update_row trim
  update id dto actor r = do
    _ ← (gets (find_active id) >>= or_raise (not_found "Episode not found"))
    ensure_new_season dto.season_id
    rethrow number_in_use do
      update_row id (with_changes dto)
      audit_episode "content.episode_update" actor (some id) r

  unfoldable pub remove_rows : ℕ → ℕ → Action Backend ℕ
  unfolding update_episodes update_media
  remove_rows id now = do
    changed ← update_episodes db (λ e. e.id == id && is_none e.deleted_at) (removed_episode now)
    when (not (changed == 0)) (
        update_media db (λ m. m.episode_id == id && is_none m.deleted_at) (removed_media now)
        >>= λ _. pure tt)
    pure changed

  unfoldable pub remove : ℕ → AuthenticatedPrincipal → Request → Action Backend (Unit {0})
  unfolding remove_rows
  remove id actor r = do
    changed ← transaction (remove_rows id r.now)
    raise_if (changed == 0) (not_found "Episode not found")
    audit_episode "content.episode_delete" actor (some id) r

  -- `updateMany` of episodes under a living season.
  unfoldable pub update_under :
      ((ℕ → Bool) → Episode → Bool) → (Episode → Episode) → Action Backend ℕ
  unfolding update_episodes
  update_under test data_row = do
    parent ← gets (has_live_season db)
    update_episodes db (test parent) data_row

  unfoldable pub restore : ℕ → AuthenticatedPrincipal → Request → Action Backend (Unit {0})
  unfolding update_under
  restore id actor r = do
    changed ← update_under (is_removed (λ k. k == id)) restored
    raise_if (changed == 0) (not_found "Deleted episode or parent is unavailable")
    audit_episode "content.episode_restore" actor (some id) r

  unfoldable pub publish : ℕ → Bool → AuthenticatedPrincipal → Request → Action Backend (Unit {0})
  unfolding update_under
  publish id is_published actor r = do
    changed ← update_under (is_live (λ k. k == id)) (published_as is_published)
    raise_if (changed == 0) (not_found "Episode not found")
    audit_episode (if is_published then "content.episode_publish" else "content.episode_unpublish")
        actor (some id) r

  abbrev bulk_name : BulkAction → String
  bulk_name BulkAction.bulk_publish = "content.episode_bulk_publish"
  bulk_name BulkAction.bulk_unpublish = "content.episode_bulk_unpublish"
  bulk_name BulkAction.bulk_delete = "content.episode_bulk_delete"
  bulk_name BulkAction.bulk_restore = "content.episode_bulk_restore"

  unfoldable pub bulk_rows : BulkAction → List ℕ → ℕ → Action Backend ℕ
  unfolding update_under update_episodes update_media
  bulk_rows BulkAction.bulk_publish ids now =
      update_under (is_live (λ k. elem k ids)) (published_as true)
  bulk_rows BulkAction.bulk_unpublish ids now =
      update_under (is_live (λ k. elem k ids)) (published_as false)
  bulk_rows BulkAction.bulk_restore ids now = update_under (is_removed (λ k. elem k ids)) restored
  bulk_rows BulkAction.bulk_delete ids now = do
    changed ← update_episodes db (λ e. elem e.id ids && is_none e.deleted_at) (removed_episode now)
    _ ← update_media db (λ m. elem m.episode_id ids && is_none m.deleted_at) (removed_media now)
    pure changed

  unfoldable pub bulk : BulkAction → List ℕ → AuthenticatedPrincipal → Request → Action Backend ℕ
  unfolding bulk_rows
  bulk action ids actor r = do
    changed ← bulk_rows action ids r.now
    audit_episode (bulk_name action) actor none r
    pure changed
