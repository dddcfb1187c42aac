-- ===== src/Catalog/Seasons.antt =====
-- src/seasons/seasons.service.ts: the methods that change seasons. `list` and `details` only read.
use backendurdubolonest.Base.{
  ℕ, ◌&&◌, ◌||◌, Bool, not, Option, none, some, List, Text, ◌==◌, if◌then◌else◌, is_some, is_none,
  elem, any, String,
}
use backendurdubolonest.Prisma.{Prisma}
use backendurdubolonest.Http.{
  Error, not_found, conflict, p2002, p2025, Action, ◌>>=◌, ◌>>◌, pure, gets, or_raise, raise_if,
  modify, when, transaction, rethrow,
}
use backendurdubolonest.Schema.{Backend, Season, success}
use backendurdubolonest.Audit.{audit_input, write_audit}
use backendurdubolonest.Auth.{AuthenticatedPrincipal, Request}
use backendurdubolonest.Catalog.{
  has_live_drama, is_live_season, update_seasons, remove_episodes, or_default, or_old, trimmed,
  episode_ids, removed_season,
}

pub record CreateSeasonDto : Type 0 where
  pub drama_id : ℕ
  pub season_number : ℕ
  pub title : Option Text
  pub total_episodes : Option ℕ
  pub thumbnail_key : Option ℕ

pub record UpdateSeasonDto : Type 0 where
  pub drama_id : Option ℕ
  pub season_number : Option ℕ
  pub title : Option Text
  pub total_episodes : Option ℕ
  pub thumbnail_key : Option ℕ

pub data BulkAction : Type 0 where
  bulk_delete bulk_restore : BulkAction

abbrev pub number_in_use : Error → Error
number_in_use p2002 = conflict "Season number already exists for this drama"
number_in_use e = e

-- The unique columns of `seasons`.
abbrev pub season_clash : Season → Season → Bool
season_clash a b = a.id == b.id || (a.drama_id == b.drama_id && a.season_number == b.season_number)

abbrev pub new_season : CreateSeasonDto → ℕ → Season
new_season dto id = record {
  id = id;
  drama_id = dto.drama_id;
  season_number = dto.season_number;
  title = trimmed dto.title;
  total_episodes = or_default dto.total_episodes 0;
  thumbnail_key = dto.thumbnail_key;
  deleted_at = none;
}

abbrev pub with_changes : UpdateSeasonDto → Season → Season
with_changes dto x = record x {
  drama_id = or_default dto.drama_id x.drama_id;
  season_number = or_default dto.season_number x.season_number;
  title = or_old (trimmed dto.title) x.title;
  total_episodes = or_default dto.total_episodes x.total_episodes;
  thumbnail_key = or_old dto.thumbnail_key x.thumbnail_key;
}

abbrev pub restored : Season → Season
restored x = record x { deleted_at = none }

abbrev pub is_gone_season : (ℕ → Bool) → Season → Bool
is_gone_season which x = which x.id && is_some x.deleted_at

abbrev pub is_kept_season : (ℕ → Bool) → Season → Bool
is_kept_season which x = which x.id && is_none x.deleted_at

module _ (db : Prisma) where
  abbrev audit_season :
      String → AuthenticatedPrincipal → Option ℕ → Request → Action Backend (Unit {0})
  audit_season action actor id r =
      write_audit db (audit_input (some actor.id) action "season" id success r.request_id)

  unfoldable pub ensure_drama : ℕ → Action Backend (Unit {0})
  ensure_drama id = do
    found ← gets (λ s. has_live_drama db s id)
    raise_if (not found) (not_found "Drama not found")

  abbrev pub ensure_new_drama : Option ℕ → Action Backend (Unit {0})
  ensure_new_drama none = pure tt
  ensure_new_drama (some id) = ensure_drama id

  unfoldable pub create_row : Season → Action Backend (Unit {0})
  create_row row = do
    table ← gets (λ s. s.seasons)
    grown ← or_raise p2002 (db.create season_clash row table)
    modify (λ s. record s { seasons = grown })

  unfoldable pub create :
      CreateSeasonDto → ℕ → AuthenticatedPrincipal → Request → Action Backend Season
  unfolding ensure_drama create_row
  create dto id actor r = do
    ensure_drama dto.drama_id
    rethrow number_in_use do
      create_row (new_season dto id)
      audit_season "content.season_create" actor (some id) r
      pure (new_season dto id)

  unfoldable pub update_row : ℕ → (Season → Season) → Action Backend (Unit {0})
  unfolding update_seasons
  update_row id data_row = do
    row ← (gets (λ s. db.find_first (λ x. x.id == id) s.seasons) >>= or_raise p2025)
    taken ← gets (λ s. any (λ x. not (x.id == id) && season_clash (data_row row) x) s.seasons)
    raise_if taken p2002
    _ ← update_seasons db (λ x. x.id == id) data_row
    pure tt

  unfoldable pub update :
      ℕ → UpdateSeasonDto → AuthenticatedPrincipal → Request → Action Backend (Unit {0})
  unfolding ensure_drama update_row
  update id dto actor r = do
    _ ←
        (gets (λ s. db.find_first (is_live_season db s id) s.seasons)
          >>= or_raise (not_found "Season not found"))
    ensure_new_drama dto.drama_id
    rethrow number_in_use
        do update_row id (with_changes dto); audit_season "content.season_update" actor (some id) r

  -- The episodes of some seasons, and the media of these.
  unfoldable pub remove_below : (ℕ → Bool) → ℕ → Action Backend (Unit {0})
  unfolding remove_episodes
  remove_below which now =
      gets (episode_ids db which) >>= λ episodes. remove_episodes db episodes now

  unfoldable pub remove_rows : ℕ → ℕ → Action Backend ℕ
  unfolding update_seasons remove_below
  remove_rows id now = do
    changed ← update_seasons db (is_kept_season (λ k. k == id)) (removed_season now)
    when (not (changed == 0)) (remove_below (λ k. k == id) now)
    pure (if changed == 0 then 0 else 1)

  unfoldable pub remove : ℕ → AuthenticatedPrincipal → Request → Action Backend (Unit {0})
  unfolding remove_rows
  remove id actor r = do
    result ← transaction (remove_rows id r.now)
    raise_if (result == 0) (not_found "Season not found")
    audit_season "content.season_delete" actor (some id) r

  unfoldable pub restore : ℕ → AuthenticatedPrincipal → Request → Action Backend (Unit {0})
  unfolding update_seasons
  restore id actor r = do
    changed ← update_seasons db (is_gone_season (λ k. k == id)) restored
    raise_if (changed == 0) (not_found "Deleted season not found")
    audit_season "content.season_restore" actor (some id) r

  abbrev bulk_name : BulkAction → String
  bulk_name BulkAction.bulk_delete = "content.season_bulk_delete"
  bulk_name BulkAction.bulk_restore = "content.season_bulk_restore"

  unfoldable pub bulk_rows : BulkAction → List ℕ → ℕ → Action Backend ℕ
  unfolding update_seasons remove_below
  bulk_rows BulkAction.bulk_restore ids now =
      update_seasons db (is_gone_season (λ k. elem k ids)) restored
  bulk_rows BulkAction.bulk_delete ids now = do
    changed ← update_seasons db (is_kept_season (λ k. elem k ids)) (removed_season now)
    remove_below (λ k. elem k ids) now
    pure changed

  unfoldable pub bulk : BulkAction → List ℕ → AuthenticatedPrincipal → Request → Action Backend ℕ
  unfolding bulk_rows
  bulk action ids actor r = do
    changed ← bulk_rows action ids r.now
    audit_season (bulk_name action) actor none r
    pure changed
