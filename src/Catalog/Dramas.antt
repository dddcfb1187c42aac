-- ===== src/Catalog/Dramas.antt =====
-- src/dramas/dramas.service.ts: the methods that change dramas. `list` and `details` only read.
use backendurdubolonest.Base.{
  ℕ, ◌&&◌, ◌||◌, Bool, true, false, not, Option, none, some, List, Text, trim, ◌==◌, if◌then◌else◌,
  is_some, is_none, elem, any, String, text_eq, is_empty,
}
use backendurdubolonest.Prisma.{Prisma}
use backendurdubolonest.Http.{
  Error, not_found, conflict, p2002, p2025, Action, ◌>>=◌, ◌>>◌, pure, gets, or_raise, raise_if,
  modify, when, transaction, rethrow,
}
use backendurdubolonest.Schema.{Backend, Drama, success}
use backendurdubolonest.Audit.{audit_input, write_audit}
use backendurdubolonest.Auth.{AuthenticatedPrincipal, Request, Runtime}
use backendurdubolonest.Catalog.{
  is_live_drama, update_dramas, update_seasons, update_episodes, update_media, remove_episodes,
  removed_episode, removed_media, or_default, or_old, season_ids, episode_ids, removed_season,
}

pub record CreateDramaDto : Type 0 where
  pub name : Text
  pub slug : Text
  pub drama_number : Option ℕ
  pub total_seasons : Option ℕ
  pub description : Option Text
  pub thumbnail_key : Option ℕ
  pub is_published : Option Bool

pub record UpdateDramaDto : Type 0 where
  pub name : Option Text
  pub slug : Option Text
  pub drama_number : Option ℕ
  pub total_seasons : Option ℕ
  pub description : Option Text
  pub thumbnail_key : Option ℕ
  pub is_published : Option Bool

pub data BulkAction : Type 0 where
  bulk_publish bulk_unpublish bulk_delete bulk_restore : BulkAction

abbrev pub slug_in_use : Error → Error
slug_in_use p2002 = conflict "Drama slug already exists"
slug_in_use e = e

-- The unique columns of `dramas`.
abbrev pub drama_clash : Drama → Drama → Bool
drama_clash a b = a.id == b.id || text_eq a.slug b.slug

abbrev pub new_drama : Runtime → CreateDramaDto → ℕ → Drama
new_drama env dto id = record {
  id = id;
  name = trim dto.name;
  slug = env.lower_case dto.slug;
  drama_number = dto.drama_number;
  total_seasons = or_default dto.total_seasons 0;
  description = dto.description;
  thumbnail_key = dto.thumbnail_key;
  is_published = or_default dto.is_published false;
  deleted_at = none;
}

abbrev changed_name : Option Text → Text → Text
changed_name none old = old
changed_name (some name) old = trim name

abbrev changed_slug : Runtime → Option Text → Text → Text
changed_slug env none old = old
changed_slug env (some slug) old = env.lower_case slug

abbrev pub with_changes : Runtime → UpdateDramaDto → Drama → Drama
with_changes env dto d = record d {
  name = changed_name dto.name d.name;
  slug = changed_slug env dto.slug d.slug;
  drama_number = or_old dto.drama_number d.drama_number;
  total_seasons = or_default dto.total_seasons d.total_seasons;
  description = or_old dto.description d.description;
  thumbnail_key = or_old dto.thumbnail_key d.thumbnail_key;
  is_published = or_default dto.is_published d.is_published;
}

abbrev pub removed_drama : ℕ → Drama → Drama
removed_drama now d = record d { deleted_at = some now; is_published = false }

abbrev pub restored : Drama → Drama
restored d = record d { deleted_at = none }

abbrev pub published_as : Bool → Drama → Drama
published_as b d = record d { is_published = b }

abbrev pub is_gone_drama : (ℕ → Bool) → Drama → Bool
is_gone_drama which d = which d.id && is_some d.deleted_at

abbrev pub is_kept_drama : (ℕ → Bool) → Drama → Bool
is_kept_drama which d = which d.id && is_none d.deleted_at

module _ (db : Prisma) where
  abbrev audit_drama :
      String → AuthenticatedPrincipal → Option ℕ → Request → Action Backend (Unit {0})
  audit_drama action actor id r =
      write_audit db (audit_input (some actor.id) action "drama" id success r.request_id)

  unfoldable pub create :
      Runtime → CreateDramaDto → ℕ → AuthenticatedPrincipal → Request → Action Backend Drama
  create env dto id actor r = rethrow slug_in_use do
    table ← gets (λ s. s.dramas)
    grown ← or_raise p2002 (db.create drama_clash (new_drama env dto id) table)
    modify (λ s. record s { dramas = grown })
    audit_drama "content.drama_create" actor (some id) r
    pure (new_drama env dto id)

  unfoldable pub update_row : ℕ → (Drama → Drama) → Action Backend (Unit {0})
  unfolding update_dramas
  update_row id data_row = do
    row ← (gets (λ s. db.find_first (λ d. d.id == id) s.dramas) >>= or_raise p2025)
    taken ← gets (λ s. any (λ d. not (d.id == id) && drama_clash (data_row row) d) s.dramas)
    raise_if taken p2002
    _ ← update_dramas db (λ d. d.id == id) data_row
    pure tt

  unfoldable pub update :
      Runtime → ℕ → UpdateDramaDto → AuthenticatedPrincipal → Request → Action Backend (Unit {0})
  unfolding update_row
  update env id dto actor r = do
    _ ←
        (gets (λ s. db.find_first (is_live_drama id) s.dramas)
          >>= or_raise (not_found "Drama not found"))
    rethrow slug_in_use do
      update_row id (with_changes env dto)
      audit_drama "content.drama_update" actor (some id) r

  unfoldable pub remove_seasons : List ℕ → ℕ → Action Backend (Unit {0})
  unfolding update_seasons
  remove_seasons ids now = when (not (is_empty ids)) (
      update_seasons db (λ x. elem x.id ids && is_none x.deleted_at) (removed_season now) >>= λ _.
      pure tt)

  -- What goes with a drama: its seasons, their episodes, and the media of these.
  unfoldable pub remove_below : ℕ → ℕ → Action Backend (Unit {0})
  unfolding remove_seasons remove_episodes
  remove_below id now = do
    seasons ← gets (season_ids db (λ k. k == id))
    episodes ← gets (episode_ids db (λ k. elem k seasons))
    remove_seasons seasons now
    remove_episodes db episodes now

  unfoldable pub remove_rows : ℕ → ℕ → Action Backend ℕ
  unfolding update_dramas remove_below
  remove_rows id now = do
    changed ← update_dramas db (is_kept_drama (λ k. k == id)) (removed_drama now)
    when (not (changed == 0)) (remove_below id now)
    pure (if changed == 0 then 0 else 1)

  unfoldable pub remove : ℕ → AuthenticatedPrincipal → Request → Action Backend (Unit {0})
  unfolding remove_rows
  remove id actor r = do
    result ← transaction (remove_rows id r.now)
    raise_if (result == 0) (not_found "Drama not found")
    audit_drama "content.drama_delete" actor (some id) r

  unfoldable pub restore : ℕ → AuthenticatedPrincipal → Request → Action Backend (Unit {0})
  unfolding update_dramas
  restore id actor r = do
    changed ← update_dramas db (is_gone_drama (λ k. k == id)) restored
    raise_if (changed == 0) (not_found "Deleted drama not found")
    audit_drama "content.drama_restore" actor (some id) r

  unfoldable pub publish : ℕ → Bool → AuthenticatedPrincipal → Request → Action Backend (Unit {0})
  unfolding update_dramas
  publish id is_published actor r = do
    changed ← update_dramas db (is_kept_drama (λ k. k == id)) (published_as is_published)
    raise_if (changed == 0) (not_found "Drama not found")
    audit_drama (if is_published then "content.drama_publish" else "content.drama_unpublish") actor
        (some id) r

  -- The episodes of some seasons and their media, if there are any seasons.
  unfoldable pub bulk_remove_episodes : List ℕ → ℕ → Action Backend (Unit {0})
  unfolding update_episodes update_media
  bulk_remove_episodes seasons now = when (not (is_empty seasons)) do
    _ ←
        update_episodes db (λ e. elem e.season_id seasons && is_none e.deleted_at)
          (removed_episode now)
    episodes ← gets (episode_ids db (λ k. elem k seasons))
    _ ←
        update_media db (λ m. elem m.episode_id episodes && is_none m.deleted_at)
          (removed_media now)
    pure tt

  -- Unlike `remove`, the bulk form changes the seasons before it looks their keys up, and asks for
  -- the episodes after it changed them; it runs outside a transaction.
  unfoldable pub bulk_remove : List ℕ → ℕ → Action Backend ℕ
  unfolding update_dramas update_seasons bulk_remove_episodes
  bulk_remove ids now = do
    changed ← update_dramas db (is_kept_drama (λ k. elem k ids)) (removed_drama now)
    _ ← update_seasons db (λ x. elem x.drama_id ids && is_none x.deleted_at) (removed_season now)
    seasons ← gets (season_ids db (λ k. elem k ids))
    bulk_remove_episodes seasons now
    pure changed

  abbrev bulk_name : BulkAction → String
  bulk_name BulkAction.bulk_publish = "content.drama_bulk_publish"
  bulk_name BulkAction.bulk_unpublish = "content.drama_bulk_unpublish"
  bulk_name BulkAction.bulk_delete = "content.drama_bulk_delete"
  bulk_name BulkAction.bulk_restore = "content.drama_bulk_restore"

  unfoldable pub bulk_rows : BulkAction → List ℕ → ℕ → Action Backend ℕ
  unfolding update_dramas bulk_remove
  bulk_rows BulkAction.bulk_publish ids now =
      update_dramas db (is_kept_drama (λ k. elem k ids)) (published_as true)
  bulk_rows BulkAction.bulk_unpublish ids now =
      update_dramas db (is_kept_drama (λ k. elem k ids)) (published_as false)
  bulk_rows BulkAction.bulk_restore ids now =
      update_dramas db (is_gone_drama (λ k. elem k ids)) restored
  bulk_rows BulkAction.bulk_delete ids now = bulk_remove ids now

  unfoldable pub bulk : BulkAction → List ℕ → AuthenticatedPrincipal → Request → Action Backend ℕ
  unfolding bulk_rows
  bulk action ids actor r = do
    changed ← bulk_rows action ids r.now
    audit_drama (bulk_name action) actor none r
    pure changed
