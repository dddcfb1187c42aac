-- ===== src/Catalog/Rooted/Requests.antt =====
-- Every method that changes the catalog keeps what is alive on what is alive.
use backendurdubolonest.Base.{ℕ, Bool, Option, none, some, List, arith, ◌==◌}
use backendurdubolonest.Prisma.{Prisma}
use backendurdubolonest.Http.{◌>>=◌, rethrow}
use backendurdubolonest.Http.Keeps.{Keeps, Keeps-pure, keeps_rules}
use backendurdubolonest.Schema.{Season}
use backendurdubolonest.Auth.{AuthenticatedPrincipal, Request, Runtime}
use backendurdubolonest.Catalog.{update_seasons}
use backendurdubolonest.Catalog.Dramas
use backendurdubolonest.Catalog.Seasons
use backendurdubolonest.Catalog.Rooted.{IsRooted}
use backendurdubolonest.Catalog.Rooted.Removal.{Keeps-drama_below, Keeps-season_rows}
use backendurdubolonest.Catalog.Rooted.Bulk.{Keeps-bulk_drama, Keeps-bulk_season}
use backendurdubolonest.Catalog.Rooted.Writes.{
  Keeps-write_audit, Keeps-update_dramas, Keeps-set_dramas, Keeps-update_seasons, Keeps-season_row,
}

ruleset rooted_rules = (
  keeps_rules, Keeps-write_audit, Keeps-update_dramas, Keeps-set_dramas, Keeps-season_row,
  Keeps-drama_below, Keeps-season_rows, Keeps-bulk_drama, Keeps-bulk_season,
)

module _ (db : Prisma) (actor : AuthenticatedPrincipal) (r : Request) where
  pub drama-create :
      (env : Runtime) (dto : Dramas.CreateDramaDto) (id : ℕ)
      → Keeps IsRooted (Dramas.create db env dto id actor r)
  unfolding Dramas.create rethrow ◌>>=◌
  drama-create env dto id = search rooted_rules depth 30

  pub drama-update :
      (env : Runtime) (id : ℕ) (dto : Dramas.UpdateDramaDto)
      → Keeps IsRooted (Dramas.update db env id dto actor r)
  unfolding Dramas.update Dramas.update_row
  drama-update env id dto = search rooted_rules depth 40

  pub drama-remove : (id : ℕ) → Keeps IsRooted (Dramas.remove db id actor r)
  unfolding Dramas.remove Dramas.remove_rows
  drama-remove id = search rooted_rules depth 30

  pub drama-restore : (id : ℕ) → Keeps IsRooted (Dramas.restore db id actor r)
  unfolding Dramas.restore
  drama-restore id = search rooted_rules depth 20

  pub drama-publish : (id : ℕ) (b : Bool) → Keeps IsRooted (Dramas.publish db id b actor r)
  unfolding Dramas.publish
  drama-publish id b = search rooted_rules depth 20

  drama-bulk_rows :
      (action : Dramas.BulkAction) (ids : List ℕ) (now : ℕ)
      → Keeps IsRooted (Dramas.bulk_rows db action ids now)
  unfolding Dramas.bulk_rows
  drama-bulk_rows Dramas.BulkAction.bulk_publish ids now = Keeps-update_dramas db _ _
  drama-bulk_rows Dramas.BulkAction.bulk_unpublish ids now = Keeps-update_dramas db _ _
  drama-bulk_rows Dramas.BulkAction.bulk_restore ids now = Keeps-update_dramas db _ _
  drama-bulk_rows Dramas.BulkAction.bulk_delete ids now = Keeps-bulk_drama db ids now

  pub drama-bulk :
      (action : Dramas.BulkAction) (ids : List ℕ)
      → Keeps IsRooted (Dramas.bulk db action ids actor r)
  unfolding Dramas.bulk
  drama-bulk action ids = search (rooted_rules, drama-bulk_rows) depth 20

  pub season-create :
      (dto : Seasons.CreateSeasonDto) (id : ℕ) → Keeps IsRooted (Seasons.create db dto id actor r)
  unfolding Seasons.create Seasons.ensure_drama
  season-create dto id = search rooted_rules depth 30

  season-ensure : (drama : Option ℕ) → Keeps IsRooted (Seasons.ensure_new_drama db drama)
  unfolding Seasons.ensure_drama
  season-ensure none = Keeps-pure tt
  season-ensure (some id) = search keeps_rules depth 10

  season-change :
      (id : ℕ) (dto : Seasons.UpdateSeasonDto)
      → Keeps IsRooted (update_seasons db (λ x. x.id == id) (Seasons.with_changes dto))
  season-change id dto = Keeps-update_seasons db _ _ (λ k x h. h)

  pub season-update :
      (id : ℕ) (dto : Seasons.UpdateSeasonDto) → Keeps IsRooted (Seasons.update db id dto actor r)
  unfolding Seasons.update Seasons.update_row
  season-update id dto = search (rooted_rules, season-ensure, season-change) depth 40

  pub season-remove : (id : ℕ) → Keeps IsRooted (Seasons.remove db id actor r)
  unfolding Seasons.remove
  season-remove id = search rooted_rules depth 30

  season-restored : (p : Season → Bool) → Keeps IsRooted (update_seasons db p Seasons.restored)
  season-restored p = Keeps-update_seasons db p _ (λ k x h. ground (arith, h))

  pub season-restore : (id : ℕ) → Keeps IsRooted (Seasons.restore db id actor r)
  unfolding Seasons.restore
  season-restore id = search (rooted_rules, season-restored) depth 20

  season-bulk_rows :
      (action : Seasons.BulkAction) (ids : List ℕ) (now : ℕ)
      → Keeps IsRooted (Seasons.bulk_rows db action ids now)
  season-bulk_rows Seasons.BulkAction.bulk_delete ids now = Keeps-bulk_season db ids now
  season-bulk_rows Seasons.BulkAction.bulk_restore ids now =
      unfold Seasons.bulk_rows in season-restored _

  pub season-bulk :
      (action : Seasons.BulkAction) (ids : List ℕ)
      → Keeps IsRooted (Seasons.bulk db action ids actor r)
  unfolding Seasons.bulk
  season-bulk action ids = search (rooted_rules, season-bulk_rows) depth 20
