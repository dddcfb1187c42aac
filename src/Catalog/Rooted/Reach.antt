-- ===== src/Catalog/Rooted/Reach.antt =====
-- Any sequence of requests to the catalog, and what hangs on what after it.
use backendurdubolonest.Base.{ℕ, Bool, List}
use backendurdubolonest.Prisma.{Prisma}
use backendurdubolonest.Schema.{Backend}
use backendurdubolonest.Auth.{AuthenticatedPrincipal, Request, Runtime}
use backendurdubolonest.Catalog.Dramas
use backendurdubolonest.Catalog.Seasons
use backendurdubolonest.Catalog.Episodes
use backendurdubolonest.Catalog.Media
use backendurdubolonest.Catalog.Rooted.{IsRooted}
use backendurdubolonest.Catalog.Rooted.Requests
use backendurdubolonest.Catalog.Rooted.Contents
use backendurdubolonest.Catalog.Rooted.Assets
use backendurdubolonest.Catalog.Rooted.Assets.{IsMediaKey}

-- One request of an administrator to the catalog, whatever it ends with. That an identifier belongs
-- to one medium at most is a constraint of the table.
pub data CatalogStep (db : Prisma) (env : Runtime) (actor : AuthenticatedPrincipal) (r : Request)
    : Backend → Backend → Type 0 where
  create_drama :
      (dto : Dramas.CreateDramaDto) (id : ℕ) (s : Backend)
      → CatalogStep db env actor r s (Dramas.create db env dto id actor r s).1
  update_drama :
      (id : ℕ) (dto : Dramas.UpdateDramaDto) (s : Backend)
      → CatalogStep db env actor r s (Dramas.update db env id dto actor r s).1
  remove_drama :
      (id : ℕ) (s : Backend) → CatalogStep db env actor r s (Dramas.remove db id actor r s).1
  restore_drama :
      (id : ℕ) (s : Backend) → CatalogStep db env actor r s (Dramas.restore db id actor r s).1
  publish_drama :
      (id : ℕ) (b : Bool) (s : Backend)
      → CatalogStep db env actor r s (Dramas.publish db id b actor r s).1
  bulk_drama :
      (action : Dramas.BulkAction) (ids : List ℕ) (s : Backend)
      → CatalogStep db env actor r s (Dramas.bulk db action ids actor r s).1
  create_season :
      (dto : Seasons.CreateSeasonDto) (id : ℕ) (s : Backend)
      → CatalogStep db env actor r s (Seasons.create db dto id actor r s).1
  update_season :
      (id : ℕ) (dto : Seasons.UpdateSeasonDto) (s : Backend)
      → CatalogStep db env actor r s (Seasons.update db id dto actor r s).1
  remove_season :
      (id : ℕ) (s : Backend) → CatalogStep db env actor r s (Seasons.remove db id actor r s).1
  restore_season :
      (id : ℕ) (s : Backend) → CatalogStep db env actor r s (Seasons.restore db id actor r s).1
  bulk_season :
      (action : Seasons.BulkAction) (ids : List ℕ) (s : Backend)
      → CatalogStep db env actor r s (Seasons.bulk db action ids actor r s).1
  create_episode :
      (dto : Episodes.CreateEpisodeDto) (id : ℕ) (s : Backend)
      → CatalogStep db env actor r s (Episodes.create db dto id actor r s).1
  update_episode :
      (id : ℕ) (dto : Episodes.UpdateEpisodeDto) (s : Backend)
      → CatalogStep db env actor r s (Episodes.update db id dto actor r s).1
  remove_episode :
      (id : ℕ) (s : Backend) → CatalogStep db env actor r s (Episodes.remove db id actor r s).1
  restore_episode :
      (id : ℕ) (s : Backend) → CatalogStep db env actor r s (Episodes.restore db id actor r s).1
  publish_episode :
      (id : ℕ) (b : Bool) (s : Backend)
      → CatalogStep db env actor r s (Episodes.publish db id b actor r s).1
  bulk_episode :
      (action : Episodes.BulkAction) (ids : List ℕ) (s : Backend)
      → CatalogStep db env actor r s (Episodes.bulk db action ids actor r s).1
  create_media :
      (dto : Media.CreateMediaAssetDto) (id : ℕ) (s : Backend)
      → CatalogStep db env actor r s (Media.create db env dto id actor r s).1
  update_media :
      (id : ℕ) (dto : Media.UpdateMediaAssetDto) (s : Backend)
      → CatalogStep db env actor r s (Media.update db env id dto actor r s).1
  remove_media :
      (id : ℕ) (s : Backend) → CatalogStep db env actor r s (Media.remove db id actor r s).1
  restore_media :
      (id : ℕ) (s : Backend)
      → IsMediaKey id s
      → CatalogStep db env actor r s (Media.restore db id actor r s).1

-- Any sequence of requests, each with its own actor, time and runtime.
pub data CatalogReach (db : Prisma) : Backend → Backend → Type 0 where
  start : (s : Backend) → CatalogReach db s s
  more :
      {s t u : Backend} (env : Runtime) (actor : AuthenticatedPrincipal) (r : Request)
      → CatalogReach db s t
      → CatalogStep db env actor r t u
      → CatalogReach db s u

CatalogStep-IsRooted :
    (db : Prisma) (env : Runtime) (actor : AuthenticatedPrincipal) (r : Request) (s t : Backend)
    → CatalogStep db env actor r s t
    → IsRooted s
    → IsRooted t
CatalogStep-IsRooted db env actor r _ _ (CatalogStep.create_drama dto id s) h =
    (Requests.drama-create db actor r env dto id).at s h
CatalogStep-IsRooted db env actor r _ _ (CatalogStep.update_drama id dto s) h =
    (Requests.drama-update db actor r env id dto).at s h
CatalogStep-IsRooted db env actor r _ _ (CatalogStep.remove_drama id s) h =
    (Requests.drama-remove db actor r id).at s h
CatalogStep-IsRooted db env actor r _ _ (CatalogStep.restore_drama id s) h =
    (Requests.drama-restore db actor r id).at s h
CatalogStep-IsRooted db env actor r _ _ (CatalogStep.publish_drama id b s) h =
    (Requests.drama-publish db actor r id b).at s h
CatalogStep-IsRooted db env actor r _ _ (CatalogStep.bulk_drama action ids s) h =
    (Requests.drama-bulk db actor r action ids).at s h
CatalogStep-IsRooted db env actor r _ _ (CatalogStep.create_season dto id s) h =
    (Requests.season-create db actor r dto id).at s h
CatalogStep-IsRooted db env actor r _ _ (CatalogStep.update_season id dto s) h =
    (Requests.season-update db actor r id dto).at s h
CatalogStep-IsRooted db env actor r _ _ (CatalogStep.remove_season id s) h =
    (Requests.season-remove db actor r id).at s h
CatalogStep-IsRooted db env actor r _ _ (CatalogStep.restore_season id s) h =
    (Requests.season-restore db actor r id).at s h
CatalogStep-IsRooted db env actor r _ _ (CatalogStep.bulk_season action ids s) h =
    (Requests.season-bulk db actor r action ids).at s h
CatalogStep-IsRooted db env actor r _ _ (CatalogStep.create_episode dto id s) h =
    (Contents.episode-create db actor r dto id).at s h
CatalogStep-IsRooted db env actor r _ _ (CatalogStep.update_episode id dto s) h =
    (Contents.episode-update db actor r id dto).at s h
CatalogStep-IsRooted db env actor r _ _ (CatalogStep.remove_episode id s) h =
    (Contents.episode-remove db actor r id).at s h
CatalogStep-IsRooted db env actor r _ _ (CatalogStep.restore_episode id s) h =
    (Contents.episode-restore db actor r id).at s h
CatalogStep-IsRooted db env actor r _ _ (CatalogStep.publish_episode id b s) h =
    (Contents.episode-publish db actor r id b).at s h
CatalogStep-IsRooted db env actor r _ _ (CatalogStep.bulk_episode action ids s) h =
    (Contents.episode-bulk db actor r action ids).at s h
CatalogStep-IsRooted db env actor r _ _ (CatalogStep.create_media dto id s) h =
    (Assets.media-create db actor r env dto id).at s h
CatalogStep-IsRooted db env actor r _ _ (CatalogStep.update_media id dto s) h =
    (Assets.media-update db actor r env id dto).at s h
CatalogStep-IsRooted db env actor r _ _ (CatalogStep.remove_media id s) h =
    (Assets.media-remove db actor r id).at s h
CatalogStep-IsRooted db env actor r _ _ (CatalogStep.restore_media id s key) h =
    (Assets.media-restore db id actor r).at s (h, key)

-- Whatever sequence of requests to create, update, publish, remove or restore dramas, seasons,
-- episodes and media, alone or in bulk, is served one after the other, and whatever each of them
-- ends with: if every episode that is not deleted belongs to a season that is not deleted, and all
-- media that are not deleted to an episode that is not deleted, then this holds after it. The
-- identifier of media that are restored belongs to them alone.
pub CatalogReach-IsRooted :
    (db : Prisma) (s t : Backend) → CatalogReach db s t → IsRooted s → IsRooted t
CatalogReach-IsRooted db _ _ (CatalogReach.start s) h = h
CatalogReach-IsRooted db s u (CatalogReach.more {t = t} env actor r reach step) h =
    CatalogStep-IsRooted db env actor r t u step (CatalogReach-IsRooted db s t reach h)
