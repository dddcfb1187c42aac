-- ===== src/Catalog/Episodes/Reach.antt =====
-- Any sequence of requests that change episodes, and what is published after it.
use backendurdubolonest.Base.{ℕ, Bool, List}
use backendurdubolonest.Prisma.{Prisma}
use backendurdubolonest.Schema.{Backend}
use backendurdubolonest.Auth.{AuthenticatedPrincipal, Request}
use backendurdubolonest.Catalog.Episodes.{
  CreateEpisodeDto, UpdateEpisodeDto, BulkAction, update, create, restore, publish, remove, bulk,
}
use backendurdubolonest.Catalog.Episodes.Published.{AreConsistent}
use backendurdubolonest.Catalog.Episodes.Steps.{
  IsKey, update-Leads, Keeps-create, Keeps-remove, Keeps-restore, Keeps-publish, Keeps-bulk,
}

-- One request that changes episodes, whatever it ends with. That an identifier belongs to one
-- episode at most is a constraint of the table.
pub data EpisodeStep (db : Prisma) : Backend → Backend → Type 0 where
  create_step :
      (dto : CreateEpisodeDto) (id : ℕ) (actor : AuthenticatedPrincipal) (r : Request) (s : Backend)
      → EpisodeStep db s (create db dto id actor r s).1
  update_step :
      (id : ℕ) (dto : UpdateEpisodeDto) (actor : AuthenticatedPrincipal) (r : Request) (s : Backend)
      → IsKey id s
      → EpisodeStep db s (update db id dto actor r s).1
  remove_step :
      (id : ℕ) (actor : AuthenticatedPrincipal) (r : Request) (s : Backend)
      → EpisodeStep db s (remove db id actor r s).1
  restore_step :
      (id : ℕ) (actor : AuthenticatedPrincipal) (r : Request) (s : Backend)
      → EpisodeStep db s (restore db id actor r s).1
  publish_step :
      (id : ℕ) (b : Bool) (actor : AuthenticatedPrincipal) (r : Request) (s : Backend)
      → EpisodeStep db s (publish db id b actor r s).1
  bulk_step :
      (action : BulkAction) (ids : List ℕ) (actor : AuthenticatedPrincipal) (r : Request)
      (s : Backend)
      → EpisodeStep db s (bulk db action ids actor r s).1

-- Any sequence of requests.
pub data EpisodeReach (db : Prisma) : Backend → Backend → Type 0 where
  start : (s : Backend) → EpisodeReach db s s
  more : {s t u : Backend} → EpisodeReach db s t → EpisodeStep db t u → EpisodeReach db s u

module _ (db : Prisma) where
  EpisodeStep-AreConsistent :
      (s t : Backend) → EpisodeStep db s t → AreConsistent s → AreConsistent t
  EpisodeStep-AreConsistent _ _ (EpisodeStep.create_step dto id actor r s) h =
      (Keeps-create db dto id actor r).at s h
  EpisodeStep-AreConsistent _ _ (EpisodeStep.update_step id dto actor r s key) h =
      (update-Leads db id dto actor r).at s (h, key)
  EpisodeStep-AreConsistent _ _ (EpisodeStep.remove_step id actor r s) h =
      (Keeps-remove db id actor r).at s h
  EpisodeStep-AreConsistent _ _ (EpisodeStep.restore_step id actor r s) h =
      (Keeps-restore db id actor r).at s h
  EpisodeStep-AreConsistent _ _ (EpisodeStep.publish_step id b actor r s) h =
      (Keeps-publish db id b actor r).at s h
  EpisodeStep-AreConsistent _ _ (EpisodeStep.bulk_step action ids actor r s) h =
      (Keeps-bulk db action ids actor r).at s h

-- Whatever sequence of requests to create, update, publish, remove or restore episodes, alone or in
-- bulk, is served one after the other, and whatever each of them ends with: if every episode is
-- flagged as published exactly when its status is PUBLISHED, and no deleted episode is flagged so,
-- then this holds after it. The identifier of an episode that is updated belongs to it alone.
pub EpisodeReach-AreConsistent :
    (db : Prisma) (s t : Backend) → EpisodeReach db s t → AreConsistent s → AreConsistent t
EpisodeReach-AreConsistent db _ _ (EpisodeReach.start s) h = h
EpisodeReach-AreConsistent db s u (EpisodeReach.more {t = t} reach step) h =
    EpisodeStep-AreConsistent db t u step (EpisodeReach-AreConsistent db s t reach h)
