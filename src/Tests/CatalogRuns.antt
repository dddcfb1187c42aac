-- ===== src/Tests/CatalogRuns.antt =====
-- Runs of the catalog, and its theorems at these runs.
use backendurdubolonest.Base.{
  true, ◌==◌, ◌&&◌, is_none, ◌≡◌, refl, arith, false, none, some, [], ◌∷◌, any,
}
use backendurdubolonest.Prisma.Tables.{list_client}
use backendurdubolonest.Http.{ok, ◌>>=◌}
use backendurdubolonest.Audit.{write_audit}
use backendurdubolonest.Schema.{Backend}
use backendurdubolonest.Catalog.{update_episodes, update_media}
use backendurdubolonest.Catalog.Episodes.{
  UpdateEpisodeDto, BulkAction, remove_rows, remove, update, bulk,
}
use backendurdubolonest.Catalog.Episodes.Published.{AreConsistent}
use backendurdubolonest.Catalog.Episodes.Removed.{is_live_episode, is_live_media, remove-eq-ok}
use backendurdubolonest.Catalog.Episodes.Reach.{
  EpisodeStep, EpisodeReach, EpisodeReach-AreConsistent,
}
use backendurdubolonest.Catalog.Dramas
use backendurdubolonest.Catalog.Seasons
use backendurdubolonest.Catalog.Media
use backendurdubolonest.Catalog.Rooted.{IsRooted}
use backendurdubolonest.Catalog.Rooted.Cascade.{IsCleared, remove-IsCleared}
use backendurdubolonest.Catalog.Rooted.Return.{restore-remove}
use backendurdubolonest.Catalog.Rooted.Reach.{CatalogStep, CatalogReach, CatalogReach-IsRooted}
use backendurdubolonest.Tests.Sample.{request, principal, runtime}
use backendurdubolonest.Tests.Library.{library}

opened : Unit {0}
unfolding ◌>>=◌ write_audit update_episodes update_media remove_rows remove Dramas.remove
    Seasons.restore Media.restore
opened = tt

abbrev hide : UpdateEpisodeDto
hide = record {
  season_id = none;
  episode_number = some 4;
  title = none;
  description = none;
  thumbnail_key = none;
  is_published = some false;
  visibility = none;
  is_premium = none;
  download_access = none;
  status = none;
}

abbrev after_hiding : Backend
after_hiding = (update list_client 51 hide (principal 101 11) (request 20) library).1

abbrev after_showing : Backend
after_showing =
    (bulk list_client BulkAction.bulk_publish (51 ∷ []) (principal 101 11) (request 30)
      after_hiding).1

EpisodeReach-AreConsistent_example : AreConsistent after_showing
EpisodeReach-AreConsistent_example =
    EpisodeReach-AreConsistent list_client library after_showing
      (EpisodeReach.more
        (EpisodeReach.more (EpisodeReach.start library)
          (EpisodeStep.update_step 51 hide (principal 101 11) (request 20) library (omega arith)))
        (EpisodeStep.bulk_step BulkAction.bulk_publish (51 ∷ []) (principal 101 11) (request 30)
          after_hiding))
      refl

abbrev gone : Backend
gone = (remove list_client 51 (principal 101 11) (request 20) library).1

remove-eq-ok_example :
    (any (is_live_episode 51) gone.episodes ≡ false)
    × (any (is_live_media 51) gone.media_assets ≡ false)
unfolding opened
remove-eq-ok_example = remove-eq-ok list_client 51 (principal 101 11) (request 20) library gone refl

-- The drama goes with all that is below it; then its season and its media are asked back, and the
-- media are not given while their episode is deleted.
abbrev emptied : Backend
emptied = (Dramas.remove list_client 53 (principal 101 11) (request 20) library).1

abbrev asked_back : Backend
asked_back =
    (Media.restore list_client 52 (principal 101 11) (request 30)
      (Seasons.restore list_client 54 (principal 101 11) (request 30) emptied).1).1

CatalogReach-IsRooted_example : IsRooted asked_back
unfolding opened
CatalogReach-IsRooted_example =
    CatalogReach-IsRooted list_client library asked_back
      (CatalogReach.more runtime (principal 101 11) (request 30)
        (CatalogReach.more runtime (principal 101 11) (request 30)
          (CatalogReach.more runtime (principal 101 11) (request 20) (CatalogReach.start library)
            (CatalogStep.remove_drama 53 library))
          (CatalogStep.restore_season 54 emptied))
        (CatalogStep.restore_media 52
          (Seasons.restore list_client 54 (principal 101 11) (request 30) emptied).1 (omega arith)))
      (refl, refl)

remove-IsCleared_example : IsCleared 53 emptied
unfolding opened
remove-IsCleared_example =
    remove-IsCleared list_client 53 (principal 101 11) (request 20) library emptied refl

restore-remove_example :
    (u : Backend) × (Dramas.restore list_client 53 (principal 102 12) (request 40) emptied
      ≡ (ok tt, u))
    × (any (λ d. d.id == 53 && is_none d.deleted_at) u.dramas ≡ true)
    × IsCleared 53 u
unfolding opened
restore-remove_example =
    restore-remove list_client 53 (principal 101 11) (principal 102 12) (request 20) (request 40)
      library emptied refl
