-- ===== src/Tests/MigrationRuns.antt =====
-- Runs of the migration of an old database, and its theorems at these runs.
use backendurdubolonest.Base.{
  ℕ, ◌+◌, ◌≡◌, refl, Bool, true, false, Option, none, some, List, [], ◌∷◌, Text, codes, text_eq,
  length, trim, take, if◌then◌else◌, String,
}
use backendurdubolonest.Prisma.Tables.{list_client}
use backendurdubolonest.Http.{◌>>=◌}
use backendurdubolonest.Auth.Login.{create_user}
use backendurdubolonest.Migration.{Source, SourceRow, Migration}
use backendurdubolonest.Migration.Writes.{create_drama}
use backendurdubolonest.Migration.Tables.{main, migrate_user}
use backendurdubolonest.Migration.Adds.{handled}
use backendurdubolonest.Migration.Accounting.{rows_named, main-handled}
use backendurdubolonest.Migration.DryRun.{main-dry}
use backendurdubolonest.Tests.Library.{library}

opened : Unit {0}
unfolding ◌>>=◌ trim take main migrate_user create_user create_drama
opened = tt

abbrev variables : Text → Option Text
variables name =
    if text_eq name (codes "LEGACY_DATABASE_URL")
    then some (codes "mysql://old")
    else if text_eq name (codes "ARGON2_DUMMY_HASH")
    then some (codes "$argon2id$x")
    else if text_eq name (codes "LEGACY_USERS_TABLE")
    then some (codes "users")
    else if text_eq name (codes "LEGACY_DRAMAS_TABLE")
    then some (codes " dramas ")
    else none

abbrev tables : Text → Option (List (SourceRow Text))
tables name =
    if text_eq name (codes "users")
    then some (
        ((codes "email", some (codes "a@b.c")) ∷ (codes "pass", some (codes "$argon2i$y")) ∷ [])
        ∷ ((codes "email", some (codes "a@b.c")) ∷ [])
        ∷ ((codes "email", none) ∷ [])
        ∷ [])
    else if text_eq name (codes "dramas")
    then some (((codes "slug", some (codes "one")) ∷ []) ∷ [])
    else none

abbrev source : Bool → Source Text
source dry_run = record {
  variable = λ name. variables (codes name);
  max_rows = 3;
  query = tables;
  string_of = λ t. t;
  whole_of = λ t. some (length t);
  lower_case = λ t. t;
  hash_of = λ t. length t;
  run_id = 1;
  dry_run = dry_run;
  new_id = λ index. 900 + index;
}

abbrev before_run : Migration
before_run = record {
  backend = library;
  records = [];
  report = record { counts = []; duplicates = []; errors = [] };
}

abbrev after_run : Migration
after_run = (main (source false) list_client before_run).1

abbrev row_count : String → ℕ
row_count name = rows_named (source false) list_client name

main-handled_example :
    handled after_run.report
    ≡ handled before_run.report
      + (row_count "LEGACY_USERS_TABLE"
          + (row_count "LEGACY_PLANS_TABLE"
              + (row_count "LEGACY_DRAMAS_TABLE" + row_count "LEGACY_SEASONS_TABLE")))
unfolding opened
main-handled_example = main-handled (source false) list_client before_run after_run refl

main-dry_example :
    ((main (source true) list_client before_run).1.backend ≡ before_run.backend)
    × ((main (source true) list_client before_run).1.records ≡ before_run.records)
main-dry_example = main-dry (source true) list_client before_run refl

report_of_run :
    (length after_run.report.duplicates ≡ 1)
    × (length after_run.report.errors ≡ 1)
    × (length after_run.records ≡ 2)
unfolding opened
report_of_run = (refl, refl, refl)
