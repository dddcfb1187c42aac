-- ===== src/Migration/Writes.antt =====
-- scripts/legacy-migration/migrate.ts: the single writes of the migration, and the tests of its values.
use backendurdubolonest.Base.{
  ℕ, Bool, false, ◌||◌, Option, none, some, List, Text, codes, text_eq, is_empty, any, ◌==◌,
  if◌then◌else◌, elem,
}
use backendurdubolonest.Http.{p2002, Action, ◌>>=◌, ◌>>◌, gets, modify, or_raise}
use backendurdubolonest.Prisma.{Prisma}
use backendurdubolonest.Schema.{Backend, SubscriptionPlan, Drama, Season}
use backendurdubolonest.Catalog.Dramas.{drama_clash}
use backendurdubolonest.Catalog.Seasons.{season_clash}
use backendurdubolonest.Migration.{
  Entity, Source, Migration, LegacyMigrationRecord, starts_with, increment, note_duplicate,
  on_backend, keep_record,
}

abbrev pub elem_text : Text → List Text → Bool
elem_text t seen = any (λ u. text_eq u t) seen

abbrev pub lower : (Text → Text) → Option Text → Option Text
lower lower_case none = none
lower lower_case (some t) = some (lower_case t)

-- `!email || !email.includes('@')`
abbrev pub usable_email : Option Text → Option Text
usable_email none = none
usable_email (some email) = if elem b'@' email then some email else none

abbrev pub is_argon2 : Option Text → Bool
is_argon2 none = false
is_argon2 (some hash) = starts_with (codes "$argon2") hash

abbrev pub filled_text : Option Text → Option Text
filled_text none = none
filled_text (some t) = if is_empty t then none else some t

-- A number that is at least 1.
abbrev pub positive : Option ℕ → Option ℕ
positive none = none
positive (some n) = if n == 0 then none else some n

abbrev pub both : Option ℕ → Option ℕ → Option (ℕ × ℕ)
both none b = none
both (some a) none = none
both (some a) (some b) = some (a, b)

abbrev pub with_number : Option Text → Option ℕ → Option (Text × ℕ)
with_number none b = none
with_number (some a) none = none
with_number (some a) (some b) = some (a, b)

abbrev pub plan_clash : SubscriptionPlan → SubscriptionPlan → Bool
plan_clash a b = a.id == b.id || text_eq a.code b.code

module _ (db : Prisma) where
  unfoldable pub create_plan : SubscriptionPlan → Action Backend (Unit {0})
  create_plan row = do
    table ← gets (λ s. s.plans)
    grown ← or_raise p2002 (db.create plan_clash row table)
    modify (λ s. record s { plans = grown })

  unfoldable pub create_drama : Drama → Action Backend (Unit {0})
  create_drama row = do
    table ← gets (λ s. s.dramas)
    grown ← or_raise p2002 (db.create drama_clash row table)
    modify (λ s. record s { dramas = grown })

  unfoldable pub create_season : Season → Action Backend (Unit {0})
  create_season row = do
    table ← gets (λ s. s.seasons)
    grown ← or_raise p2002 (db.create season_clash row table)
    modify (λ s. record s { seasons = grown })

module _ {V : Type 0} (source : Source V) (db : Prisma) where
  -- `if (!dryRun) { create; await record(…) } else increment(…)`
  unfoldable pub apply_row :
      Action Backend (Unit {0}) → LegacyMigrationRecord → Action Migration (Unit {0})
  unfolding increment on_backend keep_record
  apply_row create r =
      if source.dry_run
      then increment r.target_entity
      else (on_backend create >> keep_record source db r)

  abbrev pub record_of : Text → Text → Entity → ℕ → LegacyMigrationRecord
  record_of table key entity id = record {
    run_id = source.run_id;
    source_table = table;
    source_key = key;
    target_entity = entity;
    target_id = id;
  }

  -- Where a row with the same key is there already, its key is noted, else the row is created.
  unfoldable pub add_row :
      Bool → Text → Action Backend (Unit {0}) → LegacyMigrationRecord → Action Migration (Unit {0})
  unfolding note_duplicate apply_row
  add_row existing duplicate create r =
      if existing then note_duplicate duplicate else apply_row create r
