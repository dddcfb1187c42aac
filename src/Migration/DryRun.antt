-- ===== src/Migration/DryRun.antt =====
-- Without `--apply`, nothing but the report changes.
use backendurdubolonest.Base.{
  ℕ, suc, ◌≡◌, refl, Bool, true, Option, none, some, List, [], ◌∷◌, Text, arith, String,
  Option-cases, inl, inr,
}
use backendurdubolonest.Http.{Action, ◌>>=◌, modify}
use backendurdubolonest.Http.Keeps.{
  Keeps, Keeps-bind, Keeps-pure, Keeps-gets, Keeps-or_raise, Keeps-if, keeps_rules,
}
use backendurdubolonest.Prisma.{Prisma}
use backendurdubolonest.Schema.{Backend, Drama}
use backendurdubolonest.Migration.{
  Entity, Source, SourceRow, Migration, LegacyMigrationRecord, increment, note_error,
  note_duplicate, required, table_name, rows,
}
use backendurdubolonest.Migration.Writes.{apply_row, add_row}
use backendurdubolonest.Migration.Tables.{
  add_user, migrate_user, users_from, migrate_plan, migrate_drama, add_season, migrate_season,
  each_row, users_of, table_of, email_of, plan_values, season_values, migrate_users, migrate_plans,
  migrate_dramas, migrate_seasons, main,
}

module _ {V : Type 0} (source : Source V) (db : Prisma) (dry : source.dry_run ≡ true)
    (before : Migration) where
  -- The database and the records are those of a state before.
  abbrev IsUntouched : Migration → Type 0
  IsUntouched t = (t.backend ≡ before.backend) × (t.records ≡ before.records)

  Keeps-increment : (e : Entity) → Keeps IsUntouched (increment e)
  unfolding increment modify
  Keeps-increment e = record { at = λ s h. h }

  Keeps-note_error : (e : Text) → Keeps IsUntouched (note_error e)
  unfolding note_error modify
  Keeps-note_error e = record { at = λ s h. h }

  Keeps-note_duplicate : (e : Text) → Keeps IsUntouched (note_duplicate e)
  unfolding note_duplicate modify
  Keeps-note_duplicate e = record { at = λ s h. h }

  Keeps-apply_row :
      (create : Action Backend (Unit {0})) (r : LegacyMigrationRecord)
      → Keeps IsUntouched (apply_row source db create r)
  unfolding apply_row
  Keeps-apply_row create r = rw (dry, apply_row) (Keeps-increment r.target_entity)

  Keeps-add_row :
      (existing : Bool) (duplicate : Text) (create : Action Backend (Unit {0}))
      (r : LegacyMigrationRecord)
      → Keeps IsUntouched (add_row source db existing duplicate create r)
  unfolding add_row
  Keeps-add_row existing duplicate create r =
      Keeps-if existing _ _ (Keeps-note_duplicate duplicate) (Keeps-apply_row create r)

  ruleset dry_rules = (keeps_rules, Keeps-add_row, Keeps-note_error, Keeps-note_duplicate)

  Keeps-migrate_user :
      (table dummy_hash : Text) (index : ℕ) (seen : List Text) (row : SourceRow V)
      → Keeps IsUntouched (migrate_user source db table dummy_hash index seen row)
  unfolding migrate_user add_user
  Keeps-migrate_user table dummy_hash index seen row =
      elim (Option-cases (email_of source db row)) [
        | inl e ↦ rw (e, migrate_user) (search dry_rules depth 10)
        | inr (email, e) ↦ rw (e, migrate_user) (search dry_rules depth 20)
      ]

  Keeps-users_from :
      (table dummy_hash : Text) (index : ℕ) (seen : List Text) (found : List (SourceRow V))
      → Keeps IsUntouched (users_from source db table dummy_hash index seen found)
  unfolding users_from
  Keeps-users_from table dummy_hash index seen [] = Keeps-pure tt
  Keeps-users_from table dummy_hash index seen (row ∷ more) =
      Keeps-bind _ _ (Keeps-migrate_user table dummy_hash index seen row)
        (λ seen'. Keeps-users_from table dummy_hash (suc index) seen' more)

  Keeps-migrate_plan :
      (table : Text) (index : ℕ) (row : SourceRow V)
      → Keeps IsUntouched (migrate_plan source db table index row)
  unfolding migrate_plan
  Keeps-migrate_plan table index row = elim (Option-cases (plan_values source db row)) [
    | inl e ↦ rw (e, migrate_plan) (Keeps-note_error _)
    | inr ((price_pkr, duration_days), e) ↦ rw (e, migrate_plan) (search dry_rules depth 10)
  ]

  Keeps-migrate_drama :
      (table : Text) (index : ℕ) (row : SourceRow V)
      → Keeps IsUntouched (migrate_drama source db table index row)
  unfolding migrate_drama
  Keeps-migrate_drama table index row = search dry_rules depth 10

  Keeps-add_season :
      (table : Text) (index : ℕ) (row : SourceRow V) (named : Text × ℕ) (drama : Option Drama)
      → Keeps IsUntouched (add_season source db table index row named drama)
  unfolding add_season
  Keeps-add_season table index row (slug, number) none = Keeps-note_error _
  Keeps-add_season table index row (slug, number) (some drama) = search dry_rules depth 10

  Keeps-migrate_season :
      (table : Text) (index : ℕ) (row : SourceRow V)
      → Keeps IsUntouched (migrate_season source db table index row)
  unfolding migrate_season
  Keeps-migrate_season table index row = elim (Option-cases (season_values source db row)) [
    | inl e ↦ rw (e, migrate_season) (Keeps-note_error _)
    | inr ((slug, number), e) ↦
        rw (e, migrate_season)
          (Keeps-bind _ _ (Keeps-gets _) (λ drama. Keeps-add_season table index row _ drama))
  ]

  Keeps-each_row :
      (body : ℕ → SourceRow V → Action Migration (Unit {0}))
      → ((index : ℕ) (row : SourceRow V) → Keeps IsUntouched (body index row))
      → (index : ℕ) (found : List (SourceRow V))
      → Keeps IsUntouched (each_row source db body index found)
  unfolding each_row
  Keeps-each_row body each index [] = Keeps-pure tt
  Keeps-each_row body each index (row ∷ more) =
      Keeps-bind _ _ (each index row) (λ _. Keeps-each_row body each (suc index) more)

  Keeps-table_name : (name : String) → Keeps IsUntouched (table_name source name)
  unfolding table_name ◌>>=◌
  Keeps-table_name name = record { at = λ s h. ground (arith, h) }

  Keeps-users_of : (o : Option Text) → Keeps IsUntouched (users_of source db o)
  unfolding required rows
  Keeps-users_of none = Keeps-pure tt
  Keeps-users_of (some table) = search (keeps_rules, Keeps-users_from) depth 10

  Keeps-table_of :
      (body : Text → ℕ → SourceRow V → Action Migration (Unit {0}))
      → ((table : Text) (index : ℕ) (row : SourceRow V) → Keeps IsUntouched (body table index row))
      → (o : Option Text) → Keeps IsUntouched (table_of source db body o)
  unfolding rows
  Keeps-table_of body each none = Keeps-pure tt
  Keeps-table_of body each (some table) =
      Keeps-bind _ _ (Keeps-or_raise _ _)
        (λ found. Keeps-each_row (body table) (each table) 0 found)

  Keeps-main : Keeps IsUntouched (main source db)
  unfolding main required migrate_users migrate_plans migrate_dramas migrate_seasons
  Keeps-main = Keeps-bind _ _ (Keeps-or_raise _ _) (λ _.
      Keeps-bind _ _ (Keeps-bind _ _ (Keeps-table_name _) Keeps-users_of) (λ _.
        Keeps-bind _ _ (Keeps-bind _ _ (Keeps-table_name _) (Keeps-table_of _ Keeps-migrate_plan))
          (λ _.
            Keeps-bind _ _
              (Keeps-bind _ _ (Keeps-table_name _) (Keeps-table_of _ Keeps-migrate_drama))
              (λ _. Keeps-bind _ _ (Keeps-table_name _) (Keeps-table_of _ Keeps-migrate_season)))))

-- Without `--apply`, `main` leaves the database and the records of what was migrated as they were,
-- whether it returns or raises.
pub main-dry :
    {V : Type 0} (source : Source V) (db : Prisma) (s : Migration)
    → source.dry_run ≡ true
    → ((main source db s).1.backend ≡ s.backend) × ((main source db s).1.records ≡ s.records)
main-dry source db s dry = (Keeps-main source db dry s).at s (refl, refl)
