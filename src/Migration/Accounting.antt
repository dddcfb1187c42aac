-- ===== src/Migration/Accounting.antt =====
-- Every row of the old database ends in one place of the report.
use backendurdubolonest.Base.{
  ℕ, zero, suc, ◌+◌, ◌≡◌, ap, sym, refl, ◌∙◌, take, leb, if◌then◌else◌, Bool, Option, none, some,
  List, [], ◌∷◌, Text, length, arith, String, Option-cases, inl, inr, trim,
}
use backendurdubolonest.Http.{ok, Action, ◌>>=◌}
use backendurdubolonest.Http.Inversion.{bind-eq-ok, or_raise-eq-ok}
use backendurdubolonest.Prisma.{Prisma}
use backendurdubolonest.Schema.{Backend, Drama}
use backendurdubolonest.Migration.{
  Source, SourceRow, Migration, LegacyMigrationRecord, filled, required, table_name, rows, up_to,
  keep_record,
}
use backendurdubolonest.Migration.Writes.{apply_row, add_row}
use backendurdubolonest.Migration.Tables.{
  add_user, migrate_user, users_from, migrate_plan, migrate_drama, add_season, migrate_season,
  each_row, users_of, table_of, email_of, plan_values, season_values, migrate_users, migrate_plans,
  migrate_dramas, migrate_seasons, main,
}
use backendurdubolonest.Migration.Adds.{
  Adds, handled, Adds-bind, Adds-after, Adds-pure, Adds-gets, Adds-or_raise, Adds-on_backend,
  Adds-if, Adds-increment, Adds-note_error, Adds-note_duplicate, Adds-when, Adds-keep_rows,
}

module _ {V : Type 0} (source : Source V) (db : Prisma) where
  Adds-keep_record : (r : LegacyMigrationRecord) → Adds 1 (keep_record source db r)
  unfolding keep_record
  Adds-keep_record r =
      Adds-after 1 _ _
        (Adds-when _ _ (
          Adds-after 0 _ _ (Adds-gets _)
            (λ table. Adds-after 0 _ _ (Adds-or_raise _ _) (λ grown. Adds-keep_rows grown))))
        (λ _. Adds-increment r.target_entity)

  Adds-apply_row :
      (create : Action Backend (Unit {0})) (r : LegacyMigrationRecord)
      → Adds 1 (apply_row source db create r)
  unfolding apply_row
  Adds-apply_row create r =
      Adds-if 1 source.dry_run _ _ (Adds-increment r.target_entity)
        (Adds-after 1 _ _ (Adds-on_backend create) (λ _. Adds-keep_record r))

  Adds-add_row :
      (existing : Bool) (duplicate : Text) (create : Action Backend (Unit {0}))
      (r : LegacyMigrationRecord)
      → Adds 1 (add_row source db existing duplicate create r)
  unfolding add_row
  Adds-add_row existing duplicate create r =
      Adds-if 1 existing _ _ (Adds-note_duplicate duplicate) (Adds-apply_row create r)

  Adds-migrate_user :
      (table dummy_hash : Text) (index : ℕ) (seen : List Text) (row : SourceRow V)
      → Adds 1 (migrate_user source db table dummy_hash index seen row)
  unfolding migrate_user add_user
  Adds-migrate_user table dummy_hash index seen row = elim (Option-cases (email_of source db row)) [
    | inl e ↦ rw (e, migrate_user) (Adds-bind 1 0 _ _ (Adds-note_error _) (λ _. Adds-pure seen))
    | inr (email, e) ↦
        rw (e, migrate_user)
          (Adds-if 1 _ _ _ (Adds-bind 1 0 _ _ (Adds-note_duplicate _) (λ _. Adds-pure seen)) (
            Adds-bind 1 0 _ _
              (Adds-after 1 _ _ (Adds-gets _) (λ existing. Adds-add_row existing _ _ _))
              (λ _. Adds-pure (email ∷ seen))))
  ]

  Adds-users_from :
      (table dummy_hash : Text) (index : ℕ) (seen : List Text) (found : List (SourceRow V))
      → Adds (length found) (users_from source db table dummy_hash index seen found)
  unfolding users_from
  Adds-users_from table dummy_hash index seen [] = Adds-pure tt
  Adds-users_from table dummy_hash index seen (row ∷ more) = record {
    at = λ s t a h. omega (
      arith,
      (Adds-bind 1 (length more) _ _ (Adds-migrate_user table dummy_hash index seen row)
            (λ seen'. Adds-users_from table dummy_hash (suc index) seen' more)).at
          s t a h,
    );
  }

  Adds-migrate_plan :
      (table : Text) (index : ℕ) (row : SourceRow V)
      → Adds 1 (migrate_plan source db table index row)
  unfolding migrate_plan
  Adds-migrate_plan table index row = elim (Option-cases (plan_values source db row)) [
    | inl e ↦ rw (e, migrate_plan) (Adds-note_error _)
    | inr ((price_pkr, duration_days), e) ↦
        rw (e, migrate_plan)
          (Adds-after 1 _ _ (Adds-gets _) (λ existing. Adds-add_row existing _ _ _))
  ]

  Adds-migrate_drama :
      (table : Text) (index : ℕ) (row : SourceRow V)
      → Adds 1 (migrate_drama source db table index row)
  unfolding migrate_drama
  Adds-migrate_drama table index row =
      Adds-after 1 _ _ (Adds-gets _) (λ existing. Adds-add_row existing _ _ _)

  Adds-add_season :
      (table : Text) (index : ℕ) (row : SourceRow V) (named : Text × ℕ) (drama : Option Drama)
      → Adds 1 (add_season source db table index row named drama)
  unfolding add_season
  Adds-add_season table index row (slug, number) none = Adds-note_error _
  Adds-add_season table index row (slug, number) (some drama) =
      Adds-after 1 _ _ (Adds-gets _) (λ existing. Adds-add_row existing _ _ _)

  Adds-migrate_season :
      (table : Text) (index : ℕ) (row : SourceRow V)
      → Adds 1 (migrate_season source db table index row)
  unfolding migrate_season
  Adds-migrate_season table index row = elim (Option-cases (season_values source db row)) [
    | inl e ↦ rw (e, migrate_season) (Adds-note_error _)
    | inr ((slug, number), e) ↦
        rw (e, migrate_season)
          (Adds-after 1 _ _ (Adds-gets _) (λ drama. Adds-add_season table index row _ drama))
  ]

  Adds-each_row :
      (body : ℕ → SourceRow V → Action Migration (Unit {0}))
      → ((index : ℕ) (row : SourceRow V) → Adds 1 (body index row))
      → (index : ℕ) (found : List (SourceRow V))
      → Adds (length found) (each_row source db body index found)
  unfolding each_row
  Adds-each_row body each index [] = Adds-pure tt
  Adds-each_row body each index (row ∷ more) = record {
    at = λ s t a h. omega (
      arith,
      (Adds-bind 1 (length more) _ _ (each index row)
            (λ _. Adds-each_row body each (suc index) more)).at
          s t a h,
    );
  }

  -- The number of rows that are read of the table that a variable names: those that the table has,
  -- but at most as many as the limit; none where the variable names no table.
  abbrev pub found_in : Option (List (SourceRow V)) → ℕ
  found_in none = 0
  found_in (some found) =
      if leb (length found) source.max_rows then length found else source.max_rows

  take-length :
      {A : Type 0} (n : ℕ) (t : List A)
      → length (take n t) ≡ (if leb (length t) n then length t else n)
  unfolding take
  take-length zero [] = refl
  take-length zero (x ∷ xs) = ground arith
  take-length (suc n) [] = ground arith
  take-length (suc n) (x ∷ xs) = ground (arith, take-length n xs)

  up_to-count :
      (o : Option (List (SourceRow V))) (found : List (SourceRow V))
      → up_to source.max_rows o ≡ some found
      → found_in o ≡ length found
  up_to-count none found e = ground arith
  up_to-count (some whole) found e =
      let same : take source.max_rows whole ≡ found = ground (arith, e) in
      sym (take-length source.max_rows whole) ∙ ap length same

  abbrev pub rows_of : Option Text → ℕ
  rows_of none = 0
  rows_of (some table) = found_in (source.query table)

  unfoldable pub rows_named : String → ℕ
  unfolding trim
  rows_named name = rows_of (filled (source.variable name))

  Adds-rows :
      {B : Type 0} (table : Text) (f : List (SourceRow V) → Action Migration B)
      → ((found : List (SourceRow V)) → Adds (length found) (f found))
      → Adds (rows_of (some table)) (rows source table >>= f)
  unfolding rows
  Adds-rows table f af = record {
    at = λ s t a h.
        let (found, u, h1, h2) = bind-eq-ok _ f s t a h in
        let (got, same) = or_raise-eq-ok _ _ s u found h1 in
        omega (
          arith,
          up_to-count (source.query table) found got,
          ap (λ (m : Migration). handled m.report) same,
          (af found).at u t a h2,
        );
  }

  table_name-eq-ok :
      (name : String) (o : Option Text) (s t : Migration)
      → table_name source name s ≡ (ok o, t)
      → (filled (source.variable name) ≡ o) × (s ≡ t)
  unfolding table_name ◌>>=◌ trim
  table_name-eq-ok name o s t h = elim (Option-cases (filled (source.variable name))) [
    | inl e ↦ (ground (arith, h, e), ground (arith, h, e))
    | inr (table, e) ↦ (ground (arith, h, e), ground (arith, h, e))
  ]

  Adds-table_name :
      {B : Type 0} (name : String) (f : Option Text → Action Migration B)
      → ((o : Option Text) → Adds (rows_of o) (f o))
      → Adds (rows_named name) (table_name source name >>= f)
  unfolding rows_named
  Adds-table_name name f af = record {
    at = λ s t a h.
        let (o, u, h1, h2) = bind-eq-ok _ f s t a h in
        let (named, same) = table_name-eq-ok name o s u h1 in
        omega (
          arith,
          ap rows_of named,
          ap (λ (m : Migration). handled m.report) same,
          (af o).at u t a h2,
        );
  }

  Adds-required : (name : String) → Adds 0 (required source name)
  unfolding required
  Adds-required name = Adds-or_raise _ _

  Adds-users_of : (o : Option Text) → Adds (rows_of o) (users_of source db o)
  Adds-users_of none = Adds-pure tt
  Adds-users_of (some table) =
      Adds-after (rows_of (some table)) _ _ (Adds-required "ARGON2_DUMMY_HASH")
        (λ hash. Adds-rows table _ (Adds-users_from table hash 0 []))

  Adds-table_of :
      (body : Text → ℕ → SourceRow V → Action Migration (Unit {0}))
      → ((table : Text) (index : ℕ) (row : SourceRow V) → Adds 1 (body table index row))
      → (o : Option Text) → Adds (rows_of o) (table_of source db body o)
  Adds-table_of body each none = Adds-pure tt
  Adds-table_of body each (some table) =
      Adds-rows table _ (Adds-each_row (body table) (each table) 0)

  Adds-main :
      Adds
        (rows_named "LEGACY_USERS_TABLE"
          + (rows_named "LEGACY_PLANS_TABLE"
              + (rows_named "LEGACY_DRAMAS_TABLE" + rows_named "LEGACY_SEASONS_TABLE")))
        (main source db)
  unfolding main migrate_users migrate_plans migrate_dramas migrate_seasons
  Adds-main = Adds-after _ _ _ (Adds-required "LEGACY_DATABASE_URL") (λ _.
      Adds-bind _ _ _ _ (Adds-table_name "LEGACY_USERS_TABLE" _ Adds-users_of) (λ _.
        Adds-bind _ _ _ _
          (Adds-table_name "LEGACY_PLANS_TABLE" _ (Adds-table_of _ Adds-migrate_plan))
          (λ _.
            Adds-bind _ _ _ _
              (Adds-table_name "LEGACY_DRAMAS_TABLE" _ (Adds-table_of _ Adds-migrate_drama))
              (λ _.
                Adds-table_name "LEGACY_SEASONS_TABLE" _ (Adds-table_of _ Adds-migrate_season)))))

-- When `main` of the migration returns, the report speaks of exactly as many rows more, as migrated,
-- as duplicates or as errors, as are read of the four tables together. Of a table that a variable
-- names these are as many as the table has, but at most MIGRATION_MAX_ROWS, so that the rows above
-- this limit are reported nowhere; of a variable that is not set, none.
pub main-handled :
    {V : Type 0} (source : Source V) (db : Prisma) (s t : Migration)
    → main source db s ≡ (ok tt, t)
    → handled t.report
      ≡ handled s.report
        + (rows_named source db "LEGACY_USERS_TABLE"
            + (rows_named source db "LEGACY_PLANS_TABLE"
                + (rows_named source db "LEGACY_DRAMAS_TABLE"
                    + rows_named source db "LEGACY_SEASONS_TABLE")))
main-handled source db s t h = (Adds-main source db).at s t tt h
