-- ===== src/Migration/Tables.antt =====
-- scripts/legacy-migration/migrate.ts: `migrateUsers`, `migratePlans`, `migrateDramas`,
-- `migrateSeasons` and `main`. A loop goes over the rows with their index; what a handler of a row
-- does in place of `continue` is to return.
use backendurdubolonest.Base.{
  ℕ, suc, true, false, ◌&&◌, Option, none, some, List, [], ◌∷◌, ◌++◌, Text, codes, text_eq, take,
  ◌==◌, if◌then◌else◌, is_some,
}
use backendurdubolonest.Http.{Action, ◌>>=◌, ◌>>◌, pure, gets}
use backendurdubolonest.Prisma.{Prisma}
use backendurdubolonest.Schema.{User, UserStatus, Drama}
use backendurdubolonest.Auth.Login.{create_user}
use backendurdubolonest.Migration.{
  Entity, Source, SourceRow, Migration, decimal, row_error, row_key, or_text, note_error,
  note_duplicate, required, table_name, value, text, source_key, number, rows,
}
use backendurdubolonest.Migration.Writes.{
  elem_text, lower, usable_email, is_argon2, filled_text, positive, both, with_number, create_plan,
  create_drama, create_season, record_of, add_row,
}

module _ {V : Type 0} (source : Source V) (db : Prisma) where
  unfoldable pub user_of : SourceRow V → Text → ℕ → Text → User
  user_of row dummy_hash index email =
      let legacy_hash = text source row ("password_hash" ∷ "password" ∷ "pass" ∷ []) in
      record {
        id = source.new_id index;
        username = take 80 (
            or_text (text source row ("username" ∷ "user_name" ∷ "name" ∷ []))
              (codes "legacy_" ++ source_key source row (decimal index)));
        email = email;
        password_hash =
            source.hash_of
              (if is_argon2 legacy_hash then or_text legacy_hash dummy_hash else dummy_hash);
        status = if is_argon2 legacy_hash then UserStatus.active else UserStatus.disabled;
        profile_image_key = none;
        failed_login_count = 0;
        locked_until = none;
        last_login_at = none;
        deleted_at = none;
      }

  -- A row with an address that was not seen before.
  unfoldable pub add_user : Text → Text → ℕ → SourceRow V → Text → Action Migration (Unit {0})
  unfolding add_row user_of
  add_user table dummy_hash index row email = do
    existing ← gets (λ s. is_some (db.find_first (λ u. text_eq u.email email) s.backend.users))
    add_row source db existing (row_key table email)
        (create_user db (user_of row dummy_hash index email))
        (record_of source db table (source_key source row (decimal index)) Entity.user
          (source.new_id index))

  abbrev pub email_of : SourceRow V → Option Text
  email_of row =
      usable_email (lower source.lower_case (text source row ("email" ∷ "email_address" ∷ [])))

  -- One round of the loop returns the addresses seen so far.
  unfoldable pub migrate_user :
      Text → Text → ℕ → List Text → SourceRow V → Action Migration (List Text)
  unfolding row_error note_error note_duplicate add_user
  migrate_user table dummy_hash index seen row = elim (email_of row) [
    | none ↦ note_error (row_error table index "invalid email") >> pure seen
    | some email ↦
        if elem_text email seen
        then note_duplicate (row_key table email) >> pure seen
        else add_user table dummy_hash index row email >> pure (email ∷ seen)
  ]

  unfoldable pub users_from :
      Text → Text → ℕ → List Text → List (SourceRow V) → Action Migration (Unit {0})
  users_from table dummy_hash index seen [] = pure tt
  users_from table dummy_hash index seen (row ∷ more) =
      migrate_user table dummy_hash index seen row >>= λ seen'.
      users_from table dummy_hash (suc index) seen' more

  -- The price and the duration of a plan, where both are valid.
  abbrev pub plan_values : SourceRow V → Option (ℕ × ℕ)
  plan_values row =
      both (number source (value source row ("price_pkr" ∷ "price" ∷ "amount" ∷ [])) 0) (
        positive (number source (value source row ("duration_days" ∷ "days" ∷ "duration" ∷ [])) 30))

  unfoldable pub migrate_plan : Text → ℕ → SourceRow V → Action Migration (Unit {0})
  unfolding row_error note_error add_row
  migrate_plan table index row =
      let code = take 50 (
        source.lower_case (
          or_text (text source row ("code" ∷ "slug" ∷ []))
            (codes "legacy_plan_" ++ decimal index))) in
      elim (plan_values row) [
        | none ↦ note_error (row_error table index "invalid plan values")
        | some (price_pkr, duration_days) ↦
            gets (λ s. is_some (db.find_first (λ p. text_eq p.code code) s.backend.plans))
            >>= λ existing.
                add_row source db existing (row_key table code)
                  (create_plan db (record {
                    id = source.new_id index;
                    code = code;
                    name = take 120 (or_text (text source row ("name" ∷ "title" ∷ [])) code);
                    price_pkr = price_pkr;
                    duration_days = duration_days;
                    is_active = true;
                  }))
                  (record_of source db table (source_key source row code) Entity.subscription_plan
                    (source.new_id index))
      ]

  unfoldable pub migrate_drama : Text → ℕ → SourceRow V → Action Migration (Unit {0})
  unfolding add_row
  migrate_drama table index row =
      let slug = take 220 (
        source.lower_case (
          or_text (text source row ("slug" ∷ "code" ∷ []))
            (codes "legacy-drama-" ++ decimal index))) in
      gets (λ s. is_some (db.find_first (λ d. text_eq d.slug slug) s.backend.dramas))
      >>= λ existing.
          add_row source db existing (row_key table slug)
            (create_drama db (record {
              id = source.new_id index;
              name = take 200 (or_text (text source row ("name" ∷ "title" ∷ [])) slug);
              slug = slug;
              drama_number = none;
              total_seasons = 0;
              description = text source row ("description" ∷ "details" ∷ []);
              thumbnail_key = none;
              is_published = false;
              deleted_at = none;
            }))
            (record_of source db table (source_key source row slug) Entity.drama
              (source.new_id index))

  -- A row that names a drama and a number, once the drama was looked up.
  unfoldable pub add_season :
      Text → ℕ → SourceRow V → Text × ℕ → Option Drama → Action Migration (Unit {0})
  unfolding row_error note_error add_row
  add_season table index row (drama_slug, season_number) none =
      note_error (row_error table index "drama not found")
  add_season table index row (drama_slug, season_number) (some drama) = do
    existing ← gets (λ s. is_some (
        db.find_first (λ x. x.drama_id == drama.id && x.season_number == season_number)
          s.backend.seasons))
    add_row source db existing (row_key table (row_key drama_slug (decimal season_number)))
        (create_season db (record {
          id = source.new_id index;
          drama_id = drama.id;
          season_number = season_number;
          title = text source row ("title" ∷ "name" ∷ []);
          total_episodes = 0;
          thumbnail_key = none;
          deleted_at = none;
        }))
        (record_of source db table
          (source_key source row (row_key drama_slug (decimal season_number))) Entity.season
          (source.new_id index))

  -- The slug of the drama and the number of a season, where both are valid.
  abbrev pub season_values : SourceRow V → Option (Text × ℕ)
  season_values row =
      with_number (filled_text (text source row ("drama_slug" ∷ "drama_code" ∷ "slug_parent" ∷ [])))
        (positive (number source (value source row ("season_number" ∷ "season" ∷ "number" ∷ [])) 1))

  unfoldable pub migrate_season : Text → ℕ → SourceRow V → Action Migration (Unit {0})
  unfolding row_error note_error add_season
  migrate_season table index row = elim (season_values row) [
    | none ↦ note_error (row_error table index "invalid season")
    | some (drama_slug, season_number) ↦
        gets
          (λ s. db.find_first (λ d. text_eq d.slug (source.lower_case drama_slug)) s.backend.dramas)
        >>= λ drama. add_season table index row (drama_slug, season_number) drama
  ]

  -- `for (const [index, row] of (await rows(connection, table)).entries())`
  unfoldable pub each_row :
      (ℕ → SourceRow V → Action Migration (Unit {0}))
      → ℕ
      → List (SourceRow V)
      → Action Migration (Unit {0})
  each_row body index [] = pure tt
  each_row body index (row ∷ more) = body index row >> each_row body (suc index) more

  abbrev pub users_of : Option Text → Action Migration (Unit {0})
  users_of none = pure tt
  users_of (some table) = do
    dummy_hash ← required source "ARGON2_DUMMY_HASH"
    found ← rows source table
    users_from table dummy_hash 0 [] found

  unfoldable pub migrate_users : Action Migration (Unit {0})
  unfolding required table_name rows users_from
  migrate_users = table_name source "LEGACY_USERS_TABLE" >>= users_of

  abbrev pub table_of :
      (Text → ℕ → SourceRow V → Action Migration (Unit {0}))
      → Option Text
      → Action Migration (Unit {0})
  table_of body none = pure tt
  table_of body (some table) = rows source table >>= each_row (body table) 0

  unfoldable pub migrate_plans : Action Migration (Unit {0})
  unfolding table_name rows each_row migrate_plan
  migrate_plans = table_name source "LEGACY_PLANS_TABLE" >>= table_of migrate_plan

  unfoldable pub migrate_dramas : Action Migration (Unit {0})
  unfolding table_name rows each_row migrate_drama
  migrate_dramas = table_name source "LEGACY_DRAMAS_TABLE" >>= table_of migrate_drama

  unfoldable pub migrate_seasons : Action Migration (Unit {0})
  unfolding table_name rows each_row migrate_season
  migrate_seasons = table_name source "LEGACY_SEASONS_TABLE" >>= table_of migrate_season

  unfoldable pub main : Action Migration (Unit {0})
  unfolding required migrate_users migrate_plans migrate_dramas migrate_seasons
  main = do
    _ ← required source "LEGACY_DATABASE_URL"
    migrate_users
    migrate_plans
    migrate_dramas
    migrate_seasons
