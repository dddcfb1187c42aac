-- ===== src/Migration.antt =====
-- scripts/legacy-migration/migrate.ts: rows of an old MySQL database become users, plans, dramas and
-- seasons. The state, the report, and how a row and an environment variable are read.
pub mod Writes
pub mod Tables
pub mod Adds
pub mod Accounting
pub mod DryRun
pub mod Decimal
use backendurdubolonest.Base.{
  ℕ, zero, suc, ◌+◌, ◌/◌, ◌%◌, Bool, true, false, not, ◌&&◌, ◌||◌, Option, none, some, List, [],
  ◌∷◌, ◌++◌, Text, codes, trim, text_eq, is_empty, all, any, ltb, leb, ◌==◌, take, if◌then◌else◌,
  String,
}
use backendurdubolonest.Http.{
  Error, Result, ok, err, internal, p2002, Action, ◌>>=◌, ◌>>◌, pure, gets, modify, or_raise, when,
  raise_if, raise,
}
use backendurdubolonest.Prisma.{Prisma}
use backendurdubolonest.Schema.{Backend}

pub data Entity : Type 0 where
  user subscription_plan drama season : Entity

abbrev pub entity_code : Entity → ℕ
entity_code Entity.user = 0
entity_code Entity.subscription_plan = 1
entity_code Entity.drama = 2
entity_code Entity.season = 3

pub record LegacyMigrationRecord : Type 0 where
  pub run_id : ℕ
  pub source_table : Text
  pub source_key : Text
  pub target_entity : Entity
  pub target_id : ℕ

pub record MigrationReport : Type 0 where
  pub counts : List (Entity × ℕ)
  pub duplicates : List Text
  pub errors : List Text

-- What the script works on: the database, the records of what it migrated, and `report`.
pub record Migration : Type 0 where
  pub backend : Backend
  pub records : List LegacyMigrationRecord
  pub report : MigrationReport

-- A row of the old database; a column that is NULL holds nothing.
abbrev pub SourceRow : Type 0 → Type 0
SourceRow V = List (Text × Option V)

-- `LIMIT` of a query.
abbrev pub up_to {ℓ} : {A : Type ℓ} → ℕ → Option (List A) → Option (List A)
up_to n none = none
up_to n (some found) = some (take n found)

-- What the script is given: the environment, the driver mysql2 with the values V that it returns,
-- and how JavaScript reads these.
pub record Source (V : Type 0) : Type 0 where
  -- `process.env[name]`
  pub variable : String → Option Text
  -- `maxRows`: `MIGRATION_MAX_ROWS`, by default 100000.
  pub max_rows : ℕ
  -- What `SELECT *` gives for a table; nothing where `connection.query` rejects.
  pub query : Text → Option (List (SourceRow V))
  -- `String(value)`
  pub string_of : V → Text
  -- `Number(value)` where `Number.isInteger` holds of it and it is not negative.
  pub whole_of : V → Option ℕ
  pub lower_case : Text → Text
  -- The number that stands for a password hash.
  pub hash_of : Text → ℕ
  pub run_id : ℕ
  pub dry_run : Bool
  -- The key that the database generates for the row with this index.
  pub new_id : ℕ → ℕ

-- `String(index)`, on fuel that is above the number.
abbrev pub digits : ℕ → ℕ → Text
digits zero n = []
digits (suc fuel) n =
    let rest = digits fuel (n / 10) in
    if ltb n 10 then (n + b'0') ∷ [] else rest ++ (n % 10 + b'0') ∷ []

unfoldable pub decimal : ℕ → Text
decimal n = digits (suc n) n

-- `{table}:{index} {what}` and `{table}:{key}`
unfoldable pub row_error : Text → ℕ → String → Text
unfolding decimal
row_error table index what = table ++ (b':' ∷ decimal index) ++ (b' ' ∷ codes what)

abbrev pub row_key : Text → Text → Text
row_key table key = table ++ b':' ∷ key

abbrev is_identifier_character : ℕ → Bool
is_identifier_character c =
    (leb b'A' c && leb c b'Z')
    || (leb b'a' c && leb c b'z')
    || (leb b'0' c && leb c b'9')
    || c == b'_'

-- An empty variable counts as one that is not set.
abbrev pub filled : Option Text → Option Text
filled none = none
filled (some t) = if is_empty (trim t) then none else some (trim t)

abbrev pub starts_with : Text → Text → Bool
starts_with [] s = true
starts_with (p ∷ ps) [] = false
starts_with (p ∷ ps) (c ∷ s) = c == p && starts_with ps s

abbrev pub or_text : Option Text → Text → Text
or_text none fallback = fallback
or_text (some t) fallback = t

abbrev pub bump : Entity → List (Entity × ℕ) → List (Entity × ℕ)
bump e [] = (e, 1) ∷ []
bump e ((k, n) ∷ counts) =
    if entity_code k == entity_code e then (k, n + 1) ∷ counts else (k, n) ∷ bump e counts

-- The unique index of the records.
abbrev pub record_clash : LegacyMigrationRecord → LegacyMigrationRecord → Bool
record_clash a b =
    a.run_id == b.run_id
    && (entity_code a.target_entity == entity_code b.target_entity
        && text_eq a.source_key b.source_key)

unfoldable pub increment : Entity → Action Migration (Unit {0})
unfolding modify
increment e =
    modify (λ s. record s { report = record s.report { counts = bump e s.report.counts } })

unfoldable pub note_error : Text → Action Migration (Unit {0})
unfolding modify
note_error e =
    modify (λ s. record s { report = record s.report { errors = s.report.errors ++ e ∷ [] } })

unfoldable pub note_duplicate : Text → Action Migration (Unit {0})
unfolding modify
note_duplicate d =
    modify
      (λ s. record s { report = record s.report { duplicates = s.report.duplicates ++ d ∷ [] } })

-- A query of the database inside the script.
abbrev placed : {A : Type 0} → Migration → Result A × Backend → Result A × Migration
placed s (r, b) = (r, record s { backend = b })

unfoldable pub on_backend : {A : Type 0} → Action Backend A → Action Migration A
on_backend m s = placed s (m s.backend)

-- The errors thrown for a variable are modelled without its name in the message.
module _ {V : Type 0} (source : Source V) where
  unfoldable pub required : String → Action Migration Text
  unfolding trim
  required name = or_raise (internal "a variable is required") (filled (source.variable name))

  abbrev checked : Option Text → Action Migration (Option Text)
  checked none = pure none
  checked (some value) = do
    raise_if (not (all is_identifier_character value)) (internal "invalid identifier")
    pure (some value)

  unfoldable pub table_name : String → Action Migration (Option Text)
  unfolding trim
  table_name name = checked (filled (source.variable name))

  abbrev column : Text → SourceRow V → Option V
  column name [] = none
  column name ((k, v) ∷ row) = if text_eq k name then v else column name row

  abbrev or_next : Option V → Option V → Option V
  or_next none next = next
  or_next (some v) next = some v

  abbrev pub value : SourceRow V → List String → Option V
  value row [] = none
  value row (name ∷ names) = or_next (column (codes name) row) (value row names)

  abbrev printed : Option V → Option Text
  printed none = none
  printed (some v) = some (trim (source.string_of v))

  abbrev pub text : SourceRow V → List String → Option Text
  text row names = printed (value row names)

  abbrev pub source_key : SourceRow V → Text → Text
  source_key row fallback =
      or_text (text row ("id" ∷ "uuid" ∷ "user_id" ∷ "episode_id" ∷ "slug" ∷ "code" ∷ [])) fallback

  -- `Number(value(…) ?? fallback)`, where it is a whole number.
  abbrev pub number : Option V → ℕ → Option ℕ
  number none fallback = some fallback
  number (some v) fallback = source.whole_of v

  unfoldable pub rows : Text → Action Migration (List (SourceRow V))
  unfolding take
  rows table = or_raise (internal "query failed") (up_to source.max_rows (source.query table))

  unfoldable pub keep_record : Prisma → LegacyMigrationRecord → Action Migration (Unit {0})
  unfolding increment
  keep_record db r = do
    when (not source.dry_run) do
      table ← gets (λ s. s.records)
      grown ← or_raise p2002 (db.create record_clash r table)
      modify (λ s. record s { records = grown })
    increment r.target_entity
