-- ===== src/LegacySql/Dump.antt =====
-- `parseDump` of scripts/legacy-migration/import-sql.ts, and how its callers look into a row.
use backendurdubolonest.Base.{
  ℕ, zero, suc, ◌+◌, ◌-◌, Bool, true, false, not, ◌&&◌, ◌||◌, Option, none, some, List, [], ◌∷◌,
  ◌++◌, map, Text, codes, trim, text_eq, is_empty, is_space, all, keep, length, take, ltb, ◌==◌,
  if◌then◌else◌,
}
use backendurdubolonest.LegacySql.{Mark, mark, SqlValue, parse_value, tuples, upper_ascii}

-- `statementEnd`, counted from where it starts.
unfoldable pub statement_end : Bool → Text → ℕ
statement_end quoted [] = 0
statement_end false (c ∷ s) = elim (mark c) [
  | Mark.quote ↦ suc (statement_end true s)
  | Mark.semicolon ↦ 0
  | _ ↦ suc (statement_end false s)
]
statement_end true (c ∷ []) = 1
statement_end true (c ∷ d ∷ s) = elim (mark c) [
  | Mark.backslash ↦ suc (suc (statement_end true s))
  | Mark.quote ↦ elim (d == b'\'') [
    | true ↦ suc (suc (statement_end true s))
    | false ↦ suc (statement_end false (d ∷ s))
  ]
  | _ ↦ suc (statement_end true (d ∷ s))
]

-- A row of a table: the columns with what they hold, and `row[column] = value`.
abbrev pub LegacyRow : Type 0
LegacyRow = List (Text × SqlValue)

abbrev pub set_column : Text → SqlValue → LegacyRow → LegacyRow
set_column column value [] = (column, value) ∷ []
set_column column value ((k, v) ∷ row) =
    if text_eq k column then (k, value) ∷ row else (k, v) ∷ set_column column value row

-- The pieces of the pattern: the words without regard to case, spaces, and what stands before a
-- character.
abbrev pub word : Text → Text → Option Text
word [] s = some s
word (p ∷ ps) [] = none
word (p ∷ ps) (c ∷ s) = if upper_ascii c == p then word ps s else none

abbrev pub spaces : Text → Text
spaces [] = []
spaces (c ∷ s) = if is_space c then spaces s else c ∷ s

abbrev before : ℕ → Option (Text × Text) → Option (Text × Text)
before c none = none
before c (some (taken, rest)) = some (c ∷ taken, rest)

abbrev pub until : ℕ → Text → Option (Text × Text)
until stop [] = none
until stop (c ∷ s) = if c == stop then some ([], s) else before c (until stop s)

pub record Insert : Type 0 where
  pub table : Text
  pub columns : Text
  pub rest : Text

abbrev at_values : Text → Text → Option Text → Option Insert
at_values table columns none = none
at_values table columns (some rest) =
    some (record { table = table; columns = columns; rest = spaces rest })

abbrev at_columns : Text → Option (Text × Text) → Option Insert
at_columns table none = none
at_columns table (some (columns, rest)) =
    at_values table columns (word (codes "VALUES") (spaces rest))

abbrev character : ℕ → Text → Option Text
character c [] = none
character c (d ∷ s) = if d == c then some s else none

abbrev at_bracket : Text → Option Text → Option Insert
at_bracket table none = none
at_bracket table (some rest) = at_columns table (until b')' rest)

abbrev at_table : Option (Text × Text) → Option Insert
at_table none = none
at_table (some ([], rest)) = none
at_table (some (c ∷ table, rest)) = at_bracket (c ∷ table) (character b'(' (spaces rest))

abbrev at_tick : Option Text → Option Insert
at_tick none = none
at_tick (some rest) = at_table (until b'`' rest)

abbrev at_space : Text → Option Insert
at_space [] = none
at_space (c ∷ s) = if is_space c then at_tick (character b'`' (spaces s)) else none

abbrev after_words : Option Text → Option Insert
after_words none = none
after_words (some rest) = at_space rest

-- The pattern of `inserts`, at the start of a text.
unfoldable pub match_insert : Text → Option Insert
unfolding is_space
match_insert s = after_words (word (codes "INSERT INTO") s)

-- `split(',')`
abbrev into_first : ℕ → List Text → List Text
into_first c [] = (c ∷ []) ∷ []
into_first c (piece ∷ pieces) = (c ∷ piece) ∷ pieces

abbrev pub split_commas : Text → List Text
split_commas [] = [] ∷ []
split_commas (c ∷ s) = if c == b',' then [] ∷ split_commas s else into_first c (split_commas s)

abbrev pub column_names : Text → List Text
column_names columns =
    map (λ column. keep (λ c. not (c == b'`')) (trim column)) (split_commas columns)

-- `columns.forEach((column, index) => { row[column] = parseValue(tuple[index] ?? 'NULL') })`
abbrev pub row_of : List Text → List Text → LegacyRow → LegacyRow
row_of [] fields row = row
row_of (column ∷ columns) [] row =
    row_of columns [] (set_column column (parse_value (codes "NULL")) row)
row_of (column ∷ columns) (field ∷ fields) row =
    row_of columns fields (set_column column (parse_value field) row)

abbrev pub Tables : Type 0
Tables = List (Text × List LegacyRow)

-- The rows that `Map.get` gives for a table with `?? []`, and `Map.set` with more rows.
abbrev pub rows_in : Text → Tables → List LegacyRow
rows_in table [] = []
rows_in table ((name, rows) ∷ ts) = if text_eq name table then rows else rows_in table ts

abbrev pub add_rows : Text → List LegacyRow → Tables → Tables
add_rows table rows [] = (table, rows) ∷ []
add_rows table rows ((name, old) ∷ ts) =
    if text_eq name table then (name, old ++ rows) ∷ ts else (name, old) ∷ add_rows table rows ts

unfoldable pub insert_rows : Insert → Tables → Tables
unfolding statement_end take tuples parse_value trim
insert_rows m ts =
    add_rows m.table
      (map (λ fields. row_of (column_names m.columns) fields [])
        (tuples (take (statement_end false m.rest) m.rest)))
      ts

-- How many characters after the first one `lastIndex` passes over.
abbrev pub passed : Text → Insert → ℕ
passed s m = length s - length m.rest + statement_end false m.rest

-- The loop of `parseDump`, where `skip` characters lie before `lastIndex`.
unfoldable pub parse_from : ℕ → Text → Tables → Tables
unfolding match_insert insert_rows
parse_from skip [] ts = ts
parse_from (suc skip) (c ∷ s) ts = parse_from skip s ts
parse_from zero (c ∷ s) ts = elim (match_insert (c ∷ s)) [
  | none ↦ parse_from zero s ts
  | some m ↦ parse_from (passed (c ∷ s) m) s (insert_rows m ts)
]

unfoldable pub parse_dump : Text → Tables
unfolding parse_from
parse_dump source = parse_from zero source []

-- `add`: a list of the report holds at most 250 notes.
abbrev pub note : Text → List Text → List Text
note value notes = if ltb (length notes) 250 then notes ++ value ∷ [] else notes

abbrev is_null : SqlValue → Bool
is_null SqlValue.null = true
is_null _ = false

abbrev pub find_column : Text → LegacyRow → Option SqlValue
find_column name [] = none
find_column name ((k, v) ∷ row) = if text_eq k name then some v else find_column name row

abbrev or_next : Option SqlValue → Option SqlValue → Option SqlValue
or_next none next = next
or_next (some v) next = if is_null v then next else some v

-- `val`: the first of the columns that is there and not null.
abbrev pub val : LegacyRow → List Text → Option SqlValue
val row [] = none
val row (name ∷ names) = or_next (find_column name row) (val row names)

-- `text`, where `printed` is how `String` prints the number of a numeral.
abbrev string_of : (Text → Text) → SqlValue → Text
string_of printed SqlValue.null = codes "null"
string_of printed (SqlValue.text t) = t
string_of printed (SqlValue.numeral t) = printed t
string_of printed (SqlValue.raw t) = t

abbrev trimmed : (Text → Text) → Option SqlValue → Option Text
trimmed printed none = none
trimmed printed (some v) = some (trim (string_of printed v))

abbrev pub text_of : (Text → Text) → LegacyRow → List Text → Option Text
text_of printed row names = trimmed printed (val row names)

abbrev or_text : Option Text → Text → Text
or_text none fallback = fallback
or_text (some t) fallback = t

abbrev pub source_id : (Text → Text) → LegacyRow → Text → Text
source_id printed row fallback =
    or_text (text_of printed row (codes "id" ∷ codes "uuid" ∷ [])) fallback

-- `validEmail`: one `@`, no space, and a dot inside the domain.
abbrev is_address_character : ℕ → Bool
is_address_character c = not (is_space c) && not (c == b'@')

abbrev has_dot_inside : Text → Bool
has_dot_inside [] = false
has_dot_inside (c ∷ s) = (c == b'.' && not (is_empty s)) || has_dot_inside s

abbrev is_domain : Text → Bool
is_domain [] = false
is_domain (c ∷ s) = all is_address_character (c ∷ s) && has_dot_inside s

abbrev address_parts : Option (Text × Text) → Bool
address_parts none = false
address_parts (some (name, domain)) =
    not (is_empty name) && all is_address_character name && is_domain domain

abbrev pub valid_email : Option Text → Bool
valid_email none = false
valid_email (some value) = address_parts (until b'@' value)
