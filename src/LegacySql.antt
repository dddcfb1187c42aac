-- ===== src/LegacySql.antt =====
-- scripts/legacy-migration/import-sql.ts: how a dump of the old database is read. A loop over the
-- indices of a string is a recursion over the characters that are left.
pub mod Dump
pub mod Roundtrip
pub mod Tuples
use backendurdubolonest.Base.{
  ℕ, zero, suc, ◌+◌, ◌-◌, Bool, true, false, not, ◌&&◌, ◌||◌, Option, none, some, List, [], ◌∷◌,
  ◌++◌, map, Text, codes, trim, text_eq, is_empty, all, length, drop, take, leb, ◌==◌,
  if◌then◌else◌,
}

-- How the loops treat a character, where no string is open and where one is.
pub data Mark : Type 0 where
  quote backslash comma semicolon opening closing other : Mark

abbrev pub mark : ℕ → Mark
mark c =
    if c == b'\''
    then Mark.quote
    else if c == b'\\'
    then Mark.backslash
    else if c == b','
    then Mark.comma
    else if c == b';'
    then Mark.semicolon
    else if c == b'('
    then Mark.opening
    else if c == b')'
    then Mark.closing
    else Mark.other

abbrev pub starts_with : ℕ → Text → Bool
starts_with c [] = false
starts_with c (d ∷ s) = d == c

abbrev pub ends_with : ℕ → Text → Bool
ends_with c [] = false
ends_with c (d ∷ []) = d == c
ends_with c (d ∷ e ∷ s) = ends_with c (e ∷ s)

abbrev pub without_last : Text → Text
without_last [] = []
without_last (c ∷ []) = []
without_last (c ∷ d ∷ s) = c ∷ without_last (d ∷ s)

-- `value.slice(1, -1)`: the characters between the first and the last one.
abbrev pub inner : Text → Text
inner [] = []
inner (c ∷ s) = without_last s

-- What a value of the dump is read as: `Number` is given the numeral.
pub data SqlValue : Type 0 where
  null : SqlValue
  text numeral raw : Text → SqlValue

-- The table of escapes; any other character stands for itself.
abbrev pub escaped : ℕ → ℕ
escaped c =
    if c == b'0'
    then 0
    else if c == b'n'
    then 10
    else if c == b'r'
    then 13
    else if c == b't'
    then 9
    else if c == b'b'
    then 8
    else if c == b'Z'
    then 26
    else c

-- The loop of `parseValue` over the characters between the quotes.
unfoldable pub unescape : Text → Text
unescape [] = []
unescape (c ∷ []) = c ∷ []
unescape (c ∷ d ∷ s) = elim (mark c) [
  | Mark.backslash ↦ escaped d ∷ unescape s
  | Mark.quote ↦ if d == b'\'' then c ∷ unescape s else c ∷ unescape (d ∷ s)
  | _ ↦ c ∷ unescape (d ∷ s)
]

abbrev pub upper_ascii : ℕ → ℕ
upper_ascii c = if leb b'a' c && leb c b'z' then c - 32 else c

abbrev is_digit : ℕ → Bool
is_digit c = leb b'0' c && leb c b'9'

abbrev are_digits : Text → Bool
are_digits s = not (is_empty s) && all is_digit s

-- `\d+\.\d+`, after some digits.
abbrev is_decimal : Text → Bool
is_decimal [] = false
is_decimal (c ∷ s) = is_digit c && (is_decimal s || (starts_with b'.' s && are_digits (drop 1 s)))

abbrev without_sign : Text → Text
without_sign [] = []
without_sign (c ∷ s) = if c == b'-' then s else c ∷ s

abbrev pub is_numeral : Text → Bool
is_numeral s = are_digits (without_sign s) || is_decimal (without_sign s)

unfoldable pub parse_value : Text → SqlValue
unfolding unescape drop
parse_value value =
    if text_eq (map upper_ascii value) (codes "NULL")
    then SqlValue.null
    else if starts_with b'\'' value && ends_with b'\'' value
    then SqlValue.text (unescape (inner value))
    else if is_numeral value
    then SqlValue.numeral value
    else SqlValue.raw value

-- The loop of `splitFields`: the field that is being read, and those after it. `quoted` as in the
-- code; in a string a backslash or a doubled quote takes the next character with it.
abbrev pub push : ℕ → Text × List Text → Text × List Text
push c (field, fields) = (c ∷ field, fields)

abbrev pub comma_before : Text × List Text → Text × List Text
comma_before (field, fields) = ([], field ∷ fields)

unfoldable pub scan_fields : Bool → Text → Text × List Text
scan_fields quoted [] = ([], [])
scan_fields false (c ∷ s) = elim (mark c) [
  | Mark.quote ↦ push c (scan_fields true s)
  | Mark.comma ↦ comma_before (scan_fields false s)
  | _ ↦ push c (scan_fields false s)
]
scan_fields true (c ∷ []) = (c ∷ [], [])
scan_fields true (c ∷ d ∷ s) = elim (mark c) [
  | Mark.backslash ↦ push c (push d (scan_fields true s))
  | Mark.quote ↦
      if d == b'\''
      then push c (push d (scan_fields true s))
      else push c (scan_fields false (d ∷ s))
  | _ ↦ push c (scan_fields true (d ∷ s))
]

abbrev all_fields : Text × List Text → List Text
all_fields (field, fields) = field ∷ fields

unfoldable pub split_fields : Text → List Text
unfolding scan_fields
split_fields value = map trim (all_fields (scan_fields false value))

-- `depth`, which a closing parenthesis too many makes negative.
pub data Depth : Type 0 where
  nested below : ℕ → Depth

abbrev pub deeper : Depth → Depth
deeper (Depth.nested n) = Depth.nested (suc n)
deeper (Depth.below zero) = Depth.nested 0
deeper (Depth.below (suc n)) = Depth.below n

abbrev pub shallower : Depth → Depth
shallower (Depth.nested zero) = Depth.below 0
shallower (Depth.nested (suc n)) = Depth.nested n
shallower (Depth.below n) = Depth.below (suc n)

abbrev pub is_outside : Depth → Bool
is_outside (Depth.nested zero) = true
is_outside _ = false

-- The characters since `tupleStart`, the last one first; `none` is the start -1.
abbrev pub gather : ℕ → Option Text → Option Text
gather c none = none
gather c (some taken) = some (c ∷ taken)

abbrev pub reversed : Text → Text → Text
reversed done [] = done
reversed done (c ∷ s) = reversed (c ∷ done) s

abbrev pub opened : Depth → Option Text → Option Text
opened depth taken = if is_outside depth then some [] else gather b'(' taken

-- What a closing parenthesis ends: a tuple, if none is left open.
abbrev pub finished : Depth → Option Text → Option Text
finished depth none = none
finished depth (some taken) = if is_outside depth then some (reversed [] taken) else none

abbrev pub with_tuple : Option Text → List (List Text) → List (List Text)
with_tuple none rest = rest
with_tuple (some content) rest = split_fields content ∷ rest

abbrev pub after_close : Depth → Option Text → Option Text
after_close depth taken = if is_outside depth then none else gather b')' taken

unfoldable pub scan_tuples : Option Text → Depth → Bool → Text → List (List Text)
unfolding split_fields
scan_tuples taken depth quoted [] = []
scan_tuples taken depth false (c ∷ s) = elim (mark c) [
  | Mark.quote ↦ scan_tuples (gather c taken) depth true s
  | Mark.opening ↦ scan_tuples (opened depth taken) (deeper depth) false s
  | Mark.closing ↦
      with_tuple (finished (shallower depth) taken)
        (scan_tuples (after_close (shallower depth) taken) (shallower depth) false s)
  | _ ↦ scan_tuples (gather c taken) depth false s
]
scan_tuples taken depth true (c ∷ []) = []
scan_tuples taken depth true (c ∷ d ∷ s) = elim (mark c) [
  | Mark.backslash ↦ scan_tuples (gather d (gather c taken)) depth true s
  | Mark.quote ↦ elim (d == b'\'') [
    | true ↦ scan_tuples (gather d (gather c taken)) depth true s
    | false ↦ scan_tuples (gather c taken) depth false (d ∷ s)
  ]
  | _ ↦ scan_tuples (gather c taken) depth true (d ∷ s)
]

unfoldable pub tuples : Text → List (List Text)
unfolding scan_tuples
tuples value = scan_tuples none (Depth.nested 0) false value
