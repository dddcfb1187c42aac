-- ===== src/Tests/LegacyRuns.antt =====
-- Runs of the reader of an old dump, and its theorems at these runs.
use backendurdubolonest.Base.{
  ◌≡◌, refl, List, [], ◌∷◌, map, Text, codes, trim, take, drop, is_space,
}
use backendurdubolonest.LegacySql.{
  SqlValue, unescape, parse_value, scan_fields, split_fields, scan_tuples, tuples,
}
use backendurdubolonest.LegacySql.Dump.{
  statement_end, match_insert, insert_rows, parse_from, parse_dump,
}
use backendurdubolonest.LegacySql.Tuples.{render_rows, texts_of, tuples-render}

opened : Unit {0}
unfolding trim take drop is_space unescape parse_value scan_fields split_fields scan_tuples tuples
    statement_end match_insert insert_rows parse_from parse_dump
opened = tt

abbrev rows : List (Text × List Text)
rows = (codes "O'Neill (a, b)", codes "back\\slash;" ∷ []) ∷ (codes "", codes "\n" ∷ []) ∷ []

tuples-render_example : map (map parse_value) (tuples (render_rows rows)) ≡ texts_of rows
tuples-render_example = tuples-render rows

-- Two statements of one table, a number and a `NULL`.
parse_dump_run :
    parse_dump (
      codes
        "-- x\nINSERT INTO `t` (`a`, `b`) VALUES (1,'x;''y'),\n(2,NULL);\ninsert into `t`(`a`)values(3);")
    ≡ (
      codes "t",
      ((codes "a", SqlValue.numeral (codes "1")) ∷ (codes "b", SqlValue.text (codes "x;'y")) ∷ [])
          ∷ ((codes "a", SqlValue.numeral (codes "2")) ∷ (codes "b", SqlValue.null) ∷ [])
          ∷ ((codes "a", SqlValue.numeral (codes "3")) ∷ [])
          ∷ [],
    )
      ∷ []
unfolding opened
parse_dump_run = refl
