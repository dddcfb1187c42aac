-- ===== src/LegacySql/Tuples.antt =====
-- The rows of a dump are read back.
use backendurdubolonest.Base.{
  ℕ, ◌≡◌, refl, sym, ap, ◌∙◌, true, false, Option, none, some, inl, inr, List, [], ◌∷◌, ◌++◌, map,
  arith, Text, trim, trim-between, ◌==◌, is_space,
}
use backendurdubolonest.LegacySql.{
  starts_with, ends_with, without_last, SqlValue, parse_value, all_fields, split_fields, Depth,
  gather, reversed, scan_tuples, tuples,
}
use backendurdubolonest.LegacySql.Roundtrip.{
  is_plain, with_escape, escape, literal, written, unescape-escape, append_assoc, append_nil,
  scan_fields-render, render_fields,
}

without_last-append : (s : Text) (c : ℕ) → without_last (s ++ c ∷ []) ≡ s
without_last-append [] c = refl
without_last-append (d ∷ []) c = refl
without_last-append (d ∷ e ∷ s) c = ap (λ r. d ∷ r) (without_last-append (e ∷ s) c)

ends_with-append : (s : Text) (c d : ℕ) → ends_with c (s ++ d ∷ []) ≡ (d == c)
ends_with-append [] c d = refl
ends_with-append (x ∷ []) c d = refl
ends_with-append (x ∷ y ∷ s) c d = ends_with-append (y ∷ s) c d

-- `parseValue` reads the literal of any text, with quotes, backslashes and control characters, as
-- this text.
pub parse_value-literal : (s : Text) → parse_value (literal s) ≡ SqlValue.text s
unfolding parse_value
parse_value-literal s =
    rw (ends_with-append (b'\'' ∷ escape s) b'\'' b'\'', without_last-append (escape s) b'\'')
      (ap SqlValue.text (unescape-escape s))

quote_kept : is_space b'\'' ≡ false
unfolding is_space
quote_kept = refl

trim-literals : (ss : List Text) → map trim (map literal ss) ≡ map literal ss
trim-literals [] = refl
trim-literals (s ∷ ss) =
    rw (trim-between b'\'' b'\'' (escape s) quote_kept quote_kept, trim-literals ss) refl

split_fields-render :
    (s : Text) (us : List Text) → split_fields (render_fields s us) ≡ map literal (s ∷ us)
unfolding split_fields
split_fields-render s us =
    ap (λ r. map trim (all_fields r)) (scan_fields-render s us) ∙ trim-literals (s ∷ us)

-- While a tuple is open, a literal is taken whole.
scan_tuples-plain :
    (c : ℕ) (taken : Option Text) (depth : Depth) (s : Text)
    → is_plain c ≡ true
    → scan_tuples taken depth true (c ∷ s) ≡ scan_tuples (gather c taken) depth true s
unfolding scan_tuples
scan_tuples-plain c taken depth [] h = refl
scan_tuples-plain c taken depth (d ∷ s) h = ground (arith, h)

scan_tuples-escape :
    (taken : Text) (depth : Depth) (s t : Text)
    → scan_tuples (some taken) depth true (escape s ++ t)
      ≡ scan_tuples (some (reversed taken (escape s))) depth true t
unfolding scan_tuples
scan_tuples-escape taken depth [] t = refl
scan_tuples-escape taken depth (c ∷ s) t = elim (written c) [
  | inl (e, plain) ↦
      ap (λ l. scan_tuples (some taken) depth true (with_escape c l (escape s) ++ t)) e
      ∙ scan_tuples-plain c (some taken) depth (escape s ++ t) plain
      ∙ scan_tuples-escape (c ∷ taken) depth s t
      ∙ sym (
          ap (λ l. scan_tuples (some (reversed taken (with_escape c l (escape s)))) depth true t) e)
  | inr (letter, e, back) ↦
      ap (λ l. scan_tuples (some taken) depth true (with_escape c l (escape s) ++ t)) e
      ∙ scan_tuples-escape (letter ∷ b'\\' ∷ taken) depth s t
      ∙ sym (
          ap (λ l. scan_tuples (some (reversed taken (with_escape c l (escape s)))) depth true t) e)
]

scan_tuples-close :
    (taken : Text) (depth : Depth) (t : Text)
    → starts_with b'\'' t ≡ false
    → scan_tuples (some taken) depth true (b'\'' ∷ t)
      ≡ scan_tuples (some (b'\'' ∷ taken)) depth false t
unfolding scan_tuples
scan_tuples-close taken depth [] h = refl
scan_tuples-close taken depth (d ∷ t) h = ground (arith, h)

reversed-append : (done s t : Text) → reversed done (s ++ t) ≡ reversed (reversed done s) t
reversed-append done [] t = refl
reversed-append done (c ∷ s) t = reversed-append (c ∷ done) s t

scan_tuples-literal :
    (taken : Text) (depth : Depth) (s t : Text)
    → starts_with b'\'' t ≡ false
    → scan_tuples (some taken) depth false (literal s ++ t)
      ≡ scan_tuples (some (reversed taken (literal s))) depth false t
unfolding scan_tuples
scan_tuples-literal taken depth s t h =
    ap (scan_tuples (some (b'\'' ∷ taken)) depth true) (append_assoc (escape s) (b'\'' ∷ []) t)
    ∙ scan_tuples-escape (b'\'' ∷ taken) depth s (b'\'' ∷ t)
    ∙ scan_tuples-close (reversed (b'\'' ∷ taken) (escape s)) depth t h
    ∙ sym (
        ap (λ r. scan_tuples (some r) depth false t)
          (reversed-append (b'\'' ∷ taken) (escape s) (b'\'' ∷ [])))

-- The fields of a row are taken whole, whatever row stands after them.
scan_tuples-fields :
    (taken : Text) (s : Text) (us : List Text) (t : Text)
    → scan_tuples (some taken) (Depth.nested 1) false (render_fields s us ++ b')' ∷ t)
      ≡ scan_tuples (some (reversed taken (render_fields s us))) (Depth.nested 1) false (b')' ∷ t)
unfolding scan_tuples
scan_tuples-fields taken s [] t = scan_tuples-literal taken (Depth.nested 1) s (b')' ∷ t) refl
scan_tuples-fields taken s (u ∷ us) t =
    ap (scan_tuples (some taken) (Depth.nested 1) false)
      (append_assoc (literal s) (b',' ∷ render_fields u us) (b')' ∷ t))
    ∙ scan_tuples-literal taken (Depth.nested 1) s (b',' ∷ (render_fields u us ++ b')' ∷ t)) refl
    ∙ scan_tuples-fields (b',' ∷ reversed taken (literal s)) u us t
    ∙ sym (
        ap (λ r. scan_tuples (some r) (Depth.nested 1) false (b')' ∷ t))
          (reversed-append taken (literal s) (b',' ∷ render_fields u us)))

reversed-reversed : (done s t : Text) → reversed t (reversed done s) ≡ reversed (s ++ t) done
reversed-reversed done [] t = refl
reversed-reversed done (c ∷ s) t = reversed-reversed (c ∷ done) s t

-- A row that is closed is a tuple, and what stands after it is read from the start.
tuples-row :
    (s : Text) (us : List Text) (t : Text)
    → tuples (b'(' ∷ (render_fields s us ++ b')' ∷ t)) ≡ map literal (s ∷ us) ∷ tuples t
unfolding tuples scan_tuples
tuples-row s us t =
    scan_tuples-fields [] s us t
    ∙ ap (λ r. split_fields r ∷ scan_tuples none (Depth.nested 0) false t)
        (reversed-reversed [] (render_fields s us) [] ∙ append_nil (render_fields s us))
    ∙ ap (λ fs. fs ∷ scan_tuples none (Depth.nested 0) false t) (split_fields-render s us)

-- Between two rows a comma is passed over.
tuples-comma : (t : Text) → tuples (b',' ∷ t) ≡ tuples t
unfolding tuples scan_tuples
tuples-comma t = refl

tuples-nil : tuples [] ≡ []
unfolding tuples scan_tuples
tuples-nil = refl

-- The rows of a statement, as a dump writes them: each is a field and the fields after it.
abbrev pub render_row : Text × List Text → Text → Text
render_row (s, us) t = b'(' ∷ (render_fields s us ++ b')' ∷ t)

abbrev pub render_rows : List (Text × List Text) → Text
render_rows [] = []
render_rows (row ∷ []) = render_row row []
render_rows (row ∷ next ∷ rows) = render_row row (b',' ∷ render_rows (next ∷ rows))

abbrev pub row_texts : Text × List Text → List Text
row_texts (s, us) = s ∷ us

abbrev literals : List (Text × List Text) → List (List Text)
literals rows = map (λ (row : Text × List Text). map literal (row_texts row)) rows

abbrev pub texts_of : List (Text × List Text) → List (List SqlValue)
texts_of rows = map (λ (row : Text × List Text). map SqlValue.text (row_texts row)) rows

tuples-literals : (rows : List (Text × List Text)) → tuples (render_rows rows) ≡ literals rows
tuples-literals [] = tuples-nil
tuples-literals ((s, us) ∷ []) =
    tuples-row s us [] ∙ ap (λ ts. map literal (s ∷ us) ∷ ts) tuples-nil
tuples-literals ((s, us) ∷ next ∷ rows) =
    tuples-row s us (b',' ∷ render_rows (next ∷ rows))
    ∙ ap (λ ts. map literal (s ∷ us) ∷ ts)
        (tuples-comma (render_rows (next ∷ rows)) ∙ tuples-literals (next ∷ rows))

parse_value-literals : (ss : List Text) → map parse_value (map literal ss) ≡ map SqlValue.text ss
parse_value-literals [] = refl
parse_value-literals (s ∷ ss) = rw (parse_value-literal s, parse_value-literals ss) refl

parse_value-rows :
    (rows : List (Text × List Text)) → map (map parse_value) (literals rows) ≡ texts_of rows
parse_value-rows [] = refl
parse_value-rows (row ∷ rows) =
    rw (parse_value-literals (row_texts row), parse_value-rows rows) refl

-- What a dump writes as the rows of a table, `tuples`, `splitFields` and `parseValue` together read
-- back: the same rows with the same texts, whatever commas, parentheses, quotes, backslashes and
-- control characters stand in them.
pub tuples-render :
    (rows : List (Text × List Text))
    → map (map parse_value) (tuples (render_rows rows)) ≡ texts_of rows
tuples-render rows = ap (map (map parse_value)) (tuples-literals rows) ∙ parse_value-rows rows
