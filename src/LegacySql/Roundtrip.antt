-- ===== src/LegacySql/Roundtrip.antt =====
-- What a dump writes as strings, `parseValue` and the two splitting loops read back.
use backendurdubolonest.Base.{
  ℕ, ◌≡◌, ◌⊎◌, refl, sym, ap, ◌∙◌, Bool, true, false, not, ◌&&◌, Option, none, some, inl, inr, List,
  [], ◌∷◌, ◌++◌, map, arith, Text, ◌==◌, if◌then◌else◌, Option-cases,
}
use backendurdubolonest.LegacySql.{starts_with, escaped, unescape, push, comma_before, scan_fields}

path_cons : {c d : ℕ} {s t : Text} → c ≡ d → s ≡ t → c ∷ s ≡ d ∷ t
path_cons e f = cc

-- A character that the loops treat as neither a quote nor a backslash.
abbrev pub is_plain : ℕ → Bool
is_plain c = not (c == b'\'') && not (c == b'\\')

-- How MySQL writes a character in a string: the letter after a backslash, or the character itself.
abbrev pub escape_letter : ℕ → Option ℕ
escape_letter c =
    if c == 0
    then some b'0'
    else if c == 10
    then some b'n'
    else if c == 13
    then some b'r'
    else if c == 26
    then some b'Z'
    else if c == b'"'
    then some b'"'
    else if c == b'\''
    then some b'\''
    else if c == b'\\'
    then some b'\\'
    else none

abbrev pub with_escape : ℕ → Option ℕ → Text → Text
with_escape c none s = c ∷ s
with_escape c (some letter) s = b'\\' ∷ letter ∷ s

abbrev pub escape : Text → Text
escape [] = []
escape (c ∷ s) = with_escape c (escape_letter c) (escape s)

abbrev pub literal : Text → Text
literal s = b'\'' ∷ (escape s ++ b'\'' ∷ [])

-- Either the character is plain, or it is written with a letter that is read as it.
abbrev pub Written : ℕ → Type 0
Written c =
    ((escape_letter c ≡ none) × (is_plain c ≡ true))
    ⊎ ((letter : ℕ) × (escape_letter c ≡ some letter) × (escaped letter ≡ c))

pub written : (c : ℕ) → Written c
written c = elim (Option-cases (escape_letter c)) [
  | inl e ↦ inl (e, ground (arith, e))
  | inr (letter, e) ↦ inr (letter, e, ground (arith, e))
]

unescape-plain : (c : ℕ) (s : Text) → is_plain c ≡ true → unescape (c ∷ s) ≡ c ∷ unescape s
unfolding unescape
unescape-plain c [] h = refl
unescape-plain c (d ∷ s) h = ground (arith, h)

pub unescape-escape : (s : Text) → unescape (escape s) ≡ s
unfolding unescape
unescape-escape [] = refl
unescape-escape (c ∷ s) = elim (written c) [
  | inl (e, plain) ↦
      ap (λ l. unescape (with_escape c l (escape s))) e
      ∙ unescape-plain c (escape s) plain
      ∙ ap (λ t. c ∷ t) (unescape-escape s)
  | inr (letter, e, back) ↦
      ap (λ l. unescape (with_escape c l (escape s))) e ∙ path_cons back (unescape-escape s)
]

-- The characters of a text before those of the field that follows.
abbrev push_all : Text → Text × List Text → Text × List Text
push_all [] r = r
push_all (c ∷ s) r = push c (push_all s r)

scan_fields-plain :
    (c : ℕ) (s : Text) → is_plain c ≡ true → scan_fields true (c ∷ s) ≡ push c (scan_fields true s)
unfolding scan_fields
scan_fields-plain c [] h = refl
scan_fields-plain c (d ∷ s) h = ground (arith, h)

scan_fields-escape :
    (s t : Text) → scan_fields true (escape s ++ t) ≡ push_all (escape s) (scan_fields true t)
unfolding scan_fields
scan_fields-escape [] t = refl
scan_fields-escape (c ∷ s) t = elim (written c) [
  | inl (e, plain) ↦
      ap (λ l. scan_fields true (with_escape c l (escape s) ++ t)) e
      ∙ scan_fields-plain c (escape s ++ t) plain
      ∙ ap (push c) (scan_fields-escape s t)
      ∙ sym (ap (λ l. push_all (with_escape c l (escape s)) (scan_fields true t)) e)
  | inr (letter, e, back) ↦
      ap (λ l. scan_fields true (with_escape c l (escape s) ++ t)) e
      ∙ ap (λ r. push b'\\' (push letter r)) (scan_fields-escape s t)
      ∙ sym (ap (λ l. push_all (with_escape c l (escape s)) (scan_fields true t)) e)
]

scan_fields-close :
    (t : Text)
    → starts_with b'\'' t ≡ false
    → scan_fields true (b'\'' ∷ t) ≡ push b'\'' (scan_fields false t)
unfolding scan_fields
scan_fields-close [] h = refl
scan_fields-close (d ∷ t) h = ground (arith, h)

pub append_assoc : (s : Text) (t u : Text) → (s ++ t) ++ u ≡ s ++ (t ++ u)
append_assoc [] t u = refl
append_assoc (c ∷ s) t u = ap (λ r. c ∷ r) (append_assoc s t u)

push_all-append :
    (s t : Text) (r : Text × List Text) → push_all (s ++ t) r ≡ push_all s (push_all t r)
push_all-append [] t r = refl
push_all-append (c ∷ s) t r = ap (push c) (push_all-append s t r)

-- A literal is one piece of a field, whatever stands in it.
scan_fields-literal :
    (s t : Text)
    → starts_with b'\'' t ≡ false
    → scan_fields false (literal s ++ t) ≡ push_all (literal s) (scan_fields false t)
unfolding scan_fields
scan_fields-literal s t h =
    ap (λ u. push b'\'' (scan_fields true u)) (append_assoc (escape s) (b'\'' ∷ []) t)
    ∙ ap (push b'\'') (scan_fields-escape s (b'\'' ∷ t))
    ∙ ap (λ r. push b'\'' (push_all (escape s) r)) (scan_fields-close t h)
    ∙ sym (ap (push b'\'') (push_all-append (escape s) (b'\'' ∷ []) (scan_fields false t)))

-- The fields of a row, with commas between them.
abbrev pub render_fields : Text → List Text → Text
render_fields s [] = literal s
render_fields s (u ∷ us) = literal s ++ b',' ∷ render_fields u us

push_all-nil : (s : Text) (fs : List Text) → push_all s ([], fs) ≡ (s, fs)
push_all-nil [] fs = refl
push_all-nil (c ∷ s) fs = ap (push c) (push_all-nil s fs)

pub append_nil : (s : Text) → s ++ [] ≡ s
append_nil [] = refl
append_nil (c ∷ s) = ap (λ r. c ∷ r) (append_nil s)

pub scan_fields-render :
    (s : Text) (us : List Text)
    → scan_fields false (render_fields s us) ≡ (literal s, map literal us)
unfolding scan_fields
scan_fields-render s [] =
    ap (scan_fields false) (sym (append_nil (literal s)))
    ∙ scan_fields-literal s [] refl
    ∙ push_all-nil (literal s) []
scan_fields-render s (u ∷ us) =
    scan_fields-literal s (b',' ∷ render_fields u us) refl
    ∙ ap (λ r. push_all (literal s) (comma_before r)) (scan_fields-render u us)
    ∙ push_all-nil (literal s) (literal u ∷ map literal us)
