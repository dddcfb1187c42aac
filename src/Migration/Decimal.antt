-- ===== src/Migration/Decimal.antt =====
-- The fuel of `digits` is enough: what is printed stands for the number.
use backendurdubolonest.Base.{
  ℕ, zero, suc, ◌+◌, ◌-◌, ◌*◌, ◌/◌, ◌%◌, ◌<◌, ◌≡◌, refl, [], ◌∷◌, ◌++◌, Text, arith, ltb,
  Bool-cases, inl, inr,
}
use backendurdubolonest.Migration.{digits, decimal}

-- Reading a numeral from the left, after a number that was read before it.
abbrev read_from : ℕ → Text → ℕ
read_from n [] = n
read_from n (c ∷ s) = read_from (n * 10 + (c - b'0')) s

abbrev pub read_decimal : Text → ℕ
read_decimal s = read_from 0 s

read_from-snoc : (n c : ℕ) (s : Text) → read_from n (s ++ c ∷ []) ≡ read_from n s * 10 + (c - b'0')
read_from-snoc n c [] = refl
read_from-snoc n c (d ∷ s) = read_from-snoc (n * 10 + (d - b'0')) c s

-- For every fuel above the number, reading the printed digits gives the number back.
pub read_decimal-digits : (fuel n : ℕ) → n < fuel → read_decimal (digits fuel n) ≡ n
read_decimal-digits zero n h = elim h [ ]
read_decimal-digits (suc fuel) n h = elim (Bool-cases (ltb n 10)) [
  | inl small ↦ rw small (omega arith)
  | inr large ↦ rw large (
      omega (
        arith,
        read_from-snoc 0 (n % 10 + b'0') (digits fuel (n / 10)),
        read_decimal-digits fuel (n / 10) (ground (arith, large)),
      ))
]

pub read_decimal-decimal : (n : ℕ) → read_decimal (decimal n) ≡ n
unfolding decimal
read_decimal-decimal n = read_decimal-digits (suc n) n (omega arith)
