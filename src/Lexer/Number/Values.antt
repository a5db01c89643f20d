-- ===== src/Lexer/Number/Values.antt =====
-- The number that a text of digits stands for, and what `llvm::APInt` makes of it.
use native.Mathlib.Nat.{pow-zero, pow-suc, mul-le-mul_right}
use u_lang.Prelude.{
  ℕ, suc, ◌+◌, ◌-◌, ◌*◌, ◌^◌, ◌≤◌, ◌<◌, ◌≡◌, Bool, true, false, ◌&&◌, ◌||◌, if◌then◌else◌, List, [],
  ◌∷◌, Bytes, some, length, All, take_while, arith, ◌==◌, leb, ltb, Bool-cases, inl, inr,
}
use u_lang.Prelude.Ctype.{isdigit, isxdigit}
use u_lang.Lexer.Token.{Numerals}
use u_lang.Lexer.Number.{is_int_char, to_char}
use u_lang.Lexer.Number.Digits.{digits}

unfoldable pub digit_value : ℕ → ℕ
digit_value c = if leb c 57 then c - 48 else if leb c 70 then c - 55 else c - 87

unfoldable pub is_digit_of : ℕ → ℕ → Bool
unfolding isxdigit digit_value
is_digit_of base c = isxdigit c && ltb (digit_value c) base

-- The number of a text in a base.
unfoldable pub number_value : ℕ → Bytes → ℕ
unfolding digit_value
number_value base [] = 0
number_value base (c ∷ num) = digit_value c * base ^ length num + number_value base num

-- The bases that the constructor of an `APInt` takes.
abbrev is_radix : ℕ → Bool
is_radix base = base == 2 || (base == 8 || (base == 10 || (base == 16)))

-- What the constructor promises: of a text of digits whose number has no more bits than the
-- width, it makes that number.
pub record IsExact {F I : Type 0} (ap : Numerals F I) (value_of : I → ℕ) : Type 0 where
  pub exact :
      (bits base c : ℕ) (num : Bytes)
      → is_radix base ≡ true
      → All (is_digit_of base) (c ∷ num)
      → number_value base (c ∷ num) < 2 ^ bits
      → (v : I) × (ap.int_of_digits bits (c ∷ num) base ≡ some v)
        × (value_of v ≡ number_value base (c ∷ num))

-- A text of digits stands for less than the power of the base that has one digit more.
pub number_value-bound :
    (base : ℕ) (num : Bytes)
    → All (is_digit_of base) num
    → number_value base num < base ^ length num
unfolding number_value is_digit_of
number_value-bound base [] h = omega (arith, pow-zero base)
number_value-bound base (c ∷ num) (here, rest) =
    let small : suc (digit_value c) ≤ base = ground (arith, here) in
    grind (
      arith,
      number_value-bound base num rest,
      pow-suc base (length num),
      mul-le-mul_right (base ^ length num) small,
    )

int_char-digit :
    (c : ℕ) → is_int_char 10 c ≡ true → (c == b'_') ≡ false → is_digit_of 10 (to_char c) ≡ true
unfolding is_int_char is_digit_of digit_value isxdigit isdigit
int_char-digit c h other = ground (arith, h, other)

-- The digits of a decimal integer are digits, and no more than its characters.
pub digits-take_while :
    (cs : List ℕ)
    → All (is_digit_of 10) (digits (take_while (is_int_char 10) cs))
      × (length (digits (take_while (is_int_char 10) cs)) ≤ length cs)
unfolding digits take_while
digits-take_while [] = (tt, omega arith)
digits-take_while (c ∷ cs) =
    let (all, short) = digits-take_while cs in
    elim (Bool-cases (is_int_char 10 c)) [
      | inr last ↦ rw last (tt, omega arith)
      | inl more ↦ elim (Bool-cases (c == b'_')) [
        | inl skipped ↦ rw (more, skipped) (all, omega (arith, short))
        | inr other ↦ rw (more, other) ((int_char-digit c more other, all), omega (arith, short))
      ]
    ]
