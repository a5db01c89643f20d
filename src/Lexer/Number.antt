-- ===== src/Lexer/Number.antt =====
-- lib/Lex/Lexer.cpp: `NumberToken`, `ConvertFloat` and `ConvertInt`.
pub mod Digits
pub mod Widths
pub mod Values
pub mod Fractions
pub mod Conversion
pub mod Kept
pub mod Halting
use u_lang.Prelude.{
  ℕ, zero, suc, ◌*◌, ◌/◌, ◌%◌, ◌^◌, Bool, true, false, not, ◌&&◌, ◌||◌, Bytes, none, some, [], ◌∷◌,
  ◌++◌, ◌==◌, length, add32, add64, sub64, if◌then◌else◌,
}
use u_lang.Prelude.Ctype.{isdigit, isxdigit}
use u_lang.Outcome.{thrown, no_fuel, assertion}
use u_lang.Basic.SourceLocation.{SourceLocation, set_end_column}
use u_lang.Basic.Stream.{Utf8}
use u_lang.Basic.TokenKinds.{real_constant, integer_constant}
use u_lang.Basic.DiagnosticIds.{apreal_overflow, apreal_underflow, apreal_unknown}
use u_lang.Basic.Diagnostic.{std_string}
use u_lang.Lexer.Token.{Token, Numerals, float_token, int_token, op_ok, op_overflow, op_underflow}
use u_lang.Lexer.State.{M, pure, gets, ◌>>=◌, ◌>>◌, location, diag, next_char, peek_char, cur_char}

-- `(char) ch`.
abbrev pub to_char : ℕ → ℕ
to_char ch = ch % 256

abbrev push_digit : Bytes → ℕ → Bytes
push_digit num ch = if ch == b'_' then num else num ++ to_char ch ∷ []

-- What the integer part is made of.
unfoldable pub is_int_char : ℕ → ℕ → Bool
unfolding isdigit isxdigit
is_int_char base ch =
    (base == 10 && isdigit ch)
    || ((base == 16 && isxdigit ch) || ((base == 2 && (ch == b'0' || ch == b'1')) || ch == b'_'))

unfoldable pub is_fraction_char : ℕ → Bool
unfolding isdigit
is_fraction_char ch = isdigit ch || ch == b'_'

pub data NumberState : Type 0 where
  intpart fraction exponent done : NumberState

-- The locals of the loop.
pub record Number : Type 0 where
  pub num : Bytes
  pub is_float : Bool
  pub ch : ℕ

-- The choice of the next state, behind the `switch`.
unfoldable pub next_state : ℕ → NumberState → ℕ → NumberState
next_state base intpart ch =
    if ch == b'.' && not (base == 16)
    then fraction
    else if ch == b'E' || ch == b'e'
    then exponent
    else done
next_state base fraction ch = if ch == b'E' || ch == b'e' then exponent else done
next_state base exponent ch = if ch == b'.' && not (base == 16) then fraction else done
next_state base done ch = if ch == b'.' && not (base == 16) then fraction else done

-- `(((unsigned) num.size() * 64) / 19) + 2u`.
abbrev pub bit_estimate : ℕ → ℕ
bit_estimate size = add32 (size % 2 ^ 32 * 64 % 2 ^ 32 / 19) 2

module _ (utf8 : Utf8) where
  -- `while (test(ch)) { if (ch != '_') num += (char) ch; ch = NextChar(); }`.
  unfoldable pub take_digits : (ℕ → Bool) → ℕ → Bytes → ℕ → M (Bytes × ℕ)
  unfolding next_char
  take_digits test zero num ch l = if test ch then no_fuel else pure (num, ch) l
  take_digits test (suc fuel) num ch l =
      let rest = (do ch' ← next_char utf8; take_digits test fuel (push_digit num ch) ch') in
      (if test ch then rest else pure (num, ch)) l

  -- `case Intpart`.
  int_part : ℕ → ℕ → Number → M Number
  unfolding take_digits is_int_char
  int_part fuel base n = do
    ch ← next_char utf8
    r ← take_digits (is_int_char base) fuel n.num ch
    pure (record n { num = r.0; ch = r.1 })

  -- `case Fraction`: nothing is read before a second dot or a closing parenthesis.
  fraction_part : ℕ → Number → M Number
  unfolding take_digits is_fraction_char
  fraction_part fuel n =
      if n.ch == b'.'
      then (do
        second ← peek_char utf8
        third ← (if second == b'.' then pure second else peek_char utf8)
        if second == b'.' || third == b')' then pure n else do
          ch ← next_char utf8
          r ← take_digits is_fraction_char fuel (n.num ++ to_char n.ch ∷ []) ch
          pure (record { num = r.0; is_float = true; ch = r.1 }))
      else λ l. thrown assertion

  -- `case Exponent`, with an optional sign.
  exponent_part : ℕ → Number → M Number
  unfolding take_digits isdigit
  exponent_part fuel n =
      let mark = n.num ++ to_char n.ch ∷ [] in
      if n.ch == b'e' || n.ch == b'E'
      then (do
        sign ← next_char utf8
        let signed = sign == b'+' || sign == b'-'
        ch ← (if signed then next_char utf8 else pure sign)
        r ← take_digits isdigit fuel (if signed then mark ++ to_char sign ∷ [] else mark) ch
        pure (record { num = r.0; is_float = true; ch = r.1 }))
      else λ l. thrown assertion

  unfoldable pub number_part : ℕ → ℕ → NumberState → Number → M Number
  unfolding int_part fraction_part exponent_part
  number_part fuel base intpart n = int_part fuel base n
  number_part fuel base fraction n = fraction_part fuel n
  number_part fuel base exponent n = exponent_part fuel n
  number_part fuel base done n = pure n

  abbrev is_done : NumberState → Bool
  is_done done = true
  is_done _ = false

  -- `while (state != Done)`.
  unfoldable pub number_loop : ℕ → ℕ → NumberState → Number → M Number
  unfolding number_part next_state
  number_loop zero base state n = if is_done state then pure n else λ l. no_fuel
  number_loop (suc fuel) base state n =
      let rest = (do
        n' ← number_part fuel base state n
        number_loop fuel base (next_state base state n'.ch) n') in
      if is_done state then pure n else rest

  -- The prefixes `0x` and `0b`: the base, and the character behind them.
  unfoldable pub number_prefix : ℕ → M (ℕ × ℕ)
  unfolding next_char peek_char
  number_prefix ch =
      if ch == b'0'
      then (do
        mark ← peek_char utf8
        if mark == b'x' then (do next_char utf8; c ← next_char utf8; pure (16, c)) else do
          mark' ← peek_char utf8
          if mark' == b'b'
              then (do next_char utf8; c ← next_char utf8; pure (2, c))
              else pure (10, ch))
      else pure (10, ch)

module _ {F I : Type 0} (ap : Numerals F I) where
  -- `ConvertFloat`.
  unfoldable pub convert_float : Bytes → SourceLocation → M (Token F I)
  unfolding diag
  convert_float num w =
      let result = ap.convert_from_string num in
      do
        (if result.0 == op_overflow
            then diag w apreal_overflow (std_string num ∷ [])
            else if result.0 == op_underflow
            then diag w apreal_underflow (std_string num ∷ [])
            else if result.0 == op_ok
            then pure tt
            else diag w apreal_unknown [])
        pure (float_token ap real_constant w result.1)

  -- `ConvertInt`.
  unfoldable pub convert_int : Bytes → SourceLocation → ℕ → M (Token F I)
  convert_int num w base = elim (ap.int_of_digits (bit_estimate (length num)) num base) [
    | none ↦ λ l. thrown assertion
    | some v ↦ pure (int_token ap integer_constant w v)
  ]

  -- `NumberToken`.
  unfoldable pub number_token : Utf8 → ℕ → M (Token F I)
  unfolding cur_char number_prefix number_loop convert_float convert_int
  number_token utf8 fuel = do
    ch ← cur_char utf8
    w ← gets location
    p ← number_prefix utf8 ch
    n ←
        number_loop utf8 fuel p.0 intpart
          (record { num = to_char p.1 ∷ []; is_float = false; ch = p.1 })
    let w' = set_end_column w (sub64 (add64 w.range.end.column (length n.num)) 1)
    if n.is_float then convert_float n.num w' else convert_int n.num w' p.0
