-- ===== src/Lexer/Number/Kept.antt =====
-- What the reading of a number keeps of the lexer.
use u_lang.Prelude.{length, ℕ, zero, suc, Bool, Bytes, [], ◌∷◌, if◌then◌else◌, ◌==◌, ◌||◌}
use u_lang.Basic.Stream.{Utf8}
use u_lang.Basic.SourceLocation.{SourceLocation}
use u_lang.Lexer.Token.{Numerals, op_ok, op_overflow, op_underflow}
use u_lang.Lexer.State.{Lexer, pure, ◌>>=◌, ◌>>◌, next_char, peek_char, diag}
use u_lang.Prelude.Ctype.{isdigit}
use u_lang.Basic.DiagnosticIds.{apreal_overflow, apreal_underflow, apreal_unknown}
use u_lang.Basic.Diagnostic.{std_string}
use u_lang.Lexer.State.Kept.{
  option-Keeps, Keeps, Stable, bind_from-Keeps, bind-Keeps, gets-Keeps, thrown-Keeps, no_fuel-Keeps,
  if-Keeps, if_at-Keeps, next_char-Keeps, peek_char-Keeps, cur_char-Keeps, diag-Keeps,
}
use u_lang.Lexer.Number.{
  bit_estimate, push_digit, is_int_char, is_fraction_char, next_state, take_digits, int_part,
  fraction_part, exponent_part, Number, NumberState, intpart, fraction, exponent, done, number_part,
  number_loop, number_prefix, convert_float, convert_int, number_token,
}

module _ (utf8 : Utf8) {P : Lexer → Type 0} (s : Stable utf8 P) where
  next : Keeps P (next_char utf8)
  next = next_char-Keeps utf8 s

  peek : Keeps P (peek_char utf8)
  peek = peek_char-Keeps utf8 s

  take_digits-Keeps :
      (test : ℕ → Bool) (fuel : ℕ) (num : Bytes) (ch : ℕ)
      → Keeps P (take_digits utf8 test fuel num ch)
  unfolding take_digits
  take_digits-Keeps test zero num ch = if_at-Keeps (test ch) no_fuel-Keeps gets-Keeps
  take_digits-Keeps test (suc fuel) num ch =
      if-Keeps (test ch)
        (bind-Keeps _ next λ ch'. take_digits-Keeps test fuel (push_digit num ch) ch') gets-Keeps

  two_chars-Keeps :
      (base : ℕ) → Keeps P {A = ℕ × ℕ} (do next_char utf8; c ← next_char utf8; pure (base, c))
  two_chars-Keeps base = bind-Keeps _ next λ u. bind-Keeps _ next λ c. gets-Keeps

  number_prefix-Keeps : (ch : ℕ) → Keeps P (number_prefix utf8 ch)
  unfolding number_prefix
  number_prefix-Keeps ch =
      if-Keeps _
        (bind-Keeps _ peek λ m.
          if-Keeps _ (two_chars-Keeps 16)
            (bind-Keeps _ peek λ m'. if-Keeps _ (two_chars-Keeps 2) gets-Keeps))
        gets-Keeps

  int_part-Keeps : (fuel base : ℕ) (n : Number) → Keeps P (int_part utf8 fuel base n)
  unfolding int_part
  int_part-Keeps fuel base n =
      bind-Keeps _ next
        λ ch. bind-Keeps _ (take_digits-Keeps (is_int_char base) fuel n.num ch) λ r. gets-Keeps

  fraction_part-Keeps : (fuel : ℕ) (n : Number) → Keeps P (fraction_part utf8 fuel n)
  unfolding fraction_part
  fraction_part-Keeps fuel n =
      if-Keeps _
        (bind-Keeps _ peek λ second.
          let first : Keeps P (if second == b'.' then pure second else peek_char utf8) =
            if-Keeps _ gets-Keeps peek in
          bind-Keeps _ first λ third. if-Keeps _ gets-Keeps (
            bind-Keeps _ next
              λ ch. bind-Keeps _ (take_digits-Keeps is_fraction_char fuel _ ch) λ r. gets-Keeps))
        thrown-Keeps

  exponent_part-Keeps : (fuel : ℕ) (n : Number) → Keeps P (exponent_part utf8 fuel n)
  unfolding exponent_part
  exponent_part-Keeps fuel n =
      if-Keeps _
        (bind-Keeps _ next λ sign.
          let first : Keeps P (if sign == b'+' || sign == b'-' then next_char utf8 else pure sign) =
            if-Keeps _ next gets-Keeps in
          bind-Keeps _ first
            λ ch. bind-Keeps _ (take_digits-Keeps isdigit fuel _ ch) λ r. gets-Keeps)
        thrown-Keeps

  number_part-Keeps :
      (fuel base : ℕ) (state : NumberState) (n : Number)
      → Keeps P (number_part utf8 fuel base state n)
  unfolding number_part
  number_part-Keeps fuel base intpart n = int_part-Keeps fuel base n
  number_part-Keeps fuel base fraction n = fraction_part-Keeps fuel n
  number_part-Keeps fuel base exponent n = exponent_part-Keeps fuel n
  number_part-Keeps fuel base done n = gets-Keeps

  number_loop-Keeps :
      (fuel base : ℕ) (state : NumberState) (n : Number)
      → Keeps P (number_loop utf8 fuel base state n)
  unfolding number_loop
  number_loop-Keeps zero base state n = if-Keeps _ gets-Keeps no_fuel-Keeps
  number_loop-Keeps (suc fuel) base state n = if-Keeps _ gets-Keeps (
      bind-Keeps _ (number_part-Keeps fuel base state n)
        λ n'. number_loop-Keeps fuel base (next_state base state n'.ch) n')

  module _ {F I : Type 0} (ap : Numerals F I) where
    convert_float-Keeps : (num : Bytes) (w : SourceLocation) → Keeps P (convert_float ap num w)
    unfolding convert_float
    convert_float-Keeps num w =
        let result = ap.convert_from_string num in
        let report = diag-Keeps utf8 s w in
        let told : Keeps P (
            if result.0 == op_overflow
            then diag w apreal_overflow (std_string num ∷ [])
            else if result.0 == op_underflow
            then diag w apreal_underflow (std_string num ∷ [])
            else if result.0 == op_ok
            then pure tt
            else diag w apreal_unknown []) =
          if-Keeps (result.0 == op_overflow) (report apreal_overflow (std_string num ∷ [])) (
            if-Keeps (result.0 == op_underflow) (report apreal_underflow (std_string num ∷ []))
              (if-Keeps (result.0 == op_ok) gets-Keeps (report apreal_unknown []))) in
        bind-Keeps _ told λ u. gets-Keeps

    convert_int-Keeps :
        (num : Bytes) (w : SourceLocation) (base : ℕ) → Keeps P (convert_int ap num w base)
    unfolding convert_int
    convert_int-Keeps num w base =
        option-Keeps (ap.int_of_digits (bit_estimate (length num)) num base) _ _ thrown-Keeps
          λ v. gets-Keeps

    -- `NumberToken` keeps what `GetChar` keeps.
    pub number_token-Keeps : (fuel : ℕ) → Keeps P (number_token ap utf8 fuel)
    unfolding number_token
    number_token-Keeps fuel = bind-Keeps _ (cur_char-Keeps utf8 s) λ ch.
        bind_from-Keeps _ (number_prefix-Keeps ch) λ l p.
          bind-Keeps _ (number_loop-Keeps fuel p.0 intpart _)
            λ n. if-Keeps _ (convert_float-Keeps n.num _) (convert_int-Keeps n.num _ p.0)
