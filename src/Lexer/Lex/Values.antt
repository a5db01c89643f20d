-- ===== src/Lexer/Lex/Values.antt =====
-- The value of a decimal integer that `Lex` returns.
use native.Mathlib.Nat.{le_trans}
use u_lang.Prelude.{
  ℕ, ◌+◌, ◌^◌, ◌<◌, ◌≡◌, refl, ◌∙◌, ◌&&◌, ◌||◌, true, false, List, ◌∷◌, length, All, take_while,
  drop_while, arith, ◌==◌,
}
use u_lang.Prelude.Ctype.{isdigit, isxdigit}
use u_lang.Outcome.{ok}
use u_lang.Basic.Stream.{Utf8, IsLawful}
use u_lang.Basic.TokenKinds.{integer_constant}
use u_lang.Lexer.Token.{Numerals, int_token}
use u_lang.Lexer.State.{Lexer, location}
use u_lang.Lexer.State.Ahead.{head_or_zero, At}
use u_lang.Lexer.Number.{intpart, done, to_char, is_int_char, next_state, bit_estimate}
use u_lang.Lexer.Number.Digits.{digits}
use u_lang.Lexer.Number.Widths.{bit_estimate-fits}
use u_lang.Lexer.Number.Values.{
  digit_value, is_digit_of, number_value, IsExact, number_value-bound, digits-take_while,
}
use u_lang.Lexer.Lex.{lex}
use u_lang.Lexer.Lex.Loops.{Left}
use u_lang.Lexer.Lex.Numbers.{digits_location, number_text, convert_int-some, lex-decimal}

isdigit-is_digit_of : (d : ℕ) → isdigit d ≡ true → is_digit_of 10 (to_char d) ≡ true
unfolding isdigit isxdigit is_digit_of digit_value
isdigit-is_digit_of d h = ground (arith, h)

module _ {F I : Type 0} (ap' : Numerals F I) (utf8 : Utf8) (value_of : I → ℕ) where
  -- With a lawful decoder, integers of LLVM that are exact where they are wide enough, two rounds
  -- more than there are characters behind the digit, and fewer than 2 ^ 26 - 1 of these: at a digit
  -- `Lex` returns an integer whose value is, in base 10, that of the digits that stand ahead,
  -- without the underscores, if no dot and no exponent follows and `0x` and `0b` do not stand
  -- there. Its location counts the digits only, and the lexer is left behind them.
  pub lex-number_value :
      (fuel d : ℕ) (cs : List ℕ) (l : Lexer)
      → IsLawful utf8
      → IsExact ap' value_of
      → length cs + 1 < fuel
      → length cs + 1 < 2 ^ 26
      → isdigit d ≡ true
      → (d == b'0' && (head_or_zero cs == b'x' || head_or_zero cs == b'b')) ≡ false
      → next_state 10 intpart (head_or_zero (drop_while (is_int_char 10) cs)) ≡ done
      → At utf8 l (d ∷ cs)
      → (v : I) × (l' : Lexer) × (lex ap' utf8 fuel l
          ≡ ok (
            int_token ap' integer_constant (digits_location (location l) (number_text 10 d cs)) v,
            l',
          ))
        × (value_of v ≡ number_value 10 (number_text 10 d cs))
        × Left utf8 l (drop_while (is_int_char 10) cs) l'
  lex-number_value fuel d cs l law numbers room low digit no_prefix stop a =
      let (all, short) = digits-take_while cs in
      let num = number_text 10 d cs in
      let valid : All (is_digit_of 10) num = (isdigit-is_digit_of d digit, all) in
      let fits = (bit_estimate-fits (length num) (omega (arith, short, low))).0 in
      let (v, made, same) =
        numbers.exact (bit_estimate (length num)) 10 (to_char d)
          (digits (take_while (is_int_char 10) cs)) refl valid
          (le_trans (number_value-bound 10 num valid) fits) in
      let (l', e, left) = lex-decimal ap' utf8 fuel d cs l law room digit no_prefix stop a in
      (
        v,
        l',
        e ∙ convert_int-some ap' utf8 num (digits_location (location l) num) 10 v l' made,
        same,
        left,
      )
