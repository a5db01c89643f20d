-- ===== src/Lexer/Lex/Reals.antt =====
-- `Lex` at a number with a fraction.
use u_lang.Prelude.{
  ℕ, zero, suc, ◌+◌, ◌<◌, ◌≡◌, refl, ◌∙◌, ◌&&◌, ◌||◌, true, false, List, [], ◌∷◌, ◌++◌, length,
  take_while, drop_while, arith, ◌==◌,
}
use u_lang.Prelude.Ctype.{isdigit}
use u_lang.Basic.Stream.{Utf8, IsLawful}
use u_lang.Lexer.Token.{Numerals}
use u_lang.Lexer.State.{Lexer, location}
use u_lang.Lexer.State.Ahead.{head_or_zero, Same-trans, cur_char-At, At}
use u_lang.Lexer.Number.{
  fraction, done, to_char, is_int_char, is_fraction_char, next_state, convert_float, number_token,
}
use u_lang.Lexer.Number.Digits.{digits}
use u_lang.Lexer.Number.Fractions.{number_loop-fraction}
use u_lang.Lexer.Lex.{lex}
use u_lang.Lexer.Lex.Loops.{Left}
use u_lang.Lexer.Lex.Numbers.{digits_location, lex-digit, number_prefix-none}

module _ {F I : Type 0} (ap' : Numerals F I) (utf8 : Utf8) where
  -- With a lawful decoder and five rounds more than there are characters behind the digit: at a
  -- digit, where `0x` and `0b` do not stand, a dot follows the digits, neither a dot nor a closing
  -- parenthesis follows the dot, and no exponent follows the fraction, `Lex` converts the text of
  -- the digits, the dot and the digits behind it, without underscores, to a real number. What it
  -- returns is what the conversion does with the lexer that is left behind the fraction.
  pub lex-fraction :
      (fuel d : ℕ) (cs : List ℕ) (f : ℕ) (fs : List ℕ) (l : Lexer)
      → IsLawful utf8
      → length cs + 4 < fuel
      → isdigit d ≡ true
      → (d == b'0' && (head_or_zero cs == b'x' || head_or_zero cs == b'b')) ≡ false
      → drop_while (is_int_char 10) cs ≡ b'.' ∷ f ∷ fs
      → (f == b'.') ≡ false
      → (f == b')') ≡ false
      → next_state 10 fraction (head_or_zero (drop_while is_fraction_char (f ∷ fs))) ≡ done
      → At utf8 l (d ∷ cs)
      → let num =
          ((to_char d ∷ digits (take_while (is_int_char 10) cs)) ++ b'.' ∷ [])
          ++ digits (take_while is_fraction_char (f ∷ fs)) in
        (l' : Lexer) × (lex ap' utf8 fuel l
          ≡ convert_float ap' num (digits_location (location l) num) l')
        × Left utf8 l (drop_while is_fraction_char (f ∷ fs)) l'
  unfolding number_token
  lex-fraction zero d cs f fs l law h _ _ _ _ _ _ a = absurd (omega arith)
  lex-fraction (suc zero) d cs f fs l law h _ _ _ _ _ _ a = absurd (omega arith)
  lex-fraction (suc (suc zero)) d cs f fs l law h _ _ _ _ _ _ a = absurd (omega arith)
  lex-fraction (suc (suc (suc fuel))) d cs f fs l law h digit no_prefix dot no_dot no_close stop a =
      let (l1, p) = number_prefix-none ap' utf8 d cs l no_prefix a.ready in
      let (l2, e, t) =
        number_loop-fraction utf8 fuel d cs f fs l1 (omega arith) dot no_dot no_close stop
          p.ready in
      (
        l2,
        lex-digit ap' utf8 (suc (suc (suc fuel))) d cs l law (omega arith) digit a
            ∙ rw (cur_char-At utf8 l (d ∷ cs) a) (rw p.result (rw e refl)),
        record { at = t.at; same = Same-trans p.same t.same },
      )
