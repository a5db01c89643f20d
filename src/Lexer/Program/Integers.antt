-- ===== src/Lexer/Program/Integers.antt =====
-- What one call of `Lex` makes of a decimal or hexadecimal integer with a space behind it.
use mathlib.Core.Path.{subst}
use u_lang.Prelude.{
  ℕ, ◌+◌, ◌<◌, ◌≡◌, refl, ◌∙◌, false, ◌||◌, List, [], ◌∷◌, ◌++◌, length, All, arith, ◌==◌,
}
use u_lang.Basic.Stream.{Utf8, IsLawful}
use u_lang.Lexer.Token.{Numerals}
use u_lang.Lexer.State.{Lexer, location}
use u_lang.Lexer.State.Ahead.{head_or_zero, At}
use u_lang.Prelude.Ctype.{isdigit, isxdigit}
use u_lang.Lexer.Number.{to_char, is_int_char, next_state}
use u_lang.Lexer.Number.Digits.{digits}
use u_lang.Lexer.Lex.Numbers.{digits_location, convert_int-some, lex-decimal, lex-hexadecimal}
use u_lang.Lexer.Program.Spaces.{take_while-append, drop_while-append, Lexes}
use u_lang.Lexer.Program.{decimal, hexadecimal, IsItem, item_token}

pub is_int_char-space : (base : ℕ) → is_int_char base b' ' ≡ false
unfolding is_int_char isdigit isxdigit
is_int_char-space base = ground arith

head-digits :
    (ds rest : List ℕ)
    → All (is_int_char 10) ds
    → (head_or_zero (ds ++ b' ' ∷ rest) == b'x' || head_or_zero (ds ++ b' ' ∷ rest) == b'b') ≡ false
unfolding is_int_char isdigit
head-digits [] rest h = refl
head-digits (d ∷ ds) rest h = ground (arith, h.0)

module _ {F I : Type 0} (ap' : Numerals F I) (utf8 : Utf8) where
  pub lex-decimal_item :
      (fuel d : ℕ) (ds rest : List ℕ) (l : Lexer)
      → IsLawful utf8
      → length (ds ++ b' ' ∷ rest) + 1 < fuel
      → IsItem ap' (decimal d ds)
      → At utf8 l (d ∷ ds ++ b' ' ∷ rest)
      → Lexes ap' utf8 fuel (item_token ap' utf8 (decimal d ds)) (b' ' ∷ rest) l
  unfolding next_state
  lex-decimal_item fuel d ds rest l law h (digit, chars, (v, exact)) a =
      let t = take_while-append (is_int_char 10) ds b' ' rest chars (is_int_char-space 10) in
      let b = drop_while-append (is_int_char 10) ds b' ' rest chars (is_int_char-space 10) in
      let (l', r, left) =
        lex-decimal ap' utf8 fuel d (ds ++ b' ' ∷ rest) l law h digit
          (ground (arith, head-digits ds rest chars)) (rw b refl) a in
      (
        digits_location (location l) (to_char d ∷ digits ds),
        l',
        rw t at r
            ∙ convert_int-some ap' utf8 (to_char d ∷ digits ds)
                (digits_location (location l) (to_char d ∷ digits ds)) 10 v l' exact
            ∙ rw exact refl,
        subst (At utf8 l') b left.at,
      )

  pub lex-hexadecimal_item :
      (fuel d : ℕ) (ds rest : List ℕ) (l : Lexer)
      → IsLawful utf8
      → length (ds ++ b' ' ∷ rest) + 1 < fuel
      → IsItem ap' (hexadecimal d ds)
      → At utf8 l (b'0' ∷ b'x' ∷ d ∷ ds ++ b' ' ∷ rest)
      → Lexes ap' utf8 fuel (item_token ap' utf8 (hexadecimal d ds)) (b' ' ∷ rest) l
  lex-hexadecimal_item fuel d ds rest l law h (digit, chars, (v, exact)) a =
      let t = take_while-append (is_int_char 16) ds b' ' rest chars (is_int_char-space 16) in
      let b = drop_while-append (is_int_char 16) ds b' ' rest chars (is_int_char-space 16) in
      let (l', r, left) = lex-hexadecimal ap' utf8 fuel d (ds ++ b' ' ∷ rest) l law h a in
      (
        digits_location (location l) (to_char d ∷ digits ds),
        l',
        rw t at r
            ∙ convert_int-some ap' utf8 (to_char d ∷ digits ds)
                (digits_location (location l) (to_char d ∷ digits ds)) 16 v l' exact
            ∙ rw exact refl,
        subst (At utf8 l') b left.at,
      )
