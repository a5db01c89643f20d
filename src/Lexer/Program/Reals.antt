-- ===== src/Lexer/Program/Reals.antt =====
-- What one call of `Lex` makes of a number with a fraction and a space behind it.
use mathlib.Core.Path.{subst}
use u_lang.Prelude.{
  ℕ, ◌+◌, ◌<◌, ◌≡◌, refl, ◌∙◌, true, false, ◌||◌, List, [], ◌∷◌, ◌++◌, append_assoc, Bytes, length,
  All, arith, ◌==◌,
}
use u_lang.Outcome.{ok}
use u_lang.Basic.SourceLocation.{SourceLocation}
use u_lang.Basic.Stream.{Utf8, IsLawful}
use u_lang.Basic.TokenKinds.{real_constant}
use u_lang.Lexer.Token.{Numerals, float_token, op_ok}
use u_lang.Lexer.State.{Lexer, location}
use u_lang.Lexer.State.Ahead.{head_or_zero, At}
use u_lang.Prelude.Ctype.{isdigit}
use u_lang.Lexer.Number.{is_int_char, is_fraction_char, next_state, convert_float}
use u_lang.Lexer.Lex.Numbers.{digits_location}
use u_lang.Lexer.Lex.Reals.{lex-fraction}
use u_lang.Lexer.Program.Spaces.{take_while-append, drop_while-append, Lexes}
use u_lang.Lexer.Program.{real, real_digits, print_item, IsItem, item_token}

is_fraction_char-space : is_fraction_char b' ' ≡ false
unfolding is_fraction_char isdigit
is_fraction_char-space = refl

is_int_char-dot : is_int_char 10 b'.' ≡ false
unfolding is_int_char isdigit
is_int_char-dot = refl

head-dot :
    (ds rest : List ℕ)
    → All (is_int_char 10) ds
    → (head_or_zero (ds ++ b'.' ∷ rest) == b'x' || head_or_zero (ds ++ b'.' ∷ rest) == b'b') ≡ false
unfolding is_int_char isdigit
head-dot [] rest h = refl
head-dot (d ∷ ds) rest h = ground (arith, h.0)

is_fraction_char-dot : (f : ℕ) → is_fraction_char f ≡ true → (f == b'.') ≡ false
unfolding is_fraction_char isdigit
is_fraction_char-dot f h = ground (arith, h)

is_fraction_char-close : (f : ℕ) → is_fraction_char f ≡ true → (f == b')') ≡ false
unfolding is_fraction_char isdigit
is_fraction_char-close f h = ground (arith, h)

module _ {F I : Type 0} (ap' : Numerals F I) (utf8 : Utf8) where
  convert_float-op_ok :
      (num : Bytes) (w : SourceLocation) (l : Lexer)
      → (ap'.convert_from_string num).0 ≡ op_ok
      → convert_float ap' num w l
        ≡ ok (float_token ap' real_constant w (ap'.convert_from_string num).1, l)
  unfolding convert_float
  convert_float-op_ok num w l exact = rw exact refl

  pub lex-real_item :
      (fuel d : ℕ) (ds : List ℕ) (f : ℕ) (fs rest : List ℕ) (l : Lexer)
      → IsLawful utf8
      → length (print_item (real d ds f fs) ++ b' ' ∷ rest) + 3 < fuel
      → IsItem ap' (real d ds f fs)
      → At utf8 l (print_item (real d ds f fs) ++ b' ' ∷ rest)
      → Lexes ap' utf8 fuel (item_token ap' utf8 (real d ds f fs)) (b' ' ∷ rest) l
  unfolding next_state
  lex-real_item fuel d ds f fs rest l law h (digit, chars, behind, exact) a =
      let tail = f ∷ fs ++ b' ' ∷ rest in
      let split = append_assoc ds (b'.' ∷ f ∷ fs) (b' ' ∷ rest) in
      let room = rw split at h in
      let t = take_while-append (is_int_char 10) ds b'.' tail chars is_int_char-dot in
      let b = drop_while-append (is_int_char 10) ds b'.' tail chars is_int_char-dot in
      let t' =
        take_while-append is_fraction_char (f ∷ fs) b' ' rest behind is_fraction_char-space in
      let b' =
        drop_while-append is_fraction_char (f ∷ fs) b' ' rest behind is_fraction_char-space in
      let num = real_digits d ds f fs in
      let (l', r, left) =
        lex-fraction ap' utf8 fuel d (ds ++ b'.' ∷ tail) f (fs ++ b' ' ∷ rest) l law
          (omega (arith, room)) digit (ground (arith, head-dot ds tail chars)) b
          (is_fraction_char-dot f behind.0) (is_fraction_char-close f behind.0) (rw b' refl)
          (subst (λ s. At utf8 l (d ∷ s)) split a) in
      let converted = rw (t, t') at r in
      (
        digits_location (location l) num,
        l',
        converted ∙ convert_float-op_ok num (digits_location (location l) num) l' exact,
        subst (At utf8 l') b' left.at,
      )
