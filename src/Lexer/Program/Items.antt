-- ===== src/Lexer/Program/Items.antt =====
-- What one call of `Lex` makes of an item with a space behind it.
use mathlib.Core.Path.{subst}
use u_lang.Prelude.{
  ℕ, ◌+◌, ◌≤◌, ◌<◌, ◌≡◌, refl, sym, ap, ◌∙◌, false, List, [], ◌∷◌, ◌++◌, append_assoc, Bytes,
  Option, none, some, length, length-append, All, arith, ◌==◌, Bool-cases, inl, inr,
}
use u_lang.Outcome.{ok}
use u_lang.Basic.SourceLocation.{SourceLocation, no_location}
use u_lang.Basic.Stream.{Utf8, IsLawful, is_ascii}
use u_lang.Basic.TokenKinds.{
  TokenKind, get_punctuator_spelling, minus, l_square, r_square, amp, ampamp, pipe, pipepipe,
}
use u_lang.Lexer.Token.{Numerals}
use u_lang.Lexer.State.{Lexer, location}
use u_lang.Lexer.State.Ahead.{At}
use u_lang.Basic.PunctuatorTable
use u_lang.Basic.PunctuatorTable.{punctuator_table}
use u_lang.Basic.IdentifierTable
use u_lang.Basic.IdentifierTable.{IdentifierInfo, identifier_table}
use u_lang.Lexer.Text.{widen}
use u_lang.Lexer.Text.Printed.{escape_char, escape_text}
use u_lang.Lexer.Text.RoundTrip.{literal}
use u_lang.Lexer.Lex.Punctuators.{lex-get_punctuator_spelling}
use u_lang.Lexer.Lex.Strings.{lex-escape_text}
use u_lang.Lexer.Lex.{word_token, span, is_space, is_identifier_char}
use u_lang.Lexer.Lex.Tokens.{lex-identifier, lex-closed_comment}
use u_lang.Lexer.Lex.Ends.{lex-eol}
use u_lang.Lexer.Lex.AnyTypes.{lex-closes_any_type}
use u_lang.Lexer.Program.Spaces.{take_while-append, drop_while-append, Lexes}
use u_lang.Lexer.Program.{
  Item, word, decimal, hexadecimal, real, punctuator, quoted, any_type, comment_line, line_end,
  IsItem, print_item, item_token, placed,
}
use u_lang.Lexer.Program.Reals.{lex-real_item}
use u_lang.Lexer.Program.Integers.{lex-decimal_item, lex-hexadecimal_item}

-- The punctuator table holds no spelling with a space behind it.
abbrev NoLonger : Option Bytes → Type 0
NoLonger none = Unit
NoLonger (some s) = PunctuatorTable.get punctuator_table (s ++ b' ' ∷ []) ≡ none

is_identifier_char-space : is_identifier_char b' ' ≡ false
unfolding is_identifier_char is_space
is_identifier_char-space = refl

no_longer : (k : TokenKind) → NoLonger (get_punctuator_spelling k)
unfolding get_punctuator_spelling PunctuatorTable.get PunctuatorTable.add_punctuators
no_longer minus = refl
no_longer l_square = refl
no_longer r_square = refl
no_longer amp = refl
no_longer pipe = refl
no_longer ampamp = refl
no_longer pipepipe = refl
no_longer _ = tt

-- What is printed of a text is no shorter than the text.
length-escape_text : (s : List ℕ) → length s ≤ length (escape_text s)
unfolding escape_text escape_char
length-escape_text [] = omega arith
length-escape_text (c ∷ s) = ground (arith, length-escape_text s)

module _ {F I : Type 0} (ap' : Numerals F I) (utf8 : Utf8) where
  pub placed-word_token :
      (w : SourceLocation) (s : Bytes) (o : Option IdentifierInfo)
      → placed w (word_token ap' utf8 no_location s o) ≡ word_token ap' utf8 w s o
  placed-word_token w s none = refl
  placed-word_token w s (some info) = refl

  pub placed-literal :
      (w : SourceLocation) (c : ℕ) (s : List ℕ)
      → placed w (literal ap' no_location (c ∷ s) (c ∷ s)) ≡ literal ap' w (c ∷ s) (c ∷ s)
  placed-literal w c s = elim (Bool-cases (length (c ∷ s) == 1)) [
    | inl one ↦ rw one refl
    | inr more ↦ rw more refl
  ]

  lex-word :
      (fuel c : ℕ) (cs rest : List ℕ) (l : Lexer)
      → IsLawful utf8
      → length (cs ++ b' ' ∷ rest) < fuel
      → IsItem ap' (word c cs)
      → At utf8 l (c ∷ cs ++ b' ' ∷ rest)
      → Lexes ap' utf8 fuel (item_token ap' utf8 (word c cs)) (b' ' ∷ rest) l
  lex-word fuel c cs rest l law h (start, ascii, chars) a =
      let e = take_while-append is_identifier_char cs b' ' rest chars is_identifier_char-space in
      let d = drop_while-append is_identifier_char cs b' ' rest chars is_identifier_char-space in
      let (l', r, t) =
        lex-identifier ap' utf8 fuel c (cs ++ b' ' ∷ rest) l law h start
          (subst (λ s. All is_ascii (c ∷ s)) (sym e) ascii) a in
      (
        span (location l) (length (c ∷ cs)) 1,
        l',
        rw e at r
            ∙ ap (λ t. ok (t, l'))
                (sym (
                  placed-word_token (span (location l) (length (c ∷ cs)) 1) (c ∷ cs)
                    (IdentifierTable.get identifier_table (c ∷ cs)))),
        subst (At utf8 l') d t.at,
      )

  lex-comment_line :
      (fuel : ℕ) (body rest : List ℕ) (l : Lexer)
      → IsLawful utf8
      → length body < fuel
      → IsItem ap' (comment_line body)
      → At utf8 l (print_item (comment_line body) ++ b' ' ∷ rest)
      → Lexes ap' utf8 fuel (item_token ap' utf8 (comment_line body)) (b' ' ∷ rest) l
  lex-comment_line fuel body rest l law h (ascii, chars) a =
      let split = append_assoc body (b'\n' ∷ []) (b' ' ∷ rest) in
      let (l', r, t) =
        lex-closed_comment ap' utf8 fuel body (b' ' ∷ rest) body l chars h (law.ascii body ascii)
          (subst (λ s. At utf8 l (b'/' ∷ b'/' ∷ s)) split a) in
      (widen (widen (location l) (length body)) 1, l', r, t.at)

  lex-quoted :
      (fuel c : ℕ) (s rest : List ℕ) (l : Lexer)
      → IsLawful utf8
      → length s + 1 < fuel
      → IsItem ap' (quoted c s)
      → At utf8 l (print_item (quoted c s) ++ rest)
      → Lexes ap' utf8 fuel (item_token ap' utf8 (quoted c s)) rest l
  lex-quoted fuel c s rest l law h ascii a =
      let split = append_assoc (escape_text (c ∷ s)) (b'"' ∷ []) rest in
      let (w, l', r, t) =
        lex-escape_text ap' utf8 fuel c s rest (c ∷ s) l law h (law.ascii (c ∷ s) ascii)
          (subst (λ (t : List ℕ). At utf8 l (b'"' ∷ t)) split a) in
      (w, l', r ∙ ap (λ t. ok (t, l')) (sym (placed-literal w c s)), t.at)

  lex-punctuator :
      (fuel : ℕ) (k : TokenKind) (rest : List ℕ) (l : Lexer)
      → IsLawful utf8
      → 3 ≤ fuel
      → IsItem ap' (punctuator k)
      → At utf8 l (print_item (punctuator k) ++ b' ' ∷ rest)
      → Lexes ap' utf8 fuel (item_token ap' utf8 (punctuator k)) (b' ' ∷ rest) l
  lex-punctuator fuel k rest l law h (s, spelled) a =
      let (l', r, t) =
        lex-get_punctuator_spelling ap' utf8 fuel k s (b' ' ∷ rest) l law h refl spelled
          (subst NoLonger spelled (no_longer k)) (rw spelled at a) in
      (span (location l) (length s + 1) 2, l', r, t.at)

  lex-any_type :
      (fuel c : ℕ) (rest : List ℕ) (l : Lexer)
      → IsLawful utf8
      → 1 < fuel
      → IsItem ap' (any_type c)
      → At utf8 l (print_item (any_type c) ++ b' ' ∷ rest)
      → Lexes ap' utf8 fuel (item_token ap' utf8 (any_type c)) (b' ' ∷ rest) l
  lex-any_type fuel c rest l law h (ascii, (no_quote, (no_slash, (no_line, _)))) a =
      let (l', r, t) =
        lex-closes_any_type ap' utf8 fuel c b' ' rest l law h ascii (ground (arith, no_quote))
          (ground (arith, no_slash)) (ground (arith, no_line)) refl a in
      (widen (location l) 1, l', r, t.at)

  lex-line_end :
      (fuel : ℕ) (rest : List ℕ) (l : Lexer)
      → IsLawful utf8
      → 0 < fuel
      → At utf8 l (b'\n' ∷ rest)
      → Lexes ap' utf8 fuel (item_token ap' utf8 line_end) rest l
  lex-line_end fuel rest l law h a =
      let (l', r, t, begins, ends) = lex-eol ap' utf8 fuel rest l law h a in (location l, l', r, t)

  -- What one call makes of an item with a space behind it.
  pub lex-print_item :
      (fuel : ℕ) (i : Item) (rest : List ℕ) (l : Lexer)
      → IsLawful utf8
      → length (print_item i ++ b' ' ∷ rest) + 4 ≤ fuel
      → IsItem ap' i
      → At utf8 l (print_item i ++ b' ' ∷ rest)
      → Lexes ap' utf8 fuel (item_token ap' utf8 i) (b' ' ∷ rest) l
  lex-print_item fuel (word c cs) rest l law h i a = lex-word fuel c cs rest l law (omega arith) i a
  lex-print_item fuel (decimal d ds) rest l law h i a =
      lex-decimal_item ap' utf8 fuel d ds rest l law (omega arith) i a
  lex-print_item fuel (hexadecimal d ds) rest l law h i a =
      lex-hexadecimal_item ap' utf8 fuel d ds rest l law (omega arith) i a
  lex-print_item fuel (real d ds f fs) rest l law h i a =
      lex-real_item ap' utf8 fuel d ds f fs rest l law (omega arith) i a
  lex-print_item fuel (punctuator k) rest l law h i a =
      lex-punctuator fuel k rest l law (omega arith) i a
  lex-print_item fuel (quoted c s) rest l law h i a =
      lex-quoted fuel c s (b' ' ∷ rest) l law
        (omega (
          arith,
          length-escape_text (c ∷ s),
          length-append (escape_text (c ∷ s)) (b'"' ∷ []),
          length-append (escape_text (c ∷ s) ++ b'"' ∷ []) (b' ' ∷ rest),
        ))
        i a
  lex-print_item fuel (any_type c) rest l law h i a =
      lex-any_type fuel c rest l law (omega arith) i a
  lex-print_item fuel (comment_line body) rest l law h i a =
      lex-comment_line fuel body rest l law
        (omega (
          arith,
          length-append body (b'\n' ∷ []),
          length-append (body ++ b'\n' ∷ []) (b' ' ∷ rest),
        ))
        i a
  lex-print_item fuel line_end rest l law h i a =
      lex-line_end fuel (b' ' ∷ rest) l law (omega arith) a
