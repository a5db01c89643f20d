-- ===== src/Lexer/Lex/Strings.antt =====
-- `Lex` at a quotation mark.
use u_lang.Prelude.{
  ℕ, zero, suc, ◌+◌, ◌<◌, ◌≡◌, refl, ap, ◌∙◌, false, List, [], ◌∷◌, ◌++◌, Bytes, append_assoc,
  length, arith, ◌==◌,
}
use u_lang.Outcome.{ok}
use u_lang.Basic.SourceLocation.{SourceLocation}
use u_lang.Basic.Stream.{Utf8, IsLawful}
use u_lang.Basic.PunctuatorTable
use u_lang.Basic.TokenKinds.{unknown}
use u_lang.Lexer.Token.{Numerals}
use u_lang.Lexer.State.{Lexer, location}
use u_lang.Lexer.State.Ahead.{head_or_zero, Same-trans, next_char-Advanced, peek_char-Peeked, At}
use u_lang.Lexer.Text.Printed.{escape_char, escape_text}
use u_lang.Lexer.Text.RoundTrip.{literal, string_token-escape_text}
use u_lang.Lexer.Lex.{is_space, long_quote, lex_punctuator, lex_rest, lex_token, lex}
use u_lang.Lexer.Lex.Loops.{Left, punctuator_loop-none}
use u_lang.Lexer.Lex.Tokens.{lex-no_space}

-- What is printed does not begin with a quotation mark.
head-escape_char : (c : ℕ) (cs : List ℕ) → (head_or_zero (escape_char c ++ cs) == b'"') ≡ false
unfolding escape_char
head-escape_char c cs = ground arith

head-escape_text :
    (c : ℕ) (s cs : List ℕ) → (head_or_zero (escape_text (c ∷ s) ++ cs) == b'"') ≡ false
unfolding escape_text
head-escape_text c s cs =
    ap (λ (t : List ℕ). head_or_zero t == b'"') (append_assoc (escape_char c) (escape_text s) cs)
    ∙ head-escape_char c (escape_text s ++ cs)

module _ {F I : Type 0} (ap' : Numerals F I) (utf8 : Utf8) where
  lex-quote :
      (fuel : ℕ) (cs : List ℕ) (l : Lexer)
      → IsLawful utf8
      → At utf8 l (b'"' ∷ cs)
      → lex ap' utf8 (suc fuel) l ≡ lex_rest ap' utf8 (suc fuel) (location l) b'"' l
  unfolding is_space lex_token lex_punctuator PunctuatorTable.get PunctuatorTable.add_punctuators
  lex-quote fuel cs l law a =
      lex-no_space ap' utf8 (suc fuel) (b'"' ∷ cs) l refl a
      ∙ rw
          (punctuator_loop-none utf8 fuel (b'"' ∷ []) unknown b'"' l (b'"' ∷ [])
            (law.ascii (b'"' ∷ []) (refl, tt)) refl)
          refl

  -- With a lawful decoder and more rounds than the text has characters: a text of at least one
  -- character that encodes to `str` is read back from between quotation marks as it is printed.
  -- `Lex` returns its token, a rune if it is one character and a string if it is more, and is left
  -- behind the closing mark. The location of the token is not stated.
  pub lex-escape_text :
      (fuel c : ℕ) (s rest : List ℕ) (str : Bytes) (l : Lexer)
      → IsLawful utf8
      → length s + 1 < fuel
      → utf8.utf32to8 (c ∷ s) ≡ ok str
      → At utf8 l (b'"' ∷ (escape_text (c ∷ s) ++ b'"' ∷ rest))
      → (w : SourceLocation) × (l' : Lexer) × (lex ap' utf8 fuel l
          ≡ ok (literal ap' w (c ∷ s) str, l'))
        × Left utf8 l rest l'
  unfolding lex_rest long_quote
  lex-escape_text zero c s rest str l law h u a = absurd (omega arith)
  lex-escape_text (suc fuel) c s rest str l law h u a =
      let (l1, k) = peek_char-Peeked utf8 l (escape_text (c ∷ s) ++ b'"' ∷ rest) a.ready in
      let single : (head_or_zero (escape_text (c ∷ s) ++ b'"' ∷ rest) == b'"') ≡ false =
        head-escape_text c s (b'"' ∷ rest) in
      let (w, l2, e, at, same) =
        string_token-escape_text utf8 ap' (suc fuel) (c ∷ s) rest str l1 (omega arith) u k.ready in
      (
        w,
        l2,
        lex-quote fuel _ l law a ∙ rw k.result (rw single e),
        record { at = at; same = Same-trans k.same same },
      )

  -- With a lawful decoder and more rounds than the text `c ∷ s` has characters, which encodes to
  -- `str`: an empty string literal in front of that text and a further mark is not read as one.
  -- Its second mark is taken for the opening mark, and the token holds the text, up to the further
  -- mark, behind which `Lex` is left. The location of the token is not stated.
  pub lex-escape_text_empty :
      (fuel c : ℕ) (s rest : List ℕ) (str : Bytes) (l : Lexer)
      → IsLawful utf8
      → length s + 1 < fuel
      → utf8.utf32to8 (c ∷ s) ≡ ok str
      → At utf8 l (b'"' ∷ b'"' ∷ (escape_text (c ∷ s) ++ b'"' ∷ rest))
      → (w : SourceLocation) × (l' : Lexer) × (lex ap' utf8 fuel l
          ≡ ok (literal ap' w (c ∷ s) str, l'))
        × Left utf8 l rest l'
  unfolding lex_rest long_quote
  lex-escape_text_empty zero c s rest str l law h u a = absurd (omega arith)
  lex-escape_text_empty (suc fuel) c s rest str l law h u a =
      let ahead = escape_text (c ∷ s) ++ b'"' ∷ rest in
      let (l1, k) = peek_char-Peeked utf8 l (b'"' ∷ ahead) a.ready in
      let (l2, n) = next_char-Advanced utf8 l1 (b'"' ∷ ahead) k.ready in
      let (l3, m) = peek_char-Peeked utf8 l2 ahead n.ready in
      let single : (head_or_zero ahead == b'"') ≡ false = head-escape_text c s (b'"' ∷ rest) in
      let (w, l4, e, at, same) =
        string_token-escape_text utf8 ap' (suc fuel) (c ∷ s) rest str l3 (omega arith) u m.ready in
      (
        w,
        l4,
        lex-quote fuel _ l law a ∙ rw k.result (rw n.result (rw m.result (rw single e))),
        record { at = at; same = Same-trans (Same-trans (Same-trans k.same n.same) m.same) same },
      )
