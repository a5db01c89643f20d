-- ===== src/Lexer/Lex/Tokens.antt =====
-- What `Lex` makes of the characters ahead: spaces, comments, identifiers and punctuators.
use u_lang.Prelude.{
  ℕ, zero, suc, ◌≤◌, ◌<◌, ◌≡◌, refl, ◌∙◌, true, false, ◌||◌, List, [], ◌∷◌, ◌++◌, Bytes, none,
  length, take_while, drop_while, All, not, arith, ◌==◌,
}
use u_lang.Outcome.{ok, no_fuel}
use u_lang.Basic.SourceLocation.{SourceLocation}
use u_lang.Basic.Stream.{Utf8, IsLawful, is_ascii}
use u_lang.Basic.TokenKinds.{unknown, line_comment}
use u_lang.Basic.PunctuatorTable
use u_lang.Basic.PunctuatorTable.{punctuator_table}
use u_lang.Basic.IdentifierTable
use u_lang.Basic.IdentifierTable.{identifier_table}
use u_lang.Lexer.Token.{Numerals, text_token}
use u_lang.Lexer.Text.{widen}
use u_lang.Lexer.State.{Lexer, location}
use u_lang.Lexer.State.Ahead.{
  head_or_zero, tail, Same-trans, next_char-Advanced, peek_char-Peeked, cur_char-At, At,
}
use u_lang.Lexer.Lex.{
  is_space, is_identifier_start, is_identifier_char, word_token, span, lex_comment, lex_identifier,
  lex_punctuator, lex_rest, lex_token, lex,
}
use u_lang.Lexer.Lex.Loops.{
  Left, identifier_loop-take_while, comment_loop-closed, comment_loop-open, skip_spaces-drop_while,
  skip_spaces-none, punctuator_loop-none,
}

-- A character that begins no other token: no space, slash, quotation mark or punctuator.
pub record IsPlain (c : ℕ) : Type 0 where
  pub no_space : is_space c ≡ false
  pub no_slash : (c == b'/') ≡ false
  pub no_quote : ((c == b'\'') || (c == b'"')) ≡ false
  pub no_punctuator : PunctuatorTable.get punctuator_table (c ∷ []) ≡ none

-- An identifier begins with such a character, if with an ASCII one.
is_identifier_start-IsPlain : (c : ℕ) → is_identifier_start c ≡ true → is_ascii c ≡ true → IsPlain c
unfolding is_identifier_start PunctuatorTable.get PunctuatorTable.add_punctuators
is_identifier_start-IsPlain c h a = record {
  no_space = ground arith;
  no_slash = ground arith;
  no_quote = ground arith;
  no_punctuator = ground arith;
}

module _ {F I : Type 0} (ap' : Numerals F I) (utf8 : Utf8) where
  -- With as many rounds as there are spaces, `Lex` skips the spaces ahead, and what it then
  -- returns is what it makes of the first character behind them, at the location of the lexer that
  -- stands there.
  pub lex-drop_while :
      (fuel : ℕ) (cs : List ℕ) (l : Lexer)
      → length (take_while is_space cs) ≤ fuel
      → At utf8 l cs
      → (l' : Lexer) × (lex ap' utf8 fuel l
          ≡ lex_token ap' utf8 fuel (location l') (head_or_zero (drop_while is_space cs)) l')
        × Left utf8 l (drop_while is_space cs) l'
  unfolding lex
  lex-drop_while fuel cs l h a =
      let (l', e, d) = skip_spaces-drop_while utf8 fuel cs l h a in
      (l', rw (cur_char-At utf8 l cs a) (rw e), d)

  pub lex-no_space :
      (fuel : ℕ) (cs : List ℕ) (l : Lexer)
      → is_space (head_or_zero cs) ≡ false
      → At utf8 l cs
      → lex ap' utf8 fuel l ≡ lex_token ap' utf8 fuel (location l) (head_or_zero cs) l
  unfolding lex
  lex-no_space fuel cs l h a =
      rw (cur_char-At utf8 l cs a)
        (rw (skip_spaces-none utf8 fuel (head_or_zero cs) (location l) l h))

  lex_token-open :
      (fuel : ℕ) (w : SourceLocation) (cs : List ℕ) (l : Lexer)
      → All (λ c. not (c == b'\n')) cs
      → At utf8 l (b'/' ∷ b'/' ∷ cs)
      → lex_token ap' utf8 fuel w b'/' l ≡ no_fuel
  unfolding lex_token lex_comment
  lex_token-open fuel w cs l p a =
      let (l1, k) = peek_char-Peeked utf8 l (b'/' ∷ cs) a.ready in
      let (l2, n) = next_char-Advanced utf8 l1 (b'/' ∷ cs) k.ready in
      rw k.result (rw n.result (rw (comment_loop-open utf8 fuel [] cs l2 p n.ready)))

  -- At two slashes, where the text ends without a new-line, `Lex` returns nothing, whatever the
  -- number of rounds.
  pub lex-open_comment :
      (fuel : ℕ) (cs : List ℕ) (l : Lexer)
      → All (λ c. not (c == b'\n')) cs
      → At utf8 l (b'/' ∷ b'/' ∷ cs)
      → lex ap' utf8 fuel l ≡ no_fuel
  unfolding take_while drop_while is_space
  lex-open_comment fuel cs l p a =
      let (l', e, d) = lex-drop_while fuel (b'/' ∷ b'/' ∷ cs) l (omega arith) a in
      e ∙ lex_token-open fuel (location l') cs l' p d.at

  -- At two slashes and a body without a new-line, which encodes to `str`, with a new-line behind
  -- it and more rounds than the body has characters, `Lex` returns the comment with `str` as its
  -- text, and is left behind the new-line. The line number of its range is then what it was.
  pub lex-closed_comment :
      (fuel : ℕ) (body rest : List ℕ) (str : Bytes) (l : Lexer)
      → All (λ c. not (c == b'\n')) body
      → length body < fuel
      → utf8.utf32to8 body ≡ ok str
      → At utf8 l (b'/' ∷ b'/' ∷ (body ++ b'\n' ∷ rest))
      → (l' : Lexer) × (lex ap' utf8 fuel l
          ≡ ok (text_token ap' line_comment (widen (widen (location l) (length str)) 1) str, l'))
        × Left utf8 l rest l'
  unfolding lex_token lex_comment is_space
  lex-closed_comment fuel body rest str l p h u a =
      let input = b'/' ∷ b'/' ∷ (body ++ b'\n' ∷ rest) in
      let (l0, k) = peek_char-Peeked utf8 l (tail input) a.ready in
      let (l1, n) = next_char-Advanced utf8 l0 (tail input) k.ready in
      let (l2, e, d) = comment_loop-closed utf8 fuel [] body rest l1 p h n.ready in
      let (l3, m) = next_char-Advanced utf8 l2 rest d.at.ready in
      let same = Same-trans (Same-trans (Same-trans k.same n.same) d.same) m.same in
      (
        l3,
        lex-no_space fuel input l refl a ∙ rw k.result (rw n.result (rw e (rw m.result (rw u)))),
        record { at = record { cur = m.cur; ready = m.ready }; same = same },
      )

  -- Behind the slash and the punctuators stands what `lex_rest` takes.
  pub lex_token-IsPlain :
      (fuel c : ℕ) (w : SourceLocation) (l : Lexer)
      → IsLawful utf8
      → 0 < fuel
      → is_ascii c ≡ true
      → IsPlain c
      → lex_token ap' utf8 fuel w c l ≡ lex_rest ap' utf8 fuel w c l
  unfolding lex_token lex_punctuator
  lex_token-IsPlain zero c w l law pos a p = absurd (omega arith)
  lex_token-IsPlain (suc fuel) c w l law pos a p = rw p.no_slash (
      rw (
        punctuator_loop-none utf8 fuel (c ∷ []) unknown c l (c ∷ []) (law.ascii (c ∷ []) (a, tt))
          p.no_punctuator))

  -- With a lawful decoder and more rounds than there are characters ahead, at an ASCII letter or
  -- underscore that begins a word of ASCII identifier characters, `Lex` returns the longest such
  -- word: the token of its kind, if the identifier table holds the word, and an identifier with
  -- the word as its text, if not. The lexer is left at the character behind the word.
  pub lex-identifier :
      (fuel c : ℕ) (cs : List ℕ) (l : Lexer)
      → IsLawful utf8
      → length cs < fuel
      → is_identifier_start c ≡ true
      → All is_ascii (c ∷ take_while is_identifier_char cs)
      → At utf8 l (c ∷ cs)
      → let word = c ∷ take_while is_identifier_char cs in
        (l' : Lexer) × (lex ap' utf8 fuel l
          ≡ ok (
            word_token ap' utf8
                (span (location l) (length word) 1)
                word
                (IdentifierTable.get identifier_table word),
            l',
          ))
        × Left utf8 l (drop_while is_identifier_char cs) l'
  unfolding lex_rest lex_identifier
  lex-identifier fuel c cs l law h start ascii a =
      let plain = is_identifier_start-IsPlain c start ascii.0 in
      let (l1, n) = next_char-Advanced utf8 l cs a.ready in
      let (l2, e, d) =
        identifier_loop-take_while utf8 fuel (c ∷ []) cs l1 (omega arith)
          (record { cur = n.cur; ready = n.ready }) in
      (
        l2,
        lex-no_space fuel (c ∷ cs) l plain.no_space a
            ∙ lex_token-IsPlain fuel c (location l) l law (omega arith) ascii.0 plain
            ∙ rw plain.no_quote (rw start (rw n.result (rw e (rw (law.ascii _ ascii))))),
        record { at = d.at; same = Same-trans n.same d.same },
      )
