-- ===== src/Lexer/Lex/Kept.antt =====
-- What `Lex` keeps of the lexer: whatever `GetChar` keeps, on every text.
use mathlib.Core.Path.{subst}
use u_lang.Basic.Source.{has_more}
use u_lang.Prelude.{ℕ, zero, suc, List, [], ◌∷◌, ◌++◌, ◌==◌, not, ◌&&◌, leb}
use u_lang.Basic.Stream.{Utf8}
use u_lang.Basic.SourceLocation.{SourceLocation, set_column, increment_line_number}
use u_lang.Basic.TokenKinds.{TokenKind, unknown}
use u_lang.Basic.PunctuatorTable
use u_lang.Basic.PunctuatorTable.{PunctuatorInfo, punctuator_table}
use u_lang.Outcome.{ok, >>=-eq-ok, ok_inj}
use u_lang.Lexer.Token.{Numerals}
use u_lang.Lexer.State.{Lexer, location, next_char, peek_char}
use u_lang.Lexer.State.Kept.{
  option-Keeps, Keeps, Stable, bind-Keeps, if_from-Keeps, gets-Keeps, lift-Keeps, no_fuel-Keeps,
  if-Keeps, if_at-Keeps, next_char-Keeps, peek_char-Keeps, cur_char-Keeps,
}
use u_lang.Lexer.Number.Kept.{number_token-Keeps}
use u_lang.Lexer.Text.Kept.{string_token-Keeps}
use u_lang.Lexer.Lex.{
  is_space, is_identifier_char, skip_spaces, comment_loop, punctuator_loop, identifier_loop,
  long_quote, new_line, lex_comment, lex_identifier, lex_other, lex_rest, lex_punctuator, lex_token,
  lex,
}

module _ (utf8 : Utf8) {P : Lexer → Type 0} (s : Stable utf8 P) where
  next : Keeps P (next_char utf8)
  next = next_char-Keeps utf8 s

  peek : Keeps P (peek_char utf8)
  peek = peek_char-Keeps utf8 s

  skip_spaces-Keeps : (fuel ch : ℕ) (w : SourceLocation) → Keeps P (skip_spaces utf8 fuel ch w)
  unfolding skip_spaces
  skip_spaces-Keeps zero ch w = if_at-Keeps _ no_fuel-Keeps gets-Keeps
  skip_spaces-Keeps (suc fuel) ch w =
      if-Keeps (is_space ch)
        (bind-Keeps _ next
          λ ch'. record { keeps = λ l. (skip_spaces-Keeps fuel ch' (location l)).keeps l })
        gets-Keeps

  comment_loop-Keeps : (fuel : ℕ) (comment : List ℕ) → Keeps P (comment_loop utf8 fuel comment)
  unfolding comment_loop
  comment_loop-Keeps zero comment = no_fuel-Keeps
  comment_loop-Keeps (suc fuel) comment =
      bind-Keeps _ next
        λ c. if_at-Keeps (c == b'\n') gets-Keeps (comment_loop-Keeps fuel (comment ++ c ∷ []))

  punctuator_loop-Keeps :
      (fuel : ℕ) (ps : List ℕ) (k : TokenKind) (ch : ℕ)
      → Keeps P (punctuator_loop utf8 fuel ps k ch)
  unfolding punctuator_loop
  punctuator_loop-Keeps zero ps k ch = no_fuel-Keeps
  punctuator_loop-Keeps (suc fuel) ps k ch = bind-Keeps _ (lift-Keeps (utf8.utf32to8 ps)) λ str.
      option-Keeps (PunctuatorTable.get punctuator_table str) _ _ gets-Keeps
        λ info. bind-Keeps _ next λ ch'. punctuator_loop-Keeps fuel (ps ++ ch' ∷ []) info.kind ch'

  identifier_loop-Keeps :
      (fuel : ℕ) (str : List ℕ) (ch : ℕ) → Keeps P (identifier_loop utf8 fuel str ch)
  unfolding identifier_loop
  identifier_loop-Keeps zero str ch = if_at-Keeps _ no_fuel-Keeps gets-Keeps
  identifier_loop-Keeps (suc fuel) str ch =
      if-Keeps (is_identifier_char ch)
        (bind-Keeps _ next λ ch'. identifier_loop-Keeps fuel (str ++ ch ∷ []) ch') gets-Keeps

  long_quote-Keeps : (quote : ℕ) → Keeps P (long_quote utf8 quote)
  unfolding long_quote
  long_quote-Keeps quote = bind-Keeps _ peek λ second.
      if-Keeps _
        (bind-Keeps _ next
          λ u. bind-Keeps _ peek λ third. if-Keeps _ (bind-Keeps _ next λ u. gets-Keeps) gets-Keeps)
        gets-Keeps

  new_line-Keeps : Keeps P (new_line utf8)
  unfolding new_line
  new_line-Keeps = record {
    keeps = λ l a l' e p.
        let b = set_column (increment_line_number l.source_range.begin) 0 in
        let n = set_column (increment_line_number l.source_range.end) 0 in
        let here = record l { source_range = record { begin = b; end = n } } in
        let (v, e2, e1) = >>=-eq-ok (next_char utf8 here) (λ r. ok (tt, r.1)) e in
        let moved = s.fields l here.source_range l.cur_char l.next_char l.cur_valid l.diags p in
        subst (λ (r : Unit × Lexer). P r.1) (ok_inj e2) (next.keeps here v.0 v.1 e1 moved);
  }

  module _ {F I : Type 0} (ap : Numerals F I) where
    lex_comment-Keeps : (fuel : ℕ) (w : SourceLocation) → Keeps P (lex_comment ap utf8 fuel w)
    unfolding lex_comment
    lex_comment-Keeps fuel w = bind-Keeps _ next λ u.
        bind-Keeps _ (comment_loop-Keeps fuel []) λ comment.
          bind-Keeps _ next λ u. bind-Keeps _ (lift-Keeps (utf8.utf32to8 comment)) λ str. gets-Keeps

    lex_identifier-Keeps :
        (fuel : ℕ) (w : SourceLocation) (ch : ℕ) → Keeps P (lex_identifier ap utf8 fuel w ch)
    unfolding lex_identifier
    lex_identifier-Keeps fuel w ch = bind-Keeps _ next λ ch'.
        bind-Keeps _ (identifier_loop-Keeps fuel (ch ∷ []) ch')
          λ vec. bind-Keeps _ (lift-Keeps (utf8.utf32to8 vec)) λ str. gets-Keeps

    lex_other-Keeps : (w : SourceLocation) (ch : ℕ) → Keeps P (lex_other ap utf8 w ch)
    unfolding lex_other
    lex_other-Keeps w ch = if-Keeps (ch == b'\n') (bind-Keeps _ new_line-Keeps λ u. gets-Keeps) (
        if_from-Keeps (λ l. not (has_more l.source) && (leb l.cur_valid 1 && ch == 0)) _ _
          gets-Keeps (bind-Keeps _ next λ u. gets-Keeps))

    lex_rest-Keeps : (fuel : ℕ) (w : SourceLocation) (ch : ℕ) → Keeps P (lex_rest ap utf8 fuel w ch)
    unfolding lex_rest
    lex_rest-Keeps fuel w ch =
        if-Keeps _
          (bind-Keeps _ (long_quote-Keeps ch) λ long. string_token-Keeps utf8 s ap fuel ch long)
          (if-Keeps _ (lex_identifier-Keeps fuel w ch)
            (if-Keeps _ (number_token-Keeps utf8 s ap fuel) (lex_other-Keeps w ch)))

    lex_punctuator-Keeps :
        (fuel : ℕ) (w : SourceLocation) (ch : ℕ) → Keeps P (lex_punctuator ap utf8 fuel w ch)
    unfolding lex_punctuator
    lex_punctuator-Keeps fuel w ch =
        bind-Keeps _ (punctuator_loop-Keeps fuel (ch ∷ []) unknown ch)
          λ p. if-Keeps _ (lex_rest-Keeps fuel w p.0) gets-Keeps

    lex_token-Keeps :
        (fuel : ℕ) (w : SourceLocation) (ch : ℕ) → Keeps P (lex_token ap utf8 fuel w ch)
    unfolding lex_token
    lex_token-Keeps fuel w ch =
        let rest = lex_punctuator-Keeps fuel w ch in
        if-Keeps _ (bind-Keeps _ peek λ second. if-Keeps _ (lex_comment-Keeps fuel w) rest) rest

    -- `Lex` keeps what `GetChar` keeps.
    pub lex-Keeps : (fuel : ℕ) → Keeps P (lex ap utf8 fuel)
    unfolding lex
    lex-Keeps fuel = bind-Keeps _ (cur_char-Keeps utf8 s) λ ch.
        bind-Keeps {m = λ l. skip_spaces utf8 fuel ch (location l) l} _
          (record { keeps = λ l. (skip_spaces-Keeps fuel ch (location l)).keeps l })
          λ r. lex_token-Keeps fuel r.1 r.0
