-- ===== src/Lexer/Lex.antt =====
-- lib/Lex/Lexer.cpp: `Lex`, one function for each of its parts, in the order of the source. Each loop
-- takes fuel: the number of its rounds.
pub mod Loops
pub mod Tokens
pub mod Punctuators
pub mod Numbers
pub mod Values
pub mod Reals
pub mod Ends
pub mod Strings
pub mod AnyTypes
pub mod Kept
pub mod Halting
pub mod Comments
pub mod Termination
pub mod Recorded
use u_lang.Prelude.{
  ℕ, zero, suc, Bool, true, false, not, ◌&&◌, ◌||◌, List, [], ◌∷◌, ◌++◌, Bytes, Option, none, some,
  ◌==◌, leb, length, add64, sub64, if◌then◌else◌,
}
use u_lang.Prelude.Ctype.{isdigit}
use u_lang.Outcome
use u_lang.Outcome.{Outcome, ok, thrown, no_fuel}
use u_lang.Basic.SourceLocation.{SourceLocation, set_column, set_end_column, increment_line_number}
use u_lang.Basic.Stream.{Utf8}
use u_lang.Basic.Source.{has_more}
use u_lang.Basic.TokenKinds.{TokenKind, unknown, eof, eol, line_comment, identifier, is}
use u_lang.Basic.PunctuatorTable
use u_lang.Basic.PunctuatorTable.{PunctuatorInfo, punctuator_table}
use u_lang.Basic.IdentifierTable
use u_lang.Basic.IdentifierTable.{IdentifierInfo, identifier_table}
use u_lang.Lexer.Token.{Token, Numerals, new_token, text_token}
use u_lang.Lexer.State.{Lexer, M, pure, gets, ◌>>=◌, ◌>>◌, location, next_char, peek_char, cur_char}
use u_lang.Lexer.Number.{number_token}
use u_lang.Lexer.Text.{widen, string_token}

-- `IsSpace`.
unfoldable pub is_space : ℕ → Bool
is_space ch =
    ch == b' '
    || (ch == b'\t'
        || (ch == 0xa0
            || ((leb 0x2000 ch && leb ch 0x200a)
                || (ch == 0x2029 || (ch == 0x202f || (ch == 0x205f || ch == 0x3000))))))

abbrev is_letter : ℕ → Bool
is_letter ch = (leb 65 ch && leb ch 90) || (ch == 95 || ((leb 97 ch && leb ch 122) || leb 128 ch))

-- What an identifier begins with.
unfoldable pub is_identifier_start : ℕ → Bool
unfolding is_space
is_identifier_start ch = not (is_space ch) && is_letter ch

-- What it goes on with.
unfoldable pub is_identifier_char : ℕ → Bool
unfolding is_space
is_identifier_char ch =
    not (is_space ch)
    && ((not (ch == b'\r') && not (ch == b'\n')) && ((leb 48 ch && leb ch 57) || is_letter ch))

abbrev pub lift : {A : Type 0} → Outcome A → M A
lift m l = Outcome.◌>>=◌ m (λ a. ok (a, l))

-- The end column moves to that of the last of `n` characters that begin at `w`.
abbrev pub span : SourceLocation → ℕ → ℕ → SourceLocation
span w n back = set_end_column w (sub64 (add64 w.range.end.column n) back)

module _ (utf8 : Utf8) where
  -- `VectorToString`.
  abbrev pub vector_to_string : List ℕ → Outcome Bytes
  vector_to_string cs = utf8.utf32to8 cs

  -- `while (IsSpace(ch))`.
  unfoldable pub skip_spaces : ℕ → ℕ → SourceLocation → M (ℕ × SourceLocation)
  unfolding next_char is_space
  skip_spaces zero ch w l = if is_space ch then no_fuel else pure (ch, w) l
  skip_spaces (suc fuel) ch w l =
      let rest = (do ch' ← next_char utf8; w' ← gets location; skip_spaces fuel ch' w') in
      (if is_space ch then rest else pure (ch, w)) l

  -- `while ((ch = NextChar()) != '\n') comment.push_back(ch);`.
  unfoldable pub comment_loop : ℕ → List ℕ → M (List ℕ)
  unfolding next_char
  comment_loop zero comment l = no_fuel
  comment_loop (suc fuel) comment l = Outcome.◌>>=◌ (next_char utf8 l) (λ r.
      let again = comment_loop fuel (comment ++ r.0 ∷ []) r.1 in
      if r.0 == b'\n' then ok (comment, r.1) else again)

  abbrev stop : ℕ × TokenKind × List ℕ → M (ℕ × TokenKind × List ℕ)
  stop r l = ok (r, l)

  -- The loop over the punctuator table, which grows the text until the table does not hold it.
  unfoldable pub punctuator_loop : ℕ → List ℕ → TokenKind → ℕ → M (ℕ × TokenKind × List ℕ)
  unfolding next_char
  punctuator_loop zero punctuators tt' ch = λ l. no_fuel
  punctuator_loop (suc fuel) punctuators tt' ch = do
    s ← lift (vector_to_string punctuators)
    let go = λ (info : PunctuatorInfo). (do
      ch' ← next_char utf8
      punctuator_loop fuel (punctuators ++ ch' ∷ []) info.kind ch')
    elim (PunctuatorTable.get punctuator_table s) [
      | none ↦ stop (ch, tt', punctuators)
      | some info ↦ go info
    ]

  -- The rest of an identifier.
  unfoldable pub identifier_loop : ℕ → List ℕ → ℕ → M (List ℕ)
  unfolding next_char is_identifier_char
  identifier_loop zero str ch l = if is_identifier_char ch then no_fuel else pure str l
  identifier_loop (suc fuel) str ch l =
      let rest = (do ch' ← next_char utf8; identifier_loop fuel (str ++ ch ∷ []) ch') in
      (if is_identifier_char ch then rest else pure str) l

  -- Three quotation marks: the first is `quote`, and `done` says that two more followed it.
  unfoldable pub long_quote : ℕ → M Bool
  unfolding next_char peek_char
  long_quote quote = do
    second ← peek_char utf8
    if second == quote
        then (do
          next_char utf8
          third ← peek_char utf8
          if third == quote then (do next_char utf8; pure true) else pure false)
        else pure false

  -- `case '\n'`: the location of the lexer goes to the next line, and the character is eaten.
  unfoldable pub new_line : M (Unit {0})
  unfolding next_char
  new_line l =
      let b = set_column (increment_line_number l.source_range.begin) 0 in
      let e = set_column (increment_line_number l.source_range.end) 0 in
      Outcome.◌>>=◌ (next_char utf8 (record l { source_range = record { begin = b; end = e } }))
        (λ r. ok (tt, r.1))

module _ {F I : Type 0} (ap : Numerals F I) (utf8 : Utf8) where
  abbrev pub word_token : SourceLocation → Bytes → Option IdentifierInfo → Token F I
  word_token w str none = text_token ap identifier w str
  word_token w str (some info) = new_token ap info.kind w

  -- The comment, behind its first slash.
  unfoldable pub lex_comment : ℕ → SourceLocation → M (Token F I)
  unfolding comment_loop next_char
  lex_comment fuel w = do
    next_char utf8
    comment ← comment_loop utf8 fuel []
    next_char utf8
    str ← lift (utf8.utf32to8 comment)
    pure (text_token ap line_comment (widen (widen w (length str)) 1) str)

  unfoldable pub lex_identifier : ℕ → SourceLocation → ℕ → M (Token F I)
  unfolding identifier_loop next_char
  lex_identifier fuel w ch = do
    ch' ← next_char utf8
    vec ← identifier_loop utf8 fuel (ch ∷ []) ch'
    str ← lift (utf8.utf32to8 vec)
    pure (word_token (span w (length str) 1) str (IdentifierTable.get identifier_table str))

  -- Newlines, the end of the file, and what no rule takes.
  unfoldable pub lex_other : SourceLocation → ℕ → M (Token F I)
  unfolding new_line next_char
  lex_other w ch = if ch == b'\n' then (do new_line utf8; pure (new_token ap eol w)) else (do
    ended ← gets (λ l. not (has_more l.source) && (leb l.cur_valid 1 && ch == 0))
    if ended then pure (new_token ap eof w) else (do next_char utf8; pure (new_token ap unknown w)))

  -- Behind the punctuators: strings, identifiers, numbers and the rest.
  unfoldable pub lex_rest : ℕ → SourceLocation → ℕ → M (Token F I)
  unfolding long_quote string_token lex_identifier number_token lex_other is_identifier_start
      isdigit
  lex_rest fuel w ch =
      if ch == b'\'' || ch == b'"'
      then (do long ← long_quote utf8 ch; string_token utf8 ap fuel ch long)
      else if is_identifier_start ch
      then lex_identifier fuel w ch
      else if isdigit ch
      then number_token ap utf8 fuel
      else lex_other w ch

  unfoldable pub lex_punctuator : ℕ → SourceLocation → ℕ → M (Token F I)
  lex_punctuator fuel w ch = do
    p ← punctuator_loop utf8 fuel (ch ∷ []) unknown ch
    if is p.1 unknown then lex_rest fuel w p.0 else pure (new_token ap p.1 (span w (length p.2) 2))

  -- Behind the spaces: a comment, or the rest.
  unfoldable pub lex_token : ℕ → SourceLocation → ℕ → M (Token F I)
  unfolding lex_comment lex_punctuator peek_char
  lex_token fuel w ch =
      if ch == b'/'
      then (do
        second ← peek_char utf8
        if second == b'/' then lex_comment fuel w else lex_punctuator fuel w ch)
      else lex_punctuator fuel w ch

  -- `Lex`.
  unfoldable pub lex : ℕ → M (Token F I)
  unfolding cur_char skip_spaces lex_token
  lex fuel = do
    ch ← cur_char utf8
    w ← gets location
    s ← skip_spaces utf8 fuel ch w
    lex_token fuel s.1 s.0
