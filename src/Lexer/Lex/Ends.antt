-- ===== src/Lexer/Lex/Ends.antt =====
-- `Lex` at the end of a line and at the end of the file.
use u_lang.Prelude.{ℕ, ◌<◌, ◌≡◌, refl, ap, ◌∙◌, List, [], ◌∷◌, add64, inl}
use u_lang.Outcome.{ok}
use u_lang.Basic.SourceLocation.{SourcePosition, SourceRange}
use u_lang.Basic.Stream.{Utf8, IsLawful}
use u_lang.Basic.TokenKinds.{eof, eol}
use u_lang.Basic.PunctuatorTable
use u_lang.Lexer.Token.{Numerals, new_token}
use u_lang.Lexer.State.{Lexer, location}
use u_lang.Lexer.State.Ahead.{Alone, Ready, next_char-Advanced, At}
use u_lang.Lexer.Lex.{is_space, is_identifier_start, new_line, lex_other, lex_rest, lex}
use u_lang.Lexer.Lex.Tokens.{IsPlain, lex-no_space, lex_token-IsPlain}

-- The first position of the line behind that of `p`.
abbrev pub next_line : SourcePosition → SourcePosition
next_line p = record { line = add64 p.line 1; column = 1 }

module _ {F I : Type 0} (ap' : Numerals F I) (utf8 : Utf8) where
  -- With a lawful decoder and one round at least, at a new-line `Lex` returns the token of the end
  -- of the line, and moves the range of the lexer to the first column of the next line, where the
  -- next token begins.
  pub lex-eol :
      (fuel : ℕ) (cs : List ℕ) (l : Lexer)
      → IsLawful utf8
      → 0 < fuel
      → At utf8 l (b'\n' ∷ cs)
      → (l' : Lexer) × (lex ap' utf8 fuel l ≡ ok (new_token ap' eol (location l), l'))
        × At utf8 l' cs
        × (l'.source_range.begin ≡ next_line l.source_range.begin)
        × (l'.source_range.end ≡ next_line l.source_range.end)
  unfolding lex_rest lex_other new_line is_space is_identifier_start PunctuatorTable.get
      PunctuatorTable.add_punctuators
  lex-eol fuel cs l law h a =
      let plain : IsPlain b'\n' = record {
        no_space = refl;
        no_slash = refl;
        no_quote = refl;
        no_punctuator = refl;
      } in
      let here = record l {
        source_range = record {
          begin = record { line = add64 l.source_range.begin.line 1; column = 0 };
          end = record { line = add64 l.source_range.end.line 1; column = 0 };
        };
      } in
      let ready : Ready utf8 here cs = record { view = a.ready.view } in
      let (l1, n) = next_char-Advanced utf8 here cs ready in
      (
        l1,
        lex-no_space ap' utf8 fuel (b'\n' ∷ cs) l refl a
            ∙ lex_token-IsPlain ap' utf8 fuel b'\n' (location l) l law h refl plain
            ∙ rw n.result refl,
        record { cur = n.cur; ready = n.ready },
        ap (λ (r : SourceRange). r.begin) n.range,
        ap (λ (r : SourceRange). r.end) n.range,
      )

  -- With a lawful decoder and one round at least, at the end of the source, with nothing read
  -- ahead, `Lex` returns the token of the end of the file and leaves the lexer as it is, so that
  -- every later call returns the same.
  pub lex-eof :
      (fuel : ℕ) (l : Lexer)
      → IsLawful utf8
      → 0 < fuel
      → l.cur_char ≡ 0
      → Alone utf8 l []
      → lex ap' utf8 fuel l ≡ ok (new_token ap' eof (location l), l)
  unfolding lex_rest lex_other is_space is_identifier_start PunctuatorTable.get
      PunctuatorTable.add_punctuators
  lex-eof fuel l law h cur a =
      let plain : IsPlain 0 = record {
        no_space = refl;
        no_slash = refl;
        no_quote = refl;
        no_punctuator = refl;
      } in
      lex-no_space ap' utf8 fuel [] l refl
        (record { cur = cur; ready = record { view = inl (a.one, a.room, a.decodes) } })
      ∙ lex_token-IsPlain ap' utf8 fuel 0 (location l) l law h refl plain
      ∙ rw a.decodes (rw a.one refl)
