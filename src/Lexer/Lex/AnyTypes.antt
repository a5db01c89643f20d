-- ===== src/Lexer/Lex/AnyTypes.antt =====
-- `Lex` at an apostrophe and a name of one character: the types that stand for any type.
use u_lang.Prelude.{
  ℕ, zero, suc, ◌<◌, ◌≡◌, refl, ◌∙◌, Bool, true, false, ◌||◌, List, [], ◌∷◌, arith, ◌==◌,
}
use u_lang.Outcome.{ok}
use u_lang.Basic.SourceLocation.{SourceLocation}
use u_lang.Basic.Stream.{Utf8, IsLawful, is_ascii}
use u_lang.Basic.PunctuatorTable
use u_lang.Basic.Source.{has_more}
use u_lang.Basic.TokenKinds.{unknown, identifier}
use u_lang.Lexer.Token.{Numerals, text_token}
use u_lang.Lexer.State.{Lexer, location, next_char}
use u_lang.Lexer.State.Ahead.{Same-trans, next_char-Advanced, peek_char-Peeked, Peeked, At}
use u_lang.Lexer.Text.{
  widen, Text, any_type, text_loop, scan_char, place_char, is_any_type, any_type_token,
  string_token,
}
use u_lang.Lexer.Lex.{is_space, long_quote, lex_punctuator, lex_rest, lex_token, lex}
use u_lang.Lexer.Lex.Loops.{Left, punctuator_loop-none}
use u_lang.Lexer.Lex.Tokens.{lex-no_space}

-- What may stand behind such a type.
abbrev pub closes_any_type : ℕ → Bool
closes_any_type d =
    d == b')' || (d == b']' || (d == b' ' || (d == b',' || (d == b'\t' || d == b'\n'))))

place_char-str : (t : Text) → (place_char t).str ≡ t.str
unfolding place_char
place_char-str t = ground arith

closes_any_type-false : (d : ℕ) → closes_any_type d ≡ true → (d == b'\'') ≡ false
closes_any_type-false d ends = ground arith

-- A string without its characters.
abbrev started : SourceLocation → ℕ → Text
started w c = record { str = []; w = w; add_trailing = true; ch = c }

place_char-w :
    (w : SourceLocation) (c : ℕ) → (c == b'\n') ≡ false → (place_char (started w c)).w ≡ widen w 1
unfolding place_char
place_char-w w c no_line = rw no_line refl

location-Peeked :
    (utf8 : Utf8) {l l' : Lexer} {cs : List ℕ} → Peeked utf8 l cs l' → location l' ≡ location l
location-Peeked utf8 k = rw k.same.id_eq (rw k.same.name_eq (rw k.same.path_eq (rw k.range refl)))

text_loop-any_type :
    (utf8 : Utf8) (fuel c d : ℕ) (cs : List ℕ) (w : SourceLocation) (l l' : Lexer)
    → (c == b'\'') ≡ false
    → (c == b'\\') ≡ false
    → closes_any_type d ≡ true
    → has_more l.source ≡ true
    → next_char utf8 l ≡ ok (d, l')
    → text_loop utf8 (suc fuel) b'\'' false (started w c) l
      ≡ ok (any_type (record (place_char (started w c)) { str = c ∷ []; ch = d }), l')
unfolding text_loop scan_char is_any_type
text_loop-any_type utf8 fuel c d cs w l l' no_quote no_slash ends more e = rw no_slash (
    rw no_quote (
      rw more (
        rw e
          (rw (place_char-str (started w c)) (rw (closes_any_type-false d ends) (rw ends refl))))))

module _ {F I : Type 0} (ap' : Numerals F I) (utf8 : Utf8) where
  lex-apostrophe :
      (fuel : ℕ) (cs : List ℕ) (l : Lexer)
      → IsLawful utf8
      → At utf8 l (b'\'' ∷ cs)
      → lex ap' utf8 (suc fuel) l ≡ lex_rest ap' utf8 (suc fuel) (location l) b'\'' l
  unfolding is_space lex_token lex_punctuator PunctuatorTable.get PunctuatorTable.add_punctuators
  lex-apostrophe fuel cs l law a =
      lex-no_space ap' utf8 (suc fuel) (b'\'' ∷ cs) l refl a
      ∙ rw
          (punctuator_loop-none utf8 fuel (b'\'' ∷ []) unknown b'\'' l (b'\'' ∷ [])
            (law.ascii (b'\'' ∷ []) (refl, tt)) refl)
          refl

  -- With a lawful decoder and two rounds: at an apostrophe, an ASCII character that is neither an
  -- apostrophe nor a backslash nor a new-line, and behind it a space, a tab, a new-line, a comma
  -- or a closing parenthesis or bracket, `Lex` returns an identifier, whose text is the apostrophe
  -- and the character and whose location is that of the apostrophe with an end one column
  -- behind, and is left at what stands behind.
  pub lex-closes_any_type :
      (fuel c d : ℕ) (cs : List ℕ) (l : Lexer)
      → IsLawful utf8
      → 1 < fuel
      → is_ascii c ≡ true
      → (c == b'\'') ≡ false
      → (c == b'\\') ≡ false
      → (c == b'\n') ≡ false
      → closes_any_type d ≡ true
      → At utf8 l (b'\'' ∷ c ∷ d ∷ cs)
      → (l' : Lexer) × (lex ap' utf8 fuel l
          ≡ ok (text_token ap' identifier (widen (location l) 1) (b'\'' ∷ c ∷ []), l'))
        × Left utf8 l (d ∷ cs) l'
  unfolding lex_rest long_quote string_token any_type_token
  lex-closes_any_type zero c d cs l law h ascii no_quote no_slash no_line ends a =
      absurd (omega arith)
  lex-closes_any_type (suc zero) c d cs l law h ascii no_quote no_slash no_line ends a =
      absurd (omega arith)
  lex-closes_any_type (suc (suc fuel)) c d cs l law h ascii no_quote no_slash no_line ends a =
      let (l1, k) = peek_char-Peeked utf8 l (c ∷ d ∷ cs) a.ready in
      let (l2, n) = next_char-Advanced utf8 l1 (c ∷ d ∷ cs) k.ready in
      let (l3, m) = next_char-Advanced utf8 l2 (d ∷ cs) n.ready in
      let more = n.alone.decodes.0 in
      (
        l3,
        lex-apostrophe (suc fuel) (c ∷ d ∷ cs) l law a
            ∙ rw k.result (
                rw no_quote (
                  rw n.result (
                    rw
                      (text_loop-any_type utf8 (suc fuel) c d cs (location l1) l2 l3 no_quote
                        no_slash ends more m.result)
                      (rw (law.ascii (b'\'' ∷ c ∷ []) (refl, (ascii, tt))) (
                        rw (place_char-w (location l1) c no_line)
                          (rw (location-Peeked utf8 k) refl)))))),
        record {
          at = record { cur = m.cur; ready = m.ready };
          same = Same-trans (Same-trans k.same n.same) m.same;
        },
      )
