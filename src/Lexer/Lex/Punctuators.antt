-- ===== src/Lexer/Lex/Punctuators.antt =====
-- What `Lex` makes of a punctuator: the longest one that stands ahead.
use mathlib.Core.Path.{subst}
use u_lang.Prelude.{
  ℕ, zero, suc, ◌+◌, ◌≤◌, ◌≡◌, refl, ◌∙◌, true, false, List, [], ◌∷◌, ◌++◌, Bytes, Option, none,
  some, length, arith, ◌==◌,
}
use u_lang.Outcome.{ok}
use u_lang.Basic.Stream.{Utf8, IsLawful, is_ascii}
use u_lang.Basic.TokenKinds.{
  TokenKind, unknown, is, minus, l_square, r_square, amp, ampamp, pipe, pipepipe,
  get_punctuator_spelling,
}
use u_lang.Basic.PunctuatorTable
use u_lang.Basic.PunctuatorTable.{PunctuatorInfo, punctuator_table}
use u_lang.Lexer.Token.{Numerals, new_token}
use u_lang.Lexer.State.{Lexer, location}
use u_lang.Lexer.State.Ahead.{head_or_zero, Same-trans, next_char-Advanced, At}
use u_lang.Lexer.Lex.{is_space, span, lex_punctuator, lex_token, lex}
use u_lang.Lexer.Lex.Loops.{Left, punctuator_loop-none, punctuator_loop-some}
use u_lang.Lexer.Lex.Tokens.{lex-no_space}

abbrev info_of : TokenKind → Bytes → PunctuatorInfo
info_of k s = record { spelling = s; kind = k; precedence = 0 }

module _ {F I : Type 0} (ap : Numerals F I) (utf8 : Utf8) where
  -- `Lex` returns the token of kind `k`, of `n` characters, and is left at the rest.
  abbrev Lexes : ℕ → TokenKind → ℕ → List ℕ → Lexer → Type 0
  Lexes fuel k n rest l =
      (l' : Lexer) × (lex ap utf8 fuel l ≡ ok (new_token ap k (span (location l) (n + 1) 2), l'))
      × Left utf8 l rest l'

  lex_one :
      (fuel c : ℕ) (k : TokenKind) (rest : List ℕ) (l : Lexer)
      → IsLawful utf8
      → 2 ≤ fuel
      → is_space c ≡ false
      → (c == b'/') ≡ false
      → is_ascii c ≡ true
      → is k unknown ≡ false
      → PunctuatorTable.get punctuator_table (c ∷ []) ≡ some (info_of k (c ∷ []))
      → PunctuatorTable.get punctuator_table (c ∷ head_or_zero rest ∷ []) ≡ none
      → is_ascii (head_or_zero rest) ≡ true
      → At utf8 l (c ∷ rest)
      → Lexes fuel k 1 rest l
  unfolding lex_token lex_punctuator
  lex_one zero c k rest l law h _ _ _ _ _ _ _ a = absurd (omega arith)
  lex_one (suc zero) c k rest l law h _ _ _ _ _ _ _ a = absurd (omega arith)
  lex_one (suc (suc fuel)) c k rest l law h no_space no_slash c_ascii known held longest d_ascii a =
      let (l1, n) = next_char-Advanced utf8 l rest a.ready in
      let d = head_or_zero rest in
      (
        l1,
        lex-no_space ap utf8 (suc (suc fuel)) (c ∷ rest) l no_space a
            ∙ rw no_slash (
                rw
                  (punctuator_loop-some utf8 (suc fuel) (c ∷ []) unknown c l (c ∷ [])
                    (info_of k (c ∷ [])) d l1 (law.ascii (c ∷ []) (c_ascii, tt)) held n.result)
                  (rw
                    (punctuator_loop-none utf8 fuel (c ∷ d ∷ []) k d l1 (c ∷ d ∷ [])
                      (law.ascii (c ∷ d ∷ []) (c_ascii, (d_ascii, tt))) longest)
                    (rw known))),
        record { at = record { cur = n.cur; ready = n.ready }; same = n.same },
      )

  lex_two :
      (fuel c : ℕ) (j k : TokenKind) (rest : List ℕ) (l : Lexer)
      → IsLawful utf8
      → 3 ≤ fuel
      → is_space c ≡ false
      → (c == b'/') ≡ false
      → is_ascii c ≡ true
      → is k unknown ≡ false
      → PunctuatorTable.get punctuator_table (c ∷ []) ≡ some (info_of j (c ∷ []))
      → PunctuatorTable.get punctuator_table (c ∷ c ∷ []) ≡ some (info_of k (c ∷ c ∷ []))
      → PunctuatorTable.get punctuator_table (c ∷ c ∷ head_or_zero rest ∷ []) ≡ none
      → is_ascii (head_or_zero rest) ≡ true
      → At utf8 l (c ∷ c ∷ rest)
      → Lexes fuel k 2 rest l
  unfolding lex_token lex_punctuator
  lex_two zero c j k rest l law h _ _ _ _ _ _ _ _ a = absurd (omega arith)
  lex_two (suc zero) c j k rest l law h _ _ _ _ _ _ _ _ a = absurd (omega arith)
  lex_two (suc (suc zero)) c j k rest l law h _ _ _ _ _ _ _ _ a = absurd (omega arith)
  lex_two (suc (suc (suc fuel))) c j k rest l law h no_space no_slash c_ascii known one two longest
        d_ascii a =
      let (l1, n) = next_char-Advanced utf8 l (c ∷ rest) a.ready in
      let (l2, m) = next_char-Advanced utf8 l1 rest n.ready in
      let d = head_or_zero rest in
      (
        l2,
        lex-no_space ap utf8 (suc (suc (suc fuel))) (c ∷ c ∷ rest) l no_space a
            ∙ rw no_slash (
                rw
                  (punctuator_loop-some utf8 (suc (suc fuel)) (c ∷ []) unknown c l (c ∷ [])
                    (info_of j (c ∷ [])) c l1 (law.ascii (c ∷ []) (c_ascii, tt)) one n.result)
                  (rw
                    (punctuator_loop-some utf8 (suc fuel) (c ∷ c ∷ []) j c l1 (c ∷ c ∷ [])
                      (info_of k (c ∷ c ∷ [])) d l2
                      (law.ascii (c ∷ c ∷ []) (c_ascii, (c_ascii, tt))) two m.result)
                    (rw
                      (punctuator_loop-none utf8 fuel (c ∷ c ∷ d ∷ []) k d l2 (c ∷ c ∷ d ∷ [])
                        (law.ascii (c ∷ c ∷ d ∷ []) (c_ascii, (c_ascii, (d_ascii, tt)))) longest)
                      (rw known)))),
        record { at = record { cur = m.cur; ready = m.ready }; same = Same-trans n.same m.same },
      )

  abbrev LexesSpelling : ℕ → List ℕ → Lexer → TokenKind → Option Bytes → Type 0
  LexesSpelling fuel rest l k none = Unit
  LexesSpelling fuel rest l k (some s) =
      PunctuatorTable.get punctuator_table (s ++ head_or_zero rest ∷ []) ≡ none
      → At utf8 l (s ++ rest)
      → Lexes fuel k (length s) rest l

  lexes_spelling :
      (fuel : ℕ) (rest : List ℕ) (l : Lexer)
      → IsLawful utf8
      → 3 ≤ fuel
      → is_ascii (head_or_zero rest) ≡ true
      → (k : TokenKind) → LexesSpelling fuel rest l k (get_punctuator_spelling k)
  unfolding get_punctuator_spelling PunctuatorTable.get PunctuatorTable.add_punctuators is_space
  lexes_spelling fuel rest l law h d minus = λ longest a.
      lex_one fuel b'-' minus rest l law (omega arith) refl refl refl refl refl longest d a
  lexes_spelling fuel rest l law h d l_square = λ longest a.
      lex_one fuel b'[' l_square rest l law (omega arith) refl refl refl refl refl longest d a
  lexes_spelling fuel rest l law h d r_square = λ longest a.
      lex_one fuel b']' r_square rest l law (omega arith) refl refl refl refl refl longest d a
  lexes_spelling fuel rest l law h d amp = λ longest a.
      lex_one fuel b'&' amp rest l law (omega arith) refl refl refl refl refl longest d a
  lexes_spelling fuel rest l law h d pipe = λ longest a.
      lex_one fuel b'|' pipe rest l law (omega arith) refl refl refl refl refl longest d a
  lexes_spelling fuel rest l law h d ampamp = λ longest a.
      lex_two fuel b'&' amp ampamp rest l law h refl refl refl refl refl refl longest d a
  lexes_spelling fuel rest l law h d pipepipe = λ longest a.
      lex_two fuel b'|' pipe pipepipe rest l law h refl refl refl refl refl refl longest d a
  lexes_spelling fuel rest l law h d _ = tt

  -- With a lawful decoder and three rounds: where the spelling of a punctuator stands ahead, an
  -- ASCII character or the end is behind it, and the table holds no punctuator of both, `Lex`
  -- returns the token of the punctuator, which spans the spelling, and is left behind it.
  pub lex-get_punctuator_spelling :
      (fuel : ℕ) (k : TokenKind) (s rest : List ℕ) (l : Lexer)
      → IsLawful utf8
      → 3 ≤ fuel
      → is_ascii (head_or_zero rest) ≡ true
      → get_punctuator_spelling k ≡ some s
      → PunctuatorTable.get punctuator_table (s ++ head_or_zero rest ∷ []) ≡ none
      → At utf8 l (s ++ rest)
      → (l' : Lexer) × (lex ap utf8 fuel l
          ≡ ok (new_token ap k (span (location l) (length s + 1) 2), l'))
        × Left utf8 l rest l'
  lex-get_punctuator_spelling fuel k s rest l law h d spelled =
      subst (LexesSpelling fuel rest l k) spelled (lexes_spelling fuel rest l law h d k)
