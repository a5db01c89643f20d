-- ===== src/Lexer/Lex/Numbers.antt =====
-- `Lex` at a digit.
use u_lang.Prelude.{
  ℕ, zero, suc, ◌+◌, ◌<◌, ◌≡◌, refl, ◌∙◌, ◌&&◌, ◌||◌, true, false, List, ◌∷◌, Bytes, some, length,
  take_while, drop_while, arith, ◌==◌, add64, sub64, Bool-cases, inl, inr,
}
use u_lang.Prelude.Ctype.{isdigit}
use u_lang.Outcome.{ok}
use u_lang.Basic.SourceLocation.{SourceLocation, set_end_column}
use u_lang.Basic.Stream.{Utf8, IsLawful, is_ascii}
use u_lang.Basic.PunctuatorTable
use u_lang.Basic.TokenKinds.{integer_constant}
use u_lang.Lexer.Token.{Numerals, int_token}
use u_lang.Lexer.State.{Lexer, location}
use u_lang.Lexer.State.Ahead.{
  head_or_zero, Same, Same-refl, Same-trans, Ready, cur_char-At, next_char-Advanced,
  peek_char-Peeked, At,
}
use u_lang.Lexer.Number.{
  intpart, done, to_char, is_int_char, next_state, bit_estimate, number_prefix, convert_int,
  number_token,
}
use u_lang.Lexer.Number.Digits.{digits, number_loop-digits, next_state-drop_while}
use u_lang.Lexer.Lex.{is_space, is_identifier_start, lex_rest, lex}
use u_lang.Lexer.Lex.Loops.{Left}
use u_lang.Lexer.Lex.Tokens.{IsPlain, lex-no_space, lex_token-IsPlain}

isdigit-IsPlain :
    (d : ℕ) → isdigit d ≡ true → IsPlain d × (is_identifier_start d ≡ false) × (is_ascii d ≡ true)
unfolding isdigit is_space is_identifier_start PunctuatorTable.get PunctuatorTable.add_punctuators
isdigit-IsPlain d h = (
  record {
    no_space = ground arith;
    no_slash = ground arith;
    no_quote = ground arith;
    no_punctuator = ground arith;
  },
  ground arith,
  ground arith,
)

-- The text of a number: its first character, and the digits ahead without the underscores.
abbrev pub number_text : ℕ → ℕ → List ℕ → Bytes
number_text base d cs = to_char d ∷ digits (take_while (is_int_char base) cs)

-- The location of a number: it ends as many columns behind its beginning as its text has digits.
abbrev pub digits_location : SourceLocation → Bytes → SourceLocation
digits_location w num = set_end_column w (sub64 (add64 w.range.end.column (length num)) 1)

module _ {F I : Type 0} (ap' : Numerals F I) (utf8 : Utf8) where
  pub convert_int-some :
      (num : Bytes) (w : SourceLocation) (base : ℕ) (v : I) (l : Lexer)
      → ap'.int_of_digits (bit_estimate (length num)) num base ≡ some v
      → convert_int ap' num w base l ≡ ok (int_token ap' integer_constant w v, l)
  unfolding convert_int
  convert_int-some num w base v l exact = rw (convert_int, exact) refl

  pub lex-digit :
      (fuel d : ℕ) (cs : List ℕ) (l : Lexer)
      → IsLawful utf8
      → 0 < fuel
      → isdigit d ≡ true
      → At utf8 l (d ∷ cs)
      → lex ap' utf8 fuel l ≡ number_token ap' utf8 fuel l
  unfolding lex_rest
  lex-digit fuel d cs l law h digit a =
      let (plain, no_word, ascii) = isdigit-IsPlain d digit in
      lex-no_space ap' utf8 fuel (d ∷ cs) l plain.no_space a
      ∙ lex_token-IsPlain ap' utf8 fuel d (location l) l law h ascii plain
      ∙ rw plain.no_quote (rw no_word (rw digit refl))

  pub record Prefixed (ch base d : ℕ) (cs : List ℕ) (l l' : Lexer) : Type 0 where
    pub result : number_prefix utf8 ch l ≡ ok ((base, d), l')
    pub ready : Ready utf8 l' cs
    pub same : Same l l'

  pub number_prefix-none :
      (d : ℕ) (cs : List ℕ) (l : Lexer)
      → (d == b'0' && (head_or_zero cs == b'x' || head_or_zero cs == b'b')) ≡ false
      → Ready utf8 l cs
      → (l' : Lexer) × Prefixed d 10 d cs l l'
  unfolding number_prefix
  number_prefix-none d cs l h r = elim (Bool-cases (d == b'0')) [
    | inr n ↦ (l, record { result = rw n refl; ready = r; same = Same-refl l })
    | inl y ↦
        let no_x : (head_or_zero cs == b'x') ≡ false = ground arith in
        let no_b : (head_or_zero cs == b'b') ≡ false = ground arith in
        let (l1, p) = peek_char-Peeked utf8 l cs r in
        let (l2, q) = peek_char-Peeked utf8 l1 cs p.ready in
        (
          l2,
          record {
            result = rw y (rw p.result (rw no_x (rw q.result (rw no_b refl))));
            ready = q.ready;
            same = Same-trans p.same q.same;
          },
        )
  ]

  number_prefix-x :
      (d : ℕ) (cs : List ℕ) (l : Lexer)
      → Ready utf8 l (b'x' ∷ d ∷ cs)
      → (l' : Lexer) × Prefixed b'0' 16 d cs l l'
  unfolding number_prefix
  number_prefix-x d cs l r =
      let (l1, p) = peek_char-Peeked utf8 l (b'x' ∷ d ∷ cs) r in
      let (l2, n) = next_char-Advanced utf8 l1 (b'x' ∷ d ∷ cs) p.ready in
      let (l3, m) = next_char-Advanced utf8 l2 (d ∷ cs) n.ready in
      (
        l3,
        record {
          result = rw p.result (rw n.result (rw m.result refl));
          ready = m.ready;
          same = Same-trans (Same-trans p.same n.same) m.same;
        },
      )

  number_token-Prefixed :
      (fuel ch base d : ℕ) (cs all : List ℕ) (l l' : Lexer)
      → length cs + 1 < fuel
      → next_state base intpart (head_or_zero (drop_while (is_int_char base) cs)) ≡ done
      → At utf8 l (ch ∷ all)
      → Prefixed ch base d cs l l'
      → (l'' : Lexer) × (number_token ap' utf8 fuel l
          ≡ convert_int ap'
              (number_text base d cs)
              (digits_location (location l) (number_text base d cs))
              base
              l'')
        × Left utf8 l (drop_while (is_int_char base) cs) l''
  unfolding number_token
  number_token-Prefixed zero ch base d cs all l l' h stop a p = absurd (omega arith)
  number_token-Prefixed (suc zero) ch base d cs all l l' h stop a p = absurd (omega arith)
  number_token-Prefixed (suc (suc fuel)) ch base d cs all l l' h stop a p =
      let (l2, e, t) = number_loop-digits utf8 fuel base d cs l' (omega arith) stop p.ready in
      (
        l2,
        rw (cur_char-At utf8 l (ch ∷ all) a) (rw p.result (rw e refl)),
        record { at = t.at; same = Same-trans p.same t.same },
      )

  -- With a lawful decoder and two rounds more than there are characters behind the digit: at a
  -- digit `Lex` converts the digits and underscores that stand ahead, without the underscores, in
  -- base 10, if no dot and no exponent follows and `0x` and `0b` do not stand there. What it
  -- returns is what the conversion does with the lexer that is left behind them, at a location
  -- that counts the digits only.
  pub lex-decimal :
      (fuel d : ℕ) (cs : List ℕ) (l : Lexer)
      → IsLawful utf8
      → length cs + 1 < fuel
      → isdigit d ≡ true
      → (d == b'0' && (head_or_zero cs == b'x' || head_or_zero cs == b'b')) ≡ false
      → next_state 10 intpart (head_or_zero (drop_while (is_int_char 10) cs)) ≡ done
      → At utf8 l (d ∷ cs)
      → (l' : Lexer) × (lex ap' utf8 fuel l
          ≡ convert_int ap'
              (number_text 10 d cs)
              (digits_location (location l) (number_text 10 d cs))
              10
              l')
        × Left utf8 l (drop_while (is_int_char 10) cs) l'
  lex-decimal fuel d cs l law h digit no_prefix stop a =
      let (l1, p) = number_prefix-none d cs l no_prefix a.ready in
      let (l2, e, t) = number_token-Prefixed fuel d 10 d cs cs l l1 h stop a p in
      (l2, lex-digit fuel d cs l law (omega arith) digit a ∙ e, t)

  -- With a lawful decoder and two rounds more than there are characters behind the first digit:
  -- behind `0x` `Lex` converts, in base 16, the text of the next character, which is not looked at,
  -- and of the hexadecimal digits behind it, without the underscores. What it returns is what the
  -- conversion does with the lexer that is left behind them, at a location that counts neither the
  -- prefix nor the underscores.
  pub lex-hexadecimal :
      (fuel d : ℕ) (cs : List ℕ) (l : Lexer)
      → IsLawful utf8
      → length cs + 1 < fuel
      → At utf8 l (b'0' ∷ b'x' ∷ d ∷ cs)
      → (l' : Lexer) × (lex ap' utf8 fuel l
          ≡ convert_int ap'
              (number_text 16 d cs)
              (digits_location (location l) (number_text 16 d cs))
              16
              l')
        × Left utf8 l (drop_while (is_int_char 16) cs) l'
  unfolding isdigit
  lex-hexadecimal fuel d cs l law h a =
      let (l1, p) = number_prefix-x d cs l a.ready in
      let (l2, e, t) =
        number_token-Prefixed fuel b'0' 16 d cs (b'x' ∷ d ∷ cs) l l1 h (next_state-drop_while cs) a
          p in
      (l2, lex-digit fuel b'0' (b'x' ∷ d ∷ cs) l law (omega arith) refl a ∙ e, t)
