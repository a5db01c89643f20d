-- ===== src/Lexer/Lex/Halting.antt =====
-- The loops of `Lex` come to an end.
use u_lang.Prelude.{
  ℕ, zero, suc, ◌+◌, ◌≤◌, ◌<◌, ◌≡◌, ◌⊎◌, refl, Bool, true, false, List, [], ◌∷◌, ◌++◌, Bytes, some,
  length, length-append, arith, leb, Bool-cases, inl, inr, if◌then◌else◌,
}
use u_lang.Prelude.Table.{find-AllEntries}
use u_lang.Basic.SourceLocation.{set_column, increment_line_number}
use u_lang.Basic.Stream.{Utf8, IsLawful}
use u_lang.Basic.TokenKinds.{TokenKind}
use u_lang.Basic.PunctuatorTable
use u_lang.Basic.PunctuatorTable.{PunctuatorInfo, punctuator_table}
use u_lang.Lexer.State.{Lexer, M}
use u_lang.Lexer.State.Ahead.{Ready, tail, head_or_zero, next_char-Advanced}
use u_lang.Lexer.State.Halting.{
  option-Halts, Ends, Halts, ok-Ends, bind-Ends, lift_bind-Ends, bind-Halts, gets-Halts, if-Halts,
  next_char-Halts, peek_char-Halts, shorter,
}
use u_lang.Lexer.Lex.{
  is_space, is_identifier_char, punctuator_loop, identifier_loop, long_quote, new_line,
}

-- The table holds no text of more than two bytes.
get-length :
    (s : Bytes) {p : PunctuatorInfo}
    → PunctuatorTable.get punctuator_table s ≡ some p
    → leb (length s) 2 ≡ true
unfolding PunctuatorTable.get PunctuatorTable.add_punctuators
get-length s h =
    find-AllEntries (λ t q. leb (length t) 2 ≡ true) punctuator_table s (ground arith) h

module _ (utf8 : Utf8) where
  pub if_from-Halts :
      {n : ℕ} {A : Type 0} (b : Lexer → Bool) (m k : Lexer → M A)
      → Halts utf8 n (λ l. m l l)
      → Halts utf8 n (λ l. k l l)
      → Halts utf8 n (λ l. (if b l then m l else k l) l)
  if_from-Halts {n} b m k h j = record {
    halts = λ l cs r low. go l (b l) (h.halts l cs r low) (j.halts l cs r low);
  }
    where
      go :
          (l : Lexer) (c : Bool)
          → Ends utf8 n (m l l)
          → Ends utf8 n (k l l)
          → Ends utf8 n ((if c then m l else k l) l)
      go l true e f = e
      go l false e f = f

  below :
      (fuel : ℕ) (cs : List ℕ)
      → length cs < suc fuel
      → (is_identifier_char (head_or_zero cs) ≡ false) ⊎ (length (tail cs) < fuel)
  unfolding is_identifier_char is_space
  below fuel [] h = inl refl
  below fuel (c ∷ cs) h = inr (omega arith)

  pub identifier_loop-Ends :
      (fuel n : ℕ) (str : List ℕ) (ch : ℕ) (l : Lexer) (cs : List ℕ)
      → (is_identifier_char ch ≡ false) ⊎ (length cs < fuel)
      → Ready utf8 l cs
      → length cs ≤ n
      → Ends utf8 n (identifier_loop utf8 fuel str ch l)
  unfolding identifier_loop
  identifier_loop-Ends zero n str ch l cs (inl last) r h = rw last (ok-Ends utf8 cs r h)
  identifier_loop-Ends zero n str ch l cs (inr room) r h = absurd (omega arith)
  identifier_loop-Ends (suc fuel) n str ch l cs (inl last) r h = rw last (ok-Ends utf8 cs r h)
  identifier_loop-Ends (suc fuel) n str ch l cs (inr room) r h =
      elim (Bool-cases (is_identifier_char ch)) [
        | inl more ↦
            let (l1, a) = next_char-Advanced utf8 l cs r in
            rw more (
              rw a.result (
                identifier_loop-Ends fuel n (str ++ ch ∷ []) (head_or_zero cs) l1 (tail cs)
                  (below fuel cs room) a.ready (shorter utf8 cs h)))
        | inr last ↦ rw last (ok-Ends utf8 cs r h)
      ]

  pub long_quote-Halts : {n : ℕ} (quote : ℕ) → Halts utf8 n (long_quote utf8 quote)
  unfolding long_quote
  long_quote-Halts quote = bind-Halts utf8 _ (peek_char-Halts utf8) λ second.
      if-Halts utf8 _
        (bind-Halts utf8 _ (next_char-Halts utf8) λ u.
          bind-Halts utf8 _ (peek_char-Halts utf8) λ third.
            if-Halts utf8 _ (bind-Halts utf8 _ (next_char-Halts utf8) λ u. gets-Halts utf8)
              (gets-Halts utf8))
        (gets-Halts utf8)

  pub new_line-Halts : {n : ℕ} → Halts utf8 n (new_line utf8)
  unfolding new_line
  new_line-Halts = record {
    halts = λ l cs r h.
        let b = set_column (increment_line_number l.source_range.begin) 0 in
        let e = set_column (increment_line_number l.source_range.end) 0 in
        let here = record l { source_range = record { begin = b; end = e } } in
        bind-Ends utf8 _ ((next_char-Halts utf8).halts here cs (record { view = r.view }) h)
          λ c l' cs' r' h'. ok-Ends utf8 cs' r' h';
  }

  low :
      (fuel : ℕ) (ps : List ℕ) (s : Bytes)
      → leb (length s) 2 ≡ true
      → length ps ≤ length s
      → 4 ≤ length ps + suc fuel
      → 0 < fuel
  low fuel ps s short long room = ground arith

  module _ (law : IsLawful utf8) where
    -- The loop over the punctuator table makes three rounds at most.
    pub punctuator_loop-Halts :
        (fuel n : ℕ) (ps : List ℕ) (k : TokenKind) (ch : ℕ)
        → 4 ≤ length ps + fuel
        → 0 < fuel
        → Halts utf8 n (punctuator_loop utf8 fuel ps k ch)
    unfolding punctuator_loop
    punctuator_loop-Halts zero n ps k ch room pos = absurd (omega arith)
    punctuator_loop-Halts (suc fuel) n ps k ch room pos = record {
      halts = λ l cs r h. lift_bind-Ends utf8 (utf8.utf32to8 ps) l _ (law.encode_ends ps) λ s same.
          (option-Halts utf8 (PunctuatorTable.get punctuator_table s) _ _ (gets-Halts utf8)
              λ info found.
                let short = get-length s found in
                let long = law.encodes ps s same in
                bind-Halts utf8 _ (next_char-Halts utf8) λ ch'.
                  punctuator_loop-Halts fuel n (ps ++ ch' ∷ []) info.kind ch'
                    (omega (arith, length-append ps (ch' ∷ [])))
                    (low fuel ps s short long room)).halts
            l cs r h;
    }
