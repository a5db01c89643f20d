-- ===== src/Lexer/Lex/Loops.antt =====
-- The loops of `Lex` on the characters ahead: each comes to an end, and reads what it should.
use u_lang.Prelude.{
  ℕ, zero, suc, ◌≤◌, ◌<◌, ◌≡◌, refl, sym, ap, ◌∙◌, false, Bytes, none, some, List, [], ◌∷◌, ◌++◌,
  append_assoc, append-nil, length, take_while, drop_while, All, not, arith, ◌==◌, Bool-cases, inl,
  inr,
}
use u_lang.Outcome.{ok, no_fuel}
use u_lang.Basic.Stream.{Utf8}
use u_lang.Lexer.State.{Lexer, next_char, location}
use u_lang.Basic.SourceLocation.{SourceLocation}
use u_lang.Lexer.State.Ahead.{
  head_or_zero, Same, Same-refl, Same-trans, Ready, next_char-Advanced, At,
}
use u_lang.Basic.TokenKinds.{TokenKind}
use u_lang.Basic.PunctuatorTable
use u_lang.Basic.PunctuatorTable.{PunctuatorInfo, punctuator_table}
use u_lang.Lexer.Lex.{
  is_identifier_char, identifier_loop, comment_loop, is_space, skip_spaces, punctuator_loop,
}

module _ (utf8 : Utf8) where
  -- How a loop leaves the lexer: at these characters.
  pub record Left (l : Lexer) (cs : List ℕ) (l' : Lexer) : Type 0 where
    pub at : At utf8 l' cs
    pub same : Same l l'

  -- The rest of an identifier is its longest beginning of identifier characters, and the lexer is
  -- left at the character behind it.
  pub identifier_loop-take_while :
      (fuel : ℕ) (str cs : List ℕ) (l : Lexer)
      → length cs ≤ fuel
      → At utf8 l cs
      → (l' : Lexer) × (identifier_loop utf8 fuel str (head_or_zero cs) l
          ≡ ok (str ++ take_while is_identifier_char cs, l'))
        × Left l (drop_while is_identifier_char cs) l'
  unfolding identifier_loop take_while drop_while
  identifier_loop-take_while zero str [] l h a =
      (l, ground (arith, append-nil str), record { at = a; same = Same-refl l })
  identifier_loop-take_while (suc fuel) str [] l h a =
      (l, ground (arith, append-nil str), record { at = a; same = Same-refl l })
  identifier_loop-take_while zero str (c ∷ cs) l h a = absurd (omega arith)
  identifier_loop-take_while (suc fuel) str (c ∷ cs) l h a =
      elim (Bool-cases (is_identifier_char c)) [
        | inl more ↦
            let (l1, n) = next_char-Advanced utf8 l cs a.ready in
            let (l2, e, d) =
              identifier_loop-take_while fuel (str ++ c ∷ []) cs l1 (omega arith)
                (record { cur = n.cur; ready = n.ready }) in
            (
              l2,
              rw more (
                  rw n.result (
                    e
                    ∙ ap (λ t. ok (t, l2))
                        (append_assoc str (c ∷ []) (take_while is_identifier_char cs)))),
              record { at = rw more d.at; same = Same-trans n.same d.same },
            )
        | inr last ↦ (
          l,
          rw last (ground (arith, append-nil str)),
          record { at = rw last a; same = Same-refl l },
        )
      ]

  -- A comment that is closed by a new-line is read up to it.
  pub comment_loop-closed :
      (fuel : ℕ) (comment body rest : List ℕ) (l : Lexer)
      → All (λ c. not (c == b'\n')) body
      → length body < fuel
      → Ready utf8 l (body ++ b'\n' ∷ rest)
      → (l' : Lexer) × (comment_loop utf8 fuel comment l ≡ ok (comment ++ body, l'))
        × Left l (b'\n' ∷ rest) l'
  unfolding comment_loop
  comment_loop-closed zero comment body rest l p h r = absurd (omega arith)
  comment_loop-closed (suc fuel) comment [] rest l p h r =
      let (l1, n) = next_char-Advanced utf8 l (b'\n' ∷ rest) r in
      (
        l1,
        rw n.result (ap (λ t. ok (t, l1)) (sym (append-nil comment))),
        record { at = record { cur = n.cur; ready = n.ready }; same = n.same },
      )
  comment_loop-closed (suc fuel) comment (c ∷ body) rest l p h r =
      let (l1, n) = next_char-Advanced utf8 l (c ∷ (body ++ b'\n' ∷ rest)) r in
      let go_on : (c == b'\n') ≡ false = ground (arith, p.0) in
      let (l2, e, d) =
        comment_loop-closed fuel (comment ++ c ∷ []) body rest l1 p.1 (omega arith) n.ready in
      (
        l2,
        rw n.result (rw go_on (e ∙ ap (λ t. ok (t, l2)) (append_assoc comment (c ∷ []) body))),
        record { at = d.at; same = Same-trans n.same d.same },
      )

  -- A comment that no new-line closes is never read to its end: no number of rounds is enough.
  pub comment_loop-open :
      (fuel : ℕ) (comment cs : List ℕ) (l : Lexer)
      → All (λ c. not (c == b'\n')) cs
      → Ready utf8 l cs
      → comment_loop utf8 fuel comment l ≡ no_fuel
  unfolding comment_loop
  comment_loop-open zero comment cs l p r = refl
  comment_loop-open (suc fuel) comment [] l p r =
      let (l1, n) = next_char-Advanced utf8 l [] r in
      rw n.result (comment_loop-open fuel (comment ++ 0 ∷ []) [] l1 tt n.ready)
  comment_loop-open (suc fuel) comment (c ∷ cs) l p r =
      let (l1, n) = next_char-Advanced utf8 l (c ∷ cs) r in
      let go_on : (c == b'\n') ≡ false = ground (arith, p.0) in
      rw n.result (rw go_on (comment_loop-open fuel (comment ++ c ∷ []) cs l1 p.1 n.ready))

  -- The spaces ahead are skipped, all of them, and the location is that of the character behind.
  pub skip_spaces-drop_while :
      (fuel : ℕ) (cs : List ℕ) (l : Lexer)
      → length (take_while is_space cs) ≤ fuel
      → At utf8 l cs
      → (l' : Lexer) × (skip_spaces utf8 fuel (head_or_zero cs) (location l) l
          ≡ ok ((head_or_zero (drop_while is_space cs), location l'), l'))
        × Left l (drop_while is_space cs) l'
  unfolding skip_spaces take_while drop_while is_space
  skip_spaces-drop_while zero [] l h a = (l, refl, record { at = a; same = Same-refl l })
  skip_spaces-drop_while (suc fuel) [] l h a = (l, refl, record { at = a; same = Same-refl l })
  skip_spaces-drop_while zero (c ∷ cs) l h a = elim (Bool-cases (is_space c)) [
    | inl more ↦ absurd (ground (arith))
    | inr last ↦ (l, rw last refl, record { at = rw last a; same = Same-refl l })
  ]
  skip_spaces-drop_while (suc fuel) (c ∷ cs) l h a = elim (Bool-cases (is_space c)) [
    | inl more ↦
        let (l1, n) = next_char-Advanced utf8 l cs a.ready in
        let fits : length (take_while is_space cs) ≤ fuel = ground arith in
        let (l2, e, d) =
          skip_spaces-drop_while fuel cs l1 fits (record { cur = n.cur; ready = n.ready }) in
        (l2, rw more (rw n.result e), record { at = rw more d.at; same = Same-trans n.same d.same })
    | inr last ↦ (l, rw last refl, record { at = rw last a; same = Same-refl l })
  ]

  pub skip_spaces-none :
      (fuel c : ℕ) (w : SourceLocation) (l : Lexer)
      → is_space c ≡ false
      → skip_spaces utf8 fuel c w l ≡ ok ((c, w), l)
  unfolding skip_spaces
  skip_spaces-none zero c w l h = rw h
  skip_spaces-none (suc fuel) c w l h = rw h

  -- A text that the punctuator table does not hold ends the loop.
  pub punctuator_loop-none :
      (fuel : ℕ) (ps : List ℕ) (k : TokenKind) (c : ℕ) (l : Lexer) (s : Bytes)
      → utf8.utf32to8 ps ≡ ok s
      → PunctuatorTable.get punctuator_table s ≡ none
      → punctuator_loop utf8 (suc fuel) ps k c l ≡ ok ((c, k, ps), l)
  unfolding punctuator_loop
  punctuator_loop-none fuel ps k c l s u h = ground (arith, u, h)

  -- A text that it holds is tried again with the next character.
  pub punctuator_loop-some :
      (fuel : ℕ) (ps : List ℕ) (k : TokenKind) (c : ℕ) (l : Lexer) (s : Bytes)
      (info : PunctuatorInfo) (d : ℕ) (l' : Lexer)
      → utf8.utf32to8 ps ≡ ok s
      → PunctuatorTable.get punctuator_table s ≡ some info
      → next_char utf8 l ≡ ok (d, l')
      → punctuator_loop utf8 (suc fuel) ps k c l
        ≡ punctuator_loop utf8 fuel (ps ++ d ∷ []) info.kind d l'
  unfolding punctuator_loop
  punctuator_loop-some fuel ps k c l s info d l' u h n = ground (arith, u, h, n)
