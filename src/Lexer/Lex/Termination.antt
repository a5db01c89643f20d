-- ===== src/Lexer/Lex/Termination.antt =====
-- `Lex` comes to an end, but at a line comment that no new-line closes.
use mathlib.Core.Path.{subst}
use u_lang.Prelude.{
  ℕ, ◌+◌, ◌≤◌, ◌<◌, ◌≡◌, ◌≢◌, ◌↔◌, refl, sym, ◌∙◌, Bool, true, false, not, ◌&&◌, List, [], ◌∷◌,
  length, drop_while, length-take_while, arith, ◌==◌, leb, Bool-cases, inl, inr,
}
use u_lang.Outcome.{no_fuel}
use u_lang.Basic.SourceLocation.{SourceLocation}
use u_lang.Basic.Stream.{Utf8, IsLawful}
use u_lang.Basic.Source.{has_more}
use u_lang.Basic.TokenKinds.{unknown}
use u_lang.Lexer.Token.{Numerals}
use u_lang.Lexer.State.{Lexer, location}
use u_lang.Lexer.State.Ahead.{Ready, At, tail, head_or_zero, next_char-Advanced, peek_char-Peeked}
use u_lang.Lexer.State.Halting.{
  Halts, ok-Ends, lift_bind-Ends, bind-Halts, gets-Halts, lift-Halts, if-Halts, next_char-Halts,
  shorter,
}
use u_lang.Lexer.Number.Halting.Loop.{number_token-Halts}
use u_lang.Lexer.Text.Halting.{string_token-Halts}
use u_lang.Lexer.Lex.{
  is_space, lex_comment, lex_identifier, lex_other, lex_rest, lex_punctuator, lex_token, lex,
}
use u_lang.Lexer.Lex.Loops.{comment_loop-closed}
use u_lang.Lexer.Lex.Tokens.{lex-drop_while, lex-no_space, lex-open_comment}
use u_lang.Lexer.Lex.Halting.{
  identifier_loop-Ends, long_quote-Halts, new_line-Halts, if_from-Halts, punctuator_loop-Halts,
}
use u_lang.Lexer.Lex.Comments.{has_new_line, opens_comment, has_new_line-Body, opens_comment-All}

length-drop_while : (p : ℕ → Bool) (cs : List ℕ) → length (drop_while p cs) ≤ length cs
unfolding drop_while
length-drop_while p [] = omega arith
length-drop_while p (c ∷ cs) = ground (arith, length-drop_while p cs)

space-slash : is_space b'/' ≡ false
unfolding is_space
space-slash = refl

module _ {F I : Type 0} (ap' : Numerals F I) (utf8 : Utf8) (law : IsLawful utf8) where
  module _ {n : ℕ} where
    lex_identifier-Halts :
        (fuel : ℕ) (w : SourceLocation) (ch : ℕ)
        → n < fuel
        → Halts utf8 n (lex_identifier ap' utf8 fuel w ch)
    unfolding lex_identifier
    lex_identifier-Halts fuel w ch room = bind-Halts utf8 _ (next_char-Halts utf8) λ ch'.
        bind-Halts utf8 _
          (record {
            halts = λ l cs r h.
                identifier_loop-Ends utf8 fuel n (ch ∷ []) ch' l cs (inr (omega arith)) r h;
          })
          λ vec.
            bind-Halts utf8 _ (lift-Halts utf8 (utf8.utf32to8 vec) (law.encode_ends vec))
              λ str. gets-Halts utf8

    lex_other-Halts : (w : SourceLocation) (ch : ℕ) → Halts utf8 n (lex_other ap' utf8 w ch)
    unfolding lex_other
    lex_other-Halts w ch =
        if-Halts utf8 (ch == b'\n') (bind-Halts utf8 _ (new_line-Halts utf8) λ u. gets-Halts utf8) (
          if_from-Halts utf8 (λ l. not (has_more l.source) && (leb l.cur_valid 1 && ch == 0)) _ _
            (gets-Halts utf8) (bind-Halts utf8 _ (next_char-Halts utf8) λ u. gets-Halts utf8))

    lex_rest-Halts :
        (fuel : ℕ) (w : SourceLocation) (ch : ℕ)
        → n + 1 < fuel
        → Halts utf8 n (lex_rest ap' utf8 fuel w ch)
    unfolding lex_rest
    lex_rest-Halts fuel w ch room =
        if-Halts utf8 _
          (bind-Halts utf8 _ (long_quote-Halts utf8 ch)
            λ long. string_token-Halts utf8 ap' law fuel ch long (omega arith))
          (if-Halts utf8 _ (lex_identifier-Halts fuel w ch (omega arith))
            (if-Halts utf8 _ (number_token-Halts utf8 ap' fuel n room) (lex_other-Halts w ch)))

    lex_punctuator-Halts :
        (fuel : ℕ) (w : SourceLocation) (ch : ℕ)
        → n + 1 < fuel
        → 3 ≤ fuel
        → Halts utf8 n (lex_punctuator ap' utf8 fuel w ch)
    unfolding lex_punctuator
    lex_punctuator-Halts fuel w ch room pos =
        bind-Halts utf8 _
          (punctuator_loop-Halts utf8 law fuel n (ch ∷ []) unknown ch (omega arith) (omega arith))
          λ p. if-Halts utf8 _ (lex_rest-Halts fuel w p.0 room) (gets-Halts utf8)

  lex_comment-ne-no_fuel :
      (fuel : ℕ) (w : SourceLocation) (l : Lexer) (cs : List ℕ)
      → length cs < fuel
      → has_new_line cs ≡ true
      → Ready utf8 l (b'/' ∷ cs)
      → lex_comment ap' utf8 fuel w l ≢ no_fuel
  unfolding lex_comment
  lex_comment-ne-no_fuel fuel w l cs room h r =
      let b = has_new_line-Body cs h in
      let (l1, n) = next_char-Advanced utf8 l (b'/' ∷ cs) r in
      let (l2, e, d) =
        comment_loop-closed utf8 fuel [] b.body b.rest l1 b.plain (omega (arith, b.short))
          (subst (Ready utf8 l1) b.parts n.ready) in
      let (l3, m) = next_char-Advanced utf8 l2 b.rest d.at.ready in
      rw n.result (
        rw e (
          rw m.result
            (lift_bind-Ends utf8 {n = length (tail b.rest)} (utf8.utf32to8 b.body) l3 _
              (law.encode_ends b.body)
              λ str same. ok-Ends utf8 (tail b.rest) m.ready (omega arith)).ends))

  -- No comment begins here.
  lex_token-plain :
      (fuel : ℕ) (w : SourceLocation) (l : Lexer) (cs : List ℕ)
      → (head_or_zero cs == b'/' && head_or_zero (tail cs) == b'/') ≡ false
      → length cs + 1 < fuel
      → 3 ≤ fuel
      → Ready utf8 l (tail cs)
      → lex_token ap' utf8 fuel w (head_or_zero cs) l ≢ no_fuel
  unfolding lex_token
  lex_token-plain fuel w l cs h room pos r =
      let room' : length (tail cs) + 1 < fuel =
        omega (arith, shorter utf8 {n = length cs} cs (omega arith)) in
      let rest = lex_punctuator-Halts {n = length (tail cs)} fuel w (head_or_zero cs) room' pos in
      elim (Bool-cases (head_or_zero cs == b'/')) [
        | inr other ↦ rw other (rest.halts l (tail cs) r (omega arith)).ends
        | inl slash ↦
            let (l1, k) = peek_char-Peeked utf8 l (tail cs) r in
            let one : (head_or_zero (tail cs) == b'/') ≡ false = ground arith in
            rw slash (rw k.result (rw one (rest.halts l1 (tail cs) k.ready (omega arith)).ends))
      ]

  lex_token-comment :
      (fuel : ℕ) (w : SourceLocation) (l : Lexer) (cs : List ℕ)
      → has_new_line cs ≡ true
      → length cs < fuel
      → Ready utf8 l (b'/' ∷ cs)
      → lex_token ap' utf8 fuel w b'/' l ≢ no_fuel
  unfolding lex_token
  lex_token-comment fuel w l cs h room r =
      let (l1, k) = peek_char-Peeked utf8 l (b'/' ∷ cs) r in
      rw k.result (lex_comment-ne-no_fuel fuel w l1 cs room h k.ready)

  lex_token-ne-no_fuel :
      (fuel : ℕ) (w : SourceLocation) (l : Lexer) (cs : List ℕ)
      → opens_comment cs ≡ false
      → length cs + 1 < fuel
      → 3 ≤ fuel
      → Ready utf8 l (tail cs)
      → lex_token ap' utf8 fuel w (head_or_zero cs) l ≢ no_fuel
  lex_token-ne-no_fuel fuel w l [] h room pos r = lex_token-plain fuel w l [] refl room pos r
  lex_token-ne-no_fuel fuel w l (c ∷ []) h room pos r =
      lex_token-plain fuel w l (c ∷ []) (ground arith) room pos r
  lex_token-ne-no_fuel fuel w l (c ∷ d ∷ cs) h room pos r =
      elim (Bool-cases (c == b'/' && d == b'/')) [
        | inr other ↦ lex_token-plain fuel w l (c ∷ d ∷ cs) other room pos r
        | inl two ↦
            let first : c ≡ b'/' = ground arith in
            let second : d ≡ b'/' = ground arith in
            let closed : has_new_line cs ≡ true = ground arith in
            rw first (
              lex_token-comment fuel w l cs closed (omega arith)
                (subst (λ x. Ready utf8 l (x ∷ cs)) second r))
      ]

  -- With a lawful decoder and three rounds more than there are characters ahead: `Lex` does not
  -- return within its rounds if, and only if, behind the spaces ahead there is a line comment that
  -- no new-line closes. On every other text it returns a token or throws.
  pub lex-opens_comment :
      (fuel : ℕ) (cs : List ℕ) (l : Lexer)
      → length cs + 3 ≤ fuel
      → At utf8 l cs
      → (lex ap' utf8 fuel l ≡ no_fuel) ↔ (opens_comment (drop_while is_space cs) ≡ true)
  lex-opens_comment fuel cs l room a =
      let (l', e, d) =
        lex-drop_while ap' utf8 fuel cs l (omega (arith, length-take_while is_space cs)) a in
      let ahead = drop_while is_space cs in
      (
        λ none. elim (Bool-cases (opens_comment ahead)) [
          | inl opened ↦ opened
          | inr closed ↦ absurd (
              lex_token-ne-no_fuel fuel (location l') l' ahead closed
                (omega (arith, length-drop_while is_space cs)) (omega arith) d.at.ready
                (sym e ∙ none))
        ],
        λ opened.
            let (body, shape, plain) = opens_comment-All ahead opened in
            let begin = b'/' ∷ b'/' ∷ body in
            let at : At utf8 l' begin = subst (At utf8 l') shape d.at in
            rw shape at e
            ∙ sym (lex-no_space ap' utf8 fuel begin l' space-slash at)
            ∙ lex-open_comment ap' utf8 fuel body l' plain at,
      )
