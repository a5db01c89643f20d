-- ===== src/Lexer/Number/Fractions.antt =====
-- The text of a real number with a fraction.
use mathlib.Core.Path.{subst}
use u_lang.Prelude.{
  ℕ, suc, ◌+◌, ◌≤◌, ◌<◌, ◌≡◌, refl, sym, ap, Bool, ◌∙◌, true, false, List, [], ◌∷◌, ◌++◌, Bytes,
  length, length-take_while, take_while, drop_while, arith, ◌==◌,
}
use u_lang.Prelude.Ctype.{isdigit}
use u_lang.Outcome.{ok}
use u_lang.Basic.Stream.{Utf8}
use u_lang.Lexer.State.{Lexer}
use u_lang.Lexer.State.Ahead.{
  head_or_zero, Same-trans, Ready, next_char-Advanced, peek_char-Peeked, At,
}
use u_lang.Lexer.Number.{
  intpart, fraction, done, to_char, is_int_char, is_fraction_char, next_state, int_part,
  fraction_part, number_part, number_loop,
}
use u_lang.Lexer.Number.Digits.{digits, Took, take_digits-take_while, is_int_char-zero}

length-drop_while : (test : ℕ → Bool) (cs : List ℕ) → length (drop_while test cs) ≤ length cs
unfolding drop_while
length-drop_while test [] = omega arith
length-drop_while test (c ∷ cs) = ground (arith, length-drop_while test cs)

module _ (utf8 : Utf8) where
  -- At the dot: the fraction is read, where neither a dot nor a parenthesis comes next.
  fraction_part-digits :
      (fuel : ℕ) (num : Bytes) (f : ℕ) (fs : List ℕ) (l : Lexer)
      → length (f ∷ fs) ≤ fuel
      → (f == b'.') ≡ false
      → (f == b')') ≡ false
      → Ready utf8 l (f ∷ fs)
      → (l' : Lexer) × (fraction_part utf8 fuel
            (record { num = num; is_float = false; ch = b'.' })
            l
          ≡ ok (
            record {
              num = (num ++ b'.' ∷ []) ++ digits (take_while is_fraction_char (f ∷ fs));
              is_float = true;
              ch = head_or_zero (drop_while is_fraction_char (f ∷ fs));
            },
            l',
          ))
        × Took utf8 l (drop_while is_fraction_char (f ∷ fs)) l'
  unfolding fraction_part
  fraction_part-digits fuel num f fs l h no_dot no_close r =
      let (l1, k) = peek_char-Peeked utf8 l (f ∷ fs) r in
      let (l2, m) = peek_char-Peeked utf8 l1 (f ∷ fs) k.ready in
      let (l3, n) = next_char-Advanced utf8 l2 (f ∷ fs) m.ready in
      let (l4, e, t) =
        take_digits-take_while utf8 is_fraction_char fuel (num ++ b'.' ∷ []) (f ∷ fs) l3
          (unfold is_fraction_char isdigit in refl)
          (omega (arith, length-take_while is_fraction_char (f ∷ fs)))
          (record { cur = n.cur; ready = n.ready }) in
      (
        l4,
        rw k.result (rw no_dot (rw m.result (rw no_close (rw n.result (rw e refl))))),
        record {
          at = t.at;
          same = Same-trans (Same-trans (Same-trans k.same m.same) n.same) t.same;
        },
      )

  -- From the first digit of the number on.
  pub number_loop-fraction :
      (fuel d : ℕ) (cs : List ℕ) (f : ℕ) (fs : List ℕ) (l : Lexer)
      → length cs + 1 < fuel
      → drop_while (is_int_char 10) cs ≡ b'.' ∷ f ∷ fs
      → (f == b'.') ≡ false
      → (f == b')') ≡ false
      → next_state 10 fraction (head_or_zero (drop_while is_fraction_char (f ∷ fs))) ≡ done
      → Ready utf8 l cs
      → (l' : Lexer) × (number_loop utf8
            (suc (suc (suc fuel)))
            10
            intpart
            (record { num = to_char d ∷ []; is_float = false; ch = d })
            l
          ≡ ok (
            record {
              num =
                  ((to_char d ∷ digits (take_while (is_int_char 10) cs)) ++ b'.' ∷ [])
                  ++ digits (take_while is_fraction_char (f ∷ fs));
              is_float = true;
              ch = head_or_zero (drop_while is_fraction_char (f ∷ fs));
            },
            l',
          ))
        × Took utf8 l (drop_while is_fraction_char (f ∷ fs)) l'
  unfolding number_loop number_part int_part next_state
  number_loop-fraction fuel d cs f fs l h dot no_dot no_close stop r =
      let shorter = length-drop_while (is_int_char 10) cs in
      let size : length (b'.' ∷ f ∷ fs) ≡ length (drop_while (is_int_char 10) cs) =
        ap (λ (t : List ℕ). length t) (sym dot) in
      let (l1, n) = next_char-Advanced utf8 l cs r in
      let (l2, e, t) =
        take_digits-take_while utf8 (is_int_char 10) (suc (suc fuel)) (to_char d ∷ []) cs l1
          (is_int_char-zero 10) (omega (arith, length-take_while (is_int_char 10) cs))
          (record { cur = n.cur; ready = n.ready }) in
      let here = subst (λ x. At utf8 l2 x) dot t.at in
      let taken =
        e
        ∙ ap (λ x. ok ((to_char d ∷ digits (take_while (is_int_char 10) cs), head_or_zero x), l2))
            dot in
      let (l3, g, v) =
        fraction_part-digits (suc fuel) (to_char d ∷ digits (take_while (is_int_char 10) cs)) f fs
          l2 (omega arith) no_dot no_close here.ready in
      (
        l3,
        rw n.result (rw taken (rw g (rw stop refl))),
        record { at = v.at; same = Same-trans (Same-trans n.same t.same) v.same },
      )
