-- ===== src/Lexer/Number/Digits.antt =====
-- The digits that `NumberToken` takes, and what becomes of the text of an integer.
use u_lang.Prelude.{
  ℕ, zero, suc, ◌≤◌, ◌≡◌, refl, ap, ◌∙◌, Bool, false, List, [], ◌∷◌, ◌++◌, Bytes, append_assoc,
  append-nil, length, take_while, drop_while, length-take_while, arith, ◌==◌, if◌then◌else◌,
  Bool-cases, inl, inr,
}
use u_lang.Prelude.Ctype.{isdigit, isxdigit}
use u_lang.Outcome.{ok}
use u_lang.Basic.Stream.{Utf8}
use u_lang.Lexer.State.{Lexer}
use u_lang.Lexer.State.Ahead.{
  head_or_zero, Same-refl, Same-trans, Ready, next_char-Advanced, At, Same,
}
use u_lang.Lexer.Number.{
  intpart, done, to_char, push_digit, is_int_char, next_state, take_digits, int_part, number_part,
  number_loop,
}

-- The digits of a text: all of its characters but the underscores.
unfoldable pub digits : List ℕ → Bytes
digits [] = []
digits (c ∷ cs) = if c == b'_' then digits cs else to_char c ∷ digits cs

push_digit-digits :
    (num : Bytes) (c : ℕ) (cs : List ℕ) → push_digit num c ++ digits cs ≡ num ++ digits (c ∷ cs)
unfolding digits
push_digit-digits num c cs = elim (Bool-cases (c == b'_')) [
  | inl y ↦ rw y refl
  | inr n ↦ rw n (append_assoc num (to_char c ∷ []) (digits cs))
]

-- The character behind the longest beginning fails the test.
test-drop_while :
    (test : ℕ → Bool) (cs : List ℕ)
    → test 0 ≡ false
    → test (head_or_zero (drop_while test cs)) ≡ false
unfolding drop_while
test-drop_while test [] z = z
test-drop_while test (c ∷ cs) z = elim (Bool-cases (test c)) [
  | inl more ↦ rw more (test-drop_while test cs z)
  | inr last ↦ rw last last
]

pub is_int_char-zero : (base : ℕ) → is_int_char base 0 ≡ false
unfolding is_int_char isdigit isxdigit
is_int_char-zero base = ground arith

next_state-is_int_char : (c : ℕ) → is_int_char 16 c ≡ false → next_state 16 intpart c ≡ done
unfolding next_state is_int_char isdigit isxdigit
next_state-is_int_char c h = ground arith

-- A hexadecimal integer has neither a fraction nor an exponent.
pub next_state-drop_while :
    (cs : List ℕ) → next_state 16 intpart (head_or_zero (drop_while (is_int_char 16) cs)) ≡ done
next_state-drop_while cs =
    next_state-is_int_char (head_or_zero (drop_while (is_int_char 16) cs))
      (test-drop_while (is_int_char 16) cs (is_int_char-zero 16))

module _ (utf8 : Utf8) where
  -- The lexer stands at these characters, and only the reading has moved it.
  pub record Took (l : Lexer) (cs : List ℕ) (l' : Lexer) : Type 0 where
    pub at : At utf8 l' cs
    pub same : Same l l'

  pub take_digits-take_while :
      (test : ℕ → Bool) (fuel : ℕ) (num : Bytes) (cs : List ℕ) (l : Lexer)
      → test 0 ≡ false
      → length (take_while test cs) ≤ fuel
      → At utf8 l cs
      → (l' : Lexer) × (take_digits utf8 test fuel num (head_or_zero cs) l
          ≡ ok ((num ++ digits (take_while test cs), head_or_zero (drop_while test cs)), l'))
        × Took l (drop_while test cs) l'
  unfolding take_digits take_while drop_while digits
  take_digits-take_while test zero num [] l z h a =
      (l, rw z (rw (append-nil num) refl), record { at = a; same = Same-refl l })
  take_digits-take_while test (suc fuel) num [] l z h a =
      (l, rw z (rw (append-nil num) refl), record { at = a; same = Same-refl l })
  take_digits-take_while test zero num (c ∷ cs) l z h a = elim (Bool-cases (test c)) [
    | inl more ↦ absurd (ground arith)
    | inr last ↦
        (l, rw last (rw (append-nil num) refl), record { at = rw last a; same = Same-refl l })
  ]
  take_digits-take_while test (suc fuel) num (c ∷ cs) l z h a = elim (Bool-cases (test c)) [
    | inl more ↦
        let (l1, n) = next_char-Advanced utf8 l cs a.ready in
        let fits : length (take_while test cs) ≤ fuel = ground arith in
        let (l2, e, d) =
          take_digits-take_while test fuel (push_digit num c) cs l1 z fits
            (record { cur = n.cur; ready = n.ready }) in
        (
          l2,
          rw more (
              rw n.result (
                e
                ∙ ap (λ t. ok ((t, head_or_zero (drop_while test cs)), l2))
                    (push_digit-digits num c (take_while test cs)))),
          record { at = rw more d.at; same = Same-trans n.same d.same },
        )
    | inr last ↦
        (l, rw last (rw (append-nil num) refl), record { at = rw last a; same = Same-refl l })
  ]

  -- The text of an integer, from its first digit on: the loop ends in one round where no fraction
  -- and no exponent follows.
  pub number_loop-digits :
      (fuel base d : ℕ) (cs : List ℕ) (l : Lexer)
      → length cs ≤ fuel
      → next_state base intpart (head_or_zero (drop_while (is_int_char base) cs)) ≡ done
      → Ready utf8 l cs
      → (l' : Lexer) × (number_loop utf8
            (suc (suc fuel))
            base
            intpart
            (record { num = to_char d ∷ []; is_float = false; ch = d })
            l
          ≡ ok (
            record {
              num = to_char d ∷ digits (take_while (is_int_char base) cs);
              is_float = false;
              ch = head_or_zero (drop_while (is_int_char base) cs);
            },
            l',
          ))
        × Took l (drop_while (is_int_char base) cs) l'
  unfolding number_loop number_part int_part
  number_loop-digits fuel base d cs l h stop r =
      let (l1, n) = next_char-Advanced utf8 l cs r in
      let (l2, e, t) =
        take_digits-take_while (is_int_char base) (suc fuel) (to_char d ∷ []) cs l1
          (is_int_char-zero base) (omega (arith, length-take_while (is_int_char base) cs))
          (record { cur = n.cur; ready = n.ready }) in
      (l2, rw n.result (rw e (rw stop refl)), record { at = t.at; same = Same-trans n.same t.same })
