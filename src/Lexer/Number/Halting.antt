-- ===== src/Lexer/Number/Halting.antt =====
-- The parts of a number come to an end, and each round of `NumberToken` reads a character or is
-- the last.
pub mod Loop
use u_lang.Prelude.{
  ℕ, zero, suc, Bool, true, false, ◌+◌, ◌≤◌, ◌<◌, ◌≡◌, ◌⊎◌, refl, ap, ◌∙◌, Bytes, List, [], ◌∷◌,
  ◌++◌, length, arith, ◌==◌, ◌||◌, if◌then◌else◌, Bool-cases, inl, inr,
}
use u_lang.Prelude.Ctype.{isdigit, isxdigit}
use u_lang.Outcome
use u_lang.Outcome.{Outcome, ok, thrown, no_fuel, Fault, assertion, ok_inj}
use u_lang.Basic.Stream.{Utf8}
use u_lang.Basic.SourceLocation.{SourceLocation}
use u_lang.Basic.DiagnosticIds.{apreal_overflow, apreal_underflow, apreal_unknown}
use u_lang.Basic.Diagnostic.{std_string}
use u_lang.Lexer.Token.{Numerals, op_ok, op_overflow, op_underflow}
use u_lang.Lexer.State.{Lexer, M, next_char, peek_char, pure, diag, ◌>>=◌, ◌>>◌}
use u_lang.Lexer.State.Ahead.{Ready, tail, head_or_zero, next_char-Advanced, peek_char-Peeked}
use u_lang.Lexer.State.Halting.{
  Ends, Halts, ok-Ends, bind-Ends, bind-Halts, bind_from-Halts, gets-Halts, thrown-Halts, if-Halts,
  Ends-low, next_char-Halts, peek_char-Halts, cur_char-Halts, diag-Halts, shorter,
}
use u_lang.Lexer.Number.{
  Number, NumberState, intpart, fraction, exponent, done, push_digit, to_char, is_int_char,
  is_fraction_char, next_state, take_digits, int_part, fraction_part, exponent_part, number_part,
  number_loop, number_prefix, is_done, convert_float, number_token,
}
use u_lang.Lexer.Number.Digits.{is_int_char-zero}

is_fraction_char-zero : is_fraction_char 0 ≡ false
unfolding is_fraction_char isdigit
is_fraction_char-zero = refl

isdigit-zero : isdigit 0 ≡ false
unfolding isdigit
isdigit-zero = refl

module _ (utf8 : Utf8) where
  -- A test that fails at 0 fails at the end of the text.
  below :
      (test : ℕ → Bool) (fuel : ℕ) (cs : List ℕ)
      → test 0 ≡ false
      → length cs < suc fuel
      → (test (head_or_zero cs) ≡ false) ⊎ (length (tail cs) < fuel)
  below test fuel [] z h = inl z
  below test fuel (c ∷ cs) z h = inr (omega arith)

  take_digits-Ends :
      (test : ℕ → Bool) (fuel n : ℕ) (num : Bytes) (ch : ℕ) (l : Lexer) (cs : List ℕ)
      → test 0 ≡ false
      → (test ch ≡ false) ⊎ (length cs < fuel)
      → Ready utf8 l cs
      → length cs ≤ n
      → Ends utf8 n (take_digits utf8 test fuel num ch l)
  unfolding take_digits
  take_digits-Ends test zero n num ch l cs z (inl last) r h = rw last (ok-Ends utf8 cs r h)
  take_digits-Ends test zero n num ch l cs z (inr room) r h = absurd (omega arith)
  take_digits-Ends test (suc fuel) n num ch l cs z (inl last) r h = rw last (ok-Ends utf8 cs r h)
  take_digits-Ends test (suc fuel) n num ch l cs z (inr room) r h = elim (Bool-cases (test ch)) [
    | inl more ↦
        let (l1, a) = next_char-Advanced utf8 l cs r in
        rw more (
          rw a.result (
            take_digits-Ends test fuel n (push_digit num ch) (head_or_zero cs) l1 (tail cs) z
              (below test fuel cs z room) a.ready (shorter utf8 cs h)))
    | inr last ↦ rw last (ok-Ends utf8 cs r h)
  ]

  take_digits-Halts :
      (test : ℕ → Bool) (fuel n : ℕ) (num : Bytes) (ch : ℕ)
      → test 0 ≡ false
      → n < fuel
      → Halts utf8 n (take_digits utf8 test fuel num ch)
  take_digits-Halts test fuel n num ch z room = record {
    halts = λ l cs r h. take_digits-Ends test fuel n num ch l cs z (inr (omega arith)) r h;
  }

  take_digits-zero :
      (test : ℕ → Bool) (fuel : ℕ) (num : Bytes) (l : Lexer)
      → test 0 ≡ false
      → take_digits utf8 test fuel num 0 l ≡ ok ((num, 0), l)
  unfolding take_digits
  take_digits-zero test zero num l z = rw z refl
  take_digits-zero test (suc fuel) num l z = rw z refl

  -- A round of the loop of `NumberToken`: it reads a character at least, or is the last, or fails.
  pub data Round (base : ℕ) (state : NumberState) (cs : List ℕ) (o : Outcome (Number × Lexer))
      : Type 0 where
    reads : (k : ℕ) → Ends utf8 k o → k < length cs → Round base state cs o
    stops :
        (n : Number) (l : Lexer)
        → o ≡ ok (n, l)
        → Ready utf8 l cs
        → next_state base state n.ch ≡ done
        → Round base state cs o
    fails : (f : Fault) → o ≡ thrown f → Round base state cs o

  next_state-zero : (base : ℕ) (state : NumberState) → next_state base state 0 ≡ done
  unfolding next_state
  next_state-zero base intpart = refl
  next_state-zero base fraction = refl
  next_state-zero base exponent = refl
  next_state-zero base done = refl

  -- The next character, and the digits that it begins.
  abbrev read_digits : (ℕ → Bool) → ℕ → Bytes → (Bytes × ℕ → Number) → M Number
  read_digits test fuel num result = do
    ch ← next_char utf8
    r ← take_digits utf8 test fuel num ch
    pure (result r)

  read_digits-Round :
      (base : ℕ) (state : NumberState) (test : ℕ → Bool) (fuel : ℕ) (num : Bytes)
      (result : Bytes × ℕ → Number) (l : Lexer) (cs : List ℕ)
      → test 0 ≡ false
      → ((digits : Bytes) → (result (digits, 0)).ch ≡ 0)
      → length cs < fuel
      → Ready utf8 l cs
      → Round base state cs (read_digits test fuel num result l)
  read_digits-Round base state test fuel num result l [] z ended room r =
      let (l1, a) = next_char-Advanced utf8 l [] r in
      stops (result (num, 0)) l1 (rw a.result (rw (take_digits-zero test fuel num l1 z) refl))
        a.ready (ap (λ c. next_state base state c) (ended num) ∙ next_state-zero base state)
  read_digits-Round base state test fuel num result l (c ∷ cs) z ended room r =
      let (l1, a) = next_char-Advanced utf8 l (c ∷ cs) r in
      reads (length cs)
        (rw a.result (
          bind-Ends utf8 _
            (take_digits-Ends test fuel (length cs) num c l1 cs z (inr (omega arith)) a.ready
              (omega arith))
            λ b l' cs' r' h. ok-Ends utf8 cs' r' h))
        (omega arith)

  int_part-Round :
      (fuel base : ℕ) (n : Number) (l : Lexer) (cs : List ℕ)
      → length cs < fuel
      → Ready utf8 l cs
      → Round base intpart cs (int_part utf8 fuel base n l)
  unfolding int_part
  int_part-Round fuel base n l cs room r =
      read_digits-Round base intpart (is_int_char base) fuel n.num
        (λ r. record n { num = r.0; ch = r.1 }) l cs (is_int_char-zero base) (λ digits. refl) room r

  fraction_part-Round :
      (fuel base : ℕ) (n : Number) (l : Lexer) (cs : List ℕ)
      → length cs < fuel
      → Ready utf8 l cs
      → Round base fraction cs (fraction_part utf8 fuel n l)
  unfolding fraction_part next_state
  fraction_part-Round fuel base n l cs room r = elim (Bool-cases (n.ch == b'.')) [
    | inr none ↦ fails assertion (rw none refl)
    | inl dot ↦
        let (l1, p) = peek_char-Peeked utf8 l cs r in
        let last : next_state base fraction n.ch ≡ done = ground arith in
        elim (Bool-cases (head_or_zero cs == b'.')) [
          | inl two ↦ stops n l1 (rw dot (rw p.result (rw two refl))) p.ready last
          | inr one ↦
              let (l2, q) = peek_char-Peeked utf8 l1 cs p.ready in
              elim (Bool-cases (head_or_zero cs == b')')) [
                | inl close ↦
                    stops n l2 (rw dot (rw p.result (rw one (rw q.result (rw close refl))))) q.ready
                      last
                | inr more ↦ rw dot (
                    rw p.result (
                      rw one (
                        rw q.result (
                          rw more (
                            read_digits-Round base fraction is_fraction_char fuel
                              (n.num ++ to_char n.ch ∷ [])
                              (λ r. record { num = r.0; is_float = true; ch = r.1 }) l2 cs
                              (is_fraction_char-zero) (λ digits. refl) room q.ready)))))
              ]
        ]
  ]

  exponent_part-Round :
      (fuel base : ℕ) (n : Number) (l : Lexer) (cs : List ℕ)
      → length cs < fuel
      → Ready utf8 l cs
      → Round base exponent cs (exponent_part utf8 fuel n l)
  unfolding exponent_part
  exponent_part-Round fuel base n l cs room r = elim (Bool-cases (n.ch == b'e' || n.ch == b'E')) [
    | inr none ↦ fails assertion (rw none refl)
    | inl mark ↦ rw mark (signed cs room r)
  ]
    where
      mark : Bytes
      mark = n.num ++ to_char n.ch ∷ []

      rest : ℕ → M Number
      rest sign = do
        let signed = sign == b'+' || sign == b'-'
        ch ← (if signed then next_char utf8 else pure sign)
        r ← take_digits utf8 isdigit fuel (if signed then mark ++ to_char sign ∷ [] else mark) ch
        pure (record { num = r.0; is_float = true; ch = r.1 })

      signed :
          (cs : List ℕ)
          → length cs < fuel
          → Ready utf8 l cs
          → Round base exponent cs (◌>>=◌ (next_char utf8) rest l)
      signed [] room r =
          let (l1, a) = next_char-Advanced utf8 l [] r in
          stops (record { num = mark; is_float = true; ch = 0 }) l1
            (rw a.result (rw (take_digits-zero isdigit fuel mark l1 isdigit-zero) refl)) a.ready
            (next_state-zero base exponent)
      signed (c ∷ cs) room r =
          let (l1, a) = next_char-Advanced utf8 l (c ∷ cs) r in
          let first : Halts utf8 (length cs)
              (if c == b'+' || c == b'-' then next_char utf8 else pure c) =
            if-Halts utf8 _ (next_char-Halts utf8) (gets-Halts utf8) in
          let all : Halts utf8 (length cs) (rest c) = bind-Halts utf8 _ first λ ch.
            bind-Halts utf8 _
              (take_digits-Halts isdigit fuel (length cs) _ ch isdigit-zero (omega arith))
              λ r. gets-Halts utf8 in
          reads (length cs) (rw a.result (all.halts l1 cs a.ready (omega arith))) (omega arith)

  pub number_part-Round :
      (fuel base : ℕ) (state : NumberState) (n : Number) (l : Lexer) (cs : List ℕ)
      → length cs < fuel
      → Ready utf8 l cs
      → is_done utf8 state ≡ false
      → Round base state cs (number_part utf8 fuel base state n l)
  unfolding number_part
  number_part-Round fuel base intpart n l cs room r h = int_part-Round fuel base n l cs room r
  number_part-Round fuel base fraction n l cs room r h = fraction_part-Round fuel base n l cs room r
  number_part-Round fuel base exponent n l cs room r h = exponent_part-Round fuel base n l cs room r
  number_part-Round fuel base done n l cs room r h = absurd (cc h)
