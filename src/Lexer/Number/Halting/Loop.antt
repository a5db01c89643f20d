-- ===== src/Lexer/Number/Halting/Loop.antt =====
-- The loop of `NumberToken` comes to an end.
use u_lang.Prelude.{
  ℕ, zero, suc, true, false, ◌+◌, ◌<◌, ◌≡◌, refl, Bytes, List, [], ◌∷◌, length, arith, ◌==◌,
  if◌then◌else◌, Bool-cases, inl, inr,
}
use u_lang.Outcome
use u_lang.Outcome.{Outcome, ok, thrown, no_fuel, Fault, assertion, ok_inj}
use u_lang.Basic.Stream.{Utf8}
use u_lang.Basic.SourceLocation.{SourceLocation}
use u_lang.Basic.DiagnosticIds.{apreal_overflow, apreal_underflow, apreal_unknown}
use u_lang.Basic.Diagnostic.{std_string}
use u_lang.Lexer.Token.{Numerals, op_ok, op_overflow, op_underflow}
use u_lang.Lexer.State.{Lexer, next_char, pure, diag, ◌>>=◌, ◌>>◌}
use u_lang.Lexer.State.Ahead.{Ready}
use u_lang.Lexer.State.Halting.{
  option-Halts, thrown-Halts, Ends, Halts, ok-Ends, bind-Ends, bind-Halts, bind_from-Halts,
  gets-Halts, if-Halts, Ends-low, next_char-Halts, peek_char-Halts, cur_char-Halts, diag-Halts,
}
use u_lang.Lexer.Number.{
  bit_estimate, Number, NumberState, intpart, to_char, next_state, number_part, number_loop,
  number_prefix, is_done, convert_float, convert_int, number_token,
}
use u_lang.Lexer.Number.Halting.{Round, reads, stops, fails, number_part-Round}

module _ (utf8 : Utf8) where
  number_loop-done :
      (fuel base : ℕ) (state : NumberState) (n : Number) (l : Lexer)
      → is_done utf8 state ≡ true
      → number_loop utf8 fuel base state n l ≡ ok (n, l)
  unfolding number_loop
  number_loop-done zero base state n l h = rw h refl
  number_loop-done (suc fuel) base state n l h = rw h refl

  number_loop-Ends :
      (fuel base : ℕ) (state : NumberState) (n : Number) (l : Lexer) (cs : List ℕ)
      → length cs + 1 < fuel
      → Ready utf8 l cs
      → Ends utf8 (length cs) (number_loop utf8 fuel base state n l)
  unfolding number_loop
  number_loop-Ends zero base state n l cs room r = absurd (omega arith)
  number_loop-Ends (suc fuel) base state n l cs room r = elim (Bool-cases (is_done utf8 state)) [
    | inl last ↦ rw last (ok-Ends utf8 cs r (omega arith))
    | inr more ↦ rw more (
        round (number_part-Round utf8 fuel base state n l cs (omega arith) r more) λ n' l' cs' r' h.
          number_loop-Ends fuel base (next_state base state n'.ch) n' l' cs' (omega arith) r')
  ]
    where
      again : Number × Lexer → Outcome (Number × Lexer)
      again x = number_loop utf8 fuel base (next_state base state x.0.ch) x.0 x.1

      round :
          Round utf8 base state cs (number_part utf8 fuel base state n l)
          → ((n' : Number) (l' : Lexer) (cs' : List ℕ)
              → Ready utf8 l' cs'
              → length cs' < length cs
              → Ends utf8 (length cs') (again (n', l')))
          → Ends utf8 (length cs) (Outcome.◌>>=◌ (number_part utf8 fuel base state n l) again)
      round (reads k e low) ih =
          Ends-low utf8 (omega arith) (
            bind-Ends utf8 again e
              λ n' l' cs' r' h. Ends-low utf8 h (ih n' l' cs' r' (omega arith)))
      round (stops n' l' e r' h) ih = rw e (
          rw (number_loop-done fuel base (next_state base state n'.ch) n' l' (rw h refl))
            (ok-Ends utf8 cs r' (omega arith)))
      round (fails f e) ih = rw e (record { ends = λ x. cc x; leaves = λ a l' x. absurd (cc x) })

  two_chars-Halts :
      {n : ℕ} (base : ℕ)
      → Halts utf8 n {A = ℕ × ℕ} (do next_char utf8; c ← next_char utf8; pure (base, c))
  two_chars-Halts base =
      bind-Halts utf8 _ (next_char-Halts utf8)
        λ u. bind-Halts utf8 _ (next_char-Halts utf8) λ c. gets-Halts utf8

  number_prefix-Halts : {n : ℕ} (ch : ℕ) → Halts utf8 n (number_prefix utf8 ch)
  unfolding number_prefix
  number_prefix-Halts ch =
      if-Halts utf8 _
        (bind-Halts utf8 _ (peek_char-Halts utf8) λ m. if-Halts utf8 _ (two_chars-Halts 16) (
          bind-Halts utf8 _ (peek_char-Halts utf8)
            λ m'. if-Halts utf8 _ (two_chars-Halts 2) (gets-Halts utf8)))
        (gets-Halts utf8)

  module _ {F I : Type 0} (ap : Numerals F I) where
    convert_float-Halts :
        {n : ℕ} (num : Bytes) (w : SourceLocation) → Halts utf8 n (convert_float ap num w)
    unfolding convert_float
    convert_float-Halts {n} num w =
        let result = ap.convert_from_string num in
        let report = diag-Halts utf8 w in
        let told : Halts utf8 n (
            if result.0 == op_overflow
            then diag w apreal_overflow (std_string num ∷ [])
            else if result.0 == op_underflow
            then diag w apreal_underflow (std_string num ∷ [])
            else if result.0 == op_ok
            then pure tt
            else diag w apreal_unknown []) =
          if-Halts utf8 (result.0 == op_overflow) (report apreal_overflow (std_string num ∷ [])) (
            if-Halts utf8 (result.0 == op_underflow) (report apreal_underflow (std_string num ∷ []))
              (if-Halts utf8 (result.0 == op_ok) (gets-Halts utf8) (report apreal_unknown []))) in
        bind-Halts utf8 _ told λ u. gets-Halts utf8

    convert_int-Halts :
        {n : ℕ} (num : Bytes) (w : SourceLocation) (base : ℕ)
        → Halts utf8 n (convert_int ap num w base)
    unfolding convert_int
    convert_int-Halts num w base =
        option-Halts utf8 (ap.int_of_digits (bit_estimate (length num)) num base) _ _
          (thrown-Halts utf8) λ v same. gets-Halts utf8

    -- `NumberToken` ends with two rounds more than there are characters ahead.
    pub number_token-Halts : (fuel n : ℕ) → n + 1 < fuel → Halts utf8 n (number_token ap utf8 fuel)
    unfolding number_token
    number_token-Halts fuel n room = bind-Halts utf8 _ (cur_char-Halts utf8) λ ch.
        bind_from-Halts utf8 _ (number_prefix-Halts ch) λ l p.
          bind-Halts utf8 _
            (record {
              halts = λ l cs r h. Ends-low utf8 h (
                  number_loop-Ends fuel p.0 intpart
                    (record { num = to_char p.1 ∷ []; is_float = false; ch = p.1 }) l cs
                    (omega arith) r);
            })
            λ n. if-Halts utf8 _ (convert_float-Halts n.num _) (convert_int-Halts n.num _ p.0)
