-- ===== src/Basic/Format/Termination.antt =====
-- `FormatDiagnostic` ends on every format.
use u_lang.Prelude.{
  get_elem?, bytes_eq, codes, ℕ, zero, suc, ◌-◌, ◌≤◌, ◌<◌, ◌≡◌, ◌≢◌, refl, [], ◌∷◌, Bytes, Option,
  none, some, length, take_while, drop_while, arith, ◌==◌, Bool-cases, inl, inr,
}
use u_lang.Prelude.Ctype.{isdigit, ispunct}
use u_lang.Outcome.{Outcome, ok, thrown, no_fuel, ◌>>=◌, >>=-eq-ok}
use u_lang.Basic.Diagnostic.{
  Argument, std_string, c_string, sint, uint, token_kind, DiagnosticEngine,
}
use u_lang.Basic.Format.{
  Printing, plain, scan_format, up_to, head_or, behind, format_argument, slot, get_argument,
  Placeholder, is_modifier_char, arg_digit, arg_braces, placeholder, is_text_char, then_text,
  printable_argument, whole_argument, format_loop, format_range,
}
use u_lang.Basic.Format.Ranges.{
  >>=-Ends, length-scan_format, length-take, length-drop_while, length-behind, behind-Ends,
  format_argument-Ends,
}

slot-Ends : (o : Option Argument) → slot o ≢ no_fuel
slot-Ends none e = cc e
slot-Ends (some a) e = cc e

get_argument-Ends : (e : DiagnosticEngine) (i : ℕ) → get_argument e i ≢ no_fuel
unfolding get_argument
get_argument-Ends e i h = absurd (ground (arith, slot-Ends (get_elem? e.diag_arguments i)))

-- A placeholder that was read is shorter than the range, and so is its argument.
record Fits (n : ℕ) (h : Placeholder) : Type 0 where
  rest : length h.rest < n
  argument : length h.argument ≤ n

arg_digit-Fits :
    (m a r : Bytes) {h : Placeholder}
    → arg_digit m a r ≡ ok h
    → (length h.rest < length r) × (length h.argument ≤ length a)
arg_digit-Fits m a [] e = absurd (cc e)
arg_digit-Fits m a (d ∷ r) e = ground arith

arg_digit-Ends : (m a r : Bytes) → arg_digit m a r ≢ no_fuel
arg_digit-Ends m a [] e = cc e
arg_digit-Ends m a (d ∷ r) e = absurd (ground arith)

arg_braces-Fits : (m r : Bytes) {h : Placeholder} → arg_braces m r ≡ ok h → Fits (length r) h
arg_braces-Fits m [] e = absurd (cc e)
arg_braces-Fits m (c ∷ r) e = elim (Bool-cases (c == b'{')) [
  | inl y ↦
      let end = scan_format b'}' plain 0 r in
      let (r', e1, e2) = >>=-eq-ok (behind end) _ (rw y at e) in
      let (f, g) = arg_digit-Fits m (up_to r end) r' e1 in
      record {
        rest = omega (arith, f, length-behind end e2, length-scan_format r b'}' plain 0);
        argument = omega (arith, g, length-take (length r - length end) r);
      }
  | inr n ↦
      let (f, g) = arg_digit-Fits m [] (c ∷ r) (rw n at e) in
      record { rest = f; argument = omega (arith, g) }
]

arg_braces-Ends : (m r : Bytes) → arg_braces m r ≢ no_fuel
arg_braces-Ends m [] e = cc e
arg_braces-Ends m (c ∷ r) e = elim (Bool-cases (c == b'{')) [
  | inl y ↦
      let end = scan_format b'}' plain 0 r in
      >>=-Ends (behind end) (λ r'. arg_digit m (up_to r end) r') (behind-Ends end)
        (λ r' _. arg_digit-Ends m (up_to r end) r') (rw y at e)
  | inr n ↦ arg_digit-Ends m [] (c ∷ r) (rw n at e)
]

placeholder-Fits : (r : Bytes) {h : Placeholder} → placeholder r ≡ ok h → Fits (length r) h
unfolding placeholder
placeholder-Fits r e = elim (Bool-cases (isdigit (head_or 0 r))) [
  | inl y ↦
      let (f, g) = arg_digit-Fits [] [] r (rw y at e) in
      record { rest = f; argument = omega (arith, g) }
  | inr n ↦
      let f =
        arg_braces-Fits (take_while is_modifier_char r) (drop_while is_modifier_char r)
          (rw n at e) in
      let shorter = length-drop_while is_modifier_char r in
      record { rest = omega (arith, f.rest); argument = omega (arith, f.argument) }
]

placeholder-Ends : (r : Bytes) → placeholder r ≢ no_fuel
unfolding placeholder
placeholder-Ends r e = elim (Bool-cases (isdigit (head_or 0 r))) [
  | inl y ↦ arg_digit-Ends [] [] r (rw y at e)
  | inr n ↦
      arg_braces-Ends (take_while is_modifier_char r) (drop_while is_modifier_char r) (rw n at e)
]

then_text-Ends : (s : Bytes) (m : Outcome Bytes) → m ≢ no_fuel → then_text s m ≢ no_fuel
then_text-Ends s (ok t) h e = cc e
then_text-Ends s (thrown f) h e = cc e
then_text-Ends s no_fuel h e = h refl

module _ (p : Printing) (e : DiagnosticEngine) where
  printable_argument-Ends :
      (x : Outcome Argument) (m : Outcome Bytes)
      → x ≢ no_fuel
      → m ≢ no_fuel
      → printable_argument x m ≢ no_fuel
  printable_argument-Ends (ok (std_string s)) m g h = λ k. cc k
  printable_argument-Ends (ok (c_string s)) m g h = h
  printable_argument-Ends (ok (sint v)) m g h = h
  printable_argument-Ends (ok (uint v)) m g h = h
  printable_argument-Ends (ok (token_kind t)) m g h = h
  printable_argument-Ends (thrown f) m g h = λ k. cc k
  printable_argument-Ends no_fuel m g h = λ k. g refl

  whole_argument-Ends :
      (r : Bytes) (m : Outcome Bytes) → m ≢ no_fuel → whole_argument p e r m ≢ no_fuel
  unfolding whole_argument
  whole_argument-Ends r m h = elim (Bool-cases (bytes_eq r (codes "%0"))) [
    | inl y ↦ rw y (printable_argument-Ends (get_argument e 0) m (get_argument-Ends e 0) h)
    | inr n ↦ rw n h
  ]

  abbrev LoopEnds : ℕ → Type 0
  LoopEnds fuel = (r : Bytes) (stop : ℕ) → length r < fuel → format_loop p e fuel r stop ≢ no_fuel

  field-Ends :
      (fuel : ℕ) (r : Bytes) (stop : ℕ)
      → LoopEnds fuel
      → length r < fuel
      → (placeholder r >>= λ h. get_argument e h.arg_no >>= λ a.
          format_argument p
            (λ r' stop'. whole_argument p e r' (format_loop p e fuel r' stop'))
            h.modifier
            h.argument
            a
          >>= λ s. then_text s (format_loop p e fuel h.rest stop))
        ≢ no_fuel
  field-Ends fuel r stop ends short = >>=-Ends (placeholder r) _ (placeholder-Ends r) (λ h q.
      let f = placeholder-Fits r q in
      >>=-Ends (get_argument e h.arg_no) _ (get_argument-Ends e h.arg_no) (λ a _.
        >>=-Ends
          (format_argument p (λ r' stop'. whole_argument p e r' (format_loop p e fuel r' stop'))
            h.modifier h.argument a)
          _
          (format_argument-Ends p _ h.modifier h.argument a
            (λ r' stop' less. whole_argument-Ends r' _ (ends r' stop' (omega (arith, f.argument)))))
          (λ s _. then_text-Ends s _ (ends h.rest stop (omega (arith, f.rest))))))

  format_loop-Ends : (fuel : ℕ) → LoopEnds fuel
  unfolding format_loop take_while drop_while
  format_loop-Ends zero r stop h = absurd (omega arith)
  format_loop-Ends (suc fuel) [] stop h = λ k. cc k
  format_loop-Ends (suc fuel) (c ∷ []) stop h = elim (Bool-cases (is_text_char c)) [
    | inl y ↦ rw y (then_text-Ends (c ∷ []) _ (format_loop-Ends fuel [] stop (omega arith)))
    | inr n ↦ elim (Bool-cases (ispunct stop)) [
      | inl y ↦ rw n (rw y (λ k. cc k))
      | inr m ↦ rw n (rw m (field-Ends fuel [] stop (format_loop-Ends fuel) (omega arith)))
    ]
  ]
  format_loop-Ends (suc fuel) (c ∷ d ∷ r) stop h = elim (Bool-cases (is_text_char c)) [
    | inl y ↦
        let shorter = length-drop_while is_text_char (d ∷ r) in
        rw y (
          then_text-Ends (c ∷ take_while is_text_char (d ∷ r)) _
            (format_loop-Ends fuel (drop_while is_text_char (d ∷ r)) stop (omega arith)))
    | inr n ↦ elim (Bool-cases (ispunct d)) [
      | inl y ↦ rw n (rw y (then_text-Ends (d ∷ []) _ (format_loop-Ends fuel r stop (omega arith))))
      | inr m ↦ rw n (rw m (field-Ends fuel (d ∷ r) stop (format_loop-Ends fuel) (omega arith)))
    ]
  ]

  -- `FormatDiagnostic` comes to an end on every range of characters, whatever the arguments: with a
  -- text or with an assertion or a pointer outside the string, never for want of fuel.
  pub format_range-Ends : (r : Bytes) (stop : ℕ) → format_range p e r stop ≢ no_fuel
  unfolding format_range
  format_range-Ends r stop =
      whole_argument-Ends r _ (format_loop-Ends (suc (length r)) r stop (omega arith))
