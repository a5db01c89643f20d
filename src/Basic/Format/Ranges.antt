-- ===== src/Basic/Format/Ranges.antt =====
-- The ranges that the helpers of `FormatDiagnostic` return, which are no longer than the one given,
-- and that the helpers end.
use u_lang.Prelude.{
  ℕ, zero, suc, ◌-◌, ◌≤◌, ◌<◌, ◌≡◌, ◌≢◌, Bool, true, false, [], ◌∷◌, Bytes, length, drop_while,
  arith, if◌then◌else◌, inl, inr,
}
use u_lang.Outcome.{Outcome, ok, no_fuel, ◌>>=◌, >>=-eq-ok, >>=-eq-no_fuel}
use u_lang.Basic.Diagnostic.{Argument, std_string, c_string, sint, uint, token_kind}
use u_lang.Basic.Format.{
  Printing, Scan, plain, escaped, in_modifier, scan_format, take, up_to, head_or, behind,
  skip_options, handle_select, handle_ordinal, format_integer, format_argument, unmodified,
}

module _ {ℓ κ} where
  pub >>=-Ends :
      {A : Type ℓ} {B : Type κ} (call : Outcome A) (rest : A → Outcome B)
      → call ≢ no_fuel
      → ((a : A) → call ≡ ok a → rest a ≢ no_fuel)
      → call >>= rest ≢ no_fuel
  >>=-Ends call rest h k e = elim (>>=-eq-no_fuel call rest e) [
    | inl never ↦ h never
    | inr (a, e1, e2) ↦ k a e2 e1
  ]

weaken : {m n : ℕ} → m ≤ n → m ≤ suc n
weaken h = omega arith

pub length-if :
    (b : Bool) (r s : Bytes) (n : ℕ) → length r ≤ n → length s ≤ n → length (if b then r else s) ≤ n
length-if true r s n h k = h
length-if false r s n h k = k

pub length-scan_format :
    (r : Bytes) (t : ℕ) (s : Scan) (d : ℕ) → length (scan_format t s d r) ≤ length r
unfolding scan_format
length-scan_format [] t s d = omega arith
length-scan_format (c ∷ r) t plain d =
    length-if _ (c ∷ r) _ (suc (length r)) (omega arith) (weaken (length-scan_format r t _ _))
length-scan_format (c ∷ r) t escaped d = weaken (length-scan_format r t _ d)
length-scan_format (c ∷ r) t in_modifier d = weaken (length-scan_format r t _ _)

pub length-take : (n : ℕ) (r : Bytes) → length (take n r) ≤ length r
length-take zero r = omega arith
length-take (suc n) [] = omega arith
length-take (suc n) (c ∷ r) = omega (arith, length-take n r)

pub length-drop_while : (test : ℕ → Bool) (r : Bytes) → length (drop_while test r) ≤ length r
unfolding drop_while
length-drop_while test [] = omega arith
length-drop_while test (c ∷ r) = ground (arith, length-drop_while test r)

pub length-behind : (r : Bytes) {r' : Bytes} → behind r ≡ ok r' → length r' < length r
length-behind [] e = absurd (cc e)
length-behind (c ∷ r) e = ground arith

pub behind-Ends : (r : Bytes) → behind r ≢ no_fuel
behind-Ends [] e = cc e
behind-Ends (c ∷ r) e = cc e

pub length-skip_options :
    (n : ℕ) (r : Bytes) {r' : Bytes} → skip_options n r ≡ ok r' → length r' ≤ length r
unfolding skip_options
length-skip_options zero r e = ground arith
length-skip_options (suc n) r e =
    let s = scan_format b'|' plain 0 r in
    let (r1, e1, e2) = >>=-eq-ok (behind s) _ e in
    omega
      (arith, length-skip_options n r1 e1, length-behind s e2, length-scan_format r b'|' plain 0)

pub skip_options-Ends : (n : ℕ) (r : Bytes) → skip_options n r ≢ no_fuel
unfolding skip_options
skip_options-Ends zero r = λ e. cc e
skip_options-Ends (suc n) r =
    >>=-Ends (behind (scan_format b'|' plain 0 r)) _ (behind-Ends _)
      (λ r1 _. skip_options-Ends n r1)

pub handle_select-Ends :
    (format : Bytes → ℕ → Outcome Bytes) (n : ℕ) (r : Bytes)
    → ((r' : Bytes) (stop : ℕ) → length r' ≤ length r → format r' stop ≢ no_fuel)
    → handle_select format n r ≢ no_fuel
unfolding handle_select
handle_select-Ends format n r h = >>=-Ends (skip_options n r) _ (skip_options-Ends n r) (λ r1 e.
    let end = scan_format b'|' plain 0 r1 in
    h (up_to r1 end) (head_or b'}' end)
      (omega (arith, length-take (length r1 - length end) r1, length-skip_options n r e)))

pub unmodified-Ends : (m s : Bytes) → unmodified m s ≢ no_fuel
unmodified-Ends m s e = absurd (ground arith)

module _ (p : Printing) where
  pub format_integer-Ends :
      (format : Bytes → ℕ → Outcome Bytes) (m r : Bytes) (v : ℕ) (s : Bytes)
      → handle_select format v r ≢ no_fuel
      → format_integer p format m r v s ≢ no_fuel
  unfolding format_integer handle_ordinal
  format_integer-Ends format m r v s h e = absurd (ground (arith, h))

  pub format_argument-Ends :
      (format : Bytes → ℕ → Outcome Bytes) (m r : Bytes) (a : Argument)
      → ((r' : Bytes) (stop : ℕ) → length r' ≤ length r → format r' stop ≢ no_fuel)
      → format_argument p format m r a ≢ no_fuel
  unfolding format_argument
  format_argument-Ends format m r (sint v) h =
      format_integer-Ends format m r v _ (handle_select-Ends format v r h)
  format_argument-Ends format m r (uint v) h =
      format_integer-Ends format m r v _ (handle_select-Ends format v r h)
  format_argument-Ends format m r (std_string s) h = unmodified-Ends m _
  format_argument-Ends format m r (c_string s) h = unmodified-Ends m _
  format_argument-Ends format m r (token_kind k) h = unmodified-Ends m _
