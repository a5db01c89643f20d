-- ===== src/Basic/Format/Select.antt =====
-- The options of `%select{…}`: the modifier formats the one that the argument numbers.
use u_lang.Prelude.{
  ℕ, zero, suc, ◌-◌, ◌≡◌, refl, ap, Bool, ◌&&◌, not, List, [], ◌∷◌, ◌++◌, Bytes, length,
  length-append, All, arith, ◌==◌,
}
use u_lang.Outcome.{Outcome, thrown, assertion}
use u_lang.Basic.Format.{plain, take, scan_format, skip_options, handle_select}

-- A character of an option: no bar, and no percent sign.
abbrev pub is_option_char : ℕ → Bool
is_option_char c = not (c == b'|') && not (c == b'%')

abbrev pub AreOptions : List Bytes → Type 0
AreOptions [] = Unit {0}
AreOptions (o ∷ os) = All is_option_char o × AreOptions os

-- The options, with bars between them.
abbrev pub join : Bytes → List Bytes → Bytes
join o [] = o
join o (q ∷ os) = o ++ b'|' ∷ join q os

-- The option of a number, with the character at its end.
abbrev pub choose : (Bytes → ℕ → Outcome Bytes) → ℕ → Bytes → List Bytes → Outcome Bytes
choose format zero o [] = format o b'}'
choose format zero o (q ∷ os) = format o b'|'
choose format (suc n) o [] = thrown assertion
choose format (suc n) o (q ∷ os) = choose format n q os

scan_format-bar :
    (o r : Bytes) → All is_option_char o → scan_format b'|' plain 0 (o ++ b'|' ∷ r) ≡ b'|' ∷ r
unfolding scan_format
scan_format-bar [] r h = refl
scan_format-bar (c ∷ o) r h = ground (arith, h.0, scan_format-bar o r h.1)

scan_format-none : (o : Bytes) → All is_option_char o → scan_format b'|' plain 0 o ≡ []
unfolding scan_format
scan_format-none [] h = refl
scan_format-none (c ∷ o) h = ground (arith, h.0, scan_format-none o h.1)

take-append : (o r : Bytes) → take (length o) (o ++ r) ≡ o
take-append [] r = refl
take-append (c ∷ o) r = ap (λ t. c ∷ t) (take-append o r)

take-length : (o r : Bytes) → take (length (o ++ r) - length r) (o ++ r) ≡ o
take-length o r =
    let size : length (o ++ r) - length r ≡ length o = omega (arith, length-append o r) in
    rw size (take-append o r)

take-all : (o : Bytes) → take (length o) o ≡ o
take-all [] = refl
take-all (c ∷ o) = ap (λ t. c ∷ t) (take-all o)

-- Where no option has a bar or a percent sign, `%select` formats the option that the argument
-- numbers from 0, up to the bar behind it or the closing brace, and fails an assertion where there
-- are not as many options.
pub handle_select-join :
    (format : Bytes → ℕ → Outcome Bytes) (n : ℕ) (o : Bytes) (os : List Bytes)
    → AreOptions (o ∷ os)
    → handle_select format n (join o os) ≡ choose format n o os
unfolding handle_select skip_options
handle_select-join format zero o [] h =
    let size : length o - 0 ≡ length o = omega arith in
    rw (scan_format-none o h.0) (rw size (rw (take-all o) refl))
handle_select-join format zero o (q ∷ os) h =
    rw (scan_format-bar o (join q os) h.0)
      (ap (λ t. format t b'|') (take-length o (b'|' ∷ join q os)))
handle_select-join format (suc n) o [] h = rw (scan_format-none o h.0) refl
handle_select-join format (suc n) o (q ∷ os) h =
    rw (scan_format-bar o (join q os) h.0) (handle_select-join format n q os h.1)
