-- ===== src/Basic/Format/Template.antt =====
-- Formats as templates: what `FormatDiagnostic` makes of a printed template is what it means.
use u_lang.Prelude.{
  ℕ, zero, suc, ◌+◌, ◌-◌, ◌<◌, ◌≡◌, refl, ap, ◌∙◌, true, false, List, [], ◌∷◌, ◌++◌, Bytes, codes,
  bytes_eq, length, take_while, drop_while, arith, ◌==◌, if◌then◌else◌, Bool-cases, inl, inr,
}
use u_lang.Prelude.Ctype.{isdigit, ispunct}
use u_lang.Outcome.{Outcome, ok, thrown, no_fuel, assertion, ◌>>=◌}
use u_lang.Basic.Diagnostic.{
  Argument, std_string, c_string, sint, uint, token_kind, DiagnosticEngine,
}
use u_lang.Basic.Format.{
  Printing, handle_s, handle_ordinal, format_integer, format_argument, format_token_kind,
  string_or_null, get_argument, is_modifier_char, placeholder, is_text_char, then_text, head_or,
  format_loop, format_range, whole_argument,
}

-- What stands for an argument: its value, the letter of the plural, or the ordinal number.
pub data Field : Type 0 where
  value plural ordinal : Field

pub data Piece : Type 0 where
  character mark : ℕ → Piece
  field : Field → ℕ → Piece

abbrev pub modifier_of : Field → Bytes
modifier_of value = []
modifier_of plural = codes "s"
modifier_of ordinal = codes "ordinal"

unfoldable pub print : List Piece → Bytes
print [] = []
print (character c ∷ ps) = c ∷ print ps
print (mark c ∷ ps) = b'%' ∷ c ∷ print ps
print (field f i ∷ ps) = b'%' ∷ (modifier_of f ++ (b'0' + i) ∷ print ps)

-- A character is no percent sign, a mark is punctuation, and an argument has one digit.
abbrev pub IsTemplate : List Piece → Type 0
IsTemplate [] = Unit {0}
IsTemplate (character c ∷ ps) = (is_text_char c ≡ true) × IsTemplate ps
IsTemplate (mark c ∷ ps) = (ispunct c ≡ true) × IsTemplate ps
IsTemplate (field f i ∷ ps) = (i < 10) × IsTemplate ps

module _ (p : Printing) where
  abbrev pub shown : Argument → Bytes
  shown (std_string s) = s
  shown (c_string s) = string_or_null s
  shown (sint v) = p.print_int v
  shown (uint v) = p.print_unsigned v
  shown (token_kind k) = format_token_kind k

  abbrev pub counted : Field → ℕ → Bytes → Outcome Bytes
  counted value v s = ok s
  counted plural v s = ok (if v == 1 then [] else codes "s")
  counted ordinal v s =
      if v == 0 then thrown assertion else ok (p.print_unsigned v ++ p.ordinal_suffix v)

  -- A field for an argument; only numbers have a plural and an ordinal.
  unfoldable pub filled : Field → Argument → Outcome Bytes
  filled f (sint v) = counted f v (p.print_int v)
  filled f (uint v) = counted f v (p.print_unsigned v)
  filled value a = ok (shown a)
  filled _ a = thrown assertion

  unfoldable pub meaning : DiagnosticEngine → List Piece → Outcome Bytes
  unfolding filled get_argument
  meaning e [] = ok []
  meaning e (character c ∷ ps) = meaning e ps >>= λ t. ok (c ∷ t)
  meaning e (mark c ∷ ps) = meaning e ps >>= λ t. ok (c ∷ t)
  meaning e (field f i ∷ ps) =
      get_argument e i >>= λ a. filled f a >>= λ s. meaning e ps >>= λ t. ok (s ++ t)

  format_integer-counted :
      (format : Bytes → ℕ → Outcome Bytes) (f : Field) (v : ℕ) (s : Bytes)
      → format_integer p format (modifier_of f) [] v s ≡ counted f v s
  unfolding format_integer handle_s handle_ordinal
  format_integer-counted format value v s = refl
  format_integer-counted format plural v s = refl
  format_integer-counted format ordinal v s = refl

  format_argument-filled :
      (format : Bytes → ℕ → Outcome Bytes) (f : Field) (a : Argument)
      → format_argument p format (modifier_of f) [] a ≡ filled f a
  unfolding format_argument filled
  format_argument-filled format f (sint v) = format_integer-counted format f v (p.print_int v)
  format_argument-filled format f (uint v) = format_integer-counted format f v (p.print_unsigned v)
  format_argument-filled format value (std_string s) = refl
  format_argument-filled format plural (std_string s) = refl
  format_argument-filled format ordinal (std_string s) = refl
  format_argument-filled format value (c_string s) = refl
  format_argument-filled format plural (c_string s) = refl
  format_argument-filled format ordinal (c_string s) = refl
  format_argument-filled format value (token_kind k) = refl
  format_argument-filled format plural (token_kind k) = refl
  format_argument-filled format ordinal (token_kind k) = refl

-- The digit of an argument ends the modifier.
placeholder-digit :
    (f : Field) (d i : ℕ) (r : Bytes)
    → isdigit d ≡ true
    → is_modifier_char d ≡ false
    → (d == b'{') ≡ false
    → d - b'0' ≡ i
    → placeholder (modifier_of f ++ d ∷ r)
      ≡ ok (record { modifier = modifier_of f; argument = []; arg_no = i; rest = r })
unfolding placeholder isdigit take_while drop_while
placeholder-digit value d i r digit ends no_brace back = rw digit (rw back refl)
placeholder-digit plural d i r digit ends no_brace back =
    rw ends (rw no_brace (rw digit (rw back refl)))
placeholder-digit ordinal d i r digit ends no_brace back =
    rw ends (rw no_brace (rw digit (rw back refl)))

placeholder-print :
    (f : Field) (i : ℕ) (r : Bytes)
    → i < 10
    → placeholder (modifier_of f ++ (b'0' + i) ∷ r)
      ≡ ok (record { modifier = modifier_of f; argument = []; arg_no = i; rest = r })
placeholder-print f i r h =
    placeholder-digit f (b'0' + i) i r (unfold isdigit in ground arith) (ground arith)
      (ground arith) (omega arith)

-- Behind a percent sign, a field is not a mark.
ispunct-field :
    (f : Field) (i stop : ℕ) (r : Bytes)
    → i < 10
    → ispunct (head_or stop (modifier_of f ++ (b'0' + i) ∷ r)) ≡ false
unfolding ispunct
ispunct-field value i stop r h = ground arith
ispunct-field plural i stop r h = refl
ispunct-field ordinal i stop r h = refl

length-modifier_of : (f : Field) (d : ℕ) (r : Bytes) → length r < length (modifier_of f ++ d ∷ r)
length-modifier_of value d r = omega arith
length-modifier_of plural d r = omega arith
length-modifier_of ordinal d r = omega arith

then_text-cons :
    (c : ℕ) (s : Bytes) (x : Outcome Bytes)
    → then_text (c ∷ s) x ≡ (then_text s x >>= λ t. ok (c ∷ t))
then_text-cons c s (ok t) = refl
then_text-cons c s (thrown f) = refl
then_text-cons c s no_fuel = refl

module _ (p : Printing) (e : DiagnosticEngine) (stop : ℕ) where
  -- Enough fuel makes of the rest what it means.
  abbrev Means : Bytes → Outcome Bytes → Type 0
  Means r m = (fuel : ℕ) → length r < fuel → format_loop p e fuel r stop ≡ m

  format_loop-character :
      (c : ℕ) (r : Bytes) (m : Outcome Bytes)
      → is_text_char c ≡ true
      → Means r m
      → Means (c ∷ r) (m >>= λ t. ok (c ∷ t))
  unfolding format_loop take_while drop_while
  format_loop-character c r m text rest zero h = absurd (omega arith)
  format_loop-character c [] m text rest (suc fuel) h = rw text (rw (rest fuel (omega arith)) refl)
  format_loop-character c (d ∷ r) m text rest (suc fuel) h = elim (Bool-cases (is_text_char d)) [
    | inl more ↦
        let same = rw more at (rest (suc fuel) (omega arith)) in
        rw text (
          rw more (
            then_text-cons c (d ∷ take_while is_text_char r)
              (format_loop p e fuel (drop_while is_text_char r) stop)
            ∙ ap (λ x. x >>= λ t. ok (c ∷ t)) same))
    | inr last ↦ rw text (rw last (rw (rest fuel (omega arith)) refl))
  ]

  format_loop-mark :
      (c : ℕ) (r : Bytes) (m : Outcome Bytes)
      → ispunct c ≡ true
      → Means r m
      → Means (b'%' ∷ c ∷ r) (m >>= λ t. ok (c ∷ t))
  unfolding format_loop
  format_loop-mark c r m punct rest zero h = absurd (omega arith)
  format_loop-mark c r m punct rest (suc fuel) h = rw punct (rw (rest fuel (omega arith)) refl)

  substitute :
      (x : Outcome Argument) (format : Argument → Outcome Bytes) (f : Field) (m : Outcome Bytes)
      → ((a : Argument) → format a ≡ filled p f a)
      → (x >>= λ a. format a >>= λ s. then_text s m)
        ≡ (x >>= λ a. filled p f a >>= λ s. m >>= λ t. ok (s ++ t))
  substitute (ok a) format f m same = rw (same a) refl
  substitute (thrown t) format f m same = refl
  substitute no_fuel format f m same = refl

  format_loop-field :
      (f : Field) (i : ℕ) (r : Bytes) (m : Outcome Bytes)
      → i < 10
      → Means r m
      → Means
          (b'%' ∷ (modifier_of f ++ (b'0' + i) ∷ r))
          (get_argument e i >>= λ a. filled p f a >>= λ s. m >>= λ t. ok (s ++ t))
  unfolding format_loop
  format_loop-field f i r m few rest zero h = absurd (omega arith)
  format_loop-field f i r m few rest (suc fuel) h =
      let shorter : length r < fuel = omega (arith, length-modifier_of f (b'0' + i) r) in
      rw (ispunct-field f i stop r few) (
        rw (placeholder-print f i r few) (
          rw (rest fuel shorter) (
            substitute (get_argument e i) _ f m (λ a.
              format_argument-filled p (λ r' s'. whole_argument p e r' (format_loop p e fuel r' s'))
                f a))))

  format_loop-print : (ps : List Piece) → IsTemplate ps → Means (print ps) (meaning p e ps)
  unfolding print meaning
  format_loop-print [] h zero k = absurd (omega arith)
  format_loop-print [] h (suc fuel) k = unfold format_loop in refl
  format_loop-print (character c ∷ ps) h fuel k =
      format_loop-character c (print ps) (meaning p e ps) h.0 (format_loop-print ps h.1) fuel k
  format_loop-print (mark c ∷ ps) h fuel k =
      format_loop-mark c (print ps) (meaning p e ps) h.0 (format_loop-print ps h.1) fuel k
  format_loop-print (field f i ∷ ps) h fuel k =
      format_loop-field f i (print ps) (meaning p e ps) h.0 (format_loop-print ps h.1) fuel k

-- A printed template is formatted to what it means: each character stands for itself, a mark
-- behind a percent sign for the mark, and a field for its argument, in its form; an argument
-- that is not there, or that does not have the form, fails an assertion. The one format that is not
-- treated so is `%0` alone.
pub format_range-print :
    (p : Printing) (e : DiagnosticEngine) (ps : List Piece) (stop : ℕ)
    → IsTemplate ps
    → bytes_eq (print ps) (codes "%0") ≡ false
    → format_range p e (print ps) stop ≡ meaning p e ps
unfolding format_range whole_argument
format_range-print p e ps stop h other =
    rw other (format_loop-print p e stop ps h (suc (length (print ps))) (omega arith))
