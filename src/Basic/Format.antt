-- ===== src/Basic/Format.antt =====
-- lib/Basic/Diagnostic.cpp: `FormatDiagnostic` and its helpers. A range of the format is the list of
-- its characters, with the character that stands at its end (the NUL of the message, or the bar or
-- brace that ends an option); reading in a range never goes on beyond that character.
pub mod Template
pub mod Ranges
pub mod Termination
pub mod Select
use u_lang.Prelude.{
  ℕ, zero, suc, ◌-◌, Bool, not, ◌&&◌, ◌||◌, [], ◌∷◌, ◌++◌, Bytes, Option, none, some, codes,
  bytes_eq, length, get_elem?, take_while, drop_while, add32, sub32, ltb, leb, ◌==◌, if◌then◌else◌,
}
use u_lang.Prelude.Ctype.{isdigit, ispunct, isprint}
use u_lang.Outcome.{Outcome, ok, thrown, no_fuel, assertion, out_of_bounds, ◌>>=◌}
use u_lang.Basic.TokenKinds.{
  TokenKind, get_token_name, get_punctuator_spelling, get_keyword_spelling,
}
use u_lang.Basic.DiagnosticIds.{DiagnosticInfo, mapping_get}
use u_lang.Basic.Diagnostic.{
  Argument, std_string, c_string, sint, uint, token_kind, DiagnosticEngine,
}

-- What `llvm::raw_svector_ostream` writes for an `int`, given as its 32-bit pattern, and for an
-- `unsigned`, and `llvm::getOrdinalSuffix`.
pub record Printing : Type 0 where
  pub print_int : ℕ → Bytes
  pub print_unsigned : ℕ → Bytes
  pub ordinal_suffix : ℕ → Bytes

-- `ModifierIs`.
abbrev modifier_is : Bytes → Bytes → Bool
modifier_is modifier str = bytes_eq modifier str

-- Where the loop of `ScanFormat` is: at its head, behind a `%`, or in a modifier.
pub data Scan : Type 0 where
  plain escaped in_modifier : Scan

-- `ScanFormat`: the range from the target on; nothing, if it is not found.
unfoldable pub scan_format : ℕ → Scan → ℕ → Bytes → Bytes
unfolding isdigit ispunct
scan_format target state depth [] = []
scan_format target plain depth (c ∷ r) =
    let closed = if not (depth == 0) && c == b'}' then sub32 depth 1 else depth in
    let rest = scan_format target (if c == b'%' then escaped else plain) closed r in
    if depth == 0 && c == target then c ∷ r else rest
scan_format target escaped depth (c ∷ r) =
    let named = not (isdigit c) && not (ispunct c) in
    scan_format target (if named then in_modifier else plain) depth r
scan_format target in_modifier depth (c ∷ r) =
    let over = isdigit c || c == b'{' in
    scan_format target (if over then plain else in_modifier)
      (if c == b'{' then add32 depth 1 else depth) r

abbrev pub take : ℕ → Bytes → Bytes
take zero r = []
take (suc n) [] = []
take (suc n) (c ∷ r) = c ∷ take n r

-- The range from `r` up to its end `e`.
abbrev pub up_to : Bytes → Bytes → Bytes
up_to r e = take (length r - length e) r

abbrev pub head_or : ℕ → Bytes → ℕ
head_or stop [] = stop
head_or stop (c ∷ r) = c

abbrev pub behind : Bytes → Outcome Bytes
behind [] = thrown assertion
behind (c ∷ r) = ok r

-- `while (ValNo)` of `HandleSelectModifier`.
unfoldable pub skip_options : ℕ → Bytes → Outcome Bytes
unfolding scan_format
skip_options zero r = ok r
skip_options (suc n) r = do r' ← behind (scan_format b'|' plain 0 r); skip_options n r'

-- `HandleSelectModifier`, with `FormatDiagnostic` for the option.
unfoldable pub handle_select : (Bytes → ℕ → Outcome Bytes) → ℕ → Bytes → Outcome Bytes
unfolding skip_options scan_format
handle_select format val_no argument = do
  r ← skip_options val_no argument
  let e = scan_format b'|' plain 0 r
  format (up_to r e) (head_or b'}' e)

-- `HandleIntegerSModifier`.
unfoldable pub handle_s : ℕ → Bytes
handle_s val_no = if val_no == 1 then [] else codes "s"

module _ (p : Printing) where
  -- `HandleOrdinalModifier`.
  unfoldable pub handle_ordinal : ℕ → Outcome Bytes
  handle_ordinal val_no =
      if val_no == 0
      then thrown assertion
      else ok (p.print_unsigned val_no ++ p.ordinal_suffix val_no)

  -- The cases of the two kinds of integers.
  unfoldable pub format_integer :
      (Bytes → ℕ → Outcome Bytes) → Bytes → Bytes → ℕ → Bytes → Outcome Bytes
  unfolding handle_select handle_s handle_ordinal bytes_eq
  format_integer format modifier argument val printed =
      if modifier_is modifier (codes "select")
      then handle_select format val argument
      else if modifier_is modifier (codes "s")
      then ok (handle_s val)
      else if modifier_is modifier (codes "ordinal")
      then handle_ordinal val
      else if length modifier == 0
      then ok printed
      else thrown assertion

abbrev pub unmodified : Bytes → Bytes → Outcome Bytes
unmodified modifier s = if length modifier == 0 then ok s else thrown assertion

abbrev string_or_null : Option Bytes → Bytes
string_or_null none = codes "(null)"
string_or_null (some s) = s

abbrev spelling_or_name : Option Bytes → Option Bytes → Bytes → Bytes
spelling_or_name (some s) k name = b'\'' ∷ (s ++ b'\'' ∷ [])
spelling_or_name none (some s) name = s
spelling_or_name none none name = b'<' ∷ (name ++ b'>' ∷ [])

-- The spelling of a token kind; each has a name.
unfoldable pub format_token_kind : TokenKind → Bytes
unfolding get_punctuator_spelling get_keyword_spelling get_token_name
format_token_kind k =
    spelling_or_name (get_punctuator_spelling k) (get_keyword_spelling k) (get_token_name k)

-- `switch (Kind)`.
unfoldable pub format_argument :
    Printing → (Bytes → ℕ → Outcome Bytes) → Bytes → Bytes → Argument → Outcome Bytes
unfolding format_integer format_token_kind
format_argument p format modifier argument (std_string s) = unmodified modifier s
format_argument p format modifier argument (c_string s) = unmodified modifier (string_or_null s)
format_argument p format modifier argument (sint v) =
    format_integer p format modifier argument v (p.print_int v)
format_argument p format modifier argument (uint v) =
    format_integer p format modifier argument v (p.print_unsigned v)
format_argument p format modifier argument (token_kind k) =
    unmodified modifier (format_token_kind k)

abbrev pub slot : Option Argument → Outcome Argument
slot none = thrown out_of_bounds
slot (some a) = ok a

-- `getArgKind(Idx)`, with the argument itself.
unfoldable pub get_argument : DiagnosticEngine → ℕ → Outcome Argument
get_argument e i =
    if ltb i e.num_diag_args then slot (get_elem? e.diag_arguments i) else thrown assertion

pub record Placeholder : Type 0 where
  pub modifier : Bytes
  pub argument : Bytes
  pub arg_no : ℕ
  pub rest : Bytes

abbrev pub is_modifier_char : ℕ → Bool
is_modifier_char c = c == b'-' || (leb b'a' c && leb c b'z')

abbrev pub arg_digit : Bytes → Bytes → Bytes → Outcome Placeholder
arg_digit modifier argument [] = thrown assertion
arg_digit modifier argument (d ∷ r) =
    if isdigit d
    then ok (record { modifier = modifier; argument = argument; arg_no = d - b'0'; rest = r })
    else thrown assertion

-- The braces behind a modifier, if they are there.
abbrev pub arg_braces : Bytes → Bytes → Outcome Placeholder
arg_braces modifier [] = arg_digit modifier [] []
arg_braces modifier (c ∷ r) =
    let e = scan_format b'}' plain 0 r in
    if c == b'{'
    then (do r' ← behind e; arg_digit modifier (up_to r e) r')
    else arg_digit modifier [] (c ∷ r)

-- A placeholder, behind its `%`.
unfoldable pub placeholder : Bytes → Outcome Placeholder
unfolding isdigit take_while drop_while scan_format
placeholder r =
    if isdigit (head_or 0 r)
    then arg_digit [] [] r
    else arg_braces (take_while is_modifier_char r) (drop_while is_modifier_char r)

abbrev pub is_text_char : ℕ → Bool
is_text_char c = not (c == b'%')

abbrev keep_printable : Bytes → Bytes
keep_printable [] = []
keep_printable (c ∷ s) = if isprint c || c == b'\t' then c ∷ keep_printable s else keep_printable s

-- The loop goes on at this place, and its text comes behind the other.
abbrev pub then_text : Bytes → Outcome Bytes → Outcome Bytes
then_text s rest = rest >>= λ t. ok (s ++ t)

abbrev pub printable_argument : Outcome Argument → Outcome Bytes → Outcome Bytes
printable_argument (ok (std_string s)) other = ok (keep_printable s)
printable_argument (ok a) other = other
printable_argument (thrown f) other = thrown f
printable_argument no_fuel other = no_fuel

module _ (p : Printing) (e : DiagnosticEngine) where
  -- The case of a format that is `%0` and nothing else, in front of the loop.
  unfoldable pub whole_argument : Bytes → Outcome Bytes → Outcome Bytes
  unfolding bytes_eq get_argument isprint
  whole_argument r other =
      if bytes_eq r (codes "%0") then printable_argument (get_argument e 0) other else other

  -- `while (DiagStr != DiagEnd)`. A pointer that has passed the end is outside the string.
  unfoldable pub format_loop : ℕ → Bytes → ℕ → Outcome Bytes
  unfolding placeholder format_argument get_argument ispunct whole_argument take_while drop_while
  format_loop zero [] stop = ok []
  format_loop zero (c ∷ r) stop = no_fuel
  format_loop (suc fuel) [] stop = ok []
  format_loop (suc fuel) (c ∷ r) stop =
      let text =
        then_text (take_while is_text_char (c ∷ r))
          (format_loop fuel (drop_while is_text_char (c ∷ r)) stop) in
      let again = λ (r' : Bytes). format_loop fuel r' stop in
      let nested = λ (r' : Bytes) (stop' : ℕ). whole_argument r' (format_loop fuel r' stop') in
      let mark : Outcome Bytes = elim r [
        | [] ↦ thrown out_of_bounds
        | d ∷ r' ↦ then_text (d ∷ []) (again r')
      ] in
      let field = (do
        h ← placeholder r
        a ← get_argument e h.arg_no
        s ← format_argument p nested h.modifier h.argument a
        then_text s (again h.rest)) in
      if is_text_char c then text else (if ispunct (head_or stop r) then mark else field)

  -- `FormatDiagnostic(DiagStr, DiagEnd, OutStr)`: each round shortens the range.
  unfoldable pub format_range : Bytes → ℕ → Outcome Bytes
  unfolding whole_argument format_loop
  format_range r stop = whole_argument r (format_loop (suc (length r)) r stop)

  abbrev format_message : Option DiagnosticInfo → Outcome Bytes
  format_message none = thrown assertion
  format_message (some i) = format_range i.message 0

  -- `FormatDiagnostic(OutStr)`.
  unfoldable pub format_diagnostic : Outcome Bytes
  unfolding mapping_get format_range
  format_diagnostic = format_message (mapping_get e.cur_diag_id)
