-- ===== src/Lexer/Text.antt =====
-- lib/Lex/Lexer.cpp: `StringToken` and `HexToInt`.
pub mod Printed
pub mod Kept
pub mod Halting
pub mod RoundTrip
use u_lang.Prelude.{
  ℕ, zero, suc, ◌*◌, ◌^◌, Bool, true, false, not, ◌&&◌, ◌||◌, List, [], ◌∷◌, ◌++◌, ◌==◌, length,
  add32, add64, sub64, if◌then◌else◌,
}
use u_lang.Prelude.Ctype.{isxdigit, tolower}
use u_lang.Outcome
use u_lang.Outcome.{Outcome, ok, thrown, no_fuel, assertion}
use u_lang.Basic.SourceLocation.{
  SourceLocation, with_begin, with_end, set_column, set_end_column, increment_line_number,
}
use u_lang.Basic.Stream.{Utf8}
use u_lang.Basic.Source.{has_more}
use u_lang.Basic.TokenKinds.{identifier, rune_constant, string_constant}
use u_lang.Basic.DiagnosticIds.{bad_hex_digit, bad_escape_sequence, unterminated_string}
use u_lang.Lexer.Token.{Token, Numerals, int_token, text_token}
use u_lang.Lexer.State.{M, pure, gets, ◌>>=◌, ◌>>◌, location, diag, next_char, peek_char}

-- `hexCodes`.
abbrev pub hex_codes : List (ℕ × ℕ)
hex_codes =
    (b'0', 0)
    ∷ (b'1', 1)
    ∷ (b'2', 2)
    ∷ (b'3', 3)
    ∷ (b'4', 4)
    ∷ (b'5', 5)
    ∷ (b'6', 6)
    ∷ (b'7', 7)
    ∷ (b'8', 8)
    ∷ (b'9', 9)
    ∷ (b'a', 10)
    ∷ (b'b', 11)
    ∷ (b'c', 12)
    ∷ (b'd', 13)
    ∷ (b'e', 14)
    ∷ (b'f', 15)
    ∷ []

hex_lookup : List (ℕ × ℕ) → ℕ → Outcome ℕ
hex_lookup [] hex = thrown assertion
hex_lookup ((c, v) ∷ codes) hex = if c == tolower hex then ok v else hex_lookup codes hex

-- `HexToInt`.
unfoldable pub hex_to_int : ℕ → Outcome ℕ
unfolding hex_lookup tolower
hex_to_int hex = hex_lookup hex_codes hex

abbrev lift : {A : Type 0} → Outcome A → M A
lift m l = Outcome.◌>>=◌ m (λ a. ok (a, l))

abbrev pub report_bad : {A : Type 0} → M (Unit {0}) → A → M A
report_bad m a = do m; pure a

module _ (utf8 : Utf8) where
  -- One digit of an escape: `value += HexToInt(ch) * weight`.
  unfoldable pub hex_digit : SourceLocation → ℕ → ℕ → M ℕ
  unfolding next_char diag hex_to_int isxdigit
  hex_digit w weight value = do
    ch ← next_char utf8
    if isxdigit ch
        then (do v ← lift (hex_to_int ch); pure (add32 value (v * weight)))
        else report_bad (diag w bad_hex_digit []) value

  -- The escape codes, behind the backslash.
  unfoldable pub escape : SourceLocation → M ℕ
  unfolding hex_digit
  escape w = do
    ch ← next_char utf8
    if ch == b'n'
        then pure b'\n'
        else if ch == b'r'
        then pure b'\r'
        else if ch == b't'
        then pure b'\t'
        else if ch == b'\\'
        then pure b'\\'
        else if ch == b'x' || ch == b'X'
        then (do v ← hex_digit w 16 0; hex_digit w 1 v)
        else if ch == b'u' || ch == b'U'
        then (do
          v1 ← hex_digit w (2 ^ 12) 0
          v2 ← hex_digit w (2 ^ 8) v1
          v3 ← hex_digit w (2 ^ 4) v2
          hex_digit w 1 v3)
        else if ch == b'0'
        then pure 0
        else report_bad (diag w bad_escape_sequence []) ch

-- The end column of `w` moves on by `n`.
abbrev pub widen : SourceLocation → ℕ → SourceLocation
widen w n = set_end_column w (add64 w.range.end.column n)

abbrev pub first_char : List ℕ → ℕ
first_char [] = 0
first_char (c ∷ s) = c

-- The locals of the loop.
pub record Text : Type 0 where
  pub str : List ℕ
  pub w : SourceLocation
  pub add_trailing : Bool
  pub ch : ℕ

abbrev pub move_end : Text → ℕ → Text
move_end t n = record t { w = widen t.w n }

-- How the loop ends: by the quotation mark or the end of the file, or by the token of an ANY type.
pub data TextEnd : Type 0 where
  closed any_type : Text → TextEnd

-- The location behind a character that is kept.
unfoldable pub place_char : Text → Text
place_char t =
    if t.ch == b'\n'
    then record t {
      w = with_end t.w (set_column (increment_line_number t.w.range.end) 1);
      add_trailing = false;
    }
    else move_end t 1

abbrev ends_any_type : ℕ → Bool
ends_any_type ch =
    ch == b')' || (ch == b']' || (ch == b' ' || (ch == b',' || (ch == b'\t' || ch == b'\n'))))

-- The test for ANY types, behind a character that was kept.
unfoldable pub is_any_type : ℕ → Text → Bool
is_any_type quote t =
    quote == b'\'' && (length t.str == 1 && (not (t.ch == b'\'') && ends_any_type t.ch))

module _ (utf8 : Utf8) where
  -- The closing quotation marks of a long string, behind the first: is it closed, and the locals.
  unfoldable pub close_long : ℕ → Text → M (Bool × Text)
  unfolding next_char peek_char
  close_long quote t = do
    second ← peek_char utf8
    if second == quote
        then (do
          ch ← next_char utf8
          third ← peek_char utf8
          if third == quote
              then (do
                ch' ← next_char utf8
                fourth ← peek_char utf8
                if fourth == quote
                    then (do
                      ch'' ← next_char utf8
                      pure (
                        true,
                        move_end (move_end (record t { str = t.str ++ quote ∷ []; ch = ch'' }) 1) 2,
                      ))
                    else pure (true, move_end (record t { ch = ch' }) 2))
              else pure (false, record t { ch = ch }))
        else pure (false, t)

  -- The `switch`: is the string done, and the locals.
  unfoldable pub scan_char : ℕ → Bool → Text → M (Bool × Text)
  unfolding escape close_long
  scan_char quote long t =
      if t.ch == b'\\'
      then (do c ← escape utf8 t.w; pure (false, record t { ch = c }))
      else if t.ch == quote
      then (if long then close_long quote t else pure (true, t))
      else pure (false, t)

  -- `while (!bDone)`.
  unfoldable pub text_loop : ℕ → ℕ → Bool → Text → M TextEnd
  unfolding scan_char place_char is_any_type diag
  text_loop zero quote long t = λ l. no_fuel
  text_loop (suc fuel) quote long t = do
    r ← scan_char quote long t
    more ← gets (λ l. has_more l.source)
    let kept = place_char r.1
    let rest = (do
      ch ← next_char utf8
      let t' = record kept { str = kept.str ++ r.1.ch ∷ []; ch = ch }
      let again = text_loop fuel quote long t'
      if is_any_type quote t' then pure (any_type t') else again)
    if r.0
        then pure (closed r.1)
        else if more
        then rest
        else report_bad (diag r.1.w unterminated_string []) (closed r.1)

  module _ {F I : Type 0} (ap : Numerals F I) where
    -- What becomes of the characters of a string.
    unfoldable pub finish_text : Bool → Text → M (Token F I)
    finish_text long t =
        let w =
          (if t.add_trailing || t.w.range.end.column == 0
            then (if long then widen t.w 3 else widen t.w 1)
            else t.w) in
        do
          next_char utf8
          if length t.str == 1
              then pure (int_token ap rune_constant w (ap.int_of_value 32 (first_char t.str)))
              else (do s ← lift (utf8.utf32to8 t.str); pure (text_token ap string_constant w s))

    unfoldable pub any_type_token : Text → M (Token F I)
    any_type_token t = do
      s ← lift (utf8.utf32to8 (b'\'' ∷ t.str))
      pure (text_token ap identifier t.w s)

    abbrev finish : Bool → TextEnd → M (Token F I)
    finish long (closed t) = finish_text long t
    finish long (any_type t) = any_type_token t

    -- `StringToken`.
    unfoldable pub string_token : ℕ → ℕ → Bool → M (Token F I)
    unfolding next_char text_loop finish_text any_type_token
    string_token fuel quote long = do
      w ← gets location
      ch ← next_char utf8
      let back = sub64 w.range.begin.column 2
      let w' =
          (if long then set_end_column (with_begin w (set_column w.range.begin back)) back else w)
      e ← text_loop fuel quote long (record { str = []; w = w'; add_trailing = true; ch = ch })
      finish long e
