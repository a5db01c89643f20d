-- ===== src/Lexer/Text/Kept.antt =====
-- What the reading of a string keeps of the lexer.
use u_lang.Prelude.{ℕ, zero, suc, ◌^◌, ◌==◌, ◌||◌, Bool, [], ◌∷◌}
use u_lang.Basic.Source.{has_more}
use u_lang.Basic.Stream.{Utf8}
use u_lang.Basic.DiagnosticIds.{
  DiagnosticId, bad_hex_digit, bad_escape_sequence, unterminated_string,
}
use u_lang.Basic.SourceLocation.{SourceLocation}
use u_lang.Lexer.Token.{Numerals}
use u_lang.Lexer.State.{Lexer, next_char, peek_char, diag}
use u_lang.Lexer.State.Kept.{
  Keeps, Stable, bind_from-Keeps, if_from-Keeps, bind-Keeps, gets-Keeps, lift-Keeps, no_fuel-Keeps,
  if-Keeps, next_char-Keeps, peek_char-Keeps, diag-Keeps,
}
use u_lang.Lexer.Text.{
  report_bad, hex_digit, escape, Text, TextEnd, closed, any_type, close_long, scan_char, text_loop,
  finish_text, any_type_token, finish, string_token, hex_to_int,
}

module _ (utf8 : Utf8) {P : Lexer → Type 0} (s : Stable utf8 P) where
  next : Keeps P (next_char utf8)
  next = next_char-Keeps utf8 s

  peek : Keeps P (peek_char utf8)
  peek = peek_char-Keeps utf8 s

  report_bad-Keeps :
      {A : Type 0} (w : SourceLocation) (id : DiagnosticId) (a : A)
      → Keeps P (report_bad (diag w id []) a)
  report_bad-Keeps w id a = bind-Keeps _ (diag-Keeps utf8 s w id []) λ u. gets-Keeps

  hex_digit-Keeps :
      (w : SourceLocation) (weight value : ℕ) → Keeps P (hex_digit utf8 w weight value)
  unfolding hex_digit
  hex_digit-Keeps w weight value = bind-Keeps _ next λ ch.
      if-Keeps _ (bind-Keeps _ (lift-Keeps (hex_to_int ch)) λ v. gets-Keeps)
        (report_bad-Keeps w bad_hex_digit value)

  escape-Keeps : (w : SourceLocation) → Keeps P (escape utf8 w)
  unfolding escape
  escape-Keeps w =
      let digit = hex_digit-Keeps w in
      bind-Keeps _ next λ ch. if-Keeps (ch == b'n') gets-Keeps (
        if-Keeps (ch == b'r') gets-Keeps (
          if-Keeps (ch == b't') gets-Keeps (
            if-Keeps (ch == b'\\') gets-Keeps (
              if-Keeps (ch == b'x' || ch == b'X') (bind-Keeps _ (digit 16 0) λ v. digit 1 v) (
                if-Keeps (ch == b'u' || ch == b'U')
                  (bind-Keeps _ (digit (2 ^ 12) 0) λ v1.
                    bind-Keeps _ (digit (2 ^ 8) v1)
                      λ v2. bind-Keeps _ (digit (2 ^ 4) v2) λ v3. digit 1 v3)
                  (if-Keeps (ch == b'0') gets-Keeps
                    (report_bad-Keeps w bad_escape_sequence ch)))))))

  close_long-Keeps : (quote : ℕ) (t : Text) → Keeps P (close_long utf8 quote t)
  unfolding close_long
  close_long-Keeps quote t = bind-Keeps _ peek λ second.
      if-Keeps _
        (bind-Keeps _ next λ ch. bind-Keeps _ peek λ third.
          if-Keeps _
            (bind-Keeps _ next λ ch'.
              bind-Keeps _ peek
                λ fourth. if-Keeps _ (bind-Keeps _ next λ ch''. gets-Keeps) gets-Keeps)
            gets-Keeps)
        gets-Keeps

  scan_char-Keeps : (quote : ℕ) (long : Bool) (t : Text) → Keeps P (scan_char utf8 quote long t)
  unfolding scan_char
  scan_char-Keeps quote long t =
      if-Keeps (t.ch == b'\\') (bind-Keeps _ (escape-Keeps t.w) λ c. gets-Keeps)
        (if-Keeps (t.ch == quote) (if-Keeps long (close_long-Keeps quote t) gets-Keeps) gets-Keeps)

  text_loop-Keeps :
      (fuel quote : ℕ) (long : Bool) (t : Text) → Keeps P (text_loop utf8 fuel quote long t)
  unfolding text_loop
  text_loop-Keeps zero quote long t = no_fuel-Keeps
  text_loop-Keeps (suc fuel) quote long t = bind-Keeps _ (scan_char-Keeps quote long t) λ r.
      if_from-Keeps (λ l. r.0) _ _ gets-Keeps
        (if_from-Keeps (λ l. has_more l.source) _ _
          (bind-Keeps _ next λ ch. if-Keeps _ gets-Keeps (text_loop-Keeps fuel quote long _))
          (report_bad-Keeps r.1.w unterminated_string (closed r.1)))

  module _ {F I : Type 0} (ap : Numerals F I) where
    finish-Keeps : (long : Bool) (e : TextEnd) → Keeps P (finish utf8 ap long e)
    unfolding finish_text any_type_token
    finish-Keeps long (closed t) = bind-Keeps _ next λ c.
        if-Keeps _ gets-Keeps (bind-Keeps _ (lift-Keeps (utf8.utf32to8 t.str)) λ str. gets-Keeps)
    finish-Keeps long (any_type t) =
        bind-Keeps _ (lift-Keeps (utf8.utf32to8 (b'\'' ∷ t.str))) λ str. gets-Keeps

    -- `StringToken` keeps what `GetChar` keeps.
    pub string_token-Keeps :
        (fuel quote : ℕ) (long : Bool) → Keeps P (string_token utf8 ap fuel quote long)
    unfolding string_token
    string_token-Keeps fuel quote long =
        bind_from-Keeps _ next
          λ l ch. bind-Keeps _ (text_loop-Keeps fuel quote long _) λ e. finish-Keeps long e
