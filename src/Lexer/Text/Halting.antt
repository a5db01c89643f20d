-- ===== src/Lexer/Text/Halting.antt =====
-- The reading of a string comes to an end.
use u_lang.Prelude.{
  ℕ, zero, suc, ◌+◌, ◌≤◌, ◌<◌, ◌≡◌, ◌≢◌, ◌^◌, ◌==◌, ◌||◌, Bool, List, [], ◌∷◌, length, arith,
  Bool-cases, inl, inr, true,
}
use u_lang.Prelude.Ctype.{tolower}
use u_lang.Outcome.{no_fuel}
use u_lang.Basic.Source.{has_more}
use u_lang.Basic.Stream.{Utf8, IsLawful}
use u_lang.Basic.DiagnosticIds.{
  DiagnosticId, bad_hex_digit, bad_escape_sequence, unterminated_string,
}
use u_lang.Basic.SourceLocation.{SourceLocation}
use u_lang.Lexer.Token.{Numerals}
use u_lang.Lexer.State.{Lexer, diag}
use u_lang.Lexer.State.Ahead.{Ready, tail, next_char-Advanced}
use u_lang.Lexer.State.Halting.{
  Ends, Halts, ok-Ends, bind-Ends, bind-Halts, bind_from-Halts, gets-Halts, lift-Halts, if-Halts,
  Ends-low, next_char-Halts, peek_char-Halts, diag-Halts,
}
use u_lang.Lexer.Text.{
  report_bad, hex_digit, escape, Text, TextEnd, closed, any_type, close_long, scan_char, text_loop,
  finish_text, any_type_token, finish, string_token, hex_to_int, hex_lookup, hex_codes,
}

hex_lookup-ne-no_fuel : (codes : List (ℕ × ℕ)) (hex : ℕ) → hex_lookup codes hex ≢ no_fuel
unfolding hex_lookup tolower
hex_lookup-ne-no_fuel [] hex e = cc e
hex_lookup-ne-no_fuel ((c, v) ∷ codes) hex e = elim (Bool-cases (c == tolower hex)) [
  | inl y ↦ cc (rw y at e)
  | inr n ↦ hex_lookup-ne-no_fuel codes hex (rw n at e)
]

hex_to_int-ne-no_fuel : (hex : ℕ) → hex_to_int hex ≢ no_fuel
unfolding hex_to_int
hex_to_int-ne-no_fuel hex = hex_lookup-ne-no_fuel hex_codes hex

module _ (utf8 : Utf8) {n : ℕ} where
  report_bad-Halts :
      {A : Type 0} (w : SourceLocation) (id : DiagnosticId) (a : A)
      → Halts utf8 n (report_bad (diag w id []) a)
  report_bad-Halts w id a = bind-Halts utf8 _ (diag-Halts utf8 w id []) λ u. gets-Halts utf8

  hex_digit-Halts :
      (w : SourceLocation) (weight value : ℕ) → Halts utf8 n (hex_digit utf8 w weight value)
  unfolding hex_digit
  hex_digit-Halts w weight value = bind-Halts utf8 _ (next_char-Halts utf8) λ ch.
      if-Halts utf8 _
        (bind-Halts utf8 _ (lift-Halts utf8 (hex_to_int ch) (hex_to_int-ne-no_fuel ch))
          λ v. gets-Halts utf8)
        (report_bad-Halts w bad_hex_digit value)

  escape-Halts : (w : SourceLocation) → Halts utf8 n (escape utf8 w)
  unfolding escape
  escape-Halts w =
      let digit = hex_digit-Halts w in
      bind-Halts utf8 _ (next_char-Halts utf8) λ ch. if-Halts utf8 (ch == b'n') (gets-Halts utf8) (
        if-Halts utf8 (ch == b'r') (gets-Halts utf8) (
          if-Halts utf8 (ch == b't') (gets-Halts utf8) (
            if-Halts utf8 (ch == b'\\') (gets-Halts utf8) (
              if-Halts utf8 (ch == b'x' || ch == b'X')
                (bind-Halts utf8 _ (digit 16 0) λ v. digit 1 v)
                (if-Halts utf8 (ch == b'u' || ch == b'U')
                  (bind-Halts utf8 _ (digit (2 ^ 12) 0) λ v1.
                    bind-Halts utf8 _ (digit (2 ^ 8) v1)
                      λ v2. bind-Halts utf8 _ (digit (2 ^ 4) v2) λ v3. digit 1 v3)
                  (if-Halts utf8 (ch == b'0') (gets-Halts utf8)
                    (report_bad-Halts w bad_escape_sequence ch)))))))

  close_long-Halts : (quote : ℕ) (t : Text) → Halts utf8 n (close_long utf8 quote t)
  unfolding close_long
  close_long-Halts quote t = bind-Halts utf8 _ (peek_char-Halts utf8) λ second.
      if-Halts utf8 _
        (bind-Halts utf8 _ (next_char-Halts utf8) λ ch.
          bind-Halts utf8 _ (peek_char-Halts utf8) λ third.
            if-Halts utf8 _
              (bind-Halts utf8 _ (next_char-Halts utf8) λ ch'.
                bind-Halts utf8 _ (peek_char-Halts utf8) λ fourth.
                  if-Halts utf8 _ (bind-Halts utf8 _ (next_char-Halts utf8) λ ch''. gets-Halts utf8)
                    (gets-Halts utf8))
              (gets-Halts utf8))
        (gets-Halts utf8)

  scan_char-Halts :
      (quote : ℕ) (long : Bool) (t : Text) → Halts utf8 n (scan_char utf8 quote long t)
  unfolding scan_char
  scan_char-Halts quote long t =
      if-Halts utf8 (t.ch == b'\\') (bind-Halts utf8 _ (escape-Halts t.w) λ c. gets-Halts utf8) (
        if-Halts utf8 (t.ch == quote)
          (if-Halts utf8 long (close_long-Halts quote t) (gets-Halts utf8)) (gets-Halts utf8))

module _ (utf8 : Utf8) where
  -- Where the source has more, a character is ahead.
  has_more-ahead :
      (l : Lexer) (cs : List ℕ)
      → Ready utf8 l cs
      → has_more l.source ≡ true
      → length (tail cs) + 1 ≡ length cs
  has_more-ahead l [] r h =
      absurd (elim r.view [ inl one ↦ cc (h, one.2) | inr two ↦ cc (h, two.3) ])
  has_more-ahead l (c ∷ cs) r h = omega arith

  text_loop-Ends :
      (fuel n quote : ℕ) (long : Bool) (t : Text) (l : Lexer) (cs : List ℕ)
      → n < fuel
      → Ready utf8 l cs
      → length cs ≤ n
      → Ends utf8 n (text_loop utf8 fuel quote long t l)
  unfolding text_loop
  text_loop-Ends zero n quote long t l cs room r h = absurd (omega arith)
  text_loop-Ends (suc fuel) n quote long t l cs room r h =
      bind-Ends utf8 _ ((scan_char-Halts utf8 quote long t).halts l cs r h) λ s l1 cs1 r1 h1.
        elim (Bool-cases s.0) [
          | inl last ↦ rw last (ok-Ends utf8 cs1 r1 h1)
          | inr more ↦ elim (Bool-cases (has_more l1.source)) [
            | inr none ↦ rw more (
                rw none (
                  (report_bad-Halts utf8 s.1.w unterminated_string (closed s.1)).halts l1 cs1 r1
                    h1))
            | inl some ↦
                let (l2, a) = next_char-Advanced utf8 l1 cs1 r1 in
                let ahead = has_more-ahead l1 cs1 r1 some in
                let again : (t' : Text)
                    → Halts utf8 (length (tail cs1)) (text_loop utf8 fuel quote long t') =
                  λ t'. record {
                    halts = λ l' cs' r' h'.
                        text_loop-Ends fuel (length (tail cs1)) quote long t' l' cs' (omega arith)
                          r' h';
                  } in
                rw more (
                  rw some (
                    rw a.result (
                      Ends-low utf8 (omega arith) (
                        (if-Halts utf8 _ (gets-Halts utf8) (again _)).halts l2 (tail cs1) a.ready
                          (omega arith)))))
          ]
        ]

  text_loop-Halts :
      (fuel n quote : ℕ) (long : Bool) (t : Text)
      → n < fuel
      → Halts utf8 n (text_loop utf8 fuel quote long t)
  text_loop-Halts fuel n quote long t room = record {
    halts = λ l cs r h. text_loop-Ends fuel n quote long t l cs room r h;
  }

  module _ {F I : Type 0} (ap : Numerals F I) (law : IsLawful utf8) {n : ℕ} where
    finish-Halts : (long : Bool) (e : TextEnd) → Halts utf8 n (finish utf8 ap long e)
    unfolding finish_text any_type_token
    finish-Halts long (closed t) = bind-Halts utf8 _ (next_char-Halts utf8) λ c.
        if-Halts utf8 _ (gets-Halts utf8) (
          bind-Halts utf8 _ (lift-Halts utf8 (utf8.utf32to8 t.str) (law.encode_ends t.str))
            λ str. gets-Halts utf8)
    finish-Halts long (any_type t) =
        bind-Halts utf8 _
          (lift-Halts utf8 (utf8.utf32to8 (b'\'' ∷ t.str)) (law.encode_ends (b'\'' ∷ t.str)))
          λ str. gets-Halts utf8

    -- `StringToken` ends with more rounds than there are characters ahead.
    pub string_token-Halts :
        (fuel quote : ℕ) (long : Bool)
        → n < fuel
        → Halts utf8 n (string_token utf8 ap fuel quote long)
    unfolding string_token
    string_token-Halts fuel quote long room = bind_from-Halts utf8 _ (next_char-Halts utf8) λ l ch.
        bind-Halts utf8 _ (text_loop-Halts fuel n quote long _ room) λ e. finish-Halts long e
