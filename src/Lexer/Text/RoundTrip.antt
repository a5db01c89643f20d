-- ===== src/Lexer/Text/RoundTrip.antt =====
-- `StringToken` against the printer: what is printed is read back.
use u_lang.Prelude.{
  ◌||◌, ℕ, zero, suc, ◌<◌, ◌≡◌, refl, sym, ap, ◌∙◌, true, false, List, [], ◌∷◌, ◌++◌, Bytes,
  append_assoc, append-nil, length, arith, ◌==◌, if◌then◌else◌, Bool-cases, inl, inr,
}
use u_lang.Outcome.{ok}
use u_lang.Basic.SourceLocation.{SourceLocation}
use u_lang.Basic.Stream.{Utf8}
use u_lang.Basic.Source.{has_more}
use u_lang.Basic.TokenKinds.{rune_constant, string_constant}
use u_lang.Lexer.Token.{Token, Numerals, int_token, text_token}
use u_lang.Lexer.State.{Lexer, next_char, location}
use u_lang.Lexer.State.Ahead.{
  head_or_zero, tail, Same, Same-refl, Same-trans, Ready, Alone, Alone-Ready, next_char-Advanced,
  At,
}
use u_lang.Lexer.Text.{
  widen, Text, closed, place_char, is_any_type, scan_char, text_loop, finish_text, string_token,
  first_char,
}
use u_lang.Lexer.Text.Printed.{escape_char, escape_text, scan_char-escape_char}

-- The token of the characters of a literal: one character is a rune.
abbrev pub literal : {F I : Type 0} → Numerals F I → SourceLocation → List ℕ → Bytes → Token F I
literal ap' w s str =
    if length s == 1
    then int_token ap' rune_constant w (ap'.int_of_value 32 (first_char s))
    else text_token ap' string_constant w str

module _ (utf8 : Utf8) where
  str-place_char : (t : Text) → (place_char t).str ≡ t.str
  unfolding place_char
  str-place_char t = ground arith

  scan_char-quote :
      (t : Text) (l : Lexer) → t.ch ≡ b'"' → scan_char utf8 b'"' false t l ≡ ok ((true, t), l)
  unfolding scan_char
  scan_char-quote t l e = rw e refl

  -- In front of a quotation mark the source has more.
  has_more-quote :
      (s cs : List ℕ) (l : Lexer) → Alone utf8 l (s ++ b'"' ∷ cs) → has_more l.source ≡ true
  has_more-quote [] cs l a = a.decodes.0
  has_more-quote (c ∷ s) cs l a = a.decodes.0

  -- Between quotation marks the loop reads the characters that were written, and stops at the mark.
  record Read (fuel : ℕ) (t : Text) (s : List ℕ) (l : Lexer) (cs : List ℕ) (t' : Text) (l' : Lexer)
      : Type 0 where
    result : text_loop utf8 fuel b'"' false t l ≡ ok (closed t', l')
    str : t'.str ≡ t.str ++ s
    alone : Alone utf8 l' cs
    same : Same l l'

  text_loop-escape_text :
      (fuel : ℕ) (s cs : List ℕ) (t : Text) (l : Lexer)
      → length s < fuel
      → t.ch ≡ head_or_zero (escape_text s ++ b'"' ∷ cs)
      → Alone utf8 l (tail (escape_text s ++ b'"' ∷ cs))
      → (t' : Text) × (l' : Lexer) × Read fuel t s l cs t' l'
  unfolding text_loop escape_text is_any_type
  text_loop-escape_text zero s cs t l h e a = absurd (omega arith)
  text_loop-escape_text (suc fuel) [] cs t l h e a = (
    t,
    l,
    record {
      result = rw (scan_char-quote t l e) refl;
      str = sym (append-nil t.str);
      alone = a;
      same = Same-refl l;
    },
  )
  text_loop-escape_text (suc fuel) (c ∷ s) cs t l h e a =
      let ahead = escape_text s ++ b'"' ∷ cs in
      let split = append_assoc (escape_char c) (escape_text s) (b'"' ∷ cs) in
      let (l1, p) = scan_char-escape_char utf8 t c ahead l (rw split at e) (rw split at a) in
      let more = has_more-quote (escape_text s) cs l1 p.alone in
      let kept = place_char (record t { ch = c }) in
      let (l2, n) = next_char-Advanced utf8 l1 ahead (Alone-Ready utf8 p.alone) in
      let next = record kept { str = kept.str ++ c ∷ []; ch = head_or_zero ahead } in
      let (t', l', r) = text_loop-escape_text fuel s cs next l2 (omega arith) refl n.alone in
      (
        t',
        l',
        record {
          result = rw p.result (rw more (rw n.result r.result));
          str =
              r.str
              ∙ ap (λ u. (u ++ c ∷ []) ++ s) (str-place_char (record t { ch = c }))
              ∙ append_assoc t.str (c ∷ []) s;
          alone = r.alone;
          same = Same-trans (Same-trans p.same n.same) r.same;
        },
      )

  module _ {F I : Type 0} (ap' : Numerals F I) where
    finish_text-literal :
        (t : Text) (str : Bytes) (l l' : Lexer) {c : ℕ}
        → utf8.utf32to8 t.str ≡ ok str
        → next_char utf8 l ≡ ok (c, l')
        → (w : SourceLocation) × (finish_text utf8 ap' false t l ≡ ok (literal ap' w t.str str, l'))
    unfolding finish_text
    finish_text-literal t str l l' u n = (
      (if t.add_trailing || t.w.range.end.column == 0 then widen t.w 1 else t.w),
      rw n (elim (Bool-cases (length t.str == 1)) [ inl y ↦ rw y refl | inr z ↦ rw z (rw u refl) ]),
    )

    -- At the opening quotation mark.
    pub string_token-escape_text :
        (fuel : ℕ) (s cs : List ℕ) (str : Bytes) (l : Lexer)
        → length s < fuel
        → utf8.utf32to8 s ≡ ok str
        → Ready utf8 l (escape_text s ++ b'"' ∷ cs)
        → (w : SourceLocation) × (l' : Lexer) × (string_token utf8 ap' fuel b'"' false l
            ≡ ok (literal ap' w s str, l'))
          × At utf8 l' cs
          × Same l l'
    unfolding string_token
    string_token-escape_text fuel s cs str l h u a =
        let ahead = escape_text s ++ b'"' ∷ cs in
        let (l1, n) = next_char-Advanced utf8 l ahead a in
        let start : Text = record {
          str = [];
          w = location l;
          add_trailing = true;
          ch = head_or_zero ahead;
        } in
        let (t, l2, r) = text_loop-escape_text fuel s cs start l1 h refl n.alone in
        let (l3, m) = next_char-Advanced utf8 l2 cs (Alone-Ready utf8 r.alone) in
        let (w, e) =
          finish_text-literal t str l2 l3 (ap (λ x. utf8.utf32to8 x) r.str ∙ u) m.result in
        (
          w,
          l3,
          rw n.result (rw r.result (e ∙ ap (λ x. ok (literal ap' w x str, l3)) r.str)),
          record { cur = m.cur; ready = m.ready },
          Same-trans (Same-trans n.same r.same) m.same,
        )
