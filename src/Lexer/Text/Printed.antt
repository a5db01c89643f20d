-- ===== src/Lexer/Text/Printed.antt =====
-- A printer of the characters of string literals, and `StringToken` on one printed character.
use u_lang.Prelude.{
  ℕ, ◌≡◌, refl, sym, ap, ◌∙◌, true, false, List, [], ◌∷◌, ◌++◌, arith, ◌==◌, if◌then◌else◌,
  Bool-cases, inl, inr, codes,
}
use u_lang.Prelude.Ctype.{isxdigit, tolower}
use u_lang.Outcome.{ok}
use u_lang.Basic.SourceLocation.{SourceLocation}
use u_lang.Basic.Stream.{Utf8}
use u_lang.Lexer.State.{Lexer, next_char}
use u_lang.Lexer.State.Ahead.{
  head_or_zero, tail, Same, Same-refl, Same-trans, Alone, Alone-Ready, next_char-Advanced,
}
use u_lang.Lexer.Text.{hex_lookup, hex_to_int, hex_digit, escape, Text, scan_char}

-- One character as it is written between quotation marks.
unfoldable pub escape_char : ℕ → List ℕ
escape_char c =
    if c == b'\n'
    then codes "\\n"
    else if c == b'\r'
    then codes "\\r"
    else if c == b'\t'
    then codes "\\t"
    else if c == b'\\'
    then codes "\\\\"
    else if c == b'"'
    then codes "\\x22"
    else c ∷ []

unfoldable pub escape_text : List ℕ → List ℕ
unfolding escape_char
escape_text [] = []
escape_text (c ∷ s) = escape_char c ++ escape_text s

module _ (utf8 : Utf8) where
  -- A part of the text is read, and the lexer is left with these characters behind the current one.
  pub record Scanned (t : Text) (c : ℕ) (l : Lexer) (cs : List ℕ) (l' : Lexer) : Type 0 where
    pub result : scan_char utf8 b'"' false t l ≡ ok ((false, record t { ch = c }), l')
    pub alone : Alone utf8 l' cs
    pub same : Same l l'

  -- A backslash and a letter.
  scan_char-letter :
      (t : Text) (x c : ℕ) (cs : List ℕ) (l : Lexer)
      → t.ch ≡ b'\\'
      → ((w : SourceLocation) (l1 l2 : Lexer)
          → next_char utf8 l1 ≡ ok (x, l2)
          → escape utf8 w l1 ≡ ok (c, l2))
      → Alone utf8 l (x ∷ cs)
      → (l' : Lexer) × Scanned t c l cs l'
  unfolding scan_char
  scan_char-letter t x c cs l h e a =
      let (l1, n) = next_char-Advanced utf8 l (x ∷ cs) (Alone-Ready utf8 a) in
      (l1, record { result = rw h (rw (e t.w l l1 n.result)); alone = n.alone; same = n.same })

  escape-n :
      (w : SourceLocation) (l1 l2 : Lexer)
      → next_char utf8 l1 ≡ ok (b'n', l2)
      → escape utf8 w l1 ≡ ok (b'\n', l2)
  unfolding escape
  escape-n w l1 l2 e = rw e refl

  escape-r :
      (w : SourceLocation) (l1 l2 : Lexer)
      → next_char utf8 l1 ≡ ok (b'r', l2)
      → escape utf8 w l1 ≡ ok (b'\r', l2)
  unfolding escape
  escape-r w l1 l2 e = rw e refl

  escape-t :
      (w : SourceLocation) (l1 l2 : Lexer)
      → next_char utf8 l1 ≡ ok (b't', l2)
      → escape utf8 w l1 ≡ ok (b'\t', l2)
  unfolding escape
  escape-t w l1 l2 e = rw e refl

  escape-backslash :
      (w : SourceLocation) (l1 l2 : Lexer)
      → next_char utf8 l1 ≡ ok (b'\\', l2)
      → escape utf8 w l1 ≡ ok (b'\\', l2)
  unfolding escape
  escape-backslash w l1 l2 e = rw e refl

  -- The hexadecimal escape of the quotation mark.
  scan_char-hex :
      (t : Text) (cs : List ℕ) (l : Lexer)
      → t.ch ≡ b'\\'
      → Alone utf8 l (b'x' ∷ b'2' ∷ b'2' ∷ cs)
      → (l' : Lexer) × Scanned t b'"' l cs l'
  unfolding scan_char escape hex_digit hex_to_int hex_lookup tolower isxdigit
  scan_char-hex t cs l h a =
      let (l1, n) = next_char-Advanced utf8 l (b'x' ∷ b'2' ∷ b'2' ∷ cs) (Alone-Ready utf8 a) in
      let (l2, m) = next_char-Advanced utf8 l1 (b'2' ∷ b'2' ∷ cs) n.ready in
      let (l3, k) = next_char-Advanced utf8 l2 (b'2' ∷ cs) m.ready in
      (
        l3,
        record {
          result = rw h (rw n.result (rw m.result (rw k.result refl)));
          alone = k.alone;
          same = Same-trans (Same-trans n.same m.same) k.same;
        },
      )

  scan_char-plain :
      (t : Text) (cs : List ℕ) (l : Lexer)
      → (t.ch == b'\\') ≡ false
      → (t.ch == b'"') ≡ false
      → Alone utf8 l cs
      → (l' : Lexer) × Scanned t t.ch l cs l'
  unfolding scan_char
  scan_char-plain t cs l h k a =
      (l, record { result = rw h (rw k refl); alone = a; same = Same-refl l })

  -- How a character is written: by a backslash and a letter, by its code, or as itself.
  data Written (c : ℕ) : Type 0 where
    by_letter :
        (x : ℕ)
        → escape_char c ≡ b'\\' ∷ x ∷ []
        → ((w : SourceLocation) (l1 l2 : Lexer)
            → next_char utf8 l1 ≡ ok (x, l2)
            → escape utf8 w l1 ≡ ok (c, l2))
        → Written c
    by_code : c ≡ b'"' → escape_char c ≡ codes "\\x22" → Written c
    as_itself : (c == b'\\') ≡ false → (c == b'"') ≡ false → escape_char c ≡ c ∷ [] → Written c

  letter_of :
      (x d c : ℕ)
      → (c == d) ≡ true
      → escape_char c ≡ b'\\' ∷ x ∷ []
      → ((w : SourceLocation) (l1 l2 : Lexer)
          → next_char utf8 l1 ≡ ok (x, l2)
          → escape utf8 w l1 ≡ ok (d, l2))
      → Written c
  letter_of x d c h e f =
      let same : c ≡ d = ground arith in
      by_letter x e (λ w l1 l2 n. f w l1 l2 n ∙ ap (λ v. ok (v, l2)) (sym same))

  escape_char-Written : (c : ℕ) → Written c
  unfolding escape_char
  escape_char-Written c = elim (Bool-cases (c == b'\n')) [
    | inl y ↦ letter_of b'n' b'\n' c y (ground arith) escape-n
    | inr n1 ↦ elim (Bool-cases (c == b'\r')) [
      | inl y ↦ letter_of b'r' b'\r' c y (ground arith) escape-r
      | inr n2 ↦ elim (Bool-cases (c == b'\t')) [
        | inl y ↦ letter_of b't' b'\t' c y (ground arith) escape-t
        | inr n3 ↦ elim (Bool-cases (c == b'\\')) [
          | inl y ↦ letter_of b'\\' b'\\' c y (ground arith) escape-backslash
          | inr n4 ↦ elim (Bool-cases (c == b'"')) [
            | inl y ↦ by_code (ground arith) (ground arith)
            | inr n5 ↦ as_itself n4 n5 (ground arith)
          ]
        ]
      ]
    ]
  ]

  -- Each character is read as it was written.
  pub scan_char-escape_char :
      (t : Text) (c : ℕ) (cs : List ℕ) (l : Lexer)
      → t.ch ≡ head_or_zero (escape_char c ++ cs)
      → Alone utf8 l (tail (escape_char c ++ cs))
      → (l' : Lexer) × Scanned t c l cs l'
  scan_char-escape_char t c cs l h a = elim (escape_char-Written c) [
    | by_letter x e f ↦ scan_char-letter t x c cs l (rw e at h) f (rw e at a)
    | by_code same e ↦ rw same (scan_char-hex t cs l (rw e at h) (rw e at a))
    | as_itself n m e ↦
        let here : t.ch ≡ c = rw e at h in
        let (l', s) =
          scan_char-plain t cs l (ap (λ v. v == b'\\') here ∙ n) (ap (λ v. v == b'"') here ∙ m)
            (rw e at a) in
        (
          l',
          record {
            result = s.result ∙ ap (λ v. ok ((false, record t { ch = v }), l')) here;
            alone = s.alone;
            same = s.same;
          },
        )
  ]
