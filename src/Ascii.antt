-- ===== src/Ascii.antt =====
-- A decoder for ASCII texts in the place of the UTF8-CPP library, the sources and lexers over it,
-- and the laws that make it an instance of the parameter.
use u_lang.Prelude.{
  suc, ap, Bool-cases, inl, inr, ℕ, ◌≤◌, ◌^◌, ◌<◌, ◌≡◌, ◌≢◌, refl, Bool, true, false, not, ◌&&◌,
  ◌||◌, ◌∙◌, List, [], ◌∷◌, Bytes, length, replicate, All, if◌then◌else◌, arith, ◌==◌,
}
use u_lang.Outcome.{
  ok_inj, Outcome, ok, thrown, no_fuel, not_enough_room, invalid_utf8, invalid_code_point,
}
use u_lang.Basic.Stream.{
  Stream, Utf8, IsLawful, is_ascii, is_nil, at_end, advance, rest-advance_lt, rest-advance,
}
use u_lang.Basic.SourceLocation.{increment_column}
use u_lang.Basic.Source.{Source, string_source, get, start_line, check_bom, skip_returns}
use u_lang.Basic.Diagnostic.{DiagnosticEngine, new_engine, counting, uint}
use u_lang.Lexer.State.{Lexer, new_lexer}
use u_lang.Lexer.State.Ahead.{Decodes, At, cur_char-start}

abbrev pub next_ascii : Bytes → Stream → Outcome (ℕ × Stream)
next_ascii [] s = thrown not_enough_room
next_ascii (c ∷ r) s =
    if is_ascii c then ok (c, record { before = c ∷ s.before; rest = r }) else thrown invalid_utf8

abbrev pub is_mark : Bytes → Bool
is_mark (a ∷ b ∷ c ∷ r) = a == 0xef && (b == 0xbb && c == 0xbf)
is_mark _ = false

-- The test reads two bytes of a mark, and one of any other text.
abbrev pub bom_ascii : Stream → Bool × Stream
bom_ascii s = if is_mark s.rest then (true, advance (advance s)) else (false, advance s)

abbrev pub encode_ascii : List ℕ → Outcome Bytes
encode_ascii [] = ok []
encode_ascii (c ∷ cs) = elim (encode_ascii cs) [
  | ok bs ↦ if is_ascii c then ok (c ∷ bs) else thrown invalid_code_point
  | thrown e ↦ thrown e
  | no_fuel ↦ no_fuel
]

abbrev pub ascii : Utf8
ascii = record {
  starts_with_bom = bom_ascii;
  next = λ s. next_ascii s.rest s;
  utf32to8 = encode_ascii;
}

next_reads :
    (r : Bytes) (s : Stream) {c : ℕ} {t : Stream}
    → next_ascii r s ≡ ok (c, t)
    → length t.rest < length r
next_reads [] s h = absurd (cc h)
next_reads (c ∷ r) s h = ground arith

next_ends : (r : Bytes) (s : Stream) → next_ascii r s ≢ no_fuel
next_ends [] s h = cc h
next_ends (c ∷ r) s h = absurd (ground arith)

next_at_end : (r : Bytes) (s : Stream) → r ≡ [] → next_ascii r s ≡ thrown not_enough_room
next_at_end [] s h = refl
next_at_end (c ∷ r) s h = absurd (cc h)

encode : (cs : List ℕ) → All is_ascii cs → encode_ascii cs ≡ ok cs
encode [] h = refl
encode (c ∷ cs) h = ground (arith, encode cs h.1)

encodes_one :
    (c n : ℕ) (o : Outcome Bytes) {s : Bytes}
    → ((t : Bytes) → o ≡ ok t → n ≤ length t)
    → elim o [
      | ok bs ↦ if is_ascii c then ok (c ∷ bs) else thrown invalid_code_point
      | thrown e ↦ thrown e
      | no_fuel ↦ no_fuel
    ]
      ≡ ok s
    → suc n ≤ length s
encodes_one c n (ok bs) h e = elim (Bool-cases (is_ascii c)) [
  | inl y ↦
      let same = ap (λ (t : Bytes). length t) (ok_inj (rw y at e)) in omega (arith, same, h bs refl)
  | inr n ↦ absurd (cc (rw n at e))
]
encodes_one c n (thrown f) h e = absurd (cc e)
encodes_one c n no_fuel h e = absurd (cc e)

encodes : (cs : List ℕ) (s : Bytes) → encode_ascii cs ≡ ok s → length cs ≤ length s
encodes [] s h = omega arith
encodes (c ∷ cs) s h = encodes_one c (length cs) (encode_ascii cs) (encodes cs) h

encode_ends : (cs : List ℕ) → encode_ascii cs ≢ no_fuel
encode_ends [] h = cc h
encode_ends (c ∷ cs) h = absurd (ground (arith, encode_ends cs))

bom_reads : (s : Stream) → at_end s ≡ false → length (bom_ascii s).1.rest < length s.rest
bom_reads s h = ground (arith, rest-advance_lt s h, rest-advance (advance s))

nil_of_at_end : (r : Bytes) → is_nil r ≡ true → r ≡ []
nil_of_at_end [] h = refl
nil_of_at_end (c ∷ r) h = absurd (cc h)

pub ascii-IsLawful : IsLawful ascii
ascii-IsLawful = record {
  next_reads = λ s. next_reads s.rest s;
  next_ends = λ s. next_ends s.rest s;
  next_at_end = λ s h. next_at_end s.rest s (nil_of_at_end s.rest h);
  bom_reads = bom_reads;
  ascii = encode;
  encodes = encodes;
  encode_ends = encode_ends;
}

-- An ASCII character that is no carriage return.
abbrev pub is_text : ℕ → Bool
is_text c = is_ascii c && not (c == b'\r')

-- The source behind the character `c`, where `text` is left.
abbrev read : ℕ → Bytes → Source → Source
read c text src = record (start_line src) {
  stream = record { before = c ∷ src.stream.before; rest = text };
  first = false;
  position = increment_column (start_line src).position;
  found_ff = src.found_ff || c == b'\r';
  found_nl = src.found_nl || c == b'\n';
  got_new_line = c == b'\n';
}

get-read :
    (c : ℕ) (text : Bytes) (src : Source)
    → src.first ≡ false
    → src.stream.rest ≡ c ∷ text
    → is_text c ≡ true
    → get ascii src ≡ ok (c, read c text src)
unfolding get check_bom start_line skip_returns
get-read c text src f e h = ground (arith, f, e, h)

decodes :
    (text : Bytes) (src : Source)
    → src.first ≡ false
    → src.stream.rest ≡ text
    → All is_text text
    → Decodes ascii src text
decodes [] src f e h = rw e
decodes (c ∷ text) src f e h = (
  rw e refl,
  (read c text src, get-read c text src f e h.0, decodes text (read c text src) refl refl h.1),
)

is_mark-ascii : (c : ℕ) (text : Bytes) → is_ascii c ≡ true → is_mark (c ∷ text) ≡ false
is_mark-ascii c [] h = refl
is_mark-ascii c (d ∷ []) h = refl
is_mark-ascii c (d ∷ e ∷ text) h = ground arith

-- The test for a mark, at the first character, leaves the stream of an ASCII text.
get-first :
    (c : ℕ) (text : Bytes)
    → is_ascii c ≡ true
    → get ascii (string_source (c ∷ text))
      ≡ get ascii (record (string_source (c ∷ text)) { first = false })
unfolding get check_bom start_line
get-first c text h = rw (is_mark-ascii c text h)

-- A string source of an ASCII text without carriage returns holds the characters of the text.
pub string_source-Decodes :
    (text : Bytes) → All is_text text → Decodes ascii (string_source text) text
string_source-Decodes [] h = refl
string_source-Decodes (c ∷ text) h =
    let src = record (string_source (c ∷ text)) { first = false } in
    (
      refl,
      (
        read c text src,
        get-first c text (ground (arith, h.0)) ∙ get-read c text src refl refl h.0,
        decodes text (read c text src) refl refl h.1,
      ),
    )

abbrev pub some_engine : DiagnosticEngine
some_engine =
    new_engine (counting (record { num_warnings = 0; num_errors = 0 })) (replicate 10 (uint 0))

-- A new lexer over a text, with an engine whose client counts.
abbrev pub lexer_over : Bytes → Lexer
lexer_over text = new_lexer [] some_engine (string_source text) 0 0

-- A lexer over such a text, at its first character.
pub lexer_over-At :
    (text : Bytes) → All is_text text → length text < 2 ^ 63 → (l : Lexer) × At ascii l text
lexer_over-At text h short =
    let (l, e, ready, cur, range, same) =
      cur_char-start ascii (lexer_over text) text refl
        (record { counted = omega arith; bounded = omega arith }) (string_source-Decodes text h) in
    (l, record { cur = cur; ready = ready })
