-- ===== src/Basic/Stream.antt =====
-- The character stream below a source (`std::istreambuf_iterator` over a stream buffer), and what
-- the program takes from the UTF8-CPP library, as a parameter with its documented laws.
use u_lang.Prelude.{
  ap, ◌≢◌, ◌+◌, ◌≤◌, ℕ, ◌<◌, ◌≡◌, refl, Bool, true, false, List, [], ◌∷◌, Bytes, length, All, ltb,
  arith,
}
use u_lang.Outcome.{Outcome, ok, thrown, no_fuel, not_enough_room}

-- `before` holds the bytes that were read, the last one first.
pub record Stream : Type 0 where
  pub before : Bytes
  pub rest : Bytes

abbrev pub is_nil : Bytes → Bool
is_nil [] = true
is_nil (c ∷ s) = false

-- `it_ == end_`.
abbrev pub at_end : Stream → Bool
at_end s = is_nil s.rest

abbrev advance_rest : Bytes → Stream → Stream
advance_rest [] s = s
advance_rest (c ∷ r) s = record { before = c ∷ s.before; rest = r }

-- `++it_`.
unfoldable pub advance : Stream → Stream
advance s = advance_rest s.rest s

abbrev unget_before : Bytes → Stream → Stream
unget_before [] s = s
unget_before (c ∷ b) s = record { before = b; rest = c ∷ s.rest }

-- `stream_.unget()`; with nothing read the position stays.
unfoldable pub unget : Stream → Stream
unget s = unget_before s.before s

-- The library's functions. The copies of an input iterator share the stream, so the test for a
-- byte order mark moves it too.
pub record Utf8 : Type 0 where
  pub starts_with_bom : Stream → Bool × Stream
  pub next : Stream → Outcome (ℕ × Stream)
  pub utf32to8 : List ℕ → Outcome Bytes

abbrev pub is_ascii : ℕ → Bool
is_ascii c = ltb c 128

-- `next` ends, reads at least one byte, and throws at the end of the stream; the test for a mark reads at least one
-- byte where there is one; ASCII code points are encoded as themselves, and every code point as one
-- byte at least, or an exception is thrown.
pub record IsLawful (u : Utf8) : Type 0 where
  pub next_reads :
      (s : Stream) {c : ℕ} {t : Stream} → u.next s ≡ ok (c, t) → length t.rest < length s.rest
  pub next_ends : (s : Stream) → u.next s ≢ no_fuel
  pub next_at_end : (s : Stream) → at_end s ≡ true → u.next s ≡ thrown not_enough_room
  pub bom_reads :
      (s : Stream) → at_end s ≡ false → length (u.starts_with_bom s).1.rest < length s.rest
  pub ascii : (cs : List ℕ) → All is_ascii cs → u.utf32to8 cs ≡ ok cs
  pub encodes : (cs : List ℕ) (s : Bytes) → u.utf32to8 cs ≡ ok s → length cs ≤ length s
  pub encode_ends : (cs : List ℕ) → u.utf32to8 cs ≢ no_fuel

rest-advance_rest :
    (r : Bytes) (s : Stream) → r ≡ s.rest → length (advance_rest r s).rest ≤ length s.rest
rest-advance_rest [] s e = omega arith
rest-advance_rest (c ∷ r) s e = omega (arith, ap (λ (x : Bytes). length x) e)

pub rest-advance : (s : Stream) → length (advance s).rest ≤ length s.rest
unfolding advance
rest-advance s = rest-advance_rest s.rest s refl

rest-unget_before : (b : Bytes) (s : Stream) → length (unget_before b s).rest ≤ length s.rest + 1
rest-unget_before [] s = omega arith
rest-unget_before (c ∷ b) s = omega arith

pub rest-unget : (s : Stream) → length (unget s).rest ≤ length s.rest + 1
unfolding unget
rest-unget s = rest-unget_before s.before s

rest-advance_rest_lt :
    (r : Bytes) (s : Stream)
    → r ≡ s.rest
    → is_nil r ≡ false
    → length (advance_rest r s).rest < length s.rest
rest-advance_rest_lt [] s e h = absurd (cc h)
rest-advance_rest_lt (c ∷ r) s e h = omega (arith, ap (λ (x : Bytes). length x) e)

pub rest-advance_lt : (s : Stream) → at_end s ≡ false → length (advance s).rest < length s.rest
unfolding advance
rest-advance_lt s h = rest-advance_rest_lt s.rest s refl h
