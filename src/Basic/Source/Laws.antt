-- ===== src/Basic/Source/Laws.antt =====
-- What one call of `Get` does to the stream, the position and the flags.
use u_lang.Prelude.{
  ℕ, zero, suc, ◌≤◌, ◌<◌, true, false, ◌||◌, ◌≡◌, ◌≢◌, inl, inr, Bool-cases, length, ◌==◌,
  if◌then◌else◌, arith, add64,
}
use u_lang.Outcome.{ok, thrown, no_fuel, not_enough_room, >>=-eq-ok, >>=-eq-no_fuel}
use u_lang.Basic.SourceLocation.{SourcePosition}
use u_lang.Basic.Stream.{Stream, Utf8, IsLawful, at_end, rest-advance, rest-unget}
use u_lang.Basic.Source.{Source, has_more, start_line, check_bom, skip_returns, get}

module _ (utf8 : Utf8) where
  position-check_bom : (src : Source) → (check_bom utf8 src).position ≡ src.position
  unfolding check_bom
  position-check_bom src = ground arith

  flags-check_bom :
      (src : Source)
      → ((check_bom utf8 src).got_new_line ≡ src.got_new_line)
        × ((check_bom utf8 src).found_ff ≡ src.found_ff)
        × ((check_bom utf8 src).found_nl ≡ src.found_nl)
  unfolding check_bom
  flags-check_bom src = ground arith

  skip_returns-ne-return :
      (fuel ch : ℕ) (s : Stream) {c : ℕ} {t : Stream}
      → skip_returns utf8 fuel ch s ≡ ok (c, t)
      → (c == b'\r') ≡ false
  unfolding skip_returns
  skip_returns-ne-return zero ch s h = ground arith
  skip_returns-ne-return (suc fuel) ch s {c} {t} h = elim (Bool-cases (ch == b'\r')) [
    | inl more ↦
        let (r, e, _) = >>=-eq-ok (utf8.next s) _ (rw more at h) in
        skip_returns-ne-return fuel r.0 r.1 e
    | inr last ↦ ground arith
  ]

  abbrev pub next_position : Source → SourcePosition
  next_position src =
      if src.got_new_line
      then record { line = add64 src.position.line 1; column = 1 }
      else record { line = src.position.line; column = add64 src.position.column 1 }

  -- A character that `Get` returns is no carriage return. It is the first of the next line if the
  -- character before it was a new-line, and stands one column on in the same line if not; whether
  -- it is a new-line is what the next call goes by, and is remembered for the line endings.
  pub position-get :
      (src : Source) {c : ℕ} {src' : Source}
      → get utf8 src ≡ ok (c, src')
      → (c ≢ b'\r')
        × (src'.position ≡ next_position src)
        × (src'.got_new_line ≡ (c == b'\n'))
        × (src'.found_nl ≡ (src.found_nl || c == b'\n'))
  unfolding get start_line
  position-get src {c} {src'} h =
      let src1 = start_line (check_bom utf8 src) in
      let (r, h1, e1) = >>=-eq-ok (utf8.next src1.stream) _ h in
      let (t, h2, e2) = >>=-eq-ok (skip_returns utf8 (suc (length r.1.rest)) r.0 r.1) _ h1 in
      let kept = skip_returns-ne-return (suc (length r.1.rest)) r.0 r.1 e2 in
      (
        ground arith,
        ground (arith, position-check_bom src, flags-check_bom src),
        ground (arith, flags-check_bom src),
        ground (arith, flags-check_bom src),
      )

  -- Carriage returns only, up to the end of the stream.
  pub data ReturnsToEnd : Stream → Type 0 where
    ended : {s : Stream} → at_end s ≡ true → ReturnsToEnd s
    return : {s t : Stream} → utf8.next s ≡ ok (b'\r', t) → ReturnsToEnd t → ReturnsToEnd s

  module _ (law : IsLawful utf8) where
    skip_returns-rest :
        (fuel ch : ℕ) (s : Stream) {c : ℕ} {t : Stream}
        → skip_returns utf8 fuel ch s ≡ ok (c, t)
        → length t.rest ≤ length s.rest
    unfolding skip_returns
    skip_returns-rest zero ch s h = ground arith
    skip_returns-rest (suc fuel) ch s {c} {t} h = elim (Bool-cases (ch == b'\r')) [
      | inl more ↦
          let (r, e, e1) = >>=-eq-ok (utf8.next s) _ (rw more at h) in
          omega (arith, skip_returns-rest fuel r.0 r.1 e, law.next_reads s e1)
      | inr last ↦ ground arith
    ]

    rest-check_bom :
        (src : Source)
        → has_more src ≡ true
        → length (check_bom utf8 src).stream.rest ≤ length src.stream.rest
    unfolding check_bom
    rest-check_bom src more =
        let (found, s) = utf8.starts_with_bom src.stream in
        ground (
          arith,
          law.bom_reads src.stream (ground arith),
          rest-advance (utf8.starts_with_bom src.stream).1,
          rest-unget (utf8.starts_with_bom src.stream).1,
        )

    -- With a lawful decoder, and where the source has more: each character that `Get` returns was
    -- read from the stream, which is shorter for it.
    pub rest-get :
        (src : Source) {c : ℕ} {src' : Source}
        → has_more src ≡ true
        → get utf8 src ≡ ok (c, src')
        → length src'.stream.rest < length src.stream.rest
    unfolding get start_line
    rest-get src {c} {src'} more h =
        let src1 = start_line (check_bom utf8 src) in
        let (r, h1, e1) = >>=-eq-ok (utf8.next src1.stream) _ h in
        let (t, h2, e2) = >>=-eq-ok (skip_returns utf8 (suc (length r.1.rest)) r.0 r.1) _ h1 in
        ground (
          arith,
          skip_returns-rest (suc (length r.1.rest)) r.0 r.1 e2,
          law.next_reads src1.stream e1,
          rest-check_bom src more,
        )

    skip_returns-ne-no_fuel :
        (fuel ch : ℕ) (s : Stream) → length s.rest < fuel → skip_returns utf8 fuel ch s ≢ no_fuel
    unfolding skip_returns
    skip_returns-ne-no_fuel zero ch s h e = absurd (omega arith)
    skip_returns-ne-no_fuel (suc fuel) ch s h e = elim (Bool-cases (ch == b'\r')) [
      | inl more ↦ elim (>>=-eq-no_fuel (utf8.next s) _ (rw more at e)) [
        | inl never ↦ law.next_ends s never
        | inr (r, e2, e1) ↦
            let shorter = law.next_reads s e1 in
            skip_returns-ne-no_fuel fuel r.0 r.1 (omega arith) e2
      ]
      | inr last ↦ absurd (ground arith)
    ]

    -- With a lawful decoder `Get` comes to an end, whatever the stream holds: with a character or
    -- with an exception.
    pub get-ne-no_fuel : (src : Source) → get utf8 src ≢ no_fuel
    unfolding get
    get-ne-no_fuel src e =
        let src1 = start_line (check_bom utf8 src) in
        elim (>>=-eq-no_fuel (utf8.next src1.stream) _ e) [
          | inl never ↦ law.next_ends src1.stream never
          | inr (r, e2, e1) ↦
              elim (>>=-eq-no_fuel (skip_returns utf8 (suc (length r.1.rest)) r.0 r.1) _ e2) [
                | inl never ↦
                    skip_returns-ne-no_fuel (suc (length r.1.rest)) r.0 r.1 (omega arith) never
                | inr (t, e4, e3) ↦ absurd (cc e4)
              ]
        ]

    skip_returns-thrown :
        (fuel : ℕ) {s : Stream}
        → length s.rest < fuel
        → ReturnsToEnd s
        → skip_returns utf8 fuel b'\r' s ≡ thrown not_enough_room
    unfolding skip_returns
    skip_returns-thrown zero h r = absurd (omega arith)
    skip_returns-thrown (suc fuel) {s} h (ended e) = rw (law.next_at_end s e)
    skip_returns-thrown (suc fuel) {s} h (return {t = t} e r) =
        let shorter = law.next_reads s e in rw e (skip_returns-thrown fuel (omega arith) r)

    -- With a lawful decoder, a text that ends in carriage returns is not read to its end: where
    -- `next` reads one and no other character is left, `Get` throws.
    pub get-ReturnsToEnd :
        (src : Source) {t : Stream}
        → utf8.next (start_line (check_bom utf8 src)).stream ≡ ok (b'\r', t)
        → ReturnsToEnd t
        → get utf8 src ≡ thrown not_enough_room
    unfolding get
    get-ReturnsToEnd src {t} e r =
        rw e (rw (skip_returns-thrown (suc (length t.rest)) (omega arith) r))
