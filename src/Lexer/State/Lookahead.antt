-- ===== src/Lexer/State/Lookahead.antt =====
-- `PeekChar` is a lookahead: it does not change what `NextChar` reads.
use u_lang.Prelude.{
  ℕ, ◌≡◌, refl, sym, ◌∙◌, true, false, add32, sub32, ltb, arith, if◌then◌else◌, Bool-cases, inl,
  inr,
}
use u_lang.Outcome
use u_lang.Outcome.{Outcome, ok, thrown, no_fuel}
use u_lang.Basic.Stream.{Utf8}
use u_lang.Basic.Source.{Source, has_more, get}
use u_lang.Basic.SourceManager.{FileTable, add_character, get_or_insert_file_info, store_file_info}
use u_lang.Lexer.State.{Lexer, advance_range, get_char, next_char, peek_char, ◌>>=◌}

>>=-assoc :
    {A B C : Type 0} (m : Outcome A) (f : A → Outcome B) (g : B → Outcome C)
    → Outcome.◌>>=◌ (Outcome.◌>>=◌ m f) g ≡ Outcome.◌>>=◌ m (λ a. Outcome.◌>>=◌ (f a) g)
>>=-assoc (ok a) f g = refl
>>=-assoc (thrown t) f g = refl
>>=-assoc no_fuel f g = refl

>>=-ext :
    {A B : Type 0} (m : Outcome A) (f g : A → Outcome B)
    → ((a : A) → f a ≡ g a)
    → Outcome.◌>>=◌ m f ≡ Outcome.◌>>=◌ m g
>>=-ext (ok a) f g h = h a
>>=-ext (thrown t) f g h = refl
>>=-ext no_fuel f g h = refl

module _ (utf8 : Utf8) where
  -- What `GetChar` reads and writes: nothing else of the lexer plays a part.
  abbrev Reading : Type 0
  Reading = ℕ × Source × FileTable

  abbrev reading : Lexer → Outcome Reading
  reading l =
      if has_more l.source
      then Outcome.◌>>=◌ (get utf8 l.source) (λ r.
        let entry = get_or_insert_file_info l.source_manager l.id l.file_name l.file_path in
        Outcome.◌>>=◌ (add_character entry.0 r.1.position.line r.0)
          (λ info. ok (r.0, r.1, store_file_info entry.1 info)))
      else ok (0, l.source, l.source_manager)

  abbrev put : Lexer → Reading → Outcome (ℕ × Lexer)
  put l (c, src, manager) = ok (c, record l { source = src; source_manager = manager })

  get_char-reading : (l : Lexer) → get_char utf8 l ≡ Outcome.◌>>=◌ (reading l) (put l)
  unfolding get_char
  get_char-reading l = elim (Bool-cases (has_more l.source)) [
    | inl y ↦ rw y (
        sym (
          >>=-assoc (get utf8 l.source) _ (put l)
          ∙ >>=-ext (get utf8 l.source) _ _
              (λ r. >>=-assoc (add_character _ r.1.position.line r.0) _ (put l))))
    | inr n ↦ rw n refl
  ]

  abbrev put_next : ℕ × Lexer → Outcome (ℕ × Lexer)
  put_next (c, l) = ok (c, record l { next_char = c })

  abbrev put_cur : ℕ × Lexer → Outcome (ℕ × Lexer)
  put_cur (c, l) = ok (c, record l { cur_char = c })

  after :
      (l : Lexer)
      → l.cur_valid ≡ 1
      → (x : Outcome Reading)
      → Outcome.◌>>=◌
          (Outcome.◌>>=◌
            (Outcome.◌>>=◌ x (put (record l { cur_valid = add32 l.cur_valid 1 })))
            put_next)
          (λ (r : ℕ × Lexer). next_char utf8 r.1)
        ≡ Outcome.◌>>=◌
            (Outcome.◌>>=◌
              (Outcome.◌>>=◌ x (put (record l { source_range = advance_range l.source_range })))
              put_cur)
            put_next
  unfolding next_char
  after l one (thrown t) = refl
  after l one no_fuel = refl
  after l one (ok (c, src, manager)) =
      let high : ltb 1 (add32 l.cur_valid 1) ≡ true = ground arith in
      let back : sub32 (add32 l.cur_valid 1) 1 ≡ l.cur_valid = ground arith in
      rw high (rw back refl)

  -- With one character read, a call of `NextChar` behind one of `PeekChar` comes to what it comes to without, but for the
  -- character that was peeked, which stays in its place.
  pub peek_char-next_char :
      (l : Lexer)
      → l.cur_valid ≡ 1
      → (peek_char utf8 >>= λ c. next_char utf8) l
        ≡ (next_char utf8 >>= λ c l'. ok (c, record l' { next_char = c })) l
  unfolding peek_char next_char
  peek_char-next_char l one =
      let low : ltb 1 l.cur_valid ≡ false = ground arith in
      let l1 = record l { cur_valid = add32 l.cur_valid 1 } in
      let l2 = record l { source_range = advance_range l.source_range } in
      rw low (rw (get_char-reading l1) (rw (get_char-reading l2) (after l one (reading l))))
