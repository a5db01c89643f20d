-- ===== src/Lexer/State/Ahead.antt =====
-- The characters that a lexer has ahead, as a list: what `NextChar` and `PeekChar` do to it.
use u_lang.Prelude.{
  ℕ, ◌+◌, ◌^◌, ◌<◌, ◌≡◌, ◌⊎◌, inl, inr, refl, ap, ◌∙◌, true, false, List, [], ◌∷◌, length, arith,
  add32, sub32, ltb, ◌==◌,
}
use u_lang.Outcome.{ok}
use u_lang.Basic.Stream.{Utf8}
use u_lang.Basic.Source.{Source, has_more, get}
use u_lang.Basic.Source.Laws.{position-get}
use u_lang.Basic.SourceManager.{FileTable, get_or_insert_file_info, store_file_info}
use u_lang.Basic.SourceManager.Laws.{add_character-Added}
use u_lang.Lexer.State.{Lexer, advance_range, get_char, next_char, peek_char, cur_char}

-- The first of the characters ahead; behind the last one the lexer reads 0.
abbrev pub head_or_zero : List ℕ → ℕ
head_or_zero [] = 0
head_or_zero (c ∷ cs) = c

abbrev pub tail : List ℕ → List ℕ
tail [] = []
tail (c ∷ cs) = cs

-- What no reading changes. The line of the lexer's own range is among it.
pub record Same (l l' : Lexer) : Type 0 where
  pub id_eq : l'.id ≡ l.id
  pub name_eq : l'.file_name ≡ l.file_name
  pub path_eq : l'.file_path ≡ l.file_path
  pub diags_eq : l'.diags ≡ l.diags
  pub begin_line_eq : l'.source_range.begin.line ≡ l.source_range.begin.line
  pub end_line_eq : l'.source_range.end.line ≡ l.source_range.end.line

pub Same-trans : {a b c : Lexer} → Same a b → Same b c → Same a c
Same-trans p q = record {
  id_eq = q.id_eq ∙ p.id_eq;
  name_eq = q.name_eq ∙ p.name_eq;
  path_eq = q.path_eq ∙ p.path_eq;
  diags_eq = q.diags_eq ∙ p.diags_eq;
  begin_line_eq = q.begin_line_eq ∙ p.begin_line_eq;
  end_line_eq = q.end_line_eq ∙ p.end_line_eq;
}

pub Same-refl : (l : Lexer) → Same l l
Same-refl l = record {
  id_eq = refl;
  name_eq = refl;
  path_eq = refl;
  diags_eq = refl;
  begin_line_eq = refl;
  end_line_eq = refl;
}

-- The lines are numbered from 1, and the number does not wrap on the way to the end.
pub record Room (src : Source) (cs : List ℕ) : Type 0 where
  pub counted : 0 < src.position.line
  pub bounded : src.position.line + length cs < 2 ^ 64

module _ (utf8 : Utf8) where
  -- The source holds exactly these characters, and then ends.
  abbrev pub Decodes : Source → List ℕ → Type 0
  Decodes src [] = has_more src ≡ false
  Decodes src (c ∷ cs) =
      (has_more src ≡ true) × ((src' : Source) × (get utf8 src ≡ ok (c, src')) × Decodes src' cs)

  -- Behind the current character stand these; the first may have been read already.
  pub record Ready (l : Lexer) (cs : List ℕ) : Type 0 where
    pub view :
        ((l.cur_valid ≡ 1) × Room l.source cs × Decodes l.source cs)
        ⊎ ((l.cur_valid ≡ 2)
            × (l.next_char ≡ head_or_zero cs)
            × Room l.source (tail cs)
            × Decodes l.source (tail cs))

  -- Behind the current character stand these, and none of them has been read.
  pub record Alone (l : Lexer) (cs : List ℕ) : Type 0 where
    pub one : l.cur_valid ≡ 1
    pub room : Room l.source cs
    pub decodes : Decodes l.source cs

  pub Alone-Ready : {l : Lexer} {cs : List ℕ} → Alone l cs → Ready l cs
  Alone-Ready a = record { view = inl (a.one, a.room, a.decodes) }

  record GotChar (l : Lexer) (cs : List ℕ) (src : Source) (manager : FileTable) : Type 0 where
    result :
        get_char utf8 l ≡ ok (head_or_zero cs, record l { source = src; source_manager = manager })
    decodes : Decodes src (tail cs)
    room : Room src (tail cs)

  get_char-Decodes :
      (l : Lexer) (cs : List ℕ)
      → Room l.source cs
      → Decodes l.source cs
      → (src : Source) × (manager : FileTable) × GotChar l cs src manager
  unfolding get_char
  get_char-Decodes l [] r d =
      (l.source, l.source_manager, record { result = rw d; decodes = d; room = r })
  get_char-Decodes l (c ∷ cs) r (more, (src, e, d)) =
      let entry = get_or_insert_file_info l.source_manager l.id l.file_name l.file_path in
      let moved = (position-get utf8 l.source e).1 in
      let room : Room src cs = ground (arith, r.counted, r.bounded) in
      let (info, a) = add_character-Added entry.0 src.position.line c room.counted in
      (
        src,
        store_file_info entry.1 info,
        record { result = rw more (rw e (rw a.added)); decodes = d; room = room },
      )

  -- One call of `NextChar`.
  pub record Advanced (l : Lexer) (cs : List ℕ) (l' : Lexer) : Type 0 where
    pub result : next_char utf8 l ≡ ok (head_or_zero cs, l')
    pub alone : Alone l' (tail cs)
    pub ready : Ready l' (tail cs)
    pub cur : l'.cur_char ≡ head_or_zero cs
    pub range : l'.source_range ≡ advance_range l.source_range
    pub same : Same l l'

  pub next_char-Advanced : (l : Lexer) (cs : List ℕ) → Ready l cs → (l' : Lexer) × Advanced l cs l'
  unfolding next_char
  next_char-Advanced l cs ready = elim ready.view [
    | inl (one, r, d) ↦
        let low : ltb 1 l.cur_valid ≡ false = ground arith in
        let l1 = record l { source_range = advance_range l.source_range } in
        let (src, manager, g) = get_char-Decodes l1 cs r d in
        (
          record l1 { source = src; source_manager = manager; cur_char = head_or_zero cs },
          record {
            result = rw low (rw g.result);
            alone = record { one = one; room = g.room; decodes = g.decodes };
            ready = record { view = inl (one, g.room, g.decodes) };
            cur = refl;
            range = refl;
            same = record {
              id_eq = refl;
              name_eq = refl;
              path_eq = refl;
              diags_eq = refl;
              begin_line_eq = refl;
              end_line_eq = refl;
            };
          },
        )
    | inr (two, e, r, d) ↦
        let high : ltb 1 l.cur_valid ≡ true = ground arith in
        (
          record l {
            source_range = advance_range l.source_range;
            cur_valid = sub32 l.cur_valid 1;
            cur_char = l.next_char;
          },
          record {
            result = rw high (rw e);
            alone = record { one = omega arith; room = r; decodes = d };
            ready = record { view = inl (omega arith, r, d) };
            cur = e;
            range = refl;
            same = record {
              id_eq = refl;
              name_eq = refl;
              path_eq = refl;
              diags_eq = refl;
              begin_line_eq = refl;
              end_line_eq = refl;
            };
          },
        )
  ]

  -- One call of `PeekChar`.
  pub record Peeked (l : Lexer) (cs : List ℕ) (l' : Lexer) : Type 0 where
    pub result : peek_char utf8 l ≡ ok (head_or_zero cs, l')
    pub ready : Ready l' cs
    pub cur : l'.cur_char ≡ l.cur_char
    pub range : l'.source_range ≡ l.source_range
    pub same : Same l l'

  pub peek_char-Peeked : (l : Lexer) (cs : List ℕ) → Ready l cs → (l' : Lexer) × Peeked l cs l'
  unfolding peek_char
  peek_char-Peeked l cs ready = elim ready.view [
    | inl (one, r, d) ↦
        let low : ltb 1 l.cur_valid ≡ false = ground arith in
        let l1 = record l { cur_valid = add32 l.cur_valid 1 } in
        let (src, manager, g) = get_char-Decodes l1 cs r d in
        (
          record l1 { source = src; source_manager = manager; next_char = head_or_zero cs },
          record {
            result = rw low (rw g.result);
            ready = record { view = inr (omega arith, refl, g.room, g.decodes) };
            cur = refl;
            range = refl;
            same = record {
              id_eq = refl;
              name_eq = refl;
              path_eq = refl;
              diags_eq = refl;
              begin_line_eq = refl;
              end_line_eq = refl;
            };
          },
        )
    | inr (two, e, r, d) ↦
        let high : ltb 1 l.cur_valid ≡ true = ground arith in
        (
          l,
          record {
            result = rw high (rw e);
            ready = ready;
            cur = refl;
            range = refl;
            same = Same-refl l;
          },
        )
  ]

  -- A lexer that has read nothing: `CurChar` reads the first character.
  pub cur_char-start :
      (l : Lexer) (cs : List ℕ)
      → l.cur_valid ≡ 0
      → Room l.source cs
      → Decodes l.source cs
      → (l' : Lexer) × (cur_char utf8 l ≡ ok (head_or_zero cs, l'))
        × Ready l' (tail cs)
        × (l'.cur_char ≡ head_or_zero cs)
        × (l'.source_range ≡ advance_range l.source_range)
        × Same l l'
  unfolding cur_char next_char
  cur_char-start l cs none r d =
      let fresh : (l.cur_valid == 0) ≡ true = ground arith in
      let low : ltb 1 l.cur_valid ≡ false = ground arith in
      let l1 = record l { source_range = advance_range l.source_range } in
      let (src, manager, g) = get_char-Decodes l1 cs r d in
      (
        record l1 {
          source = src;
          source_manager = manager;
          cur_char = head_or_zero cs;
          cur_valid = add32 l.cur_valid 1;
        },
        rw fresh (rw low (rw g.result)),
        record { view = inl (omega arith, g.room, g.decodes) },
        refl,
        refl,
        record {
          id_eq = refl;
          name_eq = refl;
          path_eq = refl;
          diags_eq = refl;
          begin_line_eq = refl;
          end_line_eq = refl;
        },
      )

  -- A lexer that has a current character keeps it.
  pub cur_char-Ready : (l : Lexer) (cs : List ℕ) → Ready l cs → cur_char utf8 l ≡ ok (l.cur_char, l)
  unfolding cur_char
  cur_char-Ready l cs ready = elim ready.view [
    | inl h ↦ let old : (l.cur_valid == 0) ≡ false = ground (arith, h.0) in rw old
    | inr h ↦ let old : (l.cur_valid == 0) ≡ false = ground (arith, h.0) in rw old
  ]

  -- The lexer stands at the first of these characters.
  pub record At (l : Lexer) (cs : List ℕ) : Type 0 where
    pub cur : l.cur_char ≡ head_or_zero cs
    pub ready : Ready l (tail cs)

  pub cur_char-At : (l : Lexer) (cs : List ℕ) → At l cs → cur_char utf8 l ≡ ok (head_or_zero cs, l)
  cur_char-At l cs a = cur_char-Ready l (tail cs) a.ready ∙ ap (λ c. ok (c, l)) a.cur
