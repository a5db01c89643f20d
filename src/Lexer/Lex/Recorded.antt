-- ===== src/Lexer/Lex/Recorded.antt =====
-- The source manager while a text is read: the entry of the lexer's file holds the lines of what
-- has been read, and every other entry stays.
use mathlib.Core.Path.{subst}
use u_lang.Prelude.{
  ℕ, suc, ◌+◌, ◌<◌, ◌^◌, ◌≡◌, refl, sym, ap, ◌∙◌, false, List, [], ◌∷◌, ◌++◌, Bytes, append_assoc,
  length, arith,
}
use u_lang.Outcome.{ok, ok_inj}
use u_lang.Basic.SourceLocation.{UniqueId, SourcePosition}
use u_lang.Basic.Stream.{Utf8}
use u_lang.Basic.Source.{Source, get}
use u_lang.Basic.Source.Laws.{next_position, position-get}
use u_lang.Basic.SourceManager.{FileInfo, new_file_info, has_key}
use u_lang.Basic.SourceManager.Laws.{Added, line_or_nil}
use u_lang.Basic.SourceManager.Split.{
  split_lines, new_lines, new_lines-append_one, length-split_lines, length-split_lines_one,
  line_or_nil-split_lines_one, lines_ext,
}
use u_lang.Lexer.Token.{Token, Numerals}
use u_lang.Lexer.State.{Lexer, get_char}
use u_lang.Lexer.State.Ahead.{Decodes}
use u_lang.Lexer.State.Recording.{entry, own_entry, SameFile, get_char-SameFile, get_char-Added}
use u_lang.Lexer.State.Kept.{Stable}
use u_lang.Lexer.Lex.{lex}
use u_lang.Lexer.Lex.Kept.{lex-Keeps}

-- The characters that were read make these lines, if the lines were those of the characters before.
Added-split_lines :
    (info info' : FileInfo) (read : List ℕ) (c : ℕ)
    → info.lines ≡ split_lines read
    → Added info (suc (new_lines read)) c info'
    → info'.lines ≡ split_lines (read ++ c ∷ [])
Added-split_lines info info' read c e a =
    lines_ext info'.lines (split_lines (read ++ c ∷ []))
      ((a.at_last
          (omega (arith, length-split_lines read, ap (λ (t : List (List ℕ)). length t) e))).1
        ∙ sym (length-split_lines_one read c))
      (λ j.
        ground
          (arith, a.at_line j, ap (λ t. line_or_nil t j) e, line_or_nil-split_lines_one read c j))

-- The entries of other files than that of the lexer are what they were.
abbrev pub OthersStay : Lexer → Lexer → Type 0
OthersStay l0 l =
    (id : UniqueId) (name path : Bytes)
    → has_key id name path (new_file_info l0.id l0.file_name l0.file_path) ≡ false
    → entry l id name path ≡ entry l0 id name path

module _ (utf8 : Utf8) (text : List ℕ) (l0 : Lexer) where
  -- Since the lexer was `l0`, of the text a first part has been read, and the source holds the
  -- rest. The entry of the lexer's file has the lines of the first part, and no other has changed.
  pub record Recorded (l : Lexer) : Type 0 where
    pub read : List ℕ
    pub rest : List ℕ
    pub parts : read ++ rest ≡ text
    pub decodes : Decodes utf8 l.source rest
    pub counted : 0 < l.source.position.line
    pub bounded : l.source.position.line + length rest + 1 < 2 ^ 64
    pub next : (next_position utf8 l.source).line ≡ suc (new_lines read)
    pub lines : (own_entry l).lines ≡ split_lines read
    pub same_file : SameFile l0 l
    pub others : OthersStay l0 l

  -- Behind a character that `GetChar` reads.
  Recorded-next :
      (l : Lexer) (p : Recorded l) (c : ℕ) (rest : List ℕ) (src : Source) (l' : Lexer)
      → p.rest ≡ c ∷ rest
      → get utf8 l.source ≡ ok (c, src)
      → Decodes utf8 src rest
      → l'.source ≡ src
      → Added (own_entry l) src.position.line c (own_entry l')
      → SameFile l0 l'
      → OthersStay l0 l'
      → Recorded l'
  unfolding new_lines
  Recorded-next l p c rest src l' split g d same added file others =
      let (kept, moved, ended, seen) = position-get utf8 l.source g in
      let line : src.position.line ≡ suc (new_lines p.read) =
        ap (λ (q : SourcePosition). q.line) moved ∙ p.next in
      let low : src.position.line + length rest + 1 < 2 ^ 64 =
        ground (arith, p.bounded, ap (λ (t : List ℕ). length t) split) in
      record {
        read = p.read ++ c ∷ [];
        rest = rest;
        parts = append_assoc p.read (c ∷ []) rest ∙ ap (λ t. p.read ++ t) (sym split) ∙ p.parts;
        decodes = subst (λ x. Decodes utf8 x rest) (sym same) d;
        counted = rw same (omega (arith, line));
        bounded = rw same low;
        next = rw same (ground (arith, ended, line, low, new_lines-append_one p.read c));
        lines =
            Added-split_lines (own_entry l) (own_entry l') p.read c p.lines
              (subst (λ n. Added (own_entry l) n c (own_entry l')) line added);
        same_file = file;
        others = others;
      }

  Recorded-get_char :
      (l : Lexer) (p : Recorded l) (rest : List ℕ) (a : ℕ) (l' : Lexer)
      → p.rest ≡ rest
      → Decodes utf8 l.source rest
      → get_char utf8 l ≡ ok (a, l')
      → Recorded l'
  unfolding get_char
  Recorded-get_char l p [] a l' split d e =
      subst (λ (r : ℕ × Lexer). Recorded r.1) (ok_inj (rw d at e)) p
  Recorded-get_char l p (c ∷ rest) a l' split (more, (src, g, d)) e =
      let (kept, moved, ended, seen) = position-get utf8 l.source g in
      let (l2, e2, same, added, others) =
        get_char-Added utf8 l c src more g
          (omega (arith, ap (λ (q : SourcePosition). q.line) moved, p.next)) in
      let (id, name, path) = get_char-SameFile utf8 l c l2 e2 in
      let own : entry l2 l.id l.file_name l.file_path ≡ own_entry l2 = cc (id, name, path) in
      subst (λ (r : ℕ × Lexer). Recorded r.1) (ok_inj (sym e2 ∙ e))
        (Recorded-next l p c rest src l2 split g d same
          (subst (λ i. Added (own_entry l) src.position.line c i) own added)
          (id ∙ p.same_file.0, name ∙ p.same_file.1, path ∙ p.same_file.2)
          λ id' name' path' other.
            others id' name' path' (cc (other, p.same_file.0, p.same_file.1, p.same_file.2))
            ∙ p.others id' name' path' other)

  pub Recorded-Stable : Stable utf8 Recorded
  Recorded-Stable = record {
    get_char = record { keeps = λ l a l' e p. Recorded-get_char l p p.rest a l' refl p.decodes e };
    fields = λ l r c n v d p. record {
      read = p.read;
      rest = p.rest;
      parts = p.parts;
      decodes = p.decodes;
      counted = p.counted;
      bounded = p.bounded;
      next = p.next;
      lines = p.lines;
      same_file = p.same_file;
      others = p.others;
    };
  }

  -- The entry of the lexer's file holds the lines of what has been read of the text, each with its
  -- new-line, and no other entry has changed: where `Lex` returns a token, whichever, this holds
  -- behind the call if it held before.
  pub lex-Recorded :
      {F I : Type 0} (ap' : Numerals F I) (fuel : ℕ) (l : Lexer) (t : Token F I) (l' : Lexer)
      → lex ap' utf8 fuel l ≡ ok (t, l')
      → Recorded l
      → Recorded l'
  lex-Recorded ap' fuel l t l' = (lex-Keeps utf8 Recorded-Stable ap' fuel).keeps l t l'
