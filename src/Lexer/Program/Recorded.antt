-- ===== src/Lexer/Program/Recorded.antt =====
-- A new lexer over a whole text: the tokens, and the lines that the source manager is left with.
use mathlib.Core.Path.{subst}
use u_lang.Prelude.{
  ℕ, zero, suc, ◌+◌, ◌≤◌, ◌<◌, ◌^◌, ◌≡◌, refl, sym, ap, ◌∙◌, false, List, [], ◌∷◌, ◌++◌, append-nil,
  length, arith, inl, inr,
}
use u_lang.Outcome.{ok}
use u_lang.Basic.Stream.{Utf8, IsLawful}
use u_lang.Basic.Source.{Source, has_more}
use u_lang.Basic.SourceManager.{FileTable}
use u_lang.Basic.SourceManager.Split.{split_lines, new_lines}
use u_lang.Basic.Diagnostic.{DiagnosticEngine}
use u_lang.Lexer.Token.{Token, Numerals}
use u_lang.Lexer.State.{Lexer, new_lexer, cur_char}
use u_lang.Lexer.State.Ahead.{Decodes, At, head_or_zero, cur_char-start, cur_char-At}
use u_lang.Lexer.State.Recording.{own_entry}
use u_lang.Lexer.State.Kept.{Keeps, Stable, bind-Keeps, gets-Keeps, no_fuel-Keeps, if-Keeps}
use u_lang.Lexer.Lex.{lex}
use u_lang.Lexer.Lex.Kept.{lex-Keeps}
use u_lang.Lexer.Lex.Recorded.{OthersStay, Recorded, Recorded-Stable}
use u_lang.Lexer.Program.{Item, print, AllItems, item_tokens, unplaced, lex_all}
use u_lang.Lexer.Program.RoundTrip.{lex_all-print}

module _ {F I : Type 0} (ap' : Numerals F I) (utf8 : Utf8) where
  lex_all-Keeps :
      {P : Lexer → Type 0} (s : Stable utf8 P) (rounds fuel : ℕ)
      → Keeps P (lex_all ap' utf8 rounds fuel)
  unfolding lex_all
  lex_all-Keeps s zero fuel = no_fuel-Keeps
  lex_all-Keeps s (suc rounds) fuel =
      bind-Keeps _ (lex-Keeps utf8 s ap' fuel)
        λ t. if-Keeps _ gets-Keeps (bind-Keeps _ (lex_all-Keeps s rounds fuel) λ ts. gets-Keeps)

  -- A lexer that has nothing ahead has read the whole text.
  read-all :
      (text : List ℕ) (l0 l : Lexer) (r : Recorded utf8 text l0 l)
      → has_more l.source ≡ false
      → r.read ≡ text
  read-all text l0 l r h = go r.rest refl r.decodes
    where
      go : (rest : List ℕ) → r.rest ≡ rest → Decodes utf8 l.source rest → r.read ≡ text
      go [] e d = sym (append-nil r.read) ∙ subst (λ t. r.read ++ t ≡ text) e r.parts
      go (c ∷ rest) e d = absurd (cc (h, d.0))

  At-ended : (l : Lexer) → At utf8 l [] → has_more l.source ≡ false
  At-ended l a = elim a.ready.view [ inl one ↦ one.2 | inr two ↦ two.3 ]

  -- The first call reads the first character.
  lex_all-cur_char :
      (rounds fuel c : ℕ) (l l' : Lexer)
      → cur_char utf8 l ≡ ok (c, l')
      → cur_char utf8 l' ≡ ok (c, l')
      → lex_all ap' utf8 (suc rounds) fuel l ≡ lex_all ap' utf8 (suc rounds) fuel l'
  unfolding lex_all lex
  lex_all-cur_char rounds fuel c l l' e h = rw e (rw h refl)

  module _ (table : FileTable) (d : DiagnosticEngine) (src : Source) (c n : ℕ) (text : List ℕ) where
    abbrev pub fresh : Lexer
    fresh = new_lexer table d src c n

    new_lexer-Recorded :
        Decodes utf8 src text
        → src.position.line ≡ 1
        → src.got_new_line ≡ false
        → length text + 2 < 2 ^ 64
        → (own_entry fresh).lines ≡ []
        → Recorded utf8 text fresh fresh
    unfolding split_lines new_lines
    new_lexer-Recorded e one start short empty = record {
      read = [];
      rest = text;
      parts = refl;
      decodes = e;
      counted = omega (arith, one);
      bounded = omega (arith, one);
      next = rw start one;
      lines = empty;
      same_file = (refl, refl, refl);
      others = λ id name path other. refl;
    }

  -- With a lawful decoder, more calls than there are items, and four rounds more than there are
  -- characters: a new lexer over a source that holds the printed text of the items (words, integers
  -- that the library converts, real numbers with a fraction that it converts with no complaint,
  -- punctuators, quoted texts, ANY types, comments and line ends, in ASCII), at line 1 and with no
  -- line of its file in the source manager, returns the tokens of the items, whose places are not
  -- stated, and then that of the end of the file. The entry of its file is then the lines of the
  -- text, each with the new-line that ends it, and the entry of no other file has changed.
  pub lex_all-new_lexer :
      (items : List (ℕ × Item)) (rounds fuel : ℕ) (table : FileTable) (d : DiagnosticEngine)
      (src : Source) (c n : ℕ)
      → IsLawful utf8
      → AllItems ap' items
      → length items < rounds
      → length (print items) + 4 ≤ fuel
      → Decodes utf8 src (print items)
      → src.position.line ≡ 1
      → src.got_new_line ≡ false
      → length (print items) + 2 < 2 ^ 64
      → (own_entry (new_lexer table d src c n)).lines ≡ []
      → let l = new_lexer table d src c n in
        (ts : List (Token F I)) × (l' : Lexer) × (lex_all ap' utf8 rounds fuel l ≡ ok (ts, l'))
        × (unplaced ts ≡ item_tokens ap' utf8 items)
        × ((own_entry l').lines ≡ split_lines (print items))
        × OthersStay l l'
  lex_all-new_lexer items zero fuel table d src c n law p h f e one start short empty =
      absurd (omega arith)
  lex_all-new_lexer items (suc rounds) fuel table d src c n law p h f e one start short empty =
      let text = print items in
      let l = new_lexer table d src c n in
      let (l1, first, ready, cur, range, same) =
        cur_char-start utf8 l text refl
          (record { counted = omega (arith, one); bounded = omega (arith, one) }) e in
      let at : At utf8 l1 text = record { cur = cur; ready = ready } in
      let (ts, l2, all, tokens, ended) =
        lex_all-print ap' utf8 items (suc rounds) fuel l1 law p h f at in
      let whole =
        lex_all-cur_char rounds fuel (head_or_zero text) l l1 first (cur_char-At utf8 l1 text at)
        ∙ all in
      let r =
        (lex_all-Keeps (Recorded-Stable utf8 text l) (suc rounds) fuel).keeps l ts l2 whole
          (new_lexer-Recorded table d src c n text e one start short empty) in
      (
        ts,
        l2,
        whole,
        tokens,
        r.lines ∙ ap split_lines (read-all text l l2 r (At-ended l2 ended)),
        r.others,
      )
