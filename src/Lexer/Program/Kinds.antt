-- ===== src/Lexer/Program/Kinds.antt =====
-- How an item begins, and the kind of its token.
use mathlib.Core.Path.{subst}
use u_lang.Prelude.{
  ℕ, ◌≡◌, refl, false, List, [], ◌∷◌, ◌++◌, Bytes, Option, none, some, length, arith, ◌==◌,
  Bool-cases, inl, inr,
}
use u_lang.Basic.SourceLocation.{no_location}
use u_lang.Basic.Stream.{Utf8}
use u_lang.Basic.TokenKinds.{
  TokenKind, get_punctuator_spelling, eof, is, minus, l_square, r_square, amp, ampamp, pipe,
  pipepipe,
}
use u_lang.Lexer.Token.{Numerals}
use u_lang.Lexer.State.Ahead.{head_or_zero}
use u_lang.Prelude.Table.{find-AllEntries}
use u_lang.Basic.IdentifierTable
use u_lang.Basic.IdentifierTable.{IdentifierInfo, identifier_table}
use u_lang.Prelude.Ctype.{isdigit}
use u_lang.Lexer.Lex.{is_identifier_start, word_token, is_space}
use u_lang.Lexer.Program.Items.{placed-word_token, placed-literal}
use u_lang.Lexer.Program.{
  Item, word, decimal, hexadecimal, real, punctuator, quoted, any_type, comment_line, line_end,
  IsItem, print_item, item_token, placed,
}

-- A kind with a spelling is not that of the end of the file, and its spelling begins with no space.
abbrev IsMark : List ℕ → TokenKind → Option Bytes → Type 0
IsMark rest k none = Unit
IsMark rest k (some s) = (is_space (head_or_zero (s ++ rest)) ≡ false) × (is k eof ≡ false)

get_punctuator_spelling-IsMark :
    (rest : List ℕ) (k : TokenKind) → IsMark rest k (get_punctuator_spelling k)
unfolding get_punctuator_spelling is_space
get_punctuator_spelling-IsMark rest minus = (refl, refl)
get_punctuator_spelling-IsMark rest l_square = (refl, refl)
get_punctuator_spelling-IsMark rest r_square = (refl, refl)
get_punctuator_spelling-IsMark rest amp = (refl, refl)
get_punctuator_spelling-IsMark rest pipe = (refl, refl)
get_punctuator_spelling-IsMark rest ampamp = (refl, refl)
get_punctuator_spelling-IsMark rest pipepipe = (refl, refl)
get_punctuator_spelling-IsMark rest _ = tt

-- No word of the table is.
get-ne_eof :
    (s : Bytes) (p : IdentifierInfo)
    → IdentifierTable.get identifier_table s ≡ some p
    → is p.kind eof ≡ false
unfolding IdentifierTable.get IdentifierTable.add_identifiers
get-ne_eof s p h =
    find-AllEntries (λ t q. is q.kind eof ≡ false) identifier_table s (ground arith) h

module _ {F I : Type 0} (ap' : Numerals F I) (utf8 : Utf8) where
  -- An item begins with no space and is not empty.
  pub head-print_item :
      (i : Item) (rest : List ℕ)
      → IsItem ap' i
      → is_space (head_or_zero (print_item i ++ rest)) ≡ false
  unfolding is_identifier_start isdigit is_space get_punctuator_spelling
  head-print_item (word c cs) rest i = ground (arith, i.0)
  head-print_item (decimal d ds) rest i = ground (arith, i.0)
  head-print_item (hexadecimal d ds) rest i = refl
  head-print_item (real d ds f fs) rest i = ground (arith, i.0)
  head-print_item (punctuator k) rest (s, spelled) =
      rw spelled (subst (IsMark rest k) spelled (get_punctuator_spelling-IsMark rest k)).0
  head-print_item (quoted c s) rest i = refl
  head-print_item (any_type c) rest i = refl
  head-print_item (comment_line body) rest i = refl
  head-print_item line_end rest i = refl

  word_token-ne_eof :
      (s : Bytes) (o : Option IdentifierInfo)
      → ((p : IdentifierInfo) → o ≡ some p → is p.kind eof ≡ false)
      → is (word_token ap' utf8 no_location s o).kind eof ≡ false
  word_token-ne_eof s none h = refl
  word_token-ne_eof s (some p) h = h p refl

  -- No item is taken for the end of the file.
  pub item_token-ne_eof : (i : Item) → IsItem ap' i → is (item_token ap' utf8 i).kind eof ≡ false
  item_token-ne_eof (word c cs) i =
      word_token-ne_eof (c ∷ cs) (IdentifierTable.get identifier_table (c ∷ cs))
        (get-ne_eof (c ∷ cs))
  item_token-ne_eof (decimal d ds) i = refl
  item_token-ne_eof (hexadecimal d ds) i = refl
  item_token-ne_eof (real d ds f fs) i = refl
  item_token-ne_eof (punctuator k) (s, spelled) =
      (subst (IsMark [] k) spelled (get_punctuator_spelling-IsMark [] k)).1
  item_token-ne_eof (quoted c s) i = elim (Bool-cases (length (c ∷ s) == 1)) [
    | inl one ↦ rw one refl
    | inr more ↦ rw more refl
  ]
  item_token-ne_eof (any_type c) i = refl
  item_token-ne_eof (comment_line body) i = refl
  item_token-ne_eof line_end i = refl

  -- It has no place.
  pub placed-item_token :
      (i : Item) → placed no_location (item_token ap' utf8 i) ≡ item_token ap' utf8 i
  placed-item_token (word c cs) =
      placed-word_token ap' utf8 no_location (c ∷ cs)
        (IdentifierTable.get identifier_table (c ∷ cs))
  placed-item_token (quoted c s) = placed-literal ap' utf8 no_location c s
  placed-item_token _ = refl
