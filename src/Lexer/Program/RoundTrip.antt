-- ===== src/Lexer/Program/RoundTrip.antt =====
-- The loop over `Lex` against the printer of whole texts.
use mathlib.Core.Path.{subst}
use u_lang.Prelude.{
  ℕ, zero, suc, ◌+◌, ◌≤◌, ◌<◌, ◌≡◌, refl, sym, ap, ◌∙◌, true, false, List, [], ◌∷◌, ◌++◌, length,
  length-append, length-replicate, replicate, arith,
}
use u_lang.Outcome.{ok}
use u_lang.Basic.Stream.{Utf8, IsLawful}
use u_lang.Basic.TokenKinds.{eof, is}
use u_lang.Lexer.Token.{Token, Numerals}
use u_lang.Lexer.State.{Lexer}
use u_lang.Lexer.State.Ahead.{At}
use u_lang.Lexer.Lex.{lex}
use u_lang.Lexer.Program.{
  Item, print_item, print, AllItems, item_token, item_tokens, unplaced, lex_all, placed,
}
use u_lang.Lexer.Program.Spaces.{lex-spaces, lex-last_space}
use u_lang.Lexer.Program.Items.{lex-print_item}
use u_lang.Lexer.Program.Kinds.{head-print_item, item_token-ne_eof, placed-item_token}

-- The text of the items ends in a space, and begins with one.
abbrev print_rest : List (ℕ × Item) → List ℕ
print_rest [] = []
print_rest ((n, i) ∷ items) = replicate n b' ' ++ (print_item i ++ print items)

print-space : (items : List (ℕ × Item)) → print items ≡ b' ' ∷ print_rest items
unfolding print
print-space [] = refl
print-space ((n, i) ∷ items) = refl

length-print :
    (n : ℕ) (i : Item) (items : List (ℕ × Item))
    → length (print ((n, i) ∷ items)) ≡ 1 + (n + (length (print_item i) + length (print items)))
unfolding print
length-print n i items = omega (
  arith,
  length-append (replicate n b' ') (print_item i ++ print items),
  length-append (print_item i) (print items),
  length-replicate {A = ℕ} n b' ',
)

module _ {F I : Type 0} (ap' : Numerals F I) (utf8 : Utf8) where
  lex_all-one :
      (rounds fuel : ℕ) (t : Token F I) (l l' : Lexer)
      → lex ap' utf8 fuel l ≡ ok (t, l')
      → is t.kind eof ≡ true
      → lex_all ap' utf8 (suc rounds) fuel l ≡ ok (t ∷ [], l')
  unfolding lex_all
  lex_all-one rounds fuel t l l' e h = rw e (rw h refl)

  lex_all-more :
      (rounds fuel : ℕ) (t : Token F I) (ts : List (Token F I)) (l l1 l2 : Lexer)
      → lex ap' utf8 fuel l ≡ ok (t, l1)
      → is t.kind eof ≡ false
      → lex_all ap' utf8 rounds fuel l1 ≡ ok (ts, l2)
      → lex_all ap' utf8 (suc rounds) fuel l ≡ ok (t ∷ ts, l2)
  unfolding lex_all
  lex_all-more rounds fuel t ts l l1 l2 e h more = rw e (rw h (rw more refl))

  -- With a lawful decoder, more calls than there are items, and four rounds more than there are
  -- characters: at a text that was printed from words, decimal and hexadecimal integers that the
  -- library converts, real numbers with a fraction that it converts with no complaint, punctuators,
  -- quoted texts, ANY types, comments and line ends in ASCII, with spaces between them, the calls
  -- of `Lex` up to the end of the file return the tokens of the items, in their order, and then
  -- that of the end of the file, and leave nothing ahead. The places of the tokens are not stated.
  pub lex_all-print :
      (items : List (ℕ × Item)) (rounds fuel : ℕ) (l : Lexer)
      → IsLawful utf8
      → AllItems ap' items
      → length items < rounds
      → length (print items) + 4 ≤ fuel
      → At utf8 l (print items)
      → (ts : List (Token F I)) × (l' : Lexer) × (lex_all ap' utf8 rounds fuel l ≡ ok (ts, l'))
        × (unplaced ts ≡ item_tokens ap' utf8 items)
        × At utf8 l' []
  unfolding print
  lex_all-print items zero fuel l law p h f a = absurd (omega arith)
  lex_all-print [] (suc rounds) fuel l law p h f a =
      let (w, l', e, at) =
        lex-last_space ap' utf8 fuel l law (omega arith) (rw (print-space []) at a) in
      (_, l', lex_all-one rounds fuel _ l l' e refl, refl, at)
  lex_all-print ((n, i) ∷ items) (suc rounds) fuel l law p h f a =
      let size = length-print n i items in
      let room = length-append (print_item i) (b' ' ∷ print_rest items) in
      let spaced = print-space items in
      let (l1, e1, a1) =
        lex-spaces ap' utf8 fuel (suc n) (print_item i ++ print items) l (omega (arith, size))
          (head-print_item ap' utf8 i (print items) p.0) a in
      let (w, l2, e2, a2) =
        lex-print_item ap' utf8 fuel i (print_rest items) l1 law
          (omega (arith, size, room, ap (λ (t : List ℕ). length t) spaced)) p.0 (rw spaced at a1) in
      let (ts, l3, e3, same, ended) =
        lex_all-print items rounds fuel l2 law p.1 (omega arith) (omega (arith, size))
          (subst (At utf8 l2) (sym spaced) a2) in
      let t = item_token ap' utf8 i in
      (
        placed w t ∷ ts,
        l3,
        lex_all-more rounds fuel (placed w t) ts l l2 l3 (e1 ∙ e2)
            (item_token-ne_eof ap' utf8 i p.0) e3,
        rw (placed-item_token ap' utf8 i) (ap (λ r. t ∷ r) same),
        ended,
      )
