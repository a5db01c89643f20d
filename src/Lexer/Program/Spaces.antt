-- ===== src/Lexer/Program/Spaces.antt =====
-- The spaces between the items, and the one behind the last of them.
use mathlib.Core.Path.{subst}
use u_lang.Prelude.{
  ℕ, zero, suc, ◌≤◌, ◌<◌, ◌≡◌, refl, sym, ap, ◌∙◌, Bool, false, List, [], ◌∷◌, ◌++◌, length,
  replicate, take_while, drop_while, All, arith,
}
use u_lang.Outcome.{ok}
use u_lang.Basic.SourceLocation.{SourceLocation, no_location}
use u_lang.Basic.Stream.{Utf8, IsLawful}
use u_lang.Basic.TokenKinds.{eof}
use u_lang.Lexer.Token.{Token, Numerals, new_token}
use u_lang.Lexer.State.{Lexer, location}
use u_lang.Lexer.State.Ahead.{head_or_zero, next_char-Advanced, cur_char-At, At}
use u_lang.Lexer.Lex.{is_space, skip_spaces, lex}
use u_lang.Lexer.Lex.Loops.{skip_spaces-none}
use u_lang.Lexer.Lex.Tokens.{lex-drop_while, lex-no_space}
use u_lang.Lexer.Lex.Ends.{lex-eof}
use u_lang.Lexer.Program.{placed}

-- Behind members that pass the test stands one that fails it.
pub take_while-append :
    (p : ℕ → Bool) (xs : List ℕ) (c : ℕ) (rest : List ℕ)
    → All p xs
    → p c ≡ false
    → take_while p (xs ++ c ∷ rest) ≡ xs
unfolding take_while
take_while-append p [] c rest a h = rw h refl
take_while-append p (x ∷ xs) c rest a h =
    rw a.0 (ap (λ t. x ∷ t) (take_while-append p xs c rest a.1 h))

pub drop_while-append :
    (p : ℕ → Bool) (xs : List ℕ) (c : ℕ) (rest : List ℕ)
    → All p xs
    → p c ≡ false
    → drop_while p (xs ++ c ∷ rest) ≡ c ∷ rest
unfolding drop_while
drop_while-append p [] c rest a h = rw h refl
drop_while-append p (x ∷ xs) c rest a h = rw a.0 (drop_while-append p xs c rest a.1 h)

spaces-drop_while :
    (n : ℕ) (cs : List ℕ)
    → is_space (head_or_zero cs) ≡ false
    → drop_while is_space (replicate n b' ' ++ cs) ≡ cs
unfolding drop_while is_space
spaces-drop_while zero [] h = refl
spaces-drop_while zero (c ∷ cs) h = rw h refl
spaces-drop_while (suc n) cs h = spaces-drop_while n cs h

spaces-take_while :
    (n : ℕ) (cs : List ℕ)
    → is_space (head_or_zero cs) ≡ false
    → length (take_while is_space (replicate n b' ' ++ cs)) ≡ n
unfolding take_while is_space
spaces-take_while zero [] h = refl
spaces-take_while zero (c ∷ cs) h = rw h refl
spaces-take_while (suc n) cs h = ap suc (spaces-take_while n cs h)

module _ {F I : Type 0} (ap' : Numerals F I) (utf8 : Utf8) where
  -- `Lex` returns this token, at some place, and is left at the rest.
  abbrev pub Lexes : ℕ → Token F I → List ℕ → Lexer → Type 0
  Lexes fuel t rest l =
      (w : SourceLocation) × (l' : Lexer) × (lex ap' utf8 fuel l ≡ ok (placed w t, l'))
      × At utf8 l' rest

  -- The spaces in front do not matter.
  pub lex-spaces :
      (fuel n : ℕ) (cs : List ℕ) (l : Lexer)
      → n ≤ fuel
      → is_space (head_or_zero cs) ≡ false
      → At utf8 l (replicate n b' ' ++ cs)
      → (l' : Lexer) × (lex ap' utf8 fuel l ≡ lex ap' utf8 fuel l') × At utf8 l' cs
  lex-spaces fuel n cs l h first a =
      let (l', e, d) =
        lex-drop_while ap' utf8 fuel (replicate n b' ' ++ cs) l
          (omega (arith, spaces-take_while n cs first)) a in
      let behind = spaces-drop_while n cs first in
      let at : At utf8 l' cs = subst (At utf8 l') behind d.at in
      (l', rw behind at e ∙ sym (lex-no_space ap' utf8 fuel cs l' first at), at)

  -- Behind a last space the text ends.
  pub lex-last_space :
      (fuel : ℕ) (l : Lexer)
      → IsLawful utf8
      → 0 < fuel
      → At utf8 l (b' ' ∷ [])
      → Lexes fuel (new_token ap' eof no_location) [] l
  unfolding lex skip_spaces is_space
  lex-last_space zero l law h a = absurd (omega arith)
  lex-last_space (suc fuel) l law h a =
      let (l1, n) = next_char-Advanced utf8 l [] a.ready in
      let ended : At utf8 l1 [] = record { cur = n.cur; ready = n.ready } in
      let skipped = skip_spaces-none utf8 fuel 0 (location l1) l1 refl in
      (
        location l1,
        l1,
        rw (cur_char-At utf8 l (b' ' ∷ []) a) (rw n.result (rw skipped refl))
            ∙ sym (lex-no_space ap' utf8 (suc fuel) [] l1 refl ended)
            ∙ lex-eof ap' utf8 (suc fuel) l1 law h n.cur n.alone,
        ended,
      )
