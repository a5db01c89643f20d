-- ===== src/Basic/IdentifierTable/Laws.antt =====
-- The identifier table against the names and the spellings of the token kinds.
use mathlib.Core.Path.{subst}
use u_lang.Prelude.{Bytes, ◌≡◌, refl, Option, none, some, arith}
use u_lang.Prelude.Table.{find-AllEntries}
use u_lang.Basic.TokenKinds.{
  TokenKind, get_token_name, get_punctuator_spelling, get_keyword_spelling, kw_fn, kw_let,
}
use u_lang.Basic.IdentifierTable.{IdentifierInfo, identifier_table, get, add_identifiers}

abbrev IsEntry : Bytes → IdentifierInfo → Type 0
IsEntry s p =
    (p.spelling ≡ s) × (get_token_name p.kind ≡ s) × (get_punctuator_spelling p.kind ≡ none)

abbrev FoundAt : TokenKind → Option Bytes → Type 0
FoundAt k none = Unit
FoundAt k (some s) = get identifier_table s ≡ some (record { spelling = s; kind = k })

found_at : (k : TokenKind) → FoundAt k (get_keyword_spelling k)
unfolding get add_identifiers get_keyword_spelling
found_at kw_fn = refl
found_at kw_let = refl
found_at _ = tt

get-IsEntry : (s : Bytes) {p : IdentifierInfo} → get identifier_table s ≡ some p → IsEntry s p
unfolding get add_identifiers get_token_name get_punctuator_spelling
get-IsEntry s h = find-AllEntries IsEntry identifier_table s (ground arith) h

-- A word that the identifier table holds is the name of the kind that it is found with, which is
-- no punctuator; and the spelling of a keyword is found in the table with the keyword's kind.
pub get-get_token_name :
    ((s : Bytes) (p : IdentifierInfo)
      → get identifier_table s ≡ some p
      → (p.spelling ≡ s) × (get_token_name p.kind ≡ s) × (get_punctuator_spelling p.kind ≡ none))
    × ((k : TokenKind) (s : Bytes)
        → get_keyword_spelling k ≡ some s
        → get identifier_table s ≡ some (record { spelling = s; kind = k }))
get-get_token_name = (λ s p. get-IsEntry s, λ k s h. subst (FoundAt k) h (found_at k))
