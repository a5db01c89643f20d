-- ===== src/Basic/PunctuatorTable/Laws.antt =====
-- The punctuator table against the spellings of the token kinds.
use mathlib.Core.Path.{subst}
use u_lang.Prelude.{Bytes, ◌≡◌, refl, Option, none, some, arith}
use u_lang.Prelude.Table.{find-AllEntries}
use u_lang.Basic.TokenKinds
use u_lang.Basic.TokenKinds.{TokenKind, minus, get_punctuator_spelling}
use u_lang.Basic.PunctuatorTable.{PunctuatorInfo, punctuator_table, get, add_punctuators}

abbrev IsEntry : Bytes → PunctuatorInfo → Type 0
IsEntry s p = (p.spelling ≡ s) × (get_punctuator_spelling p.kind ≡ some s)

abbrev FoundAt : TokenKind → Option Bytes → Type 0
FoundAt k none = Unit
FoundAt k (some s) =
    get punctuator_table s ≡ some (record { spelling = s; kind = k; precedence = 0 })

found_at : (k : TokenKind) → FoundAt k (get_punctuator_spelling k)
unfolding get add_punctuators get_punctuator_spelling
found_at minus = refl
found_at TokenKinds.l_square = refl
found_at TokenKinds.r_square = refl
found_at TokenKinds.amp = refl
found_at TokenKinds.ampamp = refl
found_at TokenKinds.pipe = refl
found_at TokenKinds.pipepipe = refl
found_at _ = tt

get-IsEntry : (s : Bytes) {p : PunctuatorInfo} → get punctuator_table s ≡ some p → IsEntry s p
unfolding get add_punctuators get_punctuator_spelling
get-IsEntry s h = find-AllEntries IsEntry punctuator_table s (ground arith) h

entry_of_kind :
    (k : TokenKind) (s : Bytes)
    → get_punctuator_spelling k ≡ some s
    → get punctuator_table s ≡ some (record { spelling = s; kind = k; precedence = 0 })
entry_of_kind k s h = subst (FoundAt k) h (found_at k)

-- The table and the spellings are inverse: a text that the table holds is the spelling of the kind
-- that it is found with, and the spelling of a kind, where it has one, is found in the table with
-- that kind.
pub get-get_punctuator_spelling :
    ((s : Bytes) (p : PunctuatorInfo)
      → get punctuator_table s ≡ some p
      → (p.spelling ≡ s) × (get_punctuator_spelling p.kind ≡ some s))
    × ((k : TokenKind) (s : Bytes)
        → get_punctuator_spelling k ≡ some s
        → get punctuator_table s ≡ some (record { spelling = s; kind = k; precedence = 0 }))
get-get_punctuator_spelling = (λ s p. get-IsEntry s, entry_of_kind)
