-- ===== src/Basic/SourceManager/Split.antt =====
-- The lines of a text, each with the new-line that ends it: what `FileInfo::AddCharacter` should
-- have left of a text that was added to it from the front.
use u_lang.Prelude.{
  ℕ, zero, suc, ◌≤◌, ◌≡◌, refl, List, [], ◌∷◌, ◌++◌, length, arith, ◌==◌, if◌then◌else◌, Bool-cases,
  inl, inr,
}
use u_lang.Basic.SourceManager.{Lines}
use u_lang.Basic.SourceManager.Laws.{line_or_nil}

abbrev cons_first : ℕ → Lines → Lines
cons_first c [] = (c ∷ []) ∷ []
cons_first c (l ∷ lines) = (c ∷ l) ∷ lines

unfoldable pub split_lines : List ℕ → Lines
split_lines [] = []
split_lines (c ∷ cs) =
    let rest = split_lines cs in if c == b'\n' then (c ∷ []) ∷ rest else cons_first c rest

-- The new-lines of a text.
unfoldable pub new_lines : List ℕ → ℕ
new_lines [] = 0
new_lines (c ∷ cs) = let rest = new_lines cs in if c == b'\n' then suc rest else rest

pub new_lines-append_one :
    (cs : List ℕ) (c : ℕ)
    → new_lines (cs ++ c ∷ []) ≡ (if c == b'\n' then suc (new_lines cs) else new_lines cs)
unfolding new_lines
new_lines-append_one [] c = refl
new_lines-append_one (d ∷ cs) c = ground (arith, new_lines-append_one cs c)

cons_first-zero :
    (d : ℕ) (lines : Lines) → line_or_nil (cons_first d lines) 0 ≡ d ∷ line_or_nil lines 0
unfolding line_or_nil
cons_first-zero d [] = refl
cons_first-zero d (l ∷ lines) = refl

cons_first-suc :
    (d : ℕ) (lines : Lines) (j : ℕ)
    → line_or_nil (cons_first d lines) (suc j) ≡ line_or_nil lines (suc j)
unfolding line_or_nil
cons_first-suc d [] j = refl
cons_first-suc d (l ∷ lines) j = refl

length-cons_first :
    (d : ℕ) (lines : Lines)
    → length (cons_first d lines) ≡ (if length lines == 0 then 1 else length lines)
length-cons_first d [] = refl
length-cons_first d (l ∷ lines) = ground arith

pub length-split_lines : (cs : List ℕ) → length (split_lines cs) ≤ suc (new_lines cs)
unfolding split_lines new_lines
length-split_lines [] = omega arith
length-split_lines (d ∷ cs) =
    ground (arith, length-split_lines cs, length-cons_first d (split_lines cs))

pub length-split_lines_one :
    (cs : List ℕ) (c : ℕ) → length (split_lines (cs ++ c ∷ [])) ≡ suc (new_lines cs)
unfolding split_lines new_lines
length-split_lines_one [] c = ground arith
length-split_lines_one (d ∷ cs) c =
    ground (arith, length-split_lines_one cs c, length-cons_first d (split_lines (cs ++ c ∷ [])))

-- A character behind a text stands in the line that the new-lines of the text count.
pub line_or_nil-split_lines_one :
    (cs : List ℕ) (c j : ℕ)
    → line_or_nil (split_lines (cs ++ c ∷ [])) j ≡ (
        if new_lines cs == j
        then line_or_nil (split_lines cs) j ++ c ∷ []
        else line_or_nil (split_lines cs) j)
unfolding split_lines new_lines line_or_nil
line_or_nil-split_lines_one [] c zero = ground arith
line_or_nil-split_lines_one [] c (suc j) = ground arith
line_or_nil-split_lines_one (d ∷ cs) c zero = elim (Bool-cases (d == b'\n')) [
  | inl y ↦ rw y (ground arith)
  | inr n ↦ rw n (
      ground (
        arith,
        cons_first-zero d (split_lines (cs ++ c ∷ [])),
        cons_first-zero d (split_lines cs),
        line_or_nil-split_lines_one cs c 0,
      ))
]
line_or_nil-split_lines_one (d ∷ cs) c (suc j) = elim (Bool-cases (d == b'\n')) [
  | inl y ↦ rw y (ground (arith, line_or_nil-split_lines_one cs c j))
  | inr n ↦ rw n (
      ground (
        arith,
        cons_first-suc d (split_lines (cs ++ c ∷ [])) j,
        cons_first-suc d (split_lines cs) j,
        line_or_nil-split_lines_one cs c (suc j),
      ))
]

-- Lines are the same if they are as many and each is the same.
pub lines_ext :
    (a b : Lines) → length a ≡ length b → ((j : ℕ) → line_or_nil a j ≡ line_or_nil b j) → a ≡ b
unfolding line_or_nil
lines_ext [] [] h e = refl
lines_ext [] (l ∷ b) h e = absurd (omega arith)
lines_ext (l ∷ a) [] h e = absurd (omega arith)
lines_ext (l ∷ a) (m ∷ b) h e =
    let head = e 0 in let rest = lines_ext a b (omega arith) (λ j. e (suc j)) in cc (head, rest)
