-- ===== src/Basic/SourceManager/Laws.antt =====
-- The lines of a file as the lexer fills them, and the entries of the file table.
use u_lang.Prelude.{
  ℕ, zero, suc, ◌+◌, ◌-◌, ◌≤◌, ◌<◌, ◌≡◌, refl, sym, ap, ◌∙◌, List, [], ◌∷◌, ◌++◌, length,
  length-append, ◌==◌, if◌then◌else◌, arith, append-nil, append_assoc,
}
use u_lang.Outcome.{ok}
use u_lang.Basic.SourceManager.{Lines, FileInfo, add_lines, push_at, add_character}

-- All characters of the lines, one line behind the other.
unfoldable pub text : Lines → List ℕ
text [] = []
text (l ∷ lines) = l ++ text lines

-- A line, empty where there is none.
unfoldable pub line_or_nil : Lines → ℕ → List ℕ
line_or_nil [] i = []
line_or_nil (l ∷ lines) zero = l
line_or_nil (l ∷ lines) (suc i) = line_or_nil lines i

text-append : (a b : Lines) → text (a ++ b) ≡ text a ++ text b
unfolding text
text-append [] b = refl
text-append (l ∷ a) b = simp (text-append a b, append_assoc)

length-add_lines : (n : ℕ) (lines : Lines) → length (add_lines n lines) ≡ length lines + n
unfolding add_lines
length-add_lines zero lines = omega arith
length-add_lines (suc n) lines =
    omega (arith, length-add_lines n (lines ++ [] ∷ []), length-append lines ([] ∷ []))

text-add_lines : (n : ℕ) (lines : Lines) → text (add_lines n lines) ≡ text lines
unfolding add_lines text
text-add_lines zero lines = refl
text-add_lines (suc n) lines =
    text-add_lines n (lines ++ [] ∷ []) ∙ text-append lines ([] ∷ []) ∙ append-nil (text lines)

line_or_nil-append_nil :
    (lines : Lines) (i : ℕ) → line_or_nil (lines ++ [] ∷ []) i ≡ line_or_nil lines i
unfolding line_or_nil
line_or_nil-append_nil [] zero = refl
line_or_nil-append_nil [] (suc i) = refl
line_or_nil-append_nil (l ∷ lines) zero = refl
line_or_nil-append_nil (l ∷ lines) (suc i) = line_or_nil-append_nil lines i

line_or_nil-add_lines :
    (n : ℕ) (lines : Lines) (i : ℕ) → line_or_nil (add_lines n lines) i ≡ line_or_nil lines i
unfolding add_lines
line_or_nil-add_lines zero lines i = refl
line_or_nil-add_lines (suc n) lines i =
    line_or_nil-add_lines n (lines ++ [] ∷ []) i ∙ line_or_nil-append_nil lines i

-- What a successful push leaves.
record Pushed (lines : Lines) (i c : ℕ) (lines' : Lines) : Type 0 where
  pushed : push_at lines i c ≡ ok lines'
  size : length lines' ≡ length lines
  at_line :
      (j : ℕ)
      → line_or_nil lines' j
        ≡ (if i == j then line_or_nil lines j ++ c ∷ [] else line_or_nil lines j)
  at_last : length lines ≡ suc i → text lines' ≡ text lines ++ c ∷ []

Pushed-head : (l : List ℕ) (lines : Lines) (c : ℕ) → Pushed (l ∷ lines) 0 c ((l ++ c ∷ []) ∷ lines)
unfolding push_at line_or_nil text
Pushed-head l lines c = record {
  pushed = refl;
  size = refl;
  at_line = at_line;
  at_last = at_last lines;
}
  where
    at_line :
        (j : ℕ)
        → line_or_nil ((l ++ c ∷ []) ∷ lines) j
          ≡ (if 0 == j then line_or_nil (l ∷ lines) j ++ c ∷ [] else line_or_nil (l ∷ lines) j)
    at_line zero = refl
    at_line (suc j) = ground arith

    at_last :
        (rest : Lines)
        → suc (length rest) ≡ 1
        → text ((l ++ c ∷ []) ∷ rest) ≡ text (l ∷ rest) ++ c ∷ []
    at_last [] e = simp (append-nil)
    at_last (r ∷ rest) e = absurd (omega arith)

Pushed-tail :
    (l : List ℕ) (lines : Lines) (i c : ℕ) (rest : Lines)
    → Pushed lines i c rest
    → Pushed (l ∷ lines) (suc i) c (l ∷ rest)
unfolding push_at line_or_nil text
Pushed-tail l lines i c rest p = record {
  pushed = rw p.pushed;
  size = ap suc p.size;
  at_line = at_line;
  at_last = λ e. rw (p.at_last (omega arith)) (sym (append_assoc l (text lines) (c ∷ [])));
}
  where
    at_line :
        (j : ℕ)
        → line_or_nil (l ∷ rest) j
          ≡ (if suc i == j then line_or_nil (l ∷ lines) j ++ c ∷ [] else line_or_nil (l ∷ lines) j)
    at_line zero = ground arith
    at_line (suc j) = ground (arith, p.at_line j)

push_at-Pushed :
    (lines : Lines) (i c : ℕ) → i < length lines → (lines' : Lines) × Pushed lines i c lines'
push_at-Pushed [] i c h = absurd (omega arith)
push_at-Pushed (l ∷ lines) zero c h = ((l ++ c ∷ []) ∷ lines, Pushed-head l lines c)
push_at-Pushed (l ∷ lines) (suc i) c h =
    let (rest, p) = push_at-Pushed lines i c (omega arith) in
    (l ∷ rest, Pushed-tail l lines i c rest p)

-- What `AddCharacter` leaves at a line number that is not 0.
pub record Added (info : FileInfo) (n c : ℕ) (info' : FileInfo) : Type 0 where
  pub added : add_character info n c ≡ ok info'
  pub same_id : info'.id ≡ info.id
  pub same_name : info'.file_name ≡ info.file_name
  pub same_path : info'.file_path ≡ info.file_path
  pub at_line :
      (j : ℕ)
      → line_or_nil info'.lines j
        ≡ (if n - 1 == j then line_or_nil info.lines j ++ c ∷ [] else line_or_nil info.lines j)
  pub at_last :
      length info.lines ≤ n
      → (text info'.lines ≡ text info.lines ++ c ∷ []) × (length info'.lines ≡ n)

-- `AddCharacter` succeeds at every line number but 0: it puts the character at the end of that line
-- and leaves each other line, making empty lines as needed. At the last line, or behind it, the
-- character is the last of the file's text.
pub add_character-Added :
    (info : FileInfo) (n c : ℕ) → 0 < n → (info' : FileInfo) × Added info n c info'
add_character-Added info zero c h = absurd (omega arith)
add_character-Added info (suc i) c h =
    let padded = add_lines (suc i - length info.lines) info.lines in
    let long = length-add_lines (suc i - length info.lines) info.lines in
    let (lines', p) = push_at-Pushed padded i c (omega (arith, long)) in
    (
      record info { lines = lines' },
      record {
        added = unfold add_character in rw p.pushed;
        same_id = refl;
        same_name = refl;
        same_path = refl;
        at_line = λ j.
            ground
              (arith, p.at_line j, line_or_nil-add_lines (suc i - length info.lines) info.lines j);
        at_last = λ short. (
          p.at_last (omega (arith, long))
              ∙ ap (λ t. t ++ c ∷ []) (text-add_lines (suc i - length info.lines) info.lines),
          omega (arith, long, p.size),
        );
      },
    )
