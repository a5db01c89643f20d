-- ===== src/Basic/SourceManager.antt =====
-- include/u-lang/Basic/SourceManager.hpp and lib/Basic/SourceManager.cpp: the text of each file that
-- the lexer has read, by line. `getFile` is in Vfs/FileManager.
pub mod Laws
pub mod Table
pub mod Split
use u_lang.Prelude.{
  ℕ, zero, suc, ◌-◌, Bool, ◌&&◌, List, [], ◌∷◌, ◌++◌, Bytes, bytes_eq, Option, none, some, length,
  get_elem?, if◌then◌else◌,
}
use u_lang.Outcome.{Outcome, ok, thrown, out_of_bounds, assertion, ◌>>=◌}
use u_lang.Basic.SourceLocation.{UniqueId, unique_id_eq}
use u_lang.Basic.Stream.{Utf8}

abbrev pub Lines : Type 0
Lines = List (List ℕ)

pub record FileInfo : Type 0 where
  pub id : UniqueId
  pub file_name : Bytes
  pub file_path : Bytes
  pub lines : Lines

-- `FileInfo(ID, FN, FP)`.
abbrev pub new_file_info : UniqueId → Bytes → Bytes → FileInfo
new_file_info id name path = record { id = id; file_name = name; file_path = path; lines = [] }

-- `while (Lines.size() < LineNum) Lines.emplace_back(...)`, on the rounds that are left.
unfoldable pub add_lines : ℕ → Lines → Lines
add_lines zero lines = lines
add_lines (suc n) lines = add_lines n (lines ++ [] ∷ [])

-- `Lines[i].push_back(Char)`.
unfoldable pub push_at : Lines → ℕ → ℕ → Outcome Lines
push_at [] i c = thrown out_of_bounds
push_at (l ∷ lines) zero c = ok ((l ++ c ∷ []) ∷ lines)
push_at (l ∷ lines) (suc i) c = do rest ← push_at lines i c; ok (l ∷ rest)

-- `Lines[LineNum - 1]` is outside the vector at line number 0.
abbrev push_line : Lines → ℕ → ℕ → Outcome Lines
push_line lines zero c = thrown out_of_bounds
push_line lines (suc i) c = push_at lines i c

unfoldable pub add_character : FileInfo → ℕ → ℕ → Outcome FileInfo
unfolding add_lines push_at
add_character info line_num c = do
  lines ← push_line (add_lines (line_num - length info.lines) info.lines) line_num c
  ok (record info { lines = lines })

abbrev line_or_fail : Option (List ℕ) → Outcome (List ℕ)
line_or_fail none = thrown assertion
line_or_fail (some l) = ok l

abbrev line_at : Lines → ℕ → Outcome (List ℕ)
line_at lines zero = thrown assertion
line_at lines (suc i) = line_or_fail (get_elem? lines i)

unfoldable pub get_line : Utf8 → FileInfo → ℕ → Outcome Bytes
get_line utf8 info num = do line ← line_at info.lines num; utf8.utf32to8 line

-- `FileTable`, each file under its key.
abbrev pub FileTable : Type 0
FileTable = List FileInfo

abbrev pub has_key : UniqueId → Bytes → Bytes → FileInfo → Bool
has_key id file path f =
    unique_id_eq f.id id && (bytes_eq f.file_name file && bytes_eq f.file_path path)

-- The entry and the table that holds it.
unfoldable pub get_or_insert_file_info : FileTable → UniqueId → Bytes → Bytes → FileInfo × FileTable
unfolding bytes_eq
get_or_insert_file_info [] id file path =
    (new_file_info id file path, new_file_info id file path ∷ [])
get_or_insert_file_info (f ∷ table) id file path =
    let found = get_or_insert_file_info table id file path in
    if has_key id file path f then (f, f ∷ table) else (found.0, f ∷ found.1)

-- A write through the reference that `getOrInsertFileInfo` returned: the entry of the same key.
unfoldable pub store_file_info : FileTable → FileInfo → FileTable
unfolding bytes_eq
store_file_info [] info = []
store_file_info (f ∷ table) info =
    if has_key info.id info.file_name info.file_path f
    then info ∷ table
    else f ∷ store_file_info table info
