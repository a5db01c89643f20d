-- ===== src/Basic/Source.antt =====
-- include/u-lang/Basic/Source.hpp and lib/Basic/Source.cpp. The three classes of sources repeat one
-- reader over their own stream; it is one record and one `get` here, and they differ in the
-- constructor.
pub mod Laws
use u_lang.Prelude.{
  ℕ, zero, suc, Bool, true, false, ◌&&◌, ◌||◌, Bytes, [], codes, length, ◌==◌, if◌then◌else◌,
}
use u_lang.Outcome.{Outcome, ok, no_fuel, ◌>>=◌}
use u_lang.Basic.SourceLocation.{
  SourcePosition, SourceLocation, UniqueId, no_id, set_column, increment_column,
  increment_line_number,
}
use u_lang.Basic.Stream.{Stream, Utf8, at_end, advance, unget}

-- `eol`.
pub data Eol : Type 0 where
  unknown unix_line_endings windows_line_endings mac_line_endings : Eol

pub record Source : Type 0 where
  pub id : UniqueId
  pub file_name : Bytes
  pub file_path : Bytes
  pub stream : Stream
  pub first : Bool
  pub has_bom : Bool
  pub position : SourcePosition
  pub got_new_line : Bool
  pub found_ff : Bool
  pub found_nl : Bool

-- The members that every constructor sets alike.
abbrev pub fresh : UniqueId → Bytes → Bytes → Bytes → Source
fresh id name path text = record {
  id = id;
  file_name = name;
  file_path = path;
  stream = record { before = []; rest = text };
  first = true;
  has_bom = false;
  position = record { line = 1; column = 0 };
  got_new_line = false;
  found_ff = false;
  found_nl = false;
}

-- `StringSource(source)`.
abbrev pub string_source : Bytes → Source
string_source text = fresh no_id (codes "top-level.u") (codes ".") text

-- `FileSource` and `MemoryBufferSource` have these members too, the first without an id of its own,
-- and the functions below are theirs word for word.
abbrev pub FileSource : Type 0
FileSource = Source

abbrev pub MemoryBufferSource : Type 0
MemoryBufferSource = Source

-- `MemoryBufferSource(ID, Path, Buf)`, the path split by LLVM's `filename` and `remove_filename`.
abbrev pub memory_buffer_source :
    (Bytes → Bytes) → (Bytes → Bytes) → UniqueId → Bytes → Bytes → MemoryBufferSource
memory_buffer_source filename remove_filename id path text =
    fresh id (filename path) (remove_filename path) text

-- `FileSource(fileName)`, of a file with the text. `to_absolute` makes a relative path absolute.
abbrev pub file_source :
    (Bytes → Bytes) → (Bytes → Bytes) → (Bytes → Bytes) → Bytes → Bytes → FileSource
file_source to_absolute filename remove_filename path text =
    fresh no_id (filename (to_absolute path)) (remove_filename (to_absolute path)) text

-- `explicit operator bool`.
abbrev pub has_more : Source → Bool
has_more src = if at_end src.stream then false else true

unfoldable pub detected_line_endings : Source → Eol
detected_line_endings src =
    if src.found_ff && src.found_nl
    then windows_line_endings
    else if src.found_ff
    then mac_line_endings
    else if src.found_nl
    then unix_line_endings
    else unknown

unfoldable pub get_location : Source → SourceLocation
get_location src = record {
  id = src.id;
  file_name = src.file_name;
  file_path = src.file_path;
  range = record { begin = src.position; end = src.position };
}

-- Process the previous new-line.
unfoldable pub start_line : Source → Source
start_line src =
    if src.got_new_line
    then record src {
      position = increment_line_number (set_column src.position 0);
      got_new_line = false;
    }
    else src

module _ (utf8 : Utf8) where
  -- The test for a byte order mark, at the first character only.
  unfoldable pub check_bom : Source → Source
  unfolding advance unget
  check_bom src =
      let found = utf8.starts_with_bom src.stream in
      if src.first
      then (if found.0
          then record src { stream = advance found.1; has_bom = true; first = false }
          else record src { stream = unget found.1; first = false })
      else src

  -- `while (ch == '\r')`.
  unfoldable pub skip_returns : ℕ → ℕ → Stream → Outcome (ℕ × Stream)
  skip_returns zero ch s = if ch == b'\r' then no_fuel else ok (ch, s)
  skip_returns (suc fuel) ch s =
      let rest = (utf8.next s >>= λ r. skip_returns fuel r.0 r.1) in
      if ch == b'\r' then rest else ok (ch, s)

  -- `Get()`. Each round of the loop reads a byte, so one more than the bytes left is fuel enough.
  unfoldable pub get : Source → Outcome (ℕ × Source)
  get src = do
    let src1 = start_line (check_bom src)
    r ← utf8.next src1.stream
    t ← skip_returns (suc (length r.1.rest)) r.0 r.1
    ok (
      t.0,
      record src1 {
        stream = t.1;
        position = increment_column src1.position;
        found_ff = src1.found_ff || r.0 == b'\r';
        found_nl = src1.found_nl || t.0 == b'\n';
        got_new_line = src1.got_new_line || t.0 == b'\n';
      },
    )

  -- `FileSource::Get` and `MemoryBufferSource::Get`, the same code as `StringSource::Get`.
  abbrev pub file_get : FileSource → Outcome (ℕ × FileSource)
  unfolding get
  file_get src = get src

  abbrev pub memory_buffer_get : MemoryBufferSource → Outcome (ℕ × MemoryBufferSource)
  unfolding get
  memory_buffer_get src = get src
