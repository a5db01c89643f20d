-- ===== src/Basic/SourceLocation.antt =====
-- include/u-lang/Basic/SourceLocation.hpp: positions, ranges and locations. Lines and columns are
-- `uint64_t` and wrap.
use u_lang.Prelude.{ℕ, Bool, Bytes, ◌==◌, ◌&&◌, [], add64}

pub record SourcePosition : Type 0 where
  pub line : ℕ
  pub column : ℕ

pub record SourceRange : Type 0 where
  pub begin : SourcePosition
  pub end : SourcePosition

-- `llvm::sys::fs::UniqueID`, the pair of a device and a file number.
pub record UniqueId : Type 0 where
  pub device : ℕ
  pub file : ℕ

pub record SourceLocation : Type 0 where
  pub id : UniqueId
  pub file_name : Bytes
  pub file_path : Bytes
  pub range : SourceRange

abbrev pub set_line_number : SourcePosition → ℕ → SourcePosition
set_line_number p l = record p { line = l }

abbrev pub set_column : SourcePosition → ℕ → SourcePosition
set_column p c = record p { column = c }

abbrev pub increment_column : SourcePosition → SourcePosition
increment_column p = record p { column = add64 p.column 1 }

abbrev pub increment_line_number : SourcePosition → SourcePosition
increment_line_number p = record p { line = add64 p.line 1 }

abbrev pub no_id : UniqueId
no_id = record { device = 0; file = 0 }

abbrev pub no_position : SourcePosition
no_position = record { line = 0; column = 0 }

-- `SourceLocation()`.
abbrev pub no_location : SourceLocation
no_location = record {
  id = no_id;
  file_name = [];
  file_path = [];
  range = record { begin = no_position; end = no_position };
}

-- `getRange().getBegin()` and `getRange().getEnd()` written through.
abbrev pub set_begin : SourceRange → SourcePosition → SourceRange
set_begin r p = record r { begin = p }

abbrev pub set_end : SourceRange → SourcePosition → SourceRange
set_end r p = record r { end = p }

abbrev pub with_begin : SourceLocation → SourcePosition → SourceLocation
with_begin w p = record w { range = record { begin = p; end = w.range.end } }

abbrev pub with_end : SourceLocation → SourcePosition → SourceLocation
with_end w p = record w { range = record { begin = w.range.begin; end = p } }

-- `w.getRange().getEnd().setColumn(c)`.
abbrev pub set_end_column : SourceLocation → ℕ → SourceLocation
set_end_column w c = with_end w (set_column w.range.end c)

abbrev pub unique_id_eq : UniqueId → UniqueId → Bool
unique_id_eq a b = a.device == b.device && a.file == b.file
