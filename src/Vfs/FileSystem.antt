-- ===== src/Vfs/FileSystem.antt =====
-- include/u-lang/Basic/VirtualFileSystem.hpp: the abstract classes `File`, `directory_iterator`
-- and `FileSystem`. A class with virtual functions is a record of them; `W` is the state of all
-- the file systems there are, which they share, so that one that is in two lists is one.
use u_lang.Prelude.{ℕ, Bool, true, false, Bytes, List, Option, none, some}
use u_lang.Outcome.{Outcome, ok, ◌>>=◌}
use u_lang.Vfs.Status.{Errc, ErrorOr, value, error, Status, exists}

-- LLVM's functions on paths. `components` lists what lies between `path::begin` and `path::end`,
-- each with the place behind its last byte.
pub record Paths : Type 0 where
  pub components : Bytes → List (Bytes × ℕ)
  pub is_absolute : Bytes → Bool
  pub make_absolute : Bytes → Bytes → Option Errc × Bytes
  pub remove_dots : Bytes → Bytes
  pub append : Bytes → Bytes → Bytes
  pub filename : Bytes → Bytes
  pub remove_filename : Bytes → Bytes

-- An open file. `getBuffer` is given the name and the size.
pub record File : Type 0 where
  pub status : ErrorOr Status
  pub get_buffer : Bytes → ℕ → ErrorOr Bytes

abbrev pub get_name : File → ErrorOr Bytes
get_name f = elim (f.status) [ value s ↦ value s.virtual_name | error e ↦ error e ]

-- A `directory_iterator`: at its end, where `Impl` is null, or at an entry; there, the error code
-- of the next increment and the iterator that it leaves. The directories stand still meanwhile.
pub data DirIterator : Type 0 where
  ended : DirIterator
  at : Status → Option Errc → DirIterator → DirIterator

abbrev pub is_end : DirIterator → Bool
is_end ended = true
is_end (at s e rest) = false

pub record FileSystem (W : Type 0) : Type 0 where
  pub status : Bytes → W → Outcome (ErrorOr Status)
  pub open_file_for_read : Bytes → W → Outcome (ErrorOr File × W)
  pub dir_begin : Bytes → W → Outcome (Option Errc × DirIterator)
  pub get_current_working_directory : W → ErrorOr Bytes
  pub set_current_working_directory : Bytes → W → Outcome (Option Errc × W)

module _ {W : Type 0} where
  unfoldable pub get_buffer_for_file : FileSystem W → Bytes → ℕ → W → Outcome (ErrorOr Bytes × W)
  get_buffer_for_file fs name size w = fs.open_file_for_read name w >>= λ (f, w').
      ok (elim f [ value file ↦ file.get_buffer name size | error e ↦ error e ], w')

  -- `FileSystem::exists`.
  unfoldable pub path_exists : FileSystem W → Bytes → W → Outcome Bool
  path_exists fs path w =
      fs.status path w >>= λ s. ok (elim s [ value v ↦ exists v | error e ↦ false ])

-- `FileSystem::makeAbsolute`, given the answer of `getCurrentWorkingDirectory`.
abbrev pub make_absolute : Paths → ErrorOr Bytes → Bytes → Option Errc × Bytes
make_absolute paths working_dir path = elim (paths.is_absolute path) [
  | true ↦ (none, path)
  | false ↦ elim working_dir [ value dir ↦ paths.make_absolute dir path | error e ↦ (some e, path) ]
]
