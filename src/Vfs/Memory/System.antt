-- ===== src/Vfs/Memory/System.antt =====
-- lib/Basic/VirtualFileSystem.cpp: the operations of `InMemoryFileSystem`.
use u_lang.Prelude.{ℕ, ◌*◌, Bool, false, if◌then◌else◌, Bytes, Option, none, some, [], ◌∷◌}
use u_lang.Outcome.{Outcome, ok, thrown, assertion, ◌>>=◌}
use u_lang.Vfs.Status.{
  Errc, not_a_directory, invalid_argument, ErrorOr, value, error, directory_file, Status,
  make_status, is_status_known, next_virtual_unique_id,
}
use u_lang.Vfs.FileSystem.{Paths, File, DirIterator, ended, at, FileSystem, make_absolute}
use u_lang.Vfs.Memory.{
  Node, file, directory, Entries, no_entries, entry, get_status, NewFile, all_all, add_walk,
  lookup_walk,
}

pub record InMemoryFileSystem : Type 0 where
  pub root_status : Status
  pub root : Entries
  pub working_directory : Bytes
  pub use_normalized_paths : Bool

-- `InMemoryFileSystem(UseNormalizedPaths)`, and the counter of ids.
unfoldable pub new_memory : Bool → ℕ → InMemoryFileSystem × ℕ
unfolding make_status
new_memory normalized uid =
    let (id, uid') = next_virtual_unique_id uid in
    let status = make_status [] id 0 0 0 0 directory_file all_all [] in
    (
      record {
        root_status = status;
        root = no_entries;
        working_directory = [];
        use_normalized_paths = normalized;
      },
      uid',
    )

-- `toTimePoint(ModificationTime)`: seconds as nanoseconds.
abbrev pub to_time_point : ℕ → ℕ
to_time_point seconds = seconds * 1000000000

-- `InMemoryFileAdaptor`: the name and the size that `getBuffer` is given do not matter.
abbrev pub open_memory_file : Status → Bytes → File
open_memory_file s content = record { status = value s; get_buffer = λ name size. value content }

-- `openFileForRead`, on what the lookup came to.
abbrev pub open_node : ErrorOr Node → Outcome (ErrorOr File)
open_node (error e) = ok (error e)
open_node (value (file s content)) = ok (value (open_memory_file s content))
open_node (value (directory s children)) = ok (error invalid_argument)

-- An empty path is not stored.
abbrev pub store_working_directory : InMemoryFileSystem → Bytes → InMemoryFileSystem
store_working_directory m [] = m
store_working_directory m (c ∷ cs) = record m { working_directory = c ∷ cs }

-- `InMemoryDirIterator`, made a `directory_iterator`.
abbrev pub entries_iterator : Entries → DirIterator
entries_iterator no_entries = ended
entries_iterator (entry name node rest) =
    let next = entries_iterator rest in
    if is_status_known (get_status node) then at (get_status node) none next else ended

module _ (paths : Paths) where
  -- What `addFile`, `lookupInMemoryNode` and `setCurrentWorkingDirectory` do to a path first. That
  -- there is no error is asserted.
  unfoldable pub fix_path : InMemoryFileSystem → Bytes → Outcome Bytes
  fix_path m path =
      let (failed, absolute) = make_absolute paths (value m.working_directory) path in
      elim failed [
        | some e ↦ thrown assertion
        | none ↦ ok (if m.use_normalized_paths then paths.remove_dots absolute else absolute)
      ]

  unfoldable pub add_file :
      InMemoryFileSystem → Bytes → ℕ → Bytes → ℕ → Outcome (Bool × InMemoryFileSystem × ℕ)
  unfolding fix_path add_walk
  add_file m path seconds buffer uid = fix_path m path >>= λ fixed. elim fixed [
    | [] ↦ ok (false, m, uid)
    | c ∷ cs ↦
        let new : NewFile = record {
          given = path;
          up_to = c ∷ cs;
          modification_time = to_time_point seconds;
          buffer = buffer;
        } in
        add_walk new (paths.components (c ∷ cs)) m.root uid >>= λ (added, left, uid').
        ok (added, record m { root = left }, uid')
  ]

  -- The new buffer has the text of the one that is given.
  abbrev pub add_file_no_own :
      InMemoryFileSystem → Bytes → ℕ → Bytes → ℕ → Outcome (Bool × InMemoryFileSystem × ℕ)
  unfolding add_file
  add_file_no_own m path seconds buffer uid = add_file m path seconds buffer uid

  unfoldable pub lookup_in_memory_node : InMemoryFileSystem → Bytes → Outcome (ErrorOr Node)
  unfolding fix_path lookup_walk
  lookup_in_memory_node m path = fix_path m path >>= λ fixed. elim fixed [
    | [] ↦ ok (value (directory m.root_status m.root))
    | c ∷ cs ↦ lookup_walk (paths.components (c ∷ cs)) m.root
  ]

  unfoldable pub status : InMemoryFileSystem → Bytes → Outcome (ErrorOr Status)
  unfolding lookup_in_memory_node
  status m path = lookup_in_memory_node m path >>= λ node. elim node [
    | value n ↦ ok (value (get_status n))
    | error e ↦ ok (error e)
  ]

  unfoldable pub open_file_for_read : InMemoryFileSystem → Bytes → Outcome (ErrorOr File)
  unfolding lookup_in_memory_node
  open_file_for_read m path = lookup_in_memory_node m path >>= λ node. elim node [
    | error e ↦ ok (error e)
    | value (file s content) ↦ ok (value (open_memory_file s content))
    | value (directory s children) ↦ ok (error invalid_argument)
  ]

  -- The error code that is written to `EC`, if one is.
  unfoldable pub dir_begin : InMemoryFileSystem → Bytes → Outcome (Option Errc × DirIterator)
  unfolding lookup_in_memory_node
  dir_begin m path = lookup_in_memory_node m path >>= λ node. elim node [
    | error e ↦ ok (some e, ended)
    | value (directory s children) ↦ ok (none, entries_iterator children)
    | value (file s content) ↦ ok (some not_a_directory, ended)
  ]

  unfoldable pub set_current_working_directory :
      InMemoryFileSystem → Bytes → Outcome (Option Errc × InMemoryFileSystem)
  unfolding fix_path
  set_current_working_directory m path =
      fix_path m path >>= λ fixed. ok (none, store_working_directory m fixed)

  -- The class as a `FileSystem`, in a state that holds it where `get` reads and `put` writes.
  unfoldable pub memory_system :
      {W : Type 0} → (W → InMemoryFileSystem) → (InMemoryFileSystem → W → W) → FileSystem W
  unfolding status open_file_for_read dir_begin set_current_working_directory
  memory_system get put = record {
    status = λ path w. status (get w) path;
    open_file_for_read = λ path w. open_file_for_read (get w) path >>= λ f. ok (f, w);
    dir_begin = λ path w. dir_begin (get w) path;
    get_current_working_directory = λ w. value (get w).working_directory;
    set_current_working_directory =
        λ path w. set_current_working_directory (get w) path >>= λ (e, m). ok (e, put m w);
  }
