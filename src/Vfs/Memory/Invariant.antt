-- ===== src/Vfs/Memory/Invariant.antt =====
-- lib/Basic/VirtualFileSystem.cpp, `InMemoryFileSystem`: the invariant of its tree.
use u_lang.Prelude.{ℕ, ◌≡◌, Bool, true, Bytes, length, Option}
use u_lang.Outcome.{ok}
use u_lang.Vfs.Status.{Errc, regular_file, directory_file}
use u_lang.Vfs.FileSystem.{Paths}
use u_lang.Vfs.Memory.{Node, file, directory, Entries, no_entries, entry, name_before}
use u_lang.Vfs.Memory.System.{
  InMemoryFileSystem, new_memory, add_file, set_current_working_directory,
}

-- A name comes before the first name of a directory.
abbrev pub IsBefore : Bytes → Entries → Type 0
IsBefore name no_entries = Unit {0}
IsBefore name (entry key node rest) = name_before name key ≡ true

abbrev mutual
  -- A file's status tells that it is one and has its size, a directory's that it is one.
  pub IsNode : Node → Type 0
  IsNode (file s content) = (s.type ≡ regular_file) × (s.size ≡ length content)
  IsNode (directory s children) = (s.type ≡ directory_file) × IsTree children

  -- The names of each directory increase.
  pub IsTree : Entries → Type 0
  IsTree no_entries = Unit {0}
  IsTree (entry name node rest) = IsNode node × IsBefore name rest × IsTree rest

-- The states of an in-memory file system between its calls; other file systems draw ids meanwhile.
pub data Reachable (paths : Paths) : InMemoryFileSystem → Type 0 where
  created : (normalized : Bool) (uid : ℕ) → Reachable paths (new_memory normalized uid).0
  file_added :
      {m m' : InMemoryFileSystem} (path : Bytes) (seconds : ℕ) (buffer : Bytes) (uid : ℕ)
      (added : Bool) (uid' : ℕ)
      → Reachable paths m
      → add_file paths m path seconds buffer uid ≡ ok (added, m', uid')
      → Reachable paths m'
  directory_set :
      {m m' : InMemoryFileSystem} (path : Bytes) (failed : Option Errc)
      → Reachable paths m
      → set_current_working_directory paths m path ≡ ok (failed, m')
      → Reachable paths m'
