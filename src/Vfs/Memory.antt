-- ===== src/Vfs/Memory.antt =====
-- lib/Basic/VirtualFileSystem.cpp: `InMemoryFileSystem` and the tree of nodes that it keeps.
pub mod System
pub mod Places
pub mod Files
pub mod Refinement
pub mod Replay
pub mod Invariant
use u_lang.Prelude.{
  ℕ, Bool, true, false, ◌==◌, ltb, if◌then◌else◌, Bytes, bytes_eq, length, take, Option, none, some,
  List, [], ◌∷◌,
}
use u_lang.Outcome.{Outcome, ok, thrown, assertion, out_of_bounds, ◌>>=◌}
use u_lang.Vfs.Status.{
  Errc, no_such_file_or_directory, not_a_directory, invalid_argument, ErrorOr, value, error,
  regular_file, directory_file, Status, make_status, next_virtual_unique_id,
}
use u_lang.Vfs.FileSystem.{Paths, File, DirIterator, ended, at, FileSystem, make_absolute}

mutual
  -- `InMemoryNode`: an `InMemoryFile` with its buffer, or an `InMemoryDirectory`.
  pub data Node : Type 0 where
    file : Status → Bytes → Node
    directory : Status → Entries → Node

  -- `std::map<std::string, std::unique_ptr<InMemoryNode>>`, in the order of the names.
  pub data Entries : Type 0 where
    no_entries : Entries
    entry : Bytes → Node → Entries → Entries

abbrev pub get_status : Node → Status
get_status (file s content) = s
get_status (directory s children) = s

-- The order of `std::string`.
unfoldable pub name_before : Bytes → Bytes → Bool
name_before [] [] = false
name_before [] (b ∷ bs) = true
name_before (a ∷ as') [] = false
name_before (a ∷ as') (b ∷ bs) =
    let rest = name_before as' bs in if ltb a b then true else if a == b then rest else false

unfoldable pub get_child : Entries → Bytes → Option Node
unfolding bytes_eq
get_child no_entries name = none
get_child (entry key node rest) name =
    let found = get_child rest name in if bytes_eq key name then some node else found

-- `insert` leaves the entry of a name that is there.
unfoldable pub add_child : Entries → Bytes → Node → Entries
unfolding bytes_eq name_before
add_child no_entries name node = entry name node no_entries
add_child (entry key old rest) name node =
    let added = add_child rest name node in
    if bytes_eq key name
    then entry key old rest
    else if name_before name key
    then entry name node (entry key old rest)
    else entry key old added

-- A write through the pointer that `getChild` returned.
unfoldable pub set_child : Entries → Bytes → Node → Entries
unfolding bytes_eq
set_child no_entries name node = no_entries
set_child (entry key old rest) name node =
    let written = set_child rest name node in
    if bytes_eq key name then entry key node rest else entry key old written

-- What `addFile` is given, after the path was made absolute. `up_to` is that path; `given` is the
-- path as the caller wrote it.
pub record NewFile : Type 0 where
  pub given : Bytes
  pub up_to : Bytes
  pub modification_time : ℕ
  pub buffer : Bytes

-- `perms::all_all`.
abbrev pub all_all : ℕ
all_all = 511

-- The `Status` of the new file, and of a directory that is made on the way to it: that has the
-- size of the file.
abbrev pub new_status : NewFile → ℕ → Status
unfolding make_status
new_status new uid =
    make_status new.given (next_virtual_unique_id uid).0 new.modification_time 0 0
      (length new.buffer) regular_file all_all []

abbrev pub new_directory_status : NewFile → ℕ → ℕ → Status
unfolding make_status
new_directory_status new stop uid =
    make_status (take stop new.up_to) (next_virtual_unique_id uid).0 new.modification_time 0 0
      (length new.buffer) directory_file all_all []

-- The loop of `addFile`, from the component that `I` is at, in the directory `Dir`: what it
-- returns, the directory as it leaves it, and the counter of ids. Where `I` is at the end, `*I`
-- reads behind the path.
unfoldable pub add_walk : NewFile → List (Bytes × ℕ) → Entries → ℕ → Outcome (Bool × Entries × ℕ)
unfolding get_child add_child set_child bytes_eq
add_walk new [] dir uid = thrown out_of_bounds
add_walk new ((name, stop) ∷ []) dir uid = elim (get_child dir name) [
  | none ↦ ok (
    true,
    add_child dir name (file (new_status new uid) new.buffer),
    (next_virtual_unique_id uid).1,
  )
  | some (directory s children) ↦ thrown out_of_bounds
  | some (file s content) ↦ ok (bytes_eq content new.buffer, dir, uid)
]
add_walk new ((name, stop) ∷ next ∷ rest) dir uid = elim (get_child dir name) [
  | none ↦
      add_walk new (next ∷ rest) no_entries (next_virtual_unique_id uid).1 >>= λ (b, made, uid').
      ok (b, add_child dir name (directory (new_directory_status new stop uid) made), uid')
  | some (directory s children) ↦ add_walk new (next ∷ rest) children uid >>= λ (b, left, uid').
      ok (b, set_child dir name (directory s left), uid')
  | some (file s content) ↦ ok (false, dir, uid)
]

-- The loop of `lookupInMemoryNode`.
unfoldable pub lookup_walk : List (Bytes × ℕ) → Entries → Outcome (ErrorOr Node)
unfolding get_child
lookup_walk [] dir = thrown out_of_bounds
lookup_walk ((name, stop) ∷ []) dir = elim (get_child dir name) [
  | none ↦ ok (error no_such_file_or_directory)
  | some node ↦ ok (value node)
]
lookup_walk ((name, stop) ∷ next ∷ rest) dir = elim (get_child dir name) [
  | none ↦ ok (error no_such_file_or_directory)
  | some (file s content) ↦ ok (error no_such_file_or_directory)
  | some (directory s children) ↦ lookup_walk (next ∷ rest) children
]
