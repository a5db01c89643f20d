-- ===== src/Vfs/Status.antt =====
-- include/u-lang/Basic/VirtualFileSystem.hpp, lib/Basic/VirtualFileSystem.cpp: `Status`, the ids
-- of virtual files, and the answers of the operating system's calls.
pub mod Names
pub mod Ids
use u_lang.Prelude.{
  ℕ, zero, suc, ◌+◌, ◌-◌, ◌^◌, Bool, true, false, not, ◌&&◌, ◌==◌, ltb, if◌then◌else◌, Bytes,
  length, List, [], ◌∷◌, ◌++◌, add32,
}
use u_lang.Basic.SourceLocation.{UniqueId, no_id, unique_id_eq}

-- The values of `std::errc` that the program names, and the others by their number.
pub data Errc : Type 0 where
  no_such_file_or_directory not_a_directory invalid_argument : Errc
  other_error : ℕ → Errc

-- `llvm::ErrorOr`.
pub data ErrorOr {ℓ} (A : Type ℓ) : Type ℓ where
  value : A → ErrorOr A
  error : Errc → ErrorOr A

abbrev pub is_missing : Errc → Bool
is_missing no_such_file_or_directory = true
is_missing _ = false

-- The values of `llvm::sys::fs::file_type` that the program names, and the others by their number.
pub data FileType : Type 0 where
  status_error file_not_found regular_file directory_file symlink_file : FileType
  other_type : ℕ → FileType

-- A time is a count of nanoseconds, the permissions are their bits.
pub record Status : Type 0 where
  pub name : Bytes
  pub uid : UniqueId
  pub mtime : ℕ
  pub user : ℕ
  pub group : ℕ
  pub size : ℕ
  pub type : FileType
  pub perms : ℕ
  pub mount_point : Bytes
  pub virtual_name : Bytes

-- `Status()`.
abbrev pub no_status : Status
no_status = record {
  name = [];
  uid = no_id;
  mtime = 0;
  user = 0;
  group = 0;
  size = 0;
  type = status_error;
  perms = 0;
  mount_point = [];
  virtual_name = [];
}

-- `StringRef::startswith`, `endswith("/")` and `substr(from)`.
unfoldable pub starts_with : Bytes → Bytes → Bool
starts_with text [] = true
starts_with [] (c ∷ cs) = false
starts_with (t ∷ ts) (c ∷ cs) = t == c && starts_with ts cs

unfoldable pub ends_with_slash : Bytes → Bool
ends_with_slash [] = false
ends_with_slash (c ∷ []) = c == 47
ends_with_slash (c ∷ d ∷ cs) = ends_with_slash (d ∷ cs)

unfoldable pub substr : Bytes → ℕ → Bytes
substr text zero = text
substr [] (suc n) = []
substr (c ∷ cs) (suc n) = substr cs n

-- The mount point as the constructor goes on with it: of one that ends with a slash, the first
-- byte is left out.
unfoldable pub shorten_mount_point : Bytes → Bytes
unfolding ends_with_slash substr
shorten_mount_point mount =
    if ltb 1 (length mount) && ends_with_slash mount then substr mount 1 else mount

unfoldable pub make_virtual_name : Bytes → Bytes → Bytes
unfolding starts_with substr shorten_mount_point
make_virtual_name path mount_point =
    let mount = shorten_mount_point mount_point in
    let name = if starts_with path mount then substr path (length mount) else path in
    let slash = if starts_with name (47 ∷ []) then [] else 47 ∷ [] in
    let skipped =
      if ltb 1 (length mount) && ltb (length mount + 1) (length name)
      then length mount + 1
      else 0 in
    slash ++ substr name skipped

-- `Status(Name, UID, MTime, User, Group, Size, Type, Perms, MountPoint)`.
unfoldable pub make_status : Bytes → UniqueId → ℕ → ℕ → ℕ → ℕ → FileType → ℕ → Bytes → Status
unfolding make_virtual_name
make_status path uid mtime user group size type perms mount = record {
  name = path;
  uid = uid;
  mtime = mtime;
  user = user;
  group = group;
  size = size;
  type = type;
  perms = perms;
  mount_point = mount;
  virtual_name = make_virtual_name path mount;
}

-- `llvm::sys::fs::file_status`, as far as it is read.
pub record FileStatus : Type 0 where
  pub last_modification_time : ℕ
  pub unique_id : UniqueId
  pub owner : ℕ
  pub owner_group : ℕ
  pub byte_count : ℕ
  pub kind : FileType
  pub permissions : ℕ

unfoldable pub copy_with_new_name : FileStatus → Bytes → Bytes → Status
unfolding make_status
copy_with_new_name s new_name new_mount =
    make_status new_name s.unique_id s.last_modification_time s.owner s.owner_group s.byte_count
      s.kind s.permissions new_mount

abbrev pub equivalent : Status → Status → Bool
equivalent a b = unique_id_eq a.uid b.uid

abbrev pub is_directory : Status → Bool
is_directory s = elim (s.type) [ directory_file ↦ true | _ ↦ false ]

abbrev pub is_regular_file : Status → Bool
is_regular_file s = elim (s.type) [ regular_file ↦ true | _ ↦ false ]

abbrev pub is_symlink : Status → Bool
is_symlink s = elim (s.type) [ symlink_file ↦ true | _ ↦ false ]

abbrev pub is_status_known : Status → Bool
is_status_known s = elim (s.type) [ status_error ↦ false | _ ↦ true ]

abbrev pub exists : Status → Bool
exists s = is_status_known s && elim (s.type) [ file_not_found ↦ false | _ ↦ true ]

abbrev pub is_other : Status → Bool
is_other s = exists s && not (is_regular_file s) && not (is_directory s) && not (is_symlink s)

-- `++UID` of an `unsigned`, and the id that is made of it.
abbrev pub next_virtual_unique_id : ℕ → UniqueId × ℕ
next_virtual_unique_id uid = let id = add32 uid 1 in (record { device = 2 ^ 64 - 1; file = id }, id)
