-- ===== src/Vfs/Real.antt =====
-- lib/Basic/VirtualFileSystem.cpp: `RealFile`, `RealFSDirIter` and `RealFileSystem`. What LLVM asks
-- of the operating system is a parameter, `Os`.
use u_lang.Prelude.{ℕ, Bool, true, false, if◌then◌else◌, Bytes, Option, none, some, List, [], ◌∷◌}
use u_lang.Outcome.{Outcome, ok, thrown, assertion, ◌>>=◌}
use u_lang.Basic.SourceLocation.{no_id}
use u_lang.Vfs.Status.{
  Errc, ErrorOr, value, error, status_error, Status, FileStatus, make_status, copy_with_new_name,
  is_status_known, starts_with,
}
use u_lang.Vfs.FileSystem.{Paths, File, DirIterator, ended, at, FileSystem}

-- What a step of `llvm::sys::fs::directory_iterator` comes to: an error, or an entry, with the
-- error code and the result of its `status`.
pub data DirectoryStep : Type 0 where
  failed : Errc → DirectoryStep
  reached : Bytes → Option Errc → FileStatus → DirectoryStep

-- The calls of `llvm::sys::fs`, `sys::Process` and `MemoryBuffer::getOpenFile`; the descriptor
-- comes with the real name. `read_directory` gives the error code of the iterator's constructor
-- and its steps, the first entry included.
pub record Os (W : Type 0) : Type 0 where
  pub status : Bytes → W → ErrorOr FileStatus
  pub status_of : ℕ → W → ErrorOr FileStatus
  pub open_file : Bytes → W → ErrorOr (ℕ × Bytes) × W
  pub get_open_file : ℕ → Bytes → ℕ → W → ErrorOr Bytes
  pub safely_close : Option ℕ → W → Option Errc × W
  pub current_path : W → ErrorOr Bytes
  pub set_current_path : Bytes → W → Option Errc × W
  pub read_directory : Bytes → W → Option Errc × List DirectoryStep
  pub exists : Bytes → W → Bool

-- `PhysicalToVirtualPath`.
unfoldable pub physical_to_virtual_path : Paths → Bytes → Bytes → Bytes
unfolding starts_with
physical_to_virtual_path paths mount path =
    paths.append (if starts_with path mount then [] else mount) path

-- `fd` is none where `FD` is -1.
pub record RealFile : Type 0 where
  pub fd : Option ℕ
  pub cached : Status
  pub real_name : Bytes
  pub mount_point : Bytes

unfoldable pub new_real_file : ℕ → Bytes → Bytes → Bytes → RealFile
unfolding make_status
new_real_file fd new_name real_name mount = record {
  fd = some fd;
  cached = make_status new_name no_id 0 0 0 0 status_error 0 [];
  real_name = real_name;
  mount_point = mount;
}

module _ {W : Type 0} (os : Os W) (paths : Paths) where
  -- The answer of `status` where none is kept yet.
  unfoldable pub ask_status : ℕ → Bytes → Bytes → W → ErrorOr Status
  unfolding copy_with_new_name
  ask_status fd name mount w = elim (os.status_of fd w) [
    | error e ↦ error e
    | value found ↦ value (copy_with_new_name found name mount)
  ]

  -- The status, and the file that keeps it.
  unfoldable pub real_file_status : RealFile → W → Outcome (ErrorOr Status × RealFile)
  unfolding ask_status
  real_file_status f w = elim (f.fd) [
    | none ↦ thrown assertion
    | some fd ↦ elim (is_status_known f.cached) [
      | true ↦ ok (value f.cached, f)
      | false ↦
          let answer = ask_status fd f.cached.virtual_name f.mount_point w in
          elim answer [
            | error e ↦ ok (error e, f)
            | value s ↦ ok (value s, record f { cached = s })
          ]
    ]
  ]

  abbrev pub real_file_name : RealFile → ErrorOr Bytes
  real_file_name f = value f.cached.virtual_name

  unfoldable pub real_file_get_buffer : RealFile → Bytes → ℕ → W → Outcome (ErrorOr Bytes)
  unfolding physical_to_virtual_path
  real_file_get_buffer f name size w = elim (f.fd) [
    | none ↦ thrown assertion
    | some fd ↦ ok (os.get_open_file fd (physical_to_virtual_path paths f.mount_point name) size w)
  ]

  unfoldable pub real_file_close : RealFile → W → Option Errc × RealFile × W
  real_file_close f w = let (e, w') = os.safely_close f.fd w in (e, record f { fd = none }, w')

  -- `RealFileSystem::status`, of a file system that is mounted at `mount`.
  unfoldable pub real_status : Bytes → Bytes → W → ErrorOr Status
  unfolding physical_to_virtual_path copy_with_new_name
  real_status mount path w = elim (os.status (physical_to_virtual_path paths mount path) w) [
    | error e ↦ error e
    | value found ↦ value (copy_with_new_name found path mount)
  ]

  unfoldable pub real_open : Bytes → Bytes → W → ErrorOr RealFile × W
  unfolding physical_to_virtual_path new_real_file
  real_open mount name w =
      let (opened, w') = os.open_file (physical_to_virtual_path paths mount name) w in
      elim opened [
        | error e ↦ (error e, w')
        | value (fd, real_name) ↦ (value (new_real_file fd name real_name mount), w')
      ]

  -- `RealFSDirIter`, made a `directory_iterator`, at an entry and before the steps that are left.
  -- An entry without a status ends the iterator; an error of the step leaves it at the entry.
  unfoldable pub real_dir_steps : Bytes → Status → List DirectoryStep → DirIterator
  unfolding copy_with_new_name
  real_dir_steps mount current [] = at current none ended
  real_dir_steps mount current (failed e ∷ rest) =
      at current (some e) (real_dir_steps mount current rest)
  real_dir_steps mount current (reached path e found ∷ rest) =
      let next = copy_with_new_name found path mount in
      let left = real_dir_steps mount next rest in
      at current e (if is_status_known next then left else ended)

  unfoldable pub real_dir_iter :
      Bytes → Option Errc × List DirectoryStep → Option Errc × DirIterator
  unfolding copy_with_new_name real_dir_steps
  real_dir_iter mount (none, reached path e found ∷ rest) =
      let first = copy_with_new_name found path mount in
      (e, if is_status_known first then real_dir_steps mount first rest else ended)
  real_dir_iter mount (e, _) = (e, ended)

  unfoldable pub real_dir_begin : Bytes → Bytes → W → Option Errc × DirIterator
  unfolding physical_to_virtual_path real_dir_iter
  real_dir_begin mount dir w =
      real_dir_iter mount (os.read_directory (physical_to_virtual_path paths mount dir) w)

  -- A `RealFile` as the `File` that its client gets: what it answers in the state after opening,
  -- up to its destructor. The status that it keeps and `close` are `real_file_status` and
  -- `real_file_close`.
  unfoldable pub as_file : RealFile → W → Outcome File
  unfolding ask_status physical_to_virtual_path
  as_file f w = elim (f.fd) [
    | none ↦ thrown assertion
    | some fd ↦ ok (record {
      status = ask_status fd f.cached.virtual_name f.mount_point w;
      get_buffer = λ name size.
          os.get_open_file fd (physical_to_virtual_path paths f.mount_point name) size w;
    })
  ]

  abbrev pub real_get_current_working_directory : W → ErrorOr Bytes
  real_get_current_working_directory w = os.current_path w

  -- The mount point is not looked at.
  abbrev pub real_set_current_working_directory : Bytes → W → Option Errc × W
  real_set_current_working_directory path w = os.set_current_path path w

  abbrev open_as_file : ErrorOr RealFile → W → Outcome (ErrorOr File × W)
  unfolding as_file
  open_as_file (error e) w = ok (error e, w)
  open_as_file (value f) w = as_file f w >>= λ file. ok (value file, w)

  -- `RealFileSystem(RootedAt)`.
  unfoldable pub real_file_system : Bytes → FileSystem W
  unfolding real_status real_open real_dir_begin open_as_file
  real_file_system mount = record {
    status = λ path w. ok (real_status mount path w);
    open_file_for_read =
        λ path w. let (opened, w') = real_open mount path w in open_as_file opened w';
    dir_begin = λ path w. ok (real_dir_begin mount path w);
    get_current_working_directory = λ w. real_get_current_working_directory w;
    set_current_working_directory = λ path w. ok (real_set_current_working_directory path w);
  }
