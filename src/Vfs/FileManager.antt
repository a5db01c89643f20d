-- ===== src/Vfs/FileManager.antt =====
-- include/u-lang/Basic/FileManager.hpp and `SourceManager::getFile` of lib/Basic/SourceManager.cpp:
-- the file systems of the compiler, and the source that it reads a file from.
pub mod Sources
pub mod Layers
use u_lang.Vfs.Status.{exists}
use u_lang.Vfs.Overlay.Directory.{OverlayDirIter}
use u_lang.Prelude.{
  Bool, false, true, ℕ, zero, suc, true, false, Bytes, codes, Option, none, some, length, get_elem?,
  List, [], ◌∷◌, ◌++◌,
}
use u_lang.Outcome.{Outcome, ok, ◌>>=◌}
use u_lang.Basic.Source.{Source, memory_buffer_source}
use u_lang.Vfs.Status.{Errc, ErrorOr, value, error, Status}
use u_lang.Vfs.FileSystem.{Paths, FileSystem, File}
use u_lang.Vfs.Memory.System.{InMemoryFileSystem, new_memory, memory_system}
use u_lang.Vfs.Real.{Os, real_file_system}
use u_lang.Vfs.Concatenated.{ConcatenatedOverlayFileSystem, new_concatenated, get_value}
use u_lang.Vfs.Concatenated as Concatenated

-- The state of all the file systems: the in-memory ones, in the order of their creation, the
-- counter of ids, and the disk.
pub record World (D : Type 0) : Type 0 where
  pub memories : List InMemoryFileSystem
  pub uid : ℕ
  pub disk : D

-- A file system is written at its place.
abbrev store : List InMemoryFileSystem → ℕ → InMemoryFileSystem → List InMemoryFileSystem
store [] n m = []
store (old ∷ rest) zero m = m ∷ rest
store (old ∷ rest) (suc n) m = old ∷ store rest n m

unfoldable pub or_fresh : Option InMemoryFileSystem → InMemoryFileSystem
unfolding new_memory
or_fresh none = (new_memory true 0).0
or_fresh (some m) = m

module _ {D : Type 0} where
  -- `new vfs::InMemoryFileSystem()`: the file system at the next place.
  unfoldable pub new_memory_system : Paths → World D → FileSystem (World D) × World D
  unfolding new_memory memory_system or_fresh
  new_memory_system paths w =
      let place = length w.memories in
      let (m, uid') = new_memory true w.uid in
      (
        memory_system paths (λ v. or_fresh (get_elem? v.memories place))
            (λ m' v. record v { memories = store v.memories place m' }),
        record w { memories = w.memories ++ m ∷ []; uid = uid' },
      )

pub record FileManager (W : Type 0) : Type 0 where
  pub vfs : ConcatenatedOverlayFileSystem W
  pub system_module_paths : List Bytes
  pub user_module_paths : List Bytes

-- The name that a source is given: `getActualName()`, or `getName()` where that is empty.
abbrev pub source_path : Status → Bytes
source_path s = elim (s.name) [ [] ↦ s.virtual_name | c ∷ cs ↦ c ∷ cs ]

module _ {D : Type 0} (os : Os (World D)) (paths : Paths) where
  -- A loop of `Initialize`: the directories that exist are mounted.
  unfoldable pub push_module_paths :
      List Bytes
      → ConcatenatedOverlayFileSystem (World D)
      → World D
      → Outcome (ConcatenatedOverlayFileSystem (World D) × World D)
  unfolding real_file_system Concatenated.push_overlay
  push_module_paths [] o w = ok (o, w)
  push_module_paths (path ∷ rest) o w = elim (os.exists path w) [
    | true ↦ Concatenated.push_overlay o (real_file_system os paths path) w >>= λ (o', w').
        push_module_paths rest o' w'
    | false ↦ push_module_paths rest o w
  ]

  unfoldable pub initialize :
      List Bytes → List Bytes → World D → Outcome (FileManager (World D) × World D)
  unfolding new_memory_system push_module_paths
  initialize system_paths user_paths w =
      let (base, w₁) = new_memory_system paths w in
      push_module_paths system_paths (new_concatenated base) w₁ >>= λ (o, w₂).
      push_module_paths user_paths o w₂ >>= λ (o', w₃).
      ok (
        record { vfs = o'; system_module_paths = system_paths; user_module_paths = user_paths },
        w₃,
      )

  -- `FileManager()`, given `ULANG_SYS_MODULE_PATH` and the home directory.
  unfoldable pub new_file_manager :
      Bytes → Bytes → World D → Outcome (FileManager (World D) × World D)
  unfolding initialize
  new_file_manager sys_module_path home w =
      initialize (sys_module_path ∷ []) ((home ++ codes "/.u-lang/modules") ∷ []) w

  -- `SetSystemModulePaths`.
  unfoldable pub set_system_module_paths :
      FileManager (World D) → List Bytes → World D → Outcome (FileManager (World D) × World D)
  unfolding initialize
  set_system_module_paths fm system_paths w = initialize system_paths fm.user_module_paths w

  unfoldable pub open_file_for_read :
      FileManager (World D)
      → (ℕ → Bytes)
      → Bytes
      → World D
      → Outcome (ErrorOr File × FileManager (World D) × World D)
  unfolding Concatenated.open_file_for_read
  open_file_for_read fm new_mem_buffer path w =
      Concatenated.open_file_for_read fm.vfs new_mem_buffer path w.uid w >>= λ (f, vfs', uid', w').
      ok (f, record fm { vfs = vfs' }, record w' { uid = uid' })

  -- The calls that are passed on to `VFS`.
  abbrev pub manager_status : FileManager (World D) → Bytes → World D → Outcome (ErrorOr Status)
  unfolding Concatenated.status
  manager_status fm path w = Concatenated.status fm.vfs path w

  abbrev pub manager_set_working_directory :
      FileManager (World D) → Bytes → World D → Outcome (Option Errc × World D)
  unfolding Concatenated.set_current_working_directory
  manager_set_working_directory fm path w = Concatenated.set_current_working_directory fm.vfs path w

  abbrev pub manager_get_working_directory :
      FileManager (World D) → World D → Outcome (ErrorOr Bytes)
  manager_get_working_directory fm w = Concatenated.get_current_working_directory fm.vfs w

  -- `SourceManager::getFile`; none is the null pointer.
  unfoldable pub get_file :
      FileManager (World D)
      → (ℕ → Bytes)
      → Bytes
      → World D
      → Outcome (Option Source × FileManager (World D) × World D)
  unfolding open_file_for_read
  get_file fm new_mem_buffer path w =
      open_file_for_read fm new_mem_buffer path w >>= λ (opened, fm', w'). elim opened [
        | error e ↦ ok (none, fm', w')
        | value file ↦ get_value file.status >>= λ s.
            get_value (file.get_buffer path s.size) >>= λ text. ok (
              some (
                  memory_buffer_source paths.filename paths.remove_filename s.uid (source_path s)
                    text),
              fm',
              w',
            )
      ]

  unfoldable pub manager_get_buffer :
      FileManager (World D)
      → (ℕ → Bytes)
      → Bytes
      → ℕ
      → World D
      → Outcome (ErrorOr Bytes × FileManager (World D) × World D)
  unfolding open_file_for_read
  manager_get_buffer fm new_mem_buffer path size w =
      open_file_for_read fm new_mem_buffer path w >>= λ (opened, fm', w').
      ok (elim opened [ value file ↦ file.get_buffer path size | error e ↦ error e ], fm', w')

  abbrev pub manager_exists : FileManager (World D) → Bytes → World D → Outcome Bool
  unfolding Concatenated.status
  manager_exists fm path w = Concatenated.status fm.vfs path w >>= λ s.
      ok (elim s [ value v ↦ exists v | error e ↦ false ])

  abbrev pub manager_dir_begin :
      FileManager (World D) → ℕ → Bytes → World D → Outcome (Option Errc × OverlayDirIter (World D))
  manager_dir_begin fm fuel path w = Concatenated.concatenated_dir_begin paths path w fuel fm.vfs
