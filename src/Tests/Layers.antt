-- ===== src/Tests/Layers.antt =====
-- The virtual file system at concrete inputs: layers of file systems, and their directories.
use u_lang.Prelude.{
  length-replicate, bytes_eq, ℕ, ◌+◌, ◌≡◌, refl, false, if◌then◌else◌, Bytes, codes, length, Option,
  none, some, replicate, List, [], ◌∷◌, arith,
}
use u_lang.Outcome.{ok}
use u_lang.Basic.SourceLocation.{UniqueId}
use u_lang.Basic.Source.{memory_buffer_source}
use u_lang.Vfs.Status.{
  no_such_file_or_directory, ErrorOr, value, error, Status, no_status, regular_file, directory_file,
}
use u_lang.Vfs.FileSystem.{File, DirIterator, ended, at, FileSystem}
use u_lang.Vfs.Overlay as Overlay
use u_lang.Vfs.Overlay.Directory.{list_overlay_dir, has_name}
use u_lang.Vfs.Overlay.Directory.Union.{distinct, list_overlay_dir-distinct}
use u_lang.Vfs.Concatenated as Concatenated
use u_lang.Vfs.Concatenated.{ConcatenatedOverlayFileSystem}
use u_lang.Vfs.Concatenated.Contents.{HaveTexts, joined, open_file_for_read-joined}
use u_lang.Vfs.Overlay.{OverlayFileSystem}
use u_lang.Vfs.Overlay.Shadow.{overlay-union}
use u_lang.Vfs.Memory.System.{open_memory_file}
use u_lang.Vfs.Real.{Os, real_file_system}
use u_lang.Vfs.Recursive.{list_recursive}
use u_lang.Vfs.Recursive.Preorder.{node, bare, grow, list_recursive-preorder}
use u_lang.Vfs.FileManager.{World, FileManager, get_file, new_memory_system, initialize}
use u_lang.Vfs.FileManager.Layers.{over, initialize-mounted}
use u_lang.Vfs.FileManager.Sources.{get_file-joined}
use u_lang.Tests.Files.{posix}

-- A status with a name and a size.
abbrev sized : Bytes → ℕ → Status
sized name size = record no_status {
  name = name;
  virtual_name = name;
  size = size;
  type = regular_file;
}

abbrev file_of : Bytes → File
file_of text = open_memory_file (sized (codes "/m.u") (length text)) text

abbrev listed : List Status → DirIterator
listed [] = ended
listed (s ∷ entries) = at s none (listed entries)

-- A file system that answers always alike.
abbrev constant : {W : Type 0} → ErrorOr Status → ErrorOr File → List Status → FileSystem W
constant s f entries = record {
  status = λ path w. ok s;
  open_file_for_read = λ path w. ok (f, w);
  dir_begin = λ path w. ok (none, listed entries);
  get_current_working_directory = λ w. value [];
  set_current_working_directory = λ path w. ok (none, w);
}

abbrev nothing : {W : Type 0} → FileSystem W
nothing = constant (error no_such_file_or_directory) (error no_such_file_or_directory) []

abbrev lower : {W : Type 0} → FileSystem W
lower =
    constant (value (sized (codes "/m.u") 1)) (value (file_of (codes "a")))
      (sized (codes "/m.u") 1 ∷ sized (codes "/n.u") 4 ∷ [])

abbrev upper : {W : Type 0} → FileSystem W
upper =
    constant (value (sized (codes "/m.u") 2)) (value (file_of (codes "bc")))
      (sized (codes "/m.u") 2 ∷ [])

abbrev stack : {W : Type 0} → OverlayFileSystem W
stack = record { fs_list = nothing ∷ lower ∷ upper ∷ nothing ∷ [] }

overlay-union_example :
    (Overlay.status {W = ℕ} stack (codes "/m.u") 0 ≡ ok (value (sized (codes "/m.u") 2)))
    × (Overlay.open_file_for_read {W = ℕ} stack (codes "/m.u") 0
        ≡ ok (value (file_of (codes "bc")), 0))
overlay-union_example =
    overlay-union {W = ℕ} stack (codes "/m.u") 0
      (error no_such_file_or_directory
        ∷ value (sized (codes "/m.u") 1)
        ∷ value (sized (codes "/m.u") 2)
        ∷ error no_such_file_or_directory
        ∷ [])
      (error no_such_file_or_directory
        ∷ value (file_of (codes "a"))
        ∷ value (file_of (codes "bc"))
        ∷ error no_such_file_or_directory
        ∷ [])
      (refl, (refl, (refl, (refl, tt)))) (refl, (refl, (refl, (refl, tt))))

list_overlay_dir-distinct_example :
    list_overlay_dir {W = ℕ} posix (codes "/") 0 4 stack
    ≡ ok (none, sized (codes "/m.u") 2 ∷ sized (codes "/n.u") 4 ∷ [])
unfolding distinct has_name bytes_eq
list_overlay_dir-distinct_example =
    list_overlay_dir-distinct {W = ℕ} posix (codes "/") 0 4 stack nothing
      (upper ∷ lower ∷ nothing ∷ [])
      ([]
        ∷ (sized (codes "/m.u") 2 ∷ [])
        ∷ (sized (codes "/m.u") 1 ∷ sized (codes "/n.u") 4 ∷ [])
        ∷ []
        ∷ [])
      refl
      (
        (none, ended, refl, refl, tt),
        (
          (none, listed (sized (codes "/m.u") 2 ∷ []), refl, refl, (refl, refl, refl, tt)),
          (
            (
              none,
              listed (sized (codes "/m.u") 1 ∷ sized (codes "/n.u") 4 ∷ []),
              refl,
              refl,
              (refl, refl, refl, (refl, refl, refl, tt)),
            ),
            ((none, ended, refl, refl, tt), tt),
          ),
        ),
      )
      (omega arith)

abbrev texts : List (Option Bytes)
texts = none ∷ some (codes "a") ∷ some (codes "bc") ∷ none ∷ []

stack-HaveTexts : {W : Type 0} (w : W) → HaveTexts (stack {W = W}).fs_list (codes "/m.u") w texts
stack-HaveTexts w = (
  refl,
  (
    (file_of (codes "a"), refl, (sized (codes "/m.u") 1, refl, refl, refl)),
    ((file_of (codes "bc"), refl, (sized (codes "/m.u") 2, refl, refl, refl)), (refl, tt)),
  ),
)

abbrev all_layers : {W : Type 0} → ConcatenatedOverlayFileSystem W
all_layers = record { layers = stack; cleanup = 0 }

open_file_for_read-joined_example :
    (made : Status) × (Concatenated.open_file_for_read {W = ℕ} all_layers
        (λ n. replicate n 0)
        (codes "/m.u")
        6
        0
      ≡ ok (
        value (open_memory_file made (codes "a\nbc\n")),
        record all_layers { cleanup = 0 + 1 },
        7,
        0,
      ))
    × (made.name ≡ codes "/m.u")
    × (made.size ≡ 5)
    × (made.mtime ≡ 0)
    × (made.type ≡ regular_file)
    × (made.perms ≡ 0)
unfolding joined Concatenated.status Overlay.status Overlay.first_status
open_file_for_read-joined_example =
    open_file_for_read-joined {W = ℕ} all_layers (λ n. replicate n 0) (codes "/m.u") 6 0
      (sized (codes "/m.u") 2) texts refl (stack-HaveTexts 0) (omega arith)
      (λ n. length-replicate n 0)

-- A disk without files, and a file manager over the layers.
abbrev no_disk : Os (World Unit)
no_disk = record {
  status = λ path w. error no_such_file_or_directory;
  status_of = λ fd w. error no_such_file_or_directory;
  open_file = λ path w. (error no_such_file_or_directory, w);
  get_open_file = λ fd name size w. error no_such_file_or_directory;
  safely_close = λ fd w. (none, w);
  current_path = λ w. value [];
  set_current_path = λ path w. (none, w);
  read_directory = λ path w. (some no_such_file_or_directory, []);
  exists = λ path w. false;
}

abbrev world : World Unit
world = record { memories = []; uid = 6; disk = tt }

abbrev manager : FileManager (World Unit)
manager = record { vfs = all_layers; system_module_paths = []; user_module_paths = [] }

get_file-joined_example :
    (id : UniqueId) × (get_file no_disk posix manager (λ n. replicate n 0) (codes "/m.u") world
      ≡ ok (
        some (
            memory_buffer_source posix.filename posix.remove_filename id
              (codes "/m.u")
              (codes "a\nbc\n")),
        record manager { vfs = record manager.vfs { cleanup = 1 } },
        record world { uid = 7 },
      ))
unfolding joined Concatenated.status Overlay.status Overlay.first_status
get_file-joined_example =
    get_file-joined no_disk posix manager (λ n. replicate n 0) 47 (codes "m.u") world
      (sized (codes "/m.u") 2) texts refl (stack-HaveTexts world) (omega arith)
      (λ n. length-replicate n 0)

-- A directory with a directory and a file, and a file in that directory.
abbrev sub_directory : Status
sub_directory = record no_status {
  name = codes "/s";
  virtual_name = codes "/s";
  type = directory_file;
}

abbrev tree_system : FileSystem ℕ
unfolding bytes_eq
tree_system = record {
  status = λ path w. ok (error no_such_file_or_directory);
  open_file_for_read = λ path w. ok (error no_such_file_or_directory, w);
  dir_begin = λ path w.
      if bytes_eq path (codes "/s")
      then ok (none, listed (sized (codes "/s/a.u") 1 ∷ []))
      else ok (none, listed (sub_directory ∷ sized (codes "/b.u") 2 ∷ []));
  get_current_working_directory = λ w. value [];
  set_current_working_directory = λ path w. ok (none, w);
}

list_recursive-preorder_example :
    list_recursive tree_system 0 4 (codes "/")
    ≡ ok (sub_directory ∷ sized (codes "/s/a.u") 1 ∷ sized (codes "/b.u") 2 ∷ [])
unfolding tree_system bytes_eq
list_recursive-preorder_example =
    list_recursive-preorder tree_system 0 4 (codes "/") none
      (listed (sub_directory ∷ sized (codes "/b.u") 2 ∷ []))
      (grow (node sub_directory (grow (node (sized (codes "/s/a.u") 1) bare) bare))
        (grow (node (sized (codes "/b.u") 2) bare) bare))
      refl (refl, (refl, tt))
      (
        refl,
        (none, listed (sized (codes "/s/a.u") 1 ∷ []), refl, (refl, tt)),
        (refl, refl, tt, tt),
        (refl, refl, tt, tt),
      )
      (omega arith)

-- A disk with one directory, and where no other directory can be changed to.
abbrev one_directory : Os (World Unit)
unfolding bytes_eq
one_directory = record no_disk { exists = λ path w. bytes_eq path (codes "/sys") }

initialize-mounted_example :
    let (base, w') = new_memory_system posix world in
    initialize one_directory posix (codes "/x" ∷ codes "/sys" ∷ []) (codes "/home" ∷ []) world
    ≡ ok (
      record {
        vfs =
            over one_directory posix base
              (real_file_system one_directory posix (codes "/sys") ∷ []);
        system_module_paths = codes "/x" ∷ codes "/sys" ∷ [];
        user_module_paths = codes "/home" ∷ [];
      },
      w',
    )
unfolding one_directory bytes_eq
initialize-mounted_example =
    initialize-mounted one_directory posix (codes "/x" ∷ codes "/sys" ∷ []) (codes "/home" ∷ [])
      world none (λ v. refl)
