-- ===== src/Vfs/FileManager/Layers.antt =====
-- include/u-lang/Basic/FileManager.hpp: the file systems that `Initialize` puts over one another.
use u_lang.Prelude.{
  ◌≡◌, refl, sym, inl, inr, true, false, Bool-cases, Bytes, Option, some, length, get_elem?, List,
  [], ◌∷◌, ◌++◌, append_assoc, append-nil,
}
use u_lang.Outcome.{ok}
use u_lang.Vfs.Status.{Errc, value}
use u_lang.Vfs.FileSystem.{Paths, FileSystem}
use u_lang.Vfs.Memory.System.{new_memory, memory_system}
use u_lang.Vfs.Overlay as Overlay
use u_lang.Vfs.Concatenated as Concatenated
use u_lang.Vfs.Concatenated.{ConcatenatedOverlayFileSystem}
use u_lang.Vfs.Real.{Os, real_file_system}
use u_lang.Vfs.FileManager.{World, new_memory_system, or_fresh, push_module_paths, initialize}

get_elem?-length {ℓ} :
    {A : Type ℓ} (xs : List A) (x : A) → get_elem? (xs ++ x ∷ []) (length xs) ≡ some x
get_elem?-length [] x = refl
get_elem?-length (y ∷ xs) x = get_elem?-length xs x

module _ {D : Type 0} (os : Os (World D)) (paths : Paths) where
  -- The file systems that are mounted at the directories that exist.
  abbrev pub mounted : List Bytes → World D → List (FileSystem (World D))
  mounted [] w = []
  mounted (path ∷ rest) w = elim (os.exists path w) [
    | true ↦ real_file_system os paths path ∷ mounted rest w
    | false ↦ mounted rest w
  ]

  -- A concatenation of these file systems, the lowest first, of which no file was opened.
  abbrev pub over :
      FileSystem (World D) → List (FileSystem (World D)) → ConcatenatedOverlayFileSystem (World D)
  over base upper = record { layers = record { fs_list = base ∷ upper }; cleanup = 0 }

  push_module_paths-mounted :
      (list : List Bytes) (base : FileSystem (World D)) (upper : List (FileSystem (World D)))
      (w : World D) (refused : Option Errc)
      → base.get_current_working_directory w ≡ value []
      → os.set_current_path [] w ≡ (refused, w)
      → push_module_paths os paths list (over base upper) w
        ≡ ok (over base (upper ++ mounted list w), w)
  unfolding push_module_paths Concatenated.push_overlay Overlay.push_overlay real_file_system
  push_module_paths-mounted [] base upper w refused h k = rw (append-nil upper)
  push_module_paths-mounted (path ∷ rest) base upper w refused h k =
      elim (Bool-cases (os.exists path w)) [
        | inl there ↦
            rw (push_module_paths, there, h, k)
              (rw
                (
                  mounted,
                  there,
                  sym (append_assoc upper (real_file_system os paths path ∷ []) (mounted rest w)),
                )
                (push_module_paths-mounted rest base (upper ++ real_file_system os paths path ∷ [])
                  w refused h k))
        | inr missing ↦
            rw (push_module_paths, missing)
              (rw (mounted, missing) (push_module_paths-mounted rest base upper w refused h k))
      ]

  -- Where a change of the operating system's working directory to the empty path, whether it fails
  -- or not, keeps every state, the file manager's concatenation has a new in-memory file system at
  -- the bottom, over it the file systems at the system's module paths that exist, and over those
  -- the user's, each in the order of its list.
  pub initialize-mounted :
      (system_paths user_paths : List Bytes) (w : World D) (refused : Option Errc)
      → ((v : World D) → os.set_current_path [] v ≡ (refused, v))
      → let (base, w') = new_memory_system paths w in
        initialize os paths system_paths user_paths w
        ≡ ok (
          record {
            vfs = over base (mounted system_paths w' ++ mounted user_paths w');
            system_module_paths = system_paths;
            user_module_paths = user_paths;
          },
          w',
        )
  unfolding initialize new_memory_system memory_system or_fresh new_memory
  initialize-mounted system_paths user_paths w refused refuses =
      let (base, w') = new_memory_system paths w in
      let start : base.get_current_working_directory w' ≡ value [] =
        rw (get_elem?-length w.memories _) in
      rw (
        initialize,
        push_module_paths-mounted system_paths base [] w' refused start (refuses w'),
        push_module_paths-mounted user_paths base (mounted system_paths w') w' refused start
            (refuses w'),
      )
