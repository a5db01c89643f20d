-- ===== src/Vfs/Memory/Refinement.antt =====
-- lib/Basic/VirtualFileSystem.cpp, `InMemoryFileSystem`: `addFile`, and what can be opened after it.
use mathlib.Core.Path.{subst}
use u_lang.Prelude.{
  ◌∙◌, ℕ, ◌≡◌, refl, inl, inr, Bool, true, false, ◌&&◌, if◌then◌else◌, Option-cases, Bytes,
  bytes_eq, Option, none, some, List, [], ◌∷◌,
}
use u_lang.Outcome.{Outcome, ok, thrown, no_fuel, out_of_bounds, ◌>>=◌, >>=-eq-ok, ok_inj}
use u_lang.Vfs.Status.{ErrorOr, value, error}
use u_lang.Vfs.FileSystem.{Paths, File}
use u_lang.Vfs.Memory.{Node, file, directory, Entries, get_child, lookup_walk, add_walk}
use u_lang.Vfs.Memory.System.{
  open_node, InMemoryFileSystem, fix_path, add_file, lookup_in_memory_node, open_file_for_read,
}
use u_lang.Vfs.Memory.Places.{free, taken, blocked, folder, place, text_at, names, names_eq}
use u_lang.Vfs.Memory.Files.{added-kept, add_walk-place, text_at-add_walk}

-- The text of the file that an attempt to open it came to.
unfoldable pub opened : Outcome (ErrorOr File) → Option Bytes
opened (ok (value f)) = elim (f.get_buffer [] 0) [ value text ↦ some text | error e ↦ none ]
opened (ok (error e)) = none
opened (thrown f) = none
opened no_fuel = none

-- The text of a node that a lookup came to.
abbrev node_text : Outcome (ErrorOr Node) → Option Bytes
node_text (ok (value (file s content))) = some content
node_text _ = none

node_text-lookup_walk :
    (cs : List (Bytes × ℕ)) (dir : Entries)
    → node_text (lookup_walk cs dir) ≡ text_at dir (names cs)
unfolding lookup_walk text_at place
node_text-lookup_walk [] dir = refl
node_text-lookup_walk ((name, stop) ∷ []) dir = elim (Option-cases (get_child dir name)) [
  | inl fresh ↦ rw (lookup_walk, text_at, place, fresh)
  | inr (file s content, there) ↦ rw (lookup_walk, text_at, place, there)
  | inr (directory s children, there) ↦ rw (lookup_walk, text_at, place, there)
]
node_text-lookup_walk ((name, stop) ∷ next ∷ rest) dir = elim (Option-cases (get_child dir name)) [
  | inl fresh ↦ rw (lookup_walk, text_at, place, fresh)
  | inr (file s content, there) ↦ rw (lookup_walk, text_at, place, there)
  | inr (directory s children, there) ↦
      rw (lookup_walk, text_at, place, there) (node_text-lookup_walk (next ∷ rest) children)
]

opened-open_node : (found : Outcome (ErrorOr Node)) → opened (found >>= open_node) ≡ node_text found
unfolding opened
opened-open_node (ok (value (file s content))) = refl
opened-open_node (ok (value (directory s children))) = refl
opened-open_node (ok (error e)) = refl
opened-open_node (thrown f) = refl
opened-open_node no_fuel = refl

module _ (paths : Paths) where
  -- The names on a path; none, on the empty path, which stands for the root.
  abbrev pub path_names : Bytes → List Bytes
  path_names [] = []
  path_names (c ∷ cs) = names (paths.components (c ∷ cs))

  opened-open_file_for_read :
      (m : InMemoryFileSystem) (path fixed : Bytes)
      → fix_path paths m path ≡ ok fixed
      → opened (open_file_for_read paths m path) ≡ text_at m.root (path_names fixed)
  unfolding open_file_for_read lookup_in_memory_node opened text_at place
  opened-open_file_for_read m path [] h = rw h
  opened-open_file_for_read m path (c ∷ cs) h = rw h (
      opened-open_node (lookup_walk (paths.components (c ∷ cs)) m.root)
      ∙ node_text-lookup_walk (paths.components (c ∷ cs)) m.root)

  -- Where `addFile` returns, each path then opens on the new text, if `addFile` returned true and
  -- the path has the names of the one that was added; every other path opens on the text that it
  -- opened on before, or still on none. `fixed` and `fixed'` are the two paths, made absolute.
  pub add_file-open_file_for_read :
      (m : InMemoryFileSystem) (path fixed : Bytes) (seconds : ℕ) (buffer : Bytes) (uid : ℕ)
      (added : Bool) (m' : InMemoryFileSystem) (uid' : ℕ) (path' fixed' : Bytes)
      → fix_path paths m path ≡ ok fixed
      → fix_path paths m path' ≡ ok fixed'
      → add_file paths m path seconds buffer uid ≡ ok (added, m', uid')
      → opened (open_file_for_read paths m' path') ≡ (
          if added && names_eq (path_names fixed) (path_names fixed')
          then some buffer
          else opened (open_file_for_read paths m path'))
  unfolding add_file
  add_file-open_file_for_read m path [] seconds buffer uid added m' uid' path' fixed' h h' call =
      subst
        (λ r. opened (open_file_for_read paths r.1 path') ≡ (
          if r.0 && names_eq [] (path_names fixed')
          then some buffer
          else opened (open_file_for_read paths m path')))
        (ok_inj (rw (add_file, h) at call)) refl
  add_file-open_file_for_read m path (c ∷ cs) seconds buffer uid added m' uid' path' fixed' h h'
        call =
      let (x, e, walk) =
        >>=-eq-ok (add_walk _ (paths.components (c ∷ cs)) m.root uid) _
          (rw (add_file, h) at call) in
      subst
        (λ r. opened (open_file_for_read paths r.1 path') ≡ (
          if r.0 && names_eq (path_names (c ∷ cs)) (path_names fixed')
          then some buffer
          else opened (open_file_for_read paths m path')))
        (ok_inj e)
        (rw
          (
            opened-open_file_for_read m path' fixed' h',
            opened-open_file_for_read (record m { root = x.1 }) path' fixed' h',
          )
          (text_at-add_walk _ (paths.components (c ∷ cs)) m.root uid x.0 x.1 x.2 walk
            (path_names fixed')))

  -- Whether `addFile` adds a file, by what there is at the path: it returns true where there is
  -- nothing, and at a file, if that has the new text; false, where a file is on the way; and it
  -- reads behind the end of the path where there is a directory. `c ∷ cs` is the absolute path.
  pub add_file-place :
      (m : InMemoryFileSystem) (path : Bytes) (c : ℕ) (cs : Bytes) (seconds : ℕ) (buffer : Bytes)
      (uid : ℕ)
      → fix_path paths m path ≡ ok (c ∷ cs)
      → add_file paths m path seconds buffer uid >>= (λ (added, left, uid'). ok added)
        ≡ elim (place m.root (path_names (c ∷ cs))) [
          | free ↦ ok true
          | taken content ↦ ok (bytes_eq content buffer)
          | blocked ↦ ok false
          | folder ↦ thrown out_of_bounds
        ]
  unfolding add_file
  add_file-place m path c cs seconds buffer uid h =
      rw (add_file, h)
        (added-kept _ (λ l. record m { root = l })
          ∙ add_walk-place _ (paths.components (c ∷ cs)) m.root uid)
