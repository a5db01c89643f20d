-- ===== src/Vfs/Memory/Replay.antt =====
-- lib/Basic/VirtualFileSystem.cpp, `InMemoryFileSystem`: what can be opened after a sequence of
-- calls of `addFile`.
use mathlib.Core.Path.{subst}
use u_lang.Prelude.{
  ℕ, ◌≡◌, refl, ap, ◌∙◌, Bool, ◌&&◌, if◌then◌else◌, Bytes, Option, some, List, [], ◌∷◌,
}
use u_lang.Outcome.{Outcome, ok, thrown, no_fuel, ◌>>=◌, >>=-eq-ok, ok_inj}
use u_lang.Vfs.FileSystem.{Paths}
use u_lang.Vfs.Memory.{add_walk}
use u_lang.Vfs.Memory.System.{InMemoryFileSystem, fix_path, add_file, open_file_for_read}
use u_lang.Vfs.Memory.Places.{names_eq}
use u_lang.Vfs.Memory.Refinement.{opened, path_names, add_file-open_file_for_read}

-- The arguments of a call of `addFile`.
pub record Addition : Type 0 where
  pub path : Bytes
  pub seconds : ℕ
  pub text : Bytes

module _ (paths : Paths) where
  -- The calls one after the other, with what each returned.
  unfoldable pub add_files :
      List Addition → InMemoryFileSystem → ℕ → Outcome (List Bool × InMemoryFileSystem × ℕ)
  unfolding add_file
  add_files [] m uid = ok ([], m, uid)
  add_files (a ∷ additions) m uid =
      add_file paths m a.path a.seconds a.text uid >>= λ (added, m', uid').
      add_files additions m' uid' >>= λ (results, m'', uid''). ok (added ∷ results, m'', uid'')

  -- The names on a path, from the working directory.
  abbrev names_from : Outcome Bytes → List Bytes
  names_from (ok fixed) = path_names paths fixed
  names_from (thrown f) = []
  names_from no_fuel = []

  -- The same calls on a map from names to texts, read at `key`, where it held `old`.
  unfoldable pub replay :
      InMemoryFileSystem → List Addition → List Bool → List Bytes → Option Bytes → Option Bytes
  unfolding fix_path names_eq
  replay m [] results key old = old
  replay m (a ∷ additions) [] key old = old
  replay m (a ∷ additions) (added ∷ results) key old =
      let now =
        if added && names_eq (names_from (fix_path paths m a.path)) key then some a.text else old in
      replay m additions results key now

  -- `addFile` leaves what a path stands for.
  fix_path-add_file :
      (m m' : InMemoryFileSystem) (path fixed : Bytes) (seconds : ℕ) (text : Bytes) (uid : ℕ)
      (added : Bool) (uid' : ℕ)
      → fix_path paths m path ≡ ok fixed
      → add_file paths m path seconds text uid ≡ ok (added, m', uid')
      → (m'.working_directory ≡ m.working_directory)
        × (m'.use_normalized_paths ≡ m.use_normalized_paths)
  unfolding add_file
  fix_path-add_file m m' path [] seconds text uid added uid' h call =
      subst
        (λ r.
          (r.1.working_directory ≡ m.working_directory)
          × (r.1.use_normalized_paths ≡ m.use_normalized_paths))
        (ok_inj (rw (add_file, h) at call)) (refl, refl)
  fix_path-add_file m m' path (c ∷ cs) seconds text uid added uid' h call =
      let (x, e, walk) =
        >>=-eq-ok (add_walk _ (paths.components (c ∷ cs)) m.root uid) _
          (rw (add_file, h) at call) in
      subst
        (λ r.
          (r.1.working_directory ≡ m.working_directory)
          × (r.1.use_normalized_paths ≡ m.use_normalized_paths))
        (ok_inj e) (refl, refl)

  fix_path-eq :
      (m m' : InMemoryFileSystem) (path : Bytes)
      → m'.working_directory ≡ m.working_directory
      → m'.use_normalized_paths ≡ m.use_normalized_paths
      → fix_path paths m' path ≡ fix_path paths m path
  unfolding fix_path
  fix_path-eq m m' path h k = rw (h, k)

  -- The map does not depend on the tree.
  replay-eq :
      (m m' : InMemoryFileSystem) (additions : List Addition) (results : List Bool)
      (key : List Bytes) (old : Option Bytes)
      → m'.working_directory ≡ m.working_directory
      → m'.use_normalized_paths ≡ m.use_normalized_paths
      → replay m' additions results key old ≡ replay m additions results key old
  unfolding replay
  replay-eq m m' [] results key old h k = refl
  replay-eq m m' (a ∷ additions) [] key old h k = refl
  replay-eq m m' (a ∷ additions) (added ∷ results) key old h k =
      rw (fix_path-eq m m' a.path h k) (replay-eq m m' additions results key _ h k)

  -- Where a sequence of calls of `addFile` returns, each path then opens on the text that a map
  -- from names to texts holds at the path's names, in which each call that returned true stored
  -- its text under the names of its path, and which began with what the path opened on before.
  -- `fixed` is the path made absolute.
  pub add_files-replay :
      (additions : List Addition) (m m' : InMemoryFileSystem) (uid uid' : ℕ) (results : List Bool)
      (path fixed : Bytes)
      → fix_path paths m path ≡ ok fixed
      → add_files additions m uid ≡ ok (results, m', uid')
      → opened (open_file_for_read paths m' path)
        ≡ replay m additions results
            (path_names paths fixed)
            (opened (open_file_for_read paths m path))
  unfolding add_files replay
  add_files-replay [] m m' uid uid' results path fixed h calls =
      subst
        (λ r. opened (open_file_for_read paths r.1 path) ≡ opened (open_file_for_read paths m path))
        (ok_inj calls) refl
  add_files-replay (a ∷ additions) m m' uid uid' results path fixed h calls =
      let ((added, m₁, uid₁), rest, first) =
        >>=-eq-ok (add_file paths m a.path a.seconds a.text uid) _ calls in
      let ((results₂, m₂, uid₂), e, more) = >>=-eq-ok (add_files additions m₁ uid₁) _ rest in
      let (own, e', fixes) = >>=-eq-ok (fix_path paths m a.path) _ first in
      let (same, same') =
        fix_path-add_file m m₁ a.path own a.seconds a.text uid added uid₁ fixes first in
      let key = path_names paths fixed in
      let later =
        add_files-replay additions m₁ m₂ uid₁ uid₂ results₂ path fixed
          (fix_path-eq m m₁ path same same' ∙ h) more in
      let now =
        add_file-open_file_for_read paths m a.path own a.seconds a.text uid added m₁ uid₁ path fixed
          fixes h first in
      subst
        (λ r.
          opened (open_file_for_read paths r.1 path)
          ≡ replay m (a ∷ additions) r.0 key (opened (open_file_for_read paths m path)))
        (ok_inj e)
        (later
          ∙ replay-eq m m₁ additions results₂ key _ same same'
          ∙ rw (replay, fixes) (ap (λ o. replay m additions results₂ key o) now))
