-- ===== src/Vfs/Overlay/Shadow.antt =====
-- lib/Basic/VirtualFileSystem.cpp, `OverlayFileSystem`: what a path shows, as the union of the file
-- systems in the order in which they were pushed.
use mathlib.Core.List.{foldl}
use u_lang.Prelude.{◌≡◌, refl, true, false, Bytes, List, [], ◌∷◌, arith}
use u_lang.Outcome.{ok}
use u_lang.Vfs.Status.{no_such_file_or_directory, ErrorOr, value, error, is_missing, Status}
use u_lang.Vfs.FileSystem.{FileSystem, File}
use u_lang.Vfs.Overlay.{OverlayFileSystem, first_status, first_open, open_file_for_read, status}

-- One layer over what is below it: it hides it, unless it has nothing there.
abbrev pub shadow {ℓ} : {A : Type ℓ} → ErrorOr A → ErrorOr A → ErrorOr A
shadow below (value v) = value v
shadow below (error e) = elim (is_missing e) [ true ↦ below | false ↦ error e ]

-- The layers, the lowest first, put one over the other.
abbrev pub union {ℓ} : {A : Type ℓ} → List (ErrorOr A) → ErrorOr A
union layers = foldl shadow (error no_such_file_or_directory) layers

module _ {W : Type 0} where
  -- Each file system answers at the path, with what is listed.
  abbrev pub Answers : List (FileSystem W) → Bytes → W → List (ErrorOr Status) → Type 0
  Answers [] path w [] = Unit {0}
  Answers (fs ∷ rest) path w (a ∷ answers) = (fs.status path w ≡ ok a) × Answers rest path w answers
  Answers _ path w _ = ⊥

  -- Each file system answers an attempt to open the path, and none changes the state by it.
  abbrev pub Opens : List (FileSystem W) → Bytes → W → List (ErrorOr File) → Type 0
  Opens [] path w [] = Unit {0}
  Opens (fs ∷ rest) path w (a ∷ answers) =
      (fs.open_file_for_read path w ≡ ok (a, w)) × Opens rest path w answers
  Opens _ path w _ = ⊥

  first_status-cons :
      (fs : FileSystem W) (below : List (FileSystem W)) (path : Bytes) (w : W)
      (a r : ErrorOr Status)
      → fs.status path w ≡ ok a
      → first_status below path w ≡ ok r
      → first_status (fs ∷ below) path w ≡ ok (shadow r a)
  unfolding first_status
  first_status-cons fs below path w (value v) r h k = rw h
  first_status-cons fs below path w (error e) r h k = ground (arith, h, k)

  first_open-cons :
      (fs : FileSystem W) (below : List (FileSystem W)) (path : Bytes) (w : W) (a r : ErrorOr File)
      → fs.open_file_for_read path w ≡ ok (a, w)
      → first_open below path w ≡ ok (r, w)
      → first_open (fs ∷ below) path w ≡ ok (shadow r a, w)
  unfolding first_open
  first_open-cons fs below path w (value v) r h k = rw h
  first_open-cons fs below path w (error e) r h k = ground (arith, h, k)

  -- The layers are put over what is below them one by one.
  first_status-foldl :
      (systems below : List (FileSystem W)) (path : Bytes) (w : W) (answers : List (ErrorOr Status))
      (r : ErrorOr Status)
      → Answers systems path w answers
      → first_status below path w ≡ ok r
      → first_status (foldl (λ l fs. fs ∷ l) below systems) path w ≡ ok (foldl shadow r answers)
  first_status-foldl [] below path w [] r h k = k
  first_status-foldl [] below path w (a ∷ answers) r h k = absurd h
  first_status-foldl (fs ∷ systems) below path w [] r h k = absurd h
  first_status-foldl (fs ∷ systems) below path w (a ∷ answers) r h k =
      first_status-foldl systems (fs ∷ below) path w answers (shadow r a) h.1
        (first_status-cons fs below path w a r h.0 k)

  first_open-foldl :
      (systems below : List (FileSystem W)) (path : Bytes) (w : W) (answers : List (ErrorOr File))
      (r : ErrorOr File)
      → Opens systems path w answers
      → first_open below path w ≡ ok (r, w)
      → first_open (foldl (λ l fs. fs ∷ l) below systems) path w ≡ ok (foldl shadow r answers, w)
  first_open-foldl [] below path w [] r h k = k
  first_open-foldl [] below path w (a ∷ answers) r h k = absurd h
  first_open-foldl (fs ∷ systems) below path w [] r h k = absurd h
  first_open-foldl (fs ∷ systems) below path w (a ∷ answers) r h k =
      first_open-foldl systems (fs ∷ below) path w answers (shadow r a) h.1
        (first_open-cons fs below path w a r h.0 k)

  -- Where every file system answers at a path, with `statuses` and `files`, and opening the path
  -- changes the state of none, the overlay's status and open file are the unions of the answers,
  -- put one over the other in the order in which the systems were pushed: an answer hides those
  -- below it unless it is that there is no such file.
  pub overlay-union :
      (o : OverlayFileSystem W) (path : Bytes) (w : W) (statuses : List (ErrorOr Status))
      (files : List (ErrorOr File))
      → Answers o.fs_list path w statuses
      → Opens o.fs_list path w files
      → (status o path w ≡ ok (union statuses))
        × (open_file_for_read o path w ≡ ok (union files, w))
  unfolding status open_file_for_read first_status first_open
  overlay-union o path w statuses files h k = (
    first_status-foldl o.fs_list [] path w statuses (error no_such_file_or_directory) h refl,
    first_open-foldl o.fs_list [] path w files (error no_such_file_or_directory) k refl,
  )
