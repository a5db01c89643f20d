-- ===== src/Vfs/Overlay/Directory/Listings.antt =====
-- lib/Basic/VirtualFileSystem.cpp, `OverlayFSDirIterImpl`: the entries that are before it, and the
-- steps from one file system to the next.
use mathlib.Core.Path.{subst}
use u_lang.Prelude.{◌≡◌, refl, true, false, Bytes, Option, none, List, [], ◌∷◌, ◌++◌}
use u_lang.Outcome.{ok, ◌>>=◌}
use u_lang.Vfs.Status.{Errc, Status, is_status_known}
use u_lang.Vfs.FileSystem.{Paths, FileSystem, DirIterator, ended, at}
use u_lang.Vfs.Overlay.Directory.{is_failure, next_directory, increment_fs, leave_ended}

-- The entries of an iterator that never fails and at which every status is known.
abbrev pub Runs : DirIterator → List Status → Type 0
Runs ended [] = Unit {0}
Runs (at s e rest) (t ∷ ts) = (e ≡ none) × (s ≡ t) × (is_status_known s ≡ true) × Runs rest ts
Runs _ _ = ⊥

module _ {W : Type 0} (paths : Paths) (path : Bytes) (w : W) where
  -- Each file system, the topmost first, has the directory with the entries, or does not have it.
  abbrev pub Lists : List (FileSystem W) → List (List Status) → Type 0
  Lists [] [] = Unit {0}
  Lists (fs ∷ systems) (entries ∷ listings) =
      ((e : Option Errc) × (begun : DirIterator) × (fs.dir_begin path w ≡ ok (e, begun))
        × (is_failure e ≡ false)
        × Runs begun entries)
      × Lists systems listings
  Lists _ _ = ⊥

  abbrev pub all_entries : List (List Status) → List Status
  all_entries [] = []
  all_entries (entries ∷ listings) = entries ++ all_entries listings

  -- The iterator of the first of the file systems is at an entry, and the others follow: what is
  -- before it then is listed.
  unfoldable pub Stands : List (FileSystem W) → DirIterator → Status → List Status → Type 0
  Stands systems iter s pending =
      (here : FileSystem W) × (behind : List (FileSystem W)) × (rest : DirIterator) × (own : List
        Status)
      × (listings : List (List Status)) × (systems ≡ here ∷ behind)
      × (iter ≡ at s none rest)
      × Runs rest own
      × Lists behind listings
      × (own ++ all_entries listings ≡ pending)

  -- It is at the first of the entries that are left, or at the end.
  unfoldable pub Reaches : List (FileSystem W) → DirIterator → List Status → Type 0
  unfolding Stands
  Reaches systems iter [] = iter ≡ ended
  Reaches systems iter (s ∷ pending) = (is_status_known s ≡ true) × Stands systems iter s pending

  next_directory-Reaches :
      (systems : List (FileSystem W)) (listings : List (List Status))
      → Lists systems listings
      → (left : List (FileSystem W)) × (iter : DirIterator) × (next_directory paths path w systems
            ended
          ≡ ok (none, left, iter))
        × Reaches left iter (all_entries listings)
  unfolding next_directory Reaches Stands
  next_directory-Reaches [] [] h = ([], ended, refl, refl)
  next_directory-Reaches [] (entries ∷ listings) h = absurd h
  next_directory-Reaches (fs ∷ systems) [] h = absurd h
  next_directory-Reaches (fs ∷ systems) ([] ∷ listings) ((e, ended, begins, fine, runs), h) =
      let (left, iter, eq, r) = next_directory-Reaches systems listings h in
      (left, iter, rw (next_directory, begins, ◌>>=◌, fine) eq, r)
  next_directory-Reaches (fs ∷ systems) ((t ∷ ts) ∷ listings) ((e, ended, begins, fine, runs), h) =
      absurd runs
  next_directory-Reaches (fs ∷ systems) ([] ∷ listings) ((e, at s e' rest, begins, fine, runs), h) =
      absurd runs
  next_directory-Reaches (fs ∷ systems) ((t ∷ ts) ∷ listings)
        ((e, at s e' rest, begins, fine, (clean, same, known, runs)), h) =
      (
        fs ∷ systems,
        at s e' rest,
        rw (next_directory, begins, ◌>>=◌, fine),
        (
          subst (λ x. is_status_known x ≡ true) same known,
          (fs, systems, rest, ts, listings, refl, rw (same, clean), runs, h, refl),
        ),
      )

  pub leave_ended-Reaches :
      (here : FileSystem W) (behind : List (FileSystem W)) (iter : DirIterator) (own : List Status)
      (listings : List (List Status))
      → Runs iter own
      → Lists behind listings
      → (left : List (FileSystem W)) × (iter' : DirIterator) × (leave_ended paths path w
            (here ∷ behind)
            none
            iter
          ≡ ok (none, left, iter'))
        × Reaches left iter' (own ++ all_entries listings)
  unfolding leave_ended increment_fs Reaches Stands
  leave_ended-Reaches here behind ended [] listings runs h =
      next_directory-Reaches behind listings h
  leave_ended-Reaches here behind ended (t ∷ ts) listings runs h = absurd runs
  leave_ended-Reaches here behind (at s e rest) [] listings runs h = absurd runs
  leave_ended-Reaches here behind (at s e rest) (t ∷ ts) listings (clean, same, known, runs) h = (
    here ∷ behind,
    at s e rest,
    refl,
    (
      subst (λ x. is_status_known x ≡ true) same known,
      (here, behind, rest, ts, listings, refl, rw (same, clean), runs, h, refl),
    ),
  )
