-- ===== src/Vfs/Overlay/Directory/Union.antt =====
-- lib/Basic/VirtualFileSystem.cpp, `OverlayFSDirIterImpl`: what a client is shown of a directory.
use mathlib.Core.Path.{subst}
use u_lang.Prelude.{
  ℕ, zero, suc, ◌<◌, ◌≡◌, refl, ap, inl, inr, Bool, true, false, Bool-cases, Bytes, none, List, [],
  ◌∷◌, ◌++◌, length, arith,
}
use u_lang.Outcome.{ok}
use u_lang.Vfs.Status.{Status, no_status, is_status_known}
use u_lang.Vfs.FileSystem.{Paths, FileSystem, DirIterator, ended, at}
use u_lang.Vfs.Overlay.{OverlayFileSystem, overlays}
use u_lang.Vfs.Overlay.Directory.Listings.{Lists, all_entries, Stands, Reaches, leave_ended-Reaches}
use u_lang.Vfs.Overlay.Directory.{
  has_name, OverlayDirIter, increment_dir_iter, increment_impl, begin_overlay_dir, shown_entries,
  list_overlay_dir,
}

-- The first entry of each name, but for those of names that were seen.
unfoldable pub distinct : (Status → Bytes) → List Bytes → List Status → List Status
unfolding has_name
distinct name seen [] = []
distinct name seen (s ∷ entries) = elim (has_name (name s) seen) [
  | true ↦ distinct name seen entries
  | false ↦ s ∷ distinct name (name s ∷ seen) entries
]

module _ {W : Type 0} (paths : Paths) (path : Bytes) (w : W) where
  -- A state of the overlay's iterator, at the first entry whose name is new, or at the end.
  Shows : OverlayDirIter W → List Bytes → List Status → Type 0
  Shows it seen [] = it.current_entry ≡ no_status
  Shows it seen (s ∷ pending) = elim (has_name (paths.filename s.virtual_name) seen) [
    | true ↦ Shows it seen pending
    | false ↦
        (it.current_entry ≡ s)
        × (is_status_known s ≡ true)
        × (it.seen_names ≡ paths.filename s.virtual_name ∷ seen)
        × Stands paths path w it.systems it.current_dir_iter s pending
  ]

  -- One round of the loop, from what `increment_dir_iter` comes to: where the name was seen, the
  -- loop goes on.
  increment_impl-round :
      (fuel : ℕ) (first : Bool) (it : OverlayDirIter W) (left : List (FileSystem W))
      (iter : DirIterator) (pending : List Status)
      → increment_dir_iter paths path w first it.systems it.current_dir_iter ≡ ok (none, left, iter)
      → Reaches paths path w left iter pending
      → ((s : Status) (later : List Status) (again : OverlayDirIter W)
          → pending ≡ s ∷ later
          → has_name (paths.filename s.virtual_name) it.seen_names ≡ true
          → again.seen_names ≡ it.seen_names
          → Stands paths path w again.systems again.current_dir_iter s later
          → (it' : OverlayDirIter W) × (increment_impl paths path w fuel first again
              ≡ ok (none, it'))
            × Shows it' it.seen_names later)
      → (it' : OverlayDirIter W) × (increment_impl paths path w (suc fuel) first it
          ≡ ok (none, it'))
        × Shows it' it.seen_names pending
  unfolding increment_impl Reaches Shows Stands
  increment_impl-round fuel first it left iter [] step r loop = (
    record it { current_entry = no_status; systems = left; current_dir_iter = ended },
    rw (increment_impl, step, r),
    refl,
  )
  increment_impl-round fuel first it left iter (s ∷ pending) step
        (known, (here, behind, rest, own, listings, e, e', runs, lists, total)) loop =
      elim (Bool-cases (has_name (paths.filename s.virtual_name) it.seen_names)) [
        | inl seen ↦
            let (it', eq, shows) =
              loop s pending
                (record it { current_entry = s; systems = left; current_dir_iter = at s none rest })
                refl seen refl (here, behind, rest, own, listings, e, refl, runs, lists, total) in
            (it', rw (increment_impl, step, e', seen) eq, rw (Shows, seen) shows)
        | inr new ↦
            let it' : OverlayDirIter W = record {
              current_entry = s;
              systems = left;
              current_dir_iter = at s none rest;
              seen_names = paths.filename s.virtual_name ∷ it.seen_names;
            } in
            (
              it',
              rw (increment_impl, step, e', new),
              rw (Shows, new)
                  (
                    refl,
                    known,
                    refl,
                    (here, behind, rest, own, listings, e, refl, runs, lists, total),
                  ),
            )
      ]

  increment_impl-Shows :
      (fuel : ℕ) (it : OverlayDirIter W) (s : Status) (pending : List Status)
      → length pending < fuel
      → Stands paths path w it.systems it.current_dir_iter s pending
      → (it' : OverlayDirIter W) × (increment_impl paths path w fuel false it ≡ ok (none, it'))
        × Shows it' it.seen_names pending
  unfolding Stands increment_dir_iter
  increment_impl-Shows zero it s pending bound stands = absurd (omega (arith, bound))
  increment_impl-Shows (suc fuel) it s pending bound
        (here, behind, rest, own, listings, e, e', runs, lists, total) =
      let (left, iter, eq, r) =
        leave_ended-Reaches paths path w here behind rest own listings runs lists in
      increment_impl-round fuel false it left iter pending (rw (e, e') eq)
        (subst (Reaches paths path w left iter) total r)
        (λ t later again split seen same stands'.
          subst
            (λ x.
              (it' : OverlayDirIter W) × (increment_impl paths path w fuel false again
                ≡ ok (none, it'))
              × Shows it' x later)
            same
            (increment_impl-Shows fuel again t later
              (omega (arith, bound, ap (λ l. length l) split)) stands'))

  shown_entries-distinct :
      (fuel turns : ℕ) (it : OverlayDirIter W) (seen : List Bytes) (pending : List Status)
      → length pending < fuel
      → length pending < turns
      → Shows it seen pending
      → shown_entries paths path w fuel turns none it
        ≡ ok (none, distinct (λ s. paths.filename s.virtual_name) seen pending)
  unfolding shown_entries distinct Shows
  shown_entries-distinct fuel zero it seen pending f t shows = absurd (omega (arith, t))
  shown_entries-distinct fuel (suc turns) it seen [] f t shows = rw (shown_entries, shows)
  shown_entries-distinct fuel (suc turns) it seen (s ∷ pending) f t shows =
      elim (Bool-cases (has_name (paths.filename s.virtual_name) seen)) [
        | inl old ↦
            rw (distinct, old)
              (shown_entries-distinct fuel (suc turns) it seen pending (omega (arith, f))
                (omega (arith, t)) (rw (Shows, old) at shows))
        | inr new ↦
            let (entry, known, names, stands) = rw (Shows, new) at shows in
            let (it', eq, shows') =
              increment_impl-Shows fuel it s pending (omega (arith, f)) stands in
            rw
              (
                shown_entries,
                entry,
                known,
                eq,
                distinct,
                new,
                shown_entries-distinct fuel turns it' (paths.filename s.virtual_name ∷ seen) pending
                    (omega (arith, f)) (omega (arith, t))
                    (subst (λ x. Shows it' x pending) names shows'),
              )
              (ap
                (λ x. ok (
                  none,
                  x
                      ∷ distinct (λ t. paths.filename t.virtual_name)
                          (paths.filename s.virtual_name ∷ seen) pending,
                ))
                entry)
      ]

  begin_overlay_dir-Shows :
      (fuel : ℕ) (top : FileSystem W) (below : List (FileSystem W)) (listings : List (List Status))
      → Lists paths path w (top ∷ below) listings
      → (it : OverlayDirIter W) × (begin_overlay_dir paths path w (suc fuel) (top ∷ below)
          ≡ ok (none, it))
        × Shows it [] (all_entries paths path w listings)
  unfolding begin_overlay_dir increment_dir_iter has_name
  begin_overlay_dir-Shows fuel top below [] h = absurd h
  begin_overlay_dir-Shows fuel top below (own ∷ listings) ((e, begun, begins, fine, runs), h) =
      let start : OverlayDirIter W = record {
        current_entry = no_status;
        systems = top ∷ below;
        current_dir_iter = begun;
        seen_names = [];
      } in
      let (left, iter, eq, r) =
        leave_ended-Reaches paths path w top below begun own listings runs h in
      let (it, steps, shows) =
        increment_impl-round fuel true start left iter (own ++ all_entries paths path w listings) eq
          r (λ s later again split seen. absurd (cc seen)) in
      (it, rw (begin_overlay_dir, begins) steps, shows)

  -- Where each file system of an overlay that has one, the topmost first, lists the directory
  -- without an error or does not have it, a client's loop over the directory, which stops at the
  -- first error code that the iterator returns, ends with no error code, and is shown the entries
  -- of the file systems one after the other, less each whose name an earlier one has. More rounds than there are entries are enough.
  pub list_overlay_dir-distinct :
      (fuel : ℕ) (o : OverlayFileSystem W) (top : FileSystem W) (below : List (FileSystem W))
      (listings : List (List Status))
      → overlays o ≡ top ∷ below
      → Lists paths path w (overlays o) listings
      → length (all_entries paths path w listings) < fuel
      → list_overlay_dir paths path w fuel o
        ≡ ok (
          none,
          distinct (λ s. paths.filename s.virtual_name) [] (all_entries paths path w listings),
        )
  unfolding list_overlay_dir begin_overlay_dir increment_dir_iter
  list_overlay_dir-distinct zero o top below listings e h bound = absurd (omega (arith, bound))
  list_overlay_dir-distinct (suc fuel) o top below listings e h bound =
      let (it, begins, shows) =
        begin_overlay_dir-Shows fuel top below listings
          (subst (λ l. Lists paths path w l listings) e h) in
      rw (list_overlay_dir, e, begins)
        (shown_entries-distinct (suc fuel) (suc fuel) it [] (all_entries paths path w listings)
          bound bound shows)
