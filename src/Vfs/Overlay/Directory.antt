-- ===== src/Vfs/Overlay/Directory.antt =====
-- lib/Basic/VirtualFileSystem.cpp: `OverlayFSDirIterImpl`, the entries of a directory in all the
-- file systems of an overlay. `ConcatenatedOverlayFSDirIterImpl` is the same code.
pub mod Listings
pub mod Union
use u_lang.Prelude.{
  ℕ, zero, suc, Bool, true, false, ◌||◌, if◌then◌else◌, Bytes, bytes_eq, Option, none, some, List,
  [], ◌∷◌,
}
use u_lang.Outcome.{Outcome, ok, thrown, assertion, out_of_bounds, no_fuel, ◌>>=◌}
use u_lang.Vfs.Status.{Errc, is_missing, Status, no_status, is_status_known}
use u_lang.Vfs.FileSystem.{Paths, FileSystem, DirIterator, ended, at, is_end}
use u_lang.Vfs.Overlay.{OverlayFileSystem, overlays}

-- `SeenNames`.
unfoldable pub has_name : Bytes → List Bytes → Bool
unfolding bytes_eq
has_name name [] = false
has_name name (seen ∷ names) = bytes_eq seen name || has_name name names

-- `EC && EC != errc::no_such_file_or_directory`.
abbrev pub is_failure : Option Errc → Bool
is_failure none = false
is_failure (some e) = if is_missing e then false else true

-- The members of the class but `Overlays` and `Path`. `systems` is what lies between `CurrentFS`
-- and `overlays_end()`.
pub record OverlayDirIter (W : Type 0) : Type 0 where
  pub current_entry : Status
  pub systems : List (FileSystem W)
  pub current_dir_iter : DirIterator
  pub seen_names : List Bytes

module _ {W : Type 0} (paths : Paths) (path : Bytes) (w : W) where
  -- The loop of `incrementFS`: the error code, `CurrentFS` and `CurrentDirIter`.
  unfoldable pub next_directory :
      List (FileSystem W) → DirIterator → Outcome (Option Errc × List (FileSystem W) × DirIterator)
  next_directory [] iter = ok (none, [], iter)
  next_directory (fs ∷ rest) iter = fs.dir_begin path w >>= λ (e, begun). elim (is_failure e) [
    | true ↦ ok (e, fs ∷ rest, begun)
    | false ↦ elim (is_end begun) [
      | false ↦ ok (none, fs ∷ rest, begun)
      | true ↦ next_directory rest begun
    ]
  ]

  abbrev pub increment_fs :
      List (FileSystem W) → DirIterator → Outcome (Option Errc × List (FileSystem W) × DirIterator)
  unfolding next_directory
  increment_fs [] iter = thrown assertion
  increment_fs (fs ∷ rest) iter = next_directory rest iter

  -- `if (!EC && CurrentDirIter == directory_iterator())`.
  unfoldable pub leave_ended :
      List (FileSystem W)
      → Option Errc
      → DirIterator
      → Outcome (Option Errc × List (FileSystem W) × DirIterator)
  unfolding increment_fs
  leave_ended systems (some e) iter = ok (some e, systems, iter)
  leave_ended systems none ended = increment_fs systems ended
  leave_ended systems none (at s e rest) = ok (none, systems, at s e rest)

  unfoldable pub increment_dir_iter :
      Bool
      → List (FileSystem W)
      → DirIterator
      → Outcome (Option Errc × List (FileSystem W) × DirIterator)
  unfolding leave_ended
  increment_dir_iter true systems iter = leave_ended systems none iter
  increment_dir_iter false systems ended = thrown assertion
  increment_dir_iter false systems (at s e rest) = leave_ended systems e rest

  -- `incrementImpl`: the first parameter is the fuel of its loop.
  unfoldable pub increment_impl :
      ℕ → Bool → OverlayDirIter W → Outcome (Option Errc × OverlayDirIter W)
  unfolding increment_dir_iter has_name
  increment_impl zero first it = no_fuel
  increment_impl (suc fuel) first it =
      increment_dir_iter first it.systems it.current_dir_iter >>= λ (e, systems, iter). elim e [
        | some code ↦ ok (
          some code,
          record it { current_entry = no_status; systems = systems; current_dir_iter = iter },
        )
        | none ↦ elim iter [
          | ended ↦ ok (
            none,
            record it { current_entry = no_status; systems = systems; current_dir_iter = ended },
          )
          | at s e' rest ↦
              let name = paths.filename s.virtual_name in
              elim (has_name name it.seen_names) [
                | true ↦ increment_impl fuel first (record it {
                  current_entry = s;
                  systems = systems;
                  current_dir_iter = at s e' rest;
                })
                | false ↦ ok (
                  none,
                  record {
                    current_entry = s;
                    systems = systems;
                    current_dir_iter = at s e' rest;
                    seen_names = name ∷ it.seen_names;
                  },
                )
              ]
        ]
      ]

  -- `OverlayFSDirIterImpl(Path, FS, EC)`; the error code of the first `dir_begin` is overwritten.
  unfoldable pub begin_overlay_dir :
      ℕ → List (FileSystem W) → Outcome (Option Errc × OverlayDirIter W)
  unfolding increment_impl
  begin_overlay_dir fuel [] = thrown out_of_bounds
  begin_overlay_dir fuel (fs ∷ rest) = fs.dir_begin path w >>= λ (e, begun).
      increment_impl fuel true (record {
        current_entry = no_status;
        systems = fs ∷ rest;
        current_dir_iter = begun;
        seen_names = [];
      })

  -- A client's loop, `for (; !EC && It != End; It.increment(EC))`, from the error code of the call
  -- that made the iterator: the code that the loop ends with, and the entries that it is shown.
  unfoldable pub shown_entries :
      ℕ → ℕ → Option Errc → OverlayDirIter W → Outcome (Option Errc × List Status)
  unfolding increment_impl
  shown_entries fuel zero e it = no_fuel
  shown_entries fuel (suc turns) (some e) it = ok (some e, [])
  shown_entries fuel (suc turns) none it = elim (is_status_known it.current_entry) [
    | false ↦ ok (none, [])
    | true ↦ increment_impl fuel false it >>= λ (e, it').
        shown_entries fuel turns e it' >>= λ (last, rest). ok (last, it.current_entry ∷ rest)
  ]

  unfoldable pub list_overlay_dir : ℕ → OverlayFileSystem W → Outcome (Option Errc × List Status)
  unfolding begin_overlay_dir shown_entries
  list_overlay_dir fuel o =
      begin_overlay_dir fuel (overlays o) >>= λ (e, it). shown_entries fuel fuel e it
