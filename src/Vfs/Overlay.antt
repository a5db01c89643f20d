-- ===== src/Vfs/Overlay.antt =====
-- lib/Basic/VirtualFileSystem.cpp: `OverlayFileSystem`. `fs_list` is `FSList`, the base first; the
-- code goes through it from its end.
pub mod Shadow
pub mod Directory
use mathlib.Core.List.{reverse}
use u_lang.Prelude.{Bytes, Bool, true, false, Option, none, some, List, [], ◌∷◌, ◌++◌}
use u_lang.Outcome.{Outcome, ok, thrown, assertion, ◌>>=◌}
use u_lang.Vfs.Status.{Errc, no_such_file_or_directory, ErrorOr, value, error, is_missing, Status}
use u_lang.Vfs.FileSystem.{FileSystem, File}

pub record OverlayFileSystem (W : Type 0) : Type 0 where
  pub fs_list : List (FileSystem W)

module _ {W : Type 0} where
  -- `OverlayFileSystem(BaseFS)`.
  abbrev pub new_overlay : FileSystem W → OverlayFileSystem W
  new_overlay base = record { fs_list = base ∷ [] }

  -- From `overlays_begin()` to `overlays_end()`.
  abbrev pub overlays : OverlayFileSystem W → List (FileSystem W)
  overlays o = reverse o.fs_list

  -- The loops of `status` and `openFileForRead`: an answer counts unless the file is missing.
  unfoldable pub first_status : List (FileSystem W) → Bytes → W → Outcome (ErrorOr Status)
  first_status [] path w = ok (error no_such_file_or_directory)
  first_status (fs ∷ rest) path w = fs.status path w >>= λ s. elim s [
    | value v ↦ ok (value v)
    | error e ↦ elim (is_missing e) [ true ↦ first_status rest path w | false ↦ ok (error e) ]
  ]

  unfoldable pub status : OverlayFileSystem W → Bytes → W → Outcome (ErrorOr Status)
  unfolding first_status
  status o path w = first_status (overlays o) path w

  unfoldable pub first_open : List (FileSystem W) → Bytes → W → Outcome (ErrorOr File × W)
  first_open [] path w = ok (error no_such_file_or_directory, w)
  first_open (fs ∷ rest) path w = fs.open_file_for_read path w >>= λ (f, w'). elim f [
    | value v ↦ ok (value v, w')
    | error e ↦ elim (is_missing e) [ true ↦ first_open rest path w' | false ↦ ok (error e, w') ]
  ]

  unfoldable pub open_file_for_read : OverlayFileSystem W → Bytes → W → Outcome (ErrorOr File × W)
  unfolding first_open
  open_file_for_read o path w = first_open (overlays o) path w

  -- `FSList.front()`; the list is never empty.
  abbrev pub front_cwd : List (FileSystem W) → W → Outcome (ErrorOr Bytes)
  front_cwd [] w = thrown assertion
  front_cwd (fs ∷ rest) w = ok (fs.get_current_working_directory w)

  abbrev pub get_current_working_directory : OverlayFileSystem W → W → Outcome (ErrorOr Bytes)
  get_current_working_directory o w = front_cwd o.fs_list w

  -- The first error ends the loop.
  unfoldable pub set_all_cwd : List (FileSystem W) → Bytes → W → Outcome (Option Errc × W)
  set_all_cwd [] path w = ok (none, w)
  set_all_cwd (fs ∷ rest) path w = fs.set_current_working_directory path w >>= λ (e, w'). elim e [
    | some code ↦ ok (some code, w')
    | none ↦ set_all_cwd rest path w'
  ]

  unfoldable pub set_current_working_directory :
      OverlayFileSystem W → Bytes → W → Outcome (Option Errc × W)
  unfolding set_all_cwd
  set_current_working_directory o path w = set_all_cwd o.fs_list path w

  -- `ErrorOr::get` asserts that there is a value; the error code of the call is not looked at.
  unfoldable pub push_overlay :
      OverlayFileSystem W → FileSystem W → W → Outcome (OverlayFileSystem W × W)
  push_overlay o fs w =
      let pushed = record o { fs_list = o.fs_list ++ fs ∷ [] } in
      get_current_working_directory pushed w >>= λ cwd. elim cwd [
        | error e ↦ thrown assertion
        | value dir ↦ fs.set_current_working_directory dir w >>= λ (e, w'). ok (pushed, w')
      ]
