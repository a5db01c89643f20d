-- ===== src/Vfs/Concatenated.antt =====
-- lib/Basic/VirtualFileSystem.cpp: `ConcatenatedOverlayFileSystem`. Where two of its functions are
-- those of `OverlayFileSystem` word for word, the model has one.
pub mod Contents
use u_lang.Prelude.{
  ℕ, zero, suc, ◌+◌, ◌≤◌, Bool, true, false, leb, if◌then◌else◌, Bytes, length, take, replicate,
  add64, Option, none, some, List, [], ◌∷◌, ◌++◌,
}
use u_lang.Outcome.{Outcome, ok, thrown, assertion, out_of_bounds, ◌>>=◌}
use u_lang.Vfs.Status.{
  Errc, no_such_file_or_directory, ErrorOr, value, error, is_missing, Status, make_status,
  next_virtual_unique_id,
}
use u_lang.Vfs.FileSystem.{Paths, FileSystem, File}
use u_lang.Vfs.Overlay.{OverlayFileSystem, overlays, front_cwd, set_all_cwd}
use u_lang.Vfs.Overlay as Overlay
use u_lang.Vfs.Overlay.Directory.{OverlayDirIter, increment_impl, begin_overlay_dir}
use u_lang.Vfs.Memory.System.{open_memory_file}

-- `FSList`, the base first, and the number of nodes in `Cleanup`.
pub record ConcatenatedOverlayFileSystem (W : Type 0) : Type 0 where
  pub layers : OverlayFileSystem W
  pub cleanup : ℕ

-- `memcpy` of a text to a place of a buffer: outside the buffer, and where the text has fewer
-- bytes than are copied, there is undefined behaviour.
unfoldable pub write_at : Bytes → ℕ → Bytes → Outcome Bytes
write_at buffer zero [] = ok buffer
write_at [] zero (c ∷ cs) = thrown out_of_bounds
write_at (b ∷ buffer) zero (c ∷ cs) = write_at buffer zero cs >>= λ rest. ok (c ∷ rest)
write_at [] (suc n) text = thrown out_of_bounds
write_at (b ∷ buffer) (suc n) text = write_at buffer n text >>= λ rest. ok (b ∷ rest)

abbrev pub first_bytes : ℕ → Bytes → Outcome Bytes
first_bytes n text = if leb n (length text) then ok (take n text) else thrown out_of_bounds

-- `*` and `->` of an `ErrorOr`, which assert that it holds a value.
abbrev pub get_value {ℓ} : {A : Type ℓ} → ErrorOr A → Outcome A
get_value (value v) = ok v
get_value (error e) = thrown assertion

-- One turn of the second loop: the file's text and a line feed behind it.
unfoldable pub append_file : File → Bytes → Bytes → ℕ → Outcome (Bytes × ℕ)
unfolding write_at
append_file file path buffer offset = get_value file.status >>= λ s.
    get_value (file.get_buffer path s.size) >>= λ text. first_bytes s.size text >>= λ copied.
    write_at buffer offset copied >>= λ buffer'.
    write_at buffer' (offset + s.size) (10 ∷ []) >>= λ buffer''.
    ok (buffer'', add64 offset (add64 s.size 1))

-- The status of the file that is made, and the file.
abbrev pub concatenated_file : Bytes → Status → Bytes → ℕ → File
unfolding make_status
concatenated_file path s buffer uid =
    open_memory_file
      (make_status path (next_virtual_unique_id uid).0 s.mtime 0 0 (length buffer) s.type s.perms
        [])
      buffer

module _ {W : Type 0} where
  -- The first loop of `openFileForRead`, from the top: the size of the buffer, or the error that
  -- ends the function.
  unfoldable pub total_size : List (FileSystem W) → Bytes → ℕ → W → Outcome (ErrorOr ℕ × W)
  total_size [] path size w = ok (value size, w)
  total_size (fs ∷ rest) path size w = fs.open_file_for_read path w >>= λ (f, w'). elim f [
    | error e ↦ elim (is_missing e) [
      | true ↦ total_size rest path size w'
      | false ↦ ok (error e, w')
    ]
    | value file ↦
        get_value file.status >>= λ s. total_size rest path (add64 size (add64 s.size 1)) w'
  ]

  -- The second loop, from the base.
  unfoldable pub fill : List (FileSystem W) → Bytes → Bytes → ℕ → W → Outcome (ErrorOr Bytes × W)
  unfolding append_file
  fill [] path buffer offset w = ok (value buffer, w)
  fill (fs ∷ rest) path buffer offset w = fs.open_file_for_read path w >>= λ (f, w'). elim f [
    | error e ↦ elim (is_missing e) [
      | true ↦ fill rest path buffer offset w'
      | false ↦ ok (error e, w')
    ]
    | value file ↦ append_file file path buffer offset >>= λ (buffer', offset').
        fill rest path buffer' offset' w'
  ]

  -- `ConcatenatedOverlayFileSystem(BaseFS)`.
  abbrev pub new_concatenated : FileSystem W → ConcatenatedOverlayFileSystem W
  new_concatenated base = record { layers = Overlay.new_overlay base; cleanup = 0 }

  unfoldable pub status : ConcatenatedOverlayFileSystem W → Bytes → W → Outcome (ErrorOr Status)
  unfolding Overlay.status
  status o path w = Overlay.status o.layers path w

  abbrev pub get_current_working_directory :
      ConcatenatedOverlayFileSystem W → W → Outcome (ErrorOr Bytes)
  get_current_working_directory o w = Overlay.get_current_working_directory o.layers w

  unfoldable pub set_current_working_directory :
      ConcatenatedOverlayFileSystem W → Bytes → W → Outcome (Option Errc × W)
  unfolding Overlay.set_current_working_directory
  set_current_working_directory o path w = Overlay.set_current_working_directory o.layers path w

  unfoldable pub push_overlay :
      ConcatenatedOverlayFileSystem W
      → FileSystem W
      → W
      → Outcome (ConcatenatedOverlayFileSystem W × W)
  unfolding Overlay.push_overlay
  push_overlay o fs w =
      Overlay.push_overlay o.layers fs w >>= λ (pushed, w'). ok (record o { layers = pushed }, w')

  -- `new_mem_buffer` is LLVM's `MemoryBuffer::getNewMemBuffer`. `uid` counts the ids.
  unfoldable pub open_file_for_read :
      ConcatenatedOverlayFileSystem W
      → (ℕ → Bytes)
      → Bytes
      → ℕ
      → W
      → Outcome (ErrorOr File × ConcatenatedOverlayFileSystem W × ℕ × W)
  unfolding total_size fill status
  open_file_for_read o new_mem_buffer path uid w = status o path w >>= λ found. elim found [
    | error e ↦ ok (error e, o, uid, w)
    | value s ↦ total_size (overlays o.layers) path 0 w >>= λ (size, w₁). elim size [
      | error e ↦ ok (error e, o, uid, w₁)
      | value n ↦ fill o.layers.fs_list path (new_mem_buffer n) 0 w₁ >>= λ (filled, w₂).
          elim filled [
            | error e ↦ ok (error e, o, uid, w₂)
            | value buffer ↦ ok (
              value (concatenated_file path s buffer uid),
              record o { cleanup = o.cleanup + 1 },
              (next_virtual_unique_id uid).1,
              w₂,
            )
          ]
    ]
  ]

  -- `ConcatenatedOverlayFSDirIterImpl`, which is `OverlayFSDirIterImpl` word for word.
  abbrev pub concatenated_increment :
      Paths → Bytes → W → ℕ → Bool → OverlayDirIter W → Outcome (Option Errc × OverlayDirIter W)
  unfolding increment_impl
  concatenated_increment paths path w fuel first it = increment_impl paths path w fuel first it

  abbrev pub concatenated_dir_begin :
      Paths
      → Bytes
      → W
      → ℕ
      → ConcatenatedOverlayFileSystem W
      → Outcome (Option Errc × OverlayDirIter W)
  unfolding begin_overlay_dir
  concatenated_dir_begin paths path w fuel o =
      begin_overlay_dir paths path w fuel (overlays o.layers)
