-- ===== src/Vfs/FileManager/Sources.antt =====
-- lib/Basic/SourceManager.cpp: the text of the source that `getFile` returns.
use u_lang.Prelude.{ℕ, ◌+◌, ◌<◌, ◌^◌, ◌≡◌, Bytes, length, Option, some, List, ◌∷◌}
use u_lang.Outcome.{ok}
use u_lang.Basic.SourceLocation.{UniqueId}
use u_lang.Basic.Source.{memory_buffer_source}
use u_lang.Vfs.Status.{value, Status, next_virtual_unique_id}
use u_lang.Vfs.FileSystem.{Paths}
use u_lang.Vfs.Concatenated as Concatenated
use u_lang.Vfs.Concatenated.Contents.{HaveTexts, joined, open_file_for_read-joined}
use u_lang.Vfs.Real.{Os}
use u_lang.Vfs.FileManager.{World, FileManager, source_path, open_file_for_read, get_file}

source_path-name : (s : Status) (c : ℕ) (cs : Bytes) → s.name ≡ c ∷ cs → source_path s ≡ c ∷ cs
source_path-name s c cs h = rw h

module _ {D : Type 0} (os : Os (World D)) (paths : Paths) where
  -- Where the file manager's file systems have texts at a path that is not empty, as its
  -- concatenation needs them, `getFile` returns a source that reads the texts one behind the
  -- other, that of the lowest file system first, each with a line feed behind it, and is named
  -- after the path. One id is drawn, and one node is kept.
  pub get_file-joined :
      (fm : FileManager (World D)) (new_mem_buffer : ℕ → Bytes) (c : ℕ) (cs : Bytes) (w : World D)
      (s : Status) (texts : List (Option Bytes))
      → Concatenated.status fm.vfs (c ∷ cs) w ≡ ok (value s)
      → HaveTexts fm.vfs.layers.fs_list (c ∷ cs) w texts
      → length (joined texts) < 2 ^ 64
      → ((n : ℕ) → length (new_mem_buffer n) ≡ n)
      → (id : UniqueId) × (get_file os paths fm new_mem_buffer (c ∷ cs) w
          ≡ ok (
            some (
                memory_buffer_source paths.filename paths.remove_filename id
                  (c ∷ cs)
                  (joined texts)),
            record fm { vfs = record fm.vfs { cleanup = fm.vfs.cleanup + 1 } },
            record w { uid = (next_virtual_unique_id w.uid).1 },
          ))
  unfolding get_file open_file_for_read
  get_file-joined fm new_mem_buffer c cs w s texts found have small sized =
      let (made, opens, named, size, mtime, type, perms) =
        open_file_for_read-joined fm.vfs new_mem_buffer (c ∷ cs) w.uid w s texts found have small
          sized in
      (made.uid, rw (get_file, open_file_for_read, opens, source_path-name made c cs named))
