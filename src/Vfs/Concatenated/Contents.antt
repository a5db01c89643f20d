-- ===== src/Vfs/Concatenated/Contents.antt =====
-- lib/Basic/VirtualFileSystem.cpp, `ConcatenatedOverlayFileSystem::openFileForRead`: the text that
-- it makes of those of the layers.
use mathlib.Core.Path.{subst}
use mathlib.Core.List.{foldl}
use u_lang.Prelude.{
  ℕ, zero, suc, ◌%◌, ◌+◌, ◌<◌, ◌≤◌, ◌^◌, ◌≡◌, refl, sym, ◌∙◌, ap, Bytes, length, length-append,
  take, Option, none, some, List, [], ◌∷◌, ◌++◌, append_assoc, add64, arith,
}
use u_lang.Outcome.{ok}
use u_lang.Vfs.Status.{
  no_such_file_or_directory, value, error, Status, make_status, next_virtual_unique_id,
}
use u_lang.Vfs.FileSystem.{FileSystem, File}
use u_lang.Vfs.Memory.System.{open_memory_file}
use u_lang.Vfs.Concatenated.{
  first_bytes, ConcatenatedOverlayFileSystem, write_at, append_file, total_size, fill, status,
  open_file_for_read,
}

abbrev drop : ℕ → Bytes → Bytes
drop zero xs = xs
drop (suc n) [] = []
drop (suc n) (x ∷ xs) = drop n xs

length-drop : (n : ℕ) (xs : Bytes) → n ≤ length xs → n + length (drop n xs) ≡ length xs
length-drop zero xs h = omega arith
length-drop (suc n) [] h = omega (arith, h)
length-drop (suc n) (x ∷ xs) h = omega (arith, length-drop n xs (omega (arith, h)))

drop-suc : (n : ℕ) (xs : Bytes) → drop 1 (drop n xs) ≡ drop (suc n) xs
drop-suc zero xs = refl
drop-suc (suc n) [] = refl
drop-suc (suc n) (x ∷ xs) = drop-suc n xs

take-length : (xs : Bytes) → take (length xs) xs ≡ xs
take-length [] = refl
take-length (x ∷ xs) = ap (λ t. x ∷ t) (take-length xs)

first_bytes-length : (text : Bytes) → first_bytes (length text) text ≡ ok text
first_bytes-length text = ground (arith, take-length text)

-- A text is written over the bytes behind a beginning.
write_at-append :
    (start rest text : Bytes)
    → length text ≤ length rest
    → write_at (start ++ rest) (length start) text ≡ ok (start ++ text ++ drop (length text) rest)
unfolding write_at
write_at-append [] [] [] h = refl
write_at-append [] (r ∷ rest) [] h = refl
write_at-append [] [] (t ∷ text) h = ground (arith, h)
write_at-append [] (r ∷ rest) (t ∷ text) h = rw (write_at-append [] rest text (omega (arith, h)))
write_at-append (s ∷ start) rest text h = rw (write_at-append start rest text h)

-- The file's status gives the length of its text, and `getBuffer` the text.
abbrev pub Reads : File → Bytes → Bytes → Type 0
Reads file path text =
    (s : Status) × (file.status ≡ value s)
    × (s.size ≡ length text)
    × (file.get_buffer path (length text) ≡ value text)

append_file-Reads :
    (file : File) (path start rest text : Bytes)
    → Reads file path text
    → suc (length text) ≤ length rest
    → length start + suc (length text) < 2 ^ 64
    → append_file file path (start ++ rest) (length start)
      ≡ ok (
        (start ++ text ++ 10 ∷ []) ++ drop (suc (length text)) rest,
        length start + suc (length text),
      )
unfolding append_file
append_file-Reads file path start rest text (s, known, size, reads) fits small =
    let room = length-drop (length text) rest (omega (arith, fits)) in
    let second =
      write_at-append (start ++ text) (drop (length text) rest) (10 ∷ [])
        (omega (arith, fits, room)) in
    let wrapped : (length start + (length text + 1) % 2 ^ 64) % 2 ^ 64
        ≡ length start + suc (length text) =
      omega (arith, small) in
    rw (
      append_file,
      known,
      size,
      reads,
      first_bytes-length text,
      write_at-append start rest text (omega (arith, fits)),
      sym (length-append start text),
      second,
      drop-suc (length text) rest,
      wrapped,
    )

-- The texts of the layers, the lowest first, each with a line feed behind it.
unfoldable pub joined : List (Option Bytes) → Bytes
joined [] = []
joined (none ∷ texts) = joined texts
joined (some text ∷ texts) = text ++ 10 ∷ joined texts

append-joined :
    (start text rest : Bytes) → ((start ++ text) ++ 10 ∷ []) ++ rest ≡ start ++ (text ++ 10 ∷ rest)
append-joined start text rest =
    append_assoc (start ++ text) (10 ∷ []) rest ∙ append_assoc start text (10 ∷ rest)

empty_of_length : (xs : Bytes) → length xs ≡ 0 → xs ≡ []
empty_of_length [] h = refl
empty_of_length (x ∷ xs) h = absurd (omega (arith, h))

module _ {W : Type 0} where
  -- A layer has no such file, or one with the text; opening it changes no state.
  abbrev pub HasText : FileSystem W → Bytes → W → Option Bytes → Type 0
  HasText fs path w none = fs.open_file_for_read path w ≡ ok (error no_such_file_or_directory, w)
  HasText fs path w (some text) =
      (file : File) × (fs.open_file_for_read path w ≡ ok (value file, w)) × Reads file path text

  abbrev pub HaveTexts : List (FileSystem W) → Bytes → W → List (Option Bytes) → Type 0
  HaveTexts [] path w [] = Unit {0}
  HaveTexts (fs ∷ systems) path w (text ∷ texts) =
      HasText fs path w text × HaveTexts systems path w texts
  HaveTexts _ path w _ = ⊥

  fill-joined :
      (systems : List (FileSystem W)) (texts : List (Option Bytes)) (path start rest : Bytes)
      (w : W)
      → HaveTexts systems path w texts
      → length rest ≡ length (joined texts)
      → length start + length (joined texts) < 2 ^ 64
      → fill systems path (start ++ rest) (length start) w ≡ ok (value (start ++ joined texts), w)
  unfolding fill joined
  fill-joined [] [] path start rest w h fits small = rw (empty_of_length rest fits)
  fill-joined [] (t ∷ texts) path start rest w h fits small = absurd h
  fill-joined (fs ∷ systems) [] path start rest w h fits small = absurd h
  fill-joined (fs ∷ systems) (none ∷ texts) path start rest w h fits small =
      rw (fill, h.0) (fill-joined systems texts path start rest w h.1 fits small)
  fill-joined (fs ∷ systems) (some text ∷ texts) path start rest w ((file, opens, reads), h) fits
        small =
      let len = length-append text (10 ∷ joined texts) in
      let one =
        append_file-Reads file path start rest text reads (omega (arith, fits, len))
          (omega (arith, small, len)) in
      let start' = (start ++ text) ++ 10 ∷ [] in
      let len' : length start' ≡ length start + suc (length text) =
        omega (arith, length-append (start ++ text) (10 ∷ []), length-append start text) in
      let left = length-drop (suc (length text)) rest (omega (arith, fits, len)) in
      rw (fill, opens, one, sym len', sym (append-joined start text (joined texts)))
        (fill-joined systems texts path start' (drop (suc (length text)) rest) w h
          (omega (arith, left, fits, len)) (omega (arith, len', small, len)))

  -- What is added to the size by the systems, the topmost first.
  abbrev Sized : List (FileSystem W) → Bytes → W → ℕ → Type 0
  Sized systems path w n =
      (size : ℕ) → size + n < 2 ^ 64 → total_size systems path size w ≡ ok (value (size + n), w)

  total_size-joined :
      (systems below : List (FileSystem W)) (texts : List (Option Bytes)) (path : Bytes) (w : W)
      (n : ℕ)
      → HaveTexts systems path w texts
      → Sized below path w n
      → Sized (foldl (λ l fs. fs ∷ l) below systems) path w (n + length (joined texts))
  unfolding total_size joined
  total_size-joined [] below [] path w n h sized = subst (Sized below path w) (omega arith) sized
  total_size-joined [] below (t ∷ texts) path w n h sized = absurd h
  total_size-joined (fs ∷ systems) below [] path w n h sized = absurd h
  total_size-joined (fs ∷ systems) below (none ∷ texts) path w n h sized =
      total_size-joined systems (fs ∷ below) texts path w n h.1
        (λ size small. rw (total_size, h.0) (sized size small))
  total_size-joined (fs ∷ systems) below (some text ∷ texts) path w n
        ((file, opens, (s, known, len, reads)), h) sized =
      let more : Sized (fs ∷ below) path w (n + suc (length text)) = λ size small.
        let next : add64 size (add64 s.size 1) ≡ size + suc (length text) =
          omega (arith, small, len) in
        let sum : (size + suc (length text)) + n ≡ size + (n + suc (length text)) = omega arith in
        rw (total_size, opens, known, next, sym sum)
          (sized (size + suc (length text)) (omega (arith, small))) in
      subst (Sized (foldl (λ l f. f ∷ l) (fs ∷ below) systems) path w)
        (omega (arith, length-append text (10 ∷ joined texts)))
        (total_size-joined systems (fs ∷ below) texts path w (n + suc (length text)) h more)

  -- Where the path has a status, each layer has no file there or one whose status gives the
  -- length of its text, opening the path changes no state, the texts with their line feeds have
  -- fewer than 2^64 bytes, and `getNewMemBuffer` makes a buffer of the size that it is given, the
  -- concatenation opens on a file with the texts one behind the other, that of the lowest layer
  -- first, each with a line feed behind it; the file's status gives the path, that length and
  -- the time, type and permissions of the path's status. No write leaves the buffer, and one node is kept
  -- to be deleted at the end.
  pub open_file_for_read-joined :
      (o : ConcatenatedOverlayFileSystem W) (new_mem_buffer : ℕ → Bytes) (path : Bytes) (uid : ℕ)
      (w : W) (s : Status) (texts : List (Option Bytes))
      → status o path w ≡ ok (value s)
      → HaveTexts o.layers.fs_list path w texts
      → length (joined texts) < 2 ^ 64
      → ((n : ℕ) → length (new_mem_buffer n) ≡ n)
      → (made : Status) × (open_file_for_read o new_mem_buffer path uid w
          ≡ ok (
            value (open_memory_file made (joined texts)),
            record o { cleanup = o.cleanup + 1 },
            (next_virtual_unique_id uid).1,
            w,
          ))
        × (made.name ≡ path)
        × (made.size ≡ length (joined texts))
        × (made.mtime ≡ s.mtime)
        × (made.type ≡ s.type)
        × (made.perms ≡ s.perms)
  unfolding open_file_for_read total_size make_status
  open_file_for_read-joined o new_mem_buffer path uid w s texts found have small sized =
      let empty : Sized [] path w 0 = λ size h. ap (λ n. ok (value n, w)) (omega arith) in
      let total =
        total_size-joined o.layers.fs_list [] texts path w 0 have empty 0 (omega (arith, small)) in
      let filled =
        fill-joined o.layers.fs_list texts path [] (new_mem_buffer (length (joined texts))) w have
          (sized (length (joined texts))) (omega (arith, small)) in
      let sum : 0 + (0 + length (joined texts)) ≡ length (joined texts) = omega arith in
      let made =
        make_status path (next_virtual_unique_id uid).0 s.mtime 0 0 (length (joined texts)) s.type
          s.perms [] in
      (made, rw (open_file_for_read, found, total, sum, filled), refl, refl, refl, refl, refl)
