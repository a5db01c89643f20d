-- ===== src/Tests/Files.antt =====
-- The virtual file system at concrete inputs: paths, names, ids and files in memory.
use u_lang.Prelude.{
  ◌^◌, ◌-◌, ◌≢◌, bytes_eq, ℕ, ◌+◌, ◌≡◌, refl, Bool, true, false, ◌==◌, if◌then◌else◌, Bytes, codes,
  none, some, List, [], ◌∷◌, ◌++◌, arith,
}
use u_lang.Outcome.{Outcome, ok, ◌>>=◌}
use u_lang.Vfs.Status.{make_virtual_name, substr, ends_with_slash}
use u_lang.Vfs.Status.Names.{make_virtual_name-append}
use u_lang.Vfs.FileSystem.{Paths}
use u_lang.Vfs.Memory.{get_child, add_child, add_walk}
use u_lang.Vfs.Memory.System.{
  InMemoryFileSystem, new_memory, fix_path, add_file, open_file_for_read,
}
use u_lang.Vfs.Memory.Places.{place, names_eq}
use u_lang.Vfs.Status.Ids.{drawn_id, drawn_id-ne}
use u_lang.Vfs.Memory.Refinement.{opened, add_file-place}
use u_lang.Vfs.Memory.Replay.{Addition, add_files, replay, add_files-replay}

-- Paths of names between slashes.
abbrev split : Bytes → ℕ → Bytes → List (Bytes × ℕ)
split [] place name = (name, place) ∷ []
split (c ∷ cs) place name =
    let ends = split cs (place + 1) [] in
    let goes_on = split cs (place + 1) (name ++ c ∷ []) in
    if c == 47 then (name, place) ∷ ends else goes_on

abbrev last_name : Bytes → Bytes → Bytes
last_name [] name = name
last_name (c ∷ cs) name =
    let ends = last_name cs [] in
    let goes_on = last_name cs (name ++ c ∷ []) in if c == 47 then ends else goes_on

abbrev pub posix : Paths
posix = record {
  components = λ path. split path 0 [];
  is_absolute = λ path. elim path [ [] ↦ false | c ∷ cs ↦ c == 47 ];
  make_absolute = λ dir path. (none, dir ++ 47 ∷ path);
  remove_dots = λ path. path;
  append = λ a b. a ++ b;
  filename = λ path. last_name path [];
  remove_filename = λ path. path;
}

make_virtual_name-append_example :
    make_virtual_name (codes "/mnt" ++ 47 ∷ codes "src/m.u") (codes "/mnt") ≡ codes "m.u"
unfolding ends_with_slash substr
make_virtual_name-append_example = make_virtual_name-append (codes "/mnt") (codes "src/m.u") refl

drawn_id-ne_example : drawn_id (2 ^ 32 - 1) 0 ≢ drawn_id (2 ^ 32 - 1) 5
drawn_id-ne_example = drawn_id-ne (2 ^ 32 - 1) 0 5 (omega arith) (omega arith) (omega arith)

-- A new in-memory file system, and the one in which `/m.u` was added.
abbrev fresh_memory : InMemoryFileSystem
unfolding new_memory
fresh_memory = (new_memory true 0).0

abbrev memory_after : Outcome (Bool × InMemoryFileSystem × ℕ) → InMemoryFileSystem
memory_after (ok (added, m, uid)) = m
memory_after _ = fresh_memory

abbrev added_memory : InMemoryFileSystem
unfolding add_file fix_path add_walk get_child add_child bytes_eq fresh_memory
added_memory = memory_after (add_file posix fresh_memory (codes "/m.u") 0 (codes "a") 0)

-- The second text is not stored, and the third path is that of another file.
abbrev three_files : List Addition
three_files =
    record { path = codes "/m.u"; seconds = 0; text = codes "a" }
    ∷ record { path = codes "/m.u"; seconds = 0; text = codes "b" }
    ∷ record { path = codes "/d/n.u"; seconds = 0; text = codes "c" }
    ∷ []

abbrev three_added : InMemoryFileSystem
unfolding add_file fix_path add_walk get_child add_child bytes_eq fresh_memory
three_added = memory_after (add_file posix added_memory (codes "/d/n.u") 0 (codes "c") 2)

three_are_added :
    add_files posix three_files fresh_memory 0 ≡ ok (true ∷ false ∷ true ∷ [], three_added, 4)
unfolding add_files three_added added_memory
three_are_added = refl

-- The relative path is that of the first file.
add_files-replay_example :
    opened (open_file_for_read posix three_added (codes "m.u")) ≡ some (codes "a")
unfolding replay names_eq bytes_eq fix_path fresh_memory opened
add_files-replay_example =
    add_files-replay posix three_files fresh_memory three_added 0 4 (true ∷ false ∷ true ∷ [])
      (codes "m.u") (codes "/m.u") refl three_are_added

add_file-place_example :
    add_file posix added_memory (codes "/m.u/x") 0 (codes "b") 2 >>= (λ x. ok x.0) ≡ ok false
unfolding place added_memory
add_file-place_example =
    add_file-place posix added_memory (codes "/m.u/x") 47 (codes "m.u/x") 0 (codes "b") 2 refl
