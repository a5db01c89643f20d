-- ===== src/Vfs/Memory/Places.antt =====
-- lib/Basic/VirtualFileSystem.cpp, `InMemoryFileSystem`: what there is at a path of its tree.
use mathlib.Core.Path.{subst}
use u_lang.Prelude.{
  ℕ, ◌≡◌, refl, sym, ap, ◌∙◌, inl, inr, Bool, true, false, ◌&&◌, if◌then◌else◌, Bool-cases, Bytes,
  bytes_eq, bytes_eq_iff, Option, none, some, List, [], ◌∷◌, arith,
}
use u_lang.Vfs.Status.{Status}
use u_lang.Vfs.Memory.{
  Node, file, directory, Entries, no_entries, entry, get_child, add_child, set_child,
}

-- What there is at a path: nothing, so that it may be added; a file; a directory; or nothing, and
-- a file on the way to it.
pub data Place : Type 0 where
  free blocked folder : Place
  taken : Bytes → Place

unfoldable pub place : Entries → List Bytes → Place
unfolding get_child
place dir [] = folder
place dir (name ∷ rest) = elim (get_child dir name) [
  | none ↦ free
  | some (directory s children) ↦ place children rest
  | some (file s content) ↦ elim rest [ [] ↦ taken content | _ ∷ _ ↦ blocked ]
]

-- The text of the file at a path.
unfoldable pub text_at : Entries → List Bytes → Option Bytes
unfolding place
text_at dir names = elim (place dir names) [ taken content ↦ some content | _ ↦ none ]

abbrev pub names : List (Bytes × ℕ) → List Bytes
names [] = []
names ((name, stop) ∷ rest) = name ∷ names rest

unfoldable pub names_eq : List Bytes → List Bytes → Bool
unfolding bytes_eq
names_eq [] [] = true
names_eq (x ∷ xs) (y ∷ ys) = bytes_eq x y && names_eq xs ys
names_eq _ _ = false

-- A name that was free holds the node that was added, and every other what it held.
pub get_child-add_child :
    (dir : Entries) (name key : Bytes) (node : Node)
    → get_child dir name ≡ none
    → get_child (add_child dir name node) key
      ≡ (if bytes_eq name key then some node else get_child dir key)
unfolding get_child add_child
get_child-add_child no_entries name key node h = refl
get_child-add_child (entry k n rest) name key node h = ground (
  arith,
  get_child-add_child rest name key node,
  bytes_eq_iff k name,
  bytes_eq_iff k key,
  bytes_eq_iff name key,
)

pub get_child-set_child :
    (dir : Entries) (name key : Bytes) (old node : Node)
    → get_child dir name ≡ some old
    → get_child (set_child dir name node) key
      ≡ (if bytes_eq name key then some node else get_child dir key)
unfolding get_child set_child
get_child-set_child no_entries name key old node h = absurd (cc h)
get_child-set_child (entry k n rest) name key old node h = ground (
  arith,
  get_child-set_child rest name key old node,
  bytes_eq_iff k name,
  bytes_eq_iff k key,
  bytes_eq_iff name key,
)

pub text_at-free :
    (dir : Entries) (name : Bytes) (keys : List Bytes)
    → get_child dir name ≡ none
    → text_at dir (name ∷ keys) ≡ text_at no_entries keys
unfolding text_at get_child
text_at-free dir name [] h = rw (text_at, place, h)
text_at-free dir name (k ∷ keys) h = rw (text_at, place, h)

pub text_at-directory :
    (dir : Entries) (name : Bytes) (keys : List Bytes) (s : Status) (children : Entries)
    → get_child dir name ≡ some (directory s children)
    → text_at dir (name ∷ keys) ≡ text_at children keys
unfolding text_at
text_at-directory dir name keys s children h = rw (text_at, place, h)

text_at-get_child :
    (dir left : Entries) (key : Bytes) (keys : List Bytes)
    → get_child left key ≡ get_child dir key
    → text_at left (key ∷ keys) ≡ text_at dir (key ∷ keys)
unfolding text_at place
text_at-get_child dir left key keys h = rw (text_at, place, h)

-- What is true of the texts in a directory is true of them in the one that holds it, under the
-- directory's name.
pub text_at-descend :
    (dir left below made : Entries) (name key : Bytes) (s : Status) (added : Bool)
    (rest keys : List Bytes) (buffer : Bytes)
    → get_child left key
      ≡ (if bytes_eq name key then some (directory s made) else get_child dir key)
    → text_at dir (name ∷ keys) ≡ text_at below keys
    → text_at made keys ≡ (if added && names_eq rest keys then some buffer else text_at below keys)
    → text_at left (key ∷ keys) ≡ (
        if added && (bytes_eq name key && names_eq rest keys)
        then some buffer
        else text_at dir (key ∷ keys))
text_at-descend dir left below made name key s added rest keys buffer h k deeper =
    elim (Bool-cases (bytes_eq name key)) [
      | inl same ↦
          let e = (bytes_eq_iff name key).0 same in
          let held : get_child left key ≡ some (directory s made) = rw same at h in
          let k' = subst (λ n. text_at dir (n ∷ keys) ≡ text_at below keys) e k in
          rw same (
            text_at-directory left key keys s made held
            ∙ deeper
            ∙ ap (λ t. if added && names_eq rest keys then some buffer else t) (sym k'))
      | inr other ↦ ground (arith, other, text_at-get_child dir left key keys (rw other at h))
    ]
