-- ===== src/Vfs/Recursive/Preorder.antt =====
-- lib/Basic/VirtualFileSystem.cpp, `recursive_directory_iterator`: the order in which it shows a
-- directory tree.
use mathlib.Core.Path.{subst}
use u_lang.Prelude.{
  ℕ, zero, suc, ◌<◌, ◌≡◌, refl, sym, ap, inl, inr, true, false, Bool-cases, Bytes, Option, none,
  some, length, List, [], ◌∷◌, ◌++◌, append_assoc, append-nil, arith,
}
use u_lang.Outcome.{ok}
use u_lang.Vfs.Status.{Errc, Status, is_directory, is_status_known}
use u_lang.Vfs.FileSystem.{DirIterator, ended, at, FileSystem}
use u_lang.Vfs.Recursive.{
  pop_ended, reset_empty, leave_entry, begin_recursive, increment_recursive, walk, list_recursive,
}

mutual
  -- An entry of a directory, with what is in it.
  pub data Tree : Type 0 where
    node : Status → Forest → Tree

  -- The entries of a directory, in the order of its iterator.
  pub data Forest : Type 0 where
    bare : Forest
    grow : Tree → Forest → Forest

-- Each entry before what is in it, and that before the next entry.
abbrev pub preorder : Forest → List Status
preorder bare = []
preorder (grow (node s children) rest) = s ∷ (preorder children ++ preorder rest)

-- An iterator passes the entries of a directory; its increments may fail.
abbrev pub Iterates : DirIterator → Forest → Type 0
Iterates ended bare = Unit {0}
Iterates (at s e rest) (grow (node t children) forest) = (s ≡ t) × Iterates rest forest
Iterates _ _ = ⊥

abbrev flatten_all : List Forest → List Status
flatten_all [] = []
flatten_all (forest ∷ forests) = preorder forest ++ flatten_all forests

module _ {W : Type 0} (fs : FileSystem W) (w : W) where
  -- What is in an entry: nothing, if it is no directory.
  abbrev pub Contains : Status → Forest → Type 0
  Contains s children = elim (is_directory s) [
    | false ↦ children ≡ bare
    | true ↦
        (e : Option Errc) × (begun : DirIterator) × (fs.dir_begin s.virtual_name w ≡ ok (e, begun))
        × Iterates begun children
  ]

  -- The file system has the tree.
  abbrev pub Describes : Forest → Type 0
  Describes bare = Unit {0}
  Describes (grow (node s children) rest) =
      (is_status_known s ≡ true) × Contains s children × Describes children × Describes rest

  -- Each iterator of the stack is at an entry that was entered or passed, before a forest.
  abbrev Waits : List DirIterator → List Forest → Type 0
  Waits [] [] = Unit {0}
  Waits (at s e rest ∷ below) (forest ∷ forests) =
      Iterates rest forest × Describes forest × Waits below forests
  Waits _ _ = ⊥

  -- The top of the stack is at the first of the entries that are left; an empty one is at none.
  Stands : List DirIterator → List Status → Type 0
  Stands [] pending = pending ≡ []
  Stands (ended ∷ below) pending = ⊥
  Stands (at s e rest ∷ below) pending =
      (children : Forest) × (forest : Forest) × (forests : List Forest) × (is_status_known s ≡ true)
      × Contains s children
      × Describes children
      × Waits (at s e rest ∷ below) (forest ∷ forests)
      × (pending ≡ s ∷ (preorder children ++ (preorder forest ++ flatten_all forests)))

  -- An iterator that begins a forest, over the others.
  Stands-grow :
      (s t : Status) (e : Option Errc) (rest : DirIterator) (below : List DirIterator)
      (children forest : Forest) (forests : List Forest)
      → Iterates (at s e rest) (grow (node t children) forest)
      → Describes (grow (node t children) forest)
      → Waits below forests
      → Stands (at s e rest ∷ below) (flatten_all (grow (node t children) forest ∷ forests))
  unfolding Stands
  Stands-grow s t e rest below children forest forests (same, iterates)
        (known, contains, inner, outer) waits =
      (
        children,
        forest,
        forests,
        subst (λ x. is_status_known x ≡ true) (sym same) known,
        subst (λ x. Contains x children) (sym same) contains,
        inner,
        (iterates, outer, waits),
        rw same (
            ap (λ l. t ∷ l)
              (append_assoc (preorder children) (preorder forest) (flatten_all forests))),
      )

  pop_ended-Stands :
      (e₀ : Option Errc) (stack : List DirIterator) (forests : List Forest)
      → Waits stack forests
      → (e : Option Errc) × (left : List DirIterator) × (pop_ended e₀ stack ≡ ok (e, left))
        × Stands left (flatten_all forests)
  unfolding pop_ended Stands
  pop_ended-Stands e₀ [] [] h = (e₀, [], refl, refl)
  pop_ended-Stands e₀ [] (forest ∷ forests) h = absurd h
  pop_ended-Stands e₀ (ended ∷ below) [] h = absurd h
  pop_ended-Stands e₀ (at s e rest ∷ below) [] h = absurd h
  pop_ended-Stands e₀ (ended ∷ below) (forest ∷ forests) h = absurd h
  pop_ended-Stands e₀ (at s e ended ∷ below) (bare ∷ forests) (iterates, described, waits) =
      pop_ended-Stands e below forests waits
  pop_ended-Stands e₀ (at s e ended ∷ below) (grow t rest ∷ forests) h = absurd h.0
  pop_ended-Stands e₀ (at s e (at t e' rest) ∷ below) (bare ∷ forests) h = absurd h.0
  pop_ended-Stands e₀ (at s e (at t e' rest) ∷ below) (grow (node t' children) forest ∷ forests)
        (iterates, described, waits) =
      (
        e,
        at t e' rest ∷ below,
        refl,
        Stands-grow t t' e' rest below children forest forests iterates described waits,
      )

  -- At a directory, `increment` goes to the first of its entries, or behind it.
  increment_recursive-directory :
      (s : Status) (e : Option Errc) (rest : DirIterator) (below : List DirIterator)
      (forests : List Forest) (e₁ : Option Errc) (begun : DirIterator) (children : Forest)
      → is_status_known s ≡ true
      → is_directory s ≡ true
      → fs.dir_begin s.virtual_name w ≡ ok (e₁, begun)
      → Iterates begun children
      → Describes children
      → Waits (at s e rest ∷ below) forests
      → (e' : Option Errc) × (left : List DirIterator) × (increment_recursive fs w
            (some (at s e rest ∷ below))
          ≡ ok (e', reset_empty left))
        × Stands left (flatten_all (children ∷ forests))
  unfolding increment_recursive leave_entry
  increment_recursive-directory s e rest below forests e₁ ended bare known folder begins it inner
        waits =
      let (e', left, pops, stands) = pop_ended-Stands e₁ (at s e rest ∷ below) forests waits in
      (e', left, rw (increment_recursive, known, folder, begins, pops), stands)
  increment_recursive-directory s e rest below forests e₁ ended (grow t more) known folder begins it
        inner waits =
      absurd it
  increment_recursive-directory s e rest below forests e₁ (at t e'' more) bare known folder begins
        it inner waits =
      absurd it
  increment_recursive-directory s e rest below forests e₁ (at t e₂ more)
        (grow (node t' children) forest) known folder begins it inner waits =
      (
        e₁,
        at t e₂ more ∷ at s e rest ∷ below,
        rw (increment_recursive, known, folder, begins),
        Stands-grow t t' e₂ more (at s e rest ∷ below) children forest forests it inner waits,
      )

  -- A call of `increment` at an entry goes on to what is behind it.
  increment_recursive-Stands :
      (s : Status) (e : Option Errc) (rest : DirIterator) (below : List DirIterator)
      (pending : List Status)
      → Stands (at s e rest ∷ below) pending
      → (e' : Option Errc) × (left : List DirIterator) × (later : List Status)
        × (increment_recursive fs w (some (at s e rest ∷ below)) ≡ ok (e', reset_empty left))
        × (pending ≡ s ∷ later)
        × Stands left later
  unfolding increment_recursive leave_entry Stands
  increment_recursive-Stands s e rest below pending
        (children, forest, forests, known, contains, inner, waits, order) =
      elim (Bool-cases (is_directory s)) [
        | inl folder ↦
            let (e₁, begun, begins, iterates) = rw (Contains, folder) at contains in
            let (e', left, moves, stands) =
              increment_recursive-directory s e rest below (forest ∷ forests) e₁ begun children
                known folder begins iterates inner waits in
            (e', left, flatten_all (children ∷ forest ∷ forests), moves, order, stands)
        | inr plain ↦
            let (e', left, pops, stands) =
              pop_ended-Stands none (at s e rest ∷ below) (forest ∷ forests) waits in
            let none_in : children ≡ bare = rw (Contains, plain) at contains in
            (
              e',
              left,
              flatten_all (forest ∷ forests),
              rw (increment_recursive, known, plain, pops),
              rw none_in at order,
              stands,
            )
      ]

  walk-Stands :
      (fuel : ℕ) (left : List DirIterator) (pending : List Status)
      → length pending < fuel
      → Stands left pending
      → walk fs w fuel (reset_empty left) ≡ ok pending
  unfolding walk Stands
  walk-Stands zero left pending bound h = absurd (omega (arith, bound))
  walk-Stands (suc fuel) [] pending bound h = ap ok (sym h)
  walk-Stands (suc fuel) (ended ∷ below) pending bound h = absurd h
  walk-Stands (suc fuel) (at s e rest ∷ below) pending bound h =
      let (e', left, later, moves, split, stands) =
        increment_recursive-Stands s e rest below pending h in
      rw
        (
          walk,
          moves,
          walk-Stands fuel left later (omega (arith, bound, ap (λ l. length l) split)) stands,
        )
        (ap ok (sym split))

  -- Where the file system has a directory at the path that holds a tree, a client's loop with a
  -- recursive iterator ends, and is shown each entry of the tree, a directory before what is in
  -- it, and that before the directory's next neighbour. More rounds than entries are enough.
  pub list_recursive-preorder :
      (fuel : ℕ) (path : Bytes) (e : Option Errc) (begun : DirIterator) (forest : Forest)
      → fs.dir_begin path w ≡ ok (e, begun)
      → Iterates begun forest
      → Describes forest
      → length (preorder forest) < fuel
      → list_recursive fs w fuel path ≡ ok (preorder forest)
  unfolding list_recursive begin_recursive Stands
  list_recursive-preorder fuel path e ended bare begins it described bound =
      rw (list_recursive, begins) (walk-Stands fuel [] [] bound refl)
  list_recursive-preorder fuel path e ended (grow t forest) begins it described bound = absurd it
  list_recursive-preorder fuel path e (at s e' rest) bare begins it described bound = absurd it
  list_recursive-preorder fuel path e (at s e' rest) (grow (node t children) forest) begins it
        described bound =
      rw (list_recursive, begins)
        (walk-Stands fuel (at s e' rest ∷ []) (preorder (grow (node t children) forest)) bound (
          rw (sym (append-nil (preorder (grow (node t children) forest))))
            (Stands-grow s t e' rest [] children forest [] it described tt)))
