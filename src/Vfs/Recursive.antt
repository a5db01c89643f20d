-- ===== src/Vfs/Recursive.antt =====
-- lib/Basic/VirtualFileSystem.cpp: `recursive_directory_iterator`. `State` is the stack of the
-- iterators of the directories that it is in, the innermost first; none is the null pointer.
pub mod Preorder
use u_lang.Prelude.{ℕ, zero, suc, true, false, Bytes, Option, none, some, List, [], ◌∷◌, length}
use u_lang.Outcome.{Outcome, ok, thrown, assertion, no_fuel, ◌>>=◌}
use u_lang.Vfs.Status.{Errc, Status, is_directory, is_status_known}
use u_lang.Vfs.FileSystem.{DirIterator, ended, at, is_end, FileSystem}

abbrev pub IterState : Type 0
IterState = Option (List DirIterator)

-- `while (!State->empty() && State->top().increment(EC) == End) State->pop()`: the error code of
-- the last increment and the stack.
unfoldable pub pop_ended : Option Errc → List DirIterator → Outcome (Option Errc × List DirIterator)
pop_ended e [] = ok (e, [])
pop_ended e (ended ∷ below) = thrown assertion
pop_ended e (at s failed ended ∷ below) = pop_ended failed below
pop_ended e (at s failed (at t e' rest) ∷ below) = ok (failed, at t e' rest ∷ below)

abbrev pub reset_empty : List DirIterator → IterState
reset_empty [] = none
reset_empty (top ∷ below) = some (top ∷ below)

-- `level`.
abbrev pub level : IterState → Outcome ℕ
level none = thrown assertion
level (some []) = thrown assertion
level (some (top ∷ below)) = ok (length below)

module _ {W : Type 0} (fs : FileSystem W) (w : W) where
  unfoldable pub begin_recursive : Bytes → Outcome (Option Errc × IterState)
  begin_recursive path = fs.dir_begin path w >>= λ (e, begun). elim (is_end begun) [
    | true ↦ ok (e, none)
    | false ↦ ok (e, some (begun ∷ []))
  ]

  abbrev pub leave_entry : Option Errc → List DirIterator → Outcome (Option Errc × IterState)
  unfolding pop_ended
  leave_entry e stack = pop_ended e stack >>= λ (e', left). ok (e', reset_empty left)

  -- `increment`; `EC` is clear before the call.
  unfoldable pub increment_recursive : IterState → Outcome (Option Errc × IterState)
  unfolding leave_entry
  increment_recursive none = thrown assertion
  increment_recursive (some []) = thrown assertion
  increment_recursive (some (ended ∷ below)) = thrown assertion
  increment_recursive (some (at s failed rest ∷ below)) = elim (is_status_known s) [
    | false ↦ thrown assertion
    | true ↦ elim (is_directory s) [
      | false ↦ leave_entry none (at s failed rest ∷ below)
      | true ↦ fs.dir_begin s.virtual_name w >>= λ (e', begun). elim begun [
        | at t e'' more ↦ ok (e', some (at t e'' more ∷ at s failed rest ∷ below))
        | ended ↦ leave_entry e' (at s failed rest ∷ below)
      ]
    ]
  ]

  -- A client's loop from `begin` to the end, that does not look at the error codes: the entries
  -- that it is shown.
  unfoldable pub walk : ℕ → IterState → Outcome (List Status)
  unfolding increment_recursive
  walk zero state = no_fuel
  walk (suc fuel) none = ok []
  walk (suc fuel) (some []) = thrown assertion
  walk (suc fuel) (some (ended ∷ below)) = thrown assertion
  walk (suc fuel) (some (at s e rest ∷ below)) =
      increment_recursive (some (at s e rest ∷ below)) >>= λ (e', state).
      walk fuel state >>= λ shown. ok (s ∷ shown)

  unfoldable pub list_recursive : ℕ → Bytes → Outcome (List Status)
  unfolding begin_recursive walk
  list_recursive fuel path = begin_recursive path >>= λ (e, state). walk fuel state
