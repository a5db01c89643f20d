-- ===== src/Basic/Diagnostic/Laws.antt =====
-- What one statement `Report(…) << …;` does to the engine.
use u_lang.Prelude.{
  ◌+◌, ◌≤◌, ◌<◌, ◌≡◌, ◌⊎◌, refl, ap, ◌∙◌, true, false, List, [], ◌∷◌, ◌++◌, append_assoc,
  append-nil, some, length, arith, Bool-cases, inl, inr, ltb,
}
use u_lang.Outcome.{ok, thrown, assertion}
use u_lang.Basic.SourceLocation.{SourceLocation}
use u_lang.Basic.DiagnosticIds.{
  num_diagnostics, DiagnosticId, DiagnosticInfo, mapping_get, is_idle_id,
}
use u_lang.Basic.Diagnostic.{
  Argument, DiagnosticEngine, DiagnosticBuilder, max_arguments, notify, report, set_argument,
  add_argument, add_arguments, emit_current_diagnostic, emit, diagnose,
}

set_argument-append :
    (before : List Argument) (a b : Argument) (after : List Argument)
    → set_argument (before ++ b ∷ after) (length before) a ≡ ok (before ++ a ∷ after)
unfolding set_argument
set_argument-append [] a b after = refl
set_argument-append (c ∷ before) a b after = rw (set_argument-append before a b after) refl

-- An active builder that has stored the arguments `before`, in front of other slots.
abbrev holding :
    List Argument → List Argument → DiagnosticEngine → DiagnosticBuilder × DiagnosticEngine
holding before after e = (
  record { num_args = length before; is_active = true; is_force_emit = false },
  record e { diag_arguments = before ++ after },
)

length-snoc :
    (before : List Argument) (a : Argument) → length (before ++ a ∷ []) ≡ length before + 1
length-snoc [] a = refl
length-snoc (b ∷ before) a = omega (arith, length-snoc before a)

add_argument-holding :
    (a b : Argument) (before after : List Argument) (e : DiagnosticEngine)
    → length before < 10
    → add_argument a (holding before (b ∷ after) e) ≡ ok (holding (before ++ a ∷ []) after e)
unfolding add_argument
add_argument-holding a b before after e h =
    let room : ltb (length before) max_arguments ≡ true = ground arith in
    rw room (
      rw (set_argument-append before a b after)
        (rw (length-snoc before a) (rw (append_assoc before (a ∷ []) after) refl)))

add_arguments-holding :
    (args before after : List Argument) (e : DiagnosticEngine)
    → length before + length args ≤ 10
    → length args ≤ length after
    → (rest : List Argument) × (add_arguments args (holding before after e)
        ≡ ok (holding (before ++ args) rest e))
unfolding add_arguments
add_arguments-holding [] before after e h k = (after, rw (append-nil before) refl)
add_arguments-holding (a ∷ args) before [] e h k = absurd (omega arith)
add_arguments-holding (a ∷ args) before (b ∷ after) e h k =
    let longer = length-snoc before a in
    let (rest, p) =
      add_arguments-holding args (before ++ a ∷ []) after e (omega arith) (omega arith) in
    (
      rest,
      rw (add_argument-holding a b before after e (omega arith))
          (p ∙ ap (λ t. ok (holding t rest e)) (append_assoc before (a ∷ []) args)),
    )

-- Behind the tenth argument an assertion fails.
add_arguments-thrown :
    (args before after : List Argument) (e : DiagnosticEngine)
    → length before ≤ 10
    → length before + length after ≡ 10
    → 10 < length before + length args
    → add_arguments args (holding before after e) ≡ thrown assertion
unfolding add_arguments
add_arguments-thrown [] before after e h k m = absurd (omega arith)
add_arguments-thrown (a ∷ args) before [] e h k m =
    let full : ltb (length before) max_arguments ≡ false = ground arith in
    unfold add_argument in rw full refl
add_arguments-thrown (a ∷ args) before (b ∷ after) e h k m =
    let longer = length-snoc before a in
    rw (add_argument-holding a b before after e (omega arith)) (
      add_arguments-thrown args (before ++ a ∷ []) after e (omega arith) (omega arith)
        (omega arith))

-- A diagnostic was emitted: the client was told of it once, with its severity, the engine holds its
-- location and its arguments in their order, and is free for the next.
pub record Emitted (loc : SourceLocation) (args : List Argument) (i : DiagnosticInfo)
    (e e' : DiagnosticEngine) : Type 0 where
  pub told : e'.client ≡ notify i.level e.client
  pub free : is_idle_id e'.cur_diag_id ≡ true
  pub at : e'.cur_diag_loc ≡ loc
  pub counted : e'.num_diag_args ≡ length args
  pub stored : (rest : List Argument) × (e'.diag_arguments ≡ args ++ rest)

-- The statement `Report(loc, id) << args…;` emits its diagnostic, where none is in flight, the
-- diagnostic is in the mapping, and there are slots for the arguments, of which ten are allowed.
pub diagnose-Emitted :
    (loc : SourceLocation) (id : DiagnosticId) (args : List Argument) (i : DiagnosticInfo)
    (e : DiagnosticEngine)
    → is_idle_id e.cur_diag_id ≡ true
    → mapping_get id ≡ some i
    → length args ≤ 10
    → length args ≤ length e.diag_arguments
    → (e' : DiagnosticEngine) × (diagnose loc id args e ≡ ok e') × Emitted loc args i e e'
unfolding diagnose report emit emit_current_diagnostic
diagnose-Emitted loc id args i e idle found few slots =
    let e1 = record e { cur_diag_loc = loc; cur_diag_id = id } in
    let (rest, p) = add_arguments-holding args [] e.diag_arguments e1 (omega arith) slots in
    (
      record e1 {
        client = notify i.level e.client;
        num_diag_args = length args;
        cur_diag_id = num_diagnostics;
        diag_arguments = args ++ rest;
      },
      rw idle (rw p (rw found refl)),
      record { told = refl; free = refl; at = refl; counted = refl; stored = (rest, refl) },
    )

-- With ten slots for arguments, the statement fails an assertion where a diagnostic is in flight,
-- and where it has more than ten arguments.
pub diagnose-thrown :
    (loc : SourceLocation) (id : DiagnosticId) (args : List Argument) (e : DiagnosticEngine)
    → length e.diag_arguments ≡ max_arguments
    → (is_idle_id e.cur_diag_id ≡ false) ⊎ (max_arguments < length args)
    → diagnose loc id args e ≡ thrown assertion
unfolding diagnose report
diagnose-thrown loc id args e slots (inl busy) = rw busy refl
diagnose-thrown loc id args e slots (inr many) = elim (Bool-cases (is_idle_id e.cur_diag_id)) [
  | inl idle ↦
      let e1 = record e { cur_diag_loc = loc; cur_diag_id = id } in
      rw idle (
        rw
          (add_arguments-thrown args [] e.diag_arguments e1 (omega arith) (omega arith)
            (omega arith))
          refl)
  | inr busy ↦ rw busy refl
]
