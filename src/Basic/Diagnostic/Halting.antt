-- ===== src/Basic/Diagnostic/Halting.antt =====
-- A report always comes to an end.
use u_lang.Prelude.{
  ℕ, zero, suc, Bool, true, false, ◌≢◌, List, [], ◌∷◌, Option, none, some, if◌then◌else◌, ltb,
}
use u_lang.Outcome.{Outcome, no_fuel, >>=-ne-no_fuel}
use u_lang.Basic.SourceLocation.{SourceLocation}
use u_lang.Basic.DiagnosticIds.{DiagnosticId, mapping_get, is_idle_id, DiagnosticInfo}
use u_lang.Basic.Diagnostic.{
  Argument, DiagnosticEngine, DiagnosticBuilder, report, set_argument, add_argument, add_arguments,
  emit_info, max_arguments, emit_current_diagnostic, emit, diagnose,
}

if-ne-no_fuel :
    {A : Type 0} (b : Bool) (m n : Outcome A)
    → m ≢ no_fuel
    → n ≢ no_fuel
    → (if b then m else n) ≢ no_fuel
if-ne-no_fuel true m n h j = h
if-ne-no_fuel false m n h j = j

set_argument-ne-no_fuel :
    (slots : List Argument) (i : ℕ) (a : Argument) → set_argument slots i a ≢ no_fuel
unfolding set_argument
set_argument-ne-no_fuel [] i a e = cc e
set_argument-ne-no_fuel (b ∷ slots) zero a e = cc e
set_argument-ne-no_fuel (b ∷ slots) (suc i) a e =
    >>=-ne-no_fuel (set_argument slots i a) _ (set_argument-ne-no_fuel slots i a) (λ rest h. cc h) e

add_argument-ne-no_fuel :
    (a : Argument) (d : DiagnosticBuilder × DiagnosticEngine) → add_argument a d ≢ no_fuel
unfolding add_argument
add_argument-ne-no_fuel a (b, e) =
    if-ne-no_fuel b.is_active _ _
      (if-ne-no_fuel (ltb b.num_args max_arguments) _ _
        (>>=-ne-no_fuel (set_argument e.diag_arguments b.num_args a) _
          (set_argument-ne-no_fuel e.diag_arguments b.num_args a) λ slots h. cc h)
        λ h. cc h)
      λ h. cc h

add_arguments-ne-no_fuel :
    (args : List Argument) (d : DiagnosticBuilder × DiagnosticEngine)
    → add_arguments args d ≢ no_fuel
unfolding add_arguments
add_arguments-ne-no_fuel [] d h = cc h
add_arguments-ne-no_fuel (a ∷ args) d h =
    >>=-ne-no_fuel (add_argument a d) _ (add_argument-ne-no_fuel a d)
      (λ d'. add_arguments-ne-no_fuel args d') h

emit_info-ne-no_fuel : (i : Option DiagnosticInfo) (e : DiagnosticEngine) → emit_info i e ≢ no_fuel
emit_info-ne-no_fuel none e h = cc h
emit_info-ne-no_fuel (some i) e h = cc h

emit-ne-no_fuel : (d : DiagnosticBuilder × DiagnosticEngine) → emit d ≢ no_fuel
unfolding emit emit_current_diagnostic
emit-ne-no_fuel (b, e) =
    if-ne-no_fuel b.is_active _ _
      (>>=-ne-no_fuel
        (emit_info (mapping_get e.cur_diag_id) (record e { num_diag_args = b.num_args })) _
        (emit_info-ne-no_fuel (mapping_get e.cur_diag_id) (record e { num_diag_args = b.num_args }))
        λ e' h. cc h)
      λ h. cc h

pub diagnose-ne-no_fuel :
    (loc : SourceLocation) (id : DiagnosticId) (args : List Argument) (e : DiagnosticEngine)
    → diagnose loc id args e ≢ no_fuel
unfolding diagnose report
diagnose-ne-no_fuel loc id args e =
    >>=-ne-no_fuel (report loc id e) _
      (if-ne-no_fuel (is_idle_id e.cur_diag_id) _ _ (λ h. cc h) (λ h. cc h))
      λ d.
        >>=-ne-no_fuel (add_arguments args d) _ (add_arguments-ne-no_fuel args d)
          λ d'. >>=-ne-no_fuel (emit d') _ (emit-ne-no_fuel d') λ r h. cc h
