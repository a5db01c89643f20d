-- ===== src/Basic/Diagnostic.antt =====
-- include/u-lang/Basic/Diagnostic.hpp and lib/Basic/Diagnostic.cpp: the engine that holds the one
-- diagnostic in flight, the builder that collects its arguments and the consumer that counts.
pub mod Laws
pub mod Halting
use u_lang.Prelude.{
  ℕ, zero, suc, Bool, true, false, List, [], ◌∷◌, Bytes, Option, none, some, add32, ltb, ◌+◌,
  if◌then◌else◌,
}
use u_lang.Outcome.{Outcome, ok, thrown, assertion, out_of_bounds, ◌>>=◌}
use u_lang.Basic.SourceLocation.{SourceLocation, no_location}
use u_lang.Basic.TokenKinds.{TokenKind}
use u_lang.Basic.DiagnosticIds.{
  Severity, fatal, error, warning, DiagnosticId, num_diagnostics, DiagnosticInfo, mapping_get,
  is_idle_id,
}

-- One argument: its kind and its value. An `int` is its 32-bit pattern; a null `const char*` is
-- `none`.
pub data Argument : Type 0 where
  std_string : Bytes → Argument
  c_string : Option Bytes → Argument
  sint : ℕ → Argument
  uint : ℕ → Argument
  token_kind : TokenKind → Argument

pub record DiagnosticConsumer : Type 0 where
  pub num_warnings : ℕ
  pub num_errors : ℕ

abbrev pub clear : DiagnosticConsumer → DiagnosticConsumer
clear c = record { num_warnings = 0; num_errors = 0 }

-- `DiagnosticConsumer::HandleDiagnostic`; the default `IncludeInDiagnosticCounts` is true.
unfoldable pub handle_diagnostic : Severity → DiagnosticConsumer → DiagnosticConsumer
handle_diagnostic warning c = record c { num_warnings = add32 c.num_warnings 1 }
handle_diagnostic error c = record c { num_errors = add32 c.num_errors 1 }
handle_diagnostic fatal c = record c { num_errors = add32 c.num_errors 1 }
handle_diagnostic _ c = c

-- The client of an engine: none, one that counts, or an `IgnoringDiagConsumer`.
pub data Client : Type 0 where
  no_client : Client
  counting ignoring : DiagnosticConsumer → Client

abbrev pub max_arguments : ℕ
max_arguments = 10

pub record DiagnosticEngine : Type 0 where
  pub client : Client
  pub cur_diag_loc : SourceLocation
  pub cur_diag_id : DiagnosticId
  pub num_diag_args : ℕ
  pub diag_arguments : List Argument

-- `DiagnosticEngine(M, consumer)`. The argument slots start unset; `slots` is what they hold.
abbrev pub new_engine : Client → List Argument → DiagnosticEngine
new_engine client slots = record {
  client = client;
  cur_diag_loc = no_location;
  cur_diag_id = num_diagnostics;
  num_diag_args = 0;
  diag_arguments = slots;
}

pub record DiagnosticBuilder : Type 0 where
  pub num_args : ℕ
  pub is_active : Bool
  pub is_force_emit : Bool

-- `getEmpty`: a builder of no engine.
abbrev pub empty_builder : DiagnosticBuilder
empty_builder = record { num_args = 0; is_active = false; is_force_emit = false }

-- `Clear`; the pointer to the engine, which an inactive builder does not follow, is left out.
abbrev pub clear_builder : DiagnosticBuilder → DiagnosticBuilder
clear_builder b = record b { is_active = false; is_force_emit = false }

-- `setForceEmit`.
abbrev pub set_force_emit : DiagnosticBuilder → DiagnosticBuilder
set_force_emit b = record b { is_force_emit = true }

-- `Report(Loc, DiagID)`.
unfoldable pub report :
    SourceLocation
    → DiagnosticId
    → DiagnosticEngine
    → Outcome (DiagnosticBuilder × DiagnosticEngine)
report loc id e =
    if is_idle_id e.cur_diag_id
    then ok (
      record { num_args = 0; is_active = true; is_force_emit = false },
      record e { cur_diag_loc = loc; cur_diag_id = id },
    )
    else thrown assertion

-- `Report(DiagID)`.
abbrev pub report_nowhere :
    DiagnosticId → DiagnosticEngine → Outcome (DiagnosticBuilder × DiagnosticEngine)
unfolding report
report_nowhere id e = report no_location id e

unfoldable pub set_argument : List Argument → ℕ → Argument → Outcome (List Argument)
set_argument [] i a = thrown out_of_bounds
set_argument (b ∷ slots) zero a = ok (a ∷ slots)
set_argument (b ∷ slots) (suc i) a = do rest ← set_argument slots i a; ok (b ∷ rest)

-- `AddString` and `AddTaggedVal`, behind each `operator<<`.
unfoldable pub add_argument :
    Argument → DiagnosticBuilder × DiagnosticEngine → Outcome (DiagnosticBuilder × DiagnosticEngine)
unfolding set_argument
add_argument a (b, e) =
    if b.is_active
    then (if ltb b.num_args max_arguments
        then (do
          slots ← set_argument e.diag_arguments b.num_args a
          ok (record b { num_args = b.num_args + 1 }, record e { diag_arguments = slots }))
        else thrown assertion)
    else thrown assertion

abbrev pub notify : Severity → Client → Client
notify s no_client = no_client
notify s (counting c) = counting (handle_diagnostic s c)
notify s (ignoring c) = ignoring c

abbrev emit_info : Option DiagnosticInfo → DiagnosticEngine → Outcome DiagnosticEngine
emit_info none e = thrown assertion
emit_info (some i) e =
    ok (record e { client = notify i.level e.client; cur_diag_id = num_diagnostics })

-- `EmitCurrentDiagnostic`, which does not look whether the diagnostic is forced.
unfoldable pub emit_current_diagnostic : Bool → DiagnosticEngine → Outcome DiagnosticEngine
unfolding mapping_get handle_diagnostic
emit_current_diagnostic force e = emit_info (mapping_get e.cur_diag_id) e

-- `Emit`, called by the destructor: an inactive builder does nothing.
unfoldable pub emit :
    DiagnosticBuilder × DiagnosticEngine → Outcome (Bool × DiagnosticBuilder × DiagnosticEngine)
unfolding emit_current_diagnostic
emit (b, e) =
    if b.is_active
    then (do
      e' ← emit_current_diagnostic b.is_force_emit (record e { num_diag_args = b.num_args })
      ok (true, clear_builder b, e'))
    else ok (false, b, e)

-- The copy constructor takes the diagnostic over: the copy, and what is left of the original.
unfoldable pub copy_builder : DiagnosticBuilder → DiagnosticBuilder × DiagnosticBuilder
copy_builder d = (d, clear_builder d)

unfoldable pub add_arguments :
    List Argument
    → DiagnosticBuilder × DiagnosticEngine
    → Outcome (DiagnosticBuilder × DiagnosticEngine)
unfolding add_argument
add_arguments [] d = ok d
add_arguments (a ∷ args) d = do d' ← add_argument a d; add_arguments args d'

-- `Report(w, id) << a << …;` as a statement: `Report` returns by value, the builder is destroyed at
-- the end of the statement and emits.
unfoldable pub diagnose :
    SourceLocation → DiagnosticId → List Argument → DiagnosticEngine → Outcome DiagnosticEngine
unfolding report add_arguments emit
diagnose loc id args e = do d ← report loc id e; d' ← add_arguments args d; r ← emit d'; ok r.2
