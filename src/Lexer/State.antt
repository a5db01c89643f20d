-- ===== src/Lexer/State.antt =====
-- lib/Lex/Lexer.cpp: the state of a lexer, its one character of lookahead, and the recording of
-- what it reads in the source manager.
pub mod Ahead
pub mod Kept
pub mod Halting
pub mod Lookahead
pub mod Recording
use u_lang.Prelude.{ℕ, Bytes, List, [], ltb, add32, sub32, ◌==◌, if◌then◌else◌}
use u_lang.Outcome
use u_lang.Outcome.{Outcome, ok}
use u_lang.Basic.SourceLocation.{SourceRange, SourceLocation, UniqueId, increment_column}
use u_lang.Basic.Stream.{Utf8}
use u_lang.Basic.Source.{Source, has_more, get}
use u_lang.Basic.SourceManager.{FileTable, add_character, get_or_insert_file_info, store_file_info}
use u_lang.Basic.DiagnosticIds.{DiagnosticId}
use u_lang.Basic.Diagnostic.{DiagnosticEngine, Argument, no_client, new_engine, diagnose}

pub record Lexer : Type 0 where
  pub source_manager : FileTable
  pub diags : DiagnosticEngine
  pub source : Source
  pub id : UniqueId
  pub file_name : Bytes
  pub file_path : Bytes
  pub source_range : SourceRange
  pub cur_char : ℕ
  pub next_char : ℕ
  pub cur_valid : ℕ

-- `Lexer(M, D, source)`; the other constructors make the manager or the engine. The two characters
-- start unset: `c` and `n` are what they hold.
abbrev pub new_lexer : FileTable → DiagnosticEngine → Source → ℕ → ℕ → Lexer
new_lexer manager diags source c n = record {
  source_manager = manager;
  diags = diags;
  source = source;
  id = source.id;
  file_name = source.file_name;
  file_path = source.file_path;
  source_range = record { begin = source.position; end = source.position };
  cur_char = c;
  next_char = n;
  cur_valid = 0;
}

-- `Lexer(D, source)`, with the manager that the engine holds.
abbrev pub lexer_of_engine : FileTable → DiagnosticEngine → Source → ℕ → ℕ → Lexer
lexer_of_engine manager_of_engine diags source c n = new_lexer manager_of_engine diags source c n

-- `Lexer(source)`: a manager of its own, and an engine without a consumer. `slots` is what the
-- engine's argument slots hold.
abbrev pub lexer_of_source : List Argument → Source → ℕ → ℕ → Lexer
lexer_of_source slots source c n = lexer_of_engine [] (new_engine no_client slots) source c n

-- A method reads and changes the lexer, and may throw.
abbrev pub M : Type 0 → Type 0
M A = Lexer → Outcome (A × Lexer)

abbrev pub pure : {A : Type 0} → A → M A
pure a l = ok (a, l)

infixl 5 ◌>>=◌ ◌>>◌
abbrev pub ◌>>=◌ : {A B : Type 0} → M A → (A → M B) → M B
◌>>=◌ m f l = Outcome.◌>>=◌ (m l) (λ r. f r.0 r.1)

abbrev pub ◌>>◌ : {A B : Type 0} → M A → M B → M B
m >> k = m >>= λ _. k

abbrev pub gets : {A : Type 0} → (Lexer → A) → M A
gets f l = ok (f l, l)

-- `Lexer::getLocation`.
abbrev pub location : Lexer → SourceLocation
location l = record {
  id = l.id;
  file_name = l.file_name;
  file_path = l.file_path;
  range = l.source_range;
}

abbrev pub advance_range : SourceRange → SourceRange
advance_range r = record { begin = increment_column r.begin; end = increment_column r.end }

-- `Diag(Loc, DiagID) << args`.
unfoldable pub diag : SourceLocation → DiagnosticId → List Argument → M (Unit {0})
diag loc id args l =
    Outcome.◌>>=◌ (diagnose loc id args l.diags) (λ e. ok (tt, record l { diags = e }))

module _ (utf8 : Utf8) where
  -- `GetChar`: the character also goes into the line that the source is at.
  unfoldable pub get_char : M ℕ
  get_char l =
      if has_more l.source
      then Outcome.◌>>=◌ (get utf8 l.source) (λ r.
        let entry = get_or_insert_file_info l.source_manager l.id l.file_name l.file_path in
        Outcome.◌>>=◌ (add_character entry.0 r.1.position.line r.0) (λ info.
          ok (r.0, record l { source = r.1; source_manager = store_file_info entry.1 info })))
      else ok (0, l)

  unfoldable pub next_char : M ℕ
  next_char l =
      let l' = record l { source_range = advance_range l.source_range } in
      if ltb 1 l.cur_valid
      then ok (l.next_char, record l' { cur_valid = sub32 l.cur_valid 1; cur_char = l.next_char })
      else Outcome.◌>>=◌ (get_char l') (λ r. ok (r.0, record r.1 { cur_char = r.0 }))

  -- `++curValid_` comes before the read.
  unfoldable pub peek_char : M ℕ
  peek_char l =
      if ltb 1 l.cur_valid
      then ok (l.next_char, l)
      else Outcome.◌>>=◌ (get_char (record l { cur_valid = add32 l.cur_valid 1 }))
          (λ r. ok (r.0, record r.1 { next_char = r.0 }))

  unfoldable pub cur_char : M ℕ
  cur_char l =
      if l.cur_valid == 0
      then Outcome.◌>>=◌ (next_char l)
          (λ r. ok (r.1.cur_char, record r.1 { cur_valid = add32 r.1.cur_valid 1 }))
      else ok (l.cur_char, l)
