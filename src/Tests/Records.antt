-- ===== src/Tests/Records.antt =====
-- The theorems on what is recorded and reported, at concrete inputs.
use u_lang.Prelude.{◌≡◌, refl, false, [], ◌∷◌, Bytes, codes, arith, replicate, inr}
use u_lang.Outcome.{ok, thrown, assertion}
use u_lang.Basic.SourceLocation.{UniqueId, no_location, no_id}
use u_lang.Basic.Source.{Source, get, start_line, check_bom, skip_returns}
use u_lang.Basic.SourceManager.{new_file_info, has_key}
use u_lang.Basic.SourceManager.Laws.{Added}
use u_lang.Basic.DiagnosticIds.{DiagnosticInfo, apreal_overflow, fatal, mapping_get}
use u_lang.Basic.Diagnostic.{DiagnosticEngine, std_string, uint, diagnose}
use u_lang.Basic.Diagnostic.Laws.{Emitted, diagnose-Emitted, diagnose-thrown}
use u_lang.Lexer.State.Lookahead.{peek_char-next_char}
use u_lang.Lexer.State.{◌>>=◌, peek_char, next_char, Lexer, get_char}
use u_lang.Lexer.State.Recording.{entry, get_char-Added}
use u_lang.Ascii.{ascii, some_engine, lexer_over}

abbrev overflow_info : DiagnosticInfo
overflow_info = record {
  level = fatal;
  component = codes "Lexer";
  id = apreal_overflow;
  title = codes "Arbitrary Precision Real Overflow Exception";
  message =
      codes
        "The real number %0 overflowed the maximum arbitrary precision offered by this compiler.";
}

diagnose-Emitted_example :
    (e' : DiagnosticEngine) × (diagnose no_location apreal_overflow
        (std_string (codes "1e9") ∷ [])
        some_engine
      ≡ ok e')
    × Emitted no_location (std_string (codes "1e9") ∷ []) overflow_info some_engine e'
unfolding mapping_get
diagnose-Emitted_example =
    diagnose-Emitted no_location apreal_overflow (std_string (codes "1e9") ∷ []) overflow_info
      some_engine refl refl (omega arith) (omega arith)

diagnose-thrown_example :
    diagnose no_location apreal_overflow (replicate 11 (uint 7)) some_engine ≡ thrown assertion
diagnose-thrown_example =
    diagnose-thrown no_location apreal_overflow (replicate 11 (uint 7)) some_engine refl
      (inr (omega arith))

abbrev behind_first : Source
behind_first = record (lexer_over (codes "ab")).source {
  stream = record { before = codes "a"; rest = codes "b" };
  first = false;
  position = record { line = 1; column = 1 };
}

get_char-Added_example :
    (l' : Lexer) × (get_char ascii (lexer_over (codes "ab")) ≡ ok (b'a', l'))
    × (l'.source ≡ behind_first)
    × Added
        (entry (lexer_over (codes "ab")) no_id (codes "top-level.u") (codes "."))
        1
        b'a'
        (entry l' no_id (codes "top-level.u") (codes "."))
    × ((id' : UniqueId) (name' path' : Bytes)
        → has_key id' name' path' (new_file_info no_id (codes "top-level.u") (codes ".")) ≡ false
        → entry l' id' name' path' ≡ entry (lexer_over (codes "ab")) id' name' path')
unfolding get start_line check_bom skip_returns
get_char-Added_example =
    get_char-Added ascii (lexer_over (codes "ab")) b'a' behind_first refl refl (omega arith)

abbrev at_a : Lexer
at_a = record (lexer_over (codes "ab")) { cur_valid = 1 }

peek_char-next_char_example :
    (peek_char ascii >>= λ c. next_char ascii) at_a
    ≡ (next_char ascii >>= λ c l'. ok (c, record l' { next_char = c })) at_a
peek_char-next_char_example = peek_char-next_char ascii at_a refl
