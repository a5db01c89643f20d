-- ===== src/Basic/DiagnosticIds.antt =====
-- include/u-lang/Basic/DiagnosticIDs.def, DiagnosticIDs.hpp and lib/Basic/DiagnosticIDs.cpp: the
-- diagnostics, with their severities and messages. A message is its bytes.
use u_lang.Prelude.{ℕ, [], ◌∷◌, ◌++◌, Bytes, codes, Option, none, some, Bool, ◌==◌}

pub data Severity : Type 0 where
  fatal error warning info note ignore : Severity

pub data DiagnosticId : Type 0 where
  unterminated_string bad_escape_sequence bad_hex_digit : DiagnosticId
  apreal_overflow apreal_underflow apreal_unknown : DiagnosticId
  unit_test_0001 unit_test_0002 unit_test_0003 unit_test_0004 unit_test_0005 : DiagnosticId
  unit_test_0006 unit_test_0007 unit_test_0008 unit_test_0009 unit_test_0010 : DiagnosticId
  unit_test_0011 num_diagnostics : DiagnosticId

pub record DiagnosticInfo : Type 0 where
  pub level : Severity
  pub component : Bytes
  pub id : DiagnosticId
  pub title : Bytes
  pub message : Bytes

-- `DIAGNOSTIC(SEVERITY, COMPONENT, ID, TITLE, MESSAGE)`.
abbrev lexer_info : Severity → DiagnosticId → Bytes → Bytes → Option DiagnosticInfo
lexer_info s id title message =
    some
      (record { level = s; component = codes "Lexer"; id = id; title = title; message = message })

abbrev unit_test_info : DiagnosticId → Bytes → Option DiagnosticInfo
unit_test_info id message = some (record {
  level = ignore;
  component = codes "UnitTest";
  id = id;
  title = codes "Unit-test";
  message = message;
})

-- The quotation marks of one message, in UTF-8.
abbrev quoted_argument : Bytes
quoted_argument = 0xe2 ∷ 0x80 ∷ 0x98 ∷ b'%' ∷ b'0' ∷ 0xe2 ∷ 0x80 ∷ 0x99 ∷ []

-- `DiagnosticMapping::get`, over the entries that `AddDiagnostics` inserts, one for each diagnostic.
unfoldable pub mapping_get : DiagnosticId → Option DiagnosticInfo
mapping_get unterminated_string =
    lexer_info fatal unterminated_string (codes "Unterminated String")
      (codes "An unterminated string was encountered while lexing the source code shown above.")
mapping_get bad_escape_sequence =
    lexer_info warning bad_escape_sequence (codes "Invalid Escape Code Sequence") (
      codes "An invalid escape code "
      ++ (quoted_argument
          ++ codes " sequence character was found while lexing the source code shown above."))
mapping_get bad_hex_digit = lexer_info warning bad_hex_digit (codes "Invalid Hexadecimal Digit") (
    codes
      "An invalid hexadecimal digit '%0' was encountered while lexing the source code shown above.")
mapping_get apreal_overflow =
    lexer_info fatal apreal_overflow (codes "Arbitrary Precision Real Overflow Exception") (
      codes
        "The real number %0 overflowed the maximum arbitrary precision offered by this compiler.")
mapping_get apreal_underflow =
    lexer_info fatal apreal_underflow (codes "Arbitrary Precision Real Underflow Exception") (
      codes
        "The real number %0 underflowed the minimum arbitrary precision offered by this compiler.")
mapping_get apreal_unknown =
    lexer_info fatal apreal_unknown (codes "Arbitrary Precision Real Exception")
      (codes "An unknown error occured while processing the arbitrary precision real.")
mapping_get unit_test_0001 = unit_test_info unit_test_0001 (codes "I have %0 sense.")
mapping_get unit_test_0002 = unit_test_info unit_test_0002 (codes "I have %0 sense%s0.")
mapping_get unit_test_0003 = unit_test_info unit_test_0003 (codes "The %ordinal0 sense.")
mapping_get unit_test_0004 = unit_test_info unit_test_0004 (codes "I have %0 sense.")
mapping_get unit_test_0005 = unit_test_info unit_test_0005 (codes "I have %0 sense%s0.")
mapping_get unit_test_0006 = unit_test_info unit_test_0006 (codes "The %ordinal0 sense.")
mapping_get unit_test_0007 = unit_test_info unit_test_0007 (codes "Token %0.")
mapping_get unit_test_0008 = unit_test_info unit_test_0008 (codes "%%.")
mapping_get unit_test_0009 = unit_test_info unit_test_0009 (codes "%0")
mapping_get unit_test_0010 = unit_test_info unit_test_0010 (codes "%select{a|b|c}0")
mapping_get unit_test_0011 = unit_test_info unit_test_0011 (codes "%select{a|%%|c}0")
mapping_get num_diagnostics = none

abbrev pub id_value : DiagnosticId → ℕ
id_value unterminated_string = 0
id_value bad_escape_sequence = 1
id_value bad_hex_digit = 2
id_value apreal_overflow = 3
id_value apreal_underflow = 4
id_value apreal_unknown = 5
id_value unit_test_0001 = 6
id_value unit_test_0002 = 7
id_value unit_test_0003 = 8
id_value unit_test_0004 = 9
id_value unit_test_0005 = 10
id_value unit_test_0006 = 11
id_value unit_test_0007 = 12
id_value unit_test_0008 = 13
id_value unit_test_0009 = 14
id_value unit_test_0010 = 15
id_value unit_test_0011 = 16
id_value num_diagnostics = 17

-- `CurDiagID == diag::NUM_DIAGNOSTICS`.
abbrev pub is_idle_id : DiagnosticId → Bool
is_idle_id id = id_value id == 17
