-- ===== src/Tests/Formats.antt =====
-- Runs of the formatting of diagnostics.
use u_lang.Prelude.{
  ◌≢◌, bytes_eq, true, ◌++◌, arith, ◌+◌, ℕ, ◌≡◌, refl, List, [], ◌∷◌, Bytes, codes,
}
use u_lang.Basic.Format.Termination.{format_range-Ends}
use u_lang.Outcome.{no_fuel, ok, thrown, assertion}
use u_lang.Basic.TokenKinds.{ampamp}
use u_lang.Basic.DiagnosticIds.{
  DiagnosticId, unit_test_0002, unit_test_0003, unit_test_0007, unit_test_0008, unit_test_0009,
  unit_test_0010, bad_hex_digit,
}
use u_lang.Basic.Diagnostic.{Argument, DiagnosticEngine, uint, sint, std_string, token_kind}
use u_lang.Prelude.Ctype.{ispunct}
use u_lang.Basic.Format.Template.{
  Piece, character, mark, field, value, plural, print, meaning, format_range-print,
}
use u_lang.Basic.Format.Select.{handle_select-join}
use u_lang.Basic.Format.{format_range, handle_select, Printing, format_diagnostic}
use u_lang.Ascii.{some_engine}

-- Numbers below ten.
abbrev pub one_digit : Printing
one_digit = record {
  print_int = λ v. (b'0' + v) ∷ [];
  print_unsigned = λ v. (b'0' + v) ∷ [];
  ordinal_suffix = λ v. codes "th";
}

abbrev pub in_flight : DiagnosticId → ℕ → List Argument → DiagnosticEngine
in_flight id n args = record some_engine {
  cur_diag_id = id;
  num_diag_args = n;
  diag_arguments = args;
}

formats :
    (format_diagnostic one_digit (in_flight unit_test_0002 1 (uint 5 ∷ []))
      ≡ ok (codes "I have 5 senses."))
    × (format_diagnostic one_digit (in_flight unit_test_0003 1 (uint 6 ∷ []))
        ≡ ok (codes "The 6th sense."))
    × (format_diagnostic one_digit (in_flight unit_test_0007 1 (token_kind ampamp ∷ []))
        ≡ ok (codes "Token '&&'."))
    × (format_diagnostic one_digit (in_flight unit_test_0008 0 []) ≡ ok (codes "%."))
    × (format_diagnostic one_digit (in_flight unit_test_0009 1 (std_string (codes "a\nb") ∷ []))
        ≡ ok (codes "ab"))
    × (format_diagnostic one_digit (in_flight unit_test_0010 1 (sint 1 ∷ [])) ≡ ok (codes "b"))
    × (format_diagnostic one_digit (in_flight unit_test_0010 1 (sint 3 ∷ [])) ≡ thrown assertion)
    × (format_diagnostic one_digit (in_flight bad_hex_digit 0 []) ≡ thrown assertion)
unfolding format_diagnostic
formats = (refl, refl, refl, refl, refl, refl, refl, refl)

ispunct_percent : ispunct b'%' ≡ true
unfolding ispunct
ispunct_percent = refl

abbrev sense : List Piece
sense = character b'I' ∷ mark b'%' ∷ field value 0 ∷ field plural 0 ∷ []

format_range-print_example :
    format_range one_digit (in_flight unit_test_0002 1 (uint 5 ∷ [])) (codes "I%%%0%s0") 0
    ≡ ok (codes "I%5s")
unfolding print meaning bytes_eq
format_range-print_example =
    format_range-print one_digit (in_flight unit_test_0002 1 (uint 5 ∷ [])) sense 0
      (refl, (ispunct_percent, (omega arith, (omega arith, tt)))) refl

abbrev option_texts : List Bytes
option_texts = codes "b" ∷ codes "cd" ∷ []

handle_select-join_example :
    handle_select (λ s stop. ok (s ++ stop ∷ [])) 1 (codes "a|b|cd") ≡ ok (codes "b|")
handle_select-join_example =
    handle_select-join (λ s stop. ok (s ++ stop ∷ [])) 1 (codes "a") option_texts (ground arith)

format_range-Ends_example :
    format_range one_digit (in_flight unit_test_0010 1 (sint 1 ∷ [])) (codes "%select{a|%0}0%") 0
    ≢ no_fuel
format_range-Ends_example =
    format_range-Ends one_digit (in_flight unit_test_0010 1 (sint 1 ∷ [])) (codes "%select{a|%0}0%")
      0
