-- ===== src/Tests/Literals.antt =====
-- The theorems on the literals that `Lex` reads, and on the ends of lines and files, at concrete inputs.
use u_lang.Prelude.{
  ℕ, ◌^◌, ◌%◌, ◌≤◌, ◌↔◌, true, none, some, ◌∷◌, ltb, if◌then◌else◌, ◌≡◌, refl, [], Bytes, codes,
  arith, take_while, drop_while,
}
use u_lang.Outcome.{ok}
use u_lang.Basic.SourceLocation.{SourceLocation}
use u_lang.Basic.TokenKinds.{eol, identifier, integer_constant, real_constant}
use u_lang.Lexer.Token.{Numerals, text_token, new_token, int_token, float_token, op_inexact}
use u_lang.Lexer.State.{Lexer, location}
use u_lang.Lexer.State.Ahead.{At}
use u_lang.Lexer.Number.{bit_estimate, is_int_char, next_state, convert_float, convert_int}
use u_lang.Lexer.Number.Conversion.{Complained, convert_float-Complained}
use u_lang.Lexer.Number.Digits.{digits}
use u_lang.Lexer.Text.{widen}
use u_lang.Lexer.Text.Printed.{escape_char, escape_text}
use u_lang.Lexer.Text.RoundTrip.{literal}
use u_lang.Lexer.Lex.{lex}
use u_lang.Lexer.Lex.Loops.{Left}
use u_lang.Lexer.Lex.Ends.{next_line, lex-eol}
use u_lang.Lexer.Lex.AnyTypes.{lex-closes_any_type}
use u_lang.Lexer.Lex.Reals.{lex-fraction}
use u_lang.Lexer.Number.{is_fraction_char}
use u_lang.Lexer.Lex.Numbers.{digits_location, lex-decimal, lex-hexadecimal}
use u_lang.Lexer.Lex.Values.{lex-number_value}
use u_lang.Lexer.Number.Values.{digit_value, number_value, IsExact}
use u_lang.Lexer.Number.Widths.{bit_estimate-fits}
use u_lang.Lexer.Lex.Strings.{lex-escape_text, lex-escape_text_empty}
use u_lang.Ascii.{ascii, ascii-IsLawful, lexer_over, lexer_over-At}
use u_lang.Tests.{texts}

at_string : (l : Lexer) × At ascii l (codes "\"a\\nb\\x22\" c")
at_string = lexer_over-At (codes "\"a\\nb\\x22\" c") (ground arith) (omega arith)

lex-escape_text_example :
    (w : SourceLocation) × (l' : Lexer) × (lex texts ascii 9 at_string.0
      ≡ ok (literal texts w (codes "a\nb\"") (codes "a\nb\""), l'))
    × Left ascii at_string.0 (codes " c") l'
unfolding escape_text escape_char
lex-escape_text_example =
    lex-escape_text texts ascii 9 b'a' (codes "\nb\"") (codes " c") (codes "a\nb\"") at_string.0
      ascii-IsLawful (omega arith) refl at_string.1

at_empty : (l : Lexer) × At ascii l (codes "\"\"ab\"")
at_empty = lexer_over-At (codes "\"\"ab\"") (ground arith) (omega arith)

lex-escape_text_empty_example :
    (w : SourceLocation) × (l' : Lexer) × (lex texts ascii 9 at_empty.0
      ≡ ok (literal texts w (codes "ab") (codes "ab"), l'))
    × Left ascii at_empty.0 [] l'
unfolding escape_text escape_char
lex-escape_text_empty_example =
    lex-escape_text_empty texts ascii 9 b'a' (codes "b") [] (codes "ab") at_empty.0 ascii-IsLawful
      (omega arith) refl at_empty.1

at_eol : (l : Lexer) × At ascii l (codes "\nb")
at_eol = lexer_over-At (codes "\nb") (ground arith) (omega arith)

lex-eol_example :
    (l' : Lexer) × (lex texts ascii 9 at_eol.0 ≡ ok (new_token texts eol (location at_eol.0), l'))
    × At ascii l' (codes "b")
    × (l'.source_range.begin ≡ next_line at_eol.0.source_range.begin)
    × (l'.source_range.end ≡ next_line at_eol.0.source_range.end)
lex-eol_example = lex-eol texts ascii 9 (codes "b") at_eol.0 ascii-IsLawful (omega arith) at_eol.1

at_any_type : (l : Lexer) × At ascii l (codes "'T, b")
at_any_type = lexer_over-At (codes "'T, b") (ground arith) (omega arith)

lex-closes_any_type_example :
    (l' : Lexer) × (lex texts ascii 9 at_any_type.0
      ≡ ok (text_token texts identifier (widen (location at_any_type.0) 1) (codes "'T"), l'))
    × Left ascii at_any_type.0 (codes ", b") l'
lex-closes_any_type_example =
    lex-closes_any_type texts ascii 9 b'T' b',' (codes " b") at_any_type.0 ascii-IsLawful
      (omega arith) refl refl refl refl refl at_any_type.1

at_decimal : (l : Lexer) × At ascii l (codes "1_024 ")
at_decimal = lexer_over-At (codes "1_024 ") (ground arith) (omega arith)

lex-decimal_example :
    (l' : Lexer) × (lex texts ascii 9 at_decimal.0
      ≡ convert_int texts
          (codes "1024")
          (digits_location (location at_decimal.0) (codes "1024"))
          10
          l')
    × Left ascii at_decimal.0 (codes " ") l'
unfolding take_while drop_while is_int_char digits next_state
lex-decimal_example =
    lex-decimal texts ascii 9 b'1' (codes "_024 ") at_decimal.0 ascii-IsLawful (omega arith) refl
      refl refl at_decimal.1

-- Integers that are their values, where the width holds these.
abbrev counted : Numerals Bytes ℕ
counted = record {
  zero_float = [];
  no_int = 0;
  convert_from_string = λ s. (0, s);
  int_of_digits = λ bits num base.
      if ltb (number_value base num) (2 ^ bits) then some (number_value base num) else none;
  int_of_value = λ bits v. v % 2 ^ bits;
}

counted-IsExact : IsExact counted (λ v. v)
counted-IsExact = record {
  exact = λ bits base c num radix valid fits.
      let held : ltb (number_value base (c ∷ num)) (2 ^ bits) ≡ true = ground (arith, fits) in
      (number_value base (c ∷ num), rw held refl, refl);
}

lex-number_value_example :
    (v : ℕ) × (l' : Lexer) × (lex counted ascii 9 at_decimal.0
      ≡ ok (
        int_token counted integer_constant
            (digits_location (location at_decimal.0) (codes "1024"))
            v,
        l',
      ))
    × (v ≡ 1024)
    × Left ascii at_decimal.0 (codes " ") l'
unfolding take_while drop_while is_int_char digits next_state number_value digit_value
lex-number_value_example =
    lex-number_value counted ascii (λ v. v) 9 b'1' (codes "_024 ") at_decimal.0 ascii-IsLawful
      counted-IsExact (omega arith) (omega arith) refl refl refl at_decimal.1

bit_estimate-fits_example :
    (10 ^ 4 ≤ 2 ^ bit_estimate 4) × ((16 ^ 4 ≤ 2 ^ bit_estimate 4) ↔ (4 ≤ 3))
bit_estimate-fits_example = bit_estimate-fits 4 (omega arith)

at_hexadecimal : (l : Lexer) × At ascii l (codes "0x1F]")
at_hexadecimal = lexer_over-At (codes "0x1F]") (ground arith) (omega arith)

lex-hexadecimal_example :
    (l' : Lexer) × (lex texts ascii 9 at_hexadecimal.0
      ≡ convert_int texts
          (codes "1F")
          (digits_location (location at_hexadecimal.0) (codes "1F"))
          16
          l')
    × Left ascii at_hexadecimal.0 (codes "]") l'
unfolding take_while drop_while is_int_char digits
lex-hexadecimal_example =
    lex-hexadecimal texts ascii 9 b'1' (codes "F]") at_hexadecimal.0 ascii-IsLawful (omega arith)
      at_hexadecimal.1

-- Numbers whose conversion is inexact.
abbrev inexact : Numerals Bytes Bytes
inexact = record texts { convert_from_string = λ s. (op_inexact, s) }

convert_float-Complained_example :
    (l' : Lexer) × (convert_float inexact (codes "0.1") (location (lexer_over [])) (lexer_over [])
      ≡ ok (float_token inexact real_constant (location (lexer_over [])) (codes "0.1"), l'))
    × Complained (location (lexer_over [])) (lexer_over []) l'
convert_float-Complained_example =
    convert_float-Complained inexact (codes "0.1") (location (lexer_over [])) (lexer_over []) refl
      (omega arith) refl

at_fraction : (l : Lexer) × At ascii l (codes "10.2_5 ")
at_fraction = lexer_over-At (codes "10.2_5 ") (ground arith) (omega arith)

lex-fraction_example :
    (l' : Lexer) × (lex texts ascii 20 at_fraction.0
      ≡ convert_float texts
          (codes "10.25")
          (digits_location (location at_fraction.0) (codes "10.25"))
          l')
    × Left ascii at_fraction.0 (codes " ") l'
unfolding take_while drop_while is_int_char is_fraction_char digits next_state
lex-fraction_example =
    lex-fraction texts ascii 20 b'1' (codes "0.2_5 ") b'2' (codes "_5 ") at_fraction.0
      ascii-IsLawful (omega arith) refl refl refl refl refl refl at_fraction.1
