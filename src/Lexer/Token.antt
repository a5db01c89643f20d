-- ===== src/Lexer/Token.antt =====
-- include/u-lang/Lex/Token.hpp: tokens, and the numbers of LLVM that they carry, as a parameter.
use u_lang.Prelude.{ℕ, Bool, ◌||◌, Bytes, Option, []}
use u_lang.Basic.SourceLocation.{SourceLocation}
use u_lang.Basic.TokenKinds.{
  TokenKind, is, identifier, integer_constant, real_constant, get_token_name,
}

-- `llvm::APFloat` and `llvm::APInt`: conversion from text, with the status bits of the first, and
-- from a number of a given width. The constructor of an `APInt` from the digits of a text, in a width
-- and a base, asserts what it asks of them: `none` is where it does not return.
pub record Numerals (F I : Type 0) : Type 0 where
  pub zero_float : F
  pub no_int : I
  pub convert_from_string : Bytes → ℕ × F
  pub int_of_digits : ℕ → Bytes → ℕ → Option I
  pub int_of_value : ℕ → ℕ → I

-- `APFloat::opStatus`.
abbrev pub op_ok : ℕ
op_ok = 0

abbrev pub op_overflow : ℕ
op_overflow = 4

abbrev pub op_underflow : ℕ
op_underflow = 8

abbrev pub op_inexact : ℕ
op_inexact = 16

pub record Token (F I : Type 0) : Type 0 where
  pub kind : TokenKind
  pub loc : SourceLocation
  pub ap_float : F
  pub ap_int : I
  pub ap_identifier : Bytes

-- The four constructors.
module _ {F I : Type 0} (ap : Numerals F I) where
  abbrev pub new_token : TokenKind → SourceLocation → Token F I
  new_token k l = record {
    kind = k;
    loc = l;
    ap_float = ap.zero_float;
    ap_int = ap.no_int;
    ap_identifier = [];
  }

  abbrev pub float_token : TokenKind → SourceLocation → F → Token F I
  float_token k l v = record (new_token k l) { ap_float = v }

  abbrev pub int_token : TokenKind → SourceLocation → I → Token F I
  int_token k l v = record (new_token k l) { ap_int = v }

  abbrev pub text_token : TokenKind → SourceLocation → Bytes → Token F I
  text_token k l s = record (new_token k l) { ap_identifier = s }

module _ {F I : Type 0} where
  abbrev pub is_any_identifier : Token F I → Bool
  is_any_identifier t = is t.kind identifier

  abbrev pub is_literal : Token F I → Bool
  is_literal t = is t.kind integer_constant || is t.kind real_constant

  abbrev pub get_name : Token F I → Bytes
  get_name t = get_token_name t.kind
