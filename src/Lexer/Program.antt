-- ===== src/Lexer/Program.antt =====
-- Whole texts: a source of words, numbers, literals, ANY types, punctuators, comments and line ends, how it
-- is written, the tokens it stands for, and the loop of a client of `Lexer::Lex`
-- (include/u-lang/Lex/Lexer.hpp), which calls it up to the end of the file.
pub mod Spaces
pub mod Integers
pub mod Reals
pub mod Items
pub mod Kinds
pub mod RoundTrip
pub mod Recorded
use u_lang.Prelude.{
  ℕ, zero, suc, ◌≡◌, true, List, [], ◌∷◌, ◌++◌, Bytes, Option, none, some, length, replicate, All,
  not, ◌==◌, if◌then◌else◌,
}
use u_lang.Prelude.Ctype.{isdigit, isxdigit}
use u_lang.Outcome.{no_fuel}
use u_lang.Basic.SourceLocation.{SourceLocation, no_location}
use u_lang.Basic.Stream.{Utf8, is_ascii}
use u_lang.Basic.TokenKinds.{
  TokenKind, eof, eol, real_constant, identifier, line_comment, integer_constant, is,
  get_punctuator_spelling,
}
use u_lang.Basic.IdentifierTable
use u_lang.Basic.IdentifierTable.{identifier_table}
use u_lang.Lexer.Token.{Token, Numerals, new_token, int_token, float_token, op_ok, text_token}
use u_lang.Lexer.State.{M, pure, ◌>>=◌}
use u_lang.Lexer.Number.{to_char, is_int_char, is_fraction_char, bit_estimate}
use u_lang.Lexer.Number.Digits.{digits}
use u_lang.Lexer.Text.Printed.{escape_text}
use u_lang.Lexer.Text.RoundTrip.{literal}
use u_lang.Lexer.Lex.{is_identifier_start, is_identifier_char, word_token, lex}

-- A first character is apart where an item has one at least.
pub data Item : Type 0 where
  word : ℕ → List ℕ → Item
  decimal : ℕ → List ℕ → Item
  hexadecimal : ℕ → List ℕ → Item
  punctuator : TokenKind → Item
  real : ℕ → List ℕ → ℕ → List ℕ → Item
  quoted : ℕ → List ℕ → Item
  any_type : ℕ → Item
  comment_line : List ℕ → Item
  line_end : Item

abbrev pub spelling : Option Bytes → List ℕ
spelling none = []
spelling (some s) = s

abbrev pub print_item : Item → List ℕ
print_item (word c cs) = c ∷ cs
print_item (decimal d ds) = d ∷ ds
print_item (hexadecimal d ds) = b'0' ∷ b'x' ∷ d ∷ ds
print_item (real d ds f fs) = d ∷ (ds ++ b'.' ∷ f ∷ fs)
print_item (punctuator k) = spelling (get_punctuator_spelling k)
print_item (quoted c s) = b'"' ∷ (escape_text (c ∷ s) ++ b'"' ∷ [])
print_item (any_type c) = b'\'' ∷ c ∷ []
print_item (comment_line body) = b'/' ∷ b'/' ∷ (body ++ b'\n' ∷ [])
print_item line_end = b'\n' ∷ []

-- Each item stands behind a space and as many more as the number beside it; the text ends in a
-- space.
unfoldable pub print : List (ℕ × Item) → List ℕ
print [] = b' ' ∷ []
print ((n, i) ∷ items) = b' ' ∷ (replicate n b' ' ++ (print_item i ++ print items))

-- What is converted of a number with a fraction.
abbrev pub real_digits : ℕ → List ℕ → ℕ → List ℕ → Bytes
real_digits d ds f fs = ((to_char d ∷ digits ds) ++ b'.' ∷ []) ++ digits (f ∷ fs)

-- What the conversion of an integer returns.
abbrev pub Converts : {I : Type 0} → Option I → Type 0
Converts {I} o = (v : I) × (o ≡ some v)

abbrev pub converted : {I : Type 0} → I → Option I → I
converted v none = v
converted v (some u) = u

module _ {F I : Type 0} (ap : Numerals F I) where
  abbrev pub integer_of : Bytes → ℕ → Option I
  integer_of num base = ap.int_of_digits (bit_estimate (length num)) num base

  -- The items of the language in ASCII; a number is one that LLVM converts, a real one with no
  -- complaint.
  abbrev pub IsItem : Item → Type 0
  IsItem (word c cs) =
      (is_identifier_start c ≡ true) × All is_ascii (c ∷ cs) × All is_identifier_char cs
  IsItem (decimal d ds) =
      (isdigit d ≡ true)
      × All (is_int_char 10) ds
      × Converts (integer_of (to_char d ∷ digits ds) 10)
  IsItem (hexadecimal d ds) =
      (isxdigit d ≡ true)
      × All (is_int_char 16) ds
      × Converts (integer_of (to_char d ∷ digits ds) 16)
  IsItem (real d ds f fs) =
      (isdigit d ≡ true)
      × All (is_int_char 10) ds
      × All is_fraction_char (f ∷ fs)
      × ((ap.convert_from_string (real_digits d ds f fs)).0 ≡ op_ok)
  IsItem (punctuator k) = (s : Bytes) × (get_punctuator_spelling k ≡ some s)
  IsItem (quoted c s) = All is_ascii (c ∷ s)
  IsItem (any_type c) = (is_ascii c ≡ true) × All (λ q. not (c == q)) (b'\'' ∷ b'\\' ∷ b'\n' ∷ [])
  IsItem (comment_line body) = All is_ascii body × All (λ c. not (c == b'\n')) body
  IsItem line_end = Unit

  abbrev pub AllItems : List (ℕ × Item) → Type 0
  AllItems [] = Unit
  AllItems ((n, i) ∷ items) = IsItem i × AllItems items

module _ {F I : Type 0} (ap : Numerals F I) (utf8 : Utf8) where
  abbrev pub integer_token : Bytes → ℕ → Token F I
  integer_token num base =
      int_token ap integer_constant no_location (converted ap.no_int (integer_of ap num base))

  -- The token of an item, without its place.
  abbrev pub item_token : Item → Token F I
  item_token (word c cs) =
      word_token ap utf8 no_location (c ∷ cs) (IdentifierTable.get identifier_table (c ∷ cs))
  item_token (decimal d ds) = integer_token (to_char d ∷ digits ds) 10
  item_token (hexadecimal d ds) = integer_token (to_char d ∷ digits ds) 16
  item_token (real d ds f fs) =
      float_token ap real_constant no_location (ap.convert_from_string (real_digits d ds f fs)).1
  item_token (punctuator k) = new_token ap k no_location
  item_token (quoted c s) = literal ap no_location (c ∷ s) (c ∷ s)
  item_token (any_type c) = text_token ap identifier no_location (b'\'' ∷ c ∷ [])
  item_token (comment_line body) = text_token ap line_comment no_location body
  item_token line_end = new_token ap eol no_location

  -- The tokens of the items, and that of the end of the file.
  abbrev pub item_tokens : List (ℕ × Item) → List (Token F I)
  item_tokens [] = new_token ap eof no_location ∷ []
  item_tokens ((n, i) ∷ items) = item_token i ∷ item_tokens items

module _ {F I : Type 0} where
  abbrev pub placed : SourceLocation → Token F I → Token F I
  placed w t = record t { loc = w }

  abbrev pub unplaced : List (Token F I) → List (Token F I)
  unplaced [] = []
  unplaced (t ∷ ts) = placed no_location t ∷ unplaced ts

-- The tokens up to the end of the file, that one included; the first number counts the calls.
unfoldable pub lex_all : {F I : Type 0} → Numerals F I → Utf8 → ℕ → ℕ → M (List (Token F I))
unfolding lex
lex_all ap utf8 zero fuel = λ l. no_fuel
lex_all ap utf8 (suc rounds) fuel = do
  t ← lex ap utf8 fuel
  let more = (do ts ← lex_all ap utf8 rounds fuel; pure (t ∷ ts))
  if is t.kind eof then pure (t ∷ []) else more
