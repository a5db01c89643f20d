-- ===== src/Basic/TokenKinds.antt =====
-- include/u-lang/Basic/TokenKinds.def, TokenKinds.hpp and lib/Basic/TokenKinds.cpp: the kinds of
-- tokens, their names and their spellings. `none` stands for a null pointer.
use u_lang.Prelude.{ℕ, Bool, Bytes, codes, Option, none, some, ◌==◌}

pub data TokenKind : Type 0 where
  unknown eof eol comment identifier integer_constant real_constant : TokenKind
  string_constant rune_constant line_comment : TokenKind
  minus l_square r_square amp ampamp pipe pipepipe : TokenKind
  kw_fn kw_let : TokenKind
  ty_i8 ty_i16 ty_i32 ty_i64 ty_u8 ty_u16 ty_u32 ty_u64 ty_f32 ty_f64 ty_string : TokenKind
  ty_rune ty_tuple ty_list : TokenKind
  ty_mod_ptr : TokenKind

-- The value of the enumerator.
abbrev pub kind_value : TokenKind → ℕ
kind_value unknown = 0
kind_value eof = 1
kind_value eol = 2
kind_value comment = 3
kind_value identifier = 4
kind_value integer_constant = 5
kind_value real_constant = 6
kind_value string_constant = 7
kind_value rune_constant = 8
kind_value line_comment = 9
kind_value minus = 10
kind_value l_square = 11
kind_value r_square = 12
kind_value amp = 13
kind_value ampamp = 14
kind_value pipe = 15
kind_value pipepipe = 16
kind_value kw_fn = 17
kind_value kw_let = 18
kind_value ty_i8 = 19
kind_value ty_i16 = 20
kind_value ty_i32 = 21
kind_value ty_i64 = 22
kind_value ty_u8 = 23
kind_value ty_u16 = 24
kind_value ty_u32 = 25
kind_value ty_u64 = 26
kind_value ty_f32 = 27
kind_value ty_f64 = 28
kind_value ty_string = 29
kind_value ty_rune = 30
kind_value ty_tuple = 31
kind_value ty_list = 32
kind_value ty_mod_ptr = 33

-- `Token::is`.
abbrev pub is : TokenKind → TokenKind → Bool
is kind k = kind_value kind == kind_value k

-- The table has a name for every enumerator, so the branch behind it is not reached.
unfoldable pub get_token_name : TokenKind → Bytes
get_token_name unknown = codes "unknown"
get_token_name eof = codes "eof"
get_token_name eol = codes "eol"
get_token_name comment = codes "comment"
get_token_name identifier = codes "identifier"
get_token_name integer_constant = codes "integer_constant"
get_token_name real_constant = codes "real_constant"
get_token_name string_constant = codes "string_constant"
get_token_name rune_constant = codes "rune_constant"
get_token_name line_comment = codes "line_comment"
get_token_name minus = codes "minus"
get_token_name l_square = codes "l_square"
get_token_name r_square = codes "r_square"
get_token_name amp = codes "amp"
get_token_name ampamp = codes "ampamp"
get_token_name pipe = codes "pipe"
get_token_name pipepipe = codes "pipepipe"
get_token_name kw_fn = codes "fn"
get_token_name kw_let = codes "let"
get_token_name ty_i8 = codes "i8"
get_token_name ty_i16 = codes "i16"
get_token_name ty_i32 = codes "i32"
get_token_name ty_i64 = codes "i64"
get_token_name ty_u8 = codes "u8"
get_token_name ty_u16 = codes "u16"
get_token_name ty_u32 = codes "u32"
get_token_name ty_u64 = codes "u64"
get_token_name ty_f32 = codes "f32"
get_token_name ty_f64 = codes "f64"
get_token_name ty_string = codes "string"
get_token_name ty_rune = codes "rune"
get_token_name ty_tuple = codes "tuple"
get_token_name ty_list = codes "list"
get_token_name ty_mod_ptr = codes "ptr"

unfoldable pub get_punctuator_spelling : TokenKind → Option Bytes
get_punctuator_spelling minus = some (codes "-")
get_punctuator_spelling l_square = some (codes "[")
get_punctuator_spelling r_square = some (codes "]")
get_punctuator_spelling amp = some (codes "&")
get_punctuator_spelling ampamp = some (codes "&&")
get_punctuator_spelling pipe = some (codes "|")
get_punctuator_spelling pipepipe = some (codes "||")
get_punctuator_spelling _ = none

unfoldable pub get_keyword_spelling : TokenKind → Option Bytes
get_keyword_spelling kw_fn = some (codes "fn")
get_keyword_spelling kw_let = some (codes "let")
get_keyword_spelling _ = none
