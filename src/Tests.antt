-- ===== src/Tests.antt =====
-- Runs of the model, and the theorems applied at concrete inputs.
pub mod Literals
pub mod Programs
pub mod Records
pub mod Formats
pub mod Files
pub mod Layers
use u_lang.Prelude.{
  ℕ, some, zero, suc, ◌<◌, ◌≡◌, ◌≢◌, ◌↔◌, refl, ◌||◌, true, false, List, [], ◌∷◌, Bytes, codes,
  length, arith, ◌==◌, drop_while, take_while,
}
use u_lang.Outcome.{Outcome, ok, thrown, no_fuel, not_enough_room, ◌>>=◌}
use u_lang.Basic.SourceLocation.{no_id, UniqueId}
use u_lang.Basic.Source.{Source, string_source, get, start_line, check_bom, skip_returns}
use u_lang.Basic.Source.Laws.{
  next_position, position-get, rest-get, get-ne-no_fuel, ended, return, get-ReturnsToEnd,
}
use u_lang.Basic.SourceManager.{
  FileInfo, new_file_info, add_character, get_or_insert_file_info, store_file_info, has_key,
}
use u_lang.Basic.SourceManager.Laws.{Added, add_character-Added}
use u_lang.Basic.TokenKinds.{
  TokenKind, eof, ampamp, kw_fn, identifier, integer_constant, real_constant, string_constant,
  rune_constant, line_comment, get_punctuator_spelling,
}
use u_lang.Basic.PunctuatorTable
use u_lang.Basic.IdentifierTable
use u_lang.Lexer.Token.{Numerals, new_token, text_token}
use u_lang.Lexer.State.{Lexer, get_char, location}
use u_lang.Lexer.State.Ahead.{At}
use u_lang.Lexer.Text.{widen}
use u_lang.Lexer.Lex.{
  lex, lex_token, is_space, punctuator_loop, lex_rest, is_identifier_start, is_identifier_char,
  word_token, span,
}
use u_lang.Lexer.Lex.Loops.{Left}
use u_lang.Lexer.Lex.Comments.{opens_comment}
use u_lang.Lexer.Lex.Termination.{lex-opens_comment}
use u_lang.Lexer.Lex.Tokens.{lex-drop_while, lex-open_comment, lex-closed_comment, lex-identifier}
use u_lang.Lexer.Lex.Punctuators.{lex-get_punctuator_spelling}
use u_lang.Ascii.{ascii, ascii-IsLawful, lexer_over, lexer_over-At}

-- Numbers of LLVM as the texts that they were read from.
abbrev pub texts : Numerals Bytes Bytes
texts = record {
  zero_float = [];
  no_int = [];
  convert_from_string = λ s. (0, s);
  int_of_digits = λ bits digits base. some digits;
  int_of_value = λ bits v. v ∷ [];
}

-- The kinds, texts and numbers of the first `n` tokens.
abbrev View : Type 0
View = TokenKind × Bytes × Bytes × Bytes

tokens : ℕ → Lexer → Outcome (List View)
unfolding get_char get start_line check_bom skip_returns add_character get_or_insert_file_info
    store_file_info lex punctuator_loop lex_rest PunctuatorTable.get IdentifierTable.get
    PunctuatorTable.add_punctuators IdentifierTable.add_identifiers
tokens zero l = ok []
tokens (suc n) l = do
  r ← lex texts ascii 100 l
  rest ← tokens n r.1
  ok ((r.0.kind, r.0.ap_identifier, r.0.ap_int, r.0.ap_float) ∷ rest)

run_words :
    tokens 5 (lexer_over (codes "fn foo_1 && 0x1F"))
    ≡ ok (
        (kw_fn, [], [], [])
        ∷ (identifier, codes "foo_1", [], [])
        ∷ (ampamp, [], [], [])
        ∷ (integer_constant, [], codes "1F", [])
        ∷ (eof, [], [], [])
        ∷ [])
unfolding tokens
run_words = refl

run_texts :
    tokens 3 (lexer_over (codes "\"a\\x41b\" 'c' 1_0.5e-3"))
    ≡ ok (
        (string_constant, codes "aAb", [], [])
        ∷ (rune_constant, [], codes "c", [])
        ∷ (real_constant, [], [], codes "10.5e-3")
        ∷ [])
unfolding tokens
run_texts = refl

abbrev letters : Source
letters = record (string_source (codes "b")) { first = false; got_new_line = true }

abbrev after_letters : Source
after_letters = record letters {
  stream = record { before = codes "b"; rest = [] };
  position = record { line = 2; column = 1 };
  got_new_line = false;
}

run_letters : get ascii letters ≡ ok (b'b', after_letters)
unfolding get start_line check_bom skip_returns
run_letters = refl

position-get_example :
    (◌≢◌ {A = ℕ} b'b' b'\r')
    × (after_letters.position ≡ next_position ascii letters)
    × (after_letters.got_new_line ≡ (b'b' == b'\n'))
    × (after_letters.found_nl ≡ (letters.found_nl || b'b' == b'\n'))
position-get_example = position-get ascii letters run_letters

get-ReturnsToEnd_example : get ascii (string_source (codes "\r\r")) ≡ thrown not_enough_room
unfolding start_line check_bom
get-ReturnsToEnd_example =
    get-ReturnsToEnd ascii ascii-IsLawful (string_source (codes "\r\r")) refl
      (return refl (ended refl))

get-ne-no_fuel_example : get ascii (string_source (codes "a\r")) ≢ no_fuel
get-ne-no_fuel_example = get-ne-no_fuel ascii ascii-IsLawful (string_source (codes "a\r"))

abbrev some_file : FileInfo
some_file = record (new_file_info no_id (codes "f") (codes "p")) { lines = (b'a' ∷ []) ∷ [] }

add_character-Added_example : (info : FileInfo) × Added some_file 3 b'b' info
add_character-Added_example = add_character-Added some_file 3 b'b' (omega arith)

at_open : (l : Lexer) × At ascii l (codes "  //ab")
at_open = lexer_over-At (codes "  //ab") (ground arith) (omega arith)

lex-opens_comment_example :
    (lex texts ascii 1000 at_open.0 ≡ no_fuel)
    ↔ (opens_comment (drop_while is_space (codes "  //ab")) ≡ true)
lex-opens_comment_example =
    lex-opens_comment texts ascii ascii-IsLawful 1000 (codes "  //ab") at_open.0 (omega arith)
      at_open.1

-- At this text the comment is open.
opens_comment-open : opens_comment (drop_while is_space (codes "  //ab")) ≡ true
unfolding drop_while is_space
opens_comment-open = refl

at_closed : (l : Lexer) × At ascii l (codes "//ab\nc")
at_closed = lexer_over-At (codes "//ab\nc") (ground arith) (omega arith)

lex-closed_comment_example :
    (l' : Lexer) × (lex texts ascii 9 at_closed.0
      ≡ ok (
        text_token texts line_comment (widen (widen (location at_closed.0) 2) 1) (codes "ab"),
        l',
      ))
    × Left ascii at_closed.0 (codes "c") l'
lex-closed_comment_example =
    lex-closed_comment texts ascii 9 (codes "ab") (codes "c") (codes "ab") at_closed.0
      (ground arith) (omega arith) refl at_closed.1

at_word : (l : Lexer) × At ascii l (codes "fn x")
at_word = lexer_over-At (codes "fn x") (ground arith) (omega arith)

lex-identifier_example :
    (l' : Lexer) × (lex texts ascii 9 at_word.0
      ≡ ok (
        word_token texts ascii
            (span (location at_word.0) 2 1)
            (codes "fn")
            (IdentifierTable.get IdentifierTable.identifier_table (codes "fn")),
        l',
      ))
    × Left ascii at_word.0 (codes " x") l'
unfolding take_while drop_while is_identifier_char is_identifier_start
lex-identifier_example =
    lex-identifier texts ascii 9 b'f' (codes "n x") at_word.0 ascii-IsLawful (omega arith) refl
      (ground arith) at_word.1

at_and : (l : Lexer) × At ascii l (codes "&&&")
at_and = lexer_over-At (codes "&&&") (ground arith) (omega arith)

lex-get_punctuator_spelling_example :
    (l' : Lexer) × (lex texts ascii 3 at_and.0
      ≡ ok (new_token texts ampamp (span (location at_and.0) 3 2), l'))
    × Left ascii at_and.0 (codes "&") l'
unfolding get_punctuator_spelling PunctuatorTable.get PunctuatorTable.add_punctuators
lex-get_punctuator_spelling_example =
    lex-get_punctuator_spelling texts ascii 3 ampamp (codes "&&") (codes "&") at_and.0
      ascii-IsLawful (omega arith) refl refl refl at_and.1
