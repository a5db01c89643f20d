-- ===== src/Tests/Programs.antt =====
-- The loop over `Lex` at a text that was printed.
use u_lang.Prelude.{ℕ, ◌≡◌, refl, List, [], ◌∷◌, Bytes, codes, arith}
use u_lang.Outcome.{Outcome, ok}
use u_lang.Basic.TokenKinds.{eof, ampamp, get_punctuator_spelling}
use u_lang.Basic.SourceLocation.{no_location}
use u_lang.Basic.PunctuatorTable
use u_lang.Basic.IdentifierTable
use u_lang.Lexer.Token.{Token, new_token}
use u_lang.Lexer.State.{Lexer, get_char}
use u_lang.Lexer.Number.{is_int_char, is_fraction_char}
use u_lang.Prelude.Ctype.{isdigit, isxdigit}
use u_lang.Lexer.Lex.{
  lex, punctuator_loop, lex_rest, is_identifier_start, is_identifier_char, is_space,
}
use u_lang.Lexer.Number.Digits.{digits}
use u_lang.Lexer.Text.Printed.{escape_char, escape_text}
use u_lang.Lexer.Program.{
  Item, word, decimal, hexadecimal, real, punctuator, quoted, any_type, comment_line, line_end,
  print, AllItems, item_tokens, unplaced, lex_all,
}
use u_lang.Lexer.Program.Recorded.{lex_all-new_lexer}
use u_lang.Lexer.Lex.Recorded.{Recorded, OthersStay, lex-Recorded}
use u_lang.Lexer.State.Recording.{own_entry}
use u_lang.Lexer.State.Ahead.{Decodes}
use u_lang.Basic.Source.{string_source, get, start_line, check_bom, skip_returns}
use u_lang.Basic.SourceManager.Split.{split_lines, new_lines}
use u_lang.Basic.SourceManager.{add_character, get_or_insert_file_info, store_file_info}
use u_lang.Ascii.{ascii, ascii-IsLawful, lexer_over, string_source-Decodes, some_engine}
use u_lang.Tests.{texts}

abbrev items : List (ℕ × Item)
items =
    (0, word b'f' (codes "n"))
    ∷ (0, word b'm' (codes "ain_1"))
    ∷ (2, hexadecimal b'1' (codes "F"))
    ∷ (0, punctuator ampamp)
    ∷ (0, decimal b'0' (codes "_07"))
    ∷ (1, quoted b'a' (codes "\n\""))
    ∷ (0, real b'1' (codes "_0") b'2' (codes "5"))
    ∷ (0, any_type b'T')
    ∷ (0, comment_line (codes " it"))
    ∷ (0, line_end)
    ∷ []

abbrev printed : Bytes
printed = codes " fn main_1   0x1F && 0_07  \"a\\n\\x22\" 1_0.25 'T // it\n \n "

print-items : print items ≡ printed
unfolding print escape_text escape_char get_punctuator_spelling
print-items = refl

items-AllItems : AllItems texts items
unfolding is_identifier_start is_identifier_char is_space is_int_char is_fraction_char isdigit
    isxdigit get_punctuator_spelling digits
items-AllItems = (
  ground arith,
  (
    ground arith,
    (
      (ground arith, ground arith, (codes "1F", refl)),
      (
        (codes "&&", refl),
        (
          (ground arith, ground arith, (codes "007", refl)),
          (ground arith, (ground arith, (ground arith, (ground arith, (tt, tt))))),
        ),
      ),
    ),
  ),
)

items_source-Decodes : Decodes ascii (string_source printed) printed
items_source-Decodes = string_source-Decodes printed (ground arith)

lex_all-new_lexer_example :
    (ts : List (Token Bytes Bytes)) × (l' : Lexer) × (lex_all texts ascii 11 99 (lexer_over printed)
      ≡ ok (ts, l'))
    × (unplaced ts ≡ item_tokens texts ascii items)
    × ((own_entry l').lines ≡ split_lines (print items))
    × OthersStay (lexer_over printed) l'
unfolding print escape_text escape_char get_punctuator_spelling get_or_insert_file_info
lex_all-new_lexer_example =
    lex_all-new_lexer texts ascii items 11 99 [] some_engine (string_source printed) 0 0
      ascii-IsLawful items-AllItems (omega arith) (omega arith) items_source-Decodes refl refl
      (omega arith) refl

-- The lines of that text.
lines_of_printed :
    split_lines printed
    ≡ codes " fn main_1   0x1F && 0_07  \"a\\n\\x22\" 1_0.25 'T // it\n"
      ∷ codes " \n"
      ∷ codes " "
      ∷ []
unfolding split_lines
lines_of_printed = refl

-- A lexer that has read nothing of the same text.
unread : Recorded ascii printed (lexer_over printed) (lexer_over printed)
unfolding split_lines new_lines get_or_insert_file_info
unread = record {
  read = [];
  rest = printed;
  parts = refl;
  decodes = items_source-Decodes;
  counted = omega arith;
  bounded = omega arith;
  next = refl;
  lines = refl;
  same_file = (refl, refl, refl);
  others = λ id name path other. refl;
}

abbrev result : Outcome (Token Bytes Bytes × Lexer) → Token Bytes Bytes × Lexer
result (ok r) = r
result _ = (new_token texts eof no_location, lexer_over printed)

-- The first call of `Lex`, and what it returns.
abbrev first_call : Outcome (Token Bytes Bytes × Lexer)
first_call = lex texts ascii 9 (lexer_over printed)

first_call-result : first_call ≡ ok (result first_call)
unfolding get_char get start_line check_bom skip_returns add_character get_or_insert_file_info
    store_file_info lex punctuator_loop lex_rest PunctuatorTable.get IdentifierTable.get
    PunctuatorTable.add_punctuators IdentifierTable.add_identifiers
first_call-result = refl

lex-Recorded_example : Recorded ascii printed (lexer_over printed) (result first_call).1
lex-Recorded_example =
    lex-Recorded ascii printed (lexer_over printed) texts 9 (lexer_over printed)
      (result first_call).0 (result first_call).1 first_call-result unread
