-- ===== src/Lexer.antt =====
-- include/u-lang/Lex and lib/Lex.
pub mod Token
pub mod State
pub mod Number
pub mod Text
pub mod Lex
pub mod Program
