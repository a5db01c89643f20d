-- ===== src/Basic/PunctuatorTable.antt =====
-- include/u-lang/Basic/PunctuatorTable.hpp and lib/Basic/PunctuatorTable.cpp.
pub mod Laws
use u_lang.Prelude.{ℕ, List, [], Bytes, codes, Option}
use u_lang.Prelude.Table.{find, insert}
use u_lang.Basic.TokenKinds.{TokenKind, minus, l_square, r_square, amp, ampamp, pipe, pipepipe}

pub record PunctuatorInfo : Type 0 where
  pub spelling : Bytes
  pub kind : TokenKind
  pub precedence : ℕ

abbrev pub Table : Type 0
Table = List (Bytes × PunctuatorInfo)

-- `PUNCTUATOR(X, Y, P)`.
abbrev punctuator : TokenKind → Bytes → ℕ → Table → Table
punctuator k y p t = insert y (record { spelling = y; kind = k; precedence = p }) t

unfoldable pub add_punctuators : Table → Table
unfolding insert
add_punctuators t = punctuator pipepipe (codes "||") 0 (
    punctuator pipe (codes "|") 0 (
      punctuator ampamp (codes "&&") 0 (
        punctuator amp (codes "&") 0 (
          punctuator r_square (codes "]") 0
            (punctuator l_square (codes "[") 0 (punctuator minus (codes "-") 0 t))))))

-- `PunctuatorTable()`.
abbrev pub punctuator_table : Table
punctuator_table = add_punctuators []

unfoldable pub get : Table → Bytes → Option PunctuatorInfo
unfolding find
get t search = find search t
