-- ===== src/Basic/IdentifierTable.antt =====
-- include/u-lang/Basic/IdentifierTable.hpp and lib/Basic/IdentifierTable.cpp.
pub mod Laws
use u_lang.Prelude.{List, [], Bytes, codes, Option}
use u_lang.Prelude.Table.{find, insert}
use u_lang.Basic.TokenKinds.{
  TokenKind, kw_fn, kw_let, ty_i8, ty_i16, ty_i32, ty_i64, ty_u8, ty_u16, ty_u32, ty_u64, ty_f32,
  ty_f64, ty_string, ty_rune, ty_tuple, ty_list, ty_mod_ptr,
}

pub record IdentifierInfo : Type 0 where
  pub spelling : Bytes
  pub kind : TokenKind

abbrev pub Table : Type 0
Table = List (Bytes × IdentifierInfo)

-- `KEYWORD(X)`, `TYPE(X)` and `TYPE_MODIFIER(X)`.
abbrev word : TokenKind → Bytes → Table → Table
word k x t = insert x (record { spelling = x; kind = k }) t

unfoldable pub add_identifiers : Table → Table
unfolding insert
add_identifiers t =
    let t0 = word kw_fn (codes "fn") t in
    let t1 = word kw_let (codes "let") t0 in
    let t2 = word ty_i8 (codes "i8") t1 in
    let t3 = word ty_i16 (codes "i16") t2 in
    let t4 = word ty_i32 (codes "i32") t3 in
    let t5 = word ty_i64 (codes "i64") t4 in
    let t6 = word ty_u8 (codes "u8") t5 in
    let t7 = word ty_u16 (codes "u16") t6 in
    let t8 = word ty_u32 (codes "u32") t7 in
    let t9 = word ty_u64 (codes "u64") t8 in
    let t10 = word ty_f32 (codes "f32") t9 in
    let t11 = word ty_f64 (codes "f64") t10 in
    let t12 = word ty_string (codes "string") t11 in
    let t13 = word ty_rune (codes "rune") t12 in
    let t14 = word ty_tuple (codes "tuple") t13 in
    let t15 = word ty_list (codes "list") t14 in let t16 = word ty_mod_ptr (codes "ptr") t15 in t16

-- `IdentifierTable()`.
abbrev pub identifier_table : Table
identifier_table = add_identifiers []

unfoldable pub get : Table → Bytes → Option IdentifierInfo
unfolding find
get t search = find search t
