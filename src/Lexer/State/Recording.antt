-- ===== src/Lexer/State/Recording.antt =====
-- What `GetChar` writes to the source manager.
use mathlib.Core.Path.{subst}
use u_lang.Prelude.{Bool-cases, inl, inr, ℕ, ◌<◌, ◌≡◌, refl, sym, ◌∙◌, true, false, Bytes}
use u_lang.Outcome.{ok, ok_inj, >>=-eq-ok}
use u_lang.Basic.SourceLocation.{UniqueId}
use u_lang.Basic.Stream.{Utf8}
use u_lang.Basic.Source.{Source, has_more, get}
use u_lang.Basic.SourceManager.{
  FileInfo, add_character, new_file_info, has_key, get_or_insert_file_info, store_file_info,
}
use u_lang.Basic.SourceManager.Laws.{Added, add_character-Added}
use u_lang.Basic.SourceManager.Table.{
  Key, get_or_insert_file_info-Key, get_or_insert_file_info-store_file_info,
}
use u_lang.Lexer.State.{Lexer, get_char}

-- The entry of a key in the manager of a lexer.
abbrev pub entry : Lexer → UniqueId → Bytes → Bytes → FileInfo
entry l id name path = (get_or_insert_file_info l.source_manager id name path).0

-- The entry of the lexer's own file.
abbrev pub own_entry : Lexer → FileInfo
own_entry l = entry l l.id l.file_name l.file_path

-- Two lexers over one file.
abbrev pub SameFile : Lexer → Lexer → Type 0
SameFile l l' = (l'.id ≡ l.id) × (l'.file_name ≡ l.file_name) × (l'.file_path ≡ l.file_path)

module _ (utf8 : Utf8) where
  -- `GetChar` leaves the file that the lexer reads.
  pub get_char-SameFile :
      (l : Lexer) (c : ℕ) (l' : Lexer) → get_char utf8 l ≡ ok (c, l') → SameFile l l'
  unfolding get_char
  get_char-SameFile l c l' e = elim (Bool-cases (has_more l.source)) [
    | inl more ↦
        let (r, e1, g) = >>=-eq-ok (get utf8 l.source) _ (rw more at e) in
        let old = get_or_insert_file_info l.source_manager l.id l.file_name l.file_path in
        let (info, e2, a) = >>=-eq-ok (add_character old.0 r.1.position.line r.0) _ e1 in
        subst (λ (x : ℕ × Lexer). SameFile l x.1) (ok_inj e2) (refl, refl, refl)
    | inr none ↦
        subst (λ (x : ℕ × Lexer). SameFile l x.1) (ok_inj (rw none at e)) (refl, refl, refl)
  ]

  -- Where the source has a character, in a line that is counted from 1, `GetChar` returns it and
  -- records it: it is added to the entry of the lexer's own file, in the line that the source is
  -- then at, and the entry of no other file changes.
  pub get_char-Added :
      (l : Lexer) (c : ℕ) (src : Source)
      → has_more l.source ≡ true
      → get utf8 l.source ≡ ok (c, src)
      → 0 < src.position.line
      → (l' : Lexer) × (get_char utf8 l ≡ ok (c, l'))
        × (l'.source ≡ src)
        × Added
            (entry l l.id l.file_name l.file_path)
            src.position.line
            c
            (entry l' l.id l.file_name l.file_path)
        × ((id' : UniqueId) (name' path' : Bytes)
            → has_key id' name' path' (new_file_info l.id l.file_name l.file_path) ≡ false
            → entry l' id' name' path' ≡ entry l id' name' path')
  unfolding get_char
  get_char-Added l c src more e h =
      let old = get_or_insert_file_info l.source_manager l.id l.file_name l.file_path in
      let key = get_or_insert_file_info-Key l.id l.file_name l.file_path l.source_manager in
      let (info, a) = add_character-Added old.0 src.position.line c h in
      let k : Key l.id l.file_name l.file_path info = record {
        id_eq = a.same_id ∙ key.id_eq;
        name_eq = a.same_name ∙ key.name_eq;
        path_eq = a.same_path ∙ key.path_eq;
      } in
      let found =
        get_or_insert_file_info-store_file_info l.id l.file_name l.file_path info k
          l.source_manager in
      (
        record l { source = src; source_manager = store_file_info old.1 info },
        rw more (rw e (rw a.added refl)),
        refl,
        subst (λ i. Added old.0 src.position.line c i) (sym found.0) a,
        λ id' name' path' other.
            found.1 id' name' path' (cc (other, k.id_eq, k.name_eq, k.path_eq)),
      )
