-- ===== src/Basic/SourceManager/Table.antt =====
-- The entries of the file table: what is stored through a reference is found again.
use u_lang.Prelude.{
  ◌≡◌, refl, ◌∙◌, true, false, [], ◌∷◌, Bytes, bytes_eq_iff, arith, Bool-cases, inl, inr,
}
use u_lang.Basic.SourceLocation.{UniqueId}
use u_lang.Basic.SourceManager.{
  FileInfo, FileTable, has_key, new_file_info, get_or_insert_file_info, store_file_info,
}

-- The key of an entry.
pub record Key (id : UniqueId) (name path : Bytes) (f : FileInfo) : Type 0 where
  pub id_eq : f.id ≡ id
  pub name_eq : f.file_name ≡ name
  pub path_eq : f.file_path ≡ path

module _ (id : UniqueId) (name path : Bytes) where
  has_key-Key : (f : FileInfo) → has_key id name path f ≡ true → Key id name path f
  has_key-Key f h = record {
    id_eq = ground arith;
    name_eq = (bytes_eq_iff f.file_name name).0 (ground arith);
    path_eq = (bytes_eq_iff f.file_path path).0 (ground arith);
  }

  Key-has_key : (f : FileInfo) → Key id name path f → has_key id name path f ≡ true
  Key-has_key f k = ground (
    arith,
    k.id_eq,
    (bytes_eq_iff f.file_name name).1 k.name_eq,
    (bytes_eq_iff f.file_path path).1 k.path_eq,
  )

  -- The entry that is found or made has the key that was asked for.
  pub get_or_insert_file_info-Key :
      (table : FileTable) → Key id name path (get_or_insert_file_info table id name path).0
  unfolding get_or_insert_file_info
  get_or_insert_file_info-Key [] = record { id_eq = refl; name_eq = refl; path_eq = refl }
  get_or_insert_file_info-Key (f ∷ table) = elim (Bool-cases (has_key id name path f)) [
    | inl here ↦ rw here (has_key-Key f here)
    | inr there ↦ rw there (get_or_insert_file_info-Key table)
  ]

  -- Two entries of one key answer alike to any key.
  has_key-same :
      (f g : FileInfo)
      → Key id name path f
      → Key id name path g
      → (id' : UniqueId) (name' path' : Bytes)
      → has_key id' name' path' f ≡ has_key id' name' path' g
  has_key-same f g k m id' name' path' =
      cc (k.id_eq, k.name_eq, k.path_eq, m.id_eq, m.name_eq, m.path_eq)

  module _ (info : FileInfo) (k : Key id name path info) where
    has_key-info :
        (f : FileInfo) → has_key info.id info.file_name info.file_path f ≡ has_key id name path f
    has_key-info f = cc (k.id_eq, k.name_eq, k.path_eq)

    abbrev pub written : FileTable → FileTable
    written table = store_file_info (get_or_insert_file_info table id name path).1 info

    get-written :
        (table : FileTable) → (get_or_insert_file_info (written table) id name path).0 ≡ info
    unfolding get_or_insert_file_info store_file_info
    get-written [] = ground (
      arith,
      has_key-info (new_file_info id name path),
      Key-has_key info k,
      Key-has_key (new_file_info id name path)
          (record { id_eq = refl; name_eq = refl; path_eq = refl }),
    )
    get-written (f ∷ table) = elim (Bool-cases (has_key id name path f)) [
      | inl here ↦ rw here (rw (has_key-info f) (rw here (rw (Key-has_key info k))))
      | inr there ↦ rw there (rw (has_key-info f) (rw there (rw there (get-written table))))
    ]

    get-written_ne :
        (id' : UniqueId) (name' path' : Bytes) (table : FileTable)
        → has_key id' name' path' info ≡ false
        → (get_or_insert_file_info (written table) id' name' path').0
          ≡ (get_or_insert_file_info table id' name' path').0
    unfolding get_or_insert_file_info store_file_info
    get-written_ne id' name' path' [] other = rw (has_key-info (new_file_info id name path)) (
        rw
          (Key-has_key (new_file_info id name path)
            (record { id_eq = refl; name_eq = refl; path_eq = refl }))
          (rw other))
    get-written_ne id' name' path' (f ∷ table) other = elim (Bool-cases (has_key id name path f)) [
      | inl here ↦
          let same = has_key-same f info (has_key-Key f here) k id' name' path' in
          rw here (rw (has_key-info f) (rw here (rw other (rw (same ∙ other)))))
      | inr there ↦ rw there (
          rw (has_key-info f)
            (rw there (ground (arith, get-written_ne id' name' path' table other))))
    ]

    -- What is written to an entry is found at its key, and at no other key is anything changed.
    pub get_or_insert_file_info-store_file_info :
        (table : FileTable)
        → ((get_or_insert_file_info (written table) id name path).0 ≡ info)
          × ((id' : UniqueId) (name' path' : Bytes)
              → has_key id' name' path' info ≡ false
              → (get_or_insert_file_info (written table) id' name' path').0
                ≡ (get_or_insert_file_info table id' name' path').0)
    get_or_insert_file_info-store_file_info table =
        (get-written table, λ i n p. get-written_ne i n p table)
