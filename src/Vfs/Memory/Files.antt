-- ===== src/Vfs/Memory/Files.antt =====
-- lib/Basic/VirtualFileSystem.cpp, `InMemoryFileSystem`: its tree as a map from paths to texts, and
-- what the loop of `addFile` does to it.
use mathlib.Core.Path.{subst}
use u_lang.Prelude.{
  ℕ, ◌≡◌, refl, inl, inr, Bool, true, false, ◌&&◌, if◌then◌else◌, Option-cases, Bytes, bytes_eq,
  bytes_eq_iff, some, List, [], ◌∷◌, arith,
}
use u_lang.Outcome.{Outcome, ok, thrown, no_fuel, out_of_bounds, ◌>>=◌}
use u_lang.Vfs.Status.{next_virtual_unique_id}
use u_lang.Vfs.Memory.{
  new_status, new_directory_status, file, directory, Entries, no_entries, get_child, add_child,
  set_child, NewFile, add_walk,
}
use u_lang.Vfs.Memory.Places.{
  free, blocked, folder, taken, place, text_at, names, names_eq, get_child-add_child,
  get_child-set_child, text_at-free, text_at-directory, text_at-descend,
}

-- What is done to the directory that is left leaves what is returned.
pub added-kept {ℓ κ} :
    {A : Type ℓ} {B : Type κ} (call : Outcome (Bool × A × ℕ)) (f : A → B)
    → ◌>>=◌ {A = Bool × B × ℕ} (call >>= λ (b, left, uid). ok (b, f left, uid)) (λ x. ok x.0)
      ≡ call >>= (λ x. ok x.0)
added-kept (ok x) f = refl
added-kept (thrown e) f = refl
added-kept no_fuel f = refl

-- What holds of each result of a call holds of what is returned after it.
pub with_result :
    (call : Outcome (Bool × Entries × ℕ)) (f : Entries → Entries) (added : Bool) (left : Entries)
    (uid' : ℕ) (P : Bool → Entries → Type 0)
    → ◌>>=◌ {B = Bool × Entries × ℕ} call (λ (b, inner, u). ok (b, f inner, u))
      ≡ ok (added, left, uid')
    → ((b : Bool) (inner : Entries) (u : ℕ) → call ≡ ok (b, inner, u) → P b (f inner))
    → P added left
with_result (ok x) f added left uid' P e p =
    subst (λ o. elim o [ ok z ↦ P z.0 z.1 | _ ↦ Unit {0} ]) e (p x.0 x.1 x.2 refl)
with_result (thrown t) f added left uid' P e p = absurd (cc e)
with_result no_fuel f added left uid' P e p = absurd (cc e)

module _ (new : NewFile) where
  -- What `addFile` returns, and whether it reads behind the path, by what is at the path.
  pub add_walk-place :
      (cs : List (Bytes × ℕ)) (dir : Entries) (uid : ℕ)
      → add_walk new cs dir uid >>= (λ (added, left, uid'). ok added)
        ≡ elim (place dir (names cs)) [
          | free ↦ ok true
          | taken content ↦ ok (bytes_eq content new.buffer)
          | blocked ↦ ok false
          | folder ↦ thrown out_of_bounds
        ]
  unfolding add_walk place
  add_walk-place [] dir uid = refl
  add_walk-place ((name, stop) ∷ []) dir uid = ground (arith)
  add_walk-place ((name, stop) ∷ next ∷ rest) dir uid = elim (Option-cases (get_child dir name)) [
    | inl fresh ↦
        rw
          (
            add_walk,
            place,
            fresh,
            added-kept (add_walk new (next ∷ rest) no_entries (next_virtual_unique_id uid).1)
                (λ made. add_child dir name (directory (new_directory_status new stop uid) made)),
          )
          (add_walk-place (next ∷ rest) no_entries (next_virtual_unique_id uid).1)
    | inr (file s content, there) ↦ rw (add_walk, place, there)
    | inr (directory s children, there) ↦
        rw
          (
            add_walk,
            place,
            there,
            added-kept (add_walk new (next ∷ rest) children uid)
                (λ left. set_child dir name (directory s left)),
          )
          (add_walk-place (next ∷ rest) children uid)
  ]

  pub text_at-add_walk :
      (cs : List (Bytes × ℕ)) (dir : Entries) (uid : ℕ) (added : Bool) (left : Entries) (uid' : ℕ)
      → add_walk new cs dir uid ≡ ok (added, left, uid')
      → (keys : List Bytes)
      → text_at left keys
        ≡ (if added && names_eq (names cs) keys then some new.buffer else text_at dir keys)
  unfolding add_walk text_at names_eq
  text_at-add_walk [] dir uid added left uid' h keys = absurd (cc h)
  text_at-add_walk (c ∷ cs) dir uid added left uid' h [] = ground arith
  text_at-add_walk ((name, stop) ∷ []) dir uid added left uid' h (key ∷ keys) =
      elim (Option-cases (get_child dir name)) [
        | inl fresh ↦ ground (
          arith,
          fresh,
          h,
          get_child-add_child dir name key (file (new_status new uid) new.buffer) fresh,
          bytes_eq_iff name key,
        )
        | inr (file s content, there) ↦
            ground (arith, there, h, bytes_eq_iff content new.buffer, bytes_eq_iff name key)
        | inr (directory s children, there) ↦ absurd (cc (rw (add_walk, there) at h))
      ]
  text_at-add_walk ((name, stop) ∷ next ∷ rest) dir uid added left uid' h (key ∷ keys) =
      let Reads : Bool → Entries → Type 0 = λ b l. text_at l (key ∷ keys) ≡ (
        if b && names_eq (names ((name, stop) ∷ next ∷ rest)) (key ∷ keys)
        then some new.buffer
        else text_at dir (key ∷ keys)) in
      elim (Option-cases (get_child dir name)) [
        | inl fresh ↦
            let st = new_directory_status new stop uid in
            with_result (add_walk new (next ∷ rest) no_entries (next_virtual_unique_id uid).1)
              (λ made. add_child dir name (directory st made)) added left uid' Reads
              (rw (add_walk, fresh) at h)
              (λ b made u call.
                text_at-descend dir (add_child dir name (directory st made)) no_entries made name
                  key st b (names (next ∷ rest)) keys new.buffer
                  (get_child-add_child dir name key (directory st made) fresh)
                  (text_at-free dir name keys fresh)
                  (text_at-add_walk (next ∷ rest) no_entries (next_virtual_unique_id uid).1 b made u
                    call keys))
        | inr (file s content, there) ↦ ground (arith, rw (add_walk, there) at h)
        | inr (directory s children, there) ↦
            with_result (add_walk new (next ∷ rest) children uid)
              (λ inner. set_child dir name (directory s inner)) added left uid' Reads
              (rw (add_walk, there) at h)
              (λ b inner u call.
                text_at-descend dir (set_child dir name (directory s inner)) children inner name key
                  s b (names (next ∷ rest)) keys new.buffer
                  (get_child-set_child dir name key (directory s children) (directory s inner)
                    there)
                  (text_at-directory dir name keys s children there)
                  (text_at-add_walk (next ∷ rest) children uid b inner u call keys))
      ]
