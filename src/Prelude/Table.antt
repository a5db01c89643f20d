-- ===== src/Prelude/Table.antt =====
-- `std::map` with string keys, as the program uses it: built by `insert`, read by `find`.
use mathlib.Core.Path.{◌≡◌, subst}
use mathlib.Core.Logic.{inl, inr}
use mathlib.Core.Option.{Option, none, some}
use mathlib.Core.List.{List, [], ◌∷◌}
use native.Mathlib.Omega.{arith}
use u_lang.Prelude.Tests.{if◌then◌else◌, Bool-cases}
use u_lang.Prelude.Lists.{Bytes, bytes_eq, bytes_eq_iff}

module _ {ℓ} {V : Type ℓ} where
  unfoldable pub find : Bytes → List (Bytes × V) → Option V
  unfolding bytes_eq
  find k [] = none
  find k ((j, v) ∷ t) = if bytes_eq j k then some v else find k t

  -- `insert` leaves the entry of a key that is there.
  unfoldable pub insert : Bytes → V → List (Bytes × V) → List (Bytes × V)
  unfolding bytes_eq
  insert k v [] = (k, v) ∷ []
  insert k v ((j, w) ∷ t) = if bytes_eq j k then (j, w) ∷ t else (j, w) ∷ insert k v t

  abbrev pub AllEntries {κ} : (Bytes → V → Type κ) → List (Bytes × V) → Type κ
  AllEntries P [] = Unit
  AllEntries P ((k, v) ∷ t) = P k v × AllEntries P t

  -- What holds of every entry holds of the one that is found, at the key that was asked for.
  pub find-AllEntries {κ} :
      (P : Bytes → V → Type κ) (t : List (Bytes × V)) (k : Bytes) {v : V}
      → AllEntries P t
      → find k t ≡ some v
      → P k v
  unfolding find
  find-AllEntries P [] k a h = absurd (cc h)
  find-AllEntries P ((j, w) ∷ t) k {v} a h = elim (Bool-cases (bytes_eq j k)) [
    | inl same ↦
        let e : w ≡ v = ground arith in
        subst (λ x. P x v) ((bytes_eq_iff j k).0 same) (subst (P j) e a.0)
    | inr other ↦ find-AllEntries P t k a.1 (rw other at h)
  ]
