-- ===== src/Basic/Truncation.antt =====
-- include/u-lang/u.hpp: the truncations to a narrower integer, each behind an assertion.
use u_lang.Prelude.{ℕ, ◌%◌, ◌^◌, ◌≡◌, leb, if◌then◌else◌, arith, Bool-cases, inl, inr}
use u_lang.Outcome.{Outcome, ok, thrown, assertion, ok_inj}

-- `SafeTruncateUInt64`.
unfoldable pub safe_truncate_u_int64 : ℕ → Outcome ℕ
safe_truncate_u_int64 v = if leb v 0xffffffff then ok (v % 2 ^ 32) else thrown assertion

-- `SafeTruncateToU16(uint32_t)`.
unfoldable pub safe_truncate_to_u16 : ℕ → Outcome ℕ
safe_truncate_to_u16 v = if leb v 0xffff then ok (v % 2 ^ 16) else thrown assertion

-- `SafeTruncateToU16(uint16_t)`, which returns a byte.
unfoldable pub safe_truncate_to_u8 : ℕ → Outcome ℕ
safe_truncate_to_u8 v = if leb v 0xff then ok (v % 2 ^ 8) else thrown assertion

-- A truncation returns what it was given, or fails: no value is cut.
pub safe_truncate-value :
    (v r : ℕ)
    → (safe_truncate_u_int64 v ≡ ok r → r ≡ v)
      × (safe_truncate_to_u16 v ≡ ok r → r ≡ v)
      × (safe_truncate_to_u8 v ≡ ok r → r ≡ v)
unfolding safe_truncate_u_int64 safe_truncate_to_u16 safe_truncate_to_u8
safe_truncate-value v r = (
  λ h. elim (Bool-cases (leb v 0xffffffff)) [
    | inl fits ↦ let e = ok_inj (rw fits at h) in ground arith
    | inr large ↦ absurd (cc (rw large at h))
  ],
  λ h. elim (Bool-cases (leb v 0xffff)) [
    | inl fits ↦ let e = ok_inj (rw fits at h) in ground arith
    | inr large ↦ absurd (cc (rw large at h))
  ],
  λ h. elim (Bool-cases (leb v 0xff)) [
    | inl fits ↦ let e = ok_inj (rw fits at h) in ground arith
    | inr large ↦ absurd (cc (rw large at h))
  ],
)
