-- ===== src/Lexer/Number/Widths.antt =====
-- The width that `ConvertInt` estimates for an integer.
use native.Mathlib.Nat.{le_trans, pow-le-pow_right, pow-suc, one-le-pow}
use u_lang.Prelude.{
  ℕ, zero, suc, ◌+◌, ◌*◌, ◌/◌, ◌^◌, ◌≤◌, ◌<◌, ◌≡◌, ◌↔◌, arith, leb, Bool-cases, inl, inr,
}
use u_lang.Lexer.Number.{bit_estimate}

-- Nothing wraps around in the estimate of a text of this length.
bit_estimate-div : (n : ℕ) → n < 2 ^ 26 → bit_estimate n ≡ n * 64 / 19 + 2
bit_estimate-div n short = ground (arith, short)

two_pow-five : (k : ℕ) → 2 ^ suc (suc (suc (suc (suc k)))) ≡ 32 * 2 ^ k
two_pow-five k = omega (
  arith,
  pow-suc 2 k,
  pow-suc 2 (suc k),
  pow-suc 2 (suc (suc k)),
  pow-suc 2 (suc (suc (suc k))),
  pow-suc 2 (suc (suc (suc (suc k)))),
)

ten_pow-three : (n : ℕ) → 10 ^ suc (suc (suc n)) ≡ 1000 * 10 ^ n
ten_pow-three n = omega (arith, pow-suc 10 n, pow-suc 10 (suc n), pow-suc 10 (suc (suc n)))

-- Three digits in base 10 take ten bits at most.
ten_pow-fits : (n : ℕ) → 10 ^ n ≤ 2 ^ (n * 10 / 3 + 1)
ten_pow-fits zero = omega arith
ten_pow-fits (suc zero) = omega arith
ten_pow-fits (suc (suc zero)) = omega arith
ten_pow-fits (suc (suc (suc n))) =
    let k = n * 10 / 3 + 1 in
    let five = suc (suc (suc (suc (suc k)))) in
    let bits : suc (suc (suc n)) * 10 / 3 + 1 ≡ suc (suc (suc (suc (suc five)))) = omega arith in
    rw bits (omega (arith, two_pow-five five, two_pow-five k, ten_pow-three n, ten_pow-fits n))

-- A digit in base 16 takes four.
sixteen_pow : (n : ℕ) → 16 ^ n ≡ 2 ^ (n * 4)
sixteen_pow zero = omega arith
sixteen_pow (suc n) =
    let k = n * 4 in
    let bits : suc n * 4 ≡ suc (suc (suc (suc k))) = omega arith in
    rw bits (
      omega (
        arith,
        pow-suc 16 n,
        sixteen_pow n,
        pow-suc 2 k,
        pow-suc 2 (suc k),
        pow-suc 2 (suc (suc k)),
        pow-suc 2 (suc (suc (suc k))),
      ))

two_pow-reflects : (m n : ℕ) → 2 ^ m ≤ 2 ^ n → m ≤ n
two_pow-reflects m n h = elim (Bool-cases (leb m n)) [
  | inl low ↦ ground (arith, low)
  | inr high ↦
      let above : suc n ≤ m = ground (arith, high) in
      absurd (
        omega (
          arith,
          h,
          pow-suc 2 n,
          one-le-pow n 2 (omega arith),
          pow-le-pow_right {n = 2} (omega arith) above,
        ))
]

-- For a text of fewer than 2 ^ 26 digits: the width that is estimated holds every number of that
-- many digits in base 10; it holds every number of that many digits in base 16 if, and only if,
-- there are three digits at most.
pub bit_estimate-fits :
    (n : ℕ) → n < 2 ^ 26 → (10 ^ n ≤ 2 ^ bit_estimate n) × ((16 ^ n ≤ 2 ^ bit_estimate n) ↔ (n ≤ 3))
bit_estimate-fits n short =
    let e = bit_estimate-div n short in
    (
      le_trans (ten_pow-fits n) (pow-le-pow_right {n = 2} (omega arith) (omega (arith, e))),
      (
        λ h. omega (arith, e, two_pow-reflects (n * 4) (bit_estimate n) (rw (sixteen_pow n) at h)),
        λ h. rw (sixteen_pow n) (pow-le-pow_right {n = 2} (omega arith) (omega (arith, e, h))),
      ),
    )
