-- ===== src/Driver/Samples/Rounding.antt =====
-- What rounding to a number of bits leaves alone.
use r_compatible_driver_v.Base.{
  ℕ, zero, suc, ◌*◌, ◌/◌, ◌%◌, ◌^◌, ◌≤◌, ◌<◌, ltb, ◌≡◌, inl, inr, ap, arith, Bool-cases,
}
use native.Mathlib.Nat.{pow-suc}
use r_compatible_driver_v.Driver.Samples.{nearest_even, excess}

scale_suc : (q k : ℕ) → q * 2 ^ suc k ≡ 2 * (q * 2 ^ k)
scale_suc q k = omega (arith, ap (λ (t : ℕ). q * t) (pow-suc 2 k))

-- A number below 2 ^ (bits + j) has at most j bits too many
pub excess-le : (fuel bits n j : ℕ) → n < 2 ^ bits * 2 ^ j → excess fuel bits n ≤ j
unfolding excess
excess-le zero bits n j h = omega arith
excess-le (suc fuel) bits n zero h = ground arith
excess-le (suc fuel) bits n (suc j) h =
    ground (arith, scale_suc (2 ^ bits) j, excess-le fuel bits (n / 2) j)

-- Without the low half of a pair of bits
halve_again : (n k : ℕ) → n / 2 ^ suc k ≡ n / 2 / 2 ^ k
halve_again n k = rw (pow-suc 2 k) (grind arith)

-- With enough fuel the bits left fit
pub excess_leaves :
    (fuel bits n : ℕ) → n < 2 ^ bits * 2 ^ fuel → n / 2 ^ excess fuel bits n < 2 ^ bits
unfolding excess
excess_leaves zero bits n h = omega arith
excess_leaves (suc fuel) bits n h = elim (Bool-cases (ltb n (2 ^ bits))) [
  | inl small ↦ rw small (ground arith)
  | inr large ↦
      rw large (
        rw halve_again (excess_leaves fuel bits (n / 2) (omega (arith, scale_suc (2 ^ bits) fuel))))
]

-- A multiple of 2 ^ k is not rounded
pub nearest-multiple_4 : (n k : ℕ) → k ≤ 2 → n % 4 ≡ 0 → nearest_even n (2 ^ k) * 2 ^ k ≡ n
unfolding nearest_even
nearest-multiple_4 n zero h m = ground arith
nearest-multiple_4 n (suc zero) h m = ground arith
nearest-multiple_4 n (suc (suc zero)) h m = ground arith
nearest-multiple_4 n (suc (suc (suc k))) h m = absurd (omega arith)

pub nearest-multiple_8 : (n k : ℕ) → k ≤ 3 → n % 8 ≡ 0 → nearest_even n (2 ^ k) * 2 ^ k ≡ n
unfolding nearest_even
nearest-multiple_8 n zero h m = ground arith
nearest-multiple_8 n (suc zero) h m = ground arith
nearest-multiple_8 n (suc (suc zero)) h m = ground arith
nearest-multiple_8 n (suc (suc (suc zero))) h m = ground arith
nearest-multiple_8 n (suc (suc (suc (suc k)))) h m = absurd (omega arith)

-- Rounding does not pass a multiple of 8
pub nearest-le : (n k c : ℕ) → k ≤ 3 → n ≤ 8 * c → nearest_even n (2 ^ k) * 2 ^ k ≤ 8 * c
unfolding nearest_even
nearest-le n zero c h m = ground arith
nearest-le n (suc zero) c h m = ground arith
nearest-le n (suc (suc zero)) c h m = ground arith
nearest-le n (suc (suc (suc zero))) c h m = ground arith
nearest-le n (suc (suc (suc (suc k)))) c h m = absurd (omega arith)
