-- ===== src/Driver/Samples/RoundTrip.antt =====
-- A captured sample of 24 bits comes back from playback as it was.
use r_compatible_driver_v.Base.{
  ℕ, zero, suc, ◌+◌, ◌-◌, ◌*◌, ◌%◌, ◌^◌, ◌≤◌, ◌<◌, Bool, true, false, some, none, ltb, ◌==◌,
  if◌then◌else◌, ◌≡◌, inl, inr, refl, ap, arith, Bool-cases,
}
use native.Mathlib.Nat.{pow-suc, zero-add, suc-add, mul_assoc}
use r_compatible_driver_v.Driver.Samples.Rounding.{excess-le}
use r_compatible_driver_v.Driver.Samples.{
  finite, is_negative, magnitude, capture_sample, play_sample, round_to_float, nearest_even, excess,
}

-- The bits that do not fit a float are zeros of a 24-bit sample
rounds_exactly : (n k : ℕ) → k ≤ 8 → n % 256 ≡ 0 → nearest_even n (2 ^ k) * 2 ^ k ≡ n
unfolding nearest_even
rounds_exactly n zero h m = ground arith
rounds_exactly n (suc zero) h m = ground arith
rounds_exactly n (suc (suc zero)) h m = ground arith
rounds_exactly n (suc (suc (suc zero))) h m = ground arith
rounds_exactly n (suc (suc (suc (suc zero)))) h m = ground arith
rounds_exactly n (suc (suc (suc (suc (suc zero))))) h m = ground arith
rounds_exactly n (suc (suc (suc (suc (suc (suc zero)))))) h m = ground arith
rounds_exactly n (suc (suc (suc (suc (suc (suc (suc zero))))))) h m = ground arith
rounds_exactly n (suc (suc (suc (suc (suc (suc (suc (suc zero)))))))) h m = ground arith
rounds_exactly n (suc (suc (suc (suc (suc (suc (suc (suc (suc k))))))))) h m = absurd (omega arith)

pow-add : (k j : ℕ) → 2 ^ (k + j) ≡ 2 ^ k * 2 ^ j
pow-add zero j = rw zero-add (omega arith)
pow-add (suc k) j = rw suc-add (
    omega (
      arith,
      pow-suc 2 (k + j),
      ap (λ (t : ℕ). t * 2 ^ j) (pow-suc 2 k),
      pow-add k j,
      mul_assoc 2 (2 ^ k) (2 ^ j),
    ))

scaled : (n k m : ℕ) → m * 2 ^ k ≡ n → m * 2 ^ (k + 118) ≡ n * 2 ^ 118
scaled n k m h = rw (pow-add k 118, ← mul_assoc, h) refl

-- A 24-bit sample is a float exactly
round-exact :
    (negative : Bool) (n : ℕ)
    → n ≤ 2 ^ 31
    → n % 256 ≡ 0
    → (m : ℕ) × (e : ℕ) × (round_to_float negative n ≡ finite negative m e)
      × (m * 2 ^ e ≡ n * 2 ^ 118)
unfolding round_to_float
round-exact negative n h m =
    let k = excess 8 24 n in
    let few : k ≤ 8 = excess-le 8 24 n 8 (omega arith) in
    let whole = scaled n k (nearest_even n (2 ^ k)) (rounds_exactly n k few m) in
    elim (Bool-cases (nearest_even n (2 ^ k) == 2 ^ 24)) [
      | inl e ↦ (2 ^ 23, k + 119, rw e refl, ground (arith, pow-suc 2 (k + 118)))
      | inr e ↦ (nearest_even n (2 ^ k), k + 118, rw e refl, whole)
    ]

-- What playback makes of a float of that size
play-size :
    (negative : Bool) (n m e : ℕ)
    → n ≤ 2 ^ 31
    → m * 2 ^ e ≡ n * 2 ^ 118
    → play_sample (finite negative m e)
      ≡ (if negative then some ((2 ^ 32 - n) % 2 ^ 32) else if ltb n (2 ^ 31) then some n else none)
unfolding play_sample
play-size false n m e h q = rw q (ground arith)
play-size true n m e h q = rw q (ground arith)

-- A captured sample of 24 bits in the upper bits of its word comes back from playback as it was.
pub play-capture : (w : ℕ) → w < 2 ^ 32 → w % 256 ≡ 0 → play_sample (capture_sample w) ≡ some w
unfolding capture_sample
play-capture w h m =
    let negative = is_negative w in
    let n = magnitude w in
    let small : n ≤ 2 ^ 31 = ground arith in
    let (f, e, same, size) = round-exact negative n small (ground arith) in
    rw (same, play-size negative n f e small size) (ground arith)
