-- ===== src/Engine/Accordion.antt =====
-- The playback accordion keeps the hardware rate, and a request stays within its buffer.
use r_compatible_driver_v.Driver.Samples.{pace, add_double, frames_per_packet, unit}
use r_compatible_driver_v.Driver.Samples.Pace.{
  IsSupported, paced, paced_floor, paced-IsKept, Exact-supported, quotient_44100, quotient_48000,
  quotient_88200, quotient_96000,
}
use r_compatible_driver_v.Base.{
  ℕ, zero, suc, ◌+◌, ◌*◌, ◌/◌, ◌^◌, ◌≤◌, ◌<◌, ◌≡◌, arith, ap, List, [], ◌∷◌, ltb, le→ltb-false, All,
  ltb-false→le, Bool-cases, inl, inr,
}
use r_compatible_driver_v.Engine.{fpr, max_pkt, micro_frames, micro_counts, micro_bytes}

abbrev pub total : List ℕ → ℕ
total [] = 0
total (n ∷ ns) = n + total ns

-- The bytes of a request, and the most frames of a microframe.
abbrev pub request_bytes : List ℕ → ℕ
request_bytes [] = 0
request_bytes (n ∷ ns) = micro_bytes n + request_bytes ns

-- The frames of one packet are the rate divided by 8000, rounded down or up, if nothing is rounded.
pace-close :
    (r a : ℕ)
    → IsSupported r
    → a < unit
    → add_double a (frames_per_packet r) ≡ a + frames_per_packet r
    → (r / 8000 ≤ (pace r a).1) × ((pace r a).1 ≤ r / 8000 + 1) × ((pace r a).1 ≤ 12)
unfolding pace
pace-close r a (inl e) h x = rw (x, e, quotient_44100) (omega arith, omega arith, omega arith)
pace-close r a (inr (inl e)) h x = rw (x, e, quotient_48000) (omega arith, omega arith, omega arith)
pace-close r a (inr (inr (inl e))) h x =
    rw (x, e, quotient_88200) (omega arith, omega arith, omega arith)
pace-close r a (inr (inr (inr e))) h x =
    rw (x, e, quotient_96000) (omega arith, omega arith, omega arith)

-- From the accumulator that k packets leave, n microframes carry what k + n packets do beyond k.
counts_paced :
    (r : ℕ)
    → IsSupported r
    → (n k : ℕ)
    → (total (micro_counts n r (paced r k).0).0 + (paced r k).1 ≡ (paced r (k + n)).1)
      × All
          (λ nf. (r / 8000 ≤ nf) × (nf ≤ r / 8000 + 1) × (nf ≤ 12))
          (micro_counts n r (paced r k).0).0
unfolding micro_counts micro_frames paced
counts_paced r s zero k =
    let same : (paced r k).1 ≡ (paced r (k + 0)).1 = ap (λ m. (paced r m).1) (omega arith) in
    (omega (arith, same), tt)
counts_paced r s (suc n) k =
    let kept = paced-IsKept r k s in
    let close =
      pace-close r (paced r k).0 s kept.left
        (Exact-supported (paced r k).0 kept.left r s kept.aligned).0 in
    let rest = counts_paced r s n (suc k) in
    let next : (paced r (suc k + n)).1 ≡ (paced r (k + suc n)).1 =
      ap (λ m. (paced r m).1) (omega arith) in
    rw (le→ltb-false 12 (pace r (paced r k).0).1 close.2)
      (omega (arith, rest.0, next), (close, rest.1))

-- At each supported rate, with the double accumulator of the code: the first n microframes of playback
-- carry exactly the whole frames of n / 8000 seconds, for n below 2^38, and each carries the rate divided
-- by 8000, rounded down or up, and at most 12.
pub micro_counts_lem :
    (r n : ℕ)
    → IsSupported r
    → n < 2 ^ 38
    → (total (micro_counts n r 0).0 ≡ n * r / 8000)
      × All (λ nf. (r / 8000 ≤ nf) × (nf ≤ r / 8000 + 1) × (nf ≤ 12)) (micro_counts n r 0).0
unfolding paced
micro_counts_lem r n s h =
    let k = counts_paced r s n 0 in
    let whole : (paced r (0 + n)).1 ≡ (paced r n).1 = ap (λ m. (paced r m).1) (omega arith) in
    (omega (arith, k.0, whole, paced_floor r n s h), k.1)

micro_frames-twelve : (rate accum : ℕ) → (micro_frames rate accum).0 ≤ 12
unfolding micro_frames
micro_frames-twelve rate accum = elim (Bool-cases (ltb 12 (pace rate accum).1)) [
  | inl e ↦ rw e (omega arith)
  | inr e ↦ rw e (ltb-false→le 12 (pace rate accum).1 e)
]

counts_within :
    (n rate accum : ℕ)
    → All (λ nf. nf ≤ 12) (micro_counts n rate accum).0
      × (request_bytes (micro_counts n rate accum).0 ≤ n * micro_bytes 12)
unfolding micro_counts
counts_within zero rate accum = (tt, omega arith)
counts_within (suc n) rate accum =
    let rest = counts_within n rate (micro_frames rate accum).1 in
    let first = micro_frames-twelve rate accum in ((first, rest.0), omega (arith, rest.1, first))

-- Whatever the rate and the accumulator, no microframe takes more than the twelve frames that the
-- buffer of `armOut` holds, and the bytes of the sixteen microframes fit in the request's buffer.
pub arm_out_within :
    (rate accum : ℕ)
    → All (λ nf. nf ≤ 12) (micro_counts fpr rate accum).0
      × (request_bytes (micro_counts fpr rate accum).0 ≤ fpr * max_pkt)
arm_out_within rate accum =
    let bound = counts_within fpr rate accum in (bound.0, omega (arith, bound.1))
