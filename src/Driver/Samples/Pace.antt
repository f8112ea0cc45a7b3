-- ===== src/Driver/Samples/Pace.antt =====
-- The frames of playback packets, and their sum over time.
use r_compatible_driver_v.Base.{
  ℕ, zero, suc, ◌+◌, ◌*◌, ◌/◌, ◌%◌, ◌^◌, ◌≤◌, ◌<◌, List, [], ◌∷◌, ltb, if◌then◌else◌, ◌≡◌, ◌⊎◌, inl,
  inr, refl, arith,
}
use r_compatible_driver_v.Driver.Samples.Rounding.{
  excess-le, nearest-multiple_4, nearest-multiple_8, nearest-le,
}
use r_compatible_driver_v.Driver.Samples.{frames_per_packet, add_double, pace, unit, excess}

pub quotient_44100 : frames_per_packet 44100 ≡ 24826092945879860
unfolding frames_per_packet
quotient_44100 = refl

pub quotient_48000 : frames_per_packet 48000 ≡ 6 * unit
unfolding frames_per_packet
quotient_48000 = refl

pub quotient_88200 : frames_per_packet 88200 ≡ 49652185891759720
unfolding frames_per_packet
quotient_88200 = refl

pub quotient_96000 : frames_per_packet 96000 ≡ 12 * unit
unfolding frames_per_packet
quotient_96000 = refl

abbrev pub supported_rates : List ℕ
supported_rates = 44100 ∷ 48000 ∷ 88200 ∷ 96000 ∷ []

abbrev pub IsSupported : ℕ → Type 0
IsSupported r = (r ≡ 44100) ⊎ (r ≡ 48000) ⊎ (r ≡ 88200) ⊎ (r ≡ 96000)

-- A sum below 2 ^ 55 has room for every multiple of 4, and one below 2 ^ 56 for those of 8
exact_multiple_4 : (a b : ℕ) → a + b < 2 ^ 55 → (a + b) % 4 ≡ 0 → add_double a b ≡ a + b
unfolding add_double
exact_multiple_4 a b h m =
    nearest-multiple_4 (a + b) (excess 20 53 (a + b)) (excess-le 20 53 (a + b) 2 (omega arith)) m

exact_multiple_8 : (a b : ℕ) → a + b < 2 ^ 56 → (a + b) % 8 ≡ 0 → add_double a b ≡ a + b
unfolding add_double
exact_multiple_8 a b h m =
    nearest-multiple_8 (a + b) (excess 20 53 (a + b)) (excess-le 20 53 (a + b) 3 (omega arith)) m

-- Rounding does not pass a whole number of frames
add_double-le : (a b : ℕ) → a + b < 13 * unit → add_double a b ≤ 13 * unit
unfolding add_double
add_double-le a b h =
    nearest-le (a + b) (excess 20 53 (a + b)) (13 * 2 ^ 49)
      (excess-le 20 53 (a + b) 3 (omega arith)) (omega arith)

ruleset quotients = (quotient_44100, quotient_48000, quotient_88200, quotient_96000)

frames_per_packet-le : (r : ℕ) → IsSupported r → frames_per_packet r ≤ 12 * unit
frames_per_packet-le r (inl e) = rw (e, quotient_44100) (omega arith)
frames_per_packet-le r (inr (inl e)) = rw (e, quotient_48000) (omega arith)
frames_per_packet-le r (inr (inr (inl e))) = rw (e, quotient_88200) (omega arith)
frames_per_packet-le r (inr (inr (inr e))) = rw (e, quotient_96000) (omega arith)

-- Whatever is left from before, a packet has at most 13 frames, and less than one is left over
pub pace_bounds : (r a : ℕ) → IsSupported r → a < unit → ((pace r a).1 ≤ 13) × ((pace r a).0 < unit)
unfolding pace
pace_bounds r a s h =
    let few : add_double a (frames_per_packet r) ≤ 13 * unit =
      add_double-le a (frames_per_packet r) (omega (arith, frames_per_packet-le r s)) in
    (omega arith, omega arith)

-- The multiples that the sums keep to at each rate
abbrev pub grid : ℕ → ℕ
grid r = if ltb r 88200 then 4 else 8

module _ (a : ℕ) (small : a < unit) where
  abbrev Exact : ℕ → Type 0
  Exact r =
      a % grid r ≡ 0
      → (add_double a (frames_per_packet r) ≡ a + frames_per_packet r)
        × ((a + frames_per_packet r) % unit % grid r ≡ 0)

  Exact-44100 : Exact 44100
  Exact-44100 m = rw quotient_44100 (exact_multiple_4 a _ (omega arith) (omega arith), omega arith)

  Exact-48000 : Exact 48000
  Exact-48000 m = rw quotient_48000 (exact_multiple_4 a _ (omega arith) (omega arith), omega arith)

  Exact-88200 : Exact 88200
  Exact-88200 m = rw quotient_88200 (exact_multiple_8 a _ (omega arith) (omega arith), omega arith)

  Exact-96000 : Exact 96000
  Exact-96000 m = rw quotient_96000 (exact_multiple_8 a _ (omega arith) (omega arith), omega arith)

  pub Exact-supported : (r : ℕ) → IsSupported r → Exact r
  Exact-supported r (inl e) = rw e Exact-44100
  Exact-supported r (inr (inl e)) = rw e Exact-48000
  Exact-supported r (inr (inr (inl e))) = rw e Exact-88200
  Exact-supported r (inr (inr (inr e))) = rw e Exact-96000

-- Playback packets one after the other: the accumulator and the frames so far
unfoldable pub paced : ℕ → ℕ → ℕ × ℕ
paced r zero = (0, 0)
paced r (suc n) = let (a, total) = paced r n in let (a', frames) = pace r a in (a', total + frames)

-- No part of a frame is lost
pub record IsKept (r n : ℕ) : Type 0 where
  pub left : (paced r n).0 < unit
  pub aligned : (paced r n).0 % grid r ≡ 0
  pub conserved : (paced r n).1 * unit + (paced r n).0 ≡ n * frames_per_packet r

pub paced-IsKept : (r n : ℕ) → IsSupported r → IsKept r n
unfolding paced pace
paced-IsKept r zero s = record {
  left = omega arith;
  aligned = ground arith;
  conserved = omega arith;
}
paced-IsKept r (suc n) s =
    let k = paced-IsKept r n s in
    let (sum, next) = Exact-supported (paced r n).0 k.left r s k.aligned in
    record {
      left = omega arith;
      aligned = rw sum next;
      conserved = rw sum (omega (arith, k.conserved));
    }

-- The nearest double is above the rate by less than one part in 2 ^ 50
nominal :
    (r : ℕ)
    → IsSupported r
    → (r * unit ≤ 8000 * frames_per_packet r) × (8000 * frames_per_packet r ≤ r * unit + 12800)
nominal r (inl e) = rw (e, quotient_44100) (omega arith)
nominal r (inr (inl e)) = rw (e, quotient_48000) (omega arith)
nominal r (inr (inr (inl e))) = rw (e, quotient_88200) (omega arith)
nominal r (inr (inr (inr e))) = rw (e, quotient_96000) (omega arith)

scale_le : (n a b : ℕ) → a ≤ b → n * a ≤ n * b
scale_le n a b h = grind arith

-- For the first 2 ^ 38 packets, about a year, playback has sent exactly the whole frames of n packet
-- times of 1/8000 second
pub paced_floor : (r n : ℕ) → IsSupported r → n < 2 ^ 38 → (paced r n).1 ≡ n * r / 8000
paced_floor r n s h =
    let k = paced-IsKept r n s in
    let (low, high) = nominal r s in
    omega (
      arith,
      k.left,
      k.conserved,
      scale_le n (r * unit) (8000 * frames_per_packet r) low,
      scale_le n (8000 * frames_per_packet r) (r * unit + 12800) high,
    )
