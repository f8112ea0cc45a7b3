-- ===== src/Driver/Samples.antt =====
-- ElevenRackDriverExtension/ElevenRackDevice.cpp: the arithmetic on float and double of the two
-- completion handlers, by IEEE 754 with rounding to nearest, ties to even.
pub mod Bounds
pub mod Rounding
pub mod RoundTrip
pub mod Pace
use r_compatible_driver_v.Base.{
  ℕ, zero, suc, ◌+◌, ◌-◌, ◌*◌, ◌/◌, ◌%◌, ◌^◌, Bool, true, false, not, ◌&&◌, ◌||◌, Option, some,
  none, ltb, leb, ◌==◌, if◌then◌else◌,
}

-- num / den to the nearest whole number, ties to even
unfoldable pub nearest_even : ℕ → ℕ → ℕ
nearest_even num den =
    let q = num / den in
    let r = num % den in if ltb den (2 * r) || (2 * r == den && q % 2 == 1) then q + 1 else q

-- How many low bits of n a format with `bits` significant bits has no room for; at most `fuel`
unfoldable pub excess : ℕ → ℕ → ℕ → ℕ
excess zero bits n = 0
excess (suc fuel) bits n =
    let more = suc (excess fuel bits (n / 2)) in if ltb n (2 ^ bits) then 0 else more

-- A float: a finite one is m * 2 ^ (e - 149), negated or not.
pub data Float32 : Type 0 where
  finite : (negative : Bool) (m e : ℕ) → Float32
  infinity : (negative : Bool) → Float32
  nan : Float32

-- 1.0f and -1.0f
abbrev pub one : Bool → Float32
one negative = finite negative (2 ^ 23) 126

-- An int32_t is kept as its bits.
abbrev pub is_negative : ℕ → Bool
is_negative w = not (ltb w (2 ^ 31))

abbrev pub magnitude : ℕ → ℕ
magnitude w = if ltb w (2 ^ 31) then w else 2 ^ 32 - w

-- n * 2 ^ -31 in 24 significant bits
unfoldable pub round_to_float : Bool → ℕ → Float32
unfolding nearest_even excess
round_to_float negative n =
    let k = excess 8 24 n in
    let m = nearest_even n (2 ^ k) in
    if m == 2 ^ 24 then finite negative (2 ^ 23) (k + 119) else finite negative m (k + 118)

-- static_cast<float>(sample / 2147483648.0): the quotient is exact in a double.
unfoldable pub capture_sample : ℕ → Float32
unfolding round_to_float
capture_sample w = round_to_float (is_negative w) (magnitude w)

-- The comparisons with 1.0f and -1.0f; a NaN fails both.
unfoldable pub clamp : Float32 → Float32
clamp (finite negative m e) =
    if ltb (2 ^ 149) (m * 2 ^ e) then one negative else finite negative m e
clamp (infinity negative) = one negative
clamp nan = nan

-- static_cast<int32_t>(value * 2147483647.0f): the float nearest to 2147483647 is 2 ^ 31, and a
-- product by it is exact. C++ does not define the cast outside of an int32_t.
unfoldable pub to_int32 : Float32 → Option ℕ
to_int32 (finite false m e) = let t = m * 2 ^ e / 2 ^ 118 in if ltb t (2 ^ 31) then some t else none
to_int32 (finite true m e) =
    let t = m * 2 ^ e / 2 ^ 118 in if leb t (2 ^ 31) then some ((2 ^ 32 - t) % 2 ^ 32) else none
to_int32 (infinity _) = none
to_int32 nan = none

unfoldable pub play_sample : Float32 → Option ℕ
unfolding clamp to_int32
play_sample x = to_int32 (clamp x)

-- A double from 1 to 2 ^ 20, or the accumulator below 1, counts in units of 2 ^ -52, of which a value has 53 bits.
abbrev pub unit : ℕ
unit = 2 ^ 52

-- rate / 8000.0
unfoldable pub frames_per_packet : ℕ → ℕ
unfolding nearest_even excess
frames_per_packet rate =
    let k = excess 20 53 (rate * unit / 8000) in nearest_even (rate * unit) (8000 * 2 ^ k) * 2 ^ k

-- The sum of two doubles
unfoldable pub add_double : ℕ → ℕ → ℕ
unfolding nearest_even excess
add_double a b = let k = excess 20 53 (a + b) in nearest_even (a + b) (2 ^ k) * 2 ^ k

-- The accumulator after a packet, and the packet's frames (the cast truncates; the difference is exact)
unfoldable pub pace : ℕ → ℕ → ℕ × ℕ
unfolding frames_per_packet add_double
pace rate accumulator =
    let s = add_double accumulator (frames_per_packet rate) in (s % unit, s / unit)
