-- ===== src/Driver/Samples/Bounds.antt =====
-- How far playback conversion is defined, and how many frames a packet gets.
use r_compatible_driver_v.Base.{◌*◌, ◌^◌, ◌≤◌, true, false, none, ◌≡◌, ◌↔◌, arith}
use r_compatible_driver_v.Driver.Samples.{Float32, finite, infinity, nan, play_sample}

-- A sample that is no number, or is 1.0 or more
abbrev pub IsFullScale : Float32 → Type 0
IsFullScale (finite false m e) = 2 ^ 149 ≤ m * 2 ^ e
IsFullScale (finite true m e) = ⊥
IsFullScale (infinity false) = Unit {0}
IsFullScale (infinity true) = ⊥
IsFullScale nan = Unit {0}

-- The conversion of a sample for playback is undefined exactly for a NaN and for 1.0 or more
pub play-undefined : (x : Float32) → (play_sample x ≡ none) ↔ IsFullScale x
unfolding play_sample
play-undefined (finite false m e) = ground arith
play-undefined (finite true m e) = ground arith
play-undefined (infinity false) = ground arith
play-undefined (infinity true) = ground arith
play-undefined nan = ground arith
