-- ===== src/Engine.antt =====
-- The audio engine of Tools/erengine.c in bridge mode: the capture parser (`feedBytes`,
-- `emitSuperframe`) and the frame counts of playback (`armOut`); the rate changes are in Rates.
pub mod Capture
pub mod Accordion
pub mod Rates
pub mod Tests
use r_compatible_driver_v.Driver.Samples.{pace}
use r_compatible_driver_v.Base.{
  ℕ, zero, suc, ◌+◌, ◌-◌, ◌*◌, ◌/◌, ◌%◌, ◌^◌, Bytes, List, [], ◌∷◌, ◌++◌, take, set, ltb, ◌==◌,
  if◌then◌else◌, u32, bit_or,
}
use r_compatible_driver_v.Ring.{in_ch, out_ch}

-- SF_WORDS by default, FPR and MAX_PKT
abbrev pub sf_words : ℕ
sf_words = 8

abbrev pub fpr : ℕ
fpr = 16

abbrev pub max_pkt : ℕ
max_pkt = 512

-- `gWordPhase`, `gSF` and the capture units handed to the ring so far, each as the words of its
-- channels.
pub record Units : Type 0 where
  pub phase : ℕ
  pub sf : List ℕ
  pub emitted : List (List ℕ)

-- `w`, the bits of an int32_t
abbrev pub word : ℕ → ℕ → ℕ → ℕ → ℕ
word a b c d = bit_or (bit_or (bit_or a (b * 2 ^ 8)) (c * 2 ^ 16)) (u32 (d * 2 ^ 24))

-- One word: into its lane, and the unit out when it was the last lane.
pub take_word : ℕ → Units → Units
take_word w u =
    let lane = u.phase % sf_words in
    let sf = set u.sf lane w in
    record {
      phase = u32 (u.phase + 1);
      sf = sf;
      emitted = if lane == sf_words - 1 then u.emitted ++ (take in_ch sf ∷ []) else u.emitted;
    }

-- The loop over the words, and the bytes that are left over.
pub take_words : Bytes → Units → Units × Bytes
take_words (a ∷ b ∷ c ∷ d ∷ rest) u = take_words rest (take_word (word a b c d) u)
take_words rest u = (u, rest)

-- `feedBytes`, with `gCarry` beside the units
pub feed_bytes : Bytes → Units × Bytes → Units × Bytes
feed_bytes packet (u, carry) = take_words (carry ++ packet) u

-- The packets of the completed requests, in order
abbrev pub feed_packets : List Bytes → Units × Bytes → Units × Bytes
feed_packets [] s = s
feed_packets (p ∷ ps) s = feed_packets ps (feed_bytes p s)

-- gOutAccum, a double in units of 2 ^ -52, and the frames of one microframe. From 8000 Hz on, gHwRate/8000.0
-- is at least 1 and the sum rounds as the code's.
unfoldable pub micro_frames : ℕ → ℕ → ℕ × ℕ
micro_frames rate accum = let (rest, nf) = pace rate accum in (if ltb 12 nf then 12 else nf, rest)

-- The frame counts of `n` microframes, and the accumulator behind them.
unfoldable pub micro_counts : ℕ → ℕ → ℕ → List ℕ × ℕ
micro_counts zero rate accum = ([], accum)
micro_counts (suc n) rate accum =
    let first = micro_frames rate accum in
    let rest = micro_counts n rate first.1 in (first.0 ∷ rest.0, rest.1)

-- `bytes` of one microframe
abbrev pub micro_bytes : ℕ → ℕ
micro_bytes nf = nf * out_ch * 4
