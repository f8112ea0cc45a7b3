-- ===== src/Driver/Packets/Playback.antt =====
-- The playback transfer stays inside its buffer.
use native.Mathlib.Nat.{add-zero, add-suc, suc-add}
use r_compatible_driver_v.Base.{
  ℕ, zero, suc, ◌+◌, ◌*◌, ◌/◌, ◌%◌, ◌≤◌, ◌<◌, [], Option, ◌≡◌, refl, ◌∙◌, arith, All, All-append,
}
use r_compatible_driver_v.Driver.Samples.{Float32, pace, unit}
use r_compatible_driver_v.Driver.Packets.{
  frames_per_request, play_lanes, PlaybackSide, play_frame, play_frames, play_packet, play_packets,
}
use r_compatible_driver_v.Driver.Samples.Pace.{IsSupported, pace_bounds}

-- A loop over frames changes the samples only.
record IsSameSide (s t : PlaybackSide) : Type 0 where
  same_counts : t.request_counts ≡ s.request_counts
  same_accumulator : t.accumulator ≡ s.accumulator
  same_offset : t.byte_offset ≡ s.byte_offset

frames-IsSameSide :
    (capacity n frame : ℕ) (audio : ℕ → Float32) (s : PlaybackSide)
    → IsSameSide s (play_frames capacity n frame audio s)
unfolding play_frames play_frame
frames-IsSameSide capacity zero frame audio s = ground arith
frames-IsSameSide capacity (suc n) frame audio s =
    let rest = frames-IsSameSide capacity n (frame + 1) audio (play_frame capacity frame audio s) in
    record {
      same_counts = rest.same_counts;
      same_accumulator = rest.same_accumulator;
      same_offset = rest.same_offset;
    }

-- Past the lanes of a frame, and past the frames of a packet, nothing is stored.
lanes_kept :
    (n channel : ℕ) (audio : ℕ → Float32) (from : ℕ) (words : ℕ → Option ℕ) (to j : ℕ)
    → to + channel + n ≤ j
    → play_lanes n channel audio from words to j ≡ words j
unfolding play_lanes
lanes_kept zero channel audio from words to j h = refl
lanes_kept (suc n) channel audio from words to j h =
    lanes_kept n (channel + 1) audio from _ to j (omega arith) ∙ ground arith

frames_kept :
    (capacity n frame : ℕ) (audio : ℕ → Float32) (s : PlaybackSide) (j : ℕ)
    → s.byte_offset / 4 + (frame + n) * 6 ≤ j
    → (play_frames capacity n frame audio s).words j ≡ s.words j
unfolding play_frames play_frame
frames_kept capacity zero frame audio s j h = refl
frames_kept capacity (suc n) frame audio s j h =
    frames_kept capacity n (frame + 1) audio (play_frame capacity frame audio s) j (omega arith)
    ∙ lanes_kept 6 0 audio _ s.words (s.byte_offset / 4 + frame * 6) j (omega arith)

-- What a transfer of so many packets is allowed
pub record IsWithin (old : ℕ → Option ℕ) (n : ℕ) (s : PlaybackSide) : Type 0 where
  pub small : All (λ bytes. bytes ≤ 312) s.request_counts
  pub inside : s.byte_offset ≤ n * 312
  pub left : s.accumulator < unit
  pub aligned : s.byte_offset % 4 ≡ 0
  pub untouched : (j : ℕ) → n * 78 ≤ j → s.words j ≡ old j

packet-IsWithin :
    (capacity rate : ℕ) (audio : ℕ → Float32) (old : ℕ → Option ℕ) (n : ℕ) (s : PlaybackSide)
    → IsSupported rate
    → IsWithin old n s
    → IsWithin old (suc n) (play_packet capacity rate audio s)
unfolding play_packet
packet-IsWithin capacity rate audio old n s r h =
    let (few, small) = pace_bounds rate s.accumulator r h.left in
    let frames = (pace rate s.accumulator).1 in
    let same = frames-IsSameSide capacity frames 0 audio s in
    record {
      small =
          rw same.same_counts
            (All-append (λ bytes. bytes ≤ 312) s.request_counts _ h.small (omega arith, tt));
      inside = rw same.same_offset (omega (arith, h.inside));
      left = small;
      aligned = rw same.same_offset (omega (arith, h.aligned));
      untouched = λ j l.
          frames_kept capacity frames 0 audio s j (omega (arith, h.inside))
          ∙ h.untouched j (omega arith);
    }

packets-IsWithin :
    (capacity rate : ℕ) (audio : ℕ → Float32) (old : ℕ → Option ℕ) (n m : ℕ) (s : PlaybackSide)
    → IsSupported rate
    → IsWithin old m s
    → IsWithin old (m + n) (play_packets capacity rate n audio s)
unfolding play_packets
packets-IsWithin capacity rate audio old zero m s r h = rw add-zero h
packets-IsWithin capacity rate audio old (suc n) m s r h =
    rw (add-suc, ← suc-add)
      (packets-IsWithin capacity rate audio old n (suc m) (play_packet capacity rate audio s) r
        (packet-IsWithin capacity rate audio old m s r h))

-- At every supported rate, whatever fraction of a frame is left over from before: each of the sixteen
-- packets of a transfer has at most 312 bytes, so the transfer stays below the 16 * 416 bytes of its
-- buffer, no int32 from 16 * 78 on is stored to, and less than a frame is left over again.
pub play_packets-IsWithin :
    (capacity rate : ℕ) (audio : ℕ → Float32) (words : ℕ → Option ℕ) (sample_frame accumulator : ℕ)
    → IsSupported rate
    → accumulator < unit
    → IsWithin words 16 (
        play_packets capacity rate frames_per_request audio (record {
          words = words;
          request_counts = [];
          sample_frame = sample_frame;
          accumulator = accumulator;
          byte_offset = 0;
        }))
play_packets-IsWithin capacity rate audio words sample_frame accumulator r h =
    packets-IsWithin capacity rate audio words 16 0 _ r (record {
      small = tt;
      inside = omega arith;
      left = h;
      aligned = omega arith;
      untouched = λ j l. refl;
    })
