-- ===== src/Driver/Packets/Capture.antt =====
-- Where the frames of a capture transfer go.
use r_compatible_driver_v.Base.{
  ℕ, zero, suc, ◌+◌, ◌-◌, ◌*◌, ◌/◌, ◌%◌, ◌^◌, ◌≤◌, ◌<◌, ◌&&◌, List, [], ◌∷◌, ◌++◌, some, ltb, leb,
  if◌then◌else◌, ◌≡◌, ◌≢◌, refl, sym, ap, ◌∙◌, arith, length, get_elem?,
}
use r_compatible_driver_v.Driver.Samples.{Float32, capture_sample}
use r_compatible_driver_v.Driver.Packets.{
  input_channels, packet_words, capture_lanes, CaptureSide, capture_frame, capture_frames,
  capture_packets,
}

-- The frames of a packet, each by its first word in the transfer
unfoldable pub frame_sources : ℕ → ℕ → ℕ → List ℕ
frame_sources zero frame source = []
frame_sources (suc n) frame source =
    (source + frame * input_channels) ∷ frame_sources n (frame + 1) source

-- The frames of a transfer in their order
unfoldable pub sources : List ℕ → ℕ → List ℕ
sources [] packet = []
sources (bytes ∷ counts) packet =
    frame_sources (bytes / 32) 0 (packet * packet_words) ++ sources counts (packet + 1)

-- Frame after frame
capture_all : ℕ → (ℕ → ℕ) → List ℕ → CaptureSide → CaptureSide
capture_all capacity words [] s = s
capture_all capacity words (from ∷ rest) s =
    capture_all capacity words rest (capture_frame capacity words from s)

capture_all-append :
    (capacity : ℕ) (words : ℕ → ℕ) (xs ys : List ℕ) (s : CaptureSide)
    → capture_all capacity words (xs ++ ys) s
      ≡ capture_all capacity words ys (capture_all capacity words xs s)
unfolding capture_all
capture_all-append capacity words [] ys s = refl
capture_all-append capacity words (x ∷ xs) ys s =
    capture_all-append capacity words xs ys (capture_frame capacity words x s)

frames-all :
    (capacity n frame : ℕ) (words : ℕ → ℕ) (source : ℕ) (s : CaptureSide)
    → capture_frames capacity n frame words source s
      ≡ capture_all capacity words (frame_sources n frame source) s
unfolding capture_all frame_sources capture_frames
frames-all capacity zero frame words source s = refl
frames-all capacity (suc n) frame words source s =
    frames-all capacity n (frame + 1) words source
      (capture_frame capacity words (source + frame * input_channels) s)

packets-all :
    (capacity : ℕ) (counts : List ℕ) (packet : ℕ) (words : ℕ → ℕ) (s : CaptureSide)
    → capture_packets capacity counts packet words s
      ≡ capture_all capacity words (sources counts packet) s
unfolding capture_all sources capture_packets
packets-all capacity [] packet words s = refl
packets-all capacity (bytes ∷ counts) packet words s =
    rw
      (
        capture_all-append capacity words (frame_sources (bytes / 32) 0 (packet * packet_words))
            (sources counts (packet + 1)) s,
        ← frames-all capacity (bytes / 32) 0 words (packet * packet_words) s,
      )
      (packets-all capacity counts (packet + 1) words
        (capture_frames capacity (bytes / 32) 0 words (packet * packet_words) s))

-- The lanes of one frame, and nothing else
lanes_lem :
    (n channel : ℕ) (words : ℕ → ℕ) (from : ℕ) (audio : ℕ → Float32) (to j : ℕ)
    → capture_lanes n channel words from audio to j ≡ (
        if leb (to + channel) j && ltb j (to + channel + n)
        then capture_sample (words (from + (j - to)))
        else audio j)
unfolding capture_lanes
lanes_lem zero channel words from audio to j = ground arith
lanes_lem (suc n) channel words from audio to j =
    lanes_lem n (channel + 1) words from _ to j ∙ ground arith

apart : (a k c : ℕ) → 0 < k → k < c → (a + k) % c ≢ a % c
apart a k c p q = λ e. grind arith

-- One frame takes the ring's next place, and leaves every other
module _ (capacity : ℕ) (words : ℕ → ℕ) (from : ℕ) (s : CaptureSide) where
  frame_lem :
      (j : ℕ)
      → let to = s.sample_frame % capacity * 8 in
        (capture_frame capacity words from s).audio j ≡ (
          if leb to j && ltb j (to + 8)
          then capture_sample (words (from + (j - to)))
          else s.audio j)
  unfolding capture_frame
  frame_lem j =
      let to = s.sample_frame % capacity * 8 in lanes_lem 8 0 words from s.audio to j ∙ ground arith

  frame_placed :
      (c : ℕ)
      → c < 8
      → (capture_frame capacity words from s).audio (s.sample_frame % capacity * 8 + c)
        ≡ capture_sample (words (from + c))
  frame_placed c h = frame_lem (s.sample_frame % capacity * 8 + c) ∙ ground arith

  frame_kept :
      (q c : ℕ)
      → c < 8
      → q ≢ s.sample_frame % capacity
      → (capture_frame capacity words from s).audio (q * 8 + c) ≡ s.audio (q * 8 + c)
  frame_kept q c h n = frame_lem (q * 8 + c) ∙ ground arith

  frame_next :
      s.sample_frame + 1 < 2 ^ 64
      → (capture_frame capacity words from s).sample_frame ≡ s.sample_frame + 1
  unfolding capture_frame
  frame_next h = omega arith

-- Places that no frame takes keep their samples
all_kept :
    (capacity : ℕ) (words : ℕ → ℕ) (rest : List ℕ) (s : CaptureSide) (q c : ℕ)
    → s.sample_frame + length rest < 2 ^ 64
    → c < 8
    → ((i : ℕ) → i < length rest → q ≢ (s.sample_frame + i) % capacity)
    → (capture_all capacity words rest s).audio (q * 8 + c) ≡ s.audio (q * 8 + c)
unfolding capture_all
all_kept capacity words [] s q c w h n = refl
all_kept capacity words (from ∷ rest) s q c w h n =
    let t = capture_frame capacity words from s in
    let next : t.sample_frame ≡ s.sample_frame + 1 =
      frame_next capacity words from s (omega arith) in
    all_kept capacity words rest t q c (omega arith) h
      (λ i l e. n (i + 1) (omega arith) (e ∙ later next i))
    ∙ frame_kept capacity words from s q c h (λ e. n 0 (omega arith) (e ∙ first))
  where
    first : s.sample_frame % capacity ≡ (s.sample_frame + 0) % capacity
    first = ap (λ x. x % capacity) (omega arith)

    later :
        {t : ℕ}
        → t ≡ s.sample_frame + 1
        → (i : ℕ) → (t + i) % capacity ≡ (s.sample_frame + (i + 1)) % capacity
    later e i = ap (λ x. x % capacity) (omega arith)

-- The frame at a position of the transfer is at that position of the ring, counted from the start
all_placed :
    (capacity : ℕ) (words : ℕ → ℕ) (froms : List ℕ) (s : CaptureSide) (i c : ℕ) {from : ℕ}
    → s.sample_frame + length froms < 2 ^ 64
    → length froms ≤ capacity
    → c < 8
    → get_elem? froms i ≡ some from
    → (capture_all capacity words froms s).audio ((s.sample_frame + i) % capacity * 8 + c)
      ≡ capture_sample (words (from + c))
unfolding capture_all
all_placed capacity words [] s i c w l h g = cc
all_placed capacity words (x ∷ rest) s zero c w l h g =
    let t = capture_frame capacity words x s in
    let next : t.sample_frame ≡ s.sample_frame + 1 = frame_next capacity words x s (omega arith) in
    ap (λ q. (capture_all capacity words rest t).audio (q * 8 + c))
      (ap (λ n. n % capacity) (omega arith))
    ∙ all_kept capacity words rest t (s.sample_frame % capacity) c (omega arith) h (λ j m e.
      apart s.sample_frame (j + 1) capacity (omega arith) (omega arith)
        (ap (λ n. n % capacity) (omega arith) ∙ sym e))
    ∙ frame_placed capacity words x s c h
    ∙ ap (λ n. capture_sample (words (n + c))) (cc)
all_placed capacity words (x ∷ rest) s (suc i) c w l h g =
    let t = capture_frame capacity words x s in
    let next : t.sample_frame ≡ s.sample_frame + 1 = frame_next capacity words x s (omega arith) in
    ap (λ q. (capture_all capacity words rest t).audio (q * 8 + c))
      (ap (λ n. n % capacity) (omega arith))
    ∙ all_placed capacity words rest t i c (omega arith) (omega arith) h g

-- A capture transfer puts its frames at the next places of the ring, in their order, each lane by
-- the conversion of its int32, if the ring has a place for each and the position does not wrap at
-- 2 ^ 64; a place that none of them takes keeps its samples.
pub capture_packets_lem :
    (capacity : ℕ) (counts : List ℕ) (words : ℕ → ℕ) (s : CaptureSide) (i q c : ℕ) {from : ℕ}
    → s.sample_frame + length (sources counts 0) < 2 ^ 64
    → length (sources counts 0) ≤ capacity
    → c < 8
    → get_elem? (sources counts 0) i ≡ some from
    → ((k : ℕ) → k < length (sources counts 0) → q ≢ (s.sample_frame + k) % capacity)
    → let t = capture_packets capacity counts 0 words s in
      (t.audio ((s.sample_frame + i) % capacity * 8 + c) ≡ capture_sample (words (from + c)))
      × (t.audio (q * 8 + c) ≡ s.audio (q * 8 + c))
capture_packets_lem capacity counts words s i q c w l h g n =
    rw (packets-all capacity counts 0 words s) (
      all_placed capacity words (sources counts 0) s i c w l h g,
      all_kept capacity words (sources counts 0) s q c w h n,
    )
