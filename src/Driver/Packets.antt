-- ===== src/Driver/Packets.antt =====
-- ElevenRackDriverExtension/ElevenRackDevice.cpp: the packet loops of InputIsochComplete_Impl and
-- OutputIsochComplete_Impl, between the int32 lanes of the USB packets and the float frames of the
-- Core Audio ring. Positions in a buffer of int32 or float count elements, not bytes.
pub mod Capture
pub mod Playback
use r_compatible_driver_v.Base.{
  ℕ, zero, suc, ◌+◌, ◌*◌, ◌/◌, ◌%◌, List, [], ◌∷◌, ◌++◌, Option, ◌==◌, if◌then◌else◌, u64,
}
use r_compatible_driver_v.Driver.Samples.{Float32, capture_sample, play_sample, pace}

-- kInputChannels, kOutputChannels, kUSBFramesPerRequest, and kUSBMaxPacket in int32s
abbrev pub input_channels : ℕ
input_channels = 8

abbrev pub output_channels : ℕ
output_channels = 6

abbrev pub frames_per_request : ℕ
frames_per_request = 16

abbrev pub packet_words : ℕ
packet_words = 104

-- A store to one element
abbrev pub store : {A : Type 0} → (ℕ → A) → ℕ → A → ℕ → A
store f i v j = if j == i then v else f j

-- The loop over the channels of one frame: from a word on, to a sample on
unfoldable pub capture_lanes : ℕ → ℕ → (ℕ → ℕ) → ℕ → (ℕ → Float32) → ℕ → ℕ → Float32
capture_lanes zero channel words from audio to = audio
capture_lanes (suc n) channel words from audio to =
    capture_lanes n (channel + 1) words from
      (store audio (to + channel) (capture_sample (words (from + channel)))) to

-- The capture ring and m_usb_input_sample_frame
pub record CaptureSide : Type 0 where
  pub audio : ℕ → Float32
  pub sample_frame : ℕ

-- One frame, to the ring's next place
unfoldable pub capture_frame : ℕ → (ℕ → ℕ) → ℕ → CaptureSide → CaptureSide
capture_frame capacity words from s = record {
  audio =
      capture_lanes input_channels 0 words from s.audio
        (s.sample_frame % capacity * input_channels);
  sample_frame = u64 (s.sample_frame + 1);
}

-- The frames of one packet
unfoldable pub capture_frames : ℕ → ℕ → ℕ → (ℕ → ℕ) → ℕ → CaptureSide → CaptureSide
capture_frames capacity zero frame words source s = s
capture_frames capacity (suc n) frame words source s =
    capture_frames capacity n (frame + 1) words source
      (capture_frame capacity words (source + frame * input_channels) s)

-- The loop over the packets, by their completeCount in bytes
unfoldable pub capture_packets : ℕ → List ℕ → ℕ → (ℕ → ℕ) → CaptureSide → CaptureSide
capture_packets capacity [] packet words s = s
capture_packets capacity (bytes ∷ counts) packet words s =
    capture_packets capacity counts (packet + 1) words
      (capture_frames capacity (bytes / (4 * input_channels)) 0 words (packet * packet_words) s)

-- The channels of one frame of playback
unfoldable pub play_lanes : ℕ → ℕ → (ℕ → Float32) → ℕ → (ℕ → Option ℕ) → ℕ → ℕ → Option ℕ
play_lanes zero channel audio from words to = words
play_lanes (suc n) channel audio from words to =
    play_lanes n (channel + 1) audio from
      (store words (to + channel) (play_sample (audio (from + channel)))) to

-- The transfer's buffer, the requestCount of its packets, m_usb_output_sample_frame, the
-- accumulator and the bytes used
pub record PlaybackSide : Type 0 where
  pub words : ℕ → Option ℕ
  pub request_counts : List ℕ
  pub sample_frame : ℕ
  pub accumulator : ℕ
  pub byte_offset : ℕ

-- One frame, from the ring's next place
unfoldable pub play_frame : ℕ → ℕ → (ℕ → Float32) → PlaybackSide → PlaybackSide
play_frame capacity frame audio s = record s {
  words =
      play_lanes output_channels 0 audio (s.sample_frame % capacity * output_channels) s.words
        (s.byte_offset / 4 + frame * output_channels);
  sample_frame = u64 (s.sample_frame + 1);
}

unfoldable pub play_frames : ℕ → ℕ → ℕ → (ℕ → Float32) → PlaybackSide → PlaybackSide
play_frames capacity zero frame audio s = s
play_frames capacity (suc n) frame audio s =
    play_frames capacity n (frame + 1) audio (play_frame capacity frame audio s)

-- One packet at a rate
unfoldable pub play_packet : ℕ → ℕ → (ℕ → Float32) → PlaybackSide → PlaybackSide
play_packet capacity rate audio s =
    let (left, frames) = pace rate s.accumulator in
    let t = play_frames capacity frames 0 audio s in
    let bytes = frames * output_channels * 4 in
    record t {
      accumulator = left;
      request_counts = t.request_counts ++ bytes ∷ [];
      byte_offset = t.byte_offset + bytes;
    }

unfoldable pub play_packets : ℕ → ℕ → ℕ → (ℕ → Float32) → PlaybackSide → PlaybackSide
play_packets capacity rate zero audio s = s
play_packets capacity rate (suc n) audio s =
    play_packets capacity rate n audio (play_packet capacity rate audio s)
