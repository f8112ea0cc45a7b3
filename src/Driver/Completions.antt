-- ===== src/Driver/Completions.antt =====
-- ElevenRackDriverExtension/ElevenRackDevice.cpp: the two completion handlers,
-- InputIsochComplete_Impl and OutputIsochComplete_Impl.
use r_compatible_driver_v.Base.{
  ℕ, ◌+◌, ◌-◌, ◌*◌, ◌/◌, Bool, false, not, ◌&&◌, ◌||◌, List, [], ◌∷◌, Option, some, none, ltb, leb,
  ◌==◌, if◌then◌else◌, u64, replicate,
}
use r_compatible_driver_v.Driver.Host.{
  input, output, Platform, AudioMap, Device, Do, ◌>>=◌, ◌>>◌, pure, crashed, get, modify, when,
  needs, call, absolute_time, isoch_io, update_zero_timestamp,
}
use r_compatible_driver_v.Driver.Samples.{Float32}
use r_compatible_driver_v.Driver.Packets.{
  input_channels, output_channels, frames_per_request, store, CaptureSide, capture_packets,
  PlaybackSide, play_packets,
}

-- The status of a finished transfer: success, kIOReturnUnderrun, or another
pub data Completion : Type 0 where
  completed underran failed : Completion

abbrev pub Dev : Type 0 → Type 0
Dev W = Device W Float32

abbrev pub has_frames : List ℕ → Bool
has_frames [] = false
has_frames (bytes ∷ counts) = ltb 31 bytes || has_frames counts

-- The samples of a mapped buffer change, not the map.
abbrev pub refill : {A : Type 0} → (ℕ → A) → Option (AudioMap A) → Option (AudioMap A)
refill samples none = none
refill samples (some ring) = some (record ring { samples = samples })

module _ {W : Type 0} (p : Platform W) where
  abbrev D : Type 0
  D = Dev W

  -- The zero timestamp that a capture transfer carries, if it was scheduled after the anchor
  unfoldable pub publish_timestamp : ℕ → Do W Float32
  publish_timestamp frame = do
    d ← get
    let host =
        u64 (d.usb_anchor_host_time + (frame - d.usb_anchor_frame) * d.host_ticks_per_usb_frame)
    when (leb d.usb_anchor_frame frame)
        (call p (update_zero_timestamp d.usb_input_sample_frame host) >> pure tt)

  -- The frames of a capture transfer go to the ring, and its packets are reset.
  unfoldable pub take_capture : ℕ → AudioMap Float32 → D → D
  unfolding capture_packets
  take_capture i ring d =
      let r = d.usb_input_requests i in
      let t : CaptureSide =
        capture_packets (ring.bytes / (4 * input_channels)) r.complete_counts 0 r.words
          (record { audio = ring.samples; sample_frame = d.usb_input_sample_frame }) in
      record d {
        input_memory_map = refill t.audio d.input_memory_map;
        usb_input_sample_frame = t.sample_frame;
        usb_input_requests = store d.usb_input_requests i (record r {
          complete_counts = replicate frames_per_request 0;
          request_counts = replicate frames_per_request 416;
        });
      }

  -- The transfer is queued again at the next frame.
  unfoldable pub arm_capture : ℕ → Do W Float32
  arm_capture i = do
    t ← call p absolute_time
    modify (λ d. record d {
      last_input_completion_time = t.value;
      usb_input_requests =
          store d.usb_input_requests i
            (record (d.usb_input_requests i) { scheduled_frame = d.usb_next_input_frame });
    })
    d ← get
    needs d.usb_input_pipe
    a ← call p (isoch_io input i d.usb_next_input_frame)
    modify (λ e.
        if a.status == 0
        then record e {
          usb_next_input_frame = u64 (e.usb_next_input_frame + frames_per_request / 8);
        }
        else record e { usb_running = false })

  abbrev pub fill_capture : ℕ → Option (AudioMap Float32) → Do W Float32
  fill_capture i none = crashed
  fill_capture i (some ring) = do
    d ← get
    publish_timestamp (d.usb_input_requests i).scheduled_frame
    when (ltb ring.bytes 32 && has_frames (d.usb_input_requests i).complete_counts) crashed
    modify (take_capture i ring)

  abbrev pub capture_done : ℕ → Completion → Do W Float32
  capture_done i failed = modify (λ d. record d { usb_running = false })
  capture_done i status = do
    d ← get
    let r = d.usb_input_requests i
    needs (r.frame_map && r.data_map)
    fill_capture i d.input_memory_map
    arm_capture i

  unfoldable pub input_isoch_complete : ℕ → Completion → Do W Float32
  input_isoch_complete i status = do
    d ← get
    needs (d.usb_input_requests i).action
    when d.usb_running (capture_done i status)

  -- The next frames of the ring go to the playback transfer, paced by the accumulator.
  unfoldable pub give_playback : ℕ → AudioMap Float32 → D → D
  unfolding play_packets
  give_playback i ring d =
      let r = d.usb_output_requests i in
      let t : PlaybackSide =
        play_packets (ring.bytes / (4 * output_channels)) d.sample_rate frames_per_request
          ring.samples
          (record {
            words = r.words;
            request_counts = [];
            sample_frame = d.usb_output_sample_frame;
            accumulator = d.usb_output_accumulator;
            byte_offset = 0;
          }) in
      record d {
        usb_output_sample_frame = t.sample_frame;
        usb_output_accumulator = t.accumulator;
        usb_output_requests = store d.usb_output_requests i (record r {
          words = t.words;
          complete_counts = replicate frames_per_request 0;
          request_counts = t.request_counts;
        });
      }

  unfoldable pub arm_playback : ℕ → Do W Float32
  arm_playback i = do
    t ← call p absolute_time
    modify (λ d. record d {
      last_output_completion_time = t.value;
      usb_output_requests =
          store d.usb_output_requests i
            (record (d.usb_output_requests i) { scheduled_frame = d.usb_next_output_frame });
    })
    d ← get
    needs d.usb_output_pipe
    a ← call p (isoch_io output i d.usb_next_output_frame)
    modify (λ e.
        if a.status == 0
        then record e {
          usb_next_output_frame = u64 (e.usb_next_output_frame + frames_per_request / 8);
        }
        else record e { usb_running = false })

  -- Sixteen packets have a frame at every rate from 500 Hz on, so an empty ring is a division by zero.
  abbrev pub drain_playback : ℕ → Option (AudioMap Float32) → Do W Float32
  drain_playback i none = crashed
  drain_playback i (some ring) = do needs (not (ltb ring.bytes 24)); modify (give_playback i ring)

  abbrev pub playback_done : ℕ → Completion → Do W Float32
  playback_done i failed = modify (λ d. record d { usb_running = false })
  playback_done i status = do
    d ← get
    let r = d.usb_output_requests i
    needs (r.frame_map && r.data_map)
    drain_playback i d.output_memory_map
    arm_playback i

  unfoldable pub output_isoch_complete : ℕ → Completion → Do W Float32
  output_isoch_complete i status = do
    d ← get
    needs (d.usb_output_requests i).action
    when d.usb_running (playback_done i status)
