-- ===== src/Driver/Ready.antt =====
-- A device that streams has its maps and its pipes: the methods that only use the transport keep
-- them.
use r_compatible_driver_v.Driver.Clock.Frames.{keep_set_rate, keep_set_source}
use r_compatible_driver_v.Base.{ℕ, zero, suc, ◌+◌, true, ◌∷◌, Option, some, none, ◌≡◌, arith}
use r_compatible_driver_v.Driver.Host.{
  Direction, input, output, Call, Platform, AudioMap, M, call, try, get_frame_number, absolute_time,
  timebase_info,
}
use r_compatible_driver_v.Driver.Samples.{Float32}
use r_compatible_driver_v.Driver.Completions.{
  Completion, completed, underran, failed, Dev, fill_capture, capture_done, drain_playback,
  playback_done, publish_timestamp, take_capture, arm_capture, input_isoch_complete, give_playback,
  arm_playback, output_isoch_complete,
}
use r_compatible_driver_v.Driver.Transport.{
  request_count, is_some, Part, the_data, the_frames, the_data_map, the_frame_map, the_action, mark,
  create_request, create_requests, prime, assert_clock, anchor, begin, launch,
}
use r_compatible_driver_v.Driver.Maintain.{
  Maintains, keep_bind, ◌⨟◌, keep_pure, keep_crashed, keep_get, keep_modify, keep_choose, keep_when,
  keep_needs, keep_call, keep_try,
}

-- The same objects and the same standing of the device: what a running transport leaves alone
pub record IsSame {W : Type 0} (d e : Dev W) : Type 0 where
  pub same_input_map : is_some e.input_memory_map ≡ is_some d.input_memory_map
  pub same_output_map : is_some e.output_memory_map ≡ is_some d.output_memory_map
  pub same_input_pipe : e.usb_input_pipe ≡ d.usb_input_pipe
  pub same_output_pipe : e.usb_output_pipe ≡ d.usb_output_pipe
  pub same_input_interface : e.usb_input_interface ≡ d.usb_input_interface
  pub same_output_interface : e.usb_output_interface ≡ d.usb_output_interface
  pub same_device : e.usb_device ≡ d.usb_device
  pub same_active : e.io_active ≡ d.io_active
  pub same_timer : e.timer_event_source ≡ d.timer_event_source
  pub same_interval : e.monitor_interval_ticks ≡ d.monitor_interval_ticks
  pub same_recovery : e.next_recovery_time ≡ d.next_recovery_time
  pub same_pending : e.pending_external_rate ≡ d.pending_external_rate
  pub same_rate : e.sample_rate ≡ d.sample_rate
  pub no_start : e.usb_running ≡ true → d.usb_running ≡ true

-- What the completion handlers reach for
pub record IsReady {W : Type 0} (d : Dev W) : Type 0 where
  pub mapped_in : is_some d.input_memory_map ≡ true
  pub mapped_out : is_some d.output_memory_map ≡ true
  pub piped_in : d.usb_input_pipe ≡ true
  pub piped_out : d.usb_output_pipe ≡ true

pub IsSame-IsReady : {W : Type 0} (d e : Dev W) → IsSame d e → IsReady d → IsReady e
IsSame-IsReady d e s r = ground arith

module _ {W : Type 0} (p : Platform W) (d0 : Dev W) where
  moves :
      (c : Call) (w : W) (d : Dev W)
      → IsSame d0 d
      → IsSame d0 (record d { world = w; calls = c ∷ d.calls })
  moves c w d h = ground arith

  abbrev Keeps : {A : Type 0} → M W Float32 A → Type 0
  Keeps m = Maintains (IsSame d0) m

  tried : (c : Call) → Keeps (try p c)
  tried = keep_try p moves

  called : (c : Call) → Keeps (call p c)
  called = keep_call p moves

  stamp-IsSame : (frame : ℕ) → Keeps (publish_timestamp p frame)
  unfolding publish_timestamp
  stamp-IsSame frame = keep_bind keep_get λ d. keep_when _ (called _ ⨟ keep_pure tt)

  take-IsSame :
      (i : ℕ) (ring : AudioMap Float32) (d : Dev W)
      → IsSame d0 d
      → IsSame d0 (take_capture p i ring d)
  unfolding take_capture
  take-IsSame i ring d h = ground arith

  fill-IsSame : (i : ℕ) (m : Option (AudioMap Float32)) → Keeps (fill_capture p i m)
  fill-IsSame i none = keep_crashed
  fill-IsSame i (some ring) =
      keep_bind keep_get
        λ d. stamp-IsSame _ ⨟ keep_when _ keep_crashed ⨟ keep_modify _ (take-IsSame i ring)

  arm-IsSame : (i : ℕ) → Keeps (arm_capture p i)
  unfolding arm_capture
  arm-IsSame i = keep_bind (called absolute_time) λ t.
      keep_modify _ (λ d h. ground arith)
      ⨟ keep_bind keep_get
          λ d. keep_needs _ ⨟ keep_bind (called _) λ a. keep_modify _ (λ e h. ground arith)

  capture-IsSame : (i : ℕ) (s : Completion) → Keeps (capture_done p i s)
  capture-IsSame i failed = keep_modify _ (λ d h. ground arith)
  capture-IsSame i completed =
      keep_bind keep_get λ d. keep_needs _ ⨟ fill-IsSame i d.input_memory_map ⨟ arm-IsSame i
  capture-IsSame i underran =
      keep_bind keep_get λ d. keep_needs _ ⨟ fill-IsSame i d.input_memory_map ⨟ arm-IsSame i

  pub input-IsSame : (i : ℕ) (s : Completion) → Keeps (input_isoch_complete p i s)
  unfolding input_isoch_complete
  input-IsSame i s = keep_bind keep_get λ d. keep_needs _ ⨟ keep_when _ (capture-IsSame i s)

  give-IsSame :
      (i : ℕ) (ring : AudioMap Float32) (d : Dev W)
      → IsSame d0 d
      → IsSame d0 (give_playback p i ring d)
  unfolding give_playback
  give-IsSame i ring d h = ground arith

  drain-IsSame : (i : ℕ) (m : Option (AudioMap Float32)) → Keeps (drain_playback p i m)
  drain-IsSame i none = keep_crashed
  drain-IsSame i (some ring) = keep_needs _ ⨟ keep_modify _ (give-IsSame i ring)

  queue-IsSame : (i : ℕ) → Keeps (arm_playback p i)
  unfolding arm_playback
  queue-IsSame i = keep_bind (called absolute_time) λ t.
      keep_modify _ (λ d h. ground arith)
      ⨟ keep_bind keep_get
          λ d. keep_needs _ ⨟ keep_bind (called _) λ a. keep_modify _ (λ e h. ground arith)

  playback-IsSame : (i : ℕ) (s : Completion) → Keeps (playback_done p i s)
  playback-IsSame i failed = keep_modify _ (λ d h. ground arith)
  playback-IsSame i completed =
      keep_bind keep_get λ d. keep_needs _ ⨟ drain-IsSame i d.output_memory_map ⨟ queue-IsSame i
  playback-IsSame i underran =
      keep_bind keep_get λ d. keep_needs _ ⨟ drain-IsSame i d.output_memory_map ⨟ queue-IsSame i

  pub output-IsSame : (i : ℕ) (s : Completion) → Keeps (output_isoch_complete p i s)
  unfolding output_isoch_complete
  output-IsSame i s = keep_bind keep_get λ d. keep_needs _ ⨟ keep_when _ (playback-IsSame i s)

  marked : (direction : Direction) (i : ℕ) (part : Part) → Keeps (mark p direction i part)
  marked input i part = keep_modify _ (λ d h. ground arith)
  marked output i part = keep_modify _ (λ d h. ground arith)

  request-IsSame : (direction : Direction) (i : ℕ) → Keeps (create_request p direction i)
  unfolding create_request
  request-IsSame direction i = keep_bind keep_get λ d. keep_when _ (
      tried _
      ⨟ marked direction i the_data
      ⨟ tried _
      ⨟ marked direction i the_frames
      ⨟ tried _
      ⨟ marked direction i the_data_map
      ⨟ tried _
      ⨟ marked direction i the_frame_map
      ⨟ tried _
      ⨟ marked direction i the_action)

  requests-IsSame : (direction : Direction) (n i : ℕ) → Keeps (create_requests p direction n i)
  unfolding create_requests
  requests-IsSame direction zero i = keep_pure tt
  requests-IsSame direction (suc n) i =
      request-IsSame direction i ⨟ requests-IsSame direction n (i + 1)

  sources : (s : ℕ) (d : Dev W) → IsSame d0 d → IsSame d0 (record d { usb_clock_source = s })
  sources s d h = ground arith

  pub clock-IsSame : Keeps (assert_clock p)
  unfolding assert_clock
  clock-IsSame = keep_bind keep_get λ d.
      keep_choose _ (keep_set_rate p (λ c w d _. moves c w d) sources _)
        (keep_set_source p (λ c w d _. moves c w d) sources _)

  prime-IsSame : (n i : ℕ) → Keeps (prime p n i)
  unfolding prime
  prime-IsSame zero i = keep_pure tt
  prime-IsSame (suc n) i =
      input-IsSame i completed ⨟ output-IsSame i completed ⨟ prime-IsSame n (i + 1)

  -- A launch leaves alone what a device that runs would keep.
  pub launch-IsSame : d0.usb_running ≡ true → Keeps (launch p)
  unfolding launch
  launch-IsSame runs =
      requests-IsSame input request_count 0
      ⨟ requests-IsSame output request_count 0
      ⨟ clock-IsSame
      ⨟ keep_bind (tried get_frame_number) λ a.
        keep_modify (anchor p a) (λ d h. ground arith)
        ⨟ keep_bind (called timebase_info) λ base.
          keep_bind (called absolute_time) λ now.
            keep_modify (begin p base now) (λ d h. ground arith) ⨟ prime-IsSame request_count 0
