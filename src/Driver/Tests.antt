-- ===== src/Driver/Tests.antt =====
-- Concrete runs of the driver, and the theorems at concrete inputs.
use r_compatible_driver_v.Driver.StartStop.{start_io_outcome, Begun, Anything}
use r_compatible_driver_v.Driver.Standing.{IsStanding, IsAbandoned}
use r_compatible_driver_v.Driver.Reach.{Reach-IsStanding, start, stop, here, next}
use r_compatible_driver_v.Driver.Rates.Follow.{follow_outcome, rate_commands, Any, AtRate}
use r_compatible_driver_v.Driver.Watchdog.{monitor_spacing, IsWaiting, IsRestarted}
use r_compatible_driver_v.Driver.Samples.RoundTrip.{play-capture}
use r_compatible_driver_v.Driver.Samples.Bounds.{play-undefined}
use r_compatible_driver_v.Driver.Samples.Pace.{paced, paced_floor}
use r_compatible_driver_v.Driver.Packets.Capture.{capture_packets_lem, sources, frame_sources}
use r_compatible_driver_v.Driver.Packets.Playback.{play_packets-IsWithin, IsWithin}
use r_compatible_driver_v.Driver.Handlers.{half_made_request, input_isoch_complete-succeeds}
use r_compatible_driver_v.Driver.Ready.{IsReady}
use r_compatible_driver_v.Driver.UserClient.{external_method, set_clock_source_method}
use r_compatible_driver_v.Driver.UserClient.Refusals.{
  external_method_lem, one_scalar, asked_for, Extends,
}
use r_compatible_driver_v.Driver.Transport.Walk.{find_interfaces_lem, ends_within, listed, IsFound}
use r_compatible_driver_v.Driver.Hoare.{Outcome}
use r_compatible_driver_v.Driver.Service.{
  start_driver, stop_driver, init, init_device, name_elements,
}
use r_compatible_driver_v.Driver.Service.Handle.{
  start_stop_driver, IsHost, IsReleased, IsOpened, IsCrashed, NoCrash, is_handle,
}
use r_compatible_driver_v.Driver.Rates.{update_latency_properties}
use r_compatible_driver_v.Base.{
  ℕ, ◌+◌, ◌*◌, ◌%◌, ◌^◌, ◌≤◌, Bool, true, false, [], ◌∷◌, some, none, ltb, ◌==◌, if◌then◌else◌, ◌≡◌,
  ◌≢◌, ◌⊎◌, ◌↔◌, inl, inr, refl, sym, ◌∙◌, arith, length, replicate,
}
use r_compatible_driver_v.Driver.Host.{
  Direction, input, output, Call, Platform, Reply, ok, err, crash, Request, ◌>>=◌, call, try,
  refused, open_device, register_service, device_request, copy_interface, create_frame_list,
  map_stream, bad_argument, busy, create_io_buffer, create_mapping,
}
use r_compatible_driver_v.Driver.Clock.{
  set_usb_hardware_rate, set_usb_clock_source, read_usb_clock_status, set_clock_source,
}
use r_compatible_driver_v.Driver.Samples.{
  Float32, finite, nearest_even, excess, capture_sample, play_sample, clamp, to_int32,
  round_to_float,
}
use r_compatible_driver_v.Driver.Packets.{CaptureSide, capture_packets, play_packets}
use r_compatible_driver_v.Driver.Completions.{
  completed, underran, Dev, publish_timestamp, take_capture, arm_capture, input_isoch_complete,
  give_playback, arm_playback, output_isoch_complete,
}
use r_compatible_driver_v.Driver.Transport.{
  find_interfaces, create_request, create_requests, prime, assert_clock, open_pipes, launch,
  start_usb_transport,
}
use r_compatible_driver_v.Driver.Rates.{update_timers, handle_change_sample_rate}
use r_compatible_driver_v.Driver.Streaming.{
  start_timers, start_io, stop_io, monitor_and_recover_transport,
}

-- A platform on which every call succeeds: its state counts the calls. The first fourteen find the
-- two interfaces in turn.
calm : Platform ℕ
calm c n = (record { status = 0; count = count c; value = value c }, n + 1)
  where
    count : Call → ℕ
    count (device_request kind request v index length payload) = length
    count copy_interface = if ltb n 14 then 1 else 0
    count c = 1

    value : Call → ℕ
    value (device_request kind request v index length payload) =
        if index == 0x8001 then 1 else 48000
    value copy_interface = 3 + n % 2
    value (map_stream direction) = 1048576
    value c = 1

abbrev fresh : {X : Type 0} → (ℕ → X) → Request X
fresh words = record {
  data_descriptor = false;
  frame_descriptor = false;
  data_map = false;
  frame_map = false;
  action = false;
  scheduled_frame = 0;
  complete_counts = replicate 16 0;
  request_counts = replicate 16 0;
  words = words;
}

-- A device that was configured and has not started
abbrev parked : Dev ℕ
parked = record {
  world = 0;
  calls = [];
  monitor_interval_ticks = 0;
  sample_rate = 48000;
  output_memory_map = none;
  input_memory_map = none;
  timer_event_source = true;
  usb_device = true;
  usb_input_interface = false;
  usb_output_interface = false;
  usb_input_pipe = false;
  usb_output_pipe = false;
  usb_input_requests = λ i. fresh (λ j. 0);
  usb_output_requests = λ i. fresh (λ j. none);
  usb_next_input_frame = 0;
  usb_next_output_frame = 0;
  usb_input_sample_frame = 0;
  usb_output_sample_frame = 0;
  usb_anchor_frame = 0;
  usb_anchor_host_time = 0;
  host_ticks_per_usb_frame = 0;
  last_input_completion_time = 0;
  last_output_completion_time = 0;
  next_recovery_time = 0;
  usb_output_accumulator = 0;
  usb_running = false;
  io_active = false;
  usb_clock_source = 1;
  usb_clock_valid = 2;
  pending_external_rate = 0;
  output_stream = true;
  input_stream = true;
  timer_action = true;
  driver_work_queue = true;
  driver_device = true;
  driver_usb_device = true;
  client_provider = true;
  client_ivars = true;
}

abbrev silence : Direction → ℕ → Float32
silence direction i = finite false 0 0

abbrev started : Reply (Unit {0}) × Dev ℕ
started = start_io calm silence parked

-- A start succeeds, and the transport runs with sixteen transfers queued.
starts_test :
    (started.0 ≡ ok tt) × (started.1.usb_running ≡ true) × (started.1.usb_next_input_frame ≡ 42)
unfolding start_io calm ◌>>=◌ try call assert_clock set_usb_hardware_rate start_usb_transport
    find_interfaces open_pipes launch create_requests create_request prime input_isoch_complete
    output_isoch_complete arm_capture publish_timestamp take_capture arm_playback give_playback
    start_timers update_timers
starts_test = (refl, refl, refl)

start_io_outcome_example : Outcome IsAbandoned Anything (λ _. Begun) started
start_io_outcome_example = start_io_outcome calm silence parked refl

abbrev ended : Dev ℕ
ended = (stop_io calm started.1).1

Reach-IsStanding_example : IsStanding ended
Reach-IsStanding_example = Reach-IsStanding calm parked ended refl refl (
    next (next here (start silence parked refl (λ e. not_crash (sym starts_test.0 ∙ e))))
      (stop started.1))
  where
    not_crash : ◌≡◌ {A = Reply (Unit {0})} (ok tt) crash → ⊥
    not_crash e = cc

-- Locked to an external clock of 48 kHz
abbrev slaved : Dev ℕ
slaved = record parked { usb_clock_source = 2 }

follow_outcome_example :
    let x = handle_change_sample_rate calm 48000 slaved in
    (rate_commands x.1.calls ≡ 0) × Outcome Any Any (λ _. AtRate 48000) x
follow_outcome_example = follow_outcome calm 48000 slaved (omega arith)

monitor_spacing_example :
    let e = (monitor_and_recover_transport calm 5 started.1).1 in
    IsWaiting started.1 e ⊎ IsRestarted 5 started.1 e
monitor_spacing_example = monitor_spacing calm 5 started.1

play-capture_example : play_sample (capture_sample 4294967040) ≡ some 4294967040
play-capture_example = play-capture 4294967040 (omega arith) (omega arith)

play-undefined_example :
    (play_sample (finite false 8388608 126) ≡ none) ↔ (2 ^ 149 ≤ 8388608 * 2 ^ 126)
play-undefined_example = play-undefined (finite false 8388608 126)

-- The largest sample that the device can deliver becomes 1.0, which playback does not convert.
loopback_test : play_sample (capture_sample 2147483647) ≡ none
unfolding play_sample capture_sample clamp to_int32 round_to_float nearest_even excess
loopback_test = refl

paced_floor_example : (paced 44100 8000).1 ≡ 44100
paced_floor_example = paced_floor 44100 8000 (inl refl) (omega arith)

abbrev lanes : ℕ → ℕ
lanes j = j * 256

abbrev silent_side : CaptureSide
silent_side = record { audio = λ j. finite false 0 0; sample_frame = 3 }

capture_packets_lem_example :
    let t = capture_packets 32768 (64 ∷ []) 0 lanes silent_side in
    (t.audio ((3 + 1) % 32768 * 8 + 2) ≡ capture_sample (lanes (8 + 2)))
    × (t.audio (9 * 8 + 2) ≡ finite false 0 0)
unfolding sources frame_sources
capture_packets_lem_example =
    capture_packets_lem 32768 (64 ∷ []) lanes silent_side 1 9 2 (omega arith) (omega arith)
      (omega arith) refl (λ k l. ground arith)

play_packets-IsWithin_example :
    IsWithin
      (λ j. none)
      16
      (play_packets 32768 88200 16
        (λ j. finite false 0 0)
        (record {
          words = λ j. none;
          request_counts = [];
          sample_frame = 7;
          accumulator = 5;
          byte_offset = 0;
        }))
play_packets-IsWithin_example =
    play_packets-IsWithin 32768 88200 (λ j. finite false 0 0) (λ j. none) 7 5 (inr (inr (inl refl)))
      (omega arith)

-- A platform that has no memory for frame lists
scarce : Platform ℕ
scarce create_frame_list n = (record { status = 1; count = 0; value = 0 }, n + 1)
scarce c n = (record { status = 0; count = 1; value = 0 }, n + 1)

half_made_request_example :
    let e = (create_request scarce input 2 parked).1 in
    ((create_request scarce input 2 parked).0 ≢ ok tt)
    × (create_request scarce input 2 e ≡ (ok tt, e))
    × ((input_isoch_complete scarce 2 completed e).0 ≡ crash)
half_made_request_example =
    half_made_request scarce 2 parked (refl, refl) (unfold scarce call in (refl, omega arith))

-- 260 is judged as 4.
external_method_lem_example :
    let x = external_method calm set_clock_source_method (one_scalar 257) parked in
    ((257 % 256 ≡ 0) ⊎ (4 ≤ 257 % 256) → x ≡ (err bad_argument, parked))
    × (1 ≤ 257 % 256 → 257 % 256 ≤ 3 → false ≡ true → x ≡ (err busy, parked))
    × (1 ≤ 257 % 256
        → 257 % 256 ≤ 3
        → false ≡ false
        → ((calm (create_io_buffer 1) 0).0.status == 0) ≡ true
        → ((calm create_mapping 1).0.status == 0) ≡ true
        → Extends (asked_for (257 % 256) parked) x.1.calls)
unfolding calm
external_method_lem_example = external_method_lem calm parked 257 refl refl refl refl

-- And 257 as 1, the internal clock
truncation_test : (set_clock_source calm 257 parked).0 ≡ ok tt
unfolding set_clock_source set_usb_clock_source read_usb_clock_status ◌>>=◌ try call calm
truncation_test = refl

abbrev walking : Dev ℕ
walking = record parked { world = 10 }

find_interfaces_lem_example :
    IsFound calm (listed calm 4 10) walking (find_interfaces calm 256 walking)
find_interfaces_lem_example =
    find_interfaces_lem calm 4 251 walking (unfold ends_within calm in refl)

abbrev whole : Request ℕ
whole = record (fresh (λ j. 0)) { data_map = true; frame_map = true; action = true }

abbrev streaming : Dev ℕ
streaming = record parked {
  usb_running = true;
  usb_input_pipe = true;
  usb_output_pipe = true;
  input_memory_map = some (record { bytes = 1048576; samples = silence input });
  output_memory_map = some (record { bytes = 786432; samples = silence output });
  usb_input_requests = λ i. whole;
}

input_isoch_complete-succeeds_example :
    let x = input_isoch_complete scarce 3 underran streaming in (x.0 ≡ ok tt) × IsReady x.1
input_isoch_complete-succeeds_example =
    input_isoch_complete-succeeds scarce 3 underran streaming (ground arith) (ground arith)
      (omega arith)

-- A platform whose state is 1 while the USB device is held open, and 0 otherwise; it registers no
-- service.
abbrev lent : Platform ℕ
lent c n = (
  record { status = status c; count = 1; value = 1 },
  if is_handle c then (if is_open c then 1 else 0) else n,
)
  where
    status : Call → ℕ
    status register_service = 1
    status c = 0

    is_open : Call → Bool
    is_open open_device = true
    is_open c = false

abbrev is_held : ℕ → Bool
is_held n = n == 1

lent-IsHost : IsHost lent is_held
lent-IsHost = record {
  opens = λ w e. refl;
  refuses = λ w e. cc;
  closes = λ w. refl;
  others = λ c w q. rw q refl;
}

abbrev unstarted : Dev ℕ
unstarted = record parked {
  driver_work_queue = false;
  driver_device = false;
  driver_usb_device = false;
}

-- Without the service the start fails, and the device is closed again.
unregistered_test :
    ((start_driver lent unstarted).0 ≡ err (refused 1))
    × ((start_driver lent unstarted).1.world ≡ 0)
unfolding start_driver init init_device name_elements update_latency_properties ◌>>=◌ try call
unregistered_test = (refl, refl)

start_stop_driver_example :
    Outcome
      (IsReleased is_held)
      (IsCrashed lent is_held)
      (λ _. IsOpened is_held)
      (start_driver lent unstarted)
    × Outcome
        (IsReleased is_held)
        NoCrash
        (λ _. IsReleased is_held)
        (stop_driver lent (start_driver lent unstarted).1)
start_stop_driver_example = start_stop_driver lent is_held lent-IsHost unstarted refl
