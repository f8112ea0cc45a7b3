-- ===== src/Driver/Streaming.antt =====
-- ElevenRackDriverExtension/ElevenRackDevice.cpp: StartIO, StopIO, the timer and the watchdog
-- (StartTimers, StopTimers, ZtsTimerOccurred_Impl, MonitorAndRecoverTransport).
use r_compatible_driver_v.Base.{
  ℕ, ◌+◌, ◌-◌, ◌*◌, Bool, true, false, not, ◌&&◌, Option, some, none, ltb, ◌==◌, u8, u32, u64,
}
use r_compatible_driver_v.Driver.Host.{
  Direction, input, output, Platform, Do, ◌>>=◌, ◌>>◌, pure, get, modify, unless, when, choose,
  attempt, on_failure, call, try, absolute_time, update_zero_timestamp, super_start_io,
  super_stop_io, stream_memory, map_stream, request_config_change, wake_at, set_timer_enabled,
  no_memory, no_resources,
}
use r_compatible_driver_v.Driver.Clock.{internal, unlocked, ClockStatus, read_usb_clock_status}
use r_compatible_driver_v.Driver.Samples.{Float32}
use r_compatible_driver_v.Driver.Completions.{Dev}
use r_compatible_driver_v.Driver.Transport.{stop_usb_transport, assert_clock, start_usb_transport}
use r_compatible_driver_v.Driver.Rates.{is_supported, update_timers, external_rate_change}

abbrev pub is_stalled : ℕ → ℕ → ℕ → Bool
is_stalled now last threshold = ltb last now && ltb threshold (now - last)

-- Whether the transport is to be restarted at a time
abbrev pub is_due : {W : Type 0} → ℕ → Dev W → Bool
is_due now d =
    let threshold = u64 (d.monitor_interval_ticks * 2) in
    not (
      d.usb_running
      && not (is_stalled now d.last_input_completion_time threshold)
      && not (is_stalled now d.last_output_completion_time threshold))
    && not (not (d.usb_clock_source == internal) && d.usb_clock_valid == unlocked)
    && not (ltb now d.next_recovery_time)

module _ {W : Type 0} (p : Platform W) where
  abbrev D : Type 0
  D = Dev W

  unfoldable pub start_timers : Do W Float32
  start_timers = do
    update_timers p
    d ← get
    unless d.timer_event_source no_resources
    call p (update_zero_timestamp 0 0)
    now ← call p absolute_time
    call p (wake_at (u64 (now.value + d.monitor_interval_ticks)))
    call p (set_timer_enabled true)
    pure tt

  unfoldable pub stop_timers : Do W Float32
  stop_timers = do d ← get; when d.timer_event_source (call p (set_timer_enabled false) >> pure tt)

  -- The mapped buffers; `contents` is what the shared memory of a stream holds.
  abbrev pub map_streams : (Direction → ℕ → Float32) → Do W Float32
  map_streams contents = do
    o ← call p (stream_memory output)
    unless (not (o.count == 0)) no_memory
    out ← try p (map_stream output)
    i ← call p (stream_memory input)
    unless (not (i.count == 0)) no_memory
    inp ← try p (map_stream input)
    modify (λ d. record d {
      output_memory_map = some (record { bytes = out.value; samples = contents output });
      input_memory_map = some (record { bytes = inp.value; samples = contents input });
    })

  abbrev pub note_start : Option (Unit {0}) → Do W Float32
  note_start _ = pure tt

  -- What StartIO does before its Failure label; the result of StartTimers is not looked at.
  abbrev pub begin_io : (Direction → ℕ → Float32) → Do W Float32
  begin_io contents = do
    try p super_start_io
    map_streams contents
    assert_clock p
    start_usb_transport p
    modify (λ d. record d { io_active = true })
    s ← attempt start_timers
    note_start s

  abbrev pub abandon_io : Do W Float32
  abandon_io = do
    modify (λ d. record d { io_active = false })
    call p super_stop_io
    modify (λ d. record d { output_memory_map = none; input_memory_map = none })

  unfoldable pub start_io : (Direction → ℕ → Float32) → Do W Float32
  start_io contents = on_failure (begin_io contents) abandon_io

  unfoldable pub stop_io : Do W Float32
  stop_io = do
    modify (λ d. record d { io_active = false })
    stop_usb_transport p
    stop_timers
    try p super_stop_io
    pure tt

  -- The watchdog asks Core Audio to follow a new rate of an external clock.
  abbrev pub ask_for_rate : ClockStatus → Do W Float32
  ask_for_rate s = do
    d ← get
    when
        (not (s.source == internal)
          && is_supported s.rate
          && not (s.rate == u32 d.sample_rate)
          && d.pending_external_rate == 0)
        do
          modify (λ e. record e { pending_external_rate = s.rate })
          a ← call p (request_config_change external_rate_change)
          when (not (a.status == 0)) (modify (λ e. record e { pending_external_rate = 0 }))

  abbrev pub note_restart : Option (Unit {0}) → Do W Float32
  note_restart _ = pure tt

  unfoldable pub restart : ℕ → Do W Float32
  restart now = do
    d ← get
    when (is_due now d) do
      modify (λ e. record e { next_recovery_time = u64 (now + e.monitor_interval_ticks * 2) })
      stop_usb_transport p
      s ← attempt (start_usb_transport p)
      note_restart s

  -- What the watchdog does with the clock's status: without a lock of an external clock it stops.
  abbrev pub watch : ℕ → Option ClockStatus → Do W Float32
  watch now none = restart now
  watch now (some s) = do
    modify (λ d. record d { usb_clock_valid = u8 s.valid })
    d ← get
    choose (not (s.source == internal) && s.valid == unlocked)
        (when d.usb_running (stop_usb_transport p)) (ask_for_rate s >> restart now)

  unfoldable pub monitor_and_recover_transport : ℕ → Do W Float32
  monitor_and_recover_transport now = do
    d ← get
    when d.io_active do s ← attempt (read_usb_clock_status p); watch now s

  unfoldable pub zts_timer_occurred : ℕ → Do W Float32
  zts_timer_occurred time = do
    monitor_and_recover_transport time
    now ← call p absolute_time
    d ← get
    call p (wake_at (u64 (now.value + d.monitor_interval_ticks)))
    pure tt
