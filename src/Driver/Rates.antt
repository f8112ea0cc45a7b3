-- ===== src/Driver/Rates.antt =====
-- ElevenRackDriverExtension/ElevenRackDevice.cpp: changes of the sample rate (HandleChangeSampleRate,
-- ApplySampleRate, UpdateLatencyProperties, PerformDeviceConfigurationChange,
-- AbortDeviceConfigurationChange) and UpdateTimers. A rate is a whole number of Hz.
pub mod Frames
pub mod Follow
use r_compatible_driver_v.Base.{
  ℕ, ◌+◌, ◌-◌, ◌*◌, ◌/◌, ◌%◌, ◌^◌, Bool, true, false, not, ◌||◌, List, [], ◌∷◌, ◌==◌, if◌then◌else◌,
  get_or,
}
use r_compatible_driver_v.Driver.Host.{
  input, output, Platform, Do, ◌>>=◌, ◌>>◌, pure, get, modify, unless, when, choose, call, try,
  timebase_info, set_sample_rate, stream_rate_changed, set_latency, set_safety_offset,
  set_stream_latency, super_config_change, super_abort_change, not_ready, not_permitted,
  unsupported,
}
use r_compatible_driver_v.Driver.Clock.{
  internal, unlocked, set_usb_hardware_rate, read_usb_clock_status,
}
use r_compatible_driver_v.Driver.Samples.{nearest_even, excess}

-- kSupportedSampleRates
abbrev pub supported_sample_rates : List ℕ
supported_sample_rates = 44100 ∷ 48000 ∷ 88200 ∷ 96000 ∷ []

-- The loop over the table
abbrev pub mem : ℕ → List ℕ → Bool
mem rate [] = false
mem rate (r ∷ rates) = rate == r || mem rate rates

abbrev pub is_supported : ℕ → Bool
is_supported rate = mem rate supported_sample_rates

-- ceil(rate * (num / 2 ^ shift)), by the double nearest to the product
unfoldable pub scaled_ceil : ℕ → ℕ → ℕ → ℕ
unfolding nearest_even excess
scaled_ceil num shift rate =
    let k = excess 64 53 (rate * num) in
    (nearest_even (rate * num) (2 ^ k) * 2 ^ k + 2 ^ shift - 1) / 2 ^ shift

-- The doubles nearest to 0.025, 0.027 and 0.002
unfoldable pub output_latency : ℕ → ℕ
unfolding scaled_ceil
output_latency = scaled_ceil 3602879701896397 57

unfoldable pub input_latency : ℕ → ℕ
unfolding scaled_ceil
input_latency = scaled_ceil 7782220156096217 58

unfoldable pub safety_offset : ℕ → ℕ
unfolding scaled_ceil
safety_offset = scaled_ceil 1152921504606847 59

-- The rate after a rate in the cycle of the table, and the first for one that is not there
abbrev cycle : ℕ → ℕ → List ℕ → ℕ
cycle rate i [] = 44100
cycle rate i (r ∷ rates) =
    if rate == r then get_or supported_sample_rates ((i + 1) % 4) 0 else cycle rate (i + 1) rates

abbrev pub next_rate : ℕ → ℕ
next_rate rate = cycle rate 0 supported_sample_rates

-- k_custom_config_change_action and k_external_rate_config_change_action
abbrev pub custom_change : ℕ
custom_change = 1234

abbrev pub external_rate_change : ℕ
external_rate_change = 1235

module _ {W S : Type 0} (p : Platform W) where
  unfoldable pub update_latency_properties : ℕ → Do W S
  update_latency_properties rate = do
    try p (set_latency output (output_latency rate))
    try p (set_latency input (input_latency rate))
    try p (set_safety_offset output (safety_offset rate))
    try p (set_safety_offset input (safety_offset rate))
    try p (set_stream_latency output)
    try p (set_stream_latency input)
    pure tt

  -- The watchdog's interval, a second of host ticks
  unfoldable pub update_timers : Do W S
  update_timers = do
    base ← call p timebase_info
    modify (λ d. record d { monitor_interval_ticks = 1000000000 * base.value / base.count })

  unfoldable pub apply_sample_rate : ℕ → Bool → Do W S
  apply_sample_rate rate program_hardware = do
    unless (is_supported rate) unsupported
    when program_hardware (set_usb_hardware_rate p rate)
    try p (set_sample_rate rate)
    modify (λ d. record d { sample_rate = rate })
    try p (stream_rate_changed input rate)
    try p (stream_rate_changed output rate)
    update_latency_properties rate
    update_timers

  -- An external clock is followed: its rate may be taken over, not set.
  abbrev pub follow_clock : ℕ → Do W S
  follow_clock rate = do
    s ← read_usb_clock_status p
    unless (not (s.valid == unlocked)) not_ready
    unless (s.rate == rate) not_permitted
    apply_sample_rate rate false

  unfoldable pub handle_change_sample_rate : ℕ → Do W S
  handle_change_sample_rate rate = do
    d ← get
    choose (d.usb_clock_source == internal) (apply_sample_rate rate true) (follow_clock rate)

  abbrev pub take_pending : ℕ → Do W S
  take_pending rate = do
    modify (λ d. record d { pending_external_rate = 0 })
    apply_sample_rate rate false

  unfoldable pub perform_device_configuration_change : ℕ → Do W S
  perform_device_configuration_change action = do
    d ← get
    choose (action == custom_change) (handle_change_sample_rate (next_rate d.sample_rate)) (
        choose (action == external_rate_change) (take_pending d.pending_external_rate)
          (try p (super_config_change action) >> pure tt))

  unfoldable pub abort_device_configuration_change : ℕ → Do W S
  abort_device_configuration_change action = do
    when (action == external_rate_change) (modify (λ d. record d { pending_external_rate = 0 }))
    try p (super_abort_change action)
    pure tt
