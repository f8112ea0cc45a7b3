-- ===== src/Driver/Rates/Frames.antt =====
-- The changes of rate keep every property that does not look at the calls, the rate, the clock, the
-- pending change or the watchdog's interval.
use r_compatible_driver_v.Base.{ℕ, Bool, true, false, ◌∷◌}
use r_compatible_driver_v.Driver.Host.{Call, Platform, Device, try, timebase_info}
use r_compatible_driver_v.Driver.Rates.{
  update_latency_properties, update_timers, apply_sample_rate, handle_change_sample_rate,
  perform_device_configuration_change, abort_device_configuration_change,
}
use r_compatible_driver_v.Driver.Clock.Frames.{keep_set_rate, keep_read_status}
use r_compatible_driver_v.Driver.Maintain.{
  Maintains, keep_bind, ◌⨟◌, keep_pure, keep_get, keep_modify, keep_choose, keep_when, keep_unless,
  keep_call, keep_try,
}

module _ {W S : Type 0} (p : Platform W) {P : Device W S → Type 0}
    (moves : (c : Call) (w : W) (d : Device W S)
      → P d
      → P (record d { world = w; calls = c ∷ d.calls })) where
  tried : (c : Call) → Maintains P (try p c)
  tried = keep_try p moves

  pub keep_latency : (rate : ℕ) → Maintains P (update_latency_properties p rate)
  unfolding update_latency_properties
  keep_latency rate = tried _ ⨟ tried _ ⨟ tried _ ⨟ tried _ ⨟ tried _ ⨟ tried _ ⨟ keep_pure tt

  module _
      (intervals : (t : ℕ) (d : Device W S)
        → P d
        → P (record d { monitor_interval_ticks = t })) where
    pub keep_timers : Maintains P (update_timers p)
    unfolding update_timers
    keep_timers = keep_bind (keep_call p moves timebase_info) λ base. keep_modify _ (intervals _)

    module _ (sources : (s : ℕ) (d : Device W S) → P d → P (record d { usb_clock_source = s }))
        (rates : (r : ℕ) (d : Device W S) → P d → P (record d { sample_rate = r })) where
      pub keep_apply : (rate : ℕ) (program : Bool) → Maintains P (apply_sample_rate p rate program)
      unfolding apply_sample_rate
      keep_apply rate program =
          keep_unless _ _
          ⨟ keep_when program (keep_set_rate p (λ c w d _. moves c w d) sources rate)
          ⨟ tried _
          ⨟ keep_modify _ (rates rate)
          ⨟ tried _
          ⨟ tried _
          ⨟ keep_latency rate
          ⨟ keep_timers

      module _ (valids : (v : ℕ) (d : Device W S) → P d → P (record d { usb_clock_valid = v }))
          (pendings : (r : ℕ) (d : Device W S)
            → P d
            → P (record d { pending_external_rate = r })) where
        pub keep_change : (rate : ℕ) → Maintains P (handle_change_sample_rate p rate)
        unfolding handle_change_sample_rate
        keep_change rate = keep_bind keep_get λ d. keep_choose _ (keep_apply rate true) (
            keep_bind (keep_read_status p (λ c w d _. moves c w d) sources valids)
              λ s. keep_unless _ _ ⨟ keep_unless _ _ ⨟ keep_apply rate false)

        pub keep_perform : (action : ℕ) → Maintains P (perform_device_configuration_change p action)
        unfolding perform_device_configuration_change
        keep_perform action = keep_bind keep_get λ d. keep_choose _ (keep_change _) (
            keep_choose _ (keep_modify _ (pendings 0) ⨟ keep_apply _ false)
              (tried _ ⨟ keep_pure tt))

        pub keep_abort : (action : ℕ) → Maintains P (abort_device_configuration_change p action)
        unfolding abort_device_configuration_change
        keep_abort action = keep_when _ (keep_modify _ (pendings 0)) ⨟ tried _ ⨟ keep_pure tt
