-- ===== src/Driver/Standing.antt =====
-- The device between two of its methods: what holds of it in every state that Core Audio, the timer
-- and the transfers can lead to.
use r_compatible_driver_v.Base.{
  ℕ, ◌+◌, ◌*◌, Bool, true, false, ◌∷◌, Option, some, none, u8, u64, ◌≡◌, arith,
}
use r_compatible_driver_v.Driver.Host.{
  Call, Platform, Reply, ok, err, crash, attempt, request_config_change,
}
use r_compatible_driver_v.Driver.Clock.{ClockStatus}
use r_compatible_driver_v.Driver.Clock.Frames.{keep_read_status}
use r_compatible_driver_v.Driver.Completions.{
  Completion, Dev, input_isoch_complete, output_isoch_complete,
}
use r_compatible_driver_v.Driver.Transport.{is_some, stop_usb_transport, start_usb_transport}
use r_compatible_driver_v.Driver.Rates.{external_rate_change}
use r_compatible_driver_v.Driver.Streaming.{
  ask_for_rate, watch, restart, monitor_and_recover_transport,
}
use r_compatible_driver_v.Driver.Ready.{
  IsReady, IsSame, IsSame-IsReady, input-IsSame, output-IsSame,
}
use r_compatible_driver_v.Driver.Settled.{
  IsBeside, IsStopped, stop-Total, start-Settled, Never, Idle, Running,
}
use r_compatible_driver_v.Driver.Maintain.{
  Maintains, keep_bind, ◌⨟◌, keep_get, keep_modify, keep_when, keep_attempt, keep_call,
}
use r_compatible_driver_v.Driver.Hoare.{
  Outcome, Triple, hoare_bind, ◌⨾◌, hoare_get, hoare_pure, hoare_modify, hoare_weaken, hoare_when,
  hoare_choose, hoare_kept, hoare_relax, hoare_attempt,
}

-- The transport runs only while I/O is active, and then with its maps and pipes; active I/O has maps.
pub record IsStanding {W : Type 0} (d : Dev W) : Type 0 where
  pub ready : d.usb_running ≡ true → IsReady d
  pub active : d.usb_running ≡ true → d.io_active ≡ true
  pub mapped_in : d.io_active ≡ true → is_some d.input_memory_map ≡ true
  pub mapped_out : d.io_active ≡ true → is_some d.output_memory_map ≡ true

-- A failed start leaves nothing behind.
pub record IsAbandoned {W : Type 0} (d : Dev W) : Type 0 where
  pub inactive : d.io_active ≡ false
  pub idle : d.usb_running ≡ false
  pub no_input : d.input_memory_map ≡ none
  pub no_output : d.output_memory_map ≡ none

module _ {W : Type 0} (p : Platform W) where
  moves :
      (c : Call) (w : W) (d : Dev W)
      → IsStanding d
      → IsStanding (record d { world = w; calls = c ∷ d.calls })
  moves c w d h = ground (arith, h.ready)

  same : (d e : Dev W) → IsSame d e → IsStanding d → IsStanding e
  same d e s h = ground (arith, IsSame-IsReady d e s, h.ready)

  IsSame-self : (d : Dev W) → IsSame d d
  IsSame-self d = ground arith

  pub input-IsStanding :
      (i : ℕ) (s : Completion) → Maintains IsStanding (input_isoch_complete p i s)
  input-IsStanding i s = record {
    holds = λ d h. same d _ ((input-IsSame p d i s).holds d (IsSame-self d)) h;
  }

  pub output-IsStanding :
      (i : ℕ) (s : Completion) → Maintains IsStanding (output_isoch_complete p i s)
  output-IsStanding i s = record {
    holds = λ d h. same d _ ((output-IsSame p d i s).holds d (IsSame-self d)) h;
  }

  Live : Dev W → Type 0
  Live d = IsStanding d × (d.io_active ≡ true)

  -- The device that a restart at a time begins with
  postponed : ℕ → Dev W → Dev W
  postponed now d = record d { next_recovery_time = u64 (now + d.monitor_interval_ticks * 2) }

  -- What is beside the transport carries over to the end of a restart.
  resumed :
      (now : ℕ) (d e : Dev W)
      → Live d
      → IsBeside (postponed now d) e
      → (e.usb_running ≡ true → IsReady e)
      → IsStanding e
  unfolding Live postponed
  resumed now d e h b r = ground (arith, h.0.mapped_in h.1, h.0.mapped_out h.1)

  -- A restart that was abandoned left nothing running.
  idle-IsStanding : (now : ℕ) (d e : Dev W) → Live d → Idle p (postponed now d) e → IsStanding e
  idle-IsStanding now d e h k = resumed now d e h k.0 (λ r. absurd (differ e.usb_running k.1 r))
    where
      differ : (b : Bool) → b ≡ false → b ≡ true → ⊥
      differ b q r = cc

  again-IsStanding :
      (now : ℕ) (d : Dev W)
      → Live d
      → Triple IsStanding IsStanding
          (λ e. IsBeside (postponed now d) e × IsStopped e)
          (attempt (start_usb_transport p))
          (λ _. IsStanding)
  again-IsStanding now d h =
      let d' = postponed now d in
      let runs = λ (e : Dev W) (k : Running p d' e). resumed now d e h k.0 (λ _. k.1) in
      hoare_attempt (λ e k. idle-IsStanding now d e h k) (λ _ e k. k)
        (hoare_relax (λ e k. k) runs (λ _ e k. runs e k)
          (hoare_weaken (Idle p d') (λ e k. (k.0, k.1.idle)) (start-Settled p d')))

  restart-IsStanding :
      (now : ℕ) → Triple IsStanding IsStanding Live (restart p now) (λ _. IsStanding)
  unfolding restart
  restart-IsStanding now = hoare_get λ d h.
      hoare_when _ (λ e q _. rw q (unfold Live in h.0))
        λ _.
          hoare_modify {Q = IsBeside (postponed now d)} _
            (λ e q. rw q (unfold postponed in ground arith))
          ⨾ hoare_relax {E = Never} {C = Never} (λ e k. absurd k) (λ e k. absurd k) (λ _ e k. k)
              (stop-Total p (postponed now d))
          ⨾ hoare_bind (again-IsStanding now d h) (λ s. hoare_pure tt (λ e k. k))

  -- Live is kept by all that the watchdog does but stop and start.
  Live-moves :
      (c : Call) (w : W) (d : Dev W) → Live d → Live (record d { world = w; calls = c ∷ d.calls })
  unfolding Live
  Live-moves c w d h = (moves c w d h.0, h.1)

  Live-source : (s : ℕ) (d : Dev W) → Live d → Live (record d { usb_clock_source = s })
  unfolding Live
  Live-source s d h = ground (arith, h.0.ready)

  Live-valid : (v : ℕ) (d : Dev W) → Live d → Live (record d { usb_clock_valid = v })
  unfolding Live
  Live-valid v d h = ground (arith, h.0.ready)

  Live-pending : (r : ℕ) (d : Dev W) → Live d → Live (record d { pending_external_rate = r })
  unfolding Live
  Live-pending r d h = ground (arith, h.0.ready)

  ask-Live : (s : ClockStatus) → Maintains Live (ask_for_rate p s)
  ask-Live s = keep_bind keep_get λ d. keep_when _ (
      keep_modify _ (Live-pending s.rate)
      ⨟ keep_bind (keep_call p Live-moves (request_config_change external_rate_change))
          λ a. keep_when _ (keep_modify _ (Live-pending 0)))

  standing : (d : Dev W) → Live d → IsStanding d
  unfolding Live
  standing d h = h.0

  resting : (d e : Dev W) → IsStanding d → IsBeside d e → e.usb_running ≡ false → IsStanding e
  resting d e h b r = ground (arith, h.mapped_in, h.mapped_out)

  -- A stop keeps the standing, by what it leaves beside the transport
  pub stop-IsStanding : Maintains IsStanding (stop_usb_transport p)
  stop-IsStanding = record {
    holds = λ d h. stopped d h (stop_usb_transport p d) ((stop-Total p d).gives d (beside_self d));
  }
    where
      beside_self : (d : Dev W) → IsBeside d d
      beside_self d = ground arith

      stopped :
          (d : Dev W)
          → IsStanding d
          → (x : Reply (Unit {0}) × Dev W)
          → Outcome Never Never (λ _ e. IsBeside d e × IsStopped e) x
          → IsStanding x.1
      stopped d h (ok _, e) k = resting d e h k.0 k.1.idle
      stopped d h (err c, e) k = absurd k
      stopped d h (crash, e) k = absurd k

  live : (d : Dev W) → IsStanding d → d.io_active ≡ true → Live d
  unfolding Live
  live d h a = (h, a)

  watch-IsStanding :
      (now : ℕ) (s : Option ClockStatus)
      → Triple IsStanding IsStanding Live (watch p now s) (λ _. IsStanding)
  watch-IsStanding now none = restart-IsStanding now
  watch-IsStanding now (some s) =
      hoare_modify {Q = Live} _ (λ d h. Live-valid (u8 s.valid) d h)
      ⨾ hoare_get λ d h.
        hoare_weaken Live (λ e q. rw q h)
          (hoare_choose _
            (hoare_when _ (λ e k _. standing e k)
              (λ _.
                hoare_weaken IsStanding standing
                  (hoare_kept stop-IsStanding (λ e k. k) (λ e k. k))))
            (hoare_kept (ask-Live s) standing standing ⨾ restart-IsStanding now))

  pub monitor-IsStanding :
      (now : ℕ)
      → Triple IsStanding IsStanding IsStanding
          (monitor_and_recover_transport p now)
          (λ _. IsStanding)
  unfolding monitor_and_recover_transport
  monitor-IsStanding now = hoare_get λ d h.
      hoare_when _ (λ e q _. rw q h)
        λ a.
          hoare_weaken Live (λ e q. rw q (live d h a))
            (hoare_bind
              (hoare_kept
                (keep_attempt
                  (keep_read_status p (λ c w d _. Live-moves c w d) Live-source Live-valid))
                standing standing)
              (watch-IsStanding now))
