-- ===== src/Driver/Reach.antt =====
-- The device over time: the steps that Core Audio, the user client, the timer and the transfers
-- make, in any order.
use r_compatible_driver_v.Base.{
  ℕ, Bool, true, Bool-cases, inl, inr, false, List, ◌∷◌, ◌≡◌, ◌≢◌, refl, arith,
}
use r_compatible_driver_v.Driver.Host.{
  Direction, Call, Platform, Reply, ok, err, crash, absolute_time,
}
use r_compatible_driver_v.Driver.Clock.{set_clock_source}
use r_compatible_driver_v.Driver.Samples.{Float32}
use r_compatible_driver_v.Driver.Packets.{store}
use r_compatible_driver_v.Driver.Completions.{
  Completion, Dev, refill, input_isoch_complete, output_isoch_complete,
}
use r_compatible_driver_v.Driver.Rates.{
  perform_device_configuration_change, abort_device_configuration_change,
}
use r_compatible_driver_v.Driver.Rates.Frames.{keep_perform, keep_abort}
use r_compatible_driver_v.Driver.Clock.Frames.{keep_set_clock_source}
use r_compatible_driver_v.Driver.Streaming.{
  start_io, stop_io, monitor_and_recover_transport, zts_timer_occurred,
}
use r_compatible_driver_v.Driver.Standing.{
  IsStanding, IsAbandoned, input-IsStanding, output-IsStanding, monitor-IsStanding,
}
use r_compatible_driver_v.Driver.StartStop.{start_io_outcome, stop_io_ends, Begun, Anything, Ended}
use r_compatible_driver_v.Driver.Maintain.{
  Maintains, keep_bind, ◌⨟◌, keep_pure, keep_get, keep_call,
}
use r_compatible_driver_v.Driver.Hoare.{Outcome, Outcome-fst}

module _ {W : Type 0} (p : Platform W) where
  -- One step. Core Audio starts I/O only while it is not active, and after a crash there is no next
  -- step. The controller fills a transfer, and clients write samples, at any time.
  pub data Step : Dev W → Dev W → Type 0 where
    start :
        (contents : Direction → ℕ → Float32) (d : Dev W)
        → d.io_active ≡ false
        → (start_io p contents d).0 ≢ crash
        → Step d (start_io p contents d).1
    stop : (d : Dev W) → Step d (stop_io p d).1
    tick : (now : ℕ) (d : Dev W) → Step d (zts_timer_occurred p now d).1
    captured : (i : ℕ) (s : Completion) (d : Dev W) → Step d (input_isoch_complete p i s d).1
    played : (i : ℕ) (s : Completion) (d : Dev W) → Step d (output_isoch_complete p i s d).1
    changed : (action : ℕ) (d : Dev W) → Step d (perform_device_configuration_change p action d).1
    aborted : (action : ℕ) (d : Dev W) → Step d (abort_device_configuration_change p action d).1
    source : (s : ℕ) (d : Dev W) → Step d (set_clock_source p s d).1
    filled :
        (i : ℕ) (counts : List ℕ) (words : ℕ → ℕ) (d : Dev W)
        → Step d (record d {
          usb_input_requests =
              store d.usb_input_requests i
                (record (d.usb_input_requests i) { complete_counts = counts; words = words });
        })
    written :
        (samples : ℕ → Float32) (d : Dev W)
        → Step d (record d { output_memory_map = refill samples d.output_memory_map })

  pub data Reach (d : Dev W) : Dev W → Type 0 where
    here : Reach d d
    next : {e f : Dev W} → Reach d e → Step e f → Reach d f

  moves :
      (c : Call) (w : W) (d : Dev W)
      → IsStanding d
      → IsStanding (record d { world = w; calls = c ∷ d.calls })
  moves c w d h = ground (arith, h.ready)

  sources : (s : ℕ) (d : Dev W) → IsStanding d → IsStanding (record d { usb_clock_source = s })
  sources s d h = ground (arith, h.ready)

  valids : (v : ℕ) (d : Dev W) → IsStanding d → IsStanding (record d { usb_clock_valid = v })
  valids v d h = ground (arith, h.ready)

  pendings :
      (r : ℕ) (d : Dev W) → IsStanding d → IsStanding (record d { pending_external_rate = r })
  pendings r d h = ground (arith, h.ready)

  intervals :
      (t : ℕ) (d : Dev W) → IsStanding d → IsStanding (record d { monitor_interval_ticks = t })
  intervals t d h = ground (arith, h.ready)

  rates : (r : ℕ) (d : Dev W) → IsStanding d → IsStanding (record d { sample_rate = r })
  rates r d h = ground (arith, h.ready)

  started :
      (x : Reply (Unit {0}) × Dev W)
      → Outcome IsAbandoned Anything (λ _. Begun) x
      → x.0 ≢ crash
      → IsStanding x.1
  started (ok _, d) h n = ground arith
  started (err c, d) h n = ground arith
  started (crash, d) h n = absurd (n refl)

  stopped : (d : Dev W) → Ended d → IsStanding d
  stopped d h = ground arith

  both : (b : Bool) → b ≡ true → b ≡ false → ⊥
  both true e f = cc
  both false e f = cc

  still : (d : Dev W) → d.io_active ≡ false → IsStanding d → d.usb_running ≡ false
  still d idle h = elim (Bool-cases d.usb_running) [
    | inl e ↦ absurd (both d.io_active (h.active e) idle)
    | inr e ↦ e
  ]

  tick-IsStanding : (now : ℕ) → Maintains IsStanding (zts_timer_occurred p now)
  unfolding zts_timer_occurred
  tick-IsStanding now =
      record {
        holds = λ d h.
            Outcome-fst IsStanding (monitor_and_recover_transport p now d)
              ((monitor-IsStanding p now).gives d h);
      }
      ⨟ keep_bind (keep_call p moves absolute_time)
          λ t. keep_bind keep_get λ d. keep_call p moves _ ⨟ keep_pure tt

  pub Step-IsStanding : {d e : Dev W} → Step d e → IsStanding d → IsStanding e
  Step-IsStanding (start contents d idle n) h =
      started (start_io p contents d) (start_io_outcome p contents d (still d idle h)) n
  Step-IsStanding (stop d) h = stopped (stop_io p d).1 (stop_io_ends p d)
  Step-IsStanding (tick now d) h = (tick-IsStanding now).holds d h
  Step-IsStanding (captured i s d) h = (input-IsStanding p i s).holds d h
  Step-IsStanding (played i s d) h = (output-IsStanding p i s).holds d h
  Step-IsStanding (changed a d) h =
      (keep_perform p moves intervals sources rates valids pendings a).holds d h
  Step-IsStanding (aborted a d) h =
      (keep_abort p moves intervals sources rates valids pendings a).holds d h
  Step-IsStanding (source s d) h =
      (keep_set_clock_source p (λ c w d _. moves c w d) sources valids s).holds d h
  Step-IsStanding (filled i counts words d) h = ground (arith, h.ready)
  Step-IsStanding (written samples d) h = ground (arith, h.ready)

  -- In every state that the steps lead to from an inactive device, the transport runs only while I/O
  -- is active, and then both maps and both pipes are there. I/O is started only while it is not active,
  -- and a start that crashes leads nowhere.
  pub Reach-IsStanding :
      (d e : Dev W) → d.usb_running ≡ false → d.io_active ≡ false → Reach d e → IsStanding e
  Reach-IsStanding d e r a here = ground arith
  Reach-IsStanding d f r a (next {e = e} path s) = Step-IsStanding s (Reach-IsStanding d e r a path)
