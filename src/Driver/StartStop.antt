-- ===== src/Driver/StartStop.antt =====
-- How StartIO and StopIO leave the device.
use r_compatible_driver_v.Base.{ℕ, true, false, ◌∷◌, ◌≡◌, refl, arith}
use r_compatible_driver_v.Driver.Host.{
  Direction, Call, Platform, Reply, ok, err, crash, ◌>>=◌, on_failure, call, try, super_start_io,
  super_stop_io,
}
use r_compatible_driver_v.Driver.Samples.{Float32}
use r_compatible_driver_v.Driver.Completions.{Dev}
use r_compatible_driver_v.Driver.Transport.{is_some, assert_clock, start_usb_transport}
use r_compatible_driver_v.Driver.Rates.Frames.{keep_timers}
use r_compatible_driver_v.Driver.Clock.Frames.{keep_set_rate, keep_set_source}
use r_compatible_driver_v.Driver.Streaming.{
  start_timers, stop_timers, map_streams, begin_io, abandon_io, start_io, stop_io,
}
use r_compatible_driver_v.Driver.Ready.{IsReady}
use r_compatible_driver_v.Driver.Settled.{
  IsBeside, IsStopped, stop-Total, start-Settled, Never, Idle, Running,
}
use r_compatible_driver_v.Driver.Standing.{IsAbandoned}
use r_compatible_driver_v.Driver.Maintain.{
  Maintains, keep_bind, ◌⨟◌, keep_pure, keep_get, keep_choose, keep_when, keep_unless, keep_call,
}
use r_compatible_driver_v.Driver.Hoare.{
  Outcome, Triple, Outcome-fst, hoare_bind, ◌⨾◌, hoare_pure, hoare_modify, hoare_unless, hoare_kept,
  hoare_call, hoare_try, hoare_on_failure, hoare_relax, hoare_attempt,
}

-- Active I/O with all that the transport reaches for
abbrev pub Begun : {W : Type 0} → Dev W → Type 0
Begun d = IsReady d × (d.io_active ≡ true)

-- A crash is no way to go on from
abbrev pub Anything : {W : Type 0} → Dev W → Type 0
Anything d = Unit

-- Inactive I/O and a stopped transport
abbrev pub Ended : {W : Type 0} → Dev W → Type 0
Ended d = (d.io_active ≡ false) × IsStopped d

module _ {W : Type 0} (p : Platform W) where
  abbrev Quiet : Dev W → Type 0
  Quiet d = d.usb_running ≡ false

  abbrev Mapped : Dev W → Type 0
  Mapped d = Quiet d × (is_some d.input_memory_map ≡ true) × (is_some d.output_memory_map ≡ true)

  -- The transport with its maps, before I/O is marked active
  abbrev Prepared : Dev W → Type 0
  Prepared d = IsReady d

  Quiet-moves :
      (c : Call) (w : W) (d : Dev W) → Quiet d → Quiet (record d { world = w; calls = c ∷ d.calls })
  Quiet-moves c w d h = h

  Mapped-moves :
      (c : Call) (w : W) (d : Dev W)
      → Mapped d
      → Mapped (record d { world = w; calls = c ∷ d.calls })
  Mapped-moves c w d h = h

  Mapped-source : (s : ℕ) (d : Dev W) → Mapped d → Mapped (record d { usb_clock_source = s })
  Mapped-source s d h = h

  Begun-moves :
      (c : Call) (w : W) (d : Dev W) → Begun d → Begun (record d { world = w; calls = c ∷ d.calls })
  Begun-moves c w d h = ground arith

  Begun-interval : (t : ℕ) (d : Dev W) → Begun d → Begun (record d { monitor_interval_ticks = t })
  Begun-interval t d h = ground arith

  tried : (c : Call) → Triple Quiet Anything Quiet (try p c) (λ _. Quiet)
  tried = hoare_try p Quiet-moves (λ d h. h)

  maps :
      (contents : Direction → ℕ → Float32)
      → Triple Quiet Anything Quiet (map_streams p contents) (λ _. Mapped)
  maps contents = hoare_bind (hoare_call p Quiet-moves _) λ o.
      hoare_unless {Q = Quiet} _ _ (λ d h _. h) (λ d h _. h)
      ⨾ hoare_bind (tried _) λ out. hoare_bind (hoare_call p Quiet-moves _) λ i.
        hoare_unless {Q = Quiet} _ _ (λ d h _. h) (λ d h _. h)
        ⨾ hoare_bind (tried _)
            λ inp. hoare_modify {P = Quiet} {Q = Mapped} _ (λ d h. (h, refl, refl))

  clock-Mapped : Maintains Mapped (assert_clock p)
  unfolding assert_clock
  clock-Mapped = keep_bind keep_get λ d.
      keep_choose _ (keep_set_rate p (λ c w d _. Mapped-moves c w d) Mapped-source _)
        (keep_set_source p (λ c w d _. Mapped-moves c w d) Mapped-source _)

  -- The start of the transport, from a standstill
  starts : Triple Quiet Anything Mapped (start_usb_transport p) (λ _. IsReady)
  starts = record {
    gives = λ d h. settle d (start_usb_transport p d) ((start-Settled p d).gives d (ground arith));
  }
    where
      settle :
          (d : Dev W) (x : Reply (Unit {0}) × Dev W)
          → Outcome (Idle p d) (Running p d) (λ _. Running p d) x
          → Outcome Quiet Anything (λ _. IsReady) x
      settle d (ok _, e) k = k.1
      settle d (err c, e) k = k.1
      settle d (crash, e) k = tt

  timers-Begun : Maintains Begun (start_timers p)
  unfolding start_timers
  timers-Begun =
      keep_timers p Begun-moves Begun-interval
      ⨟ keep_bind keep_get λ d.
        keep_unless _ _
        ⨟ keep_call p Begun-moves _
        ⨟ keep_bind (keep_call p Begun-moves _)
            λ now. keep_call p Begun-moves _ ⨟ keep_call p Begun-moves _ ⨟ keep_pure tt

  begins :
      (contents : Direction → ℕ → Float32)
      → Triple Quiet Anything Quiet (begin_io p contents) (λ _. Begun)
  begins contents =
      tried super_start_io
      ⨾ maps contents
      ⨾ hoare_kept clock-Mapped (λ d h. h.0) (λ d h. tt)
      ⨾ starts
      ⨾ hoare_modify {P = IsReady} {Q = Begun} _ (λ d h. ground arith)
      ⨾ hoare_bind
          (hoare_attempt {E = Begun} (λ d h. h) (λ _ d h. h)
            (hoare_kept timers-Begun (λ d h. h) (λ d h. tt)))
          λ s. hoare_pure tt (λ d h. h)

  abandons : (d : Dev W) → Quiet d → IsAbandoned (abandon_io p d).1
  unfolding call ◌>>=◌
  abandons d h = ground arith

  -- From a device that does not run, StartIO either succeeds, with I/O active and all that the
  -- transport reaches for in place, or fails and leaves I/O inactive, nothing running and no maps.
  pub start_io_outcome :
      (contents : Direction → ℕ → Float32) (d : Dev W)
      → d.usb_running ≡ false
      → Outcome IsAbandoned Anything (λ _. Begun) (start_io p contents d)
  unfolding start_io
  start_io_outcome contents d h =
      let t : Triple IsAbandoned Anything Quiet (on_failure (begin_io p contents) (abandon_io p))
          (λ _. Begun) =
        hoare_on_failure (abandon_io p) (begins contents) abandons in
      t.gives d h

  Ended-moves :
      (c : Call) (w : W) (d : Dev W) → Ended d → Ended (record d { world = w; calls = c ∷ d.calls })
  Ended-moves c w d h = ground arith

  timer-Ended : Maintains Ended (stop_timers p)
  unfolding stop_timers
  timer-Ended = keep_bind keep_get λ d. keep_when _ (keep_call p Ended-moves _ ⨟ keep_pure tt)

  inactive : Dev W → Dev W
  inactive d = record d { io_active = false }

  ends : (d : Dev W) → Triple Ended Ended (λ e. e ≡ d) (stop_io p) (λ _. Ended)
  unfolding stop_io inactive
  ends d =
      hoare_modify {Q = IsBeside (inactive d)} _ (λ e q. rw q (ground arith))
      ⨾ hoare_relax {E = Never} {C = Never} (λ e k. absurd k) (λ e k. absurd k)
          (λ _ e k. (k.0.beside_active, k.1)) (stop-Total p (inactive d))
      ⨾ hoare_kept timer-Ended (λ e k. k) (λ e k. k)
      ⨾ hoare_try p Ended-moves (λ e k. k) super_stop_io
      ⨾ hoare_pure tt (λ e k. k)

  -- StopIO leaves I/O inactive and the transport stopped, also when the base class refuses.
  pub stop_io_ends : (d : Dev W) → Ended (stop_io p d).1
  stop_io_ends d = Outcome-fst Ended (stop_io p d) ((ends d).gives d refl)
