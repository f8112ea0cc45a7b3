-- ===== src/Driver/Settled.antt =====
-- Starting and stopping the transport: how each outcome leaves the device.
use r_compatible_driver_v.Base.{ℕ, zero, suc, Bool, true, false, ◌∷◌, ◌≡◌, refl, arith}
use r_compatible_driver_v.Driver.Host.{
  Direction, input, output, Call, Platform, Reply, ok, err, crash, M, pure, try,
  create_interface_iterator, copy_interface, destroy_interface_iterator, open_interface,
  select_alternate, copy_pipe,
}
use r_compatible_driver_v.Driver.Samples.{Float32}
use r_compatible_driver_v.Driver.Completions.{Dev}
use r_compatible_driver_v.Driver.Transport.{
  is_some, stop_usb_transport, find_interfaces, open_pipes, launch, start_usb_transport,
}
use r_compatible_driver_v.Driver.Transport.{stop_pipe, stop_interface}
use r_compatible_driver_v.Driver.Ready.{IsReady, IsSame, IsSame-IsReady, launch-IsSame}
use r_compatible_driver_v.Driver.Hoare.{
  Outcome, Triple, hoare_bind, ◌⨾◌, hoare_get, hoare_pure, hoare_modify, hoare_weaken, hoare_when,
  hoare_unless, hoare_call, hoare_try, hoare_on_failure,
}

-- The standing of the device beside the transport, kept by its stop and its start
pub record IsBeside {W : Type 0} (d e : Dev W) : Type 0 where
  pub beside_input_map : is_some e.input_memory_map ≡ is_some d.input_memory_map
  pub beside_output_map : is_some e.output_memory_map ≡ is_some d.output_memory_map
  pub beside_device : e.usb_device ≡ d.usb_device
  pub beside_active : e.io_active ≡ d.io_active
  pub beside_timer : e.timer_event_source ≡ d.timer_event_source
  pub beside_interval : e.monitor_interval_ticks ≡ d.monitor_interval_ticks
  pub beside_recovery : e.next_recovery_time ≡ d.next_recovery_time
  pub beside_pending : e.pending_external_rate ≡ d.pending_external_rate
  pub beside_rate : e.sample_rate ≡ d.sample_rate

-- Nothing runs, and the pipes and interfaces are given back.
pub record IsStopped {W : Type 0} (d : Dev W) : Type 0 where
  pub idle : d.usb_running ≡ false
  pub input_pipe_gone : d.usb_input_pipe ≡ false
  pub output_pipe_gone : d.usb_output_pipe ≡ false
  pub input_interface_gone : d.usb_input_interface ≡ false
  pub output_interface_gone : d.usb_output_interface ≡ false

-- Stopping makes no error
abbrev pub Never : {W : Type 0} → Dev W → Type 0
Never d = ⊥

module _ {W : Type 0} (p : Platform W) (d0 : Dev W) where
  abbrev pub Idle : Dev W → Type 0
  Idle d = IsBeside d0 d × (d.usb_running ≡ false)

  abbrev NoPipes : Dev W → Type 0
  NoPipes d = Idle d × (d.usb_input_pipe ≡ false) × (d.usb_output_pipe ≡ false)

  Idle-moves :
      (c : Call) (w : W) (d : Dev W) → Idle d → Idle (record d { world = w; calls = c ∷ d.calls })
  Idle-moves c w d h = ground arith

  bare_moves :
      (c : Call) (w : W) (d : Dev W)
      → NoPipes d
      → NoPipes (record d { world = w; calls = c ∷ d.calls })
  bare_moves c w d h = ground arith

  abbrev pub Total : {A : Type 0} → (Dev W → Type 0) → M W Float32 A → (Dev W → Type 0) → Type 0
  Total P m Q = Triple Never Never P m (λ _. Q)

  done : {P : Dev W → Type 0} → Total P (pure tt) P
  done = hoare_pure tt (λ d h. h)

  stop_pipe-Idle :
      (direction : Direction) (there : Bool) → Total Idle (stop_pipe p direction there) Idle
  stop_pipe-Idle direction there =
      hoare_when there (λ d h _. h) (λ _. hoare_call p Idle-moves _ ⨾ done)

  stop_interface-NoPipes :
      (direction : Direction) (there : Bool)
      → Total NoPipes (stop_interface p direction there) NoPipes
  stop_interface-NoPipes direction there =
      hoare_when there (λ d h _. h)
        (λ _. hoare_call p bare_moves _ ⨾ hoare_call p bare_moves _ ⨾ done)

  -- Whatever the device's standing, a stop succeeds and leaves all the rest of it
  pub stop-Total : Total (IsBeside d0) (stop_usb_transport p) (λ d. IsBeside d0 d × IsStopped d)
  unfolding stop_usb_transport
  stop-Total =
      hoare_modify {Q = Idle} _ (λ d h. ground arith)
      ⨾ hoare_get λ d h.
        hoare_weaken Idle (λ e q. rw q h)
          (stop_pipe-Idle input d.usb_input_pipe
            ⨾ stop_pipe-Idle output d.usb_output_pipe
            ⨾ hoare_modify {Q = NoPipes} _ (λ e k. ground arith)
            ⨾ stop_interface-NoPipes input d.usb_input_interface
            ⨾ stop_interface-NoPipes output d.usb_output_interface
            ⨾ hoare_modify _ (λ e k. ground arith))

  -- A stop on the way out of a failure
  never_lem :
      (Q : Dev W → Type 0) (x : Reply (Unit {0}) × Dev W) → Outcome Never Never (λ _. Q) x → Q x.1
  never_lem Q (ok _, d) h = h
  never_lem Q (err c, d) h = absurd h
  never_lem Q (crash, d) h = absurd h

  stop-Idle : (d : Dev W) → IsBeside d0 d → Idle (stop_usb_transport p d).1
  stop-Idle d h =
      let k =
        never_lem (λ e. IsBeside d0 e × IsStopped e) (stop_usb_transport p d)
          (stop-Total.gives d h) in
      (k.0, k.1.idle)

  abbrev Mapped : Dev W → Type 0
  Mapped d = Idle d × (is_some d.input_memory_map ≡ true) × (is_some d.output_memory_map ≡ true)

  Mapped-moves :
      (c : Call) (w : W) (d : Dev W)
      → Mapped d
      → Mapped (record d { world = w; calls = c ∷ d.calls })
  Mapped-moves c w d h = ground arith

  abbrev pub Running : Dev W → Type 0
  Running d = IsBeside d0 d × IsReady d

  abbrev Half : Dev W → Type 0
  Half d = Mapped d × (d.usb_input_pipe ≡ true)

  Half-moves :
      (c : Call) (w : W) (d : Dev W) → Half d → Half (record d { world = w; calls = c ∷ d.calls })
  Half-moves c w d h = ground arith

  open_step : (c : Call) → Triple (IsBeside d0) Running Mapped (try p c) (λ _. Mapped)
  open_step = hoare_try p Mapped-moves (λ d h. h.0.0)

  find : (n : ℕ) → Triple Idle Running Mapped (find_interfaces p n) (λ _. Mapped)
  unfolding find_interfaces
  find zero = hoare_pure tt (λ d h. h)
  find (suc n) = hoare_bind (hoare_call p Mapped-moves copy_interface) λ a.
      hoare_when _ (λ d h _. h) (λ _. hoare_modify {Q = Mapped} _ (λ d h. ground arith) ⨾ find n)

  -- Before the transfers begin an error is all that can go wrong.
  opens : Triple (IsBeside d0) Running Mapped (open_pipes p) (λ _. Running)
  unfolding open_pipes
  opens =
      open_step (open_interface input)
      ⨾ open_step (open_interface output)
      ⨾ open_step (select_alternate input 1)
      ⨾ open_step (select_alternate output 1)
      ⨾ open_step (copy_pipe input 0x83)
      ⨾ hoare_modify {Q = Half} _ (λ d h. ground arith)
      ⨾ hoare_try p Half-moves (λ d h. h.0.0.0) (copy_pipe output 0x03)
      ⨾ hoare_modify {P = Half} {Q = Running} _ (λ d h. ground arith)

  abbrev begun : Dev W → Dev W
  begun d = record d { usb_running = true }

  same_outcome :
      (d : Dev W) (x : Reply (Unit {0}) × Dev W)
      → Running d
      → IsSame (begun d) x.1
      → Outcome (IsBeside d0) Running (λ _. Running) x
  same_outcome d (ok _, e) h s = ground (arith, IsSame-IsReady (begun d) e s)
  same_outcome d (err c, e) h s = ground arith
  same_outcome d (crash, e) h s = ground (arith, IsSame-IsReady (begun d) e s)

  IsSame-self : (d : Dev W) → IsSame (begun d) d
  IsSame-self d = ground arith

  launches : Triple (IsBeside d0) Running Running (launch p) (λ _. Running)
  launches = record {
    gives = λ d h.
        same_outcome d (launch p d) h ((launch-IsSame p (begun d) refl).holds d (IsSame-self d));
  }

  -- A start from a standstill: an error leaves nothing running, and otherwise the transport has
  -- what it reaches for
  pub start-Settled : Triple Idle Running Idle (start_usb_transport p) (λ _. Running)
  unfolding start_usb_transport
  start-Settled = hoare_get λ d h.
      hoare_unless {Q = Mapped} _ _ (λ e q _. rw q h) (λ e q b. rw q (ground arith))
      ⨾ hoare_try p Mapped-moves (λ e k. k.0) create_interface_iterator
      ⨾ find 256
      ⨾ hoare_call p Mapped-moves destroy_interface_iterator
      ⨾ hoare_get λ e k.
        hoare_unless {Q = Mapped} _ _ (λ f q _. rw q k.0) (λ f q b. rw q k)
        ⨾ hoare_on_failure (stop_usb_transport p) (opens ⨾ launches) stop-Idle
