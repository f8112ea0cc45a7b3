-- ===== src/Driver/Watchdog.antt =====
-- When the watchdog restarts the transport.
use r_compatible_driver_v.Base.{
  List, [], false, refl, if◌then◌else◌, ℕ, ◌+◌, ◌*◌, ◌≤◌, true, false, ◌∷◌, Option, some, none, u8,
  u64, ◌≡◌, ◌⊎◌, inl, inr, arith,
}
use r_compatible_driver_v.Driver.Host.{
  Call, Platform, Reply, ok, err, crash, attempt, request_config_change, is_start, call,
}
use r_compatible_driver_v.Driver.Clock.{ClockStatus}
use r_compatible_driver_v.Driver.Clock.Frames.{keep_read_status}
use r_compatible_driver_v.Driver.Samples.{Float32}
use r_compatible_driver_v.Driver.Completions.{Dev}
use r_compatible_driver_v.Driver.Transport.{stop_usb_transport, start_usb_transport}
use r_compatible_driver_v.Driver.Rates.{external_rate_change}
use r_compatible_driver_v.Driver.Streaming.{
  ask_for_rate, watch, is_due, restart, monitor_and_recover_transport,
}
use r_compatible_driver_v.Driver.Settled.{
  IsBeside, IsStopped, stop-Total, start-Settled, Never, Idle, Running,
}
use r_compatible_driver_v.Driver.Maintain.{
  Maintains, keep_bind, ◌⨟◌, keep_get, keep_modify, keep_when, keep_attempt, keep_call_one,
  keep_pure,
}
use r_compatible_driver_v.Driver.Hoare.{
  Outcome, Triple, Outcome-fst, hoare_bind, ◌⨾◌, hoare_get, hoare_pure, hoare_modify, hoare_weaken,
  hoare_when, hoare_choose, hoare_kept, hoare_relax, hoare_attempt,
}

-- How often the start of the transport has been tried
abbrev pub attempts : List Call → ℕ
attempts [] = 0
attempts (c ∷ calls) = let n = attempts calls in if is_start c then n + 1 else n

-- From one device to another no start was tried, nothing runs that did not, and the next restart is as far off as it was.
pub record IsWaiting {W : Type 0} (d e : Dev W) : Type 0 where
  pub no_attempt : attempts e.calls ≡ attempts d.calls
  pub no_start : e.usb_running ≡ true → d.usb_running ≡ true
  pub same_recovery : e.next_recovery_time ≡ d.next_recovery_time
  pub same_interval : e.monitor_interval_ticks ≡ d.monitor_interval_ticks

-- A restart was due, and the next is two intervals off.
pub record IsRestarted {W : Type 0} (now : ℕ) (d e : Dev W) : Type 0 where
  pub due : d.next_recovery_time ≤ now
  pub postponed : e.next_recovery_time ≡ u64 (now + d.monitor_interval_ticks * 2)

module _ {W : Type 0} (p : Platform W) (now : ℕ) (d0 : Dev W) where
  Either : Dev W → Type 0
  Either e = IsWaiting d0 e ⊎ IsRestarted now d0 e

  moves :
      (c : Call) (w : W) (d : Dev W)
      → is_start c ≡ false
      → IsWaiting d0 d
      → IsWaiting d0 (record d { world = w; calls = c ∷ d.calls })
  moves c w d q h = record {
    no_attempt = rw q h.no_attempt;
    no_start = h.no_start;
    same_recovery = h.same_recovery;
    same_interval = h.same_interval;
  }

  sources : (s : ℕ) (d : Dev W) → IsWaiting d0 d → IsWaiting d0 (record d { usb_clock_source = s })
  sources s d h = ground (arith, h.no_start)

  valids : (v : ℕ) (d : Dev W) → IsWaiting d0 d → IsWaiting d0 (record d { usb_clock_valid = v })
  valids v d h = ground (arith, h.no_start)

  pendings :
      (r : ℕ) (d : Dev W) → IsWaiting d0 d → IsWaiting d0 (record d { pending_external_rate = r })
  pendings r d h = ground (arith, h.no_start)

  waits : (d : Dev W) → IsWaiting d0 d → Either d
  unfolding Either
  waits d h = inl h

  ask-IsWaiting : (s : ClockStatus) → Maintains (IsWaiting d0) (ask_for_rate p s)
  ask-IsWaiting s = keep_bind keep_get λ d. keep_when _ (
      keep_modify _ (pendings s.rate)
      ⨟ keep_bind
          (keep_call_one p (request_config_change external_rate_change)
            (λ w d h. moves _ w d refl h))
          λ a. keep_when _ (keep_modify _ (pendings 0)))

  postponed_to : Dev W → Dev W
  postponed_to d = record d { next_recovery_time = u64 (now + d.monitor_interval_ticks * 2) }

  restarted :
      (d e : Dev W) → IsWaiting d0 d → is_due now d ≡ true → IsBeside (postponed_to d) e → Either e
  unfolding Either postponed_to
  restarted d e h b s = inr (ground (arith, h.same_recovery, h.same_interval))

  again :
      (d : Dev W)
      → IsWaiting d0 d
      → is_due now d ≡ true
      → Triple Either Either
          (λ e. IsBeside (postponed_to d) e × IsStopped e)
          (attempt (start_usb_transport p))
          (λ _. Either)
  again d h b =
      let d' = postponed_to d in
      let done = λ (e : Dev W) (k : Running p d' e). restarted d e h b k.0 in
      hoare_attempt (λ e k. restarted d e h b k.0) (λ _ e k. k)
        (hoare_relax (λ e k. k) done (λ _ e k. done e k)
          (hoare_weaken (Idle p d') (λ e k. (k.0, k.1.idle)) (start-Settled p d')))

  restart-Either : Triple Either Either (IsWaiting d0) (restart p now) (λ _. Either)
  unfolding restart
  restart-Either = hoare_get λ d h.
      hoare_when _ (λ e q _. rw q (waits d h))
        λ b.
          hoare_modify {Q = IsBeside (postponed_to d)} _
            (λ e q. rw q (unfold postponed_to in ground arith))
          ⨾ hoare_relax {E = Never} {C = Never} (λ e k. absurd k) (λ e k. absurd k) (λ _ e k. k)
              (stop-Total p (postponed_to d))
          ⨾ hoare_bind (again d h b) (λ s. hoare_pure tt (λ e k. k))

  beside_waiting :
      (d e : Dev W)
      → IsWaiting d0 d
      → IsBeside d e
      → e.usb_running ≡ false
      → attempts e.calls ≡ attempts d.calls
      → IsWaiting d0 e
  beside_waiting d e h b r n = ground (arith, h.no_start)

  -- Stopping starts nothing.
  stop-Quiet :
      (d : Dev W) → Maintains (λ e. attempts e.calls ≡ attempts d.calls) (stop_usb_transport p)
  unfolding stop_usb_transport
  stop-Quiet d =
      keep_modify _ (λ e h. h)
      ⨟ keep_bind keep_get λ f.
        keep_when _ (quiet _ refl ⨟ keep_pure tt)
        ⨟ keep_when _ (quiet _ refl ⨟ keep_pure tt)
        ⨟ keep_modify _ (λ e h. h)
        ⨟ keep_when _ (quiet _ refl ⨟ quiet _ refl ⨟ keep_pure tt)
        ⨟ keep_when _ (quiet _ refl ⨟ quiet _ refl ⨟ keep_pure tt)
        ⨟ keep_modify _ (λ e h. h)
    where
      quiet :
          (c : Call)
          → is_start c ≡ false
          → Maintains {S = Float32} (λ e. attempts e.calls ≡ attempts d.calls) (call p c)
      quiet c q = keep_call_one p c (λ w e h. rw q h)

  halted : Triple Either Either (IsWaiting d0) (stop_usb_transport p) (λ _. Either)
  halted = record {
    gives = λ d h.
        settle d h (stop_usb_transport p d) ((stop-Total p d).gives d (beside_self d))
          ((stop-Quiet d).holds d refl);
  }
    where
      beside_self : (d : Dev W) → IsBeside d d
      beside_self d = ground arith

      settle :
          (d : Dev W)
          → IsWaiting d0 d
          → (x : Reply (Unit {0}) × Dev W)
          → Outcome Never Never (λ _ e. IsBeside d e × IsStopped e) x
          → attempts x.1.calls ≡ attempts d.calls
          → Outcome Either Either (λ _. Either) x
      settle d h (ok _, e) k n = waits e (beside_waiting d e h k.0 k.1.idle n)
      settle d h (err c, e) k n = absurd k
      settle d h (crash, e) k n = absurd k

  watch-Either :
      (s : Option ClockStatus) → Triple Either Either (IsWaiting d0) (watch p now s) (λ _. Either)
  watch-Either none = restart-Either
  watch-Either (some s) =
      hoare_modify {Q = IsWaiting d0} _ (λ d h. valids (u8 s.valid) d h)
      ⨾ hoare_get λ d h.
        hoare_weaken (IsWaiting d0) (λ e q. rw q h)
          (hoare_choose _ (hoare_when _ (λ e k _. waits e k) (λ _. halted))
            (hoare_kept (ask-IsWaiting s) waits waits ⨾ restart-Either))

  monitor-Either :
      Triple Either Either (IsWaiting d0) (monitor_and_recover_transport p now) (λ _. Either)
  unfolding monitor_and_recover_transport
  monitor-Either = hoare_get λ d h.
      hoare_when _ (λ e q _. rw q (waits d h))
        λ a.
          hoare_weaken (IsWaiting d0) (λ e q. rw q h)
            (hoare_bind
              (hoare_kept (keep_attempt (keep_read_status p moves sources valids)) waits waits)
              watch-Either)

-- A tick of the watchdog either tries no start of the transport, leaves nothing running that did not run,
-- and leaves the time of the next restart, or comes at or after that time and puts the next one two
-- intervals later.
pub monitor_spacing :
    {W : Type 0} (p : Platform W) (now : ℕ) (d : Dev W)
    → let e = (monitor_and_recover_transport p now d).1 in IsWaiting d e ⊎ IsRestarted now d e
unfolding Either
monitor_spacing p now d =
    Outcome-fst (Either p now d) (monitor_and_recover_transport p now d)
      ((monitor-Either p now d).gives d (ground arith))
