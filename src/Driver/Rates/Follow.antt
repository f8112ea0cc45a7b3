-- ===== src/Driver/Rates/Follow.antt =====
-- An external clock is followed and never commanded.
use r_compatible_driver_v.Base.{
  ℕ, suc, Bool, true, false, ◌&&◌, List, [], ◌∷◌, ◌==◌, if◌then◌else◌, ◌≡◌, ◌≢◌, inl, inr, refl,
  ◌∙◌, arith, Bool-cases, length,
}
use r_compatible_driver_v.Driver.Host.{
  Call, Platform, Device, ◌>>=◌, try, device_request, timebase_info,
}
use r_compatible_driver_v.Driver.Clock.{internal, get_cur, read_usb_clock_status}
use r_compatible_driver_v.Driver.Clock.Frames.{keep_set_rate, keep_read_status}
use r_compatible_driver_v.Driver.Rates.Frames.{keep_latency, keep_timers}
use r_compatible_driver_v.Driver.Rates.{
  is_supported, follow_clock, update_latency_properties, update_timers, apply_sample_rate,
  handle_change_sample_rate,
}
use r_compatible_driver_v.Driver.Maintain.{
  Maintains, keep_bind, ◌⨟◌, keep_pure, keep_get, keep_modify, keep_skip, keep_unless,
  keep_call_one, keep_try_one,
}
use r_compatible_driver_v.Driver.Hoare.{
  Outcome, Triple, hoare_bind, ◌⨾◌, hoare_modify, hoare_when, hoare_unless, hoare_kept, hoare_try,
}

-- How many of the calls set the rate of the hardware
abbrev pub rate_commands : List Call → ℕ
rate_commands [] = 0
rate_commands (device_request kind request value index length payload ∷ calls) =
    if kind == 0x21 && index == 0x8101 then suc (rate_commands calls) else rate_commands calls
rate_commands (_ ∷ calls) = rate_commands calls

module _ {W S : Type 0} (p : Platform W) (n : ℕ) where
  abbrev Uncommanded : Device W S → Type 0
  Uncommanded d = rate_commands d.calls ≡ n

  moves :
      (c : Call)
      → ((cs : List Call) → rate_commands (c ∷ cs) ≡ rate_commands cs)
      → (w : W) (d : Device W S) → Uncommanded d
      → Uncommanded (record d { world = w; calls = c ∷ d.calls })
  moves c q w d h = q d.calls ∙ h

  tried :
      (c : Call)
      → ((cs : List Call) → rate_commands (c ∷ cs) ≡ rate_commands cs)
      → Maintains Uncommanded (try p c)
  tried c q = keep_try_one p c (moves c q)

  read-Uncommanded : Maintains Uncommanded (read_usb_clock_status p)
  unfolding read_usb_clock_status
  read-Uncommanded = keep_bind keep_get λ d.
      keep_unless _ _
      ⨟ tried _ (λ cs. refl)
      ⨟ tried _ (λ cs. refl)
      ⨟ keep_bind (tried _ (λ cs. refl)) λ a.
        keep_unless _ _
        ⨟ keep_bind (tried _ (λ cs. refl)) λ b.
          keep_unless _ _
          ⨟ keep_modify _ (λ e h. h)
          ⨟ keep_bind (keep_call_one p (get_cur 2 0x81 1) (moves (get_cur 2 0x81 1) (λ cs. refl)))
              λ c. keep_modify _ (λ e h. h) ⨟ keep_pure _

  apply-Uncommanded : (rate : ℕ) → Maintains Uncommanded (apply_sample_rate p rate false)
  unfolding apply_sample_rate update_latency_properties update_timers
  apply-Uncommanded rate =
      keep_unless _ _
      ⨟ keep_skip _
      ⨟ tried _ (λ cs. refl)
      ⨟ keep_modify _ (λ e h. h)
      ⨟ tried _ (λ cs. refl)
      ⨟ tried _ (λ cs. refl)
      ⨟ (tried _ (λ cs. refl)
          ⨟ tried _ (λ cs. refl)
          ⨟ tried _ (λ cs. refl)
          ⨟ tried _ (λ cs. refl)
          ⨟ tried _ (λ cs. refl)
          ⨟ tried _ (λ cs. refl)
          ⨟ keep_pure tt)
      ⨟ keep_bind (keep_call_one p timebase_info (moves timebase_info (λ cs. refl)))
          λ base. keep_modify _ (λ e h. h)

  follow-Uncommanded : (rate : ℕ) → Maintains Uncommanded (follow_clock p rate)
  follow-Uncommanded rate =
      keep_bind read-Uncommanded λ s. keep_unless _ _ ⨟ keep_unless _ _ ⨟ apply-Uncommanded rate

-- Nothing is claimed
abbrev pub Any : {W S : Type 0} → Device W S → Type 0
Any d = Unit

-- At a supported rate
abbrev pub AtRate : {W S : Type 0} → ℕ → Device W S → Type 0
AtRate rate d = (d.sample_rate ≡ rate) × (is_supported rate ≡ true)

module _ {W S : Type 0} (p : Platform W) where
  at_moves :
      (rate : ℕ) (c : Call) (w : W) (d : Device W S)
      → AtRate rate d
      → AtRate rate (record d { world = w; calls = c ∷ d.calls })
  at_moves rate c w d h = h

  at_intervals :
      (rate t : ℕ) (d : Device W S)
      → AtRate rate d
      → AtRate rate (record d { monitor_interval_ticks = t })
  at_intervals rate t d h = h

  Any-moves :
      (c : Call) (w : W) (d : Device W S)
      → Any d
      → Any (record d { world = w; calls = c ∷ d.calls })
  Any-moves c w d h = tt

  abbrev Supported : ℕ → Device W S → Type 0
  Supported rate d = is_supported rate ≡ true

  takes_over :
      (rate : ℕ) (program : Bool)
      → Triple {S = S} Any Any Any (apply_sample_rate p rate program) (λ _. AtRate rate)
  unfolding apply_sample_rate
  takes_over rate program =
      hoare_unless {Q = Supported rate} _ _ (λ d h _. tt) (λ d h b. b)
      ⨾ hoare_when {Q = Supported rate} program (λ d h _. h)
          (λ _.
            hoare_kept (keep_set_rate p (λ c w d q h. h) (λ s d h. h) rate) (λ d h. tt) (λ d h. tt))
      ⨾ hoare_try p {Q = Supported rate} (λ c w d h. h) (λ d h. tt) _
      ⨾ hoare_modify {P = Supported rate} {Q = AtRate rate} _ (λ d h. (refl, h))
      ⨾ hoare_try p (at_moves rate) (λ d h. tt) _
      ⨾ hoare_try p (at_moves rate) (λ d h. tt) _
      ⨾ hoare_kept (keep_latency p (at_moves rate) rate) (λ d h. tt) (λ d h. tt)
      ⨾ hoare_kept (keep_timers p (at_moves rate) (at_intervals rate)) (λ d h. tt) (λ d h. tt)

  handle_external :
      (rate : ℕ) (d : Device W S)
      → d.usb_clock_source ≢ internal
      → handle_change_sample_rate p rate d ≡ follow_clock p rate d
  unfolding handle_change_sample_rate ◌>>=◌
  handle_external rate d external = elim (Bool-cases (d.usb_clock_source == internal)) [
    | inl e ↦ absurd (ground arith)
    | inr e ↦ rw e refl
  ]

  follows : (rate : ℕ) → Triple {S = S} Any Any Any (follow_clock p rate) (λ _. AtRate rate)
  follows rate =
      hoare_bind
        (hoare_kept {P = Any}
          (keep_read_status p (λ c w d _. Any-moves c w d) (λ s d h. h) (λ v d h. h)) (λ d h. h)
          (λ d h. h))
        λ s.
          hoare_unless {Q = Any} _ _ (λ d h _. h) (λ d h _. h)
          ⨾ hoare_unless {Q = Any} _ _ (λ d h _. h) (λ d h _. h)
          ⨾ takes_over rate false

  -- With an external clock a change of rate never sets the rate of the hardware; and it succeeds only
  -- at a supported rate, which is the device's from then on.
  pub follow_outcome :
      (rate : ℕ) (d : Device W S)
      → d.usb_clock_source ≢ internal
      → let x = handle_change_sample_rate p rate d in
        (rate_commands x.1.calls ≡ rate_commands d.calls) × Outcome Any Any (λ _. AtRate rate) x
  follow_outcome rate d external =
      rw (handle_external rate d external) (
        (follow-Uncommanded p (rate_commands d.calls) rate).holds d refl,
        (follows rate).gives d tt,
      )
