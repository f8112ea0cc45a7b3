-- ===== src/Driver/Clock/Frames.antt =====
-- The clock methods keep every property that does not look at the calls but for starts, the source or the validity.
use r_compatible_driver_v.Base.{ℕ, false, refl, ◌≡◌, ◌∷◌, Option, some, none, u8}
use r_compatible_driver_v.Driver.Host.{Call, Platform, Device, try, is_start}
use r_compatible_driver_v.Driver.Clock.{
  ClockStatus, set_usb_hardware_rate, set_usb_clock_source, validity, read_usb_clock_status,
  note_validity, set_clock_source,
}
use r_compatible_driver_v.Driver.Maintain.{
  Maintains, keep_bind, ◌⨟◌, keep_pure, keep_get, keep_modify, keep_when, keep_unless, keep_attempt,
  keep_call_one, keep_try_one,
}

module _ {W S : Type 0} (p : Platform W) {P : Device W S → Type 0}
    (moves : (c : Call) (w : W) (d : Device W S)
      → is_start c ≡ false
      → P d
      → P (record d { world = w; calls = c ∷ d.calls }))
    (sources : (s : ℕ) (d : Device W S) → P d → P (record d { usb_clock_source = s })) where
  tried : (c : Call) → is_start c ≡ false → Maintains P (try p c)
  tried c q = keep_try_one p c (λ w d. moves c w d q)

  pub keep_set_rate : (rate : ℕ) → Maintains P (set_usb_hardware_rate p rate)
  unfolding set_usb_hardware_rate
  keep_set_rate rate = keep_bind keep_get λ d.
      keep_unless _ _
      ⨟ keep_unless _ _
      ⨟ tried _ refl
      ⨟ tried _ refl
      ⨟ tried _ refl
      ⨟ tried _ refl
      ⨟ keep_pure tt

  pub keep_set_source : (source : ℕ) → Maintains P (set_usb_clock_source p source)
  unfolding set_usb_clock_source
  keep_set_source source = keep_bind keep_get λ d.
      keep_unless _ _
      ⨟ keep_unless _ _
      ⨟ keep_unless _ _
      ⨟ tried _ refl
      ⨟ tried _ refl
      ⨟ keep_bind (tried _ refl) λ a. keep_unless _ _ ⨟ keep_modify _ (sources source)

  module _ (valids : (v : ℕ) (d : Device W S) → P d → P (record d { usb_clock_valid = v })) where
    pub keep_read_status : Maintains P (read_usb_clock_status p)
    unfolding read_usb_clock_status
    keep_read_status = keep_bind keep_get λ d.
        keep_unless _ _
        ⨟ tried _ refl
        ⨟ tried _ refl
        ⨟ keep_bind (tried _ refl) λ a.
          keep_unless _ _
          ⨟ keep_bind (tried _ refl) λ b.
            keep_unless _ _
            ⨟ keep_modify _ (sources (u8 a.value))
            ⨟ keep_bind (keep_call_one p _ (λ w d. moves _ w d refl))
                λ c. keep_modify _ (valids (validity c (u8 a.value))) ⨟ keep_pure _

    pub keep_note : (s : Option ClockStatus) → Maintains P (note_validity p s)
    keep_note none = keep_pure tt
    keep_note (some s) = keep_modify _ (valids (u8 s.valid))

    pub keep_set_clock_source : (source : ℕ) → Maintains P (set_clock_source p source)
    unfolding set_clock_source
    keep_set_clock_source source =
        keep_set_source (u8 source)
        ⨟ keep_bind keep_get
            λ d. keep_when _ (keep_set_rate _) ⨟ keep_bind (keep_attempt keep_read_status) keep_note
