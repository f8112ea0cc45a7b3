-- ===== src/Driver/UserClient/Refusals.antt =====
-- Which requests of a client to set the clock source are refused, through the user client, the
-- driver and the device.
use r_compatible_driver_v.Base.{
  ℕ, ◌%◌, Bool, true, false, not, ◌||◌, Option, some, none, ltb, u8, u32, ◌==◌, ◌≤◌, List, [], ◌∷◌,
  ◌⊎◌, ◌≡◌, inl, inr, refl, sym, ap, ◌∙◌, arith,
}
use r_compatible_driver_v.Driver.Host.{
  Platform, Code, err, Device, M, ◌>>=◌, ◌>>◌, fail, get, unless, needs, not_ready, bad_argument,
  busy, not_attached, no_resources, Call, create_io_buffer, create_mapping,
}
use r_compatible_driver_v.Driver.Clock.{
  internal, spdif, set_cur, set_usb_clock_source, set_clock_source,
}
use r_compatible_driver_v.Driver.Clock.Frames.{keep_set_rate, keep_read_status, keep_note}
use r_compatible_driver_v.Driver.Maintain.{keep_bind, ◌⨟◌, keep_get, keep_when, keep_attempt}
use r_compatible_driver_v.Driver.Hoare.{
  Triple, Outcome-fst, hoare_bind, ◌⨾◌, hoare_get, hoare_pure, hoare_modify, hoare_weaken,
  hoare_needs, hoare_unless, hoare_kept,
}
use r_compatible_driver_v.Driver.Service.Handle.{hoare_tried, clash}
use r_compatible_driver_v.Driver.Service.{handle_set_clock_source}
use r_compatible_driver_v.Driver.UserClient.{
  Arguments, external_method, set_clock_source_method, set_source, single,
}

-- Of three reasons the first that there is
abbrev pub first : Option Code → Option Code → Option Code
first none c = c
first (some b) c = some b

abbrev pub reason : Bool → Code → Option Code
reason true c = some c
reason false c = none

-- The device looks at the low eight bits of a source.
abbrev source_refusal : {W S : Type 0} → ℕ → Device W S → Option Code
source_refusal s d =
    first (reason (not d.usb_device) not_ready)
      (first (reason (ltb s 1 || ltb 3 s) bad_argument) (reason d.usb_running busy))

abbrev single_refusal : {W S : Type 0} → Option ℕ → Device W S → Option Code
single_refusal none d = some bad_argument
single_refusal (some s) d = source_refusal (s % 256) d

-- The steps of a guard, by its test
module _ {W S A : Type 0} (k : M W S A) (d : Device W S) where
  needs_met : (b : Bool) → b ≡ true → (needs b >> k) d ≡ k d
  unfolding ◌>>=◌
  needs_met true e = refl
  needs_met false e = cc

  unless_met : (b : Bool) (c : Code) → b ≡ true → (unless b c >> k) d ≡ k d
  unfolding ◌>>=◌
  unless_met true c e = refl
  unless_met false c e = cc

  unless_failed : (b : Bool) (c : Code) → b ≡ false → (unless b c >> k) d ≡ (err c, d)
  unfolding ◌>>=◌
  unless_failed true c e = cc
  unless_failed false c e = refl

got : {W S A : Type 0} (f : Device W S → M W S A) (d : Device W S) → (get >>= f) d ≡ f d d
unfolding ◌>>=◌
got f d = refl

-- An error is the end of what follows it
errs_on :
    {W S A B : Type 0} (m : M W S A) (f : A → M W S B) (d : Device W S) {c : Code}
    → m d ≡ (err c, d)
    → (m >>= f) d ≡ (err c, d)
unfolding ◌>>=◌
errs_on m f d e = rw e refl

module _ {W S : Type 0} (p : Platform W) (d : Device W S) where
  set_usb_refused :
      (s : ℕ) {c : Code} → source_refusal s d ≡ some c → set_usb_clock_source p s d ≡ (err c, d)
  unfolding set_usb_clock_source ◌>>=◌
  set_usb_refused s h = ground arith

  set_refused :
      (s : ℕ) {c : Code} → source_refusal (s % 256) d ≡ some c → set_clock_source p s d ≡ (err c, d)
  unfolding set_clock_source ◌>>=◌
  set_refused s h = rw (set_usb_refused (s % 256) h) refl

  low_byte : (s : ℕ) → u32 s % 256 ≡ s % 256
  low_byte s = omega arith

  handle_refused :
      (s : ℕ) {c : Code}
      → d.driver_device ≡ true
      → source_refusal (s % 256) d ≡ some c
      → handle_set_clock_source p s d ≡ (err c, d)
  unfolding handle_set_clock_source
  handle_refused s {c = c} present h =
      got _ d ∙ needs_met (set_clock_source p s) d d.driver_device present ∙ set_refused s {c = c} h

  set_source_refused :
      (o : Option ℕ) {c : Code}
      → d.driver_device ≡ true
      → single_refusal o d ≡ some c
      → set_source p o d ≡ (err c, d)
  unfolding fail
  set_source_refused none present h = cc
  set_source_refused (some s) {c = c} present h =
      errs_on (handle_set_clock_source p (u32 s)) _ d
        (handle_refused (u32 s) {c = c} present (rw (low_byte s) h))

  -- The first reason there is decides.
  external_method_refused :
      (arguments : Option Arguments) {c : Code}
      → d.client_ivars ≡ true
      → d.client_provider ≡ true
      → d.driver_device ≡ true
      → single_refusal (single arguments) d ≡ some c
      → external_method p set_clock_source_method arguments d ≡ (err c, d)
  unfolding external_method
  external_method_refused arguments {c = c} ivars provider present h =
      got _ d
      ∙ unless_met _ d d.client_ivars no_resources ivars
      ∙ unless_met (set_source p (single arguments)) d d.client_provider not_attached provider
      ∙ set_source_refused (single arguments) {c = c} present h

-- The calls made, up to some point in the past
pub data Extends (base : List Call) : List Call → Type 0 where
  now : Extends base base
  since : {c : Call} {calls : List Call} → Extends base calls → Extends base (c ∷ calls)

-- One scalar in
abbrev pub one_scalar : ℕ → Option Arguments
one_scalar source = some (record { scalar_input = some (source ∷ []); scalar_output = none })

-- After the buffer and its mapping, the SET_CUR of the clock source
abbrev pub asked_for : {W S : Type 0} → ℕ → Device W S → List Call
asked_for low d = set_cur 0x80 1 low ∷ create_mapping ∷ create_io_buffer 1 ∷ d.calls

module _ {W S : Type 0} (p : Platform W) (d : Device W S) (source : ℕ)
    (ivars : d.client_ivars ≡ true) (provider : d.client_provider ≡ true)
    (present : d.driver_device ≡ true) (usb : d.usb_device ≡ true) where
  abbrev Requested : Device W S → Type 0
  Requested e = Extends (asked_for (u8 (u32 source)) d) e.calls

  moves :
      (c : Call) (w : W) (e : Device W S)
      → Requested e
      → Requested (record e { world = w; calls = c ∷ e.calls })
  moves c w e h = since h

  guard :
      (b : Bool) (c : Code) {P : Device W S → Type 0}
      → b ≡ true
      → Triple Requested Requested P (unless b c) (λ _. P)
  guard b c t = hoare_unless b c (λ e h f. clash b t f) (λ e h f. h)

  abbrev first_world : W
  first_world = (p (create_io_buffer 1) d.world).1

  module _ (idle : d.usb_running ≡ false) (low : 1 ≤ source % 256) (high : source % 256 ≤ 3)
      (buffer : ((p (create_io_buffer 1) d.world).0.status == 0) ≡ true)
      (mapping : ((p create_mapping first_world).0.status == 0) ≡ true) where
    abbrev Buffered : Device W S → Type 0
    Buffered e = (e.world ≡ first_world) × (e.calls ≡ create_io_buffer 1 ∷ d.calls)

    abbrev IsMapped : Device W S → Type 0
    IsMapped e = e.calls ≡ create_mapping ∷ create_io_buffer 1 ∷ d.calls

    in_range : not (ltb (u8 (u32 source)) internal || ltb spdif (u8 (u32 source))) ≡ true
    in_range = ground (arith, low_byte p d source)

    sets_usb :
        Triple Requested Requested
          (λ e. e ≡ d)
          (set_usb_clock_source p (u8 (u32 source)))
          (λ _. Requested)
    unfolding set_usb_clock_source
    sets_usb = hoare_get λ e h.
        guard _ _ (ap (λ x. x.usb_device) h ∙ usb)
        ⨾ guard _ _ in_range
        ⨾ guard _ _ (ap (λ x. not x.usb_running) h ∙ ap not idle)
        ⨾ hoare_tried Buffered p (create_io_buffer 1)
            (λ x q _. (
              ap (λ y. (p (create_io_buffer 1) y.world).1) (q ∙ h),
              ap (λ y. create_io_buffer 1 ∷ y.calls) (q ∙ h),
            ))
            (λ x q f.
              clash _ (ap (λ y. (p (create_io_buffer 1) y.world).0.status == 0) (q ∙ h) ∙ buffer) f)
        ⨾ hoare_tried IsMapped p create_mapping (λ x k _. ap (λ l. create_mapping ∷ l) k.1)
            (λ x k f. clash _ (ap (λ w. (p create_mapping w).0.status == 0) k.0 ∙ mapping) f)
        ⨾ hoare_bind (hoare_tried Requested p _ (λ e h _. rw h now) (λ e h _. rw h now))
            λ a. hoare_unless _ _ (λ e k _. k) (λ e k _. k) ⨾ hoare_modify _ (λ e k. k)

    sets :
        Triple Requested Requested (λ e. e ≡ d) (set_clock_source p (u32 source)) (λ _. Requested)
    unfolding set_clock_source
    sets =
        sets_usb
        ⨾ hoare_kept
            (keep_bind keep_get λ e.
              keep_when _ (keep_set_rate p (λ c w d _. moves c w d) (λ x y h. h) _)
              ⨟ keep_bind
                  (keep_attempt
                    (keep_read_status p (λ c w d _. moves c w d) (λ x y h. h) (λ x y h. h)))
                  (keep_note p (λ c w d _. moves c w d) (λ x y h. h) (λ x y h. h)))
            (λ e k. k) (λ e k. k)

    requests :
        Triple Requested Requested
          (λ e. e ≡ d)
          (external_method p set_clock_source_method (one_scalar source))
          (λ _. Requested)
    unfolding external_method handle_set_clock_source
    requests = hoare_get λ e h.
        guard _ _ (ap (λ x. x.client_ivars) h ∙ ivars)
        ⨾ guard _ _ (ap (λ x. x.client_provider) h ∙ provider)
        ⨾ hoare_get (λ e' h'.
          hoare_needs _ (ap (λ x. x.driver_device) (h' ∙ h) ∙ present)
          ⨾ hoare_weaken (λ x. x ≡ d) (λ x q. q ∙ h' ∙ h) sets)
        ⨾ hoare_pure [] (λ e k. k)

  -- A client asks for a clock source, of the user client with its variables and its provider, the driver with
  -- its device, and the device with its USB device. The low eight bits decide: if they are none of the
  -- sources 1 to 3, the request is refused as a bad argument; else it is refused as busy while the
  -- transport runs; either before any call and with nothing changed. Otherwise, if a buffer for the
  -- request is made and mapped, the low eight bits are sent to the device as the clock source.
  pub external_method_lem :
      let x = external_method p set_clock_source_method (one_scalar source) d in
      ((source % 256 ≡ 0) ⊎ (4 ≤ source % 256) → x ≡ (err bad_argument, d))
      × (1 ≤ source % 256 → source % 256 ≤ 3 → d.usb_running ≡ true → x ≡ (err busy, d))
      × (1 ≤ source % 256
          → source % 256 ≤ 3
          → d.usb_running ≡ false
          → ((p (create_io_buffer 1) d.world).0.status == 0) ≡ true
          → ((p create_mapping first_world).0.status == 0) ≡ true
          → Extends (asked_for (source % 256) d) x.1.calls)
  external_method_lem = (
    λ h. external_method_refused p d (one_scalar source) ivars provider present (bad h),
    λ low high on.
        external_method_refused p d (one_scalar source) ivars provider present
          (busy_now low high on),
    λ low high idle buffer mapping. rw (sym (low_byte p d source)) (
        Outcome-fst Requested (external_method p set_clock_source_method (one_scalar source) d)
          ((requests idle low high buffer mapping).gives d refl)),
  )
    where
      bad :
          (source % 256 ≡ 0) ⊎ (4 ≤ source % 256)
          → source_refusal (source % 256) d ≡ some bad_argument
      bad (inl e) = rw usb (ground arith)
      bad (inr e) = rw usb (ground arith)

      busy_now :
          1 ≤ source % 256
          → source % 256 ≤ 3
          → d.usb_running ≡ true
          → source_refusal (source % 256) d ≡ some busy
      busy_now low high on = rw (usb, on) (ground arith)
