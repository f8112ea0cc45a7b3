-- ===== src/Driver/Service/Handle.antt =====
-- ElevenRackDriver.cpp: who holds the USB device open (Open and Close of IOUSBHostDevice in
-- Start_Impl and Stop_Impl), and the references of the driver object.
use r_compatible_driver_v.Base.{
  ℕ, Bool, true, false, List, [], ◌∷◌, String, ◌+◌, ◌==◌, ◌≡◌, inl, inr, refl, ◌∙◌, Bool-cases,
}
use r_compatible_driver_v.Driver.Host.{
  Answer, needs, create_custom_property, Direction, Call, Platform, Code, Reply, ok, err, crash,
  Device, ◌>>=◌, ◌>>◌, pure, modify, call, accept, try, open_device, close_device, cast_provider,
  super_start, super_stop, super_init, allocate, unless, get_work_queue, add_object,
  register_service,
}
use r_compatible_driver_v.Driver.Rates.{update_latency_properties}
use r_compatible_driver_v.Driver.Service.{
  name_elements, init_device, drop_device, init, zero_time_stamp_period, start_opened, drop_driver,
  start_provided, start_driver, stop_driver, is_object,
}
use r_compatible_driver_v.Driver.Hoare.{
  Outcome, Triple, hoare_bind, ◌⨾◌, hoare_get, hoare_pure, hoare_modify, hoare_when, hoare_unless,
  hoare_on_failure, hoare_attempt, hoare_relax,
}

-- Whether a call opens or closes the device
abbrev pub is_handle : Call → Bool
is_handle open_device = true
is_handle close_device = true
is_handle c = false

-- Open takes the handle or answers an error and takes none; Close gives it back; nothing else
-- touches it.
pub record IsHost {W : Type 0} (p : Platform W) (held : W → Bool) : Type 0 where
  pub opens : (w : W) → ((p open_device w).0.status == 0) ≡ true → held (p open_device w).1 ≡ true
  pub refuses :
      (w : W) → ((p open_device w).0.status == 0) ≡ false → held (p open_device w).1 ≡ held w
  pub closes : (w : W) → held (p close_device w).1 ≡ false
  pub others : (c : Call) (w : W) → is_handle c ≡ false → held (p c w).1 ≡ held w

module _ {W S : Type 0} (held : W → Bool) where
  abbrev Shut : Device W S → Type 0
  Shut d = held d.world ≡ false

  -- The handle is given back and no reference is left.
  abbrev pub IsReleased : Device W S → Type 0
  IsReleased d =
      (held d.world ≡ false)
      × (d.driver_usb_device ≡ false)
      × (d.driver_work_queue ≡ false)
      × (d.driver_device ≡ false)

  abbrev Provided : Device W S → Type 0
  Provided d = (held d.world ≡ true) × (d.driver_usb_device ≡ true)

  -- The handle is held, and the three references are there.
  abbrev pub IsOpened : Device W S → Type 0
  IsOpened d =
      (held d.world ≡ true)
      × (d.driver_usb_device ≡ true)
      × (d.driver_work_queue ≡ true)
      × (d.driver_device ≡ true)

pub clash : {A : Type 0} (b : Bool) → b ≡ true → b ≡ false → A
clash true e k = cc
clash false e k = cc

-- The last call asked for the custom property, and this was the answer.
pub record HasAsked {W S : Type 0} (p : Platform W) (held : W → Bool) (a : Answer) (d : Device W S)
    : Type 0 where
  pub opened : IsOpened held d
  pub asked_in : W
  pub answer : (p create_custom_property asked_in).0 ≡ a
  pub before : List Call
  pub last : d.calls ≡ create_custom_property ∷ before

-- The last call asked for the custom property and got none.
pub record IsCrashed {W S : Type 0} (p : Platform W) (held : W → Bool) (d : Device W S)
    : Type 0 where
  pub answered : Answer
  pub none_made : is_object answered ≡ false
  pub asked : HasAsked p held answered d

-- No crash
abbrev pub NoCrash : {W S : Type 0} → Device W S → Type 0
NoCrash d = ⊥

-- A call, and a call whose failure ends the method, by what they do to the world
module _ {W S : Type 0} (E C Q : Device W S → Type 0) (p : Platform W) where
  accepted :
      (c : Call) (d : Device W S)
      → let e = record d { world = (p c d.world).1; calls = c ∷ d.calls } in
        (((p c d.world).0.status == 0) ≡ true → Q e)
        → (((p c d.world).0.status == 0) ≡ false → E e)
        → Outcome E C (λ _. Q) (accept (p c d.world).0 e)
  unfolding accept
  accepted c d q f = elim (Bool-cases ((p c d.world).0.status == 0)) [
    | inl e ↦ rw e (q e)
    | inr e ↦ rw e (f e)
  ]

module _ {W S : Type 0} {E C P : Device W S → Type 0} (Q : Device W S → Type 0) (p : Platform W)
    (c : Call) where
  hoare_asked :
      ((d : Device W S) → P d → Q (record d { world = (p c d.world).1; calls = c ∷ d.calls }))
      → Triple E C P (call p c) (λ _. Q)
  unfolding call
  hoare_asked k = record { gives = k }

  pub hoare_tried :
      ((d : Device W S)
        → P d
        → ((p c d.world).0.status == 0) ≡ true
        → Q (record d { world = (p c d.world).1; calls = c ∷ d.calls }))
      → ((d : Device W S)
          → P d
          → ((p c d.world).0.status == 0) ≡ false
          → E (record d { world = (p c d.world).1; calls = c ∷ d.calls }))
      → Triple E C P (try p c) (λ _. Q)
  unfolding try call ◌>>=◌
  hoare_tried q f = record { gives = λ d h. accepted E C Q p c d (q d h) (f d h) }

module _ {W S : Type 0} (p : Platform W) (held : W → Bool) (host : IsHost p held) where
  abbrev Opened : Device W S → Type 0
  Opened d = IsOpened held d

  -- Making the audio device never reaches for a null object and leaves the handle alone.
  ask :
      {E : Device W S → Type 0} (c : Call)
      → is_handle c ≡ false
      → Triple E (IsCrashed p held) Opened (call p c) (λ _. Opened)
  ask c q = hoare_asked Opened p c (λ d h. (host.others c d.world q ∙ h.0, h.1, h.2, h.3))

  demand :
      (c : Call)
      → is_handle c ≡ false
      → Triple Opened (IsCrashed p held) Opened (try p c) (λ _. Opened)
  demand c q =
      hoare_tried Opened p c (λ d h _. (host.others c d.world q ∙ h.0, h.1, h.2, h.3))
        (λ d h _. (host.others c d.world q ∙ h.0, h.1, h.2, h.3))

  assign :
      (f : Device W S → Device W S)
      → ((d : Device W S) → Opened d → Opened (f d))
      → Triple Opened (IsCrashed p held) Opened (modify f) (λ _. Opened)
  assign f k = hoare_modify f k

  names :
      (direction : Direction) (channel : ℕ) (l : List String)
      → Triple Opened (IsCrashed p held) Opened (name_elements p direction channel l) (λ _. Opened)
  unfolding name_elements
  names direction channel [] = hoare_pure tt (λ d h. h)
  names direction channel (n ∷ l) = demand _ refl ⨾ names direction (channel + 1) l

  latency :
      (rate : ℕ)
      → Triple Opened (IsCrashed p held) Opened (update_latency_properties p rate) (λ _. Opened)
  unfolding update_latency_properties
  latency rate =
      demand _ refl
      ⨾ demand _ refl
      ⨾ demand _ refl
      ⨾ demand _ refl
      ⨾ demand _ refl
      ⨾ demand _ refl
      ⨾ hoare_pure tt (λ d h. h)

  insists :
      (b : Bool) (c : Code) → Triple Opened (IsCrashed p held) Opened (unless b c) (λ _. Opened)
  insists b c = hoare_unless b c (λ d h _. h) (λ d h _. h)

  asks : Triple Opened (IsCrashed p held) Opened (call p create_custom_property) (HasAsked p held)
  unfolding call
  asks = record {
    gives = λ d h. record {
      opened = (host.others create_custom_property d.world refl ∙ h.0, h.1, h.2, h.3);
      asked_in = d.world;
      answer = refl;
      before = d.calls;
      last = refl;
    };
  }

  property_outcome :
      (a : Answer) (d : Device W S) (b : Bool)
      → is_object a ≡ b
      → HasAsked p held a d
      → Outcome Opened (IsCrashed p held) (λ _. Opened) (needs b d)
  unfolding needs
  property_outcome a d true e h = h.opened
  property_outcome a d false e h = record { answered = a; none_made = e; asked = h }

  property_needed :
      (a : Answer)
      → Triple Opened (IsCrashed p held) (HasAsked p held a) (needs (is_object a)) (λ _. Opened)
  property_needed a = record { gives = λ d h. property_outcome a d (is_object a) refl h }

  inits_device :
      (period : ℕ) → Triple Opened (IsCrashed p held) Opened (init_device p period) (λ _. Opened)
  unfolding init_device
  inits_device period = hoare_bind (ask _ refl) λ r.
      hoare_when _ (λ d h _. h) (λ _. assign _ (λ d h. h))
      ⨾ hoare_bind asks λ c.
        property_needed c
        ⨾ ask _ refl
        ⨾ ask _ refl
        ⨾ ask _ refl
        ⨾ demand _ refl
        ⨾ demand _ refl
        ⨾ hoare_bind (ask _ refl) λ o.
          assign _ (λ d h. h)
          ⨾ insists _ _
          ⨾ hoare_bind (ask _ refl) λ i.
            assign _ (λ d h. h)
            ⨾ insists _ _
            ⨾ names _ _ _
            ⨾ names _ _ _
            ⨾ demand _ refl
            ⨾ demand _ refl
            ⨾ latency _
            ⨾ demand _ refl
            ⨾ assign _ (λ d h. h)
            ⨾ demand _ refl
            ⨾ assign _ (λ d h. h)

  keeps_dropped : (d : Device W S) → Opened d → Opened (drop_device p d).1
  unfolding modify
  keeps_dropped d h = h

  inits : (period : ℕ) → Triple Opened (IsCrashed p held) Opened (init p period) (λ _. Opened)
  unfolding init
  inits period =
      hoare_bind
        (hoare_attempt (λ d h. h) (λ a d h. h)
          (hoare_bind (ask super_init refl) (λ a.
              insists _ _ ⨾ hoare_bind (ask allocate refl) (λ b. insists _ _ ⨾ assign _ (λ d h. h)))
            ⨾ hoare_on_failure (drop_device p) (inits_device period) keeps_dropped))
        (λ s. hoare_pure _ (λ d h. h))

  drops : (d : Device W S) → Shut held d → IsReleased held (drop_driver p d).1
  unfolding modify
  drops d h = (h, refl, refl, refl)

  closes : (d : Device W S) → Shut held (◌>>◌ {B = Unit} (call p close_device) (pure tt) d).1
  unfolding call ◌>>=◌
  closes d = host.closes d.world

  abbrev Anyhow : Device W S → Type 0
  Anyhow d = Unit

  abbrev Queued : Device W S → Type 0
  Queued d = Provided held d × (d.driver_work_queue ≡ true)

  opens : Triple Anyhow (IsCrashed p held) (Provided held) (start_opened p) (λ _. Opened)
  opens =
      hoare_bind
        (hoare_asked (Provided held) p get_work_queue
          (λ d h. (host.others get_work_queue d.world refl ∙ h.0, h.1)))
        λ q.
          hoare_modify {Q = λ d. Provided held d × (d.driver_work_queue ≡ is_object q)} _
            (λ d h. (h, refl))
          ⨾ hoare_unless {Q = Queued} _ _ (λ d h _. tt) (λ d h e. (h.0, h.1 ∙ e))
          ⨾ hoare_bind
              (hoare_asked Queued p allocate
                (λ d h. ((host.others allocate d.world refl ∙ h.0.0, h.0.1), h.1)))
              λ a.
                hoare_modify {Q = λ d. Queued d × (d.driver_device ≡ is_object a)} _
                  (λ d h. (h, refl))
                ⨾ hoare_unless {Q = Opened} _ _ (λ d h _. tt)
                    (λ d h e. (h.0.0.0, h.0.0.1, h.0.1, h.1 ∙ e))
                ⨾ hoare_bind
                    (hoare_relax (λ d h. tt) (λ d h. h) (λ a d h. h) (inits zero_time_stamp_period))
                    λ done.
                      hoare_unless {Q = Opened} _ _ (λ d h _. tt) (λ d h e. h)
                      ⨾ hoare_modify {Q = Opened} _ (λ d h. h)
                      ⨾ ask add_object refl
                      ⨾ hoare_relax (λ d h. tt) (λ d h. h) (λ a d h. h)
                          (demand register_service refl)
                      ⨾ hoare_pure tt (λ d h. h)

  provides : Triple (Shut held) (IsCrashed p held) (Shut held) (start_provided p) (λ _. Opened)
  provides =
      hoare_tried (Shut held) p super_start (λ d h _. host.others super_start d.world refl ∙ h)
        (λ d h _. host.others super_start d.world refl ∙ h)
      ⨾ hoare_bind
          (hoare_asked (Shut held) p cast_provider
            (λ d h. host.others cast_provider d.world refl ∙ h))
          λ c.
            hoare_unless {Q = Shut held} _ _ (λ d h _. h) (λ d h _. h)
            ⨾ hoare_modify {Q = λ d. Shut held d × (d.driver_usb_device ≡ true)} _
                (λ d h. (h, refl))
            ⨾ hoare_tried (Provided held) p open_device (λ d h e. (host.opens d.world e, h.1))
                (λ d h e. host.refuses d.world e ∙ h.0)
            ⨾ hoare_on_failure {E' = Anyhow} _ opens (λ d _. closes d)

  starts : Triple (IsReleased held) (IsCrashed p held) (Shut held) (start_driver p) (λ _. Opened)
  unfolding start_driver
  starts = hoare_on_failure {E' = Shut held} (drop_driver p) provides drops

  -- The handle is held at most while the driver has its reference on the device.
  abbrev Matched : Device W S → Type 0
  Matched d = d.driver_usb_device ≡ false → Shut held d

  stops : Triple (IsReleased held) NoCrash Matched (stop_driver p) (λ _. IsReleased held)
  unfolding stop_driver
  stops = hoare_get λ d h.
      hoare_when {Q = Shut held} _ (λ e q b. rw q (h b))
        (λ _.
          hoare_asked (Shut held) p close_device (λ e _. host.closes e.world)
          ⨾ hoare_pure tt (λ e k. k))
      ⨾ hoare_on_failure {E' = Shut held} {Q = λ _. Shut held} (drop_driver p)
          (hoare_tried (Shut held) p super_stop (λ e k _. host.others super_stop e.world refl ∙ k)
              (λ e k _. host.others super_stop e.world refl ∙ k)
            ⨾ hoare_pure tt (λ e k. k))
          drops
      ⨾ hoare_modify _ (λ e k. (k, refl, refl, refl))

  started-Matched :
      (x : Reply (Unit {0}) × Device W S)
      → Outcome (IsReleased held) (IsCrashed p held) (λ _. Opened) x
      → Matched x.1
  started-Matched (ok a, d) h b = cc
  started-Matched (err c, d) h b = h.0
  started-Matched (crash, d) h b = clash d.driver_usb_device h.asked.opened.1 b

  -- If nobody holds the USB device open, Start_Impl either succeeds with the handle held and the work
  -- queue, the audio device and the USB device in place, or fails with the handle given back, if it was
  -- taken, and none of them, or reaches for a null object, which it does only where the custom property
  -- cannot be made, with the handle held; Stop_Impl from the state it leaves gives back what is held
  -- and drops all three, whether it answers an error or not.
  pub start_stop_driver :
      (d : Device W S)
      → held d.world ≡ false
      → Outcome (IsReleased held) (IsCrashed p held) (λ _. IsOpened held) (start_driver p d)
        × Outcome
            (IsReleased held)
            NoCrash
            (λ _. IsReleased held)
            (stop_driver p (start_driver p d).1)
  start_stop_driver d h =
      let s = starts.gives d h in
      (s, stops.gives (start_driver p d).1 (started-Matched (start_driver p d) s))
