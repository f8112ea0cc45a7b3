-- ===== src/Driver/Handlers.antt =====
-- When the completion handlers reach only for what is there.
use r_compatible_driver_v.Base.{
  ℕ, ◌*◌, ◌≤◌, Bool, true, false, ◌&&◌, ◌∷◌, Option, some, none, ltb, ◌==◌, ◌≡◌, ◌≢◌, inl, inr,
  refl, arith, Bool-cases,
}
use r_compatible_driver_v.Driver.Host.{
  input, Call, Platform, Reply, ok, err, crash, Request, AudioMap, M, ◌>>=◌, call, try,
  create_transfer_buffer, create_frame_list, absolute_time,
}
use r_compatible_driver_v.Driver.Samples.{Float32}
use r_compatible_driver_v.Driver.Packets.{frames_per_request}
use r_compatible_driver_v.Driver.Completions.{
  Completion, completed, underran, failed, Dev, has_frames, fill_capture, capture_done,
  publish_timestamp, take_capture, arm_capture, input_isoch_complete,
}
use r_compatible_driver_v.Driver.Transport.{create_request}
use r_compatible_driver_v.Driver.Ready.{IsReady}
use r_compatible_driver_v.Driver.Settled.{Never}
use r_compatible_driver_v.Driver.Hoare.{
  Outcome, Triple, hoare_bind, ◌⨾◌, hoare_get, hoare_get_keep, hoare_pure, hoare_modify,
  hoare_weaken, hoare_when, hoare_needs, hoare_call,
}

-- A transfer whose handler can run: its action and its two maps were made.
pub record IsWhole {X : Type 0} (r : Request X) : Type 0 where
  pub has_action : r.action ≡ true
  pub has_frame_map : r.frame_map ≡ true
  pub has_data_map : r.data_map ≡ true

-- A mapped buffer of at least so many bytes
abbrev pub Holds : ℕ → Option (AudioMap Float32) → Type 0
Holds n none = ⊥
Holds n (some ring) = n ≤ ring.bytes

module _ {W : Type 0} (p : Platform W) where
  abbrev Total : {A : Type 0} → (Dev W → Type 0) → M W Float32 A → (Dev W → Type 0) → Type 0
  Total P m Q = Triple Never Never P m (λ _. Q)

  moves :
      (c : Call) (w : W) (d : Dev W)
      → IsReady d
      → IsReady (record d { world = w; calls = c ∷ d.calls })
  moves c w d h = ground arith

  called : (c : Call) → Triple Never Never IsReady (call p c) (λ _. IsReady)
  called = hoare_call p moves

  stamps : (frame : ℕ) → Total IsReady (publish_timestamp p frame) IsReady
  unfolding publish_timestamp
  stamps frame =
      hoare_get_keep λ d h. (hoare_when _ (λ e k _. k) (λ _. called _ ⨾ hoare_pure tt (λ e k. k)))

  takes :
      (i : ℕ) (ring : AudioMap Float32) (d : Dev W) → IsReady d → IsReady (take_capture p i ring d)
  unfolding take_capture
  takes i ring d h = ground arith

  fills :
      (i : ℕ) (m : Option (AudioMap Float32))
      → Holds 32 m
      → Total IsReady (fill_capture p i m) IsReady
  fills i none h = absurd h
  fills i (some ring) h = hoare_get_keep λ d r.
      (stamps _
        ⨾ hoare_when {Q = IsReady} _ (λ e k _. k)
            (λ b. absurd (empty (has_frames (d.usb_input_requests i).complete_counts) b))
        ⨾ hoare_modify _ (takes i ring))
    where
      empty : (f : Bool) → (ltb ring.bytes 32 && f) ≡ true → ⊥
      empty f b = ground arith

  arms : (i : ℕ) → Total IsReady (arm_capture p i) IsReady
  unfolding arm_capture
  arms i = hoare_bind (called absolute_time) λ t.
      hoare_modify {Q = IsReady} _ (λ d h. ground arith)
      ⨾ hoare_get_keep λ d h.
        (hoare_needs {P = IsReady} _ h.piped_in
          ⨾ hoare_bind (called _)
              λ a. hoare_modify {P = IsReady} {Q = IsReady} _ (λ e k. ground arith))

  abbrev CanCapture : ℕ → Dev W → Type 0
  CanCapture i d = IsReady d × IsWhole (d.usb_input_requests i) × Holds 32 d.input_memory_map

  captures :
      (i : ℕ) (s : Completion) (d : Dev W)
      → CanCapture i d
      → Total (λ e. e ≡ d) (capture_done p i s) IsReady
  captures i failed d h = hoare_modify _ (λ e q. rw q (ground arith))
  captures i completed d h = hoare_get λ e q. rw q (
      hoare_weaken IsReady (λ f r. rw r h.0)
        (hoare_needs {P = IsReady} _ (ground arith) ⨾ fills i d.input_memory_map h.2 ⨾ arms i))
  captures i underran d h = hoare_get λ e q. rw q (
      hoare_weaken IsReady (λ f r. rw r h.0)
        (hoare_needs {P = IsReady} _ (ground arith) ⨾ fills i d.input_memory_map h.2 ⨾ arms i))

  inputs :
      (i : ℕ) (s : Completion) (d : Dev W)
      → CanCapture i d
      → Total (λ e. e ≡ d) (input_isoch_complete p i s) IsReady
  unfolding input_isoch_complete
  inputs i s d h = hoare_get λ e q. rw q (
      hoare_needs {P = λ f. f ≡ d} _ h.1.has_action
      ⨾ hoare_when _ (λ f r _. rw r h.0) (λ _. captures i s d h))

  succeeded :
      (x : Reply (Unit {0}) × Dev W)
      → Outcome Never Never (λ _. IsReady) x
      → (x.0 ≡ ok tt) × IsReady x.1
  succeeded (ok _, d) h = (refl, h)
  succeeded (err c, d) h = absurd h
  succeeded (crash, d) h = absurd h

  -- Of a ready device, the capture handler of a whole transfer reaches for no null object, whatever
  -- the status of the transfer and the answers, if the ring has room for a frame; and the device
  -- stays ready.
  pub input_isoch_complete-succeeds :
      (i : ℕ) (s : Completion) (d : Dev W)
      → IsReady d
      → IsWhole (d.usb_input_requests i)
      → Holds 32 d.input_memory_map
      → let x = input_isoch_complete p i s d in (x.0 ≡ ok tt) × IsReady x.1
  input_isoch_complete-succeeds i s d r w m =
      succeeded (input_isoch_complete p i s d) ((inputs i s d (r, w, m)).gives d refl)

  module _ (i : ℕ) (d : Dev W) where
    -- The device after the answer of the call that makes the transfer's buffer
    abbrev pub buffered : Dev W
    buffered = (call p (create_transfer_buffer input (frames_per_request * 416)) d).1

    abbrev pub IsFresh : Type 0
    IsFresh =
        ((d.usb_input_requests i).data_descriptor ≡ false)
        × ((d.usb_input_requests i).action ≡ false)

    abbrev pub FailsHalfway : Type 0
    FailsHalfway =
        ((p (create_transfer_buffer input (frames_per_request * 416)) d.world).0.status ≡ 0)
        × ((p create_frame_list buffered.world).0.status ≢ 0)

    skipped :
        (e : Dev W)
        → (e.usb_input_requests i).data_descriptor ≡ true
        → create_request p input i e ≡ (ok tt, e)
    unfolding create_request ◌>>=◌
    skipped e h = rw h refl

    crashes :
        (e : Dev W)
        → (e.usb_input_requests i).action ≡ false
        → (input_isoch_complete p i completed e).0 ≡ crash
    unfolding input_isoch_complete ◌>>=◌
    crashes e h = rw h refl

    stopped_halfway :
        IsFresh
        → FailsHalfway
        → let x = create_request p input i d in
          (x.0 ≢ ok tt)
          × ((x.1.usb_input_requests i).data_descriptor ≡ true)
          × ((x.1.usb_input_requests i).action ≡ false)
    unfolding create_request ◌>>=◌ try call
    stopped_halfway f h = rw f.0 (
        rw h.0
          (elim (Bool-cases (
            (p create_frame_list (p (create_transfer_buffer input 6656) d.world).1).0.status
            == 0)) [ inl e ↦ absurd (ground arith) | inr e ↦ rw e (ground arith) ]))

    -- If the second of a new transfer's objects cannot be made, the start fails; the next start takes
    -- the transfer for made, and its first completion reaches for the action that is not there.
    pub half_made_request :
        IsFresh
        → FailsHalfway
        → let e = (create_request p input i d).1 in
          ((create_request p input i d).0 ≢ ok tt)
          × (create_request p input i e ≡ (ok tt, e))
          × ((input_isoch_complete p i completed e).0 ≡ crash)
    half_made_request f h =
        let (refusal, made, missing) = stopped_halfway f h in
        (
          refusal,
          skipped (create_request p input i d).1 made,
          crashes (create_request p input i d).1 missing,
        )
