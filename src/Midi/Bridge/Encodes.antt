-- ===== src/Midi/Bridge/Encodes.antt =====
-- `encodeMIDI` on whole messages, as long as their events fit the transfer.
use r_compatible_driver_v.Base.{
  ℕ, zero, suc, ◌+◌, ◌*◌, ◌≤◌, ◌≡◌, ◌≢◌, refl, sym, ap, ◌∙◌, arith, Bool-cases, inl, inr, List, [],
  ◌∷◌, ◌++◌, append-nil, append_assoc, Bytes, All, length, length-append, take, drop, ◌==◌,
  ==_false, le→ltb-false,
}
use r_compatible_driver_v.Midi.Bridge.{
  packet_bytes, event, emit_event, sysex_loop, short_cin, encode_from, encode_midi,
}
use r_compatible_driver_v.Midi.Bridge.Messages.{
  Message, IsMessage, wire, wires, Event, sysex_events, events, packets,
}

packets-append :
    (cable : ℕ) (es fs : List Event)
    → packets cable (es ++ fs) ≡ packets cable es ++ packets cable fs
packets-append cable [] fs = refl
packets-append cable ((cin, b) ∷ es) fs =
    ap (λ k. event cable cin b ++ k) (packets-append cable es fs)

length-packets : (cable : ℕ) (es : List Event) → length (packets cable es) ≡ 4 * length es
length-packets cable [] = omega arith
length-packets cable ((cin, b) ∷ es) = omega (arith, length-packets cable es)

emit_event-fits :
    (cable cin : ℕ) (b out : Bytes)
    → length out + 4 ≤ packet_bytes
    → emit_event cable cin b out ≡ out ++ event cable cin b
unfolding emit_event
emit_event-fits cable cin b out h = rw (le→ltb-false packet_bytes (length out + 4) h)

-- The loop reads up to the end mark and leaves the rest.
sysex_loop_lem :
    (cable : ℕ) (body b out rest : Bytes)
    → All (λ x. x ≢ 0xF7) body
    → length out + 4 * length (sysex_events b body) ≤ packet_bytes
    → sysex_loop cable b (body ++ (0xF7 ∷ rest)) out
      ≡ (rest, out ++ packets cable (sysex_events b body))
unfolding sysex_loop
sysex_loop_lem cable [] b out rest free fits =
    ap (λ k. (rest, k)) (emit_event-fits cable _ _ out (omega arith))
sysex_loop_lem cable (x ∷ body) b out rest free fits =
    elim (Bool-cases (length (b ++ (x ∷ [])) == 3)) [
      | inl e ↦
          rw (==_false x 0xF7 free.0, e)
            (let f = rw e at fits in
              let now = emit_event-fits cable 4 (b ++ (x ∷ [])) out (omega arith) in
              rw now (
                sysex_loop_lem cable body [] (out ++ event cable 4 (b ++ (x ∷ []))) rest free.1
                  (omega (arith, length-append out (event cable 4 (b ++ (x ∷ [])))))
                ∙ ap (λ k. (rest, k))
                    (append_assoc out (event cable 4 (b ++ (x ∷ [])))
                      (packets cable (sysex_events [] body)))))
      | inr e ↦
          rw (==_false x 0xF7 free.0, e)
            (sysex_loop_lem cable body (b ++ (x ∷ [])) out rest free.1 (rw e at fits))
    ]

take-length : (xs ys : Bytes) → take (length xs) (xs ++ ys) ≡ xs
take-length [] ys = refl
take-length (x ∷ xs) ys = ap (◌∷◌ x) (take-length xs ys)

drop-length : (xs ys : Bytes) → drop (length xs) (xs ++ ys) ≡ ys
drop-length [] ys = refl
drop-length (x ∷ xs) ys = drop-length xs ys

-- One round of the outer loop on a whole message.
encode_from-sysex :
    (cable fuel : ℕ) (body out rest : Bytes)
    → All (λ x. x ≢ 0xF7) body
    → length out + 4 * length (sysex_events (0xF0 ∷ []) body) ≤ packet_bytes
    → encode_from cable (suc fuel) (wire (Message.sysex body) ++ rest) out
      ≡ encode_from cable fuel rest (out ++ packets cable (sysex_events (0xF0 ∷ []) body))
unfolding encode_from
encode_from-sysex cable fuel body out rest free fits =
    rw
      (append_assoc body (0xF7 ∷ []) rest, sysex_loop_lem cable body (0xF0 ∷ []) out rest free fits)

encode_from-short :
    (cable fuel s : ℕ) (args out rest : Bytes)
    → IsMessage (Message.short s args)
    → length out + 4 ≤ packet_bytes
    → encode_from cable (suc fuel) (s ∷ (args ++ rest)) out
      ≡ encode_from cable fuel rest
          (out ++ event cable (short_cin s (suc (length args))) (s ∷ args))
unfolding encode_from
encode_from-short cable fuel s args out rest (byte, ne, len) fits = rw (
  ==_false s 0xF0 ne,
  len,
  ==_false (suc (length args)) 0 (omega arith),
  le→ltb-false (suc (length (args ++ rest))) (suc (length args))
      (omega (arith, length-append args rest)),
  drop-length args rest,
  take-length args rest,
  emit_event-fits cable (short_cin s (suc (length args))) (s ∷ args) out fits,
)

pub encode_from_nil : (cable fuel : ℕ) (out : Bytes) → encode_from cable fuel [] out ≡ out
unfolding encode_from
encode_from_nil cable zero out = refl
encode_from_nil cable (suc fuel) out = refl

-- The encoder appends the events of the messages, if they fit.
encode_from-wires :
    (cable : ℕ) (ms : List Message) (fuel : ℕ) (out : Bytes)
    → All IsMessage ms
    → length ms ≤ fuel
    → length out + 4 * length (events ms) ≤ packet_bytes
    → encode_from cable fuel (wires ms) out ≡ out ++ packets cable (events ms)
encode_from-wires cable [] fuel out ok enough fits =
    encode_from_nil cable fuel out ∙ sym (append-nil out)
encode_from-wires cable (m ∷ ms) zero out ok enough fits = absurd (omega arith)
encode_from-wires cable (Message.sysex body ∷ ms) (suc fuel) out ok enough fits =
    let es = sysex_events (0xF0 ∷ []) body in
    let count = length-append es (events ms) in
    let size = length-append out (packets cable es) in
    let bytes = length-packets cable es in
    encode_from-sysex cable fuel body out (wires ms) ok.0 (omega arith)
    ∙ encode_from-wires cable ms fuel (out ++ packets cable es) ok.1 (omega arith) (omega arith)
    ∙ append_assoc out (packets cable es) (packets cable (events ms))
    ∙ ap (λ k. out ++ k) (sym (packets-append cable es (events ms)))
encode_from-wires cable (Message.short s args ∷ ms) (suc fuel) out ok enough fits =
    let e = event cable (short_cin s (suc (length args))) (s ∷ args) in
    encode_from-short cable fuel s args out (wires ms) ok.0 (omega arith)
    ∙ encode_from-wires cable ms fuel (out ++ e) ok.1 (omega arith)
        (omega (arith, length-append out e))
    ∙ append_assoc out e (packets cable (events ms))

wires-length : (ms : List Message) → length ms ≤ length (wires ms)
wires-length [] = omega arith
wires-length (Message.sysex body ∷ ms) =
    omega (arith, wires-length ms, length-append (body ++ (0xF7 ∷ [])) (wires ms))
wires-length (Message.short s args ∷ ms) =
    omega (arith, wires-length ms, length-append args (wires ms))

-- Whole messages whose events fit one transfer are encoded as exactly these events.
pub encode_midi-wires :
    (cable : ℕ) (ms : List Message)
    → All IsMessage ms
    → 4 * length (events ms) ≤ packet_bytes
    → encode_midi cable (wires ms) [] ≡ packets cable (events ms)
unfolding encode_midi
encode_midi-wires cable ms ok fits =
    encode_from-wires cable ms (length (wires ms)) [] ok (wires-length ms) (omega arith)
