-- ===== src/Midi/Bridge/Bounds.antt =====
-- The transfer buffer of the bridge: whatever the input, no event is written past its end.
use mathlib.Core.Path.{subst}
use r_compatible_driver_v.Base.{
  ℕ, zero, suc, ◌+◌, ◌%◌, ◌≤◌, ◌≡◌, refl, arith, Bytes, List, some, ◌<◌, [], ◌∷◌, ◌++◌, length,
  length-append, ltb, ◌==◌, if◌then◌else◌, Bool, true, false, ltb-false→le, Bool-cases, inl, inr,
}
use r_compatible_driver_v.Midi.Bridge.{
  packet_bytes, event, emit_event, status_length, sysex_loop, encode_from, encode_midi,
  encode_packets, core_midi_output,
}

-- Whole events, and no more than the buffer holds.
pub record IsTransfer (out : Bytes) : Type 0 where
  pub within : length out ≤ packet_bytes
  pub whole : length out % 4 ≡ 0

if-IsTransfer :
    (c : Bool) {a b : Bytes} → IsTransfer a → IsTransfer b → IsTransfer (if c then a else b)
if-IsTransfer true u v = u
if-IsTransfer false u v = v

emit_event-IsTransfer :
    (cable cin : ℕ) (b out : Bytes) → IsTransfer out → IsTransfer (emit_event cable cin b out)
unfolding emit_event
emit_event-IsTransfer cable cin b out v = elim (Bool-cases (ltb packet_bytes (length out + 4))) [
  | inl e ↦ rw e v
  | inr e ↦
      rw e (record { within = omega (arith, sum, fits e); whole = omega (arith, sum, v.whole) })
]
  where
    fits : ltb packet_bytes (length out + 4) ≡ false → length out + 4 ≤ packet_bytes
    fits = ltb-false→le packet_bytes (length out + 4)

    sum : length (out ++ event cable cin b) ≡ length out + 4
    sum = length-append out (event cable cin b)

module _ (cable : ℕ) where
  sysex_loop-IsTransfer :
      (input b out : Bytes) → IsTransfer out → IsTransfer (sysex_loop cable b input out).1
  unfolding sysex_loop
  sysex_loop-IsTransfer [] b out v =
      if-IsTransfer (length b == 0) v (emit_event-IsTransfer cable _ b out v)
  sysex_loop-IsTransfer (x ∷ rest) b out v = elim (Bool-cases (x == 0xF7)) [
    | inl e ↦ rw e (emit_event-IsTransfer cable _ _ out v)
    | inr e ↦ rw e (
        sysex_loop-IsTransfer rest _ _
          (if-IsTransfer (length (b ++ (x ∷ [])) == 3) (emit_event-IsTransfer cable 4 _ out v) v))
  ]

  encode_from-IsTransfer :
      (fuel : ℕ) (message out : Bytes)
      → IsTransfer out
      → IsTransfer (encode_from cable fuel message out)
  unfolding encode_from
  encode_from-IsTransfer zero message out v = v
  encode_from-IsTransfer (suc fuel) [] out v = v
  encode_from-IsTransfer (suc fuel) (s ∷ rest) out v =
      if-IsTransfer (s == 0xF0)
        (encode_from-IsTransfer fuel _ _ (sysex_loop-IsTransfer rest (0xF0 ∷ []) out v))
        (if-IsTransfer (status_length s == 0) (encode_from-IsTransfer fuel rest out v)
          (encode_from-IsTransfer fuel _ _ (emit_event-IsTransfer cable _ _ out v)))

encode_packets-IsTransfer :
    (cable : ℕ) (ps : List Bytes) (out : Bytes)
    → IsTransfer out
    → IsTransfer (encode_packets cable ps out)
unfolding encode_packets encode_midi
encode_packets-IsTransfer cable [] out v = v
encode_packets-IsTransfer cable (p ∷ ps) out v =
    encode_packets-IsTransfer cable ps _ (encode_from-IsTransfer cable (length p) p out v)

-- Whatever packets CoreMIDI hands over, the transfer that the bridge writes is not empty, is made of
-- whole four-byte events and stays within the 512 bytes of the buffer.
pub core_midi_output-IsTransfer :
    (cable : ℕ) (ps : List Bytes) {usb : Bytes}
    → core_midi_output cable ps ≡ some usb
    → IsTransfer usb × (0 < length usb)
unfolding core_midi_output
core_midi_output-IsTransfer cable ps {usb} e =
    let all = encode_packets cable ps [] in
    let same : all ≡ usb = ground arith in
    let whole : IsTransfer all = encode_packets-IsTransfer cable ps [] start in
    (subst IsTransfer same whole, ground arith)
  where
    start : IsTransfer []
    start = record { within = omega arith; whole = refl }
