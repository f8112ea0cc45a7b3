-- ===== src/Midi/Bridge.antt =====
-- The CoreMIDI bridge of Tools/ermidi_bridge.c: MIDI bytes to event packets (`encodeMIDI`) and back
-- (`reader`, `deliver`).
pub mod Bounds
pub mod Messages
pub mod Encodes
pub mod RoundTrip
pub mod Split
use r_compatible_driver_v.Base.{
  ℕ, zero, suc, ◌+◌, ◌*◌, ◌/◌, ◌%◌, Bytes, List, [], ◌∷◌, ◌++◌, get_or, take, drop, length, ltb,
  leb, ◌==◌, if◌then◌else◌, u8, Option, none, some, ◌||◌,
}
use r_compatible_driver_v.Midi.{cin_length}

-- ER_CABLES, and the bytes of one transfer
abbrev pub cables : ℕ
cables = 2

abbrev pub packet_bytes : ℕ
packet_bytes = 512

-- `(cable<<4)|(cin&15)` as a byte; the two have no bit in common.
abbrev pub head_byte : ℕ → ℕ → ℕ
head_byte cable cin = u8 (cable * 16) + cin % 16

abbrev pub event : ℕ → ℕ → Bytes → Bytes
event cable cin b = head_byte cable cin ∷ get_or b 0 0 ∷ get_or b 1 0 ∷ get_or b 2 0 ∷ []

-- `out` is what is written so far, so `*used` is its length; `b` has the `n` bytes of the event.
unfoldable pub emit_event : ℕ → ℕ → Bytes → Bytes → Bytes
emit_event cable cin b out =
    if ltb packet_bytes (length out + 4) then out else out ++ event cable cin b

unfoldable pub status_length : ℕ → ℕ
status_length s =
    if ltb s 0x80
    then 0
    else if ltb s 0xC0
    then 3
    else if ltb s 0xE0
    then 2
    else if ltb s 0xF0
    then 3
    else if s == 0xF1 || s == 0xF3
    then 2
    else if s == 0xF2
    then 3
    else 1

-- `cin` of a message other than SysEx, of which `n` bytes are there.
abbrev pub short_cin : ℕ → ℕ → ℕ
short_cin s n = if leb 0xF0 s then (if n == 1 then 15 else if n == 2 then 2 else 3) else s / 16 % 16

module _ (cable : ℕ) where
  -- The loop behind a 0xF0, with the bytes `b` pending: the input left, and the output.
  unfoldable pub sysex_loop : Bytes → Bytes → Bytes → Bytes × Bytes
  sysex_loop b [] out = (
    [],
    if length b == 0
        then out
        else emit_event cable (if length b == 1 then 5 else if length b == 2 then 6 else 4) b out,
  )
  sysex_loop b (x ∷ rest) out =
      let b' = b ++ (x ∷ []) in
      let n = length b' in
      let full = n == 3 in
      let after =
        sysex_loop (if full then [] else b') rest
          (if full then emit_event cable 4 b' out else out) in
      if x == 0xF7
      then (rest, emit_event cable (if n == 1 then 5 else if n == 2 then 6 else 7) b' out)
      else after

  -- The outer loop on fuel: each round takes at least one byte.
  unfoldable pub encode_from : ℕ → Bytes → Bytes → Bytes
  encode_from zero data' out = out
  encode_from (suc fuel) [] out = out
  encode_from (suc fuel) (s ∷ rest) out =
      let sysex = sysex_loop (0xF0 ∷ []) rest out in
      let n = status_length s in
      let m = if ltb (length (s ∷ rest)) n then length (s ∷ rest) else n in
      let after_sysex = encode_from fuel sysex.0 sysex.1 in
      let after_stray = encode_from fuel rest out in
      let after_short =
        encode_from fuel (drop m (s ∷ rest))
          (emit_event cable (short_cin s m) (take m (s ∷ rest)) out) in
      if s == 0xF0 then after_sysex else if n == 0 then after_stray else after_short

  unfoldable pub encode_midi : Bytes → Bytes → Bytes
  encode_midi message out = encode_from (length message) message out

-- `coreMidiOutput`: the packets of one list share a transfer; an empty one is not written.
unfoldable pub encode_packets : ℕ → List Bytes → Bytes → Bytes
encode_packets cable [] out = out
encode_packets cable (p ∷ ps) out = encode_packets cable ps (encode_midi cable p out)

unfoldable pub core_midi_output : ℕ → List Bytes → Option Bytes
core_midi_output cable ps =
    let usb = encode_packets cable ps [] in if length usb == 0 then none else some usb

-- What `deliver` hands to CoreMIDI.
pub record Delivery : Type 0 where
  pub cable : ℕ
  pub bytes : Bytes

unfoldable pub deliver : ℕ → Bytes → ℕ → List Delivery
deliver cable bytes n =
    if leb cables cable || n == 0 then [] else record { cable = cable; bytes = take n bytes } ∷ []

-- The loop of `reader` over one transfer; up to three last bytes are left unread.
unfoldable pub read_events : Bytes → List Delivery
read_events (h ∷ x ∷ y ∷ z ∷ rest) =
    deliver (h / 16) (x ∷ y ∷ z ∷ []) (cin_length h) ++ read_events rest
read_events _ = []
