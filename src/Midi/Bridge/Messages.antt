-- ===== src/Midi/Bridge/Messages.antt =====
-- MIDI messages, their bytes, and the event packets that USB-MIDI 1.0 gives them: what the bridge is
-- to produce.
use r_compatible_driver_v.Base.{
  ℕ, suc, ◌<◌, ◌≡◌, ◌≢◌, List, [], ◌∷◌, ◌++◌, Bytes, All, length, ◌==◌, if◌then◌else◌,
}
use r_compatible_driver_v.Midi.Bridge.{status_length, event, short_cin}

-- A system-exclusive message by its body, and any other by its status and its other bytes.
pub data Message : Type 0 where
  sysex : Bytes → Message
  short : ℕ → Bytes → Message

-- The body does not hold the end mark. A short message has the length that its status asks for.
abbrev pub IsMessage : Message → Type 0
IsMessage (Message.sysex body) = All (λ b. b ≢ 0xF7) body
IsMessage (Message.short s args) = (s < 256) × (s ≢ 0xF0) × (status_length s ≡ suc (length args))

abbrev pub wire : Message → Bytes
wire (Message.sysex body) = 0xF0 ∷ (body ++ (0xF7 ∷ []))
wire (Message.short s args) = s ∷ args

abbrev pub wires : List Message → Bytes
wires [] = []
wires (m ∷ ms) = wire m ++ wires ms

-- A code index number and the bytes of the event.
abbrev pub Event : Type 0
Event = ℕ × Bytes

-- The events of a SysEx body with the bytes `b` pending.
abbrev pub sysex_events : Bytes → Bytes → List Event
sysex_events b [] =
    let last = b ++ (0xF7 ∷ []) in
    let n = length last in ((if n == 1 then 5 else if n == 2 then 6 else 7), last) ∷ []
sysex_events b (x ∷ body) =
    let b' = b ++ (x ∷ []) in
    let full = length b' == 3 in
    let later = sysex_events (if full then [] else b') body in
    if full then (4, b') ∷ later else later

abbrev pub message_events : Message → List Event
message_events (Message.sysex body) = sysex_events (0xF0 ∷ []) body
message_events (Message.short s args) = (short_cin s (suc (length args)), s ∷ args) ∷ []

abbrev pub events : List Message → List Event
events [] = []
events (m ∷ ms) = message_events m ++ events ms

abbrev pub packets : ℕ → List Event → Bytes
packets cable [] = []
packets cable ((cin, b) ∷ es) = event cable cin b ++ packets cable es

abbrev pub payload : List Event → Bytes
payload [] = []
payload ((cin, b) ∷ es) = b ++ payload es
