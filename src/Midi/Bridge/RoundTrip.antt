-- ===== src/Midi/Bridge/RoundTrip.antt =====
-- What the bridge encodes, a reader of event packets decodes.
use mathlib.Core.Path.{ap₂}
use r_compatible_driver_v.Base.{
  ℕ, suc, ◌*◌, ◌/◌, ◌%◌, ◌≤◌, ◌<◌, ◌≡◌, refl, sym, ap, ◌∙◌, arith, true, Bool-cases, inl, inr, List,
  [], ◌∷◌, ◌++◌, append-nil, append_assoc, Bytes, All, All-append, length, length-append, take,
  get_or, ltb, leb, ◌==◌, ◌||◌, ◌&&◌, all_below, all_below_sound, if◌then◌else◌, ==_false, ==_iff,
  lt→leb-false,
}
use r_compatible_driver_v.Midi.{cin_length}
use r_compatible_driver_v.Midi.Bridge.{
  cables, packet_bytes, head_byte, status_length, short_cin, encode_midi, Delivery, deliver,
  read_events,
}
use r_compatible_driver_v.Midi.Bridge.Messages.{
  Message, IsMessage, wires, Event, sysex_events, message_events, events, packets, payload,
}
use r_compatible_driver_v.Midi.Bridge.Encodes.{encode_midi-wires}

-- An event has as many bytes as its code index number says, one to three.
abbrev IsEvent : Event → Type 0
IsEvent (cin, b) = (cin < 16) × (cin_length cin ≡ length b) × (1 ≤ length b) × (length b ≤ 3)

deliveries : ℕ → List Event → List Delivery
deliveries cable [] = []
deliveries cable ((cin, b) ∷ es) = record { cable = cable; bytes = b } ∷ deliveries cable es

-- The bytes of the deliveries, one behind the other.
abbrev pub joined : List Delivery → Bytes
joined [] = []
joined (d ∷ ds) = d.bytes ++ joined ds

take_event :
    (b : Bytes)
    → length b ≤ 3
    → take (length b) (get_or b 0 0 ∷ get_or b 1 0 ∷ get_or b 2 0 ∷ []) ≡ b
take_event [] h = refl
take_event (x ∷ []) h = refl
take_event (x ∷ y ∷ []) h = refl
take_event (x ∷ y ∷ z ∷ []) h = refl
take_event (x ∷ y ∷ z ∷ w ∷ b) h = absurd (omega arith)

cin_length-mod : (a b : ℕ) → a % 16 ≡ b % 16 → cin_length a ≡ cin_length b
unfolding cin_length
cin_length-mod a b e = rw e

deliver_lem :
    (cable cin : ℕ) (b : Bytes)
    → cable < cables
    → IsEvent (cin, b)
    → deliver
        (head_byte cable cin / 16)
        (get_or b 0 0 ∷ get_or b 1 0 ∷ get_or b 2 0 ∷ [])
        (cin_length (head_byte cable cin))
      ≡ record { cable = cable; bytes = b } ∷ []
unfolding deliver
deliver_lem cable cin b h (small, len, lo, hi) = rw (
  head_cable,
  cin_length-mod (head_byte cable cin) cin head_cin,
  lt→leb-false cables cable h,
  len,
  ==_false (length b) 0 (omega arith),
  take_event b hi,
)
  where
    head_cable : head_byte cable cin / 16 ≡ cable
    head_cable = omega arith

    head_cin : head_byte cable cin % 16 ≡ cin % 16
    head_cin = omega arith

read_packets :
    (cable : ℕ) (es : List Event)
    → cable < cables
    → All IsEvent es
    → read_events (packets cable es) ≡ deliveries cable es
unfolding read_events deliveries
read_packets cable [] h ok = refl
read_packets cable ((cin, b) ∷ es) h ok =
    rw (deliver_lem cable cin b h ok.0)
      (ap (◌∷◌ (record { cable = cable; bytes = b })) (read_packets cable es h ok.1))

last-IsEvent :
    (b : Bytes)
    → length b < 3
    → IsEvent (
      (if length (b ++ (0xF7 ∷ [])) == 1
          then 5
          else if length (b ++ (0xF7 ∷ [])) == 2
          then 6
          else 7),
      b ++ (0xF7 ∷ []),
    )
unfolding cin_length
last-IsEvent [] h = omega arith
last-IsEvent (x ∷ []) h = omega arith
last-IsEvent (x ∷ y ∷ []) h = omega arith
last-IsEvent (x ∷ y ∷ z ∷ b) h = absurd (omega arith)

sysex_events-IsEvent : (body b : Bytes) → length b < 3 → All IsEvent (sysex_events b body)
unfolding cin_length
sysex_events-IsEvent [] b h = (last-IsEvent b h, tt)
sysex_events-IsEvent (x ∷ body) b h = elim (Bool-cases (length (b ++ (x ∷ [])) == 3)) [
  | inl e ↦ rw e (
    (omega arith, sym (three e), omega (arith, three e), omega (arith, three e)),
    sysex_events-IsEvent body [] (omega arith),
  )
  | inr e ↦
      rw e (sysex_events-IsEvent body (b ++ (x ∷ [])) (ground (arith, length-append b (x ∷ []))))
]
  where
    three : (length (b ++ (x ∷ [])) == 3) ≡ true → length (b ++ (x ∷ [])) ≡ 3
    three = (==_iff (length (b ++ (x ∷ []))) 3).0

-- The code index number of each status has the length of its message.
status_table :
    all_below 256 (λ s.
      s == 0xF0
      || status_length s == 0
      || (cin_length (short_cin s (status_length s)) == status_length s
          && leb (status_length s) 3
          && ltb (short_cin s (status_length s)) 16))
    ≡ true
unfolding all_below status_length cin_length
status_table = refl

short-IsEvent :
    (s : ℕ) (args : Bytes)
    → IsMessage (Message.short s args)
    → IsEvent (short_cin s (suc (length args)), s ∷ args)
short-IsEvent s args (byte, ne, len) =
    let row = rw len at (all_below_sound 256 _ status_table s byte) in ground (arith, row)

message_events-IsEvent : (m : Message) → IsMessage m → All IsEvent (message_events m)
message_events-IsEvent (Message.sysex body) ok = sysex_events-IsEvent body (0xF0 ∷ []) (omega arith)
message_events-IsEvent (Message.short s args) ok = (short-IsEvent s args ok, tt)

events-IsEvent : (ms : List Message) → All IsMessage ms → All IsEvent (events ms)
events-IsEvent [] ok = tt
events-IsEvent (m ∷ ms) ok =
    All-append IsEvent (message_events m) (events ms) (message_events-IsEvent m ok.0)
      (events-IsEvent ms ok.1)

payload-append : (es fs : List Event) → payload (es ++ fs) ≡ payload es ++ payload fs
payload-append [] fs = refl
payload-append ((cin, b) ∷ es) fs =
    ap (λ k. b ++ k) (payload-append es fs) ∙ sym (append_assoc b (payload es) (payload fs))

payload-sysex_events : (body b : Bytes) → payload (sysex_events b body) ≡ b ++ (body ++ (0xF7 ∷ []))
payload-sysex_events [] b = append-nil (b ++ (0xF7 ∷ []))
payload-sysex_events (x ∷ body) b = elim (Bool-cases (length (b ++ (x ∷ [])) == 3)) [
  | inl e ↦ rw e (ap (λ k. (b ++ (x ∷ [])) ++ k) (payload-sysex_events body []) ∙ regroup)
  | inr e ↦ rw e (payload-sysex_events body (b ++ (x ∷ [])) ∙ regroup)
]
  where
    regroup : (b ++ (x ∷ [])) ++ (body ++ (0xF7 ∷ [])) ≡ b ++ (x ∷ (body ++ (0xF7 ∷ [])))
    regroup = append_assoc b (x ∷ []) (body ++ (0xF7 ∷ []))

payload-events : (ms : List Message) → payload (events ms) ≡ wires ms
payload-events [] = refl
payload-events (Message.sysex body ∷ ms) =
    payload-append (sysex_events (0xF0 ∷ []) body) (events ms)
    ∙ ap₂ (λ j k. j ++ k) (payload-sysex_events body (0xF0 ∷ [])) (payload-events ms)
payload-events (Message.short s args ∷ ms) = ap (λ k. s ∷ (args ++ k)) (payload-events ms)

joined-deliveries : (cable : ℕ) (es : List Event) → joined (deliveries cable es) ≡ payload es
unfolding deliveries
joined-deliveries cable [] = refl
joined-deliveries cable ((cin, b) ∷ es) = ap (λ k. b ++ k) (joined-deliveries cable es)

deliveries-cable : (cable : ℕ) (es : List Event) → All (λ d. d.cable ≡ cable) (deliveries cable es)
unfolding deliveries
deliveries-cable cable [] = tt
deliveries-cable cable ((cin, b) ∷ es) = (refl, deliveries-cable cable es)

-- On either cable, whole MIDI messages whose events fit one transfer of 512 bytes come back from the
-- bridge's own reader as the same bytes, in order, all on that cable.
pub encode_midi-read_events :
    (cable : ℕ) (ms : List Message)
    → cable < cables
    → All IsMessage ms
    → 4 * length (events ms) ≤ packet_bytes
    → (joined (read_events (encode_midi cable (wires ms) [])) ≡ wires ms)
      × All (λ d. d.cable ≡ cable) (read_events (encode_midi cable (wires ms) []))
encode_midi-read_events cable ms h ok fits =
    rw (encode_midi-wires cable ms ok fits, read_packets cable (events ms) h (events-IsEvent ms ok))
      (joined-deliveries cable (events ms) ∙ payload-events ms, deliveries-cable cable (events ms))
