-- ===== src/Midi/Tests.antt =====
-- Concrete runs of the theorems on the MIDI transport: the identity request and a rig change.
use r_compatible_driver_v.Base.{
  ℕ, zero, suc, ◌<◌, ◌≡◌, refl, arith, List, [], ◌∷◌, ◌++◌, Bytes, All, length, some, true,
}
use r_compatible_driver_v.Midi.{cin_length}
use r_compatible_driver_v.Midi.Bridge.{
  encode_packets, encode_from, sysex_loop, emit_event, status_length, event, encode_midi,
  core_midi_output, read_events,
}
use r_compatible_driver_v.Midi.Bridge.Messages.{Message, IsMessage, wires}
use r_compatible_driver_v.Midi.Bridge.Bounds.{IsTransfer, core_midi_output-IsTransfer}
use r_compatible_driver_v.Midi.Bridge.RoundTrip.{joined, encode_midi-read_events}
use r_compatible_driver_v.Midi.Bridge.Split.{continuation_lost}
use r_compatible_driver_v.Midi.Sysex.{PipeRead, success, timeout, read_sysex, complete}
use r_compatible_driver_v.Midi.Sysex.Stream.{stream, read_sysex_lem}
use r_compatible_driver_v.Midi.Sysex.Shape.{OutcomeFits, read_sysex-Fits}
use r_compatible_driver_v.Midi.Requests.{is_object_response}

abbrev identity_body : Bytes
identity_body = 0x7e ∷ 0x7f ∷ 0x06 ∷ 0x01 ∷ []

-- A program change and the identity request.
abbrev two_messages : List Message
two_messages = Message.short 0xc0 (5 ∷ []) ∷ Message.sysex identity_body ∷ []

two_messages-IsMessage : All IsMessage two_messages
unfolding status_length
two_messages-IsMessage = (
  (omega arith, omega arith, refl),
  ((omega arith, (omega arith, (omega arith, (omega arith, tt)))), tt),
)

encode_midi-read_events_example :
    (joined (read_events (encode_midi 1 (wires two_messages) [])) ≡ wires two_messages)
    × All (λ d. d.cable ≡ 1) (read_events (encode_midi 1 (wires two_messages) []))
encode_midi-read_events_example =
    encode_midi-read_events 1 two_messages (omega arith) two_messages-IsMessage (omega arith)

abbrev program_change_packet : Bytes
program_change_packet = 0x1c ∷ 0xc0 ∷ 5 ∷ 0 ∷ []

program_change : core_midi_output 1 ((0xc0 ∷ 5 ∷ []) ∷ []) ≡ some program_change_packet
unfolding core_midi_output encode_midi encode_packets encode_from sysex_loop emit_event
    status_length
program_change = refl

core_midi_output-IsTransfer_example :
    IsTransfer program_change_packet × (0 < length program_change_packet)
core_midi_output-IsTransfer_example =
    core_midi_output-IsTransfer 1 ((0xc0 ∷ 5 ∷ []) ∷ []) {usb = program_change_packet}
      program_change

continuation_lost_example : encode_midi 0 ((1 ∷ 2 ∷ []) ++ (0xF7 ∷ [])) [] ≡ event 0 15 (0xF7 ∷ [])
continuation_lost_example = continuation_lost 0 (1 ∷ 2 ∷ []) (omega arith, (omega arith, tt))

-- Two transfers: events of the other cable and a stray byte, then an answer cut in the middle.
abbrev answers : ℕ → PipeRead
answers zero = record {
  result = success;
  bytes = 0x1c ∷ 0xc0 ∷ 5 ∷ 0 ∷ 0x05 ∷ 0xf8 ∷ 0 ∷ 0 ∷ 0x04 ∷ 0xf0 ∷ 0x7e ∷ 0x7f ∷ [];
}
answers (suc zero) = record {
  result = success;
  bytes = 0x07 ∷ 0x06 ∷ 0x01 ∷ 0xf7 ∷ 0x05 ∷ 0xfe ∷ 0 ∷ 0 ∷ [];
}
answers (suc (suc n)) = record { result = timeout; bytes = [] }

answers-stream :
    stream answers 0 2 ≡ (0xf8 ∷ []) ++ 0xf0 ∷ ((identity_body ++ 0xf7 ∷ []) ++ 0xfe ∷ [])
unfolding cin_length
answers-stream = refl

answers-success : (i : ℕ) → i < 2 → (answers i).result ≡ success
answers-success zero h = refl
answers-success (suc zero) h = refl
answers-success (suc (suc i)) h = absurd (omega arith)

read_sysex_lem_example : read_sysex 64 answers ≡ complete (0xf0 ∷ (identity_body ++ 0xf7 ∷ []))
read_sysex_lem_example =
    read_sysex_lem 64 2 answers (0xf8 ∷ []) identity_body (0xfe ∷ []) (omega arith) answers-success
      answers-stream (omega arith, tt)
      (omega arith, (omega arith, (omega arith, (omega arith, tt)))) (omega arith)

read_sysex-Fits_example : OutcomeFits 64 (read_sysex 64 answers)
read_sysex-Fits_example = read_sysex-Fits 64 answers

abbrev volume_answer : Bytes
volume_answer = 0xf0 ∷ 0x13 ∷ 0x0b ∷ 3 ∷ 0x12 ∷ 0x07 ∷ 64 ∷ 0 ∷ 0 ∷ 0 ∷ 0 ∷ 0xf7 ∷ []

volume_answer-accepted : is_object_response volume_answer 3 7 ≡ true
unfolding is_object_response
volume_answer-accepted = refl
