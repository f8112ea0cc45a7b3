-- ===== src/Midi/Bridge/Split.antt =====
-- A SysEx message that CoreMIDI hands over in more than one packet.
use r_compatible_driver_v.Base.{
  ℕ, zero, suc, ◌<◌, ◌≡◌, ◌∙◌, arith, [], ◌∷◌, ◌++◌, Bytes, All, length, length-append, ==_false,
  lt→ltb,
}
use r_compatible_driver_v.Midi.Bridge.Encodes.{encode_from_nil}
use r_compatible_driver_v.Midi.Bridge.{event, emit_event, status_length, encode_from, encode_midi}

status_length-data : (x : ℕ) → x < 0x80 → status_length x ≡ 0
unfolding status_length
status_length-data x h = rw (lt→ltb x 0x80 h)

encode_from_mark :
    (cable fuel : ℕ) → encode_from cable (suc fuel) (0xF7 ∷ []) [] ≡ event cable 15 (0xF7 ∷ [])
unfolding encode_from emit_event status_length
encode_from_mark cable fuel = encode_from_nil cable fuel (event cable 15 (0xF7 ∷ []))

encode_from_data :
    (cable fuel x : ℕ) (rest out : Bytes)
    → x < 0x80
    → encode_from cable (suc fuel) (x ∷ rest) out ≡ encode_from cable fuel rest out
unfolding encode_from
encode_from_data cable fuel x rest out h =
    rw (==_false x 0xF0 (omega arith), status_length-data x h)

encode_from-stray :
    (cable : ℕ) (stray : Bytes) (fuel : ℕ)
    → All (λ b. b < 0x80) stray
    → length stray < fuel
    → encode_from cable fuel (stray ++ (0xF7 ∷ [])) [] ≡ event cable 15 (0xF7 ∷ [])
encode_from-stray cable stray zero ok enough = absurd (omega arith)
encode_from-stray cable [] (suc fuel) ok enough = encode_from_mark cable fuel
encode_from-stray cable (x ∷ stray) (suc fuel) ok enough =
    encode_from_data cable fuel x (stray ++ (0xF7 ∷ [])) [] ok.0
    ∙ encode_from-stray cable stray fuel ok.1 (omega arith)

-- `encodeMIDI` keeps no state between packets: of a packet that continues a SysEx message, data bytes
-- and then the end mark, it loses every data byte and sends the end mark alone.
pub continuation_lost :
    (cable : ℕ) (stray : Bytes)
    → All (λ b. b < 0x80) stray
    → encode_midi cable (stray ++ (0xF7 ∷ [])) [] ≡ event cable 15 (0xF7 ∷ [])
unfolding encode_midi
continuation_lost cable stray ok =
    encode_from-stray cable stray (length (stray ++ (0xF7 ∷ []))) ok
      (omega (arith, length-append stray (0xF7 ∷ [])))
