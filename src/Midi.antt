-- ===== src/Midi.antt =====
-- USB-MIDI 1.0 event packets as the tools read and write them: the length table of the code index
-- number, shared by Tools/ermidi_bridge.c and Tools/errig_read.c.
pub mod Bridge
pub mod Sysex
pub mod Requests
pub mod Tests
use r_compatible_driver_v.Base.{ℕ, ◌%◌, Bytes, [], ◌∷◌, get_or}

lengths : Bytes
lengths = 0 ∷ 0 ∷ 2 ∷ 3 ∷ 3 ∷ 1 ∷ 2 ∷ 3 ∷ 3 ∷ 3 ∷ 3 ∷ 3 ∷ 2 ∷ 2 ∷ 3 ∷ 1 ∷ []

-- `cin & 0x0f` is `cin % 16`.
unfoldable pub cin_length : ℕ → ℕ
unfolding lengths
cin_length cin = get_or lengths (cin % 16) 0
