-- ===== src/Payload.antt =====
-- The payload of a patch answer: Tools/errig_read.c `unpack_7bit`, and the two packings of the device.
pub mod Length
pub mod RoundTrip
pub mod Volume
pub mod Tests
use r_compatible_driver_v.Base.{
  ℕ, zero, suc, ◌+◌, ◌-◌, ◌*◌, ◌/◌, ◌%◌, ◌^◌, Bytes, [], ◌∷◌, ◌++◌, length, take, drop, ltb,
  if◌then◌else◌, u8, bit_or,
}

-- The inner loop over the phases of a block of at most eight bytes, with `room` for the bytes it
-- stores.
unfoldable pub unpack_block : ℕ → ℕ → Bytes → Bytes
unpack_block phase zero block = []
unpack_block phase (suc room) (a ∷ b ∷ block) =
    u8 (bit_or (a * 2 ^ phase) (b / 2 ^ (7 - phase))) ∷ unpack_block (phase + 1) room (b ∷ block)
unpack_block phase (suc room) _ = []

-- The outer loop, a block a round. Once the buffer is full it stores nothing more, as the return.
unfoldable pub unpack_from : ℕ → ℕ → Bytes → Bytes
unpack_from zero room packed = []
unpack_from (suc fuel) room packed =
    let raw = unpack_block 1 room (take 8 packed) in
    let rest = unpack_from fuel (room - length raw) (drop 8 packed) in
    if ltb 1 (length packed) then raw ++ rest else []

unfoldable pub unpack_7bit : Bytes → ℕ → Bytes
unpack_7bit packed raw_capacity = unpack_from (length packed) raw_capacity packed

-- `raw_capacity` of the callers
abbrev pub raw_capacity : Bytes → ℕ
raw_capacity packed = length packed * 7 / 8 + 1

-- The device's packing: the bits of up to seven bytes, big end first, in one septet more; the carry
-- is what the bytes before leave, in place.
pub pack_block : ℕ → ℕ → Bytes → Bytes
pack_block phase carry [] = carry ∷ []
pack_block phase carry (b ∷ block) =
    (carry + b / 2 ^ phase) ∷ pack_block (phase + 1) (b % 2 ^ phase * 2 ^ (7 - phase)) block

pub pack_from : ℕ → Bytes → Bytes
pack_from zero raw = []
pack_from (suc fuel) [] = []
pack_from (suc fuel) (b ∷ raw) =
    pack_block 1 0 (take 7 (b ∷ raw)) ++ pack_from fuel (drop 7 (b ∷ raw))

pub pack_7bit : Bytes → Bytes
pack_7bit raw = pack_from (length raw) raw
