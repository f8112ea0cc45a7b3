-- ===== src/Payload/Tests.antt =====
-- Concrete runs of the theorems on the payloads.
use r_compatible_driver_v.Base.{◌≤◌, ◌≡◌, arith, [], ◌∷◌, Bytes, AreBytes, length}
use r_compatible_driver_v.Payload.{unpack_7bit, pack_7bit, raw_capacity}
use r_compatible_driver_v.Payload.RoundTrip.{unpack_7bit-pack_7bit}
use r_compatible_driver_v.Payload.Length.{unpack_7bit_bounds}

-- More than one block.
abbrev payload : Bytes
payload = 255 ∷ 1 ∷ 128 ∷ 77 ∷ 0 ∷ 13 ∷ 200 ∷ 65 ∷ 66 ∷ []

unpack_7bit-pack_7bit_example : unpack_7bit (pack_7bit payload) 36 ≡ payload
unpack_7bit-pack_7bit_example =
    unpack_7bit-pack_7bit payload 36
      (
        omega arith,
        (
          omega arith,
          (
            omega arith,
            (
              omega arith,
              (omega arith, (omega arith, (omega arith, (omega arith, (omega arith, tt))))),
            ),
          ),
        ),
      )
      (omega arith)

abbrev septets : Bytes
septets = 127 ∷ 64 ∷ 96 ∷ 0 ∷ 1 ∷ 2 ∷ 3 ∷ 4 ∷ 5 ∷ 6 ∷ []

unpack_7bit_bounds_example :
    AreBytes (unpack_7bit septets 4)
    × (length (unpack_7bit septets 4) ≤ 4)
    × (length (unpack_7bit septets (raw_capacity septets)) ≡ 8)
unpack_7bit_bounds_example = unpack_7bit_bounds septets 4
