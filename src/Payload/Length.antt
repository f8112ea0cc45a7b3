-- ===== src/Payload/Length.antt =====
-- How many bytes `unpack_7bit` stores, and that the callers' buffer holds them.
use r_compatible_driver_v.Base.{
  ℕ, zero, suc, ◌+◌, ◌-◌, ◌*◌, ◌/◌, ◌%◌, ◌≤◌, ◌≡◌, arith, Bytes, [], ◌∷◌, length, take, drop, ltb,
  ltb→lt, ltb-false→le, AreBytes, All-append, length-append, length-take, length-drop, min,
  Bool-cases, inl, inr,
}
use r_compatible_driver_v.Payload.{unpack_block, unpack_from, unpack_7bit, raw_capacity}

length-unpack_block :
    (block : Bytes) (p room : ℕ) → length (unpack_block p room block) ≡ min room (length block - 1)
unfolding unpack_block
length-unpack_block [] p zero = omega arith
length-unpack_block (a ∷ block) p zero = omega arith
length-unpack_block [] p (suc room) = omega arith
length-unpack_block (a ∷ []) p (suc room) = omega arith
length-unpack_block (a ∷ b ∷ block) p (suc room) =
    omega (arith, length-unpack_block (b ∷ block) (p + 1) room)

length-unpack_from :
    (fuel room : ℕ) (packed : Bytes)
    → length packed ≤ fuel
    → length (unpack_from fuel room packed)
      ≡ min room (length packed / 8 * 7 + (length packed % 8 - 1))
unfolding unpack_from
length-unpack_from zero room packed h = omega arith
length-unpack_from (suc fuel) room packed h = elim (Bool-cases (ltb 1 (length packed))) [
  | inl e ↦ rw e (
      omega (
        arith,
        ltb→lt 1 (length packed) e,
        length-append (unpack_block 1 room (take 8 packed)) (
            unpack_from fuel (room - length (unpack_block 1 room (take 8 packed))) (drop 8 packed)),
        length-unpack_block (take 8 packed) 1 room,
        length-take 8 packed,
        length-drop 8 packed,
        length-unpack_from fuel (room - length (unpack_block 1 room (take 8 packed)))
            (drop 8 packed) (omega (arith, length-drop 8 packed, ltb→lt 1 (length packed) e)),
      ))
  | inr e ↦ rw e (omega (arith, ltb-false→le 1 (length packed) e))
]

unpack_block-AreBytes : (block : Bytes) (p room : ℕ) → AreBytes (unpack_block p room block)
unfolding unpack_block
unpack_block-AreBytes block p zero = tt
unpack_block-AreBytes [] p (suc room) = tt
unpack_block-AreBytes (a ∷ []) p (suc room) = tt
unpack_block-AreBytes (a ∷ b ∷ block) p (suc room) =
    (omega arith, unpack_block-AreBytes (b ∷ block) (p + 1) room)

unpack_from-AreBytes : (fuel room : ℕ) (packed : Bytes) → AreBytes (unpack_from fuel room packed)
unfolding unpack_from
unpack_from-AreBytes zero room packed = tt
unpack_from-AreBytes (suc fuel) room packed = elim (Bool-cases (ltb 1 (length packed))) [
  | inl e ↦ rw e (
      All-append _ (unpack_block 1 room (take 8 packed)) _
        (unpack_block-AreBytes (take 8 packed) 1 room)
        (unpack_from-AreBytes fuel _ (drop 8 packed)))
  | inr e ↦ rw e tt
]

-- What is stored are bytes, never more than the buffer holds; with the callers' capacity nothing is
-- cut off: each whole block of eight gives seven bytes, and a last one of `n + 1` gives `n`.
pub unpack_7bit_bounds :
    (packed : Bytes) (capacity : ℕ)
    → AreBytes (unpack_7bit packed capacity)
      × (length (unpack_7bit packed capacity) ≤ capacity)
      × (length (unpack_7bit packed (raw_capacity packed))
          ≡ length packed / 8 * 7 + (length packed % 8 - 1))
unfolding unpack_7bit
unpack_7bit_bounds packed capacity = (
  unpack_from-AreBytes (length packed) capacity packed,
  omega (arith, length-unpack_from (length packed) capacity packed (omega arith)),
  omega (arith, length-unpack_from (length packed) (raw_capacity packed) packed (omega arith)),
)

pub length-unpack_7bit :
    (packed : Bytes) (capacity : ℕ)
    → length (unpack_7bit packed capacity)
      ≡ min capacity (length packed / 8 * 7 + (length packed % 8 - 1))
unfolding unpack_7bit
length-unpack_7bit packed capacity =
    length-unpack_from (length packed) capacity packed (omega arith)
