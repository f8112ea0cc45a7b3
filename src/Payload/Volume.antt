-- ===== src/Payload/Volume.antt =====
-- The scalar answer: `print_rig_volume` of Tools/errig_read.c takes 7/7/7/7/4 bits, most significant
-- first, and shows the word as a level between -24 dB and 0 dB.
use r_compatible_driver_v.Base.{
  ℕ, ◌+◌, ◌-◌, ◌*◌, ◌/◌, ◌%◌, ◌^◌, ◌<◌, ◌≡◌, arith, Bytes, [], ◌∷◌, length, get_or, leb, ltb, ◌==◌,
  if◌then◌else◌, u32, bit_or, bit_or_low, not, ◌&&◌, ◌||◌, Option, none, some, ap, ◌∙◌,
}

abbrev at : Bytes → ℕ → ℕ
at sysex i = get_or sysex i 0

-- The shifts are of a uint32_t; `& 0x0f` is `% 16`.
unfoldable pub volume_bits : ℕ → ℕ → ℕ → ℕ → ℕ → ℕ
volume_bits p0 p1 p2 p3 p4 =
    bit_or (bit_or (bit_or (bit_or (u32 (p0 * 2 ^ 25)) (p1 * 2 ^ 18)) (p2 * 2 ^ 11)) (p3 * 2 ^ 4))
      (p4 % 16)

-- The word shown; `none` where the message is refused.
unfoldable pub rig_volume : Bytes → Option ℕ
rig_volume s =
    if not (
      leb 8 (length s)
      && at s 0 == 0xf0
      && at s 1 == 0x13
      && at s 2 == 0x0b
      && (at s 4 == 0x02 || at s 4 == 0x12)
      && at s 5 == 0x07
      && at s (length s - 1) == 0xf7)
    then none
    else if not (length s - 7 == 5)
    then none
    else some (volume_bits (at s 6) (at s 7) (at s 8) (at s 9) (at s 10))

-- `position`: the signed word counted from the lowest one. The level is -24 + 24 * position / (2^32 - 1).
unfoldable pub volume_position : ℕ → ℕ
volume_position bits = u32 (bits + 2 ^ 31)

-- The answer of the device for the word `w`, with function `f`.
abbrev pub volume_message : ℕ → ℕ → ℕ → Bytes
volume_message device_id f w =
    0xf0
    ∷ 0x13
    ∷ 0x0b
    ∷ device_id
    ∷ f
    ∷ 0x07
    ∷ w / 2 ^ 25
    ∷ w / 2 ^ 18 % 128
    ∷ w / 2 ^ 11 % 128
    ∷ w / 2 ^ 4 % 128
    ∷ w % 16
    ∷ 0xf7
    ∷ []

-- Fields that fit do not overlap.
volume_bits_sum :
    (p0 p1 p2 p3 p4 : ℕ)
    → p0 < 128
    → p1 < 128
    → p2 < 128
    → p3 < 128
    → p4 < 16
    → volume_bits p0 p1 p2 p3 p4 ≡ (((p0 * 128 + p1) * 128 + p2) * 128 + p3) * 16 + p4
unfolding volume_bits
volume_bits_sum p0 p1 p2 p3 p4 h0 h1 h2 h3 h4 =
    ap (λ x. bit_or (bit_or (bit_or (bit_or x (p1 * 2 ^ 18)) (p2 * 2 ^ 11)) (p3 * 2 ^ 4)) (p4 % 16))
      word
    ∙ ap (λ x. bit_or (bit_or (bit_or x (p2 * 2 ^ 11)) (p3 * 2 ^ 4)) (p4 % 16)) first
    ∙ ap (λ x. bit_or (bit_or x (p3 * 2 ^ 4)) (p4 % 16)) second
    ∙ ap (λ x. bit_or x (p4 % 16)) third
    ∙ last
  where
    word : u32 (p0 * 2 ^ 25) ≡ p0 * 2 ^ 25
    word = omega arith

    first : bit_or (p0 * 2 ^ 25) (p1 * 2 ^ 18) ≡ (p0 * 128 + p1) * 2 ^ 18
    first = omega (arith, bit_or_low 25 p0 (p1 * 2 ^ 18) (omega arith))

    second : bit_or ((p0 * 128 + p1) * 2 ^ 18) (p2 * 2 ^ 11) ≡ ((p0 * 128 + p1) * 128 + p2) * 2 ^ 11
    second = omega (arith, bit_or_low 18 (p0 * 128 + p1) (p2 * 2 ^ 11) (omega arith))

    third :
        bit_or (((p0 * 128 + p1) * 128 + p2) * 2 ^ 11) (p3 * 2 ^ 4)
        ≡ (((p0 * 128 + p1) * 128 + p2) * 128 + p3) * 2 ^ 4
    third = omega (arith, bit_or_low 11 ((p0 * 128 + p1) * 128 + p2) (p3 * 2 ^ 4) (omega arith))

    last :
        bit_or ((((p0 * 128 + p1) * 128 + p2) * 128 + p3) * 2 ^ 4) (p4 % 16)
        ≡ (((p0 * 128 + p1) * 128 + p2) * 128 + p3) * 16 + p4
    last =
        omega
          (arith, bit_or_low 4 (((p0 * 128 + p1) * 128 + p2) * 128 + p3) (p4 % 16) (omega arith))

volume_bits_lem :
    (w : ℕ)
    → w < 2 ^ 32
    → volume_bits (w / 2 ^ 25) (w / 2 ^ 18 % 128) (w / 2 ^ 11 % 128) (w / 2 ^ 4 % 128) (w % 16) ≡ w
unfolding volume_bits
volume_bits_lem w h =
    volume_bits_sum (w / 2 ^ 25) (w / 2 ^ 18 % 128) (w / 2 ^ 11 % 128) (w / 2 ^ 4 % 128) (w % 16)
      (omega arith) (omega arith) (omega arith) (omega arith) (omega arith)
    ∙ omega arith

-- The word is read back from the answer with either function, and the levels are in the order of the
-- signed words.
pub rig_volume_lem :
    (device_id w : ℕ)
    → w < 2 ^ 32
    → (rig_volume (volume_message device_id 0x02 w) ≡ some w)
      × (rig_volume (volume_message device_id 0x12 w) ≡ some w)
      × (volume_position w ≡ (if ltb w (2 ^ 31) then w + 2 ^ 31 else w - 2 ^ 31))
unfolding rig_volume volume_position
rig_volume_lem device_id w h =
    (ap some (volume_bits_lem w h), ap some (volume_bits_lem w h), ground arith)
