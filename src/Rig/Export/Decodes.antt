-- ===== src/Rig/Export/Decodes.antt =====
-- From the rig that the device stores to the rows: packing, sections and settings all undone.
use r_compatible_driver_v.Base.{
  ℕ, suc, ◌-◌, ◌≤◌, ◌≡◌, refl, ap, ◌∙◌, arith, Bytes, List, [], ◌∷◌, ◌++◌, map, length,
  length-append, get_or, take, ltb, if◌then◌else◌, ◌||◌, Option, none, some, All, AreBytes,
}
use r_compatible_driver_v.Payload.{unpack_7bit, pack_7bit, raw_capacity}
use r_compatible_driver_v.Payload.RoundTrip.{unpack_7bit-pack_7bit}
use r_compatible_driver_v.Payload.Length.{length-unpack_7bit}
use r_compatible_driver_v.Rig.{RigSetting, same_key}
use r_compatible_driver_v.Rig.Keys.{quad}
use r_compatible_driver_v.Rig.Names.{or_else}
use r_compatible_driver_v.Rig.Sections.{
  Stored, IsStored, write_section, write_sections, stored_view,
}
use r_compatible_driver_v.Rig.Export.Titles.{stored_words, IsName}
use r_compatible_driver_v.Rig.Export.{
  raw_payload, Row, global_row, slot_row, slot_values, enabled_flag, zeros,
}

-- A rig as the device has it: a header of eight bytes, the name of 28 characters at most, the table of
-- contents and the sections.
pub record StoredRig : Type 0 where
  pub header : Bytes
  pub name : Bytes
  pub contents : Stored
  pub sections : List Stored

abbrev pub written : StoredRig → Bytes
written r =
    (r.header ++ stored_words 7 r.name)
    ++ (write_section r.contents ++ (write_sections r.sections ++ []))

abbrev pub patch_message : ℕ → StoredRig → Bytes
patch_message device_id r =
    0xf0 ∷ 0x13 ∷ 0x0b ∷ device_id ∷ 0x12 ∷ 0x01 ∷ (pack_7bit (written r) ++ 0xf7 ∷ [])

abbrev pub IsRig : StoredRig → Type 0
IsRig r =
    (length r.header ≡ 8)
    × IsName r.name
    × (r.contents.id ≡ b'A')
    × IsStored r.contents
    × All IsStored r.sections
    × AreBytes (written r)

-- The rows that the stored rig asks for.
abbrev pub first_value : Bytes → List RigSetting → Option ℕ
first_value key [] = none
first_value key (s ∷ ss) = if same_key s.key key then some s.value else first_value key ss

abbrev pub stored_rows : List ℕ → List ℕ → ℕ → List RigSetting → List Row
stored_rows effect_ids categories id content =
    if ltb id b'C' || ltb b'L' id
    then []
    else (map
        (slot_row id (get_or categories (id - b'C') 0) (get_or effect_ids (id - b'C') 0)
          (or_else (first_value (quad "sld6") content) 0)
          (enabled_flag (get_or effect_ids (id - b'C') 0) (first_value (quad "bypa") content)
            (first_value (quad "sld5") content)))
        content)

abbrev pub all_stored_rows : List ℕ → List ℕ → List (ℕ × List RigSetting) → List Row
all_stored_rows effect_ids categories [] = []
all_stored_rows effect_ids categories ((id, content) ∷ ss) =
    stored_rows effect_ids categories id content ++ all_stored_rows effect_ids categories ss

abbrev pub rig_rows : StoredRig → List Row
rig_rows r =
    map global_row r.contents.content
    ++ all_stored_rows (slot_values "Wor" r.contents.content zeros)
        (slot_values "Wst" r.contents.content zeros) (map stored_view r.sections)

take_front : (xs ys : Bytes) → take (length xs) (xs ++ ys) ≡ xs
take_front [] ys = refl
take_front (x ∷ xs) ys = ap (◌∷◌ x) (take_front xs ys)

pub raw_payload-message :
    (device_id : ℕ) (raw : Bytes)
    → AreBytes raw
    → raw_payload (0xf0 ∷ 0x13 ∷ 0x0b ∷ device_id ∷ 0x12 ∷ 0x01 ∷ (pack_7bit raw ++ 0xf7 ∷ []))
      ≡ raw
unfolding raw_payload
raw_payload-message device_id raw h =
    ap (λ p. unpack_7bit p (raw_capacity p)) payload
    ∙ unpack_7bit-pack_7bit raw (raw_capacity packed) h room
  where
    packed : Bytes
    packed = pack_7bit raw

    index : suc (suc (suc (suc (suc (suc (length (packed ++ 0xf7 ∷ []))))))) - 7 ≡ length packed
    index = omega (arith, length-append packed (0xf7 ∷ []))

    payload :
        take
          (suc (suc (suc (suc (suc (suc (length (packed ++ 0xf7 ∷ []))))))) - 7)
          (packed ++ 0xf7 ∷ [])
        ≡ packed
    payload = ap (λ n. take n (packed ++ 0xf7 ∷ [])) index ∙ take_front packed (0xf7 ∷ [])

    whole : length (unpack_7bit packed (length raw)) ≡ length raw
    whole = ap length (unpack_7bit-pack_7bit raw (length raw) h (omega arith))

    room : length raw ≤ raw_capacity packed
    room = omega (arith, whole, length-unpack_7bit packed (length raw))
