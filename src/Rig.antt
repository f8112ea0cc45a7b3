-- ===== src/Rig.antt =====
-- The decoded rig of Tools/errig_read.c: sections of settings behind a header and a name
-- (`read_le32` to `find_rig_setting`, the loops of `print_rig_summary`).
pub mod Sections
pub mod Keys
pub mod Names
pub mod Parameters
pub mod Scales
pub mod Display
pub mod Export
pub mod Summary
pub mod Ranges
pub mod Codes
pub mod Csv
pub mod Tests
use r_compatible_driver_v.Base.{
  ℕ, zero, suc, ◌+◌, ◌*◌, ◌/◌, ◌%◌, ◌^◌, Bytes, List, [], ◌∷◌, length, get_or, drop, ltb, leb, ◌==◌,
  if◌then◌else◌, u32, bit_or, Bool, true, false, not, ◌&&◌, ◌||◌, Option, none, some,
}

-- An int32_t by its bits.
unfoldable pub read_le32 : Bytes → ℕ
read_le32 b =
    bit_or (bit_or (bit_or (get_or b 0 0) (get_or b 1 0 * 2 ^ 8)) (get_or b 2 0 * 2 ^ 16))
      (u32 (get_or b 3 0 * 2 ^ 24))

-- The four characters of a key: the bytes in reverse.
unfoldable pub read_quad_key : Bytes → Bytes
read_quad_key b = get_or b 3 0 ∷ get_or b 2 0 ∷ get_or b 1 0 ∷ get_or b 0 0 ∷ []

pub record RigSetting : Type 0 where
  pub key : Bytes
  pub value : ℕ

-- `pairs` is the raw payload from the section's first pair on.
pub record RigSection : Type 0 where
  pub id : ℕ
  pub count : ℕ
  pub pairs : Bytes
  pub end_offset : ℕ

unfoldable pub byte_size : Bytes → ℕ → ℕ
byte_size raw offset = bit_or (get_or raw offset 0) (get_or raw (offset + 1) 0 * 2 ^ 8)

unfoldable pub parse_rig_section : Bytes → ℕ → Option RigSection
parse_rig_section raw offset =
    if ltb (length raw) (offset + 4)
    then none
    else if not (byte_size raw offset % 8 == 0)
        || ltb (length raw) (offset + 4 + byte_size raw offset)
    then none
    else some record {
      id = get_or raw (offset + 3) 0;
      count = byte_size raw offset / 8;
      pairs = drop (offset + 4) raw;
      end_offset = offset + 4 + byte_size raw offset;
    }

unfoldable pub rig_setting_at : RigSection → ℕ → RigSetting
rig_setting_at section index =
    let pair = drop (index * 8) section.pairs in
    record { key = read_quad_key pair; value = read_le32 (drop 4 pair) }

-- `memcmp(setting.key, key, 4) == 0`
unfoldable pub same_key : Bytes → Bytes → Bool
same_key [] [] = true
same_key (a ∷ k) (b ∷ l) = a == b && same_key k l
same_key _ _ = false

-- The loop over the settings from `index` on, with `left` to go.
unfoldable pub find_from : ℕ → ℕ → RigSection → Bytes → Option ℕ
find_from zero index section key = none
find_from (suc left) index section key =
    let setting = rig_setting_at section index in
    let rest = find_from left (index + 1) section key in
    if same_key setting.key key then some setting.value else rest

unfoldable pub find_rig_setting : RigSection → Bytes → Option ℕ
find_rig_setting section key = find_from section.count 0 section key

-- The settings of a section, as the loops of `print_rig_summary` read them.
unfoldable pub settings_from : ℕ → ℕ → RigSection → List RigSetting
settings_from zero index section = []
settings_from (suc left) index section =
    rig_setting_at section index ∷ settings_from left (index + 1) section

unfoldable pub settings : RigSection → List RigSetting
settings section = settings_from section.count 0 section

-- The loop over the sections: `while (offset + 12 <= raw_length)`, until one does not parse. Each
-- takes four bytes at least, so fuel for the payload's length is enough.
unfoldable pub sections_from : ℕ → Bytes → ℕ → List RigSection
sections_from zero raw offset = []
sections_from (suc fuel) raw offset =
    let parsed = parse_rig_section raw offset in
    let rest : List RigSection = elim parsed [
      | none ↦ []
      | some section ↦ section ∷ sections_from fuel raw section.end_offset
    ] in
    if leb (offset + 12) (length raw) then rest else []
