-- ===== src/Rig/Export.antt =====
-- A patch answer as rows: `export_rig` and `write_row` of Tools/er_inventory_export.c, with the name and the
-- tests that `print_rig_summary` of Tools/errig_read.c shares.
pub mod Titles
pub mod Decodes
use r_compatible_driver_v.Base.{
  ℕ, zero, suc, ◌+◌, ◌-◌, Bytes, List, [], ◌∷◌, ◌++◌, map, length, get_or, take, drop, set,
  replicate, ltb, leb, ◌==◌, if◌then◌else◌, String, Bool, not, ◌&&◌, ◌||◌, Option, none, some,
}
use r_compatible_driver_v.Payload.{unpack_7bit, raw_capacity}
use r_compatible_driver_v.Rig.{
  RigSetting, RigSection, parse_rig_section, find_rig_setting, settings, sections_from,
}
use r_compatible_driver_v.Rig.Keys.{quad, key_starts}
use r_compatible_driver_v.Rig.Names.{or_else, effect_name, category_name}
use r_compatible_driver_v.Rig.Parameters.{global_parameter_name, parameter_name}
use r_compatible_driver_v.Rig.Scales.{parameter_unit, parameter_range, parameter_curve}
use r_compatible_driver_v.Rig.Display.{Display, format_setting_value}

abbrev at : Bytes → ℕ → ℕ
at bytes i = get_or bytes i 0

-- The test at the start, and the payload behind it.
unfoldable pub is_patch : Bytes → Bool
is_patch s =
    leb 8 (length s)
    && at s 0 == 0xf0
    && at s 1 == 0x13
    && at s 2 == 0x0b
    && at s 4 == 0x12
    && at s 5 == 0x01
    && at s (length s - 1) == 0xf7

unfoldable pub raw_payload : Bytes → Bytes
raw_payload s =
    let packed = take (length s - 7) (drop 6 s) in unpack_7bit packed (raw_capacity packed)

-- The characters of a word, then those of the next words; the first that does not print ends the name.
unfoldable pub printable : Bytes → Bytes → Bytes
printable [] rest = rest
printable (b ∷ bs) rest = if b == 0 || ltb b 0x20 || ltb 0x7e b then [] else b ∷ printable bs rest

unfoldable pub name_from : ℕ → ℕ → Bytes → Bytes
name_from zero offset raw = []
name_from (suc words) offset raw =
    printable
      (at raw (offset + 3) ∷ at raw (offset + 2) ∷ at raw (offset + 1) ∷ at raw (offset + 0) ∷ [])
      (name_from words (offset + 4) raw)

unfoldable pub extract_name : Bytes → Bytes
extract_name raw = if ltb (length raw) 36 then [] else name_from 7 8 raw

-- `effect_ids` and `categories`: ten words, set by the keys `WorC` to `WorL` and `WstC` to `WstL`.
abbrev pub slot_value : String → RigSetting → List ℕ → List ℕ
slot_value prefix setting values =
    let letter = at setting.key 3 in
    if key_starts setting.key prefix && leb b'C' letter && leb letter b'L'
    then set values (letter - b'C') setting.value
    else values

abbrev pub slot_values : String → List RigSetting → List ℕ → List ℕ
slot_values prefix [] values = values
slot_values prefix (s ∷ ss) values = slot_values prefix ss (slot_value prefix s values)

-- One line of the table. `parameter` is `none` where the key names itself, and the other three are
-- `none` where their `have_` flag is 0.
pub record Row : Type 0 where
  pub slot : Option ℕ
  pub category : ℕ
  pub category_text : String
  pub effect_id : Option ℕ
  pub effect : String
  pub enabled : Option Bool
  pub setting : RigSetting
  pub parameter : Option String
  pub display : Display
  pub unit : String
  pub range : String
  pub curve : String

-- A row of the table of contents; the display is asked for effect -1, the other texts for effect 0.
abbrev pub global_row : RigSetting → Row
global_row s = record {
  slot = none;
  category = 16;
  category_text = category_name 16;
  effect_id = none;
  effect = "";
  enabled = none;
  setting = s;
  parameter = global_parameter_name s.key;
  display = format_setting_value 0xffffffff s.key s.value;
  unit = parameter_unit 0 s.key;
  range = parameter_range 0 s.key;
  curve = parameter_curve 0 s.key;
}

abbrev pub slot_row : ℕ → ℕ → ℕ → ℕ → Option Bool → RigSetting → Row
slot_row id category effect amp_code enabled s = record {
  slot = some id;
  category = category;
  category_text = category_name category;
  effect_id = some effect;
  effect = effect_name effect;
  enabled = enabled;
  setting = s;
  parameter = parameter_name effect amp_code s.key;
  display = format_setting_value effect s.key s.value;
  unit = parameter_unit effect s.key;
  range = parameter_range effect s.key;
  curve = parameter_curve effect s.key;
}

-- `!bypass` and `have_enabled`
abbrev pub enabled_flag : ℕ → Option ℕ → Option ℕ → Option Bool
enabled_flag effect (some bypass) sld5 = some (bypass == 0)
enabled_flag effect none (some bypass) = if effect == 12 then some (bypass == 0) else none
enabled_flag effect none none = none

-- The rows of a section; one whose id is not that of a slot gives none.
unfoldable pub section_rows : List ℕ → List ℕ → RigSection → List Row
section_rows effect_ids categories section =
    let slot = section.id - b'C' in
    let effect = get_or effect_ids slot 0 in
    if ltb section.id b'C' || ltb b'L' section.id
    then []
    else (map
        (slot_row section.id (get_or categories slot 0) effect
          (or_else (find_rig_setting section (quad "sld6")) 0)
          (enabled_flag effect (find_rig_setting section (quad "bypa"))
            (find_rig_setting section (quad "sld5"))))
        (settings section))

abbrev pub all_rows : List ℕ → List ℕ → List RigSection → List Row
all_rows effect_ids categories [] = []
all_rows effect_ids categories (s ∷ ss) =
    section_rows effect_ids categories s ++ all_rows effect_ids categories ss

abbrev pub zeros : List ℕ
zeros = replicate 10 0

-- The rows behind the table of contents.
unfoldable pub rows_of : Bytes → RigSection → List Row
rows_of raw toc =
    map global_row (settings toc)
    ++ all_rows (slot_values "Wor" (settings toc) zeros) (slot_values "Wst" (settings toc) zeros)
        (sections_from (length raw) raw toc.end_offset)

unfoldable pub rows_behind : Bytes → Option RigSection → Option (Bytes × List Row)
rows_behind raw none = none
rows_behind raw (some toc) =
    if not (toc.id == b'A') then none else some (extract_name raw, rows_of raw toc)

-- The rig's name and its rows; `none` where the code returns 0.
unfoldable pub export_rig : Bytes → Option (Bytes × List Row)
export_rig s =
    let raw = raw_payload s in
    if is_patch s then rows_behind raw (parse_rig_section raw 36) else none
