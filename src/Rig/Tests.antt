-- ===== src/Rig/Tests.antt =====
-- Concrete runs of the theorems on the rigs: a contents section with one slot, and an amplifier in it.
use r_compatible_driver_v.Base.{◌≡◌, arith, [], ◌∷◌, ◌++◌, All, replicate, true}
use r_compatible_driver_v.Rig.Keys.{quad}
use r_compatible_driver_v.Rig.Scales.{parameter_range, parameter_curve}
use r_compatible_driver_v.Rig.Display.{format_setting_value, integer}
use r_compatible_driver_v.Rig.Ranges.{
  range_holds, named_keys, every, range_holds_everywhere, speed_shown_raw,
}
use r_compatible_driver_v.Rig.Csv.{StartsNoQuote, csv_text, read_text, read_text-csv_text}
use r_compatible_driver_v.Rig.Export.Decodes.{StoredRig}

abbrev one_amp : StoredRig
one_amp = record {
  header = replicate 8 0;
  name = b'A' ∷ b'B' ∷ b'C' ∷ b'D' ∷ b'E' ∷ [];
  contents = record {
    id = b'A';
    version = 1;
    content =
        record { key = b'W' ∷ b'o' ∷ b'r' ∷ b'C' ∷ []; value = 12 }
        ∷ record { key = b'W' ∷ b's' ∷ b't' ∷ b'C' ∷ []; value = 0 }
        ∷ [];
  };
  sections =
      record {
        id = b'C';
        version = 1;
        content = record { key = b's' ∷ b'l' ∷ b'd' ∷ b'7' ∷ []; value = 0x7fffffff } ∷ [];
      }
      ∷ [];
}

range_holds_everywhere_example : every (range_holds 77) named_keys ≡ true
range_holds_everywhere_example = range_holds_everywhere 77

speed_shown_raw_example :
    All
      (λ effect_id.
        (format_setting_value effect_id (quad "Sped") 77 ≡ integer 77)
        × (parameter_range effect_id (quad "Sped") ≡ "0.0..10.0")
        × (parameter_curve effect_id (quad "Sped") ≡ "enum"))
      (34 ∷ 35 ∷ 69 ∷ 70 ∷ 71 ∷ [])
speed_shown_raw_example = speed_shown_raw 77

read_text-csv_text_example :
    read_text (csv_text (b'a' ∷ b'"' ∷ b',' ∷ []) ++ b',' ∷ [])
    ≡ (b'a' ∷ b'"' ∷ b',' ∷ [], b',' ∷ [])
read_text-csv_text_example = read_text-csv_text (b'a' ∷ b'"' ∷ b',' ∷ []) (b',' ∷ []) comma
  where
    comma : StartsNoQuote (b',' ∷ [])
    comma = omega arith
