-- ===== src/Rig/Names.antt =====
-- The named values of Tools/errig_read.c: amplifiers, cabinets, microphones, effects, categories, inputs
-- and note lengths.
use r_compatible_driver_v.Base.{
  ℕ, List, [], ◌∷◌, String, Option, none, some, ◌==◌, ltb, length, get_elem?, if◌then◌else◌, ◌||◌,
  ◌&&◌, is_nonneg,
}
use r_compatible_driver_v.Rig.Keys.{one_of}

-- The codes are the bits of an int32_t.
unfoldable pub er_amp_names : List (ℕ × String)
er_amp_names =
    (0, "59 Tweed Lux")
    ∷ (1, "59 Tweed Bass")
    ∷ (2, "64 Black Panel Lux Vib")
    ∷ (3, "64 Black Panel Lux Norm")
    ∷ (4, "66 AC Hi Boost")
    ∷ (5, "67 Black Duo")
    ∷ (6, "69 Plexiglas 100W")
    ∷ (7, "82 Lead 800 100W")
    ∷ (8, "85 M-2 Lead")
    ∷ (9, "89 SL-100 Drive")
    ∷ (10, "89 SL-100 Crunch")
    ∷ (11, "89 SL-100 Clean")
    ∷ (12, "92 Treadplate Modern")
    ∷ (13, "92 Treadplate Vintage")
    ∷ (14, "DC Modern Overdrive")
    ∷ (15, "DC Vintage Crunch")
    ∷ (2147483648, "59 Tweed Lux")
    ∷ (2433814801, "59 Tweed Bass")
    ∷ (2720145954, "64 Black Panel Lux Vib")
    ∷ (3006477107, "64 Black Panel Lux Norm")
    ∷ (3292808260, "66 AC Hi Boost")
    ∷ (3579139413, "67 Black Duo")
    ∷ (3865470566, "69 Plexiglas 100W")
    ∷ (4151801719, "82 Lead 800 100W")
    ∷ (143165576, "85 M-2 Lead")
    ∷ (429496729, "89 SL-100 Drive")
    ∷ (715827882, "89 SL-100 Crunch")
    ∷ (1002159035, "89 SL-100 Clean")
    ∷ (1095980628, "69 Blue Line Bass")
    ∷ (1112957526, "64 Black Vib")
    ∷ (1112764530, "65 Black SR")
    ∷ (1129136945, "DC Modern Clean")
    ∷ (1129726769, "DC Vintage Clean")
    ∷ (1128428337, "DC Bass")
    ∷ (1128940365, "DC Modern 800")
    ∷ (1145261362, "DC Modern SOD")
    ∷ (1145263666, "DC Vintage OD")
    ∷ (1247032373, "65 J45")
    ∷ (1288490188, "92 Treadplate Modern")
    ∷ (1296315184, "93 MS 30")
    ∷ (1345663095, "68 Plexiglas 50W")
    ∷ (1349277298, "67 Plexiglas Vari")
    ∷ (1447258221, "65 Black Mini")
    ∷ (1481917250, "97 RB-01b Blue")
    ∷ (1481917255, "97 RB-01b Green")
    ∷ (1481917266, "97 RB-01b Red")
    ∷ (1574821341, "92 Treadplate Vintage")
    ∷ (1861152494, "DC Modern Overdrive")
    ∷ (2147483647, "DC Vintage Crunch")
    ∷ []

unfoldable pub er_cab_names : List String
er_cab_names =
    "1x12 Blackpanel Lux" ∷ "1x12 Tweed Lux" ∷ "2x12 AC Blue" ∷ "2x12 Blackpanel Duo"
    ∷ "4x10 Tweed Bass" ∷ "4x12 Classic 30" ∷ "4x12 Green 25W" ∷ "(reserved cabinet 7)"
    ∷ "1x8 Custom" ∷ "1x15 Open Back" ∷ "2x12 B30" ∷ "2x12 Silver Cone" ∷ "4x10 Black SR"
    ∷ "4x12 65W" ∷ "4x12 Green 20W" ∷ "8x10 Blue Line" ∷ []

unfoldable pub er_mic_names : List String
er_mic_names =
    "Dyn 7" ∷ "Dyn 57" ∷ "Dyn 409" ∷ "Dyn 421" ∷ "Cond 67" ∷ "Cond 87" ∷ "Cond 414" ∷ "Ribbon 121"
    ∷ []

unfoldable pub named_code : List (ℕ × String) → ℕ → Option String
named_code [] value = none
named_code ((code, name) ∷ codes) value =
    if code == value then some name else named_code codes value

-- An entry of a table for a value that is not negative and below its size.
unfoldable pub name_at : List String → ℕ → Option String
name_at names value =
    if is_nonneg value && ltb value (length names) then get_elem? names value else none

unfoldable pub cabinet_name : ℕ → Option String
cabinet_name value =
    if is_nonneg value && ltb value (length er_cab_names)
    then get_elem? er_cab_names value
    else named_code
        ((0x4A53584D, "2x12 Silver Cone")
          ∷ (0x4A617A7A, "1x15 Open Back")
          ∷ (0x32783330, "2x12 B30")
          ∷ (0x34435453, "4x10 Black SR")
          ∷ (0x34783230, "4x12 Green 20W")
          ∷ (0x34783635, "4x12 65W")
          ∷ (0x38535654, "8x10 Blue Line")
          ∷ [])
        value

unfoldable pub effect_names : List (List ℕ × String)
effect_names =
    (12 ∷ [], "Amp/Cab")
    ∷ (38 ∷ 72 ∷ [], "Volume Pedal")
    ∷ (29 ∷ [], "Tri-Knob Fuzz")
    ∷ (30 ∷ [], "Black Op Distortion")
    ∷ (31 ∷ [], "Green JRC Overdrive")
    ∷ (87 ∷ [], "White Boost")
    ∷ (91 ∷ [], "DC Distortion")
    ∷ (36 ∷ [], "Shine Wah")
    ∷ (55 ∷ [], "Black Wah")
    ∷ (16 ∷ 17 ∷ 56 ∷ 57 ∷ 73 ∷ 14 ∷ 15 ∷ [], "FX Loop")
    ∷ (32 ∷ [], "Gray Compressor")
    ∷ (85 ∷ 86 ∷ [], "Dyn3 Compressor")
    ∷ (33 ∷ 50 ∷ [], "Graphic EQ")
    ∷ (78 ∷ 79 ∷ [], "Parametric EQ")
    ∷ (34 ∷ 71 ∷ [], "Orange Phaser")
    ∷ (35 ∷ 46 ∷ [], "Vibe Phaser")
    ∷ (37 ∷ 47 ∷ [], "Blackpanel Spring Reverb")
    ∷ (51 ∷ 52 ∷ 53 ∷ [], "Eleven SR")
    ∷ (27 ∷ 48 ∷ [], "BBD Delay")
    ∷ (28 ∷ 49 ∷ [], "Tape Echo")
    ∷ (80 ∷ 81 ∷ 82 ∷ [], "Dyn Delay")
    ∷ (11 ∷ 39 ∷ 40 ∷ [], "Chorus/Vibrato")
    ∷ (88 ∷ 89 ∷ 90 ∷ [], "Multi Chorus")
    ∷ (69 ∷ 70 ∷ [], "Flanger")
    ∷ (75 ∷ 76 ∷ 77 ∷ [], "Roto Speaker")
    ∷ []

unfoldable pub first_with : List (List ℕ × String) → ℕ → Option String
first_with [] id = none
first_with ((ids, name) ∷ groups) id = if one_of id ids then some name else first_with groups id

unfoldable pub or_else {ℓ} : {A : Type ℓ} → Option A → A → A
or_else none a = a
or_else (some b) a = b

unfoldable pub effect_name : ℕ → String
effect_name effect_id = or_else (first_with effect_names effect_id) "Unknown effect"

unfoldable pub category_name : ℕ → String
category_name category =
    or_else
      (name_at
        ("Amp/Cab" ∷ "FX Loop" ∷ "Volume" ∷ "Wah" ∷ "Modulation" ∷ "Reverb" ∷ "Delay" ∷ "Distortion"
          ∷ "FX1" ∷ "FX2" ∷ "Input" ∷ "Type 0B" ∷ "Type 0C" ∷ "Type 0D" ∷ "Type 0E" ∷ "Type 0F"
          ∷ "Globals" ∷ [])
        category)
      "Unknown category"

unfoldable pub rig_input_name : ℕ → Option String
rig_input_name value =
    named_code
      ((60, "Guitar")
        ∷ (61, "Mic")
        ∷ (20, "Line L")
        ∷ (21, "Line R")
        ∷ (63, "Line L + R")
        ∷ (22, "Digital L")
        ∷ (23, "Digital R")
        ∷ (64, "Digital L + R")
        ∷ (18, "Re-Amp")
        ∷ [])
      value

unfoldable pub true_z_name : ℕ → Option String
true_z_name value =
    let names : List String =
      "1 MOhm" ∷ "1 MOhm + Cap" ∷ "230 kOhm" ∷ "230 kOhm + Cap" ∷ "90 kOhm" ∷ "90 kOhm + Cap"
      ∷ "70 kOhm" ∷ "70 kOhm + Cap" ∷ "32 kOhm" ∷ "32 kOhm + Cap" ∷ "22 kOhm" ∷ "22 kOhm + Cap"
      ∷ [] in
    if is_nonneg value && ltb value (length names)
    then get_elem? names value
    else if value == 125 || value == 126
    then some "Auto"
    else none

unfoldable pub sync_name : ℕ → Option String
sync_name value =
    name_at
      ("Off" ∷ "Whole Note" ∷ "Dotted Half" ∷ "Half Note" ∷ "Half Triplet" ∷ "Dotted Quarter"
        ∷ "Quarter Note" ∷ "Quarter Triplet" ∷ "Dotted 8th" ∷ "8th Note" ∷ "8th Triplet"
        ∷ "Dotted 16th" ∷ "16th Note" ∷ "16th Triplet" ∷ [])
      value
