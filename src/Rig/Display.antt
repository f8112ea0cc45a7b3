-- ===== src/Rig/Display.antt =====
-- `format_setting_value` of Tools/errig_read.c: the text of a setting's value. What printf makes of
-- a real number is not modelled: a display is the format with the curve and the position on it.
use r_compatible_driver_v.Base.{
  ℕ, ◌+◌, ◌^◌, List, [], ◌∷◌, Bytes, String, Option, none, some, ◌==◌, leb, ltb, length, get_or,
  u32, if◌then◌else◌, ◌&&◌, Bool, true, false, is_nonneg,
}
use r_compatible_driver_v.Rig.Keys.{key_is, key_in, one_of}
use r_compatible_driver_v.Rig.Names.{
  er_amp_names, er_mic_names, named_code, cabinet_name, rig_input_name, true_z_name, sync_name,
}
use r_compatible_driver_v.Rig.Scales.{is_ten_scale_setting, is_percent_setting, is_discrete_setting}

-- A real number as a function of `x`, from 0 to 1: `plus - minus + span * x`, and
-- `hundredths / 100 * base ^ x`. `ratio` is the pair of Dyn Delay, 50:100 to 100:50.
pub data Curve : Type 0 where
  linear : ℕ → ℕ → ℕ → Curve
  exponential : ℕ → ℕ → Curve
  ratio : Curve

-- The position is `normalized_value` without its division by UINT32_MAX. `micro_or_milli` is the
-- attack time, whose format depends on whether it is below one millisecond.
pub data Display : Type 0 where
  text : String → Display
  integer : ℕ → Display
  tempo : ℕ → Display
  level : String → Curve → ℕ → Display
  micro_or_milli : Curve → ℕ → Display

unfoldable pub normalized_position : ℕ → ℕ
normalized_position value = u32 (value + 2 ^ 31)

-- The chain of `else if`: the first test that holds decides, also if it gives no name.
unfoldable pub first_case : List (Bool × Option String) → Option String
first_case [] = none
first_case ((true, name) ∷ cases) = name
first_case ((false, name) ∷ cases) = first_case cases

abbrev upto : ℕ → ℕ → Bool
upto value last = is_nonneg value && leb value last

abbrev switch : ℕ → String → String → Option String
switch value set clear = some (if value == 0 then clear else set)

abbrev entry : List String → ℕ → Option String
entry names value = some (get_or names value "")

abbrev effect_types : ℕ → ℕ → Bytes → List (Bool × Option String)
effect_types effect_id value key =
    (
      one_of effect_id (80 ∷ 81 ∷ 82 ∷ []) && key_is key "Mode" && upto value 3,
      entry ("Mono" ∷ "Stereo" ∷ "Cross" ∷ "Pong" ∷ []) value,
    )
    ∷ (
      one_of effect_id (11 ∷ 39 ∷ 40 ∷ []) && key_is key "Mode" && upto value 1,
      switch value "Vibrato" "Chorus",
    )
    ∷ (
      one_of effect_id (27 ∷ 48 ∷ []) && key_is key "ChVb" && upto value 1,
      switch value "Vibrato" "Chorus",
    )
    ∷ (
      one_of effect_id (27 ∷ 28 ∷ 48 ∷ 49 ∷ [])
          && key_in key ("4X  " ∷ "Nois" ∷ "Hiss" ∷ [])
          && upto value 1,
      switch value "On" "Off",
    )
    ∷ (
      one_of effect_id (75 ∷ 76 ∷ 77 ∷ []) && key_is key "Sped" && upto value 2,
      entry ("Slow" ∷ "Brake" ∷ "Fast" ∷ []) value,
    )
    ∷ (
      one_of effect_id (75 ∷ 76 ∷ 77 ∷ []) && key_is key "Type" && upto value 8,
      entry ("120" ∷ "122" ∷ "21H" ∷ "Foam" ∷ "Drum" ∷ "Rover" ∷ "Memphis" ∷ "Wolf" ∷ "Watery" ∷ [])
          value,
    )
    ∷ (key_is key "bypa", switch value "Disabled (bypassed)" "Enabled")
    ∷ (one_of effect_id (38 ∷ 72 ∷ []) && key_is key "Tapr", switch value "Log" "Linear")
    ∷ (one_of effect_id (88 ∷ 89 ∷ 90 ∷ []) && key_is key "Wave", switch value "Sine" "Triangle")
    ∷ (
      one_of effect_id (78 ∷ 79 ∷ []) && key_in key ("B1Ty" ∷ "B4Ty" ∷ []) && upto value 5,
      if key_is key "B1Ty"
          then entry ("Shelf" ∷ "Peak" ∷ "HP6" ∷ "HP12" ∷ "HP24" ∷ "Notch" ∷ []) value
          else entry ("Shelf" ∷ "Peak" ∷ "LP6" ∷ "LP12" ∷ "LP24" ∷ "Notch" ∷ []) value,
    )
    ∷ (
      one_of effect_id (51 ∷ 52 ∷ 53 ∷ []) && key_is key "Type" && upto value 24,
      entry
          ("Echo Room" ∷ "Studio" ∷ "Small Room" ∷ "Jazz Club" ∷ "Small Club" ∷ "Garage"
            ∷ "Medium Room" ∷ "Tiled Room" ∷ "Wood Room" ∷ "Small Theater" ∷ "Medium Theater"
            ∷ "Large Theater" ∷ "Rich Hall" ∷ "Concert Hall" ∷ "Bright Hall" ∷ "Church"
            ∷ "Cathedral" ∷ "Arena" ∷ "Small Plate" ∷ "Medium Plate" ∷ "Large Plate" ∷ "Canyon"
            ∷ "Supa Long" ∷ "Early Reflect 1" ∷ "Early Reflect 2" ∷ [])
          value,
    )
    ∷ (effect_id == 12 && key_in key ("sld5" ∷ "sldJ" ∷ []), switch value "Bypassed" "Not bypassed")
    ∷ (effect_id == 12 && key_in key ("sldE" ∷ "TrOn" ∷ []), switch value "On" "Off")
    ∷ []

-- The first half: `name`, if it is not NULL.
unfoldable pub value_name : ℕ → Bytes → ℕ → Option String
value_name effect_id key value = first_case (
    (key_is key "WorB", rig_input_name value)
    ∷ (key_is key "PIGI", true_z_name value)
    ∷ (
      key_is key "ExpT" && upto value 4,
      entry ("None" ∷ "Multiple FX" ∷ "Rig Volume" ∷ "Volume" ∷ "Wah" ∷ []) value,
    )
    ∷ (key_is key "Sync", sync_name value)
    ∷ (effect_id == 12 && key_is key "sld6", named_code er_amp_names value)
    ∷ (effect_id == 12 && key_is key "sldK", cabinet_name value)
    ∷ (
      effect_id == 12 && key_is key "sldL" && is_nonneg value && ltb value (length er_mic_names),
      entry er_mic_names value,
    )
    ∷ (effect_id == 12 && key_is key "sldM", switch value "On Axis" "Off Axis")
    ∷ effect_types effect_id value key)

unfoldable pub first_display : List (Bool × Display) → Display → Display
first_display [] other = other
first_display ((test, display) ∷ tests) other = if test then display else first_display tests other

-- The second half, on the position `x`.
unfoldable pub scaled_value : ℕ → Bytes → ℕ → Display
scaled_value effect_id key x =
    first_display
      ((is_ten_scale_setting effect_id key, level "%.1f" (linear 0 0 10) x)
        ∷ (is_percent_setting effect_id key, level "%.1f%%" (linear 0 0 100) x)
        ∷ (graphic && key_in key ("LwSh" ∷ "HiSh" ∷ []), level "%+.1f dB" (linear 0 12 24) x)
        ∷ (
          graphic && key_in key ("LMGn" ∷ "MGn " ∷ "HMGn" ∷ []),
          level "%+.1f dB" (linear 0 18 36) x,
        )
        ∷ (graphic && key_is key "Out ", level "%+.1f dB" (linear 0 20 26) x)
        ∷ (compressor && key_is key "sldC", level "%.1f dB" (linear 0 60 60) x)
        ∷ (compressor && key_is key "sld1", micro_or_milli (exponential 1 30000) x)
        ∷ (compressor && key_is key "sld3", level "%.1f ms" (exponential 500 800) x)
        ∷ (compressor && key_is key "sld2", level "%.3g:1" (exponential 100 100) x)
        ∷ (compressor && key_is key "sldG", level "%.1f dB" (linear 0 0 30) x)
        ∷ (compressor && key_is key "sldD", level "%+.1f dB" (linear 0 0 40) x)
        ∷ (delay && key_is key "Dly ", level "%.0f ms" (linear 1 0 3999) x)
        ∷ (delay && key_is key "Rtio", level "%.0f:%.0f" ratio x)
        ∷ (delay && key_in key ("EnFb" ∷ "EnMx" ∷ []), level "%+.1f%%" (linear 0 100 200) x)
        ∷ (
          delay && key_in key ("Fdbk" ∷ "DMix" ∷ "Wdth" ∷ "EnRt" ∷ []),
          level "%.1f%%" (linear 0 0 100) x,
        )
        ∷ (chorus && key_is key "Rate", level "%.2f Hz" (exponential 1 1000) x)
        ∷ (chorus && key_in key ("Dpth" ∷ "PDly" ∷ []), level "%.2f ms" (linear 0 0 24) x)
        ∷ (chorus && key_in key ("Mix " ∷ "Wdth" ∷ []), level "%.1f%%" (linear 0 0 100) x)
        ∷ (chorus && key_is key "LoCt", level "%.0f Hz" (exponential 2000 50) x)
        ∷ [])
      (level "%.2f%% normalized" (linear 0 0 100) x)
  where
    graphic : Bool
    graphic = one_of effect_id (33 ∷ 50 ∷ [])

    compressor : Bool
    compressor = one_of effect_id (85 ∷ 86 ∷ [])

    delay : Bool
    delay = one_of effect_id (80 ∷ 81 ∷ 82 ∷ [])

    chorus : Bool
    chorus = one_of effect_id (88 ∷ 89 ∷ 90 ∷ [])

unfoldable pub named_display : Option String → Display → Display
named_display (some name) other = text name
named_display none other = other

unfoldable pub format_setting_value : ℕ → Bytes → ℕ → Display
format_setting_value effect_id key value =
    if key_is key "RVol"
    then level "%.1f dB" (linear 0 24 24) (normalized_position value)
    else if key_is key "Tmpo"
    then tempo value
    else (named_display (value_name effect_id key value) (
        if is_discrete_setting effect_id key
        then integer value
        else scaled_value effect_id key (normalized_position value)))
