-- ===== src/Rig/Scales.antt =====
-- How a setting is measured: the tests and the texts on unit, range and curve of Tools/errig_read.c
-- (`is_ten_scale_setting` to `is_discrete_setting`).
use r_compatible_driver_v.Base.{
  ℕ, [], ◌∷◌, Bytes, String, some, ◌==◌, if◌then◌else◌, ◌||◌, ◌&&◌, not, Bool, true, false,
}
use r_compatible_driver_v.Rig.Keys.{key_in, one_of, first_of}
use r_compatible_driver_v.Rig.Names.{or_else}

unfoldable pub is_ten_scale_setting : ℕ → Bytes → Bool
is_ten_scale_setting effect_id key =
    if one_of effect_id (12 ∷ [])
    then key_in key (
        "sld7" ∷ "sld8" ∷ "sld9" ∷ "sldA" ∷ "sldB" ∷ "sldC" ∷ "sldD" ∷ "sldF" ∷ "sldG" ∷ "sldN"
        ∷ "sldO" ∷ [])
    else if one_of effect_id (29 ∷ 30 ∷ 31 ∷ 32 ∷ 34 ∷ 35 ∷ 69 ∷ 70 ∷ 71 ∷ 87 ∷ 91 ∷ [])
    then not (key_in key ("bypa" ∷ "Sync" ∷ "Chor" ∷ []))
    else if one_of effect_id (11 ∷ 39 ∷ 40 ∷ [])
    then key_in key ("ChIn" ∷ "VbRt" ∷ "VbDp" ∷ [])
    else if one_of effect_id (27 ∷ 48 ∷ [])
    then key_in key ("InLv" ∷ "Dpth" ∷ [])
    else if one_of effect_id (28 ∷ 49 ∷ [])
    then key_in key ("Rec " ∷ "Tilt" ∷ "Wow " ∷ [])
    else if one_of effect_id (37 ∷ 47 ∷ [])
    then key_in key ("Dcay" ∷ "Tone" ∷ [])
    else if one_of effect_id (51 ∷ 52 ∷ 53 ∷ [])
    then key_in key ("Dcay" ∷ "Tone" ∷ [])
    else false

unfoldable pub is_percent_setting : ℕ → Bytes → Bool
is_percent_setting effect_id key =
    (one_of effect_id (14 ∷ 15 ∷ 16 ∷ 17 ∷ 56 ∷ 57 ∷ 73 ∷ []) && key_in key ("wetp" ∷ []))
    || (one_of effect_id (27 ∷ 48 ∷ []) && key_in key ("Blnd" ∷ "Fdbk" ∷ []))
    || (one_of effect_id (28 ∷ 49 ∷ []) && key_in key ("Vol " ∷ "Sust" ∷ []))
    || (one_of effect_id (37 ∷ 47 ∷ 51 ∷ 52 ∷ 53 ∷ []) && key_in key ("RMix" ∷ []))
    || (one_of effect_id (38 ∷ 72 ∷ []) && key_in key ("Vol " ∷ "Min " ∷ []))
    || (one_of effect_id (36 ∷ 55 ∷ []) && key_in key ("Filt" ∷ []))
    || (one_of effect_id (75 ∷ 76 ∷ 77 ∷ []) && key_in key ("Blnc" ∷ []))

unfoldable pub is_discrete_setting : ℕ → Bytes → Bool
is_discrete_setting effect_id key =
    key_in key (
      "bypa" ∷ "RMno" ∷ "PIGI" ∷ "ExpT" ∷ "FXc1" ∷ "FXc2" ∷ "FXc3" ∷ "FXc4" ∷ "GlSF" ∷ "Msyc"
      ∷ "WorB" ∷ "WorC" ∷ "WorD" ∷ "WorE" ∷ "WorF" ∷ "WorG" ∷ "WorH" ∷ "WorI" ∷ "WorJ" ∷ "WorK"
      ∷ "WorL" ∷ "WstB" ∷ "WstC" ∷ "WstD" ∷ "WstE" ∷ "WstF" ∷ "WstG" ∷ "WstH" ∷ "WstI" ∷ "WstJ"
      ∷ "WstK" ∷ "WstL" ∷ "WoLS" ∷ "Tapr" ∷ "4X  " ∷ "ChVb" ∷ "Chor" ∷ "VxCr" ∷ "Nois" ∷ "Hiss"
      ∷ "Sped" ∷ "Sync" ∷ "Mode" ∷ "Type" ∷ "Voic" ∷ "Wave" ∷ "B1Ty" ∷ "B4Ty" ∷ [])
    || (effect_id == 12
        && key_in key
            ("sld1" ∷ "sld5" ∷ "sld6" ∷ "sldE" ∷ "TrOn" ∷ "sldJ" ∷ "sldK" ∷ "sldL" ∷ "sldM" ∷ []))

unfoldable pub parameter_unit : ℕ → Bytes → String
parameter_unit effect_id key =
    or_else
      (first_of (
        (key_in key ("RVol" ∷ []), some "dB")
        ∷ (key_in key ("Tmpo" ∷ []), some "BPM")
        ∷ (is_ten_scale_setting effect_id key, some "0-10")
        ∷ (is_percent_setting effect_id key, some "%")
        ∷ (one_of effect_id (33 ∷ 50 ∷ []) && not (key_in key ("bypa" ∷ [])), some "dB")
        ∷ (one_of effect_id (85 ∷ 86 ∷ []) && key_in key ("sldC" ∷ "sldG" ∷ "sldD" ∷ []), some "dB")
        ∷ (one_of effect_id (85 ∷ 86 ∷ []) && key_in key ("sld1" ∷ "sld3" ∷ []), some "ms")
        ∷ (one_of effect_id (85 ∷ 86 ∷ []) && key_in key ("sld2" ∷ []), some "ratio")
        ∷ (one_of effect_id (80 ∷ 81 ∷ 82 ∷ []) && key_in key ("Dly " ∷ []), some "ms")
        ∷ (one_of effect_id (80 ∷ 81 ∷ 82 ∷ []) && key_in key ("HiCt" ∷ "LoCt" ∷ []), some "Hz")
        ∷ (one_of effect_id (80 ∷ 81 ∷ 82 ∷ []) && key_in key ("Rtio" ∷ []), some "L:R")
        ∷ (
          one_of effect_id (80 ∷ 81 ∷ 82 ∷ [])
              && key_in key ("Fdbk" ∷ "DMix" ∷ "Wdth" ∷ "EnRt" ∷ "EnFb" ∷ "EnMx" ∷ []),
          some "%",
        )
        ∷ (one_of effect_id (88 ∷ 89 ∷ 90 ∷ []) && key_in key ("Rate" ∷ []), some "Hz")
        ∷ (one_of effect_id (88 ∷ 89 ∷ 90 ∷ []) && key_in key ("Dpth" ∷ "PDly" ∷ []), some "ms")
        ∷ (one_of effect_id (88 ∷ 89 ∷ 90 ∷ []) && key_in key ("Mix " ∷ "Wdth" ∷ []), some "%")
        ∷ (one_of effect_id (88 ∷ 89 ∷ 90 ∷ []) && key_in key ("LoCt" ∷ []), some "Hz")
        ∷ (one_of effect_id (51 ∷ 52 ∷ 53 ∷ []) && key_in key ("PDly" ∷ []), some "ms")
        ∷ []))
      ""

unfoldable pub parameter_range : ℕ → Bytes → String
parameter_range effect_id key =
    or_else
      (first_of (
        (key_in key ("RVol" ∷ []), some "-24.0..0.0")
        ∷ (key_in key ("Tmpo" ∷ []), some "hardware tempo range")
        ∷ (is_ten_scale_setting effect_id key, some "0.0..10.0")
        ∷ (is_percent_setting effect_id key, some "0..100")
        ∷ (one_of effect_id (33 ∷ 50 ∷ []) && key_in key ("LwSh" ∷ "HiSh" ∷ []), some "-12.0..12.0")
        ∷ (
          one_of effect_id (33 ∷ 50 ∷ []) && key_in key ("LMGn" ∷ "MGn " ∷ "HMGn" ∷ []),
          some "-18.0..18.0",
        )
        ∷ (one_of effect_id (33 ∷ 50 ∷ []) && key_in key ("Out " ∷ []), some "-20.0..6.0")
        ∷ (one_of effect_id (85 ∷ 86 ∷ []) && key_in key ("sldC" ∷ []), some "-60.0..0.0")
        ∷ (one_of effect_id (85 ∷ 86 ∷ []) && key_in key ("sld1" ∷ []), some "0.01..300")
        ∷ (one_of effect_id (85 ∷ 86 ∷ []) && key_in key ("sld3" ∷ []), some "5..4000")
        ∷ (one_of effect_id (85 ∷ 86 ∷ []) && key_in key ("sld2" ∷ []), some "1:1..100:1")
        ∷ (one_of effect_id (85 ∷ 86 ∷ []) && key_in key ("sldG" ∷ []), some "0..30")
        ∷ (one_of effect_id (85 ∷ 86 ∷ []) && key_in key ("sldD" ∷ []), some "0..40")
        ∷ (one_of effect_id (80 ∷ 81 ∷ 82 ∷ []) && key_in key ("Dly " ∷ []), some "1..4000")
        ∷ (
          one_of effect_id (80 ∷ 81 ∷ 82 ∷ [])
              && key_in key ("Fdbk" ∷ "DMix" ∷ "Wdth" ∷ "EnRt" ∷ []),
          some "0..100",
        )
        ∷ (
          one_of effect_id (80 ∷ 81 ∷ 82 ∷ []) && key_in key ("EnFb" ∷ "EnMx" ∷ []),
          some "-100..100",
        )
        ∷ (one_of effect_id (80 ∷ 81 ∷ 82 ∷ []) && key_in key ("Rtio" ∷ []), some "50:100..100:50")
        ∷ (one_of effect_id (88 ∷ 89 ∷ 90 ∷ []) && key_in key ("Rate" ∷ []), some "0.01..10.0")
        ∷ (one_of effect_id (88 ∷ 89 ∷ 90 ∷ []) && key_in key ("Dpth" ∷ "PDly" ∷ []), some "0..24")
        ∷ (one_of effect_id (88 ∷ 89 ∷ 90 ∷ []) && key_in key ("Mix " ∷ "Wdth" ∷ []), some "0..100")
        ∷ (one_of effect_id (88 ∷ 89 ∷ 90 ∷ []) && key_in key ("LoCt" ∷ []), some "20..1000")
        ∷ []))
      ""

-- `text[0]` as a test
unfoldable pub is_nonempty : String → Bool
is_nonempty String.[] = false
is_nonempty (String.◌∷◌ c s) = true

unfoldable pub parameter_curve : ℕ → Bytes → String
parameter_curve effect_id key =
    if is_discrete_setting effect_id key
    then "enum"
    else if one_of effect_id (85 ∷ 86 ∷ []) && key_in key ("sld1" ∷ "sld2" ∷ "sld3" ∷ [])
    then "log"
    else if one_of effect_id (88 ∷ 89 ∷ 90 ∷ []) && key_in key ("Rate" ∷ "LoCt" ∷ [])
    then "log"
    else if is_nonempty (parameter_range effect_id key)
    then "linear"
    else "unverified"
