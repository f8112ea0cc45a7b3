-- ===== src/Rig/Parameters.antt =====
-- The names of the parameters in Tools/errig_read.c, by effect and key (`global_parameter_name`,
-- `parameter_name`). `none` stands for `return key`: the key names itself.
use r_compatible_driver_v.Base.{
  ℕ, List, [], ◌∷◌, Bytes, String, Option, some, ◌==◌, if◌then◌else◌, ◌||◌, Bool, true,
}
use r_compatible_driver_v.Rig.Keys.{key_is, key_starts, one_of, key_name, first_of}

unfoldable pub global_parameter_name : Bytes → Option String
global_parameter_name key = key_name key (
    ("RVol", "Rig Volume")
    ∷ ("RMno", "Mono/Stereo")
    ∷ ("Tmpo", "Tempo")
    ∷ ("PIGI", "True-Z")
    ∷ ("ExpT", "Expression Pedal Target")
    ∷ ("WorB", "Rig Input")
    ∷ ("GlSF", "Global Signal Flow")
    ∷ ("Msyc", "MIDI Sync")
    ∷ ("RslL", "Rig Output Level")
    ∷ ("FXc1", "Multi-FX Control 1")
    ∷ ("FXc2", "Multi-FX Control 2")
    ∷ ("FXc3", "Multi-FX Control 3")
    ∷ ("FXc4", "Multi-FX Control 4")
    ∷ ("Vol1", "Volume Pedal Heel")
    ∷ ("Vol2", "Volume Pedal Toe")
    ∷ [])

-- Effect 12. The RB-01b amplifiers have knobs of their own.
unfoldable pub amp_names : Bytes → ℕ → List (Bool × Option String)
amp_names key amp_code =
    (
      true,
      key_name key (
          ("sld1", "Amp/Cab Internal Control")
          ∷ ("sld2", "Output")
          ∷ ("sld3", "Noise Gate Threshold")
          ∷ ("sld4", "Noise Gate Release")
          ∷ ("sld5", "Amp Bypass")
          ∷ ("sld6", "Amp Model")
          ∷ ("sldJ", "Cabinet Bypass")
          ∷ ("sldK", "Cabinet Model")
          ∷ ("sldL", "Microphone Model")
          ∷ ("sldM", "Microphone Axis")
          ∷ ("sldN", "Speaker Breakup")
          ∷ ("Sync", "Tremolo Sync")
          ∷ ("TrOn", "Tremolo On/Off")
          ∷ []),
    )
    ∷ (
      one_of amp_code (1481917250 ∷ 1481917255 ∷ 1481917266 ∷ []),
      key_name key (
          ("sldD", "Presence")
          ∷ ("sld9", "Volume")
          ∷ ("sldA", "Treble")
          ∷ ("sldB", "Middle")
          ∷ ("sldC", "Bass")
          ∷ ("sld7", "Gain")
          ∷ ("sld8", "Boost")
          ∷ ("sldE", "Bright")
          ∷ []),
    )
    ∷ (
      true,
      key_name key (
          ("sld7", "Gain 1")
          ∷ ("sld8", "Gain 2")
          ∷ ("sld9", "Master")
          ∷ ("sldA", "Bass")
          ∷ ("sldB", "Middle")
          ∷ ("sldC", "Treble")
          ∷ ("sldD", "Presence")
          ∷ ("sldE", "Bright")
          ∷ ("sldF", "Tremolo Speed")
          ∷ ("sldG", "Tremolo Depth")
          ∷ ("sldO", "Additional Amp Control")
          ∷ []),
    )
    ∷ []

-- Effects 29, 30, 31, 87 and 91
unfoldable pub distortion_name : ℕ → Bytes → Option String
distortion_name effect_id key =
    if key_is key "Driv"
    then (if effect_id == 29
        then some "Sustain"
        else if effect_id == 30 || effect_id == 91
        then some "Distortion"
        else if effect_id == 31
        then some "Overdrive"
        else some "Gain")
    else if key_is key "Tone"
    then some (if effect_id == 30 then "Cut" else "Tone")
    else if key_is key "Levl"
    then some (if effect_id == 31 then "Level" else "Volume")
    else key_name key (("Treb", "Treble") ∷ ("Bass", "Bass") ∷ [])

-- Effects 78 and 79. Of a Q key the first three characters count.
unfoldable pub equalizer_name : Bytes → Option String
equalizer_name key = first_of (
    (key_is key "B1Gn", some "Low Gain")
    ∷ (key_is key "B1Fr", some "Low Frequency")
    ∷ (key_is key "B1Q " || key_starts key "B1Q", some "Low Q")
    ∷ (key_is key "B1Ty", some "Low Type")
    ∷ (key_is key "B2Gn", some "Low-Mid Gain")
    ∷ (key_is key "B2Fr", some "Low-Mid Frequency")
    ∷ (key_is key "B2Q " || key_starts key "B2Q", some "Low-Mid Q")
    ∷ (key_is key "B3Gn", some "High-Mid Gain")
    ∷ (key_is key "B3Fr", some "High-Mid Frequency")
    ∷ (key_is key "B3Q " || key_starts key "B3Q", some "High-Mid Q")
    ∷ (key_is key "B4Gn", some "High Gain")
    ∷ (key_is key "B4Fr", some "High Frequency")
    ∷ (key_is key "B4Q " || key_starts key "B4Q", some "High Q")
    ∷ (key_is key "B4Ty", some "High Type")
    ∷ (key_is key "Out ", some "Output")
    ∷ [])

unfoldable pub parameter_name : ℕ → ℕ → Bytes → Option String
parameter_name effect_id amp_code key = first_of (
    (key_is key "bypa", some "Effect State")
    ∷ (one_of effect_id (12 ∷ []), first_of (amp_names key amp_code))
    ∷ (
      one_of effect_id (38 ∷ 72 ∷ []),
      key_name key
          (("Vol ", "Position") ∷ ("Min ", "Minimum Volume") ∷ ("Tapr", "Taper (Linear/Log)") ∷ []),
    )
    ∷ (
      one_of effect_id (36 ∷ 55 ∷ []),
      key_name key (("Filt", "Position") ∷ ("VxCr", "Vox/Cry Character") ∷ []),
    )
    ∷ (one_of effect_id (29 ∷ 30 ∷ 31 ∷ 87 ∷ 91 ∷ []), distortion_name effect_id key)
    ∷ (one_of effect_id (78 ∷ 79 ∷ []), equalizer_name key)
    ∷ (
      one_of effect_id (85 ∷ 86 ∷ []),
      key_name key (
          ("sldC", "Threshold")
          ∷ ("sld1", "Attack")
          ∷ ("sld3", "Release")
          ∷ ("sld2", "Ratio")
          ∷ ("sldG", "Knee")
          ∷ ("sldD", "Gain")
          ∷ []),
    )
    ∷ (
      one_of effect_id (88 ∷ 89 ∷ 90 ∷ []),
      key_name key (
          ("Rate", "Rate")
          ∷ ("Sync", "Sync")
          ∷ ("Dpth", "Depth")
          ∷ ("Mix ", "Mix")
          ∷ ("PDly", "Pre-Delay")
          ∷ ("Voic", "Voices")
          ∷ ("LoCt", "Low Cut")
          ∷ ("Wdth", "Width")
          ∷ ("Wave", "Waveform")
          ∷ []),
    )
    ∷ (
      one_of effect_id (80 ∷ 81 ∷ 82 ∷ []),
      key_name key (
          ("Dly ", "Delay")
          ∷ ("Fdbk", "Feedback")
          ∷ ("DMix", "Mix")
          ∷ ("Sync", "Sync")
          ∷ ("Mode", "Mode")
          ∷ ("Rtio", "Ratio")
          ∷ ("Wdth", "Width")
          ∷ ("HiCt", "High Cut")
          ∷ ("LoCt", "Low Cut")
          ∷ ("EnRt", "Envelope Rate")
          ∷ ("EnFb", "Envelope Feedback")
          ∷ ("EnMx", "Envelope Mix")
          ∷ []),
    )
    ∷ (
      one_of effect_id (51 ∷ 52 ∷ 53 ∷ []),
      key_name key (
          ("Dcay", "Decay")
          ∷ ("Tone", "Tone")
          ∷ ("RMix", "Mix")
          ∷ ("Type", "Reverb Type")
          ∷ ("PDly", "Pre-Delay")
          ∷ []),
    )
    ∷ (
      one_of effect_id (14 ∷ 15 ∷ 16 ∷ 17 ∷ 56 ∷ 57 ∷ 73 ∷ []),
      key_name key (("send", "Send") ∷ ("rtrn", "Return") ∷ ("wetp", "Mix") ∷ []),
    )
    ∷ (
      one_of effect_id (11 ∷ 39 ∷ 40 ∷ []),
      key_name key (
          ("ChIn", "Chorus")
          ∷ ("VbRt", "Vibrato Rate")
          ∷ ("VbDp", "Vibrato Depth")
          ∷ ("Mode", "Chorus/Vibrato")
          ∷ ("Sync", "Sync")
          ∷ []),
    )
    ∷ (
      one_of effect_id (27 ∷ 48 ∷ []),
      key_name key (
          ("Dly ", "Delay")
          ∷ ("Blnd", "Mix")
          ∷ ("Fdbk", "Feedback")
          ∷ ("InLv", "Input Level")
          ∷ ("ChVb", "Modulation Mode")
          ∷ ("Dpth", "Modulation Depth")
          ∷ ("4X  ", "Expanded Delay")
          ∷ ("Nois", "Noise")
          ∷ ("Sync", "Sync")
          ∷ []),
    )
    ∷ (
      one_of effect_id (28 ∷ 49 ∷ []),
      key_name key (
          ("EDly", "Delay")
          ∷ ("Sust", "Feedback")
          ∷ ("Vol ", "Mix")
          ∷ ("Rec ", "Record Level")
          ∷ ("Tilt", "Head")
          ∷ ("Wow ", "Wow")
          ∷ ("4X  ", "Expanded Delay")
          ∷ ("Hiss", "Hiss")
          ∷ ("Sync", "Sync")
          ∷ []),
    )
    ∷ (one_of effect_id (32 ∷ []), key_name key (("Sust", "Sustain") ∷ ("Levl", "Level") ∷ []))
    ∷ (
      one_of effect_id (33 ∷ 50 ∷ []),
      key_name key (
          ("LwSh", "100 Hz")
          ∷ ("LMGn", "370 Hz")
          ∷ ("MGn ", "800 Hz")
          ∷ ("HMGn", "2 kHz")
          ∷ ("HiSh", "3.25 kHz")
          ∷ ("Out ", "Output")
          ∷ []),
    )
    ∷ (one_of effect_id (34 ∷ 71 ∷ []), key_name key (("Sped", "Speed") ∷ ("Sync", "Sync") ∷ []))
    ∷ (
      one_of effect_id (35 ∷ 46 ∷ []),
      key_name key (
          ("Levl", "Volume")
          ∷ ("Intn", "Depth")
          ∷ ("Sped", "Speed")
          ∷ ("Chor", "Chorus/Vibrato")
          ∷ ("Sync", "Sync")
          ∷ []),
    )
    ∷ (
      one_of effect_id (37 ∷ 47 ∷ []),
      key_name key (("Dcay", "Decay") ∷ ("Tone", "Tone") ∷ ("RMix", "Mix") ∷ []),
    )
    ∷ (
      one_of effect_id (69 ∷ 70 ∷ []),
      key_name key (
          ("PDly", "Pre-Delay")
          ∷ ("Dpth", "Depth")
          ∷ ("Sped", "Rate")
          ∷ ("Fdbk", "Feedback")
          ∷ ("Sync", "Sync")
          ∷ []),
    )
    ∷ (
      one_of effect_id (75 ∷ 76 ∷ 77 ∷ []),
      key_name key (("Sped", "Speed") ∷ ("Blnc", "Rotor Balance") ∷ ("Type", "Speaker Type") ∷ []),
    )
    ∷ [])
