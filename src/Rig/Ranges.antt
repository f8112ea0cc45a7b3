-- ===== src/Rig/Ranges.antt =====
-- The texts of `parameter_range` against the values that `format_setting_value` shows.
use r_compatible_driver_v.Base.{
  ℕ, ◌+◌, ◌-◌, ◌*◌, ◌≡◌, refl, List, [], ◌∷◌, Bytes, String, ◌==◌, leb, if◌then◌else◌, ◌&&◌, ◌||◌,
  not, Bool, true, false, All,
}
use r_compatible_driver_v.Rig.{same_key}
use r_compatible_driver_v.Rig.Keys.{quad, key_is, key_in, one_of, within, first_of}
use r_compatible_driver_v.Rig.Names.{or_else}
use r_compatible_driver_v.Rig.Scales.{
  parameter_range, parameter_curve, is_nonempty, is_discrete_setting, is_ten_scale_setting,
  is_percent_setting,
}
use r_compatible_driver_v.Rig.Display.{
  Curve, linear, exponential, ratio, Display, integer, level, micro_or_milli, format_setting_value,
  first_case, value_name, first_display, scaled_value, named_display,
}

-- A number of the text in hundredths above -1000, and what is behind it.
abbrev is_digit : ℕ → Bool
is_digit c = leb b'0' c && leb c b'9'

abbrev read_whole : ℕ → Bytes → ℕ × Bytes
read_whole n [] = (n, [])
read_whole n (c ∷ cs) =
    let rest = read_whole (n * 10 + (c - b'0')) cs in if is_digit c then rest else (n, c ∷ cs)

abbrev read_fraction : ℕ → Bytes → ℕ × Bytes
read_fraction n (p ∷ c ∷ d ∷ cs) =
    if p == b'.' && is_digit c
    then (if is_digit d
        then (n * 100 + (c - b'0') * 10 + (d - b'0'), cs)
        else (n * 100 + (c - b'0') * 10, d ∷ cs))
    else (n * 100, p ∷ c ∷ d ∷ cs)
read_fraction n (p ∷ c ∷ []) =
    if p == b'.' && is_digit c then (n * 100 + (c - b'0') * 10, []) else (n * 100, p ∷ c ∷ [])
read_fraction n cs = (n * 100, cs)

abbrev read_magnitude : Bytes → ℕ × Bytes
read_magnitude cs = let whole = read_whole 0 cs in read_fraction whole.0 whole.1

abbrev read_number : Bytes → ℕ × Bytes
read_number [] = (100000, [])
read_number (c ∷ cs) =
    let negative = read_magnitude cs in
    let positive = read_magnitude (c ∷ cs) in
    if c == b'-' then (100000 - negative.0, negative.1) else (100000 + positive.0, positive.1)

abbrev behind_dots : Bytes → Bytes
behind_dots (a ∷ b ∷ cs) = if a == b'.' && b == b'.' then cs else behind_dots (b ∷ cs)
behind_dots cs = []

-- Whether a text is a range of two numbers, and not words
abbrev pub has_dots : Bytes → Bool
has_dots (a ∷ b ∷ cs) = if a == b'.' && b == b'.' then true else has_dots (b ∷ cs)
has_dots cs = false

abbrev pub range_ends : String → ℕ × ℕ
range_ends range =
    let low = read_number (quad range) in (low.0, (read_number (behind_dots low.1)).0)

-- The values at both ends of a curve, in the same unit.
abbrev pub curve_ends : Curve → ℕ × ℕ
curve_ends (linear plus minus span) =
    (100 * (1000 + plus - minus), 100 * (1000 + plus - minus) + 100 * span)
curve_ends (exponential hundredths base) = (100000 + hundredths, 100000 + hundredths * base)
curve_ends ratio = (105000, 110000)

abbrev pub shows_range : Display → ℕ × ℕ → Bool
shows_range (level format curve x) ends = let e = curve_ends curve in e.0 == ends.0 && e.1 == ends.1
shows_range (micro_or_milli curve x) ends =
    let e = curve_ends curve in e.0 == ends.0 && e.1 == ends.1
shows_range _ ends = false

abbrev pub range_holds : ℕ → ℕ → String → Bool
range_holds value effect_id key =
    let k = quad key in
    let range = parameter_range effect_id k in
    if is_discrete_setting effect_id k
    then true
    else if has_dots (quad range)
    then shows_range (format_setting_value effect_id k value) (range_ends range)
    else not (is_nonempty range) || same_key k (quad "Tmpo")

-- The effects that the code names, each with the keys that it names for them.
abbrev pub named_keys : List (List ℕ × List String)
named_keys =
    (
      12 ∷ [],
      "sld1" ∷ "sld2" ∷ "sld3" ∷ "sld4" ∷ "sld5" ∷ "sld6" ∷ "sldJ" ∷ "sldK" ∷ "sldL" ∷ "sldM"
          ∷ "sldN" ∷ "Sync" ∷ "TrOn" ∷ "sldD" ∷ "sld9" ∷ "sldA" ∷ "sldB" ∷ "sldC" ∷ "sld7" ∷ "sld8"
          ∷ "sldE" ∷ "sldF" ∷ "sldG" ∷ "sldO" ∷ [],
    )
    ∷ (38 ∷ 72 ∷ [], "Vol " ∷ "Min " ∷ "Tapr" ∷ [])
    ∷ (36 ∷ 55 ∷ [], "Filt" ∷ "VxCr" ∷ [])
    ∷ (29 ∷ 30 ∷ 31 ∷ 87 ∷ 91 ∷ [], "Driv" ∷ "Tone" ∷ "Levl" ∷ "Treb" ∷ "Bass" ∷ [])
    ∷ (
      78 ∷ 79 ∷ [],
      "B1Gn" ∷ "B1Fr" ∷ "B1Q " ∷ "B1Ty" ∷ "B2Gn" ∷ "B2Fr" ∷ "B2Q " ∷ "B3Gn" ∷ "B3Fr" ∷ "B3Q "
          ∷ "B4Gn" ∷ "B4Fr" ∷ "B4Q " ∷ "B4Ty" ∷ "Out " ∷ [],
    )
    ∷ (85 ∷ 86 ∷ [], "sldC" ∷ "sld1" ∷ "sld3" ∷ "sld2" ∷ "sldG" ∷ "sldD" ∷ [])
    ∷ (
      88 ∷ 89 ∷ 90 ∷ [],
      "Rate" ∷ "Sync" ∷ "Dpth" ∷ "Mix " ∷ "PDly" ∷ "Voic" ∷ "LoCt" ∷ "Wdth" ∷ "Wave" ∷ [],
    )
    ∷ (
      80 ∷ 81 ∷ 82 ∷ [],
      "Dly " ∷ "Fdbk" ∷ "DMix" ∷ "Sync" ∷ "Mode" ∷ "Rtio" ∷ "Wdth" ∷ "HiCt" ∷ "LoCt" ∷ "EnRt"
          ∷ "EnFb" ∷ "EnMx" ∷ [],
    )
    ∷ (51 ∷ 52 ∷ 53 ∷ [], "Dcay" ∷ "Tone" ∷ "RMix" ∷ "Type" ∷ "PDly" ∷ [])
    ∷ (14 ∷ 15 ∷ 16 ∷ 17 ∷ 56 ∷ 57 ∷ 73 ∷ [], "send" ∷ "rtrn" ∷ "wetp" ∷ [])
    ∷ (11 ∷ 39 ∷ 40 ∷ [], "ChIn" ∷ "VbRt" ∷ "VbDp" ∷ "Mode" ∷ "Sync" ∷ [])
    ∷ (
      27 ∷ 48 ∷ [],
      "Dly " ∷ "Blnd" ∷ "Fdbk" ∷ "InLv" ∷ "ChVb" ∷ "Dpth" ∷ "4X  " ∷ "Nois" ∷ "Sync" ∷ [],
    )
    ∷ (
      28 ∷ 49 ∷ [],
      "EDly" ∷ "Sust" ∷ "Vol " ∷ "Rec " ∷ "Tilt" ∷ "Wow " ∷ "4X  " ∷ "Hiss" ∷ "Sync" ∷ [],
    )
    ∷ (32 ∷ [], "Sust" ∷ "Levl" ∷ [])
    ∷ (33 ∷ 50 ∷ [], "LwSh" ∷ "LMGn" ∷ "MGn " ∷ "HMGn" ∷ "HiSh" ∷ "Out " ∷ [])
    ∷ (34 ∷ 71 ∷ [], "Sped" ∷ "Sync" ∷ [])
    ∷ (35 ∷ 46 ∷ [], "Levl" ∷ "Intn" ∷ "Sped" ∷ "Chor" ∷ "Sync" ∷ [])
    ∷ (37 ∷ 47 ∷ [], "Dcay" ∷ "Tone" ∷ "RMix" ∷ [])
    ∷ (69 ∷ 70 ∷ [], "PDly" ∷ "Dpth" ∷ "Sped" ∷ "Fdbk" ∷ "Sync" ∷ [])
    ∷ (75 ∷ 76 ∷ 77 ∷ [], "Sped" ∷ "Blnc" ∷ "Type" ∷ [])
    ∷ (0xffffffff ∷ 0 ∷ 12 ∷ [], "RVol" ∷ "Tmpo" ∷ [])
    ∷ []

abbrev pub every_key : (ℕ → String → Bool) → ℕ → List String → Bool
every_key p effect_id [] = true
every_key p effect_id (k ∷ ks) = p effect_id k && every_key p effect_id ks

abbrev pub every_effect : (ℕ → String → Bool) → List ℕ → List String → Bool
every_effect p [] keys = true
every_effect p (e ∷ es) keys = every_key p e keys && every_effect p es keys

abbrev pub every : (ℕ → String → Bool) → List (List ℕ × List String) → Bool
every p [] = true
every p ((effects, keys) ∷ rest) = every_effect p effects keys && every p rest

-- Whatever the value: for every effect with each key that the code names for it, and for the rig volume and
-- the tempo, which it names for any effect, at effects -1, 0 and 12: if the setting is not one of discrete
-- values and has a documented range, then the range is two numbers and the display is on a curve with
-- these ends, or the key is that of the tempo, whose range is in words.
pub range_holds_everywhere : (value : ℕ) → every (range_holds value) named_keys ≡ true
unfolding quad same_key key_is key_in one_of within first_of or_else parameter_range is_nonempty
    is_discrete_setting is_ten_scale_setting is_percent_setting format_setting_value first_case
    value_name first_display scaled_value named_display
range_holds_everywhere value = refl

-- The speed of the phasers and flangers: the tables document it as 0.0 to 10.0, but the key counts as
-- discrete, so it is shown as the raw integer whatever its value.
pub speed_shown_raw :
    (value : ℕ)
    → All
        (λ effect_id.
          (format_setting_value effect_id (quad "Sped") value ≡ integer value)
          × (parameter_range effect_id (quad "Sped") ≡ "0.0..10.0")
          × (parameter_curve effect_id (quad "Sped") ≡ "enum"))
        (34 ∷ 35 ∷ 69 ∷ 70 ∷ 71 ∷ [])
unfolding quad same_key key_is key_in one_of within first_of or_else parameter_range parameter_curve
    is_nonempty is_discrete_setting is_ten_scale_setting is_percent_setting format_setting_value
    first_case value_name first_display scaled_value named_display
speed_shown_raw value = (
  (refl, refl, refl),
  ((refl, refl, refl), ((refl, refl, refl), ((refl, refl, refl), ((refl, refl, refl), tt)))),
)
