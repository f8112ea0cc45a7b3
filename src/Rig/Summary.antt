-- ===== src/Rig/Summary.antt =====
-- What `print_rig_summary` of Tools/errig_read.c prints, its settings and slots, and a report put together
-- from the parts of Tools/er_inventory_export.c with them.
pub mod Loops
use r_compatible_driver_v.Base.{
  ℕ, ◌-◌, ◌≤◌, ◌≡◌, refl, sym, ap, ◌∙◌, Bytes, List, [], ◌∷◌, ◌++◌, map, length, get_or, ltb,
  le→ltb-false, leb, ◌==◌, if◌then◌else◌, String, Bool, Bool-cases, true, false, not, ◌&&◌, ◌||◌,
  Option, none, some, inl, inr,
}
use r_compatible_driver_v.Rig.{
  RigSetting, RigSection, parse_rig_section, find_rig_setting, settings, sections_from,
}
use r_compatible_driver_v.Rig.Keys.{quad, key_starts}
use r_compatible_driver_v.Rig.Names.{er_amp_names, named_code, or_else}
use r_compatible_driver_v.Rig.Parameters.{global_parameter_name, parameter_name}
use r_compatible_driver_v.Rig.Display.{Display, format_setting_value}
use r_compatible_driver_v.Rig.Export.{
  is_patch, raw_payload, extract_name, Row, global_row, slot_row, slot_values, enabled_flag,
  section_rows, all_rows, zeros, rows_of, rows_behind, export_rig,
}

-- A printed setting, and a printed slot; `parameter` is `none` where the key names itself.
pub record Line : Type 0 where
  pub setting : RigSetting
  pub parameter : Option String
  pub display : Display

pub record Slot : Type 0 where
  pub id : ℕ
  pub category : ℕ
  pub effect_id : ℕ
  pub amp : Option String
  pub lines : List Line

pub data Report : Type 0 where
  refused too_short no_contents : Report
  shown : Bytes → List Line → List Slot → Report

-- A key that sets an effect or a category, and is not printed
abbrev pub is_slot_key : Bytes → Bool
is_slot_key key =
    (key_starts key "Wor" || key_starts key "Wst")
    && leb b'C' (get_or key 3 0)
    && leb (get_or key 3 0) b'L'

abbrev pub global_line : RigSetting → Line
global_line s = record {
  setting = s;
  parameter = global_parameter_name s.key;
  display = format_setting_value 0xffffffff s.key s.value;
}

abbrev pub global_lines : List RigSetting → List Line
global_lines [] = []
global_lines (s ∷ ss) =
    let rest = global_lines ss in if is_slot_key s.key then rest else global_line s ∷ rest

abbrev pub slot_line : ℕ → ℕ → RigSetting → Line
slot_line effect amp_code s = record {
  setting = s;
  parameter = parameter_name effect amp_code s.key;
  display = format_setting_value effect s.key s.value;
}

-- The amplifier is named for effect 12 only.
abbrev pub section_slot : List ℕ → List ℕ → RigSection → Slot
section_slot effect_ids categories section =
    let effect = get_or effect_ids (section.id - b'C') 0 in
    let amp_code = or_else (find_rig_setting section (quad "sld6")) 0 in
    record {
      id = section.id;
      category = get_or categories (section.id - b'C') 0;
      effect_id = effect;
      amp = if effect == 12 then named_code er_amp_names amp_code else none;
      lines = map (slot_line effect amp_code) (settings section);
    }

abbrev pub section_slots : List ℕ → List ℕ → List RigSection → List Slot
section_slots effect_ids categories [] = []
section_slots effect_ids categories (s ∷ ss) =
    let rest = section_slots effect_ids categories ss in
    if ltb s.id b'C' || ltb b'L' s.id then rest else section_slot effect_ids categories s ∷ rest

-- The report, by the name and the walks of the export
abbrev pub report_of : Bytes → RigSection → Report
report_of raw toc = shown (extract_name raw) (global_lines (settings toc)) (
    section_slots (slot_values "Wor" (settings toc) zeros) (slot_values "Wst" (settings toc) zeros)
      (sections_from (length raw) raw toc.end_offset))

abbrev pub report_behind : Bytes → Option RigSection → Report
report_behind raw none = no_contents
report_behind raw (some toc) = if not (toc.id == b'A') then no_contents else report_of raw toc

unfoldable pub rig_report : Bytes → Report
rig_report s =
    let raw = raw_payload s in
    if not (is_patch s)
    then refused
    else if ltb (length raw) 36
    then too_short
    else report_behind raw (parse_rig_section raw 36)

-- What a row of the table says of its setting
abbrev pub row_line : Row → Line
row_line r = record { setting = r.setting; parameter = r.parameter; display = r.display }

abbrev pub slot_lines : List Slot → List Line
slot_lines [] = []
slot_lines (s ∷ ss) = s.lines ++ slot_lines ss

abbrev pub printed : List Row → List Line
printed [] = []
printed (r ∷ rs) =
    let rest = printed rs in if is_slot_key r.setting.key then rest else row_line r ∷ rest

printed-global : (ss : List RigSetting) → printed (map global_row ss) ≡ global_lines ss
printed-global [] = refl
printed-global (s ∷ ss) = elim (Bool-cases (is_slot_key s.key)) [
  | inl e ↦ rw e (printed-global ss)
  | inr e ↦ rw e (ap (◌∷◌ (global_line s)) (printed-global ss))
]

-- The rows of a section of a slot
abbrev slot_rows : List ℕ → List ℕ → RigSection → List Row
slot_rows effect_ids categories s =
    map
      (slot_row s.id (get_or categories (s.id - b'C') 0) (get_or effect_ids (s.id - b'C') 0)
        (or_else (find_rig_setting s (quad "sld6")) 0)
        (enabled_flag (get_or effect_ids (s.id - b'C') 0) (find_rig_setting s (quad "bypa"))
          (find_rig_setting s (quad "sld5"))))
      (settings s)

map-append : (xs ys : List Row) → map row_line (xs ++ ys) ≡ map row_line xs ++ map row_line ys
map-append [] ys = refl
map-append (x ∷ xs) ys = ap (◌∷◌ (row_line x)) (map-append xs ys)

map-slot_row :
    (id category effect amp_code : ℕ) (enabled : Option Bool) (ss : List RigSetting)
    → map (slot_line effect amp_code) ss
      ≡ map row_line (map (slot_row id category effect amp_code enabled) ss)
map-slot_row id category effect amp_code enabled [] = refl
map-slot_row id category effect amp_code enabled (s ∷ ss) =
    ap (◌∷◌ (slot_line effect amp_code s)) (map-slot_row id category effect amp_code enabled ss)

-- A section of a slot, and those behind it
section_slot-rows :
    (effect_ids categories : List ℕ) (s : RigSection) (ss : List RigSection)
    → slot_lines (section_slots effect_ids categories ss)
      ≡ map row_line (all_rows effect_ids categories ss)
    → (section_slot effect_ids categories s).lines
        ++ slot_lines (section_slots effect_ids categories ss)
      ≡ map row_line (slot_rows effect_ids categories s ++ all_rows effect_ids categories ss)
section_slot-rows effect_ids categories s ss rest =
    let effect = get_or effect_ids (s.id - b'C') 0 in
    let amp_code = or_else (find_rig_setting s (quad "sld6")) 0 in
    ap (λ l. map (slot_line effect amp_code) (settings s) ++ l) rest
    ∙ ap (λ l. l ++ map row_line (all_rows effect_ids categories ss))
        (map-slot_row s.id (get_or categories (s.id - b'C') 0) effect amp_code
          (enabled_flag effect (find_rig_setting s (quad "bypa"))
            (find_rig_setting s (quad "sld5")))
          (settings s))
    ∙ sym (map-append (slot_rows effect_ids categories s) (all_rows effect_ids categories ss))

section_slots-rows :
    (effect_ids categories : List ℕ) (ss : List RigSection)
    → slot_lines (section_slots effect_ids categories ss)
      ≡ map row_line (all_rows effect_ids categories ss)
unfolding section_rows
section_slots-rows effect_ids categories [] = refl
section_slots-rows effect_ids categories (s ∷ ss) =
    elim (Bool-cases (ltb s.id b'C' || ltb b'L' s.id)) [
      | inl e ↦ rw e (section_slots-rows effect_ids categories ss)
      | inr e ↦ rw e (
          section_slot-rows effect_ids categories s ss
            (section_slots-rows effect_ids categories ss))
    ]

pub if-some :
    (c : Bool) {o : Option (Bytes × List Row)} {x : Bytes × List Row}
    → (if c then o else none) ≡ some x
    → (c ≡ true) × (o ≡ some x)
if-some true e = (refl, e)
if-some false e = cc

rows_behind-some :
    (raw : Bytes) (o : Option RigSection) {x : Bytes × List Row}
    → rows_behind raw o ≡ some x
    → (toc : RigSection) × (o ≡ some toc)
      × ((toc.id == b'A') ≡ true)
      × (some (extract_name raw, rows_of raw toc) ≡ some x)
unfolding rows_behind
rows_behind-some raw none e = cc
rows_behind-some raw (some toc) e = elim (Bool-cases (toc.id == b'A')) [
  | inl a ↦ (
    toc,
    refl,
    a,
    sym (ap (λ c. if not c then none else some (extract_name raw, rows_of raw toc)) a) ∙ e,
  )
  | inr a ↦ absurd (
      none_some
        (sym (ap (λ c. if not c then none else some (extract_name raw, rows_of raw toc)) a) ∙ e))
]
  where
    none_some : {x : Bytes × List Row} → Path (Option (Bytes × List Row)) none (some x) → ⊥
    none_some e = cc

same_pair :
    (x y : Bytes × List Row)
    → Path (Option (Bytes × List Row)) (some x) (some y)
    → (x.0 ≡ y.0) × (x.1 ≡ y.1)
same_pair x y e =
    let whole : x ≡ y = cc in
    (ap (λ (p : Bytes × List Row). p.0) whole, ap (λ (p : Bytes × List Row). p.1) whole)

-- The report agrees with the table.
pub rig_report-export_rig :
    (s : Bytes) (name : Bytes) (rows : List Row)
    → export_rig s ≡ some (name, rows)
    → 36 ≤ length (raw_payload s)
    → (globals : List Row) × (others : List Row) × (slots : List Slot) × (rows ≡ globals ++ others)
      × (rig_report s ≡ shown name (printed globals) slots)
      × (slot_lines slots ≡ map row_line others)
unfolding export_rig rig_report rows_of
rig_report-export_rig s name rows e long =
    let patch = if-some (is_patch s) e in
    let (toc, parsed, contents, result) =
      rows_behind-some (raw_payload s) (parse_rig_section (raw_payload s) 36) patch.1 in
    let raw = raw_payload s in
    let same = same_pair (extract_name raw, rows_of raw toc) (name, rows) result in
    let effect_ids = slot_values "Wor" (settings toc) zeros in
    let categories = slot_values "Wst" (settings toc) zeros in
    let sections = sections_from (length raw) raw toc.end_offset in
    let slots = section_slots effect_ids categories sections in
    (
      map global_row (settings toc),
      all_rows effect_ids categories sections,
      slots,
      sym same.1,
      ap
            (λ c.
              if not c
              then refused
              else if ltb (length raw) 36
              then too_short
              else report_behind raw (parse_rig_section raw 36))
            patch.0
          ∙ ap (λ c. if c then too_short else report_behind raw (parse_rig_section raw 36))
              (le→ltb-false (length raw) 36 long)
          ∙ ap (report_behind raw) parsed
          ∙ ap (λ c. if not c then no_contents else report_of raw toc) contents
          ∙ ap (λ n. shown n (global_lines (settings toc)) slots) same.0
          ∙ ap (λ g. shown name g slots) (sym (printed-global (settings toc))),
      section_slots-rows effect_ids categories sections,
    )
