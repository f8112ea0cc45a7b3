-- ===== src/Rig/Sections.antt =====
-- What the parser finds in a payload that the device wrote section by section.
use r_compatible_driver_v.Base.{
  ℕ, zero, suc, ◌+◌, ◌*◌, ◌/◌, ◌%◌, ◌^◌, ◌≤◌, ◌<◌, ◌≡◌, refl, sym, ap, ◌∙◌, arith, Bytes, List, [],
  ◌∷◌, ◌++◌, append_assoc, length, length-append, get_or, get_or-behind, drop, drop-behind, ltb,
  leb, le→ltb-false, le→leb, lt→leb-false, u32, bit_or, bit_or_high, true, false, some, All, map,
}
use r_compatible_driver_v.Rig.{
  read_le32, read_quad_key, RigSetting, RigSection, byte_size, parse_rig_section, rig_setting_at,
  settings_from, settings, sections_from,
}

-- A setting and a section as the device has them.
abbrev pub IsSetting : RigSetting → Type 0
IsSetting s = (length s.key ≡ 4) × (s.value < 2 ^ 32)

pub record Stored : Type 0 where
  pub id : ℕ
  pub version : ℕ
  pub content : List RigSetting

abbrev pub IsStored : Stored → Type 0
IsStored s = All IsSetting s.content × (0 < length s.content) × (length s.content < 2 ^ 13)

abbrev le32 : ℕ → Bytes
le32 v = v % 2 ^ 8 ∷ v / 2 ^ 8 % 2 ^ 8 ∷ v / 2 ^ 16 % 2 ^ 8 ∷ v / 2 ^ 24 ∷ []

abbrev pub write_setting : RigSetting → Bytes
write_setting s =
    get_or s.key 3 0 ∷ get_or s.key 2 0 ∷ get_or s.key 1 0 ∷ get_or s.key 0 0 ∷ le32 s.value

abbrev pub write_settings : List RigSetting → Bytes
write_settings [] = []
write_settings (s ∷ ss) = write_setting s ++ write_settings ss

abbrev pub write_section : Stored → Bytes
write_section s =
    8 * length s.content % 2 ^ 8
    ∷ 8 * length s.content / 2 ^ 8
    ∷ s.version
    ∷ s.id
    ∷ write_settings s.content

abbrev pub write_sections : List Stored → Bytes
write_sections [] = []
write_sections (s ∷ ss) = write_section s ++ write_sections ss

pub length-write_settings : (ss : List RigSetting) → length (write_settings ss) ≡ 8 * length ss
length-write_settings [] = omega arith
length-write_settings (s ∷ ss) = omega (arith, length-write_settings ss)

key_of_four :
    (k : Bytes) → length k ≡ 4 → get_or k 0 0 ∷ get_or k 1 0 ∷ get_or k 2 0 ∷ get_or k 3 0 ∷ [] ≡ k
key_of_four [] e = absurd (omega arith)
key_of_four (a ∷ []) e = absurd (omega arith)
key_of_four (a ∷ b ∷ []) e = absurd (omega arith)
key_of_four (a ∷ b ∷ c ∷ []) e = absurd (omega arith)
key_of_four (a ∷ b ∷ c ∷ d ∷ []) e = refl
key_of_four (a ∷ b ∷ c ∷ d ∷ f ∷ k) e = absurd (omega arith)

read_le32-le32 : (v : ℕ) (rest : Bytes) → v < 2 ^ 32 → read_le32 (le32 v ++ rest) ≡ v
unfolding read_le32
read_le32-le32 v rest h =
    ap (λ x. bit_or (bit_or x (v / 2 ^ 16 % 2 ^ 8 * 2 ^ 16)) (u32 (v / 2 ^ 24 * 2 ^ 24))) first
    ∙ ap (λ x. bit_or x (u32 (v / 2 ^ 24 * 2 ^ 24))) second
    ∙ ap (λ x. bit_or (v % 2 ^ 24) x) word
    ∙ third
  where
    first : bit_or (v % 2 ^ 8) (v / 2 ^ 8 % 2 ^ 8 * 2 ^ 8) ≡ v % 2 ^ 16
    first = omega (arith, bit_or_high 8 (v / 2 ^ 8 % 2 ^ 8) (v % 2 ^ 8) (omega arith))

    second : bit_or (v % 2 ^ 16) (v / 2 ^ 16 % 2 ^ 8 * 2 ^ 16) ≡ v % 2 ^ 24
    second = omega (arith, bit_or_high 16 (v / 2 ^ 16 % 2 ^ 8) (v % 2 ^ 16) (omega arith))

    word : u32 (v / 2 ^ 24 * 2 ^ 24) ≡ v / 2 ^ 24 * 2 ^ 24
    word = omega arith

    third : bit_or (v % 2 ^ 24) (v / 2 ^ 24 * 2 ^ 24) ≡ v
    third = omega (arith, bit_or_high 24 (v / 2 ^ 24) (v % 2 ^ 24) (omega arith))

setting_path :
    (s : RigSetting) {k : Bytes} {v : ℕ}
    → k ≡ s.key
    → v ≡ s.value
    → record { key = k; value = v } ≡ s
setting_path s e e' = rw (e, e') refl

setting_of_pair :
    (s : RigSetting) (rest pair : Bytes)
    → pair ≡ write_setting s ++ rest
    → IsSetting s
    → record { key = read_quad_key pair; value = read_le32 (drop 4 pair) } ≡ s
unfolding read_quad_key
setting_of_pair s rest pair e (len, fits) =
    rw e (setting_path s (key_of_four s.key len) (read_le32-le32 s.value rest fits))

drop_front : (xs ys : Bytes) (n : ℕ) → length xs ≡ n → drop n (xs ++ ys) ≡ ys
drop_front xs ys n e = ap (λ m. drop m (xs ++ ys)) plus_zero ∙ drop-behind xs ys n 0 (sym e)
  where
    plus_zero : n ≡ n + 0
    plus_zero = omega arith

rig_setting_at-write :
    (section : RigSection) (index : ℕ) (before rest : Bytes) (s : RigSetting)
    → section.pairs ≡ before ++ (write_setting s ++ rest)
    → length before ≡ index * 8
    → IsSetting s
    → rig_setting_at section index ≡ s
unfolding rig_setting_at
rig_setting_at-write section index before rest s e len h =
    setting_of_pair s rest (drop (index * 8) section.pairs)
      (ap (drop (index * 8)) e ∙ drop_front before (write_setting s ++ rest) (index * 8) len) h

settings_from-write :
    (ss : List RigSetting) (section : RigSection) (index : ℕ) (before rest : Bytes)
    → section.pairs ≡ before ++ (write_settings ss ++ rest)
    → length before ≡ index * 8
    → All IsSetting ss
    → settings_from (length ss) index section ≡ ss
unfolding settings_from
settings_from-write [] section index before rest e len h = refl
settings_from-write (s ∷ ss) section index before rest e len h =
    ap (λ x. x ∷ settings_from (length ss) (index + 1) section)
      (rig_setting_at-write section index before (write_settings ss ++ rest) s
        (e ∙ ap (λ l. before ++ l) (append_assoc (write_setting s) (write_settings ss) rest)) len
        h.0)
    ∙ ap (◌∷◌ s) (
        settings_from-write ss section (index + 1) (before ++ write_setting s) rest
          (e ∙ sym (append_assoc before (write_setting s) (write_settings ss ++ rest)))
          (omega (arith, length-append before (write_setting s))) h.1)

byte_size-write :
    (before rest : Bytes) (s : Stored) (offset : ℕ)
    → offset ≡ length before
    → length s.content < 2 ^ 13
    → byte_size (before ++ (write_section s ++ rest)) offset ≡ 8 * length s.content
unfolding byte_size
byte_size-write before rest s offset e small =
    ap (λ x. bit_or x (get_or raw (offset + 1) 0 * 2 ^ 8))
      (ap (λ j. get_or raw j 0) plus_zero ∙ get_or-behind before body offset 0 0 e)
    ∙ ap (λ x. bit_or (size % 2 ^ 8) (x * 2 ^ 8)) (get_or-behind before body offset 1 0 e)
    ∙ omega (arith, bit_or_high 8 (size / 2 ^ 8) (size % 2 ^ 8) (omega arith))
  where
    size : ℕ
    size = 8 * length s.content

    body : Bytes
    body = write_section s ++ rest

    raw : Bytes
    raw = before ++ body

    plus_zero : offset ≡ offset + 0
    plus_zero = omega arith

-- The section that the parser makes of a stored one at `offset`.
abbrev pub found : Bytes → Stored → ℕ → RigSection
found raw s offset = record {
  id = s.id;
  count = length s.content;
  pairs = drop (offset + 4) raw;
  end_offset = offset + 4 + 8 * length s.content;
}

pub parse_rig_section-write :
    (before rest : Bytes) (s : Stored) (offset : ℕ)
    → offset ≡ length before
    → length s.content < 2 ^ 13
    → parse_rig_section (before ++ (write_section s ++ rest)) offset
      ≡ some (found (before ++ (write_section s ++ rest)) s offset)
unfolding parse_rig_section
parse_rig_section-write before rest s offset e small =
    rw
      (
        room (offset + 4) (omega arith),
        byte_size-write before rest s offset e small,
        whole,
        room (offset + 4 + 8 * length s.content) (omega arith),
        get_or-behind before (write_section s ++ rest) offset 3 0 e,
        divided,
      )
      refl
  where
    whole : 8 * length s.content % 8 ≡ 0
    whole = omega arith

    divided : 8 * length s.content / 8 ≡ length s.content
    divided = omega arith

    room :
        (k : ℕ)
        → k ≤ offset + 4 + 8 * length s.content
        → ltb (length (before ++ (write_section s ++ rest))) k ≡ false
    room k h = le→ltb-false _ _ (
        omega (
          arith,
          length-append before (write_section s ++ rest),
          length-append (write_settings s.content) rest,
          length-write_settings s.content,
        ))

-- What the reader of a payload sees of a section.
abbrev pub view : RigSection → ℕ × List RigSetting
view section = (section.id, settings section)

abbrev pub stored_view : Stored → ℕ × List RigSetting
stored_view s = (s.id, s.content)

pub found-view :
    (before rest : Bytes) (s : Stored) (offset : ℕ)
    → offset ≡ length before
    → All IsSetting s.content
    → view (found (before ++ (write_section s ++ rest)) s offset) ≡ stored_view s
unfolding settings
found-view before rest s offset e h =
    ap (λ l. (s.id, l))
      (settings_from-write s.content (found (before ++ (write_section s ++ rest)) s offset) 0 []
        rest (drop-behind before (write_section s ++ rest) offset 4 e) refl h)

sections_from-section :
    (fuel : ℕ) (before rest : Bytes) (s : Stored) (offset : ℕ)
    → offset ≡ length before
    → IsStored s
    → sections_from (suc fuel) (before ++ (write_section s ++ rest)) offset
      ≡ found (before ++ (write_section s ++ rest)) s offset
        ∷ sections_from fuel
            (before ++ (write_section s ++ rest))
            (offset + 4 + 8 * length s.content)
unfolding sections_from
sections_from-section fuel before rest s offset e (h, some_setting, small) =
    rw (more, parse_rig_section-write before rest s offset e small) refl
  where
    more : leb (offset + 12) (length (before ++ (write_section s ++ rest))) ≡ true
    more = le→leb _ _ (
        omega (
          arith,
          length-append before (write_section s ++ rest),
          length-append (write_settings s.content) rest,
          length-write_settings s.content,
        ))

pub sections_from-write :
    (ss : List Stored) (fuel : ℕ) (before rest : Bytes) (offset : ℕ)
    → offset ≡ length before
    → All IsStored ss
    → length ss < fuel
    → length rest < 12
    → map view (sections_from fuel (before ++ (write_sections ss ++ rest)) offset)
      ≡ map stored_view ss
unfolding sections_from
sections_from-write ss zero before rest offset e h enough short = absurd (omega arith)
sections_from-write [] (suc fuel) before rest offset e h enough short =
    rw
      (lt→leb-false (offset + 12) (length (before ++ rest))
        (omega (arith, length-append before rest)))
      refl
sections_from-write (s ∷ ss) (suc fuel) before rest offset e h enough short =
    ap (λ raw. map view (sections_from (suc fuel) raw offset)) regroup
    ∙ ap (map view) (sections_from-section fuel before behind s offset e h.0)
    ∙ ap (λ v. v ∷ map view (sections_from fuel (before ++ (write_section s ++ behind)) next))
        (found-view before behind s offset e h.0.0)
    ∙ ap (λ raw. stored_view s ∷ map view (sections_from fuel raw next))
        (sym (append_assoc before (write_section s) behind))
    ∙ ap (◌∷◌ (stored_view s)) (
        sections_from-write ss fuel (before ++ write_section s) rest next
          (omega (arith, length-append before (write_section s), length-write_settings s.content))
          h.1 (omega arith) short)
  where
    behind : Bytes
    behind = write_sections ss ++ rest

    next : ℕ
    next = offset + 4 + 8 * length s.content

    regroup :
        before ++ (write_sections (s ∷ ss) ++ rest)
        ≡ before ++ (write_section s ++ (write_sections ss ++ rest))
    regroup = ap (λ l. before ++ l) (append_assoc (write_section s) (write_sections ss) rest)
