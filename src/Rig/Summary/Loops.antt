-- ===== src/Rig/Summary/Loops.antt =====
-- `print_rig_summary` of Tools/errig_read.c, with its own test of the message, loop over the name, loop
-- over the contents and walk over the sections, and how it agrees with Tools/er_inventory_export.c.
use r_compatible_driver_v.Base.{
  ℕ, zero, suc, ◌+◌, ◌-◌, ◌*◌, ◌/◌, Bytes, List, [], ◌∷◌, length, get_or, take, drop, set, ltb, leb,
  ◌==◌, if◌then◌else◌, Bool, String, not, ◌&&◌, ◌||◌, Option, none, some,
}
use r_compatible_driver_v.Payload.{unpack_7bit}
use r_compatible_driver_v.Rig.{RigSection, parse_rig_section, rig_setting_at}
use r_compatible_driver_v.Rig.Keys.{key_starts}
use r_compatible_driver_v.Rig.Export.{zeros}
use r_compatible_driver_v.Rig.Summary.{
  Line, Slot, Report, refused, too_short, no_contents, shown, global_line, section_slot,
}

abbrev at : Bytes → ℕ → ℕ
at bytes i = get_or bytes i 0

-- The test at the start
abbrev pub is_refused : Bytes → Bool
is_refused s =
    ltb (length s) 8
    || not (at s 0 == 0xf0)
    || not (at s 1 == 0x13)
    || not (at s 2 == 0x0b)
    || not (at s 4 == 0x12)
    || not (at s 5 == 0x01)
    || not (at s (length s - 1) == 0xf7)

abbrev pub decoded_payload : Bytes → Bytes
decoded_payload s =
    let packed_length = length s - 7 in
    unpack_7bit (take packed_length (drop 6 s)) (packed_length * 7 / 8 + 1)

-- The inner loop over the bytes of a word, from the last one down, and the outer over the words
unfoldable pub word_loop : ℕ → ℕ → Bytes → Bytes → Bytes
word_loop zero word raw rest = rest
word_loop (suc byte_index) word raw rest =
    let byte = at raw (8 + word + byte_index) in
    let more = word_loop byte_index word raw rest in
    if byte == 0 || ltb byte 0x20 || ltb 0x7e byte then [] else byte ∷ more

unfoldable pub name_loop : ℕ → ℕ → Bytes → Bytes
name_loop zero word raw = []
name_loop (suc words) word raw = word_loop 4 word raw (name_loop words (word + 4) raw)

-- Whether a key names a slot's effect (`Wor`) or its category (`Wst`)
abbrev pub sets : String → Bytes → Bool
sets prefix key = key_starts key prefix && leb b'C' (at key 3) && leb (at key 3) b'L'

-- What the loop over the contents leaves: the effects and categories of the slots, and the lines printed.
pub record Contents : Type 0 where
  pub effect_ids : List ℕ
  pub categories : List ℕ
  pub lines : List Line

unfoldable pub contents_loop : ℕ → ℕ → RigSection → List ℕ → List ℕ → Contents
contents_loop zero index toc effect_ids categories = record {
  effect_ids = effect_ids;
  categories = categories;
  lines = [];
}
contents_loop (suc left) index toc effect_ids categories =
    let s = rig_setting_at toc index in
    let effect =
      contents_loop left (index + 1) toc (set effect_ids (at s.key 3 - b'C') s.value) categories in
    let category =
      contents_loop left (index + 1) toc effect_ids (set categories (at s.key 3 - b'C') s.value) in
    let rest = contents_loop left (index + 1) toc effect_ids categories in
    if sets "Wor" s.key
    then effect
    else if sets "Wst" s.key
    then category
    else record rest { lines = global_line s ∷ rest.lines }

-- The walk over the sections; one that is not of a slot is passed over.
unfoldable pub slots_loop : ℕ → Bytes → ℕ → List ℕ → List ℕ → List Slot
slots_loop zero raw offset effect_ids categories = []
slots_loop (suc fuel) raw offset effect_ids categories =
    let found : List Slot = elim (parse_rig_section raw offset) [
      | none ↦ []
      | some section ↦
          let rest = slots_loop fuel raw section.end_offset effect_ids categories in
          if ltb section.id b'C' || ltb b'L' section.id
          then rest
          else section_slot effect_ids categories section ∷ rest
    ] in
    if leb (offset + 12) (length raw) then found else []

abbrev pub printed_behind : Bytes → Option RigSection → Report
printed_behind raw none = no_contents
printed_behind raw (some toc) =
    let c = contents_loop toc.count 0 toc zeros zeros in
    if not (toc.id == b'A')
    then no_contents
    else (shown (name_loop 7 0 raw) c.lines
        (slots_loop (length raw) raw toc.end_offset c.effect_ids c.categories))

unfoldable pub print_rig_summary : Bytes → Report
print_rig_summary s =
    let raw = decoded_payload s in
    if is_refused s
    then refused
    else if ltb (length raw) 36
    then too_short
    else printed_behind raw (parse_rig_section raw 36)
