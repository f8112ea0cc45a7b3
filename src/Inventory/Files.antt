-- ===== src/Inventory/Files.antt =====
-- Tools/er_inventory.c: the capture files (save_capture), their labels (program_label) and the name
-- in a capture (capture_name). A file is none where there is none; the answers of the file calls are
-- arguments.
use r_compatible_driver_v.Base.{
  ℕ, ◌+◌, ◌-◌, ◌*◌, ◌/◌, ◌%◌, ◌≤◌, ◌≡◌, refl, ap, ◌∙◌, arith, Bytes, [], ◌∷◌, length, take,
  length-take, length-drop, le→ltb-false, drop, ltb, leb, ◌==◌, if◌then◌else◌, Bool, true, false,
  not, ◌||◌, Option, none, some, Bool-cases, inl, inr,
}
use r_compatible_driver_v.Payload.{unpack_7bit}
use r_compatible_driver_v.Rig.Export.{raw_payload, extract_name, name_from}

-- Whether the path of the partial file fits its buffer, the results of fopen, fwrite, fclose and
-- rename, and whether unlink removes the file
pub record FileCalls : Type 0 where
  pub fits : Bool
  pub opened : Bool
  pub written : ℕ
  pub closed : Bool
  pub renamed : Bool
  pub unlinked : Bool

-- The capture and its partial file
pub record Disk : Type 0 where
  pub capture : Option Bytes
  pub partial : Option Bytes

abbrev pub unlink_partial : FileCalls → Disk → Disk
unlink_partial a d = if a.unlinked then record d { partial = none } else d

-- fwrite puts the first bytes into the file, as many as it answers.
unfoldable pub save_capture : FileCalls → Bytes → Disk → Bool × Disk
save_capture a bytes d =
    let begun = record d { partial = some (take a.written bytes) } in
    if not a.fits || not a.opened
    then (false, d)
    else if not (a.written == length bytes) || not a.closed
    then (false, unlink_partial a begun)
    else if not a.renamed
    then (false, unlink_partial a begun)
    else (true, record { capture = begun.partial; partial = none })

take-length : (xs : Bytes) → take (length xs) xs ≡ xs
take-length [] = refl
take-length (x ∷ xs) = ap (λ l. x ∷ l) (take-length xs)

written_whole : (n : ℕ) (xs : Bytes) → (n == length xs) ≡ true → take n xs ≡ xs
written_whole n xs e = ap (λ k. take k xs) (grind arith) ∙ take-length xs

-- A capture appears as a whole or stays as it was: if save_capture succeeds the file holds exactly the
-- bytes, and otherwise what it held; in either case no partial file stays behind, if there was
-- none and unlink works.
pub save_capture_lem :
    (a : FileCalls) (bytes : Bytes) (d : Disk)
    → let (saved, e) = save_capture a bytes d in
      (e.capture ≡ (if saved then some bytes else d.capture))
      × (a.unlinked ≡ true → d.partial ≡ none → e.partial ≡ none)
unfolding save_capture
save_capture_lem a bytes d = elim (Bool-cases (a.written == length bytes)) [
  | inl e ↦ rw (e, written_whole a.written bytes e) (ground arith)
  | inr e ↦ rw e (ground arith)
]

-- Two digits of the number, and the letter
unfoldable pub program_label : ℕ → Bytes
program_label rig =
    (b'0' + (rig / 4 + 1) / 10) ∷ (b'0' + (rig / 4 + 1) % 10) ∷ (b'A' + rig % 4) ∷ []

unfoldable pub capture_name : Bytes → Bytes
capture_name sysex =
    let packed = take (length sysex - 7) (drop 6 sysex) in
    let raw = unpack_7bit packed ((length sysex - 7) * 7 / 8 + 1) in
    if ltb (length sysex) 8 then [] else if leb 36 (length raw) then name_from 7 8 raw else []

packed_length :
    (sysex : Bytes)
    → 8 ≤ length sysex
    → length (take (length sysex - 7) (drop 6 sysex)) ≡ length sysex - 7
packed_length sysex h =
    omega (arith, length-take (length sysex - 7) (drop 6 sysex), length-drop 6 sysex)

same_test :
    (n : ℕ) (name : Bytes) → (if leb 36 n then name else []) ≡ (if ltb n 36 then [] else name)
same_test n name = ground arith

-- The inventory shows the name that the export writes.
capture_name-extract_name :
    (sysex : Bytes) → 8 ≤ length sysex → capture_name sysex ≡ extract_name (raw_payload sysex)
unfolding capture_name extract_name raw_payload
capture_name-extract_name sysex h =
    let raw =
      unpack_7bit (take (length sysex - 7) (drop 6 sysex)) ((length sysex - 7) * 7 / 8 + 1) in
    rw (le→ltb-false (length sysex) 8 h, packed_length sysex h)
      (same_test (length raw) (name_from 7 8 raw))
