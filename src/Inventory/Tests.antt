-- ===== src/Inventory/Tests.antt =====
-- Concrete runs of the theorems on the inventory: everything captured before, and one query.
use r_compatible_driver_v.Base.{
  ℕ, zero, suc, ◌≡◌, refl, arith, some, none, if◌then◌else◌, List, [], ◌∷◌, ◌++◌, replicate, true,
  false,
}
use r_compatible_driver_v.Midi.Sysex.{complete}
use r_compatible_driver_v.Inventory.{
  Device, Capture, Run, Visit, visit, bank_from, inventory, exit_code,
}
use r_compatible_driver_v.Inventory.Files.{
  FileCalls, Disk, save_capture, save_capture_lem, program_label,
}
use r_compatible_driver_v.Inventory.Complete.{IsCaptured, inventory_complete}

-- The captures of a bank
abbrev captured : ℕ → ℕ → List Capture
captured bank zero = []
captured bank (suc n) = record { bank = bank; rig = n; content = replicate 101 0 } ∷ captured bank n

abbrev calm : ℕ → Visit
calm rig = record { stopped = false; window = true; saved = true }

abbrev silent : Device
silent = record { writes = []; reads = []; sent = [] }

abbrev full_run : Run
full_run = record { device = silent; files = captured 1 104 ++ captured 0 104; completed = 0 }

full_run-exit : exit_code false (inventory 3 false calm calm full_run) ≡ 0
unfolding exit_code inventory bank_from visit
full_run-exit = refl

inventory_complete_example :
    IsCaptured (inventory 3 false calm calm full_run).1 1 7
    × IsCaptured (inventory 3 false calm calm full_run).1 0 7
inventory_complete_example =
    inventory_complete 3 false false calm calm silent (captured 1 104 ++ captured 0 104)
      full_run-exit 7 (omega arith)

-- Another message, then the answer
abbrev answering : Device
answering = record {
  writes = true ∷ [];
  reads =
      complete (0xf0 ∷ 0xf7 ∷ [])
      ∷ complete (0xf0 ∷ 0x13 ∷ 0x0b ∷ 3 ∷ 0x12 ∷ 0x01 ∷ (replicate 100 0 ++ 0xf7 ∷ []))
      ∷ [];
  sent = [];
}

-- A disk that is full after two bytes: the old capture stays.
abbrev full_disk : FileCalls
full_disk = record {
  fits = true;
  opened = true;
  written = 2;
  closed = true;
  renamed = true;
  unlinked = true;
}

abbrev earlier : Disk
earlier = record { capture = some (1 ∷ []); partial = none }

save_capture_lem_example :
    let (saved, e) = save_capture full_disk (7 ∷ 8 ∷ 9 ∷ []) earlier in
    (e.capture ≡ (if saved then some (7 ∷ 8 ∷ 9 ∷ []) else some (1 ∷ [])))
    × (true ≡ true → earlier.partial ≡ none → e.partial ≡ none)
save_capture_lem_example = save_capture_lem full_disk (7 ∷ 8 ∷ 9 ∷ []) earlier

-- Rig 103, the last of a bank, is 26D.
label_test : program_label 103 ≡ b'2' ∷ b'6' ∷ b'D' ∷ []
unfolding program_label
label_test = refl
