-- ===== src/Inventory/Complete.antt =====
-- An inventory that ends with exit code 0 has a valid capture of every program.
use r_compatible_driver_v.Base.{
  ℕ, zero, suc, ◌+◌, ◌≤◌, ◌<◌, ◌≡◌, refl, arith, Bytes, List, ◌∷◌, length, lt→ltb, ◌==◌,
  if◌then◌else◌, Bool, Bool-cases, true, false, not, ◌&&◌, inl, inr, Option, none, some, ◌⊎◌,
}
use mathlib.Core.Path.{subst}
use r_compatible_driver_v.Midi.Requests.{rig_change}
use r_compatible_driver_v.Inventory.{
  rigs_per_bank, Device, send, verify, query_edit_buffer, Capture, Run, valid_capture, Status,
  running, broken, failed, Visit, save, visit, after, bank_from, inventory, exit_code, both,
}
use r_compatible_driver_v.Inventory.Queries.{Answered, IsEditBuffer, query_edit_buffer-IsEditBuffer}

-- A capture of more than 100 bytes of this program is there.
abbrev pub IsCaptured : Run → ℕ → ℕ → Type 0
IsCaptured r bank rig = valid_capture r.files bank rig ≡ true

-- From `r` to `t` nothing captured is lost, and the count grows by `n` at most, by `n` only if `P`.
record Grows (n : ℕ) (P : Type 0) (r t : Run) : Type 0 where
  kept : (bank rig : ℕ) → IsCaptured r bank rig → IsCaptured t bank rig
  bound : t.completed ≤ r.completed + n
  full : t.completed ≡ r.completed + n → P

-- A run that only used the device
unchanged : (P : Type 0) (r : Run) (d : Device) → Grows 1 P r (record r { device = d })
unchanged P r d = record {
  kept = λ bank rig h. h;
  bound = omega arith;
  full = λ e. absurd (omega arith);
}

same_program : (bank rig : ℕ) → (bank == bank && rig == rig) ≡ true
same_program bank rig = ground arith

add_capture :
    (u : Bytes) (files : List Capture) (bank rig b r : ℕ)
    → 100 < length u
    → valid_capture files b r ≡ true
    → valid_capture (record { bank = bank; rig = rig; content = u } ∷ files) b r ≡ true
add_capture u files bank rig b r long h = elim (Bool-cases (bank == b && rig == r)) [
  | inl e ↦ rw e (lt→ltb 100 (length u) long)
  | inr e ↦ rw e h
]

save-Grows :
    (device_id bank rig : ℕ) (v : Visit) (u : Option Bytes) (r : Run)
    → Answered (IsEditBuffer device_id) u
    → Grows 1 (IsCaptured (save bank rig v u r).1 bank rig) r (save bank rig v u r).1
unfolding save
save-Grows device_id bank rig v none r h = unchanged _ r r.device
save-Grows device_id bank rig v (some u) r h = elim (Bool-cases v.saved) [
  | inl e ↦ rw e record {
    kept = λ b i k. add_capture u r.files bank rig b i h.1 k;
    bound = omega arith;
    full = λ k. rw (same_program bank rig) (lt→ltb 100 (length u) h.1);
  }
  | inr e ↦ rw e (unchanged _ r r.device)
]

-- The claim on one round, and the claim on a test between two rounds
abbrev Fine : ℕ → ℕ → Run → Status × Run → Type 0
Fine bank rig r x = Grows 1 (IsCaptured x.1 bank rig) r x.1

if-Fine :
    (bank rig : ℕ) (r : Run) (c : Bool) (x y : Status × Run)
    → (c ≡ true → Fine bank rig r x)
    → Fine bank rig r y
    → Fine bank rig r (if c then x else y)
if-Fine bank rig r true x y h k = h refl
if-Fine bank rig r false x y h k = k

other_device :
    (bank rig : ℕ) (r : Run) (d : Device) (x : Status × Run)
    → Fine bank rig (record r { device = d }) x
    → Fine bank rig r x
other_device bank rig r d x g = record { kept = g.kept; bound = g.bound; full = g.full }

visit-Fine :
    (device_id bank rig : ℕ) (v : Visit) (r : Run) → Fine bank rig r (visit device_id bank rig v r)
unfolding visit
visit-Fine device_id bank rig v r =
    let s = send (rig_change device_id bank rig) r.device in
    let c = verify 5 device_id bank rig s.1 in
    let e = query_edit_buffer 3 device_id c.1 in
    if-Fine bank rig r (valid_capture r.files bank rig) _ _
      (λ h. record { kept = λ b i k. k; bound = omega arith; full = λ k. h })
      (if-Fine bank rig r (not v.window) _ _ (λ h. unchanged _ r r.device)
        (if-Fine bank rig r (not s.0) _ _ (λ h. unchanged _ r s.1)
          (if-Fine bank rig r (not c.0) _ _ (λ h. unchanged _ r c.1)
            (other_device bank rig r e.1 (save bank rig v e.0 (record r { device = e.1 })) (
              save-Grows device_id bank rig v e.0 (record r { device = e.1 })
                (query_edit_buffer-IsEditBuffer 3 device_id c.1))))))

-- All programs of a bank from `rig` on are captured.
abbrev AllCaptured : ℕ → ℕ → ℕ → Run → Type 0
AllCaptured left bank rig r = (i : ℕ) → rig ≤ i → i < rig + left → IsCaptured r bank i

none_done : (left bank rig : ℕ) (r : Run) → Grows (suc left) (AllCaptured (suc left) bank rig r) r r
none_done left bank rig r = record {
  kept = λ b i h. h;
  bound = omega arith;
  full = λ e. absurd (omega arith);
}

-- A round that ends the loop can be the last one only.
ended :
    (left bank rig : ℕ) (r h : Run)
    → Grows 1 (IsCaptured h bank rig) r h
    → Grows (suc left) (AllCaptured (suc left) bank rig h) r h
ended left bank rig r h g = record {
  kept = g.kept;
  bound = omega (arith, g.bound);
  full = λ e i le lt.
      let last : rig ≡ i = omega (arith, g.bound) in
      subst (λ j. IsCaptured h bank j) last (g.full (omega (arith, g.bound)));
}

after-Grows :
    (left bank rig : ℕ) (r : Run) (here rest : Status × Run)
    → Fine bank rig r here
    → Grows left (AllCaptured left bank (rig + 1) rest.1) here.1 rest.1
    → Grows (suc left) (AllCaptured (suc left) bank rig (after here rest).1) r (after here rest).1
after-Grows left bank rig r (running, h) (status, t) g k = record {
  kept = λ b i c. k.kept b i (g.kept b i c);
  bound = omega (arith, g.bound, k.bound);
  full = λ e i le lt. elim (first_or_later i rig le) [
    | inl same ↦
        subst (λ j. IsCaptured t bank j) same
          (k.kept bank rig (g.full (omega (arith, g.bound, k.bound))))
    | inr later ↦ k.full (omega (arith, g.bound, k.bound)) i later (omega arith)
  ];
}
  where
    first_or_later : (i rig : ℕ) → rig ≤ i → (rig ≡ i) ⊎ (rig + 1 ≤ i)
    first_or_later i rig le = ground arith
after-Grows left bank rig r (broken, h) rest g k = ended left bank rig r h g
after-Grows left bank rig r (failed, h) rest g k = ended left bank rig r h g

-- The claim on the loop over a bank from `rig` on
abbrev Walked : ℕ → ℕ → ℕ → Run → Status × Run → Type 0
Walked left bank rig r x = Grows left (AllCaptured left bank rig x.1) r x.1

if-Walked :
    (left bank rig : ℕ) (r : Run) (c : Bool) (x y : Status × Run)
    → Walked left bank rig r x
    → Walked left bank rig r y
    → Walked left bank rig r (if c then x else y)
if-Walked left bank rig r true x y v w = v
if-Walked left bank rig r false x y v w = w

bank_from-Walked :
    (left device_id bank rig : ℕ) (visits : ℕ → Visit) (r : Run)
    → Walked left bank rig r (bank_from left device_id bank rig visits r)
unfolding bank_from
bank_from-Walked zero device_id bank rig visits r = record {
  kept = λ b i h. h;
  bound = omega arith;
  full = λ e i le lt. absurd (omega arith);
}
bank_from-Walked (suc left) device_id bank rig visits r =
    let here = visit device_id bank rig (visits rig) r in
    let rest = bank_from left device_id bank (rig + 1) visits here.1 in
    if-Walked (suc left) bank rig r (visits rig).stopped (broken, r) (after here rest)
      (none_done left bank rig r)
      (after-Grows left bank rig r here rest (visit-Fine device_id bank rig (visits rig) r)
        (bank_from-Walked left device_id bank (rig + 1) visits here.1))

exit_zero : (stop : Bool) (x : Status × Run) → exit_code stop x ≡ 0 → x.1.completed ≡ 208
unfolding exit_code
exit_zero stop (failed, r) e = cc
exit_zero true (running, r) e = cc
exit_zero true (broken, r) e = cc
exit_zero false (running, r) e = ground arith
exit_zero false (broken, r) e = ground arith

exit_failed : (stop : Bool) (r : Run) → exit_code stop (failed, r) ≡ 0 → ⊥
unfolding exit_code
exit_failed stop r e = cc

-- Two full loops
all_counted :
    (r : Run) (second : Status × Run) (start : Run)
    → start.completed ≡ 0
    → Grows rigs_per_bank (AllCaptured rigs_per_bank 1 0 r) start r
    → Walked rigs_per_bank 0 0 r second
    → second.1.completed ≡ 208
    → (rig : ℕ) → rig < rigs_per_bank
    → IsCaptured second.1 1 rig × IsCaptured second.1 0 rig
all_counted r second start none_yet v w e rig lt = (
  w.kept 1 rig (v.full (omega (arith, v.bound, w.bound)) rig (omega arith) (omega arith)),
  w.full (omega (arith, v.bound, w.bound)) rig (omega arith) (omega arith),
)

-- One loop alone counts too few.
half_counted :
    (r start : Run) (P : Type 0)
    → start.completed ≡ 0
    → Grows rigs_per_bank P start r
    → r.completed ≡ 208
    → ⊥
half_counted r start P none_yet v e = omega (arith, v.bound)

both-IsCaptured :
    (between stop : Bool) (first second : Status × Run) (start : Run)
    → start.completed ≡ 0
    → Walked rigs_per_bank 1 0 start first
    → Walked rigs_per_bank 0 0 first.1 second
    → exit_code stop (both between first second) ≡ 0
    → (rig : ℕ) → rig < rigs_per_bank
    → IsCaptured (both between first second).1 1 rig
      × IsCaptured (both between first second).1 0 rig
both-IsCaptured between stop (failed, r) second start none_yet v w e rig lt =
    absurd (exit_failed stop r e)
both-IsCaptured true stop (running, r) second start none_yet v w e rig lt =
    absurd (half_counted r start _ none_yet v (exit_zero stop (running, r) e))
both-IsCaptured true stop (broken, r) second start none_yet v w e rig lt =
    absurd (half_counted r start _ none_yet v (exit_zero stop (broken, r) e))
both-IsCaptured false stop (running, r) second start none_yet v w e rig lt =
    all_counted r second start none_yet v w (exit_zero stop second e) rig lt
both-IsCaptured false stop (broken, r) second start none_yet v w e rig lt =
    all_counted r second start none_yet v w (exit_zero stop second e) rig lt

-- However the device answers and whichever files are there at the start: if the inventory ends with
-- exit code 0, all 104 programs of both banks have a capture of more than 100 bytes.
pub inventory_complete :
    (device_id : ℕ) (between stop : Bool) (factory user : ℕ → Visit) (device : Device)
    (files : List Capture)
    → exit_code stop (
        inventory device_id between factory user
          (record { device = device; files = files; completed = 0 }))
      ≡ 0
    → (rig : ℕ) → rig < rigs_per_bank
    → IsCaptured
        (inventory device_id between factory user
          (record { device = device; files = files; completed = 0 })).1
        1
        rig
      × IsCaptured
          (inventory device_id between factory user
            (record { device = device; files = files; completed = 0 })).1
          0
          rig
unfolding inventory
inventory_complete device_id between stop factory user device files e rig lt =
    let start : Run = record { device = device; files = files; completed = 0 } in
    let first = bank_from rigs_per_bank device_id 1 0 factory start in
    both-IsCaptured between stop first (bank_from rigs_per_bank device_id 0 0 user first.1) start
      refl (bank_from-Walked rigs_per_bank device_id 1 0 factory start)
      (bank_from-Walked rigs_per_bank device_id 0 0 user first.1) e rig lt
