-- ===== src/Inventory.antt =====
-- The capture of all programs, Tools/er_inventory.c: the queries, and the loop of main over both
-- banks. What the device answers, the files hold and the signals do are arguments.
pub mod Files
pub mod Queries
pub mod Complete
pub mod Tests
use r_compatible_driver_v.Base.{
  ℕ, zero, suc, ◌+◌, Bytes, List, [], ◌∷◌, ◌++◌, length, get_or, ltb, ◌==◌, if◌then◌else◌, Bool,
  true, false, not, ◌&&◌, Option, none, some,
}
use r_compatible_driver_v.Midi.Sysex.{Outcome, complete}
use r_compatible_driver_v.Midi.Requests.{get_request, rig_change, is_object_response}

abbrev pub rigs_per_bank : ℕ
rigs_per_bank = 104

-- What the writes and `read_sysex` will answer, and the transfers written so far. Behind the last
-- answer a write fails and a read gives nothing.
pub record Device : Type 0 where
  pub writes : List Bool
  pub reads : List Outcome
  pub sent : List Bytes

unfoldable pub send : Bytes → Device → Bool × Device
send transfer d = elim d.writes [
  | [] ↦ (false, d)
  | ok ∷ writes ↦ (ok, record d { writes = writes; sent = d.sent ++ (transfer ∷ []) })
]

unfoldable pub next_sysex : Device → Outcome × Device
next_sysex d = elim d.reads [
  | [] ↦ (Outcome.no_response, d)
  | outcome ∷ reads ↦ (outcome, record d { reads = reads })
]

-- One round of `wait_for_object`: a failed read ends it, another message is passed over.
abbrev pub heard : Outcome → ℕ → ℕ → Device → Option Bytes × Device → Option Bytes × Device
heard (complete u) device_id object d rest =
    if is_object_response u device_id object then (some u, d) else rest
heard _ device_id object d rest = (none, d)

unfoldable pub wait_from : ℕ → ℕ → ℕ → Device → Option Bytes × Device
wait_from zero device_id object d = (none, d)
wait_from (suc attempts) device_id object d =
    let r = next_sysex d in
    let rest = wait_from attempts device_id object r.1 in heard r.0 device_id object r.1 rest

unfoldable pub wait_for_object : ℕ → ℕ → Device → Option Bytes × Device
wait_for_object = wait_from 64

abbrev pub program_of : Option Bytes → Option (ℕ × ℕ)
program_of none = none
program_of (some u) = if ltb (length u) 9 then none else some (get_or u 6 0, get_or u 7 0)

unfoldable pub query_current_rig : ℕ → Device → Option (ℕ × ℕ) × Device
query_current_rig device_id d =
    let s = send (get_request device_id 0x02) d in
    let w = wait_for_object device_id 0x02 s.1 in
    if not s.0 then (none, s.1) else (program_of w.0, w.1)

abbrev pub long_enough : Option Bytes → Device → Option Bytes × Device → Option Bytes × Device
long_enough none d again = again
long_enough (some u) d again = if ltb 100 (length u) then (some u, d) else again

-- `query_edit_buffer` makes three attempts.
unfoldable pub query_edit_buffer : ℕ → ℕ → Device → Option Bytes × Device
query_edit_buffer zero device_id d = (none, d)
query_edit_buffer (suc attempts) device_id d =
    let s = send (get_request device_id 0x01) d in
    let w = wait_for_object device_id 0x01 s.1 in
    let unsent = query_edit_buffer attempts device_id s.1 in
    let again = query_edit_buffer attempts device_id w.1 in
    if not s.0 then unsent else long_enough w.0 w.1 again

abbrev pub is_program : Option (ℕ × ℕ) → ℕ → ℕ → Bool
is_program none bank rig = false
is_program (some (b, r)) bank rig = b == bank && r == rig

-- The verification of main, five attempts
unfoldable pub verify : ℕ → ℕ → ℕ → ℕ → Device → Bool × Device
verify zero device_id bank rig d = (false, d)
verify (suc attempts) device_id bank rig d =
    let q = query_current_rig device_id d in
    let rest = verify attempts device_id bank rig q.1 in
    if is_program q.0 bank rig then (true, q.1) else rest

-- A capture file by its bank and rig
pub record Capture : Type 0 where
  pub bank : ℕ
  pub rig : ℕ
  pub content : Bytes

pub record Run : Type 0 where
  pub device : Device
  pub files : List Capture
  pub completed : ℕ

-- The file's size; a missing one counts as empty, which is not valid either.
abbrev pub size_of : List Capture → ℕ → ℕ → ℕ
size_of [] bank rig = 0
size_of (c ∷ cs) bank rig =
    if c.bank == bank && c.rig == rig then length c.content else size_of cs bank rig

abbrev pub valid_capture : List Capture → ℕ → ℕ → Bool
valid_capture files bank rig = ltb 100 (size_of files bank rig)

-- How one round of the inner loop ends: with the next rig, by `break`, or by `goto cleanup`.
pub data Status : Type 0 where
  running broken failed : Status

-- `er_inventory_stop` at the test of the loop, and the results of `wait_for_switch_window` and
-- `save_capture`
pub record Visit : Type 0 where
  pub stopped : Bool
  pub window : Bool
  pub saved : Bool

unfoldable pub save : ℕ → ℕ → Visit → Option Bytes → Run → Status × Run
save bank rig v none r = (failed, r)
save bank rig v (some u) r =
    if v.saved
    then (
      running,
      record r {
        files = record { bank = bank; rig = rig; content = u } ∷ r.files;
        completed = r.completed + 1;
      },
    )
    else (failed, r)

unfoldable pub visit : ℕ → ℕ → ℕ → Visit → Run → Status × Run
visit device_id bank rig v r =
    let s = send (rig_change device_id bank rig) r.device in
    let c = verify 5 device_id bank rig s.1 in
    let e = query_edit_buffer 3 device_id c.1 in
    if valid_capture r.files bank rig
    then (running, record r { completed = r.completed + 1 })
    else if not v.window
    then (broken, r)
    else if not s.0
    then (failed, record r { device = s.1 })
    else if not c.0
    then (failed, record r { device = c.1 })
    else save bank rig v e.0 (record r { device = e.1 })

-- The loop over the rigs of a bank from `rig` on
abbrev pub after : Status × Run → Status × Run → Status × Run
after (running, r) rest = rest
after (broken, r) rest = (broken, r)
after (failed, r) rest = (failed, r)

unfoldable pub bank_from : ℕ → ℕ → ℕ → ℕ → (ℕ → Visit) → Run → Status × Run
bank_from zero device_id bank rig visits r = (running, r)
bank_from (suc left) device_id bank rig visits r =
    let here = visit device_id bank rig (visits rig) r in
    let rest = bank_from left device_id bank (rig + 1) visits here.1 in
    if (visits rig).stopped then (broken, r) else after here rest

abbrev pub both : Bool → Status × Run → Status × Run → Status × Run
both stop (failed, r) second = (failed, r)
both stop (status, r) second = if stop then (status, r) else second

-- The factory bank, 1, then the user bank, 0. `between` is er_inventory_stop between the banks.
unfoldable pub inventory : ℕ → Bool → (ℕ → Visit) → (ℕ → Visit) → Run → Status × Run
inventory device_id between factory user r =
    let first = bank_from rigs_per_bank device_id 1 0 factory r in
    let second = bank_from rigs_per_bank device_id 0 0 user first.1 in both between first second

unfoldable pub exit_code : Bool → Status × Run → ℕ
exit_code stop (failed, r) = 1
exit_code stop (_, r) = if not stop && r.completed == 208 then 0 else if stop then 130 else 1
