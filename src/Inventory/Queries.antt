-- ===== src/Inventory/Queries.antt =====
-- What the queries give back, however the device answers.
use r_compatible_driver_v.Base.{
  ℕ, zero, suc, ◌<◌, ◌≡◌, Bytes, length, ltb, ltb→lt, Bool-cases, true, inl, inr, Option, none,
  some,
}
use r_compatible_driver_v.Midi.Sysex.{Outcome, complete}
use r_compatible_driver_v.Midi.Requests.{get_request, is_object_response}
use r_compatible_driver_v.Inventory.{
  Device, send, next_sysex, heard, wait_from, wait_for_object, query_edit_buffer, long_enough,
}

-- A predicate on an answer, if there is one.
abbrev pub Answered {ℓ} : (Bytes → Type ℓ) → Option Bytes → Type ℓ
Answered P none = Unit
Answered P (some u) = P u

abbrev pub IsAnswer : ℕ → ℕ → Bytes → Type 0
IsAnswer device_id object u = is_object_response u device_id object ≡ true

heard-IsAnswer :
    (o : Outcome) (device_id object : ℕ) (d : Device) (rest : Option Bytes × Device)
    → Answered (IsAnswer device_id object) rest.0
    → Answered (IsAnswer device_id object) (heard o device_id object d rest).0
heard-IsAnswer (complete u) device_id object d rest h =
    elim (Bool-cases (is_object_response u device_id object)) [ inl e ↦ rw e e | inr e ↦ rw e h ]
heard-IsAnswer Outcome.read_failed device_id object d rest h = tt
heard-IsAnswer Outcome.overflow device_id object d rest h = tt
heard-IsAnswer Outcome.no_response device_id object d rest h = tt
heard-IsAnswer (Outcome.incomplete u) device_id object d rest h = tt

wait_from-IsAnswer :
    (attempts device_id object : ℕ) (d : Device)
    → Answered (IsAnswer device_id object) (wait_from attempts device_id object d).0
unfolding wait_from
wait_from-IsAnswer zero device_id object d = tt
wait_from-IsAnswer (suc attempts) device_id object d =
    heard-IsAnswer (next_sysex d).0 device_id object (next_sysex d).1 _
      (wait_from-IsAnswer attempts device_id object (next_sysex d).1)

-- An edit buffer that the query accepts
abbrev pub IsEditBuffer : ℕ → Bytes → Type 0
IsEditBuffer device_id u = IsAnswer device_id 0x01 u × (100 < length u)

long_enough-IsEditBuffer :
    (w : Option Bytes) (device_id : ℕ) (d : Device) (again : Option Bytes × Device)
    → Answered (IsAnswer device_id 0x01) w
    → Answered (IsEditBuffer device_id) again.0
    → Answered (IsEditBuffer device_id) (long_enough w d again).0
long_enough-IsEditBuffer none device_id d again h k = k
long_enough-IsEditBuffer (some u) device_id d again h k = elim (Bool-cases (ltb 100 (length u))) [
  | inl e ↦ rw e (h, ltb→lt 100 (length u) e)
  | inr e ↦ rw e k
]

-- However the device answers, an edit buffer that `query_edit_buffer` returns is a whole patch answer
-- of the device asked, and longer than 100 bytes.
pub query_edit_buffer-IsEditBuffer :
    (attempts device_id : ℕ) (d : Device)
    → Answered (IsEditBuffer device_id) (query_edit_buffer attempts device_id d).0
unfolding query_edit_buffer wait_for_object
query_edit_buffer-IsEditBuffer zero device_id d = tt
query_edit_buffer-IsEditBuffer (suc attempts) device_id d =
    let s = send (get_request device_id 0x01) d in
    elim (Bool-cases s.0) [
      | inl e ↦ rw e (
          long_enough-IsEditBuffer (wait_from 64 device_id 0x01 s.1).0 device_id _ _
            (wait_from-IsAnswer 64 device_id 0x01 s.1)
            (query_edit_buffer-IsEditBuffer attempts device_id (wait_from 64 device_id 0x01 s.1).1))
      | inr e ↦ rw e (query_edit_buffer-IsEditBuffer attempts device_id s.1)
    ]
