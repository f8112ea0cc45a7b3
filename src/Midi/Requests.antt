-- ===== src/Midi/Requests.antt =====
-- The requests of Tools/errig_read.c (`send_identity_request`, `send_get_request`) and
-- Tools/er_inventory.c (`send_rig_change`), and the tests of the answers. A sender's result is the
-- transfer it writes.
use r_compatible_driver_v.Base.{
  ℕ, ◌≤◌, ◌≡◌, refl, arith, Bytes, [], ◌∷◌, length, get_or, leb, ◌==◌, if◌then◌else◌, Bool, true,
  false, not, ◌&&◌, ◌||◌, ◌-◌,
}
use r_compatible_driver_v.Midi.{cin_length}
use r_compatible_driver_v.Midi.Bridge.{deliver, read_events}
use r_compatible_driver_v.Midi.Bridge.RoundTrip.{joined}

unfoldable pub identity_request : Bytes
identity_request = 0x04 ∷ 0xf0 ∷ 0x7e ∷ 0x7f ∷ 0x07 ∷ 0x06 ∷ 0x01 ∷ 0xf7 ∷ []

unfoldable pub get_request : ℕ → ℕ → Bytes
get_request device_id object =
    0x04 ∷ 0xf0 ∷ 0x13 ∷ 0x0b ∷ 0x04 ∷ device_id ∷ 0x01 ∷ object ∷ 0x05 ∷ 0xf7 ∷ 0x00 ∷ 0x00 ∷ []

unfoldable pub rig_change : ℕ → ℕ → ℕ → Bytes
rig_change device_id bank rig =
    0x04 ∷ 0xf0 ∷ 0x13 ∷ 0x0b ∷ 0x04 ∷ device_id ∷ 0x00 ∷ 0x02 ∷ 0x07 ∷ bank ∷ rig ∷ 0xf7 ∷ []

-- `response[i]`; the tests read no index from the length on.
abbrev at : Bytes → ℕ → ℕ
at response i = get_or response i 0

pub is_identity_response : Bytes → Bool
is_identity_response r =
    leb 9 (length r)
    && at r 0 == 0xf0
    && at r 1 == 0x7e
    && at r 3 == 0x06
    && at r 4 == 0x02
    && at r 5 == 0x13
    && at r 6 == 0x0b

unfoldable pub is_object_response : Bytes → ℕ → ℕ → Bool
is_object_response r device_id object =
    if not (
      leb 8 (length r)
      && at r 0 == 0xf0
      && at r 1 == 0x13
      && at r 2 == 0x0b
      && at r 3 == device_id
      && at r 5 == object
      && at r (length r - 1) == 0xf7)
    then false
    else if object == 0x01
    then at r 4 == 0x12
    else at r 4 == 0x02 || at r 4 == 0x12

-- Each request is one SysEx message of cable 0, for any device id, object, bank and rig.
pub requests_lem :
    (device_id object bank rig : ℕ)
    → (joined (read_events identity_request) ≡ 0xf0 ∷ 0x7e ∷ 0x7f ∷ 0x06 ∷ 0x01 ∷ 0xf7 ∷ [])
      × (joined (read_events (get_request device_id object))
          ≡ 0xf0 ∷ 0x13 ∷ 0x0b ∷ device_id ∷ 0x01 ∷ object ∷ 0xf7 ∷ [])
      × (joined (read_events (rig_change device_id bank rig))
          ≡ 0xf0 ∷ 0x13 ∷ 0x0b ∷ device_id ∷ 0x00 ∷ 0x02 ∷ bank ∷ rig ∷ 0xf7 ∷ [])
unfolding read_events deliver cin_length identity_request get_request rig_change
requests_lem device_id object bank rig = (refl, refl, refl)

-- An accepted answer has at least eight bytes, starts with 0xF0, comes from the device asked, has the
-- object asked for, and ends with 0xF7.
pub is_object_response_lem :
    (r : Bytes) (device_id object : ℕ)
    → is_object_response r device_id object ≡ true
    → (8 ≤ length r)
      × (get_or r 0 0 ≡ 0xf0)
      × (get_or r 3 0 ≡ device_id)
      × (get_or r 5 0 ≡ object)
      × (get_or r (length r - 1) 0 ≡ 0xf7)
unfolding is_object_response
is_object_response_lem r device_id object h = grind arith
