-- ===== src/Engine/Rates.antt =====
-- The rate changes of Tools/erengine.c: `inDone`, `outDone`, `armIn`, `armOut`, `reconfigure` and
-- `rateFollow` on the requests in flight. What the USB calls answer is part of the event.
pub mod Flight
pub mod Drains
pub mod Tests
use r_compatible_driver_v.Base.{
  ℕ, zero, suc, ◌+◌, ◌-◌, List, [], ◌∷◌, set, ◌==◌, if◌then◌else◌, Bool, true, false, not, ◌&&◌,
  ◌||◌, get_or, ◌≡◌,
}

-- N_REQ
abbrev pub n_req : ℕ
n_req = 32

-- `ins` and `outs` tell which request is armed; `in_flight` is gInFlight, `draining` gRateState. `requests`
-- are the rates that setSampleRate has sent to the device, the latest first; its result is ignored.
pub record Rates : Type 0 where
  pub in_flight : ℕ
  pub draining : Bool
  pub pending_rate : ℕ
  pub hw_rate : ℕ
  pub stop : Bool
  pub ins : List Bool
  pub outs : List Bool
  pub requests : List ℕ

-- A failed read stops the engine, a failed write only leaves its request unarmed.
unfoldable pub arm_in : Bool → ℕ → Rates → Rates
arm_in true i s = record s { ins = set s.ins i true; in_flight = s.in_flight + 1 }
arm_in false i s = record s { stop = true }

unfoldable pub arm_out : Bool → ℕ → Rates → Rates
arm_out true i s = record s { outs = set s.outs i true; in_flight = s.in_flight + 1 }
arm_out false i s = s

-- The answers of the USB calls that arm request `i`
pub record Answers : Type 0 where
  pub write_ok : ℕ → Bool
  pub read_ok : ℕ → Bool

-- The loop that arms all requests, from request `i` on
unfoldable pub arm_from : ℕ → ℕ → Answers → Rates → Rates
arm_from zero i answers s = s
arm_from (suc left) i answers s =
    arm_from left (i + 1) answers (arm_in (answers.read_ok i) i (arm_out (answers.write_ok i) i s))

pub reconfigure : Answers → Rates → Rates
reconfigure answers s = arm_from n_req 0 answers (record s {
  hw_rate = s.pending_rate;
  draining = false;
  requests = s.pending_rate ∷ s.requests;
})

-- Behind the decrement, both callbacks: the last one of a drain reconfigures.
pub drained : Answers → Rates → Rates
drained answers s = if s.in_flight == 0 then reconfigure answers s else s

-- `success` stands for kIOReturnSuccess and kIOReturnUnderrun.
unfoldable pub in_done : ℕ → Bool → Answers → Rates → Rates
in_done i success answers s =
    let done = record s { ins = set s.ins i false; in_flight = s.in_flight - 1 } in
    if s.draining
    then drained answers done
    else if not success
    then record done { stop = true }
    else if s.stop
    then done
    else arm_in (answers.read_ok i) i done

pub out_done : ℕ → Answers → Rates → Rates
out_done i answers s =
    let done = record s { outs = set s.outs i false; in_flight = s.in_flight - 1 } in
    if s.draining
    then drained answers done
    else if s.stop
    then done
    else arm_out (answers.write_ok i) i done

abbrev pub is_rate : ℕ → Bool
is_rate want = want == 44100 || want == 48000 || want == 88200 || want == 96000

unfoldable pub rate_follow : ℕ → Rates → Rates
rate_follow want s =
    if s.draining
    then s
    else if not (want == s.hw_rate) && is_rate want
    then record s { pending_rate = want; draining = true }
    else s

-- What the run loop calls, one after the other: a completion only of an armed request.
pub data Event : Type 0 where
  completed_in : ℕ → Bool → Answers → Event
  completed_out : ℕ → Answers → Event
  timer : ℕ → Event

unfoldable pub step : Event → Rates → Rates
step (completed_in i success answers) s = in_done i success answers s
step (completed_out i answers) s = out_done i answers s
step (timer want) s = rate_follow want s

abbrev pub IsPossible : Event → Rates → Type 0
IsPossible (completed_in i success answers) s = get_or s.ins i false ≡ true
IsPossible (completed_out i answers) s = get_or s.outs i false ≡ true
IsPossible (timer want) s = Unit

abbrev pub run : List Event → Rates → Rates
run [] s = s
run (e ∷ es) s = run es (step e s)

abbrev pub ArePossible : List Event → Rates → Type 0
ArePossible [] s = Unit
ArePossible (e ∷ es) s = IsPossible e s × ArePossible es (step e s)
