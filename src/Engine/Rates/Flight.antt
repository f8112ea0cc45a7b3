-- ===== src/Engine/Rates/Flight.antt =====
-- The counter of requests in flight counts the armed ones, whatever completes in whatever order.
use r_compatible_driver_v.Base.{
  ℕ, zero, suc, ◌+◌, ◌-◌, ◌≤◌, ◌<◌, ◌≡◌, refl, ap, ◌∙◌, arith, List, [], ◌∷◌, set, length,
  length-set, replicate, get_or, ◌==◌, if◌then◌else◌, Bool, Bool-cases, true, false, not, ◌&&◌, inl,
  inr,
}
use r_compatible_driver_v.Engine.Rates.{
  n_req, Rates, arm_in, arm_out, Answers, arm_from, reconfigure, drained, in_done, out_done,
  rate_follow, is_rate, Event, completed_in, completed_out, timer, step, IsPossible, run,
  ArePossible,
}

abbrev pub armed : List Bool → ℕ
armed [] = 0
armed (true ∷ l) = suc (armed l)
armed (false ∷ l) = armed l

pub record Sound (s : Rates) : Type 0 where
  pub ins_size : length s.ins ≡ n_req
  pub outs_size : length s.outs ≡ n_req
  pub counted : s.in_flight ≡ armed s.ins + armed s.outs

armed-set-true :
    (l : List Bool) (i : ℕ)
    → i < length l
    → get_or l i false ≡ false
    → armed (set l i true) ≡ suc (armed l)
armed-set-true [] i lt h = absurd (omega arith)
armed-set-true (false ∷ l) zero lt h = refl
armed-set-true (true ∷ l) zero lt h = cc
armed-set-true (true ∷ l) (suc i) lt h = ap suc (armed-set-true l i (omega arith) h)
armed-set-true (false ∷ l) (suc i) lt h = armed-set-true l i (omega arith) h

armed-set-false :
    (l : List Bool) (i : ℕ) → get_or l i false ≡ true → suc (armed (set l i false)) ≡ armed l
armed-set-false [] i h = cc
armed-set-false (true ∷ l) zero h = refl
armed-set-false (false ∷ l) zero h = cc
armed-set-false (true ∷ l) (suc i) h = ap suc (armed-set-false l i h)
armed-set-false (false ∷ l) (suc i) h = armed-set-false l i h

within : (l : List Bool) (i : ℕ) → get_or l i false ≡ true → i < length l
within [] i h = cc
within (b ∷ l) zero h = omega arith
within (b ∷ l) (suc i) h = omega (arith, within l i h)

unarmed : (l : List Bool) (i : ℕ) → get_or (set l i false) i false ≡ false
unarmed [] i = refl
unarmed (b ∷ l) zero = refl
unarmed (b ∷ l) (suc i) = unarmed l i

get_or-set :
    (l : List Bool) (i j : ℕ) (b : Bool) → i < j → get_or (set l i b) j false ≡ get_or l j false
get_or-set [] i j b lt = refl
get_or-set (x ∷ l) zero zero b lt = absurd (omega arith)
get_or-set (x ∷ l) zero (suc j) b lt = refl
get_or-set (x ∷ l) (suc i) zero b lt = absurd (omega arith)
get_or-set (x ∷ l) (suc i) (suc j) b lt = get_or-set l i j b (omega arith)

none_armed : (l : List Bool) (j : ℕ) → armed l ≡ 0 → get_or l j false ≡ false
none_armed [] j h = refl
none_armed (true ∷ l) j h = absurd (omega arith)
none_armed (false ∷ l) zero h = refl
none_armed (false ∷ l) (suc j) h = none_armed l j h

arm_in-Sound :
    (ok : Bool) (i : ℕ) (s : Rates)
    → Sound s
    → i < n_req
    → get_or s.ins i false ≡ false
    → Sound (arm_in ok i s)
unfolding arm_in
arm_in-Sound true i s v lt h = record {
  ins_size = omega (arith, length-set s.ins i true, v.ins_size);
  outs_size = v.outs_size;
  counted = omega (arith, armed-set-true s.ins i (omega (arith, v.ins_size)) h, v.counted);
}
arm_in-Sound false i s v lt h = record {
  ins_size = v.ins_size;
  outs_size = v.outs_size;
  counted = v.counted;
}

arm_out-Sound :
    (ok : Bool) (i : ℕ) (s : Rates)
    → Sound s
    → i < n_req
    → get_or s.outs i false ≡ false
    → Sound (arm_out ok i s)
unfolding arm_out
arm_out-Sound true i s v lt h = record {
  ins_size = v.ins_size;
  outs_size = omega (arith, length-set s.outs i true, v.outs_size);
  counted = omega (arith, armed-set-true s.outs i (omega (arith, v.outs_size)) h, v.counted);
}
arm_out-Sound false i s v lt h = v

-- No request is armed from `i` on.
abbrev IsIdleFrom : ℕ → Rates → Type 0
IsIdleFrom i s = (j : ℕ) → i ≤ j → (get_or s.ins j false ≡ false) × (get_or s.outs j false ≡ false)

arm_pair-IsIdleFrom :
    (read_ok write_ok : Bool) (i : ℕ) (s : Rates)
    → IsIdleFrom i s
    → IsIdleFrom (i + 1) (arm_in read_ok i (arm_out write_ok i s))
unfolding arm_in arm_out
arm_pair-IsIdleFrom true true i s idle j le = (
  get_or-set s.ins i j true (omega arith) ∙ (idle j (omega arith)).0,
  get_or-set s.outs i j true (omega arith) ∙ (idle j (omega arith)).1,
)
arm_pair-IsIdleFrom true false i s idle j le =
    (get_or-set s.ins i j true (omega arith) ∙ (idle j (omega arith)).0, (idle j (omega arith)).1)
arm_pair-IsIdleFrom false true i s idle j le =
    ((idle j (omega arith)).0, get_or-set s.outs i j true (omega arith) ∙ (idle j (omega arith)).1)
arm_pair-IsIdleFrom false false i s idle j le = idle j (omega arith)

ins_of-arm_out : (ok : Bool) (i : ℕ) (s : Rates) → (arm_out ok i s).ins ≡ s.ins
unfolding arm_out
ins_of-arm_out true i s = refl
ins_of-arm_out false i s = refl

pub arm_from-Sound :
    (left i : ℕ) (answers : Answers) (s : Rates)
    → Sound s
    → i + left ≤ n_req
    → IsIdleFrom i s
    → Sound (arm_from left i answers s)
unfolding arm_from
arm_from-Sound zero i answers s v le idle = v
arm_from-Sound (suc left) i answers s v le idle =
    arm_from-Sound left (i + 1) answers _
      (arm_in-Sound (answers.read_ok i) i (arm_out (answers.write_ok i) i s)
        (arm_out-Sound (answers.write_ok i) i s v (omega arith) (idle i (omega arith)).1)
        (omega arith)
        (ap (λ l. get_or l i false) (ins_of-arm_out (answers.write_ok i) i s)
          ∙ (idle i (omega arith)).0))
      (omega arith) (arm_pair-IsIdleFrom (answers.read_ok i) (answers.write_ok i) i s idle)

drained-Sound : (answers : Answers) (s : Rates) → Sound s → Sound (drained answers s)
unfolding drained reconfigure
drained-Sound answers s v = elim (Bool-cases (s.in_flight == 0)) [
  | inl e ↦ rw e (
      arm_from-Sound n_req 0 answers _
        (record { ins_size = v.ins_size; outs_size = v.outs_size; counted = v.counted })
        (omega arith)
        (λ j le. (
          none_armed s.ins j (ground (arith, v.counted)),
          none_armed s.outs j (ground (arith, v.counted)),
        )))
  | inr e ↦ rw e v
]

-- Behind the decrement
in_completed : ℕ → Rates → Rates
in_completed i s = record s { ins = set s.ins i false; in_flight = s.in_flight - 1 }

out_completed : ℕ → Rates → Rates
out_completed i s = record s { outs = set s.outs i false; in_flight = s.in_flight - 1 }

in_completed-Sound :
    (i : ℕ) (s : Rates) → Sound s → get_or s.ins i false ≡ true → Sound (in_completed i s)
unfolding in_completed
in_completed-Sound i s v h = record {
  ins_size = omega (arith, length-set s.ins i false, v.ins_size);
  outs_size = v.outs_size;
  counted = omega (arith, armed-set-false s.ins i h, v.counted);
}

out_completed-Sound :
    (i : ℕ) (s : Rates) → Sound s → get_or s.outs i false ≡ true → Sound (out_completed i s)
unfolding out_completed
out_completed-Sound i s v h = record {
  ins_size = v.ins_size;
  outs_size = omega (arith, length-set s.outs i false, v.outs_size);
  counted = omega (arith, armed-set-false s.outs i h, v.counted);
}

stopped-Sound : (s : Rates) → Sound s → Sound (record s { stop = true })
stopped-Sound s v = record { ins_size = v.ins_size; outs_size = v.outs_size; counted = v.counted }

if-Sound : (c : Bool) {s t : Rates} → Sound s → Sound t → Sound (if c then s else t)
if-Sound true v w = v
if-Sound false v w = w

in_done-Sound :
    (i : ℕ) (success : Bool) (answers : Answers) (s : Rates)
    → Sound s
    → get_or s.ins i false ≡ true
    → Sound (in_done i success answers s)
unfolding in_done in_completed
in_done-Sound i success answers s v h =
    let w = in_completed-Sound i s v h in
    if-Sound s.draining (drained-Sound answers (in_completed i s) w) (
      if-Sound (not success) (stopped-Sound (in_completed i s) w) (
        if-Sound s.stop w (
          arm_in-Sound (answers.read_ok i) i (in_completed i s) w
            (omega (arith, within s.ins i h, v.ins_size)) (unarmed s.ins i))))

out_done-Sound :
    (i : ℕ) (answers : Answers) (s : Rates)
    → Sound s
    → get_or s.outs i false ≡ true
    → Sound (out_done i answers s)
unfolding out_done out_completed
out_done-Sound i answers s v h =
    let w = out_completed-Sound i s v h in
    if-Sound s.draining (drained-Sound answers (out_completed i s) w) (
      if-Sound s.stop w (
        arm_out-Sound (answers.write_ok i) i (out_completed i s) w
          (omega (arith, within s.outs i h, v.outs_size)) (unarmed s.outs i)))

rate_follow-Sound : (want : ℕ) (s : Rates) → Sound s → Sound (rate_follow want s)
unfolding rate_follow
rate_follow-Sound want s v = if-Sound s.draining v (
    if-Sound (not (want == s.hw_rate) && is_rate want)
      (record { ins_size = v.ins_size; outs_size = v.outs_size; counted = v.counted }) v)

step-Sound : (e : Event) (s : Rates) → Sound s → IsPossible e s → Sound (step e s)
unfolding step
step-Sound (completed_in i success answers) s v h = in_done-Sound i success answers s v h
step-Sound (completed_out i answers) s v h = out_done-Sound i answers s v h
step-Sound (timer want) s v h = rate_follow-Sound want s v

run-Sound : (es : List Event) (s : Rates) → Sound s → ArePossible es s → Sound (run es s)
run-Sound [] s v h = v
run-Sound (e ∷ es) s v h = run-Sound es (step e s) (step-Sound e s v h.0) h.1

-- Where main starts: nothing armed, then the same loop as in `reconfigure`.
abbrev pub idle : ℕ → Rates
idle rate = record {
  in_flight = 0;
  draining = false;
  pending_rate = 0;
  hw_rate = rate;
  stop = false;
  ins = replicate n_req false;
  outs = replicate n_req false;
  requests = rate ∷ [];
}

idle-Sound : (rate : ℕ) → Sound (idle rate)
idle-Sound rate = record { ins_size = refl; outs_size = refl; counted = refl }

-- From the start on, whatever completes in whatever order and whatever the USB calls answer: there
-- are 32 requests each way, and the counter of requests in flight is the number of armed ones.
pub in_flight_counts :
    (rate : ℕ) (answers : Answers) (es : List Event)
    → ArePossible es (arm_from n_req 0 answers (idle rate))
    → Sound (run es (arm_from n_req 0 answers (idle rate)))
in_flight_counts rate answers es h =
    run-Sound es (arm_from n_req 0 answers (idle rate))
      (arm_from-Sound n_req 0 answers (idle rate) (idle-Sound rate) (omega arith) (λ j le.
        (none_armed (replicate n_req false) j refl, none_armed (replicate n_req false) j refl)))
      h
