-- ===== src/Engine/Rates/Drains.antt =====
-- A rate change is applied when the last request in flight completes, and not before.
use mathlib.Core.Path.{ap₂}
use r_compatible_driver_v.Base.{
  ℕ, zero, suc, ◌+◌, ◌-◌, ◌≡◌, refl, sym, ap, ◌∙◌, arith, List, [], ◌∷◌, set, ◌==◌, ==_false,
  if◌then◌else◌, Bool, true, false,
}
use r_compatible_driver_v.Engine.Rates.{
  n_req, Rates, arm_in, arm_out, Answers, arm_from, reconfigure, drained, in_done, out_done,
  rate_follow, Event, completed_in, completed_out, timer, step, run,
}

-- Arming changes neither the rate nor the state of the change.
abbrev SameRate : Rates → Rates → Type 0
SameRate s t = (t.draining ≡ s.draining) × (t.hw_rate ≡ s.hw_rate) × (t.requests ≡ s.requests)

arm_pair-SameRate :
    (read_ok write_ok : Bool) (i : ℕ) (s : Rates)
    → SameRate s (arm_in read_ok i (arm_out write_ok i s))
unfolding arm_in arm_out
arm_pair-SameRate true true i s = (refl, refl, refl)
arm_pair-SameRate true false i s = (refl, refl, refl)
arm_pair-SameRate false true i s = (refl, refl, refl)
arm_pair-SameRate false false i s = (refl, refl, refl)

arm_from-SameRate :
    (left i : ℕ) (answers : Answers) (s : Rates) → SameRate s (arm_from left i answers s)
unfolding arm_from
arm_from-SameRate zero i answers s = (refl, refl, refl)
arm_from-SameRate (suc left) i answers s =
    let here = arm_pair-SameRate (answers.read_ok i) (answers.write_ok i) i s in
    let rest =
      arm_from-SameRate left (i + 1) answers
        (arm_in (answers.read_ok i) i (arm_out (answers.write_ok i) i s)) in
    (rest.0 ∙ here.0, rest.1 ∙ here.1, rest.2 ∙ here.2)

-- What a drain keeps until its end
pub record IsDraining (left pending rate : ℕ) (requests : List ℕ) (s : Rates) : Type 0 where
  pub on : s.draining ≡ true
  pub left_over : s.in_flight ≡ left
  pub target : s.pending_rate ≡ pending
  pub current : s.hw_rate ≡ rate
  pub asked : s.requests ≡ requests

pub record IsChanged (rate : ℕ) (requests : List ℕ) (s : Rates) : Type 0 where
  pub off : s.draining ≡ false
  pub current : s.hw_rate ≡ rate
  pub asked : s.requests ≡ rate ∷ requests

abbrev pub completions : List Event → ℕ
completions [] = 0
completions (completed_in i success answers ∷ es) = suc (completions es)
completions (completed_out i answers ∷ es) = suc (completions es)
completions (timer want ∷ es) = completions es

abbrev pub IsCompletion : Event → Type 0
IsCompletion (timer want) = ⊥
IsCompletion _ = Unit

if-true : (P : Rates → Type 0) (c : Bool) (s t : Rates) → c ≡ true → P s → P (if c then s else t)
if-true P true s t e p = p
if-true P false s t e p = cc

if-false : (P : Rates → Type 0) (c : Bool) (s t : Rates) → c ≡ false → P t → P (if c then s else t)
if-false P true s t e p = cc
if-false P false s t e p = p

drained-more :
    (answers : Answers) (s : Rates) (left pending rate : ℕ) (requests : List ℕ)
    → IsDraining (suc left) pending rate requests s
    → IsDraining (suc left) pending rate requests (drained answers s)
unfolding drained
drained-more answers s left pending rate requests d =
    if-false (IsDraining (suc left) pending rate requests) (s.in_flight == 0) _ _
      (==_false s.in_flight 0 (omega (arith, d.left_over))) d

drained-last :
    (answers : Answers) (s : Rates) (pending rate : ℕ) (requests : List ℕ)
    → IsDraining 0 pending rate requests s
    → IsChanged pending requests (drained answers s)
unfolding drained reconfigure
drained-last answers s pending rate requests d =
    let start = record s {
      hw_rate = s.pending_rate;
      draining = false;
      requests = s.pending_rate ∷ s.requests;
    } in
    let same = arm_from-SameRate n_req 0 answers start in
    if-true (IsChanged pending requests) (s.in_flight == 0) _ _ (ap (λ n. n == 0) d.left_over)
      (record {
        off = same.0;
        current = same.1 ∙ d.target;
        asked = same.2 ∙ ap₂ ◌∷◌ d.target d.asked;
      })

-- The decrement of a callback
decremented :
    (s t : Rates) {left pending rate : ℕ} {requests : List ℕ}
    → IsDraining (suc left) pending rate requests s
    → SameRate s t
    → t.in_flight ≡ s.in_flight - 1
    → t.pending_rate ≡ s.pending_rate
    → IsDraining left pending rate requests t
decremented s t d same one p = record {
  on = same.0 ∙ d.on;
  left_over = omega (arith, d.left_over, one);
  target = p ∙ d.target;
  current = same.1 ∙ d.current;
  asked = same.2 ∙ d.asked;
}

step-more :
    (e : Event) (s : Rates) (left pending rate : ℕ) (requests : List ℕ)
    → IsCompletion e
    → IsDraining (suc (suc left)) pending rate requests s
    → IsDraining (suc left) pending rate requests (step e s)
unfolding step in_done out_done
step-more (completed_in i success answers) s left pending rate requests c d =
    if-true (IsDraining (suc left) pending rate requests) s.draining _ _ d.on (
      drained-more answers (record s { ins = set s.ins i false; in_flight = s.in_flight - 1 }) left
        pending rate requests
        (decremented s (record s { ins = set s.ins i false; in_flight = s.in_flight - 1 }) d
          (refl, refl, refl) refl refl))
step-more (completed_out i answers) s left pending rate requests c d =
    if-true (IsDraining (suc left) pending rate requests) s.draining _ _ d.on (
      drained-more answers (record s { outs = set s.outs i false; in_flight = s.in_flight - 1 })
        left pending rate requests
        (decremented s (record s { outs = set s.outs i false; in_flight = s.in_flight - 1 }) d
          (refl, refl, refl) refl refl))
step-more (timer want) s left pending rate requests c d = absurd c

step-last :
    (e : Event) (s : Rates) (pending rate : ℕ) (requests : List ℕ)
    → IsCompletion e
    → IsDraining 1 pending rate requests s
    → IsChanged pending requests (step e s)
unfolding step in_done out_done
step-last (completed_in i success answers) s pending rate requests c d =
    if-true (IsChanged pending requests) s.draining _ _ d.on (
      drained-last answers (record s { ins = set s.ins i false; in_flight = s.in_flight - 1 })
        pending rate requests
        (decremented s (record s { ins = set s.ins i false; in_flight = s.in_flight - 1 }) d
          (refl, refl, refl) refl refl))
step-last (completed_out i answers) s pending rate requests c d =
    if-true (IsChanged pending requests) s.draining _ _ d.on (
      drained-last answers (record s { outs = set s.outs i false; in_flight = s.in_flight - 1 })
        pending rate requests
        (decremented s (record s { outs = set s.outs i false; in_flight = s.in_flight - 1 }) d
          (refl, refl, refl) refl refl))
step-last (timer want) s pending rate requests c d = absurd c

timer-same :
    (want : ℕ) (s : Rates) (left pending rate : ℕ) (requests : List ℕ)
    → IsDraining left pending rate requests s
    → IsDraining left pending rate requests (step (timer want) s)
unfolding step rate_follow
timer-same want s left pending rate requests d =
    if-true (IsDraining left pending rate requests) s.draining _ _ d.on d

recount :
    {n m pending rate : ℕ} {requests : List ℕ} {s : Rates}
    → n ≡ m
    → IsDraining n pending rate requests s
    → IsDraining m pending rate requests s
recount e d = record {
  on = d.on;
  left_over = d.left_over ∙ e;
  target = d.target;
  current = d.current;
  asked = d.asked;
}

run-more :
    (es : List Event) (s : Rates) (left pending rate : ℕ) (requests : List ℕ)
    → IsDraining (completions es + suc left) pending rate requests s
    → IsDraining (suc left) pending rate requests (run es s)
run-more [] s left pending rate requests d = recount (omega arith) d
run-more (timer want ∷ es) s left pending rate requests d =
    run-more es (step (timer want) s) left pending rate requests
      (timer-same want s _ pending rate requests d)
run-more (completed_in i success answers ∷ es) s left pending rate requests d =
    let e = completed_in i success answers in
    run-more es (step e s) left pending rate requests (
      recount (omega arith)
        (step-more e s (completions es + left) pending rate requests tt (recount (omega arith) d)))
run-more (completed_out i answers ∷ es) s left pending rate requests d =
    let e = completed_out i answers in
    run-more es (step e s) left pending rate requests (
      recount (omega arith)
        (step-more e s (completions es + left) pending rate requests tt (recount (omega arith) d)))

-- A draining engine with some requests in flight: whatever the order of the completions, with
-- timers between them, it goes on draining at the old rate until one request is left, and when that
-- one completes, the drain is over, the pending rate has been sent to the device, once, and is taken
-- for the hardware's whatever the device answered.
pub drain_ends :
    (s : Rates) (es : List Event) (last : Event)
    → s.draining ≡ true
    → completions es + 1 ≡ s.in_flight
    → IsCompletion last
    → IsDraining 1 s.pending_rate s.hw_rate s.requests (run es s)
      × IsChanged s.pending_rate s.requests (step last (run es s))
drain_ends s es last on all c =
    let before =
      run-more es s 0 s.pending_rate s.hw_rate s.requests
        (record { on = on; left_over = sym all; target = refl; current = refl; asked = refl }) in
    (before, step-last last (run es s) s.pending_rate s.hw_rate s.requests c before)
