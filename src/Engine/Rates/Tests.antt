-- ===== src/Engine/Rates/Tests.antt =====
-- Concrete runs of the theorems on rate changes.
use r_compatible_driver_v.Base.{refl, List, [], ◌∷◌, true, false, replicate, set}
use r_compatible_driver_v.Engine.Rates.{
  n_req, Rates, Answers, arm_from, arm_in, arm_out, in_done, rate_follow, step, Event, completed_in,
  completed_out, timer, run, ArePossible,
}
use r_compatible_driver_v.Engine.Rates.Flight.{Sound, idle, in_flight_counts}
use r_compatible_driver_v.Engine.Rates.Drains.{IsDraining, IsChanged, drain_ends}

abbrev all_ok : Answers
all_ok = record { write_ok = λ i. true; read_ok = λ i. true }

abbrev events : List Event
events = completed_in 0 true all_ok ∷ timer 96000 ∷ completed_out 3 all_ok ∷ []

events-possible : ArePossible events (arm_from n_req 0 all_ok (idle 48000))
unfolding arm_from arm_in arm_out in_done rate_follow step
events-possible = (refl, (tt, (refl, tt)))

in_flight_counts_example : Sound (run events (arm_from n_req 0 all_ok (idle 48000)))
in_flight_counts_example = in_flight_counts 48000 all_ok events events-possible

-- A drain to 96 kHz with one request left each way
abbrev two_left : Rates
two_left = record {
  in_flight = 2;
  draining = true;
  pending_rate = 96000;
  hw_rate = 48000;
  stop = false;
  ins = set (replicate n_req false) 4 true;
  outs = set (replicate n_req false) 5 true;
  requests = 48000 ∷ [];
}

drain_ends_example :
    IsDraining 1 96000 48000 (48000 ∷ []) (run (timer 44100 ∷ completed_out 5 all_ok ∷ []) two_left)
    × IsChanged 96000 (48000 ∷ []) (
        step
          (completed_in 4 true all_ok)
          (run (timer 44100 ∷ completed_out 5 all_ok ∷ []) two_left))
drain_ends_example =
    drain_ends two_left (timer 44100 ∷ completed_out 5 all_ok ∷ []) (completed_in 4 true all_ok)
      refl refl tt
