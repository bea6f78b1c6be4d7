-- ===== src/Manager/State/Events.antt =====
-- Sequences of calls on a `SystemStateCore`, one constructor for each method that changes it.
use kuka_iiqka_ros.Prelude.{List, [], ◌∷◌}
use kuka_iiqka_ros.Manager.State.{
  HealthInputs, Core, eki_link_layered, ready_conditions, full_conditions, update, request_start,
  request_stop, request_calibration, calibration_finished, request_reset,
}

pub data Event : Type 0 where
  tick : HealthInputs → Event
  start : HealthInputs → Event
  stop : Event
  calibrate : HealthInputs → Event
  finished : Event
  reset : Event

unfoldable pub apply : Core → Event → Core
unfolding update request_start request_stop request_calibration calibration_finished request_reset
    full_conditions ready_conditions eki_link_layered
apply c (tick i) = update c i
apply c (start i) = (request_start c i).0
apply c stop = (request_stop c).0
apply c (calibrate i) = (request_calibration c i).0
apply c finished = calibration_finished c
apply c reset = (request_reset c).0

unfoldable pub run : Core → List Event → Core
run c [] = c
run c (e ∷ es) = run (apply c e) es

-- No event of the list is a reset.
abbrev pub NoReset : List Event → Type 0
NoReset [] = Unit {0}
NoReset (reset ∷ es) = ⊥
NoReset (e ∷ es) = NoReset es
