-- ===== src/Manager/State/Rounds.antt =====
-- The worker thread of the manager updates the core ten times a second, and between two updates an
-- operator gives at most one command. `rounds` runs such a history.
use kuka_iiqka_ros.Prelude.{true, false, List, [], ◌∷◌, ◌≡◌, ◌⊎◌, arith}
use kuka_iiqka_ros.Manager.State.{
  fault, servoing, calibrating, degraded, HealthInputs, Core, initial, full_conditions, update,
  request_start, request_stop, request_calibration, calibration_finished, request_reset,
}
use kuka_iiqka_ros.Manager.State.Events.{
  Event, tick, start, stop, calibrate, finished, reset, apply,
}

-- One update, then one call.
unfoldable pub round : Core → HealthInputs × Event → Core
round c (i, e) = apply (update c i) e

unfoldable pub rounds : Core → List (HealthInputs × Event) → Core
rounds c [] = c
rounds c (r ∷ rs) = rounds (round c r) rs

-- No two commands stand at once, and none stands in FAULT.
pub record Inv (c : Core) : Type 0 where
  pub exclusive : (c.servo_requested ≡ false) ⊎ (c.is_calibrating ≡ false)
  pub fault_idle : c.state ≡ fault → (c.servo_requested ≡ false) × (c.is_calibrating ≡ false)

-- What holds just after an update.
pub record Settled (c : Core) : Type 0 where
  pub inv : Inv c
  pub servo_state : c.servo_requested ≡ true → (c.state ≡ servoing) ⊎ (c.state ≡ degraded)
  pub calibration_state : c.is_calibrating ≡ true → c.state ≡ calibrating

pub update-Settled : (c : Core) (i : HealthInputs) → Inv c → Settled (update c i)
unfolding update
update-Settled c i v = ground arith

pub apply-Inv : (c : Core) (e : Event) → Settled c → Inv (apply c e)
unfolding apply request_start request_stop request_calibration calibration_finished request_reset
apply-Inv c (tick i) s = (update-Settled c i s.inv).inv
apply-Inv c (start i) s = ground arith
apply-Inv c stop s = ground arith
apply-Inv c (calibrate i) s = ground arith
apply-Inv c finished s = ground arith
apply-Inv c reset s = ground arith

rounds_from-Inv : (c : Core) (rs : List (HealthInputs × Event)) → Inv c → Inv (rounds c rs)
unfolding rounds round
rounds_from-Inv c [] v = v
rounds_from-Inv c ((i, e) ∷ rs) v =
    rounds_from-Inv (round c (i, e)) rs (apply-Inv (update c i) e (update-Settled c i v))

initial-Inv : Inv initial
initial-Inv = ground arith

-- From the start of the program, whatever the health and the commands are, as long as an update
-- runs before each command: a servo request and a calibration never stand together, and in FAULT
-- neither stands.
pub rounds-Inv : (rs : List (HealthInputs × Event)) → Inv (rounds initial rs)
rounds-Inv rs = rounds_from-Inv initial rs initial-Inv

-- After such a history that ended in FAULT, a reset is accepted, and the updates that follow it
-- come to neither SERVOING nor DEGRADED: a new start command is needed.
pub reset_needs_restart :
    (rs : List (HealthInputs × Event)) (i : HealthInputs)
    → let c = rounds initial rs in
      c.state ≡ fault
      → let (c', v) = request_reset c in
        (v.accepted ≡ true)
        × (c'.servo_requested ≡ false)
        × (((update c' i).state ≡ servoing) → ⊥)
        × (((update c' i).state ≡ degraded) → ⊥)
unfolding request_reset update full_conditions
reset_needs_restart rs i h = ground (arith, rounds-Inv rs)
