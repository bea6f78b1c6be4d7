-- ===== src/Manager/State/Tests.antt =====
-- Runs of the state machine, and its theorems at concrete histories.
use kuka_iiqka_ros.Prelude.{true, false, List, [], ◌∷◌, ◌≡◌, ◌↔◌, refl, arith}
use kuka_iiqka_ros.Manager.State.{
  SystemState, ready, fault, servoing, degraded, HealthInputs, Core, initial, update, request_start,
  request_calibration, request_reset, eki_link_layered, ready_conditions, full_conditions,
}
use kuka_iiqka_ros.Manager.State.Events.{
  Event, tick, start, stop, calibrate, finished, reset, apply, run,
}
use kuka_iiqka_ros.Manager.State.Latch.{MayServo, update-servoing_iff}
use kuka_iiqka_ros.Manager.State.Rounds.{Inv, round, rounds, rounds-Inv, reset_needs_restart}
use kuka_iiqka_ros.Manager.State.Race.{race_restarts_servo}

abbrev healthy : HealthInputs
healthy = record {
  eki_link = true;
  eki_tcp_connected = true;
  eki_heartbeat_fresh = true;
  eki_rsi_active = true;
  eki_program_ready = true;
  eki_fault = false;
  rsi_topic_fresh = true;
  rsi_connected = true;
  rsi_fault = false;
  sri_streaming = true;
  tool_synced = true;
  controllers_loaded = true;
}

-- The RSI stream has stopped.
abbrev lost : HealthInputs
lost = record healthy { rsi_topic_fresh = false; rsi_connected = false }

-- The controller reports a fault.
abbrev faulted : HealthInputs
faulted = record healthy { eki_fault = true }

abbrev standing : SystemState → Core
standing s = record { state = s; servo_requested = false; is_calibrating = false }

abbrev serving : Core
serving = record { state = ready; servo_requested = true; is_calibrating = false }

a_day :
    (run initial (tick healthy ∷ []) ≡ standing ready)
    × ((run initial (tick healthy ∷ start healthy ∷ tick healthy ∷ [])).state ≡ servoing)
    × ((run initial (tick healthy ∷ start healthy ∷ tick lost ∷ [])).state ≡ degraded)
    × ((run initial (tick healthy ∷ calibrate healthy ∷ tick lost ∷ [])).state ≡ fault)
    × (run initial (tick faulted ∷ tick healthy ∷ reset ∷ tick healthy ∷ []) ≡ standing ready)
    × (run initial (tick healthy ∷ calibrate healthy ∷ tick healthy ∷ finished ∷ tick healthy ∷ [])
        ≡ standing ready)
unfolding run apply
a_day = (refl, refl, refl, refl, refl, refl)

update-servoing_iff_example : ((update serving healthy).state ≡ servoing) ↔ MayServo serving healthy
update-servoing_iff_example = update-servoing_iff serving healthy

abbrev history : List (HealthInputs × Event)
history = (healthy, calibrate healthy) ∷ (lost, stop) ∷ []

rounds-Inv_example : Inv (rounds initial history)
rounds-Inv_example = rounds-Inv history

history_fails : (rounds initial history).state ≡ fault
unfolding rounds round apply
history_fails = refl

reset_needs_restart_example :
    let (c', v) = request_reset (rounds initial history) in
    (v.accepted ≡ true)
    × (c'.servo_requested ≡ false)
    × (((update c' healthy).state ≡ servoing) → ⊥)
    × (((update c' healthy).state ≡ degraded) → ⊥)
reset_needs_restart_example = reset_needs_restart history healthy history_fails

race_restarts_servo_example :
    let c2 = (request_calibration (request_start (standing ready) healthy).0 healthy).0 in
    let failed = update c2 lost in
    (failed.state ≡ fault) × ((update (request_reset failed).0 healthy).state ≡ servoing)
unfolding full_conditions ready_conditions eki_link_layered
race_restarts_servo_example =
    race_restarts_servo (standing ready) healthy lost refl (ground arith) refl refl refl
