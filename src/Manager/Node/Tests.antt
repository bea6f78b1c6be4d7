-- ===== src/Manager/Node/Tests.antt =====
-- The node of the manager on concrete states.
use kuka_iiqka_ros.Prelude.{true, false, List, [], ◌∷◌, some, none, ◌≡◌, refl}
use kuka_iiqka_ros.Prelude.Int.{pos}
use kuka_iiqka_ros.Double.Fixed.{Fixed, num, fixed_double}
use kuka_iiqka_ros.Sfc.Payload.{PayloadFitResult, Sample, no_fit}
use kuka_iiqka_ros.Manager.Sequencer.{
  CalPose, CalibrationConfig, fresh, start, cancel, fail, status,
}
use kuka_iiqka_ros.Manager.Sequencer.Invariant.{here, next, starts, cancels}
use kuka_iiqka_ros.Manager.State.{ready}
use kuka_iiqka_ros.Manager.Runtime.{ManagerConfig, Runtime, mode_calibration, cancel_calibration}
use kuka_iiqka_ros.Manager.Runtime
use kuka_iiqka_ros.Manager.Node.{
  preempted, CalibrateResult, snapshot, ending_of, poll, switch_request, name_list, ControllerState,
  running_of, has_name, loaded_or_loads,
}
use kuka_iiqka_ros.Manager.Node.Endings.{Reports, poll-Reports}

abbrev one : Fixed
one = num (pos 1)

abbrev pose : CalPose Fixed
pose = record { a = one; b = one; c = one }

abbrev calibration : CalibrationConfig Fixed
calibration = record {
  poses = pose ∷ [];
  return_pose = pose;
  settle_time_s = one;
  samples_per_pose = 1;
}

abbrev config : ManagerConfig Fixed
config = record {
  eki_state_timeout_s = one;
  rsi_state_timeout_s = one;
  sri_status_timeout_s = one;
  tool_sync_retry_s = one;
  rsi_connect_wait_s = one;
  compliance_controller = "compliance";
  correction_controller = "correction";
  calibration = calibration;
}

abbrev solve : List (Sample Fixed) → PayloadFitResult Fixed
solve samples = no_fit

-- A calibration on its way to its first pose, before the first tick of the worker.
abbrev begun : Runtime Fixed
begun = record (Runtime.constructed config) {
  core = record { state = ready; servo_requested = false; is_calibrating = true };
  seq = (start (fresh calibration)).0;
  mode = mode_calibration;
  cal_teardown_done = false;
}

abbrev result : CalibrateResult Fixed
result = record { success = false; message = "failed in phase FAILED"; fit = no_fit }

abbrev same : Runtime Fixed → Runtime Fixed
same r = r

poll-Reports_example : Reports (poll config begun true same one).0 preempted result
poll-Reports_example =
    poll-Reports solve calibration config begun true same one preempted result
      (unfold poll cancel_calibration in next (next here (starts _)) (cancels _))
      (unfold poll cancel_calibration Runtime.constructed snapshot ending_of status cancel fail
          start in
        refl)

-- The goal ends there, and the teardown has not run.
teardown_left :
    let (r, feedback, ends) = poll config begun true same one in
    (ends ≡ some (preempted, result))
    × (r.mode ≡ mode_calibration)
    × (r.cal_teardown_done ≡ false)
    × (r.core.is_calibrating ≡ true)
unfolding poll cancel_calibration Runtime.constructed snapshot ending_of status cancel fail start
teardown_left = (refl, refl, refl, refl)

-- The calibration goes on.
no_end : (poll config begun false same one).2 ≡ none
unfolding poll snapshot ending_of status start Runtime.constructed
no_end = refl

abbrev controllers : List ControllerState
controllers =
    record { name = "a"; state = "running" } ∷ record { name = "b"; state = "stopped" } ∷ []

answers :
    (running_of controllers ≡ "a" ∷ [])
    × (loaded_or_loads (some controllers) false "b" ≡ true)
    × (loaded_or_loads none false "b" ≡ false)
    × ((switch_request "" "b").start_controllers ≡ [])
unfolding running_of loaded_or_loads has_name switch_request name_list
answers = (refl, refl, refl, refl)
