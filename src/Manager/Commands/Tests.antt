-- ===== src/Manager/Commands/Tests.antt =====
-- A robot that is ready, a start of the compliance mode on it, and the theorems there.
use kuka_iiqka_ros.Prelude.{
  Option, ℕ, ◌+◌, Bool, true, false, List, [], ◌∷◌, ◌≡◌, refl, some, none, arith, Gives,
}
use kuka_iiqka_ros.Prelude.Int.{pos}
use kuka_iiqka_ros.Double.Fixed.{Fixed, num, fixed_double}
use kuka_iiqka_ros.Sfc.Payload.{no_fit}
use kuka_iiqka_ros.Manager.State.{
  ready, servoing, initial, update, full_conditions, ready_conditions, eki_link_layered,
  fault_is_session_residue, request_start,
}
use kuka_iiqka_ros.Manager.Sequencer.{fresh, failed, origin, tick}
use kuka_iiqka_ros.Manager.Runtime.{
  ManagerConfig, Runtime, constructed, health_locked, is_fresh, feed_rsi_state, tick_locked,
  drop_tool, tick_sequencer,
}
use kuka_iiqka_ros.Manager.World.{
  Call, list_running, switch_controllers, publish_mode, eki_start_rsi, rsi_state, worker_tick,
  worker_teardown, World, Sys, runs, apply_events, apply_event, wait, ask, call_if, call_ok,
  switch_rest, switch_filtered,
}
use kuka_iiqka_ros.Manager.World.Switch.{SwitchOutcome, switch_filtered-outcome}
use kuka_iiqka_ros.Manager.Commands.{
  CommandResult, clear_residue, start_rsi, wait_rsi, commit_start, arm, after_wait, wait_and_arm,
  start_servo,
}
use kuka_iiqka_ros.Manager.Commands.Modes.{ModeFits}
use kuka_iiqka_ros.Manager.Commands.Calibration.{teardown_once}
use kuka_iiqka_ros.Manager.Commands.Waiting.{ClockPasses, start_servo-ModeFits}

abbrev n : ℕ → Fixed
n k = num (pos k)

abbrev config : ManagerConfig Fixed
config = record {
  eki_state_timeout_s = n 50;
  rsi_state_timeout_s = n 50;
  sri_status_timeout_s = n 50;
  tool_sync_retry_s = n 50;
  rsi_connect_wait_s = n 4;
  compliance_controller = "compliance";
  correction_controller = "correction";
  calibration = record {
    poses = origin ∷ [];
    return_pose = origin;
    settle_time_s = n 0;
    samples_per_pose = 1;
  };
}

abbrev is_ready : Runtime Fixed
is_ready = record (constructed config) {
  core = record initial { state = ready };
  eki = record {
    connected = true;
    state_fresh = true;
    program_ready = true;
    rsi_active = false;
    has_fault = false;
  };
  eki_rx_s = some (n 99);
  sri_streaming = true;
  sri_rx_s = some (n 99);
  controllers_loaded = true;
  tool_synced = true;
}

-- The correction controller runs, and the RSI stream comes up while the program is started.
abbrev world : World Fixed
world = record {
  cfg = config;
  hooks = record {
    has_list = true;
    has_switch = true;
    has_mode = true;
    has_start_rsi = true;
    has_stop_rsi = true;
    has_eki_reset = true;
    has_get_tool = true;
    has_rsi_reset = true;
    has_zero = true;
    has_goal = true;
    has_payload = true;
    has_state = true;
  };
  solve = λ samples. no_fit;
  answer = λ k. record {
    ok = true;
    running = "correction" ∷ [];
    now_s = n (100 + k);
    meanwhile = rsi_state true false (n 100) ∷ [];
  };
}

abbrev before : Sys Fixed
before = record { rt = is_ready; calls = []; used = 0 }

abbrev outcome : Option (Sys Fixed × CommandResult) → Option (List (Call Fixed) × Bool)
outcome none = none
outcome (some (s, r)) = some (s.calls, r.success)

starts :
    outcome (start_servo world 3 2 0 before)
    ≡ some (
      publish_mode 2 0
          ∷ switch_controllers "compliance" "correction"
          ∷ list_running
          ∷ publish_mode 0 0
          ∷ eki_start_rsi
          ∷ [],
      true,
    )
unfolding start_servo clear_residue start_rsi wait_rsi commit_start arm after_wait wait_and_arm
    switch_rest switch_filtered call_if call_ok ask wait apply_event apply_events runs health_locked
    is_fresh request_start eki_link_layered ready_conditions feed_rsi_state constructed
starts = refl

passes : ClockPasses world 2
unfolding ClockPasses
passes = λ k. ground arith

start_servo-ModeFits_example : Gives (ModeFits world 2 []) (start_servo world 3 2 0 before)
start_servo-ModeFits_example = start_servo-ModeFits world 2 2 0 before refl passes

switch_filtered-outcome_example :
    let (z, ok) = switch_filtered world "compliance" "correction" before in
    SwitchOutcome world "compliance" "correction" before z.calls ok
switch_filtered-outcome_example =
    switch_filtered-outcome world "compliance" "correction" before refl refl

abbrev servo_stands : Runtime Fixed
servo_stands = record is_ready {
  core = record { state = ready; servo_requested = true; is_calibrating = false };
  rsi_connected = true;
  rsi_rx_s = some (n 100);
}

servoes : (tick_locked config true servo_stands (n 101)).0.core.state ≡ servoing
unfolding tick_locked health_locked is_fresh drop_tool tick_sequencer tick update full_conditions
    ready_conditions eki_link_layered fault_is_session_residue constructed
servoes = refl

-- A calibration that has failed, with its teardown due.
abbrev ended : Runtime Fixed
ended = record (constructed config) {
  seq = record (fresh config.calibration) { phase = failed };
  cal_teardown_done = false;
}

tears_down :
    (tick_locked config true ended (n 5)).1.teardown
    ≡ some (record { success = false; fit = no_fit; cal_profile = 0 })
unfolding tick_locked health_locked is_fresh drop_tool tick_sequencer tick constructed
tears_down = refl

teardown_once_example :
    let t = (tick_locked config true ended (n 5)).0 in
    let u = apply_events world t (worker_teardown ∷ worker_tick (n 6) ∷ []) in
    (tick_locked config true u (n 7)).1.teardown ≡ none
teardown_once_example =
    teardown_once world ended (n 5) (n 7)
      (record { success = false; fit = no_fit; cal_profile = 0 })
      (worker_teardown ∷ worker_tick (n 6) ∷ []) tears_down

abbrev serving : Sys Fixed
serving = record before {
  rt = record is_ready {
    core = record { state = servoing; servo_requested = true; is_calibrating = false };
    active_controller = "compliance";
    mode = 2;
  };
}
