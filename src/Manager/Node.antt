-- ===== src/Manager/Node.antt =====
-- The node of the manager (src/manager_node.cpp): what it makes of the state of `ManagerRuntime` for
-- its action, its messages and its diagnostics, and what its hooks make of the services they call.
mod Endings
mod Tests
use Prim.Native.String.{◌++◌}
use text.Mathlib.Text.{◌==◌}
use kuka_iiqka_ros.Prelude.{
  ◌%◌, ℕ, Bool, true, false, not, ◌&&◌, String, List, [], ◌∷◌, Option, none, some, if◌then◌else◌,
}
use kuka_iiqka_ros.Double.{Double}
use kuka_iiqka_ros.Sfc.Payload.{PayloadFitResult}
use kuka_iiqka_ros.Manager.State.{SystemState, calibrating, fault, degraded, HealthInputs}
use kuka_iiqka_ros.Manager.Sequencer.{
  CalPhase, idle, moving, settling, sampling, returning, done, failed, CalFailure, cancelled,
  CalStatus, status, is_active,
}
use kuka_iiqka_ros.Manager.Runtime.{
  ManagerConfig, EkiFeed, Runtime, health_locked, cancel_calibration,
}

abbrev pub phase_name : CalPhase → String
phase_name moving = "MOVING"
phase_name settling = "SETTLING"
phase_name sampling = "SAMPLING"
phase_name returning = "RETURNING"
phase_name done = "DONE"
phase_name failed = "FAILED"
phase_name idle = "IDLE"

abbrev is_calibrating : SystemState → Bool
is_calibrating calibrating = true
is_calibrating _ = false

abbrev is_done : CalPhase → Bool
is_done done = true
is_done _ = false

abbrev is_over : CalPhase → Bool
is_over done = true
is_over failed = true
is_over _ = false

abbrev is_cancelled : CalFailure → Bool
is_cancelled cancelled = true
is_cancelled _ = false

pub record ManagerSnapshot (F : Type 0) : Type 0 where
  pub state : SystemState
  pub health : HealthInputs
  pub mode : ℕ
  pub profile : ℕ
  pub active_controller : String
  pub calibrating : Bool
  pub cal : CalStatus
  pub fit : PayloadFitResult F

-- How a goal of the calibration action ends.
pub data Ending : Type 0 where
  succeeded preempted aborted : Ending

pub record CalibrateResult (F : Type 0) : Type 0 where
  pub success : Bool
  pub message : String
  pub fit : PayloadFitResult F

pub record CalibrateFeedback : Type 0 where
  pub pose_index : ℕ
  pub pose_count : ℕ
  pub phase : String

abbrev pub u32 : ℕ → ℕ
u32 n = n % 4294967296

module _ {F : Type 0} where
  -- The result and the ending that a state is for the action, once the calibration has ended and the
  -- state is not CALIBRATING.
  unfoldable pub ending_of : ManagerSnapshot F → Option (Ending × CalibrateResult F)
  ending_of s =
      let success = is_done s.cal.phase && s.fit.ok in
      let message : String =
        if success
        then (if s.cal.return_move_ok then "ok" else "ok (return move failed)")
        else "failed in phase " ++ phase_name s.cal.phase in
      let ending =
        if success then succeeded else if is_cancelled s.cal.failure then preempted else aborted in
      if is_over s.cal.phase && not s.calibrating && not (is_calibrating s.state)
      then some (ending, record { success = success; message = message; fit = s.fit })
      else none

  unfoldable pub feedback_of : ManagerSnapshot F → CalibrateFeedback
  feedback_of s = record {
    pose_index = u32 s.cal.pose_index;
    pose_count = u32 s.cal.pose_count;
    phase = phase_name s.cal.phase;
  }

module _ {F : Type 0} ⦃d : Double F⦄ where
  -- `ManagerRuntime::snapshot`.
  unfoldable pub snapshot : ManagerConfig F → Runtime F → F → ManagerSnapshot F
  snapshot cfg r now_s = record {
    health = health_locked cfg r now_s;
    state = r.core.state;
    mode = r.mode;
    profile = r.profile;
    active_controller = r.active_controller;
    cal = status r.seq;
    calibrating = is_active (status r.seq).phase;
    fit = r.seq.fit;
  }

  -- A turn of the loop of the calibration action, with whether the client asked to preempt it, and
  -- what happened to the runtime between that and the look at its state.
  unfoldable pub poll :
      ManagerConfig F
      → Runtime F
      → Bool
      → (Runtime F → Runtime F)
      → F
      → Runtime F × CalibrateFeedback × Option (Ending × CalibrateResult F)
  poll cfg r preempt meanwhile now_s =
      let t = meanwhile (if preempt then cancel_calibration r else r) in
      let s = snapshot cfg t now_s in (t, feedback_of s, ending_of s)

-- `DiagnosticStatus`: the level and the message.
pub data Level : Type 0 where
  level_ok level_warn level_error : Level

unfoldable pub diagnose : SystemState → Level × String
diagnose fault = (level_error, "FAULT latched: reset required")
diagnose degraded = (level_warn, "DEGRADED: output forced to zero")
diagnose _ = (level_ok, "ok")

-- A name of a request; an empty one is none.
unfoldable pub name_list : String → List String
name_list name = if name == "" then [] else name ∷ []

pub record SwitchRequest : Type 0 where
  pub start_controllers : List String
  pub stop_controllers : List String

unfoldable pub switch_request : String → String → SwitchRequest
switch_request start stop = record {
  start_controllers = name_list start;
  stop_controllers = name_list stop;
}

pub record ControllerState : Type 0 where
  pub name : String
  pub state : String

-- `listRunningControllers`, of what the service answers.
unfoldable pub running_of : List ControllerState → List String
running_of [] = []
running_of (c ∷ cs) =
    let rest = running_of cs in if c.state == "running" then c.name ∷ rest else rest

unfoldable pub has_name : List ControllerState → String → Bool
has_name [] name = false
has_name (c ∷ cs) name = if c.name == name then true else has_name cs name

-- Whether a controller is there or can be loaded: what the list service answers, if it does, and what
-- the load service then answers.
unfoldable pub loaded_or_loads : Option (List ControllerState) → Bool → String → Bool
loaded_or_loads none loads name = loads
loaded_or_loads (some cs) loads name = if has_name cs name then true else loads
