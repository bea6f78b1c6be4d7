-- ===== src/Controllers/CartesianShell.antt =====
-- `CartesianCorrectionController` (src/cartesian_correction_controller.cpp): the direct correction
-- behind the gate, with a goal that an action asks for. What a realtime buffer gives a cycle is an
-- argument of it; the buffers keep what was written last.
mod Safety
pub mod Tests
use kuka_iiqka_ros.Prelude.{
  ℕ, ◌+◌, Bool, true, false, not, ◌&&◌, ◌||◌, ◌==◌, leb, Option, none, some, if◌then◌else◌,
}
use kuka_iiqka_ros.Double.{Double, nought, of_ℕ, lt, le, ◌⊗◌}
use kuka_iiqka_ros.Sfc.Types.{CartesianState, CartesianCorrection, zero_correction}
use kuka_iiqka_ros.Sfc.Rotation.{Libm, Eigen}
use kuka_iiqka_ros.Sfc.Motion.{
  MotionGoal, MotionStatus, inactive, running, converged, timeout, is_running,
}
use kuka_iiqka_ros.Rsi.Monitor.{u64}
use kuka_iiqka_ros.Controllers.Gate
use kuka_iiqka_ros.Controllers.Gate.{Gate, ModeRequest, is_engaged, force_idle}
use kuka_iiqka_ros.Controllers.Direct
use kuka_iiqka_ros.Controllers.Direct.{
  Core, DirectCorrectionParams, StreamCommand, no_stream, reset, set_stream, start_goal,
  cancel_goal, goal_error_deg,
}

pub record ControllerParams (F : Type 0) : Type 0 where
  pub direct : DirectCorrectionParams F
  pub goal_defaults : MotionGoal F

pub record GoalRequest (F : Type 0) : Type 0 where
  pub goal : MotionGoal F
  pub is_cancel : Bool
  pub seq : ℕ

pub record Buffers (F : Type 0) : Type 0 where
  pub stream : StreamCommand F
  pub mode : ModeRequest
  pub has_fault : Bool
  pub goal : GoalRequest F

-- The atomics that the action reads.
pub record Published (F : Type 0) : Type 0 where
  pub applied_seq : ℕ
  pub status : MotionStatus
  pub error_deg : F
  pub is_engaged : Bool

-- `command` is what `setCommand` of the handle wrote last.
pub record Controller (F : Type 0) : Type 0 where
  pub params : ControllerParams F
  pub gate : Gate
  pub core : Core F
  pub buffers : Buffers F
  pub mode_seq : ℕ
  pub goal_seq : ℕ
  pub applied_goal_seq : ℕ
  pub published : Published F
  pub command : CartesianCorrection F

abbrev pub no_request : ModeRequest
no_request = record { mode = 0; profile = 1; seq = 0 }

module _ {F : Type 0} ⦃d : Double F⦄ where
  unfoldable pub configure_controller :
      Controller F → ControllerParams F → MotionGoal F → Controller F
  configure_controller s params no_goal = record s {
    params = params;
    core = Direct.configure s.core params.direct;
    buffers = record {
      stream = no_stream;
      mode = no_request;
      has_fault = false;
      goal = record { goal = no_goal; is_cancel = false; seq = 0 };
    };
    published = record {
      applied_seq = 0;
      status = inactive;
      error_deg = nought;
      is_engaged = false;
    };
  }

  unfoldable pub inject_stream : Controller F → StreamCommand F → Controller F
  inject_stream s cmd = record s { buffers = record (s.buffers) { stream = cmd } }

  unfoldable pub inject_rsi_fault : Controller F → Bool → Controller F
  inject_rsi_fault s has_fault = record s { buffers = record (s.buffers) { has_fault = has_fault } }

  unfoldable pub inject_mode_command : Controller F → ℕ → ℕ → Controller F
  inject_mode_command s mode profile =
      let seq = u64 (s.mode_seq + 1) in
      record s {
        mode_seq = seq;
        buffers = record (s.buffers) {
          mode = record { mode = mode; profile = profile; seq = seq };
        };
      }

  unfoldable pub request_goal : Controller F → MotionGoal F → Controller F × ℕ
  request_goal s g =
      let seq = u64 (s.goal_seq + 1) in
      (
        record s {
          goal_seq = seq;
          buffers = record (s.buffers) { goal = record { goal = g; is_cancel = false; seq = seq } };
        },
        seq,
      )

  -- `no_goal` is the goal of a `GoalRequest{}`, which no one reads.
  unfoldable pub request_cancel : Controller F → MotionGoal F → Controller F × ℕ
  request_cancel s no_goal =
      let seq = u64 (s.goal_seq + 1) in
      (
        record s {
          goal_seq = seq;
          buffers = record (s.buffers) {
            goal = record { goal = no_goal; is_cancel = true; seq = seq };
          };
        },
        seq,
      )

  -- A message of the stream, whose stamp may be zero.
  unfoldable pub stream_cb : Controller F → CartesianCorrection F → F → F → Controller F
  stream_cb s correction stamp_s now_s = inject_stream s (record {
    correction = correction;
    stamp_s = if d.eq stamp_s nought then now_s else stamp_s;
    valid = true;
  })

  unfoldable pub set_zero : Controller F → Controller F
  set_zero s = record s { command = zero_correction }

  unfoldable pub starting : Controller F → Controller F
  starting s = record (set_zero s) { core = reset s.core }

  unfoldable pub stopping : Controller F → MotionGoal F → Controller F
  stopping s no_goal = (request_cancel (record (set_zero s) { gate = force_idle s.gate }) no_goal).0

  -- The request of a goal that a cycle has not seen before.
  unfoldable pub is_new : Controller F → GoalRequest F → Bool
  is_new s r = not (r.seq == 0) && not (r.seq == s.applied_goal_seq)

  unfoldable pub apply_goal : Core F → GoalRequest F → Core F
  apply_goal k r = if r.is_cancel then cancel_goal k else start_goal k r.goal

  -- The core of a cycle in which the controller is not engaged.
  unfoldable pub disengage : Core F → Core F
  disengage k = if is_running k.motion.status then cancel_goal k else k

  module _ ⦃m : Libm F⦄ ⦃g : Eigen F⦄ where
    -- A cycle, with what its buffers give it, the pose, the time and the measured period.
    unfoldable pub update : Controller F → Buffers F → CartesianState F → F → F → Controller F
    update s seen state now_s dt =
        let (gate, entered) = Gate.apply s.gate seen.mode in
        let engaged = is_engaged gate && not seen.has_fault in
        let k = if entered then reset s.core else s.core in
        let asked = if is_new s seen.goal then apply_goal k seen.goal else k in
        let applied = if is_new s seen.goal then seen.goal.seq else s.applied_goal_seq in
        let (moved, out) = Direct.update (set_stream asked seen.stream) state now_s dt in
        let core = if engaged then moved else disengage asked in
        record s {
          gate = gate;
          core = core;
          applied_goal_seq = applied;
          command = if engaged then out.correction else zero_correction;
          published = record {
            applied_seq = applied;
            status = core.motion.status;
            error_deg = goal_error_deg core state;
            is_engaged = engaged;
          };
        }
