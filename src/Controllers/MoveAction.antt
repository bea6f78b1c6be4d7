-- ===== src/Controllers/MoveAction.antt =====
-- The action /soft_robot/move_to_orientation of `CartesianCorrectionController` (`executeCb` of
-- src/cartesian_correction_controller.cpp).
mod Endings
mod Tests
use kuka_iiqka_ros.Prelude.{
  ℕ, Bool, false, not, ◌&&◌, ◌||◌, leb, List, [], ◌∷◌, Option, none, some, if◌then◌else◌,
}
use kuka_iiqka_ros.Double.{Double, nought, of_ℕ, lt, le, fmin, fmax, ◌⊕◌, ◌⊖◌, ◌⊗◌, ◌⊘◌}
use kuka_iiqka_ros.Sfc.Motion.{MotionGoal, MotionStatus, inactive, running, converged, timeout}
use kuka_iiqka_ros.Controllers.CartesianShell.{Controller, request_goal, request_cancel}

-- How the action ends.
pub data Verdict : Type 0 where
  position_target not_engaged too_late preempted mode_changed timed_out succeeded : Verdict

-- What the status ends the action with.
unfoldable pub verdict_of : MotionStatus → Bool → Option Verdict
verdict_of inactive cancelled = some (if cancelled then preempted else mode_changed)
verdict_of running cancelled = none
verdict_of converged cancelled = some succeeded
verdict_of timeout cancelled = some timed_out

module _ {F : Type 0} ⦃d : Double F⦄ where
  unfoldable pub clamp_speed_scale : F → F
  clamp_speed_scale scale = if le scale nought || lt (of_ℕ 1) scale then of_ℕ 1 else scale

  -- The goal of an action, from the angles and the speed scale of its message.
  unfoldable pub goal_of : MotionGoal F → F → F → F → F → MotionGoal F
  goal_of defaults a b c speed_scale = record defaults {
    a = a;
    b = b;
    c = c;
    max_speed_dps = defaults.max_speed_dps ⊗ clamp_speed_scale speed_scale;
  }

  -- The beginning of `executeCb`: a refusal, or a goal.
  unfoldable pub refuse : Controller F → Bool → Option Verdict
  refuse s use_position =
      if use_position
      then some position_target
      else if not s.published.is_engaged
      then some not_engaged
      else none

  -- A turn of the loop: the controller, whether the goal is cancelled by now, and the end, if it is
  -- one. `late` and `preempt` are the answers of the clock and of the action server.
  unfoldable pub poll :
      Controller F → MotionGoal F → ℕ → Bool → Bool → Bool → Controller F × Bool × Option Verdict
  poll s no_goal seq cancelled late preempt =
      let cancels = not cancelled && preempt in
      let stopped = (request_cancel s no_goal).0 in
      let t = if cancels then stopped else s in
      if late then (stopped, cancelled, some too_late) else (
        t,
        cancelled || preempt,
        if leb seq t.published.applied_seq
            then verdict_of t.published.status (cancelled || preempt)
            else none,
      )

-- What a turn of the loop meets: what the cycles and the producers did to the controller before it,
-- whether the deadline is over, and whether the client asks to preempt the goal.
pub record Turn (F : Type 0) : Type 0 where
  pub meanwhile : Controller F → Controller F
  pub late : Bool
  pub preempt : Bool

pub record Feedback (F : Type 0) : Type 0 where
  pub error_deg : F
  pub error_mm : F
  pub progress : F

module _ {F : Type 0} ⦃d : Double F⦄ where
  -- How long the action waits for the cycles.
  unfoldable pub patience : MotionGoal F → F
  patience g = g.timeout_s ⊕ of_ℕ 5

  -- The first error above 0, once there is one, and the feedback.
  unfoldable pub feedback_of : F → F → F × Feedback F
  feedback_of initial_error err =
      let first = if lt initial_error nought && lt nought err then err else initial_error in
      let left = fmax nought (fmin (of_ℕ 1) (of_ℕ 1 ⊖ (err ⊘ first))) in
      (
        first,
        record {
          error_deg = err;
          error_mm = nought;
          progress = if lt nought first then left else nought;
        },
      )

  -- The loop of `executeCb`: the end of the turns is that of the node.
  unfoldable pub follow :
      MotionGoal F → ℕ → Controller F → Bool → List (Turn F) → Controller F × Option Verdict
  follow no_goal seq s cancelled [] = ((request_cancel s no_goal).0, none)
  follow no_goal seq s cancelled (t ∷ ts) =
      let (u, withdrawn, end) = poll (t.meanwhile s) no_goal seq cancelled t.late t.preempt in
      elim end [ none ↦ follow no_goal seq u withdrawn ts | some verdict ↦ (u, some verdict) ]

  -- The beginning and the loop. A refusal requests nothing.
  unfoldable pub execute_cb :
      MotionGoal F
      → Controller F
      → Bool
      → MotionGoal F
      → List (Turn F)
      → Controller F × Option Verdict
  execute_cb no_goal s use_position g ts =
      let (t, seq) = request_goal s g in
      elim (refuse s use_position) [
        | some verdict ↦ (s, some verdict)
        | none ↦ follow no_goal seq t false ts
      ]
