-- ===== src/Controllers/Direct.antt =====
-- `DirectCorrectionCore` (src/direct_correction_core.cpp): a goal orientation, or else a stream of
-- corrections.
pub mod Safety
mod Tests
use kuka_iiqka_ros.Prelude.{Bool, true, false, ◌&&◌, if◌then◌else◌}
use kuka_iiqka_ros.Double.{Double, nought, le, ◌⊖◌}
use kuka_iiqka_ros.Sfc.Types.{CartesianState, CartesianCorrection, zero_correction, zero_wrench}
use kuka_iiqka_ros.Sfc.Limiter.{SafetyParams, apply}
use kuka_iiqka_ros.Sfc.Rotation.{Libm, Eigen, angular_distance_deg}
use kuka_iiqka_ros.Sfc.Motion
use kuka_iiqka_ros.Sfc.Motion.{Motion, MotionGoal, is_running, set_goal, cancel}

pub record DirectCorrectionParams (F : Type 0) : Type 0 where
  pub stream_timeout_s : F
  pub safety : SafetyParams F

pub record StreamCommand (F : Type 0) : Type 0 where
  pub correction : CartesianCorrection F
  pub stamp_s : F
  pub valid : Bool

pub record DirectOutput (F : Type 0) : Type 0 where
  pub correction : CartesianCorrection F
  pub goal_active : Bool
  pub stream_stale : Bool
  pub saturated : Bool

pub record Core (F : Type 0) : Type 0 where
  pub params : DirectCorrectionParams F
  pub stream : StreamCommand F
  pub goal : MotionGoal F
  pub motion : Motion F

module _ {F : Type 0} ⦃d : Double F⦄ where
  -- `StreamCommand{}`.
  abbrev pub no_stream : StreamCommand F
  no_stream = record { correction = zero_correction; stamp_s = nought; valid = false }

  unfoldable pub configure : Core F → DirectCorrectionParams F → Core F
  configure k p = record k { params = p }

  unfoldable pub reset : Core F → Core F
  reset k = record k { stream = no_stream; motion = cancel k.motion }

  unfoldable pub set_stream : Core F → StreamCommand F → Core F
  set_stream k cmd = record k { stream = cmd }

  unfoldable pub start_goal : Core F → MotionGoal F → Core F
  start_goal k g = record k { goal = g; motion = set_goal g }

  unfoldable pub cancel_goal : Core F → Core F
  cancel_goal k = record k { motion = cancel k.motion }

  unfoldable pub is_fresh : Core F → F → Bool
  is_fresh k now_s = k.stream.valid && le (now_s ⊖ k.stream.stamp_s) k.params.stream_timeout_s

  module _ ⦃m : Libm F⦄ where
    unfoldable pub goal_error_deg : ⦃g : Eigen F⦄ → Core F → CartesianState F → F
    goal_error_deg k s = angular_distance_deg k.goal.a k.goal.b k.goal.c s.a s.b s.c

    -- The correction before the limiter, with the core and the two flags.
    unfoldable pub source :
        Core F → CartesianState F → F → F → Core F × CartesianCorrection F × Bool × Bool
    source k s now_s dt =
        let (motion, turn) = Motion.update k.motion s dt in
        if is_running k.motion.status
        then (record k { motion = motion }, turn, true, false)
        else if is_fresh k now_s
        then (k, k.stream.correction, false, false)
        else (k, zero_correction, false, true)

    unfoldable pub update : Core F → CartesianState F → F → F → Core F × DirectOutput F
    update k s now_s dt =
        let (n, raw, goal_active, stream_stale) = source k s now_s dt in
        let res = apply raw zero_wrench k.params.safety in
        (
          n,
          record {
            correction = res.correction;
            goal_active = goal_active;
            stream_stale = stream_stale;
            saturated = res.saturated;
          },
        )
