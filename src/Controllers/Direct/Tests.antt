-- ===== src/Controllers/Direct/Tests.antt =====
-- The direct correction with whole numbers: a goal of 30 degrees and a timeout of 4.
use kuka_iiqka_ros.Prelude.{false, ◌≡◌, refl, List, [], ◌∷◌}
use kuka_iiqka_ros.Prelude.Int.{pos}
use kuka_iiqka_ros.Double.{clamp, nought}
use kuka_iiqka_ros.Double.Fixed.{Fixed, num, nan, fixed_double}
use kuka_iiqka_ros.Sfc.Types.{CartesianState, force_norm, torque_norm}
use kuka_iiqka_ros.Sfc.Rotation.{wrap_deg}
use kuka_iiqka_ros.Sfc.Turns.{turns_libm}
use kuka_iiqka_ros.Sfc.Limiter.{SafetyParams, apply, over_ceiling}
use kuka_iiqka_ros.Sfc.Limiter.Bounds.{HasLimits}
use kuka_iiqka_ros.Sfc.Motion.{
  MotionGoal, Motion, steer, in_tolerance, shape, shaped, set_goal, inactive, converged, timeout,
}
use kuka_iiqka_ros.Sfc.Motion
use kuka_iiqka_ros.Sfc.Motion.Ends.{Ended}
use kuka_iiqka_ros.Controllers.Direct.{Core, no_stream, start_goal, source, update}
use kuka_iiqka_ros.Controllers.Direct.Safety.{run, start_goal-Ended}

abbrev safety : SafetyParams Fixed
safety = record {
  max_corr_trans = num (pos 5);
  max_corr_rot = num (pos 3);
  force_ceiling = num (pos 50);
  torque_ceiling = num (pos 50);
}

safety-HasLimits : HasLimits safety
safety-HasLimits = record { trans = refl; rot = refl }

abbrev goal : MotionGoal Fixed
goal = record {
  a = num (pos 30);
  b = nought;
  c = nought;
  max_speed_dps = num (pos 10);
  p_gain = num (pos 1);
  tol_deg = num (pos 2);
  hold_s = num (pos 2);
  timeout_s = num (pos 4);
}

abbrev core : Core Fixed
core = record {
  params = record { stream_timeout_s = num (pos 1); safety = safety };
  stream = no_stream;
  goal = goal;
  motion = record { goal = goal; status = inactive; elapsed = nought; held = nought };
}

abbrev at : Fixed → CartesianState Fixed
at angle = record { x = nought; y = nought; z = nought; a = angle; b = nought; c = nought }

-- The tool stays away from the goal.
abbrev away : List (CartesianState Fixed × Fixed × Fixed)
away =
    (at (num (pos 0)), num (pos 1), num (pos 2))
    ∷ (at (num (pos 350)), num (pos 3), num (pos 2))
    ∷ (at nan, num (pos 5), num (pos 1))
    ∷ []

-- The tool reaches it.
abbrev near : List (CartesianState Fixed × Fixed × Fixed)
near =
    (at (num (pos 29)), num (pos 1), num (pos 1))
    ∷ (at (num (pos 31)), num (pos 2), num (pos 1))
    ∷ []

comes_to_an_end :
    ((run (start_goal core goal) away).motion.status ≡ timeout)
    × ((run (start_goal core goal) near).motion.status ≡ converged)
unfolding start_goal set_goal update source Motion.update steer in_tolerance wrap_deg
comes_to_an_end = (refl, refl)

turns_at_the_limit :
    (update (start_goal core goal) (at nought) nought (num (pos 1))).1.correction.a ≡ num (pos 3)
unfolding start_goal set_goal update source Motion.update steer in_tolerance shaped shape wrap_deg
    apply over_ceiling clamp force_norm torque_norm
turns_at_the_limit = refl

start_goal-Ended_example :
    let n = run (start_goal core goal) away in
    Ended n.motion.status
    × ((update n (at nought) (num (pos 9)) (num (pos 1))).1.goal_active ≡ false)
start_goal-Ended_example =
    start_goal-Ended core goal away (at nought) (num (pos 9)) (num (pos 1)) refl refl
