-- ===== src/Controllers/CartesianShell/Tests.antt =====
-- The controller of the direct correction with whole numbers, with a goal that runs.
use kuka_iiqka_ros.Prelude.{true, false, ◌≡◌, refl, arith}
use kuka_iiqka_ros.Prelude.Int.{pos}
use kuka_iiqka_ros.Double.{nought}
use kuka_iiqka_ros.Double.Fixed.{Fixed, num, nan, fixed_double}
use kuka_iiqka_ros.Sfc.Types.{CartesianState, zero_correction, direct_cartesian, calibration}
use kuka_iiqka_ros.Sfc.Turns.{turns_libm, turns_eigen}
use kuka_iiqka_ros.Sfc.Rotation.{wrap_deg}
use kuka_iiqka_ros.Sfc.Modes.{request_mode, set_profile}
use kuka_iiqka_ros.Sfc.Motion.{
  MotionGoal, running, inactive, is_running, set_goal, steer, in_tolerance,
}
use kuka_iiqka_ros.Sfc.Motion
use kuka_iiqka_ros.Controllers.Gate
use kuka_iiqka_ros.Controllers.Gate.{
  gate, is_engaged, apply_known, switch_mode, to_control_mode, to_profile,
}
use kuka_iiqka_ros.Controllers.Direct
use kuka_iiqka_ros.Controllers.Direct.{Core, no_stream, start_goal, set_stream, source}
use kuka_iiqka_ros.Controllers.CartesianShell.{
  Controller, no_request, request_goal, inject_mode_command, is_new, apply_goal, update, stopping,
}
use kuka_iiqka_ros.Controllers.CartesianShell.Safety.{stopping-update}

abbrev pub goal : MotionGoal Fixed
goal = record {
  a = num (pos 30);
  b = nought;
  c = nought;
  max_speed_dps = num (pos 10);
  p_gain = num (pos 1);
  tol_deg = num (pos 2);
  hold_s = num (pos 2);
  timeout_s = num (pos 4);
}

abbrev pub controller : Controller Fixed
controller = record {
  params = record {
    direct = record {
      stream_timeout_s = num (pos 1);
      safety = record {
        max_corr_trans = num (pos 5);
        max_corr_rot = num (pos 3);
        force_ceiling = num (pos 50);
        torque_ceiling = num (pos 50);
      };
    };
    goal_defaults = goal;
  };
  gate = gate direct_cartesian calibration;
  core = record {
    params = record {
      stream_timeout_s = num (pos 1);
      safety = record {
        max_corr_trans = num (pos 5);
        max_corr_rot = num (pos 3);
        force_ceiling = num (pos 50);
        torque_ceiling = num (pos 50);
      };
    };
    stream = no_stream;
    goal = goal;
    motion = record { goal = goal; status = inactive; elapsed = nought; held = nought };
  };
  buffers = record {
    stream = no_stream;
    mode = no_request;
    has_fault = false;
    goal = record { goal = goal; is_cancel = false; seq = 0 };
  };
  mode_seq = 0;
  goal_seq = 0;
  applied_goal_seq = 0;
  published = record { applied_seq = 0; status = inactive; error_deg = nought; is_engaged = false };
  command = zero_correction;
}

abbrev at : Fixed → CartesianState Fixed
at angle = record { x = nought; y = nought; z = nought; a = angle; b = nought; c = nought }

-- The mode is entered and the goal is asked for.
abbrev asked : Controller Fixed
asked = (request_goal (inject_mode_command controller 1 1) goal).0

abbrev moving : Controller Fixed
moving = update asked asked.buffers (at nought) (num (pos 1)) (num (pos 1))

moves : (moving.published.status ≡ running) × (moving.published.is_engaged ≡ true)
unfolding request_goal inject_mode_command update is_new apply_goal Gate.apply apply_known
    switch_mode to_control_mode to_profile is_engaged request_mode set_profile Direct.reset
    start_goal set_goal set_stream Direct.update source Motion.update steer in_tolerance wrap_deg
    Motion.cancel
moves = (refl, refl)

stopping-update_example :
    is_running
      (update
        (stopping moving goal)
        (stopping moving goal).buffers
        (at nought)
        nan
        nan).published.status
    ≡ false
unfolding update is_new request_goal inject_mode_command
stopping-update_example =
    stopping-update moving goal (stopping moving goal).buffers (at nought) nan nan (omega arith)
      (omega arith) refl
