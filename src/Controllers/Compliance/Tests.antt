-- ===== src/Controllers/Compliance/Tests.antt =====
-- The force compliance with whole numbers: deadbands of 10, speeds of at most 20, a gain of one.
use kuka_iiqka_ros.Prelude.{true, false, ◌≡◌, ◌+◌, ◌≤◌, refl, List, [], ◌∷◌}
use kuka_iiqka_ros.Prelude.Int.{pos}
use kuka_iiqka_ros.Double.{clamp, nought}
use kuka_iiqka_ros.Double.Fixed.{Fixed, num, fixed_double, Fixed-IsOrdered, Fixed-IsRounded}
use kuka_iiqka_ros.Sfc.Types.{
  CartesianState, zero_correction, zero_wrench, force_norm, torque_norm, add_wrench,
}
use kuka_iiqka_ros.Sfc.Payload.{no_payload}
use kuka_iiqka_ros.Sfc.Filter
use kuka_iiqka_ros.Sfc.Filter.{filter, filter_at}
use kuka_iiqka_ros.Sfc.Rotation.{angular_distance_deg, kuka_abc_to_rotation, deg_to_rad, rad_to_deg}
use kuka_iiqka_ros.Sfc.Turns.{turns_libm, turns_eigen}
use kuka_iiqka_ros.Sfc.Frames
use kuka_iiqka_ros.Sfc.Frames.{
  wrench_sensor_to_tool, correction_tool_to_base, compensate, absorb_residual,
}
use kuka_iiqka_ros.Sfc.Law
use kuka_iiqka_ros.Sfc.Law.{
  ComplianceParams, AxisGroupParams, compute, velocities, axis_velocity, deadzone,
}
use kuka_iiqka_ros.Sfc.Law.Speeds.{IsPeriod, InSpeeds}
use kuka_iiqka_ros.Sfc.Deadband.{no_ramp}
use kuka_iiqka_ros.Sfc.Retare.{reference, should_tare}
use kuka_iiqka_ros.Sfc.Limiter.{apply, over_ceiling}
use kuka_iiqka_ros.Sfc.Motion
use kuka_iiqka_ros.Sfc.Motion.{inactive}
use kuka_iiqka_ros.Controllers.ComplianceData.{Core, ForceComplianceParams, ComplianceInput}
use kuka_iiqka_ros.Controllers.Compliance.{
  activate, identity_frame, is_stale, has_left, law_params, add_correction, tare, comply, proceed,
  cycle, update,
}
use kuka_iiqka_ros.Controllers.Compliance.Safety.{at_ceiling, update-Stops}
use kuka_iiqka_ros.Controllers.Compliance.Tares.{bit, tares, departures, run-tares}
use kuka_iiqka_ros.Controllers.Compliance.Speeds.{after, after-InSpeeds}

abbrev group : AxisGroupParams Fixed
group = record {
  gain = num (pos 1);
  deadband = nought;
  max_speed = num (pos 20);
  max_accel = num (pos 15);
}

abbrev params : ForceComplianceParams Fixed
params = record {
  filter_cutoff_hz = nought;
  compliance = record { translation = group; rotation = group; speed_scale = num (pos 1) };
  fixed_force_deadband_n = num (pos 10);
  fixed_torque_deadband_nm = num (pos 10);
  adaptive_deadband = false;
  ramp_window_s = num (pos 2);
  ramp_force_margin_n = num (pos 1);
  ramp_torque_margin_nm = num (pos 1);
  retare = record { enabled = true; orientation_tol_deg = num (pos 1) };
  retare_rearm_factor = num (pos 2);
  safety = record {
    max_corr_trans = num (pos 18);
    max_corr_rot = num (pos 3);
    force_ceiling = num (pos 50);
    torque_ceiling = num (pos 50);
  };
  payload = no_payload;
  wrench_timeout_s = num (pos 2);
}

abbrev blank : Core Fixed Fixed
blank = record {
  params = params;
  filter = filter_at nought;
  compensator = no_payload;
  frame = nought;
  law = zero_correction;
  ramp = no_ramp;
  reference = reference nought nought nought;
  motion = record {
    goal = record {
      a = nought;
      b = nought;
      c = nought;
      max_speed_dps = nought;
      p_gain = nought;
      tol_deg = nought;
      hold_s = nought;
      timeout_s = nought;
    };
    status = inactive;
    elapsed = nought;
    held = nought;
  };
  tare_armed = false;
  force_deadband = nought;
  torque_deadband = nought;
}

abbrev at : Fixed → CartesianState Fixed
at angle = record { x = nought; y = nought; z = nought; a = angle; b = nought; c = nought }

abbrev core : Core Fixed Fixed
core = record blank { force_deadband = num (pos 10); torque_deadband = num (pos 10) }

activates : activate blank (at nought) identity_frame ≡ core
unfolding activate Filter.reset Law.reset Motion.cancel Frames.configure kuka_abc_to_rotation
    deg_to_rad
activates = refl

abbrev one : Fixed
one = num (pos 1)

abbrev feels : Fixed → Fixed → ComplianceInput Fixed
feels angle force = record {
  state = at angle;
  raw = record zero_wrench { fx = force };
  wrench_age_s = one;
  wrench_valid = true;
}

abbrev quarter : Fixed
quarter = num (pos 90)

-- Away, back with a residual, which is absorbed, and back again.
abbrev rounds : List (ComplianceInput Fixed × Fixed)
rounds =
    (feels quarter (num (pos 30)), one)
    ∷ (feels nought (num (pos 5)), one)
    ∷ (feels nought (num (pos 5)), one)
    ∷ []

tares_once : (tares core rounds ≡ 1) × (departures core rounds ≡ 1)
unfolding update is_stale cycle proceed tare comply has_left should_tare filter compensate
    absorb_residual add_wrench angular_distance_deg kuka_abc_to_rotation deg_to_rad rad_to_deg clamp
    force_norm torque_norm
tares_once = (refl, refl)

-- 30 less the deadband is 20, the acceleration allows 15, then 20, and the limiter 18.
speeds_up :
    ((update core (feels nought (num (pos 30))) one).1.correction.x ≡ num (pos 15))
    × ((update
          (update core (feels nought (num (pos 30))) one).0
          (feels nought (num (pos 30)))
          one).1.correction.x
        ≡ num (pos 18))
unfolding update is_stale cycle proceed tare comply has_left should_tare filter compensate
    law_params compute velocities axis_velocity deadzone wrench_sensor_to_tool
    correction_tool_to_base add_correction apply over_ceiling Motion.update angular_distance_deg
    kuka_abc_to_rotation deg_to_rad rad_to_deg clamp force_norm torque_norm
speeds_up = (refl, refl)

abbrev hit : ComplianceInput Fixed
hit = feels nought (num (pos 60))

hit-over : over_ceiling (update core hit one).1.compensated params.safety ≡ true
unfolding update is_stale cycle proceed tare comply has_left should_tare filter compensate
    over_ceiling angular_distance_deg kuka_abc_to_rotation deg_to_rad rad_to_deg clamp force_norm
    torque_norm
hit-over = refl

update-Stops_example : (update core hit one).1.correction ≡ zero_correction
update-Stops_example = update-Stops core hit one (at_ceiling hit-over)

run-tares_example : tares core rounds ≤ departures core rounds + bit false
run-tares_example = run-tares core rounds

steady : IsPeriod params.compliance one
steady = record { translation = refl; rotation = refl }

after-InSpeeds_example :
    InSpeeds params.compliance (after (activate blank (at nought) identity_frame) rounds).law
after-InSpeeds_example =
    after-InSpeeds Fixed-IsOrdered Fixed-IsRounded blank (at nought) identity_frame rounds
      (record {
        translation = record { speed = refl; finite = refl };
        rotation = record { speed = refl; finite = refl };
      })
      (steady, (steady, (steady, tt)))
