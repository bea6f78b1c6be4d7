-- ===== src/Controllers/ComplianceShell/Tests.antt =====
-- The controller of the force compliance with whole numbers: both profiles have limits of 5 and 3.
use kuka_iiqka_ros.Prelude.{true, false}
use kuka_iiqka_ros.Prelude.Int.{pos, negsuc}
use kuka_iiqka_ros.Double.{nought}
use kuka_iiqka_ros.Double.Fixed.{Fixed, num, fixed_double}
use kuka_iiqka_ros.Sfc.Types.{CartesianState, zero_correction, zero_wrench, force_compliance}
use kuka_iiqka_ros.Sfc.Payload.{no_payload}
use kuka_iiqka_ros.Sfc.Filter.{filter_at}
use kuka_iiqka_ros.Sfc.Turns.{turns_libm, turns_eigen}
use kuka_iiqka_ros.Sfc.Law.{AxisGroupParams}
use kuka_iiqka_ros.Sfc.Deadband.{no_ramp}
use kuka_iiqka_ros.Sfc.Retare.{reference}
use kuka_iiqka_ros.Sfc.Limiter.{SafetyParams}
use kuka_iiqka_ros.Sfc.Motion.{inactive}
use kuka_iiqka_ros.Controllers.Gate.{gate}
use kuka_iiqka_ros.Controllers.ComplianceData.{ForceComplianceParams, Core}
use kuka_iiqka_ros.Controllers.ComplianceShell.{Controller, Buffers}

abbrev safety : SafetyParams Fixed
safety = record {
  max_corr_trans = num (pos 5);
  max_corr_rot = num (pos 3);
  force_ceiling = num (pos 50);
  torque_ceiling = num (pos 50);
}

abbrev group : AxisGroupParams Fixed
group = record {
  gain = num (pos 1);
  deadband = nought;
  max_speed = num (pos 20);
  max_accel = nought;
}

abbrev precision_params : ForceComplianceParams Fixed
precision_params = record {
  filter_cutoff_hz = nought;
  compliance = record { translation = group; rotation = group; speed_scale = num (pos 1) };
  fixed_force_deadband_n = num (pos 10);
  fixed_torque_deadband_nm = num (pos 10);
  adaptive_deadband = false;
  ramp_window_s = num (pos 2);
  ramp_force_margin_n = num (pos 1);
  ramp_torque_margin_nm = num (pos 1);
  retare = record { enabled = false; orientation_tol_deg = num (pos 1) };
  retare_rearm_factor = num (pos 2);
  safety = safety;
  payload = no_payload;
  wrench_timeout_s = num (pos 2);
}

abbrev drag_params : ForceComplianceParams Fixed
drag_params = record precision_params { adaptive_deadband = true }

abbrev core : Core Fixed Fixed
core = record {
  params = precision_params;
  filter = filter_at nought;
  compensator = no_payload;
  frame = nought;
  law = zero_correction;
  ramp = no_ramp;
  reference = reference nought nought nought;
  motion = record {
    goal = record {
      a = nought;
      b = nought;
      c = nought;
      max_speed_dps = nought;
      p_gain = nought;
      tol_deg = nought;
      hold_s = nought;
      timeout_s = nought;
    };
    status = inactive;
    elapsed = nought;
    held = nought;
  };
  tare_armed = false;
  force_deadband = nought;
  torque_deadband = nought;
}

-- A request for the force compliance, with a push along x.
abbrev pub seen : Buffers Fixed
seen = record {
  wrench = record {
    w = record zero_wrench { fx = num (pos 40) };
    stamp_s = num (pos 9);
    valid = true;
  };
  mode = record { mode = 2; profile = 0; seq = 1 };
  has_fault = false;
  tool = record { a = nought; b = nought; c = nought; valid = false };
}

abbrev pub controller : Controller Fixed Fixed
controller = record {
  gate = gate force_compliance force_compliance;
  core = core;
  drag_params = drag_params;
  precision_params = precision_params;
  buffers = seen;
  mode_seq = 1;
  mount_a = nought;
  mount_b = nought;
  mount_c = nought;
  has_publisher = true;
  last_pub_s = num (negsuc 0);
  command = zero_correction;
}

abbrev pub at : Fixed → CartesianState Fixed
at angle = record { x = nought; y = nought; z = nought; a = angle; b = nought; c = nought }
