-- ===== src/Controllers/Loading.antt =====
-- The parameters of the controllers: `init` of src/force_compliance_controller.cpp and
-- src/cartesian_correction_controller.cpp. The topics that `init` subscribes to stand outside.
pub mod Limits
mod Tests
use Prim.Native.String.{◌++◌}
use kuka_iiqka_ros.Prelude.{
  ℕ, Bool, true, false, String, List, [], ◌∷◌, Option, none, some, if◌then◌else◌,
}
use kuka_iiqka_ros.Double.{Double, nought, of_ℕ}
use kuka_iiqka_ros.Xml.{value_or}
use kuka_iiqka_ros.Params.{Params, fraction}
use kuka_iiqka_ros.Sfc.Types.{zero_wrench}
use kuka_iiqka_ros.Sfc.Limiter.{SafetyParams}
use kuka_iiqka_ros.Sfc.Payload.{PayloadParams, no_payload}
use kuka_iiqka_ros.Sfc.Law.{AxisGroupParams}
use kuka_iiqka_ros.Sfc.Motion.{MotionGoal}
use kuka_iiqka_ros.Controllers.ComplianceData.{ForceComplianceParams}
use kuka_iiqka_ros.Controllers.ComplianceShell
use kuka_iiqka_ros.Controllers.CartesianShell
use kuka_iiqka_ros.Controllers.CartesianShell.{ControllerParams}

-- The members as they are constructed.
module _ {F : Type 0} ⦃d : Double F⦄ where
  unfoldable pub no_safety : SafetyParams F
  no_safety = record {
    max_corr_trans = fraction 5 10;
    max_corr_rot = fraction 5 100;
    force_ceiling = of_ℕ 500;
    torque_ceiling = of_ℕ 50;
  }

  unfoldable pub no_group : AxisGroupParams F
  no_group = record { gain = nought; deadband = nought; max_speed = nought; max_accel = nought }

  unfoldable pub no_profile : ForceComplianceParams F
  no_profile = record {
    filter_cutoff_hz = of_ℕ 10;
    compliance = record { translation = no_group; rotation = no_group; speed_scale = of_ℕ 1 };
    fixed_force_deadband_n = of_ℕ 30;
    fixed_torque_deadband_nm = of_ℕ 4;
    adaptive_deadband = false;
    ramp_window_s = of_ℕ 2;
    ramp_force_margin_n = of_ℕ 5;
    ramp_torque_margin_nm = of_ℕ 1;
    retare = record { enabled = false; orientation_tol_deg = of_ℕ 1 };
    retare_rearm_factor = of_ℕ 2;
    safety = no_safety;
    payload = no_payload;
    wrench_timeout_s = fraction 12 1000;
  }

  unfoldable pub no_goal : MotionGoal F
  no_goal = record {
    a = nought;
    b = nought;
    c = nought;
    max_speed_dps = of_ℕ 5;
    p_gain = of_ℕ 1;
    tol_deg = fraction 1 10;
    hold_s = fraction 2 10;
    timeout_s = of_ℕ 30;
  }

  -- `nh.param` of a `double`, with the value that the variable has for a default.
  abbrev pub double_or : Params F → String → F → F
  double_or ps name v = value_or v (ps.double name)

  abbrev pub bool_or : Params F → String → Bool → Bool
  bool_or ps name v = value_or v (ps.bool name)

  -- Both controllers have this function.
  unfoldable pub load_safety : Params F → SafetyParams F → SafetyParams F
  load_safety ps s = record {
    max_corr_trans = double_or ps "safety/max_corr_trans" s.max_corr_trans;
    max_corr_rot = double_or ps "safety/max_corr_rot" s.max_corr_rot;
    force_ceiling = double_or ps "safety/force_ceiling" s.force_ceiling;
    torque_ceiling = double_or ps "safety/torque_ceiling" s.torque_ceiling;
  }

  unfoldable pub load_payload : Params F → PayloadParams F → PayloadParams F
  load_payload ps p = record {
    gravity_n = double_or ps "payload/gravity_n" p.gravity_n;
    com_x = double_or ps "payload/com_x" p.com_x;
    com_y = double_or ps "payload/com_y" p.com_y;
    com_z = double_or ps "payload/com_z" p.com_z;
    bias = record {
      fx = double_or ps "payload/bias_fx" p.bias.fx;
      fy = double_or ps "payload/bias_fy" p.bias.fy;
      fz = double_or ps "payload/bias_fz" p.bias.fz;
      tx = double_or ps "payload/bias_tx" p.bias.tx;
      ty = double_or ps "payload/bias_ty" p.bias.ty;
      tz = double_or ps "payload/bias_tz" p.bias.tz;
    };
  }

  -- The group of an axis, by the end of its parameters' names.
  load_group : Params F → String → String → AxisGroupParams F → AxisGroupParams F
  load_group ps b axis g = record g {
    gain = double_or ps (b ++ "gain_" ++ axis) g.gain;
    max_speed = double_or ps (b ++ "max_speed_" ++ axis) g.max_speed;
    max_accel = double_or ps (b ++ "max_accel_" ++ axis) g.max_accel;
  }

  unfoldable pub load_profile :
      Params F → String → Bool → ForceComplianceParams F → ForceComplianceParams F
  unfolding load_group
  load_profile ps name drag_defaults p =
      let b = "profiles/" ++ name ++ "/" in
      record p {
        filter_cutoff_hz = double_or ps (b ++ "filter_cutoff_hz") p.filter_cutoff_hz;
        compliance = record {
          speed_scale = double_or ps (b ++ "speed_scale") p.compliance.speed_scale;
          translation = load_group ps b "translation" p.compliance.translation;
          rotation = load_group ps b "rotation" p.compliance.rotation;
        };
        fixed_force_deadband_n = double_or ps (b ++ "deadband_force") p.fixed_force_deadband_n;
        fixed_torque_deadband_nm = double_or ps (b ++ "deadband_torque") p.fixed_torque_deadband_nm;
        adaptive_deadband = bool_or ps (b ++ "adaptive_deadband") drag_defaults;
        ramp_window_s = double_or ps (b ++ "ramp_window_s") p.ramp_window_s;
        ramp_force_margin_n = double_or ps (b ++ "ramp_force_margin_n") p.ramp_force_margin_n;
        ramp_torque_margin_nm = double_or ps (b ++ "ramp_torque_margin_nm") p.ramp_torque_margin_nm;
        retare = record {
          enabled = bool_or ps (b ++ "auto_retare") drag_defaults;
          orientation_tol_deg =
              double_or ps (b ++ "retare_orientation_tol_deg") p.retare.orientation_tol_deg;
        };
        retare_rearm_factor = double_or ps (b ++ "retare_rearm_factor") p.retare_rearm_factor;
      }

  -- What both profiles of the force compliance share.
  unfoldable pub with_shared : Params F → ForceComplianceParams F → ForceComplianceParams F
  with_shared ps p = record p {
    safety = load_safety ps no_safety;
    payload = load_payload ps no_payload;
    wrench_timeout_s = double_or ps "wrench_timeout" (fraction 12 1000);
  }

  -- `has_handle` says for which resources `getHandle` does not throw.
  abbrev pub resource : Params F → String
  resource ps = value_or "kuka_tcp" (ps.string "cartesian_resource")

  -- The angles of the mount, if there are three.
  with_mount :
      {Mat : Type 0} → ComplianceShell.Controller F Mat → List F → ComplianceShell.Controller F Mat
  with_mount s (a ∷ b ∷ c ∷ []) = record s { mount_a = a; mount_b = b; mount_c = c }
  with_mount s _ = s

  -- `init` of the force compliance; `none` is a failure.
  unfoldable pub init_compliance :
      {Mat : Type 0}
      → Params F
      → (String → Bool)
      → ComplianceShell.Controller F Mat
      → Option (ComplianceShell.Controller F Mat)
  unfolding with_mount
  init_compliance ps has_handle s =
      let drag = with_shared ps (load_profile ps "drag" true no_profile) in
      let precision = with_shared ps (load_profile ps "precision" false no_profile) in
      let mount = value_or (nought ∷ nought ∷ nought ∷ []) (ps.doubles "sensor_to_flange_abc") in
      let t = ComplianceShell.configure_controller (with_mount s mount) drag precision in
      if has_handle (resource ps) then some (record t { has_publisher = true }) else none

  -- The parameters of the direct correction.
  unfoldable pub direct_params : Params F → ControllerParams F
  direct_params ps = record {
    direct = record {
      stream_timeout_s = double_or ps "stream_timeout" (fraction 1 10);
      safety = load_safety ps no_safety;
    };
    goal_defaults = record no_goal {
      max_speed_dps = double_or ps "goal/max_speed_dps" (of_ℕ 5);
      p_gain = double_or ps "goal/p_gain" (of_ℕ 1);
      tol_deg = double_or ps "goal/tol_deg" (fraction 1 10);
      hold_s = double_or ps "goal/hold_s" (fraction 2 10);
      timeout_s = double_or ps "goal/timeout_s" (of_ℕ 30);
    };
  }

  -- `init` of the direct correction.
  unfoldable pub init_direct :
      Params F
      → (String → Bool)
      → CartesianShell.Controller F
      → Option (CartesianShell.Controller F)
  init_direct ps has_handle s =
      if has_handle (resource ps)
      then some (CartesianShell.configure_controller s (direct_params ps) no_goal)
      else none
