-- ===== src/Controllers/ComplianceData.antt =====
-- The data of `ForceComplianceCore` (include/soft_robot_controllers/force_compliance_core.h). `Mat`
-- is the type of a 3 by 3 matrix of Eigen.
use kuka_iiqka_ros.Prelude.{Bool}
use kuka_iiqka_ros.Sfc.Types.{CartesianState, Wrench, CartesianCorrection}
use kuka_iiqka_ros.Sfc.Limiter.{SafetyParams}
use kuka_iiqka_ros.Sfc.Payload.{PayloadParams}
use kuka_iiqka_ros.Sfc.Filter.{Filter}
use kuka_iiqka_ros.Sfc.Law.{ComplianceParams}
use kuka_iiqka_ros.Sfc.Deadband.{Ramp}
use kuka_iiqka_ros.Sfc.Retare.{AutoReTareParams, Reference}
use kuka_iiqka_ros.Sfc.Motion.{Motion}

pub record ForceComplianceParams (F : Type 0) : Type 0 where
  pub filter_cutoff_hz : F
  pub compliance : ComplianceParams F
  pub fixed_force_deadband_n : F
  pub fixed_torque_deadband_nm : F
  pub adaptive_deadband : Bool
  pub ramp_window_s : F
  pub ramp_force_margin_n : F
  pub ramp_torque_margin_nm : F
  pub retare : AutoReTareParams F
  pub retare_rearm_factor : F
  pub safety : SafetyParams F
  pub payload : PayloadParams F
  pub wrench_timeout_s : F

pub record ToolFrameConfig (F : Type 0) : Type 0 where
  pub tool_a : F
  pub tool_b : F
  pub tool_c : F
  pub mount_a : F
  pub mount_b : F
  pub mount_c : F

pub record ComplianceInput (F : Type 0) : Type 0 where
  pub state : CartesianState F
  pub raw : Wrench F
  pub wrench_age_s : F
  pub wrench_valid : Bool

pub record ComplianceOutput (F : Type 0) : Type 0 where
  pub correction : CartesianCorrection F
  pub ramp_active : Bool
  pub wrench_timeout : Bool
  pub hard_cutoff : Bool
  pub saturated : Bool
  pub tared : Bool
  pub compensated : Wrench F

-- `ref_a_`, `ref_b_` and `ref_c_` have the values of the reference of `retare_`: one field.
pub record Core (F Mat : Type 0) : Type 0 where
  pub params : ForceComplianceParams F
  pub filter : Filter F
  pub compensator : PayloadParams F
  pub frame : Mat
  pub law : CartesianCorrection F
  pub ramp : Ramp F
  pub reference : Reference F
  pub motion : Motion F
  pub tare_armed : Bool
  pub force_deadband : F
  pub torque_deadband : F
