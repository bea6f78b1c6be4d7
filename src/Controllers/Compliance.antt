-- ===== src/Controllers/Compliance.antt =====
-- `ForceComplianceCore` (src/force_compliance_core.cpp): from a wrench to a correction.
pub mod Safety
mod Tares
mod Speeds
mod Tests
use kuka_iiqka_ros.Prelude.{Bool, true, false, not, ◌&&◌, ◌||◌, if◌then◌else◌}
use kuka_iiqka_ros.Double.{Double, nought, of_ℕ, lt, ◌⊕◌, ◌⊗◌}
use kuka_iiqka_ros.Sfc.Types.{
  CartesianState, Wrench, CartesianCorrection, zero_correction, zero_wrench,
}
use kuka_iiqka_ros.Sfc.Limiter.{SafetyParams, apply}
use kuka_iiqka_ros.Sfc.Payload.{PayloadParams}
use kuka_iiqka_ros.Sfc.Filter
use kuka_iiqka_ros.Sfc.Filter.{Filter, filter_at, filter}
use kuka_iiqka_ros.Sfc.Rotation.{Libm, Eigen, kuka_abc_to_rotation}
use kuka_iiqka_ros.Sfc.Frames
use kuka_iiqka_ros.Sfc.Frames.{
  wrench_sensor_to_tool, correction_tool_to_base, compensate, absorb_residual,
}
use kuka_iiqka_ros.Sfc.Law
use kuka_iiqka_ros.Sfc.Law.{ComplianceParams, compute}
use kuka_iiqka_ros.Sfc.Deadband
use kuka_iiqka_ros.Sfc.Deadband.{Ramp, no_ramp}
use kuka_iiqka_ros.Sfc.Retare.{AutoReTareParams, Reference, reference, distance_to, should_tare}
use kuka_iiqka_ros.Sfc.Motion
use kuka_iiqka_ros.Sfc.Motion.{Motion}
use kuka_iiqka_ros.Controllers.ComplianceData.{
  ForceComplianceParams, ToolFrameConfig, ComplianceInput, ComplianceOutput, Core,
}

module _ {F : Type 0} ⦃d : Double F⦄ where
  abbrev pub no_output : ComplianceOutput F
  no_output = record {
    correction = zero_correction;
    ramp_active = false;
    wrench_timeout = false;
    hard_cutoff = false;
    saturated = false;
    tared = false;
    compensated = zero_wrench;
  }

  abbrev pub identity_frame : ToolFrameConfig F
  identity_frame = record {
    tool_a = nought;
    tool_b = nought;
    tool_c = nought;
    mount_a = nought;
    mount_b = nought;
    mount_c = nought;
  }

  unfoldable pub configure : {Mat : Type 0} → Core F Mat → ForceComplianceParams F → Core F Mat
  configure k p = record k {
    params = p;
    filter = filter_at p.filter_cutoff_hz;
    compensator = p.payload;
    law = Law.reset;
    motion = Motion.cancel k.motion;
    ramp = no_ramp;
    tare_armed = false;
    force_deadband = p.fixed_force_deadband_n;
    torque_deadband = p.fixed_torque_deadband_nm;
  }

  unfoldable pub add_correction :
      CartesianCorrection F → CartesianCorrection F → CartesianCorrection F
  add_correction u v = record {
    x = u.x ⊕ v.x;
    y = u.y ⊕ v.y;
    z = u.z ⊕ v.z;
    a = u.a ⊕ v.a;
    b = u.b ⊕ v.b;
    c = u.c ⊕ v.c;
  }

  unfoldable pub is_stale : {Mat : Type 0} → Core F Mat → ComplianceInput F → Bool
  is_stale k i = not i.wrench_valid || lt k.params.wrench_timeout_s i.wrench_age_s

  -- The parameters of the law, with the deadbands of the moment.
  unfoldable pub law_params : {Mat : Type 0} → Core F Mat → ComplianceParams F
  law_params k =
      let p = k.params.compliance in
      record p {
        translation = record (p.translation) { deadband = k.force_deadband };
        rotation = record (p.rotation) { deadband = k.torque_deadband };
      }

  -- A cycle of the startup ramp, for the compensated wrench.
  unfoldable pub ramp_cycle :
      {Mat : Type 0} → Core F Mat → Wrench F → F → Core F Mat × ComplianceOutput F
  ramp_cycle k w dt =
      let ramp = Deadband.update k.ramp w dt in
      let n = record k { ramp = ramp } in
      let out = record no_output {
        ramp_active = true;
        hard_cutoff = (apply zero_correction w k.params.safety).hard_cutoff;
        compensated = w;
      } in
      (
        if ramp.active then n else record n {
          force_deadband = ramp.force_deadband;
          torque_deadband = ramp.torque_deadband;
        },
        out,
      )

  module _ ⦃m : Libm F⦄ ⦃g : Eigen F⦄ where
    unfoldable pub activate : Core F g.Mat → CartesianState F → ToolFrameConfig F → Core F g.Mat
    activate k start tf =
        let p = k.params in
        record k {
          frame = Frames.configure tf.tool_a tf.tool_b tf.tool_c tf.mount_a tf.mount_b tf.mount_c;
          filter = Filter.reset k.filter;
          law = Law.reset;
          motion = Motion.cancel k.motion;
          reference = reference start.a start.b start.c;
          tare_armed = false;
          force_deadband = p.fixed_force_deadband_n;
          torque_deadband = p.fixed_torque_deadband_nm;
          ramp =
              if p.adaptive_deadband
              then Deadband.start k.ramp p.ramp_window_s p.ramp_force_margin_n
                  p.ramp_torque_margin_nm
              else k.ramp;
        }

    -- The overload without a tool frame.
    unfoldable pub activate_legacy : Core F g.Mat → CartesianState F → Core F g.Mat
    activate_legacy k start = activate k start identity_frame

    -- The tool is at an orientation that arms the retare.
    unfoldable pub has_left : Core F g.Mat → CartesianState F → Bool
    has_left k s =
        lt (k.params.retare.orientation_tol_deg ⊗ k.params.retare_rearm_factor)
          (distance_to k.reference s)

    -- The retare of a cycle: the core, the wrench that it goes on with, and whether it tared.
    unfoldable pub tare :
        Core F g.Mat → CartesianState F → Wrench F → g.Mat → Core F g.Mat × Wrench F × Bool
    tare k s filtered r_base_sensor =
        let w = compensate k.compensator filtered r_base_sensor in
        let armed = k.tare_armed || has_left k s in
        let absorbed = absorb_residual k.compensator w in
        let fires =
          armed && should_tare k.reference s w k.force_deadband k.torque_deadband k.params.retare in
        if fires
        then (
          record k { compensator = absorbed; tare_armed = false },
          compensate absorbed filtered r_base_sensor,
          true,
        )
        else (record k { tare_armed = armed }, w, false)

    -- The end of a cycle: the law in the tool frame, the motion, their sum and the limiter.
    unfoldable pub comply :
        Core F g.Mat
        → CartesianState F
        → Wrench F
        → Bool
        → g.Mat
        → F
        → Core F g.Mat × ComplianceOutput F
    comply k s w tared r_bt dt =
        let (law, in_tool) = compute k.law (wrench_sensor_to_tool k.frame w) (law_params k) dt in
        let (motion, turn) = Motion.update k.motion s dt in
        let res =
          apply (add_correction (correction_tool_to_base in_tool r_bt) turn) w k.params.safety in
        (
          record k { law = if res.hard_cutoff then Law.reset else law; motion = motion },
          record no_output {
            correction = res.correction;
            hard_cutoff = res.hard_cutoff;
            saturated = res.saturated;
            tared = tared;
            compensated = w;
          },
        )

    -- A cycle from the filtered wrench on: the ramp, or the retare and the law.
    unfoldable pub proceed :
        Core F g.Mat
        → CartesianState F
        → Wrench F
        → g.Mat
        → g.Mat
        → F
        → Core F g.Mat × ComplianceOutput F
    proceed k s filtered r_bt r_base_sensor dt =
        let (n, w, tared) = tare k s filtered r_base_sensor in
        if k.ramp.active
        then ramp_cycle k (compensate k.compensator filtered r_base_sensor) dt
        else comply n s w tared r_bt dt

    -- A cycle with a fresh wrench.
    unfoldable pub cycle : Core F g.Mat → ComplianceInput F → F → Core F g.Mat × ComplianceOutput F
    cycle k i dt =
        let (f, filtered) = filter (of_ℕ 2 ⊗ m.pi) k.filter i.raw dt in
        let r_bt = kuka_abc_to_rotation i.state.a i.state.b i.state.c in
        proceed (record k { filter = f }) i.state filtered r_bt (g.times r_bt k.frame) dt

    unfoldable pub update : Core F g.Mat → ComplianceInput F → F → Core F g.Mat × ComplianceOutput F
    update k i dt =
        if is_stale k i
        then (record k { law = Law.reset }, record no_output { wrench_timeout = true })
        else cycle k i dt
