-- ===== src/Controllers/ComplianceShell.antt =====
-- `ForceComplianceController` (src/force_compliance_controller.cpp): the force compliance behind the
-- gate. What a realtime buffer gives a cycle is an argument of it; the buffers keep what was written
-- last.
pub mod Safety
pub mod Tests
use kuka_iiqka_ros.Prelude.{
  ℕ, ◌+◌, Bool, true, false, not, ◌&&◌, ◌||◌, Option, none, some, if◌then◌else◌,
}
use kuka_iiqka_ros.Double.{Double, nought, of_ℕ, lt, le, ◌⊖◌, ◌⊘◌}
use kuka_iiqka_ros.Sfc.Types.{
  CartesianState, CartesianCorrection, Wrench, ControlMode, Profile, drag, precision,
  zero_correction, zero_wrench,
}
use kuka_iiqka_ros.Sfc.Rotation.{Libm, Eigen}
use kuka_iiqka_ros.Rsi.Monitor.{u64}
use kuka_iiqka_ros.Controllers.Gate
use kuka_iiqka_ros.Controllers.Gate.{Gate, ModeRequest, is_engaged, force_idle}
use kuka_iiqka_ros.Controllers.CartesianShell.{no_request}
use kuka_iiqka_ros.Controllers.Compliance
use kuka_iiqka_ros.Controllers.Compliance.{configure, activate}
use kuka_iiqka_ros.Controllers.ComplianceData.{
  ForceComplianceParams, ToolFrameConfig, ComplianceInput, ComplianceOutput, Core,
}

pub record WrenchSample (F : Type 0) : Type 0 where
  pub w : Wrench F
  pub stamp_s : F
  pub valid : Bool

pub record ToolSample (F : Type 0) : Type 0 where
  pub a : F
  pub b : F
  pub c : F
  pub valid : Bool

pub record Buffers (F : Type 0) : Type 0 where
  pub wrench : WrenchSample F
  pub mode : ModeRequest
  pub has_fault : Bool
  pub tool : ToolSample F

pub data SystemState : Type 0 where
  ready degraded servoing : SystemState

-- The message on the mode state topic, without its stamp.
pub record ModeState : Type 0 where
  pub mode : ControlMode
  pub profile : Profile
  pub system_state : SystemState

-- `command` is what `setCommand` of the handle wrote last.
pub record Controller (F Mat : Type 0) : Type 0 where
  pub gate : Gate
  pub core : Core F Mat
  pub drag_params : ForceComplianceParams F
  pub precision_params : ForceComplianceParams F
  pub buffers : Buffers F
  pub mode_seq : ℕ
  pub mount_a : F
  pub mount_b : F
  pub mount_c : F
  pub has_publisher : Bool
  pub last_pub_s : F
  pub command : CartesianCorrection F

module _ {F : Type 0} ⦃d : Double F⦄ where
  -- The input of the core from the buffer.
  unfoldable pub input_of : WrenchSample F → CartesianState F → F → ComplianceInput F
  input_of w state now_s = record {
    state = state;
    raw = w.w;
    wrench_valid = w.valid;
    wrench_age_s = if w.valid then now_s ⊖ w.stamp_s else of_ℕ 1000000000;
  }

module _ {F : Type 0} ⦃d : Double F⦄ {Mat : Type 0} where
  unfoldable pub configure_controller :
      Controller F Mat → ForceComplianceParams F → ForceComplianceParams F → Controller F Mat
  configure_controller s drag_p precision_p = record s {
    drag_params = drag_p;
    precision_params = precision_p;
    core = configure s.core precision_p;
    buffers = record {
      wrench = record { w = zero_wrench; stamp_s = nought; valid = false };
      mode = no_request;
      has_fault = false;
      tool = record { a = nought; b = nought; c = nought; valid = false };
    };
  }

  unfoldable pub inject_wrench : Controller F Mat → WrenchSample F → Controller F Mat
  inject_wrench s w = record s { buffers = record (s.buffers) { wrench = w } }

  unfoldable pub inject_rsi_fault : Controller F Mat → Bool → Controller F Mat
  inject_rsi_fault s has_fault = record s { buffers = record (s.buffers) { has_fault = has_fault } }

  unfoldable pub inject_tool : Controller F Mat → ToolSample F → Controller F Mat
  inject_tool s t = record s { buffers = record (s.buffers) { tool = t } }

  unfoldable pub inject_mode_command : Controller F Mat → ℕ → ℕ → Controller F Mat
  inject_mode_command s mode profile =
      let seq = u64 (s.mode_seq + 1) in
      record s {
        mode_seq = seq;
        buffers = record (s.buffers) {
          mode = record { mode = mode; profile = profile; seq = seq };
        };
      }

  -- A wrench message, whose stamp may be zero.
  unfoldable pub wrench_cb : Controller F Mat → Wrench F → F → F → Controller F Mat
  wrench_cb s w stamp_s now_s =
      inject_wrench s
        (record { w = w; stamp_s = if d.eq stamp_s nought then now_s else stamp_s; valid = true })

  unfoldable pub eki_state_cb : Controller F Mat → Bool → F → F → F → Controller F Mat
  eki_state_cb s connected tool_a tool_b tool_c =
      if not connected
      then s
      else inject_tool s (record { a = tool_a; b = tool_b; c = tool_c; valid = true })

  unfoldable pub set_zero : Controller F Mat → Controller F Mat
  set_zero s = record s { command = zero_correction }

  unfoldable pub stopping : Controller F Mat → Controller F Mat
  stopping s = record (set_zero s) { gate = force_idle s.gate }

  -- `locked` is the answer of `trylock`.
  unfoldable pub publish_state :
      Controller F Mat → F → Bool → Bool → Controller F Mat × Option ModeState
  publish_state s now_s is_degraded locked =
      let soon = le nought s.last_pub_s && lt (now_s ⊖ s.last_pub_s) (of_ℕ 2 ⊘ of_ℕ 100) in
      if not s.has_publisher || soon || not locked then (s, none) else (
        record s { last_pub_s = now_s },
        some (record {
          mode = s.gate.mgr.mode;
          profile = s.gate.mgr.profile;
          system_state =
              if not (is_engaged s.gate) then ready else if is_degraded then degraded else servoing;
        }),
      )

  unfoldable pub profile_params : Controller F Mat → Profile → ForceComplianceParams F
  profile_params s drag = s.drag_params
  profile_params s precision = s.precision_params

module _ {F : Type 0} ⦃d : Double F⦄ ⦃m : Libm F⦄ ⦃g : Eigen F⦄ where
  unfoldable pub activate_core :
      Controller F g.Mat → Core F g.Mat → ToolSample F → CartesianState F → Core F g.Mat
  activate_core s k tool state = activate k state (record {
    tool_a = if tool.valid then tool.a else nought;
    tool_b = if tool.valid then tool.b else nought;
    tool_c = if tool.valid then tool.c else nought;
    mount_a = s.mount_a;
    mount_b = s.mount_b;
    mount_c = s.mount_c;
  })

  unfoldable pub starting :
      Controller F g.Mat → ToolSample F → CartesianState F → Controller F g.Mat
  starting s tool state =
      let t = set_zero s in
      if is_engaged s.gate then record t { core = activate_core s s.core tool state } else t

  -- The controller of a cycle after its gate: the core of a mode that is entered is new.
  unfoldable pub enter : Controller F g.Mat → Buffers F → CartesianState F → Controller F g.Mat
  enter s seen state =
      let (gate, entered) = Gate.apply s.gate seen.mode in
      let k = configure s.core (profile_params s gate.mgr.profile) in
      record s { gate = gate; core = if entered then activate_core s k seen.tool state else s.core }

  -- A cycle, with what its buffers give it, the pose, the time, the measured period and the answer of
  -- `trylock`.
  unfoldable pub update :
      Controller F g.Mat
      → Buffers F
      → CartesianState F
      → F
      → F
      → Bool
      → Controller F g.Mat × Option ModeState
  update s seen state now_s dt locked =
      let t = enter s seen state in
      let (core, out) = Compliance.update t.core (input_of seen.wrench state now_s) dt in
      if not (is_engaged t.gate) || seen.has_fault
      then publish_state (set_zero t) now_s seen.has_fault locked
      else publish_state (record t { core = core; command = out.correction }) now_s
          (out.hard_cutoff || out.wrench_timeout) locked
