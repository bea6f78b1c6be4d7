-- ===== src/Rsi/Hardware.antt =====
-- `KukaRsiRobotHW` (src/kuka_rsi_robot_hw.cpp): one control cycle is a `read`, the controllers, which
-- set the command, and a `write`. A datagram that `read` waits for is an argument, and the one that
-- `write` sends is a result.
pub mod Cycle
mod Tests
use kuka_iiqka_ros.Prelude.{
  ℕ, ◌+◌, Bool, true, false, not, List, [], ◌∷◌, Option, none, some, if◌then◌else◌,
}
use kuka_iiqka_ros.Double.{Double, nought, ◌⊗◌}
use kuka_iiqka_ros.Sfc.Types.{CartesianState, CartesianCorrection, zero_correction}
use kuka_iiqka_ros.Xml.{Xml}
use kuka_iiqka_ros.Rsi.Frame.{Axes, RobFrame, SenFrame, parse_rob_frame, serialize_sen_frame}
use kuka_iiqka_ros.Rsi.Monitor.{
  Monitor, no_stats, u64, on_frame, on_timeout, on_bad_frame, clear_fault,
}
use kuka_iiqka_ros.Rsi.Limiter.{CommandLimits, clamp_all}

pub record RobotHw (F : Type 0) : Type 0 where
  pub limits : CommandLimits F
  pub monitor : Monitor
  pub cart_pos : CartesianState F
  pub joint_pos : Axes F
  pub cart_cmd : CartesianCorrection F
  pub last_ipoc : ℕ
  pub watchdog : ℕ
  pub saturation_count : ℕ
  pub fault_clear_requested : Bool

module _ {F : Type 0} ⦃d : Double F⦄ where
  -- The state of a hardware interface just configured, with the ports bound.
  unfoldable pub configured : CommandLimits F → ℕ → RobotHw F
  configured limits max_timeouts = record {
    limits = limits;
    monitor = record { max_consecutive_timeouts = max_timeouts; stats = no_stats };
    cart_pos = record { x = nought; y = nought; z = nought; a = nought; b = nought; c = nought };
    joint_pos = record {
      a1 = nought;
      a2 = nought;
      a3 = nought;
      a4 = nought;
      a5 = nought;
      a6 = nought;
    };
    cart_cmd = zero_correction;
    last_ipoc = 0;
    watchdog = 0;
    saturation_count = 0;
    fault_clear_requested = false;
  }

  unfoldable pub request_fault_clear : RobotHw F → RobotHw F
  request_fault_clear s = record s { fault_clear_requested = true }

  -- What a controller does to the command buffer, through its handle.
  unfoldable pub set_command : RobotHw F → CartesianCorrection F → RobotHw F
  set_command s c = record s { cart_cmd = c }

  to_radians : F → Axes F → Axes F
  to_radians deg_to_rad v = record {
    a1 = v.a1 ⊗ deg_to_rad;
    a2 = v.a2 ⊗ deg_to_rad;
    a3 = v.a3 ⊗ deg_to_rad;
    a4 = v.a4 ⊗ deg_to_rad;
    a5 = v.a5 ⊗ deg_to_rad;
    a6 = v.a6 ⊗ deg_to_rad;
  }

  -- `fault_clear_requested_.exchange(false)`.
  unfoldable pub take_fault_clear : RobotHw F → RobotHw F
  take_fault_clear s =
      if s.fault_clear_requested
      then record s { monitor = clear_fault s.monitor; fault_clear_requested = false }
      else s

  -- The frame that `read` has parsed, or not.
  unfoldable pub on_parsed : F → RobotHw F → Option (RobFrame F) → RobotHw F
  unfolding to_radians
  on_parsed deg_to_rad s none = record s { monitor = on_bad_frame s.monitor }
  on_parsed deg_to_rad s (some f) = record s {
    monitor = on_frame s.monitor f.ipoc;
    last_ipoc = f.ipoc;
    cart_pos = f.pose;
    joint_pos = to_radians deg_to_rad f.axis_deg;
  }

  -- No datagram, and an empty one, are `n <= 0`.
  unfoldable pub read : {E : Type 0} → Xml E F → F → RobotHw F → List ℕ → RobotHw F
  read xml deg_to_rad s [] =
      let t = take_fault_clear s in record t { monitor = on_timeout t.monitor }
  read xml deg_to_rad s (byte ∷ bytes) =
      on_parsed deg_to_rad (take_fault_clear s) (parse_rob_frame xml (byte ∷ bytes))

  -- The frame that `write` sends, if it sends one.
  unfoldable pub reply : RobotHw F → RobotHw F × Option (SenFrame F)
  reply s =
      let w = u64 (s.watchdog + 1) in
      let (clamped, modified) = clamp_all s.cart_cmd s.limits in
      let stopped : SenFrame F = record {
        corr = zero_correction;
        stop = 1;
        watchdog = w;
        ipoc = s.last_ipoc;
      } in
      let moved : SenFrame F = record {
        corr = clamped;
        stop = 0;
        watchdog = w;
        ipoc = s.last_ipoc;
      } in
      let count = if modified then u64 (s.saturation_count + 1) else s.saturation_count in
      if not s.monitor.stats.connected
      then (s, none)
      else if s.monitor.stats.has_fault
      then (record s { watchdog = w; cart_cmd = zero_correction }, some stopped)
      else (
        record s { watchdog = w; saturation_count = count; cart_cmd = zero_correction },
        some moved,
      )

  -- `tx_buf_` has 1024 bytes; a frame that does not fit is not sent.
  unfoldable pub write : (SenFrame F → List ℕ) → RobotHw F → RobotHw F × Option (List ℕ)
  write print s =
      let (t, out) = reply s in
      (t, elim out [ none ↦ none | some f ↦ serialize_sen_frame print f 1024 ])
