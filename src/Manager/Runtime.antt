-- ===== src/Manager/Runtime.antt =====
-- `ManagerRuntime` (src/manager_runtime.cpp): what stands behind `mutex_`, what the feeds of the
-- other threads do to it, and the health that it amounts to. `Manager.World` has the hooks that the
-- commands call outside the mutex, and `Manager.Commands` the commands.
pub mod Health
use kuka_iiqka_ros.Prelude.{
  ℕ, Bool, true, false, not, ◌&&◌, String, List, Option, none, some, if◌then◌else◌,
}
use kuka_iiqka_ros.Double.{Double, le, ◌⊖◌}
use kuka_iiqka_ros.Sfc.Types.{Wrench}
use kuka_iiqka_ros.Sfc.Payload.{PayloadFitResult, Sample}
use kuka_iiqka_ros.Manager.State.{HealthInputs, Core, initial, update, calibration_finished}
use kuka_iiqka_ros.Manager.Sequencer.{
  CalibrationConfig, CalAction, CalPhase, done, failed, Sequencer, is_active, fresh, tick,
  on_wrench, on_motion_result, on_stream_lost, cancel,
}

-- The modes on the wire.
abbrev pub mode_idle : ℕ
mode_idle = 0

abbrev pub mode_direct : ℕ
mode_direct = 1

abbrev pub mode_compliance : ℕ
mode_compliance = 2

abbrev pub mode_calibration : ℕ
mode_calibration = 3

pub record EkiFeed : Type 0 where
  pub connected : Bool
  pub state_fresh : Bool
  pub program_ready : Bool
  pub rsi_active : Bool
  pub has_fault : Bool

pub record ManagerConfig (F : Type 0) : Type 0 where
  pub eki_state_timeout_s : F
  pub rsi_state_timeout_s : F
  pub sri_status_timeout_s : F
  pub tool_sync_retry_s : F
  pub rsi_connect_wait_s : F
  pub compliance_controller : String
  pub correction_controller : String
  pub calibration : CalibrationConfig F

-- A time of reception is `none` where the code has -1, before the first message.
pub record Runtime (F : Type 0) : Type 0 where
  pub core : Core
  pub seq : Sequencer F
  pub eki : EkiFeed
  pub eki_rx_s : Option F
  pub rsi_connected : Bool
  pub rsi_fault : Bool
  pub rsi_rx_s : Option F
  pub sri_streaming : Bool
  pub sri_rx_s : Option F
  pub controllers_loaded : Bool
  pub tool_synced : Bool
  pub tool_last_try_s : Option F
  pub mode : ℕ
  pub profile : ℕ
  pub active_controller : String
  pub cal_teardown_done : Bool

-- What a calibration that has ended asks for: whether it succeeded, its fit, and the profile.
pub record Teardown (F : Type 0) : Type 0 where
  pub success : Bool
  pub fit : PayloadFitResult F
  pub cal_profile : ℕ

-- What the part of a tick under the mutex hands to the part outside it.
pub record TickWork (F : Type 0) : Type 0 where
  pub want_tool_sync : Bool
  pub action : CalAction F
  pub teardown : Option (Teardown F)

abbrev is_over : CalPhase → Bool
is_over done = true
is_over failed = true
is_over _ = false

abbrev is_done : CalPhase → Bool
is_done done = true
is_done _ = false

module _ {F : Type 0} where
  unfoldable pub set_controllers_loaded : Runtime F → Bool → Runtime F
  set_controllers_loaded r loaded = record r { controllers_loaded = loaded }

  unfoldable pub feed_eki_state : Runtime F → EkiFeed → F → Runtime F
  feed_eki_state r f now_s = record r { eki = f; eki_rx_s = some now_s }

  unfoldable pub feed_rsi_state : Runtime F → Bool → Bool → F → Runtime F
  feed_rsi_state r is_connected is_faulted now_s = record r {
    rsi_connected = is_connected;
    rsi_fault = is_faulted;
    rsi_rx_s = some now_s;
  }

  unfoldable pub feed_sri_status : Runtime F → Bool → F → Runtime F
  feed_sri_status r streaming now_s = record r { sri_streaming = streaming; sri_rx_s = some now_s }

  unfoldable pub motion_result : Runtime F → Bool → F → Runtime F
  motion_result r success now_s = record r { seq = on_motion_result r.seq success now_s }

  unfoldable pub cancel_calibration : Runtime F → Runtime F
  cancel_calibration r = record r { seq = cancel r.seq }

module _ {F : Type 0} ⦃d : Double F⦄ where
  -- The members as they are constructed.
  unfoldable pub constructed : ManagerConfig F → Runtime F
  constructed cfg = record {
    core = initial;
    seq = fresh cfg.calibration;
    eki = record {
      connected = false;
      state_fresh = false;
      program_ready = false;
      rsi_active = false;
      has_fault = false;
    };
    eki_rx_s = none;
    rsi_connected = false;
    rsi_fault = false;
    rsi_rx_s = none;
    sri_streaming = false;
    sri_rx_s = none;
    controllers_loaded = false;
    tool_synced = false;
    tool_last_try_s = none;
    mode = 0;
    profile = 0;
    active_controller = "";
    cal_teardown_done = true;
  }

  unfoldable pub feed_wrench :
      (List (Sample F) → PayloadFitResult F) → Runtime F → Wrench F → Runtime F
  feed_wrench solve r w = record r { seq = on_wrench solve r.seq w }

  -- Whether a message has come, and is not older than a timeout.
  unfoldable pub is_fresh : Option F → F → F → Bool
  is_fresh none now_s timeout_s = false
  is_fresh (some rx_s) now_s timeout_s = le (now_s ⊖ rx_s) timeout_s

  unfoldable pub health_locked : ManagerConfig F → Runtime F → F → HealthInputs
  unfolding is_fresh
  health_locked cfg r now_s =
      let eki_fresh = is_fresh r.eki_rx_s now_s cfg.eki_state_timeout_s in
      let link = eki_fresh && r.eki.connected && r.eki.state_fresh in
      let rsi_fresh = is_fresh r.rsi_rx_s now_s cfg.rsi_state_timeout_s in
      let rsi_up = rsi_fresh && r.rsi_connected in
      let ready = link && r.eki.program_ready in
      record {
        eki_link = link;
        eki_tcp_connected = r.eki.connected;
        eki_heartbeat_fresh = eki_fresh && r.eki.state_fresh;
        eki_rsi_active = r.eki.rsi_active;
        eki_program_ready =
            if not ready && r.eki.connected && rsi_fresh && rsi_up
            then r.eki.program_ready
            else ready;
        eki_fault = eki_fresh && r.eki.has_fault;
        rsi_topic_fresh = rsi_fresh;
        rsi_connected = rsi_up;
        rsi_fault = rsi_fresh && r.rsi_fault;
        sri_streaming = is_fresh r.sri_rx_s now_s cfg.sri_status_timeout_s && r.sri_streaming;
        tool_synced = r.tool_synced;
        controllers_loaded = r.controllers_loaded;
      }

  -- `now - tool_last_try_s_ >= tool_sync_retry_s`, which holds before the first try.
  abbrev may_retry : Option F → F → F → Bool
  may_retry none now_s retry_s = true
  may_retry (some try_s) now_s retry_s = le retry_s (now_s ⊖ try_s)

  -- The link is really gone, and the tool frame with it.
  unfoldable pub drop_tool : HealthInputs → Runtime F → Runtime F
  drop_tool i r =
      if not i.eki_link && not (i.eki_tcp_connected && i.rsi_topic_fresh && i.rsi_connected)
      then record r { tool_synced = false }
      else r

  unfoldable pub tick_sequencer : HealthInputs → Sequencer F → F → Sequencer F × CalAction F
  tick_sequencer i q now_s =
      tick (if is_active q.phase && not i.sri_streaming then on_stream_lost q else q) now_s

  -- The part of a tick under the mutex. `can_sync` is whether the tool hook is set.
  unfoldable pub tick_locked : ManagerConfig F → Bool → Runtime F → F → Runtime F × TickWork F
  unfolding drop_tool tick_sequencer
  tick_locked cfg can_sync r now_s =
      let i = health_locked cfg r now_s in
      let r1 = drop_tool i r in
      let r2 = record r1 { core = update r1.core i } in
      let want =
        i.eki_link
        && r.eki.program_ready
        && not r2.tool_synced
        && may_retry r.tool_last_try_s now_s cfg.tool_sync_retry_s
        && can_sync in
      let r3 = record r2 { tool_last_try_s = if want then some now_s else r.tool_last_try_s } in
      let (q, act) = tick_sequencer i r.seq now_s in
      let r4 = record r3 { seq = q } in
      let work : Option (Teardown F) → TickWork F =
        λ t. record { want_tool_sync = want; action = act; teardown = t } in
      if is_over q.phase && not r.cal_teardown_done
      then (
        record r4 { cal_teardown_done = true },
        work (
            some (record {
              success = is_done q.phase && q.fit.ok;
              fit = q.fit;
              cal_profile = r.profile;
            })),
      )
      else (r4, work none)

  -- The end of a teardown, under the mutex again.
  unfoldable pub calibration_over : Runtime F → Runtime F
  calibration_over r = record r {
    core = calibration_finished r.core;
    active_controller = "";
    mode = mode_idle;
  }
