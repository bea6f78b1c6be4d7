-- ===== src/Eki/Node.antt =====
-- The node of the bridge (src/eki_bridge_node.cpp): its parameters, its services around `execute`, its
-- state message and its diagnostics. `to_string` is `std::to_string` of an `int`.
mod Tool
mod Tests
use Prim.Native.String.{◌++◌}
use kuka_iiqka_ros.Prelude.{
  ℕ, ◌%◌, ◌-◌, ◌==◌, Bool, true, false, not, String, Option, none, some, if◌then◌else◌,
}
use kuka_iiqka_ros.Prelude.Int.{ℤ, pos, negsuc}
use kuka_iiqka_ros.Double.{Double, of_ℕ}
use kuka_iiqka_ros.Xml.{value_or}
use kuka_iiqka_ros.Params.{Params, port_of_int}
use kuka_iiqka_ros.Manager.Node.{Level, level_ok, level_warn, level_error}
use kuka_iiqka_ros.Eki.Session.{
  Frame6, EkiSessionConfig, CommandOutcome, no_outcome, accepted, rejected, timed_out, no_frame6,
}
use kuka_iiqka_ros.Eki.Bridge.{
  EkiAction, start_rsi, stop_rsi, set_mode, reset_fault, get_tool, set_tool_base, Bridge,
  ExecuteResult, execute_begin,
}
use kuka_iiqka_ros.Eki.Runtime.{EkiBridgeStatus}

pub record EkiBridgeConfig (F : Type 0) : Type 0 where
  pub kuka_ip : String
  pub eki_port : ℕ
  pub connect_timeout_ms : ℤ
  pub receive_timeout_ms : ℤ
  pub reconnect_backoff_s : F
  pub auto_reconnect : Bool
  pub session : EkiSessionConfig F

-- A request to one of the services that run `execute`.
pub data Request (F : Type 0) : Type 0 where
  starts_program stops_program resets_fault gets_tool : Request F
  sets_mode : ℕ → Request F
  sets_tool_base : Frame6 F → Frame6 F → Request F

-- A response; `tool` is that of `get_tool`, which alone has one.
pub record Response (F : Type 0) : Type 0 where
  pub success : Bool
  pub message : String
  pub tool : Frame6 F

-- The message on the state topic, without its stamp.
pub record EkiState (F : Type 0) : Type 0 where
  pub connected : Bool
  pub state_fresh : Bool
  pub program_ready : Bool
  pub rsi_active : Bool
  pub has_fault : Bool
  pub mode : ℕ
  pub reconnects : ℕ
  pub state_age : Option F
  pub tool : Frame6 F

-- `static_cast<std::uint8_t>` of an `int`.
abbrev u8_of_int : ℤ → ℕ
u8_of_int (pos n) = n % 256
u8_of_int (negsuc n) = 255 - n % 256

abbrev is_accepted : CommandOutcome → Bool
is_accepted accepted = true
is_accepted _ = false

-- `kErrNotConnected` is -1.
abbrev is_not_connected : ℤ → Bool
is_not_connected (pos n) = false
is_not_connected (negsuc n) = n == 0

module _ {F : Type 0} ⦃d : Double F⦄ where
  -- The configuration, and how long `connect` waits.
  unfoldable pub load_config : Params F → EkiBridgeConfig F × ℤ
  load_config ps = (
    record {
      kuka_ip = value_or "192.168.1.10" (ps.string "kuka_ip");
      eki_port = port_of_int (value_or (pos 54600) (ps.int "eki_port"));
      connect_timeout_ms = value_or (pos 1000) (ps.int "connect_timeout_ms");
      receive_timeout_ms = value_or (pos 50) (ps.int "receive_timeout_ms");
      reconnect_backoff_s = value_or (of_ℕ 1) (ps.double "reconnect_backoff_s");
      auto_reconnect = value_or true (ps.bool "auto_reconnect");
      session = record {
        response_timeout_s = value_or (of_ℕ 2) (ps.double "response_timeout_s");
        state_timeout_s = value_or (of_ℕ 1) (ps.double "state_timeout_s");
      };
    },
    value_or (pos 3000) (ps.int "connect_wait_ms"),
  )

  -- The call of `execute` up to its wait.
  unfoldable pub request : Bridge F → Request F → Bridge F
  request b starts_program = execute_begin b start_rsi (pos 0) no_frame6 no_frame6
  request b stops_program = execute_begin b stop_rsi (pos 0) no_frame6 no_frame6
  request b resets_fault = execute_begin b reset_fault (pos 0) no_frame6 no_frame6
  request b gets_tool = execute_begin b get_tool (pos 0) no_frame6 no_frame6
  request b (sets_mode mode) = execute_begin b set_mode (pos mode) no_frame6 no_frame6
  request b (sets_tool_base tool base) = execute_begin b set_tool_base (pos 0) tool base

  unfoldable pub state_message : EkiBridgeStatus F → EkiState F
  state_message st = record {
    connected = st.connected;
    state_fresh = st.session.state_fresh;
    program_ready = st.session.last_state.ready;
    rsi_active = st.session.last_state.rsi_active;
    has_fault = st.session.last_state.has_fault;
    mode = u8_of_int st.session.last_state.mode;
    reconnects = st.reconnects;
    state_age = st.session.state_age_s;
    tool = st.session.last_state.tool;
  }

  -- The level and the message.
  unfoldable pub diagnose : EkiBridgeStatus F → Level × String
  diagnose st =
      if not st.connected
      then (level_error, "EKI disconnected")
      else if st.session.last_state.has_fault
      then (level_error, "KRC fault latched")
      else if not st.session.state_fresh
      then (level_warn, "state heartbeat stale")
      else (level_ok, "ok")

module _ {F : Type 0} (to_string : ℤ → String) where
  unfoldable pub outcome_message : ExecuteResult F → String
  outcome_message r = elim (r.outcome) [
    | accepted ↦ "ok"
    | rejected ↦
        if is_not_connected r.error_code
        then "not connected to the KRC"
        else "rejected by KRC (code " ++ (to_string r.error_code ++ ")")
    | timed_out ↦ "KRC response timeout"
    | no_outcome ↦ "no result"
  ]

  -- What a service makes of the result.
  unfoldable pub respond : ExecuteResult F → Response F
  respond r = record {
    success = is_accepted r.outcome;
    message = outcome_message r;
    tool = r.state.tool;
  }

-- The service `connect`, of what `connectNow` returns.
unfoldable pub connect_response : Bool → Bool × String
connect_response success = (success, if success then "connected" else "connect timeout")
