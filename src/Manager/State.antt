-- ===== src/Manager/State.antt =====
-- `SystemStateCore` (src/system_state_core.cpp): the state machine of the whole system. `update`
-- judges a health snapshot, and the `request` methods are the operator's commands.
mod Events
pub mod Latch
mod Rounds
mod Race
mod Tests
use kuka_iiqka_ros.Prelude.{ℕ, Bool, true, false, not, ◌&&◌, ◌||◌, String, ◌==◌, if◌then◌else◌}

pub data SystemState : Type 0 where
  offline connected ready servoing calibrating degraded fault : SystemState

-- The values of the enumeration, which are also those on the wire.
abbrev pub value : SystemState → ℕ
value offline = 0
value connected = 1
value ready = 2
value servoing = 3
value calibrating = 4
value degraded = 5
value fault = 6

infix 50 ◌is◌
abbrev pub ◌is◌ : SystemState → SystemState → Bool
s is t = value s == value t

pub record HealthInputs : Type 0 where
  pub eki_link : Bool
  pub eki_tcp_connected : Bool
  pub eki_heartbeat_fresh : Bool
  pub eki_rsi_active : Bool
  pub eki_program_ready : Bool
  pub eki_fault : Bool
  pub rsi_topic_fresh : Bool
  pub rsi_connected : Bool
  pub rsi_fault : Bool
  pub sri_streaming : Bool
  pub tool_synced : Bool
  pub controllers_loaded : Bool

pub record Verdict : Type 0 where
  pub accepted : Bool
  pub reason : String

abbrev pub accept : Verdict
accept = record { accepted = true; reason = "" }

abbrev pub refuse : String → Verdict
refuse why = record { accepted = false; reason = why }

pub record Core : Type 0 where
  pub state : SystemState
  pub servo_requested : Bool
  pub is_calibrating : Bool

abbrev pub initial : Core
initial = record { state = offline; servo_requested = false; is_calibrating = false }

unfoldable pub eki_link_layered : HealthInputs → Bool
eki_link_layered i =
    if i.eki_link then true else i.rsi_topic_fresh && i.rsi_connected && i.eki_tcp_connected

unfoldable pub fault_is_session_residue : Core → HealthInputs → Bool
fault_is_session_residue c i =
    if c.servo_requested || c.is_calibrating
    then false
    else i.eki_heartbeat_fresh && not i.eki_rsi_active

unfoldable pub ready_conditions : HealthInputs → Bool
ready_conditions i =
    eki_link_layered i
    && i.eki_program_ready
    && i.sri_streaming
    && i.tool_synced
    && i.controllers_loaded

unfoldable pub full_conditions : HealthInputs → Bool
full_conditions i = ready_conditions i && i.rsi_topic_fresh && i.rsi_connected

-- The branch of `update` for a fault that is live now.
abbrev to_fault : Core
to_fault = record { state = fault; servo_requested = false; is_calibrating = false }

-- The branch of `update` while a calibration runs.
supervise_calibration : Core → HealthInputs → Core
supervise_calibration c i =
    let link_ok = eki_link_layered i && i.rsi_topic_fresh && i.rsi_connected && i.sri_streaming in
    if link_ok
    then record c { state = calibrating }
    else record c { state = fault; is_calibrating = false }

-- The branch of `update` with no command standing.
idle_state : HealthInputs → SystemState
idle_state i =
    if not (eki_link_layered i) then offline else if ready_conditions i then ready else connected

unfoldable pub update : Core → HealthInputs → Core
unfolding supervise_calibration idle_state
update c i =
    let live_rsi_fault = i.rsi_fault && not (fault_is_session_residue c i) in
    if i.eki_fault || live_rsi_fault
    then to_fault
    else if c.state is fault
    then c
    else if c.is_calibrating
    then supervise_calibration c i
    else if c.servo_requested
    then record c { state = if full_conditions i then servoing else degraded }
    else record c { state = idle_state i }

unfoldable pub request_start : Core → HealthInputs → Core × Verdict
request_start c i =
    if not (c.state is ready)
    then (c, refuse "start requires READY")
    else if not i.rsi_topic_fresh
    then (c, refuse "RSI hw node state topic is stale")
    else if not (ready_conditions i)
    then (c, refuse "READY preconditions lost")
    else (record c { servo_requested = true }, accept)

unfoldable pub request_stop : Core → Core × Verdict
request_stop c =
    if not (c.state is servoing) && not (c.state is degraded)
    then (c, refuse "stop requires SERVOING or DEGRADED")
    else (record c { servo_requested = false }, accept)

unfoldable pub request_calibration : Core → HealthInputs → Core × Verdict
request_calibration c i =
    if not (c.state is ready)
    then (c, refuse "calibration requires READY")
    else if not i.rsi_topic_fresh || not i.rsi_connected
    then (c, refuse "RSI link not valid")
    else if not i.sri_streaming
    then (c, refuse "SRI not streaming")
    else (record c { is_calibrating = true }, accept)

unfoldable pub calibration_finished : Core → Core
calibration_finished c = record c { is_calibrating = false }

unfoldable pub request_reset : Core → Core × Verdict
request_reset c =
    if not (c.state is fault)
    then (c, refuse "reset requires FAULT")
    else (record c { state = offline }, accept)

unfoldable pub allow_zero_sensor : Core → Bool
allow_zero_sensor c = (c.state is connected) || (c.state is ready)
