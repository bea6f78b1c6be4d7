-- ===== src/Eki/Bridge.antt =====
-- `EkiBridgeRuntime` (src/eki_bridge_runtime.cpp): the slot through which `execute` hands a command to
-- the io thread, and what that thread does to it and to the session. Each definition is a section
-- under `mutex_`; the transport and the parser stand outside.
pub mod Answers
use kuka_iiqka_ros.Prelude.{
  ℕ, ◌+◌, ◌%◌, Bool, true, false, not, ◌&&◌, ◌||◌, ◌==◌, Option, none, some, if◌then◌else◌,
}
use kuka_iiqka_ros.Prelude.Int.{ℤ, pos, negsuc}
use kuka_iiqka_ros.Double.{Double}
use kuka_iiqka_ros.Eki.Session.{
  Frame6, EkiStateFrame, EkiSessionConfig, CommandOutcome, no_outcome, accepted, rejected,
  timed_out, no_frame6, no_state, Session, begin_command, on_state, on_bad_frame, fresh, reset,
  tick,
}

abbrev u32 : ℕ → ℕ
u32 n = n % 4294967296

pub data EkiAction : Type 0 where
  query_state start_rsi stop_rsi set_mode reset_fault get_tool set_tool_base : EkiAction

pub record EkiCommand (F : Type 0) : Type 0 where
  pub seq : ℕ
  pub action : EkiAction
  pub value : ℤ
  pub tool : Frame6 F
  pub base : Frame6 F

-- `kErrNotConnected`.
abbrev pub not_connected : ℤ
not_connected = negsuc 0

pub record ExecuteResult (F : Type 0) : Type 0 where
  pub outcome : CommandOutcome
  pub error_code : ℤ
  pub state : EkiStateFrame F

pub record Bridge (F : Type 0) : Type 0 where
  pub session : Session F
  pub connected : Bool
  pub was_connected_once : Bool
  pub reconnects : ℕ
  pub connect_requested : Bool
  pub next_seq : ℕ
  pub req_active : Bool
  pub req_cmd : EkiCommand F
  pub result_ready : Bool
  pub result : ExecuteResult F

module _ {F : Type 0} where
  unfoldable pub resolve : Bridge F → CommandOutcome → ℤ → Bridge F
  resolve b outcome error_code = record b {
    result = record { outcome = outcome; error_code = error_code; state = b.session.last_state };
    result_ready = true;
  }

  -- `req_active_ && !result_ready_`.
  abbrev pub is_asked : Bridge F → Bool
  is_asked b = b.req_active && not b.result_ready

  -- `execute` up to its wait.
  unfoldable pub execute_begin : Bridge F → EkiAction → ℤ → Frame6 F → Frame6 F → Bridge F
  execute_begin b action value tool base =
      let next = u32 (b.next_seq + 1) in
      record b {
        req_cmd = record {
          seq = b.next_seq;
          action = action;
          value = value;
          tool = tool;
          base = base;
        };
        next_seq = if next == 0 then 1 else next;
        req_active = true;
        result_ready = false;
      }

  -- The io thread, with the link up: the command that it then sends, if there is one.
  unfoldable pub take_request : Bridge F → F → Bridge F × Option (EkiCommand F)
  take_request b now_s =
      let (s, begun) = begin_command b.session b.req_cmd.seq now_s in
      if is_asked b && not b.session.pending
      then (record b { session = s }, if begun then some b.req_cmd else none)
      else (b, none)

  -- A document that came: `none` is one that the parser refuses.
  unfoldable pub on_document : Bridge F → Option (EkiStateFrame F) → F → Bridge F
  on_document b none now_s = record b { session = on_bad_frame b.session }
  on_document b (some f) now_s =
      let (s, outcome) = on_state b.session f now_s in
      let c = record b { session = s } in
      if is_asked b
      then elim outcome [
        | no_outcome ↦ c
        | rejected ↦ resolve c rejected f.ack_code
        | accepted ↦ resolve c accepted (pos 0)
        | timed_out ↦ resolve c timed_out (pos 0)
      ]
      else c

module _ {F : Type 0} ⦃d : Double F⦄ where
  -- `execute` once its wait is over.
  unfoldable pub execute_end : Bridge F → Bridge F × ExecuteResult F
  execute_end b =
      let late : ExecuteResult F = record {
        outcome = timed_out;
        error_code = not_connected;
        state = no_state;
      } in
      (record b { req_active = false }, if not b.result_ready then late else b.result)

  unfoldable pub on_tick : Bridge F → F → Bridge F
  on_tick b now_s =
      let (s, outcome) = tick b.session now_s in
      let c = record b { session = s } in
      if is_asked b then elim outcome [ timed_out ↦ resolve c timed_out (pos 0) | _ ↦ c ] else c

  -- A send that failed.
  unfoldable pub on_send_failed : Bridge F → Bridge F
  on_send_failed b =
      let c = record b { connected = false; session = (reset b.session).0 } in
      if is_asked b then resolve c rejected not_connected else c

  -- A receive that failed.
  unfoldable pub on_receive_failed : Bridge F → Bridge F
  on_receive_failed b =
      let (s, outcome) = reset b.session in
      let c = record b { connected = false; session = s } in
      if is_asked b
      then elim outcome [ no_outcome ↦ c | _ ↦ resolve c timed_out not_connected ]
      else c

  -- With the link down: whether to connect.
  unfoldable pub on_link_down : Bool → Bridge F → Bridge F × Bool
  on_link_down auto_reconnect b =
      let want = auto_reconnect || b.connect_requested in
      let c = record b { connected = false } in
      (if not want && is_asked b then resolve c rejected not_connected else c, want)

  unfoldable pub on_connected : Bridge F → Bridge F
  on_connected b = record b {
    session = (reset b.session).0;
    connected = true;
    connect_requested = false;
    reconnects = if b.was_connected_once then u32 (b.reconnects + 1) else b.reconnects;
    was_connected_once = true;
  }

  unfoldable pub on_connect_failed : Bridge F → Bridge F
  on_connect_failed b = if is_asked b then resolve b rejected not_connected else b

  unfoldable pub constructed : EkiSessionConfig F → Bridge F
  constructed cfg = record {
    session = fresh cfg;
    connected = false;
    was_connected_once = false;
    reconnects = 0;
    connect_requested = false;
    next_seq = 1;
    req_active = false;
    req_cmd = record {
      seq = 0;
      action = query_state;
      value = pos 0;
      tool = no_frame6;
      base = no_frame6;
    };
    result_ready = false;
    result = record { outcome = no_outcome; error_code = pos 0; state = no_state };
  }
