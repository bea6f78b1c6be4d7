-- ===== src/Eki/Node/Tool.antt =====
-- The tool frame of the robot, on its way through the bridge to the manager and to the controller of
-- the force compliance.
use kuka_iiqka_ros.Prelude.{Bool, true, false, ◌==◌, String, some, if◌then◌else◌, ◌≡◌, arith}
use kuka_iiqka_ros.Prelude.Int.{ℤ}
use kuka_iiqka_ros.Double.{Double, nought}
use kuka_iiqka_ros.Eki.Session.{Frame6, EkiStateFrame, begin_command, on_state, reset, snapshot}
use kuka_iiqka_ros.Eki.Bridge.{
  Bridge, execute_begin, execute_end, take_request, on_document, on_connected, resolve,
}
use kuka_iiqka_ros.Eki.Runtime.{status}
use kuka_iiqka_ros.Eki.Node.{EkiState, Response, gets_tool, request, respond, state_message}
use kuka_iiqka_ros.Manager.Setup.{ToolFrame, no_tool, eki_get_tool}
use kuka_iiqka_ros.Controllers.ComplianceShell.{Controller, eki_state_cb, inject_tool}

module _ {F : Type 0} ⦃d : Double F⦄ where
  abbrev pub tool_frame : Frame6 F → Bool → ToolFrame F
  tool_frame t valid = record {
    x = t.x;
    y = t.y;
    z = t.z;
    a = t.a;
    b = t.b;
    c = t.c;
    valid = valid;
  }

  -- What the client of the manager makes of a response.
  abbrev pub hook : Response F → ToolFrame F
  hook r = eki_get_tool (some (r.success, tool_frame r.tool false))

  -- The controller on the message of the bridge.
  abbrev pub hears : {Mat : Type 0} → Controller F Mat → EkiState F → Controller F Mat
  hears s m = eki_state_cb s m.connected m.tool.a m.tool.b m.tool.c

  -- The tool that the manager gets where no command is in flight, it asks the bridge, whose io thread
  -- takes the request, and the robot controller answers it: that of the answering frame, if it
  -- accepts, and an invalid one if it does not.
  pub get_tool-answered :
      (to_string : ℤ → String) (b : Bridge F) (f : EkiStateFrame F) (since_s now_s : F)
      → b.session.pending ≡ false
      → (f.ack_seq == b.next_seq) ≡ true
      → (f.ack_seq == 0) ≡ false
      → let c = (take_request (request b gets_tool) since_s).0 in
        let r = respond to_string (execute_end (on_document c (some f) now_s)).1 in
        (r.success ≡ f.ack_ok) × (hook r ≡ (if f.ack_ok then tool_frame f.tool true else no_tool))
  unfolding request execute_begin take_request begin_command on_document on_state resolve
      execute_end respond eki_get_tool
  get_tool-answered to_string b f since_s now_s idle same other = ground arith

  -- Just after a connection of the bridge, before the robot controller has sent a state, the message
  -- of the bridge says that it is not fresh, but the controller of the force compliance takes the
  -- tool in it, which is all zeros, for a valid one, whatever tool it knew before.
  pub on_connected-tool :
      {Mat : Type 0} (b : Bridge F) (now_s : F) (s : Controller F Mat)
      → let m = state_message (status (on_connected b) now_s) in
        (m.state_fresh ≡ false)
        × ((hears s m).buffers.tool ≡ record { a = nought; b = nought; c = nought; valid = true })
  unfolding state_message status on_connected reset snapshot eki_state_cb inject_tool
  on_connected-tool b now_s s = ground arith
