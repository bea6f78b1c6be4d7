-- ===== src/Eki/Node/Tests.antt =====
-- A tool that is asked for, and one that a connection wipes out.
use kuka_iiqka_ros.Prelude.{true, false, String, some, ◌≡◌, refl, if◌then◌else◌, ◌==◌}
use kuka_iiqka_ros.Prelude.Int.{ℤ, pos, negsuc}
use kuka_iiqka_ros.Double.{nought}
use kuka_iiqka_ros.Double.Fixed.{Fixed, num, fixed_double}
use kuka_iiqka_ros.Eki.Session.{Frame6, EkiStateFrame, no_state, rejected, timed_out}
use kuka_iiqka_ros.Eki.Bridge.{
  Bridge, ExecuteResult, constructed, execute_end, take_request, on_document, on_connected,
}
use kuka_iiqka_ros.Eki.Runtime.{status}
use kuka_iiqka_ros.Manager.Node.{level_error}
use kuka_iiqka_ros.Controllers.ComplianceShell.Tests.{controller}
use kuka_iiqka_ros.Eki.Node.{
  gets_tool, request, respond, state_message, outcome_message, diagnose, connect_response,
}
use kuka_iiqka_ros.Eki.Node.Tool.{tool_frame, hook, hears, get_tool-answered, on_connected-tool}

abbrev digits : ℤ → String
digits (pos n) = if n == 7 then "7" else "?"
digits (negsuc n) = "-"

abbrev linked : Bridge Fixed
linked =
    record (constructed
      (record { response_timeout_s = num (pos 2); state_timeout_s = num (pos 1) })) {
        connected = true;
      }

abbrev mounted : Frame6 Fixed
mounted = let v = num (pos 5) in record { x = v; y = v; z = v; a = num (pos 9); b = v; c = v }

abbrev answer : EkiStateFrame Fixed
answer = record no_state { ack_seq = 1; ack_ok = true; tool = mounted }

get_tool-answered_example :
    let c = (take_request (request linked gets_tool) (num (pos 3))).0 in
    let r = respond digits (execute_end (on_document c (some answer) (num (pos 4)))).1 in
    (r.success ≡ true) × (hook r ≡ tool_frame mounted true)
unfolding constructed
get_tool-answered_example =
    get_tool-answered digits linked answer (num (pos 3)) (num (pos 4)) refl refl refl

on_connected-tool_example :
    let m = state_message (status (on_connected linked) (num (pos 3))) in
    (m.state_fresh ≡ false)
    × ((hears controller m).buffers.tool
        ≡ record { a = nought; b = nought; c = nought; valid = true })
on_connected-tool_example = on_connected-tool linked (num (pos 3)) controller

abbrev refusal : ℤ → ExecuteResult Fixed
refusal code = record { outcome = rejected; error_code = code; state = no_state }

-- The codes of the robot controller are not negative: -1 is the bridge's own.
messages :
    (outcome_message digits (refusal (pos 7)) ≡ "rejected by KRC (code 7)")
    × (outcome_message digits (refusal (negsuc 0)) ≡ "not connected to the KRC")
    × (outcome_message digits (record (refusal (pos 0)) { outcome = timed_out })
        ≡ "KRC response timeout")
    × (connect_response false ≡ (false, "connect timeout"))
unfolding outcome_message connect_response
messages = (refl, refl, refl, refl)

broken :
    diagnose (status (constructed linked.session.cfg) (num (pos 3)))
    ≡ (level_error, "EKI disconnected")
unfolding diagnose status constructed
broken = refl
