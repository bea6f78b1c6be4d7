-- ===== src/Eki/MockServer/Tests.antt =====
-- The simulated robot program against the bridge, with whole numbers. The parser of the tests takes
-- the first byte for the action and the value of a command with the number 1, and for the numbers of
-- a state frame.
use kuka_iiqka_ros.Prelude.{
  ℕ, Bool, true, false, List, [], ◌∷◌, Option, none, some, ◌≡◌, if◌then◌else◌, refl, arith,
}
use kuka_iiqka_ros.Prelude.Int.{ℤ, pos, negsuc}
use kuka_iiqka_ros.Double.Fixed.{Fixed, num, fixed_double}
use kuka_iiqka_ros.Xml.{Xml}
use kuka_iiqka_ros.Eki.Session.{EkiStateFrame, EkiSessionConfig, accepted, rejected, no_frame6}
use kuka_iiqka_ros.Eki.Bridge.{
  start_rsi, Bridge, execute_begin, take_request, on_document, execute_end,
}
use kuka_iiqka_ros.Eki.Bridge
use kuka_iiqka_ros.Eki.MockServer.{
  MockServer, Report, cmd_end_tag, cut, cut_loop, to_action, decide, send_state, handle_command,
  inject_fault, on_accepted, constructed, read_tool, parse_command, on_command, on_documents,
  on_received,
}
use kuka_iiqka_ros.Eki.MockServer.Safety.{
  Event, accepts, faults, gets, IsSafe, step, run, run-constructed,
}
use kuka_iiqka_ros.Eki.MockServer.Execute.{perform, Says, after, is_done, execute-performs}

abbrev toy_parse : List ℕ → Option ℕ
toy_parse [] = none
toy_parse (byte ∷ bytes) = some byte

abbrev toy_xml : Xml ℕ Fixed
toy_xml = record {
  parse = toy_parse;
  first_child = λ e name. some e;
  double_attribute = λ e name. none;
  int_attribute = λ e name. some (pos e);
  unsigned_attribute = λ e name. some 1;
  text = λ e. none;
  scan_u64 = λ t. none;
}

abbrev bit : Bool → ℕ
bit true = 1
bit false = 0

abbrev is_negative : ℤ → ℕ
is_negative (pos n) = 0
is_negative (negsuc n) = 1

abbrev size_of : ℤ → ℕ
size_of (pos n) = n
size_of (negsuc n) = n

abbrev toy_print : Report Fixed → List ℕ
toy_print r =
    r.ack_seq
    ∷ bit r.ack_ok
    ∷ is_negative r.ack_code
    ∷ size_of r.ack_code
    ∷ bit r.table.rsi_active
    ∷ []

-- A start, as `1</RobotCommand>`.
abbrev start : List ℕ
start = 1 ∷ 60 ∷ 47 ∷ 82 ∷ 111 ∷ 98 ∷ 111 ∷ 116 ∷ 67 ∷ 111 ∷ 109 ∷ 109 ∷ 97 ∷ 110 ∷ 100 ∷ 62 ∷ []

abbrev events : List (Event Fixed)
events = accepts ∷ gets start ∷ faults ∷ gets start ∷ []

run-constructed_example : IsSafe (run toy_xml toy_print constructed events).table
run-constructed_example = run-constructed toy_xml toy_print events

-- The first start servoes, the fault stops, and the second start is counted and refused.
faulted :
    let s = run toy_xml toy_print constructed events in
    (s.commands ≡ 2) × (s.table.rsi_active ≡ false) × (s.table.has_fault ≡ true)
unfolding constructed step on_accepted inject_fault on_received on_documents on_command
    handle_command decide parse_command to_action cut cut_loop cmd_end_tag
faulted = (refl, refl, refl)

abbrev config : EkiSessionConfig Fixed
config = record { response_timeout_s = num (pos 1); state_timeout_s = num (pos 1) }

abbrev bridge : Bridge Fixed
bridge = Bridge.constructed config

abbrev mock : MockServer Fixed
mock = on_accepted constructed

abbrev answer : List ℕ
answer = 1 ∷ 1 ∷ 0 ∷ 0 ∷ 1 ∷ []

abbrev frame : EkiStateFrame Fixed
frame = record {
  ack_seq = 1;
  ack_ok = true;
  ack_code = pos 0;
  ready = true;
  rsi_active = true;
  has_fault = false;
  mode = pos 0;
  tool = no_frame6;
  valid = true;
}

bit-true : (b : Bool) → bit b ≡ 1 → true ≡ b
bit-true true e = refl
bit-true false e = ground arith

zero_code : (v : ℤ) → is_negative v ≡ 0 → size_of v ≡ 0 → pos 0 ≡ v
zero_code (pos n) e f = ground arith
zero_code (negsuc n) e f = ground arith

frame-Says : (r : Report Fixed) → toy_print r ≡ answer → Says r frame
frame-Says r e = record {
  seq = ground arith;
  ok = bit-true r.ack_ok (ground arith);
  code = zero_code r.ack_code (ground arith) (ground arith);
  rsi_active = bit-true r.table.rsi_active (ground arith);
}

-- A start that is performed.
execute-performs_example :
    let c = execute_begin bridge start_rsi (pos 1) no_frame6 no_frame6 in
    let (t, sent) = take_request c (num (pos 1)) in
    let (u, r) = execute_end (on_document t (some frame) (num (pos 1))) in
    let table = (on_received toy_xml toy_print mock start).0.table in
    let done = perform mock.table start_rsi (pos 1) no_frame6 in
    (sent ≡ some c.req_cmd)
    × (r.outcome ≡ (if is_done done then accepted else rejected))
    × (table ≡ after mock.table done)
    × (r.state.rsi_active ≡ table.rsi_active)
execute-performs_example =
    execute-performs toy_xml toy_print bridge start_rsi (pos 1) no_frame6 no_frame6 (num (pos 1))
      (num (pos 1)) mock start answer 1 frame
      (unfold Bridge.constructed in record { not_zero = omega arith; in_range = omega arith })
      (unfold Bridge.constructed in refl) (unfold on_accepted constructed in refl)
      (unfold cmd_end_tag in refl) (omega arith)
      (unfold execute_begin Bridge.constructed parse_command to_action read_tool in refl)
      (unfold on_accepted constructed on_received on_documents on_command handle_command send_state
          decide parse_command to_action cut cut_loop cmd_end_tag in
        refl)
      frame-Says
