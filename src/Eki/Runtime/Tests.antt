-- ===== src/Eki/Runtime/Tests.antt =====
-- The io thread of the bridge over a connection, a command in two parts, and the end of the peer. The
-- parser of the tests refuses every document.
use kuka_iiqka_ros.Prelude.{ℕ, true, false, List, [], ◌∷◌, Option, some, none, ◌≡◌, refl}
use kuka_iiqka_ros.Prelude.Int.{pos}
use kuka_iiqka_ros.Double.Fixed.{Fixed, num, fixed_double}
use kuka_iiqka_ros.Xml.{Xml}
use kuka_iiqka_ros.Eki.Session.{EkiSessionConfig, no_frame6, begin_command, reset, tick}
use kuka_iiqka_ros.Eki.Bridge.{
  start_rsi, EkiCommand, execute_begin, take_request, on_link_down, on_connected, on_tick,
}
use kuka_iiqka_ros.Eki.Bridge
use kuka_iiqka_ros.Eki.Frame.{serialize_command}
use kuka_iiqka_ros.Eki.Receive.{on_link_up, on_received}
use kuka_iiqka_ros.Eki.Transport.{
  fresh, close, close_fd, connect_socket, connect, send_loop, send, receive, connected, again,
  wrote, times_out, readable, bytes, would_block,
}
use kuka_iiqka_ros.Eki.Runtime.{
  Runtime, Meets, executes, constructed, post, posts, down, on_answer, receives, on_sent, sends,
  command_text, up, turn, run,
}
use kuka_iiqka_ros.Eki.Runtime.Turns.{Links, run-constructed-Links}

abbrev no_xml : Xml ℕ Fixed
no_xml = record {
  parse = λ bytes. none;
  first_child = λ e name. none;
  double_attribute = λ e name. none;
  int_attribute = λ e name. none;
  unsigned_attribute = λ e name. none;
  text = λ e. none;
  scan_u64 = λ t. none;
}

abbrev two_bytes : EkiCommand Fixed → List ℕ
two_bytes c = c.seq ∷ 9 ∷ []

abbrev config : EkiSessionConfig Fixed
config = record { response_timeout_s = num (pos 5); state_timeout_s = num (pos 1) }

abbrev quiet : Meets Fixed
quiet = record {
  first = [];
  second = [];
  connecting = record {
    socket = some 3;
    address_ok = true;
    connecting = connected;
    writable = false;
    no_error = false;
  };
  sending = again ∷ wrote 1 ∷ wrote 1 ∷ [];
  polling = times_out;
  receiving = would_block;
  since_s = num (pos 1);
  now_s = num (pos 1);
}

abbrev asking : Meets Fixed
asking = record quiet { first = executes start_rsi (pos 0) no_frame6 no_frame6 ∷ [] }

abbrev ending : Meets Fixed
ending = record quiet { polling = readable; receiving = bytes [] }

run-constructed-Links_example :
    Links two_bytes (run no_xml two_bytes true (constructed config) (quiet ∷ asking ∷ ending ∷ []))
run-constructed-Links_example =
    run-constructed-Links no_xml two_bytes true config (quiet ∷ asking ∷ ending ∷ [])

delivered : Option (Runtime Fixed) → Option (List ℕ)
delivered none = none
delivered (some s) = some s.link.delivered

whole_command :
    delivered (run no_xml two_bytes true (constructed config) (quiet ∷ asking ∷ []))
    ≡ some (1 ∷ 9 ∷ [])
unfolding delivered run turn constructed Bridge.constructed fresh down up on_link_down on_link_up
    on_connected posts post close close_fd connect connect_socket reset take_request begin_command
    execute_begin command_text serialize_command sends send send_loop on_sent receives receive
    on_answer on_received on_tick tick
whole_command = refl
