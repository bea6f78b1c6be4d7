-- ===== src/Rsi/Mock/Tests.antt =====
-- The simulated controller with whole numbers. The parser of the tests takes a text for a document whose
-- every value is its first byte, and whose IPOC is 77.
use kuka_iiqka_ros.Prelude.{ℕ, true, false, List, [], ◌∷◌, Option, none, some, String, ◌≡◌, refl}
use kuka_iiqka_ros.Prelude.Int.{ℤ, pos}
use kuka_iiqka_ros.Double.{clamp}
use kuka_iiqka_ros.Double.Fixed.{Fixed, num, fixed_double}
use kuka_iiqka_ros.Sfc.Types.{CartesianState, CartesianCorrection, zero_correction}
use kuka_iiqka_ros.Xml.{Xml}
use kuka_iiqka_ros.Rsi.Frame.{RobFrame, SenFrame, parse_rob_frame}
use kuka_iiqka_ros.Rsi.Monitor.{on_frame}
use kuka_iiqka_ros.Rsi.Limiter.{clamp_all, clamp_axis}
use kuka_iiqka_ros.Rsi.Hardware
use kuka_iiqka_ros.Rsi.Hardware.{
  RobotHw, configured, set_command, take_fault_clear, on_parsed, read,
}
use kuka_iiqka_ros.Rsi.Mock.{
  Mock, Reply, constructed, build_state_frame, parse_reply, integrate, on_reply, apply_reply,
  receive_reply_window, drain, note_reply_timeout,
}
use kuka_iiqka_ros.Rsi.Mock.Loop.{Event, builds, gets, step, built, applied, reply-applied}

abbrev toy_parse : List ℕ → Option ℕ
toy_parse [] = none
toy_parse (byte ∷ bytes) = some byte

abbrev toy_xml : Xml ℕ Fixed
toy_xml = record {
  parse = toy_parse;
  first_child = λ e name. some e;
  double_attribute = λ e name. some (num (pos e));
  int_attribute = λ e name. some (pos e);
  unsigned_attribute = λ e name. some e;
  text = λ e. some "77";
  scan_u64 = λ t. some 77;
}

abbrev toy_int64 : ℕ → String → Option ℤ
toy_int64 e name = some (pos e)

abbrev toy_print : CartesianState Fixed → ℕ → List ℕ
toy_print pose ipoc = 8 ∷ []

abbrev all_of : ℤ → CartesianState Fixed
all_of v = record { x = num v; y = num v; z = num v; a = num v; b = num v; c = num v }

abbrev mock : Mock Fixed
mock = record {
  pose = all_of (pos 100);
  next_ipoc = 77;
  ipoc_step = 4;
  awaited_ipoc = 0;
  awaiting = false;
  stats = record {
    frames_sent = 0;
    replies_received = 0;
    reply_timeouts = 0;
    ipoc_echo_errors = 0;
    parse_errors = 0;
    last_stop = pos 0;
    last_watchdog = 0;
  };
}

begins : constructed (record { start = all_of (pos 100); ipoc_start = 77; ipoc_step = 4 }) ≡ mock
unfolding constructed
begins = refl

-- A reply before a frame, a frame, the reply to it, and the reply once more.
abbrev events : List Event
events = gets (5 ∷ []) ∷ builds 1024 ∷ gets (5 ∷ []) ∷ gets (5 ∷ []) ∷ []

moves_once :
    (applied toy_xml toy_int64 toy_print mock events ≡ 1)
    × (built toy_xml toy_int64 toy_print mock events ≡ 1)
unfolding step build_state_frame apply_reply parse_reply on_reply
moves_once = (refl, refl)

-- An empty window, and one whose first datagram is no reply.
waits :
    ((receive_reply_window toy_xml toy_int64 mock []).0.stats.reply_timeouts ≡ 1)
    × ((receive_reply_window toy_xml toy_int64
          (build_state_frame toy_print mock 1024).0
          ([] ∷ (5 ∷ []) ∷ [])).1
        ≡ true)
unfolding receive_reply_window drain note_reply_timeout build_state_frame apply_reply parse_reply
    on_reply
waits = (refl, refl)

abbrev command : CartesianCorrection Fixed
command = record zero_correction { x = num (pos 2) }

abbrev one : Fixed
one = num (pos 1)

abbrev hw : RobotHw Fixed
hw = configured (record { max_trans = num (pos 5); max_rot = num (pos 3) }) 2

abbrev seen : RobFrame Fixed
seen = record {
  pose = all_of (pos 8);
  axis_deg = record {
    a1 = num (pos 8);
    a2 = num (pos 8);
    a3 = num (pos 8);
    a4 = num (pos 8);
    a5 = num (pos 8);
    a6 = num (pos 8);
  };
  delay = num (pos 8);
  mode = pos 8;
  ipoc = 77;
}

abbrev sent : SenFrame Fixed
sent = record { corr = command; stop = 0; watchdog = 1; ipoc = 77 }

abbrev returned : Reply ℕ
returned = record { sen = 2; rkorr = 2; echoed = 77 }

reply-applied_example :
    let (t, ok) =
      apply_reply toy_xml toy_int64 (build_state_frame toy_print mock 1024).0 (2 ∷ []) in
    (ok ≡ true)
    × (t.pose ≡ integrate toy_xml toy_int64 mock.pose 2)
    × (t.stats.ipoc_echo_errors ≡ mock.stats.ipoc_echo_errors)
unfolding build_state_frame parse_rob_frame parse_reply Hardware.reply set_command read on_parsed
    take_fault_clear on_frame configured clamp_all clamp_axis clamp
reply-applied_example =
    reply-applied toy_xml toy_int64 toy_print one mock hw command 8 [] (2 ∷ []) seen sent returned
      refl refl refl refl refl refl
