-- ===== src/Rsi/Node/Tests.antt =====
-- The node with whole numbers. The parser of the tests refuses a datagram that begins with 0, and takes
-- the first byte of another for each value.
use text.Mathlib.Text.{◌==◌}
use kuka_iiqka_ros.Prelude.{
  ℕ, zero, suc, true, List, [], ◌∷◌, Option, none, some, ◌≡◌, refl, if◌then◌else◌,
}
use kuka_iiqka_ros.Prelude.Int.{pos, negsuc}
use kuka_iiqka_ros.Double.{clamp}
use kuka_iiqka_ros.Double.Fixed.{Fixed, num, nan, fixed_double, Fixed-IsOrdered}
use kuka_iiqka_ros.Xml.{Xml}
use kuka_iiqka_ros.Params.{Params}
use kuka_iiqka_ros.Sfc.Types.{CartesianCorrection, zero_correction}
use kuka_iiqka_ros.Rsi.Frame.{RobFrame, SenFrame, parse_rob_frame, serialize_sen_frame}
use kuka_iiqka_ros.Rsi.Monitor.{on_frame}
use kuka_iiqka_ros.Rsi.Limiter.{clamp_all, clamp_axis}
use kuka_iiqka_ros.Rsi.Limiter.Bounds.{InLimits}
use kuka_iiqka_ros.Rsi.Hardware.{
  configured, set_command, take_fault_clear, on_parsed, read, reply, write,
}
use kuka_iiqka_ros.Rsi.Udp.{
  Udp, Peer, BindAnswers, arrives, closed, bind, receive, send_to_last_sender,
}
use kuka_iiqka_ros.Rsi.Node.{Node, Meets, load_config, configure, init, turn}
use kuka_iiqka_ros.Rsi.Node.Negative.{negative_limit}
use kuka_iiqka_ros.Rsi.Node.Outputs.{run-InLimits}

abbrev toy_parse : List ℕ → Option ℕ
toy_parse [] = none
toy_parse (zero ∷ bytes) = none
toy_parse (suc n ∷ bytes) = some (suc n)

abbrev toy_xml : Xml ℕ Fixed
toy_xml = record {
  parse = toy_parse;
  first_child = λ e name. some e;
  double_attribute = λ e name. some (num (pos e));
  int_attribute = λ e name. some (pos e);
  unsigned_attribute = λ e name. some e;
  text = λ e. some "77";
  scan_u64 = λ t. some 77;
}

abbrev one : Fixed
one = num (pos 1)

abbrev toy_print : SenFrame Fixed → List ℕ
toy_print f = f.ipoc ∷ []

abbrev server : Fixed → Params Fixed
server lim = record {
  double = λ name. if name == "max_correction_trans" then some lim else some (num (pos 3));
  doubles = λ name. none;
  int = λ name. if name == "listen_port" then some (pos 65540) else none;
  bool = λ name. none;
  string = λ name. none;
}

abbrev bound : BindAnswers
bound = record { socket = some 5; address_ok = true; bound_ok = true; port = some 4 }

abbrev udp : Udp
udp = record { fd = some 5; bound_port = 4; last_sender = none }

abbrev node : Fixed → Node Fixed
node lim = record {
  hw = configured (record { max_trans = lim; max_rot = num (pos 3) }) 5;
  udp = udp;
}

abbrev robot : Peer
robot = record { address = 1; port = 1 }

abbrev stray : Peer
stray = record { address = 2; port = 2 }

abbrev command : CartesianCorrection Fixed
command = record zero_correction { x = num (pos 9); y = nan }

abbrev valid : Meets Fixed
valid = record { arrival = arrives robot (8 ∷ []); command = command; sent = some 1 }

-- The port wraps.
wraps : (load_config (server one)).listen_port ≡ 4
unfolding load_config
wraps = refl

run-InLimits_example :
    (f : SenFrame Fixed) × (◌≡◌ {A = List ℕ} (77 ∷ []) (toy_print f))
    × InLimits (load_config (server (num (pos 5)))).limits f.corr
run-InLimits_example =
    run-InLimits toy_xml one toy_print Fixed-IsOrdered (server (num (pos 5))) closed bound
      (node (num (pos 5))) (valid ∷ []) valid robot (77 ∷ [])
      (unfold load_config in record { trans = refl; rot = refl })
      (unfold init configure bind load_config in refl)
      (unfold turn receive read on_parsed take_fault_clear parse_rob_frame set_command write reply
          serialize_sen_frame send_to_last_sender on_frame configured clamp_all clamp_axis clamp in
        refl)

abbrev linked : Node Fixed
linked = record {
  hw = set_command (read toy_xml one (node (num (pos 5))).hw (8 ∷ [])) zero_correction;
  udp = record udp { last_sender = some robot };
}

abbrev late : SenFrame Fixed
late = record {
  corr = record zero_correction { x = num (pos 5) };
  stop = 0;
  watchdog = 1;
  ipoc = 77;
}

abbrev seen : RobFrame Fixed
seen = record {
  pose = record {
    x = num (pos 8);
    y = num (pos 8);
    z = num (pos 8);
    a = num (pos 8);
    b = num (pos 8);
    c = num (pos 8);
  };
  axis_deg = record {
    a1 = num (pos 8);
    a2 = num (pos 8);
    a3 = num (pos 8);
    a4 = num (pos 8);
    a5 = num (pos 8);
    a6 = num (pos 8);
  };
  delay = num (pos 8);
  mode = pos 8;
  ipoc = 77;
}

-- A limit of -2 and a step of 2.
negative_limit_example :
    (f : SenFrame Fixed) × ((reply (read toy_xml one (node (num (negsuc 1))).hw (8 ∷ []))).1
      ≡ some f)
    × (f.stop ≡ 0)
    × (f.corr.x ≡ num (pos 2))
    × (f.corr.y ≡ num (pos 2))
    × (f.corr.z ≡ num (pos 2))
negative_limit_example =
    negative_limit Fixed-IsOrdered toy_xml one (server (num (negsuc 1))) (num (negsuc 1)) closed
      bound (node (num (negsuc 1))) 8 [] seen refl refl refl
      (unfold init configure bind load_config in refl) (unfold parse_rob_frame in refl)
