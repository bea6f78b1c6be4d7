-- ===== src/Rsi/Hardware/Tests.antt =====
-- The hardware interface with whole numbers, limits of 5 and 3, and a fault after two misses. The
-- parser of the tests takes a text for a document whose every value is its first byte.
use kuka_iiqka_ros.Prelude.{ℕ, List, [], ◌∷◌, Option, none, some, ◌≡◌, refl, arith, All}
use kuka_iiqka_ros.Prelude.Int.{pos, negsuc}
use kuka_iiqka_ros.Double.Fixed.{Fixed, num, nan, fixed_double}
use kuka_iiqka_ros.Double.{clamp}
use kuka_iiqka_ros.Sfc.Types.{CartesianCorrection, zero_correction}
use kuka_iiqka_ros.Xml.{Xml}
use kuka_iiqka_ros.Rsi.Frame.{RobFrame, SenFrame, parse_rob_frame}
use kuka_iiqka_ros.Rsi.Monitor.{on_frame, on_timeout}
use kuka_iiqka_ros.Rsi.Limiter.{CommandLimits, clamp_all, clamp_axis}
use kuka_iiqka_ros.Rsi.Limiter.Bounds.{HasLimits}
use kuka_iiqka_ros.Rsi.Hardware.{
  RobotHw, configured, set_command, take_fault_clear, on_parsed, read, reply,
}
use kuka_iiqka_ros.Rsi.Hardware.Cycle.{IsStop, Sends, cycles, silence-IsStop}

abbrev toy_parse : List ℕ → Option ℕ
toy_parse [] = none
toy_parse (byte ∷ bytes) = some byte

abbrev toy_xml : Xml ℕ Fixed
toy_xml = record {
  parse = toy_parse;
  first_child = λ e name. some e;
  double_attribute = λ e name. some (num (pos e));
  int_attribute = λ e name. some (pos e);
  unsigned_attribute = λ e name. some e;
  text = λ e. some "77";
  scan_u64 = λ t. some 77;
}

abbrev limits : CommandLimits Fixed
limits = record { max_trans = num (pos 5); max_rot = num (pos 3) }

limits-HasLimits : HasLimits limits
limits-HasLimits = record { trans = refl; rot = refl }

abbrev hw : RobotHw Fixed
hw = configured limits 2

abbrev command : CartesianCorrection Fixed
command = record zero_correction { x = num (pos 9); y = nan; c = num (negsuc 7) }

abbrev clamped : CartesianCorrection Fixed
clamped = record zero_correction { x = num (pos 5); c = num (negsuc 2) }

abbrev one : Fixed
one = num (pos 1)

-- Connected, with the command set.
abbrev ready : RobotHw Fixed
ready = set_command (read toy_xml one hw (8 ∷ [])) command

abbrev answered : SenFrame Fixed
answered = record { corr = clamped; stop = 0; watchdog = 1; ipoc = 77 }

first-reply : (reply ready).1 ≡ some answered
unfolding reply set_command read on_parsed take_fault_clear on_frame parse_rob_frame configured
    clamp_all clamp_axis clamp
first-reply = refl

abbrev second : SenFrame Fixed
second = record { corr = zero_correction; stop = 0; watchdog = 2; ipoc = 77 }

second-reply : (reply (read toy_xml one (reply ready).0 [])).1 ≡ some second
unfolding reply set_command read on_parsed take_fault_clear on_frame on_timeout parse_rob_frame
    configured clamp_all clamp_axis clamp
second-reply = refl

abbrev seen : RobFrame Fixed
seen =
    let v = num (pos 8) in
    record {
      pose = record { x = v; y = v; z = v; a = v; b = v; c = v };
      axis_deg = record { a1 = v; a2 = v; a3 = v; a4 = v; a5 = v; a6 = v };
      delay = v;
      mode = pos 8;
      ipoc = 77;
    }

abbrev silent : List (List ℕ × CartesianCorrection Fixed)
silent = ([], command) ∷ ([], command) ∷ []

abbrev later : List (List ℕ × CartesianCorrection Fixed)
later = (8 ∷ [], command) ∷ ([], command) ∷ []

silence-IsStop_example :
    All (Sends IsStop) (cycles toy_xml one (cycles toy_xml one ready silent).0 later).1
unfolding set_command read on_parsed take_fault_clear on_frame parse_rob_frame configured
silence-IsStop_example =
    silence-IsStop toy_xml one silent later ready 0 (refl, (refl, tt))
      (record { connected = refl; no_clear = refl; count = refl; limit_kept = omega arith })
      (omega arith) (omega arith) (omega arith)
