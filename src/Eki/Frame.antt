-- ===== src/Eki/Frame.antt =====
-- The parser of the state frames and the printer of the commands (src/eki_frame.cpp).
use kuka_iiqka_ros.Prelude.{
  ℕ, Bool, true, not, ◌||◌, ◌==◌, leb, List, length, Option, none, some, if◌then◌else◌,
}
use kuka_iiqka_ros.Prelude.Int.{ℤ, pos, negsuc}
use kuka_iiqka_ros.Xml.{Xml, ◌>>=◌}
use kuka_iiqka_ros.Eki.Session.{Frame6, EkiStateFrame}
use kuka_iiqka_ros.Eki.Bridge.{EkiCommand}

-- `i != 0`.
abbrev is_set : ℤ → Bool
is_set (pos n) = not (n == 0)
is_set (negsuc n) = true

module _ {E F : Type 0} (xml : Xml E F) where
  unfoldable pub read_frame6 : E → Option (Frame6 F)
  read_frame6 e = do
    x ← xml.double_attribute e "X"
    y ← xml.double_attribute e "Y"
    z ← xml.double_attribute e "Z"
    a ← xml.double_attribute e "A"
    b ← xml.double_attribute e "B"
    c ← xml.double_attribute e "C"
    some (record { x = x; y = y; z = z; a = a; b = b; c = c })

  -- `none` is a frame that is refused; what it leaves in the fields is not read.
  unfoldable pub parse_state : List ℕ → Option (EkiStateFrame F)
  parse_state bytes = do
    doc ← xml.parse bytes
    root ← xml.first_child doc "RobotState"
    ack ← xml.first_child root "Ack"
    prog ← xml.first_child root "Prog"
    tool ← xml.first_child root "Tool"
    seq ← xml.unsigned_attribute ack "Seq"
    ok ← xml.int_attribute ack "Ok"
    code ← xml.int_attribute ack "Code"
    is_ready ← xml.int_attribute prog "Ready"
    rsi ← xml.int_attribute prog "RsiActive"
    has_fault ← xml.int_attribute prog "Fault"
    mode ← xml.int_attribute prog "Mode"
    tool_frame ← read_frame6 tool
    some (record {
      ack_seq = seq;
      ack_ok = is_set ok;
      ack_code = code;
      ready = is_set is_ready;
      rsi_active = is_set rsi;
      has_fault = is_set has_fault;
      mode = mode;
      tool = tool_frame;
      valid = true;
    })

-- `print` is what `snprintf` prints of a command; `none` is a length of 0.
unfoldable pub serialize_command :
    {F : Type 0} → (EkiCommand F → List ℕ) → EkiCommand F → ℕ → Option (List ℕ)
serialize_command print cmd buf_size =
    let n = length (print cmd) in if n == 0 || leb buf_size n then none else some (print cmd)
