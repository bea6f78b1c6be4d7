-- ===== src/Rsi/Node.antt =====
-- The node of the hardware interface (src/kuka_rsi_hw_interface_node.cpp): its parameters (`init` and
-- `configure` of src/kuka_rsi_robot_hw.cpp), and a turn of its loop, with the socket.
mod Replies
mod Negative
mod Outputs
mod Tests
use kuka_iiqka_ros.Prelude.{
  ℕ, ◌-◌, Bool, true, false, not, String, List, [], ◌∷◌, Option, none, some, if◌then◌else◌,
}
use kuka_iiqka_ros.Prelude.Int.{ℤ, pos, negsuc}
use kuka_iiqka_ros.Double.{Double, le, ◌⊖◌}
use kuka_iiqka_ros.Xml.{Xml, value_or}
use kuka_iiqka_ros.Params.{Params, fraction, port_of_int}
use kuka_iiqka_ros.Sfc.Types.{CartesianCorrection}
use kuka_iiqka_ros.Rsi.Frame.{SenFrame}
use kuka_iiqka_ros.Rsi.Monitor.{u32, SessionStats}
use kuka_iiqka_ros.Rsi.Limiter.{CommandLimits}
use kuka_iiqka_ros.Rsi.Hardware.{RobotHw, configured, set_command, read, write}
use kuka_iiqka_ros.Rsi.Udp.{
  Udp, Peer, BindAnswers, Arrival, Received, failure, timeout, datagram, bind, receive,
  send_to_last_sender,
}

pub record HwConfig (F : Type 0) : Type 0 where
  pub listen_ip : String
  pub listen_port : ℕ
  pub read_timeout_ms : ℤ
  pub max_consecutive_timeouts : ℕ
  pub limits : CommandLimits F

-- `static_cast<unsigned>` of an `int`.
abbrev pub u32_of_int : ℤ → ℕ
u32_of_int (pos n) = u32 n
u32_of_int (negsuc n) = 4294967295 - u32 n

-- The message on the state topic, without its stamp.
pub record RsiState : Type 0 where
  pub stats : SessionStats
  pub saturation_count : ℕ

-- The interface and its socket.
pub record Node (F : Type 0) : Type 0 where
  pub hw : RobotHw F
  pub udp : Udp

-- `n <= 0` and an empty datagram are no bytes.
abbrev pub bytes_of : Received → List ℕ
bytes_of failure = []
bytes_of timeout = []
bytes_of (datagram bytes) = bytes

module _ {F : Type 0} ⦃d : Double F⦄ where
  -- `HwConfig{}` with the parameters.
  unfoldable pub load_config : Params F → HwConfig F
  load_config ps = record {
    listen_ip = value_or "0.0.0.0" (ps.string "listen_ip");
    listen_port = port_of_int (value_or (pos 49152) (ps.int "listen_port"));
    read_timeout_ms = value_or (pos 8) (ps.int "read_timeout_ms");
    max_consecutive_timeouts = u32_of_int (value_or (pos 5) (ps.int "max_consecutive_timeouts"));
    limits = record {
      max_trans = value_or (fraction 5 10) (ps.double "max_correction_trans");
      max_rot = value_or (fraction 5 100) (ps.double "max_correction_rot");
    };
  }

  -- `none` is a failure.
  unfoldable pub configure : HwConfig F → Udp → BindAnswers → Option (Node F)
  configure cfg udp a =
      let (bound, ok) = bind udp a in
      if not ok
      then none
      else some (record { hw = configured cfg.limits cfg.max_consecutive_timeouts; udp = bound })

  unfoldable pub init : Params F → Udp → BindAnswers → Option (Node F)
  init ps udp a = configure (load_config ps) udp a

  unfoldable pub rsi_state : RobotHw F → RsiState
  rsi_state hw = record { stats = hw.monitor.stats; saturation_count = hw.saturation_count }

  -- Whether the state is published, at a time after the last one.
  unfoldable pub is_due : F → F → Bool
  is_due now_s last_pub_s = le (fraction 2 100) (now_s ⊖ last_pub_s)

-- What a turn meets: what arrives, the command that the controllers set, and what `sendto` answers.
pub record Meets (F : Type 0) : Type 0 where
  pub arrival : Arrival
  pub command : CartesianCorrection F
  pub sent : Option ℕ

module _ {E F : Type 0} ⦃d : Double F⦄ (xml : Xml E F) (deg_to_rad : F)
    (print : SenFrame F → List ℕ) where
  -- `read`, the controllers and `write`: the node after it, and the datagram that goes out.
  unfoldable pub turn : Node F → Meets F → Node F × Option (Peer × List ℕ)
  turn s m =
      let (udp, received) = receive s.udp m.arrival in
      let (hw, out) =
        write print (set_command (read xml deg_to_rad s.hw (bytes_of received)) m.command) in
      let t : Node F = record { hw = hw; udp = udp } in
      elim out [ none ↦ (t, none) | some bytes ↦ (t, (send_to_last_sender udp bytes m.sent).0) ]
