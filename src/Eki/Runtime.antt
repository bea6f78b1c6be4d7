-- ===== src/Eki/Runtime.antt =====
-- `EkiBridgeRuntime::run` (src/eki_bridge_runtime.cpp): a turn of the io thread as a whole, over the
-- transport, with what other threads post to it between its sections under `mutex_`.
mod Keeps
mod Turns
mod Tests
use kuka_iiqka_ros.Prelude.{
  ℕ, Bool, true, false, not, Option, none, some, List, [], ◌∷◌, if◌then◌else◌,
}
use kuka_iiqka_ros.Prelude.Int.{ℤ}
use kuka_iiqka_ros.Double.{Double}
use kuka_iiqka_ros.Xml.{Xml, ◌>>=◌}
use kuka_iiqka_ros.Eki.Session.{Frame6, EkiSessionConfig, EkiSessionSnapshot, snapshot}
use kuka_iiqka_ros.Eki.Bridge.{
  EkiAction, EkiCommand, Bridge, execute_begin, execute_end, take_request, on_send_failed,
  on_receive_failed, on_link_down, on_connect_failed,
}
use kuka_iiqka_ros.Eki.Bridge
use kuka_iiqka_ros.Eki.Frame.{serialize_command}
use kuka_iiqka_ros.Eki.Receive.{Io, on_link_up, on_received}
use kuka_iiqka_ros.Eki.Transport.{
  Transport, ConnectAnswers, SendTurn, Polling, Receiving, Received, lost, nothing, got, is_open,
  connect, receive, send, close,
}
use kuka_iiqka_ros.Eki.Transport

-- `link` is `transport_`, and `io` the rest.
pub record Runtime (F : Type 0) : Type 0 where
  pub io : Io F
  pub link : Transport

-- What another thread does under the mutex: `execute` up to its wait and after it, and `connectNow`
-- up to its wait and after it.
pub data Post (F : Type 0) : Type 0 where
  executes : EkiAction → ℤ → Frame6 F → Frame6 F → Post F
  has_executed wants_link has_waited : Post F

pub record EkiBridgeStatus (F : Type 0) : Type 0 where
  pub connected : Bool
  pub reconnects : ℕ
  pub session : EkiSessionSnapshot F

module _ {F : Type 0} ⦃d : Double F⦄ where
  unfoldable pub connect_begin : Bridge F → Bridge F
  connect_begin b = record b { connect_requested = true }

  -- Whether the link is up.
  unfoldable pub connect_end : Bridge F → Bridge F × Bool
  connect_end b =
      (if not b.connected then record b { connect_requested = false } else b, b.connected)

  unfoldable pub status : Bridge F → F → EkiBridgeStatus F
  status b now_s = record {
    connected = b.connected;
    reconnects = b.reconnects;
    session = snapshot b.session now_s;
  }

  unfoldable pub post : Bridge F → Post F → Bridge F
  post b (executes action value tool base) = execute_begin b action value tool base
  post b has_executed = (execute_end b).0
  post b wants_link = connect_begin b
  post b has_waited = (connect_end b).0

  unfoldable pub posts : Bridge F → List (Post F) → Bridge F
  posts b [] = b
  posts b (p ∷ ps) = posts (post b p) ps

  -- The end of `stop`, once the io thread has ended.
  unfoldable pub stopped : Runtime F → Runtime F
  stopped s = record s {
    io = record (s.io) { bridge = record (s.io.bridge) { connected = false } };
    link = close s.link;
  }

  unfoldable pub constructed : EkiSessionConfig F → Runtime F
  constructed cfg = record {
    io = record { bridge = Bridge.constructed cfg; splitter = [] };
    link = Transport.fresh;
  }

-- What a turn meets: what is posted before each of its sections, what the system answers to its
-- transport, and the times that the clock shows.
pub record Meets (F : Type 0) : Type 0 where
  pub first : List (Post F)
  pub second : List (Post F)
  pub connecting : ConnectAnswers
  pub sending : List SendTurn
  pub polling : Polling
  pub receiving : Receiving
  pub since_s : F
  pub now_s : F

module _ {F : Type 0} ⦃d : Double F⦄ where
  abbrev with_bridge : Runtime F → Bridge F → Runtime F
  with_bridge s b = record s { io = record (s.io) { bridge = b } }

  -- With the link down.
  unfoldable pub down : Bool → Runtime F → Meets F → Runtime F
  down auto_reconnect s m =
      let (b, want) = on_link_down auto_reconnect (posts s.io.bridge m.first) in
      let (link, made) = connect s.link m.connecting in
      let c = posts b m.second in
      if not want
      then with_bridge s b
      else if made
      then record { io = on_link_up (record (s.io) { bridge = c }); link = link }
      else record { io = record (s.io) { bridge = on_connect_failed c }; link = link }

module _ {F : Type 0} (print : EkiCommand F → List ℕ) where
  unfoldable pub command_text : Option (EkiCommand F) → Option (List ℕ)
  command_text none = none
  command_text (some cmd) = serialize_command print cmd 1024

module _ {E F : Type 0} ⦃d : Double F⦄ (xml : Xml E F) where
  -- What `receive` returned, and the transport after it.
  unfoldable pub on_answer : Io F → Transport → F → Received → Runtime F
  on_answer io link now_s lost = record {
    io = record io { bridge = on_receive_failed io.bridge };
    link = link;
  }
  on_answer io link now_s nothing = record { io = on_received xml io [] now_s; link = link }
  on_answer io link now_s (got text) = record { io = on_received xml io text now_s; link = link }

  -- With the link up, once a command is sent or none is due.
  unfoldable pub receives : Runtime F → Meets F → Runtime F
  receives s m =
      let (link, answer) = receive s.link m.polling m.receiving in
      on_answer (record (s.io) { bridge = posts s.io.bridge m.second }) link m.now_s answer

module _ {E F : Type 0} ⦃d : Double F⦄ (xml : Xml E F) where
  -- What `send` returned, and the transport after it.
  unfoldable pub on_sent : Runtime F → Meets F → Option (Transport × Bool) → Option (Runtime F)
  on_sent s m none = none
  on_sent s m (some (link, true)) = some (receives xml (record s { link = link }) m)
  on_sent s m (some (link, false)) =
      let b = on_send_failed (posts s.io.bridge m.second) in
      some (with_bridge (record s { link = link }) b)

  -- With a command to send, or none.
  unfoldable pub sends : Runtime F → Meets F → Option (List ℕ) → Option (Runtime F)
  sends s m none = some (receives xml s m)
  sends s m (some text) = on_sent s m (send s.link m.sending text)

module _ {E F : Type 0} ⦃d : Double F⦄ (xml : Xml E F) (print : EkiCommand F → List ℕ) where
  unfoldable pub up : Runtime F → Meets F → Option (Runtime F)
  up s m =
      let (b, cmd) = take_request (posts s.io.bridge m.first) m.since_s in
      sends xml (with_bridge s b) m (command_text print cmd)

module _ {E F : Type 0} ⦃d : Double F⦄ (xml : Xml E F) (print : EkiCommand F → List ℕ)
    (auto_reconnect : Bool) where
  -- A turn of the loop. `none` is one that waits in `send`.
  unfoldable pub turn : Runtime F → Meets F → Option (Runtime F)
  turn s m = if not (is_open s.link) then some (down auto_reconnect s m) else up xml print s m

  unfoldable pub run : Runtime F → List (Meets F) → Option (Runtime F)
  run s [] = some s
  run s (m ∷ ms) = turn s m >>= λ t. run t ms
