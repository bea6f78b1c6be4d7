-- ===== src/Eki/Runtime/Turns.antt =====
-- The link and the session over the turns of the io thread.
use kuka_iiqka_ros.Prelude.{
  ℕ, Bool, true, false, not, Option, none, some, List, [], ◌∷◌, ◌++◌, ◌≡◌, arith, sym, ap, ◌||◌,
  ◌∙◌, subst, inl, inr, Bool-cases, length, leb, ◌==◌,
}
use kuka_iiqka_ros.Double.{Double}
use kuka_iiqka_ros.Xml.{Xml, ◌>>=◌}
use kuka_iiqka_ros.Eki.Session.{EkiSessionConfig, reset}
use kuka_iiqka_ros.Eki.Bridge.{
  Bridge, EkiCommand, resolve, execute_begin, execute_end, take_request, on_document, on_tick,
  on_send_failed, on_receive_failed, on_link_down, on_connect_failed, on_connected,
}
use kuka_iiqka_ros.Eki.Bridge
use kuka_iiqka_ros.Eki.Frame.{serialize_command}
use kuka_iiqka_ros.Eki.Receive.{Io, on_link_up}
use kuka_iiqka_ros.Eki.Transport.{
  Transport, Received, lost, nothing, got, is_open, fresh, connect, receive, send,
}
use kuka_iiqka_ros.Eki.Transport.Streams.{
  descriptors, IsTidy, IsClosed, connect_lem, receive_lem, is_lost, Sent, whole, broken, runs_on,
  send-Sent,
}
use kuka_iiqka_ros.Eki.Runtime.{
  Runtime, posts, constructed, Meets, on_answer, on_sent, with_bridge, down, receives, sends,
  command_text, up, turn, run,
}
use kuka_iiqka_ros.Eki.Runtime.Keeps.{posts-Keeps, on_received-connected}

-- Bytes that are whole commands, one after the other.
pub data Commands {F : Type 0} (print : EkiCommand F → List ℕ) : List ℕ → Type 0 where
  no_commands : (text : List ℕ) → text ≡ [] → Commands print text
  and_then :
      (text all : List ℕ) (cmd : EkiCommand F)
      → Commands print text
      → all ≡ text ++ print cmd
      → Commands print all

-- Between two turns: nothing is left open but the socket; the bridge says that it is connected exactly
-- if the socket is open; with no socket no command is in flight; and with one, the robot controller
-- has got whole commands on it.
pub record Linked {F : Type 0} (print : EkiCommand F → List ℕ) (s : Runtime F) : Type 0 where
  pub tidy : IsTidy s.link
  pub link_is : s.io.bridge.connected ≡ is_open s.link
  pub idle : is_open s.link ≡ false → s.io.bridge.session.pending ≡ false
  pub commands : is_open s.link ≡ true → Commands print s.link.delivered

-- The outcome of turns that send: none if one waits.
pub data Links {F : Type 0} (print : EkiCommand F → List ℕ) : Option (Runtime F) → Type 0 where
  waits : Links print none
  links : (s : Runtime F) → Linked print s → Links print (some s)

module _ {F : Type 0} ⦃d : Double F⦄ (print : EkiCommand F → List ℕ) where
  none_sent : (t : Transport) → t.delivered ≡ [] → Commands print t.delivered
  none_sent t e = no_commands t.delivered e

  down-Linked :
      (auto_reconnect : Bool) (s : Runtime F) (m : Meets F)
      → Linked print s
      → is_open s.link ≡ false
      → Linked print (down auto_reconnect s m)
  unfolding down on_link_down on_link_up on_connected on_connect_failed resolve reset
  down-Linked auto_reconnect s m v closed =
      let (tidy, link, empty) = connect_lem s.link m.connecting v.tidy in
      let p = posts-Keeps s.io.bridge m.first in
      let q = posts-Keeps (on_link_down auto_reconnect (posts s.io.bridge m.first)).0 m.second in
      let idle = v.idle closed in
      let commands = none_sent (connect s.link m.connecting).0 in ground arith

module _ {E F : Type 0} ⦃d : Double F⦄ (xml : Xml E F) (print : EkiCommand F → List ℕ) where
  on_answer-Linked :
      (io : Io F) (link : Transport) (now_s : F) (answer : Received)
      → IsTidy link
      → io.bridge.connected ≡ true
      → Commands print link.delivered
      → is_open link ≡ not (is_lost answer)
      → Linked print (on_answer xml io link now_s answer)
  unfolding on_answer on_receive_failed resolve reset
  on_answer-Linked io link now_s lost tidy on sent open_iff = ground arith
  on_answer-Linked io link now_s nothing tidy on sent open_iff =
      ground (arith, on_received-connected xml io [] now_s)
  on_answer-Linked io link now_s (got text) tidy on sent open_iff =
      ground (arith, on_received-connected xml io text now_s)

  receives-Linked :
      (s : Runtime F) (m : Meets F)
      → Linked print s
      → is_open s.link ≡ true
      → Linked print (receives xml s m)
  unfolding receives
  receives-Linked s m v on =
      let (link, answer) = receive s.link m.polling m.receiving in
      let (tidy, same, open_iff) = receive_lem s.link m.polling m.receiving v.tidy in
      let p = posts-Keeps s.io.bridge m.second in
      on_answer-Linked (record (s.io) { bridge = posts s.io.bridge m.second }) link m.now_s answer
        tidy (p.connected ∙ v.link_is ∙ on) (subst (Commands print) (sym same) (v.commands on))
        open_iff

  constructed-Linked : (cfg : EkiSessionConfig F) → Linked print (constructed cfg)
  unfolding constructed Bridge.constructed fresh
  constructed-Linked cfg = ground arith

  send_failed-Linked :
      (s : Runtime F) (link : Transport) (b : Bridge F)
      → IsClosed link
      → Linked print (with_bridge (record s { link = link }) (on_send_failed b))
  unfolding on_send_failed resolve reset
  send_failed-Linked s link b closed = ground arith

  on_sent-Links :
      (s : Runtime F) (m : Meets F) (cmd : EkiCommand F) (o : Option (Transport × Bool))
      → Linked print s
      → is_open s.link ≡ true
      → Sent s.link (print cmd) o
      → Links print (on_sent xml s m o)
  unfolding on_sent
  on_sent-Links s m cmd _ v on (whole u fd opened out) =
      let open_u : is_open u ≡ true = rw fd on in
      let now = record s { link = u } in
      let linked : Linked print now = record {
        tidy = opened ∙ v.tidy ∙ ap descriptors (sym fd);
        link_is = v.link_is ∙ on ∙ sym open_u;
        idle = λ shut. cc;
        commands = λ up. and_then s.link.delivered u.delivered cmd (v.commands on) out;
      } in
      links _ (receives-Linked now m linked open_u)
  on_sent-Links s m cmd _ v on (broken u k shut less out) =
      links _ (send_failed-Linked s u (posts s.io.bridge m.second) shut)
  on_sent-Links s m cmd _ v on runs_on = waits

  -- A command that is there was printed.
  command_text-sends :
      (s : Runtime F) (m : Meets F) (o : Option (EkiCommand F))
      → Linked print s
      → is_open s.link ≡ true
      → Links print (sends xml s m (command_text print o))
  unfolding sends command_text serialize_command
  command_text-sends s m none v on = links _ (receives-Linked s m v on)
  command_text-sends s m (some cmd) v on =
      elim (Bool-cases (length (print cmd) == 0 || leb 1024 (length (print cmd)))) [
        | inl refused ↦ rw (refused, sends) (links _ (receives-Linked s m v on))
        | inr printed ↦
            rw (printed, sends)
              (on_sent-Links s m cmd (send s.link m.sending (print cmd)) v on
                (send-Sent s.link m.sending (print cmd) v.tidy on))
      ]

  take_request-connected :
      (b : Bridge F) (now_s : F) → (take_request b now_s).0.connected ≡ b.connected
  unfolding take_request
  take_request-connected b now_s = ground arith

  turn-Links :
      (auto_reconnect : Bool) (s : Runtime F) (m : Meets F)
      → Linked print s
      → Links print (turn xml print auto_reconnect s m)
  unfolding turn up
  turn-Links auto_reconnect s m v = elim (Bool-cases (is_open s.link)) [
    | inr closed ↦ rw closed (links _ (down-Linked print auto_reconnect s m v closed))
    | inl on ↦
        let p = posts-Keeps s.io.bridge m.first in
        let (b, cmd) = take_request (posts s.io.bridge m.first) m.since_s in
        let same : b.connected ≡ s.io.bridge.connected =
          take_request-connected (posts s.io.bridge m.first) m.since_s ∙ p.connected in
        let linked : Linked print (with_bridge s b) = record {
          tidy = v.tidy;
          link_is = same ∙ v.link_is;
          idle = λ shut. cc;
          commands = v.commands;
        } in
        rw (on, turn) (command_text-sends (with_bridge s b) m cmd linked on)
  ]

  bind-Links :
      (o : Option (Runtime F)) (f : Runtime F → Option (Runtime F))
      → Links print o
      → ((s : Runtime F) → Linked print s → Links print (f s))
      → Links print (o >>= f)
  bind-Links _ f waits keep = waits
  bind-Links _ f (links s v) keep = keep s v

  run-Links :
      (auto_reconnect : Bool) (s : Runtime F) (ms : List (Meets F))
      → Linked print s
      → Links print (run xml print auto_reconnect s ms)
  unfolding run
  run-Links auto_reconnect s [] v = links s v
  run-Links auto_reconnect s (m ∷ ms) v =
      bind-Links (turn xml print auto_reconnect s m) (λ t. run xml print auto_reconnect t ms)
        (turn-Links auto_reconnect s m v) (λ t w. run-Links auto_reconnect t ms w)

  -- From the start, over every run of turns of the io thread, whatever the system answers and whatever
  -- other threads post, after each turn that ends: the system has open for it just its socket, if it
  -- has one; the bridge says that it is connected exactly if the socket is open; with no socket no
  -- command is in flight; and with one, what the robot controller has got on it are whole commands.
  pub run-constructed-Links :
      (auto_reconnect : Bool) (cfg : EkiSessionConfig F) (ms : List (Meets F))
      → Links print (run xml print auto_reconnect (constructed cfg) ms)
  run-constructed-Links auto_reconnect cfg ms =
      run-Links auto_reconnect (constructed cfg) ms (constructed-Linked cfg)
