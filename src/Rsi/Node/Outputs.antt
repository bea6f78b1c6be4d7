-- ===== src/Rsi/Node/Outputs.antt =====
-- Every datagram that the node sends.
use kuka_iiqka_ros.Prelude.{
  ℕ, List, [], ◌∷◌, Option, none, some, ◌≡◌, refl, arith, sym, ap, ◌∙◌, subst, Option-cases, inl,
  inr,
}
use kuka_iiqka_ros.Double.{Double}
use kuka_iiqka_ros.Double.Order.{IsOrdered}
use kuka_iiqka_ros.Xml.{Xml}
use kuka_iiqka_ros.Params.{Params}
use kuka_iiqka_ros.Rsi.Frame.{SenFrame, parse_rob_frame, serialize_sen_frame}
use kuka_iiqka_ros.Rsi.Limiter.Bounds.{InLimits, HasLimits}
use kuka_iiqka_ros.Rsi.Hardware.{
  RobotHw, configured, set_command, take_fault_clear, on_parsed, read, reply, write,
}
use kuka_iiqka_ros.Rsi.Hardware.Cycle.{reply-InLimits}
use kuka_iiqka_ros.Rsi.Udp.{Udp, Peer, BindAnswers, receive, send_to_last_sender}
use kuka_iiqka_ros.Rsi.Node.{Node, Meets, load_config, configure, init, turn, bytes_of}

module _ {E F : Type 0} ⦃d : Double F⦄ (xml : Xml E F) (deg_to_rad : F)
    (print : SenFrame F → List ℕ) where
  abbrev pub run : Node F → List (Meets F) → Node F
  run s [] = s
  run s (m ∷ ms) = run (turn xml deg_to_rad print s m).0 ms

  read-limits : (s : RobotHw F) (bytes : List ℕ) → (read xml deg_to_rad s bytes).limits ≡ s.limits
  unfolding read take_fault_clear on_parsed
  read-limits s [] = ground arith
  read-limits s (byte ∷ bytes) = elim (Option-cases (parse_rob_frame xml (byte ∷ bytes))) [
    | inl bad ↦ rw bad (ground arith)
    | inr (f, good) ↦ rw good (ground arith)
  ]

  write-limits : (s : RobotHw F) → (write print s).0.limits ≡ s.limits
  unfolding write reply
  write-limits s = ground arith

  -- The interface that a turn hands to `write`.
  abbrev before_write : Node F → Meets F → RobotHw F
  before_write s m =
      set_command (read xml deg_to_rad s.hw (bytes_of (receive s.udp m.arrival).1)) m.command

  turn-hw :
      (s : Node F) (m : Meets F)
      → (turn xml deg_to_rad print s m).0.hw ≡ (write print (before_write s m)).0
  unfolding turn
  turn-hw s m = elim (Option-cases (write print (before_write s m)).1) [
    | inl silent ↦ rw (silent, turn) refl
    | inr (bytes, out) ↦ rw (out, turn) refl
  ]

  turn-limits :
      (s : Node F) (m : Meets F) → (turn xml deg_to_rad print s m).0.hw.limits ≡ s.hw.limits
  unfolding set_command
  turn-limits s m =
      ap (λ h. h.limits) (turn-hw s m)
      ∙ write-limits (before_write s m)
      ∙ read-limits s.hw (bytes_of (receive s.udp m.arrival).1)

  run-limits : (s : Node F) (ms : List (Meets F)) → (run s ms).hw.limits ≡ s.hw.limits
  run-limits s [] = refl
  run-limits s (m ∷ ms) = run-limits (turn xml deg_to_rad print s m).0 ms ∙ turn-limits s m

  serialize-frame :
      (o : Option (SenFrame F)) (bytes : List ℕ)
      → (let text : Option (List ℕ) = elim o [
        | none ↦ none
        | some f ↦ serialize_sen_frame print f 1024
      ] in
          text)
        ≡ some bytes
      → (f : SenFrame F) × (o ≡ some f) × (bytes ≡ print f)
  unfolding serialize_sen_frame
  serialize-frame none bytes e = cc
  serialize-frame (some f) bytes e = (f, refl, ground arith)

  write-frame :
      (s : RobotHw F) (bytes : List ℕ)
      → (write print s).1 ≡ some bytes
      → (f : SenFrame F) × ((reply s).1 ≡ some f) × (bytes ≡ print f)
  unfolding write
  write-frame s bytes e = serialize-frame (reply s).1 bytes e

  send-bytes :
      (u : Udp) (text bytes : List ℕ) (n : Option ℕ) (peer : Peer)
      → (send_to_last_sender u text n).0 ≡ some (peer, bytes)
      → bytes ≡ text
  unfolding send_to_last_sender
  send-bytes u text bytes none peer e = ground arith
  send-bytes u text bytes (some n) peer e = ground arith

  turn-frame :
      (s : Node F) (m : Meets F) (peer : Peer) (bytes : List ℕ)
      → (turn xml deg_to_rad print s m).1 ≡ some (peer, bytes)
      → (f : SenFrame F) × ((reply (before_write s m)).1 ≡ some f) × (bytes ≡ print f)
  unfolding turn
  turn-frame s m peer bytes e = elim (Option-cases (write print (before_write s m)).1) [
    | inl silent ↦ let sent = rw (silent, turn) at e in cc
    | inr (text, out) ↦
        let sent = rw (out, turn) at e in
        let (f, made, printed) = write-frame (before_write s m) text out in
        (f, made, send-bytes (receive s.udp m.arrival).0 text bytes m.sent peer sent ∙ printed)
  ]

  set_command-limits : (s : Node F) (m : Meets F) → (before_write s m).limits ≡ s.hw.limits
  unfolding set_command
  set_command-limits s m = read-limits s.hw (bytes_of (receive s.udp m.arrival).1)

  init-limits :
      (ps : Params F) (udp : Udp) (a : BindAnswers) (s : Node F)
      → init ps udp a ≡ some s
      → s.hw.limits ≡ (load_config ps).limits
  unfolding init configure configured
  init-limits ps udp a s made = ground arith

  -- A node that was set up with limits on the parameter server, or by default, that are not negative
  -- sends, over every run of its turns, only frames whose corrections are within these limits on every
  -- axis, whatever arrives, and whatever the controllers command, NaN included.
  pub run-InLimits :
      IsOrdered F
      → (ps : Params F) (udp : Udp) (a : BindAnswers) (s : Node F) (ms : List (Meets F))
        (m : Meets F) (peer : Peer) (bytes : List ℕ)
      → HasLimits (load_config ps).limits
      → init ps udp a ≡ some s
      → (turn xml deg_to_rad print (run s ms) m).1 ≡ some (peer, bytes)
      → (f : SenFrame F) × (bytes ≡ print f) × InLimits (load_config ps).limits f.corr
  run-InLimits laws ps udp a s ms m peer bytes h made sends =
      let t = run s ms in
      let same : (before_write t m).limits ≡ (load_config ps).limits =
        set_command-limits t m ∙ run-limits s ms ∙ init-limits ps udp a s made in
      let (f, out, printed) = turn-frame t m peer bytes sends in
      (
        f,
        printed,
        subst (λ l. InLimits l f.corr) same
            (reply-InLimits laws (before_write t m) (subst HasLimits (sym same) h) out),
      )
