-- ===== src/Rsi/Mock/Loop.antt =====
-- The simulated controller in sequences of calls, and against the hardware interface.
use kuka_iiqka_ros.Prelude.{
  ℕ, ◌+◌, ◌≤◌, Bool, true, false, List, [], ◌∷◌, Option, none, some, String, if◌then◌else◌, ◌≡◌,
  arith, sym, ap, ◌∙◌, subst,
}
use kuka_iiqka_ros.Prelude.Int.{ℤ}
use kuka_iiqka_ros.Double.{Double}
use kuka_iiqka_ros.Sfc.Types.{CartesianState, CartesianCorrection}
use kuka_iiqka_ros.Xml.{Xml}
use kuka_iiqka_ros.Rsi.Frame.{RobFrame, SenFrame, parse_rob_frame}
use kuka_iiqka_ros.Rsi.Hardware.{RobotHw, set_command, read}
use kuka_iiqka_ros.Rsi.Hardware
use kuka_iiqka_ros.Rsi.Hardware.Cycle.{IsAnswer, Sends, reply-read_valid}
use kuka_iiqka_ros.Rsi.Mock.{
  Mock, Reply, build_state_frame, parse_reply, integrate, on_reply, apply_reply,
}

abbrev pub bit : Bool → ℕ
bit b = if b then 1 else 0

abbrev pub is_built : Option (List ℕ) → Bool
is_built none = false
is_built (some bytes) = true

-- A call of the simulated controller: a frame, for a buffer of the size, or bytes that it gets.
pub data Event : Type 0 where
  builds : ℕ → Event
  gets : List ℕ → Event

module _ {E F : Type 0} ⦃d : Double F⦄ (xml : Xml E F) (int64 : E → String → Option ℤ)
    (print : CartesianState F → ℕ → List ℕ) where
  -- The state after a call, whether a frame was built, and whether a reply was applied.
  unfoldable pub step : Mock F → Event → Mock F × Bool × Bool
  step s (builds size) = let (t, out) = build_state_frame print s size in (t, is_built out, false)
  step s (gets bytes) = let (t, applied) = apply_reply xml int64 s bytes in (t, false, applied)

  abbrev pub built : Mock F → List Event → ℕ
  built s [] = 0
  built s (e ∷ es) = bit (step s e).1 + built (step s e).0 es

  abbrev pub applied : Mock F → List Event → ℕ
  applied s [] = 0
  applied s (e ∷ es) = bit (step s e).2 + applied (step s e).0 es

  on_reply-bits :
      (s : Mock F) (o : Option (Reply E))
      → bit (on_reply xml int64 s o).1 + bit (on_reply xml int64 s o).0.awaiting ≤ bit s.awaiting
  unfolding on_reply
  on_reply-bits s none = ground arith
  on_reply-bits s (some r) = ground arith

  step-bits :
      (s : Mock F) (e : Event)
      → bit (step s e).2 + bit (step s e).0.awaiting ≤ bit (step s e).1 + bit s.awaiting
  unfolding step build_state_frame apply_reply
  step-bits s (builds size) = ground arith
  step-bits s (gets bytes) = omega (arith, on_reply-bits s (parse_reply xml int64 bytes))

  -- Whatever it gets, in whatever order, the simulated controller moves at most once for each frame
  -- that it built, and once more if it was waiting for a reply.
  applied-built : (s : Mock F) (es : List Event) → applied s es ≤ built s es + bit s.awaiting
  applied-built s [] = omega arith
  applied-built s (e ∷ es) = omega (arith, step-bits s e, applied-built (step s e).0 es)

  build-awaits :
      (s : Mock F) (size : ℕ) (bytes : List ℕ)
      → (build_state_frame print s size).1 ≡ some bytes
      → let t = (build_state_frame print s size).0 in
        (t.awaiting ≡ true)
        × (t.awaited_ipoc ≡ s.next_ipoc)
        × (t.pose ≡ s.pose)
        × (t.stats.ipoc_echo_errors ≡ s.stats.ipoc_echo_errors)
  unfolding build_state_frame
  build-awaits s size bytes e = ground arith

  on_reply-echo :
      (s : Mock F) (r : Reply E)
      → s.awaiting ≡ true
      → r.echoed ≡ s.awaited_ipoc
      → let (t, ok) = on_reply xml int64 s (some r) in
        (ok ≡ true)
        × (t.pose ≡ integrate xml int64 s.pose r.rkorr)
        × (t.stats.ipoc_echo_errors ≡ s.stats.ipoc_echo_errors)
  unfolding on_reply
  on_reply-echo s r on echo = ground arith

  -- The simulated controller and the hardware interface agree: where the interface reads the frame that
  -- the controller built, with its IPOC, and the controller reads the reply to it, with the IPOC that
  -- the interface wrote, the reply is applied: the pose moves by its corrections, and no echo error is
  -- counted.
  pub reply-applied :
      (deg_to_rad : F) (s : Mock F) (h : RobotHw F) (cmd : CartesianCorrection F) (byte : ℕ)
      (bytes answer : List ℕ) (f : RobFrame F) (sent : SenFrame F) (r : Reply E)
      → (build_state_frame print s 1024).1 ≡ some (byte ∷ bytes)
      → parse_rob_frame xml (byte ∷ bytes) ≡ some f
      → f.ipoc ≡ s.next_ipoc
      → (Hardware.reply (set_command (read xml deg_to_rad h (byte ∷ bytes)) cmd)).1 ≡ some sent
      → parse_reply xml int64 answer ≡ some r
      → r.echoed ≡ sent.ipoc
      → let (t, ok) = apply_reply xml int64 (build_state_frame print s 1024).0 answer in
        (ok ≡ true)
        × (t.pose ≡ integrate xml int64 s.pose r.rkorr)
        × (t.stats.ipoc_echo_errors ≡ s.stats.ipoc_echo_errors)
  unfolding apply_reply
  reply-applied deg_to_rad s h cmd byte bytes answer f sent r made got ipoc out back echoed =
      let b = (build_state_frame print s 1024).0 in
      let (awaits, awaited, pose, errors) = build-awaits s 1024 (byte ∷ bytes) made in
      let is_answer : IsAnswer h f sent =
        subst (Sends (IsAnswer h f)) out (reply-read_valid xml deg_to_rad h byte bytes cmd got).0 in
      let same : r.echoed ≡ b.awaited_ipoc = echoed ∙ is_answer.echo ∙ ipoc ∙ sym awaited in
      let (ok, moved, count) = on_reply-echo b r awaits same in
      rw back (ok, moved ∙ ap (λ p. integrate xml int64 p r.rkorr) pose, count ∙ errors)
