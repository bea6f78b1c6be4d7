-- ===== src/Eki/Session/Answers.antt =====
-- Which frame answers a command.
use kuka_iiqka_ros.Prelude.{ℕ, true, false, not, ◌≢◌, List, [], ◌∷◌, ◌≡◌, arith, if◌then◌else◌, All}
use kuka_iiqka_ros.Double.{Double, lt, ◌⊖◌}
use kuka_iiqka_ros.Eki.Session.{
  EkiStateFrame, CommandOutcome, no_outcome, accepted, rejected, timed_out, Session, begin_command,
  on_state, on_bad_frame, tick,
}

-- What can come while a command waits: a frame, a document that is none, and a look at the clock.
pub data Arrival (F : Type 0) : Type 0 where
  frame : EkiStateFrame F → F → Arrival F
  bad_frame : Arrival F
  look : F → Arrival F

module _ {F : Type 0} ⦃d : Double F⦄ where
  unfoldable pub arrive : Session F → Arrival F → Session F × CommandOutcome
  arrive s (frame f now_s) = on_state s f now_s
  arrive s bad_frame = (on_bad_frame s, no_outcome)
  arrive s (look now_s) = tick s now_s

  unfoldable pub arrive_all : Session F → List (Arrival F) → Session F
  arrive_all s [] = s
  arrive_all s (e ∷ es) = arrive_all (arrive s e).0 es

  -- A frame with another number, and a look at the clock before the timeout.
  unfoldable pub IsOther : ℕ → F → F → Arrival F → Type 0
  IsOther seq since_s timeout_s (frame f now_s) = f.ack_seq ≢ seq
  IsOther seq since_s timeout_s bad_frame = Unit
  IsOther seq since_s timeout_s (look now_s) = lt timeout_s (now_s ⊖ since_s) ≡ false

  -- The command `seq` is in flight since a time.
  pub record Waits (seq : ℕ) (since_s timeout_s : F) (s : Session F) : Type 0 where
    pub in_flight : s.pending ≡ true
    pub its_seq : s.pending_seq ≡ seq
    pub its_time : s.pending_since_s ≡ since_s
    pub its_timeout : s.cfg.response_timeout_s ≡ timeout_s

  arrive-Waits :
      (seq : ℕ) (since_s timeout_s : F) (s : Session F) (e : Arrival F)
      → Waits seq since_s timeout_s s
      → IsOther seq since_s timeout_s e
      → Waits seq since_s timeout_s (arrive s e).0
  unfolding arrive on_state on_bad_frame tick IsOther
  arrive-Waits seq since_s timeout_s s (frame f now_s) v o = ground arith
  arrive-Waits seq since_s timeout_s s bad_frame v o = ground arith
  arrive-Waits seq since_s timeout_s s (look now_s) v o = ground arith

  arrive_all-Waits :
      (seq : ℕ) (since_s timeout_s : F) (s : Session F) (es : List (Arrival F))
      → Waits seq since_s timeout_s s
      → All (IsOther seq since_s timeout_s) es
      → Waits seq since_s timeout_s (arrive_all s es)
  unfolding arrive_all
  arrive_all-Waits seq since_s timeout_s s [] v o = v
  arrive_all-Waits seq since_s timeout_s s (e ∷ es) v (o, os) =
      arrive_all-Waits seq since_s timeout_s (arrive s e).0 es
        (arrive-Waits seq since_s timeout_s s e v o) os

  -- A command that an idle session begins, under a number that is not 0, stays in flight while
  -- heartbeats, frames with other numbers and bad frames come and no look at the clock is past the
  -- timeout. Then a frame with its number answers it as the frame says and leaves the session idle, and
  -- a look at the clock ends it exactly if it is past the timeout.
  begin_command-answered :
      (s : Session F) (seq : ℕ) (since_s now_s : F) (es : List (Arrival F)) (f : EkiStateFrame F)
      → s.pending ≡ false
      → seq ≢ 0
      → All (IsOther seq since_s s.cfg.response_timeout_s) es
      → f.ack_seq ≡ seq
      → let t = arrive_all (begin_command s seq since_s).0 es in
        let (u, answer) = on_state t f now_s in
        let (v, ended) = tick t now_s in
        (t.pending ≡ true)
        × (answer ≡ (if f.ack_ok then accepted else rejected))
        × (u.pending ≡ false)
        × (ended
            ≡ (if lt s.cfg.response_timeout_s (now_s ⊖ since_s) then timed_out else no_outcome))
        × (v.pending ≡ not (lt s.cfg.response_timeout_s (now_s ⊖ since_s)))
  unfolding on_state tick
  begin_command-answered s seq since_s now_s es f idle z os e =
      let begun : Waits seq since_s s.cfg.response_timeout_s (begin_command s seq since_s).0 =
        unfold begin_command in ground arith in
      let v =
        arrive_all-Waits seq since_s s.cfg.response_timeout_s (begin_command s seq since_s).0 es
          begun os in
      (v.in_flight, ground arith, ground arith, ground arith, ground arith)
