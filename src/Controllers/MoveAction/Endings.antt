-- ===== src/Controllers/MoveAction/Endings.antt =====
-- No goal is left running where the action ends.
use kuka_iiqka_ros.Prelude.{
  ℕ, Bool, true, false, leb, List, [], ◌∷◌, Option, none, some, ◌≡◌, ◌≢◌, refl, arith, Option-cases,
  inl, inr, if◌then◌else◌,
}
use kuka_iiqka_ros.Double.{Double}
use kuka_iiqka_ros.Sfc.Motion.{MotionGoal, MotionStatus, running}
use kuka_iiqka_ros.Controllers.CartesianShell.{Controller, request_goal, request_cancel}
use kuka_iiqka_ros.Controllers.MoveAction.{
  Verdict, verdict_of, refuse, poll, Turn, follow, execute_cb,
}

-- The last request that was written is a cancel; or the cycles have taken the goal with a number, or a
-- later request, and it does not run.
pub data Released {F : Type 0} (seq : ℕ) (s : Controller F) : Type 0 where
  withdrawn : s.buffers.goal.is_cancel ≡ true → Released seq s
  ended : leb seq s.published.applied_seq ≡ true → s.published.status ≢ running → Released seq s

verdict_of-running :
    (status : MotionStatus) (cancelled : Bool) (v : Verdict)
    → verdict_of status cancelled ≡ some v
    → status ≢ running
unfolding verdict_of
verdict_of-running status cancelled v e = ground arith

if-some :
    (b : Bool) (o : Option Verdict) (v : Verdict)
    → (if b then o else none) ≡ some v
    → (b ≡ true) × (o ≡ some v)
if-some true o v e = (refl, e)
if-some false o v e = cc

module _ {F : Type 0} ⦃d : Double F⦄ where
  answer-Released :
      (s : Controller F) (seq : ℕ) (cancelled : Bool) (v : Verdict)
      → (if leb seq s.published.applied_seq then verdict_of s.published.status cancelled else none)
        ≡ some v
      → Released seq s
  answer-Released s seq cancelled v e =
      let (taken, answers) = if-some _ _ v e in
      ended taken (verdict_of-running s.published.status cancelled v answers)

  poll-Released :
      (s : Controller F) (no_goal : MotionGoal F) (seq : ℕ) (cancelled late preempt : Bool)
      (v : Verdict)
      → (poll s no_goal seq cancelled late preempt).2 ≡ some v
      → Released seq (poll s no_goal seq cancelled late preempt).0
  unfolding poll request_cancel
  poll-Released s no_goal seq cancelled true preempt v e = withdrawn refl
  poll-Released s no_goal seq true false preempt v e = answer-Released s seq true v e
  poll-Released s no_goal seq false false true v e = withdrawn refl
  poll-Released s no_goal seq false false false v e = answer-Released s seq false v e

  follow-Released :
      (no_goal : MotionGoal F) (seq : ℕ) (s : Controller F) (cancelled : Bool) (ts : List (Turn F))
      → Released seq (follow no_goal seq s cancelled ts).0
  unfolding follow
  follow-Released no_goal seq s cancelled [] = unfold request_cancel in (withdrawn refl)
  follow-Released no_goal seq s cancelled (t ∷ ts) =
      let u = t.meanwhile s in
      let goes = poll u no_goal seq cancelled t.late t.preempt in
      elim (Option-cases goes.2) [
        | inl on ↦ rw (on, follow) (follow-Released no_goal seq goes.0 goes.1 ts)
        | inr (v, ends) ↦
            rw (ends, follow) (poll-Released u no_goal seq cancelled t.late t.preempt v ends)
      ]

  -- Where the action is not refused, then however it ends, by a verdict or by the end of the node,
  -- and whatever the cycles and the other producers do between its turns: its goal is withdrawn by
  -- the last request that was written, or the cycles have taken it or a later request, and nothing
  -- runs.
  pub execute_cb-Released :
      (no_goal : MotionGoal F) (s : Controller F) (use_position : Bool) (g : MotionGoal F)
      (ts : List (Turn F))
      → refuse s use_position ≡ none
      → Released (request_goal s g).1 (execute_cb no_goal s use_position g ts).0
  unfolding execute_cb
  execute_cb-Released no_goal s use_position g ts free =
      let (t, seq) = request_goal s g in
      rw (free, execute_cb) (follow-Released no_goal seq t false ts)
