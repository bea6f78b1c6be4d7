-- ===== src/Controllers/CartesianShell/Safety.antt =====
-- What the controller of the direct correction commands, and what becomes of a goal.
use kuka_iiqka_ros.Prelude.{
  ◌+◌, ◌≤◌, ◌<◌, true, false, not, ◌&&◌, ◌≡◌, refl, arith, subst, sym, if_cases, if◌then◌else◌,
}
use kuka_iiqka_ros.Double.{Double}
use kuka_iiqka_ros.Double.Order.{IsOrdered}
use kuka_iiqka_ros.Sfc.Types.{CartesianState, zero_correction}
use kuka_iiqka_ros.Sfc.Limiter.Bounds.{InLimits, HasLimits, zero_correction-InLimits}
use kuka_iiqka_ros.Sfc.Rotation.{Libm, Eigen}
use kuka_iiqka_ros.Sfc.Motion.{MotionGoal, is_running, cancel}
use kuka_iiqka_ros.Sfc.Motion.Ends.{update-idle}
use kuka_iiqka_ros.Rsi.Monitor.{u64}
use kuka_iiqka_ros.Controllers.Gate
use kuka_iiqka_ros.Controllers.Gate.{is_engaged}
use kuka_iiqka_ros.Controllers.Direct
use kuka_iiqka_ros.Controllers.Direct.{
  Core, StreamCommand, reset, set_stream, start_goal, cancel_goal,
}
use kuka_iiqka_ros.Controllers.Direct.Safety
use kuka_iiqka_ros.Controllers.CartesianShell.{
  Controller, Buffers, is_new, apply_goal, disengage, update, stopping, request_cancel, set_zero,
}

module _ {F : Type 0} ⦃d : Double F⦄ where
  -- The core that a cycle works with.
  abbrev asked : Controller F → Buffers F → Core F
  asked s seen =
      let k = if (Gate.apply s.gate seen.mode).1 then reset s.core else s.core in
      if is_new s seen.goal then apply_goal k seen.goal else k

  asked-params : (s : Controller F) (seen : Buffers F) → (asked s seen).params ≡ s.core.params
  unfolding reset apply_goal cancel_goal start_goal
  asked-params s seen = ground arith

  disengage-idle : (k : Core F) → is_running (disengage k).motion.status ≡ false
  unfolding disengage cancel_goal cancel
  disengage-idle k = ground arith

  module _ ⦃m : Libm F⦄ ⦃g : Eigen F⦄ where
    set_stream-InLimits :
        IsOrdered F
        → (k : Core F) (c : StreamCommand F) (state : CartesianState F) (now_s dt : F)
        → HasLimits k.params.safety
        → InLimits k.params.safety (Direct.update (set_stream k c) state now_s dt).1.correction
    unfolding set_stream
    set_stream-InLimits laws k c state now_s dt h =
        Safety.update-InLimits laws (record k { stream = c }) state now_s dt h

    -- Whatever the buffers give a cycle, NaN and the infinities included, it commands a correction
    -- within the limits on every axis, if the limits are not negative.
    update-InLimits :
        IsOrdered F
        → (s : Controller F) (seen : Buffers F) (state : CartesianState F) (now_s dt : F)
        → HasLimits s.core.params.safety
        → InLimits s.core.params.safety (update s seen state now_s dt).command
    unfolding update
    update-InLimits laws s seen state now_s dt h =
        let k = asked s seen in
        let p = s.core.params.safety in
        let out = (Direct.update (set_stream k seen.stream) state now_s dt).1 in
        if_cases (InLimits p) (is_engaged (Gate.apply s.gate seen.mode).0 && not seen.has_fault)
          out.correction zero_correction
          (λ _.
            subst (λ q. InLimits q.safety out.correction) (asked-params s seen)
              (set_stream-InLimits laws k seen.stream state now_s dt
                (subst (λ q. HasLimits q.safety) (sym (asked-params s seen)) h)))
          (λ _. zero_correction-InLimits laws p h)

    -- A cycle that finds the controller not engaged, by the mode or by a fault, commands zero, and
    -- leaves no goal running, also one that is asked for in this cycle.
    update-disengaged :
        (s : Controller F) (seen : Buffers F) (state : CartesianState F) (now_s dt : F)
        → is_engaged (Gate.apply s.gate seen.mode).0 && not seen.has_fault ≡ false
        → let t = update s seen state now_s dt in
          (t.command ≡ zero_correction)
          × (is_running t.published.status ≡ false)
          × (t.published.is_engaged ≡ false)
    unfolding update
    update-disengaged s seen state now_s dt off = rw off (refl, disengage-idle (asked s seen), refl)

    -- A cycle that gets a new request to cancel leaves no goal running.
    asked-cancelled :
        (s : Controller F) (seen : Buffers F)
        → is_new s seen.goal ≡ true
        → seen.goal.is_cancel ≡ true
        → is_running (asked s seen).motion.status ≡ false
    unfolding apply_goal cancel_goal cancel
    asked-cancelled s seen new cancels = ground arith

    set_stream-idle :
        (k : Core F) (c : StreamCommand F) (state : CartesianState F) (now_s dt : F)
        → is_running k.motion.status ≡ false
        → is_running (Direct.update (set_stream k c) state now_s dt).0.motion.status ≡ false
    unfolding set_stream
    set_stream-idle k c state now_s dt idle =
        rw
          (
            Safety.update-motion (record k { stream = c }) state now_s dt,
            update-idle k.motion state dt idle,
          )
          idle

    update-cancelled :
        (s : Controller F) (seen : Buffers F) (state : CartesianState F) (now_s dt : F)
        → is_new s seen.goal ≡ true
        → seen.goal.is_cancel ≡ true
        → is_running (update s seen state now_s dt).published.status ≡ false
    unfolding update
    update-cancelled s seen state now_s dt new cancels =
        let k = asked s seen in
        if_cases (λ x. is_running x.motion.status ≡ false)
          (is_engaged (Gate.apply s.gate seen.mode).0 && not seen.has_fault)
          (Direct.update (set_stream k seen.stream) state now_s dt).0 (disengage k)
          (λ _. set_stream-idle k seen.stream state now_s dt (asked-cancelled s seen new cancels))
          (λ _. disengage-idle k)

    stopping-is_new :
        (s : Controller F) (no_goal : MotionGoal F)
        → s.applied_goal_seq ≤ s.goal_seq
        → s.goal_seq < 18446744073709551615
        → let t = stopping s no_goal in
          (is_new t t.buffers.goal ≡ true) × (t.buffers.goal.is_cancel ≡ true)
    unfolding is_new stopping request_cancel set_zero
    stopping-is_new s no_goal h k =
        let e : u64 (s.goal_seq + 1) ≡ s.goal_seq + 1 = omega arith in rw e (ground arith, refl)

    -- A goal does not survive a stop of the controller: the first cycle after it leaves no goal
    -- running, whatever else its buffers give it, if it gets the last request that was written, and
    -- the count of requests has not passed its end.
    pub stopping-update :
        (s : Controller F) (no_goal : MotionGoal F) (seen : Buffers F) (state : CartesianState F)
        (now_s dt : F)
        → s.applied_goal_seq ≤ s.goal_seq
        → s.goal_seq < 18446744073709551615
        → seen.goal ≡ (stopping s no_goal).buffers.goal
        → is_running (update (stopping s no_goal) seen state now_s dt).published.status ≡ false
    stopping-update s no_goal seen state now_s dt h k e =
        let t = stopping s no_goal in
        let (new, cancels) = stopping-is_new s no_goal h k in
        update-cancelled t seen state now_s dt (rw e new) (rw e cancels)
