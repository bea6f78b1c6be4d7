-- ===== src/Manager/Commands/Waiting.antt =====
-- About the loop of a start that waits for the RSI stream (`startServo`, src/manager_runtime.cpp).
use kuka_iiqka_ros.Prelude.{
  Gives, IsSome, is_some, Holds-IsSome, ℕ, zero, suc, ◌+◌, ◌*◌, Bool, true, false, not, ◌&&◌, ◌==◌,
  Option, none, some, ◌≡◌, ap, sym, ◌∙◌, arith, if_cases, if◌then◌else◌,
}
use mathlib.Core.Bool.{false≢true}
use kuka_iiqka_ros.Double.{Double, lt, ◌⊕◌}
use kuka_iiqka_ros.Manager.Runtime.{health_locked, mode_direct, mode_compliance}
use kuka_iiqka_ros.Manager.State.{ready, ◌is◌}
use kuka_iiqka_ros.Manager.World.{World, Sys, wait}
use kuka_iiqka_ros.Manager.Commands.{
  refused, clear_residue, start_rsi, wait_rsi, arm, after_wait, wait_and_arm, start_servo,
}
use kuka_iiqka_ros.Manager.Commands.Modes.{ModeFits, start_servo-Holds}

module _ {F : Type 0} ⦃d : Double F⦄ (w : World F) where
  -- The clock passes every deadline of a start within `turns` turns of the loop: each turn uses up
  -- three answers, and sleeps for 10 ms.
  unfoldable pub ClockPasses : ℕ → Type 0
  ClockPasses turns =
      (k : ℕ)
      → lt (w.answer (k + 1 + 3 * turns)).now_s ((w.answer k).now_s ⊕ w.cfg.rsi_connect_wait_s)
        ≡ false

  -- Where the loop stands after a turn.
  abbrev turned : Sys F → Sys F
  turned y = (wait w (wait w (wait w y).0).0).0

  turn-IsSome :
      (fuel : ℕ) (deadline : F) (y : Sys F)
      → (lt (w.answer y.used).now_s deadline ≡ true → IsSome (wait_rsi w fuel deadline (turned y)))
      → IsSome (wait_rsi w (suc fuel) deadline y)
  unfolding wait_rsi
  turn-IsSome fuel deadline y later =
      let (t, a) = wait w y in
      let (u, b) = wait w t in
      let i = health_locked w.cfg u.rt b.now_s in
      let rest = wait_rsi w fuel deadline (turned y) in
      let up = i.rsi_topic_fresh && i.rsi_connected in
      if_cases IsSome (not (lt a.now_s deadline)) (some (t, false))
        (if up then some (u, true) else rest) (λ e. is_some (t, false))
        (λ e.
          if_cases IsSome up (some (u, true)) rest (λ g. is_some (u, true))
            (λ g. later (unfold wait in ground arith)))

  past_move :
      (deadline : F) (j k : ℕ)
      → j ≡ k
      → lt (w.answer k).now_s deadline ≡ false
      → lt (w.answer j).now_s deadline ≡ false
  past_move deadline j k p h = ap (λ n. lt (w.answer n).now_s deadline) p ∙ h

  wait_rsi-IsSome :
      (turns : ℕ) (deadline : F) (y : Sys F)
      → lt (w.answer (y.used + 3 * turns)).now_s deadline ≡ false
      → IsSome (wait_rsi w (suc turns) deadline y)
  wait_rsi-IsSome zero deadline y h = turn-IsSome zero deadline y (λ e.
      absurd (false≢true (sym (past_move deadline y.used (y.used + 3 * 0) (omega arith) h) ∙ e)))
  wait_rsi-IsSome (suc n) deadline y h = turn-IsSome (suc n) deadline y (λ e.
      wait_rsi-IsSome n deadline (turned y) (
        past_move deadline ((turned y).used + 3 * n) (y.used + 3 * suc n)
          (unfold wait in omega arith) h))

  after_wait-IsSome :
      (m p : ℕ) (b : Bool) (o : Option (Sys F × Bool)) → IsSome o → IsSome (after_wait w m p b o)
  unfolding after_wait
  after_wait-IsSome m p b none s = elim s [ ]
  after_wait-IsSome m p b (some (u, up)) s =
      is_some (if not up then (u, refused "RSI link did not come up in time") else arm w m p b u)

  start_servo-IsSome :
      (turns m p : ℕ) (y : Sys F) → ClockPasses turns → IsSome (start_servo w (suc turns) m p y)
  unfolding start_servo wait_and_arm ClockPasses
  start_servo-IsSome turns m p y h =
      let t = (wait w y).0 in
      let u = clear_residue w t in
      let v = start_rsi w u.0 in
      let x = wait w v.0 in
      let deadline = x.1.now_s ⊕ w.cfg.rsi_connect_wait_s in
      let found = wait_rsi-IsSome turns deadline x.0 (unfold wait in h v.0.used) in
      let last = wait_and_arm w (suc turns) m p v.1.0 v.0 in
      let ends = after_wait-IsSome m p v.1.0 (wait_rsi w (suc turns) deadline x.0) found in
      let no_rsi = refused "EKI start_rsi_program rejected" in
      let no_clear = refused "residual RSI fault clear failed" in
      let not_ready = refused "start requires READY" in
      let no_mode = refused "mode must be DIRECT_CARTESIAN or FORCE_COMPLIANCE" in
      let after_clear = if not v.1.1 then some (v.0, no_rsi) else last in
      let after_ready = if not u.1 then some (u.0, no_clear) else after_clear in
      let is_ready = t.rt.core.state is ready in
      let after_mode = if not is_ready then some (t, not_ready) else after_ready in
      if_cases IsSome (not (m == mode_direct) && not (m == mode_compliance)) (some (y, no_mode))
        after_mode (λ e. is_some (y, no_mode))
        (λ e.
          if_cases IsSome (not is_ready) (some (t, not_ready)) after_ready
            (λ e. is_some (t, not_ready))
            (λ e.
              if_cases IsSome (not u.1) (some (u.0, no_clear)) after_clear
                (λ e. is_some (u.0, no_clear))
                (λ e.
                  if_cases IsSome (not v.1.1) (some (v.0, no_rsi)) last (λ e. is_some (v.0, no_rsi))
                    (λ e. ends))))

  -- If the mode hook is set and the clock passes the deadline within the turns of the loop, a start
  -- ends. If it succeeds, its mode is the last one published. If it is refused, for whatever reason
  -- and whatever the other threads do meanwhile, no mode was published or at last IDLE.
  pub start_servo-ModeFits :
      (turns m p : ℕ) (y : Sys F)
      → w.hooks.has_mode ≡ true
      → ClockPasses turns
      → Gives (ModeFits w m y.calls) (start_servo w (suc turns) m p y)
  start_servo-ModeFits turns m p y h c =
      Holds-IsSome (ModeFits w m y.calls) (start_servo w (suc turns) m p y)
        (start_servo-Holds w (suc turns) m p y h) (start_servo-IsSome turns m p y c)
