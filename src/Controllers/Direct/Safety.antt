-- ===== src/Controllers/Direct/Safety.antt =====
-- What a cycle of the direct correction may answer, and how a goal ends.
use kuka_iiqka_ros.Prelude.{
  true, false, ◌≡◌, refl, arith, List, [], ◌∷◌, Bool-cases, inl, inr, subst, sym, ap, ◌∙◌,
}
use kuka_iiqka_ros.Double.{Double, nought, lt}
use kuka_iiqka_ros.Double.Order.{IsOrdered, Within-nought, clamp_in_range}
use kuka_iiqka_ros.Sfc.Types.{
  CartesianState, CartesianCorrection, Wrench, zero_correction, zero_wrench,
}
use kuka_iiqka_ros.Sfc.Limiter.{SafetyParams, apply, over_ceiling}
use kuka_iiqka_ros.Sfc.Limiter.Bounds.{InLimits, HasLimits, apply-InLimits}
use kuka_iiqka_ros.Sfc.Rotation.{Libm}
use kuka_iiqka_ros.Sfc.Motion
use kuka_iiqka_ros.Sfc.Motion.{MotionGoal, Motion, is_running, set_goal}
use kuka_iiqka_ros.Sfc.Motion.Ends
use kuka_iiqka_ros.Sfc.Motion.Ends.{Ended, clock, set_goal-Ended, update-idle, Ended-not_running}
use kuka_iiqka_ros.Controllers.Direct.{Core, start_goal, is_fresh, source, update}

module _ {F : Type 0} ⦃d : Double F⦄ where
  -- Equal to zero on each axis, by `==`.
  pub record IsStill (c : CartesianCorrection F) : Type 0 where
    pub x_still : d.eq c.x nought ≡ true
    pub y_still : d.eq c.y nought ≡ true
    pub z_still : d.eq c.z nought ≡ true
    pub a_still : d.eq c.a nought ≡ true
    pub b_still : d.eq c.b nought ≡ true
    pub c_still : d.eq c.c nought ≡ true

  module _ (laws : IsOrdered F) (p : SafetyParams F) (h : HasLimits p) where
    apply-IsStill : (w : Wrench F) → IsStill (apply zero_correction w p).correction
    unfolding apply
    apply-IsStill w =
        let t =
          clamp_in_range laws nought p.max_corr_trans h.trans
            (Within-nought laws p.max_corr_trans h.trans) in
        let r =
          clamp_in_range laws nought p.max_corr_rot h.rot
            (Within-nought laws p.max_corr_rot h.rot) in
        let z = laws.eq_of_le nought nought laws.nought_refl laws.nought_refl in
        elim (Bool-cases (over_ceiling w p)) [
          | inl over ↦ rw over (record {
            x_still = z;
            y_still = z;
            z_still = z;
            a_still = z;
            b_still = z;
            c_still = z;
          })
          | inr under ↦ rw under (record {
            x_still = t;
            y_still = t;
            z_still = t;
            a_still = r;
            b_still = r;
            c_still = r;
          })
        ]

  module _ ⦃m : Libm F⦄ where
    pub update-InLimits :
        IsOrdered F
        → (k : Core F) (s : CartesianState F) (now_s dt : F) → HasLimits k.params.safety
        → InLimits k.params.safety (update k s now_s dt).1.correction
    unfolding update
    update-InLimits laws k s now_s dt h = apply-InLimits laws k.params.safety h _ zero_wrench

    -- With no goal running and the stream older than the timeout, or never begun, a cycle answers
    -- zero and reports the stream as stale, if the limits are not negative.
    update-stale :
        IsOrdered F
        → (k : Core F) (s : CartesianState F) (now_s dt : F) → HasLimits k.params.safety
        → is_running k.motion.status ≡ false
        → is_fresh k now_s ≡ false
        → IsStill (update k s now_s dt).1.correction × ((update k s now_s dt).1.stream_stale ≡ true)
    unfolding update source
    update-stale laws k s now_s dt h off old =
        rw (off, old) (apply-IsStill laws k.params.safety h zero_wrench, refl)

    -- The core after a run of cycles, each with its pose, its time and its period.
    abbrev pub run : Core F → List (CartesianState F × F × F) → Core F
    run k [] = k
    run k ((s, now_s, dt) ∷ rest) = run (update k s now_s dt).0 rest

    -- What the motion sees of the cycles.
    abbrev pub turns : List (CartesianState F × F × F) → List (CartesianState F × F)
    turns [] = []
    turns ((s, now_s, dt) ∷ rest) = (s, dt) ∷ turns rest

    pub update-motion :
        (k : Core F) (s : CartesianState F) (now_s dt : F)
        → (update k s now_s dt).0.motion ≡ (Motion.update k.motion s dt).0
    unfolding update source
    update-motion k s now_s dt = elim (Bool-cases (is_running k.motion.status)) [
      | inl on ↦ rw on refl
      | inr off ↦ elim (Bool-cases (is_fresh k now_s)) [
        | inl fresh ↦ rw (off, fresh, update-idle k.motion s dt off) refl
        | inr old ↦ rw (off, old, update-idle k.motion s dt off) refl
      ]
    ]

    run-motion :
        (k : Core F) (cycles : List (CartesianState F × F × F))
        → (run k cycles).motion ≡ Ends.run k.motion (turns cycles)
    run-motion k [] = refl
    run-motion k ((s, now_s, dt) ∷ rest) =
        run-motion (update k s now_s dt).0 rest
        ∙ ap (λ n. Ends.run n (turns rest)) (update-motion k s now_s dt)

    update-no_goal :
        (k : Core F) (s : CartesianState F) (now_s dt : F)
        → is_running k.motion.status ≡ false
        → (update k s now_s dt).1.goal_active ≡ false
    unfolding update source
    update-no_goal k s now_s dt off = ground arith

    -- A goal whose timeout is not negative gives the robot back: once the cycles after its start
    -- take longer than the timeout in sum, wherever the tool was in them and whatever stream there
    -- was, it has converged or timed out, and the next cycle does not follow it.
    pub start_goal-Ended :
        (k : Core F) (g : MotionGoal F) (cycles : List (CartesianState F × F × F))
        (s : CartesianState F) (now_s dt : F)
        → lt g.timeout_s nought ≡ false
        → lt g.timeout_s (clock nought (turns cycles)) ≡ true
        → let n = run (start_goal k g) cycles in
          Ended n.motion.status × ((update n s now_s dt).1.goal_active ≡ false)
    unfolding start_goal
    start_goal-Ended k g cycles s now_s dt early late =
        let n = run (start_goal k g) cycles in
        let ended =
          subst (λ x. Ended x.status) (sym (run-motion (start_goal k g) cycles))
            (set_goal-Ended g (turns cycles) s dt early late).0 in
        (ended, update-no_goal n s now_s dt (Ended-not_running n.motion.status ended))
