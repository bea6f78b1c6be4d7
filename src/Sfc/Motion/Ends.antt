-- ===== src/Sfc/Motion/Ends.antt =====
-- A turn to a goal orientation ends: it converges, or its time runs out.
use kuka_iiqka_ros.Prelude.{
  true, false, ◌≡◌, ◌⊎◌, List, [], ◌∷◌, Bool-cases, inl, inr, refl, sym, ◌∙◌, subst,
}
use mathlib.Core.Bool.{false≢true}
use kuka_iiqka_ros.Double.{Double, nought, lt, ◌⊕◌, ◌⊖◌, le}
use kuka_iiqka_ros.Sfc.Types.{CartesianState, zero_correction}
use kuka_iiqka_ros.Sfc.Rotation.{Libm, wrap_deg}
use kuka_iiqka_ros.Sfc.Motion.{
  Motion, MotionGoal, MotionStatus, running, converged, timeout, is_running, set_goal, update,
  steer, in_tolerance,
}

pub data Ended : MotionStatus → Type 0 where
  by_convergence : Ended converged
  by_timeout : Ended timeout

pub Ended-not_running : (s : MotionStatus) → Ended s → is_running s ≡ false
Ended-not_running _ by_convergence = refl
Ended-not_running _ by_timeout = refl

module _ {F : Type 0} ⦃d : Double F⦄ where
  -- The time that the cycles add up to.
  abbrev pub clock : F → List (CartesianState F × F) → F
  clock t [] = t
  clock t ((s, dt) ∷ rest) = clock (t ⊕ dt) rest

  -- What a cycle that began running leads to: the goal stays, the time is the given one, and the
  -- turn has ended, or it goes on with time left.
  record Leads (g : MotionGoal F) (t : F) (n : Motion F) : Type 0 where
    goal : n.goal ≡ g
    elapsed : n.elapsed ≡ t
    fate : Ended n.status ⊎ ((n.status ≡ running) × (lt g.timeout_s t ≡ false))

  module _ ⦃l : Libm F⦄ where
    abbrev pub run : Motion F → List (CartesianState F × F) → Motion F
    run m [] = m
    run m ((s, dt) ∷ rest) = run (update m s dt).0 rest

    pub update-idle :
        (m : Motion F) (s : CartesianState F) (dt : F)
        → is_running m.status ≡ false
        → update m s dt ≡ (m, zero_correction)
    unfolding update
    update-idle m s dt idle = rw idle refl

    Ended-update :
        (m : Motion F) (s : CartesianState F) (dt : F)
        → Ended m.status
        → update m s dt ≡ (m, zero_correction)
    Ended-update m s dt e = update-idle m s dt (Ended-not_running m.status e)

    Ended-run :
        (m : Motion F) (cycles : List (CartesianState F × F)) → Ended m.status → run m cycles ≡ m
    Ended-run m [] e = refl
    Ended-run m ((s, dt) ∷ rest) e = rw (Ended-update m s dt e) (Ended-run m rest e)

    steer-Leads :
        (m : Motion F) (dt ea eb ec : F)
        → m.status ≡ running
        → lt m.goal.timeout_s m.elapsed ≡ false
        → Leads m.goal m.elapsed (steer m dt ea eb ec).0
    unfolding steer
    steer-Leads m dt ea eb ec on early = elim (Bool-cases (in_tolerance m.goal ea eb ec)) [
      | inl close ↦ elim (Bool-cases (le m.goal.hold_s (m.held ⊕ dt))) [
        | inl held ↦
            rw (close, held) (record { goal = refl; elapsed = refl; fate = inl by_convergence })
        | inr soon ↦
            rw (close, soon) (record { goal = refl; elapsed = refl; fate = inr (on, early) })
      ]
      | inr far ↦ rw far (record { goal = refl; elapsed = refl; fate = inr (on, early) })
    ]

    update-Leads :
        (m : Motion F) (s : CartesianState F) (dt : F)
        → m.status ≡ running
        → Leads m.goal (m.elapsed ⊕ dt) (update m s dt).0
    unfolding update
    update-Leads m s dt on =
        let n : Motion F = record m { elapsed = m.elapsed ⊕ dt } in
        let ran : is_running m.status ≡ true = rw on refl in
        elim (Bool-cases (lt m.goal.timeout_s (m.elapsed ⊕ dt))) [
          | inl late ↦
              rw (ran, late) (record { goal = refl; elapsed = refl; fate = inl by_timeout })
          | inr early ↦
              rw (ran, early)
                (steer-Leads n dt (wrap_deg (m.goal.a ⊖ s.a)) (wrap_deg (m.goal.b ⊖ s.b))
                  (wrap_deg (m.goal.c ⊖ s.c)) on early)
        ]

    run-Ended :
        (m : Motion F) (cycles : List (CartesianState F × F))
        → m.status ≡ running
        → lt m.goal.timeout_s m.elapsed ≡ false
        → lt m.goal.timeout_s (clock m.elapsed cycles) ≡ true
        → Ended (run m cycles).status
    run-Ended m [] on early late = elim (false≢true (sym early ∙ late)) [ ]
    run-Ended m ((s, dt) ∷ rest) on early late =
        let n = (update m s dt).0 in
        let leads = update-Leads m s dt on in
        elim leads.fate [
          | inl ended ↦ subst (λ x. Ended x.status) (sym (Ended-run n rest ended)) ended
          | inr (goes, left) ↦
              run-Ended n rest goes (rw (leads.goal, leads.elapsed) left)
                (rw (leads.goal, leads.elapsed) late)
        ]

    -- A turn to a goal with a timeout that is not negative ends: once its cycles take longer than
    -- the timeout in sum, wherever the tool was in them, it has converged or timed out, and every
    -- later cycle leaves it so and asks for no correction.
    pub set_goal-Ended :
        (g : MotionGoal F) (cycles : List (CartesianState F × F)) (s : CartesianState F) (dt : F)
        → lt g.timeout_s nought ≡ false
        → lt g.timeout_s (clock nought cycles) ≡ true
        → let m = run (set_goal g) cycles in Ended m.status × (update m s dt ≡ (m, zero_correction))
    unfolding set_goal
    set_goal-Ended g cycles s dt early late =
        let ended = run-Ended (set_goal g) cycles refl early late in
        (ended, Ended-update (run (set_goal g) cycles) s dt ended)
