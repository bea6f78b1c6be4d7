-- ===== src/Controllers/Compliance/Safety.antt =====
-- What a cycle of the force compliance may answer.
use kuka_iiqka_ros.Prelude.{
  Bool, true, false, ◌≡◌, ◌⊎◌, refl, arith, Bool-cases, inl, inr, sym, subst, if_cases, ◌∙◌,
}
use mathlib.Core.Bool.{false≢true}
use kuka_iiqka_ros.Double.{Double}
use kuka_iiqka_ros.Double.Order.{IsOrdered}
use kuka_iiqka_ros.Sfc.Types.{CartesianState, Wrench, zero_correction}
use kuka_iiqka_ros.Sfc.Limiter.{SafetyParams, apply, over_ceiling}
use kuka_iiqka_ros.Sfc.Limiter.Bounds.{
  InLimits, HasLimits, apply-InLimits, zero_correction-InLimits,
}
use kuka_iiqka_ros.Sfc.Frames.{compensate}
use kuka_iiqka_ros.Sfc.Rotation.{Libm, Eigen}
use kuka_iiqka_ros.Controllers.ComplianceData.{Core, ComplianceInput, ComplianceOutput}
use kuka_iiqka_ros.Controllers.Compliance.{
  is_stale, ramp_cycle, tare, comply, proceed, cycle, update,
}

module _ {F : Type 0} ⦃d : Double F⦄ ⦃m : Libm F⦄ ⦃g : Eigen F⦄ where
  -- The safety parameters stay.
  tare-params :
      (k : Core F g.Mat) (s : CartesianState F) (w : Wrench F) (r : g.Mat)
      → (tare k s w r).0.params ≡ k.params
  unfolding tare
  tare-params k s w r = ground arith

  module _ (laws : IsOrdered F) where
    comply-InLimits :
        (k : Core F g.Mat) (s : CartesianState F) (w : Wrench F) (tared : Bool) (r : g.Mat) (dt : F)
        → HasLimits k.params.safety
        → InLimits k.params.safety (comply k s w tared r dt).1.correction
    unfolding comply
    comply-InLimits k s w tared r dt h = apply-InLimits laws k.params.safety h _ w

    proceed-InLimits :
        (k : Core F g.Mat) (s : CartesianState F) (w : Wrench F) (r r_base : g.Mat) (dt : F)
        → HasLimits k.params.safety
        → InLimits k.params.safety (proceed k s w r r_base dt).1.correction
    unfolding proceed ramp_cycle
    proceed-InLimits k s w r r_base dt h =
        let t = tare k s w r_base in
        let same = tare-params k s w r_base in
        let out = comply t.0 s t.1 t.2 r dt in
        if_cases (λ x. InLimits k.params.safety x.1.correction) k.ramp.active
          (ramp_cycle k (compensate k.compensator w r_base) dt) out
          (λ _. zero_correction-InLimits laws k.params.safety h)
          (λ _.
            subst (λ p. InLimits p.safety out.1.correction) same
              (comply-InLimits t.0 s t.1 t.2 r dt (subst (λ p. HasLimits p.safety) (sym same) h)))

    -- Whatever the input, NaN and the infinities included, and whatever the state of the core, a
    -- cycle answers with a correction within the limits on every axis, if the limits are not
    -- negative.
    pub update-InLimits :
        (k : Core F g.Mat) (i : ComplianceInput F) (dt : F)
        → HasLimits k.params.safety
        → InLimits k.params.safety (update k i dt).1.correction
    unfolding update cycle
    update-InLimits k i dt h = elim (Bool-cases (is_stale k i)) [
      | inl stale ↦ rw stale (zero_correction-InLimits laws k.params.safety h)
      | inr fresh ↦ rw fresh (proceed-InLimits _ i.state _ _ _ dt h)
    ]

  -- When a cycle must not move the robot: the wrench is stale, the ramp is on, or the wrench that
  -- it compensated is over a ceiling.
  pub data Stops (k : Core F g.Mat) (i : ComplianceInput F) (out : ComplianceOutput F)
      : Type 0 where
    at_stale : is_stale k i ≡ true → Stops k i out
    at_ramp : k.ramp.active ≡ true → Stops k i out
    at_ceiling : over_ceiling out.compensated k.params.safety ≡ true → Stops k i out

  -- The cutoff is reported exactly at a ceiling, and then nothing is asked for.
  record Guarded (p : SafetyParams F) (out : ComplianceOutput F) : Type 0 where
    cutoff : out.hard_cutoff ≡ over_ceiling out.compensated p
    halt : (out.hard_cutoff ≡ false) ⊎ (out.correction ≡ zero_correction)

  comply-Guarded :
      (k : Core F g.Mat) (s : CartesianState F) (w : Wrench F) (tared : Bool) (r : g.Mat) (dt : F)
      → Guarded k.params.safety (comply k s w tared r dt).1
  unfolding comply apply
  comply-Guarded k s w tared r dt = elim (Bool-cases (over_ceiling w k.params.safety)) [
    | inl over ↦ record { cutoff = ground arith; halt = inr (rw over refl) }
    | inr under ↦ record { cutoff = ground arith; halt = inl (rw under refl) }
  ]

  ramp_cycle-Guarded :
      (k : Core F g.Mat) (w : Wrench F) (dt : F) → Guarded k.params.safety (ramp_cycle k w dt).1
  unfolding ramp_cycle apply
  ramp_cycle-Guarded k w dt = record { cutoff = ground arith; halt = inr refl }

  proceed-Guarded :
      (k : Core F g.Mat) (s : CartesianState F) (w : Wrench F) (r r_base : g.Mat) (dt : F)
      → Guarded k.params.safety (proceed k s w r r_base dt).1
  unfolding proceed
  proceed-Guarded k s w r r_base dt =
      let t = tare k s w r_base in
      let same = tare-params k s w r_base in
      let c = compensate k.compensator w r_base in
      let out = comply t.0 s t.1 t.2 r dt in
      if_cases (λ x. Guarded k.params.safety x.1) k.ramp.active (ramp_cycle k c dt) out
        (λ _. ramp_cycle-Guarded k c dt)
        (λ _. subst (λ p. Guarded p.safety out.1) same (comply-Guarded t.0 s t.1 t.2 r dt))

  pub update-fresh :
      (k : Core F g.Mat) (i : ComplianceInput F) (dt : F)
      → is_stale k i ≡ false
      → update k i dt ≡ cycle k i dt
  unfolding update
  update-fresh k i dt fresh = rw fresh refl

  update-Guarded :
      (k : Core F g.Mat) (i : ComplianceInput F) (dt : F)
      → is_stale k i ≡ false
      → Guarded k.params.safety (update k i dt).1
  update-Guarded k i dt fresh =
      rw (update-fresh k i dt fresh) (unfold cycle in proceed-Guarded _ i.state _ _ _ dt)

  -- In a cycle with a fresh wrench the cutoff is reported exactly if the wrench that the cycle
  -- compensated is over a ceiling.
  update-hard_cutoff :
      (k : Core F g.Mat) (i : ComplianceInput F) (dt : F)
      → is_stale k i ≡ false
      → (update k i dt).1.hard_cutoff ≡ over_ceiling (update k i dt).1.compensated k.params.safety
  update-hard_cutoff k i dt fresh = let guarded = update-Guarded k i dt fresh in guarded.cutoff

  ramp-zero :
      (k : Core F g.Mat) (s : CartesianState F) (w : Wrench F) (r r_base : g.Mat) (dt : F)
      → k.ramp.active ≡ true
      → (proceed k s w r r_base dt).1.correction ≡ zero_correction
  unfolding proceed ramp_cycle
  ramp-zero k s w r r_base dt ramping =
      if_cases (λ x. x.1.correction ≡ zero_correction) k.ramp.active
        (ramp_cycle k (compensate k.compensator w r_base) dt)
        (comply (tare k s w r_base).0 s (tare k s w r_base).1 (tare k s w r_base).2 r dt)
        (λ _. refl) (λ off. elim (false≢true (sym off ∙ ramping)) [ ])

  Guarded-zero :
      (p : SafetyParams F) (out : ComplianceOutput F)
      → Guarded p out
      → over_ceiling out.compensated p ≡ true
      → out.correction ≡ zero_correction
  Guarded-zero p out guarded over = elim guarded.halt [
    | inl off ↦ elim (false≢true (sym off ∙ guarded.cutoff ∙ over)) [ ]
    | inr zero ↦ zero
  ]

  -- A cycle whose wrench is stale, or that began in the startup ramp, or whose compensated wrench
  -- is over a ceiling, asks for no correction.
  pub update-Stops :
      (k : Core F g.Mat) (i : ComplianceInput F) (dt : F)
      → Stops k i (update k i dt).1
      → (update k i dt).1.correction ≡ zero_correction
  update-Stops k i dt stops = elim (Bool-cases (is_stale k i)) [
    | inl stale ↦ unfold update in rw stale refl
    | inr fresh ↦ elim stops [
      | at_stale stale ↦ elim (false≢true (sym fresh ∙ stale)) [ ]
      | at_ramp ramping ↦
          rw (update-fresh k i dt fresh) (unfold cycle in ramp-zero _ i.state _ _ _ dt ramping)
      | at_ceiling over ↦
          Guarded-zero k.params.safety (update k i dt).1 (update-Guarded k i dt fresh) over
    ]
  ]
