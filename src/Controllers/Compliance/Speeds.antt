-- ===== src/Controllers/Compliance/Speeds.antt =====
-- The speeds that the law of the force compliance remembers, over runs of cycles.
use kuka_iiqka_ros.Prelude.{
  Bool, ◌≡◌, refl, arith, Bool-cases, inl, inr, if_cases, List, [], ◌∷◌, subst, sym, All,
}
use kuka_iiqka_ros.Double.{Double}
use kuka_iiqka_ros.Double.Order.{IsOrdered}
use kuka_iiqka_ros.Double.Rounded.{IsRounded}
use kuka_iiqka_ros.Sfc.Types.{CartesianState, Wrench}
use kuka_iiqka_ros.Sfc.Frames.{compensate, wrench_sensor_to_tool}
use kuka_iiqka_ros.Sfc.Law
use kuka_iiqka_ros.Sfc.Law.{ComplianceParams, compute, velocities}
use kuka_iiqka_ros.Sfc.Law.Speeds.{
  InSpeeds, HasSpeeds, IsPeriod, reset-InSpeeds, velocities-InSpeeds,
}
use kuka_iiqka_ros.Sfc.Rotation.{Libm, Eigen}
use kuka_iiqka_ros.Controllers.Compliance.Safety.{update-fresh}
use kuka_iiqka_ros.Controllers.ComplianceData.{Core, ComplianceInput, ToolFrameConfig}
use kuka_iiqka_ros.Controllers.Compliance.{
  is_stale, ramp_cycle, tare, comply, law_params, proceed, cycle, update, activate,
}

module _ {F : Type 0} ⦃d : Double F⦄ ⦃m : Libm F⦄ ⦃g : Eigen F⦄ where
  -- The core after a run of cycles.
  abbrev pub after : Core F g.Mat → List (ComplianceInput F × F) → Core F g.Mat
  after k [] = k
  after k ((i, dt) ∷ rest) = after (update k i dt).0 rest

  -- A core with these parameters, whose speeds are within them.
  record Keeps (p : ComplianceParams F) (k : Core F g.Mat) : Type 0 where
    params : k.params.compliance ≡ p
    speeds : InSpeeds p k.law

  module _ (laws : IsOrdered F) (rounding : IsRounded F) where
    -- The deadbands of the moment do not matter to the speeds.
    law-InSpeeds :
        (k : Core F g.Mat) (w : Wrench F) (dt : F)
        → HasSpeeds k.params.compliance
        → IsPeriod k.params.compliance dt
        → InSpeeds k.params.compliance k.law
        → InSpeeds k.params.compliance (velocities k.law w (law_params k) dt)
    unfolding law_params
    law-InSpeeds k w dt h e i =
        let t = h.translation in
        let r = h.rotation in
        let q = law_params k in
        let hq : HasSpeeds q = record {
          translation = record { speed = t.speed; finite = t.finite };
          rotation = record { speed = r.speed; finite = r.finite };
        } in
        let eq : IsPeriod q dt = record { translation = e.translation; rotation = e.rotation } in
        let iq : InSpeeds q k.law = record {
          x_in = i.x_in;
          y_in = i.y_in;
          z_in = i.z_in;
          a_in = i.a_in;
          b_in = i.b_in;
          c_in = i.c_in;
        } in
        let o = velocities-InSpeeds laws rounding q hq k.law w dt eq iq in
        record {
          x_in = o.x_in;
          y_in = o.y_in;
          z_in = o.z_in;
          a_in = o.a_in;
          b_in = o.b_in;
          c_in = o.c_in;
        }

    comply-InSpeeds :
        (k : Core F g.Mat) (s : CartesianState F) (w : Wrench F) (tared : Bool) (r : g.Mat) (dt : F)
        → HasSpeeds k.params.compliance
        → IsPeriod k.params.compliance dt
        → InSpeeds k.params.compliance k.law
        → InSpeeds k.params.compliance (comply k s w tared r dt).0.law
    unfolding comply compute
    comply-InSpeeds k s w tared r dt h e i =
        if_cases (InSpeeds k.params.compliance) _ Law.reset
          (velocities k.law (wrench_sensor_to_tool k.frame w) (law_params k) dt)
          (λ _. reset-InSpeeds laws rounding k.params.compliance h)
          (λ _. law-InSpeeds k (wrench_sensor_to_tool k.frame w) dt h e i)

    module _ (p : ComplianceParams F) (h : HasSpeeds p) where
      tare-Keeps :
          (k : Core F g.Mat) (s : CartesianState F) (w : Wrench F) (r : g.Mat)
          → Keeps p k
          → Keeps p (tare k s w r).0
      unfolding tare
      tare-Keeps k s w r keeps = ground arith

      comply-Keeps :
          (k : Core F g.Mat) (s : CartesianState F) (w : Wrench F) (tared : Bool) (r : g.Mat)
          (dt : F)
          → IsPeriod p dt
          → Keeps p k
          → Keeps p (comply k s w tared r dt).0
      comply-Keeps k s w tared r dt e keeps =
          let back = sym keeps.params in
          record {
            params = unfold comply in keeps.params;
            speeds =
                subst (λ q. InSpeeds q (comply k s w tared r dt).0.law) keeps.params
                  (comply-InSpeeds k s w tared r dt (subst HasSpeeds back h)
                    (subst (λ q. IsPeriod q dt) back e)
                    (subst (λ q. InSpeeds q k.law) back keeps.speeds));
          }

      ramp_cycle-Keeps :
          (k : Core F g.Mat) (w : Wrench F) (dt : F) → Keeps p k → Keeps p (ramp_cycle k w dt).0
      unfolding ramp_cycle
      ramp_cycle-Keeps k w dt keeps = ground arith

      proceed-Keeps :
          (k : Core F g.Mat) (s : CartesianState F) (w : Wrench F) (r r_base : g.Mat) (dt : F)
          → IsPeriod p dt
          → Keeps p k
          → Keeps p (proceed k s w r r_base dt).0
      unfolding proceed
      proceed-Keeps k s w r r_base dt e keeps =
          let t = tare k s w r_base in
          let c = compensate k.compensator w r_base in
          if_cases (λ x. Keeps p x.0) k.ramp.active (ramp_cycle k c dt) (comply t.0 s t.1 t.2 r dt)
            (λ _. ramp_cycle-Keeps k c dt keeps)
            (λ _. comply-Keeps t.0 s t.1 t.2 r dt e (tare-Keeps k s w r_base keeps))

      update-Keeps :
          (k : Core F g.Mat) (i : ComplianceInput F) (dt : F)
          → IsPeriod p dt
          → Keeps p k
          → Keeps p (update k i dt).0
      update-Keeps k i dt e keeps = elim (Bool-cases (is_stale k i)) [
        | inl stale ↦
            unfold update in
            rw stale (record { params = keeps.params; speeds = reset-InSpeeds laws rounding p h })
        | inr fresh ↦ rw (update-fresh k i dt fresh) (
            unfold cycle in
            proceed-Keeps _ i.state _ _ _ dt e
              (record { params = keeps.params; speeds = keeps.speeds }))
      ]

      after-Keeps :
          (k : Core F g.Mat) (cycles : List (ComplianceInput F × F))
          → All (λ x. IsPeriod p x.1) cycles
          → Keeps p k
          → Keeps p (after k cycles)
      after-Keeps k [] e keeps = keeps
      after-Keeps k ((i, dt) ∷ rest) (e, es) keeps =
          after-Keeps (update k i dt).0 rest es (update-Keeps k i dt e keeps)

    -- From an activation on, through every run of cycles, whatever the inputs are, NaN and the
    -- infinities included, the speeds that the law remembers are within the maximal speeds, if
    -- these are finite and not negative and no period times a maximal acceleration is negative.
    pub after-InSpeeds :
        (k : Core F g.Mat) (start : CartesianState F) (tf : ToolFrameConfig F)
        (cycles : List (ComplianceInput F × F))
        → HasSpeeds k.params.compliance
        → All (λ x. IsPeriod k.params.compliance x.1) cycles
        → InSpeeds k.params.compliance (after (activate k start tf) cycles).law
    after-InSpeeds k start tf cycles h e =
        let p = k.params.compliance in
        let keeps = after-Keeps p h (activate k start tf) cycles e (
          unfold activate in record { params = refl; speeds = reset-InSpeeds laws rounding p h }) in
        keeps.speeds
