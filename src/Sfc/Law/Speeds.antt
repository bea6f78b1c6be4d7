-- ===== src/Sfc/Law/Speeds.antt =====
-- The law never asks for more than its maximal speed.
use kuka_iiqka_ros.Prelude.{true, ◌≡◌, arith, Bool-cases, inl, inr}
use kuka_iiqka_ros.Double.{Double, nought, lt, fmin, fmax, ◌≼◌, clamp, ◌⊗◌, ◌⊕◌, ◌⊖◌}
use kuka_iiqka_ros.Double.Order.{IsOrdered, Within, Within-nought, clamp-Within}
use kuka_iiqka_ros.Double.Rounded.{IsRounded}
use kuka_iiqka_ros.Sfc.Types.{Wrench, CartesianCorrection}
use kuka_iiqka_ros.Sfc.Law.{
  AxisGroupParams, ComplianceParams, deadzone, axis_velocity, velocities, reset,
}

module _ {F : Type 0} ⦃d : Double F⦄ where
  pub record InSpeeds (p : ComplianceParams F) (v : CartesianCorrection F) : Type 0 where
    pub x_in : Within p.translation.max_speed v.x
    pub y_in : Within p.translation.max_speed v.y
    pub z_in : Within p.translation.max_speed v.z
    pub a_in : Within p.rotation.max_speed v.a
    pub b_in : Within p.rotation.max_speed v.b
    pub c_in : Within p.rotation.max_speed v.c

  pub record HasSpeed (g : AxisGroupParams F) : Type 0 where
    pub speed : nought ≼ g.max_speed
    pub finite : d.is_finite g.max_speed ≡ true

  pub record HasSpeeds (p : ComplianceParams F) : Type 0 where
    pub translation : HasSpeed p.translation
    pub rotation : HasSpeed p.rotation

  -- What a period may change the speeds by.
  pub record IsPeriod (p : ComplianceParams F) (dt : F) : Type 0 where
    pub translation : nought ≼ p.translation.max_accel ⊗ dt
    pub rotation : nought ≼ p.rotation.max_accel ⊗ dt

  module _ (laws : IsOrdered F) (rounding : IsRounded F) where
    open laws use {refl_of_le, le_trans, le_of_lt, le_of_not_lt}

    capped-Within :
        (s prev hi v : F) → prev ≼ hi → Within s prev → Within s v → Within s (fmin hi v)
    capped-Within s prev hi v up at i = ground (
      arith,
      le_of_not_lt v hi (refl_of_le _ _ i.1).0 (refl_of_le _ _ up).1,
      le_trans (d.neg s) prev hi at.0 up,
      le_trans hi v s,
    )

    floored-Within :
        (s prev lo v : F) → lo ≼ prev → Within s prev → Within s v → Within s (fmax lo v)
    floored-Within s prev lo v down at i = ground (
      arith,
      le_of_not_lt lo v (refl_of_le _ _ down).0 (refl_of_le _ _ i.1).0,
      le_trans lo prev s down at.1,
      le_trans (d.neg s) v lo i.0,
    )

    axis_velocity-Within :
        (f scale dt prev : F) (g : AxisGroupParams F)
        → HasSpeed g
        → nought ≼ g.max_accel ⊗ dt
        → Within g.max_speed prev
        → Within g.max_speed (axis_velocity f g scale dt prev)
    unfolding axis_velocity
    axis_velocity-Within f scale dt prev g h pos at =
        let s = g.max_speed in
        let dv = g.max_accel ⊗ dt in
        let v = clamp (g.gain ⊗ deadzone f g.deadband ⊗ scale) s in
        let fin =
          rounding.finite_between prev (d.neg s) s (rounding.finite_neg s h.finite) h.finite at.0
            at.1 in
        let goal = clamp-Within laws (g.gain ⊗ deadzone f g.deadband ⊗ scale) s h.speed in
        let capped = capped-Within s prev (prev ⊕ dv) v (rounding.le_add prev dv fin pos) at goal in
        elim (Bool-cases (lt nought g.max_accel)) [
          | inl limited ↦ rw limited (
              floored-Within s prev (prev ⊖ dv) (fmin (prev ⊕ dv) v)
                (rounding.sub_le prev dv fin pos) at capped)
          | inr free ↦ rw free goal
        ]

    module _ (p : ComplianceParams F) (h : HasSpeeds p) where
      pub reset-InSpeeds : InSpeeds p reset
      unfolding reset
      reset-InSpeeds =
          let t = Within-nought laws p.translation.max_speed h.translation.speed in
          let r = Within-nought laws p.rotation.max_speed h.rotation.speed in
          record { x_in = t; y_in = t; z_in = t; a_in = r; b_in = r; c_in = r }

      pub velocities-InSpeeds :
          (prev : CartesianCorrection F) (w : Wrench F) (dt : F)
          → IsPeriod p dt
          → InSpeeds p prev
          → InSpeeds p (velocities prev w p dt)
      unfolding velocities
      velocities-InSpeeds prev w dt e i =
          let t = p.translation in
          let r = p.rotation in
          let k = p.speed_scale in
          record {
            x_in = axis_velocity-Within w.fx k dt prev.x t h.translation e.translation i.x_in;
            y_in = axis_velocity-Within w.fy k dt prev.y t h.translation e.translation i.y_in;
            z_in = axis_velocity-Within w.fz k dt prev.z t h.translation e.translation i.z_in;
            a_in = axis_velocity-Within w.tz k dt prev.a r h.rotation e.rotation i.a_in;
            b_in = axis_velocity-Within w.ty k dt prev.b r h.rotation e.rotation i.b_in;
            c_in = axis_velocity-Within w.tx k dt prev.c r h.rotation e.rotation i.c_in;
          }
