-- ===== src/Sfc/Filter.antt =====
-- `ForceTorqueFilter` (src/force_torque_filter.cpp): a first-order low-pass on each channel.
use kuka_iiqka_ros.Prelude.{Bool, true, false, not, if◌then◌else◌}
use kuka_iiqka_ros.Double.{Double, nought, of_ℕ, le, ◌⊕◌, ◌⊖◌, ◌⊗◌, ◌⊘◌}
use kuka_iiqka_ros.Sfc.Types.{Wrench, zero_wrench}

pub record Filter (F : Type 0) : Type 0 where
  pub cutoff_hz : F
  pub initialized : Bool
  pub state : Wrench F

module _ {F : Type 0} ⦃d : Double F⦄ where
  abbrev pub filter_at : F → Filter F
  filter_at cutoff_hz = record { cutoff_hz = cutoff_hz; initialized = false; state = zero_wrench }

  unfoldable pub reset : Filter F → Filter F
  reset f = record f { initialized = false }

  unfoldable pub towards : F → Wrench F → Wrench F → Wrench F
  towards alpha s i = record {
    fx = s.fx ⊕ alpha ⊗ (i.fx ⊖ s.fx);
    fy = s.fy ⊕ alpha ⊗ (i.fy ⊖ s.fy);
    fz = s.fz ⊕ alpha ⊗ (i.fz ⊖ s.fz);
    tx = s.tx ⊕ alpha ⊗ (i.tx ⊖ s.tx);
    ty = s.ty ⊕ alpha ⊗ (i.ty ⊖ s.ty);
    tz = s.tz ⊕ alpha ⊗ (i.tz ⊖ s.tz);
  }

  -- `two_pi` is `2.0 * M_PI`.
  unfoldable pub filter : F → Filter F → Wrench F → F → Filter F × Wrench F
  filter two_pi f i dt =
      let rc = of_ℕ 1 ⊘ (two_pi ⊗ f.cutoff_hz) in
      let next = towards (dt ⊘ (dt ⊕ rc)) f.state i in
      if le f.cutoff_hz nought
      then (f, i)
      else if not f.initialized
      then (record f { state = i; initialized = true }, i)
      else (record f { state = next }, next)
