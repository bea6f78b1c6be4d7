-- ===== src/Sfc/Deadband.antt =====
-- `AdaptiveDeadband` (src/adaptive_deadband.cpp): the startup ramp that learns the deadbands.
use kuka_iiqka_ros.Prelude.{Bool, true, false, not, if◌then◌else◌}
use kuka_iiqka_ros.Double.{Double, nought, le, fmax, ◌⊕◌, ◌⊖◌}
use kuka_iiqka_ros.Sfc.Types.{Wrench, force_norm, torque_norm}

pub record Ramp (F : Type 0) : Type 0 where
  pub active : Bool
  pub remaining_s : F
  pub force_margin : F
  pub torque_margin : F
  pub max_force : F
  pub max_torque : F
  pub force_deadband : F
  pub torque_deadband : F

module _ {F : Type 0} ⦃d : Double F⦄ where
  -- `AdaptiveDeadband{}`.
  abbrev pub no_ramp : Ramp F
  no_ramp = record {
    active = false;
    remaining_s = nought;
    force_margin = nought;
    torque_margin = nought;
    max_force = nought;
    max_torque = nought;
    force_deadband = nought;
    torque_deadband = nought;
  }

  unfoldable pub start : Ramp F → F → F → F → Ramp F
  start r window_s force_margin_n torque_margin_nm = record r {
    active = true;
    remaining_s = window_s;
    force_margin = force_margin_n;
    torque_margin = torque_margin_nm;
    max_force = nought;
    max_torque = nought;
  }

  -- The code returns `active` of the result.
  unfoldable pub update : Ramp F → Wrench F → F → Ramp F
  update r w dt =
      let f = fmax r.max_force (force_norm w) in
      let t = fmax r.max_torque (torque_norm w) in
      let s = record r { max_force = f; max_torque = t; remaining_s = r.remaining_s ⊖ dt } in
      if not r.active
      then r
      else if le (r.remaining_s ⊖ dt) nought
      then record s {
        active = false;
        force_deadband = f ⊕ r.force_margin;
        torque_deadband = t ⊕ r.torque_margin;
      }
      else s
