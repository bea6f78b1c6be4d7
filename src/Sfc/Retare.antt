-- ===== src/Sfc/Retare.antt =====
-- `AutoReTare` (src/auto_retare.cpp): whether the tool is back at the orientation where it began,
-- with no more than a residual wrench.
use kuka_iiqka_ros.Prelude.{Bool, false, not, ◌&&◌, if◌then◌else◌}
use kuka_iiqka_ros.Double.{Double, lt}
use kuka_iiqka_ros.Sfc.Types.{CartesianState, Wrench, force_norm, torque_norm}
use kuka_iiqka_ros.Sfc.Rotation.{Libm, Eigen, angular_distance_deg}

pub record AutoReTareParams (F : Type 0) : Type 0 where
  pub enabled : Bool
  pub orientation_tol_deg : F

pub record Reference (F : Type 0) : Type 0 where
  pub ref_a : F
  pub ref_b : F
  pub ref_c : F

module _ {F : Type 0} where
  -- `setReference`.
  abbrev pub reference : F → F → F → Reference F
  reference a b c = record { ref_a = a; ref_b = b; ref_c = c }

  module _ ⦃d : Double F⦄ ⦃m : Libm F⦄ ⦃g : Eigen F⦄ where
    abbrev pub distance_to : Reference F → CartesianState F → F
    distance_to r s = angular_distance_deg r.ref_a r.ref_b r.ref_c s.a s.b s.c

    unfoldable pub should_tare :
        Reference F → CartesianState F → Wrench F → F → F → AutoReTareParams F → Bool
    should_tare r s w force_deadband torque_deadband p =
        if not p.enabled
        then false
        else if lt p.orientation_tol_deg (distance_to r s)
        then false
        else lt (force_norm w) force_deadband && lt (torque_norm w) torque_deadband
