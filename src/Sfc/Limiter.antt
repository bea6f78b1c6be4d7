-- ===== src/Sfc/Limiter.antt =====
-- `SafetyLimiter` (src/safety_limiter.cpp): the clamp of every correction before it goes to the
-- hardware interface, and the cutoff at a force or torque ceiling.
pub mod Bounds
mod Tests
use kuka_iiqka_ros.Prelude.{Bool, true, false, ◌||◌, if◌then◌else◌}
use kuka_iiqka_ros.Double.{Double, lt, ne, clamp}
use kuka_iiqka_ros.Sfc.Types.{Wrench, CartesianCorrection, force_norm, torque_norm, zero_correction}

pub record SafetyParams (F : Type 0) : Type 0 where
  pub max_corr_trans : F
  pub max_corr_rot : F
  pub force_ceiling : F
  pub torque_ceiling : F

pub record SafetyResult (F : Type 0) : Type 0 where
  pub correction : CartesianCorrection F
  pub hard_cutoff : Bool
  pub saturated : Bool

module _ {F : Type 0} ⦃d : Double F⦄ where
  -- The value, and whether the clamp moved it.
  unfoldable pub clamp_flag : F → F → F × Bool
  clamp_flag v lim = let c = clamp v lim in (c, ne c v)

  unfoldable pub over_ceiling : Wrench F → SafetyParams F → Bool
  over_ceiling w p = lt p.force_ceiling (force_norm w) || lt p.torque_ceiling (torque_norm w)

  unfoldable pub apply : CartesianCorrection F → Wrench F → SafetyParams F → SafetyResult F
  unfolding clamp_flag
  apply i w p =
      let (x, sx) = clamp_flag i.x p.max_corr_trans in
      let (y, sy) = clamp_flag i.y p.max_corr_trans in
      let (z, sz) = clamp_flag i.z p.max_corr_trans in
      let (a, sa) = clamp_flag i.a p.max_corr_rot in
      let (b, sb) = clamp_flag i.b p.max_corr_rot in
      let (c, sc) = clamp_flag i.c p.max_corr_rot in
      if over_ceiling w p
      then record { correction = zero_correction; hard_cutoff = true; saturated = false }
      else record {
        correction = record { x = x; y = y; z = z; a = a; b = b; c = c };
        hard_cutoff = false;
        saturated = sx || sy || sz || sa || sb || sc;
      }
