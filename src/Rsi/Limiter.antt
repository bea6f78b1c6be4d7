-- ===== src/Rsi/Limiter.antt =====
-- `CommandLimiter` (src/command_limiter.cpp): the last clamp of a correction, in the hardware
-- interface.
pub mod Bounds
use kuka_iiqka_ros.Prelude.{Bool, true, false, not, ◌||◌, if◌then◌else◌}
use kuka_iiqka_ros.Double.{Double, nought, ne, clamp}
use kuka_iiqka_ros.Sfc.Types.{CartesianCorrection}

pub record CommandLimits (F : Type 0) : Type 0 where
  pub max_trans : F
  pub max_rot : F

module _ {F : Type 0} ⦃d : Double F⦄ where
  -- The new value, and whether it was modified.
  unfoldable pub clamp_axis : F → F → F × Bool
  clamp_axis v lim =
      let c = clamp v lim in
      if not (d.is_finite v) then (nought, true) else if ne c v then (c, true) else (v, false)

  unfoldable pub clamp_all : CartesianCorrection F → CommandLimits F → CartesianCorrection F × Bool
  clamp_all corr limits =
      let (x, mx) = clamp_axis corr.x limits.max_trans in
      let (y, my) = clamp_axis corr.y limits.max_trans in
      let (z, mz) = clamp_axis corr.z limits.max_trans in
      let (a, ma) = clamp_axis corr.a limits.max_rot in
      let (b, mb) = clamp_axis corr.b limits.max_rot in
      let (c, mc) = clamp_axis corr.c limits.max_rot in
      (record { x = x; y = y; z = z; a = a; b = b; c = c }, mx || my || mz || ma || mb || mc)
