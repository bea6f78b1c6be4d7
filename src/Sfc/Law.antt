-- ===== src/Sfc/Law.antt =====
-- `ComplianceLaw` (src/compliance_law.cpp): from a force to a velocity on each axis.
pub mod Speeds
use kuka_iiqka_ros.Prelude.{if◌then◌else◌}
use kuka_iiqka_ros.Double.{Double, nought, lt, le, fmin, fmax, clamp, ◌⊕◌, ◌⊖◌, ◌⊗◌}
use kuka_iiqka_ros.Sfc.Types.{Wrench, CartesianCorrection, zero_correction}

pub record AxisGroupParams (F : Type 0) : Type 0 where
  pub gain : F
  pub deadband : F
  pub max_speed : F
  pub max_accel : F

pub record ComplianceParams (F : Type 0) : Type 0 where
  pub translation : AxisGroupParams F
  pub rotation : AxisGroupParams F
  pub speed_scale : F

module _ {F : Type 0} ⦃d : Double F⦄ where
  unfoldable pub deadzone : F → F → F
  deadzone f db = if le (d.fabs f) db then nought else if lt nought f then f ⊖ db else f ⊕ db

  -- The velocity, which is also the next `prev_v`.
  unfoldable pub axis_velocity : F → AxisGroupParams F → F → F → F → F
  axis_velocity f g scale dt prev_v =
      let v = clamp (g.gain ⊗ deadzone f g.deadband ⊗ scale) g.max_speed in
      let dv = g.max_accel ⊗ dt in
      if lt nought g.max_accel then fmax (prev_v ⊖ dv) (fmin (prev_v ⊕ dv) v) else v

  -- The velocities of the next cycle: the six values of `prev_v_`.
  unfoldable pub velocities :
      CartesianCorrection F → Wrench F → ComplianceParams F → F → CartesianCorrection F
  velocities prev w p dt = record {
    x = axis_velocity w.fx p.translation p.speed_scale dt prev.x;
    y = axis_velocity w.fy p.translation p.speed_scale dt prev.y;
    z = axis_velocity w.fz p.translation p.speed_scale dt prev.z;
    a = axis_velocity w.tz p.rotation p.speed_scale dt prev.a;
    b = axis_velocity w.ty p.rotation p.speed_scale dt prev.b;
    c = axis_velocity w.tx p.rotation p.speed_scale dt prev.c;
  }

  -- The next `prev_v_`, and the correction.
  unfoldable pub compute :
      CartesianCorrection F
      → Wrench F
      → ComplianceParams F
      → F
      → CartesianCorrection F × CartesianCorrection F
  compute prev w p dt =
      let v = velocities prev w p dt in
      (
        v,
        record {
          x = v.x ⊗ dt;
          y = v.y ⊗ dt;
          z = v.z ⊗ dt;
          a = v.a ⊗ dt;
          b = v.b ⊗ dt;
          c = v.c ⊗ dt;
        },
      )

  unfoldable pub reset : CartesianCorrection F
  reset = zero_correction
