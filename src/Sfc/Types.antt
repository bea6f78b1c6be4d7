-- ===== src/Sfc/Types.antt =====
-- The values that every package shares (include/soft_force_control_core/types.h).
use kuka_iiqka_ros.Double.{Double, nought, ◌⊕◌, ◌⊗◌}

-- A pose and a correction have the same six components; the code has a struct for each.
pub record CartesianState (F : Type 0) : Type 0 where
  pub x : F
  pub y : F
  pub z : F
  pub a : F
  pub b : F
  pub c : F

pub record Wrench (F : Type 0) : Type 0 where
  pub fx : F
  pub fy : F
  pub fz : F
  pub tx : F
  pub ty : F
  pub tz : F

pub record CartesianCorrection (F : Type 0) : Type 0 where
  pub x : F
  pub y : F
  pub z : F
  pub a : F
  pub b : F
  pub c : F

pub data ControlMode : Type 0 where
  idle direct_cartesian force_compliance calibration : ControlMode

pub data Profile : Type 0 where
  drag precision : Profile

module _ {F : Type 0} ⦃d : Double F⦄ where
  unfoldable pub force_norm : Wrench F → F
  force_norm w = d.sqrt (w.fx ⊗ w.fx ⊕ w.fy ⊗ w.fy ⊕ w.fz ⊗ w.fz)

  unfoldable pub torque_norm : Wrench F → F
  torque_norm w = d.sqrt (w.tx ⊗ w.tx ⊕ w.ty ⊗ w.ty ⊕ w.tz ⊗ w.tz)

  abbrev pub zero_correction : CartesianCorrection F
  zero_correction = record {
    x = nought;
    y = nought;
    z = nought;
    a = nought;
    b = nought;
    c = nought;
  }

  abbrev pub zero_wrench : Wrench F
  zero_wrench = record {
    fx = nought;
    fy = nought;
    fz = nought;
    tx = nought;
    ty = nought;
    tz = nought;
  }

  -- Componentwise `+=`, `-` and `/`, which several functions write out.
  unfoldable pub add_wrench : Wrench F → Wrench F → Wrench F
  add_wrench v w = record {
    fx = v.fx ⊕ w.fx;
    fy = v.fy ⊕ w.fy;
    fz = v.fz ⊕ w.fz;
    tx = v.tx ⊕ w.tx;
    ty = v.ty ⊕ w.ty;
    tz = v.tz ⊕ w.tz;
  }
