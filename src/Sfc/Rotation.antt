-- ===== src/Sfc/Rotation.antt =====
-- The angles and rotations of include/soft_force_control_core/rotation.h. The functions of the C
-- library and the Eigen types that it calls are the interfaces `Libm` and `Eigen`.
use kuka_iiqka_ros.Prelude.{if◌then◌else◌}
use kuka_iiqka_ros.Double.{Double, nought, of_ℕ, lt, clamp, ◌⊕◌, ◌⊖◌, ◌⊗◌, ◌⊘◌}

pub record Libm (F : Type 0) : Type 0 where
  pub pi : F
  pub fmod : F → F → F
  pub acos : F → F

-- `Eigen::Vector3d`.
pub record Vec3 (F : Type 0) : Type 0 where
  pub vx : F
  pub vy : F
  pub vz : F

-- `Eigen::Matrix3d`, and the quaternions that a product of angles about an axis is.
pub record Eigen (F : Type 0) : Type 1 where
  pub Mat : Type 0
  pub Quat : Type 0
  pub identity : Mat
  pub times : Mat → Mat → Mat
  pub transpose : Mat → Mat
  pub trace : Mat → F
  pub on_vec : Mat → Vec3 F → Vec3 F
  pub cross : Vec3 F → Vec3 F → Vec3 F
  pub about_x : F → Quat
  pub about_y : F → Quat
  pub about_z : F → Quat
  pub join : Quat → Quat → Quat
  pub to_rotation_matrix : Quat → Mat

module _ {F : Type 0} ⦃d : Double F⦄ ⦃m : Libm F⦄ where
  unfoldable pub deg_to_rad : F → F
  deg_to_rad x = x ⊗ m.pi ⊘ of_ℕ 180

  unfoldable pub rad_to_deg : F → F
  rad_to_deg r = r ⊗ of_ℕ 180 ⊘ m.pi

  unfoldable pub wrap_deg : F → F
  wrap_deg deg =
      let r = m.fmod (deg ⊕ of_ℕ 180) (of_ℕ 360) in
      (if lt r nought then r ⊕ of_ℕ 360 else r) ⊖ of_ℕ 180

  module _ ⦃g : Eigen F⦄ where
    unfoldable pub kuka_abc_to_rotation : F → F → F → g.Mat
    kuka_abc_to_rotation a_deg b_deg c_deg = g.to_rotation_matrix (
        g.join (g.join (g.about_z (deg_to_rad a_deg)) (g.about_y (deg_to_rad b_deg)))
          (g.about_x (deg_to_rad c_deg)))

    unfoldable pub angular_distance_deg : F → F → F → F → F → F → F
    angular_distance_deg a1 b1 c1 a2 b2 c2 =
        let r =
          g.times (g.transpose (kuka_abc_to_rotation a1 b1 c1)) (kuka_abc_to_rotation a2 b2 c2) in
        rad_to_deg (m.acos (clamp ((g.trace r ⊖ of_ℕ 1) ⊘ of_ℕ 2) (of_ℕ 1)))
