-- ===== src/Sfc/Turns.antt =====
-- Concrete `Libm` and `Eigen` interfaces for the tests, over whole numbers: a rotation is a turn
-- about the z axis by whole degrees, and its cosine is that of no turn or of a quarter.
use kuka_iiqka_ros.Prelude.{suc, ◌%◌, if◌then◌else◌}
use kuka_iiqka_ros.Prelude.Int.{pos, negsuc, ◌-ℤ◌}
use kuka_iiqka_ros.Double.{lt, nought, ◌⊕◌, ◌⊖◌, ◌⊗◌}
use kuka_iiqka_ros.Double.Fixed.{Fixed, num, nan, fixed_double}
use kuka_iiqka_ros.Sfc.Rotation.{Libm, Eigen}

abbrev remainder : Fixed → Fixed → Fixed
remainder (num (pos a)) (num (pos b)) = num (pos (a % b))
remainder (num (negsuc a)) (num (pos b)) = num (pos 0 -ℤ pos (suc a % b))
remainder _ _ = nan

instance abbrev pub turns_libm : Libm Fixed
turns_libm = record {
  pi = num (pos 180);
  fmod = remainder;
  acos = λ x. (num (pos 1) ⊖ x) ⊗ num (pos 90);
}

instance abbrev pub turns_eigen : Eigen Fixed
turns_eigen = record {
  Mat = Fixed;
  Quat = Fixed;
  identity = nought;
  times = λ a b. a ⊕ b;
  transpose = λ a. nought ⊖ a;
  trace = λ a. if lt (fixed_double.fabs a) (num (pos 45)) then num (pos 3) else num (pos 1);
  on_vec = λ a v. v;
  cross = λ u v. v;
  about_x = λ a. nought;
  about_y = λ a. nought;
  about_z = λ a. a;
  join = λ a b. a ⊕ b;
  to_rotation_matrix = λ a. a;
}
