-- ===== src/Double/Rounded.antt =====
-- The laws of rounding that the theorems on accumulated speeds use: adding or taking away what is
-- not negative does not cross a finite value.
use kuka_iiqka_ros.Prelude.{true, ◌≡◌}
use kuka_iiqka_ros.Double.{Double, ◌≼◌, ◌⊕◌, ◌⊖◌}

pub record IsRounded (F : Type 0) ⦃d : Double F⦄ : Type 0 where
  pub finite_neg : (x : F) → d.is_finite x ≡ true → d.is_finite (d.neg x) ≡ true
  pub finite_between :
      (x lo hi : F)
      → d.is_finite lo ≡ true
      → d.is_finite hi ≡ true
      → lo ≼ x
      → x ≼ hi
      → d.is_finite x ≡ true
  pub sub_le : (x y : F) → d.is_finite x ≡ true → d.nought ≼ y → x ⊖ y ≼ x
  pub le_add : (x y : F) → d.is_finite x ≡ true → d.nought ≼ y → x ≼ x ⊕ y
