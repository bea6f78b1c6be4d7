-- ===== src/Double/Order.antt =====
-- The laws of the comparisons of IEEE 754 that the theorems use, NaN and the infinities included,
-- and what follows for a clamped value.
use kuka_iiqka_ros.Prelude.{true, false, ◌≡◌, arith}
use kuka_iiqka_ros.Double.{Double, clamp, ◌≼◌}

-- NaN is the value that is not `<=` itself.
abbrev pub IsNan : {F : Type 0} ⦃d : Double F⦄ → F → Type 0
IsNan ⦃d⦄ x = d.le x x ≡ false

pub record IsOrdered (F : Type 0) ⦃d : Double F⦄ : Type 0 where
  pub nought_refl : d.nought ≼ d.nought
  pub nought_finite : d.is_finite d.nought ≡ true
  pub finite_refl : (x : F) → d.is_finite x ≡ true → x ≼ x
  pub refl_of_le : (x y : F) → x ≼ y → (x ≼ x) × (y ≼ y)
  pub le_trans : (x y z : F) → x ≼ y → y ≼ z → x ≼ z
  pub le_of_lt : (x y : F) → d.lt x y ≡ true → x ≼ y
  pub le_of_not_lt : (x y : F) → x ≼ x → y ≼ y → d.lt x y ≡ false → y ≼ x
  pub not_lt_of_le : (x y : F) → x ≼ y → d.lt y x ≡ false
  pub neg_le_nought : (x : F) → d.nought ≼ x → d.neg x ≼ d.nought
  pub eq_of_le : (x y : F) → x ≼ y → y ≼ x → d.eq x y ≡ true
  pub le_of_eq : (x y : F) → d.eq x y ≡ true → (x ≼ y) × (y ≼ x)

-- -lim <= x <= lim.
abbrev pub Within : {F : Type 0} ⦃d : Double F⦄ → F → F → Type 0
Within ⦃d⦄ lim x = (d.neg lim ≼ x) × (x ≼ lim)

module _ {F : Type 0} ⦃d : Double F⦄ (laws : IsOrdered F) where
  open laws use {refl_of_le, le_trans, le_of_lt, le_of_not_lt, neg_le_nought, eq_of_le}

  pub Within-limit : (lim : F) → d.nought ≼ lim → Within lim lim
  Within-limit lim h = (le_trans _ _ _ (neg_le_nought lim h) h, (refl_of_le _ _ h).1)

  pub Within-nought : (lim : F) → d.nought ≼ lim → Within lim d.nought
  Within-nought lim h = (neg_le_nought lim h, h)

  -- Whatever the value, NaN and the infinities included.
  pub clamp-Within : (v lim : F) → d.nought ≼ lim → Within lim (clamp v lim)
  unfolding clamp
  clamp-Within v lim h =
      let top = Within-limit lim h in
      let low = (refl_of_le _ _ (neg_le_nought lim h)).0 in
      ground (arith, le_of_lt v lim, le_of_lt (d.neg lim) v, le_of_lt (d.neg lim) lim)

  pub clamp-nan : (v lim : F) → d.nought ≼ lim → IsNan v → (clamp v lim ≼ lim) × (lim ≼ clamp v lim)
  unfolding clamp
  clamp-nan v lim h n =
      let top = Within-limit lim h in
      ground (
        arith,
        le_of_lt v lim,
        refl_of_le v lim,
        le_of_not_lt (d.neg lim) lim (refl_of_le _ _ top.0).0 top.1,
      )

  -- A value in range stays equal to itself, by `==`.
  pub clamp_in_range : (v lim : F) → d.nought ≼ lim → Within lim v → d.eq (clamp v lim) v ≡ true
  unfolding clamp
  clamp_in_range v lim h w =
      let (low, num) = refl_of_le _ _ w.0 in
      let top = (refl_of_le _ _ w.1).1 in
      ground (
        arith,
        le_of_not_lt v lim num top,
        le_of_not_lt (d.neg lim) v low num,
        le_of_not_lt (d.neg lim) lim low top,
        eq_of_le v v num num,
        eq_of_le lim v,
        eq_of_le (d.neg lim) v w.0,
        le_trans v lim (d.neg lim) w.1,
      )
