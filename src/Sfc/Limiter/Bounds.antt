-- ===== src/Sfc/Limiter/Bounds.antt =====
-- What the limiter guarantees about its output.
use kuka_iiqka_ros.Prelude.{false, ◌≡◌, Bool-cases, inl, inr}
use kuka_iiqka_ros.Double.{Double, nought, ◌≼◌}
use kuka_iiqka_ros.Double.Order.{IsOrdered, Within, Within-nought, clamp-Within, clamp-nan, IsNan}
use kuka_iiqka_ros.Sfc.Types.{Wrench, CartesianCorrection, zero_correction}
use kuka_iiqka_ros.Sfc.Limiter.{SafetyParams, over_ceiling, apply}

module _ {F : Type 0} ⦃d : Double F⦄ where
  -- Each component is at most its limit in size.
  pub record InLimits (p : SafetyParams F) (c : CartesianCorrection F) : Type 0 where
    pub x_in : Within p.max_corr_trans c.x
    pub y_in : Within p.max_corr_trans c.y
    pub z_in : Within p.max_corr_trans c.z
    pub a_in : Within p.max_corr_rot c.a
    pub b_in : Within p.max_corr_rot c.b
    pub c_in : Within p.max_corr_rot c.c

  pub record HasLimits (p : SafetyParams F) : Type 0 where
    pub trans : nought ≼ p.max_corr_trans
    pub rot : nought ≼ p.max_corr_rot

  module _ (laws : IsOrdered F) (p : SafetyParams F) (h : HasLimits p) where
    pub zero_correction-InLimits : InLimits p zero_correction
    zero_correction-InLimits =
        let t = Within-nought laws p.max_corr_trans h.trans in
        let r = Within-nought laws p.max_corr_rot h.rot in
        record { x_in = t; y_in = t; z_in = t; a_in = r; b_in = r; c_in = r }

    -- Whatever the correction and the wrench are, NaN and the infinities included, the result is
    -- within the limits on every axis, if the limits are not negative.
    pub apply-InLimits :
        (i : CartesianCorrection F) (w : Wrench F) → InLimits p (apply i w p).correction
    unfolding apply
    apply-InLimits i w = elim (Bool-cases (over_ceiling w p)) [
      | inl over ↦ rw over zero_correction-InLimits
      | inr under ↦ rw under (record {
        x_in = clamp-Within laws i.x _ h.trans;
        y_in = clamp-Within laws i.y _ h.trans;
        z_in = clamp-Within laws i.z _ h.trans;
        a_in = clamp-Within laws i.a _ h.rot;
        b_in = clamp-Within laws i.b _ h.rot;
        c_in = clamp-Within laws i.c _ h.rot;
      })
    ]

    -- If an x command is NaN and the wrench is under the ceilings, the limiter answers with the
    -- whole positive limit on that axis.
    pub apply-nan :
        (i : CartesianCorrection F) (w : Wrench F)
        → over_ceiling w p ≡ false
        → IsNan i.x
        → let x = (apply i w p).correction.x in (x ≼ p.max_corr_trans) × (p.max_corr_trans ≼ x)
    unfolding apply
    apply-nan i w under n = rw under (clamp-nan laws i.x _ h.trans n)
