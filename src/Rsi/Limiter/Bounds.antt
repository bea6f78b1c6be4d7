-- ===== src/Rsi/Limiter/Bounds.antt =====
-- What the hardware interface may send at all.
use kuka_iiqka_ros.Prelude.{true, false, ◌≡◌, arith}
use kuka_iiqka_ros.Double.{Double, nought, clamp, ◌≼◌}
use kuka_iiqka_ros.Double.Order.{IsOrdered, Within, Within-nought, clamp-Within, clamp_in_range}
use kuka_iiqka_ros.Sfc.Types.{CartesianCorrection, zero_correction}
use kuka_iiqka_ros.Rsi.Limiter.{CommandLimits, clamp_axis, clamp_all}

module _ {F : Type 0} ⦃d : Double F⦄ where
  pub record InLimits (l : CommandLimits F) (c : CartesianCorrection F) : Type 0 where
    pub x_in : Within l.max_trans c.x
    pub y_in : Within l.max_trans c.y
    pub z_in : Within l.max_trans c.z
    pub a_in : Within l.max_rot c.a
    pub b_in : Within l.max_rot c.b
    pub c_in : Within l.max_rot c.c

  pub record HasLimits (l : CommandLimits F) : Type 0 where
    pub trans : nought ≼ l.max_trans
    pub rot : nought ≼ l.max_rot

  pub record IsFinite (c : CartesianCorrection F) : Type 0 where
    pub x_fin : d.is_finite c.x ≡ true
    pub y_fin : d.is_finite c.y ≡ true
    pub z_fin : d.is_finite c.z ≡ true
    pub a_fin : d.is_finite c.a ≡ true
    pub b_fin : d.is_finite c.b ≡ true
    pub c_fin : d.is_finite c.c ≡ true

  module _ (laws : IsOrdered F) where
    open laws use {le_of_eq, finite_refl, refl_of_le, le_trans}

    clamp_axis-Within : (v lim : F) → nought ≼ lim → Within lim (clamp_axis v lim).0
    unfolding clamp_axis
    clamp_axis-Within v lim h =
        let c = clamp v lim in
        let w = clamp-Within laws v lim h in
        let z = Within-nought laws lim h in
        ground (arith, w, z, le_of_eq c v, le_trans (d.neg lim) c v w.0, le_trans v c lim)

    -- A value that is finite and in range stays the very same.
    clamp_axis_in_range :
        (v lim : F)
        → nought ≼ lim
        → d.is_finite v ≡ true
        → Within lim v
        → clamp_axis v lim ≡ (v, false)
    unfolding clamp_axis
    clamp_axis_in_range v lim h f w = ground (arith, clamp_in_range laws v lim h w)

    module _ (l : CommandLimits F) (h : HasLimits l) where
      -- Every axis of the result is within its limit, whatever the command holds, NaN and the
      -- infinities included, if the limits are not negative.
      pub clamp_all-InLimits : (c : CartesianCorrection F) → InLimits l (clamp_all c l).0
      unfolding clamp_all
      clamp_all-InLimits c = record {
        x_in = clamp_axis-Within c.x _ h.trans;
        y_in = clamp_axis-Within c.y _ h.trans;
        z_in = clamp_axis-Within c.z _ h.trans;
        a_in = clamp_axis-Within c.a _ h.rot;
        b_in = clamp_axis-Within c.b _ h.rot;
        c_in = clamp_axis-Within c.c _ h.rot;
      }

      pub zero-InLimits : InLimits l zero_correction
      zero-InLimits =
          let t = Within-nought laws l.max_trans h.trans in
          let r = Within-nought laws l.max_rot h.rot in
          record { x_in = t; y_in = t; z_in = t; a_in = r; b_in = r; c_in = r }

      -- A command that is finite and in range goes through unchanged and is not counted as modified.
      pub clamp_all_in_range :
          (c : CartesianCorrection F) → IsFinite c → InLimits l c → clamp_all c l ≡ (c, false)
      unfolding clamp_all
      clamp_all_in_range c f w = rw (
        clamp_axis_in_range c.x _ h.trans f.x_fin w.x_in,
        clamp_axis_in_range c.y _ h.trans f.y_fin w.y_in,
        clamp_axis_in_range c.z _ h.trans f.z_fin w.z_in,
        clamp_axis_in_range c.a _ h.rot f.a_fin w.a_in,
        clamp_axis_in_range c.b _ h.rot f.b_fin w.b_in,
        clamp_axis_in_range c.c _ h.rot f.c_fin w.c_in,
      )
