-- ===== src/Sfc/Limiter/Tests.antt =====
-- The limiter with whole numbers.
use kuka_iiqka_ros.Prelude.{true, ◌≡◌, refl}
use kuka_iiqka_ros.Prelude.Int.{pos, negsuc}
use kuka_iiqka_ros.Double.{clamp, ◌≼◌}
use kuka_iiqka_ros.Double.Fixed.{Fixed, num, nan, fixed_double, Fixed-IsOrdered}
use kuka_iiqka_ros.Sfc.Types.{
  CartesianCorrection, Wrench, zero_correction, zero_wrench, force_norm, torque_norm,
}
use kuka_iiqka_ros.Sfc.Limiter.{SafetyParams, over_ceiling, apply}
use kuka_iiqka_ros.Sfc.Limiter.Bounds.{HasLimits, apply-nan}

abbrev params : SafetyParams Fixed
params = record {
  max_corr_trans = num (pos 5);
  max_corr_rot = num (pos 3);
  force_ceiling = num (pos 50);
  torque_ceiling = num (pos 50);
}

params-HasLimits : HasLimits params
params-HasLimits = record { trans = refl; rot = refl }

abbrev asked : CartesianCorrection Fixed
asked = record zero_correction { x = nan; y = num (negsuc 8); c = num (pos 2) }

abbrev push : Wrench Fixed
push = record zero_wrench { fx = num (pos 30); fy = num (pos 42) }

cuts_off :
    ((apply asked push params).hard_cutoff ≡ true)
    × ((apply asked zero_wrench params).saturated ≡ true)
unfolding apply over_ceiling force_norm torque_norm clamp
cuts_off = (refl, refl)

apply-nan_example :
    let x = (apply asked zero_wrench params).correction.x in
    (x ≼ params.max_corr_trans) × (params.max_corr_trans ≼ x)
unfolding over_ceiling force_norm torque_norm
apply-nan_example = apply-nan Fixed-IsOrdered params params-HasLimits asked zero_wrench refl refl
