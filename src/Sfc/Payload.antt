-- ===== src/Sfc/Payload.antt =====
-- The payload parameters and their estimator (src/payload_estimator.cpp, tool_gravity_compensator.h).
use kuka_iiqka_ros.Prelude.{
  length, length-append, arith, ◌≡◌, ◌+◌, Bool, false, List, [], ◌∷◌, ◌++◌,
}
use kuka_iiqka_ros.Double.{Double, nought}
use kuka_iiqka_ros.Sfc.Types.{Wrench, zero_wrench}

pub record PayloadParams (F : Type 0) : Type 0 where
  pub gravity_n : F
  pub com_x : F
  pub com_y : F
  pub com_z : F
  pub bias : Wrench F

pub record PayloadFitResult (F : Type 0) : Type 0 where
  pub ok : Bool
  pub params : PayloadParams F
  pub r2_force : F
  pub r2_torque : F

pub record Sample (F : Type 0) : Type 0 where
  pub a : F
  pub b : F
  pub c : F
  pub w : Wrench F

module _ {F : Type 0} ⦃d : Double F⦄ where
  abbrev pub no_payload : PayloadParams F
  no_payload = record {
    gravity_n = nought;
    com_x = nought;
    com_y = nought;
    com_z = nought;
    bias = zero_wrench;
  }

  -- `PayloadFitResult{}`.
  abbrev pub no_fit : PayloadFitResult F
  no_fit = record { ok = false; params = no_payload; r2_force = nought; r2_torque = nought }

  unfoldable pub add_sample : List (Sample F) → F → F → F → Wrench F → List (Sample F)
  add_sample samples a b c averaged = samples ++ (record { a = a; b = b; c = c; w = averaged } ∷ [])

  pub length-add_sample :
      (samples : List (Sample F)) (a b c : F) (w : Wrench F)
      → length (add_sample samples a b c w) ≡ length samples + 1
  unfolding add_sample
  length-add_sample samples a b c w =
      omega (arith, length-append samples (record { a = a; b = b; c = c; w = w } ∷ []))
