-- ===== src/Sfc/Motion.antt =====
-- `OrientationMotionCore` (src/orientation_motion_core.cpp): the turn to a goal orientation.
pub mod Ends
use kuka_iiqka_ros.Prelude.{Bool, true, false, ◌&&◌, if◌then◌else◌}
use kuka_iiqka_ros.Double.{Double, nought, lt, le, clamp, ◌⊕◌, ◌⊖◌, ◌⊗◌}
use kuka_iiqka_ros.Sfc.Types.{CartesianState, CartesianCorrection, zero_correction}
use kuka_iiqka_ros.Sfc.Rotation.{Libm, wrap_deg}

pub record MotionGoal (F : Type 0) : Type 0 where
  pub a : F
  pub b : F
  pub c : F
  pub max_speed_dps : F
  pub p_gain : F
  pub tol_deg : F
  pub hold_s : F
  pub timeout_s : F

pub data MotionStatus : Type 0 where
  inactive running converged timeout : MotionStatus

pub record Motion (F : Type 0) : Type 0 where
  pub goal : MotionGoal F
  pub status : MotionStatus
  pub elapsed : F
  pub held : F

abbrev pub is_running : MotionStatus → Bool
is_running running = true
is_running _ = false

module _ {F : Type 0} ⦃d : Double F⦄ where
  unfoldable pub set_goal : MotionGoal F → Motion F
  set_goal g = record { goal = g; status = running; elapsed = nought; held = nought }

  unfoldable pub cancel : Motion F → Motion F
  cancel m = record m { status = inactive }

  unfoldable pub in_tolerance : MotionGoal F → F → F → F → Bool
  in_tolerance g ea eb ec =
      lt (d.fabs ea) g.tol_deg && lt (d.fabs eb) g.tol_deg && lt (d.fabs ec) g.tol_deg

  unfoldable pub shape : MotionGoal F → F → F → F
  shape g dt e = clamp (g.p_gain ⊗ e) g.max_speed_dps ⊗ dt

  unfoldable pub shaped : MotionGoal F → F → F → F → F → CartesianCorrection F
  shaped g dt ea eb ec = record zero_correction {
    a = shape g dt ea;
    b = shape g dt eb;
    c = shape g dt ec;
  }

  -- A cycle before the deadline, for the errors of the three angles.
  unfoldable pub steer : Motion F → F → F → F → F → Motion F × CartesianCorrection F
  steer m dt ea eb ec =
      let held = m.held ⊕ dt in
      let out = shaped m.goal dt ea eb ec in
      if in_tolerance m.goal ea eb ec
      then if le m.goal.hold_s held
        then (record m { held = held; status = converged }, zero_correction)
        else (record m { held = held }, out)
      else (record m { held = nought }, out)

  module _ ⦃l : Libm F⦄ where
    unfoldable pub update : Motion F → CartesianState F → F → Motion F × CartesianCorrection F
    update m s dt =
        let n = record m { elapsed = m.elapsed ⊕ dt } in
        let ea = wrap_deg (m.goal.a ⊖ s.a) in
        let eb = wrap_deg (m.goal.b ⊖ s.b) in
        let ec = wrap_deg (m.goal.c ⊖ s.c) in
        if is_running m.status
        then if lt m.goal.timeout_s n.elapsed
          then (record n { status = timeout }, zero_correction)
          else steer n dt ea eb ec
        else (m, zero_correction)
