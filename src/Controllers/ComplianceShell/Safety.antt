-- ===== src/Controllers/ComplianceShell/Safety.antt =====
-- What the controller of the force compliance commands.
use kuka_iiqka_ros.Prelude.{
  Bool, true, not, ◌||◌, ◌≡◌, refl, arith, Bool-cases, inl, inr, subst, sym, ◌∙◌, if_cases,
  if◌then◌else◌,
}
use kuka_iiqka_ros.Double.{Double}
use kuka_iiqka_ros.Double.Order.{IsOrdered}
use kuka_iiqka_ros.Sfc.Types.{CartesianState, zero_correction, Profile, drag, precision}
use kuka_iiqka_ros.Sfc.Limiter.{SafetyParams}
use kuka_iiqka_ros.Sfc.Limiter.Bounds.{InLimits, HasLimits, zero_correction-InLimits}
use kuka_iiqka_ros.Sfc.Deadband
use kuka_iiqka_ros.Sfc.Rotation.{Libm, Eigen}
use kuka_iiqka_ros.Controllers.Gate
use kuka_iiqka_ros.Controllers.Gate.{is_engaged}
use kuka_iiqka_ros.Controllers.Compliance
use kuka_iiqka_ros.Controllers.Compliance.{configure, activate}
use kuka_iiqka_ros.Controllers.ComplianceData.{Core, ForceComplianceParams}
use kuka_iiqka_ros.Controllers.Compliance.Safety
use kuka_iiqka_ros.Controllers.Compliance.Safety.{at_ramp}
use kuka_iiqka_ros.Controllers.ComplianceShell.{
  Controller, Buffers, ToolSample, activate_core, enter, input_of, publish_state, profile_params,
  set_zero, update,
}

module _ {F : Type 0} ⦃d : Double F⦄ ⦃m : Libm F⦄ ⦃g : Eigen F⦄ where
  publish_state-command :
      (s : Controller F g.Mat) (now_s : F) (is_degraded locked : Bool)
      → (publish_state s now_s is_degraded locked).0.command ≡ s.command
  unfolding publish_state
  publish_state-command s now_s is_degraded locked = ground arith

  -- What a cycle commands.
  update-command :
      (s : Controller F g.Mat) (seen : Buffers F) (state : CartesianState F) (now_s dt : F)
      (locked : Bool)
      → let t = enter s seen state in
        let out = (Compliance.update t.core (input_of seen.wrench state now_s) dt).1 in
        (update s seen state now_s dt locked).0.command
        ≡ (if not (is_engaged t.gate) || seen.has_fault then zero_correction else out.correction)
  unfolding update
  update-command s seen state now_s dt locked =
      let t = enter s seen state in
      elim (Bool-cases (not (is_engaged t.gate) || seen.has_fault)) [
        | inl off ↦ rw off (unfold set_zero in publish_state-command _ now_s seen.has_fault locked)
        | inr on ↦ rw on (publish_state-command _ now_s _ locked)
      ]

  -- A cycle that finds the controller not engaged, by the mode or by a fault, commands zero.
  update-off :
      (s : Controller F g.Mat) (seen : Buffers F) (state : CartesianState F) (now_s dt : F)
      (locked : Bool)
      → not (is_engaged (Gate.apply s.gate seen.mode).0) || seen.has_fault ≡ true
      → (update s seen state now_s dt locked).0.command ≡ zero_correction
  update-off s seen state now_s dt locked off =
      update-command s seen state now_s dt locked ∙ unfold enter in rw off refl

  activate_core-ramp :
      (s : Controller F g.Mat) (k : Core F g.Mat) (p : ForceComplianceParams F)
      (tool : ToolSample F) (state : CartesianState F)
      → p.adaptive_deadband ≡ true
      → (activate_core s (configure k p) tool state).ramp.active ≡ true
  unfolding activate_core activate configure Deadband.start
  activate_core-ramp s k p tool state ramps = ground arith

  enter-ramp :
      (s : Controller F g.Mat) (seen : Buffers F) (state : CartesianState F)
      → (Gate.apply s.gate seen.mode).1 ≡ true
      → (profile_params s (Gate.apply s.gate seen.mode).0.mgr.profile).adaptive_deadband ≡ true
      → (enter s seen state).core.ramp.active ≡ true
  unfolding enter
  enter-ramp s seen state entered ramps = rw entered (
      activate_core-ramp s s.core (profile_params s (Gate.apply s.gate seen.mode).0.mgr.profile)
        seen.tool state ramps)

  -- A cycle that enters the mode with a profile that has the startup ramp commands zero, whatever
  -- the wrench and the pose are.
  update-entry :
      (s : Controller F g.Mat) (seen : Buffers F) (state : CartesianState F) (now_s dt : F)
      (locked : Bool)
      → (Gate.apply s.gate seen.mode).1 ≡ true
      → (profile_params s (Gate.apply s.gate seen.mode).0.mgr.profile).adaptive_deadband ≡ true
      → (update s seen state now_s dt locked).0.command ≡ zero_correction
  update-entry s seen state now_s dt locked entered ramps =
      let t = enter s seen state in
      let i = input_of seen.wrench state now_s in
      let out = (Compliance.update t.core i dt).1 in
      update-command s seen state now_s dt locked
      ∙ if_cases (λ c. c ≡ zero_correction) (not (is_engaged t.gate) || seen.has_fault)
          zero_correction out.correction (λ _. refl)
          (λ _. Safety.update-Stops t.core i dt (at_ramp (enter-ramp s seen state entered ramps)))

  -- The controller and both its profiles have these safety limits, as `init` sets them.
  pub record HasSafety (p : SafetyParams F) (s : Controller F g.Mat) : Type 0 where
    pub of_core : s.core.params.safety ≡ p
    pub of_drag : s.drag_params.safety ≡ p
    pub of_precision : s.precision_params.safety ≡ p

  profile_params-safety :
      (p : SafetyParams F) (s : Controller F g.Mat) (q : Profile)
      → HasSafety p s
      → (profile_params s q).safety ≡ p
  unfolding profile_params
  profile_params-safety p s drag h = h.of_drag
  profile_params-safety p s precision h = h.of_precision

  pub enter-safety :
      (p : SafetyParams F) (s : Controller F g.Mat) (seen : Buffers F) (state : CartesianState F)
      → HasSafety p s
      → (enter s seen state).core.params.safety ≡ p
  unfolding enter activate_core activate configure
  enter-safety p s seen state h =
      let q = (Gate.apply s.gate seen.mode).0.mgr.profile in
      if_cases (λ k. k.params.safety ≡ p) (Gate.apply s.gate seen.mode).1
        (activate_core s (configure s.core (profile_params s q)) seen.tool state) s.core
        (λ _. profile_params-safety p s q h) (λ _. h.of_core)

  -- Whatever the buffers give a cycle, NaN and the infinities included, it commands a correction within
  -- the limits that both profiles have on every axis, if they are not negative.
  pub update-InLimits :
      IsOrdered F
      → (p : SafetyParams F) (s : Controller F g.Mat) (seen : Buffers F) (state : CartesianState F)
        (now_s dt : F) (locked : Bool)
      → HasSafety p s
      → HasLimits p
      → InLimits p (update s seen state now_s dt locked).0.command
  update-InLimits laws p s seen state now_s dt locked same h =
      let t = enter s seen state in
      let e = enter-safety p s seen state same in
      let i = input_of seen.wrench state now_s in
      let out = (Compliance.update t.core i dt).1 in
      subst (InLimits p) (sym (update-command s seen state now_s dt locked)) (
        if_cases (InLimits p) (not (is_engaged t.gate) || seen.has_fault) zero_correction
          out.correction (λ _. zero_correction-InLimits laws p h)
          (λ _.
            subst (λ q. InLimits q out.correction) e
              (Safety.update-InLimits laws t.core i dt (subst HasLimits (sym e) h))))
