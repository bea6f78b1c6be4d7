-- ===== src/Controllers/Loading/Limits.antt =====
-- The limits that the force compliance loads hold over every run of its cycles.
use kuka_iiqka_ros.Prelude.{
  Bool, not, ◌||◌, String, List, [], ◌∷◌, Option, some, ◌≡◌, refl, arith, ap, sym, ◌∙◌, subst,
  Bool-cases, inl, inr, if_cases,
}
use kuka_iiqka_ros.Double.{Double}
use kuka_iiqka_ros.Double.Order.{IsOrdered}
use kuka_iiqka_ros.Params.{Params}
use kuka_iiqka_ros.Sfc.Types.{CartesianState, Wrench, zero_correction}
use kuka_iiqka_ros.Sfc.Limiter.{SafetyParams}
use kuka_iiqka_ros.Sfc.Limiter.Bounds.{InLimits, HasLimits, zero_correction-InLimits}
use kuka_iiqka_ros.Sfc.Rotation.{Libm, Eigen}
use kuka_iiqka_ros.Controllers.Gate.{is_engaged}
use kuka_iiqka_ros.Controllers.Compliance
use kuka_iiqka_ros.Controllers.Compliance.{
  configure, activate, is_stale, ramp_cycle, tare, comply, proceed, cycle,
}
use kuka_iiqka_ros.Controllers.ComplianceData.{Core, ComplianceInput}
use kuka_iiqka_ros.Controllers.ComplianceShell.{
  Controller, Buffers, ModeState, ToolSample, configure_controller, starting, stopping,
  activate_core, enter, input_of, publish_state, set_zero, update,
}
use kuka_iiqka_ros.Controllers.ComplianceShell.Safety.{HasSafety, update-InLimits, enter-safety}
use kuka_iiqka_ros.Controllers.Loading.{no_safety, load_safety, with_shared, init_compliance}

-- What a cycle of the controller gets.
pub record Meets (F : Type 0) : Type 0 where
  pub seen : Buffers F
  pub state : CartesianState F
  pub now_s : F
  pub dt : F
  pub locked : Bool

-- The calls of the controller manager: a cycle, and a start and a stop of the controller.
pub data Event (F : Type 0) : Type 0 where
  cycles : Meets F → Event F
  starts : ToolSample F → CartesianState F → Event F
  stops : Event F

module _ {F : Type 0} ⦃d : Double F⦄ ⦃m : Libm F⦄ ⦃g : Eigen F⦄ where
  proceed-params :
      (k : Core F g.Mat) (s : CartesianState F) (w : Wrench F) (r r_base : g.Mat) (dt : F)
      → (proceed k s w r r_base dt).0.params ≡ k.params
  unfolding proceed ramp_cycle tare comply
  proceed-params k s w r r_base dt = ground arith

  -- A cycle of the core keeps its parameters.
  update-params :
      (k : Core F g.Mat) (i : ComplianceInput F) (dt : F)
      → (Compliance.update k i dt).0.params ≡ k.params
  unfolding Compliance.update cycle
  update-params k i dt = elim (Bool-cases (is_stale k i)) [
    | inl stale ↦ rw stale refl
    | inr fresh ↦ rw fresh (proceed-params _ i.state _ _ _ dt)
  ]

  publish_state-HasSafety :
      (p : SafetyParams F) (s : Controller F g.Mat) (now_s : F) (is_degraded locked : Bool)
      → HasSafety p s
      → HasSafety p (publish_state s now_s is_degraded locked).0
  unfolding publish_state
  publish_state-HasSafety p s now_s is_degraded locked h = ground arith

  enter-HasSafety :
      (p : SafetyParams F) (s : Controller F g.Mat) (seen : Buffers F) (state : CartesianState F)
      → HasSafety p s
      → HasSafety p (enter s seen state)
  unfolding enter
  enter-HasSafety p s seen state h = record {
    of_core = enter-safety p s seen state h;
    of_drag = h.of_drag;
    of_precision = h.of_precision;
  }

  update-HasSafety :
      (p : SafetyParams F) (s : Controller F g.Mat) (x : Meets F)
      → HasSafety p s
      → HasSafety p (update s x.seen x.state x.now_s x.dt x.locked).0
  unfolding update
  update-HasSafety p s x h =
      let t = enter s x.seen x.state in
      let v = enter-HasSafety p s x.seen x.state h in
      let i = input_of x.seen.wrench x.state x.now_s in
      let (core, out) = Compliance.update t.core i x.dt in
      let of_new : core.params.safety ≡ p =
        ap (λ q. q.safety) (update-params t.core i x.dt) ∙ v.of_core in
      if_cases (λ (u : Controller F g.Mat × Option ModeState). HasSafety p u.0)
        (not (is_engaged t.gate) || x.seen.has_fault)
        (publish_state (set_zero t) x.now_s x.seen.has_fault x.locked)
        (publish_state (record t { core = core; command = out.correction }) x.now_s
          (out.hard_cutoff || out.wrench_timeout) x.locked)
        (λ _. publish_state-HasSafety p (set_zero t) x.now_s x.seen.has_fault x.locked (
          unfold set_zero in
          record { of_core = v.of_core; of_drag = v.of_drag; of_precision = v.of_precision }))
        (λ _.
          publish_state-HasSafety p (record t { core = core; command = out.correction }) x.now_s
            (out.hard_cutoff || out.wrench_timeout) x.locked
            (record { of_core = of_new; of_drag = v.of_drag; of_precision = v.of_precision }))

  starting-HasSafety :
      (p : SafetyParams F) (s : Controller F g.Mat) (tool : ToolSample F) (state : CartesianState F)
      → HasSafety p s
      → HasSafety p (starting s tool state)
  unfolding starting set_zero activate_core activate
  starting-HasSafety p s tool state h = ground arith

  unfoldable pub step : Controller F g.Mat → Event F → Controller F g.Mat
  step s (cycles x) = (update s x.seen x.state x.now_s x.dt x.locked).0
  step s (starts tool state) = starting s tool state
  step s stops = stopping s

  abbrev pub run : Controller F g.Mat → List (Event F) → Controller F g.Mat
  run s [] = s
  run s (e ∷ es) = run (step s e) es

  step-HasSafety :
      (p : SafetyParams F) (s : Controller F g.Mat) (e : Event F)
      → HasSafety p s
      → HasSafety p (step s e)
  unfolding step stopping set_zero
  step-HasSafety p s (cycles x) h = update-HasSafety p s x h
  step-HasSafety p s (starts tool state) h = starting-HasSafety p s tool state h
  step-HasSafety p s stops h = ground arith

  run-HasSafety :
      (p : SafetyParams F) (s : Controller F g.Mat) (es : List (Event F))
      → HasSafety p s
      → HasSafety p (run s es)
  run-HasSafety p s [] h = h
  run-HasSafety p s (e ∷ es) h = run-HasSafety p (step s e) es (step-HasSafety p s e h)

  init-HasSafety :
      (ps : Params F) (has_handle : String → Bool) (s t : Controller F g.Mat)
      → init_compliance ps has_handle s ≡ some t
      → HasSafety (load_safety ps no_safety) t
  unfolding init_compliance configure_controller with_shared configure
  init-HasSafety ps has_handle s t e = ground arith

  starting-command :
      (s : Controller F g.Mat) (tool : ToolSample F) (state : CartesianState F)
      → (starting s tool state).command ≡ zero_correction
  unfolding starting set_zero
  starting-command s tool state = ground arith

  -- A controller of the force compliance that `init` has set up, with limits on the parameter server, or
  -- by default, that are not negative, commands a correction within them on every axis after each
  -- cycle, start and stop, over every run of them, whatever the buffers give its cycles, NaN included.
  pub init-InLimits :
      IsOrdered F
      → (ps : Params F) (has_handle : String → Bool) (s t : Controller F g.Mat)
        (es : List (Event F)) (e : Event F)
      → HasLimits (load_safety ps no_safety)
      → init_compliance ps has_handle s ≡ some t
      → InLimits (load_safety ps no_safety) (step (run t es) e).command
  unfolding step stopping set_zero
  init-InLimits laws ps has_handle s t es (cycles x) h made =
      update-InLimits laws (load_safety ps no_safety) (run t es) x.seen x.state x.now_s x.dt
        x.locked (run-HasSafety _ t es (init-HasSafety ps has_handle s t made)) h
  init-InLimits laws ps has_handle s t es (starts tool state) h made =
      subst (InLimits _) (sym (starting-command (run t es) tool state))
        (zero_correction-InLimits laws _ h)
  init-InLimits laws ps has_handle s t es stops h made = zero_correction-InLimits laws _ h
