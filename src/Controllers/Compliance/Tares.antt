-- ===== src/Controllers/Compliance/Tares.antt =====
-- The retare of a run of cycles: once for each time that the tool leaves its reference.
use kuka_iiqka_ros.Prelude.{
  ℕ, Bool, not, ◌&&◌, ◌+◌, ◌≤◌, arith, Bool-cases, inl, inr, if_cases, List, [], ◌∷◌, if◌then◌else◌,
  subst, sym,
}
use kuka_iiqka_ros.Double.{Double}
use kuka_iiqka_ros.Sfc.Types.{CartesianState, Wrench}
use kuka_iiqka_ros.Sfc.Frames.{compensate}
use kuka_iiqka_ros.Sfc.Rotation.{Libm, Eigen}
use kuka_iiqka_ros.Controllers.Compliance.Safety.{update-fresh}
use kuka_iiqka_ros.Controllers.ComplianceData.{Core, ComplianceInput, ComplianceOutput}
use kuka_iiqka_ros.Controllers.Compliance.{
  is_stale, has_left, ramp_cycle, tare, comply, proceed, cycle, update,
}

abbrev pub bit : Bool → ℕ
bit b = if b then 1 else 0

module _ {F : Type 0} ⦃d : Double F⦄ ⦃m : Libm F⦄ ⦃g : Eigen F⦄ where
  -- The core works in this cycle, and finds the tool away from the reference.
  abbrev pub departs : Core F g.Mat → ComplianceInput F → Bool
  departs k i = not (is_stale k i) && not k.ramp.active && has_left k i.state

  abbrev pub departures : Core F g.Mat → List (ComplianceInput F × F) → ℕ
  departures k [] = 0
  departures k ((i, dt) ∷ rest) = bit (departs k i) + departures (update k i dt).0 rest

  abbrev pub tares : Core F g.Mat → List (ComplianceInput F × F) → ℕ
  tares k [] = 0
  tares k ((i, dt) ∷ rest) = bit (update k i dt).1.tared + tares (update k i dt).0 rest

  -- The tare of a core spends what arms it: the flag, or a departure.
  tare-bits :
      (k : Core F g.Mat) (s : CartesianState F) (w : Wrench F) (r : g.Mat)
      → bit (tare k s w r).2 + bit (tare k s w r).0.tare_armed
        ≤ bit (has_left k s) + bit k.tare_armed
  unfolding tare
  tare-bits k s w r = ground arith

  Spends : Core F g.Mat → ℕ → Core F g.Mat × ComplianceOutput F → Type 0
  Spends k departed x = bit x.1.tared + bit x.0.tare_armed ≤ departed + bit k.tare_armed

  ramp_cycle-Spends : (k : Core F g.Mat) (w : Wrench F) (dt : F) → Spends k 0 (ramp_cycle k w dt)
  unfolding Spends ramp_cycle
  ramp_cycle-Spends k w dt = ground arith

  comply-Spends :
      (k : Core F g.Mat) (s : CartesianState F) (w : Wrench F) (r r_base : g.Mat) (dt : F)
      → let t = tare k s w r_base in Spends k (bit (has_left k s)) (comply t.0 s t.1 t.2 r dt)
  unfolding comply Spends
  comply-Spends k s w r r_base dt = tare-bits k s w r_base

  proceed-Spends :
      (k : Core F g.Mat) (s : CartesianState F) (w : Wrench F) (r r_base : g.Mat) (dt : F)
      → Spends k (bit (not k.ramp.active && has_left k s)) (proceed k s w r r_base dt)
  unfolding proceed
  proceed-Spends k s w r r_base dt =
      let away = has_left k s in
      let t = tare k s w r_base in
      let ramped = ramp_cycle k (compensate k.compensator w r_base) dt in
      let complied = comply t.0 s t.1 t.2 r dt in
      if_cases (Spends k (bit (not k.ramp.active && away))) k.ramp.active ramped complied
        (λ _.
          unfold Spends in
          omega (arith, ramp_cycle-Spends k (compensate k.compensator w r_base) dt))
        (λ ready.
          subst (λ b. Spends k (bit (not b && away)) complied) (sym ready)
            (comply-Spends k s w r r_base dt))

  update-bits :
      (k : Core F g.Mat) (i : ComplianceInput F) (dt : F)
      → bit (update k i dt).1.tared + bit (update k i dt).0.tare_armed
        ≤ bit (departs k i) + bit k.tare_armed
  update-bits k i dt = elim (Bool-cases (is_stale k i)) [
    | inl stale ↦ rw stale (unfold update in rw stale (omega arith))
    | inr fresh ↦
        rw (fresh, update-fresh k i dt fresh)
          (unfold cycle Spends has_left in proceed-Spends _ i.state _ _ _ dt)
  ]

  -- Over every run of cycles, from every state, the core tares at most once for each cycle that
  -- finds the tool away from its reference, and once more if it begins armed.
  pub run-tares :
      (k : Core F g.Mat) (cycles : List (ComplianceInput F × F))
      → tares k cycles ≤ departures k cycles + bit k.tare_armed
  run-tares k [] = omega arith
  run-tares k ((i, dt) ∷ rest) = omega (arith, update-bits k i dt, run-tares (update k i dt).0 rest)
