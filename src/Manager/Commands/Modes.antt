-- ===== src/Manager/Commands/Modes.antt =====
-- Which mode the controllers are left with.
use kuka_iiqka_ros.Prelude.{
  Holds, out_of_fuel, result, ℕ, zero, suc, Bool, true, false, not, ◌&&◌, ◌==◌, String, List, [],
  ◌∷◌, Option, none, some, ◌≡◌, refl, ◌∙◌, ◌⊎◌, inl, inr, arith, if_cases, if◌then◌else◌,
}
use kuka_iiqka_ros.Double.{Double, lt, ◌⊕◌}
use kuka_iiqka_ros.Manager.State.{request_start, ready, ◌is◌}
use kuka_iiqka_ros.Manager.Runtime.{health_locked, mode_idle, mode_direct, mode_compliance}
use kuka_iiqka_ros.Manager.World.{
  Call, list_running, switch_controllers, publish_mode, eki_start_rsi, eki_stop_rsi,
  eki_reset_fault, eki_get_tool, rsi_reset_fault, sri_zero, send_motion_goal, apply_payload,
  publish_state, World, Sys, wait, ask, call_if, call_ok, switch_rest, switch_filtered,
}
use kuka_iiqka_ros.Manager.Commands.{
  set_rt, refused, target_of, other_of, CommandResult, clear_residue, start_rsi, wait_rsi,
  roll_back, commit_start, arm, after_wait, wait_and_arm, start_servo,
}

module _ {F : Type 0} where
  -- The mode that was published last, in calls with the last one first.
  unfoldable pub last_mode : List (Call F) → Option ℕ
  last_mode [] = none
  last_mode (publish_mode mode profile ∷ cs) = some mode
  last_mode (list_running ∷ cs) = last_mode cs
  last_mode (switch_controllers s t ∷ cs) = last_mode cs
  last_mode (eki_start_rsi ∷ cs) = last_mode cs
  last_mode (eki_stop_rsi ∷ cs) = last_mode cs
  last_mode (eki_reset_fault ∷ cs) = last_mode cs
  last_mode (eki_get_tool ∷ cs) = last_mode cs
  last_mode (rsi_reset_fault ∷ cs) = last_mode cs
  last_mode (sri_zero ∷ cs) = last_mode cs
  last_mode (send_motion_goal p ∷ cs) = last_mode cs
  last_mode (apply_payload f ∷ cs) = last_mode cs
  last_mode (publish_state ∷ cs) = last_mode cs

module _ {F : Type 0} ⦃d : Double F⦄ (w : World F) where
  switch-last_mode :
      (s t : String) (y : Sys F) → last_mode (switch_filtered w s t y).0.calls ≡ last_mode y.calls
  unfolding switch_filtered switch_rest call_ok ask wait last_mode
  switch-last_mode s t y = ground arith

  call_if-mode :
      (b : Bool) (m p : ℕ) (y : Sys F)
      → b ≡ true
      → last_mode (call_if w b (publish_mode m p) y).calls ≡ some m
  unfolding call_if ask wait last_mode
  call_if-mode b m p y h = ground arith

  clear_residue-last_mode : (y : Sys F) → last_mode (clear_residue w y).0.calls ≡ last_mode y.calls
  unfolding clear_residue call_ok ask wait last_mode
  clear_residue-last_mode y = ground arith

  start_rsi-last_mode : (y : Sys F) → last_mode (start_rsi w y).0.calls ≡ last_mode y.calls
  unfolding start_rsi call_ok ask wait last_mode
  start_rsi-last_mode y = ground arith

  call_if-last_mode :
      (b : Bool) (y : Sys F) → last_mode (call_if w b eki_stop_rsi y).calls ≡ last_mode y.calls
  unfolding call_if ask wait last_mode
  call_if-last_mode b y = ground arith

  roll_back-last_mode :
      (m p : ℕ) (b : Bool) (y : Sys F)
      → w.hooks.has_mode ≡ true
      → last_mode (roll_back w m p b y).calls ≡ some 0
  unfolding roll_back
  roll_back-last_mode m p b y h =
      let t = call_if w w.hooks.has_mode (publish_mode 0 p) y in
      let u = (switch_filtered w "" (target_of w m) t).0 in
      call_if-last_mode (b && w.hooks.has_stop_rsi) u
      ∙ switch-last_mode "" (target_of w m) t
      ∙ call_if-mode w.hooks.has_mode 0 p y h

  wait-last_mode : (y : Sys F) → last_mode (wait w y).0.calls ≡ last_mode y.calls
  unfolding wait
  wait-last_mode y = refl

  -- After a start from the calls `before`: the mode is published if it succeeds, and if it is
  -- refused, no mode was published or at last IDLE.
  pub record ModeFits (mode : ℕ) (before : List (Call F)) (x : Sys F × CommandResult) : Type 0 where
    pub fits :
        ((x.1.success ≡ true) × (last_mode (x.0.calls) ≡ some mode))
        ⊎ ((x.1.success ≡ false)
            × ((last_mode (x.0.calls) ≡ last_mode before) ⊎ (last_mode (x.0.calls) ≡ some 0)))

  idle-ModeFits :
      (m : ℕ) (before : List (Call F)) (z : Sys F) (why : String)
      → last_mode z.calls ≡ some 0
      → ModeFits m before (z, refused why)
  idle-ModeFits m before z why h = record { fits = inr (refl, inr h) }

  same-ModeFits :
      (m : ℕ) (before : List (Call F)) (z : Sys F) (why : String)
      → last_mode z.calls ≡ last_mode before
      → ModeFits m before (z, refused why)
  same-ModeFits m before z why h = record { fits = inr (refl, inl h) }

  commit-ModeFits :
      (m p : ℕ) (b : Bool) (y : Sys F) (before : List (Call F))
      → w.hooks.has_mode ≡ true
      → last_mode y.calls ≡ some m
      → ModeFits m before (commit_start w m p b y)
  unfolding commit_start
  commit-ModeFits m p b y before h l =
      let (t, a) = wait w y in
      let v = request_start t.rt.core (health_locked w.cfg t.rt a.now_s) in
      let u = set_rt w t (record (t.rt) { core = v.0 }) in
      record { fits = ground (arith, wait-last_mode y, l, roll_back-last_mode m p b u h) }

  arm-ModeFits :
      (m p : ℕ) (b : Bool) (y : Sys F) (before : List (Call F))
      → w.hooks.has_mode ≡ true
      → ModeFits m before (arm w m p b y)
  unfolding arm
  arm-ModeFits m p b y before h =
      let t = call_if w w.hooks.has_mode (publish_mode 0 p) y in
      let u = switch_filtered w (target_of w m) (other_of w m) t in
      let idle : last_mode u.0.calls ≡ some 0 =
        switch-last_mode (target_of w m) (other_of w m) t ∙ call_if-mode w.hooks.has_mode 0 p y h in
      let v = call_if w w.hooks.has_mode (publish_mode m p) u.0 in
      if_cases (ModeFits m before) (not u.1) (u.0, refused "controller switch failed")
        (commit_start w m p b v) (λ e. idle-ModeFits m before u.0 "controller switch failed" idle)
        (λ e. commit-ModeFits m p b v before h (call_if-mode w.hooks.has_mode m p u.0 h))

  abbrev pub Keeps : List (Call F) → Sys F × Bool → Type 0
  Keeps before (z, up) = last_mode z.calls ≡ last_mode before

  wait_rsi-Keeps :
      (fuel : ℕ) (deadline : F) (y : Sys F) (before : List (Call F))
      → last_mode y.calls ≡ last_mode before
      → Holds (Keeps before) (wait_rsi w fuel deadline y)
  unfolding wait_rsi
  wait_rsi-Keeps zero deadline y before h = out_of_fuel
  wait_rsi-Keeps (suc n) deadline y before h =
      let (t, a) = wait w y in
      let (u, b) = wait w t in
      let i = health_locked w.cfg u.rt b.now_s in
      let s = (wait w u).0 in
      let later =
        if i.rsi_topic_fresh && i.rsi_connected then some (u, true) else wait_rsi w n deadline s in
      if_cases (Holds (Keeps before)) (not (lt a.now_s deadline)) (some (t, false)) later
        (λ e. result (t, false) (unfold wait in h))
        (λ e.
          if_cases (Holds (Keeps before)) (i.rsi_topic_fresh && i.rsi_connected) (some (u, true))
            (wait_rsi w n deadline s) (λ g. result (u, true) (unfold wait in h))
            (λ g. wait_rsi-Keeps n deadline s before (unfold wait in h)))

  after_wait-ModeFits :
      (m p : ℕ) (b : Bool) (o : Option (Sys F × Bool)) (before : List (Call F))
      → w.hooks.has_mode ≡ true
      → Holds (Keeps before) o
      → Holds (ModeFits m before) (after_wait w m p b o)
  unfolding after_wait
  after_wait-ModeFits m p b none before h out_of_fuel = out_of_fuel
  after_wait-ModeFits m p b (some (u, up)) before h (result _ k) =
      result (if not up then (u, refused "RSI link did not come up in time") else arm w m p b u) (
        if_cases (ModeFits m before) (not up) (u, refused "RSI link did not come up in time")
          (arm w m p b u) (λ e. same-ModeFits m before u "RSI link did not come up in time" k)
          (λ e. arm-ModeFits m p b u before h))

  some-ModeFits :
      (m : ℕ) (before : List (Call F)) (z : Sys F) (why : String)
      → last_mode z.calls ≡ last_mode before
      → Holds (ModeFits m before) (some (z, refused why))
  some-ModeFits m before z why h = result (z, refused why) (same-ModeFits m before z why h)

  pub start_servo-Holds :
      (fuel m p : ℕ) (y : Sys F)
      → w.hooks.has_mode ≡ true
      → Holds (ModeFits m y.calls) (start_servo w fuel m p y)
  unfolding start_servo wait_and_arm
  start_servo-Holds fuel m p y h =
      let fits = Holds (ModeFits m y.calls) in
      let t = (wait w y).0 in
      let u = clear_residue w t in
      let v = start_rsi w u.0 in
      let ku : last_mode u.0.calls ≡ last_mode y.calls =
        clear_residue-last_mode t ∙ wait-last_mode y in
      let kv : last_mode v.0.calls ≡ last_mode y.calls = start_rsi-last_mode u.0 ∙ ku in
      let x = wait w v.0 in
      let last = wait_and_arm w fuel m p v.1.0 v.0 in
      let last_fits : fits last =
        after_wait-ModeFits m p v.1.0 (wait_rsi w fuel (x.1.now_s ⊕ w.cfg.rsi_connect_wait_s) x.0)
          y.calls h
          (wait_rsi-Keeps fuel (x.1.now_s ⊕ w.cfg.rsi_connect_wait_s) x.0 y.calls
            (wait-last_mode v.0 ∙ kv)) in
      let no_rsi = refused "EKI start_rsi_program rejected" in
      let no_clear = refused "residual RSI fault clear failed" in
      let after_clear = if not v.1.1 then some (v.0, no_rsi) else last in
      let after_ready = if not u.1 then some (u.0, no_clear) else after_clear in
      let not_ready = not (t.rt.core.state is ready) in
      let after_mode =
        if not_ready then some (t, refused "start requires READY") else after_ready in
      if_cases fits (not (m == mode_direct) && not (m == mode_compliance))
        (some (y, refused "mode must be DIRECT_CARTESIAN or FORCE_COMPLIANCE")) after_mode
        (λ e. some-ModeFits m y.calls y "mode must be DIRECT_CARTESIAN or FORCE_COMPLIANCE" refl)
        (λ e.
          if_cases fits not_ready (some (t, refused "start requires READY")) after_ready
            (λ e. some-ModeFits m y.calls t "start requires READY" (wait-last_mode y))
            (λ e.
              if_cases fits (not u.1) (some (u.0, no_clear)) after_clear
                (λ e. some-ModeFits m y.calls u.0 "residual RSI fault clear failed" ku)
                (λ e.
                  if_cases fits (not v.1.1) (some (v.0, no_rsi)) last
                    (λ e. some-ModeFits m y.calls v.0 "EKI start_rsi_program rejected" kv)
                    (λ e. last_fits))))

  -- After a stop from the calls `before`.
  pub record StopFits (before : List (Call F)) (x : Sys F × CommandResult) : Type 0 where
    pub is_idle :
        (last_mode (x.0.calls) ≡ some mode_idle)
        ⊎ ((x.1 ≡ refused "stop requires SERVOING or DEGRADED")
            × (last_mode (x.0.calls) ≡ last_mode before))
    pub is_stopped :
        (x.1.success ≡ false)
        ⊎ ((x.0.rt.core.servo_requested ≡ false)
            × (x.0.rt.mode ≡ mode_idle)
            × (x.0.rt.active_controller ≡ ""))
