-- ===== src/Manager/Commands.antt =====
-- The commands of `ManagerRuntime` (src/manager_runtime.cpp) and the pass of its worker thread. The
-- steps outside the mutex go through `ask`, and each taking of the mutex is a `wait`. Each command
-- holds `command_mutex_`, so none runs during another.
pub mod Modes
pub mod Calibration
mod Tests
pub mod Waiting
use Prim.Native.String.{◌++◌}
use kuka_iiqka_ros.Prelude.{
  ℕ, zero, suc, Bool, true, false, not, ◌&&◌, ◌==◌, String, Option, none, some, if◌then◌else◌,
}
use kuka_iiqka_ros.Double.{Double, lt, ◌⊕◌}
use kuka_iiqka_ros.Manager.State.{
  ready, servoing, degraded, fault, ◌is◌, request_start, request_stop, request_calibration,
  request_reset, calibration_finished, allow_zero_sensor,
}
use kuka_iiqka_ros.Manager.Sequencer.{CalPose, start}
use kuka_iiqka_ros.Manager.Runtime.{
  Runtime, Teardown, mode_idle, mode_direct, mode_compliance, mode_calibration, health_locked,
  tick_locked, calibration_over,
}
use kuka_iiqka_ros.Manager.World.{
  publish_mode, eki_start_rsi, eki_stop_rsi, eki_reset_fault, eki_get_tool, rsi_reset_fault,
  sri_zero, send_motion_goal, apply_payload, publish_state, World, Sys, wait, ask, call_if, call_ok,
  switch_filtered,
}

pub record CommandResult : Type 0 where
  pub success : Bool
  pub message : String

abbrev pub done : String → CommandResult
done note = record { success = true; message = note }

abbrev pub refused : String → CommandResult
refused why = record { success = false; message = why }

module _ {F : Type 0} ⦃d : Double F⦄ (w : World F) where
  abbrev pub set_rt : Sys F → Runtime F → Sys F
  set_rt s r = record s { rt = r }

  -- Whether a fault of the previous RSI session must be cleared, and whether that has worked.
  unfoldable pub clear_residue : Sys F → Sys F × Bool
  clear_residue s =
      let (t, a) = wait w s in
      let i = health_locked w.cfg t.rt a.now_s in
      if t.rt.rsi_fault && i.eki_heartbeat_fresh && not i.eki_rsi_active
      then call_ok w w.hooks.has_rsi_reset rsi_reset_fault t
      else (t, true)

  -- Starts the RSI program, unless it runs: `need_start_rsi`, and whether it has worked.
  unfoldable pub start_rsi : Sys F → Sys F × (Bool × Bool)
  start_rsi s =
      let t = (wait w s).0 in
      let (u, ok) = call_ok w w.hooks.has_start_rsi eki_start_rsi t in
      if not t.rt.eki.rsi_active then (u, (true, ok)) else (t, (false, true))

  -- The loop that waits for the RSI stream; `none` is out of fuel.
  unfoldable pub wait_rsi : ℕ → F → Sys F → Option (Sys F × Bool)
  wait_rsi zero deadline s = none
  wait_rsi (suc n) deadline s =
      let (t, a) = wait w s in
      let (u, b) = wait w t in
      let i = health_locked w.cfg u.rt b.now_s in
      let rest = wait_rsi n deadline (wait w u).0 in
      if not (lt a.now_s deadline)
      then some (t, false)
      else if i.rsi_topic_fresh && i.rsi_connected
      then some (u, true)
      else rest

  abbrev pub target_of : ℕ → String
  target_of mode =
      if mode == mode_compliance then w.cfg.compliance_controller else w.cfg.correction_controller

  abbrev pub other_of : ℕ → String
  other_of mode =
      if mode == mode_compliance then w.cfg.correction_controller else w.cfg.compliance_controller

  -- Undoes a start that the last verdict refuses.
  unfoldable pub roll_back : ℕ → ℕ → Bool → Sys F → Sys F
  roll_back mode profile started s =
      let t = call_if w w.hooks.has_mode (publish_mode mode_idle profile) s in
      let u = (switch_filtered w "" (target_of mode) t).0 in
      call_if w (started && w.hooks.has_stop_rsi) eki_stop_rsi u

  -- The last verdict.
  unfoldable pub commit_start : ℕ → ℕ → Bool → Sys F → Sys F × CommandResult
  unfolding roll_back
  commit_start mode profile started s =
      let (t, a) = wait w s in
      let (core', v) = request_start t.rt.core (health_locked w.cfg t.rt a.now_s) in
      let served = record (t.rt) {
        core = core';
        mode = mode;
        profile = profile;
        active_controller = target_of mode;
      } in
      if v.accepted then (set_rt t served, done "") else (
        roll_back mode profile started (set_rt t (record (t.rt) { core = core' })),
        refused v.reason,
      )

  -- A start from the switch of the controllers on.
  unfoldable pub arm : ℕ → ℕ → Bool → Sys F → Sys F × CommandResult
  unfolding commit_start
  arm mode profile started s =
      let t = call_if w w.hooks.has_mode (publish_mode mode_idle profile) s in
      let (u, ok) = switch_filtered w (target_of mode) (other_of mode) t in
      if not ok
      then (u, refused "controller switch failed")
      else commit_start mode profile started
          (call_if w w.hooks.has_mode (publish_mode mode profile) u)

  -- A start from the end of the wait on.
  unfoldable pub after_wait : ℕ → ℕ → Bool → Option (Sys F × Bool) → Option (Sys F × CommandResult)
  after_wait mode profile started none = none
  after_wait mode profile started (some (s, up)) = some (
      if not up
      then (s, refused "RSI link did not come up in time")
      else arm mode profile started s)

  unfoldable pub wait_and_arm : ℕ → ℕ → ℕ → Bool → Sys F → Option (Sys F × CommandResult)
  unfolding after_wait
  wait_and_arm fuel mode profile started s =
      let (t, a) = wait w s in
      after_wait mode profile started (wait_rsi fuel (a.now_s ⊕ w.cfg.rsi_connect_wait_s) t)

  -- `fuel` bounds the turns of the waiting loop; `none` is out of fuel.
  unfoldable pub start_servo : ℕ → ℕ → ℕ → Sys F → Option (Sys F × CommandResult)
  unfolding wait_and_arm
  start_servo fuel mode profile s =
      let t = (wait w s).0 in
      let (u, cleared) = clear_residue t in
      let (v, (started, ok)) = start_rsi u in
      if not (mode == mode_direct) && not (mode == mode_compliance)
      then some (s, refused "mode must be DIRECT_CARTESIAN or FORCE_COMPLIANCE")
      else if not (t.rt.core.state is ready)
      then some (t, refused "start requires READY")
      else if not cleared
      then some (u, refused "residual RSI fault clear failed")
      else if not ok
      then some (v, refused "EKI start_rsi_program rejected")
      else wait_and_arm fuel mode profile started v

  unfoldable pub stop_servo : Sys F → Sys F × CommandResult
  stop_servo s =
      let t = (wait w s).0 in
      let t1 = call_if w w.hooks.has_mode (publish_mode mode_idle t.rt.profile) t in
      let t2 = (switch_filtered w "" t.rt.active_controller t1).0 in
      let t3 = call_if w w.hooks.has_stop_rsi eki_stop_rsi t2 in
      let u = (wait w t3).0 in
      let (core', v) = request_stop u.rt.core in
      let stopped = record (u.rt) { core = core'; mode = mode_idle; active_controller = "" } in
      if not (t.rt.core.state is servoing) && not (t.rt.core.state is degraded)
      then (t, refused "stop requires SERVOING or DEGRADED")
      else if not v.accepted
      then (set_rt u (record (u.rt) { core = core' }), refused v.reason)
      else (set_rt u stopped, done "")

  unfoldable pub reset_fault : Sys F → Sys F × CommandResult
  reset_fault s =
      let t = (wait w s).0 in
      let (t1, rsi_ok) = call_ok w w.hooks.has_rsi_reset rsi_reset_fault t in
      let (t2, eki_ok) = call_ok w w.hooks.has_eki_reset eki_reset_fault t1 in
      let note1 = if w.hooks.has_rsi_reset && not rsi_ok then "RSI reset failed; " else "" in
      let note2 = if w.hooks.has_eki_reset && not eki_ok then "EKI reset failed; " else "" in
      let u = (wait w t2).0 in
      let (core', v) = request_reset u.rt.core in
      if not (t.rt.core.state is fault) then (t, refused "reset requires FAULT") else (
        set_rt u (record (u.rt) { core = core' }),
        if v.accepted then done (note1 ++ note2) else refused v.reason,
      )

  unfoldable pub zero_sensor : Sys F → Sys F × CommandResult
  zero_sensor s =
      let t = (wait w s).0 in
      let (u, ok) = call_ok w w.hooks.has_zero sri_zero t in
      if not (allow_zero_sensor t.rt.core)
      then (t, refused "sensor zero allowed in CONNECTED/READY only")
      else (u, if ok then done "" else refused "sri zero service failed")

  -- The end of `beginCalibration`, once the controllers are switched.
  unfoldable pub start_sequence : Sys F → Sys F × CommandResult
  start_sequence s =
      let u = (wait w s).0 in
      let (q, ok) = start u.rt.seq in
      let begun = record (u.rt) {
        seq = q;
        cal_teardown_done = false;
        mode = mode_calibration;
        active_controller = w.cfg.correction_controller;
      } in
      if not ok
      then (
        set_rt u (record (u.rt) { core = calibration_finished u.rt.core; seq = q }),
        refused "calibration sequencer rejected start (bad config?)",
      )
      else (set_rt u begun, done "")

  unfoldable pub begin_calibration : Sys F → Sys F × CommandResult
  unfolding start_sequence
  begin_calibration s =
      let (t, a) = wait w s in
      let (core', v) = request_calibration t.rt.core (health_locked w.cfg t.rt a.now_s) in
      let t1 = set_rt t (record (t.rt) { core = core' }) in
      let t2 = call_if w w.hooks.has_mode (publish_mode mode_idle t.rt.profile) t1 in
      let (t3, switched) =
        switch_filtered w w.cfg.correction_controller w.cfg.compliance_controller t2 in
      let u = (wait w t3).0 in
      let t4 = call_if w w.hooks.has_mode (publish_mode mode_calibration t.rt.profile) t3 in
      if not v.accepted
      then (t1, refused v.reason)
      else if not switched
      then (
        set_rt u (record (u.rt) { core = calibration_finished u.rt.core }),
        refused "controller switch failed",
      )
      else start_sequence t4

  -- A worker's pass: what it does for the tool frame.
  unfoldable pub sync_tool : Bool → Sys F → Sys F
  sync_tool want s =
      let (t, a) = ask w eki_get_tool s in
      let u = (wait w t).0 in
      if want
      then set_rt u (record (u.rt) { tool_synced = if a.ok then true else u.rt.tool_synced })
      else s

  -- A worker's pass: the end of a calibration, if one has ended.
  unfoldable pub tear_down : Option (Teardown F) → Sys F → Sys F
  tear_down none s = s
  tear_down (some c) s =
      let t1 = call_if w (c.success && w.hooks.has_payload) (apply_payload c.fit) s in
      let t2 = call_if w w.hooks.has_mode (publish_mode mode_idle c.cal_profile) t1 in
      let t3 = (switch_filtered w "" w.cfg.correction_controller t2).0 in
      let u = (wait w t3).0 in set_rt u (calibration_over u.rt)

  unfoldable pub send_goal : Option (CalPose F) → Sys F → Sys F
  send_goal none s = s
  send_goal (some target) s = call_if w w.hooks.has_goal (send_motion_goal target) s

  -- One turn of the worker's loop, but for the sleep at its end.
  unfoldable pub worker_pass : Sys F → Sys F
  unfolding sync_tool tear_down send_goal
  worker_pass s =
      let (t, a) = wait w s in
      let (r, work) = tick_locked w.cfg w.hooks.has_get_tool t.rt a.now_s in
      let t1 = sync_tool work.want_tool_sync (set_rt t r) in
      let t2 = send_goal work.action t1 in
      let t3 = tear_down work.teardown t2 in call_if w w.hooks.has_state publish_state t3
