-- ===== src/Manager/Commands/Calibration.antt =====
-- How a calibration begins and ends in the manager.
use kuka_iiqka_ros.Prelude.{true, false, List, [], ◌∷◌, none, some, ◌≡◌, ◌⊎◌, arith}
use kuka_iiqka_ros.Double.{Double}
use kuka_iiqka_ros.Manager.Sequencer.{moving}
use kuka_iiqka_ros.Manager.Runtime.{
  Runtime, Teardown, set_controllers_loaded, feed_eki_state, feed_rsi_state, feed_sri_status,
  feed_wrench, motion_result, cancel_calibration, tick_locked, drop_tool, calibration_over,
  mode_calibration,
}
use kuka_iiqka_ros.Manager.World.{
  Call, World, Sys, Event, controllers_loaded, eki_state, rsi_state, sri_status, wrench,
  motion_ended, cancelled, worker_tick, worker_tool_synced, worker_teardown, apply_event,
  apply_events,
}
use kuka_iiqka_ros.Manager.Commands.{CommandResult}

module _ {F : Type 0} ⦃d : Double F⦄ (w : World F) where
  tick-done :
      (r : Runtime F) (now_s : F)
      → r.cal_teardown_done ≡ true
      → let (u, work) = tick_locked w.cfg w.hooks.has_get_tool r now_s in
        (u.cal_teardown_done ≡ true) × (work.teardown ≡ none)
  unfolding tick_locked drop_tool
  tick-done r now_s h = ground arith

  tick-teardown :
      (r : Runtime F) (now_s : F) (c : Teardown F)
      → (tick_locked w.cfg w.hooks.has_get_tool r now_s).1.teardown ≡ some c
      → (tick_locked w.cfg w.hooks.has_get_tool r now_s).0.cal_teardown_done ≡ true
  unfolding tick_locked drop_tool
  tick-teardown r now_s c h = ground arith

  event-done :
      (r : Runtime F) (e : Event F)
      → r.cal_teardown_done ≡ true
      → (apply_event w r e).cal_teardown_done ≡ true
  unfolding apply_event set_controllers_loaded feed_eki_state feed_rsi_state feed_sri_status
      feed_wrench motion_result cancel_calibration calibration_over
  event-done r (controllers_loaded loaded) h = h
  event-done r (eki_state f now_s) h = h
  event-done r (rsi_state up bad now_s) h = h
  event-done r (sri_status streaming now_s) h = h
  event-done r (wrench v) h = h
  event-done r (motion_ended ok now_s) h = h
  event-done r cancelled h = h
  event-done r (worker_tick now_s) h = (tick-done r now_s h).0
  event-done r worker_tool_synced h = h
  event-done r worker_teardown h = h

  events-done :
      (r : Runtime F) (es : List (Event F))
      → r.cal_teardown_done ≡ true
      → (apply_events w r es).cal_teardown_done ≡ true
  unfolding apply_events
  events-done r [] h = h
  events-done r (e ∷ es) h = events-done (apply_event w r e) es (event-done r e h)

  -- The end of a calibration is handled once: after a tick that has reported it, no tick reports
  -- another one, whatever the feeds and the worker do in between, until a calibration is begun.
  pub teardown_once :
      (r : Runtime F) (first later : F) (c : Teardown F) (es : List (Event F))
      → (tick_locked w.cfg w.hooks.has_get_tool r first).1.teardown ≡ some c
      → let u = apply_events w (tick_locked w.cfg w.hooks.has_get_tool r first).0 es in
        (tick_locked w.cfg w.hooks.has_get_tool u later).1.teardown ≡ none
  teardown_once r first later c es h =
      let t = (tick_locked w.cfg w.hooks.has_get_tool r first).0 in
      (tick-done (apply_events w t es) later (events-done t es (tick-teardown r first c h))).1

  -- After `beginCalibration` from the calls `before`.
  pub record CalibrationFits (before : List (Call F)) (x : Sys F × CommandResult) : Type 0 where
    pub fits :
        ((x.1.success ≡ true)
          × (x.0.rt.seq.phase ≡ moving)
          × (x.0.rt.cal_teardown_done ≡ false)
          × (x.0.rt.mode ≡ mode_calibration))
        ⊎ ((x.1.success ≡ false) × ((x.0.calls ≡ before) ⊎ (x.0.rt.core.is_calibrating ≡ false)))
