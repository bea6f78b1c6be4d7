-- ===== src/Manager/World.antt =====
-- The hooks that `ManagerRuntime` calls outside its mutex (`ManagerOps`, manager_runtime.h), and
-- `switchFiltered` (src/manager_runtime.cpp). A `World` is a sequence of answers. Each call of a hook
-- and each taking of the mutex uses up one: what the hook returns, what the clock shows, and what the
-- other threads did to the runtime until then.
pub mod Switch
use text.Mathlib.Text.{◌==◌}
use kuka_iiqka_ros.Prelude.{
  ℕ, ◌+◌, Bool, true, false, not, ◌&&◌, ◌||◌, String, List, [], ◌∷◌, if◌then◌else◌,
}
use kuka_iiqka_ros.Double.{Double}
use kuka_iiqka_ros.Sfc.Types.{Wrench}
use kuka_iiqka_ros.Sfc.Payload.{PayloadFitResult, Sample}
use kuka_iiqka_ros.Manager.Sequencer.{CalPose}
use kuka_iiqka_ros.Manager.Runtime.{
  EkiFeed, ManagerConfig, Runtime, set_controllers_loaded, feed_eki_state, feed_rsi_state,
  feed_sri_status, feed_wrench, motion_result, cancel_calibration, tick_locked, calibration_over,
}

-- A call of a hook.
pub data Call (F : Type 0) : Type 0 where
  list_running : Call F
  switch_controllers : String → String → Call F
  publish_mode : ℕ → ℕ → Call F
  eki_start_rsi : Call F
  eki_stop_rsi : Call F
  eki_reset_fault : Call F
  eki_get_tool : Call F
  rsi_reset_fault : Call F
  sri_zero : Call F
  send_motion_goal : CalPose F → Call F
  apply_payload : PayloadFitResult F → Call F
  publish_state : Call F

-- Which of the hooks are set.
pub record Hooks : Type 0 where
  pub has_list : Bool
  pub has_switch : Bool
  pub has_mode : Bool
  pub has_start_rsi : Bool
  pub has_stop_rsi : Bool
  pub has_eki_reset : Bool
  pub has_get_tool : Bool
  pub has_rsi_reset : Bool
  pub has_zero : Bool
  pub has_goal : Bool
  pub has_payload : Bool
  pub has_state : Bool

-- What another thread does under the mutex, with the time at which it does it.
pub data Event (F : Type 0) : Type 0 where
  controllers_loaded : Bool → Event F
  eki_state : EkiFeed → F → Event F
  rsi_state : Bool → Bool → F → Event F
  sri_status : Bool → F → Event F
  wrench : Wrench F → Event F
  motion_ended : Bool → F → Event F
  cancelled : Event F
  worker_tick : F → Event F
  worker_tool_synced : Event F
  worker_teardown : Event F

-- `ok` is what a hook with a Boolean result returns, and `valid` of a tool frame; `running` is the
-- list that `listRunningControllers` fills.
pub record Answer (F : Type 0) : Type 0 where
  pub ok : Bool
  pub running : List String
  pub now_s : F
  pub meanwhile : List (Event F)

pub record World (F : Type 0) : Type 0 where
  pub cfg : ManagerConfig F
  pub hooks : Hooks
  pub solve : List (Sample F) → PayloadFitResult F
  pub answer : ℕ → Answer F

-- The runtime, the calls so far, the last one first, and how many answers are used up.
pub record Sys (F : Type 0) : Type 0 where
  pub rt : Runtime F
  pub calls : List (Call F)
  pub used : ℕ

unfoldable pub runs : List String → String → Bool
runs [] name = false
runs (r ∷ rs) name = (r == name) || runs rs name

module _ {F : Type 0} ⦃d : Double F⦄ (w : World F) where
  unfoldable pub apply_event : Runtime F → Event F → Runtime F
  apply_event r (controllers_loaded loaded) = set_controllers_loaded r loaded
  apply_event r (eki_state f now_s) = feed_eki_state r f now_s
  apply_event r (rsi_state is_connected is_faulted now_s) =
      feed_rsi_state r is_connected is_faulted now_s
  apply_event r (sri_status streaming now_s) = feed_sri_status r streaming now_s
  apply_event r (wrench v) = feed_wrench w.solve r v
  apply_event r (motion_ended success now_s) = motion_result r success now_s
  apply_event r cancelled = cancel_calibration r
  apply_event r (worker_tick now_s) = (tick_locked w.cfg w.hooks.has_get_tool r now_s).0
  apply_event r worker_tool_synced = record r { tool_synced = true }
  apply_event r worker_teardown = calibration_over r

  unfoldable pub apply_events : Runtime F → List (Event F) → Runtime F
  apply_events r [] = r
  apply_events r (e ∷ es) = apply_events (apply_event r e) es

  -- The other threads come to the mutex before this one does.
  unfoldable pub wait : Sys F → Sys F × Answer F
  wait s =
      let a = w.answer s.used in
      (record s { rt = apply_events s.rt a.meanwhile; used = s.used + 1 }, a)

  unfoldable pub ask : Call F → Sys F → Sys F × Answer F
  ask c s = wait (record s { calls = c ∷ s.calls })

  -- `if (ops_.f) ops_.f(...)`.
  unfoldable pub call_if : Bool → Call F → Sys F → Sys F
  call_if is_set c s = if is_set then (ask c s).0 else s

  -- `ops_.f && ops_.f()`.
  unfoldable pub call_ok : Bool → Call F → Sys F → Sys F × Bool
  call_ok is_set c s = if is_set then ((ask c s).0, (ask c s).1.ok) else (s, false)

  -- The end of `switchFiltered`, with the names that are left.
  unfoldable pub switch_rest : String → String → Sys F → Sys F × Bool
  switch_rest s t y =
      if (s == "") && (t == "") then (y, true) else call_ok true (switch_controllers s t) y

  unfoldable pub switch_filtered : String → String → Sys F → Sys F × Bool
  unfolding switch_rest
  switch_filtered start stop y =
      let (z, a) = ask list_running y in
      if not w.hooks.has_switch
      then (y, false)
      else if not w.hooks.has_list
      then call_ok true (switch_controllers start stop) y
      else if not a.ok
      then (z, false)
      else switch_rest (if not (start == "") && runs a.running start then "" else start)
          (if not (stop == "") && not (runs a.running stop) then "" else stop) z
