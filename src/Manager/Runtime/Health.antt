-- ===== src/Manager/Runtime/Health.antt =====
-- What the health snapshot says of the feeds (`healthLocked`, src/manager_runtime.cpp).
use kuka_iiqka_ros.Prelude.{Bool, true, false, Option, none, some, ◌≡◌, sym, ap, ◌∙◌, arith}
use kuka_iiqka_ros.Double.{Double, le, ◌⊖◌}
use kuka_iiqka_ros.Manager.State.{update, servoing, eki_link_layered}
use kuka_iiqka_ros.Manager.State.Latch.{update-servoing_iff}
use kuka_iiqka_ros.Manager.Runtime.{
  ManagerConfig, Runtime, is_fresh, health_locked, drop_tool, tick_locked,
}

module _ {F : Type 0} ⦃d : Double F⦄ where
  -- A message has come at a time that is within the timeout.
  pub data IsRecent (now_s timeout_s : F) : Option F → Type 0 where
    recent : (rx_s : F) → le (now_s ⊖ rx_s) timeout_s ≡ true → IsRecent now_s timeout_s (some rx_s)

  is_fresh-IsRecent :
      (rx : Option F) (now_s timeout_s : F)
      → is_fresh rx now_s timeout_s ≡ true
      → IsRecent now_s timeout_s rx
  unfolding is_fresh
  is_fresh-IsRecent none now_s timeout_s h = cc
  is_fresh-IsRecent (some rx_s) now_s timeout_s h = recent rx_s h

  -- What the feeds have said where the worker's tick servos.
  pub record LiveFeeds (cfg : ManagerConfig F) (r : Runtime F) (now_s : F) : Type 0 where
    pub rsi_recent : IsRecent now_s cfg.rsi_state_timeout_s r.rsi_rx_s
    pub rsi_up : r.rsi_connected ≡ true
    pub rsi_sound : r.rsi_fault ≡ false
    pub sri_recent : IsRecent now_s cfg.sri_status_timeout_s r.sri_rx_s
    pub sri_flows : r.sri_streaming ≡ true
    pub eki_up : r.eki.connected ≡ true
    pub program : r.eki.program_ready ≡ true
    pub tool : r.tool_synced ≡ true
    pub controllers : r.controllers_loaded ≡ true
    pub requested : r.core.servo_requested ≡ true

  health-rsi :
      (cfg : ManagerConfig F) (r : Runtime F) (now_s : F)
      → (health_locked cfg r now_s).rsi_connected ≡ true
      → (is_fresh r.rsi_rx_s now_s cfg.rsi_state_timeout_s ≡ true) × (r.rsi_connected ≡ true)
  unfolding health_locked
  health-rsi cfg r now_s h = ground arith

  health-rsi_fault :
      (cfg : ManagerConfig F) (r : Runtime F) (now_s : F)
      → is_fresh r.rsi_rx_s now_s cfg.rsi_state_timeout_s ≡ true
      → (health_locked cfg r now_s).rsi_fault ≡ false
      → r.rsi_fault ≡ false
  unfolding health_locked
  health-rsi_fault cfg r now_s f h = ground arith

  health-sri :
      (cfg : ManagerConfig F) (r : Runtime F) (now_s : F)
      → (health_locked cfg r now_s).sri_streaming ≡ true
      → (is_fresh r.sri_rx_s now_s cfg.sri_status_timeout_s ≡ true) × (r.sri_streaming ≡ true)
  unfolding health_locked
  health-sri cfg r now_s h = ground arith

  health-program :
      (cfg : ManagerConfig F) (r : Runtime F) (now_s : F)
      → (health_locked cfg r now_s).eki_program_ready ≡ true
      → (r.eki.connected ≡ true) × (r.eki.program_ready ≡ true)
  unfolding health_locked
  health-program cfg r now_s h = ground arith

  health-program_ready :
      (cfg : ManagerConfig F) (r : Runtime F) (now_s : F)
      → (health_locked cfg r now_s).eki_program_ready ≡ true
      → eki_link_layered (health_locked cfg r now_s) ≡ true
  unfolding health_locked eki_link_layered
  health-program_ready cfg r now_s h = ground arith

  pub tick-core :
      (cfg : ManagerConfig F) (can_sync : Bool) (r : Runtime F) (now_s : F)
      → (tick_locked cfg can_sync r now_s).0.core ≡ update r.core (health_locked cfg r now_s)
  unfolding tick_locked drop_tool
  tick-core cfg can_sync r now_s = ground arith

  -- A tick of the worker that ends in SERVOING has heard the RSI node and the sensor within their
  -- timeouts, the first connected and without a fault, the second streaming, with the EKI connection
  -- up, the program ready, the tool synced, the controllers loaded and a servo request standing.
  pub tick-LiveFeeds :
      (cfg : ManagerConfig F) (can_sync : Bool) (r : Runtime F) (now_s : F)
      → (tick_locked cfg can_sync r now_s).0.core.state ≡ servoing
      → LiveFeeds cfg r now_s
  tick-LiveFeeds cfg can_sync r now_s h =
      let i = health_locked cfg r now_s in
      let m =
        (update-servoing_iff r.core i).0
          (sym (ap (λ c. c.state) (tick-core cfg can_sync r now_s)) ∙ h) in
      let (rsi_ok, up) = health-rsi cfg r now_s m.connection in
      let (sri_ok, flows) = health-sri cfg r now_s m.sensor in
      let (tcp, prog) = health-program cfg r now_s m.program in
      record {
        rsi_recent = is_fresh-IsRecent r.rsi_rx_s now_s cfg.rsi_state_timeout_s rsi_ok;
        rsi_up = up;
        rsi_sound = health-rsi_fault cfg r now_s rsi_ok m.no_rsi_fault;
        sri_recent = is_fresh-IsRecent r.sri_rx_s now_s cfg.sri_status_timeout_s sri_ok;
        sri_flows = flows;
        eki_up = tcp;
        program = prog;
        tool = unfold health_locked in m.tool;
        controllers = unfold health_locked in m.controllers;
        requested = m.requested;
      }
