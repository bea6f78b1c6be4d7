-- ===== src/Manager/Inbound.antt =====
-- The topics that the manager hears (src/manager_node.cpp), from the messages of the other nodes to
-- the feeds of the runtime, and what a tick then knows of the components behind them.
mod Tests
use kuka_iiqka_ros.Prelude.{ℕ, Bool, true, false, ◌&&◌, Option, none, some, ◌≡◌, refl, arith}
use kuka_iiqka_ros.Double.{Double, le, ◌⊖◌}
use kuka_iiqka_ros.Manager.State.{servoing}
use kuka_iiqka_ros.Manager.Runtime.{
  ManagerConfig, EkiFeed, Runtime, feed_eki_state, feed_rsi_state, feed_sri_status, tick_locked,
}
use kuka_iiqka_ros.Manager.Runtime.Health.{IsRecent, recent, LiveFeeds, tick-LiveFeeds}
use kuka_iiqka_ros.Rsi.Hardware.{RobotHw}
use kuka_iiqka_ros.Rsi.Node.{RsiState, rsi_state}
use kuka_iiqka_ros.Sri.Session
use kuka_iiqka_ros.Sri.Session.{age}
use kuka_iiqka_ros.Sri.Driver
use kuka_iiqka_ros.Sri.Driver.{Driver}
use kuka_iiqka_ros.Sri.Node.{SriStatus, status_message}
use kuka_iiqka_ros.Eki.Session.{snapshot}
use kuka_iiqka_ros.Eki.Bridge.{Bridge}
use kuka_iiqka_ros.Eki.Runtime.{status}
use kuka_iiqka_ros.Eki.Node.{EkiState, state_message}

module _ {F : Type 0} where
  unfoldable pub eki_feed : EkiState F → EkiFeed
  eki_feed m = record {
    connected = m.connected;
    state_fresh = m.state_fresh;
    program_ready = m.program_ready;
    rsi_active = m.rsi_active;
    has_fault = m.has_fault;
  }

  -- Each message with the time at which it comes.
  unfoldable pub hear_eki : Runtime F → EkiState F → F → Runtime F
  hear_eki r m now_s = feed_eki_state r (eki_feed m) now_s

  unfoldable pub hear_rsi : Runtime F → RsiState → F → Runtime F
  hear_rsi r m now_s = feed_rsi_state r m.stats.connected m.stats.has_fault now_s

  unfoldable pub hear_sri : Runtime F → SriStatus F → F → Runtime F
  hear_sri r m now_s = feed_sri_status r (m.connected && m.streaming) now_s

both : (a b : Bool) → (a && b) ≡ true → (a ≡ true) × (b ≡ true)
both true b h = (refl, h)
both false b h = cc

-- A look at each of the other nodes, when it sent its message, and when that came.
pub record Looks (F : Type 0) : Type 0 where
  pub bridge : Bridge F
  pub hw : RobotHw F
  pub driver : Driver F
  pub eki_sent_s : F
  pub eki_rx_s : F
  pub rsi_rx_s : F
  pub sri_sent_s : F
  pub sri_rx_s : F

module _ {F : Type 0} ⦃d : Double F⦄ where
  -- The manager, after the messages of all three.
  unfoldable pub hear_all : Runtime F → Looks F → Runtime F
  hear_all r l =
      let heard_eki = hear_eki r (state_message (status l.bridge l.eki_sent_s)) l.eki_rx_s in
      let heard_rsi = hear_rsi heard_eki (rsi_state l.hw) l.rsi_rx_s in
      hear_sri heard_rsi (status_message (Driver.status l.driver l.sri_sent_s)) l.sri_rx_s

  -- What holds of the components, and of the manager.
  pub record Sound (cfg : ManagerConfig F) (r : Runtime F) (l : Looks F) (now_s : F) : Type 0 where
    pub rsi_recent : le (now_s ⊖ l.rsi_rx_s) cfg.rsi_state_timeout_s ≡ true
    pub rsi_up : l.hw.monitor.stats.connected ≡ true
    pub rsi_sound : l.hw.monitor.stats.has_fault ≡ false
    pub sri_recent : le (now_s ⊖ l.sri_rx_s) cfg.sri_status_timeout_s ≡ true
    pub sri_up : l.driver.connected ≡ true
    pub sri_flows :
        IsRecent l.sri_sent_s l.driver.session.cfg.sample_timeout_s l.driver.session.last_sample_s
    pub eki_up : l.bridge.connected ≡ true
    pub program : l.bridge.session.last_state.ready ≡ true
    pub tool : r.tool_synced ≡ true
    pub controllers : r.controllers_loaded ≡ true
    pub requested : r.core.servo_requested ≡ true

  age-IsRecent :
      (s : Session.Session F) (now_s : F) (last : Option F)
      → (age s now_s last).0 ≡ true
      → IsRecent now_s s.cfg.sample_timeout_s last
  unfolding age
  age-IsRecent s now_s none h = cc
  age-IsRecent s now_s (some at_s) h = recent at_s h

  recent-le :
      {now_s timeout_s rx_s : F}
      → IsRecent now_s timeout_s (some rx_s)
      → le (now_s ⊖ rx_s) timeout_s ≡ true
  recent-le (recent rx_s h) = h

  -- A tick of the worker that ends in SERVOING, where the last message of each of the other nodes is
  -- one of its looks, is one at which the messages of the RSI node and of the sensor driver are within
  -- their timeouts, and when they were sent the RSI session was connected and without a fault, the
  -- driver connected with a sample within the timeout of samples, the bridge connected, and the
  -- program of the robot ready in the last state that it sent; and the tool is synced, the controllers
  -- are loaded, and a servo request stands.
  pub tick-Sound :
      (cfg : ManagerConfig F) (can_sync : Bool) (r : Runtime F) (l : Looks F) (now_s : F)
      → (tick_locked cfg can_sync (hear_all r l) now_s).0.core.state ≡ servoing
      → Sound cfg r l now_s
  unfolding hear_all hear_eki hear_rsi hear_sri eki_feed feed_eki_state feed_rsi_state
      feed_sri_status state_message status status_message rsi_state snapshot Driver.status
      Session.status
  tick-Sound cfg can_sync r l now_s h =
      let live = tick-LiveFeeds cfg can_sync (hear_all r l) now_s h in
      record {
        rsi_recent = recent-le live.rsi_recent;
        rsi_up = live.rsi_up;
        rsi_sound = live.rsi_sound;
        sri_recent = recent-le live.sri_recent;
        sri_up = (both _ _ live.sri_flows).0;
        sri_flows =
            age-IsRecent l.driver.session l.sri_sent_s l.driver.session.last_sample_s
              (both _ _ live.sri_flows).1;
        eki_up = live.eki_up;
        program = live.program;
        tool = live.tool;
        controllers = live.controllers;
        requested = live.requested;
      }
