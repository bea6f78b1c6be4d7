-- ===== src/Manager/Inbound/Tests.antt =====
-- Sound components that a manager with a servo request hears.
use kuka_iiqka_ros.Prelude.{ℕ, true, [], ◌∷◌, some, ◌≡◌, refl}
use kuka_iiqka_ros.Prelude.Int.{pos}
use kuka_iiqka_ros.Double.Fixed.{Fixed, num, fixed_double}
use kuka_iiqka_ros.Eki.Session.{no_state, snapshot}
use kuka_iiqka_ros.Eki.Bridge
use kuka_iiqka_ros.Eki.Runtime.{status}
use kuka_iiqka_ros.Eki.Node.{state_message}
use kuka_iiqka_ros.Rsi.Hardware.{configured}
use kuka_iiqka_ros.Rsi.Monitor.{no_stats}
use kuka_iiqka_ros.Rsi.Node.{rsi_state}
use kuka_iiqka_ros.Sri.Session
use kuka_iiqka_ros.Sri.Session.{age}
use kuka_iiqka_ros.Sri.Driver
use kuka_iiqka_ros.Sri.Node.{status_message}
use kuka_iiqka_ros.Manager.State.{
  ready, servoing, initial, update, full_conditions, ready_conditions, eki_link_layered,
  fault_is_session_residue,
}
use kuka_iiqka_ros.Manager.Sequencer.{origin, tick}
use kuka_iiqka_ros.Manager.Runtime.{
  ManagerConfig, Runtime, constructed, health_locked, is_fresh, feed_eki_state, feed_rsi_state,
  feed_sri_status, tick_locked, drop_tool, tick_sequencer,
}
use kuka_iiqka_ros.Manager.Inbound.{
  Looks, Sound, eki_feed, hear_eki, hear_rsi, hear_sri, hear_all, tick-Sound,
}

abbrev n : ℕ → Fixed
n k = num (pos k)

abbrev config : ManagerConfig Fixed
config = record {
  eki_state_timeout_s = n 50;
  rsi_state_timeout_s = n 50;
  sri_status_timeout_s = n 50;
  tool_sync_retry_s = n 50;
  rsi_connect_wait_s = n 4;
  compliance_controller = "compliance";
  correction_controller = "correction";
  calibration = record {
    poses = origin ∷ [];
    return_pose = origin;
    settle_time_s = n 0;
    samples_per_pose = 1;
  };
}

abbrev asked : Runtime Fixed
asked = record (constructed config) {
  core = record initial { state = ready; servo_requested = true };
  controllers_loaded = true;
  tool_synced = true;
}

abbrev looks : Looks Fixed
looks =
    let hw = configured (record { max_trans = n 1; max_rot = n 1 }) 5 in
    let bridge = Bridge.constructed (record { response_timeout_s = n 2; state_timeout_s = n 1 }) in
    let session = Session.fresh (record {
      sample_timeout_s = n 3;
      nominal_rate_hz = n 250;
      zero_sample_count = 1;
      filter_cutoff_hz = n 0;
      bias_limit_n = n 120;
    }) in
    record {
      bridge = record bridge {
        connected = true;
        session = record (bridge.session) {
          last_state = record no_state { ready = true };
          last_state_s = some (n 90);
        };
      };
      hw = record hw {
        monitor = record (hw.monitor) { stats = record no_stats { connected = true } };
      };
      driver = record {
        session = record session { last_sample_s = some (n 91) };
        connected = true;
        was_connected_once = true;
        reconnects = 0;
      };
      eki_sent_s = n 90;
      eki_rx_s = n 91;
      rsi_rx_s = n 92;
      sri_sent_s = n 93;
      sri_rx_s = n 94;
    }

servoes : (tick_locked config true (hear_all asked looks) (n 101)).0.core.state ≡ servoing
unfolding tick_locked health_locked is_fresh drop_tool tick_sequencer tick update full_conditions
    ready_conditions eki_link_layered fault_is_session_residue constructed hear_all hear_eki
    hear_rsi hear_sri eki_feed feed_eki_state feed_rsi_state feed_sri_status state_message status
    status_message rsi_state snapshot Driver.status Session.status age configured Bridge.constructed
servoes = refl

tick-Sound_example : Sound config asked looks (n 101)
tick-Sound_example = tick-Sound config true asked looks (n 101) servoes
