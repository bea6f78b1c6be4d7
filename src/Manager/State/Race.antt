-- ===== src/Manager/State/Race.antt =====
-- Two commands between two updates: the guards of the commands read `state_`, which only `update`
-- moves, so the second command does not see the first.
use kuka_iiqka_ros.Prelude.{true, false, ◌≡◌, arith}
use kuka_iiqka_ros.Manager.State.{
  ready, fault, servoing, HealthInputs, Core, ready_conditions, full_conditions, update,
  request_start, request_calibration, request_reset,
}

-- Full health, and no fault.
pub record IsHealthy (i : HealthInputs) : Type 0 where
  pub full : full_conditions i ≡ true
  pub no_eki_fault : i.eki_fault ≡ false
  pub no_rsi_fault : i.rsi_fault ≡ false

-- A start and a calibration that are requested in READY with no update between them are both
-- accepted.
both_accepted :
    (c : Core) (i : HealthInputs)
    → c.state ≡ ready
    → IsHealthy i
    → let (c1, v1) = request_start c i in
      let (c2, v2) = request_calibration c1 i in
      (v1.accepted ≡ true)
      × (v2.accepted ≡ true)
      × (c2 ≡ record c { servo_requested = true; is_calibrating = true })
unfolding request_start request_calibration full_conditions ready_conditions
both_accepted c i h g = ground arith

-- Where a start and a calibration are requested in READY with no update between them, a loss of the
-- RSI stream then latches FAULT with the servo request still standing; so the first healthy update
-- after a reset ends in SERVOING, with no new start command.
pub race_restarts_servo :
    (c : Core) (i lost : HealthInputs)
    → c.state ≡ ready
    → IsHealthy i
    → lost.eki_fault ≡ false
    → lost.rsi_fault ≡ false
    → lost.rsi_topic_fresh ≡ false
    → let c2 = (request_calibration (request_start c i).0 i).0 in
      let failed = update c2 lost in
      (failed.state ≡ fault) × ((update (request_reset failed).0 i).state ≡ servoing)
unfolding request_start request_calibration request_reset update full_conditions ready_conditions
race_restarts_servo c i lost h g e r f = ground arith
