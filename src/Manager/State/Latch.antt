-- ===== src/Manager/State/Latch.antt =====
-- About the latched fault and the states that move the robot (src/system_state_core.cpp).
use kuka_iiqka_ros.Prelude.{true, false, List, [], ◌∷◌, ◌≡◌, ◌≢◌, ◌↔◌, ◌⊎◌, arith}
use kuka_iiqka_ros.Manager.State.{
  fault, servoing, HealthInputs, Core, eki_link_layered, ready_conditions, full_conditions,
  fault_is_session_residue, update, request_start, request_stop, request_calibration,
  calibration_finished,
}
use kuka_iiqka_ros.Manager.State.Events.{
  Event, tick, start, stop, calibrate, finished, reset, apply, run, NoReset,
}

update-fault : (c : Core) (i : HealthInputs) → c.state ≡ fault → (update c i).state ≡ fault
unfolding update
update-fault c i h = ground arith

apply-fault :
    (c : Core) (e : Event) (es : List Event)
    → c.state ≡ fault
    → NoReset (e ∷ es)
    → ((apply c e).state ≡ fault) × NoReset es
unfolding apply request_start request_stop request_calibration calibration_finished
apply-fault c (tick i) es h n = (update-fault c i h, n)
apply-fault c (start i) es h n = (ground arith, n)
apply-fault c stop es h n = (ground arith, n)
apply-fault c (calibrate i) es h n = (ground arith, n)
apply-fault c finished es h n = (h, n)
apply-fault c reset es h n = absurd n

-- Once the core is in FAULT, it stays there through every sequence of calls without a
-- `requestReset`, whatever health the updates report.
run-fault : (c : Core) (es : List Event) → c.state ≡ fault → NoReset es → (run c es).state ≡ fault
unfolding run
run-fault c [] h n = h
run-fault c (e ∷ es) h n =
    let (still, rest) = apply-fault c e es h n in run-fault (apply c e) es still rest

-- What has to hold for an update to end in SERVOING.
pub record MayServo (c : Core) (i : HealthInputs) : Type 0 where
  pub requested : c.servo_requested ≡ true
  pub not_calibrating : c.is_calibrating ≡ false
  pub not_latched : c.state ≢ fault
  pub no_eki_fault : i.eki_fault ≡ false
  pub no_rsi_fault : i.rsi_fault ≡ false
  pub link : (i.eki_link ≡ true) ⊎ (i.eki_tcp_connected ≡ true)
  pub program : i.eki_program_ready ≡ true
  pub sensor : i.sri_streaming ≡ true
  pub tool : i.tool_synced ≡ true
  pub controllers : i.controllers_loaded ≡ true
  pub frames : i.rsi_topic_fresh ≡ true
  pub connection : i.rsi_connected ≡ true

-- An update ends in SERVOING exactly when a servo request stands, no calibration does, no fault is
-- latched or reported, and the EKI link (the TCP link is enough), the program, the force sensor,
-- the tool, the controllers and the RSI stream are all there.
pub update-servoing_iff :
    (c : Core) (i : HealthInputs) → ((update c i).state ≡ servoing) ↔ MayServo c i
unfolding update full_conditions ready_conditions eki_link_layered fault_is_session_residue
update-servoing_iff c i = (λ h. ground arith, λ h. ground arith)
