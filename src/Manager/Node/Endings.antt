-- ===== src/Manager/Node/Endings.antt =====
-- What the calibration action reports of the sequencer.
use kuka_iiqka_ros.Prelude.{Bool, true, List, some, ◌≡◌, ◌≢◌, ◌⊎◌, arith}
use kuka_iiqka_ros.Double.{Double}
use kuka_iiqka_ros.Sfc.Payload.{PayloadFitResult, Sample}
use kuka_iiqka_ros.Manager.State.{calibrating}
use kuka_iiqka_ros.Manager.Sequencer.{CalibrationConfig, done, failed, cancelled, fresh, status}
use kuka_iiqka_ros.Manager.Sequencer.Invariant.{Reach, Inv, fresh-Reach-Inv}
use kuka_iiqka_ros.Manager.Runtime.{ManagerConfig, Runtime}
use kuka_iiqka_ros.Manager.Node.{
  Ending, succeeded, preempted, CalibrateResult, ending_of, snapshot, poll,
}

-- An ending and a result that are those of the calibration in the runtime.
pub record Reports {F : Type 0} (r : Runtime F) (e : Ending) (res : CalibrateResult F)
    : Type 0 where
  pub not_calibrating : r.core.state ≢ calibrating
  pub over : (r.seq.phase ≡ done) ⊎ (r.seq.phase ≡ failed)
  pub succeeded_iff : (e ≡ succeeded → r.seq.phase ≡ done) × (r.seq.phase ≡ done → e ≡ succeeded)
  pub preempted_iff :
      (e ≡ preempted → r.seq.failure ≡ cancelled) × (r.seq.failure ≡ cancelled → e ≡ preempted)
  pub success_iff :
      (res.success ≡ true → r.seq.phase ≡ done) × (r.seq.phase ≡ done → res.success ≡ true)
  pub fit_is : res.fit ≡ r.seq.fit
  pub fit_ok : res.success ≡ true → res.fit.ok ≡ true

module _ {F : Type 0} ⦃d : Double F⦄ where
  reports :
      (cfg : ManagerConfig F) (r : Runtime F) (now_s : F) (e : Ending) (res : CalibrateResult F)
      → Inv r.seq
      → ending_of (snapshot cfg r now_s) ≡ some (e, res)
      → Reports r e res
  unfolding ending_of snapshot status
  reports cfg r now_s e res v h = ground (arith, v.fit_ok, v.failure_iff)

  -- Where the sequencer has come to its state by its calls, and a turn of the calibration action ends
  -- the goal, whatever happened to the runtime before: the calibration is over, and the state is not
  -- CALIBRATING, whether the teardown has run or not; the goal succeeds, and reports success, exactly
  -- if the calibration is DONE, and then its fit is ok; it is preempted exactly if the calibration was
  -- cancelled; and the fit is that of the sequencer.
  pub poll-Reports :
      (solve : List (Sample F) → PayloadFitResult F) (c : CalibrationConfig F)
      (cfg : ManagerConfig F) (r : Runtime F) (preempt : Bool) (meanwhile : Runtime F → Runtime F)
      (now_s : F) (e : Ending) (res : CalibrateResult F)
      → Reach solve (fresh c) (poll cfg r preempt meanwhile now_s).0.seq
      → (poll cfg r preempt meanwhile now_s).2 ≡ some (e, res)
      → Reports (poll cfg r preempt meanwhile now_s).0 e res
  unfolding poll
  poll-Reports solve c cfg r preempt meanwhile now_s e res reach ends =
      reports cfg (poll cfg r preempt meanwhile now_s).0 now_s e res (fresh-Reach-Inv solve c reach)
        ends
