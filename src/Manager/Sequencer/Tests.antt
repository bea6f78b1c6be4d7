-- ===== src/Manager/Sequencer/Tests.antt =====
-- Two poses with two samples each, and the theorems at this calibration.
use kuka_iiqka_ros.Prelude.{ℕ, ltb, List, [], ◌∷◌, ◌≡◌, refl, length, some}
use kuka_iiqka_ros.Prelude.Int.{pos}
use kuka_iiqka_ros.Double.Fixed.{Fixed, num, fixed_double}
use kuka_iiqka_ros.Sfc.Types.{Wrench}
use kuka_iiqka_ros.Sfc.Payload.{PayloadFitResult, Sample, no_fit, add_sample}
use kuka_iiqka_ros.Manager.Sequencer.{
  CalPose, CalibrationConfig, Sequencer, returning, fresh, start, tick, on_wrench, on_motion_result,
  on_stream_lost, advance, finish_pose,
}
use kuka_iiqka_ros.Manager.Sequencer.Invariant.{
  Inv, here, next, starts, ticks, feels, loses, fresh-Reach-Inv,
}
use kuka_iiqka_ros.Manager.Sequencer.Course.{
  Visit, Solved, feed, visit, visits, measurements, visits_complete,
}

abbrev n : ℕ → Fixed
n k = num (pos k)

abbrev pulls : ℕ → Wrench Fixed
pulls k = record { fx = n k; fy = n 0; fz = n 2; tx = n 0; ty = n 0; tz = n 0 }

abbrev pose : ℕ → CalPose Fixed
pose k = record { a = n k; b = n 0; c = n 0 }

abbrev config : CalibrationConfig Fixed
config = record {
  poses = pose 10 ∷ pose 20 ∷ [];
  return_pose = pose 0;
  settle_time_s = n 5;
  samples_per_pose = 2;
}

-- A fit that is ok from two samples on.
abbrev solve_two : List (Sample Fixed) → PayloadFitResult Fixed
solve_two samples = record no_fit { ok = ltb 1 (length samples) }

abbrev seen : List (Visit Fixed)
seen =
    record { sent = n 0; arrived = n 10; settled = n 15; wrenches = pulls 4 ∷ pulls 6 ∷ [] }
    ∷ record { sent = n 20; arrived = n 30; settled = n 36; wrenches = pulls 1 ∷ pulls 3 ∷ [] }
    ∷ []

abbrev begun : Sequencer Fixed
begun = (start (fresh config)).0

comes_back :
    let s = visits solve_two begun seen in
    (s.phase ≡ returning) × (length s.estimator ≡ 2) × ((tick s (n 40)).1 ≡ some (pose 0))
unfolding visits visit feed start tick on_motion_result on_wrench finish_pose advance add_sample
comes_back = (refl, refl, refl)

visits_complete_example :
    Solved solve_two (visits solve_two begun seen) (measurements 2 config.poses seen)
unfolding start
visits_complete_example =
    visits_complete solve_two (fresh config) seen refl refl
      (record { rested = refl; enough = refl }, (record { rested = refl; enough = refl }, tt))

abbrev interrupted : Sequencer Fixed
interrupted = on_stream_lost (on_wrench solve_two (tick begun (n 0)).0 (pulls 3))

fresh-Reach-Inv_example : Inv interrupted
fresh-Reach-Inv_example =
    fresh-Reach-Inv solve_two config
      (next (next (next (next here (starts _)) (ticks _ (n 0))) (feels _ (pulls 3))) (loses _))
