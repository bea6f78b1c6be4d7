-- ===== src/Manager/Sequencer.antt =====
-- `CalibrationSequencer` (src/calibration_sequencer.cpp): moves through the calibration poses, waits
-- for the arm to settle, averages the wrench at each, fits the payload and returns. The fit itself,
-- a factorisation by Eigen, is the parameter `solve`.
pub mod Invariant
mod Course
mod Tests
use kuka_iiqka_ros.Prelude.{
  ℕ, ◌+◌, Bool, true, false, not, ◌||◌, ◌&&◌, Option, List, [], ltb, ◌==◌, length, get_or,
  if◌then◌else◌,
}
use kuka_iiqka_ros.Double.{Double, nought, of_ℕ, ◌⊖◌, ◌⊘◌, le}
use kuka_iiqka_ros.Sfc.Types.{Wrench, zero_wrench, add_wrench}
use kuka_iiqka_ros.Sfc.Payload.{PayloadFitResult, Sample, no_fit, add_sample}

pub record CalPose (F : Type 0) : Type 0 where
  pub a : F
  pub b : F
  pub c : F

-- `samples_per_pose` is an `int`: 0 stands for every value that `start` refuses.
pub record CalibrationConfig (F : Type 0) : Type 0 where
  pub poses : List (CalPose F)
  pub return_pose : CalPose F
  pub settle_time_s : F
  pub samples_per_pose : ℕ

pub data CalPhase : Type 0 where
  idle moving settling sampling returning done failed : CalPhase

pub data CalFailure : Type 0 where
  no_failure move_failed solve_failed stream_lost cancelled : CalFailure

-- `none` is an action that sends no goal.
abbrev pub CalAction : Type 0 → Type 0
CalAction F = Option (CalPose F)

pub record CalStatus : Type 0 where
  pub phase : CalPhase
  pub failure : CalFailure
  pub pose_index : ℕ
  pub pose_count : ℕ
  pub samples_collected : ℕ
  pub return_move_ok : Bool

pub record Sequencer (F : Type 0) : Type 0 where
  pub cfg : CalibrationConfig F
  pub phase : CalPhase
  pub failure : CalFailure
  pub idx : ℕ
  pub goal_pending : Bool
  pub settle_start_s : F
  pub sample_count : ℕ
  pub accum : Wrench F
  pub return_ok : Bool
  pub estimator : List (Sample F)
  pub fit : PayloadFitResult F

abbrev pub is_active : CalPhase → Bool
is_active moving = true
is_active settling = true
is_active sampling = true
is_active returning = true
is_active _ = false

abbrev is_settling : CalPhase → Bool
is_settling settling = true
is_settling _ = false

abbrev is_sampling : CalPhase → Bool
is_sampling sampling = true
is_sampling _ = false

abbrev is_returning : CalPhase → Bool
is_returning returning = true
is_returning _ = false

module _ {F : Type 0} where
  unfoldable pub fail : Sequencer F → CalFailure → Sequencer F
  fail s f =
      if is_active s.phase
      then record s { phase = failed; failure = f; goal_pending = false }
      else s

  unfoldable pub cancel : Sequencer F → Sequencer F
  cancel s = fail s cancelled

  unfoldable pub on_stream_lost : Sequencer F → Sequencer F
  on_stream_lost s = fail s stream_lost

  unfoldable pub status : Sequencer F → CalStatus
  status s = record {
    phase = s.phase;
    failure = s.failure;
    pose_index = s.idx;
    pose_count = length s.cfg.poses;
    samples_collected = s.sample_count;
    return_move_ok = s.return_ok;
  }

  motion_done : CalPhase → Sequencer F → Bool → F → Sequencer F
  motion_done moving s success now_s =
      if success then record s { phase = settling; settle_start_s = now_s } else fail s move_failed
  motion_done returning s success now_s = record s { return_ok = success; phase = done }
  motion_done _ s success now_s = s

  unfoldable pub on_motion_result : Sequencer F → Bool → F → Sequencer F
  unfolding motion_done fail
  on_motion_result s success now_s = motion_done s.phase s success now_s

module _ {F : Type 0} ⦃d : Double F⦄ where
  -- `CalPose{}`.
  abbrev pub origin : CalPose F
  origin = record { a = nought; b = nought; c = nought }

  -- A new sequencer, configured.
  abbrev pub fresh : CalibrationConfig F → Sequencer F
  fresh cfg = record {
    cfg = cfg;
    phase = idle;
    failure = no_failure;
    idx = 0;
    goal_pending = false;
    settle_start_s = nought;
    sample_count = 0;
    accum = zero_wrench;
    return_ok = true;
    estimator = [];
    fit = no_fit;
  }

  unfoldable pub start : Sequencer F → Sequencer F × Bool
  start s =
      if is_active s.phase
      then (s, false)
      else if length s.cfg.poses == 0 || s.cfg.samples_per_pose == 0
      then (s, false)
      else (
        record s {
          estimator = [];
          fit = no_fit;
          failure = no_failure;
          idx = 0;
          sample_count = 0;
          accum = zero_wrench;
          return_ok = true;
          phase = moving;
          goal_pending = true;
        },
        true,
      )

  -- The first half of `tick`: the end of the settling time.
  settle : Sequencer F → F → Sequencer F
  settle s now_s =
      if is_settling s.phase && le s.cfg.settle_time_s (now_s ⊖ s.settle_start_s)
      then record s { phase = sampling; sample_count = 0; accum = zero_wrench }
      else s

  -- The second half: the goal that waits to be sent.
  emit : Sequencer F → Sequencer F × CalAction F
  emit s =
      let target =
        if is_returning s.phase then s.cfg.return_pose else get_or s.cfg.poses s.idx origin in
      if s.goal_pending
      then (record s { goal_pending = false }, Option.some target)
      else (s, Option.none)

  unfoldable pub tick : Sequencer F → F → Sequencer F × CalAction F
  unfolding settle emit
  tick s now_s = emit (settle s now_s)

  unfoldable pub mean_of : Wrench F → ℕ → Wrench F
  mean_of accum n = record {
    fx = accum.fx ⊘ of_ℕ n;
    fy = accum.fy ⊘ of_ℕ n;
    fz = accum.fz ⊘ of_ℕ n;
    tx = accum.tx ⊘ of_ℕ n;
    ty = accum.ty ⊘ of_ℕ n;
    tz = accum.tz ⊘ of_ℕ n;
  }

module _ {F : Type 0} ⦃d : Double F⦄ (solve : List (Sample F) → PayloadFitResult F) where
  -- After a pose has its sample: the next pose, or the fit.
  unfoldable pub advance : Sequencer F → List (Sample F) → Sequencer F
  unfolding fail
  advance s samples =
      let fit = solve samples in
      if ltb (s.idx + 1) (length s.cfg.poses)
      then record s { estimator = samples; idx = s.idx + 1; phase = moving; goal_pending = true }
      else if not fit.ok
      then fail (record s { estimator = samples; fit = fit }) solve_failed
      else record s { estimator = samples; fit = fit; phase = returning; goal_pending = true }

  -- The end of a pose: its mean goes to the estimator.
  unfoldable pub finish_pose : Sequencer F → Sequencer F
  finish_pose s =
      let p = get_or s.cfg.poses s.idx origin in
      let mean = mean_of s.accum s.cfg.samples_per_pose in
      advance s (add_sample s.estimator p.a p.b p.c mean)

  collect : Sequencer F → Wrench F → Sequencer F
  collect s w =
      let s' = record s { accum = add_wrench s.accum w; sample_count = s.sample_count + 1 } in
      if ltb s'.sample_count s.cfg.samples_per_pose then s' else finish_pose s'

  unfoldable pub on_wrench : Sequencer F → Wrench F → Sequencer F
  unfolding collect
  on_wrench s w = if is_sampling s.phase then collect s w else s
