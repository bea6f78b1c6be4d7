-- ===== src/Manager/Sequencer/Invariant.antt =====
-- Well-formedness of the sequencer under every call.
use kuka_iiqka_ros.Prelude.{
  ℕ, ◌+◌, ◌<◌, Bool, true, false, List, ◌≡◌, ◌⊎◌, inl, inr, length, arith, ap, ◌∙◌, Bool-cases, ltb,
  ◌≢◌,
}
use kuka_iiqka_ros.Double.{Double}
use kuka_iiqka_ros.Sfc.Types.{Wrench, add_wrench}
use kuka_iiqka_ros.Sfc.Payload.{length-add_sample, PayloadFitResult, Sample}
use kuka_iiqka_ros.Manager.Sequencer.{
  CalPhase, CalFailure, moving, settling, sampling, returning, done, failed, no_failure, Sequencer,
  is_active, fail, cancel, on_stream_lost, on_motion_result, start, settle, emit, tick, on_wrench,
  advance, finish_pose, is_sampling, CalibrationConfig, fresh, stream_lost, cancelled,
}

-- How many poses the estimator has when the sequencer is in a phase, at a pose, of a number of poses.
abbrev SamplesDue : CalPhase → (idx poses : ℕ) → ℕ → Type 0
SamplesDue moving idx poses n = n ≡ idx
SamplesDue settling idx poses n = n ≡ idx
SamplesDue sampling idx poses n = n ≡ idx
SamplesDue returning idx poses n = n ≡ poses
SamplesDue done idx poses n = n ≡ poses
SamplesDue _ idx poses n = Unit {0}

module _ {F : Type 0} where
  pub record Inv (s : Sequencer F) : Type 0 where
    pub pose_in_range : is_active s.phase ≡ true → s.idx < length s.cfg.poses
    pub samples_wanted : is_active s.phase ≡ true → 0 < s.cfg.samples_per_pose
    pub samples_short : s.phase ≡ sampling → s.sample_count < s.cfg.samples_per_pose
    pub goal_phase : s.goal_pending ≡ true → (s.phase ≡ moving) ⊎ (s.phase ≡ returning)
    pub estimator_due : SamplesDue s.phase s.idx (length s.cfg.poses) (length s.estimator)
    pub fit_ok : (s.phase ≡ returning) ⊎ (s.phase ≡ done) → s.fit.ok ≡ true
    pub failure_iff :
        (s.phase ≡ failed → s.failure ≢ no_failure) × (s.failure ≢ no_failure → s.phase ≡ failed)

  fail-Inv : (s : Sequencer F) (f : CalFailure) → Inv s → f ≢ no_failure → Inv (fail s f)
  unfolding fail
  fail-Inv s f v n = ground arith

  -- A motion result answers a goal that was sent, so none is pending.
  on_motion_result-Inv :
      (s : Sequencer F) (success : Bool) (now : F)
      → s.goal_pending ≡ false
      → Inv s
      → Inv (on_motion_result s success now)
  unfolding on_motion_result
  on_motion_result-Inv s success now sent v = ground arith

module _ {F : Type 0} ⦃d : Double F⦄ where
  start-Inv : (s : Sequencer F) → Inv s → Inv (start s).0
  unfolding start
  start-Inv s v = ground arith

  settle-Inv : (s : Sequencer F) (now : F) → Inv s → Inv (settle s now)
  unfolding settle
  settle-Inv s now v = ground arith

  emit-Inv : (s : Sequencer F) → Inv s → Inv (emit s).0
  unfolding emit
  emit-Inv s v = ground arith

  tick-Inv : (s : Sequencer F) (now : F) → Inv s → Inv (tick s now).0
  unfolding tick
  tick-Inv s now v = emit-Inv (settle s now) (settle-Inv s now v)

module _ {F : Type 0} ⦃d : Double F⦄ (solve : List (Sample F) → PayloadFitResult F) where
  advance-Inv :
      (s : Sequencer F) (samples : List (Sample F))
      → s.phase ≡ sampling
      → s.failure ≡ no_failure
      → s.idx < length s.cfg.poses
      → 0 < s.cfg.samples_per_pose
      → length samples ≡ s.idx + 1
      → Inv (advance solve s samples)
  unfolding advance
  advance-Inv s samples p f r k n = ground arith

  -- `s.sample_count` may have reached `samples_per_pose`, so `Inv s` is not assumed as a whole.
  finish_pose-Inv :
      (s : Sequencer F)
      → s.phase ≡ sampling
      → s.failure ≡ no_failure
      → s.idx < length s.cfg.poses
      → 0 < s.cfg.samples_per_pose
      → length s.estimator ≡ s.idx
      → Inv (finish_pose solve s)
  unfolding finish_pose
  finish_pose-Inv s p f r k n =
      advance-Inv s _ p f r k (length-add_sample s.estimator _ _ _ _ ∙ ap (λ m. m + 1) n)

  sampling_facts :
      (s : Sequencer F)
      → s.phase ≡ sampling
      → Inv s
      → (s.failure ≡ no_failure)
        × (s.idx < length s.cfg.poses)
        × (0 < s.cfg.samples_per_pose)
        × (length s.estimator ≡ s.idx)
        × (s.goal_pending ≡ false)
  sampling_facts s p v = ground arith

  on_wrench-Inv : (s : Sequencer F) (w : Wrench F) → Inv s → Inv (on_wrench solve s w)
  unfolding on_wrench
  on_wrench-Inv s w v = elim (Bool-cases (is_sampling s.phase)) [
    | inr other ↦ rw other v
    | inl here ↦
        let p : s.phase ≡ sampling = ground arith in
        let (f, r, k, n, g) = sampling_facts s p v in
        let s' : Sequencer F = record s {
          accum = add_wrench s.accum w;
          sample_count = s.sample_count + 1;
        } in
        elim (Bool-cases (ltb (s.sample_count + 1) s.cfg.samples_per_pose)) [
          | inl more ↦ rw (here, more) (ground arith)
          | inr last ↦ rw (here, last) (finish_pose-Inv s' p f r k n)
        ]
  ]

  -- The calls of the runtime. A motion result comes only for a goal that was sent.
  pub data Step : Sequencer F → Sequencer F → Type 0 where
    starts : (s : Sequencer F) → Step s (start s).0
    ticks : (s : Sequencer F) (now : F) → Step s (tick s now).0
    arrives :
        (s : Sequencer F) (success : Bool) (now : F)
        → s.goal_pending ≡ false
        → Step s (on_motion_result s success now)
    feels : (s : Sequencer F) (w : Wrench F) → Step s (on_wrench solve s w)
    loses : (s : Sequencer F) → Step s (on_stream_lost s)
    cancels : (s : Sequencer F) → Step s (cancel s)

  pub data Reach (s : Sequencer F) : Sequencer F → Type 0 where
    here : Reach s s
    next : {t u : Sequencer F} → Reach s t → Step t u → Reach s u

  Step-Inv : {s t : Sequencer F} → Step s t → Inv s → Inv t
  unfolding on_stream_lost cancel
  Step-Inv (starts s) v = start-Inv s v
  Step-Inv (ticks s now) v = tick-Inv s now v
  Step-Inv (arrives s success now sent) v = on_motion_result-Inv s success now sent v
  Step-Inv (feels s w) v = on_wrench-Inv s w v
  Step-Inv (loses s) v = fail-Inv s stream_lost v (λ e. cc)
  Step-Inv (cancels s) v = fail-Inv s cancelled v (λ e. cc)

  Reach-Inv : {s t : Sequencer F} → Reach s t → Inv s → Inv t
  Reach-Inv here v = v
  Reach-Inv (next r st) v = Step-Inv st (Reach-Inv r v)

  -- Every state that a new sequencer reaches, by any calls in any order, is well formed, if motion
  -- results answer goals that were sent: while it is active the pose index is in range; in MOVING,
  -- SETTLING and SAMPLING the estimator has a sample for each pose before the index, and in
  -- RETURNING and DONE one for every pose, with a fit that is ok; a goal waits only in MOVING and
  -- RETURNING; and a failure is recorded exactly in FAILED.
  pub fresh-Reach-Inv : (cfg : CalibrationConfig F) {t : Sequencer F} → Reach (fresh cfg) t → Inv t
  fresh-Reach-Inv cfg r = Reach-Inv r (ground arith)
