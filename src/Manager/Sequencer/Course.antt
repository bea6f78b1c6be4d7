-- ===== src/Manager/Sequencer/Course.antt =====
-- A calibration that runs to its end.
use kuka_iiqka_ros.Prelude.{
  ℕ, suc, ◌+◌, ◌<◌, true, false, List, [], ◌∷◌, ◌++◌, ◌≡◌, refl, sym, ap, ◌∙◌, length, arith,
  get_or, All, length-append, get_or-append, subst, ap₂,
}
use mathlib.Core.List.{append_assoc}
use kuka_iiqka_ros.Double.{Double, le, ◌⊖◌}
use kuka_iiqka_ros.Sfc.Types.{Wrench, zero_wrench, add_wrench}
use kuka_iiqka_ros.Sfc.Payload.{PayloadFitResult, Sample, add_sample}
use kuka_iiqka_ros.Manager.Sequencer.{
  CalPose, CalibrationConfig, moving, sampling, returning, failed, solve_failed, Sequencer,
  on_motion_result, start, tick, on_wrench, advance, finish_pose, mean_of, origin,
}

-- What happens at one pose: when the goal was sent, when the arm arrived, when it had settled, and
-- the wrenches that came then.
pub record Visit (F : Type 0) : Type 0 where
  pub sent : F
  pub arrived : F
  pub settled : F
  pub wrenches : List (Wrench F)

module _ {F : Type 0} ⦃d : Double F⦄ where
  unfoldable pub sum_from : Wrench F → List (Wrench F) → Wrench F
  sum_from acc [] = acc
  sum_from acc (w ∷ ws) = sum_from (add_wrench acc w) ws

  -- The settling time has passed, and there are as many wrenches as the configuration wants.
  pub record IsVisit (cfg : CalibrationConfig F) (v : Visit F) : Type 0 where
    pub rested : le cfg.settle_time_s (v.settled ⊖ v.arrived) ≡ true
    pub enough : length v.wrenches ≡ cfg.samples_per_pose

  -- The sample that the estimator should have of a pose.
  unfoldable pub measured : ℕ → CalPose F → Visit F → Sample F
  measured n p v = record {
    a = p.a;
    b = p.b;
    c = p.c;
    w = mean_of (sum_from zero_wrench v.wrenches) n;
  }

  unfoldable pub measurements : ℕ → List (CalPose F) → List (Visit F) → List (Sample F)
  measurements n (p ∷ ps) (v ∷ vs) = measured n p v ∷ measurements n ps vs
  measurements n _ _ = []

module _ {F : Type 0} ⦃d : Double F⦄ (solve : List (Sample F) → PayloadFitResult F) where
  unfoldable pub feed : Sequencer F → List (Wrench F) → Sequencer F
  feed s [] = s
  feed s (w ∷ ws) = feed (on_wrench solve s w) ws

  unfoldable pub visit : Sequencer F → Visit F → Sequencer F
  visit s v = feed (tick (on_motion_result (tick s v.sent).0 true v.arrived) v.settled).0 v.wrenches

  unfoldable pub visits : Sequencer F → List (Visit F) → Sequencer F
  visits s [] = s
  visits s (v ∷ vs) = visits (visit s v) vs

  on_wrench-more :
      (s : Sequencer F) (w : Wrench F)
      → s.phase ≡ sampling
      → s.sample_count + 1 < s.cfg.samples_per_pose
      → on_wrench solve s w
        ≡ record s { accum = add_wrench s.accum w; sample_count = s.sample_count + 1 }
  unfolding on_wrench
  on_wrench-more s w p h = ground arith

  on_wrench-last :
      (s : Sequencer F) (w : Wrench F)
      → s.phase ≡ sampling
      → s.sample_count + 1 ≡ s.cfg.samples_per_pose
      → on_wrench solve s w
        ≡ finish_pose solve
            (record s { accum = add_wrench s.accum w; sample_count = s.cfg.samples_per_pose })
  unfolding on_wrench
  on_wrench-last s w p h = ground arith

  feed_lem :
      (s : Sequencer F) (w : Wrench F) (ws : List (Wrench F))
      → s.phase ≡ sampling
      → s.sample_count + length (w ∷ ws) ≡ s.cfg.samples_per_pose
      → feed s (w ∷ ws)
        ≡ finish_pose solve
            (record s { accum = sum_from s.accum (w ∷ ws); sample_count = s.cfg.samples_per_pose })
  unfolding feed sum_from
  feed_lem s w [] p h = on_wrench-last s w p (omega arith)
  feed_lem s w (u ∷ ws) p h = rw (on_wrench-more s w p (omega arith)) (
      feed_lem (record s { accum = add_wrench s.accum w; sample_count = s.sample_count + 1 }) u ws p
        (omega arith))

  feed_all :
      (s : Sequencer F) (ws : List (Wrench F))
      → s.phase ≡ sampling
      → s.sample_count ≡ 0
      → length ws ≡ s.cfg.samples_per_pose
      → 0 < s.cfg.samples_per_pose
      → feed s ws
        ≡ finish_pose solve
            (record s { accum = sum_from s.accum ws; sample_count = s.cfg.samples_per_pose })
  feed_all s [] p z h k = absurd (omega arith)
  feed_all s (w ∷ ws) p z h k = feed_lem s w ws p (omega arith)

  -- The sequencer waits for the goal of its pose to be sent.
  record AtPose (s : Sequencer F) : Type 0 where
    phase_moving : s.phase ≡ moving
    pending : s.goal_pending ≡ true
    wanted : 0 < s.cfg.samples_per_pose

  settled_state : Sequencer F → Visit F → Sequencer F
  settled_state s v = record s {
    phase = sampling;
    goal_pending = false;
    settle_start_s = v.arrived;
    sample_count = 0;
    accum = zero_wrench;
  }

  arrive_lem :
      (s : Sequencer F) (v : Visit F)
      → AtPose s
      → IsVisit s.cfg v
      → (tick (on_motion_result (tick s v.sent).0 true v.arrived) v.settled).0 ≡ settled_state s v
  unfolding tick on_motion_result settled_state
  arrive_lem s v a i = ground arith

  after_visit : Sequencer F → Visit F → Sequencer F
  after_visit s v = record s {
    phase = sampling;
    goal_pending = false;
    settle_start_s = v.arrived;
    sample_count = s.cfg.samples_per_pose;
    accum = sum_from zero_wrench v.wrenches;
  }

  visit_lem :
      (s : Sequencer F) (v : Visit F)
      → AtPose s
      → IsVisit s.cfg v
      → visit s v ≡ finish_pose solve (after_visit s v)
  unfolding visit after_visit
  visit_lem s v a i =
      rw (arrive_lem s v a i) (
        unfold settled_state in feed_all (settled_state s v) v.wrenches refl refl i.enough a.wanted)

  -- Not the last pose: on to the next.
  visit-next :
      (s : Sequencer F) (v : Visit F)
      → AtPose s
      → IsVisit s.cfg v
      → suc s.idx < length s.cfg.poses
      → let t = visit s v in
        AtPose t
        × (t.cfg ≡ s.cfg)
        × (t.idx ≡ suc s.idx)
        × (t.estimator
            ≡ s.estimator
              ++ (measured s.cfg.samples_per_pose (get_or s.cfg.poses s.idx origin) v ∷ []))
  visit-next s v a i h =
      rw (visit_lem s v a i)
        (unfold finish_pose advance add_sample after_visit measured in ground arith)

  -- What the calibration has come to after its last pose, by the estimator's samples.
  pub record Solved (s : Sequencer F) (samples : List (Sample F)) : Type 0 where
    pub estimator_is : s.estimator ≡ samples
    pub fit_is : s.fit ≡ solve samples
    pub returns : (solve samples).ok ≡ true → (s.phase ≡ returning) × (s.goal_pending ≡ true)
    pub fails : (solve samples).ok ≡ false → (s.phase ≡ failed) × (s.failure ≡ solve_failed)

  visit-last :
      (s : Sequencer F) (v : Visit F)
      → AtPose s
      → IsVisit s.cfg v
      → suc s.idx ≡ length s.cfg.poses
      → Solved (visit s v) (
          s.estimator ++ (measured s.cfg.samples_per_pose (get_or s.cfg.poses s.idx origin) v ∷ []))
  visit-last s v a i h =
      rw (visit_lem s v a i)
        (unfold finish_pose advance add_sample after_visit measured in ground arith)

  pose_here :
      (cfg : CalibrationConfig F) (before : List (CalPose F)) (p : CalPose F)
      (rest : List (CalPose F)) (s : Sequencer F)
      → s.cfg ≡ cfg
      → cfg.poses ≡ before ++ (p ∷ rest)
      → s.idx ≡ length before
      → (get_or s.cfg.poses s.idx origin ≡ p)
        × (length s.cfg.poses ≡ s.idx + suc (length rest))
        × (s.cfg.samples_per_pose ≡ cfg.samples_per_pose)
  pose_here cfg before p rest s c e k = (
    rw (c, e, k) (get_or-append before p rest origin),
    rw (c, e, k) (length-append before (p ∷ rest)),
    rw c,
  )

  visits_from :
      (cfg : CalibrationConfig F) (before : List (CalPose F)) (p : CalPose F)
      (rest : List (CalPose F)) (v : Visit F) (vs : List (Visit F)) (s : Sequencer F)
      → AtPose s
      → s.cfg ≡ cfg
      → cfg.poses ≡ before ++ (p ∷ rest)
      → s.idx ≡ length before
      → length vs ≡ length rest
      → All (IsVisit cfg) (v ∷ vs)
      → Solved
          (visits s (v ∷ vs))
          (s.estimator ++ measurements cfg.samples_per_pose (p ∷ rest) (v ∷ vs))
  unfolding visits measurements
  visits_from cfg before p [] v [] s a c e k n (i, _) =
      let (pose, size, count) = pose_here cfg before p [] s c e k in
      subst (λ m. Solved (visit s v) (s.estimator ++ (m ∷ [])))
        (ap₂ (λ m r. measured m r v) count pose)
        (visit-last s v a (subst (λ x. IsVisit x v) (sym c) i) (omega arith))
  visits_from cfg before p [] v (u ∷ vs) s a c e k n i = absurd (omega arith)
  visits_from cfg before p (q ∷ rest) v [] s a c e k n i = absurd (omega arith)
  visits_from cfg before p (q ∷ rest) v (u ∷ vs) s a c e k n (i, is) =
      let (pose, size, count) = pose_here cfg before p (q ∷ rest) s c e k in
      let (at, same, up, sampled) =
        visit-next s v a (subst (λ x. IsVisit x v) (sym c) i) (omega arith) in
      let later =
        visits_from cfg (before ++ (p ∷ [])) q rest u vs (visit s v) at (same ∙ c)
          (e ∙ sym (append_assoc before (p ∷ []) (q ∷ rest)))
          (omega (arith, length-append before (p ∷ []))) (omega arith) is in
      let now = sampled ∙ ap₂ (λ m r. s.estimator ++ (measured m r v ∷ [])) count pose in
      let ahead = measurements cfg.samples_per_pose (q ∷ rest) (u ∷ vs) in
      subst (Solved (visits (visit s v) (u ∷ vs)))
        (ap (λ l. l ++ ahead) now ∙ append_assoc _ _ ahead) later

  visits_of_poses :
      (cfg : CalibrationConfig F) (ps : List (CalPose F)) (vs : List (Visit F)) (s : Sequencer F)
      → AtPose s
      → s.cfg ≡ cfg
      → cfg.poses ≡ ps
      → s.idx ≡ 0
      → s.estimator ≡ []
      → 0 < length ps
      → length vs ≡ length ps
      → All (IsVisit cfg) vs
      → Solved (visits s vs) (measurements cfg.samples_per_pose ps vs)
  visits_of_poses cfg [] vs s a c e k m z n is = absurd (omega arith)
  visits_of_poses cfg (p ∷ ps) [] s a c e k m z n is = absurd (omega arith)
  visits_of_poses cfg (p ∷ ps) (v ∷ vs) s a c e k m z n is =
      subst
        (λ l. Solved (visits s (v ∷ vs)) (l ++ measurements cfg.samples_per_pose (p ∷ ps) (v ∷ vs)))
        m (visits_from cfg [] p ps v vs s a c e k (omega arith) is)

  start-AtPose :
      (s : Sequencer F)
      → (start s).1 ≡ true
      → let t = (start s).0 in
        AtPose t × (t.cfg ≡ s.cfg) × (t.idx ≡ 0) × (t.estimator ≡ []) × (0 < length s.cfg.poses)
  unfolding start
  start-AtPose s h = ground arith

  -- A calibration that starts, whose every move succeeds, whose arm rests for the settling time at
  -- each pose, and which then feels as many wrenches as the configuration wants, comes to its end
  -- after the last pose: the estimator has for each pose, in order, the mean of just the wrenches
  -- felt there; the fit is the one of these samples; and the sequencer returns, with the goal of the
  -- return waiting, if the fit is ok, and otherwise has failed with SOLVE_FAILED.
  pub visits_complete :
      (s : Sequencer F) (vs : List (Visit F))
      → (start s).1 ≡ true
      → length vs ≡ length s.cfg.poses
      → All (IsVisit s.cfg) vs
      → Solved (visits (start s).0 vs) (measurements s.cfg.samples_per_pose s.cfg.poses vs)
  visits_complete s vs h n is =
      let (a, c, k, m, z) = start-AtPose s h in
      visits_of_poses s.cfg s.cfg.poses vs (start s).0 a c refl k m z n is
