-- ===== src/Sri/Session/Capture.antt =====
-- The samples of a capture of the bias, and those after it.
use kuka_iiqka_ros.Prelude.{
  ℕ, suc, ◌-◌, not, List, [], ◌∷◌, Option, none, some, ◌≡◌, sym, subst, ap, ◌∙◌, arith,
  if◌then◌else◌,
}
use kuka_iiqka_ros.Double.{Double}
use kuka_iiqka_ros.Sfc.Types.{Wrench, add_wrench}
use kuka_iiqka_ros.Sri.Frame.{FtSample}
use kuka_iiqka_ros.Sri.Session.{
  SriSessionConfig, Session, over, is_load, finish_zero_capture, capture, count_sample, to_wrench,
  on_sample,
}

module _ {F : Type 0} ⦃d : Double F⦄ where
  -- A session after a capture with some sum: the mean is the bias, or is rejected as a load and the
  -- old bias kept.
  pub record Captured (cfg : SriSessionConfig F) (old : Wrench F) (sum : Wrench F) (t : Session F)
      : Type 0 where
    pub is_over : t.zero_remaining ≡ 0
    pub bias_is :
        let mean = over sum cfg.zero_sample_count in
        t.bias ≡ (if is_load cfg mean then old else mean)
    pub ok_is : t.last_zero_ok ≡ not (is_load cfg (over sum cfg.zero_sample_count))

  pub Captured-moved :
      {c c' : SriSessionConfig F} {b b' a a' : Wrench F} {t : Session F}
      → c ≡ c'
      → b ≡ b'
      → a ≡ a'
      → Captured c b a t
      → Captured c' b' a' t
  Captured-moved {c' = c'} {b} {b'} {a} {t = t} p q r k =
      subst (λ x. Captured c' b' x t) r
        (subst (λ x. Captured c' x a t) q (subst (λ x. Captured x b a t) p k))

  -- A sample within a capture, that is not its last.
  pub record GoesOn (s : Session F) (w : Wrench F) (t : Session F) : Type 0 where
    pub cfg_is : t.cfg ≡ s.cfg
    pub bias_is : t.bias ≡ s.bias
    pub accum_is : t.zero_accum ≡ add_wrench s.zero_accum w
    pub remaining_is : t.zero_remaining ≡ s.zero_remaining - 1

  capture-more :
      (s : Session F) (w : Wrench F) (k : ℕ)
      → s.zero_remaining ≡ suc (suc k)
      → GoesOn s w (capture s w)
  unfolding capture
  capture-more s w k h = ground arith

  capture-last :
      (s : Session F) (w : Wrench F)
      → s.zero_remaining ≡ 1
      → Captured s.cfg s.bias (add_wrench s.zero_accum w) (capture s w)
  unfolding capture finish_zero_capture
  capture-last s w h = ground arith

  -- The bookkeeping leaves the capture alone.
  record Beside (s t : Session F) : Type 0 where
    same_cfg : t.cfg ≡ s.cfg
    same_bias : t.bias ≡ s.bias
    same_accum : t.zero_accum ≡ s.zero_accum
    same_remaining : t.zero_remaining ≡ s.zero_remaining

  count_sample-Beside :
      (s : Session F) (pn : ℕ) (now_s : F) (last : Option ℕ)
      → Beside s (count_sample s pn now_s last)
  unfolding count_sample
  count_sample-Beside s pn now_s none = ground arith
  count_sample-Beside s pn now_s (some last) = ground arith

  count_sample-Captured :
      {cfg : SriSessionConfig F} {old sum : Wrench F} (s : Session F) (pn : ℕ) (now_s : F)
      (last : Option ℕ)
      → Captured cfg old sum s
      → Captured cfg old sum (count_sample s pn now_s last)
  unfolding count_sample
  count_sample-Captured s pn now_s none k = record {
    is_over = k.is_over;
    bias_is = k.bias_is;
    ok_is = k.ok_is;
  }
  count_sample-Captured s pn now_s (some last) k = record {
    is_over = k.is_over;
    bias_is = k.bias_is;
    ok_is = k.ok_is;
  }

  capture-Captured :
      {cfg : SriSessionConfig F} {old sum : Wrench F} (s : Session F) (w : Wrench F)
      → Captured cfg old sum s
      → Captured cfg old sum (capture s w)
  unfolding capture
  capture-Captured {cfg} {old} {sum} s w k =
      let same : capture s w ≡ s = let h = k.is_over in ground arith in
      subst (Captured cfg old sum) (sym same) k

module _ {F : Type 0} ⦃d : Double F⦄ (two_pi : F) (channel : List ℕ → ℕ → F) where
  unfoldable pub sum_from : Wrench F → List FtSample → Wrench F
  sum_from acc [] = acc
  sum_from acc (r ∷ rs) = sum_from (add_wrench acc (to_wrench two_pi channel r)) rs

  pub on_sample-more :
      (now_s : F) (s : Session F) (r : FtSample) (k : ℕ)
      → s.zero_remaining ≡ suc (suc k)
      → GoesOn s (to_wrench two_pi channel r) (on_sample two_pi channel now_s s r).0
  unfolding on_sample
  on_sample-more now_s s r k h =
      let u = count_sample s r.package_number now_s s.last_pn in
      let b = count_sample-Beside s r.package_number now_s s.last_pn in
      let w = to_wrench two_pi channel r in
      let m = capture-more u w k (b.same_remaining ∙ h) in
      record {
        cfg_is = m.cfg_is ∙ b.same_cfg;
        bias_is = m.bias_is ∙ b.same_bias;
        accum_is = m.accum_is ∙ ap (λ a. add_wrench a w) b.same_accum;
        remaining_is = m.remaining_is ∙ ap (λ n. n - 1) b.same_remaining;
      }

  pub on_sample-last :
      (now_s : F) (s : Session F) (r : FtSample)
      → s.zero_remaining ≡ 1
      → Captured s.cfg s.bias
          (add_wrench s.zero_accum (to_wrench two_pi channel r))
          (on_sample two_pi channel now_s s r).0
  unfolding on_sample
  on_sample-last now_s s r h =
      let u = count_sample s r.package_number now_s s.last_pn in
      let b = count_sample-Beside s r.package_number now_s s.last_pn in
      let w = to_wrench two_pi channel r in
      let m = capture-last u w (b.same_remaining ∙ h) in
      let k = Captured-moved b.same_cfg b.same_bias (ap (λ a. add_wrench a w) b.same_accum) m in
      record { is_over = k.is_over; bias_is = k.bias_is; ok_is = k.ok_is }

  -- A sample after the capture.
  pub on_sample-Captured :
      {cfg : SriSessionConfig F} {old sum : Wrench F} (now_s : F) (s : Session F) (r : FtSample)
      → Captured cfg old sum s
      → Captured cfg old sum (on_sample two_pi channel now_s s r).0
  unfolding on_sample
  on_sample-Captured now_s s r k =
      let u = count_sample s r.package_number now_s s.last_pn in
      let m =
        capture-Captured u (to_wrench two_pi channel r)
          (count_sample-Captured s r.package_number now_s s.last_pn k) in
      record { is_over = m.is_over; bias_is = m.bias_is; ok_is = m.ok_is }
