-- ===== src/Sri/Session/Calls.antt =====
-- The capture of the bias over the calls of `feed`, however the stream is cut into them.
use kuka_iiqka_ros.Prelude.{
  ℕ, ltb, List, [], ◌∷◌, ◌++◌, length, Option, none, some, ◌≡◌, refl, sym, ap, ◌∙◌, subst, arith,
  if◌then◌else◌,
}
use kuka_iiqka_ros.Double.{Double}
use kuka_iiqka_ros.Sfc.Types.{Wrench, zero_wrench}
use kuka_iiqka_ros.Sri.Frame.{FtSample, Assembler}
use kuka_iiqka_ros.Sri.Frame
use kuka_iiqka_ros.Sri.Session.{
  SriSessionConfig, SriWrenchSample, Session, start_zero, finish_zero_capture, capture,
  count_sample, to_wrench, on_sample, on_samples, feed,
}
use kuka_iiqka_ros.Sri.Session.Capture.{
  Captured, Captured-moved, sum_from, on_sample-more, on_sample-last, on_sample-Captured,
}

module _ {F : Type 0} where
  -- The samples that the assembler gives in the calls of `feed`, with the bytes of each and its
  -- time.
  unfoldable pub received : Assembler → List (List ℕ × F) → List FtSample
  received a [] = []
  received a ((bytes, now_s) ∷ calls) =
      let (b, raw) = Frame.feed a bytes 80 in raw ++ received b calls

module _ {F : Type 0} ⦃d : Double F⦄ (two_pi : F) (channel : List ℕ → ℕ → F) where
  unfoldable pub feeds : ℕ → Session F → List (List ℕ × F) → Session F
  feeds max_out s [] = s
  feeds max_out s ((bytes, now_s) ∷ calls) =
      feeds max_out (feed two_pi channel s bytes now_s max_out).0 calls

  -- A session within a capture, that still waits for the samples `r ∷ rs`.
  record Waits (cfg : SriSessionConfig F) (old sum : Wrench F) (todo : List FtSample)
      (t : Session F) : Type 0 where
    cfg_is : t.cfg ≡ cfg
    bias_is : t.bias ≡ old
    sum_is : sum_from two_pi channel t.zero_accum todo ≡ sum
    remaining_is : t.zero_remaining ≡ length todo

  Owes : SriSessionConfig F → Wrench F → Wrench F → List FtSample → Session F → Type 0
  Owes cfg old sum [] t = Captured cfg old sum t
  Owes cfg old sum (r ∷ rs) t = Waits cfg old sum (r ∷ rs) t

  on_sample-Owes :
      (cfg : SriSessionConfig F) (old sum : Wrench F) (now_s : F) (s : Session F) (r : FtSample)
      (rs : List FtSample)
      → Owes cfg old sum (r ∷ rs) s
      → Owes cfg old sum rs (on_sample two_pi channel now_s s r).0
  unfolding Owes sum_from
  on_sample-Owes cfg old sum now_s s r [] w =
      Captured-moved w.cfg_is w.bias_is w.sum_is
        (on_sample-last two_pi channel now_s s r w.remaining_is)
  on_sample-Owes cfg old sum now_s s r (q ∷ qs) w =
      let m = on_sample-more two_pi channel now_s s r (length qs) w.remaining_is in
      record {
        cfg_is = m.cfg_is ∙ w.cfg_is;
        bias_is = m.bias_is ∙ w.bias_is;
        sum_is = ap (λ a. sum_from two_pi channel a (q ∷ qs)) m.accum_is ∙ w.sum_is;
        remaining_is = let a = m.remaining_is in let b = w.remaining_is in omega (arith, a, b);
      }

  -- What is still to come of a capture, where the stream goes on with some samples.
  record Pending (cfg : SriSessionConfig F) (old sum : Wrench F) (stream : List FtSample)
      (t : Session F) : Type 0 where
    todo : List FtSample
    more : List FtSample
    owes : Owes cfg old sum todo t
    splits : stream ≡ todo ++ more

  on_sample-Pending :
      (cfg : SriSessionConfig F) (old sum : Wrench F) (now_s : F) (s : Session F) (x : FtSample)
      (xs todo more : List FtSample)
      → Owes cfg old sum todo s
      → x ∷ xs ≡ todo ++ more
      → Pending cfg old sum xs (on_sample two_pi channel now_s s x).0
  unfolding Owes
  on_sample-Pending cfg old sum now_s s x xs [] more k e = record {
    todo = [];
    more = xs;
    owes = on_sample-Captured two_pi channel now_s s x k;
    splits = refl;
  }
  on_sample-Pending cfg old sum now_s s x xs (r ∷ rs) more w e =
      let same : r ≡ x = cc e in
      record {
        todo = rs;
        more = more;
        owes =
            subst (λ y. Owes cfg old sum rs (on_sample two_pi channel now_s s y).0) same
              (on_sample-Owes cfg old sum now_s s r rs w);
        splits = cc e;
      }

  on_samples-Pending :
      (cfg : SriSessionConfig F) (old sum : Wrench F) (now_s : F) (max_out : ℕ)
      (out : List (SriWrenchSample F)) (raw stream : List FtSample) (s : Session F)
      → Pending cfg old sum (raw ++ stream) s
      → Pending cfg old sum stream (on_samples two_pi channel now_s max_out s out raw).0
  unfolding on_samples
  on_samples-Pending cfg old sum now_s max_out out [] stream s p = p
  on_samples-Pending cfg old sum now_s max_out out (x ∷ xs) stream s p =
      let (t, sample) = on_sample two_pi channel now_s s x in
      on_samples-Pending cfg old sum now_s max_out
        (if ltb (length out) max_out then out ++ (sample ∷ []) else out) xs stream t
        (on_sample-Pending cfg old sum now_s s x (xs ++ stream) p.todo p.more p.owes p.splits)

  count_sample-assembler :
      (s : Session F) (pn : ℕ) (now_s : F) (last : Option ℕ)
      → (count_sample s pn now_s last).assembler ≡ s.assembler
  unfolding count_sample
  count_sample-assembler s pn now_s none = refl
  count_sample-assembler s pn now_s (some last) = refl

  capture-assembler : (s : Session F) (w : Wrench F) → (capture s w).assembler ≡ s.assembler
  unfolding capture finish_zero_capture
  capture-assembler s w = ground arith

  on_samples-assembler :
      (now_s : F) (max_out : ℕ) (raw : List FtSample) (s : Session F)
      (out : List (SriWrenchSample F))
      → (on_samples two_pi channel now_s max_out s out raw).0.assembler ≡ s.assembler
  unfolding on_samples on_sample
  on_samples-assembler now_s max_out [] s out = refl
  on_samples-assembler now_s max_out (r ∷ rs) s out =
      on_samples-assembler now_s max_out rs (on_sample two_pi channel now_s s r).0 _
      ∙ capture-assembler (count_sample s r.package_number now_s s.last_pn)
          (to_wrench two_pi channel r)
      ∙ count_sample-assembler s r.package_number now_s s.last_pn

  Owes-assembler :
      (cfg : SriSessionConfig F) (old sum : Wrench F) (s : Session F) (b : Assembler)
      (todo : List FtSample)
      → Owes cfg old sum todo s
      → Owes cfg old sum todo (record s { assembler = b })
  unfolding Owes
  Owes-assembler cfg old sum s b [] k = record {
    is_over = k.is_over;
    bias_is = k.bias_is;
    ok_is = k.ok_is;
  }
  Owes-assembler cfg old sum s b (r ∷ rs) w = record {
    cfg_is = w.cfg_is;
    bias_is = w.bias_is;
    sum_is = w.sum_is;
    remaining_is = w.remaining_is;
  }

  feeds-Pending :
      (cfg : SriSessionConfig F) (old sum : Wrench F) (max_out : ℕ) (calls : List (List ℕ × F))
      (s : Session F)
      → Pending cfg old sum (received s.assembler calls) s
      → Pending cfg old sum [] (feeds max_out s calls)
  unfolding received feeds feed
  feeds-Pending cfg old sum max_out [] s p = p
  feeds-Pending cfg old sum max_out ((bytes, now_s) ∷ calls) s p =
      let (b, raw) = Frame.feed s.assembler bytes 80 in
      let u = record s { assembler = b } in
      let t = (on_samples two_pi channel now_s max_out u [] raw).0 in
      let q : Pending cfg old sum (raw ++ received b calls) u = record {
        todo = p.todo;
        more = p.more;
        owes = Owes-assembler cfg old sum s b p.todo p.owes;
        splits = p.splits;
      } in
      let r = on_samples-Pending cfg old sum now_s max_out [] raw (received b calls) u q in
      let same : t.assembler ≡ b = on_samples-assembler now_s max_out raw u [] in
      feeds-Pending cfg old sum max_out calls t
        (subst (λ a. Pending cfg old sum (received a calls) t) (sym same) r)

  Owes-done :
      (cfg : SriSessionConfig F) (old sum : Wrench F) (t : Session F) (todo more : List FtSample)
      → Owes cfg old sum todo t
      → [] ≡ todo ++ more
      → Captured cfg old sum t
  unfolding Owes
  Owes-done cfg old sum t [] more k e = k
  Owes-done cfg old sum t (r ∷ rs) more w e = cc e

  -- A capture of the bias, of at least one sample, ends with the sample that makes up the
  -- configured number, over the calls of `feed` that follow its start, with no other call of the
  -- session between them, however the bytes are cut into them and whatever the times: where the
  -- assembler gives at least that number of samples in the calls together, and the mean of just the
  -- first of that number is not a load, that mean is the bias, and the capture is over and reported
  -- a success; if it is a load, the old bias stays, and the capture is over and reported none; the
  -- samples after them change neither.
  pub start_zero-Captured :
      (max_out : ℕ) (s : Session F) (calls : List (List ℕ × F)) (r : FtSample)
      (rs more : List FtSample)
      → received s.assembler calls ≡ (r ∷ rs) ++ more
      → s.cfg.zero_sample_count ≡ length (r ∷ rs)
      → Captured s.cfg s.bias
          (sum_from two_pi channel zero_wrench (r ∷ rs))
          (feeds max_out (start_zero s) calls)
  unfolding start_zero
  start_zero-Captured max_out s calls r rs more splits count =
      let sum = sum_from two_pi channel zero_wrench (r ∷ rs) in
      let owed : Owes s.cfg s.bias sum (r ∷ rs) (start_zero s) =
        unfold Owes in
        record { cfg_is = refl; bias_is = refl; sum_is = refl; remaining_is = count } in
      let p =
        feeds-Pending s.cfg s.bias sum max_out calls (start_zero s)
          (record { todo = r ∷ rs; more = more; owes = owed; splits = splits }) in
      Owes-done s.cfg s.bias sum (feeds max_out (start_zero s) calls) p.todo p.more p.owes p.splits
