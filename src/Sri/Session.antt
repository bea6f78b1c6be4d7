-- ===== src/Sri/Session.antt =====
-- `SriStreamSession` (src/sri_stream_session.cpp): from the bytes of the sensor to wrenches without
-- bias, and the capture of the bias. `channel` reads the float with a number from the bytes of a
-- sample, and `two_pi` is `2.0 * M_PI`.
mod Capture
mod Calls
mod Tests
use kuka_iiqka_ros.Prelude.{
  ℕ, ◌+◌, ◌-◌, ◌%◌, Bool, true, false, not, ◌&&◌, ◌||◌, ◌==◌, ltb, List, [], ◌∷◌, ◌++◌, length,
  Option, none, some, if◌then◌else◌,
}
use kuka_iiqka_ros.Double.{Double, nought, of_ℕ, le, lt, ◌⊖◌, ◌⊘◌}
use kuka_iiqka_ros.Sfc.Types.{Wrench, zero_wrench, add_wrench, force_norm}
use kuka_iiqka_ros.Sfc.Filter.{Filter, filter_at, filter, reset as reset_filter}
use kuka_iiqka_ros.Sri.Frame.{
  FtSample, Assembler, new, reset as reset_assembler, feed as feed_assembler,
}

abbrev u64 : ℕ → ℕ
u64 n = n % 18446744073709551616

-- `zero_sample_count` is an `int`: 0 stands for every value below 1, which captures nothing.
pub record SriSessionConfig (F : Type 0) : Type 0 where
  pub sample_timeout_s : F
  pub nominal_rate_hz : F
  pub zero_sample_count : ℕ
  pub filter_cutoff_hz : F
  pub bias_limit_n : F

pub record SriWrenchSample (F : Type 0) : Type 0 where
  pub w : Wrench F
  pub stamp_s : F
  pub package_number : ℕ

pub record SriStatusSnapshot (F : Type 0) : Type 0 where
  pub streaming : Bool
  pub last_sample_age_s : Option F
  pub samples : ℕ
  pub bad_frames : ℕ
  pub package_gaps : ℕ
  pub zero_active : Bool
  pub zero_rejects : ℕ
  pub filter_cutoff_hz : F
  pub bias : Wrench F

-- `last_sample_s` is `none` where the code has -1, and `last_pn` where `have_last_pn_` is false.
pub record Session (F : Type 0) : Type 0 where
  pub cfg : SriSessionConfig F
  pub assembler : Assembler
  pub lowpass : Filter F
  pub bias : Wrench F
  pub zero_accum : Wrench F
  pub zero_remaining : ℕ
  pub last_zero_ok : Bool
  pub zero_rejects : ℕ
  pub last_pn : Option ℕ
  pub last_sample_s : Option F
  pub samples : ℕ
  pub gaps : ℕ

module _ {F : Type 0} ⦃d : Double F⦄ where
  abbrev pub fresh : SriSessionConfig F → Session F
  fresh cfg = record {
    cfg = cfg;
    assembler = new;
    lowpass = filter_at cfg.filter_cutoff_hz;
    bias = zero_wrench;
    zero_accum = zero_wrench;
    zero_remaining = 0;
    last_zero_ok = false;
    zero_rejects = 0;
    last_pn = none;
    last_sample_s = none;
    samples = 0;
    gaps = 0;
  }

  unfoldable pub reset : Session F → Session F
  reset s = record s {
    assembler = reset_assembler s.assembler;
    lowpass = reset_filter s.lowpass;
    last_pn = none;
    zero_remaining = 0;
    last_zero_ok = false;
  }

  unfoldable pub start_zero : Session F → Session F
  start_zero s = record s { zero_remaining = s.cfg.zero_sample_count; zero_accum = zero_wrench }

  unfoldable pub cancel_zero : Session F → Session F
  cancel_zero s = record s { zero_remaining = 0 }

  unfoldable pub set_filter_cutoff : Session F → F → Session F
  set_filter_cutoff s cutoff_hz =
      let c = s.cfg in
      record s { cfg = record c { filter_cutoff_hz = cutoff_hz }; lowpass = filter_at cutoff_hz }

  unfoldable pub over : Wrench F → ℕ → Wrench F
  over w n = record {
    fx = w.fx ⊘ of_ℕ n;
    fy = w.fy ⊘ of_ℕ n;
    fz = w.fz ⊘ of_ℕ n;
    tx = w.tx ⊘ of_ℕ n;
    ty = w.ty ⊘ of_ℕ n;
    tz = w.tz ⊘ of_ℕ n;
  }

  unfoldable pub less : Wrench F → Wrench F → Wrench F
  less w b = record {
    fx = w.fx ⊖ b.fx;
    fy = w.fy ⊖ b.fy;
    fz = w.fz ⊖ b.fz;
    tx = w.tx ⊖ b.tx;
    ty = w.ty ⊖ b.ty;
    tz = w.tz ⊖ b.tz;
  }

  -- Whether a mean is a load, and not a bias.
  unfoldable pub is_load : SriSessionConfig F → Wrench F → Bool
  is_load cfg mean = lt nought cfg.bias_limit_n && lt cfg.bias_limit_n (force_norm mean)

  unfoldable pub finish_zero_capture : Session F → Session F
  finish_zero_capture s =
      let mean = over s.zero_accum s.cfg.zero_sample_count in
      if is_load s.cfg mean
      then record s { zero_rejects = (s.zero_rejects + 1) % 4294967296; last_zero_ok = false }
      else record s { bias = mean; lowpass = reset_filter s.lowpass; last_zero_ok = true }

  -- The part of a sample that serves the capture.
  unfoldable pub capture : Session F → Wrench F → Session F
  capture s w =
      let t = record s {
        zero_accum = add_wrench s.zero_accum w;
        zero_remaining = s.zero_remaining - 1;
      } in
      if ltb 0 s.zero_remaining
      then if t.zero_remaining == 0 then finish_zero_capture t else t
      else s

  -- The bookkeeping of package numbers and times.
  count_sample : Session F → ℕ → F → Option ℕ → Session F
  count_sample s pn now_s none = record s {
    last_pn = some pn;
    samples = u64 (s.samples + 1);
    last_sample_s = some now_s;
  }
  count_sample s pn now_s (some last) = record s {
    last_pn = some pn;
    samples = u64 (s.samples + 1);
    last_sample_s = some now_s;
    gaps = if not (pn == (last + 1) % 65536) then u64 (s.gaps + 1) else s.gaps;
  }

module _ {F : Type 0} ⦃d : Double F⦄ (two_pi : F) (channel : List ℕ → ℕ → F) where
  unfoldable pub to_wrench : FtSample → Wrench F
  to_wrench r = record {
    fx = channel r.raw 0;
    fy = channel r.raw 1;
    fz = channel r.raw 2;
    tx = channel r.raw 3;
    ty = channel r.raw 4;
    tz = channel r.raw 5;
  }

  -- One sample of the assembler, and the wrench that it gives.
  unfoldable pub on_sample : F → Session F → FtSample → Session F × SriWrenchSample F
  unfolding count_sample
  on_sample now_s s r =
      let w = to_wrench r in
      let t = capture (count_sample s r.package_number now_s s.last_pn) w in
      let (f, filtered) =
        filter two_pi t.lowpass (less w t.bias) (of_ℕ 1 ⊘ t.cfg.nominal_rate_hz) in
      (
        record t { lowpass = f },
        record { w = filtered; stamp_s = now_s; package_number = r.package_number },
      )

  unfoldable pub on_samples :
      F
      → ℕ
      → Session F
      → List (SriWrenchSample F)
      → List FtSample
      → Session F × List (SriWrenchSample F)
  on_samples now_s max_out s out [] = (s, out)
  on_samples now_s max_out s out (r ∷ rs) =
      let (t, sample) = on_sample now_s s r in
      on_samples now_s max_out t (if ltb (length out) max_out then out ++ (sample ∷ []) else out) rs

  -- The assembler gives at most 80 samples for one call.
  unfoldable pub feed : Session F → List ℕ → F → ℕ → Session F × List (SriWrenchSample F)
  feed s bytes now_s max_out =
      let (a, raw) = feed_assembler s.assembler bytes 80 in
      on_samples now_s max_out (record s { assembler = a }) [] raw

module _ {F : Type 0} ⦃d : Double F⦄ where
  -- Whether samples come, and the age of the last.
  unfoldable pub age : Session F → F → Option F → Bool × Option F
  age s now_s none = (false, none)
  age s now_s (some at_s) = (le (now_s ⊖ at_s) s.cfg.sample_timeout_s, some (now_s ⊖ at_s))

  unfoldable pub status : Session F → F → SriStatusSnapshot F
  unfolding age
  status s now_s =
      let (streaming, last_age) = age s now_s s.last_sample_s in
      let stats = s.assembler.stats in
      record {
        streaming = streaming;
        last_sample_age_s = last_age;
        samples = s.samples;
        bad_frames = u64 (stats.bad_checksum + stats.bad_length);
        package_gaps = s.gaps;
        zero_active = ltb 0 s.zero_remaining;
        zero_rejects = s.zero_rejects;
        filter_cutoff_hz = s.cfg.filter_cutoff_hz;
        bias = s.bias;
      }
