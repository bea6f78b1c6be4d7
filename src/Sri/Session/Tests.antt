-- ===== src/Sri/Session/Tests.antt =====
-- A capture of two samples over three calls of `feed`, and the theorem there.
use kuka_iiqka_ros.Prelude.{ℕ, List, [], ◌∷◌, ◌++◌, ◌≡◌, refl, false, replicate, take, drop, get_or}
use kuka_iiqka_ros.Prelude.Int.{pos}
use kuka_iiqka_ros.Double.Fixed.{Fixed, num, fixed_double}
use kuka_iiqka_ros.Sfc.Types.{zero_wrench, force_norm, add_wrench}
use kuka_iiqka_ros.Sri.Frame.{FtSample, new, feed as feed_bytes, step, skip, finish, build_frame}
use kuka_iiqka_ros.Sri.Session.{
  SriSessionConfig, fresh, start_zero, on_sample, on_samples, feed, capture, finish_zero_capture,
  is_load, over, to_wrench,
}
use kuka_iiqka_ros.Sri.Session.Capture.{Captured, sum_from}
use kuka_iiqka_ros.Sri.Session.Calls.{received, feeds, start_zero-Captured}

abbrev n : ℕ → Fixed
n k = num (pos k)

abbrev config : SriSessionConfig Fixed
config = record {
  sample_timeout_s = n 1;
  nominal_rate_hz = n 1;
  zero_sample_count = 2;
  filter_cutoff_hz = n 0;
  bias_limit_n = n 10;
}

-- A float is a byte here.
abbrev channel : List ℕ → ℕ → Fixed
channel raw k = n (get_or raw k 0)

abbrev wrench : ℕ → List ℕ
wrench k = k ∷ replicate 23 0

abbrev sample : ℕ → ℕ → FtSample
sample pn k = record { raw = wrench k; package_number = pn }

-- Three frames, of which the first call of `feed` gets one and a part of the next.
abbrev stream : List ℕ
unfolding build_frame
stream =
    build_frame 1 (wrench 2) false
    ++ (build_frame 2 (wrench 4) false ++ build_frame 3 (wrench 90) false)

abbrev calls : List (List ℕ × Fixed)
calls = (take 40 stream, n 0) ∷ (take 9 (drop 40 stream), n 1) ∷ (drop 49 stream, n 2) ∷ []

gives : received new calls ≡ sample 1 2 ∷ sample 2 4 ∷ sample 3 90 ∷ []
unfolding received feed_bytes step skip finish build_frame
gives = refl

captured : (feeds (n 6) channel 80 (start_zero (fresh config)) calls).bias.fx ≡ n 3
unfolding feeds feed on_samples on_sample capture finish_zero_capture start_zero is_load over
    to_wrench force_norm add_wrench feed_bytes step skip finish build_frame
captured = refl

start_zero-Captured_example :
    Captured config zero_wrench
      (sum_from (n 6) channel zero_wrench (sample 1 2 ∷ sample 2 4 ∷ []))
      (feeds (n 6) channel 80 (start_zero (fresh config)) calls)
start_zero-Captured_example =
    start_zero-Captured (n 6) channel 80 (fresh config) calls (sample 1 2) (sample 2 4 ∷ [])
      (sample 3 90 ∷ []) gives refl
