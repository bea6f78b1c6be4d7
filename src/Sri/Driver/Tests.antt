-- ===== src/Sri/Driver/Tests.antt =====
-- The driver with whole numbers, while its link drops and comes back.
use kuka_iiqka_ros.Prelude.{ℕ, List, [], ◌∷◌, false, ◌≡◌, refl}
use kuka_iiqka_ros.Prelude.Int.{pos}
use kuka_iiqka_ros.Double.Fixed.{Fixed, num, fixed_double}
use kuka_iiqka_ros.Sri.Session
use kuka_iiqka_ros.Sri.Session.{SriSessionConfig, start_zero}
use kuka_iiqka_ros.Sri.Driver.{
  Turn, drops, connects, constructed, on_link_down, on_connected, act, wait_zero, request_zero,
}

abbrev config : SriSessionConfig Fixed
config = record {
  sample_timeout_s = num (pos 1);
  nominal_rate_hz = num (pos 100);
  zero_sample_count = 3;
  filter_cutoff_hz = num (pos 0);
  bias_limit_n = num (pos 50);
}

abbrev channel : List ℕ → ℕ → Fixed
channel bytes i = num (pos 0)

abbrev sleeps : List (List (Turn Fixed))
sleeps = [] ∷ (drops ∷ connects ∷ []) ∷ [] ∷ []

-- The new connection ends the capture, with no bias.
gives_up : (request_zero (num (pos 6)) channel (constructed config) sleeps).1 ≡ false
unfolding request_zero wait_zero act on_link_down on_connected constructed Session.reset start_zero
gives_up = refl
