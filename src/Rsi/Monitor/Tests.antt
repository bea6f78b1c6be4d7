-- ===== src/Rsi/Monitor/Tests.antt =====
-- The monitor with a maximum of three misses.
use kuka_iiqka_ros.Prelude.{true, [], ◌∷◌, ◌≡◌, refl}
use kuka_iiqka_ros.Rsi.Monitor.{
  Monitor, no_stats, on_frame, on_timeout, on_bad_frame, clear_fault, reset,
}
use kuka_iiqka_ros.Rsi.Monitor.Runs.{frame, timeout, bad, cleared, wiped, apply, run}

abbrev new : Monitor
new = record { max_consecutive_timeouts = 3; stats = no_stats }

abbrev linked : Monitor
linked = record {
  max_consecutive_timeouts = 3;
  stats = record no_stats { connected = true; last_ipoc = 8 };
}

abbrev faulted : Monitor
faulted = record {
  max_consecutive_timeouts = 3;
  stats = record no_stats { connected = true; has_fault = true; consecutive_timeouts = 3 };
}

a_session :
    let s =
      (run new (timeout ∷ frame 100 ∷ timeout ∷ frame 96 ∷ bad ∷ timeout ∷ timeout ∷ [])).stats in
    (s.has_fault ≡ true)
    × (s.total_timeouts ≡ 3)
    × (s.bad_frames ≡ 1)
    × (s.ipoc_jumps ≡ 1)
    × ((run new (frame 5 ∷ bad ∷ bad ∷ bad ∷ cleared ∷ [])).stats.bad_frames ≡ 3)
    × (run new (frame 5 ∷ bad ∷ wiped ∷ []) ≡ new)
unfolding run apply on_frame on_timeout on_bad_frame clear_fault reset
a_session = (refl, refl, refl, refl, refl, refl)
