-- ===== src/Controllers/Gate/Tests.antt =====
-- The gates of both controllers on one stream, and the theorems there.
use kuka_iiqka_ros.Prelude.{ℕ, List, [], ◌∷◌, ◌≡◌, refl}
use kuka_iiqka_ros.Sfc.Types.{direct_cartesian, force_compliance}
use kuka_iiqka_ros.Sfc.Modes.{request_mode, set_profile}
use kuka_iiqka_ros.Controllers.Gate.{
  to_control_mode, to_profile, gate, is_engaged, force_idle, switch_mode, apply_known, apply,
}
use kuka_iiqka_ros.Controllers.Gate.Stream.{Input, request, stopping, feed, feed_all}

abbrev asks : ℕ → ℕ → ℕ → Input
asks mode profile seq = request (record { mode = mode; profile = profile; seq = seq })

-- Compliance with the profile DRAG, a direct mode that is refused, a stop, and the direct mode.
abbrev stream : List Input
stream = asks 2 0 1 ∷ asks 1 1 2 ∷ stopping ∷ asks 9 0 3 ∷ asks 1 1 4 ∷ []

follows : (feed_all (gate force_compliance force_compliance) stream).mgr.mode ≡ direct_cartesian
unfolding feed_all feed apply apply_known switch_mode request_mode set_profile to_control_mode
    to_profile is_engaged force_idle
follows = refl
