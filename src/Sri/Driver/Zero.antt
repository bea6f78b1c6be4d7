-- ===== src/Sri/Driver/Zero.antt =====
-- The end of a request for a new bias.
use kuka_iiqka_ros.Prelude.{ℕ, Bool, false, not, ◌&&◌, List, [], ◌∷◌, ◌≡◌, arith}
use kuka_iiqka_ros.Double.{Double}
use kuka_iiqka_ros.Sri.Session.{start_zero, cancel_zero}
use kuka_iiqka_ros.Sri.Driver.{Driver, Turn, act, is_zeroing, wait_zero, request_zero}

module _ {F : Type 0} ⦃d : Double F⦄ where
  -- No capture goes on, and a success is one of the last capture.
  pub record IsSettled (r : Driver F × Bool) : Type 0 where
    pub stopped : is_zeroing r.0 ≡ false
    pub backed : r.1 && not r.0.session.last_zero_ok ≡ false

module _ {F : Type 0} ⦃d : Double F⦄ (two_pi : F) (channel : List ℕ → ℕ → F) where
  wait_zero-IsSettled :
      (s : Driver F) (sleeps : List (List (Turn F))) → IsSettled (wait_zero two_pi channel s sleeps)
  unfolding wait_zero cancel_zero
  wait_zero-IsSettled s [] = ground arith
  wait_zero-IsSettled s (turns ∷ sleeps) =
      let later = wait_zero-IsSettled (act two_pi channel s turns) sleeps in
      ground (arith, later.stopped, later.backed)

  -- A request for a new bias leaves no capture going on, whatever the receiving thread does while it
  -- waits, and returns true only where the last capture that ended was accepted.
  request_zero-IsSettled :
      (s : Driver F) (sleeps : List (List (Turn F)))
      → IsSettled (request_zero two_pi channel s sleeps)
  unfolding request_zero
  request_zero-IsSettled s sleeps =
      wait_zero-IsSettled (record s { session = start_zero s.session }) sleeps
