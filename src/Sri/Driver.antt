-- ===== src/Sri/Driver.antt =====
-- `SriDriverRuntime` (src/sri_driver_runtime.cpp): the session behind a mutex, which the receiving thread
-- and the services share. Each definition but the last two is a section under the mutex.
mod Zero
mod Tests
use kuka_iiqka_ros.Prelude.{ℕ, ◌+◌, ◌%◌, Bool, true, false, not, ◌==◌, List, [], ◌∷◌, if◌then◌else◌}
use kuka_iiqka_ros.Double.{Double, nought, lt}
use kuka_iiqka_ros.Sri.Session
use kuka_iiqka_ros.Sri.Session.{
  Session, SriSessionConfig, SriStatusSnapshot, SriWrenchSample, fresh, start_zero, cancel_zero,
}

pub record Driver (F : Type 0) : Type 0 where
  pub session : Session F
  pub connected : Bool
  pub was_connected_once : Bool
  pub reconnects : ℕ

pub record SriDriverStatus (F : Type 0) : Type 0 where
  pub connected : Bool
  pub reconnects : ℕ
  pub session : SriStatusSnapshot F

-- What the receiving thread does while `requestZero` sleeps.
pub data Turn (F : Type 0) : Type 0 where
  drops : Turn F
  connects : Turn F
  receives : List ℕ → F → Turn F

module _ {F : Type 0} ⦃d : Double F⦄ where
  unfoldable pub constructed : SriSessionConfig F → Driver F
  constructed cfg = record {
    session = fresh cfg;
    connected = false;
    was_connected_once = false;
    reconnects = 0;
  }

  -- The receiving thread with the link down, and the end of `stop`.
  unfoldable pub on_link_down : Driver F → Driver F
  on_link_down s = record s { connected = false }

  unfoldable pub on_connected : Driver F → Driver F
  on_connected s = record s {
    session = Session.reset s.session;
    connected = true;
    reconnects = if s.was_connected_once then (s.reconnects + 1) % 4294967296 else s.reconnects;
    was_connected_once = true;
  }

  unfoldable pub set_filter_cutoff : Driver F → F → Driver F × Bool
  set_filter_cutoff s cutoff_hz =
      if lt cutoff_hz nought
      then (s, false)
      else (record s { session = Session.set_filter_cutoff s.session cutoff_hz }, true)

  unfoldable pub status : Driver F → F → SriDriverStatus F
  status s now_s = record {
    connected = s.connected;
    reconnects = s.reconnects;
    session = Session.status s.session now_s;
  }

  abbrev pub is_zeroing : Driver F → Bool
  is_zeroing s = not (s.session.zero_remaining == 0)

-- `two_pi` and `channel` are as in the session.
module _ {F : Type 0} ⦃d : Double F⦄ (two_pi : F) (channel : List ℕ → ℕ → F) where
  -- Bytes that came, with room for 80 samples, which go to the callback.
  unfoldable pub on_received : Driver F → List ℕ → F → Driver F × List (SriWrenchSample F)
  on_received s [] now_s = (s, [])
  on_received s (byte ∷ bytes) now_s =
      let (t, samples) = Session.feed two_pi channel s.session (byte ∷ bytes) now_s 80 in
      (record s { session = t }, samples)

  unfoldable pub act : Driver F → List (Turn F) → Driver F
  act s [] = s
  act s (drops ∷ turns) = act (on_link_down s) turns
  act s (connects ∷ turns) = act (on_connected s) turns
  act s (receives bytes now_s ∷ turns) = act (on_received s bytes now_s).0 turns

  -- The loop of `requestZero` and what follows it: one list of turns for each sleep before the deadline.
  unfoldable pub wait_zero : Driver F → List (List (Turn F)) → Driver F × Bool
  wait_zero s [] =
      if not (is_zeroing s)
      then (s, s.session.last_zero_ok)
      else (record s { session = cancel_zero s.session }, false)
  wait_zero s (turns ∷ sleeps) =
      let later = wait_zero (act s turns) sleeps in
      if not (is_zeroing s) then (s, s.session.last_zero_ok) else later

  unfoldable pub request_zero : Driver F → List (List (Turn F)) → Driver F × Bool
  request_zero s sleeps = wait_zero (record s { session = start_zero s.session }) sleeps
