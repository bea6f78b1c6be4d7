-- ===== src/Controllers/Gate.antt =====
-- `ControllerModeGate` (src/controller_mode_gate.cpp) and the conversions of mode_bridge.h: each
-- controller's view of the stream of mode commands.
mod Stream
mod Tests
use kuka_iiqka_ros.Prelude.{
  ℕ, Bool, true, false, not, ◌&&◌, ◌||◌, ◌==◌, Option, none, some, if◌then◌else◌,
}
use kuka_iiqka_ros.Sfc.Types.{
  ControlMode, idle, direct_cartesian, force_compliance, calibration, Profile, drag, precision,
}
use kuka_iiqka_ros.Sfc.Modes.{ModeSnapshot, no_mode, ◌is_mode◌, request_mode, set_profile}

pub record ModeRequest : Type 0 where
  pub mode : ℕ
  pub profile : ℕ
  pub seq : ℕ

unfoldable pub to_control_mode : ℕ → Option ControlMode
to_control_mode raw =
    if raw == 0
    then some idle
    else if raw == 1
    then some direct_cartesian
    else if raw == 2
    then some force_compliance
    else if raw == 3
    then some calibration
    else none

unfoldable pub to_profile : ℕ → Option Profile
to_profile raw = if raw == 0 then some drag else if raw == 1 then some precision else none

pub record Gate : Type 0 where
  pub mgr : ModeSnapshot
  pub engaged_a : ControlMode
  pub engaged_b : ControlMode
  pub last_seq : ℕ
  pub last_ok : Bool

abbrev pub gate : ControlMode → ControlMode → Gate
gate a b = record { mgr = no_mode; engaged_a = a; engaged_b = b; last_seq = 0; last_ok = true }

unfoldable pub is_engaged : Gate → Bool
is_engaged g = (g.mgr.mode is_mode g.engaged_a) || (g.mgr.mode is_mode g.engaged_b)

unfoldable pub force_idle : Gate → Gate
force_idle g = record g { mgr = (request_mode g.mgr idle).0 }

-- What a request with known values does to the modes: the new ones, and whether it is allowed.
unfoldable pub switch_mode : ModeSnapshot → ControlMode → Profile → ModeSnapshot × Bool
switch_mode s mode profile =
    let (s1, applied) = if s.mode is_mode idle then set_profile s profile else (s, false) in
    let (s2, ok) = request_mode s1 mode in
    (if ok && not applied && (s2.mode is_mode idle) then (set_profile s2 profile).0 else s2, ok)

-- The end of `apply`, for values that were converted, or not.
unfoldable pub apply_known : Gate → Option ControlMode → Option Profile → Gate × Bool
apply_known g none profile = (record g { last_ok = false }, false)
apply_known g (some mode) none = (record g { last_ok = false }, false)
apply_known g (some mode) (some profile) =
    let (s, ok) = switch_mode g.mgr mode profile in
    let h = record g { mgr = s; last_ok = ok } in (h, ok && not (is_engaged g) && is_engaged h)

unfoldable pub apply : Gate → ModeRequest → Gate × Bool
apply g req =
    if (req.seq == 0) || (req.seq == g.last_seq)
    then (g, false)
    else apply_known (record g { last_seq = req.seq }) (to_control_mode req.mode)
        (to_profile req.profile)
