-- ===== src/Sfc/Modes.antt =====
-- `ModeManagerCore` (src/mode_manager_core.cpp): the transitions between the modes.
use kuka_iiqka_ros.Prelude.{ℕ, Bool, true, false, not, ◌||◌, ◌==◌, if◌then◌else◌}
use kuka_iiqka_ros.Sfc.Types.{
  ControlMode, idle, direct_cartesian, force_compliance, calibration, Profile, precision,
}

-- The values of the enumeration, which are also those on the wire.
abbrev pub mode_value : ControlMode → ℕ
mode_value idle = 0
mode_value direct_cartesian = 1
mode_value force_compliance = 2
mode_value calibration = 3

infix 50 ◌is_mode◌
abbrev pub ◌is_mode◌ : ControlMode → ControlMode → Bool
a is_mode b = mode_value a == mode_value b

pub record ModeSnapshot : Type 0 where
  pub mode : ControlMode
  pub profile : Profile

abbrev pub no_mode : ModeSnapshot
no_mode = record { mode = idle; profile = precision }

unfoldable pub request_mode : ModeSnapshot → ControlMode → ModeSnapshot × Bool
request_mode s target =
    let allowed = (target is_mode idle) || (s.mode is_mode idle) in
    if target is_mode s.mode
    then (s, true)
    else (if allowed then record s { mode = target } else s, allowed)

unfoldable pub set_profile : ModeSnapshot → Profile → ModeSnapshot × Bool
set_profile s profile =
    if not (s.mode is_mode idle) then (s, false) else (record s { profile = profile }, true)
