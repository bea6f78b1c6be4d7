-- ===== src/Eki/Session.antt =====
-- `EkiSessionCore` (src/eki_session_core.cpp) and the frames of the management channel (eki_frame.h):
-- one command in flight at a time, which a state frame with its number answers.
pub mod Answers
use kuka_iiqka_ros.Prelude.{
  ℕ, ◌+◌, ◌%◌, Bool, true, false, not, ◌&&◌, ◌==◌, Option, none, some, if◌then◌else◌,
}
use kuka_iiqka_ros.Prelude.Int.{ℤ, pos}
use kuka_iiqka_ros.Double.{Double, nought, le, lt, ◌⊖◌}

abbrev pub u64 : ℕ → ℕ
u64 n = n % 18446744073709551616

pub record Frame6 (F : Type 0) : Type 0 where
  pub x : F
  pub y : F
  pub z : F
  pub a : F
  pub b : F
  pub c : F

pub record EkiStateFrame (F : Type 0) : Type 0 where
  pub ack_seq : ℕ
  pub ack_ok : Bool
  pub ack_code : ℤ
  pub ready : Bool
  pub rsi_active : Bool
  pub has_fault : Bool
  pub mode : ℤ
  pub tool : Frame6 F
  pub valid : Bool

pub record EkiSessionConfig (F : Type 0) : Type 0 where
  pub response_timeout_s : F
  pub state_timeout_s : F

pub data CommandOutcome : Type 0 where
  no_outcome accepted rejected timed_out : CommandOutcome

-- `state_age_s` is `none` where the code has -1.
pub record EkiSessionSnapshot (F : Type 0) : Type 0 where
  pub state_fresh : Bool
  pub state_age_s : Option F
  pub last_state : EkiStateFrame F
  pub states : ℕ
  pub bad_frames : ℕ
  pub timeouts : ℕ

-- `last_state_s` is `none` where the code has -1, before the first frame.
pub record Session (F : Type 0) : Type 0 where
  pub cfg : EkiSessionConfig F
  pub pending : Bool
  pub pending_seq : ℕ
  pub pending_since_s : F
  pub last_state : EkiStateFrame F
  pub last_state_s : Option F
  pub states : ℕ
  pub bad_frames : ℕ
  pub timeouts : ℕ

module _ {F : Type 0} where
  unfoldable pub begin_command : Session F → ℕ → F → Session F × Bool
  begin_command s seq now_s =
      if s.pending
      then (s, false)
      else (record s { pending = true; pending_seq = seq; pending_since_s = now_s }, true)

  unfoldable pub on_state : Session F → EkiStateFrame F → F → Session F × CommandOutcome
  on_state s f now_s =
      let t = record s { states = u64 (s.states + 1); last_state = f; last_state_s = some now_s } in
      if s.pending && (f.ack_seq == s.pending_seq) && not (f.ack_seq == 0)
      then (record t { pending = false }, if f.ack_ok then accepted else rejected)
      else (t, no_outcome)

  unfoldable pub on_bad_frame : Session F → Session F
  on_bad_frame s = record s { bad_frames = u64 (s.bad_frames + 1) }

module _ {F : Type 0} ⦃d : Double F⦄ where
  abbrev pub no_frame6 : Frame6 F
  no_frame6 = record { x = nought; y = nought; z = nought; a = nought; b = nought; c = nought }

  -- `EkiStateFrame{}`.
  abbrev pub no_state : EkiStateFrame F
  no_state = record {
    ack_seq = 0;
    ack_ok = false;
    ack_code = pos 0;
    ready = false;
    rsi_active = false;
    has_fault = false;
    mode = pos 0;
    tool = no_frame6;
    valid = false;
  }

  abbrev pub fresh : EkiSessionConfig F → Session F
  fresh cfg = record {
    cfg = cfg;
    pending = false;
    pending_seq = 0;
    pending_since_s = nought;
    last_state = no_state;
    last_state_s = none;
    states = 0;
    bad_frames = 0;
    timeouts = 0;
  }

  unfoldable pub reset : Session F → Session F × CommandOutcome
  reset s =
      let t = record s { pending = false; last_state_s = none; last_state = no_state } in
      if s.pending
      then (record t { timeouts = u64 (s.timeouts + 1) }, timed_out)
      else (t, no_outcome)

  unfoldable pub tick : Session F → F → Session F × CommandOutcome
  tick s now_s =
      if s.pending && lt s.cfg.response_timeout_s (now_s ⊖ s.pending_since_s)
      then (record s { pending = false; timeouts = u64 (s.timeouts + 1) }, timed_out)
      else (s, no_outcome)

  -- Whether the last state is fresh, and its age.
  freshness : Session F → F → Option F → Bool × Option F
  freshness s now_s none = (false, none)
  freshness s now_s (some at_s) = let age = now_s ⊖ at_s in (le age s.cfg.state_timeout_s, some age)

  unfoldable pub snapshot : Session F → F → EkiSessionSnapshot F
  unfolding freshness
  snapshot s now_s =
      let (is_fresh, age) = freshness s now_s s.last_state_s in
      record {
        state_fresh = is_fresh;
        state_age_s = age;
        last_state = s.last_state;
        states = s.states;
        bad_frames = s.bad_frames;
        timeouts = s.timeouts;
      }
