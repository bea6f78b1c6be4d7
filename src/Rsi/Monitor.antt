-- ===== src/Rsi/Monitor.antt =====
-- `RsiSessionMonitor` (src/rsi_session_monitor.cpp): the health of the RSI link, with a fault that
-- latches after a run of missed cycles.
mod Runs
mod Tests
use kuka_iiqka_ros.Prelude.{ℕ, ◌+◌, ◌%◌, ◌^◌, Bool, true, false, ◌&&◌, leb, if◌then◌else◌}

-- `unsigned` and `std::uint64_t` wrap.
abbrev pub u32 : ℕ → ℕ
u32 n = n % 4294967296

abbrev pub u64 : ℕ → ℕ
u64 n = n % 18446744073709551616

pub record SessionStats : Type 0 where
  pub connected : Bool
  pub has_fault : Bool
  pub last_ipoc : ℕ
  pub total_timeouts : ℕ
  pub consecutive_timeouts : ℕ
  pub bad_frames : ℕ
  pub ipoc_jumps : ℕ

pub record Monitor : Type 0 where
  pub max_consecutive_timeouts : ℕ
  pub stats : SessionStats

abbrev pub no_stats : SessionStats
no_stats = record {
  connected = false;
  has_fault = false;
  last_ipoc = 0;
  total_timeouts = 0;
  consecutive_timeouts = 0;
  bad_frames = 0;
  ipoc_jumps = 0;
}

-- `frame.ipoc` is all that the monitor reads of a frame.
unfoldable pub on_frame : Monitor → ℕ → Monitor
on_frame m ipoc =
    let s = m.stats in
    let jumped = s.connected && leb ipoc s.last_ipoc in
    record m {
      stats = record s {
        ipoc_jumps = if jumped then u64 (s.ipoc_jumps + 1) else s.ipoc_jumps;
        last_ipoc = ipoc;
        connected = true;
        consecutive_timeouts = 0;
      };
    }

count_miss : Monitor → Monitor
count_miss m =
    let s = m.stats in
    let missed = u32 (s.consecutive_timeouts + 1) in
    record m {
      stats = record s {
        consecutive_timeouts = missed;
        has_fault = if leb m.max_consecutive_timeouts missed then true else s.has_fault;
      };
    }

unfoldable pub on_timeout : Monitor → Monitor
unfolding count_miss
on_timeout m =
    let s = m.stats in
    if s.connected
    then count_miss (record m { stats = record s { total_timeouts = u64 (s.total_timeouts + 1) } })
    else m

unfoldable pub on_bad_frame : Monitor → Monitor
unfolding count_miss
on_bad_frame m =
    let s = m.stats in
    if s.connected
    then count_miss (record m { stats = record s { bad_frames = u64 (s.bad_frames + 1) } })
    else m

unfoldable pub reset : Monitor → Monitor
reset m = record m { stats = no_stats }

unfoldable pub clear_fault : Monitor → Monitor
clear_fault m =
    let s = m.stats in record m { stats = record s { has_fault = false; consecutive_timeouts = 0 } }
