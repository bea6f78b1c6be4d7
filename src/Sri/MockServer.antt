-- ===== src/Sri/MockServer.antt =====
-- `SriMockServer` (src/sri_mock_server.cpp): the simulated sensor, with the bytes that its client has
-- got, where the system takes every byte that it sends.
mod Script
mod Sends
mod Streams
mod Tests
use kuka_iiqka_ros.Prelude.{
  ℕ, zero, suc, ◌+◌, ◌%◌, Bool, true, false, not, ◌||◌, Option, none, some, List, [], ◌∷◌, ◌++◌,
  if◌then◌else◌,
}
use kuka_iiqka_ros.Eki.Splitter.{find}
use kuka_iiqka_ros.Sri.Frame.{build_frame, u64}

-- `connected` is `client_fd_ >= 0`, and `sent` the bytes on the connection of the present client, or
-- of the last one. `wrench` has the 24 bytes of the six numbers.
pub record MockServer : Type 0 where
  pub require_start_command : Bool
  pub connected : Bool
  pub streaming : Bool
  pub frames_sent : ℕ
  pub wrench : List ℕ
  pub pn : ℕ
  pub sent : List ℕ

-- The bytes of `AT+GSD`, and of `ACK+GSD=OK` with the end of the line.
unfoldable pub start_command : List ℕ
start_command = 65 ∷ 84 ∷ 43 ∷ 71 ∷ 83 ∷ 68 ∷ []

abbrev pub ack : List ℕ
ack = 65 ∷ 67 ∷ 75 ∷ 43 ∷ 71 ∷ 83 ∷ 68 ∷ 61 ∷ 79 ∷ 75 ∷ 13 ∷ 10 ∷ []

abbrev pub next_pn : ℕ → ℕ
next_pn pn = (pn + 1) % 65536

unfoldable pub send_locked : MockServer → List ℕ → MockServer
send_locked s bytes = if not s.connected then s else record s { sent = s.sent ++ bytes }

-- A frame that is built and sent.
unfoldable pub send_frame : MockServer → Bool → MockServer
send_frame s corrupt =
    send_locked (record s { pn = next_pn s.pn }) (build_frame (next_pn s.pn) s.wrench corrupt)

unfoldable pub count_frame : MockServer → MockServer
count_frame s = record s { frames_sent = u64 (s.frames_sent + 1) }

unfoldable pub may_send : MockServer → Bool
may_send s = s.streaming || not s.require_start_command

unfoldable pub send_loop : MockServer → ℕ → MockServer
send_loop s zero = s
send_loop s (suc count) = send_loop (count_frame (send_frame s false)) count

unfoldable pub send_frames : MockServer → ℕ → MockServer
send_frames s count = if may_send s then send_loop s count else s

unfoldable pub send_bad_checksum_frame : MockServer → MockServer
send_bad_checksum_frame s = if may_send s then send_frame s true else s

unfoldable pub send_raw : MockServer → List ℕ → MockServer
send_raw s bytes = send_locked s bytes

unfoldable pub set_wrench : MockServer → List ℕ → MockServer
set_wrench s wrench = record s { wrench = wrench }

unfoldable pub drop_client : MockServer → MockServer
drop_client s = record s { connected = false; streaming = false }

unfoldable pub on_accepted : MockServer → MockServer
on_accepted s = record s { connected = true; streaming = not s.require_start_command; sent = [] }

-- Whether the start command stands in what was received.
abbrev pub is_start : List ℕ → Bool
is_start bytes = elim (find start_command bytes) [ none ↦ false | some i ↦ true ]

unfoldable pub on_command : MockServer → List ℕ → MockServer
on_command s bytes = if is_start bytes then record (send_locked s ack) { streaming = true } else s

-- The end of a turn, where a frame is due at the rate.
unfoldable pub pace : MockServer → Bool → MockServer
pace s true = if s.streaming then count_frame (send_frame s false) else s
pace s false = s

-- A turn of the thread: whether a client comes, what is received, where none is an orderly end, and
-- whether a frame is due.
unfoldable pub turn : MockServer → Bool → Option (List ℕ) → Bool → MockServer
turn s comes received due =
    if not s.connected then (if comes then on_accepted s else s) else elim received [
      | none ↦ pace s due
      | some [] ↦ drop_client s
      | some (b ∷ bs) ↦ pace (on_command s (b ∷ bs)) due
    ]

unfoldable pub constructed : Bool → MockServer
constructed require_start_command = record {
  require_start_command = require_start_command;
  connected = false;
  streaming = false;
  frames_sent = 0;
  wrench =
      0 ∷ 0 ∷ 0 ∷ 0 ∷ 0 ∷ 0 ∷ 0 ∷ 0 ∷ 0 ∷ 0 ∷ 0 ∷ 0 ∷ 0 ∷ 0 ∷ 0 ∷ 0 ∷ 0 ∷ 0 ∷ 0 ∷ 0 ∷ 0 ∷ 0 ∷ 0 ∷ 0
      ∷ [];
  pn = 0;
  sent = [];
}
