-- ===== src/Sri/MockServer/Tests.antt =====
-- A script with a command, two frames, raw bytes, a spoilt frame and a paced one.
use kuka_iiqka_ros.Prelude.{
  ℕ, ◌+◌, ◌≤◌, true, false, List, [], ◌∷◌, none, some, length, All, ◌≡◌, refl, arith,
}
use kuka_iiqka_ros.Sri.Frame.{
  FtSample, new, feed, step as feed_step, skip, finish, build_frame, u64,
}
use kuka_iiqka_ros.Sri.Frame.Stream.{samples_of, counts}
use kuka_iiqka_ros.Sri.MockServer.{
  MockServer, constructed, on_accepted, start_command, send_frames, send_raw, send_locked,
  set_wrench, may_send, send_loop, send_frame, count_frame,
}
use kuka_iiqka_ros.Sri.MockServer.Script.{
  Event, sets_wrench, sends, sends_bad, sends_raw, turns, IsFine, step, run, script, box_of, plays,
  frames, ack_items, noises, hears, paces,
}
use kuka_iiqka_ros.Sri.MockServer.Streams.{run-script}

abbrev load : List ℕ
load =
    1 ∷ 2 ∷ 3 ∷ 4 ∷ 5 ∷ 6 ∷ 7 ∷ 8 ∷ 9 ∷ 1 ∷ 2 ∷ 3 ∷ 4 ∷ 5 ∷ 6 ∷ 7 ∷ 8 ∷ 9 ∷ 1 ∷ 2 ∷ 3 ∷ 4 ∷ 5 ∷ 6
    ∷ []

-- The first frame comes before the command, and is not sent.
abbrev events : List Event
events =
    sends 1
    ∷ turns (some (65, 84 ∷ 43 ∷ 71 ∷ 83 ∷ 68 ∷ [])) false
    ∷ sets_wrench load
    ∷ sends 2
    ∷ sends_raw (0x55 ∷ 0 ∷ [])
    ∷ sends_bad
    ∷ turns none true
    ∷ []

abbrev box : MockServer
box = on_accepted (constructed true)

abbrev sample : ℕ → FtSample
sample n = record { raw = load; package_number = n }

played : samples_of (script (box_of box) events) ≡ sample 1 ∷ sample 2 ∷ sample 4 ∷ []
unfolding samples_of script plays frames ack_items noises hears paces on_accepted constructed
    start_command
played = refl

fine : All IsFine events
fine = (tt, (tt, (refl, (tt, ((λ e. omega arith, (λ e. omega arith, tt)), (tt, (tt, tt)))))))

run-script_example :
    let is = script (box_of box) events in
    let (b, out) = feed new (run box events).sent 5 in
    (out ≡ samples_of is)
    × (b.stats ≡ counts new.stats is)
    × (u64 (run box events).frames_sent ≡ u64 ((constructed true).frames_sent + length out))
unfolding constructed
run-script_example =
    let room : length (samples_of (script (box_of box) events)) ≤ 5 = rw played (omega arith) in
    run-script (constructed true) events new 5 refl fine refl room

-- The head of a frame that is sent raw takes the next frame with it.
abbrev cut : List Event
cut = sets_wrench load ∷ sends_raw (0xAA ∷ 0x55 ∷ 0x00 ∷ 0x1B ∷ []) ∷ sends 1 ∷ []

lost : (feed new (run (on_accepted (constructed false)) cut).sent 5).1 ≡ []
unfolding feed feed_step skip finish run step send_frames send_raw send_locked set_wrench may_send
    send_loop send_frame count_frame on_accepted constructed build_frame
lost = refl
