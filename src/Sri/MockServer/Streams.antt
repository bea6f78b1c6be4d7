-- ===== src/Sri/MockServer/Streams.antt =====
-- What a client of the simulated sensor gets, and what the assembler of the driver makes of it.
use mathlib.Core.List.{append-nil}
use kuka_iiqka_ros.Prelude.{
  ℕ, ◌+◌, ◌≤◌, Bool, true, false, not, Option, none, some, List, [], ◌∷◌, ◌++◌, length, All, ◌≡◌,
  refl, sym, ap, ◌∙◌, subst, arith, if◌then◌else◌,
}
use kuka_iiqka_ros.Sri.Frame.{Assembler, at_sync1, feed, u64}
use kuka_iiqka_ros.Sri.Frame.Stream.{stream_of, samples_of, counts}
use kuka_iiqka_ros.Sri.Frame.Items.{feed-stream_of}
use kuka_iiqka_ros.Sri.MockServer.{
  MockServer, may_send, send_frames, send_bad_checksum_frame, set_wrench, on_accepted, is_start,
  on_command, pace, turn,
}
use kuka_iiqka_ros.Sri.MockServer.Script.{
  Event, sets_wrench, sends, sends_bad, sends_raw, turns, IsFine, received_of, step, run, Box,
  hears, paces, plays, script, box_of,
}
use kuka_iiqka_ros.Sri.MockServer.Sends.{
  IsOpen, Plays, none-Plays, Plays-trans, frame-Plays, frames-Plays, bad-Plays, raw-Plays,
  ack-Plays, if-Plays,
}

hears-Plays :
    (s : MockServer) (x : ℕ) (xs : List ℕ)
    → IsOpen s
    → Plays s
        (on_command s (x ∷ xs))
        (hears (some (x, xs)) (box_of s)).0
        (hears (some (x, xs)) (box_of s)).1
unfolding hears on_command
hears-Plays s x xs h = if-Plays (is_start (x ∷ xs)) s _ _ _ h (ack-Plays s h)

paces-Plays :
    (s : MockServer) (due : Bool)
    → IsOpen s
    → Plays s (pace s due) (paces due (box_of s)).0 (paces due (box_of s)).1
unfolding paces pace
paces-Plays s false h = none-Plays s h
paces-Plays s true h = if-Plays s.streaming s _ _ _ h (frame-Plays s h)

quiet-open : (s : MockServer) (due : Bool) → s.connected ≡ true → turn s false none due ≡ pace s due
unfolding turn
quiet-open s due up = ap (λ c. if not c then s else pace s due) up

heard-open :
    (s : MockServer) (x : ℕ) (xs : List ℕ) (due : Bool)
    → s.connected ≡ true
    → turn s false (some (x ∷ xs)) due ≡ pace (on_command s (x ∷ xs)) due
unfolding turn
heard-open s x xs due up = ap (λ c. if not c then s else pace (on_command s (x ∷ xs)) due) up

turn-Plays :
    (s : MockServer) (received : Option (ℕ × List ℕ)) (due : Bool)
    → IsOpen s
    → let (c, is) = hears received (box_of s) in
      let (e, js) = paces due c in Plays s (turn s false (received_of received) due) e (is ++ js)
unfolding hears
turn-Plays s none due h = rw (quiet-open s due h.up) (paces-Plays s due h)
turn-Plays s (some (x, xs)) due h =
    let t = on_command s (x ∷ xs) in
    let p = hears-Plays s x xs h in
    rw (heard-open s x xs due h.up) (
      Plays-trans p (
        subst (λ b. Plays t (pace t due) (paces due b).0 (paces due b).1) p.box
          (paces-Plays t due p.now)))

plays-Plays :
    (s : MockServer) (e : Event)
    → IsOpen s
    → IsFine e
    → Plays s (step s e) (plays e (box_of s)).0 (plays e (box_of s)).1
unfolding plays step send_frames send_bad_checksum_frame set_wrench
plays-Plays s (sets_wrench wrench) h size =
    unfold stream_of samples_of may_send in
    record {
      box = refl;
      adds = sym (append-nil s.sent);
      fine = tt;
      counted = omega arith;
      now = record { up = h.up; allows = h.allows; size = size };
    }
plays-Plays s (sends count) h u =
    rw h.allows (if-Plays s.streaming s _ _ _ h (frames-Plays count s h))
plays-Plays s sends_bad h u = rw h.allows (if-Plays s.streaming s _ _ _ h (bad-Plays s h))
plays-Plays s (sends_raw bytes) h other = raw-Plays s bytes h other
plays-Plays s (turns received due) h u = turn-Plays s received due h

run-Plays :
    (es : List Event) (s : MockServer)
    → IsOpen s
    → All IsFine es
    → (b : Box) × Plays s (run s es) b (script (box_of s) es)
unfolding run script
run-Plays [] s h us = (box_of s, none-Plays s h)
run-Plays (e ∷ es) s h (u, us) =
    let p = plays-Plays s e h u in
    let (b, q) = run-Plays es (step s e) p.now us in
    (b, Plays-trans p (subst (λ c. Plays (step s e) (run (step s e) es) b (script c es)) p.box q))

accepted-IsOpen : (s : MockServer) → length s.wrench ≡ 24 → IsOpen (on_accepted s)
unfolding on_accepted may_send
accepted-IsOpen s size = ground arith

-- From a connection on, whatever is scripted and received, where the wrenches have 24 bytes, no byte
-- that is sent raw is the first sync byte 0xAA of a frame, and the connection does not end: an
-- assembler that waits for a frame, reads all that the client got and has room gives just the samples
-- of the frames that the script plays, in order, with their numbers and wrenches; it counts the spoilt
-- frames, and it skips and counts the raw bytes and the bytes of the answers to commands; and the
-- samples are as many as the server has counted since then, modulo 2^64.
pub run-script :
    (s : MockServer) (es : List Event) (a : Assembler) (max_out : ℕ)
    → length s.wrench ≡ 24
    → All IsFine es
    → a.state ≡ at_sync1
    → let t = on_accepted s in
      let is = script (box_of t) es in
      length (samples_of is) ≤ max_out
      → let (b, out) = feed a (run t es).sent max_out in
        (out ≡ samples_of is)
        × (b.stats ≡ counts a.stats is)
        × (u64 (run t es).frames_sent ≡ u64 (s.frames_sent + length out))
unfolding on_accepted
run-script s es a max_out size us waits room =
    let t = on_accepted s in
    let is = script (box_of t) es in
    let (b, p) = run-Plays es t (accepted-IsOpen s size) us in
    let (samples, stats, state) = feed-stream_of a is max_out waits p.fine room in
    let out = ap (λ l. (feed a l max_out).1) p.adds ∙ samples in
    (
      out,
      ap (λ l. (feed a l max_out).0.stats) p.adds ∙ stats,
      p.counted ∙ ap (λ l. u64 (s.frames_sent + length l)) (sym out),
    )
