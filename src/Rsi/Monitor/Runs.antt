-- ===== src/Rsi/Monitor/Runs.antt =====
-- Runs of cycles: when the fault latches, and how long it stays.
use kuka_iiqka_ros.Prelude.{ℕ, ◌+◌, ◌<◌, true, ◌||◌, List, [], ◌∷◌, ◌≡◌, leb, length, arith}
use kuka_iiqka_ros.Rsi.Monitor.{Monitor, on_frame, on_timeout, on_bad_frame, reset, clear_fault}

pub data Event : Type 0 where
  frame : ℕ → Event
  timeout : Event
  bad : Event
  cleared : Event
  wiped : Event

unfoldable pub apply : Monitor → Event → Monitor
apply m (frame ipoc) = on_frame m ipoc
apply m timeout = on_timeout m
apply m bad = on_bad_frame m
apply m cleared = clear_fault m
apply m wiped = reset m

unfoldable pub run : Monitor → List Event → Monitor
run m [] = m
run m (e ∷ es) = run (apply m e) es

-- A cycle without a valid frame.
abbrev pub IsMiss : Event → Type 0
IsMiss timeout = Unit {0}
IsMiss bad = Unit {0}
IsMiss _ = ⊥

abbrev pub AllMiss : List Event → Type 0
AllMiss [] = Unit {0}
AllMiss (e ∷ es) = IsMiss e × AllMiss es

abbrev pub KeepsFault : Event → Type 0
KeepsFault cleared = ⊥
KeepsFault wiped = ⊥
KeepsFault _ = Unit {0}

abbrev pub AllKeepFault : List Event → Type 0
AllKeepFault [] = Unit {0}
AllKeepFault (e ∷ es) = KeepsFault e × AllKeepFault es

apply-miss :
    (m : Monitor) (e : Event)
    → IsMiss e
    → m.stats.connected ≡ true
    → m.stats.consecutive_timeouts + 1 < 4294967296
    → let t = apply m e in
      (t.stats.connected ≡ true)
      × (t.max_consecutive_timeouts ≡ m.max_consecutive_timeouts)
      × (t.stats.consecutive_timeouts ≡ m.stats.consecutive_timeouts + 1)
      × (t.stats.has_fault
          ≡ m.stats.has_fault || leb m.max_consecutive_timeouts (m.stats.consecutive_timeouts + 1))
unfolding apply on_timeout on_bad_frame
apply-miss m timeout h c n = ground arith
apply-miss m bad h c n = ground arith
apply-miss m _ h c n = absurd h

-- On a connected link, a run of at least one cycle without a valid frame, shorter than what the
-- counter holds, latches the fault exactly if the misses in a row, with those before the run, reach
-- the maximum; and the link stays connected.
run-misses :
    (m : Monitor) (e : Event) (es : List Event)
    → AllMiss (e ∷ es)
    → m.stats.connected ≡ true
    → m.stats.consecutive_timeouts + length (e ∷ es) < 4294967296
    → let t = run m (e ∷ es) in
      (t.stats.connected ≡ true)
      × (t.stats.consecutive_timeouts ≡ m.stats.consecutive_timeouts + length (e ∷ es))
      × (t.stats.has_fault
          ≡ m.stats.has_fault
            || leb m.max_consecutive_timeouts (m.stats.consecutive_timeouts + length (e ∷ es)))
unfolding run
run-misses m e [] (h, _) c n = let (a, b, x, f) = apply-miss m e h c (omega arith) in ground arith
run-misses m e (e' ∷ es) (h, hs) c n =
    ground (arith, apply-miss m e h c, run-misses (apply m e) e' es hs)

apply-KeepsFault :
    (m : Monitor) (e : Event)
    → KeepsFault e
    → m.stats.has_fault ≡ true
    → (apply m e).stats.has_fault ≡ true
unfolding apply on_frame on_timeout on_bad_frame
apply-KeepsFault m (frame ipoc) k h = h
apply-KeepsFault m timeout k h = ground arith
apply-KeepsFault m bad k h = ground arith
apply-KeepsFault m cleared k h = absurd k
apply-KeepsFault m wiped k h = absurd k

-- A latched fault stays through every run of frames, timeouts and bad frames, until a clear or a
-- reset.
run-AllKeepFault :
    (m : Monitor) (es : List Event)
    → AllKeepFault es
    → m.stats.has_fault ≡ true
    → (run m es).stats.has_fault ≡ true
unfolding run
run-AllKeepFault m [] k h = h
run-AllKeepFault m (e ∷ es) (k, ks) h =
    run-AllKeepFault (apply m e) es ks (apply-KeepsFault m e k h)
