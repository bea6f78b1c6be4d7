-- ===== src/Sri/MockServer/Sends.antt =====
-- What single sends of the simulated sensor put on the stream.
use mathlib.Core.List.{append_assoc, append-nil}
use kuka_iiqka_ros.Prelude.{
  ℕ, zero, suc, ◌+◌, Bool, true, false, List, [], ◌∷◌, ◌++◌, length, length-append, All, ◌≡◌, ◌≢◌,
  refl, sym, ap, ◌∙◌, subst, arith, if◌then◌else◌,
}
use kuka_iiqka_ros.Sri.Frame.{build_frame, u64}
use kuka_iiqka_ros.Sri.Frame.Stream.{
  Item, whole, spoilt, noise, IsItem, bytes_of, stream_of, samples_of,
}
use kuka_iiqka_ros.Sri.MockServer.{
  MockServer, ack, next_pn, send_locked, send_frame, count_frame, may_send, send_loop, send_raw,
}
use kuka_iiqka_ros.Sri.MockServer.Script.{Box, frames, ack_items, noises, box_of}

stream_of-append : (is js : List Item) → stream_of (is ++ js) ≡ stream_of is ++ stream_of js
unfolding stream_of
stream_of-append [] js = refl
stream_of-append (i ∷ is) js =
    ap (λ l. bytes_of i ++ l) (stream_of-append is js)
    ∙ sym (append_assoc (bytes_of i) (stream_of is) (stream_of js))

samples_of-append : (is js : List Item) → samples_of (is ++ js) ≡ samples_of is ++ samples_of js
unfolding samples_of
samples_of-append [] js = refl
samples_of-append (whole pn wrench ∷ is) js =
    ap (λ l. record { raw = wrench; package_number = pn } ∷ l) (samples_of-append is js)
samples_of-append (spoilt pn wrench ∷ is) js = samples_of-append is js
samples_of-append (noise b ∷ is) js = samples_of-append is js

All-append : (is js : List Item) → All IsItem is → All IsItem js → All IsItem (is ++ js)
All-append [] js vs ws = ws
All-append (i ∷ is) js (v, vs) ws = (v, All-append is js vs ws)

-- A connection is open, and what may be sent is what streams.
pub record IsOpen (s : MockServer) : Type 0 where
  pub up : s.connected ≡ true
  pub allows : may_send s ≡ s.streaming
  pub size : length s.wrench ≡ 24

-- From one state to another, items have gone out, and frames are counted.
pub record Plays (s t : MockServer) (b : Box) (is : List Item) : Type 0 where
  pub box : box_of t ≡ b
  pub adds : t.sent ≡ s.sent ++ stream_of is
  pub fine : All IsItem is
  pub counted : u64 t.frames_sent ≡ u64 (s.frames_sent + length (samples_of is))
  pub now : IsOpen t

pub none-Plays : (s : MockServer) → IsOpen s → Plays s s (box_of s) []
none-Plays s h =
    unfold stream_of samples_of in
    record { box = refl; adds = sym (append-nil s.sent); fine = tt; counted = omega arith; now = h }

pub Plays-trans :
    {s t u : MockServer} {b c : Box} {is js : List Item}
    → Plays s t b is
    → Plays t u c js
    → Plays s u c (is ++ js)
Plays-trans {s} {t} {u} {b} {c} {is} {js} p q = record {
  box = q.box;
  adds =
      q.adds
      ∙ ap (λ l. l ++ stream_of js) p.adds
      ∙ append_assoc s.sent (stream_of is) (stream_of js)
      ∙ ap (λ l. s.sent ++ l) (sym (stream_of-append is js));
  fine = All-append is js p.fine q.fine;
  counted =
      let e = ap length (samples_of-append is js) ∙ length-append (samples_of is) (samples_of js) in
      omega (arith, e, p.counted, q.counted);
  now = q.now;
}

frame-open :
    (s : MockServer)
    → s.connected ≡ true
    → count_frame (send_frame s false) ≡ record s {
      pn = next_pn s.pn;
      frames_sent = u64 (s.frames_sent + 1);
      sent = s.sent ++ build_frame (next_pn s.pn) s.wrench false;
    }
unfolding count_frame send_frame send_locked
frame-open s up = rw up refl

pub frame-Plays :
    (s : MockServer)
    → IsOpen s
    → Plays s
        (count_frame (send_frame s false))
        (record (box_of s) { number = next_pn s.pn })
        (whole (next_pn s.pn) s.wrench ∷ [])
unfolding stream_of samples_of bytes_of may_send
frame-Plays s h = rw (frame-open s h.up) (record {
  box = refl;
  adds = ap (λ l. s.sent ++ l) (sym (append-nil _));
  fine = ((omega arith, h.size), tt);
  counted = omega arith;
  now = record { up = h.up; allows = h.allows; size = h.size };
})

pub frames-Plays :
    (count : ℕ) (s : MockServer)
    → IsOpen s
    → Plays s (send_loop s count) (frames count (box_of s)).0 (frames count (box_of s)).1
unfolding send_loop frames
frames-Plays zero s h = none-Plays s h
frames-Plays (suc count) s h =
    let t = count_frame (send_frame s false) in
    let p = frame-Plays s h in
    let q = frames-Plays count t p.now in
    Plays-trans p
      (subst (λ b. Plays t (send_loop t count) (frames count b).0 (frames count b).1) p.box q)

bad-open :
    (s : MockServer)
    → s.connected ≡ true
    → send_frame s true
      ≡ record s { pn = next_pn s.pn; sent = s.sent ++ build_frame (next_pn s.pn) s.wrench true }
unfolding send_frame send_locked
bad-open s up = rw up refl

pub bad-Plays :
    (s : MockServer)
    → IsOpen s
    → Plays s
        (send_frame s true)
        (record (box_of s) { number = next_pn s.pn })
        (spoilt (next_pn s.pn) s.wrench ∷ [])
unfolding stream_of samples_of bytes_of may_send
bad-Plays s h = rw (bad-open s h.up) (record {
  box = refl;
  adds = ap (λ l. s.sent ++ l) (sym (append-nil _));
  fine = ((omega arith, h.size), tt);
  counted = omega arith;
  now = record { up = h.up; allows = h.allows; size = h.size };
})

ack-open :
    (s : MockServer)
    → s.connected ≡ true
    → record (send_locked s ack) { streaming = true }
      ≡ record s { streaming = true; sent = s.sent ++ ack }
unfolding send_locked
ack-open s up = rw up refl

pub ack-Plays :
    (s : MockServer)
    → IsOpen s
    → Plays s
        (record (send_locked s ack) { streaming = true })
        (record (box_of s) { streaming = true })
        ack_items
unfolding stream_of samples_of bytes_of may_send ack_items
ack-Plays s h = rw (ack-open s h.up) (record {
  box = refl;
  adds = refl;
  fine = ground arith;
  counted = omega arith;
  now = record { up = h.up; allows = refl; size = h.size };
})

stream_of-noises : (bytes : List ℕ) → stream_of (noises bytes) ≡ bytes
unfolding stream_of noises bytes_of
stream_of-noises [] = refl
stream_of-noises (b ∷ bs) = ap (λ l. b ∷ l) (stream_of-noises bs)

samples_of-noises : (bytes : List ℕ) → samples_of (noises bytes) ≡ []
unfolding samples_of noises
samples_of-noises [] = refl
samples_of-noises (b ∷ bs) = samples_of-noises bs

noises-IsItem : (bytes : List ℕ) → All (λ b. b ≢ 0xAA) bytes → All IsItem (noises bytes)
unfolding noises
noises-IsItem [] h = tt
noises-IsItem (b ∷ bs) (h, hs) = (h, noises-IsItem bs hs)

raw-open :
    (s : MockServer) (bytes : List ℕ)
    → s.connected ≡ true
    → send_raw s bytes ≡ record s { sent = s.sent ++ bytes }
unfolding send_raw send_locked
raw-open s bytes up = rw up refl

pub raw-Plays :
    (s : MockServer) (bytes : List ℕ)
    → IsOpen s
    → All (λ b. b ≢ 0xAA) bytes
    → Plays s (send_raw s bytes) (box_of s) (noises bytes)
unfolding may_send
raw-Plays s bytes h other = rw (raw-open s bytes h.up) (record {
  box = refl;
  adds = ap (λ l. s.sent ++ l) (sym (stream_of-noises bytes));
  fine = noises-IsItem bytes other;
  counted = let e = ap length (samples_of-noises bytes) in omega (arith, e);
  now = record { up = h.up; allows = h.allows; size = h.size };
})

-- What is done under a test, or nothing.
pub if-Plays :
    (c : Bool) (s t : MockServer) (b : Box) (is : List Item)
    → IsOpen s
    → Plays s t b is
    → let played : Box × List Item = if c then (b, is) else (box_of s, []) in
      Plays s (if c then t else s) played.0 played.1
if-Plays true s t b is h p = p
if-Plays false s t b is h p = none-Plays s h
