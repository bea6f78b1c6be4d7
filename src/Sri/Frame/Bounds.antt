-- ===== src/Sri/Frame/Bounds.antt =====
-- About the fixed arrays of the assembler and of its caller (src/sri_frame.cpp).
use kuka_iiqka_ros.Prelude.{
  ℕ, ◌<◌, ◌≤◌, List, [], ◌∷◌, ◌++◌, length, length-append, ◌≡◌, refl, arith,
}
use kuka_iiqka_ros.Sri.Frame.{
  FtSample, sample_of, State, at_sync1, at_sync2, len_high, len_low, in_payload, Assembler, Feed,
  payload_len, on_byte, finish, skip, step, feed_from, feed,
}

-- The next byte of a payload has its place in the array of 27.
pub record HasRoom (s : Assembler) : Type 0 where
  pub room : s.state ≡ in_payload → length s.payload < payload_len

finish-bounds :
    (max_out : ℕ) (s : Assembler) (out : List FtSample)
    → length out ≤ max_out
    → length (finish max_out s out).1 ≤ max_out
unfolding finish
finish-bounds max_out s out h = ground (arith, length-append out (sample_of s.payload ∷ []))

finish-state :
    (max_out : ℕ) (s : Assembler) (out : List FtSample) → (finish max_out s out).0.state ≡ s.state
unfolding finish
finish-state max_out s out = ground arith

on_byte-bounds :
    (q : State) (max_out : ℕ) (s : Assembler) (out : List FtSample) (b : ℕ)
    → s.state ≡ q
    → HasRoom s
    → length out ≤ max_out
    → let t = on_byte q max_out s out b in HasRoom t.0 × (length t.1 ≤ max_out)
unfolding on_byte skip
on_byte-bounds at_sync1 max_out s out b e r h = ground arith
on_byte-bounds at_sync2 max_out s out b e r h = ground arith
on_byte-bounds len_high max_out s out b e r h = ground arith
on_byte-bounds len_low max_out s out b e r h = ground arith
on_byte-bounds in_payload max_out s out b e r h =
    let full = record s { payload = s.payload ++ (b ∷ []); state = at_sync1 } in
    ground (
      arith,
      length-append s.payload (b ∷ []),
      finish-bounds max_out full out h,
      finish-state max_out full out,
    )

step-bounds :
    (max_out : ℕ) (f : Feed) (b : ℕ)
    → HasRoom f.0
    → length f.1 ≤ max_out
    → HasRoom (step max_out f b).0 × (length (step max_out f b).1 ≤ max_out)
unfolding step
step-bounds max_out (s, out) b r h = on_byte-bounds s.state max_out s out b refl r h

feed_from-bounds :
    (max_out : ℕ) (bytes : List ℕ) (f : Feed)
    → HasRoom f.0
    → length f.1 ≤ max_out
    → let u = feed_from max_out f bytes in HasRoom u.0 × (length u.1 ≤ max_out)
unfolding feed_from
feed_from-bounds max_out [] f r h = (r, h)
feed_from-bounds max_out (b ∷ bs) f r h =
    let (r', h') = step-bounds max_out f b r h in
    feed_from-bounds max_out bs (step max_out f b) r' h'

-- Whatever bytes come, the assembler never writes past its array of 27 bytes nor hands its caller
-- more samples than there is room for, and it is ready for more bytes.
pub feed-bounds :
    (s : Assembler) (bytes : List ℕ) (max_out : ℕ)
    → HasRoom s
    → let (t, out) = feed s bytes max_out in HasRoom t × (length out ≤ max_out)
unfolding feed
feed-bounds s bytes max_out r = feed_from-bounds max_out bytes (s, []) r (omega arith)
