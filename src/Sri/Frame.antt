-- ===== src/Sri/Frame.antt =====
-- `SriFrameAssembler` (src/sri_frame.cpp), the byte automaton that finds the frames of the sensor's
-- stream, and the frames that the simulated sensor builds (src/sri_mock_server.cpp). A byte is a
-- number below 256. A sample keeps the 24 bytes that `memcpy` takes for six floats.
pub mod Stream
pub mod Items
mod Bounds
mod Tests
use Prim.Native.Nat.{bit_xor}
use kuka_iiqka_ros.Prelude.{
  ℕ, ◌+◌, ◌*◌, ◌/◌, ◌%◌, Bool, true, false, not, List, [], ◌∷◌, ◌++◌, ◌==◌, leb, length, get_or,
  take, drop, if◌then◌else◌,
}

abbrev pub sync1 : ℕ
sync1 = 0xAA

abbrev pub sync2 : ℕ
sync2 = 0x55

abbrev pub data_len : ℕ
data_len = 24

abbrev pub payload_len : ℕ
payload_len = 27

abbrev pub u64 : ℕ → ℕ
u64 n = n % 18446744073709551616

pub record FtSample : Type 0 where
  pub raw : List ℕ
  pub package_number : ℕ

pub record AssemblerStats : Type 0 where
  pub frames : ℕ
  pub bad_checksum : ℕ
  pub bad_length : ℕ
  pub dropped : ℕ
  pub skipped_bytes : ℕ

pub data State : Type 0 where
  at_sync1 at_sync2 len_high len_low in_payload : State

-- `payload` holds the first `payload_fill_` bytes of the array.
pub record Assembler : Type 0 where
  pub state : State
  pub declared_len : ℕ
  pub payload : List ℕ
  pub stats : AssemblerStats

abbrev pub no_stats : AssemblerStats
no_stats = record { frames = 0; bad_checksum = 0; bad_length = 0; dropped = 0; skipped_bytes = 0 }

abbrev pub new : Assembler
new = record { state = at_sync1; declared_len = 0; payload = []; stats = no_stats }

unfoldable pub reset : Assembler → Assembler
reset s = record s { state = at_sync1; declared_len = 0; payload = [] }

abbrev pub sum_of : List ℕ → ℕ
sum_of [] = 0
sum_of (b ∷ bs) = b + sum_of bs

unfoldable pub skip : Assembler → ℕ → Assembler
skip s n =
    let t = s.stats in record s { stats = record t { skipped_bytes = u64 (t.skipped_bytes + n) } }

-- What the assembler has written so far for its caller stands beside it.
abbrev pub Feed : Type 0
Feed = Assembler × List FtSample

-- The sample in a payload: its number, then the bytes of its floats.
abbrev pub sample_of : List ℕ → FtSample
sample_of p = record {
  raw = take data_len (drop 2 p);
  package_number = (get_or p 0 0 * 256 + get_or p 1 0) % 65536;
}

-- A payload is full: its checksum, and the room that the caller has left.
unfoldable pub finish : ℕ → Assembler → List FtSample → Feed
finish max_out s out =
    let t = s.stats in
    let p = s.payload in
    let good = record t { frames = u64 (t.frames + 1) } in
    if not (sum_of (take data_len (drop 2 p)) % 256 == get_or p 26 0)
    then (record s { stats = record t { bad_checksum = u64 (t.bad_checksum + 1) } }, out)
    else if leb max_out (length out)
    then (record s { stats = record good { dropped = u64 (t.dropped + 1) } }, out)
    else (record s { stats = good }, out ++ (sample_of p ∷ []))

-- The cases of the `switch`.
on_byte : State → ℕ → Assembler → List FtSample → ℕ → Feed
unfolding skip
on_byte at_sync1 max_out s out b =
    (if b == sync1 then record s { state = at_sync2 } else skip s 1, out)
on_byte at_sync2 max_out s out b = (
  if b == sync2
      then record s { state = len_high }
      else if b == sync1
      then skip s 1
      else skip (record s { state = at_sync1 }) 2,
  out,
)
on_byte len_high max_out s out b =
    (record s { declared_len = (b * 256) % 65536; state = len_low }, out)
on_byte len_low max_out s out b =
    let len = (s.declared_len + b) % 65536 in
    let t = s.stats in
    (
      if not (len == payload_len)
          then record s {
            declared_len = len;
            stats = record t { bad_length = u64 (t.bad_length + 1) };
            state = at_sync1;
          }
          else record s { declared_len = len; payload = []; state = in_payload },
      out,
    )
on_byte in_payload max_out s out b =
    let s' = record s { payload = s.payload ++ (b ∷ []) } in
    if length s'.payload == payload_len
    then finish max_out (record s' { state = at_sync1 }) out
    else (s', out)

unfoldable pub step : ℕ → Feed → ℕ → Feed
unfolding on_byte
step max_out (s, out) b = on_byte s.state max_out s out b

unfoldable pub feed_from : ℕ → Feed → List ℕ → Feed
feed_from max_out f [] = f
feed_from max_out f (b ∷ bs) = feed_from max_out (step max_out f b) bs

unfoldable pub feed : Assembler → List ℕ → ℕ → Feed
unfolding feed_from
feed s bytes max_out = feed_from max_out (s, []) bytes

-- `buildFrame`, for the number `pn_` that it has just counted up and the bytes of the wrench.
unfoldable pub build_frame : ℕ → List ℕ → Bool → List ℕ
build_frame pn wrench corrupt =
    let sum = sum_of wrench % 256 in
    0xAA
    ∷ 0x55
    ∷ 0x00
    ∷ 0x1B
    ∷ ((pn / 256) % 256)
    ∷ (pn % 256)
    ∷ (wrench ++ ((if corrupt then bit_xor sum 0xFF else sum) ∷ []))
