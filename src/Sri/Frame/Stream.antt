-- ===== src/Sri/Frame/Stream.antt =====
-- What the assembler makes of a stream.
use kuka_iiqka_ros.Prelude.{
  ℕ, ◌+◌, ◌*◌, ◌/◌, ◌%◌, ◌<◌, true, false, List, [], ◌∷◌, ◌++◌, length, get_or, get_or-append, take,
  ◌≡◌, ◌≢◌, refl, sym, ap, ◌∙◌, subst, arith, length-append,
}
use mathlib.Core.List.{append_assoc, append-nil}
use kuka_iiqka_ros.Sri.Frame.{
  FtSample, AssemblerStats, at_sync1, in_payload, Assembler, Feed, payload_len, sum_of, finish,
  step, feed_from, build_frame, u64,
}

pub feed_from-append :
    (max_out : ℕ) (f : Feed) (bs cs : List ℕ)
    → feed_from max_out f (bs ++ cs) ≡ feed_from max_out (feed_from max_out f bs) cs
unfolding feed_from
feed_from-append max_out f [] cs = refl
feed_from-append max_out f (b ∷ bs) cs = feed_from-append max_out (step max_out f b) bs cs

step-payload :
    (max_out : ℕ) (s : Assembler) (out : List FtSample) (b : ℕ)
    → s.state ≡ in_payload
    → length s.payload + 1 < payload_len
    → step max_out (s, out) b ≡ (record s { payload = s.payload ++ (b ∷ []) }, out)
unfolding step
step-payload max_out s out b h n = ground (arith, length-append s.payload (b ∷ []))

feed_from-payload :
    (max_out : ℕ) (bs : List ℕ) (s : Assembler) (out : List FtSample)
    → s.state ≡ in_payload
    → length s.payload + length bs < payload_len
    → feed_from max_out (s, out) bs ≡ (record s { payload = s.payload ++ bs }, out)
unfolding feed_from
feed_from-payload max_out [] s out h n =
    ap (λ p. (record s { payload = p }, out)) (sym (append-nil s.payload))
feed_from-payload max_out (b ∷ bs) s out h n =
    ap (λ f. feed_from max_out f bs) (step-payload max_out s out b h (omega arith))
    ∙ feed_from-payload max_out bs (record s { payload = s.payload ++ (b ∷ []) }) out h
        (omega (arith, length-append s.payload (b ∷ [])))
    ∙ ap (λ p. (record s { payload = p }, out)) (append_assoc s.payload (b ∷ []) bs)

step-last :
    (max_out : ℕ) (s : Assembler) (out : List FtSample) (b : ℕ)
    → s.state ≡ in_payload
    → length s.payload + 1 ≡ payload_len
    → step max_out (s, out) b
      ≡ finish max_out (record s { payload = s.payload ++ (b ∷ []); state = at_sync1 }) out
unfolding step
step-last max_out s out b h n = ground (arith, length-append s.payload (b ∷ []))

-- The state when the header of a frame has gone by.
abbrev in_frame : Assembler → Assembler
in_frame s = record s { state = in_payload; declared_len = 27; payload = [] }

feed_from-header :
    (max_out : ℕ) (s : Assembler) (out : List FtSample) (bs : List ℕ)
    → s.state ≡ at_sync1
    → feed_from max_out (s, out) (0xAA ∷ 0x55 ∷ 0x00 ∷ 0x1B ∷ bs)
      ≡ feed_from max_out (in_frame s, out) bs
unfolding feed_from step
feed_from-header max_out s out bs h =
    ap (λ q. feed_from max_out (record s { state = q }, out) (0xAA ∷ 0x55 ∷ 0x00 ∷ 0x1B ∷ bs)) h

-- The state when the last byte of a payload has come.
abbrev pub full : Assembler → List ℕ → Assembler
full s p = record s { state = at_sync1; declared_len = 27; payload = p }

pub feed_from-frame :
    (max_out : ℕ) (s : Assembler) (out : List FtSample) (p : List ℕ) (check : ℕ)
    → s.state ≡ at_sync1
    → length p ≡ 26
    → feed_from max_out (s, out) (0xAA ∷ 0x55 ∷ 0x00 ∷ 0x1B ∷ (p ++ (check ∷ [])))
      ≡ finish max_out (full s (p ++ (check ∷ []))) out
unfolding feed_from
feed_from-frame max_out s out p check h n =
    feed_from-header max_out s out (p ++ (check ∷ [])) h
    ∙ feed_from-append max_out (in_frame s, out) p (check ∷ [])
    ∙ ap (λ f. feed_from max_out f (check ∷ []))
        (feed_from-payload max_out p (in_frame s) out refl (omega arith))
    ∙ step-last max_out (record s { state = in_payload; declared_len = 27; payload = p }) out check
        refl (omega arith)

take-append : (bs cs : List ℕ) (n : ℕ) → length bs ≡ n → take n (bs ++ cs) ≡ bs
take-append [] cs n h = rw (← h)
take-append (b ∷ bs) cs n h = rw (← h) (ap (λ l. b ∷ l) (take-append bs cs (length bs) refl))

-- What can stand in the stream: a whole frame, one with a spoilt checksum, and a byte of noise that
-- is no first sync byte.
pub data Item : Type 0 where
  whole : ℕ → List ℕ → Item
  spoilt : ℕ → List ℕ → Item
  noise : ℕ → Item

abbrev pub IsItem : Item → Type 0
IsItem (whole pn wrench) = (pn < 65536) × (length wrench ≡ 24)
IsItem (spoilt pn wrench) = (pn < 65536) × (length wrench ≡ 24)
IsItem (noise b) = b ≢ 0xAA

unfoldable pub bytes_of : Item → List ℕ
bytes_of (whole pn wrench) = build_frame pn wrench false
bytes_of (spoilt pn wrench) = build_frame pn wrench true
bytes_of (noise b) = b ∷ []

unfoldable pub stream_of : List Item → List ℕ
stream_of [] = []
stream_of (i ∷ is) = bytes_of i ++ stream_of is

-- The samples that the stream carries.
unfoldable pub samples_of : List Item → List FtSample
samples_of [] = []
samples_of (whole pn wrench ∷ is) = record { raw = wrench; package_number = pn } ∷ samples_of is
samples_of (_ ∷ is) = samples_of is

-- How each item is counted.
unfoldable pub counted : AssemblerStats → Item → AssemblerStats
counted t (whole pn wrench) = record t { frames = u64 (t.frames + 1) }
counted t (spoilt pn wrench) = record t { bad_checksum = u64 (t.bad_checksum + 1) }
counted t (noise b) = record t { skipped_bytes = u64 (t.skipped_bytes + 1) }

unfoldable pub counts : AssemblerStats → List Item → AssemblerStats
counts t [] = t
counts t (i ∷ is) = counts (counted t i) is

-- The payload of a frame whose checksum is as given.
abbrev pub payload_of : ℕ → List ℕ → ℕ → List ℕ
payload_of pn wrench check = ((pn / 256) % 256) ∷ (pn % 256) ∷ (wrench ++ (check ∷ []))

payload_parts :
    (wrench : List ℕ) (check : ℕ)
    → length wrench ≡ 24
    → (take 24 (wrench ++ (check ∷ [])) ≡ wrench) × (get_or (wrench ++ (check ∷ [])) 24 0 ≡ check)
payload_parts wrench check n = (
  take-append wrench (check ∷ []) 24 n,
  subst (λ k. get_or (wrench ++ (check ∷ [])) k 0 ≡ check) n (get_or-append wrench check [] 0),
)

pub finish-good :
    (max_out : ℕ) (s : Assembler) (out : List FtSample) (pn : ℕ) (wrench : List ℕ)
    → pn < 65536
    → length wrench ≡ 24
    → length out < max_out
    → let t = finish max_out (full s (payload_of pn wrench (sum_of wrench % 256))) out in
      (t.0.state ≡ at_sync1)
      × (t.0.stats ≡ counted s.stats (whole pn wrench))
      × (t.1 ≡ out ++ (record { raw = wrench; package_number = pn } ∷ []))
unfolding finish counted
finish-good max_out s out pn wrench h n room =
    let (w, c) = payload_parts wrench (sum_of wrench % 256) n in
    let number : ((pn / 256) % 256 * 256 + pn % 256) % 65536 ≡ pn = omega arith in
    rw (w, c, number) (ground arith)

pub finish-bad :
    (max_out : ℕ) (s : Assembler) (out : List FtSample) (pn : ℕ) (wrench : List ℕ) (check : ℕ)
    → length wrench ≡ 24
    → sum_of wrench % 256 ≢ check
    → let t = finish max_out (full s (payload_of pn wrench check)) out in
      (t.0.state ≡ at_sync1) × (t.0.stats ≡ counted s.stats (spoilt pn wrench)) × (t.1 ≡ out)
unfolding finish counted
finish-bad max_out s out pn wrench check n differs =
    let (w, c) = payload_parts wrench check n in rw (w, c) (ground arith)
