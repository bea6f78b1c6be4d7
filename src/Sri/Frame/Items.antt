-- ===== src/Sri/Frame/Items.antt =====
-- Streams of frames, spoilt frames and noise.
use Prim.Native.Nat.{bit_xor}
use kuka_iiqka_ros.Prelude.{
  ℕ, zero, suc, ◌+◌, ◌%◌, ◌/◌, ◌<◌, ◌≤◌, Bool, true, not, ◌&&◌, List, [], ◌∷◌, ◌++◌, ◌==◌, length,
  ◌≡◌, ◌≢◌, refl, sym, ap, ◌∙◌, subst, arith, length-append, All,
}
use mathlib.Core.List.{append_assoc, append-nil}
use kuka_iiqka_ros.Sri.Frame.{
  FtSample, AssemblerStats, at_sync1, Assembler, Feed, sum_of, step, feed_from, feed, build_frame,
  skip,
}
use kuka_iiqka_ros.Sri.Frame.Stream.{
  Item, whole, spoilt, noise, IsItem, bytes_of, stream_of, samples_of, counted, counts,
  feed_from-append, feed_from-frame, finish-good, finish-bad,
}

all_below : ℕ → (ℕ → Bool) → Bool
all_below zero p = true
all_below (suc n) p = p n && all_below n p

all_below-true : (n : ℕ) (p : ℕ → Bool) (x : ℕ) → all_below n p ≡ true → x < n → p x ≡ true
unfolding all_below
all_below-true zero p x h lt = absurd (omega arith)
all_below-true (suc n) p x h lt = ground (arith, all_below-true n p x)

flips : all_below 256 (λ x. not (x == bit_xor x 0xFF)) ≡ true
unfolding all_below
flips = refl

bit_xor-ne : (x : ℕ) → x < 256 → x ≢ bit_xor x 0xFF
bit_xor-ne x h =
    let t : not (x == bit_xor x 0xFF) ≡ true =
      all_below-true 256 (λ y. not (y == bit_xor y 0xFF)) x flips h in
    ground arith

-- What an item leaves behind.
record IsRead (s : Assembler) (out : List FtSample) (is : List Item) (t : Feed) : Type 0 where
  waits : t.0.state ≡ at_sync1
  stats_are : t.0.stats ≡ counts s.stats is
  samples_are : t.1 ≡ out ++ samples_of is

noise_lem :
    (max_out : ℕ) (s : Assembler) (out : List FtSample) (b : ℕ)
    → s.state ≡ at_sync1
    → b ≢ 0xAA
    → IsRead s out (noise b ∷ []) (feed_from max_out (s, out) (b ∷ []))
unfolding feed_from step skip samples_of counts counted
noise_lem max_out s out b h n = ground (arith, append-nil out)

counts-cons :
    (t u : AssemblerStats) (i : Item) (is : List Item)
    → u ≡ counts t (i ∷ [])
    → counts u is ≡ counts t (i ∷ is)
unfolding counts
counts-cons t u i is e = ap (λ v. counts v is) e

item_lem :
    (max_out : ℕ) (s : Assembler) (out : List FtSample) (i : Item)
    → s.state ≡ at_sync1
    → IsItem i
    → length out + length (samples_of (i ∷ [])) ≤ max_out
    → IsRead s out (i ∷ []) (feed_from max_out (s, out) (bytes_of i))
unfolding bytes_of build_frame samples_of counts
item_lem max_out s out (whole pn wrench) h (p, n) room =
    let (a, b, c) = finish-good max_out s out pn wrench p n (omega arith) in
    let frame =
      feed_from-frame max_out s out (((pn / 256) % 256) ∷ (pn % 256) ∷ wrench) (sum_of wrench % 256)
        h (omega arith) in
    rw frame (record { waits = a; stats_are = b; samples_are = c })
item_lem max_out s out (spoilt pn wrench) h (p, n) room =
    let check = bit_xor (sum_of wrench % 256) 0xFF in
    let (a, b, c) =
      finish-bad max_out s out pn wrench check n (bit_xor-ne (sum_of wrench % 256) (omega arith)) in
    let frame =
      feed_from-frame max_out s out (((pn / 256) % 256) ∷ (pn % 256) ∷ wrench) check h
        (omega arith) in
    rw frame (record { waits = a; stats_are = b; samples_are = c ∙ sym (append-nil out) })
item_lem max_out s out (noise b) h i room = noise_lem max_out s out b h i

samples_of-cons :
    (i : Item) (is : List Item) → samples_of (i ∷ is) ≡ samples_of (i ∷ []) ++ samples_of is
unfolding samples_of
samples_of-cons (whole pn wrench) is = refl
samples_of-cons (spoilt pn wrench) is = refl
samples_of-cons (noise b) is = refl

stream_lem :
    (max_out : ℕ) (is : List Item) (s : Assembler) (out : List FtSample)
    → s.state ≡ at_sync1
    → All IsItem is
    → length out + length (samples_of is) ≤ max_out
    → IsRead s out is (feed_from max_out (s, out) (stream_of is))
stream_lem max_out [] s out h v room =
    unfold stream_of feed_from samples_of counts in
    (record { waits = h; stats_are = refl; samples_are = sym (append-nil out) })
stream_lem max_out (i ∷ is) s out h (v, vs) room =
    let split = samples_of-cons i is in
    let enough : length out + (length (samples_of (i ∷ [])) + length (samples_of is)) ≤ max_out =
      omega (arith, ap length split, length-append (samples_of (i ∷ [])) (samples_of is)) in
    let t = feed_from max_out (s, out) (bytes_of i) in
    let first = item_lem max_out s out i h v (omega arith) in
    let fits : length t.1 + length (samples_of is) ≤ max_out =
      omega (arith, ap length first.samples_are, length-append out (samples_of (i ∷ []))) in
    let later = stream_lem max_out is t.0 t.1 first.waits vs fits in
    let whole_run : feed_from max_out (s, out) (stream_of (i ∷ is))
        ≡ feed_from max_out t (stream_of is) =
      unfold stream_of in feed_from-append max_out (s, out) (bytes_of i) (stream_of is) in
    subst (IsRead s out (i ∷ is)) (sym whole_run) (record {
      waits = later.waits;
      stats_are = later.stats_are ∙ counts-cons s.stats t.0.stats i is first.stats_are;
      samples_are =
          later.samples_are
          ∙ ap (λ l. l ++ samples_of is) first.samples_are
          ∙ append_assoc out (samples_of (i ∷ [])) (samples_of is)
          ∙ ap (λ l. out ++ l) (sym split);
    })

-- Where the assembler waits for a frame and its caller has room, a stream of whole frames, frames
-- with a spoilt checksum and bytes of noise that are no first sync byte gives exactly the samples of
-- the whole frames, in order, with their package numbers; each frame, spoilt frame and byte of noise
-- is counted as such; and the assembler waits for a frame again.
pub feed-stream_of :
    (s : Assembler) (is : List Item) (max_out : ℕ)
    → s.state ≡ at_sync1
    → All IsItem is
    → length (samples_of is) ≤ max_out
    → let (t, out) = feed s (stream_of is) max_out in
      (out ≡ samples_of is) × (t.stats ≡ counts s.stats is) × (t.state ≡ at_sync1)
unfolding feed
feed-stream_of s is max_out h v room =
    let r = stream_lem max_out is s [] h v (omega arith) in (r.samples_are, r.stats_are, r.waits)
