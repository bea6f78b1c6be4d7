-- ===== src/Sri/Frame/Tests.antt =====
-- A stream of an acknowledgement, a frame, a spoilt frame and a frame.
use kuka_iiqka_ros.Prelude.{ℕ, List, [], ◌∷◌, length, ◌≡◌, refl, arith, ◌≤◌, replicate}
use kuka_iiqka_ros.Sri.Frame.{
  FtSample, at_sync1, new, no_stats, feed, step, build_frame, finish, skip,
}
use kuka_iiqka_ros.Sri.Frame.Stream.{
  Item, whole, spoilt, noise, stream_of, bytes_of, samples_of, counts, counted,
}
use kuka_iiqka_ros.Sri.Frame.Items.{feed-stream_of}
use kuka_iiqka_ros.Sri.Frame.Bounds.{HasRoom, feed-bounds}

abbrev wrench : ℕ → List ℕ
wrench k = k ∷ replicate 23 7

abbrev stream : List Item
stream =
    noise 65 ∷ noise 10 ∷ whole 300 (wrench 1) ∷ spoilt 301 (wrench 2) ∷ whole 302 (wrench 3) ∷ []

abbrev expected : List FtSample
expected =
    record { raw = wrench 1; package_number = 300 }
    ∷ record { raw = wrench 3; package_number = 302 }
    ∷ []

decodes : (feed new (stream_of stream) 80).1 ≡ expected
unfolding feed step skip finish stream_of bytes_of build_frame
decodes = refl

feed-stream_of_example :
    let (t, out) = feed new (stream_of stream) 80 in
    (out ≡ expected)
    × (t.stats ≡ record no_stats { frames = 2; bad_checksum = 1; skipped_bytes = 2 })
    × (t.state ≡ at_sync1)
unfolding samples_of counts counted
feed-stream_of_example =
    feed-stream_of new stream 80 refl
      (λ e. omega arith, (λ e. omega arith, (omega arith, (omega arith, (omega arith, tt)))))
      (omega arith)

feed-bounds_example :
    let (t, out) = feed new (0xAA ∷ 0x55 ∷ 0 ∷ 27 ∷ replicate 40 1) 0 in
    HasRoom t × (length out ≤ 0)
feed-bounds_example =
    feed-bounds new (0xAA ∷ 0x55 ∷ 0 ∷ 27 ∷ replicate 40 1) 0 (record { room = λ e. cc })
