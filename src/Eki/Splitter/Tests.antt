-- ===== src/Eki/Splitter/Tests.antt =====
-- The splitter on a document between noise, and on the same bytes in three calls.
use kuka_iiqka_ros.Prelude.{ℕ, ◌≤◌, List, [], ◌∷◌, ◌++◌, some, ◌≡◌, refl, arith, length, All, Gives}
use kuka_iiqka_ros.Eki.Splitter.{
  max_doc, start_tag, end_tag, turn, scan_at, cut_at, keep_tail, loop, feed,
}
use kuka_iiqka_ros.Eki.Splitter.Streams.{feeds, joined, Fits, last, and_then, feeds-joined}
use kuka_iiqka_ros.Eki.Splitter.Documents.{IsDocument, feed_sound}

-- `<RobotState/>x</RobotState>`.
abbrev document : List ℕ
document =
    60 ∷ 82 ∷ 111 ∷ 98 ∷ 111 ∷ 116 ∷ 83 ∷ 116 ∷ 97 ∷ 116 ∷ 101 ∷ 47 ∷ 62 ∷ 120 ∷ 60 ∷ 47 ∷ 82 ∷ 111
    ∷ 98 ∷ 111 ∷ 116 ∷ 83 ∷ 116 ∷ 97 ∷ 116 ∷ 101 ∷ 62 ∷ []

abbrev noisy : List ℕ
noisy = 120 ∷ 60 ∷ document ++ (60 ∷ 82 ∷ [])

finds_it : feed [] noisy ≡ some (document ∷ [], 60 ∷ 82 ∷ [])
unfolding feed loop turn scan_at cut_at keep_tail start_tag end_tag
finds_it = refl

-- The start tag and the end tag are cut in two.
abbrev first : List ℕ
first = 120 ∷ 60 ∷ 60 ∷ 82 ∷ 111 ∷ []

abbrev second : List ℕ
second = 98 ∷ 111 ∷ 116 ∷ 83 ∷ 116 ∷ 97 ∷ 116 ∷ 101 ∷ 47 ∷ 62 ∷ 120 ∷ 60 ∷ 47 ∷ 82 ∷ []

abbrev third : List ℕ
third = 111 ∷ 98 ∷ 111 ∷ 116 ∷ 83 ∷ 116 ∷ 97 ∷ 116 ∷ 101 ∷ 62 ∷ 60 ∷ 82 ∷ []

abbrev chunks : List (List ℕ)
chunks = first ∷ second ∷ third ∷ []

chunks-Fits : Fits [] chunks
unfolding feed loop turn scan_at cut_at keep_tail start_tag end_tag
chunks-Fits = and_then [] first second first (third ∷ []) [] (omega arith) refl (
    and_then first second third (60 ∷ 82 ∷ 111 ∷ second) [] [] (omega arith) refl
      (last (60 ∷ 82 ∷ 111 ∷ second) third))

feeds-joined_example : feeds [] chunks ≡ feed [] (joined chunks)
feeds-joined_example = feeds-joined [] chunks chunks-Fits

feed_sound_example : Gives (λ r. All IsDocument r.0 × (length r.1 ≤ max_doc)) (feed [] noisy)
feed_sound_example = feed_sound [] noisy
