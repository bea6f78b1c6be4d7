-- ===== src/Eki/Splitter/Documents.antt =====
-- What the splitter hands on, and what it keeps.
use kuka_iiqka_ros.Prelude.{
  length-drop, ℕ, zero, suc, ◌+◌, ◌-◌, ◌≤◌, true, ltb, leb, Option, none, some, List, [], ◌∷◌, ◌++◌,
  length, ◌≡◌, take, drop, take-drop, refl, arith, Bool-cases, inl, inr, Option-cases, sym, ◌∙◌, ap,
  subst, if_cases, All, Gives, gives,
}
use kuka_iiqka_ros.Eki.Splitter.{
  max_doc, start_tag, end_tag, has_prefix, find, Turn, returns, goes_on, keep_tail, cut_at, scan_at,
  turn, feed,
}
use kuka_iiqka_ros.Eki.Splitter.Find.{
  has_prefix-append, find-length, find-append, find-drop, shift, shift-some, shift-none, find-tail,
}
use kuka_iiqka_ros.Eki.Splitter.Ends.{start_length, end_length, Scans, stops, goes, Runs-cases}
use kuka_iiqka_ros.Eki.Splitter.Ends.{feed-Runs}

length-take : (n : ℕ) (xs : List ℕ) → n ≤ length xs → length (take n xs) ≡ n
length-take zero xs h = refl
length-take (suc n) [] h = ground arith
length-take (suc n) (x ∷ xs) h = omega (arith, length-take n xs)

-- It begins with the start tag, ends with the first end tag in it, and is not too long.
pub record IsDocument (doc : List ℕ) : Type 0 where
  pub begins : has_prefix start_tag doc ≡ true
  pub ends : find end_tag doc ≡ some (length doc - length end_tag)
  pub size : length doc ≤ max_doc

find-here : (t xs : List ℕ) → find t xs ≡ some 0 → has_prefix t xs ≡ true
find-here t [] h = elim (Bool-cases (has_prefix t [])) [
  | inl here ↦ here
  | inr absent ↦ ground arith
]
find-here t (x ∷ xs) h = elim (Bool-cases (has_prefix t (x ∷ xs))) [
  | inl here ↦ here
  | inr absent ↦ elim (Option-cases (find t xs)) [
    | inl nowhere ↦ ground arith
    | inr (i, later) ↦ ground arith
  ]
]

shift-least : (k i : ℕ) (o : Option ℕ) → shift k o ≡ some i → k ≤ i
shift-least k i none h = ground (arith, shift-none k)
shift-least k i (some j) h = ground (arith, shift-some k j)

-- A tag that ends in the first part stands in it.
find-take :
    (t xs ys : List ℕ) (i : ℕ)
    → find t (xs ++ ys) ≡ some i
    → i + length t ≤ length xs
    → find t xs ≡ some i
find-take t xs ys i h fits = elim (Option-cases (find t xs)) [
  | inl absent ↦
      let k = suc (length xs) - length t in
      let least =
        shift-least k i (find t (drop k xs ++ ys))
          (sym (find-tail t xs ys k absent (omega arith)) ∙ h) in
      ground arith
  | inr (j, found) ↦ found ∙ sym (find-append t xs ys j found) ∙ h
]

taken-IsDocument :
    (xs : List ℕ) (end : ℕ)
    → has_prefix start_tag xs ≡ true
    → find end_tag xs ≡ some end
    → end + length end_tag ≤ max_doc
    → IsDocument (take (end + length end_tag) xs)
taken-IsDocument xs end begins ends size =
    let n = end + length end_tag in
    let fits = find-length end_tag xs end ends in
    let long = length-take n xs fits in
    let whole = take-drop n xs in
    record {
      begins =
          sym (
            has_prefix-append start_tag (take n xs) (drop n xs)
              (omega (arith, start_length, end_length, long)))
          ∙ ap (has_prefix start_tag) whole
          ∙ begins;
      ends =
          find-take end_tag (take n xs) (drop n xs) end (ap (find end_tag) whole ∙ ends)
            (omega (arith, long))
          ∙ ap some (omega (arith, long));
      size = omega (arith, long);
    }

-- What a turn hands on, or keeps.
data IsSound : Turn → Type 0 where
  keeps : (rest : List ℕ) → length rest ≤ max_doc → IsSound (returns rest)
  hands_on :
      (docs : List (List ℕ)) (rest : List ℕ) → All IsDocument docs → IsSound (goes_on docs rest)

cut_at-IsSound :
    (xs : List ℕ) → has_prefix start_tag xs ≡ true → IsSound (cut_at xs (find end_tag xs))
unfolding cut_at
cut_at-IsSound xs begins = elim (Option-cases (find end_tag xs)) [
  | inl absent ↦ rw absent (
      if_cases IsSound (ltb max_doc (length xs)) (goes_on [] (drop (length start_tag) xs))
        (returns xs) (λ _. hands_on [] _ tt) (λ short. keeps xs (ground arith)))
  | inr (end, found) ↦
      let n = end + length end_tag in
      rw found (
        hands_on _ _ (
          if_cases (All IsDocument) (leb n max_doc) (take n xs ∷ []) []
            (λ fits. (taken-IsDocument xs end begins found (ground arith), tt)) (λ _. tt)))
]

keep_tail-length : (xs : List ℕ) → length (keep_tail xs) ≤ max_doc
unfolding keep_tail
keep_tail-length xs =
    if_cases (λ l. length l ≤ max_doc) (leb (length start_tag) (length xs))
      (drop (length xs - (length start_tag - 1)) xs) xs
      (λ _. omega (arith, start_length, length-drop (length xs - (length start_tag - 1)) xs))
      (λ short. ground (arith, start_length))

turn-IsSound : (xs : List ℕ) → IsSound (turn xs)
unfolding turn scan_at
turn-IsSound xs = elim (Option-cases (find start_tag xs)) [
  | inl absent ↦ rw absent (keeps (keep_tail xs) (keep_tail-length xs))
  | inr (start, found) ↦ rw found (
      cut_at-IsSound (drop start xs)
        (find-here start_tag (drop start xs) (find-drop start_tag xs start found)))
]

IsSound-keeps : (rest : List ℕ) → IsSound (returns rest) → length rest ≤ max_doc
IsSound-keeps rest (keeps _ h) = h

IsSound-hands_on :
    (docs : List (List ℕ)) (rest : List ℕ) → IsSound (goes_on docs rest) → All IsDocument docs
IsSound-hands_on docs rest (hands_on _ _ h) = h

All-append :
    (docs more : List (List ℕ))
    → All IsDocument docs
    → All IsDocument more
    → All IsDocument (docs ++ more)
All-append [] more h k = k
All-append (doc ∷ docs) more (d, h) k = (d, All-append docs more h k)

Scans-sound :
    (xs rest : List ℕ) (docs : List (List ℕ))
    → Scans xs docs rest
    → All IsDocument docs × (length rest ≤ max_doc)
Scans-sound xs rest _ (stops _ _ e) = (tt, IsSound-keeps rest (subst IsSound e (turn-IsSound xs)))
Scans-sound xs rest _ (goes _ next _ docs more e scans) =
    let (later, size) = Scans-sound next rest more scans in
    (
      All-append docs more (IsSound-hands_on docs next (subst IsSound e (turn-IsSound xs))) later,
      size,
    )

-- Every call returns, what it hands on are documents, which begin with a start tag, end with the first
-- end tag in them and are no longer than 8192 bytes, and no more bytes than that stay in the buffer.
pub feed_sound :
    (buffer bytes : List ℕ)
    → Gives (λ r. All IsDocument r.0 × (length r.1 ≤ max_doc)) (feed buffer bytes)
feed_sound buffer bytes =
    let (docs, rest, e, scans) =
      Runs-cases (buffer ++ bytes) (feed buffer bytes) (feed-Runs buffer bytes) in
    rw e (gives (docs, rest) (Scans-sound (buffer ++ bytes) rest docs scans))
