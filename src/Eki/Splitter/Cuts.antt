-- ===== src/Eki/Splitter/Cuts.antt =====
-- How the stream is cut into calls does not matter, as long as the buffer is no longer than a document
-- may be.
use kuka_iiqka_ros.Prelude.{
  ℕ, ◌+◌, ◌-◌, ◌≤◌, ltb, leb, Option, none, some, List, ◌++◌, length, length-append, length-drop,
  ◌≡◌, drop, refl, arith, Bool-cases, inl, inr, Option-cases, sym, ◌∙◌, ap, subst, if_cases,
}
use mathlib.Core.List.{append_assoc}
use kuka_iiqka_ros.Eki.Splitter.{
  max_doc, start_tag, end_tag, find, Turn, returns, goes_on, keep_tail, cut_at, scan_at, turn,
}
use kuka_iiqka_ros.Eki.Splitter.Find.{
  drop-append, take-append, drop-drop, find-length, find-append, find-drop, shift, shift-some,
  shift-none, find-tail,
}
use kuka_iiqka_ros.Eki.Splitter.Ends.{start_length, Scans, stops, goes, turn-length}

-- What a turn does with more bytes, against what it does without them.
data Continues (more : List ℕ) : Turn → Turn → Type 0 where
  resumes :
      (rest : List ℕ) (whole : Turn)
      → whole ≡ turn (rest ++ more)
      → Continues more (returns rest) whole
  follows :
      (docs : List (List ℕ)) (rest : List ℕ)
      → Continues more (goes_on docs rest) (goes_on docs (rest ++ more))

keep_tail-drop : (buffer : List ℕ) → keep_tail buffer ≡ drop (length buffer - 10) buffer
unfolding keep_tail
keep_tail-drop buffer =
    if_cases (λ x. x ≡ drop (length buffer - 10) buffer) (leb (length start_tag) (length buffer))
      (drop (length buffer - (length start_tag - 1)) buffer) buffer (λ _. rw start_length refl)
      (λ short. let e : length buffer - 10 ≡ 0 = ground (arith, start_length) in rw e refl)

keep_tail-tail : (k : ℕ) (xs : List ℕ) → k + 10 ≤ length xs → keep_tail (drop k xs) ≡ keep_tail xs
keep_tail-tail k xs h =
    keep_tail-drop (drop k xs)
    ∙ drop-drop (length (drop k xs) - 10) k xs
    ∙ ap (λ n. drop n xs) (omega (arith, length-drop k xs))
    ∙ sym (keep_tail-drop xs)

scan_at-shift :
    (k : ℕ) (xs : List ℕ) (o : Option ℕ)
    → k + 10 ≤ length xs
    → scan_at xs (shift k o) ≡ scan_at (drop k xs) o
unfolding scan_at
scan_at-shift k xs none h = rw (shift-none k) (ap returns (sym (keep_tail-tail k xs h)))
scan_at-shift k xs (some i) h = rw (shift-some k i, drop-drop i k xs) refl

turn-start :
    (xs ys : List ℕ) (start : ℕ)
    → find start_tag xs ≡ some start
    → turn (xs ++ ys) ≡ cut_at (drop start xs ++ ys) (find end_tag (drop start xs ++ ys))
unfolding turn scan_at
turn-start xs ys start found =
    rw
      (
        find-append start_tag xs ys start found,
        drop-append start xs ys (omega (arith, find-length start_tag xs start found)),
      )
      refl

cut_at-none : (xs : List ℕ) → length xs ≤ max_doc → cut_at xs none ≡ returns xs
unfolding cut_at
cut_at-none xs h = ground arith

cut_at-some :
    (xs ys : List ℕ) (end : ℕ)
    → end + length end_tag ≤ length xs
    → Continues ys (cut_at xs (some end)) (cut_at (xs ++ ys) (some end))
unfolding cut_at
cut_at-some xs ys end h =
    let n = end + length end_tag in
    rw (take-append n xs ys h, drop-append n xs ys h) (follows _ (drop n xs))

cut_at-Continues :
    (xs ys : List ℕ)
    → length xs ≤ max_doc
    → find start_tag xs ≡ some 0
    → Continues ys (cut_at xs (find end_tag xs)) (cut_at (xs ++ ys) (find end_tag (xs ++ ys)))
cut_at-Continues xs ys h found = elim (Option-cases (find end_tag xs)) [
  | inl absent ↦
      subst (λ t. Continues ys t (cut_at (xs ++ ys) (find end_tag (xs ++ ys))))
        (sym (cut_at-none xs h) ∙ ap (cut_at xs) (sym absent))
        (resumes xs _ (sym (turn-start xs ys 0 found)))
  | inr (end, there) ↦
      rw (there, find-append end_tag xs ys end there)
        (cut_at-some xs ys end (omega (arith, find-length end_tag xs end there)))
]

turn-here :
    (xs : List ℕ) (start : ℕ)
    → find start_tag xs ≡ some start
    → turn xs ≡ cut_at (drop start xs) (find end_tag (drop start xs))
unfolding turn scan_at
turn-here xs start found = rw found refl

turn-absent : (xs : List ℕ) → find start_tag xs ≡ none → turn xs ≡ returns (keep_tail xs)
unfolding turn scan_at
turn-absent xs absent = rw absent refl

-- A start tag that comes can begin in the tail that is kept, and no sooner.
turn-drop :
    (k : ℕ) (xs ys : List ℕ)
    → find start_tag xs ≡ none
    → k + 10 ≡ length xs
    → turn (xs ++ ys) ≡ turn (drop k xs ++ ys)
unfolding turn
turn-drop k xs ys absent e =
    let o = find start_tag (drop k xs ++ ys) in
    ap (scan_at (xs ++ ys)) (find-tail start_tag xs ys k absent (omega (arith, start_length)))
    ∙ scan_at-shift k (xs ++ ys) o (omega (arith, length-append xs ys))
    ∙ ap (λ l. scan_at l o) (drop-append k xs ys (omega arith))

turn-tail :
    (xs ys : List ℕ) → find start_tag xs ≡ none → turn (xs ++ ys) ≡ turn (keep_tail xs ++ ys)
turn-tail xs ys absent = rw (keep_tail-drop xs) (elim (Bool-cases (ltb (length xs) 10)) [
  | inl short ↦ let e : length xs - 10 ≡ 0 = ground arith in rw e refl
  | inr long ↦ turn-drop (length xs - 10) xs ys absent (ground arith)
])

-- With room for a document in the buffer, a turn does the same with more bytes.
turn-Continues : (xs ys : List ℕ) → length xs ≤ max_doc → Continues ys (turn xs) (turn (xs ++ ys))
turn-Continues xs ys h = elim (Option-cases (find start_tag xs)) [
  | inl absent ↦ rw (turn-absent xs absent) (resumes (keep_tail xs) _ (turn-tail xs ys absent))
  | inr (start, there) ↦
      let doc = drop start xs in
      subst (λ t. Continues ys t (turn (xs ++ ys))) (sym (turn-here xs start there))
        (subst (Continues ys (cut_at doc (find end_tag doc))) (sym (turn-start xs ys start there)) (
          cut_at-Continues doc ys (omega (arith, length-drop start xs))
            (find-drop start_tag xs start there)))
]

Scans-step :
    (xs ys rest : List ℕ) (docs : List (List ℕ))
    → turn ys ≡ turn xs
    → Scans xs docs rest
    → Scans ys docs rest
Scans-step xs ys rest _ e (stops _ _ h) = stops ys rest (e ∙ h)
Scans-step xs ys rest _ e (goes _ next _ docs more h scans) =
    goes ys next rest docs more (e ∙ h) scans

-- The two turns, with the results that they are known by.
Continues-returns :
    (ys rest : List ℕ) (whole : Turn)
    → Continues ys (returns rest) whole
    → whole ≡ turn (rest ++ ys)
Continues-returns ys rest whole (resumes _ _ e) = e

Continues-goes_on :
    (ys next : List ℕ) (docs : List (List ℕ)) (whole : Turn)
    → Continues ys (goes_on docs next) whole
    → whole ≡ goes_on docs (next ++ ys)
Continues-goes_on ys next docs whole (follows _ _) = refl

pub Scans-append :
    (xs ys rest last : List ℕ) (docs more : List (List ℕ))
    → length xs ≤ max_doc
    → Scans xs docs rest
    → Scans (rest ++ ys) more last
    → Scans (xs ++ ys) (docs ++ more) last
Scans-append xs ys rest last _ more h (stops _ _ e) later =
    Scans-step (rest ++ ys) (xs ++ ys) last more
      (Continues-returns ys rest _
        (subst (λ t. Continues ys t (turn (xs ++ ys))) e (turn-Continues xs ys h)))
      later
Scans-append xs ys rest last _ more h (goes _ next _ docs others e scans) later =
    rw (append_assoc docs others more) (
      goes (xs ++ ys) (next ++ ys) last docs (others ++ more)
        (Continues-goes_on ys next docs _
          (subst (λ t. Continues ys t (turn (xs ++ ys))) e (turn-Continues xs ys h)))
        (Scans-append next ys rest last others more (omega (arith, turn-length xs next docs e))
          scans later))
