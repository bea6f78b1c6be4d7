-- ===== src/Eki/Splitter/Ends.antt =====
-- The loop of `feed` ends, and what it does in all.
use kuka_iiqka_ros.Prelude.{
  length-drop, ℕ, zero, suc, ◌+◌, ◌≤◌, ◌<◌, ltb, Option, none, some, List, [], ◌++◌, length, ◌≡◌,
  drop, refl, arith, inl, inr, Option-cases, ◌⊎◌, sym, ◌∙◌, ap, subst, IsSome, is_some, if_cases,
}
use kuka_iiqka_ros.Eki.Splitter.{
  max_doc, start_tag, end_tag, find, Turn, returns, goes_on, with_documents, cut_at, scan_at, turn,
  loop, feed,
}
use kuka_iiqka_ros.Eki.Splitter.Find.{find-length}

-- A turn that goes on has taken bytes out of the buffer of the length.
data Shorter (n : ℕ) : Turn → Type 0 where
  at_end : (rest : List ℕ) → Shorter n (returns rest)
  shorter : (docs : List (List ℕ)) (rest : List ℕ) → length rest < n → Shorter n (goes_on docs rest)

Shorter-le : (m n : ℕ) (t : Turn) → m ≤ n → Shorter m t → Shorter n t
Shorter-le m n _ h (at_end rest) = at_end rest
Shorter-le m n _ h (shorter docs rest less) = shorter docs rest (omega arith)

pub start_length : length start_tag ≡ 11
unfolding start_tag
start_length = refl

pub end_length : length end_tag ≡ 13
unfolding end_tag
end_length = refl

cut_at-Shorter :
    (buffer : List ℕ) (end : Option ℕ)
    → 0 < length buffer
    → Shorter (length buffer) (cut_at buffer end)
unfolding cut_at
cut_at-Shorter buffer none h =
    if_cases (Shorter (length buffer)) (ltb max_doc (length buffer))
      (goes_on [] (drop (length start_tag) buffer)) (returns buffer)
      (λ _. shorter [] _ (omega (arith, length-drop (length start_tag) buffer, start_length)))
      (λ _. at_end buffer)
cut_at-Shorter buffer (some end) h =
    shorter _ _ (omega (arith, length-drop (end + length end_tag) buffer, end_length))

turn-Shorter : (buffer : List ℕ) → Shorter (length buffer) (turn buffer)
unfolding turn scan_at
turn-Shorter buffer = elim (Option-cases (find start_tag buffer)) [
  | inl absent ↦ rw absent (at_end _)
  | inr (start, found) ↦ rw found (
      Shorter-le (length (drop start buffer)) (length buffer) _
        (omega (arith, length-drop start buffer))
        (cut_at-Shorter (drop start buffer) (find end_tag (drop start buffer)) (
          omega (
            arith,
            find-length start_tag buffer start found,
            start_length,
            length-drop start buffer,
          ))))
]

-- The documents of a buffer and what stays of it, as the loop takes them out.
pub data Scans : List ℕ → List (List ℕ) → List ℕ → Type 0 where
  stops : (buffer rest : List ℕ) → turn buffer ≡ returns rest → Scans buffer [] rest
  goes :
      (buffer next rest : List ℕ) (docs more : List (List ℕ))
      → turn buffer ≡ goes_on docs next
      → Scans next more rest
      → Scans buffer (docs ++ more) rest

-- A result of the loop that is one of the buffer's.
pub data Runs (buffer : List ℕ) : Option (List (List ℕ) × List ℕ) → Type 0 where
  runs :
      (docs : List (List ℕ)) (rest : List ℕ)
      → Scans buffer docs rest
      → Runs buffer (some (docs, rest))

Turn-cases :
    (t : Turn)
    → ((rest : List ℕ) × (t ≡ returns rest))
      ⊎ ((docs : List (List ℕ)) × (rest : List ℕ) × (t ≡ goes_on docs rest))
Turn-cases (returns rest) = inl (rest, refl)
Turn-cases (goes_on docs rest) = inr (docs, rest, refl)

loop-returns :
    (fuel : ℕ) (buffer rest : List ℕ)
    → turn buffer ≡ returns rest
    → loop (suc fuel) buffer ≡ some ([], rest)
unfolding loop
loop-returns fuel buffer rest e = rw (e, loop) refl

loop-goes_on :
    (fuel : ℕ) (buffer rest : List ℕ) (docs : List (List ℕ))
    → turn buffer ≡ goes_on docs rest
    → loop (suc fuel) buffer ≡ with_documents docs (loop fuel rest)
unfolding loop
loop-goes_on fuel buffer rest docs e = rw (e, loop) refl

with_documents-Runs :
    (buffer next : List ℕ) (docs : List (List ℕ)) (o : Option (List (List ℕ) × List ℕ))
    → turn buffer ≡ goes_on docs next
    → Runs next o
    → Runs buffer (with_documents docs o)
with_documents-Runs buffer next docs _ e (runs more rest scans) =
    runs (docs ++ more) rest (goes buffer next rest docs more e scans)

pub turn-length :
    (buffer rest : List ℕ) (docs : List (List ℕ))
    → turn buffer ≡ goes_on docs rest
    → length rest < length buffer
turn-length buffer rest docs e = elim (subst (Shorter (length buffer)) e (turn-Shorter buffer)) [
  | shorter _ _ less ↦ less
]

pub loop-Runs : (fuel : ℕ) (buffer : List ℕ) → length buffer < fuel → Runs buffer (loop fuel buffer)
loop-Runs zero buffer h = ground arith
loop-Runs (suc fuel) buffer h = elim (Turn-cases (turn buffer)) [
  | inl (rest, e) ↦ rw (loop-returns fuel buffer rest e) (runs [] rest (stops buffer rest e))
  | inr (docs, rest, e) ↦ rw (loop-goes_on fuel buffer rest docs e) (
      with_documents-Runs buffer rest docs (loop fuel rest) e
        (loop-Runs fuel rest (omega (arith, turn-length buffer rest docs e))))
]

pub Scans-loop :
    (fuel : ℕ) (buffer rest : List ℕ) (docs : List (List ℕ))
    → length buffer < fuel
    → Scans buffer docs rest
    → loop fuel buffer ≡ some (docs, rest)
Scans-loop zero buffer rest docs h scans = ground arith
Scans-loop (suc fuel) buffer rest _ h (stops _ _ e) = loop-returns fuel buffer rest e
Scans-loop (suc fuel) buffer rest _ h (goes _ next _ docs more e scans) =
    loop-goes_on fuel buffer next docs e
    ∙ ap (with_documents docs)
        (Scans-loop fuel next rest more (omega (arith, turn-length buffer next docs e)) scans)

pub Runs-cases :
    (buffer : List ℕ) (o : Option (List (List ℕ) × List ℕ))
    → Runs buffer o
    → (docs : List (List ℕ)) × (rest : List ℕ) × (o ≡ some (docs, rest)) × Scans buffer docs rest
Runs-cases buffer _ (runs docs rest scans) = (docs, rest, refl, scans)

pub feed-Runs : (buffer bytes : List ℕ) → Runs (buffer ++ bytes) (feed buffer bytes)
unfolding feed
feed-Runs buffer bytes = loop-Runs _ (buffer ++ bytes) (omega arith)

-- The loop of every call ends: the fuel of `feed` is enough for it, and with any more of it the loop
-- gives the same.
feed-ends :
    (buffer bytes : List ℕ) (fuel : ℕ)
    → length (buffer ++ bytes) < fuel
    → IsSome (feed buffer bytes) × (loop fuel (buffer ++ bytes) ≡ feed buffer bytes)
unfolding feed
feed-ends buffer bytes fuel h =
    let all = buffer ++ bytes in
    let (docs, rest, e, scans) =
      Runs-cases all (loop (suc (length all)) all)
        (loop-Runs (suc (length all)) all (omega arith)) in
    (rw e (is_some (docs, rest)), Scans-loop fuel all rest docs h scans ∙ sym e)
