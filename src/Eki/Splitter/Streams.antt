-- ===== src/Eki/Splitter/Streams.antt =====
-- A stream of several calls, against one call with all its bytes.
use kuka_iiqka_ros.Prelude.{
  ℕ, ◌≤◌, Option, none, some, List, [], ◌∷◌, ◌++◌, length, ◌≡◌, refl, arith, sym, ◌∙◌, ap, subst,
}
use mathlib.Core.List.{append_assoc, append-nil}
use kuka_iiqka_ros.Eki.Splitter.{max_doc, with_documents, feed}
use kuka_iiqka_ros.Eki.Splitter.Ends.{Scans, Runs, runs, Scans-loop, Runs-cases, feed-Runs}
use kuka_iiqka_ros.Eki.Splitter.Cuts.{Scans-append}

-- The calls of a stream, one after the other.
unfoldable pub feeds : List ℕ → List (List ℕ) → Option (List (List ℕ) × List ℕ)
feeds buffer [] = some ([], buffer)
feeds buffer (bytes ∷ chunks) = elim (feed buffer bytes) [
  | none ↦ none
  | some r ↦ with_documents r.0 (feeds r.1 chunks)
]

-- In every call but the last the buffer with the new bytes is no longer than a document may be.
pub data Fits : List ℕ → List (List ℕ) → Type 0 where
  last : (buffer bytes : List ℕ) → Fits buffer (bytes ∷ [])
  and_then :
      (buffer bytes next rest : List ℕ) (chunks docs : List (List ℕ))
      → length (buffer ++ bytes) ≤ max_doc
      → feed buffer bytes ≡ some (docs, rest)
      → Fits rest (next ∷ chunks)
      → Fits buffer (bytes ∷ next ∷ chunks)

abbrev pub joined : List (List ℕ) → List ℕ
joined [] = []
joined (bytes ∷ chunks) = bytes ++ joined chunks

Scans-feed :
    (buffer bytes rest : List ℕ) (docs : List (List ℕ))
    → Scans (buffer ++ bytes) docs rest
    → feed buffer bytes ≡ some (docs, rest)
unfolding feed
Scans-feed buffer bytes rest docs = Scans-loop _ (buffer ++ bytes) rest docs (omega arith)

some-Scans :
    (xs rest : List ℕ) (docs : List (List ℕ)) → Runs xs (some (docs, rest)) → Scans xs docs rest
some-Scans xs rest docs (runs _ _ scans) = scans

feeds-step :
    (buffer bytes rest : List ℕ) (docs chunks : List (List ℕ))
    → feed buffer bytes ≡ some (docs, rest)
    → feeds buffer (bytes ∷ chunks) ≡ with_documents docs (feeds rest chunks)
unfolding feeds
feeds-step buffer bytes rest docs chunks e = rw (feeds, e) refl

-- The documents of a stream, and the bytes that stay, are those of one call with all its bytes,
-- however the stream is cut, as long as in every call but the last the buffer with the new bytes is
-- no longer than a document may be.
pub feeds-joined :
    (buffer : List ℕ) (chunks : List (List ℕ))
    → Fits buffer chunks
    → feeds buffer chunks ≡ feed buffer (joined chunks)
feeds-joined buffer _ (last _ bytes) =
    let (docs, rest, e, scans) =
      Runs-cases (buffer ++ bytes) (feed buffer bytes) (feed-Runs buffer bytes) in
    feeds-step buffer bytes rest docs [] e
    ∙ unfold feeds in rw (append-nil docs, append-nil bytes) (sym e)
feeds-joined buffer _ (and_then _ bytes next rest chunks docs h e fits) =
    let tail = joined (next ∷ chunks) in
    let (more, end, found, later) =
      Runs-cases (rest ++ tail) (feed rest tail) (feed-Runs rest tail) in
    let scans =
      some-Scans (buffer ++ bytes) rest docs
        (subst (Runs (buffer ++ bytes)) e (feed-Runs buffer bytes)) in
    let all = Scans-append (buffer ++ bytes) tail rest end docs more h scans later in
    feeds-step buffer bytes rest docs (next ∷ chunks) e
    ∙ ap (with_documents docs) (feeds-joined rest (next ∷ chunks) fits ∙ found)
    ∙ sym (
        Scans-feed buffer (bytes ++ tail) end (docs ++ more)
          (subst (λ l. Scans l (docs ++ more) end) (append_assoc buffer bytes tail) all))
