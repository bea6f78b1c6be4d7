-- ===== src/Eki/MockServer/Cuts.antt =====
-- The loop that cuts the received bytes into commands.
use kuka_iiqka_ros.Prelude.{
  length-drop, ℕ, zero, suc, ◌+◌, ◌<◌, Option, some, List, [], ◌∷◌, length, take, drop, ◌≡◌, refl,
  arith, IsSome, is_some, Option-cases, inl, inr, ap,
}
use kuka_iiqka_ros.Eki.Splitter.{find}
use kuka_iiqka_ros.Eki.Splitter.Find.{find-length}
use kuka_iiqka_ros.Eki.MockServer.{cmd_end_tag, cut_loop, cut, with_document}

-- Every turn but the last takes a document from the buffer.
cut_loop-shrinks :
    (buffer : List ℕ) (end : ℕ)
    → find cmd_end_tag buffer ≡ some end
    → length (drop (end + length cmd_end_tag) buffer) < length buffer
unfolding cmd_end_tag
cut_loop-shrinks buffer end found =
    omega (arith, length-drop (end + 15) buffer, find-length cmd_end_tag buffer end found)

with_document-IsSome :
    (doc : List ℕ) (o : Option (List (List ℕ) × List ℕ)) → IsSome o → IsSome (with_document doc o)
with_document-IsSome doc _ (is_some r) = is_some (doc ∷ r.0, r.1)

cut_loop-cuts :
    (fuel : ℕ) (buffer : List ℕ) (end : ℕ)
    → find cmd_end_tag buffer ≡ some end
    → cut_loop (suc fuel) buffer
      ≡ with_document
          (take (end + length cmd_end_tag) buffer)
          (cut_loop fuel (drop (end + length cmd_end_tag) buffer))
unfolding cut_loop
cut_loop-cuts fuel buffer end found = rw (found, cut_loop) refl

cut_loop-ends : (fuel : ℕ) (buffer : List ℕ) → length buffer < fuel → IsSome (cut_loop fuel buffer)
unfolding cut_loop
cut_loop-ends zero buffer h = ground arith
cut_loop-ends (suc fuel) buffer h = elim (Option-cases (find cmd_end_tag buffer)) [
  | inl absent ↦ rw (absent, cut_loop) (is_some _)
  | inr (end, found) ↦ rw (cut_loop-cuts fuel buffer end found) (
      with_document-IsSome (take (end + length cmd_end_tag) buffer)
        (cut_loop fuel (drop (end + length cmd_end_tag) buffer))
        (cut_loop-ends fuel (drop (end + length cmd_end_tag) buffer)
          (omega (arith, cut_loop-shrinks buffer end found))))
]

-- The fuel of `cut` is enough.
cut-ends : (buffer : List ℕ) → IsSome (cut buffer)
unfolding cut
cut-ends buffer = cut_loop-ends (suc (length buffer)) buffer (omega arith)

take_all : (n : ℕ) (xs : List ℕ) → n ≡ length xs → (take n xs ≡ xs) × (drop n xs ≡ [])
take_all zero [] h = (refl, refl)
take_all zero (x ∷ xs) h = ground arith
take_all (suc n) [] h = ground arith
take_all (suc n) (x ∷ xs) h =
    let (taken, dropped) = take_all n xs (omega arith) in (ap (λ l. x ∷ l) taken, dropped)

-- Bytes that end with their first end tag are one document.
pub cut-one :
    (bytes : List ℕ) (end : ℕ)
    → find cmd_end_tag bytes ≡ some end
    → end + 15 ≡ length bytes
    → cut bytes ≡ some (bytes ∷ [], [])
unfolding cut cmd_end_tag cut_loop
cut-one [] end found whole = ground arith
cut-one (x ∷ xs) end found whole =
    let (taken, dropped) = take_all (end + 15) (x ∷ xs) whole in
    rw (cut_loop-cuts (length (x ∷ xs)) (x ∷ xs) end found) (rw (taken, dropped) refl)
