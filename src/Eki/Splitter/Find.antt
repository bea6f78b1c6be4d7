-- ===== src/Eki/Splitter/Find.antt =====
-- Where a tag stands in a text, and in a longer one.
use kuka_iiqka_ros.Prelude.{
  ℕ, zero, suc, ◌+◌, ◌≤◌, true, Option, none, some, List, [], ◌∷◌, ◌++◌, length, ◌≡◌, take, drop,
  refl, arith, Bool-cases, inl, inr, Option-cases,
}
use kuka_iiqka_ros.Eki.Splitter.{has_prefix, next_index, find}

pub drop-append : (n : ℕ) (xs ys : List ℕ) → n ≤ length xs → drop n (xs ++ ys) ≡ drop n xs ++ ys
drop-append zero xs ys h = refl
drop-append (suc n) [] ys h = ground arith
drop-append (suc n) (x ∷ xs) ys h = drop-append n xs ys (omega arith)

pub take-append : (n : ℕ) (xs ys : List ℕ) → n ≤ length xs → take n (xs ++ ys) ≡ take n xs
take-append zero xs ys h = refl
take-append (suc n) [] ys h = ground arith
take-append (suc n) (x ∷ xs) ys h = rw (take-append n xs ys (omega arith)) refl

pub drop-drop : (m n : ℕ) (xs : List ℕ) → drop m (drop n xs) ≡ drop (n + m) xs
drop-drop m zero xs = let e : 0 + m ≡ m = omega arith in rw e refl
drop-drop zero (suc n) [] = ground arith
drop-drop (suc m) (suc n) [] = let e : suc n + suc m ≡ suc (n + suc m) = omega arith in rw e refl
drop-drop m (suc n) (x ∷ xs) =
    let e : suc n + m ≡ suc (n + m) = omega arith in rw e (drop-drop m n xs)

-- A text that is long enough decides.
pub has_prefix-append :
    (t xs ys : List ℕ) → length t ≤ length xs → has_prefix t (xs ++ ys) ≡ has_prefix t xs
has_prefix-append [] xs ys h = refl
has_prefix-append (t ∷ ts) [] ys h = ground arith
has_prefix-append (t ∷ ts) (x ∷ xs) ys h = rw (has_prefix-append ts xs ys (omega arith)) refl

pub has_prefix-length : (t xs : List ℕ) → has_prefix t xs ≡ true → length t ≤ length xs
has_prefix-length [] xs h = omega arith
has_prefix-length (t ∷ ts) [] h = ground arith
has_prefix-length (t ∷ ts) (x ∷ xs) h = ground (arith, has_prefix-length ts xs)

pub find-length : (t xs : List ℕ) (i : ℕ) → find t xs ≡ some i → i + length t ≤ length xs
find-length t [] i h = ground (arith, has_prefix-length t [])
find-length t (x ∷ xs) i h = elim (Bool-cases (has_prefix t (x ∷ xs))) [
  | inl here ↦ ground (arith, has_prefix-length t (x ∷ xs) here)
  | inr later ↦ elim (Option-cases (find t xs)) [
    | inl absent ↦ ground arith
    | inr (j, found) ↦ ground (arith, find-length t xs j found)
  ]
]

has_prefix-find : (t xs : List ℕ) → has_prefix t xs ≡ true → find t xs ≡ some 0
has_prefix-find t [] h = rw h refl
has_prefix-find t (x ∷ xs) h = rw h refl

-- A tag that stands in a text stands at the same place in a longer one.
pub find-append : (t xs ys : List ℕ) (i : ℕ) → find t xs ≡ some i → find t (xs ++ ys) ≡ some i
find-append t [] ys i h = elim (Bool-cases (has_prefix t [])) [
  | inl here ↦
      ground (arith, has_prefix-find t ys, has_prefix-length t [] here, has_prefix-append t [] ys)
  | inr absent ↦ ground arith
]
find-append t (x ∷ xs) ys i h = elim (Bool-cases (has_prefix t (x ∷ xs))) [
  | inl here ↦ ground (arith, has_prefix-append t (x ∷ xs) ys, has_prefix-length t (x ∷ xs) here)
  | inr absent ↦ elim (Option-cases (find t xs)) [
    | inl none_found ↦ ground arith
    | inr (j, found) ↦ ground (
      arith,
      has_prefix-append t (x ∷ xs) ys,
      find-length t xs j found,
      find-append t xs ys j found,
    )
  ]
]

-- The tag stands at the front of what is left of a text from its place on.
pub find-drop : (t xs : List ℕ) (i : ℕ) → find t xs ≡ some i → find t (drop i xs) ≡ some 0
find-drop t [] zero h = h
find-drop t [] (suc i) h = elim (Bool-cases (has_prefix t [])) [
  | inl here ↦ ground arith
  | inr absent ↦ ground arith
]
find-drop t (x ∷ xs) zero h = h
find-drop t (x ∷ xs) (suc i) h = elim (Bool-cases (has_prefix t (x ∷ xs))) [
  | inl here ↦ ground arith
  | inr absent ↦ elim (Option-cases (find t xs)) [
    | inl none_found ↦ ground arith
    | inr (j, found) ↦ find-drop t xs i (ground arith)
  ]
]

abbrev pub shift : ℕ → Option ℕ → Option ℕ
shift zero o = o
shift (suc k) o = next_index (shift k o)

pub shift-some : (k i : ℕ) → shift k (some i) ≡ some (k + i)
shift-some zero i = ground arith
shift-some (suc k) i = ground (arith, shift-some k i)

pub shift-none : (k : ℕ) → shift k none ≡ none
shift-none zero = refl
shift-none (suc k) = rw (shift-none k) refl

-- Where no tag stands, it can only begin in the last bytes, of which there are fewer than it has.
pub find-tail :
    (t xs ys : List ℕ) (k : ℕ)
    → find t xs ≡ none
    → k + length t ≤ suc (length xs)
    → find t (xs ++ ys) ≡ shift k (find t (drop k xs ++ ys))
find-tail t xs ys zero h fits = refl
find-tail [] [] ys (suc k) h fits = ground arith
find-tail (t ∷ ts) [] ys (suc k) h fits = ground arith
find-tail t (x ∷ xs) ys (suc k) h fits = elim (Bool-cases (has_prefix t (x ∷ xs))) [
  | inl here ↦ ground arith
  | inr absent ↦ elim (Option-cases (find t xs)) [
    | inl none_found ↦
        ground (arith, has_prefix-append t (x ∷ xs) ys, find-tail t xs ys k none_found)
    | inr (j, found) ↦ ground arith
  ]
]
