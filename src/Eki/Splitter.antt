-- ===== src/Eki/Splitter.antt =====
-- `EkiStreamSplitter` (src/eki_stream_splitter.cpp): the documents in the stream of bytes that the
-- robot program sends.
pub mod Find
mod Ends
mod Cuts
mod Streams
mod Documents
mod Tests
use kuka_iiqka_ros.Prelude.{
  ℕ, zero, suc, ◌+◌, ◌-◌, Bool, true, false, ◌&&◌, ◌==◌, ltb, leb, Option, none, some, List, [],
  ◌∷◌, ◌++◌, length, take, drop, if◌then◌else◌,
}

abbrev pub max_doc : ℕ
max_doc = 8192

-- The bytes of `<RobotState` and `</RobotState>`.
unfoldable pub start_tag : List ℕ
start_tag = 60 ∷ 82 ∷ 111 ∷ 98 ∷ 111 ∷ 116 ∷ 83 ∷ 116 ∷ 97 ∷ 116 ∷ 101 ∷ []

unfoldable pub end_tag : List ℕ
end_tag = 60 ∷ 47 ∷ 82 ∷ 111 ∷ 98 ∷ 111 ∷ 116 ∷ 83 ∷ 116 ∷ 97 ∷ 116 ∷ 101 ∷ 62 ∷ []

abbrev pub has_prefix : List ℕ → List ℕ → Bool
has_prefix [] xs = true
has_prefix (t ∷ ts) [] = false
has_prefix (t ∷ ts) (x ∷ xs) = (t == x) && has_prefix ts xs

abbrev pub next_index : Option ℕ → Option ℕ
next_index none = none
next_index (some i) = some (suc i)

-- `std::string::find`: the index of the first place where the tag stands.
abbrev pub find : List ℕ → List ℕ → Option ℕ
find t [] = if has_prefix t [] then some 0 else none
find t (x ∷ xs) = if has_prefix t (x ∷ xs) then some 0 else next_index (find t xs)

-- What a turn of the loop does: it returns with a buffer, or it gives documents to the sink and goes
-- on with a buffer.
pub data Turn : Type 0 where
  returns : List ℕ → Turn
  goes_on : List (List ℕ) → List ℕ → Turn

-- With no start tag in the buffer.
unfoldable pub keep_tail : List ℕ → List ℕ
keep_tail buffer =
    if leb (length start_tag) (length buffer)
    then drop (length buffer - (length start_tag - 1)) buffer
    else buffer

-- With the start tag at the front, and the end tag at the index, if there is one.
unfoldable pub cut_at : List ℕ → Option ℕ → Turn
cut_at buffer none =
    if ltb max_doc (length buffer)
    then goes_on [] (drop (length start_tag) buffer)
    else returns buffer
cut_at buffer (some end) =
    let doc_len = end + length end_tag in
    goes_on (if leb doc_len max_doc then take doc_len buffer ∷ [] else []) (drop doc_len buffer)

-- With the start tag at the index, if there is one.
unfoldable pub scan_at : List ℕ → Option ℕ → Turn
scan_at buffer none = returns (keep_tail buffer)
scan_at buffer (some start) =
    let document = drop start buffer in cut_at document (find end_tag document)

unfoldable pub turn : List ℕ → Turn
turn buffer = scan_at buffer (find start_tag buffer)

-- The documents that go to the sink, and the buffer that stays, with fuel for the loop.
abbrev with_documents :
    List (List ℕ) → Option (List (List ℕ) × List ℕ) → Option (List (List ℕ) × List ℕ)
with_documents docs none = none
with_documents docs (some (more, rest)) = some (docs ++ more, rest)

unfoldable pub loop : ℕ → List ℕ → Option (List (List ℕ) × List ℕ)
loop zero buffer = none
loop (suc fuel) buffer = elim (turn buffer) [
  | returns rest ↦ some ([], rest)
  | goes_on docs rest ↦ with_documents docs (loop fuel rest)
]

-- The bytes of the buffer and of the call are fuel enough.
unfoldable pub feed : List ℕ → List ℕ → Option (List (List ℕ) × List ℕ)
feed buffer bytes = let all = buffer ++ bytes in loop (suc (length all)) all
