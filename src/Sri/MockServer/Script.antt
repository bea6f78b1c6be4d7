-- ===== src/Sri/MockServer/Script.antt =====
-- What is scripted on a connection of the simulated sensor, and what its client then gets, as items of
-- the stream: a sensor without its bytes.
use kuka_iiqka_ros.Prelude.{
  ℕ, zero, suc, Bool, true, false, ◌&&◌, Option, none, some, List, [], ◌∷◌, ◌++◌, length, All, ◌≡◌,
  ◌≢◌, if◌then◌else◌,
}
use kuka_iiqka_ros.Sri.Frame.Stream.{Item, whole, spoilt, noise}
use kuka_iiqka_ros.Sri.MockServer.{
  MockServer, next_pn, send_frames, send_bad_checksum_frame, send_raw, set_wrench, is_start, turn,
}

-- What happens on a connection: calls of the scripting surface other than `dropClient`, and turns of the
-- thread, with bytes that came, if some did, and whether a frame is due.
pub data Event : Type 0 where
  sets_wrench : List ℕ → Event
  sends : ℕ → Event
  sends_bad : Event
  sends_raw : List ℕ → Event
  turns : Option (ℕ × List ℕ) → Bool → Event

-- Wrenches of 24 bytes, and raw bytes that are never the first sync byte of a frame.
abbrev pub IsFine : Event → Type 0
IsFine (sets_wrench wrench) = length wrench ≡ 24
IsFine (sends_raw bytes) = All (λ b. b ≢ 0xAA) bytes
IsFine _ = Unit {0}

abbrev pub received_of : Option (ℕ × List ℕ) → Option (List ℕ)
received_of none = none
received_of (some (b, bs)) = some (b ∷ bs)

unfoldable pub step : MockServer → Event → MockServer
step s (sets_wrench wrench) = set_wrench s wrench
step s (sends count) = send_frames s count
step s sends_bad = send_bad_checksum_frame s
step s (sends_raw bytes) = send_raw s bytes
step s (turns received due) = turn s false (received_of received) due

unfoldable pub run : MockServer → List Event → MockServer
run s [] = s
run s (e ∷ es) = run (step s e) es

-- The sensor without its bytes: the wrench, the number of the last frame, and whether it streams.
pub record Box : Type 0 where
  pub wrench : List ℕ
  pub number : ℕ
  pub streaming : Bool

-- Frames in a row.
unfoldable pub frames : ℕ → Box → Box × List Item
frames zero b = (b, [])
frames (suc count) b =
    let n = next_pn b.number in
    let (c, rest) = frames count (record b { number = n }) in (c, whole n b.wrench ∷ rest)

unfoldable pub ack_items : List Item
ack_items =
    noise 65
    ∷ noise 67
    ∷ noise 75
    ∷ noise 43
    ∷ noise 71
    ∷ noise 83
    ∷ noise 68
    ∷ noise 61
    ∷ noise 79
    ∷ noise 75
    ∷ noise 13
    ∷ noise 10
    ∷ []

unfoldable pub noises : List ℕ → List Item
noises [] = []
noises (b ∷ bs) = noise b ∷ noises bs

unfoldable pub hears : Option (ℕ × List ℕ) → Box → Box × List Item
unfolding ack_items
hears none b = (b, [])
hears (some (x, xs)) b =
    if is_start (x ∷ xs) then (record b { streaming = true }, ack_items) else (b, [])

unfoldable pub paces : Bool → Box → Box × List Item
unfolding frames
paces due b = if due && b.streaming then frames 1 b else (b, [])

-- What an event puts on the stream.
unfoldable pub plays : Event → Box → Box × List Item
unfolding frames noises hears paces
plays (sets_wrench wrench) b = (record b { wrench = wrench }, [])
plays (sends count) b = if b.streaming then frames count b else (b, [])
plays sends_bad b =
    let n = next_pn b.number in
    if b.streaming then (record b { number = n }, spoilt n b.wrench ∷ []) else (b, [])
plays (sends_raw bytes) b = (b, noises bytes)
plays (turns received due) b =
    let (c, is) = hears received b in let (e, js) = paces due c in (e, is ++ js)

unfoldable pub script : Box → List Event → List Item
script b [] = []
script b (e ∷ es) = let (c, is) = plays e b in is ++ script c es

abbrev pub box_of : MockServer → Box
box_of s = record { wrench = s.wrench; number = s.pn; streaming = s.streaming }
