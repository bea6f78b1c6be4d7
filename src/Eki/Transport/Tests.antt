-- ===== src/Eki/Transport/Tests.antt =====
-- The transport on concrete answers of the system.
use kuka_iiqka_ros.Prelude.{ℕ, true, false, List, [], ◌∷◌, some, none, ◌≡◌, refl, arith, IsSome}
use kuka_iiqka_ros.Eki.Transport.{
  Transport, in_progress, refused, ConnectAnswers, SendTurn, not_writable, again, wrote, close_fd,
  close, connect_socket, connect, send_loop, send,
}
use kuka_iiqka_ros.Eki.Transport.Streams.{Sent, send-returns}

abbrev open_link : Transport
open_link = record { fd = some 5; opened = 5 ∷ []; delivered = 1 ∷ [] }

abbrev text : List ℕ
text = 7 ∷ 8 ∷ 9 ∷ []

abbrev in_two : List SendTurn
in_two = again ∷ wrote 2 ∷ again ∷ wrote 1 ∷ wrote 1 ∷ []

send-returns_example :
    IsSome (send open_link in_two text) × Sent open_link text (send open_link in_two text)
send-returns_example = send-returns open_link in_two text refl refl (omega arith)

-- All in two parts, and a part before the time is over.
sends :
    (send open_link in_two text ≡ some (record open_link { delivered = 1 ∷ 7 ∷ 8 ∷ 9 ∷ [] }, true))
    × (send open_link (wrote 1 ∷ not_writable ∷ []) text
        ≡ some (record { fd = none; opened = []; delivered = 1 ∷ 7 ∷ [] }, false))
unfolding send send_loop close close_fd
sends = (refl, refl)

abbrev answers : ConnectAnswers
answers = record {
  socket = some 6;
  address_ok = true;
  connecting = in_progress;
  writable = true;
  no_error = true;
}

-- A socket that is made anew, and one that is refused.
connects :
    (connect open_link answers ≡ (record { fd = some 6; opened = 6 ∷ []; delivered = [] }, true))
    × ((connect open_link (record answers { connecting = refused })).0.opened ≡ [])
unfolding connect connect_socket close close_fd
connects = (refl, refl)
