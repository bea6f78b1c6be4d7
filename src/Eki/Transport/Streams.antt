-- ===== src/Eki/Transport/Streams.antt =====
-- What the transport leaves open, and what it delivers.
use kuka_iiqka_ros.Prelude.{
  ℕ, zero, suc, ◌+◌, ◌<◌, ◌≤◌, IsSome, is_some, Bool, not, true, false, Option, none, some, List,
  [], ◌∷◌, ◌++◌, length, take, drop, length-drop, take-drop, take-take-drop, ◌≡◌, refl, arith, ap,
  sym, ◌∙◌,
}
use mathlib.Core.List.{append_assoc, append-nil}
use kuka_iiqka_ros.Eki.Transport.{
  Transport, ConnectAnswers, SendTurn, not_writable, wrote, again, failed, lost, Polling, Receiving,
  bytes, would_block, receive_failed, Received, is_open, close_fd, close, connect_socket, connect,
  receive, send_loop, send,
}

-- The system has open for the transport just its socket, if it has one.
abbrev pub descriptors : Option ℕ → List ℕ
descriptors none = []
descriptors (some n) = n ∷ []

abbrev pub IsTidy : Transport → Type 0
IsTidy t = t.opened ≡ descriptors t.fd

-- Closed, with nothing left open.
abbrev pub IsClosed : Transport → Type 0
IsClosed t = (t.fd ≡ none) × (t.opened ≡ [])

close-descriptors :
    (o : Option ℕ) (opened : List ℕ) (delivered : List ℕ)
    → opened ≡ descriptors o
    → IsClosed (close (record { fd = o; opened = opened; delivered = delivered }))
unfolding close close_fd
close-descriptors none opened delivered h = (refl, h)
close-descriptors (some n) opened delivered h = ground arith

pub close-IsClosed : (t : Transport) → IsTidy t → IsClosed (close t)
close-IsClosed t h = close-descriptors t.fd t.opened t.delivered h

close-delivered : (t : Transport) → (close t).delivered ≡ t.delivered
unfolding close
close-delivered t = refl

pub IsClosed-IsTidy : (t : Transport) → IsClosed t → IsTidy t
IsClosed-IsTidy t h = ground arith

connect_socket-IsTidy :
    (t : Transport) (a : ConnectAnswers) → IsTidy t → IsTidy (connect_socket t a).0
unfolding connect_socket
connect_socket-IsTidy t a h = ground (arith, close-IsClosed t h)

-- With a socket or none.
connect_answered :
    (c : Transport) (a : ConnectAnswers) (o : Option ℕ)
    → IsClosed c
    → let (t, ok) : Transport × Bool = elim o [
      | none ↦ (c, false)
      | some n ↦ connect_socket (record c { fd = some n; opened = n ∷ c.opened }) a
    ] in
      IsTidy t × (is_open t ≡ ok) × (ok ≡ true → t.delivered ≡ [])
unfolding connect_socket close close_fd
connect_answered c a none h = ground arith
connect_answered c a (some n) h = ground arith

-- `connect` leaves the socket open exactly if it succeeds, and then no byte is sent on it yet.
pub connect_lem :
    (t : Transport) (a : ConnectAnswers)
    → IsTidy t
    → let (u, ok) = connect t a in IsTidy u × (is_open u ≡ ok) × (ok ≡ true → u.delivered ≡ [])
unfolding connect
connect_lem t a h = connect_answered (close t) a a.socket (close-IsClosed t h)

abbrev pub is_lost : Received → Bool
is_lost lost = true
is_lost _ = false

-- `receive` closes the socket exactly if it returns -1, and sends nothing.
pub receive_lem :
    (t : Transport) (p : Polling) (r : Receiving)
    → IsTidy t
    → let (u, answer) = receive t p r in
      IsTidy u × (u.delivered ≡ t.delivered) × (is_open u ≡ not (is_lost answer))
unfolding receive
receive_lem t p (bytes []) h = ground (arith, close-IsClosed t h, close-delivered t)
receive_lem t p (bytes (b ∷ bs)) h = ground (arith, close-IsClosed t h, close-delivered t)
receive_lem t p would_block h = ground (arith, close-IsClosed t h, close-delivered t)
receive_lem t p receive_failed h = ground (arith, close-IsClosed t h, close-delivered t)

-- What a call of `send` has done when it returns: all the bytes are on the connection, or it is closed,
-- with just the first of them, and not all, on it.
pub data Sent (t : Transport) (text : List ℕ) : Option (Transport × Bool) → Type 0 where
  whole :
      (u : Transport)
      → u.fd ≡ t.fd
      → u.opened ≡ t.opened
      → u.delivered ≡ t.delivered ++ text
      → Sent t text (some (u, true))
  broken :
      (u : Transport) (k : ℕ)
      → IsClosed u
      → k < length text
      → u.delivered ≡ t.delivered ++ take k text
      → Sent t text (some (u, false))
  runs_on : Sent t text none

-- The rest of a text after its first bytes.
Sent-rest :
    (t : Transport) (b : ℕ) (bs : List ℕ) (n : ℕ) (o : Option (Transport × Bool))
    → Sent (record t { delivered = t.delivered ++ (b ∷ take n bs) }) (drop n bs) o
    → Sent t (b ∷ bs) o
Sent-rest t b bs n _ (whole u fd opened out) = whole u fd opened (
    out
    ∙ append_assoc t.delivered (b ∷ take n bs) (drop n bs)
    ∙ ap (λ l. t.delivered ++ (b ∷ l)) (take-drop n bs))
Sent-rest t b bs n _ (broken u k shut less out) =
    broken u (suc (n + k)) shut (omega (arith, length-drop n bs)) (
      out
      ∙ append_assoc t.delivered (b ∷ take n bs) (take k (drop n bs))
      ∙ ap (λ l. t.delivered ++ (b ∷ l)) (take-take-drop n k bs))
Sent-rest t b bs n _ runs_on = runs_on

-- Cut off with nothing more sent.
cut_off : (t : Transport) (b : ℕ) (bs : List ℕ) → IsTidy t → Sent t (b ∷ bs) (some (close t, false))
unfolding close
cut_off t b bs h =
    broken (close t) 0 (close-IsClosed t h) (omega arith) (sym (append-nil t.delivered))

send_loop-Sent :
    (t : Transport) (turns : List SendTurn) (text : List ℕ)
    → IsTidy t
    → Sent t text (send_loop t turns text)
unfolding send_loop
send_loop-Sent t turns [] h = whole t refl refl (sym (append-nil t.delivered))
send_loop-Sent t [] (b ∷ bs) h = runs_on
send_loop-Sent t (not_writable ∷ turns) (b ∷ bs) h = cut_off t b bs h
send_loop-Sent t (again ∷ turns) (b ∷ bs) h = send_loop-Sent t turns (b ∷ bs) h
send_loop-Sent t (failed ∷ turns) (b ∷ bs) h = cut_off t b bs h
send_loop-Sent t (wrote zero ∷ turns) (b ∷ bs) h = cut_off t b bs h
send_loop-Sent t (wrote (suc n) ∷ turns) (b ∷ bs) h =
    Sent-rest t b bs n _
      (send_loop-Sent (record t { delivered = t.delivered ++ (b ∷ take n bs) }) turns (drop n bs) h)

pub send-Sent :
    (t : Transport) (turns : List SendTurn) (text : List ℕ)
    → IsTidy t
    → is_open t ≡ true
    → Sent t text (send t turns text)
unfolding send
send-Sent t turns text h e = rw e (send_loop-Sent t turns text h)

-- The turns that are not EAGAIN.
abbrev pub answers : List SendTurn → ℕ
answers [] = 0
answers (not_writable ∷ turns) = suc (answers turns)
answers (again ∷ turns) = answers turns
answers (failed ∷ turns) = suc (answers turns)
answers (wrote n ∷ turns) = suc (answers turns)

send_loop-IsSome :
    (t : Transport) (turns : List SendTurn) (text : List ℕ)
    → length text ≤ answers turns
    → IsSome (send_loop t turns text)
unfolding send_loop
send_loop-IsSome t turns [] h = is_some _
send_loop-IsSome t [] (b ∷ bs) h = ground arith
send_loop-IsSome t (not_writable ∷ turns) (b ∷ bs) h = is_some _
send_loop-IsSome t (again ∷ turns) (b ∷ bs) h = send_loop-IsSome t turns (b ∷ bs) h
send_loop-IsSome t (failed ∷ turns) (b ∷ bs) h = is_some _
send_loop-IsSome t (wrote zero ∷ turns) (b ∷ bs) h = is_some _
send_loop-IsSome t (wrote (suc n) ∷ turns) (b ∷ bs) h =
    send_loop-IsSome (record t { delivered = t.delivered ++ (b ∷ take n bs) }) turns (drop n bs)
      (omega (arith, length-drop n bs))

-- On an open socket, where the system answers other than EAGAIN as often as there are bytes, `send`
-- returns: true with all its bytes on the connection, in order, and the socket as it was; or false
-- with the socket closed, just the first of its bytes on the connection, and never all.
pub send-returns :
    (t : Transport) (turns : List SendTurn) (text : List ℕ)
    → IsTidy t
    → is_open t ≡ true
    → length text ≤ answers turns
    → IsSome (send t turns text) × Sent t text (send t turns text)
unfolding send
send-returns t turns text h e enough =
    (rw e (send_loop-IsSome t turns text enough), send-Sent t turns text h e)
