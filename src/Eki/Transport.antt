-- ===== src/Eki/Transport.antt =====
-- `TcpClientTransport` (src/tcp_client_transport.cpp; the sensor driver has the same text): a socket,
-- and what the calls of the operating system answer.
pub mod Streams
mod Tests
use kuka_iiqka_ros.Prelude.{
  ℕ, zero, suc, Bool, true, false, not, ◌||◌, ◌&&◌, ◌==◌, Option, none, some, List, [], ◌∷◌, ◌++◌,
  take, drop, if◌then◌else◌,
}

-- `fd` is `fd_`. The other fields are the system's: the descriptors that it has open for the
-- transport, and the bytes that it has taken on the connection that was made last.
pub record Transport : Type 0 where
  pub fd : Option ℕ
  pub opened : List ℕ
  pub delivered : List ℕ

-- What `::connect` answers: success, EINPROGRESS, or another error.
pub data Connecting : Type 0 where
  connected in_progress refused : Connecting

-- What the calls of `connect` answer: `socket`, `inet_pton`, `connect`, and, where it is in progress,
-- whether `poll` finds the socket writable, and whether `getsockopt` shows no error.
pub record ConnectAnswers : Type 0 where
  pub socket : Option ℕ
  pub address_ok : Bool
  pub connecting : Connecting
  pub writable : Bool
  pub no_error : Bool

-- What a turn of the loop of `send` meets: `poll` does not find the socket writable, or it does, and
-- `send` of the system answers EAGAIN, another error, or a count.
pub data SendTurn : Type 0 where
  not_writable again failed : SendTurn
  wrote : ℕ → SendTurn

-- What `poll` answers: the time is over, an error, or the socket is readable; and `recv`: bytes, of
-- which none are an orderly end, EAGAIN, or another error.
pub data Polling : Type 0 where
  times_out poll_failed readable : Polling

pub data Receiving : Type 0 where
  bytes : List ℕ → Receiving
  would_block receive_failed : Receiving

-- What `receive` returns: -1, 0, or a count and the bytes.
pub data Received : Type 0 where
  lost nothing : Received
  got : List ℕ → Received

abbrev has_fd : Option ℕ → Bool
has_fd none = false
has_fd (some n) = true

-- `connected()`.
abbrev pub is_open : Transport → Bool
is_open t = has_fd t.fd

unfoldable pub fresh : Transport
fresh = record { fd = none; opened = []; delivered = [] }

-- `::close`.
unfoldable pub close_fd : ℕ → List ℕ → List ℕ
close_fd n [] = []
close_fd n (m ∷ ms) = if n == m then ms else m ∷ close_fd n ms

close_opened : Option ℕ → List ℕ → List ℕ
close_opened none ms = ms
close_opened (some n) ms = close_fd n ms

unfoldable pub close : Transport → Transport
unfolding close_opened
close t = record t { fd = none; opened = close_opened t.fd t.opened }

-- With a socket.
unfoldable pub connect_socket : Transport → ConnectAnswers → Transport × Bool
connect_socket t a =
    let made : Transport × Bool = (record t { delivered = [] }, true) in
    if not a.address_ok then (close t, false) else elim (a.connecting) [
      | connected ↦ made
      | refused ↦ (close t, false)
      | in_progress ↦ if a.writable && a.no_error then made else (close t, false)
    ]

unfoldable pub connect : Transport → ConnectAnswers → Transport × Bool
connect t a =
    let c = close t in
    elim (a.socket) [
      | none ↦ (c, false)
      | some n ↦ connect_socket (record c { fd = some n; opened = n ∷ c.opened }) a
    ]

-- What `recv` gives, with the socket readable.
on_recv : Transport → Receiving → Transport × Received
on_recv t (bytes []) = (close t, lost)
on_recv t (bytes (b ∷ bs)) = (t, got (b ∷ bs))
on_recv t would_block = (t, nothing)
on_recv t receive_failed = (close t, lost)

on_poll : Transport → Polling → Receiving → Transport × Received
on_poll t times_out r = (t, nothing)
on_poll t poll_failed r = (close t, lost)
on_poll t readable r = on_recv t r

unfoldable pub receive : Transport → Polling → Receiving → Transport × Received
unfolding on_recv on_poll
receive t p r = if not (is_open t) then (t, lost) else on_poll t p r

-- The loop of `send` over what the system answers in each turn. `none` is a call that still runs:
-- bytes are left, and there is no further answer.
unfoldable pub send_loop : Transport → List SendTurn → List ℕ → Option (Transport × Bool)
send_loop t turns [] = some (t, true)
send_loop t [] (b ∷ bs) = none
send_loop t (not_writable ∷ turns) (b ∷ bs) = some (close t, false)
send_loop t (again ∷ turns) (b ∷ bs) = send_loop t turns (b ∷ bs)
send_loop t (failed ∷ turns) (b ∷ bs) = some (close t, false)
send_loop t (wrote zero ∷ turns) (b ∷ bs) = some (close t, false)
send_loop t (wrote (suc n) ∷ turns) (b ∷ bs) =
    send_loop (record t { delivered = t.delivered ++ (b ∷ take n bs) }) turns (drop n bs)

unfoldable pub send : Transport → List SendTurn → List ℕ → Option (Transport × Bool)
send t turns text = if not (is_open t) then some (t, false) else send_loop t turns text
