-- ===== src/Rsi/Udp.antt =====
-- `UdpTransport` (src/udp_transport.cpp): a socket, the peer that a reply goes to, and what the calls
-- of the operating system answer.
use kuka_iiqka_ros.Prelude.{
  ℕ, Bool, true, false, not, ◌||◌, ◌==◌, Option, none, some, List, length, if◌then◌else◌,
}

-- An address and a port.
pub record Peer : Type 0 where
  pub address : ℕ
  pub port : ℕ

-- `last_sender` is `none` where `has_last_sender_` is false.
pub record Udp : Type 0 where
  pub fd : Option ℕ
  pub bound_port : ℕ
  pub last_sender : Option Peer

-- What the calls of `bind` answer: `socket`, `inet_pton`, `bind` and `getsockname`.
pub record BindAnswers : Type 0 where
  pub socket : Option ℕ
  pub address_ok : Bool
  pub bound_ok : Bool
  pub port : Option ℕ

-- What `poll` and `recvfrom` answer: the time is over, an error of one of them, or a datagram.
pub data Arrival : Type 0 where
  times_out receive_fails : Arrival
  arrives : Peer → List ℕ → Arrival

-- What `receive` returns: -1, 0 for a time that is over, or the bytes.
pub data Received : Type 0 where
  failure timeout : Received
  datagram : List ℕ → Received

abbrev pub is_bound : Udp → Bool
is_bound u = elim (u.fd) [ none ↦ false | some n ↦ true ]

unfoldable pub closed : Udp
closed = record { fd = none; bound_port = 0; last_sender = none }

-- `bind`, on a transport that it closes first.
unfoldable pub bind : Udp → BindAnswers → Udp × Bool
bind u a =
    let refused : Udp × Bool = (closed, false) in
    elim (a.socket) [
      | none ↦ refused
      | some n ↦ if not a.address_ok || not a.bound_ok then refused else elim (a.port) [
        | none ↦ refused
        | some port ↦ (record { fd = some n; bound_port = port; last_sender = none }, true)
      ]
    ]

on_arrival : Udp → Arrival → Udp × Received
on_arrival u times_out = (u, timeout)
on_arrival u receive_fails = (u, failure)
on_arrival u (arrives peer bytes) = (record u { last_sender = some peer }, datagram bytes)

unfoldable pub receive : Udp → Arrival → Udp × Received
unfolding on_arrival
receive u a = if not (is_bound u) then (u, failure) else on_arrival u a

-- A datagram that goes to a peer, if one does, and what `sendToLastSender` returns, where `sendto`
-- answers a count, or `none` for an error.
to_peer : Option Peer → List ℕ → Option ℕ → Option (Peer × List ℕ) × Bool
to_peer none bytes n = (none, false)
to_peer (some peer) bytes none = (none, false)
to_peer (some peer) bytes (some n) = (some (peer, bytes), n == length bytes)

unfoldable pub send_to_last_sender : Udp → List ℕ → Option ℕ → Option (Peer × List ℕ) × Bool
unfolding to_peer
send_to_last_sender u bytes n =
    if not (is_bound u) then (none, false) else to_peer u.last_sender bytes n

-- `sendTo`; `peer` is `none` where `inet_pton` fails.
unfoldable pub send_to : Udp → Option Peer → List ℕ → Option ℕ → Option (Peer × List ℕ) × Bool
unfolding to_peer
send_to u peer bytes n = if not (is_bound u) then (none, false) else to_peer peer bytes n
