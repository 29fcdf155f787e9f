-- ===== src/Tests/Senders.antt =====
-- Runs of the sending side of TCP, and the theorems on it.
use dnsperf.Common.{◌≡◌, refl, inl, true, false, some, [], ◌∷◌, arith}
use dnsperf.Tcp.Send.{
  TcpSender, Connect, accepted, try_again, in_progress, tcp_sendto, first_send, Calls, not_writable,
  tcp_sockready, unsent, reconnect, push_ready, pushed, limit,
}
use dnsperf.Tcp.Frames.{IsFramed, joined}
use dnsperf.Tcp.Packets.{tcp_sendto-IsFramed}
use dnsperf.Tcp.Connects.{Settled, tcp_sockready-Settled}
use dnsperf.Tcp.Reached.{opened, here, later, send, check, History-IsFramed}
use dnsperf.Tcp.Midway.{tcp_sockready-Midway}

-- A fresh connection, descriptor 4.
abbrev connection : Connect
connection = record { new_fd = 4; immediate = true }

abbrev socket : TcpSender
socket = opened connection 0 0

-- sendto() takes three of the five octets.
abbrev partly : TcpSender
partly = (tcp_sendto (accepted 3) 1 (7 ∷ 8 ∷ 9 ∷ []) socket).1

partly_sent :
    ((tcp_sendto (accepted 3) 1 (7 ∷ 8 ∷ 9 ∷ []) socket).0 ≡ in_progress)
    × (partly.stream ≡ 0 ∷ 3 ∷ 7 ∷ [])
unfolding tcp_sendto first_send
partly_sent = (refl, refl)

socket-IsFramed : IsFramed socket
unfolding joined
socket-IsFramed = record { frames = []; whole = tt; part = []; stream_is = refl; position = refl }

partly-IsFramed : IsFramed partly
partly-IsFramed = tcp_sendto-IsFramed (accepted 3) 1 (7 ∷ 8 ∷ 9 ∷ []) socket refl socket-IsFramed

abbrev calls : Calls
calls = record {
  first_connect = record { new_fd = 5; immediate = true };
  first_push = accepted 2;
  next_connect = record { new_fd = 6; immediate = false };
  waited = not_writable;
  next_push = try_again;
  now = 0;
  later = 0;
}

tcp_sockready-Settled_example : Settled (tcp_sockready calls partly)
unfolding tcp_sendto first_send
tcp_sockready-Settled_example =
    tcp_sockready-Settled calls partly (omega arith) tt (inl refl) partly-IsFramed

History-IsFramed_example : IsFramed (tcp_sockready calls partly).1
unfolding tcp_sendto first_send
History-IsFramed_example = History-IsFramed connection 0 0 (tcp_sockready calls partly).1 (
    later (later here (send (accepted 3) 1 (7 ∷ 8 ∷ 9 ∷ []) refl))
      (check calls (omega arith) tt (inl refl)))

-- The receiver sees the end of the connection before the packet is through.
abbrev lost : TcpSender
lost = record partly { sock = record (partly.sock) { recv_need_reconn = some 4 } }

tcp_sockready-Midway_example : (tcp_sockready calls lost).1.stream ≡ unsent lost
unfolding tcp_sendto first_send
tcp_sockready-Midway_example = tcp_sockready-Midway calls lost refl refl refl refl

-- The two octets left of the packet are the first of the new connection.
midway : (tcp_sockready calls lost).1.stream ≡ 8 ∷ 9 ∷ []
unfolding tcp_sockready tcp_sendto first_send reconnect push_ready pushed limit
midway = refl
