-- ===== src/Tests/Tls.antt =====
-- Runs of DNS over TLS, and the theorems on them.
use dnsperf.Dot.Send.{want}
use dnsperf.Common.{ℕ, ◌≡◌, ◌≢◌, refl, true, some, [], ◌∷◌, arith, List}
use dnsperf.Tcp.{tcp_recv}
use dnsperf.Tcp.Send as TcpSend
use dnsperf.Dot as Dot
use dnsperf.Tcp.Send.{TcpSent, in_progress, not_sent, connected}
use dnsperf.Dot.{DotSocket, DotResult, Read, dot_recv, receive, closed, connect, reconnect}
use dnsperf.Dot.Same.{dot_recv-Same, received, read_of, recv_of, socket}
use dnsperf.Dot.Send.{
  wrote, tls_failed, first_write, dot_sendto, dot_sockready, DotCalls, made, shake, advance,
  written,
}
use dnsperf.Dot.Frames.{IsSound}
use dnsperf.Dot.Reached.{opened, Reach, here, later, send, check, recv, Reach-IsFramed}
use dnsperf.Dot.Faults.{Midway, advance-Overtaken}

abbrev calls : DotCalls
calls = record {
  first_connect = true;
  next_connect = true;
  limit_connect = true;
  write = want;
  waited = connected;
  handshake = made;
  now = 0;
  later = 0;
}

-- The session is made; then SSL_write() takes three of five octets, and SSL_read() sees the end.
abbrev session : DotSocket
session = record (opened true 0 0) { is_ready = true }

abbrev partly : DotSocket
partly = record session {
  sendbuf = 0 ∷ 3 ∷ 7 ∷ 8 ∷ 9 ∷ [];
  qid = 1;
  sending = 3;
  is_sending = true;
  stream = 0 ∷ 3 ∷ 7 ∷ [];
}

abbrev again : DotSocket
again = record (opened true 0 0) { sendbuf = 0 ∷ 3 ∷ 7 ∷ 8 ∷ 9 ∷ []; qid = 1 }

wrote-ne-tls_failed : wrote 3 ≢ tls_failed
wrote-ne-tls_failed e = cc

session_made : dot_sockready calls (opened true 0 0) ≡ some (TcpSend.ready, session)
unfolding dot_sockready shake
session_made = refl

partly_sent : dot_sendto true (wrote 3) 1 (7 ∷ 8 ∷ 9 ∷ []) session ≡ some (in_progress, partly)
unfolding dot_sendto first_write
partly_sent = refl

end_seen : dot_recv true (λ _. closed) 512 partly ≡ some (Dot.again, again)
unfolding dot_recv receive reconnect connect
end_seen = refl

again-Reach : Reach (opened true 0 0) again
again-Reach =
    later
      (later (later here (check calls _ tt session_made))
        (send true (wrote 3) 1 (7 ∷ 8 ∷ 9 ∷ []) _ refl wrote-ne-tls_failed partly_sent))
      (recv true (λ _. closed) 512 _ end_seen)

Reach-IsFramed_example : IsSound again
Reach-IsFramed_example = Reach-IsFramed true 0 0 again again-Reach

-- One packet of two octets, and the start of the next.
abbrev chunk : ℕ → ℕ × (List ℕ)
chunk room = (0, 2 ∷ 5 ∷ 6 ∷ 0 ∷ [])

dot_recv-Same_example :
    (r : DotResult × DotSocket) × ((dot_recv true (read_of chunk) 512 session ≡ some r)
      × (received r ≡ tcp_recv (recv_of chunk) 512 (socket session)))
dot_recv-Same_example = dot_recv-Same true chunk 512 session refl refl

abbrev whole : DotSocket
whole = record partly { sending = 0; stream = [] }

advance-Overtaken_example :
    Midway 3 whole (advance 3 (receive true closed 512 (written 3 whole)).1).1
advance-Overtaken_example = advance-Overtaken true 3 512 whole refl refl (omega arith)
