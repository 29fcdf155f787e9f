-- ===== src/Dot/Reached.antt =====
-- src/net_dot.c: what holds of a socket after any sequence of calls.
use dnsperf.Common.{ℕ, ◌≡◌, ◌≢◌, refl, sym, ◌∙◌, Bool, false, some, [], Bytes, length, some_case}
use dnsperf.Tcp.Send.{TcpSent, Answer}
use dnsperf.Tcp.Frames.{joined}
use dnsperf.Dot.{DotSocket, DotResult, Read, dot_recv}
use dnsperf.Dot.Send.{Write, tls_failed, dot_sendto, unsent, DotCalls, dot_sockready}
use dnsperf.Dot.Frames.{IsSound, Fits, dot_sockready-Settled}
use dnsperf.Dot.Sound.{dot_sendto-IsSound, dot_recv-IsSound}

-- A call that returned. do_send sends only where no packet is on its way; an SSL_write() of
-- perf__dot_sendto that fails with another error than those of the system is left out.
pub data Call (s : DotSocket) : DotSocket → Type 0 where
  send :
      (b : Bool) (w : Write) (qid : ℕ) (buf : Bytes) (r : TcpSent × DotSocket)
      → s.is_sending ≡ false
      → w ≢ tls_failed
      → dot_sendto b w qid buf s ≡ some r
      → Call s r.1
  check :
      (c : DotCalls) (r : Answer × DotSocket)
      → Fits (length (unsent s)) c.write
      → dot_sockready c s ≡ some r
      → Call s r.1
  recv :
      (b : Bool) (read : ℕ → Read) (len : ℕ) (r : DotResult × DotSocket)
      → dot_recv b read len s ≡ some r
      → Call s r.1

Call-IsSound : (s t : DotSocket) → IsSound s → Call s t → IsSound t
Call-IsSound s t h (send b w qid buf r e k eq) = dot_sendto-IsSound b w qid buf s r k e h eq
Call-IsSound s t h (recv b read len r eq) = dot_recv-IsSound b read len s r h eq
Call-IsSound s t h (check c r fits eq) =
    let (r', (eq', settled)) = dot_sockready-Settled c s fits h in
    some_case (λ (u : Answer × DotSocket). IsSound u.1) settled.0 (sym eq' ∙ eq)

-- A socket behind perf_net_dot_opensocket.
abbrev pub opened : Bool → ℕ → ℕ → DotSocket
opened immediate num_queries_per_conn nqpc_timeout = record {
  recvbuf = [];
  sendbuf = [];
  sending = 0;
  is_ready = false;
  is_conn_ready = immediate;
  have_more = false;
  is_sending = false;
  do_reconnect = false;
  qid = 0;
  num_queries_per_conn = num_queries_per_conn;
  nqpc_timeout = nqpc_timeout;
  nqpc_sent = 0;
  nqpc_recv = 0;
  nqpc_ts = 0;
  is_locked = false;
  stream = [];
}

pub data Reach (start : DotSocket) : DotSocket → Type 0 where
  here : Reach start start
  later : {s t : DotSocket} → Reach start s → Call s t → Reach start t

opened-IsSound : (b : Bool) (n t : ℕ) → IsSound (opened b n t)
unfolding joined
opened-IsSound b n t =
    (record { frames = []; whole = tt; part = []; stream_is = refl; position = refl }, refl)

-- Whatever calls of perf__dot_sendto, perf__dot_sockready and perf__dot_recv follow each other on a
-- new socket, each of them whole, with a packet sent only where none is on its way and SSL_write()
-- taking no more than it is given, and no SSL_write() of perf__dot_sendto failing with an error of
-- TLS: the octets that the session has taken are whole packets behind their lengths and the start
-- of the one that is on its way, and the lock is free.
pub Reach-IsFramed :
    (b : Bool) (num_queries_per_conn nqpc_timeout : ℕ) (s : DotSocket)
    → Reach (opened b num_queries_per_conn nqpc_timeout) s
    → IsSound s
Reach-IsFramed b n t s here = opened-IsSound b n t
Reach-IsFramed b n t s (later {s = u} r call) = Call-IsSound u s (Reach-IsFramed b n t u r) call
