-- ===== src/Dot/Same.antt =====
-- src/net_dot.c, src/net_tcp.c: on a session that is made, DNS over TLS does what TCP does.
use dnsperf.Common.{
  ℕ, ◌-◌, ◌≡◌, refl, ap, ◌∙◌, Option, Bool, true, false, not, none, some, ◌∷◌, ◌++◌, ltb, ◌==◌,
  if◌then◌else◌, if_map, if_both, if_true, if_false, ◌+◌, Bytes, length,
}
use dnsperf.Tcp.{TcpSocket, TcpResult, RecvCall, tcp_recv, length_field, recv_buf_size}
use dnsperf.Tcp as Tcp
use dnsperf.Tcp.Send.{TcpSender, TcpSent, accepted, first_send, pushed}
use dnsperf.Dot.{
  DotSocket, DotResult, packet, again, error, Read, bytes, take_packet, receive, dot_recv,
}
use dnsperf.Dot.Send.{wrote, first_write, written, advance}

-- The socket as one over TCP.
abbrev pub socket : DotSocket → TcpSocket
socket s = record {
  fd = 0;
  recvfd = 0;
  recvbuf = s.recvbuf;
  have_more = s.have_more;
  recv_need_reconn = none;
  counts_queries = not (s.num_queries_per_conn == 0);
  nqpc_recv = s.nqpc_recv;
}

abbrev pub sender : DotSocket → TcpSender
sender s = record {
  sock = socket s;
  sendbuf = s.sendbuf;
  sending = s.sending;
  is_ready = s.is_ready;
  need_reconnect = s.do_reconnect;
  is_sending = s.is_sending;
  qid = s.qid;
  num_queries_per_conn = s.num_queries_per_conn;
  nqpc_timeout = s.nqpc_timeout;
  nqpc_sent = s.nqpc_sent;
  nqpc_ts = s.nqpc_ts;
  stream = s.stream;
}

abbrev pub as_tcp : DotResult → TcpResult
as_tcp (packet n p) = Tcp.packet n p
as_tcp again = Tcp.again
as_tcp (error e) = Tcp.error e

abbrev pub received : DotResult × DotSocket → TcpResult × TcpSocket
received r = (as_tcp r.0, socket r.1)

take_packet-Same :
    (len : ℕ) (s : DotSocket) → received (take_packet len s) ≡ Tcp.take_packet len (socket s)
unfolding take_packet Tcp.take_packet
take_packet-Same len s = if_map received (ltb (length s.recvbuf) (length_field s.recvbuf + 2)) _ _

-- What is read, for SSL_read() and for recv().
abbrev pub read_of : (ℕ → ℕ × Bytes) → ℕ → Read
read_of chunk room = bytes (chunk room).0 (chunk room).1

abbrev pub recv_of : (ℕ → ℕ × Bytes) → ℕ → RecvCall
recv_of chunk room = Tcp.bytes ((chunk room).0 ∷ (chunk room).1)

receive-Same :
    (b : Bool) (x : ℕ) (xs : Bytes) (len : ℕ) (s : DotSocket)
    → received (receive b (bytes x xs) len s) ≡ Tcp.receive (Tcp.bytes (x ∷ xs)) len (socket s)
unfolding receive Tcp.receive
receive-Same b x xs len s =
    let s' : DotSocket = record s { recvbuf = s.recvbuf ++ x ∷ xs } in
    let few : Bool = ltb (length s'.recvbuf) 3 in
    if_map received few _ _
    ∙ ap (λ t. if few then (Tcp.again, socket s') else t) (take_packet-Same len s')

-- On a session that is ready, whose lock is free, perf__dot_recv answers and leaves in its buffer
-- what perf__tcp_recv does, if SSL_read() gives the same octets, one at least, as recv() does.
pub dot_recv-Same :
    (b : Bool) (chunk : ℕ → ℕ × Bytes) (len : ℕ) (s : DotSocket)
    → s.is_ready ≡ true
    → s.is_locked ≡ false
    → (r : DotResult × DotSocket) × ((dot_recv b (read_of chunk) len s ≡ some r)
        × (received r ≡ tcp_recv (recv_of chunk) len (socket s)))
unfolding dot_recv tcp_recv Tcp.follow_fd
dot_recv-Same b chunk len s e free =
    if_both Agree s.have_more _ _ _ _ (λ more. (take_packet len s, (refl, take_packet-Same len s)))
      (λ none_left. (
        receive b (bytes x xs) len s,
        (
          if_false s.is_locked _ _ free ∙ ap some (if_true s.is_ready _ _ e),
          receive-Same b x xs len s,
        ),
      ))
  where
    room : ℕ
    room = recv_buf_size - length s.recvbuf

    x : ℕ
    x = (chunk room).0

    xs : Bytes
    xs = (chunk room).1

    Agree : Option (DotResult × DotSocket) → TcpResult × TcpSocket → Type 0
    Agree o t = (r : DotResult × DotSocket) × ((o ≡ some r) × (received r ≡ t))

-- What SSL_write() takes, for either.
abbrev pub sent_of : TcpSent × DotSocket → TcpSent × TcpSender
sent_of r = (r.0, sender r.1)

pub first_write-Same :
    (b : Bool) (n : ℕ) (s : DotSocket)
    → sent_of (first_write b (wrote n) s) ≡ first_send (accepted n) (sender s)
unfolding first_write first_send
first_write-Same b n s = if_map sent_of (ltb n (length s.sendbuf)) _ _

abbrev pub pushed_of : Bool × DotSocket → Bool × TcpSender
pushed_of r = (r.0, sender r.1)

pub advance-Same :
    (n : ℕ) (s : DotSocket) → pushed_of (advance n (written n s)) ≡ pushed n (sender s)
unfolding advance pushed
advance-Same n s = if_map pushed_of (ltb (s.sending + n) (length_field s.sendbuf + 2)) _ _
