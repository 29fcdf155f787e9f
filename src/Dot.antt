-- ===== src/Dot.antt =====
-- src/net_dot.c: DNS over TLS. `recvbuf` is recvbuf[0] to recvbuf[at - 1]. What the calls of OpenSSL
-- (newer than 3.0) and of the system answer is an argument; the callbacks are left out.
pub mod Send
pub mod Same
pub mod Frames
pub mod Sound
pub mod Reached
pub mod Faults
use dnsperf.Common.{
  ℕ, ◌+◌, ◌-◌, ◌%◌, ◌^◌, Bool, true, false, not, ◌&&◌, Option, none, some, [], ◌∷◌, ◌++◌, ltb, leb,
  ◌==◌, if◌then◌else◌, Bytes, length, take, drop,
}
use dnsperf.Tcp.{length_field, recv_buf_size}

-- perf__dot_socket. `is_locked` says that a call that has returned holds `lock`. `stream` is no field
-- of the source: it is what the TLS session of the socket has taken.
pub record DotSocket : Type 0 where
  pub recvbuf : Bytes
  pub sendbuf : Bytes
  pub sending : ℕ
  pub is_ready : Bool
  pub is_conn_ready : Bool
  pub have_more : Bool
  pub is_sending : Bool
  pub do_reconnect : Bool
  pub qid : ℕ
  pub num_queries_per_conn : ℕ
  pub nqpc_timeout : ℕ
  pub nqpc_sent : ℕ
  pub nqpc_recv : ℕ
  pub nqpc_ts : ℕ
  pub is_locked : Bool
  pub stream : Bytes

-- perf__dot_connect; `immediate` says that connect() is done at once. The failures end the process.
unfoldable pub connect : Bool → DotSocket → DotSocket
connect immediate s = record s {
  nqpc_sent = 0;
  nqpc_recv = 0;
  nqpc_ts = 0;
  is_conn_ready = if immediate then true else s.is_conn_ready;
  stream = [];
}

-- perf__dot_reconnect
unfoldable pub reconnect : Bool → DotSocket → DotSocket
unfolding connect
reconnect immediate s =
    let kept = record s {
      have_more = false;
      recvbuf = [];
      is_ready = false;
      is_conn_ready = false;
    } in
    connect immediate
      (if s.sending == 0 then kept else record kept { sending = 0; is_sending = false })

-- What SSL_read() answers: bytes; 0; SSL_ERROR_WANT_READ; SSL_ERROR_SSL, or SSL_ERROR_SYSCALL with
-- errno EBADF, ECONNREFUSED, ECONNRESET or ENOTCONN; SSL_ERROR_SYSCALL with another errno; another
-- error.
pub data Read : Type 0 where
  bytes : ℕ → Bytes → Read
  closed : Read
  want_read : Read
  disconnected : Read
  failed : ℕ → Read
  broken : Read

-- What perf__dot_recv answers: a packet's size and what it copies of it, or -1 with `errno`.
pub data DotResult : Type 0 where
  packet : ℕ → Bytes → DotResult
  again : DotResult
  error : ℕ → DotResult

abbrev pub ebadf : ℕ
ebadf = 9

-- The part behind SSL_read().
unfoldable pub take_packet : ℕ → DotSocket → DotResult × DotSocket
take_packet len s =
    let dnslen = length_field s.recvbuf in
    let rest = drop (2 + dnslen) s.recvbuf in
    if ltb (length s.recvbuf) (dnslen + 2) then (again, s) else (
      packet dnslen (take (if ltb len dnslen then len else dnslen) (drop 2 s.recvbuf)),
      record s {
        recvbuf = rest;
        have_more = ltb 2 (length rest) && leb (length_field rest + 2) (length rest);
        nqpc_recv =
            if not (s.num_queries_per_conn == 0) then (s.nqpc_recv + 1) % 2 ^ 32 else s.nqpc_recv;
      },
    )

-- The part with SSL_read(), and the rest; the first octet of what it read stands apart.
unfoldable pub receive : Bool → Read → ℕ → DotSocket → DotResult × DotSocket
unfolding take_packet reconnect
receive immediate (bytes x xs) len s =
    let s' = record s { recvbuf = s.recvbuf ++ x ∷ xs } in
    if ltb (length s'.recvbuf) 3 then (again, s') else take_packet len s'
receive immediate closed len s = (again, reconnect immediate s)
receive immediate want_read len s = (again, s)
receive immediate disconnected len s = (again, reconnect immediate s)
receive immediate (failed errno) len s = (error errno, s)
receive immediate broken len s = (error ebadf, s)

-- PERF_LOCK: with `none` it never returns.
abbrev pub locking {ℓ} : {A : Type ℓ} → DotSocket → A → Option A
locking s a = if s.is_locked then none else some a

-- perf__dot_recv; `read room` is what SSL_read() does.
unfoldable pub dot_recv : Bool → (ℕ → Read) → ℕ → DotSocket → Option (DotResult × DotSocket)
unfolding receive take_packet
dot_recv immediate read len s =
    if s.have_more
    then some (take_packet len s)
    else locking s (
        if s.is_ready
        then receive immediate (read (recv_buf_size - length s.recvbuf)) len s
        else (again, s))
