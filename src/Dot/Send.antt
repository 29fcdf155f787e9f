-- ===== src/Dot/Send.antt =====
-- src/net_dot.c: perf__dot_sendto and perf__dot_sockready.
use dnsperf.Common.{
  ℕ, ◌+◌, ◌-◌, ◌%◌, ◌^◌, Bool, true, false, not, ◌&&◌, ◌||◌, Option, ◌++◌, ltb, leb, ◌==◌,
  if◌then◌else◌, Bytes, length, take, drop,
}
use dnsperf.Buffer.{uint16}
use dnsperf.Tcp.{length_field}
use dnsperf.Tcp.Send.{
  TcpSent, sent, in_progress, not_sent, Answer, ready, not_ready, timed_out, Waited, not_writable,
  connected, still_connecting, broken, send_buf_size,
}
use dnsperf.Dot.{DotSocket, reconnect, locking}

-- What SSL_write() answers: the number of octets that it takes, 1 at least; SSL_ERROR_SYSCALL with
-- errno ECONNREFUSED, ECONNRESET, ENOTCONN or EPIPE; with another errno; SSL_ERROR_WANT_READ or
-- SSL_ERROR_WANT_WRITE; another error.
pub data Write : Type 0 where
  wrote : ℕ → Write
  disconnected : Write
  system_failed : Write
  want : Write
  tls_failed : Write

-- The packet waits, to be sent from its start.
abbrev pub put_off : DotSocket → DotSocket
put_off s = record s { is_sending = true; sending = 0 }

-- The part of perf__dot_sendto with SSL_write(). Behind the last error there is no PERF_UNLOCK.
unfoldable pub first_write : Bool → Write → DotSocket → TcpSent × DotSocket
unfolding reconnect
first_write immediate (wrote n) s =
    let s' = record s { stream = s.stream ++ take n s.sendbuf } in
    if ltb n (length s.sendbuf)
    then (in_progress, record s' { sending = n; is_sending = true })
    else (sent (n - 2), record s' { nqpc_sent = (s.nqpc_sent + 1) % 2 ^ 32 })
first_write immediate disconnected s = (in_progress, put_off (reconnect immediate s))
first_write immediate system_failed s = (not_sent, s)
first_write immediate want s = (in_progress, put_off s)
first_write immediate tls_failed s = (not_sent, record s { is_locked = true })

-- perf__dot_sendto
unfoldable pub dot_sendto : Bool → Write → ℕ → Bytes → DotSocket → Option (TcpSent × DotSocket)
unfolding first_write
dot_sendto immediate write qid buf s =
    let send = if ltb (length buf) (send_buf_size - 2) then length buf else send_buf_size - 2 in
    let s' = record s { sendbuf = uint16 send ++ take send buf; qid = qid } in
    locking s (if s.is_ready then first_write immediate write s' else (in_progress, put_off s'))

-- The octets that are left to send.
abbrev pub unsent : DotSocket → Bytes
unsent s = drop s.sending (take (length_field s.sendbuf + 2) s.sendbuf)

-- SSL_write() took `n` octets, under the lock.
abbrev pub written : ℕ → DotSocket → DotSocket
written n s = record s { stream = s.stream ++ take n (unsent s) }

-- What perf__dot_sockready does then, behind PERF_UNLOCK: it says whether the packet is through.
unfoldable pub advance : ℕ → DotSocket → Bool × DotSocket
advance n s =
    let s' = record s { sending = s.sending + n } in
    if ltb (s.sending + n) (length_field s.sendbuf + 2) then (false, s') else (
      true,
      record s' { sending = 0; is_sending = false; nqpc_sent = (s.nqpc_sent + 1) % 2 ^ 32 },
    )

-- What SSL_connect() answers: success; 0, or another error than the next two; SSL_ERROR_WANT_READ or
-- SSL_ERROR_WANT_WRITE.
pub data Handshake : Type 0 where
  made : Handshake
  refused : Handshake
  wanting : Handshake

-- What the calls of one perf__dot_sockready answer: whether connect() is done at once, where it
-- reconnects first, behind a failed SSL_write(), and at the limit of queries; SSL_write(); the wait
-- for the connection; SSL_connect(); and two readings of the clock.
pub record DotCalls : Type 0 where
  pub first_connect : Bool
  pub next_connect : Bool
  pub limit_connect : Bool
  pub write : Write
  pub waited : Waited
  pub handshake : Handshake
  pub now : ℕ
  pub later : ℕ

-- The limit of queries for a connection.
unfoldable pub limit : DotCalls → DotSocket → Answer × DotSocket
unfolding reconnect
limit c s =
    let s' = record s { nqpc_ts = if s.nqpc_ts == 0 then c.now + s.nqpc_timeout else s.nqpc_ts } in
    if not (s.num_queries_per_conn == 0) && leb s.num_queries_per_conn s.nqpc_sent
    then (
      not_ready,
      if leb s.nqpc_sent s.nqpc_recv || ltb s'.nqpc_ts c.later
          then reconnect c.limit_connect s'
          else s',
    )
    else (ready, s)

-- The SSL_write() of what is left of a packet.
unfoldable pub push : DotCalls → Write → DotSocket → Answer × DotSocket
unfolding advance limit reconnect
push c (wrote n) s =
    let (through, s') = advance n (written n s) in if through then limit c s' else (not_ready, s')
push c disconnected s = (not_ready, reconnect c.next_connect s)
push c system_failed s = (not_ready, reconnect c.next_connect s)
push c want s = (not_ready, s)
push c tls_failed s = (not_ready, s)

-- The part with SSL_connect().
unfoldable pub shake : Handshake → DotSocket → Answer × DotSocket
shake made s = (if s.is_sending then not_ready else ready, record s { is_ready = true })
shake refused s = (not_ready, record s { do_reconnect = true })
shake wanting s = (not_ready, s)

-- The wait for the connection, and the part behind it.
unfoldable pub await : DotCalls → Waited → DotSocket → Answer × DotSocket
unfolding shake
await c not_writable s = (timed_out, s)
await c still_connecting s = (not_ready, s)
await c broken s = (not_ready, record s { do_reconnect = true })
await c connected s = shake c.handshake (record s { is_conn_ready = true })

-- perf__dot_sockready
unfoldable pub dot_sockready : DotCalls → DotSocket → Option (Answer × DotSocket)
unfolding reconnect push limit shake await
dot_sockready c s =
    let s' =
      if s.do_reconnect then record (reconnect c.first_connect s) { do_reconnect = false } else s in
    locking s (
      if s'.is_ready
      then (if s'.is_sending then push c c.write s' else limit c s')
      else if s'.is_conn_ready
      then shake c.handshake s'
      else await c c.waited s')
