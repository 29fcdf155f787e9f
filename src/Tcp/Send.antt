-- ===== src/Tcp/Send.antt =====
-- src/net_tcp.c: perf__tcp_sendto, perf__tcp_sockready and the state that perf__tcp_connect sets.
use dnsperf.Common.{
  ℕ, ◌+◌, ◌-◌, ◌%◌, ◌^◌, Bool, true, false, not, ◌&&◌, ◌||◌, Option, none, some, [], ◌++◌, ltb, leb,
  ◌==◌, if◌then◌else◌, Bytes, length, take, drop,
}
use dnsperf.Buffer.{uint16}
use dnsperf.Tcp.{TcpSocket, length_field}

-- `sock` is the part of the struct that perf__tcp_recv uses too. `sendbuf` is the packet behind its
-- length. `stream` is no field of the source: it is what the connection `sock.fd` has taken.
pub record TcpSender : Type 0 where
  pub sock : TcpSocket
  pub sendbuf : Bytes
  pub sending : ℕ
  pub is_ready : Bool
  pub need_reconnect : Bool
  pub is_sending : Bool
  pub qid : ℕ
  pub num_queries_per_conn : ℕ
  pub nqpc_timeout : ℕ
  pub nqpc_sent : ℕ
  pub nqpc_ts : ℕ
  pub stream : Bytes

-- TCP_SEND_BUF_SIZE
abbrev pub send_buf_size : ℕ
send_buf_size = 65535 + 2

-- What sendto() does: the number of octets that it takes, or -1 with errno EAGAIN, with
-- ECONNREFUSED, ECONNRESET, ENOTCONN or EPIPE, or with another one.
pub data SendCall : Type 0 where
  accepted : ℕ → SendCall
  try_again disconnected failed : SendCall

-- connect() of a new descriptor: done, or EINPROGRESS. Other failures end the process.
pub record Connect : Type 0 where
  pub new_fd : ℕ
  pub immediate : Bool

-- perf__tcp_connect, and the descriptor that takes the place of the old one.
unfoldable pub reconnect : Connect → TcpSender → TcpSender
reconnect c s = record s {
  sock = record (s.sock) { fd = c.new_fd; nqpc_recv = 0 };
  is_ready = c.immediate;
  nqpc_sent = 0;
  nqpc_ts = 0;
  stream = [];
}

-- What perf__tcp_sendto returns: n - 2, or -1 with errno EINPROGRESS, or with another one.
pub data TcpSent : Type 0 where
  sent : ℕ → TcpSent
  in_progress : TcpSent
  not_sent : TcpSent

abbrev same_fd : Option ℕ → ℕ → Bool
same_fd none fd = false
same_fd (some g) fd = g == fd

-- The receiver has seen the end of this connection.
abbrev pub is_lost : TcpSender → Bool
is_lost s = same_fd s.sock.recv_need_reconn s.sock.fd

-- A packet that is to be sent from its start on the next connection.
abbrev pub put_off : TcpSender → TcpSender
put_off s = record s { need_reconnect = true; is_sending = true; sending = 0 }

-- The answer to the sendto() of perf__tcp_sendto.
unfoldable pub first_send : SendCall → TcpSender → TcpSent × TcpSender
first_send (accepted n) s =
    let s' = record s { stream = s.stream ++ take n s.sendbuf } in
    if ltb n (length s.sendbuf)
    then (in_progress, record s' { is_sending = true; sending = n })
    else (sent (n - 2), record s' { nqpc_sent = (s.nqpc_sent + 1) % 2 ^ 32 })
first_send try_again s = (not_sent, s)
first_send failed s = (not_sent, s)
first_send disconnected s = (in_progress, put_off s)

-- perf__tcp_sendto
unfoldable pub tcp_sendto : SendCall → ℕ → Bytes → TcpSender → TcpSent × TcpSender
unfolding first_send
tcp_sendto call qid buf s =
    let send = if ltb (length buf) (send_buf_size - 2) then length buf else send_buf_size - 2 in
    let s' = record s { sendbuf = uint16 send ++ take send buf; qid = qid } in
    if is_lost s then (in_progress, put_off s') else first_send call s'

-- The octets that are left to send.
abbrev pub unsent : TcpSender → Bytes
unsent s = drop s.sending (take (length_field s.sendbuf + 2) s.sendbuf)

-- What perf__tcp_sockready returns: 1, 0 or -1. Its callbacks are left out.
pub data Answer : Type 0 where
  ready not_ready timed_out : Answer

-- perf_os_waituntilanywritable and getsockopt(SO_ERROR): a timeout or another code than success;
-- writable without an error; with EINPROGRESS, EAGAIN or EWOULDBLOCK; with another error.
pub data Waited : Type 0 where
  not_writable connected still_connecting broken : Waited

-- A sendto() of what is left took all of it, or some.
unfoldable pub pushed : ℕ → TcpSender → Bool × TcpSender
pushed n s =
    let s' = record s { stream = s.stream ++ take n (unsent s); sending = s.sending + n } in
    if ltb (s.sending + n) (length_field s.sendbuf + 2) then (false, s') else (
      true,
      record s' { sending = 0; is_sending = false; nqpc_sent = (s.nqpc_sent + 1) % 2 ^ 32 },
    )

-- The limit of queries for a connection; `now` and `later` are two readings of the clock.
unfoldable pub limit : ℕ → ℕ → TcpSender → Answer × TcpSender
limit now later s =
    let s' = record s { nqpc_ts = if s.nqpc_ts == 0 then now + s.nqpc_timeout else s.nqpc_ts } in
    if not (s.num_queries_per_conn == 0) && leb s.num_queries_per_conn s.nqpc_sent
    then (
      not_ready,
      record s' {
        need_reconnect =
            if leb s.nqpc_sent s.sock.nqpc_recv || ltb s'.nqpc_ts later
            then true
            else s.need_reconnect;
      },
    )
    else (ready, s)

-- The end of the label conn_cont, on a connection that is made.
unfoldable pub finish_connect : SendCall → TcpSender → Answer × TcpSender
unfolding pushed
finish_connect (accepted n) s =
    let (done, s') = pushed n s in (if done then ready else not_ready, s')
finish_connect try_again s = (not_ready, s)
finish_connect disconnected s = (not_ready, record s { need_reconnect = true })
finish_connect failed s = (not_ready, record s { need_reconnect = true })

-- The label conn_cont.
unfoldable pub conn_cont : Waited → SendCall → TcpSender → Answer × TcpSender
unfolding finish_connect
conn_cont not_writable call s = (timed_out, s)
conn_cont still_connecting call s = (not_ready, s)
conn_cont broken call s = (not_ready, record s { need_reconnect = true })
conn_cont connected call s =
    let s' = record s { is_ready = true } in
    if s.is_sending then finish_connect call s' else (ready, s')

-- What the calls of one perf__tcp_sockready answer: the first connection, the first sendto(), the
-- connection after its failure, the wait, the sendto() behind it, and the clock.
pub record Calls : Type 0 where
  pub first_connect : Connect
  pub first_push : SendCall
  pub next_connect : Connect
  pub waited : Waited
  pub next_push : SendCall
  pub now : ℕ
  pub later : ℕ

abbrev pub give_up : TcpSender → TcpSender
give_up s = if s.sending == 0 then s else record s { sending = 0; is_sending = false }

-- The first sendto() of a packet that is on its way.
unfoldable pub push_ready : Calls → SendCall → TcpSender → Answer × TcpSender
unfolding pushed limit conn_cont reconnect
push_ready c (accepted n) s =
    let (done, s') = pushed n s in if done then limit c.now c.later s' else (not_ready, s')
push_ready c try_again s = (not_ready, s)
push_ready c disconnected s = conn_cont c.waited c.next_push (give_up (reconnect c.next_connect s))
push_ready c failed s = conn_cont c.waited c.next_push (give_up (reconnect c.next_connect s))

-- perf__tcp_sockready
unfoldable pub tcp_sockready : Calls → TcpSender → Answer × TcpSender
unfolding reconnect push_ready limit conn_cont
tcp_sockready c s =
    let s' =
      if is_lost s || s.need_reconnect
      then record (reconnect c.first_connect s) { need_reconnect = false }
      else s in
    if s'.is_ready
    then (if s'.is_sending then push_ready c c.first_push s' else limit c.now c.later s')
    else conn_cont c.waited c.next_push s'
