-- ===== src/Tcp/Reached.antt =====
-- src/net_tcp.c: what holds of a socket after any sequence of calls.
use dnsperf.Common.{ℕ, ◌≡◌, refl, Bool, false, true, none, [], Bytes, length, ◌||◌, ◌⊎◌, ◌==◌, not}
use dnsperf.Tcp.{RecvCall, tcp_recv, TcpSocket}
use dnsperf.Tcp.Send.{
  TcpSender, SendCall, Connect, Calls, is_lost, unsent, tcp_sendto, tcp_sockready,
}
use dnsperf.Tcp.Frames.{IsFramed, Fits, Position, joined}
use dnsperf.Tcp.Packets.{tcp_sendto-IsFramed}
use dnsperf.Tcp.Connects.{tcp_sockready-Settled}

-- A socket behind perf_net_tcp_opensocket, with perf__tcp_num_queries_per_conn.
abbrev pub opened : Connect → ℕ → ℕ → TcpSender
opened c num_queries_per_conn nqpc_timeout = record {
  sock = record {
    fd = c.new_fd;
    recvfd = c.new_fd;
    recvbuf = [];
    have_more = false;
    recv_need_reconn = none;
    counts_queries = not (num_queries_per_conn == 0);
    nqpc_recv = 0;
  };
  sendbuf = [];
  sending = 0;
  is_ready = c.immediate;
  need_reconnect = false;
  is_sending = false;
  qid = 0;
  num_queries_per_conn = num_queries_per_conn;
  nqpc_timeout = nqpc_timeout;
  nqpc_sent = 0;
  nqpc_ts = 0;
  stream = [];
}

-- A call. do_send sends only where no packet is on its way; a perf__tcp_sockready that makes a new
-- connection for a lost one with a part of a packet sent is left out.
pub data Call (s : TcpSender) : TcpSender → Type 0 where
  send :
      (call : SendCall) (qid : ℕ) (buf : Bytes)
      → s.is_sending ≡ false
      → Call s (tcp_sendto call qid buf s).1
  check :
      (c : Calls)
      → Fits (length (unsent s)) c.first_push
      → Fits (length (unsent s)) c.next_push
      → ((is_lost s || s.need_reconnect) ≡ false) ⊎ ((s.is_sending ≡ false) ⊎ (s.sending ≡ 0))
      → Call s (tcp_sockready c s).1
  recv : (read : ℕ → RecvCall) (len : ℕ) → Call s (record s { sock = (tcp_recv read len s.sock).1 })

pub data History (start : TcpSender) : TcpSender → Type 0 where
  here : History start start
  later : {s t : TcpSender} → History start s → Call s t → History start t

-- Receiving leaves what is sent.
with_sock-IsFramed : (s : TcpSender) (k : TcpSocket) → IsFramed s → IsFramed (record s { sock = k })
with_sock-IsFramed s k v = record {
  frames = v.frames;
  whole = v.whole;
  part = v.part;
  stream_is = v.stream_is;
  position = same s.is_sending v.position;
}
  where
    same : (b : Bool) → Position b s v.part → Position b (record s { sock = k }) v.part
    same true p = p
    same false p = p

Call-IsFramed : (s t : TcpSender) → IsFramed s → Call s t → IsFramed t
Call-IsFramed s t v (send call qid buf e) = tcp_sendto-IsFramed call qid buf s e v
Call-IsFramed s t v (check c first next start) = (tcp_sockready-Settled c s first next start v).0
Call-IsFramed s t v (recv read len) = with_sock-IsFramed s _ v

opened-IsFramed : (c : Connect) (n t : ℕ) → IsFramed (opened c n t)
unfolding joined
opened-IsFramed c n t = record {
  frames = [];
  whole = tt;
  part = [];
  stream_is = refl;
  position = refl;
}

-- Whatever calls of perf__tcp_sendto, perf__tcp_sockready and perf__tcp_recv follow each other on a
-- new socket, each of them whole, with a packet sent only where none is on its way, sendto() taking
-- no more than it is given, and no perf__tcp_sockready that makes a new connection for a lost one on
-- which a part of a packet was sent: the octets that the connection has taken are whole packets
-- behind their lengths and the start of the one that is on its way.
pub History-IsFramed :
    (c : Connect) (num_queries_per_conn nqpc_timeout : ℕ) (s : TcpSender)
    → History (opened c num_queries_per_conn nqpc_timeout) s
    → IsFramed s
History-IsFramed c n t s here = opened-IsFramed c n t
History-IsFramed c n t s (later {s = u} h call) =
    Call-IsFramed u s (History-IsFramed c n t u h) call
