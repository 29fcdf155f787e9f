-- ===== src/Tcp/Connects.antt =====
-- src/net_tcp.c, perf__tcp_sockready: what it sends on old and new connections.
use dnsperf.Common.{
  ℕ, ◌≡◌, refl, ◌⊎◌, inl, inr, Bool, true, false, not, ◌&&◌, ◌||◌, [], leb, ◌==◌, if◌then◌else◌,
  length,
}
use dnsperf.Common.{==→eq, if_cases}
use dnsperf.Tcp.Send.{
  TcpSender, SendCall, accepted, try_again, disconnected, failed, Connect, reconnect, is_lost,
  unsent, Answer, ready, not_ready, timed_out, Waited, not_writable, connected, still_connecting,
  broken, pushed, limit, finish_connect, conn_cont, Calls, give_up, push_ready, tcp_sockready,
}
use dnsperf.Tcp.Frames.{joined, Position, IsFramed, Fits, Pushed, pushed-IsFramed, flags-IsFramed}

-- Only a socket with nothing left to send is told to be ready.
abbrev pub Idle : Answer → TcpSender → Type 0
Idle ready s = s.is_sending ≡ false
Idle not_ready s = Unit {0}
Idle timed_out s = Unit {0}

abbrev pub Settled : Answer × TcpSender → Type 0
Settled r = IsFramed r.1 × Idle r.0 r.1

limit-Settled :
    (now later : ℕ) (s : TcpSender)
    → s.is_sending ≡ false
    → IsFramed s
    → Settled (limit now later s)
unfolding limit
limit-Settled now later s e v =
    if_cases Settled (not (s.num_queries_per_conn == 0) && leb s.num_queries_per_conn s.nqpc_sent) _
      _ (λ _. (flags-IsFramed s.is_ready _ s.nqpc_sent _ s v, tt)) (λ _. (v, e))

finish_connect-Settled :
    (call : SendCall) (s : TcpSender)
    → s.is_sending ≡ true
    → Fits (length (unsent s)) call
    → IsFramed s
    → Settled (finish_connect call s)
unfolding finish_connect
finish_connect-Settled (accepted n) s e fits v = go (pushed n s) (pushed-IsFramed n s e fits v)
  where
    go : (r : Bool × TcpSender) → Pushed r → Settled (if r.0 then ready else not_ready, r.1)
    go (true, s') (w, done) = (w, done)
    go (false, s') (w, part) = (w, tt)
finish_connect-Settled try_again s e fits v = (v, tt)
finish_connect-Settled disconnected s e fits v =
    (flags-IsFramed s.is_ready true s.nqpc_sent s.nqpc_ts s v, tt)
finish_connect-Settled failed s e fits v =
    (flags-IsFramed s.is_ready true s.nqpc_sent s.nqpc_ts s v, tt)

conn_cont-Settled :
    (w : Waited) (call : SendCall) (s : TcpSender)
    → (s.is_sending ≡ false) ⊎ Fits (length (unsent s)) call
    → IsFramed s
    → Settled (conn_cont w call s)
unfolding conn_cont
conn_cont-Settled not_writable call s fits v = (v, tt)
conn_cont-Settled still_connecting call s fits v = (v, tt)
conn_cont-Settled broken call s fits v =
    (flags-IsFramed s.is_ready true s.nqpc_sent s.nqpc_ts s v, tt)
conn_cont-Settled connected call s fits v =
    let made = flags-IsFramed true s.need_reconnect s.nqpc_sent s.nqpc_ts s v in
    if_cases Settled s.is_sending _ _ (λ e. finish_connect-Settled call _ e (room e fits) made)
      (λ e. (made, e))
  where
    room :
        s.is_sending ≡ true
        → (s.is_sending ≡ false) ⊎ Fits (length (unsent s)) call
        → Fits (length (unsent s)) call
    room e (inl no_packet) = cc
    room e (inr fits) = fits

-- A new connection starts with the packet's first octet, if none of it was sent.
reconnect-IsFramed :
    (c : Connect) (s : TcpSender)
    → (s.is_sending ≡ false) ⊎ (s.sending ≡ 0)
    → IsFramed s
    → IsFramed (reconnect c s)
unfolding reconnect joined
reconnect-IsFramed c s start v = record {
  frames = [];
  whole = tt;
  part = [];
  stream_is = refl;
  position = fresh s.is_sending refl start v.position;
}
  where
    fresh :
        (b : Bool)
        → s.is_sending ≡ b
        → (s.is_sending ≡ false) ⊎ (s.sending ≡ 0)
        → Position b s v.part
        → Position b (reconnect c s) []
    fresh false e start h = refl
    fresh true e (inl no_packet) h = cc
    fresh true e (inr zero_sent) h = (rw (zero_sent) refl, h.1)

-- After a failed sendto() the packet starts again, or is dropped if a part of it was sent.
retry-Settled :
    (c : Calls) (s : TcpSender)
    → Fits (length (unsent s)) c.next_push
    → IsFramed s
    → Settled (conn_cont c.waited c.next_push (give_up (reconnect c.next_connect s)))
unfolding reconnect joined
retry-Settled c s fits v =
    if_cases (λ t. Settled (conn_cont c.waited c.next_push t)) (s.sending == 0) _ _
      (λ z.
        conn_cont-Settled c.waited c.next_push (reconnect c.next_connect s) (inr fits)
          (reconnect-IsFramed c.next_connect s (inr (==→eq s.sending 0 z)) v))
      (λ z. conn_cont-Settled c.waited c.next_push _ (inl refl) dropped)
  where
    dropped : IsFramed (record (reconnect c.next_connect s) { sending = 0; is_sending = false })
    dropped = record { frames = []; whole = tt; part = []; stream_is = refl; position = refl }

push_ready-Settled :
    (c : Calls) (call : SendCall) (s : TcpSender)
    → s.is_sending ≡ true
    → Fits (length (unsent s)) call
    → Fits (length (unsent s)) c.next_push
    → IsFramed s
    → Settled (push_ready c call s)
unfolding push_ready
push_ready-Settled c (accepted n) s e fits next v = go (pushed n s) (pushed-IsFramed n s e fits v)
  where
    go :
        (r : Bool × TcpSender)
        → Pushed r
        → Settled (if r.0 then limit c.now c.later r.1 else (not_ready, r.1))
    go (true, s') (w, done) = limit-Settled c.now c.later s' done w
    go (false, s') (w, part) = (w, tt)
push_ready-Settled c try_again s e fits next v = (v, tt)
push_ready-Settled c disconnected s e fits next v = retry-Settled c s next v
push_ready-Settled c failed s e fits next v = retry-Settled c s next v

ready-Settled :
    (c : Calls) (s : TcpSender)
    → Fits (length (unsent s)) c.first_push
    → Fits (length (unsent s)) c.next_push
    → IsFramed s
    → Settled (
        if s.is_ready
        then (if s.is_sending then push_ready c c.first_push s else limit c.now c.later s)
        else conn_cont c.waited c.next_push s)
ready-Settled c s first next v =
    if_cases Settled s.is_ready _ _
      (λ _.
        if_cases Settled s.is_sending _ _ (λ e. push_ready-Settled c c.first_push s e first next v)
          (λ e. limit-Settled c.now c.later s e v))
      (λ _. conn_cont-Settled c.waited c.next_push s (inr next) v)

-- If sendto() never takes more than it is given, and no part of a packet was sent where
-- perf__tcp_sockready makes a new connection for one that was lost, then the octets that the
-- connection has taken stay whole packets behind their lengths and the start of the one that is on
-- its way; and the socket is told to be ready only with no packet on its way.
pub tcp_sockready-Settled :
    (c : Calls) (s : TcpSender)
    → Fits (length (unsent s)) c.first_push
    → Fits (length (unsent s)) c.next_push
    → ((is_lost s || s.need_reconnect) ≡ false) ⊎ ((s.is_sending ≡ false) ⊎ (s.sending ≡ 0))
    → IsFramed s
    → Settled (tcp_sockready c s)
unfolding tcp_sockready reconnect
tcp_sockready-Settled c s first next start v =
    if_cases
      (λ t. Settled (
        if t.is_ready
        then (if t.is_sending then push_ready c c.first_push t else limit c.now c.later t)
        else conn_cont c.waited c.next_push t))
      (is_lost s || s.need_reconnect) _ _
      (λ e. ready-Settled c _ first next (
        flags-IsFramed c.first_connect.immediate false 0 0 (reconnect c.first_connect s)
          (reconnect-IsFramed c.first_connect s (fresh e start) v)))
      (λ e. ready-Settled c s first next v)
  where
    fresh :
        (is_lost s || s.need_reconnect) ≡ true
        → ((is_lost s || s.need_reconnect) ≡ false) ⊎ ((s.is_sending ≡ false) ⊎ (s.sending ≡ 0))
        → (s.is_sending ≡ false) ⊎ (s.sending ≡ 0)
    fresh e (inl kept) = cc
    fresh e (inr start) = start
