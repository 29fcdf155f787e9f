-- ===== src/Dot/Frames.antt =====
-- src/net_dot.c: what a TLS session takes is whole packets behind their lengths, and a part of the
-- packet that is on its way.
use dnsperf.Common.{
  ℕ, ◌+◌, ◌≤◌, ◌≡◌, refl, sym, subst, Bool, true, false, not, ◌&&◌, some, [], ltb, leb, ◌==◌,
  if◌then◌else◌, if_cases, if_false, ◌||◌, ==→eq, length,
}
use dnsperf.Tcp.{length_field}
use dnsperf.Tcp.Send.{Answer, not_ready, Waited, not_writable, connected, still_connecting, broken}
use dnsperf.Tcp.Frames.{joined, Position, IsFramed, Pushed, pushed-IsFramed, flags-IsFramed}
use dnsperf.Tcp.Connects.{Idle}
use dnsperf.Dot.{DotSocket, connect, reconnect}
use dnsperf.Dot.Same.{sender, pushed_of, advance-Same}
use dnsperf.Dot.Send.{
  Write, wrote, disconnected, system_failed, want, tls_failed, unsent, written, advance, Handshake,
  made, refused, wanting, DotCalls, limit, push, shake, await, dot_sockready,
}

-- A new session starts with the packet's first octet: where a part of it was sent, it is dropped.
pub reconnect-IsFramed :
    (b : Bool) (s : DotSocket) → IsFramed (sender s) → IsFramed (sender (reconnect b s))
unfolding reconnect connect joined
reconnect-IsFramed b s v =
    if_cases (λ (t : DotSocket). IsFramed (sender (connect b t))) (s.sending == 0) _ _
      (λ z. record {
        frames = [];
        whole = tt;
        part = [];
        stream_is = refl;
        position = fresh (==→eq s.sending 0 z) s.is_sending v.position;
      })
      (λ z. record { frames = []; whole = tt; part = []; stream_is = refl; position = refl })
  where
    kept : DotSocket
    kept = record s { have_more = false; recvbuf = []; is_ready = false; is_conn_ready = false }

    fresh :
        s.sending ≡ 0
        → (c : Bool) → Position c (sender s) v.part
        → Position c (sender (connect b kept)) []
    fresh z false h = refl
    fresh z true h = (rw (z) refl, h.1)

-- The state that a call leaves: framed, with the lock free.
abbrev pub IsSound : DotSocket → Type 0
IsSound s = IsFramed (sender s) × (s.is_locked ≡ false)

pub reconnect-IsSound : (b : Bool) (s : DotSocket) → IsSound s → IsSound (reconnect b s)
unfolding reconnect connect
reconnect-IsSound b s h = (reconnect-IsFramed b s h.0, go s.is_locked h.1)
  where
    go : (l : Bool) → s.is_locked ≡ false → (reconnect b s).is_locked ≡ false
    go l e =
        if_cases (λ (t : DotSocket). (connect b t).is_locked ≡ false) (s.sending == 0) _ _ (λ z. e)
          (λ z. e)

-- The answer, and the state that it leaves: only a socket with no packet on its way is ready.
abbrev pub Settled : Answer × DotSocket → Type 0
Settled r = IsSound r.1 × Idle r.0 (sender r.1)

advance-Unlocked :
    (n : ℕ) (s : DotSocket) → s.is_locked ≡ false → (advance n (written n s)).1.is_locked ≡ false
unfolding advance
advance-Unlocked n s e =
    if_cases (λ (r : Bool × DotSocket). r.1.is_locked ≡ false)
      (ltb (s.sending + n) (length_field s.sendbuf + 2)) _ _ (λ _. e) (λ _. e)

limit-Settled :
    (c : DotCalls) (s : DotSocket) → s.is_sending ≡ false → IsSound s → Settled (limit c s)
unfolding limit
limit-Settled c s e h =
    if_cases Settled (not (s.num_queries_per_conn == 0) && leb s.num_queries_per_conn s.nqpc_sent) _
      _
      (λ _.
        let s' : DotSocket = record s {
          nqpc_ts = if s.nqpc_ts == 0 then c.now + s.nqpc_timeout else s.nqpc_ts;
        } in
        let timed : IsSound s' =
          (flags-IsFramed s.is_ready s.do_reconnect s.nqpc_sent _ (sender s) h.0, h.1) in
        (
          if_cases IsSound
              (leb s.nqpc_sent s.nqpc_recv
                || ltb (if s.nqpc_ts == 0 then c.now + s.nqpc_timeout else s.nqpc_ts) c.later)
              _ _ (λ _. reconnect-IsSound c.limit_connect s' timed) (λ _. timed),
          tt,
        ))
      (λ _. (h, e))

-- What SSL_write() may take of `room` octets.
abbrev pub Fits : ℕ → Write → Type 0
Fits room (wrote n) = n ≤ room
Fits room disconnected = Unit {0}
Fits room system_failed = Unit {0}
Fits room want = Unit {0}
Fits room tls_failed = Unit {0}

push-Settled :
    (c : DotCalls) (w : Write) (s : DotSocket)
    → s.is_sending ≡ true
    → Fits (length (unsent s)) w
    → IsSound s
    → Settled (push c w s)
unfolding push
push-Settled c disconnected s e fits h = (reconnect-IsSound c.next_connect s h, tt)
push-Settled c system_failed s e fits h = (reconnect-IsSound c.next_connect s h, tt)
push-Settled c want s e fits h = (h, tt)
push-Settled c tls_failed s e fits h = (h, tt)
push-Settled c (wrote n) s e fits h =
    go (advance n (written n s))
      (subst Pushed (sym (advance-Same n s)) (pushed-IsFramed n (sender s) e fits h.0))
      (advance-Unlocked n s h.1)
  where
    go :
        (r : Bool × DotSocket)
        → Pushed (pushed_of r)
        → r.1.is_locked ≡ false
        → Settled (if r.0 then limit c r.1 else (not_ready, r.1))
    go (true, s') (v, done) free = limit-Settled c s' done (v, free)
    go (false, s') (v, part) free = ((v, free), tt)

shake-Settled : (k : Handshake) (s : DotSocket) → IsSound s → Settled (shake k s)
unfolding shake
shake-Settled refused s h =
    ((flags-IsFramed s.is_ready true s.nqpc_sent s.nqpc_ts (sender s) h.0, h.1), tt)
shake-Settled wanting s h = (h, tt)
shake-Settled made s h = (
  (flags-IsFramed true s.do_reconnect s.nqpc_sent s.nqpc_ts (sender s) h.0, h.1),
  if_cases (λ (a : Answer). Idle a (sender (record s { is_ready = true }))) s.is_sending _ _
      (λ _. tt) (λ e. e),
)

await-Settled : (c : DotCalls) (w : Waited) (s : DotSocket) → IsSound s → Settled (await c w s)
unfolding await
await-Settled c not_writable s h = (h, tt)
await-Settled c still_connecting s h = (h, tt)
await-Settled c broken s h =
    ((flags-IsFramed s.is_ready true s.nqpc_sent s.nqpc_ts (sender s) h.0, h.1), tt)
await-Settled c connected s h = shake-Settled c.handshake (record s { is_conn_ready = true }) h

abbrev turn : DotCalls → DotSocket → Answer × DotSocket
turn c s =
    if s.is_ready
    then (if s.is_sending then push c c.write s else limit c s)
    else if s.is_conn_ready
    then shake c.handshake s
    else await c c.waited s

turn-Settled :
    (c : DotCalls) (s : DotSocket)
    → (s.is_ready ≡ true → Fits (length (unsent s)) c.write)
    → IsSound s
    → Settled (turn c s)
turn-Settled c s fits h =
    if_cases Settled s.is_ready _ _
      (λ r.
        if_cases Settled s.is_sending _ _ (λ e. push-Settled c c.write s e (fits r) h)
          (λ e. limit-Settled c s e h))
      (λ _.
        if_cases Settled s.is_conn_ready _ _ (λ _. shake-Settled c.handshake s h)
          (λ _. await-Settled c c.waited s h))

reconnect-Unready : (b : Bool) (s : DotSocket) → (reconnect b s).is_ready ≡ false
unfolding reconnect connect
reconnect-Unready b s =
    if_cases (λ (t : DotSocket). (connect b t).is_ready ≡ false) (s.sending == 0) _ _ (λ _. refl)
      (λ _. refl)

not_both : (b : Bool) {P : Type 0} → b ≡ true → b ≡ false → P
not_both b h k = cc

-- perf__dot_sockready on a socket that is sound: it answers, and what it leaves is settled.
pub dot_sockready-Settled :
    (c : DotCalls) (s : DotSocket)
    → Fits (length (unsent s)) c.write
    → IsSound s
    → (r : Answer × DotSocket) × ((dot_sockready c s ≡ some r) × Settled r)
unfolding dot_sockready
dot_sockready-Settled c s fits h = (
  turn c s',
  (
    if_false s.is_locked _ _ h.1,
    if_cases Turned s.do_reconnect _ _ first (λ _. turn-Settled c s (λ _. fits) h),
  ),
)
  where
    s' : DotSocket
    s' = if s.do_reconnect then record (reconnect c.first_connect s) { do_reconnect = false } else s

    Turned : DotSocket → Type 0
    Turned t = Settled (turn c t)

    first :
        s.do_reconnect ≡ true
        → Turned (record (reconnect c.first_connect s) { do_reconnect = false })
    first e =
        let w = reconnect-IsSound c.first_connect s h in
        turn-Settled c _
          (λ r.
            not_both (reconnect c.first_connect s).is_ready r (reconnect-Unready c.first_connect s))
          (
            flags-IsFramed (reconnect c.first_connect s).is_ready false
                (reconnect c.first_connect s).nqpc_sent (reconnect c.first_connect s).nqpc_ts
                (sender (reconnect c.first_connect s)) w.0,
            w.1,
          )
