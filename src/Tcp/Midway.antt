-- ===== src/Tcp/Midway.antt =====
-- src/net_tcp.c, perf__tcp_sockready: a new connection in the middle of a packet.
use dnsperf.Common.{
  ℕ, ◌+◌, ◌≡◌, refl, sym, ap, ◌∙◌, Bool, true, false, ◌||◌, [], ◌++◌, arith, ltb, if◌then◌else◌,
  length, take,
}
use dnsperf.Common.{if_cases, take_all}
use dnsperf.Tcp.{length_field}
use dnsperf.Tcp.Send.{
  TcpSender, accepted, reconnect, is_lost, unsent, Answer, pushed, limit, conn_cont, Calls,
  push_ready, tcp_sockready,
}

stream-limit : (now later : ℕ) (s : TcpSender) → (limit now later s).1.stream ≡ s.stream
unfolding limit
stream-limit now later s = ground arith

stream-pushed : (n : ℕ) (s : TcpSender) → (pushed n s).1.stream ≡ s.stream ++ take n (unsent s)
unfolding pushed
stream-pushed n s =
    if_cases (λ (r : Bool × TcpSender). r.1.stream ≡ s.stream ++ take n (unsent s))
      (ltb (s.sending + n) (length_field s.sendbuf + 2)) _ _ (λ _. refl) (λ _. refl)

stream-push_ready :
    (c : Calls) (n : ℕ) (s : TcpSender)
    → s.stream ≡ []
    → n ≡ length (unsent s)
    → (push_ready c (accepted n) s).1.stream ≡ unsent s
unfolding push_ready
stream-push_ready c n s none_yet all =
    if_cases (λ (r : Answer × TcpSender). r.1.stream ≡ unsent s) (pushed n s).0 _ _
      (λ _. stream-limit c.now c.later (pushed n s).1 ∙ rest) (λ _. rest)
  where
    rest : (pushed n s).1.stream ≡ unsent s
    rest =
        stream-pushed n s
        ∙ ap (λ ys. ys ++ take n (unsent s)) none_yet
        ∙ take_all n (unsent s) (omega (arith, all))

-- Where the receiver has seen the end of a connection and a part of a packet was sent on it,
-- perf__tcp_sockready sends the rest of that packet, and not its start, as the first octets of the
-- new connection, if that is made at once and takes them.
pub tcp_sockready-Midway :
    (c : Calls) (s : TcpSender)
    → is_lost s ≡ true
    → s.is_sending ≡ true
    → c.first_connect.immediate ≡ true
    → c.first_push ≡ accepted (length (unsent s))
    → (tcp_sockready c s).1.stream ≡ unsent s
unfolding tcp_sockready reconnect
tcp_sockready-Midway c s lost sending made taken =
    if_cases
      (λ t.
        (if t.is_ready
          then (if t.is_sending then push_ready c c.first_push t else limit c.now c.later t)
          else conn_cont c.waited c.next_push t).1.stream
        ≡ unsent s)
      (is_lost s || s.need_reconnect) _ _
      (λ _.
        if_cases After c.first_connect.immediate _ _
          (λ _.
            if_cases After s.is_sending _ _
              (λ _.
                rw (taken, push_ready)
                  (stream-push_ready c _
                    (record (reconnect c.first_connect s) { need_reconnect = false }) refl refl))
              (λ e. absurd (true-ne-false (sym sending ∙ e))))
          (λ e. absurd (true-ne-false (sym made ∙ e))))
      (λ e. absurd (true-ne-false (or_lost ∙ e)))
  where
    After : Answer × TcpSender → Type 0
    After r = r.1.stream ≡ unsent s

    true-ne-false : true ≡ false → ⊥
    true-ne-false e = cc

    or_lost : true ≡ (is_lost s || s.need_reconnect)
    or_lost = ground arith
