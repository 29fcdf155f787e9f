-- ===== src/Dot/Faults.antt =====
-- src/net_dot.c: a reconnection between the two parts of a write.
use dnsperf.Common.{sym}
use dnsperf.Common.{subst}
use dnsperf.Common.{
  ℕ, ◌+◌, ◌<◌, ◌≡◌, refl, ap, Bool, true, false, [], arith, ltb, ◌==◌, if_cases, if_true, take,
  drop,
}
use dnsperf.Tcp.{length_field}
use dnsperf.Dot.{DotSocket, connect, reconnect, closed, receive}
use dnsperf.Dot.Send.{unsent, written, advance}

reconnect-Fresh :
    (b : Bool) (s : DotSocket)
    → s.sending ≡ 0
    → reconnect b s
      ≡ connect b
          (record s { have_more = false; recvbuf = []; is_ready = false; is_conn_ready = false })
unfolding reconnect
reconnect-Fresh b s e = ap (connect b) (if_true (s.sending == 0) _ _ (ground (arith, e)))

-- What stands behind a write of `n` octets that a reconnection overtook.
abbrev pub Midway : ℕ → DotSocket → DotSocket → Type 0
Midway n s t =
    (t.stream ≡ [])
    × ((t.is_sending ≡ true) × (unsent t ≡ drop n (take (length_field s.sendbuf + 2) s.sendbuf)))

-- Where SSL_write() takes a first part of a packet, and perf__dot_recv, in the other thread, sees the end
-- of the session before perf__dot_sockready, which has given the lock back, counts these octets: the
-- new session has taken nothing, and the packet is sent on it from behind that part.
pub advance-Overtaken :
    (b : Bool) (n len : ℕ) (s : DotSocket)
    → s.is_sending ≡ true
    → s.sending ≡ 0
    → n < length_field s.sendbuf + 2
    → Midway n s (advance n (receive b closed len (written n s)).1).1
unfolding receive advance connect
advance-Overtaken b n len s sends start part =
    subst (λ (t : DotSocket). Midway n s (advance n t).1)
      (sym (reconnect-Fresh b (written n s) start))
      (if_cases (λ (r : Bool × DotSocket). Midway n s r.1)
        (ltb (s.sending + n) (length_field s.sendbuf + 2)) _ _
        (λ _. (
          refl,
          (sends, ap (λ k. drop k (take (length_field s.sendbuf + 2) s.sendbuf)) (omega arith)),
        ))
        (λ long. absurd (ground arith)))
