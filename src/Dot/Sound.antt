-- ===== src/Dot/Sound.antt =====
-- src/net_dot.c: perf__dot_sendto and perf__dot_recv leave a framed stream and a free lock.
use dnsperf.Common.{
  ℕ, ◌+◌, ◌-◌, ◌≡◌, ◌≢◌, refl, sym, ap, subst, ◌∙◌, Bool, true, false, Option, some, ◌∷◌, ◌++◌, ltb,
  ◌==◌, if_cases, if_false, Bytes, length, take, some_case,
}
use dnsperf.Buffer.{uint16}
use dnsperf.Tcp.Send.{TcpSent, sent, in_progress, not_sent, Answer, accepted}
use dnsperf.Tcp.Frames.{IsFrame, Position, IsFramed, flags-IsFramed}
use dnsperf.Tcp.Packets.{
  cut, first_send-IsFramed, with_packet-IsFramed, packet-IsFrame, put_off-IsFramed,
}
use dnsperf.Dot.{
  DotSocket, DotResult, connect, reconnect, Read, bytes, closed, want_read, failed, broken,
  take_packet, receive, dot_recv,
}
use dnsperf.Tcp.Send as Tcp
use dnsperf.Tcp.{length_field, recv_buf_size}
use dnsperf.Dot.Same.{sender, first_write-Same}
use dnsperf.Dot.Send.{
  Write, wrote, disconnected, system_failed, want, tls_failed, put_off, first_write, dot_sendto,
}
use dnsperf.Dot.Frames.{IsSound, reconnect-IsSound}

put_off-IsSound :
    (s : DotSocket) → s.is_sending ≡ false → IsFrame s.sendbuf → IsSound s → IsSound (put_off s)
put_off-IsSound s e frame h = (
  flags-IsFramed s.is_ready s.do_reconnect s.nqpc_sent s.nqpc_ts (Tcp.put_off (sender s))
      (put_off-IsFramed (sender s) e frame h.0),
  h.1,
)

-- A new session leaves the packet; it has none on its way where there was none.
reconnect-Keeps :
    (b : Bool) (s : DotSocket)
    → s.is_sending ≡ false
    → ((reconnect b s).is_sending ≡ false) × ((reconnect b s).sendbuf ≡ s.sendbuf)
unfolding reconnect connect
reconnect-Keeps b s e =
    if_cases
      (λ (t : DotSocket). ((connect b t).is_sending ≡ false) × ((connect b t).sendbuf ≡ s.sendbuf))
      (s.sending == 0) _ _ (λ _. (e, refl)) (λ _. (refl, refl))

first_write-IsSound :
    (b : Bool) (w : Write) (s : DotSocket)
    → w ≢ tls_failed
    → s.is_sending ≡ false
    → IsFrame s.sendbuf
    → IsSound s
    → IsSound (first_write b w s).1
unfolding first_write
first_write-IsSound b (wrote n) s k e frame h = (
  subst IsFramed (sym (ap (λ r. r.1) (first_write-Same b n s)))
      (first_send-IsFramed (accepted n) (sender s) e frame h.0),
  if_cases (λ (r : TcpSent × DotSocket). r.1.is_locked ≡ false) (ltb n (length s.sendbuf)) _ _
      (λ _. h.1) (λ _. h.1),
)
first_write-IsSound b disconnected s k e frame h =
    let (idle, same) = reconnect-Keeps b s e in
    put_off-IsSound (reconnect b s) idle (subst IsFrame (sym same) frame) (reconnect-IsSound b s h)
first_write-IsSound b system_failed s k e frame h = h
first_write-IsSound b want s k e frame h = put_off-IsSound s e frame h
first_write-IsSound b tls_failed s k e frame h = absurd (k refl)

pub dot_sendto-IsSound :
    (b : Bool) (w : Write) (qid : ℕ) (buf : Bytes) (s : DotSocket) (r : TcpSent × DotSocket)
    → w ≢ tls_failed
    → s.is_sending ≡ false
    → IsSound s
    → dot_sendto b w qid buf s ≡ some r
    → IsSound r.1
unfolding dot_sendto
dot_sendto-IsSound b w qid buf s r k e h eq =
    some_case (λ (t : TcpSent × DotSocket). IsSound t.1)
      (if_cases (λ (t : TcpSent × DotSocket). IsSound t.1) s.is_ready _ _
        (λ _. first_write-IsSound b w s' k e (packet-IsFrame buf) h')
        (λ _. put_off-IsSound s' e (packet-IsFrame buf) h'))
      (sym (if_false s.is_locked _ _ h.1) ∙ eq)
  where
    s' : DotSocket
    s' = record s { sendbuf = uint16 (cut buf) ++ take (cut buf) buf; qid = qid }

    h' : IsSound s'
    h' = (with_packet-IsFramed _ qid (sender s) e h.0, h.1)

-- A change of the receiver's fields.
abbrev with_input : DotSocket → Bytes → Bool → ℕ → DotSocket
with_input s buf more n = record s { recvbuf = buf; have_more = more; nqpc_recv = n }

with_input-IsSound :
    (s : DotSocket) (buf : Bytes) (more : Bool) (n : ℕ)
    → IsSound s
    → IsSound (with_input s buf more n)
with_input-IsSound s buf more n h = (
  record {
    frames = h.0.frames;
    whole = h.0.whole;
    part = h.0.part;
    stream_is = h.0.stream_is;
    position = same s.is_sending h.0.position;
  },
  h.1,
)
  where
    same :
        (c : Bool)
        → Position c (sender s) h.0.part
        → Position c (sender (with_input s buf more n)) h.0.part
    same true p = p
    same false p = p

take_packet-IsSound : (len : ℕ) (s : DotSocket) → IsSound s → IsSound (take_packet len s).1
unfolding take_packet
take_packet-IsSound len s h =
    if_cases (λ (t : DotResult × DotSocket). IsSound t.1)
      (ltb (length s.recvbuf) (length_field s.recvbuf + 2)) _ _ (λ _. h)
      (λ _. with_input-IsSound s _ _ _ h)

receive-IsSound :
    (b : Bool) (read : Read) (len : ℕ) (s : DotSocket)
    → IsSound s
    → IsSound (receive b read len s).1
unfolding receive
receive-IsSound b (bytes x xs) len s h =
    let h' = with_input-IsSound s (s.recvbuf ++ x ∷ xs) s.have_more s.nqpc_recv h in
    if_cases (λ (t : DotResult × DotSocket). IsSound t.1) (ltb (length (s.recvbuf ++ x ∷ xs)) 3) _ _
      (λ _. h') (λ _. take_packet-IsSound len _ h')
receive-IsSound b closed len s h = reconnect-IsSound b s h
receive-IsSound b want_read len s h = h
receive-IsSound b Read.disconnected len s h = reconnect-IsSound b s h
receive-IsSound b (failed e) len s h = h
receive-IsSound b broken len s h = h

abbrev Sound : DotResult × DotSocket → Type 0
Sound t = IsSound t.1

pub dot_recv-IsSound :
    (b : Bool) (read : ℕ → Read) (len : ℕ) (s : DotSocket) (r : DotResult × DotSocket)
    → IsSound s
    → dot_recv b read len s ≡ some r
    → IsSound r.1
unfolding dot_recv
dot_recv-IsSound b read len s r h =
    if_cases (λ (o : Option (DotResult × DotSocket)). o ≡ some r → IsSound r.1) s.have_more _ _
      (λ _ e. some_case Sound (take_packet-IsSound len s h) e)
      (λ _ e.
        some_case Sound
          (if_cases Sound s.is_ready _ _
            (λ _. receive-IsSound b (read (recv_buf_size - length s.recvbuf)) len s h) (λ _. h))
          (sym (if_false s.is_locked _ _ h.1) ∙ e))
