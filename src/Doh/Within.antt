-- ===== src/Doh/Within.antt =====
-- src/net_doh.c: the buffers of a socket hold what is written into them.
use dnsperf.Common.{
  ℕ, ◌+◌, ◌-◌, ◌≤◌, ◌≡◌, refl, true, false, not, ◌&&◌, ◌||◌, Option, none, some, List, [], ◌∷◌,
  ◌++◌, arith, ltb, ◌==◌, if_cases, Bytes, length, length-append, length-drop, drop,
}
use dnsperf.Libc.{codes, strncasecmp_eq}
use dnsperf.Tcp.{recv_buf_size}
use dnsperf.Doh.{
  DohSocket, dns_msg_max_size, reconnect, on_header, Event, header, chunk, data_frame, reset, Reply,
  proceed, pause, callback_failure, fatal, on_event, run_events, Read, bytes, closed, want_read,
  disconnected, failed, broken, Parsed, count_code, deliver, behind_events, behind_read, process,
  doh_recv,
}

-- Neither buffer is written behind its end.
abbrev pub IsWithin : DohSocket → Type 0
IsWithin s = (length s.recvbuf ≤ recv_buf_size) × (length s.dnsmsg ≤ dns_msg_max_size)

-- What a call leaves.
abbrev Leaves : {A : Type 0} → A × DohSocket → Type 0
Leaves r = IsWithin r.1

on_event-IsWithin : (e : Event) (s : DohSocket) → IsWithin s → Leaves (on_event e s)
unfolding on_event on_header reconnect
on_event-IsWithin (header name value) s h =
    if_cases IsWithin (strncasecmp_eq (length name) (codes ":status:") name) _ _ (λ _. h)
      (λ _.
        if_cases IsWithin
          (strncasecmp_eq (length name) (codes "content-type:") name
            && strncasecmp_eq (length value) (codes "application/dns-message") value)
          _ _ (λ _. h) (λ _. h))
on_event-IsWithin (chunk xs) s h =
    if_cases Leaves s.dnsmsg_completed _ _ (λ _. h)
      (λ _.
        if_cases Leaves (ltb dns_msg_max_size (length s.dnsmsg + length xs)) _ _ (λ _. h)
          (λ fits. (h.0, ground (arith, fits, length-append s.dnsmsg xs))))
on_event-IsWithin (data_frame false) s h = h
on_event-IsWithin (data_frame true) s h = if_cases Leaves s.dnsmsg_completed _ _ (λ _. h) (λ _. h)
on_event-IsWithin reset s h = (h.0, omega arith)

run_events-IsWithin : (es : List Event) (s : DohSocket) → IsWithin s → Leaves (run_events es s)
unfolding run_events
run_events-IsWithin [] s h = h
run_events-IsWithin (e ∷ es) s h =
    go (on_event e s).0 (on_event-IsWithin e s h)
      (run_events-IsWithin es (on_event e s).1 (on_event-IsWithin e s h))
  where
    s' : DohSocket
    s' = (on_event e s).1

    go :
        (reply : Reply)
        → IsWithin s'
        → Leaves (run_events es s')
        → Leaves (
            let r : Reply × DohSocket = elim reply [
              | proceed ↦ run_events es s'
              | pause ↦ (pause, s')
              | callback_failure ↦ (callback_failure, s')
              | fatal ↦ (fatal, s')
            ] in
            r)
    go proceed h k = k
    go pause h k = h
    go callback_failure h k = h
    go fatal h k = h

count_code-IsWithin : (s : DohSocket) → IsWithin s → length (count_code s).recvbuf ≤ recv_buf_size
unfolding count_code
count_code-IsWithin s h =
    if_cases (λ (t : DohSocket). length t.recvbuf ≤ recv_buf_size)
      (ltb 99 s.http2_code && ltb s.http2_code 600) _ _ (λ _. h.0) (λ _. h.0)

deliver-IsWithin : (len : ℕ) (s : DohSocket) → IsWithin s → Leaves (deliver len s)
unfolding deliver
deliver-IsWithin len s h =
    let w = count_code-IsWithin s h in
    if_cases Leaves (not s.dnsmsg_completed) _ _ (λ _. h)
      (λ _.
        if_cases Leaves (not s.http2_is_dns) _ _ (λ _. (w, omega arith))
          (λ _.
            if_cases Leaves (ltb s.http2_code 200 || ltb 299 s.http2_code) _ _
              (λ _. (w, omega arith)) (λ _. (w, omega arith))))

behind_events-IsWithin :
    (len : ℕ) (reply : Reply) (taken : Option ℕ) (s : DohSocket)
    → IsWithin s
    → Leaves (behind_events len reply taken s)
unfolding behind_events
behind_events-IsWithin len callback_failure taken s h = h
behind_events-IsWithin len fatal taken s h = h
behind_events-IsWithin len proceed none s h = h
behind_events-IsWithin len pause none s h = h
behind_events-IsWithin len proceed (some n) s h =
    deliver-IsWithin len (record s { recvbuf = drop n s.recvbuf })
      (omega (arith, length-drop n s.recvbuf, h.0), h.1)
behind_events-IsWithin len pause (some n) s h =
    deliver-IsWithin len (record s { recvbuf = drop n s.recvbuf })
      (omega (arith, length-drop n s.recvbuf, h.0), h.1)

process-IsWithin :
    (parse : Bytes → Parsed) (len : ℕ) (s : DohSocket) → IsWithin s → Leaves (process parse len s)
unfolding process
process-IsWithin parse len s h =
    behind_events-IsWithin len (run_events (parse s.recvbuf).events s).0 (parse s.recvbuf).taken
      (run_events (parse s.recvbuf).events s).1 (run_events-IsWithin (parse s.recvbuf).events s h)

behind_read-IsWithin :
    (parse : Bytes → Parsed) (len : ℕ) (r : Read) (s : DohSocket)
    → ((xs : Bytes) → r ≡ bytes xs → length xs ≤ recv_buf_size - length s.recvbuf)
    → IsWithin s
    → Leaves (behind_read parse len r s)
unfolding behind_read reconnect
behind_read-IsWithin parse len (bytes xs) s bound h =
    process-IsWithin parse len (record s { recvbuf = s.recvbuf ++ xs })
      (omega (arith, length-append s.recvbuf xs, bound xs refl, h.0), h.1)
behind_read-IsWithin parse len closed s bound h = (h.0, omega arith)
behind_read-IsWithin parse len want_read s bound h =
    if_cases Leaves (length s.recvbuf == 0) _ _ (λ _. h) (λ _. process-IsWithin parse len s h)
behind_read-IsWithin parse len disconnected s bound h = (h.0, omega arith)
behind_read-IsWithin parse len failed s bound h = h
behind_read-IsWithin parse len broken s bound h = h

-- If SSL_read() never gives more than it is asked for, a call of perf__doh_recv keeps both buffers of
-- the socket within their sizes, whatever nghttp2 makes of the octets, and whatever the answer is.
pub doh_recv-IsWithin :
    (read : ℕ → Read) (parse : Bytes → Parsed) (len : ℕ) (s : DohSocket)
    → ((room : ℕ) (xs : Bytes) → read room ≡ bytes xs → length xs ≤ room)
    → IsWithin s
    → IsWithin (doh_recv read parse len s).1
unfolding doh_recv
doh_recv-IsWithin read parse len s bound h =
    if_cases Leaves (not s.is_ready) _ _ (λ _. h)
      (λ _.
        if_cases Leaves (ltb (length s.recvbuf) recv_buf_size) _ _
          (λ _.
            behind_read-IsWithin parse len (read (recv_buf_size - length s.recvbuf)) s
              (bound (recv_buf_size - length s.recvbuf)) h)
          (λ _. process-IsWithin parse len s h))
