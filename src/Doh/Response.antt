-- ===== src/Doh/Response.antt =====
-- src/net_doh.c: a response that comes in one piece.
use dnsperf.Common.{
  ℕ, ◌+◌, ◌-◌, ◌≤◌, ◌<◌, ◌≡◌, refl, sym, ap, ◌∙◌, subst, true, false, not, ◌&&◌, ◌||◌, some, List,
  [], ◌∷◌, ◌++◌, arith, ltb, if◌then◌else◌, if_true, if_false, if_cases, Bytes, length,
  length-append, take, take_all, drop,
}
use mathlib.Core.List.{append_assoc, append-nil}
use dnsperf.Libc.{codes, strncasecmp_eq}
use dnsperf.Tcp.{recv_buf_size}
use dnsperf.Doh.{
  DohSocket, dns_msg_max_size, on_header, Event, header, chunk, data_frame, Reply, proceed, pause,
  callback_failure, fatal, on_event, run_events, Read, bytes, Parsed, DohResult, message,
  count_code, deliver, behind_events, behind_read, process, doh_recv,
}

-- The headers of a response, as callbacks and what they do.
abbrev pub header_events : List (Bytes × Bytes) → List Event → List Event
header_events [] es = es
header_events ((name, value) ∷ hs) es = header name value ∷ header_events hs es

abbrev pub with_headers : List (Bytes × Bytes) → DohSocket → DohSocket
with_headers [] s = s
with_headers ((name, value) ∷ hs) s = with_headers hs (on_header name value s)

-- The DATA frames: chunks, and END_STREAM behind the last.
abbrev pub data_events : List Bytes → List Event
data_events [] = data_frame true ∷ []
data_events (c ∷ cs) = chunk c ∷ data_events cs

abbrev pub joined : List Bytes → Bytes
joined [] = []
joined (c ∷ cs) = c ++ joined cs

run_events-headers :
    (hs : List (Bytes × Bytes)) (es : List Event) (s : DohSocket)
    → run_events (header_events hs es) s ≡ run_events es (with_headers hs s)
unfolding run_events on_event
run_events-headers [] es s = refl
run_events-headers ((name, value) ∷ hs) es s = run_events-headers hs es (on_header name value s)

-- A message that is complete.
abbrev completed : Bytes → DohSocket → DohSocket
completed xs s = record s { dnsmsg = xs; dnsmsg_completed = true }

run_step :
    (e : Event) (es : List Event) (s s' : DohSocket)
    → on_event e s ≡ (proceed, s')
    → run_events (e ∷ es) s ≡ run_events es s'
unfolding run_events
run_step e es s s' eq =
    ap
      (λ (r : Reply × DohSocket).
        let o : Reply × DohSocket = elim r.0 [
          | proceed ↦ run_events es r.1
          | pause ↦ (pause, r.1)
          | callback_failure ↦ (callback_failure, r.1)
          | fatal ↦ (fatal, r.1)
        ] in
        o)
      eq

run_events-data :
    (cs : List Bytes) (s : DohSocket)
    → s.dnsmsg_completed ≡ false
    → length s.dnsmsg + length (joined cs) ≤ dns_msg_max_size
    → run_events (data_events cs) s ≡ (proceed, completed (s.dnsmsg ++ joined cs) s)
unfolding on_event run_events
run_events-data [] s unfinished fits =
    run_step (data_frame true) [] s (record s { dnsmsg_completed = true })
      (if_false s.dnsmsg_completed _ _ unfinished)
    ∙ ap (λ (xs : Bytes). (proceed, completed xs s)) (sym (append-nil s.dnsmsg))
run_events-data (c ∷ cs) s unfinished fits =
    run_step (chunk c) (data_events cs) s (record s { dnsmsg = s.dnsmsg ++ c })
      (if_false s.dnsmsg_completed _ _ unfinished
        ∙ if_false (ltb dns_msg_max_size (length s.dnsmsg + length c)) _ _
            (ground (arith, length-append c (joined cs), fits)))
    ∙ run_events-data cs (record s { dnsmsg = s.dnsmsg ++ c }) unfinished
        (omega (arith, length-append c (joined cs), length-append s.dnsmsg c, fits))
    ∙ ap (λ (xs : Bytes). (proceed, completed xs s)) (append_assoc s.dnsmsg c (joined cs))

-- What headers leave as it is.
abbrev Kept : DohSocket → DohSocket → Type 0
Kept s t =
    (t.recvbuf ≡ s.recvbuf) × ((t.dnsmsg ≡ s.dnsmsg) × (t.dnsmsg_completed ≡ s.dnsmsg_completed))

on_header-Kept : (name value : Bytes) (s : DohSocket) → Kept s (on_header name value s)
unfolding on_header
on_header-Kept name value s =
    if_cases (Kept s) (strncasecmp_eq (length name) (codes ":status:") name) _ _
      (λ _. (refl, (refl, refl)))
      (λ _.
        if_cases (Kept s)
          (strncasecmp_eq (length name) (codes "content-type:") name
            && strncasecmp_eq (length value) (codes "application/dns-message") value)
          _ _ (λ _. (refl, (refl, refl))) (λ _. (refl, (refl, refl))))

with_headers-Kept : (hs : List (Bytes × Bytes)) (s : DohSocket) → Kept s (with_headers hs s)
with_headers-Kept [] s = (refl, (refl, refl))
with_headers-Kept ((name, value) ∷ hs) s =
    let k = with_headers-Kept hs (on_header name value s) in
    let j = on_header-Kept name value s in (k.0 ∙ j.0, (k.1.0 ∙ j.1.0, k.1.1 ∙ j.1.1))

on_header-Dns :
    (name value : Bytes) (s : DohSocket)
    → s.http2_is_dns ≡ true
    → (on_header name value s).http2_is_dns ≡ true
unfolding on_header
on_header-Dns name value s e =
    if_cases (λ (t : DohSocket). t.http2_is_dns ≡ true)
      (strncasecmp_eq (length name) (codes ":status:") name) _ _ (λ _. e)
      (λ _.
        if_cases (λ (t : DohSocket). t.http2_is_dns ≡ true)
          (strncasecmp_eq (length name) (codes "content-type:") name
            && strncasecmp_eq (length value) (codes "application/dns-message") value)
          _ _ (λ _. refl) (λ _. e))

with_headers-Dns :
    (hs : List (Bytes × Bytes)) (s : DohSocket)
    → s.http2_is_dns ≡ true
    → (with_headers hs s).http2_is_dns ≡ true
with_headers-Dns [] s e = e
with_headers-Dns ((name, value) ∷ hs) s e =
    with_headers-Dns hs (on_header name value s) (on_header-Dns name value s e)

-- A response that was handed over: nothing of it is left, but that it was a DNS message, and the
-- headers of the next response do not change that.
abbrev pub HandedOver : Bytes → Bytes → DohResult × DohSocket → Type 0
HandedOver xs left r =
    (r.0 ≡ message xs)
    × ((r.1.dnsmsg ≡ [])
        × ((r.1.dnsmsg_completed ≡ false)
            × ((r.1.recvbuf ≡ left)
                × ((hs : List (Bytes × Bytes)) → (with_headers hs r.1).http2_is_dns ≡ true))))

count_code-Kept :
    (s : DohSocket)
    → ((count_code s).recvbuf ≡ s.recvbuf) × ((count_code s).http2_is_dns ≡ s.http2_is_dns)
unfolding count_code
count_code-Kept s =
    if_cases (λ (t : DohSocket). (t.recvbuf ≡ s.recvbuf) × (t.http2_is_dns ≡ s.http2_is_dns))
      (ltb 99 s.http2_code && ltb s.http2_code 600) _ _ (λ _. (refl, refl)) (λ _. (refl, refl))

shorter :
    (len : ℕ) (xs : Bytes) → take (if ltb (length xs) len then length xs else len) xs ≡ take len xs
shorter len xs =
    if_cases (λ (i : ℕ). take i xs ≡ take len xs) (ltb (length xs) len) _ _
      (λ short. take_all (length xs) xs (omega arith) ∙ sym (take_all len xs (ground arith)))
      (λ _. refl)

deliver-HandedOver :
    (len : ℕ) (s : DohSocket)
    → s.dnsmsg_completed ≡ true
    → s.http2_is_dns ≡ true
    → 200 ≤ s.http2_code
    → s.http2_code ≤ 299
    → HandedOver (take len s.dnsmsg) s.recvbuf (deliver len s)
unfolding deliver
deliver-HandedOver len s done dns low high =
    let k = count_code-Kept s in
    subst (HandedOver (take len s.dnsmsg) s.recvbuf)
      (sym (
        if_false (not s.dnsmsg_completed) _ _ (ap not done)
        ∙ if_false (not s.http2_is_dns) _ _ (ap not dns)
        ∙ if_false (ltb s.http2_code 200 || ltb 299 s.http2_code) _ _ (ground arith)))
      (
        ap message (shorter len s.dnsmsg),
        (refl, (refl, (k.0, λ hs. with_headers-Dns hs _ (k.1 ∙ dns)))),
      )

-- On a socket that is ready, with no part of a response yet and space in its buffer: if what SSL_read()
-- adds to the buffer holds, for nghttp2, the headers of a response and then its data to the end,
-- in any chunks, 65535 octets at most; and behind these headers the code is 200 to 299 and the
-- content is taken for a DNS message; then perf__doh_recv gives the data, cut to the space of the
-- caller, keeps the octets that nghttp2 did not take, and is free for the next response, whose
-- content it takes for a DNS message whatever headers that response has.
pub doh_recv-HandedOver :
    (read : ℕ → Read) (parse : Bytes → Parsed) (len n : ℕ) (s : DohSocket) (xs : Bytes)
    (hs : List (Bytes × Bytes)) (cs : List Bytes)
    → s.is_ready ≡ true
    → s.dnsmsg ≡ []
    → s.dnsmsg_completed ≡ false
    → length s.recvbuf < recv_buf_size
    → read (recv_buf_size - length s.recvbuf) ≡ bytes xs
    → parse (s.recvbuf ++ xs)
      ≡ record { events = header_events hs (data_events cs); taken = some n }
    → length (joined cs) ≤ dns_msg_max_size
    → (with_headers hs (record s { recvbuf = s.recvbuf ++ xs })).http2_is_dns ≡ true
    → 200 ≤ (with_headers hs (record s { recvbuf = s.recvbuf ++ xs })).http2_code
    → (with_headers hs (record s { recvbuf = s.recvbuf ++ xs })).http2_code ≤ 299
    → HandedOver (take len (joined cs)) (drop n (s.recvbuf ++ xs)) (doh_recv read parse len s)
unfolding doh_recv behind_read process behind_events
doh_recv-HandedOver read parse len n s xs hs cs ready empty unfinished space reads parses fits dns
      low high =
    subst (HandedOver (take len (joined cs)) (drop n (s.recvbuf ++ xs))) (sym runs) (
      subst
        (λ (left : Bytes).
          HandedOver (take len (joined cs)) (drop n left)
            (deliver len (record (completed (joined cs) w) { recvbuf = drop n w.recvbuf })))
        k.0
        (deliver-HandedOver len (record (completed (joined cs) w) { recvbuf = drop n w.recvbuf })
          refl dns low high))
  where
    s' : DohSocket
    s' = record s { recvbuf = s.recvbuf ++ xs }

    w : DohSocket
    w = with_headers hs s'

    k : Kept s' w
    k = with_headers-Kept hs s'

    ran : run_events (header_events hs (data_events cs)) s' ≡ (proceed, completed (joined cs) w)
    ran =
        run_events-headers hs (data_events cs) s'
        ∙ run_events-data cs w (k.1.1 ∙ unfinished) (omega (arith, ap length (k.1.0 ∙ empty), fits))
        ∙ ap (λ (ys : Bytes). (proceed, completed (ys ++ joined cs) w)) (k.1.0 ∙ empty)

    runs :
        doh_recv read parse len s
        ≡ deliver len (record (completed (joined cs) w) { recvbuf = drop n w.recvbuf })
    runs =
        if_false (not s.is_ready) _ _ (ap not ready)
        ∙ if_true (ltb (length s.recvbuf) recv_buf_size) _ _ (ground arith)
        ∙ ap (λ (r : Read). behind_read parse len r s) reads
        ∙ ap
            (λ (q : Parsed).
              behind_events len (run_events q.events s').0 q.taken (run_events q.events s').1)
            parses
        ∙ ap (λ (r : Reply × DohSocket). behind_events len r.0 (some n) r.1) ran
