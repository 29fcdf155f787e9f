-- ===== src/Doh.antt =====
-- src/net_doh.c: how DNS over HTTPS receives. `recvbuf` is recvbuf[0] to recvbuf[recv_at - 1], and
-- `dnsmsg` is dnsmsg[0] to dnsmsg[dnsmsg_at - 1]. What SSL_read() and nghttp2 answer is an argument.
pub mod Within
pub mod Response
use dnsperf.Common.{
  ℕ, ◌+◌, ◌-◌, ◌%◌, ◌^◌, Bool, true, false, not, ◌&&◌, ◌||◌, Option, none, some, List, [], ◌∷◌,
  ◌++◌, ltb, leb, ◌==◌, if◌then◌else◌, Bytes, length, take, drop, get_or, set,
}
use dnsperf.Libc.{codes, strtoul, strncasecmp_eq}
use dnsperf.Tcp.{recv_buf_size}

-- The fields of perf__doh_socket and of its http2_session_t that receiving uses. `http2_code` is 0 too
-- where it is negative; `codes_seen` is stats.code, `unknown_code` stats.unknown_code.
pub record DohSocket : Type 0 where
  pub is_ready : Bool
  pub is_conn_ready : Bool
  pub is_ssl_ready : Bool
  pub is_sending : Bool
  pub is_post_sending : Bool
  pub do_connect : Bool
  pub settings_sent : Bool
  pub dnsmsg : Bytes
  pub dnsmsg_completed : Bool
  pub http2_code : ℕ
  pub http2_is_dns : Bool
  pub codes_seen : List ℕ
  pub unknown_code : ℕ
  pub recvbuf : Bytes
  pub num_queries_per_conn : ℕ
  pub nqpc_recv : ℕ

abbrev pub dns_msg_max_size : ℕ
dns_msg_max_size = 65535

-- perf__doh_reconnect
unfoldable pub reconnect : DohSocket → DohSocket
reconnect s = record s {
  settings_sent = false;
  is_ready = false;
  is_conn_ready = false;
  is_ssl_ready = false;
  is_sending = false;
  is_post_sending = false;
  dnsmsg = [];
  dnsmsg_completed = false;
  http2_code = 0;
  http2_is_dns = false;
  do_connect = true;
}

-- atoi(); what it gives outside the range of int, which C leaves open, is 0 here.
unfoldable pub atoi : Bytes → ℕ
unfolding strtoul
atoi text = let (u, rest) = strtoul 10 text in if ltb u (2 ^ 31) then u else 0

-- _http2_on_header_callback, in a HEADERS frame.
unfoldable pub on_header : Bytes → Bytes → DohSocket → DohSocket
unfolding strncasecmp_eq atoi
on_header name value s =
    if strncasecmp_eq (length name) (codes ":status:") name
    then record s { http2_code = atoi value }
    else if strncasecmp_eq (length name) (codes "content-type:") name
        && strncasecmp_eq (length value) (codes "application/dns-message") value
    then record s { http2_is_dns = true }
    else s

-- What nghttp2 calls back for: a header, a chunk of data, a DATA frame with or without
-- END_STREAM, a RST_STREAM or GOAWAY frame.
pub data Event : Type 0 where
  header : Bytes → Bytes → Event
  chunk : Bytes → Event
  data_frame : Bool → Event
  reset : Event

-- What a callback returns: 0, NGHTTP2_ERR_PAUSE, NGHTTP2_ERR_CALLBACK_FAILURE; or it ends the
-- process.
pub data Reply : Type 0 where
  proceed pause callback_failure fatal : Reply

-- The callbacks: _http2_on_header_callback, _http2_data_chunk_recv_cb, _http2_frame_recv_cb.
unfoldable pub on_event : Event → DohSocket → Reply × DohSocket
unfolding on_header reconnect
on_event (header name value) s = (proceed, on_header name value s)
on_event (chunk xs) s =
    if s.dnsmsg_completed
    then (pause, s)
    else if ltb dns_msg_max_size (length s.dnsmsg + length xs)
    then (callback_failure, s)
    else (proceed, record s { dnsmsg = s.dnsmsg ++ xs })
on_event (data_frame false) s = (proceed, s)
on_event (data_frame true) s =
    if s.dnsmsg_completed then (fatal, s) else (proceed, record s { dnsmsg_completed = true })
on_event reset s = (proceed, reconnect s)

-- The callbacks of one nghttp2_session_mem_recv(), which stops where one does not return 0.
unfoldable pub run_events : List Event → DohSocket → Reply × DohSocket
unfolding on_event
run_events [] s = (proceed, s)
run_events (e ∷ es) s =
    let (reply, s') = on_event e s in
    let more = run_events es s' in
    elim reply [
      | proceed ↦ more
      | pause ↦ (pause, s')
      | callback_failure ↦ (callback_failure, s')
      | fatal ↦ (fatal, s')
    ]

-- What SSL_read() answers: bytes, 1 at least; 0; SSL_ERROR_WANT_READ; SSL_ERROR_SYSCALL with errno
-- EBADF, ECONNREFUSED, ECONNRESET or ENOTCONN; with another errno; another error.
pub data Read : Type 0 where
  bytes : Bytes → Read
  closed want_read disconnected failed broken : Read

-- What nghttp2_session_mem_recv() makes of the buffer: the callbacks, and how many octets it takes,
-- or `none` where it fails.
pub record Parsed : Type 0 where
  pub events : List Event
  pub taken : Option ℕ

-- What perf__doh_recv answers: a message; -1 with EAGAIN; -1 with another errno; the end of the
-- process.
pub data DohResult : Type 0 where
  message : Bytes → DohResult
  again failure exits : DohResult

-- The statistics of the codes.
unfoldable pub count_code : DohSocket → DohSocket
count_code s =
    if ltb 99 s.http2_code && ltb s.http2_code 600
    then record s {
      codes_seen =
          set s.codes_seen (s.http2_code - 100)
            ((get_or s.codes_seen (s.http2_code - 100) 0 + 1) % 2 ^ 64);
    }
    else record s { unknown_code = (s.unknown_code + 1) % 2 ^ 64 }

-- The part of perf__doh_recv behind the callbacks.
unfoldable pub deliver : ℕ → DohSocket → DohResult × DohSocket
unfolding count_code
deliver len s =
    let t = count_code s in
    let free = record t { dnsmsg = []; dnsmsg_completed = false } in
    if not s.dnsmsg_completed
    then (again, s)
    else if not s.http2_is_dns
    then (again, record free { http2_code = 0; http2_is_dns = false })
    else if ltb s.http2_code 200 || ltb 299 s.http2_code
    then (again, record free { http2_code = 0 })
    else (
      message (take (if ltb (length s.dnsmsg) len then length s.dnsmsg else len) s.dnsmsg),
      record free {
        nqpc_recv =
            if not (s.num_queries_per_conn == 0) then (s.nqpc_recv + 1) % 2 ^ 32 else s.nqpc_recv;
      },
    )

-- The part behind nghttp2_session_mem_recv(), where the callbacks ended with `reply`.
unfoldable pub behind_events : ℕ → Reply → Option ℕ → DohSocket → DohResult × DohSocket
unfolding deliver
behind_events len callback_failure taken s = (failure, s)
behind_events len fatal taken s = (exits, s)
behind_events len proceed none s = (failure, s)
behind_events len proceed (some n) s = deliver len (record s { recvbuf = drop n s.recvbuf })
behind_events len pause none s = (failure, s)
behind_events len pause (some n) s = deliver len (record s { recvbuf = drop n s.recvbuf })

-- The part with nghttp2_session_mem_recv(), and the rest.
unfoldable pub process : (Bytes → Parsed) → ℕ → DohSocket → DohResult × DohSocket
unfolding run_events behind_events
process parse len s =
    let p = parse s.recvbuf in
    let (reply, s') = run_events p.events s in behind_events len reply p.taken s'

-- The part behind SSL_read().
unfoldable pub behind_read : (Bytes → Parsed) → ℕ → Read → DohSocket → DohResult × DohSocket
unfolding reconnect process
behind_read parse len (bytes xs) s = process parse len (record s { recvbuf = s.recvbuf ++ xs })
behind_read parse len closed s = (again, reconnect s)
behind_read parse len want_read s =
    if length s.recvbuf == 0 then (again, s) else process parse len s
behind_read parse len disconnected s = (again, reconnect s)
behind_read parse len failed s = (failure, s)
behind_read parse len broken s = (failure, s)

-- perf__doh_recv; `read room` is what SSL_read() does.
unfoldable pub doh_recv : (ℕ → Read) → (Bytes → Parsed) → ℕ → DohSocket → DohResult × DohSocket
unfolding behind_read process
doh_recv read parse len s =
    if not s.is_ready
    then (again, s)
    else if ltb (length s.recvbuf) recv_buf_size
    then behind_read parse len (read (recv_buf_size - length s.recvbuf)) s
    else process parse len s
