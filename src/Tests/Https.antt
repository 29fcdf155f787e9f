-- ===== src/Tests/Https.antt =====
-- A response over HTTPS, and the theorems on it.
use dnsperf.Common.{
  take, ap, length-take-le, ℕ, ◌≡◌, refl, true, false, some, List, [], ◌∷◌, arith, Bytes, length,
}
use dnsperf.Libc.{codes, strtoul, strncasecmp_eq}
use dnsperf.Doh.{
  DohSocket, Read, bytes, closed, Parsed, on_header, atoi, doh_recv, behind_read, reconnect,
}
use dnsperf.Doh.Within.{IsWithin, doh_recv-IsWithin}
use dnsperf.Doh.Response.{header_events, data_events, HandedOver, doh_recv-HandedOver}

abbrev socket : DohSocket
socket = record {
  is_ready = true;
  is_conn_ready = true;
  is_ssl_ready = true;
  is_sending = false;
  is_post_sending = false;
  do_connect = false;
  settings_sent = true;
  dnsmsg = [];
  dnsmsg_completed = false;
  http2_code = 0;
  http2_is_dns = false;
  codes_seen = [];
  unknown_code = 0;
  recvbuf = 1 ∷ [];
  num_queries_per_conn = 0;
  nqpc_recv = 0;
}

abbrev read_two : ℕ → Read
read_two room = bytes (2 ∷ 3 ∷ [])

abbrev headers : List (Bytes × Bytes)
headers =
    (codes ":status", codes "200") ∷ (codes "content-type", codes "application/dns-message") ∷ []

-- Whatever the octets are, they are a response whose data come in two chunks.
abbrev response : Bytes → Parsed
response xs = record {
  events = header_events headers (data_events ((7 ∷ []) ∷ (8 ∷ 9 ∷ []) ∷ []));
  taken = some 2;
}

doh_recv-HandedOver_example : HandedOver (7 ∷ 8 ∷ []) (3 ∷ []) (doh_recv read_two response 2 socket)
unfolding on_header strncasecmp_eq atoi strtoul
doh_recv-HandedOver_example =
    doh_recv-HandedOver read_two response 2 2 socket (2 ∷ 3 ∷ []) headers
      ((7 ∷ []) ∷ (8 ∷ 9 ∷ []) ∷ []) refl refl refl (omega arith) refl refl (omega arith) refl
      (omega arith) (omega arith)

abbrev read_some : ℕ → Read
read_some room = bytes (take room (2 ∷ 3 ∷ []))

doh_recv-IsWithin_example : IsWithin (doh_recv read_some response 2 socket).1
doh_recv-IsWithin_example =
    doh_recv-IsWithin read_some response 2 socket
      (λ room xs e.
        let same : take room (2 ∷ 3 ∷ []) ≡ xs = cc in
        omega (arith, ap length same, length-take-le {A = ℕ} room (2 ∷ 3 ∷ [])))
      (omega arith, omega arith)

-- What a lost connection leaves in the buffer is parsed in front of the octets of the next one.
left_behind : (doh_recv (λ _. closed) response 2 socket).1.recvbuf ≡ 1 ∷ []
unfolding doh_recv behind_read reconnect
left_behind = refl
