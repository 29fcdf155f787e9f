-- ===== src/Resperf/Ids.antt =====
-- src/resperf.c: the id and the socket of a query lead back to the query.
use dnsperf.Common.{
  ℕ, ◌+◌, ◌*◌, ◌/◌, ◌%◌, ◌^◌, ◌≤◌, ◌<◌, ◌≡◌, ap, ◌∙◌, some, ◌++◌, arith, Bytes, get_or,
}
use dnsperf.Resperf.{State, Config, outstanding}
use dnsperf.Common.{ok, take, refl}
use dnsperf.Buffer.{Buffer, init}
use dnsperf.Dns.Request.Id.{build_request-HasId}
use dnsperf.Resperf.Send.{Network, qid_of, sock_of, request_of, packet_size}
use dnsperf.Resperf.Receive.{try_process_response, complete, got}
use native.Mathlib.Omega.{div_any}
use native.Mathlib.Nat.{div-lt_iff_lt-mul, mul_comm}

octets : (v : ℕ) → v < 65536 → v / 256 % 256 * 256 + v % 256 ≡ v
octets v h = omega arith

index :
    (q n : ℕ)
    → 0 < n
    → q < n * 65536
    → n * 65536 ≤ 2 ^ 32
    → ((q / n / 256 % 256 * 256 + q / n % 256) * n + q % n) % 2 ^ 32 ≡ q
index q n h k l =
    let low : q / n < 65536 = (div-lt_iff_lt-mul h).1 (omega arith) in
    let whole : q / n * n + q % n ≡ q = ap (λ x. x + q % n) (mul_comm (q / n) n) ∙ div_any q n in
    let small : q % 2 ^ 32 ≡ q = omega arith in rw (octets (q / n) low, whole) small

-- If do_one_line makes a request for the query `q`, no more than 65536 queries for each client are in
-- use and their number is a value of an unsigned int, then a response of at least four octets that
-- comes from the socket over which the request is sent, and that repeats its first two octets, is
-- counted for `q`, if that is outstanding.
pub try_process_response-Finds :
    (c : Config) (net : Network) (line : Bytes) (msg : Buffer) (q n : ℕ) (flags : Bytes) (s : State)
    → 0 < c.nsocks
    → q < c.max_outstanding
    → c.max_outstanding ≤ c.nsocks * 65536
    → c.nsocks * 65536 ≤ 2 ^ 32
    → request_of c net line q ≡ ok msg
    → 4 ≤ n
    → (s.queries q).list ≡ outstanding
    → try_process_response c (sock_of c q) (got n (take 2 msg.bytes ++ flags)) s
      ≡ some (complete c q ((get_or flags 0 0 * 256 + get_or flags 1 0) % 16) s)
unfolding try_process_response request_of qid_of sock_of init
try_process_response-Finds c net line msg q n flags s h k l m built long listed =
    let (rest, e) =
      build_request-HasId (q / c.nsocks) net.hmac net.time_signed line net.options
        (init (packet_size net.options.edns)) msg refl built in
    rw (e, index q c.nsocks h (omega (arith, k, l)) m, listed) (ground arith)
