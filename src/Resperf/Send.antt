-- ===== src/Resperf/Send.antt =====
-- src/resperf.c, do_one_line.
use dnsperf.Common.{
  ℕ, zero, suc, ◌+◌, ◌*◌, ◌/◌, ◌%◌, Bool, true, false, [], ◌∷◌, if◌then◌else◌, Bytes, length, Code,
  failure, Outcome, ok, err, abort, stuck,
}
use dnsperf.Perf.{add64}
use dnsperf.Common.{no_more}
use dnsperf.Buffer.{Buffer, init}
use dnsperf.Datafile.{System}
use dnsperf.Datafile.Runs.{next}
use dnsperf.Dns.Request.{Options, build_request}
use dnsperf.Resperf.{Config, State, update, to_outstanding}

-- What perf_net_sockready answers: 1, 0 or -1.
pub data Ready : Type 0 where
  ready not_ready ready_failed : Ready

-- What perf_net_sendto answers: at least 1, or less with errno EINPROGRESS, or with another one.
pub data Sent : Type 0 where
  sent in_progress send_failed : Sent

-- What do_one_line returns, PERF_R_SUCCESS or a code; `fatal` ends the process.
pub data Line : Type 0 where
  success : Line
  refused : Code → Line
  fatal : Line

-- `sockready sock k` is the answer of the call's k-th perf_net_sockready, on the socket `sock`, and
-- `sendto sock packet` that of perf_net_sendto.
pub record Network : Type 0 where
  pub sockready : ℕ → ℕ → Ready
  pub sendto : ℕ → Bytes → Sent
  pub system : System
  pub hmac : Bytes → Bytes
  pub time_signed : ℕ
  pub options : Options

-- The id and the socket of a query.
unfoldable pub qid_of : Config → ℕ → ℕ
qid_of c q = q / c.nsocks

unfoldable pub sock_of : Config → ℕ → ℕ
sock_of c q = q % c.nsocks

abbrev pub line_size : ℕ
line_size = 64 * 1024 + 2

abbrev pub packet_size : Bool → ℕ
packet_size edns = if edns then 4096 else 512

-- A query becomes outstanding, and is counted.
unfoldable pub count_sent : State → ℕ → State
unfolding to_outstanding
count_sent s q =
    let s' = to_outstanding s q in
    record s' {
      num_queries_sent = add64 s'.num_queries_sent 1;
      num_queries_outstanding = add64 s'.num_queries_outstanding 1;
    }

unfoldable pub clear_inprogress : State → ℕ → State
unfolding update
clear_inprogress s q = update s q (record (s.queries q) { is_inprogress = false })

-- What the loop over the queries in progress leaves: a query and the number of calls made, or the
-- end of do_one_line.
pub data Settled : Type 0 where
  at : ℕ → ℕ → Settled
  stopped : Code → Settled
  out_of_fuel : Settled

-- `while (q->is_inprogress)`, on fuel; it starts with the head of the list. `sockready q k` is the
-- answer on the socket of `q`.
unfoldable pub settle_loop : (ℕ → ℕ → Ready) → ℕ → ℕ → State → Settled × State
unfolding clear_inprogress count_sent
settle_loop sockready zero k s = (out_of_fuel, s)
settle_loop sockready (suc f) k s = elim s.instanding_list [
  | [] ↦ (stopped no_more, s)
  | q ∷ _ ↦
      let moved = settle_loop sockready f (k + 1) (count_sent (clear_inprogress s q) q) in
      if (s.queries q).is_inprogress
      then (elim (sockready q k) [
        | ready_failed ↦ (stopped failure, s)
        | ready ↦ moved
        | not_ready ↦ moved
      ])
      else (at q k, s)
]

-- From `q->sent_timestamp = time_now` on.
unfoldable pub send_packet : Sent → ℕ → State → Line × State
unfolding update count_sent
send_packet result q s =
    let s' = update s q (record (s.queries q) { sent_timestamp = s.time_now }) in
    elim result [
      | sent ↦ (success, count_sent s' q)
      | in_progress ↦
          (refused failure, update s' q (record (s'.queries q) { is_inprogress = true }))
      | send_failed ↦ (refused failure, s')
    ]

-- What becomes of the request.
unfoldable pub send_request : Outcome Buffer → (Bytes → Sent) → ℕ → State → Line × State
unfolding send_packet
send_request (ok msg) sendto q s = send_packet (sendto msg.bytes) q s
send_request (err e) sendto q s = (refused e, s)
send_request abort sendto q s = (fatal, s)
send_request stuck sendto q s = (fatal, s)

-- The request for a query, in the buffer that is cleared.
unfoldable pub request_of : Config → Network → Bytes → ℕ → Outcome Buffer
unfolding qid_of
request_of c net line q =
    build_request net.hmac net.time_signed line (qid_of c q) net.options
      (init (packet_size net.options.edns))

unfoldable pub send_line : Config → Network → Outcome Buffer → ℕ → State → Line × State
unfolding send_request request_of sock_of
send_line c net (ok lines) q s =
    send_request (request_of c net lines.bytes q) (net.sendto (sock_of c q)) q s
send_line c net (err e) q s = (fatal, s)
send_line c net abort q s = (fatal, s)
send_line c net stuck q s = (fatal, s)

-- The part behind the loop.
unfoldable pub send_query : Config → Network → ℕ → ℕ → State → Line × State
unfolding send_line sock_of
send_query c net q k s =
    let (line, input) = next net.system s.input (init line_size) in
    elim (net.sockready (sock_of c q) k) [
      | ready ↦ send_line c net line q (record s { input = input })
      | not_ready ↦ (refused failure, s)
      | ready_failed ↦ (refused failure, s)
    ]

unfoldable pub send_settled : Config → Network → Settled × State → Line × State
unfolding send_query
send_settled c net (at q k, s) = send_query c net q k s
send_settled c net (stopped e, s) = (refused e, s)
send_settled c net (out_of_fuel, s) = (fatal, s)

-- do_one_line; each round of its loop takes a query off the list.
unfoldable pub do_one_line : Config → Network → State → Line × State
unfolding settle_loop send_settled sock_of
do_one_line c net s =
    send_settled c net
      (settle_loop (λ q. net.sockready (sock_of c q)) (length s.instanding_list + 1) 0 s)
