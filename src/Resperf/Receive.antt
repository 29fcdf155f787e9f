-- ===== src/Resperf/Receive.antt =====
-- src/resperf.c, try_process_response and retire_old_queries.
use dnsperf.Common.{
  ℕ, zero, suc, ◌+◌, ◌*◌, ◌%◌, ◌^◌, Bool, true, false, not, ◌||◌, Option, none, some, ltb, leb,
  ◌==◌, if◌then◌else◌, Bytes, length, get_or, set,
}
use dnsperf.Perf.{add64, sub64}
use dnsperf.Links.{tail?}
use dnsperf.Resperf.{
  Config, State, QueryList, instanding, outstanding, to_instanding, bucket_index, in_bucket,
}

-- What perf_net_recv returns: -1 with errno EAGAIN or EINTR, -1 with another one, or the number of
-- octets; and what it leaves in the buffer.
pub data RecvResult : Type 0 where
  try_again failed : RecvResult
  got : ℕ → Bytes → RecvResult

abbrev pub is_outstanding : QueryList → Bool
is_outstanding instanding = false
is_outstanding outstanding = true

-- NOERROR or NXDOMAIN
abbrev is_success : ℕ → Bool
is_success rcode = rcode == 0 || rcode == 3

-- A response to the query `idx`.
unfoldable pub complete : Config → ℕ → ℕ → State → State
unfolding to_instanding bucket_index
complete c idx rcode s =
    let s' = to_instanding s idx in
    let counted =
      in_bucket c (s'.queries idx).sent_timestamp
        (λ b. record b {
          responses = b.responses + 1;
          failures = if is_success rcode then b.failures else b.failures + 1;
        })
        (record s' { num_queries_outstanding = sub64 s'.num_queries_outstanding 1 }) in
    record counted {
      num_responses_received = add64 counted.num_responses_received 1;
      rcodecounts = set counted.rcodecounts rcode (add64 (get_or counted.rcodecounts rcode 0) 1);
    }

-- try_process_response behind perf_net_sockready, whose answer it only logs. `none` is the message
-- and exit(1) of perf_log_fatal.
unfoldable pub try_process_response : Config → ℕ → RecvResult → State → Option State
unfolding complete
try_process_response c sockindex try_again s = some s
try_process_response c sockindex failed s = none
try_process_response c sockindex (got n packet) s =
    let qid = get_or packet 0 0 * 256 + get_or packet 1 0 in
    let rcode = (get_or packet 2 0 * 256 + get_or packet 3 0) % 16 in
    let idx = (qid * c.nsocks + sockindex) % 2 ^ 32 in
    if ltb n 4
    then some s
    else if leb c.max_outstanding idx || not (is_outstanding (s.queries idx).list)
    then some s
    else some (complete c idx rcode s)

-- The loop of retire_old_queries, on fuel.
unfoldable pub retire_loop : Config → ℕ → State → State
unfolding to_instanding tail?
retire_loop c zero s = s
retire_loop c (suc f) s = elim (tail? s.outstanding_list) [
  | none ↦ s
  | some q ↦
      let s' = to_instanding s q in
      let rest = retire_loop c f (record s' {
        num_queries_outstanding = sub64 s'.num_queries_outstanding 1;
        num_queries_timed_out = add64 s'.num_queries_timed_out 1;
      }) in
      if ltb (sub64 s.time_now (s.queries q).sent_timestamp) c.query_timeout then s else rest
]

-- retire_old_queries; each round takes a query off the list.
unfoldable pub retire_old_queries : Config → State → State
unfolding retire_loop
retire_old_queries c s = retire_loop c (length s.outstanding_list) s
