-- ===== src/Perf/Receive.antt =====
-- src/dnsperf.c, do_recv: what a batch of responses does to the queries and the statistics.
use dnsperf.Common.{
  ℕ, ◌+◌, ◌*◌, ◌%◌, Bool, true, false, not, ◌&&◌, ◌||◌, Option, none, some, List, [], ◌∷◌, ltb,
  ◌==◌, if◌then◌else◌, Bytes, get_or, set,
}
use dnsperf.Perf.{
  Thread, QueryInfo, QueryList, Stats, unused, outstanding, append_unused, query_move, add64, sub64,
  uint64_max,
}

-- received_query_t, without `desc`.
pub record Received : Type 0 where
  pub sock : ℕ
  pub qid : ℕ
  pub rcode : ℕ
  pub size : ℕ
  pub when : ℕ
  pub sent : ℕ
  pub unexpected : Bool
  pub short_response : Bool

-- What perf_net_recv returns: -1 with errno, or the number of octets.
pub data RecvResult : Type 0 where
  failed : ℕ → RecvResult
  got : ℕ → RecvResult

abbrev pub eagain : ℕ
eagain = 11

-- recv_one, where perf_net_recv left `packet` in the buffer at the time `now`. The second result is
-- *saved_errnop.
unfoldable pub recv_one : ℕ → Bytes → ℕ → RecvResult → ℕ → Option Received × ℕ
recv_one sock packet now (failed errno) saved_errno = (none, errno)
recv_one sock packet now (got n) saved_errno =
    if n == 0 then (none, if saved_errno == 0 then eagain else saved_errno) else (
      some (record {
        sock = sock;
        qid = get_or packet 0 0 * 256 + get_or packet 1 0;
        rcode = (get_or packet 2 0 * 256 + get_or packet 3 0) % 16;
        size = n;
        when = now;
        sent = 0;
        unexpected = false;
        short_response = ltb n 4;
      }),
      saved_errno,
    )

abbrev pub is_outstanding : QueryList → Bool
is_outstanding unused = false
is_outstanding outstanding = true

unfoldable pub is_expected : QueryInfo → Received → Bool
is_expected q r = is_outstanding q.list && (not (q.timestamp == uint64_max) && q.sock == r.sock)

-- The body of the loop under the lock.
unfoldable pub match_one : Thread → Received → Thread × Received
unfolding query_move is_expected
match_one t r =
    if r.short_response
    then (t, r)
    else if is_expected (t.queries r.qid) r
    then (query_move t r.qid append_unused, record r { sent = (t.queries r.qid).timestamp })
    else (t, record r { unexpected = true })

unfoldable pub match_batch : Thread → List Received → Thread × List Received
unfolding match_one
match_batch t [] = (t, [])
match_batch t (r ∷ rs) =
    let (t', r') = match_one t r in let (t'', rs') = match_batch t' rs in (t'', r' ∷ rs')

-- The body of the unlocked loop.
unfoldable pub account : Stats → Received → Stats
account s r =
    let latency = sub64 r.when r.sent in
    if r.short_response || r.unexpected then s else record s {
      num_completed = add64 s.num_completed 1;
      total_response_size = add64 s.total_response_size r.size;
      rcodecounts = set s.rcodecounts r.rcode (add64 (get_or s.rcodecounts r.rcode 0) 1);
      latency_sum = add64 s.latency_sum latency;
      latency_sum_squares = add64 s.latency_sum_squares (latency * latency);
      latency_min =
          if ltb latency s.latency_min || add64 s.num_completed 1 == 1
          then latency
          else s.latency_min;
      latency_max = if ltb s.latency_max latency then latency else s.latency_max;
    }

unfoldable pub account_batch : Stats → List Received → Stats
unfolding account
account_batch s [] = s
account_batch s (r ∷ rs) = account_batch (account s r) rs

-- Both loops of do_recv over a batch.
unfoldable pub receive_batch : Thread → List Received → Thread
unfolding match_batch account_batch
receive_batch t rs =
    let (t', rs') = match_batch t rs in record t' { stats = account_batch t'.stats rs' }
