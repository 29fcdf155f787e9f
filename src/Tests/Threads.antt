-- ===== src/Tests/Threads.antt =====
-- Runs of the operations on the shared state, and the theorems on them.
use dnsperf.Common.{
  ℕ, some, refl, replicate, ◌+◌, ◌%◌, ◌^◌, ◌≡◌, false, [], ◌∷◌, arith, ◌==◌, if◌then◌else◌, length,
}
use dnsperf.Links.{unlink, tail?}
use dnsperf.Links.Count.{count}
use dnsperf.Perf.{
  take_query, Thread, Stats, unused, outstanding, query_move, process_timeouts, cancel_queries,
  update, time_out, timeouts_loop, is_late,
}
use dnsperf.Perf.Share.{per_thread, shares, shares-eq-total}
use dnsperf.Perf.Partition.{IsPartition}
use dnsperf.Perf.Timeouts.{Settled, process_timeouts-Settled, cancel_queries-Empties}
use dnsperf.Perf.Totals.{sum_stats, diff_stats, sum_stats-Counts, diff_stats-Counts}
use dnsperf.Perf.Start.{limits}
use dnsperf.Perf.Take.{Taken, take_query-Taken}
use dnsperf.Perf.Receive.{Received, receive_batch}
use dnsperf.Perf.Batch.{IsFresh, CountsRcodes, sum, receive_batch-Counts}

three_threads : (per_thread 10 3 0 ≡ 4) × ((per_thread 10 3 1 ≡ 3) × (per_thread 10 3 2 ≡ 3))
unfolding per_thread
three_threads = (refl, (refl, refl))

shares-eq-total_example : shares 10 3 3 ≡ 10
shares-eq-total_example = shares-eq-total 10 3 (omega arith)

abbrev no_stats : Stats
no_stats = record {
  rcodecounts = replicate 16 0;
  num_sent = 2;
  num_interrupted = 0;
  num_timedout = 0;
  num_completed = 0;
  total_request_size = 0;
  total_response_size = 0;
  latency_sum = 0;
  latency_sum_squares = 0;
  latency_min = 0;
  latency_max = 0;
  num_conn_attempts = 0;
  num_conn_completed = 0;
  conn_latency_sum = 0;
  conn_latency_sum_squares = 0;
  conn_latency_min = 0;
  conn_latency_max = 0;
}

-- Queries 0 and 1 are outstanding since the times 50 and 10; query 2 is unused.
abbrev thread : Thread
thread = record {
  queries = λ i.
      if i == 0
      then record { timestamp = 50; list = outstanding; sock = 7 }
      else if i == 1
      then record { timestamp = 10; list = outstanding; sock = 7 }
      else record { timestamp = 0; list = unused; sock = 7 };
  outstanding_queries = 0 ∷ 1 ∷ [];
  unused_queries = 2 ∷ [];
  stats = no_stats;
}

thread-IsPartition : IsPartition 3 thread
unfolding count
thread-IsPartition unused p = ground arith
thread-IsPartition outstanding p = ground arith

-- With a timeout of 30, query 1 is timed out at 60 and query 0 is not.
timed_out :
    ((process_timeouts 30 60 thread).outstanding_queries ≡ 0 ∷ [])
    × ((process_timeouts 30 60 thread).unused_queries ≡ 2 ∷ 1 ∷ [])
unfolding process_timeouts timeouts_loop time_out is_late query_move tail? unlink update
timed_out = (refl, refl)

process_timeouts-Settled_example : Settled 3 30 60 thread (process_timeouts 30 60 thread)
process_timeouts-Settled_example = process_timeouts-Settled 3 30 60 thread thread-IsPartition

cancel_queries-Empties_example :
    IsPartition 3 (cancel_queries thread) × ((cancel_queries thread).outstanding_queries ≡ [])
cancel_queries-Empties_example = cancel_queries-Empties 3 thread thread-IsPartition

-- A response to query 1, from the socket that the query went to, and the same response once more.
abbrev response : Received
response = record {
  sock = 7;
  qid = 1;
  rcode = 3;
  size = 40;
  when = 60;
  sent = 0;
  unexpected = false;
  short_response = false;
}

response-IsFresh : IsFresh 3 response
response-IsFresh = record { known = omega arith; expected = refl; small = omega arith }

no_stats-CountsRcodes : CountsRcodes no_stats
unfolding sum
no_stats-CountsRcodes = record { sixteen = refl; together = refl }

receive_batch-Counts_example :
    let t' = receive_batch thread (response ∷ response ∷ []) in
    IsPartition 3 t'
    × (CountsRcodes t'.stats
        × ((t'.stats.num_completed + length t'.outstanding_queries) % 2 ^ 64
            ≡ (thread.stats.num_completed + length thread.outstanding_queries) % 2 ^ 64))
receive_batch-Counts_example =
    receive_batch-Counts 3 thread (response ∷ response ∷ []) thread-IsPartition
      no_stats-CountsRcodes (response-IsFresh, (response-IsFresh, tt))

-- Of 100000 outstanding queries and 600 clients, the only thread takes as many as it can.
cut_limits :
    limits 100000 10 600 1 0 ≡ record { max_outstanding = 65536; max_qps = 10; nsocks = 256 }
unfolding limits per_thread
cut_limits = refl

take_query-Taken_example :
    (q : ℕ) × (t' : Thread) × ((take_query thread ≡ some (q, t')) × Taken 3 thread q t')
take_query-Taken_example = take_query-Taken 3 thread thread-IsPartition (omega arith)

sum_stats-Counts_example : CountsRcodes (sum_stats (no_stats ∷ no_stats ∷ []))
sum_stats-Counts_example =
    sum_stats-Counts (no_stats ∷ no_stats ∷ []) (no_stats-CountsRcodes, (no_stats-CountsRcodes, tt))

-- Two queries were completed in an interval, one of them with rcode 3.
abbrev later : Stats
later = record no_stats { rcodecounts = 1 ∷ 0 ∷ 0 ∷ 1 ∷ replicate 12 0; num_completed = 2 }

later-CountsRcodes : CountsRcodes later
unfolding sum
later-CountsRcodes = record { sixteen = refl; together = refl }

diff_stats-Counts_example :
    CountsRcodes (diff_stats no_stats later)
    × ((no_stats.num_completed + (diff_stats no_stats later).num_completed) % 2 ^ 64
        ≡ later.num_completed % 2 ^ 64)
diff_stats-Counts_example =
    diff_stats-Counts no_stats later no_stats-CountsRcodes later-CountsRcodes (ground arith)
      (omega arith)
