-- ===== src/Tests/Interleavings.antt =====
-- A run of the two threads over three queries, and the theorems on it.
use dnsperf.Perf.{record_sent}
use dnsperf.Common.{ℕ, ◌<◌, ◌≡◌, refl, some, arith}
use dnsperf.Links.{unlink}
use dnsperf.Links.{tail?}
use dnsperf.Perf.{
  Thread, prepend_outstanding, query_move, take_query, bind_socket, stamp, update, uint64_max,
  num_outstanding, add64, time_out,
}
use dnsperf.Perf.Start.{init_queries, cleared_thread}
use dnsperf.Perf.Totals.{cleared}
use dnsperf.Perf.System.{
  System, idle, stamped, waiting, overdue, take, reset, choose, chosen, set_time, launch, count,
  add_size, look, not_later, too_late, not_sent, behind, retire_first, initial, Reach, start, later,
  one_more_sent, give_back, retire,
}
use dnsperf.Perf.Runs.{IsSound}
use dnsperf.Perf.Interleavings.{Reach-IsSound, take_query-Free}

abbrev first : Thread
first =
    let t = query_move (init_queries 3) 0 prepend_outstanding in
    update t 0 (record (t.queries 0) { timestamp = uint64_max })

first_taken : take_query (init_queries 3) ≡ some (0, first)
unfolding take_query query_move unlink update init_queries cleared_thread
first_taken = refl

-- The first query has its timestamp, 7, and goes to socket 1.
abbrev ready : Thread
ready =
    stamp (bind_socket (stamp (query_move (init_queries 3) 0 prepend_outstanding) 0 uint64_max) 0 1)
      0 7

-- Its packet of 40 octets is counted.
abbrev one_sent : System
one_sent = record {
  thread = record ready {
    stats = record (one_more_sent ready.stats) {
      total_request_size = add64 ready.stats.total_request_size 40;
    };
  };
  sender = idle;
  receiver = waiting;
  strays = 0;
}

none_outstanding : num_outstanding (initial 3).thread.stats < 2
unfolding num_outstanding init_queries cleared_thread cleared
none_outstanding = omega arith

one_sent-Reach : Reach 3 2 5 one_sent
one_sent-Reach =
    later
      (later
        (later
          (later
            (later
              (later
                (later (later start (take 0 first refl tt none_outstanding first_taken))
                  (reset 0 refl))
                (choose 0 1 refl))
              (chosen 0 refl))
            (set_time 0 7 refl))
          (launch 0 40 refl))
        (count 0 40 refl))
      (add_size 40 refl)

-- The tail is read while the query is at the transport, which then fails: the query is given back, and
-- counted as timed out all the same.
abbrev stray_timeout : System
stray_timeout =
    retire
      (record (give_back
        (record (initial 3) { thread = ready; sender = stamped 0; receiver = overdue 12 0 }) 0) {
          receiver = overdue 12 0;
        })
      12 0

stray_timeout-Reach : Reach 3 2 5 stray_timeout
unfolding stamp bind_socket update query_move unlink init_queries cleared_thread tail? give_back
stray_timeout-Reach =
    later
      (later
        (later
          (later
            (later
              (later
                (later
                  (later
                    (later (later start (take 0 first refl tt none_outstanding first_taken))
                      (reset 0 refl))
                    (choose 0 1 refl))
                  (chosen 0 refl))
                (set_time 0 7 refl))
              (look 12 0 refl refl))
            (not_later 12 0 refl refl))
          (too_late 12 0 refl refl))
        (not_sent 0 behind tt))
      (retire_first 12 0 refl tt)

stray_counted :
    (stray_timeout.thread.stats.num_timedout ≡ 1)
    × ((stray_timeout.thread.stats.num_sent ≡ 0) × (stray_timeout.strays ≡ 1))
unfolding stamp bind_socket update query_move unlink init_queries cleared_thread give_back retire
    time_out cleared
stray_counted = (refl, (refl, refl))

Reach-IsSound_example : IsSound 3 one_sent
Reach-IsSound_example = Reach-IsSound 3 2 5 one_sent one_sent-Reach

take_query-Free_example : (q : ℕ) × (t : Thread) × (take_query one_sent.thread ≡ some (q, t))
unfolding num_outstanding record_sent stamp bind_socket update query_move unlink init_queries
    cleared_thread cleared
take_query-Free_example =
    take_query-Free 3 2 5 one_sent one_sent-Reach refl (omega arith) (omega arith) (omega arith)
      (omega arith)
