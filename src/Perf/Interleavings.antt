-- ===== src/Perf/Interleavings.antt =====
-- src/dnsperf.c, do_send and do_recv: what holds in every state that the two threads reach, and that a
-- query is free where do_send takes the head of the unused ones.
use dnsperf.Common.{ℕ, ◌+◌, ◌^◌, ◌≤◌, ◌<◌, ◌≡◌, refl, some, arith, length, sym, ap, subst, []}
use dnsperf.Perf.{Thread, num_outstanding, take_query}
use dnsperf.Perf.Totals.{cleared}
use dnsperf.Perf.Start.{init_queries-IsPartition, outstanding-init_queries, stats-init_queries}
use dnsperf.Perf.Batch.{sum, completed}
use dnsperf.Perf.Take.{take_query-Taken, length-IsPartition}
use dnsperf.Perf.System.{
  System, idle, Step, initial, Reach, start, later, take, reset, choose, chosen, end_of_data,
  not_sent, set_time, launch, count, add_size, sent_later, event, look, later_than_now, not_later,
  in_time, too_late, retire_first, none_left, look_again, not_before, before_now, still_in_time,
  too_late_again, retire_next, receive, match_next, all_matched, skip, complete, put, finish, taken,
  stopped, launched, waiting, seen, past, overdue, rested, checked, passed, due, matching, matched,
}
use dnsperf.Perf.Runs.{
  in_hand, pending, uncounted, Known, Small, IsSound, give_back-IsSound, retire-IsSound,
  moved-IsSound,
}
use dnsperf.Perf.Reached.{
  take-IsSound, reset-IsSound, choose-IsSound, set_time-IsSound, net_sent-IsSound, count-IsSound,
  add_size-IsSound, event-IsSound,
}
use dnsperf.Perf.Replied.{
  goes-IsSound, look-IsSound, look_again-IsSound, receive-IsSound, match_next-IsSound, skip-IsSound,
  complete-IsSound, put-IsSound,
}

-- Each step of either thread keeps a sound state sound.
Step-IsSound :
    (n : ℕ) (max_outstanding timeout : ℕ) (s u : System)
    → IsSound n s
    → Step n max_outstanding timeout s u
    → IsSound n u
unfolding completed
Step-IsSound n m timeout s u inv (take q t e out low k) = take-IsSound n s q t inv e k
Step-IsSound n m timeout s u inv (reset q e) = reset-IsSound n s q inv e
Step-IsSound n m timeout s u inv (choose q sock e) = choose-IsSound n s q sock inv
Step-IsSound n m timeout s u inv (chosen q e) =
    moved-IsSound n s (taken q) inv (subst (Known n) e inv.known) (sym (ap in_hand e))
Step-IsSound n m timeout s u inv (end_of_data q e) =
    moved-IsSound n s stopped inv tt (sym (ap in_hand e))
Step-IsSound n m timeout s u inv (not_sent q h out) = give_back-IsSound n s q inv h
Step-IsSound n m timeout s u inv (set_time q now e) = set_time-IsSound n s q now inv e
Step-IsSound n m timeout s u inv (launch q size e) =
    moved-IsSound n s (launched q size) inv (subst (Known n) e inv.known) (sym (ap in_hand e))
Step-IsSound n m timeout s u inv (count q size e) = count-IsSound n s q size inv e
Step-IsSound n m timeout s u inv (add_size size e) = add_size-IsSound n s size inv e
Step-IsSound n m timeout s u inv (sent_later qid now) = net_sent-IsSound n s qid now inv
Step-IsSound n m timeout s u inv (event e elapsed) = event-IsSound n s e elapsed inv
Step-IsSound n m timeout s u inv (look now q e k) = look-IsSound n s now q inv e k
Step-IsSound n m timeout s u inv (later_than_now now q e k) =
    goes-IsSound n s (seen now q) (waiting) inv e (λ _. tt) refl refl
Step-IsSound n m timeout s u inv (not_later now q e k) =
    goes-IsSound n s (seen now q) (past now q) inv e (λ low. low) refl refl
Step-IsSound n m timeout s u inv (in_time now q e k) =
    goes-IsSound n s (past now q) (waiting) inv e (λ _. tt) refl refl
Step-IsSound n m timeout s u inv (too_late now q e k) =
    goes-IsSound n s (past now q) (overdue now q) inv e (λ low. low) refl refl
Step-IsSound n m timeout s u inv (retire_first now q e out) =
    retire-IsSound n s now q inv (subst (Small n) e inv.small) (ap uncounted e) (ap pending e)
Step-IsSound n m timeout s u inv (none_left now e k) =
    goes-IsSound n s (rested now) (waiting) inv e (λ _. tt) refl refl
Step-IsSound n m timeout s u inv (look_again now q e k) = look_again-IsSound n s now q inv e k
Step-IsSound n m timeout s u inv (not_before now q e k) =
    goes-IsSound n s (checked now q) (waiting) inv e (λ _. tt) refl refl
Step-IsSound n m timeout s u inv (before_now now q e k) =
    goes-IsSound n s (checked now q) (passed now q) inv e (λ low. low) refl refl
Step-IsSound n m timeout s u inv (still_in_time now q e k) =
    goes-IsSound n s (passed now q) (waiting) inv e (λ _. tt) refl refl
Step-IsSound n m timeout s u inv (too_late_again now q e k) =
    goes-IsSound n s (passed now q) (due now q) inv e (λ low. low) refl refl
Step-IsSound n m timeout s u inv (retire_next now q e) =
    retire-IsSound n s now q inv (subst (Small n) e inv.small) (ap uncounted e) (ap pending e)
Step-IsSound n m timeout s u inv (receive rs e out fresh) = receive-IsSound n s rs inv e fresh
Step-IsSound n m timeout s u inv (match_next done rest r e) =
    match_next-IsSound n s done rest r inv e
Step-IsSound n m timeout s u inv (all_matched done e) =
    goes-IsSound n s (matching done []) (matched done) inv e (λ small. small.0) refl refl
Step-IsSound n m timeout s u inv (skip r rs e k) = skip-IsSound n s r rs inv e k
Step-IsSound n m timeout s u inv (complete r rs e k) = complete-IsSound n s r rs inv e k
Step-IsSound n m timeout s u inv (put f r rs e) = put-IsSound n s f r rs inv e
Step-IsSound n m timeout s u inv (finish e) =
    goes-IsSound n s (matched []) (waiting) inv e (λ _. tt) refl refl

start-IsSound : (n : ℕ) → IsSound n (initial n)
unfolding cleared sum
start-IsSound n = record {
  partition = init_queries-IsPartition n;
  sixteen = rw (stats-init_queries n) refl;
  together = rw (stats-init_queries n) refl;
  known = tt;
  small = tt;
  balance = rw (stats-init_queries n, outstanding-init_queries n) refl;
}

-- In every state that the two threads reach from the start, whatever the order of their steps: each of
-- the n queries stands in exactly the list that it names; the counters of the rcodes add up to
-- the number of completed queries, less the one whose rcode is not yet counted; and the queries
-- that are outstanding, completed, timed out or answered and not yet counted are as many as those
-- that are sent, in the sender's hand, or that were no longer outstanding when they were given
-- back or counted as timed out, in the arithmetic of uint64_t.
pub Reach-IsSound :
    (n : ℕ) (max_outstanding timeout : ℕ) (s : System)
    → Reach n max_outstanding timeout s
    → IsSound n s
Reach-IsSound n m timeout s start = start-IsSound n
Reach-IsSound n m timeout s (later {s = u} r step) =
    Step-IsSound n m timeout u s (Reach-IsSound n m timeout u r) step

-- The check of do_send bounds the queries that are outstanding.
within :
    (n : ℕ) (s : System) (limit : ℕ)
    → IsSound n s
    → s.sender ≡ idle
    → num_outstanding s.thread.stats < limit
    → s.thread.stats.num_completed + s.thread.stats.num_timedout + pending s.receiver + n < 2 ^ 64
    → s.thread.stats.num_sent + s.strays < 2 ^ 64
    → length s.thread.outstanding_queries < limit + s.strays
unfolding num_outstanding
within n s limit inv e low small small' =
    let none_held : in_hand s.sender ≡ 0 = ap in_hand e in
    ground (arith, inv.balance, length-IsPartition n s.thread inv.partition)

-- In a state that the two threads reach, where the sender has no query and fewer count as
-- outstanding than the thread's limit: if the limit and the number of queries that were no longer
-- outstanding when they were given back or counted as timed out are n at most, and the counters
-- have not come round, the list of unused queries is not empty, so that do_send takes an id.
pub take_query-Free :
    (n max_outstanding timeout : ℕ) (s : System)
    → Reach n max_outstanding timeout s
    → s.sender ≡ idle
    → num_outstanding s.thread.stats < max_outstanding
    → max_outstanding + s.strays ≤ n
    → s.thread.stats.num_completed + s.thread.stats.num_timedout + pending s.receiver + n < 2 ^ 64
    → s.thread.stats.num_sent + s.strays < 2 ^ 64
    → (q : ℕ) × (t : Thread) × (take_query s.thread ≡ some (q, t))
take_query-Free n m timeout s r e low room small small' =
    let inv = Reach-IsSound n m timeout s r in
    let (q, t, (k, more)) =
      take_query-Taken n s.thread inv.partition
        (omega (arith, within n s m inv e low small small')) in
    (q, t, k)
