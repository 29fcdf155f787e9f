-- ===== src/Perf/Reached.antt =====
-- src/dnsperf.c, do_send and the callbacks of the transport: each step keeps a sound state sound.
use dnsperf.Common.{ℕ, ◌≡◌, refl, sym, ap, some, arith, ◌==◌, if_cases, subst}
use dnsperf.Perf.{
  Thread, prepend_outstanding, query_move, take_query, bind_socket, stamp, net_sent, Event,
  net_event, connecting, connected, reconnecting, reconnected, uint64_max, add64,
}
use dnsperf.Perf.Partition.{query_move-IsPartition, stats-query_move, with_stats-IsPartition}
use dnsperf.Perf.Take.{take_query-Moves}
use dnsperf.Perf.System.{
  System, idle, moving, choosing, taken, stamped, launched, counted, with_stats, one_more_sent,
}
use dnsperf.Perf.Runs.{in_hand, Known, IsSound, moved-IsSound, updated-IsSound, with_stats-IsSound}

pub take-IsSound :
    (n : ℕ) (s : System) (q : ℕ) (t : Thread)
    → IsSound n s
    → s.sender ≡ idle
    → take_query s.thread ≡ some (q, t)
    → IsSound n (record s { thread = query_move s.thread q prepend_outstanding; sender = moving q })
take-IsSound n s q t inv e k =
    let (low, more) = take_query-Moves n s.thread q t inv.partition k in
    let same = stats-query_move s.thread q prepend_outstanding in
    let none_held : in_hand s.sender ≡ 0 = ap in_hand e in
    record {
      partition = query_move-IsPartition n s.thread q prepend_outstanding low inv.partition;
      sixteen = rw (same) inv.sixteen;
      together = rw (same) inv.together;
      known = low;
      small = inv.small;
      balance = rw (same) (omega (arith, inv.balance, more, none_held));
    }

stamp-IsSound :
    (n : ℕ) (s : System) (q now : ℕ)
    → IsSound n s
    → IsSound n (record s { thread = stamp s.thread q now })
unfolding stamp
stamp-IsSound n s q now inv = updated-IsSound n s q _ inv refl

pub reset-IsSound :
    (n : ℕ) (s : System) (q : ℕ)
    → IsSound n s
    → s.sender ≡ moving q
    → IsSound n (record s { thread = stamp s.thread q uint64_max; sender = choosing q })
reset-IsSound n s q inv e =
    moved-IsSound n (record s { thread = stamp s.thread q uint64_max }) (choosing q)
      (stamp-IsSound n s q uint64_max inv) (subst (Known n) e inv.known) (sym (ap in_hand e))

pub choose-IsSound :
    (n : ℕ) (s : System) (q sock : ℕ)
    → IsSound n s
    → IsSound n (record s { thread = bind_socket s.thread q sock })
unfolding bind_socket
choose-IsSound n s q sock inv = updated-IsSound n s q _ inv refl

pub set_time-IsSound :
    (n : ℕ) (s : System) (q now : ℕ)
    → IsSound n s
    → s.sender ≡ taken q
    → IsSound n (record s { thread = stamp s.thread q now; sender = stamped q })
set_time-IsSound n s q now inv e =
    moved-IsSound n (record s { thread = stamp s.thread q now }) (stamped q)
      (stamp-IsSound n s q now inv) (subst (Known n) e inv.known) (sym (ap in_hand e))

pub net_sent-IsSound :
    (n : ℕ) (s : System) (q now : ℕ)
    → IsSound n s
    → IsSound n (record s { thread = net_sent s.thread q now })
unfolding net_sent
net_sent-IsSound n s q now inv =
    if_cases (λ t. IsSound n (record s { thread = t }))
      ((s.thread.queries q).timestamp == uint64_max) _ _ (λ _. inv)
      (λ _. updated-IsSound n s q _ inv refl)

pub count-IsSound :
    (n : ℕ) (s : System) (q size : ℕ)
    → IsSound n s
    → s.sender ≡ launched q size
    → IsSound n (record (with_stats s (one_more_sent s.thread.stats)) { sender = counted size })
count-IsSound n s q size inv e =
    let one : in_hand s.sender ≡ 1 = ap in_hand e in
    record {
      partition = with_stats-IsPartition n s.thread _ inv.partition;
      sixteen = inv.sixteen;
      together = inv.together;
      known = tt;
      small = inv.small;
      balance = omega (arith, inv.balance, one);
    }

pub add_size-IsSound :
    (n : ℕ) (s : System) (size : ℕ)
    → IsSound n s
    → s.sender ≡ counted size
    → IsSound n
        (record (with_stats s (record (s.thread.stats) {
          total_request_size = add64 s.thread.stats.total_request_size size;
        })) { sender = idle })
add_size-IsSound n s size inv e =
    moved-IsSound n _ idle (with_stats-IsSound n s _ inv (refl, (refl, (refl, refl)))) tt
      (sym (ap in_hand e))

pub event-IsSound :
    (n : ℕ) (s : System) (e : Event) (elapsed : ℕ)
    → IsSound n s
    → IsSound n (with_stats s (net_event s.thread.stats e elapsed))
unfolding net_event
event-IsSound n s connecting elapsed inv = with_stats-IsSound n s _ inv (refl, (refl, (refl, refl)))
event-IsSound n s connected elapsed inv = with_stats-IsSound n s _ inv (refl, (refl, (refl, refl)))
event-IsSound n s reconnecting elapsed inv =
    with_stats-IsSound n s _ inv (refl, (refl, (refl, refl)))
event-IsSound n s reconnected elapsed inv =
    with_stats-IsSound n s _ inv (refl, (refl, (refl, refl)))
