-- ===== src/Perf/Runs.antt =====
-- src/dnsperf.c: what holds in every state that the two threads reach.
use dnsperf.Common.{ℕ, ◌+◌, ◌%◌, ◌^◌, ◌<◌, ◌≡◌, refl, ap, ◌∙◌, arith, if◌then◌else◌, length, All}
use dnsperf.Perf.{
  QueryInfo, QueryList, unused, outstanding, prepend_unused, append_unused, query_move, Stats,
  update, time_out,
}
use dnsperf.Perf.Receive.{is_outstanding}
use dnsperf.Perf.Batch.{completed, HasRcode, IsFresh, sum}
use dnsperf.Perf.Partition.{
  one_if, IsPartition, query_move-IsPartition, stats-query_move, length-to_unused,
  with_stats-IsPartition,
}
use dnsperf.Perf.Take.{update-IsPartition}
use dnsperf.Perf.System.{
  System, Sender, idle, moving, choosing, taken, stamped, launched, counted, stopped, Receiver,
  waiting, seen, past, overdue, rested, checked, passed, due, matching, matched, counting,
  response_size, rcode_count, total_latency, total_squares, least_latency, most_latency, Holds,
  without_socket, before, behind, give_back, retire, with_stats,
}

-- One for a query that the sender took and has not counted.
abbrev pub in_hand : Sender → ℕ
in_hand idle = 0
in_hand (moving q) = 1
in_hand (choosing q) = 1
in_hand (taken q) = 1
in_hand (stamped q) = 1
in_hand (launched q size) = 1
in_hand (counted size) = 0
in_hand stopped = 1

-- Responses that are matched, and not yet counted as completed.
abbrev pub pending : Receiver → ℕ
pending waiting = 0
pending (seen now q) = 0
pending (past now q) = 0
pending (overdue now q) = 0
pending (rested now) = 0
pending (checked now q) = 0
pending (passed now q) = 0
pending (due now q) = 0
pending (matching done rest) = completed done
pending (matched rs) = completed rs
pending (counting f r rs) = completed rs

-- One for a response that is counted as completed, and its rcode is not counted yet.
abbrev pub uncounted : Receiver → ℕ
uncounted waiting = 0
uncounted (seen now q) = 0
uncounted (past now q) = 0
uncounted (overdue now q) = 0
uncounted (rested now) = 0
uncounted (checked now q) = 0
uncounted (passed now q) = 0
uncounted (due now q) = 0
uncounted (matching done rest) = 0
uncounted (matched rs) = 0
uncounted (counting response_size r rs) = 1
uncounted (counting rcode_count r rs) = 1
uncounted (counting total_latency r rs) = 0
uncounted (counting total_squares r rs) = 0
uncounted (counting least_latency r rs) = 0
uncounted (counting most_latency r rs) = 0

-- The sender's query is one of the queries.
abbrev pub Known : ℕ → Sender → Type 0
Known n idle = Unit {0}
Known n (moving q) = q < n
Known n (choosing q) = q < n
Known n (taken q) = q < n
Known n (stamped q) = q < n
Known n (launched q size) = q < n
Known n (counted size) = Unit {0}
Known n stopped = Unit {0}

-- So is the receiver's, its responses that are not matched are as recv_one leaves them, and the others
-- have one of the 16 rcodes.
abbrev pub Small : ℕ → Receiver → Type 0
Small n waiting = Unit {0}
Small n (seen now q) = q < n
Small n (past now q) = q < n
Small n (overdue now q) = q < n
Small n (rested now) = Unit {0}
Small n (checked now q) = q < n
Small n (passed now q) = q < n
Small n (due now q) = q < n
Small n (matching done rest) = All HasRcode done × All (IsFresh n) rest
Small n (matched rs) = All HasRcode rs
Small n (counting f r rs) = HasRcode r × All HasRcode rs

-- Each query that was taken is outstanding, or counted as completed or timed out, or a response to it
-- is pending: on the other side it is counted as sent, or in the sender's hand, or a stray. The
-- counters are uint64_t.
pub record IsSound (n : ℕ) (s : System) : Type 0 where
  pub partition : IsPartition n s.thread
  pub sixteen : length s.thread.stats.rcodecounts ≡ 16
  pub together :
      (sum s.thread.stats.rcodecounts + uncounted s.receiver) % 2 ^ 64
      ≡ s.thread.stats.num_completed % 2 ^ 64
  pub known : Known n s.sender
  pub small : Small n s.receiver
  pub balance :
      (length s.thread.outstanding_queries
          + s.thread.stats.num_completed
          + s.thread.stats.num_timedout
          + pending s.receiver)
        % 2 ^ 64
      ≡ (s.thread.stats.num_sent + in_hand s.sender + s.strays) % 2 ^ 64

-- The sender alone goes on.
pub moved-IsSound :
    (n : ℕ) (s : System) (w : Sender)
    → IsSound n s
    → Known n w
    → in_hand w ≡ in_hand s.sender
    → IsSound n (record s { sender = w })
moved-IsSound n s w inv known same = record {
  partition = inv.partition;
  sixteen = inv.sixteen;
  together = inv.together;
  known = known;
  small = inv.small;
  balance = rw (same) inv.balance;
}

-- The receiver alone goes on.
pub turned-IsSound :
    (n : ℕ) (s : System) (w : Receiver)
    → IsSound n s
    → Small n w
    → uncounted w ≡ uncounted s.receiver
    → pending w ≡ pending s.receiver
    → IsSound n (record s { receiver = w })
turned-IsSound n s w inv small same same' = record {
  partition = inv.partition;
  sixteen = inv.sixteen;
  together = rw (same) inv.together;
  known = inv.known;
  small = small;
  balance = rw (same') inv.balance;
}

-- A query changes, but not its list.
pub updated-IsSound :
    (n : ℕ) (s : System) (q : ℕ) (info : QueryInfo)
    → IsSound n s
    → info.list ≡ (s.thread.queries q).list
    → IsSound n (record s { thread = update s.thread q info })
unfolding update
updated-IsSound n s q info inv e = record {
  partition = update-IsPartition n s.thread q info e inv.partition;
  sixteen = inv.sixteen;
  together = inv.together;
  known = inv.known;
  small = inv.small;
  balance = inv.balance;
}

-- The counters that the invariant reads.
abbrev pub SameStats : Stats → Stats → Type 0
SameStats s s' =
    (s'.num_sent ≡ s.num_sent)
    × ((s'.num_completed ≡ s.num_completed)
        × ((s'.num_timedout ≡ s.num_timedout) × (s'.rcodecounts ≡ s.rcodecounts)))

-- Other counters change.
pub with_stats-IsSound :
    (n : ℕ) (s : System) (stats : Stats)
    → IsSound n s
    → SameStats s.thread.stats stats
    → IsSound n (with_stats s stats)
with_stats-IsSound n s stats inv (sent, (done, (late, codes))) = record {
  partition = with_stats-IsPartition n s.thread stats inv.partition;
  sixteen = ap length codes ∙ inv.sixteen;
  together = rw (codes, done) inv.together;
  known = inv.known;
  small = inv.small;
  balance = rw (sent, done, late) inv.balance;
}

Known-Holds : (n q : ℕ) (w : Sender) → Holds q w → Known n w → (q < n) × (in_hand w ≡ 1)
Known-Holds n q w without_socket known = (known, refl)
Known-Holds n q w before known = (known, refl)
Known-Holds n q w behind known = (known, refl)

pub give_back-IsSound :
    (n : ℕ) (s : System) (q : ℕ) → IsSound n s → Holds q s.sender → IsSound n (give_back s q)
unfolding give_back
give_back-IsSound n s q inv h =
    let (low, one) = Known-Holds n q s.sender h inv.known in
    let same = stats-query_move s.thread q prepend_unused in
    record {
      partition = query_move-IsPartition n s.thread q prepend_unused low inv.partition;
      sixteen = rw (same) inv.sixteen;
      together = rw (same) inv.together;
      known = tt;
      small = inv.small;
      balance = rw (same) (
          go (s.thread.queries q).list one
            (length-to_unused n s.thread q prepend_unused refl inv.partition low));
    }
  where
    go :
        (l : QueryList)
        → in_hand s.sender ≡ 1
        → length (query_move s.thread q prepend_unused).outstanding_queries + one_if outstanding l
          ≡ length s.thread.outstanding_queries
        → (length (query_move s.thread q prepend_unused).outstanding_queries
              + s.thread.stats.num_completed
              + s.thread.stats.num_timedout
              + pending s.receiver)
            % 2 ^ 64
          ≡ (s.thread.stats.num_sent + 0 + (if is_outstanding l then s.strays else s.strays + 1))
            % 2 ^ 64
    go unused one e = omega (arith, inv.balance)
    go outstanding one e = omega (arith, inv.balance)

pub retire-IsSound :
    (n : ℕ) (s : System) (now q : ℕ)
    → IsSound n s
    → q < n
    → uncounted s.receiver ≡ 0
    → pending s.receiver ≡ 0
    → IsSound n (retire s now q)
unfolding retire time_out
retire-IsSound n s now q inv low none_counted none_pending =
    let same = stats-query_move s.thread q append_unused in
    record {
      partition =
          with_stats-IsPartition n (query_move s.thread q append_unused) _
            (query_move-IsPartition n s.thread q append_unused low inv.partition);
      sixteen = rw (same) inv.sixteen;
      together = rw (same) (omega (arith, inv.together, none_counted));
      known = inv.known;
      small = tt;
      balance = rw (same) (
          go (s.thread.queries q).list
            (length-to_unused n s.thread q append_unused refl inv.partition low));
    }
  where
    go :
        (l : QueryList)
        → length (query_move s.thread q append_unused).outstanding_queries + one_if outstanding l
          ≡ length s.thread.outstanding_queries
        → (length (query_move s.thread q append_unused).outstanding_queries
              + s.thread.stats.num_completed
              + (s.thread.stats.num_timedout + 1) % 2 ^ 64
              + 0)
            % 2 ^ 64
          ≡ (s.thread.stats.num_sent
              + in_hand s.sender
              + (if is_outstanding l then s.strays else s.strays + 1))
            % 2 ^ 64
    go unused e = omega (arith, inv.balance, none_pending)
    go outstanding e = omega (arith, inv.balance, none_pending)
