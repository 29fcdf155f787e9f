-- ===== src/Perf/System.antt =====
-- src/dnsperf.c, do_send and do_recv: the two threads over their shared state, in every interleaving.
-- A step is one change of what they share, or the read of one value that a branch depends on. What
-- is within PERF_LOCK is merged where only a thread that has the lock reads or writes it.
-- Three things are taken at one time though they are several reads or writes: num_outstanding, a round
-- of the loop that matches the responses, and a callback of a socket.
use dnsperf.Common.{
  ℕ, ◌+◌, ◌*◌, ◌<◌, ◌≡◌, true, false, ◌||◌, none, some, List, [], ◌∷◌, ◌++◌, ltb, leb, ◌==◌,
  if◌then◌else◌, All, set, get_or,
}
use dnsperf.Links.{tail?}
use dnsperf.Perf.{
  Thread, Stats, prepend_unused, prepend_outstanding, query_move, num_outstanding, time_out,
  take_query, bind_socket, stamp, uint64_max, net_sent, Event, net_event, add64, sub64,
}
use dnsperf.Perf.Start.{init_queries}
use dnsperf.Perf.Receive.{Received, match_one, is_outstanding}
use dnsperf.Perf.Batch.{IsFresh}

-- Where the sending thread is in a round. It has no query; with the lock: it moved one to the
-- outstanding ones, it chooses a socket for it; without: it has the query, it set its timestamp,
-- the transport took the packet of so many octets, the packet is counted; the data is at its end.
pub data Sender : Type 0 where
  idle : Sender
  moving : ℕ → Sender
  choosing : ℕ → Sender
  taken : ℕ → Sender
  stamped : ℕ → Sender
  launched : ℕ → ℕ → Sender
  counted : ℕ → Sender
  stopped : Sender

-- The counters of a response that is completed, in the order in which do_recv writes them.
pub data Field : Type 0 where
  response_size rcode_count total_latency total_squares least_latency most_latency : Field

-- Where the receiving thread is. It is between two calls. In process_timeouts, for a time and a
-- query: without the lock it has read the tail, compared its timestamp with the time, and found
-- that it is late; with the lock it has moved a query, read the next tail, compared it with the
-- time, and found that it is late. In do_recv: with the lock it has matched some responses and has
-- others before it; without, it has responses to count; or it is at a counter of one of them.
pub data Receiver : Type 0 where
  waiting : Receiver
  seen : ℕ → ℕ → Receiver
  past : ℕ → ℕ → Receiver
  overdue : ℕ → ℕ → Receiver
  rested : ℕ → Receiver
  checked : ℕ → ℕ → Receiver
  passed : ℕ → ℕ → Receiver
  due : ℕ → ℕ → Receiver
  matching : List Received → List Received → Receiver
  matched : List Received → Receiver
  counting : Field → Received → List Received → Receiver

-- `strays` is no part of the source: how often a query that was no longer outstanding was given back
-- by the sending thread, or counted as timed out by the receiving one.
pub record System : Type 0 where
  pub thread : Thread
  pub sender : Sender
  pub receiver : Receiver
  pub strays : ℕ

-- The thread does not have the lock.
abbrev pub IsSenderOut : Sender → Type 0
IsSenderOut idle = Unit {0}
IsSenderOut (moving q) = ⊥
IsSenderOut (choosing q) = ⊥
IsSenderOut (taken q) = Unit {0}
IsSenderOut (stamped q) = Unit {0}
IsSenderOut (launched q size) = Unit {0}
IsSenderOut (counted size) = Unit {0}
IsSenderOut stopped = Unit {0}

abbrev pub IsReceiverOut : Receiver → Type 0
IsReceiverOut waiting = Unit {0}
IsReceiverOut (seen now q) = Unit {0}
IsReceiverOut (past now q) = Unit {0}
IsReceiverOut (overdue now q) = Unit {0}
IsReceiverOut (rested now) = ⊥
IsReceiverOut (checked now q) = ⊥
IsReceiverOut (passed now q) = ⊥
IsReceiverOut (due now q) = ⊥
IsReceiverOut (matching done rest) = ⊥
IsReceiverOut (matched rs) = Unit {0}
IsReceiverOut (counting f r rs) = Unit {0}

-- The sender holds the query, and its packet has not gone out.
pub data Holds (q : ℕ) : Sender → Type 0 where
  without_socket : Holds q (choosing q)
  before : Holds q (taken q)
  behind : Holds q (stamped q)

abbrev pub stray : System → ℕ → ℕ
stray s q = if is_outstanding (s.thread.queries q).list then s.strays else s.strays + 1

-- query_move(q, prepend_unused) where there is no socket, or the packet was not built, or not sent.
unfoldable pub give_back : System → ℕ → System
unfolding query_move
give_back s q = record s {
  thread = query_move s.thread q prepend_unused;
  sender = idle;
  strays = stray s q;
}

-- A round of the loop of process_timeouts, up to the next read of the tail.
unfoldable pub retire : System → ℕ → ℕ → System
unfolding time_out
retire s now q = record s {
  thread = time_out s.thread q;
  receiver = rested now;
  strays = stray s q;
}

-- `stats->num_sent++` and `stats->num_completed++`
abbrev pub one_more_sent : Stats → Stats
one_more_sent s = record s { num_sent = add64 s.num_sent 1 }

abbrev pub one_more_completed : Stats → Stats
one_more_completed s = record s { num_completed = add64 s.num_completed 1 }

-- One of the other counters of a response.
unfoldable pub put_field : Stats → Received → Field → Stats
put_field s r response_size = record s { total_response_size = add64 s.total_response_size r.size }
put_field s r rcode_count = record s {
  rcodecounts = set s.rcodecounts r.rcode (add64 (get_or s.rcodecounts r.rcode 0) 1);
}
put_field s r total_latency = record s { latency_sum = add64 s.latency_sum (sub64 r.when r.sent) }
put_field s r total_squares =
    let latency = sub64 r.when r.sent in
    record s { latency_sum_squares = add64 s.latency_sum_squares (latency * latency) }
put_field s r least_latency =
    let latency = sub64 r.when r.sent in
    record s {
      latency_min =
          if ltb latency s.latency_min || s.num_completed == 1 then latency else s.latency_min;
    }
put_field s r most_latency =
    let latency = sub64 r.when r.sent in
    record s { latency_max = if ltb s.latency_max latency then latency else s.latency_max }

-- Where the thread is behind that counter.
abbrev pub behind_field : Field → Received → List Received → Receiver
behind_field response_size r rs = counting rcode_count r rs
behind_field rcode_count r rs = counting total_latency r rs
behind_field total_latency r rs = counting total_squares r rs
behind_field total_squares r rs = counting least_latency r rs
behind_field least_latency r rs = counting most_latency r rs
behind_field most_latency r rs = matched rs

abbrev pub with_stats : System → Stats → System
with_stats s stats = record s { thread = record (s.thread) { stats = stats } }

-- The query's timestamp, as a thread reads it now.
abbrev pub timestamp : System → ℕ → ℕ
timestamp s q = (s.thread.queries q).timestamp

pub data Step (n max_outstanding timeout : ℕ) (s : System) : System → Type 0 where
  take :
      (q : ℕ) (t : Thread)
      → s.sender ≡ idle
      → IsReceiverOut s.receiver
      → num_outstanding s.thread.stats < max_outstanding
      → take_query s.thread ≡ some (q, t)
      → Step n max_outstanding timeout s
          (record s { thread = query_move s.thread q prepend_outstanding; sender = moving q })
  reset :
      (q : ℕ)
      → s.sender ≡ moving q
      → Step n max_outstanding timeout s
          (record s { thread = stamp s.thread q uint64_max; sender = choosing q })
  choose :
      (q sock : ℕ)
      → s.sender ≡ choosing q
      → Step n max_outstanding timeout s (record s { thread = bind_socket s.thread q sock })
  chosen :
      (q : ℕ)
      → s.sender ≡ choosing q
      → Step n max_outstanding timeout s (record s { sender = taken q })
  end_of_data :
      (q : ℕ)
      → s.sender ≡ taken q
      → Step n max_outstanding timeout s (record s { sender = stopped })
  not_sent :
      (q : ℕ)
      → Holds q s.sender
      → IsReceiverOut s.receiver
      → Step n max_outstanding timeout s (give_back s q)
  set_time :
      (q now : ℕ)
      → s.sender ≡ taken q
      → Step n max_outstanding timeout s
          (record s { thread = stamp s.thread q now; sender = stamped q })
  launch :
      (q size : ℕ)
      → s.sender ≡ stamped q
      → Step n max_outstanding timeout s (record s { sender = launched q size })
  count :
      (q size : ℕ)
      → s.sender ≡ launched q size
      → Step n max_outstanding timeout s
          (record (with_stats s (one_more_sent s.thread.stats)) { sender = counted size })
  add_size :
      (size : ℕ)
      → s.sender ≡ counted size
      → Step n max_outstanding timeout s
          (record (with_stats s (record (s.thread.stats) {
            total_request_size = add64 s.thread.stats.total_request_size size;
          })) { sender = idle })
  sent_later :
      (qid now : ℕ)
      → Step n max_outstanding timeout s (record s { thread = net_sent s.thread qid now })
  event :
      (e : Event) (elapsed : ℕ)
      → Step n max_outstanding timeout s (with_stats s (net_event s.thread.stats e elapsed))
  look :
      (now q : ℕ)
      → s.receiver ≡ waiting
      → tail? s.thread.outstanding_queries ≡ some q
      → Step n max_outstanding timeout s (record s { receiver = seen now q })
  later_than_now :
      (now q : ℕ)
      → s.receiver ≡ seen now q
      → ltb now (timestamp s q) ≡ true
      → Step n max_outstanding timeout s (record s { receiver = waiting })
  not_later :
      (now q : ℕ)
      → s.receiver ≡ seen now q
      → ltb now (timestamp s q) ≡ false
      → Step n max_outstanding timeout s (record s { receiver = past now q })
  in_time :
      (now q : ℕ)
      → s.receiver ≡ past now q
      → ltb (sub64 now (timestamp s q)) timeout ≡ true
      → Step n max_outstanding timeout s (record s { receiver = waiting })
  too_late :
      (now q : ℕ)
      → s.receiver ≡ past now q
      → ltb (sub64 now (timestamp s q)) timeout ≡ false
      → Step n max_outstanding timeout s (record s { receiver = overdue now q })
  retire_first :
      (now q : ℕ)
      → s.receiver ≡ overdue now q
      → IsSenderOut s.sender
      → Step n max_outstanding timeout s (retire s now q)
  none_left :
      (now : ℕ)
      → s.receiver ≡ rested now
      → tail? s.thread.outstanding_queries ≡ none
      → Step n max_outstanding timeout s (record s { receiver = waiting })
  look_again :
      (now q : ℕ)
      → s.receiver ≡ rested now
      → tail? s.thread.outstanding_queries ≡ some q
      → Step n max_outstanding timeout s (record s { receiver = checked now q })
  not_before :
      (now q : ℕ)
      → s.receiver ≡ checked now q
      → ltb (timestamp s q) now ≡ false
      → Step n max_outstanding timeout s (record s { receiver = waiting })
  before_now :
      (now q : ℕ)
      → s.receiver ≡ checked now q
      → ltb (timestamp s q) now ≡ true
      → Step n max_outstanding timeout s (record s { receiver = passed now q })
  still_in_time :
      (now q : ℕ)
      → s.receiver ≡ passed now q
      → leb timeout (sub64 now (timestamp s q)) ≡ false
      → Step n max_outstanding timeout s (record s { receiver = waiting })
  too_late_again :
      (now q : ℕ)
      → s.receiver ≡ passed now q
      → leb timeout (sub64 now (timestamp s q)) ≡ true
      → Step n max_outstanding timeout s (record s { receiver = due now q })
  retire_next :
      (now q : ℕ) → s.receiver ≡ due now q → Step n max_outstanding timeout s (retire s now q)
  receive :
      (rs : List Received)
      → s.receiver ≡ waiting
      → IsSenderOut s.sender
      → All (IsFresh n) rs
      → Step n max_outstanding timeout s (record s { receiver = matching [] rs })
  match_next :
      (done rest : List Received) (r : Received)
      → s.receiver ≡ matching done (r ∷ rest)
      → Step n max_outstanding timeout s (record s {
        thread = (match_one s.thread r).0;
        receiver = matching (done ++ (match_one s.thread r).1 ∷ []) rest;
      })
  all_matched :
      (done : List Received)
      → s.receiver ≡ matching done []
      → Step n max_outstanding timeout s (record s { receiver = matched done })
  skip :
      (r : Received) (rs : List Received)
      → s.receiver ≡ matched (r ∷ rs)
      → (r.short_response || r.unexpected) ≡ true
      → Step n max_outstanding timeout s (record s { receiver = matched rs })
  complete :
      (r : Received) (rs : List Received)
      → s.receiver ≡ matched (r ∷ rs)
      → (r.short_response || r.unexpected) ≡ false
      → Step n max_outstanding timeout s
          (record (with_stats s (one_more_completed s.thread.stats)) {
            receiver = counting response_size r rs;
          })
  put :
      (f : Field) (r : Received) (rs : List Received)
      → s.receiver ≡ counting f r rs
      → Step n max_outstanding timeout s
          (record (with_stats s (put_field s.thread.stats r f)) { receiver = behind_field f r rs })
  finish :
      s.receiver ≡ matched [] → Step n max_outstanding timeout s (record s { receiver = waiting })

-- Both threads at their start, with `n` queries; the source has NQIDS of them, 65536.
abbrev pub initial : ℕ → System
initial n = record { thread = init_queries n; sender = idle; receiver = waiting; strays = 0 }

pub data Reach (n max_outstanding timeout : ℕ) : System → Type 0 where
  start : Reach n max_outstanding timeout (initial n)
  later :
      {s u : System}
      → Reach n max_outstanding timeout s
      → Step n max_outstanding timeout s u
      → Reach n max_outstanding timeout u
