-- ===== src/Perf.antt =====
-- src/dnsperf.c: the state that a pair of sending and receiving threads shares, and its operations.
-- A list of src/list.h is the sequence of its elements from head to tail; an element is the index
-- of its query_info, which is the DNS id. `desc`, which only the verbose output reads, is left out.
pub mod Share
pub mod Partition
pub mod Timeouts
pub mod Receive
pub mod Batch
pub mod Totals
pub mod Start
pub mod Take
pub mod System
pub mod Runs
pub mod Reached
pub mod Replied
pub mod Interleavings
pub mod Pace
pub mod Slices
pub mod Sleeps
use dnsperf.Links.{unlink, tail?}
use dnsperf.Common.{
  ℕ, zero, suc, ◌+◌, ◌-◌, ◌*◌, ◌/◌, ◌%◌, ◌^◌, ◌≤◌, ◌<◌, ◌≡◌, refl, sym, ap, ◌∙◌, ◌≢◌, ◌↔◌, ◌⊎◌, inl,
  inr, Bool, true, false, not, ◌&&◌, ◌||◌, Option, none, some, List, [], ◌∷◌, ◌++◌, map, arith, ltb,
  leb, ◌==◌, if◌then◌else◌, Bool-cases, is_digit, Bytes, length, length-append, get_or, set, take,
  drop, All, All-append, Code, failure, eof, invalid_file, no_space, Outcome, ok, err, abort, stuck,
  ◌>>=◌, bind-eq-ok,
}

pub data QueryList : Type 0 where
  unused outstanding : QueryList

-- `sock` is the number of the socket.
pub record QueryInfo : Type 0 where
  pub timestamp : ℕ
  pub list : QueryList
  pub sock : ℕ

-- stats_t, without the histograms.
pub record Stats : Type 0 where
  pub rcodecounts : List ℕ
  pub num_sent : ℕ
  pub num_interrupted : ℕ
  pub num_timedout : ℕ
  pub num_completed : ℕ
  pub total_request_size : ℕ
  pub total_response_size : ℕ
  pub latency_sum : ℕ
  pub latency_sum_squares : ℕ
  pub latency_min : ℕ
  pub latency_max : ℕ
  pub num_conn_attempts : ℕ
  pub num_conn_completed : ℕ
  pub conn_latency_sum : ℕ
  pub conn_latency_sum_squares : ℕ
  pub conn_latency_min : ℕ
  pub conn_latency_max : ℕ

pub record Thread : Type 0 where
  pub queries : ℕ → QueryInfo
  pub outstanding_queries : List ℕ
  pub unused_queries : List ℕ
  pub stats : Stats

-- Arithmetic of uint64_t.
abbrev pub add64 : ℕ → ℕ → ℕ
add64 a b = (a + b) % 2 ^ 64

abbrev pub sub64 : ℕ → ℕ → ℕ
sub64 a b = (a + 2 ^ 64 - b) % 2 ^ 64

abbrev pub uint64_max : ℕ
uint64_max = 2 ^ 64 - 1

pub data MoveOp : Type 0 where
  prepend_unused append_unused prepend_outstanding : MoveOp

unfoldable pub update : Thread → ℕ → QueryInfo → Thread
update t q info = record t { queries = λ i. if i == q then info else t.queries i }

abbrev pub unlink_from : QueryList → Thread → ℕ → Thread
unlink_from unused t q = record t { unused_queries = unlink q t.unused_queries }
unlink_from outstanding t q = record t { outstanding_queries = unlink q t.outstanding_queries }

abbrev pub target : MoveOp → QueryList
target prepend_unused = unused
target append_unused = unused
target prepend_outstanding = outstanding

abbrev pub link_into : MoveOp → Thread → ℕ → Thread
link_into prepend_unused t q = record t { unused_queries = q ∷ t.unused_queries }
link_into append_unused t q = record t { unused_queries = t.unused_queries ++ q ∷ [] }
link_into prepend_outstanding t q = record t { outstanding_queries = q ∷ t.outstanding_queries }

-- query_move
unfoldable pub query_move : Thread → ℕ → MoveOp → Thread
unfolding unlink update
query_move t q op =
    let info = t.queries q in
    update (link_into op (unlink_from info.list t q) q) q (record info { list = target op })

-- num_outstanding
unfoldable pub num_outstanding : Stats → ℕ
num_outstanding s =
    if ltb s.num_sent (add64 s.num_completed s.num_timedout)
    then 0
    else sub64 (sub64 s.num_sent s.num_completed) s.num_timedout

-- One round of the `do` loop of process_timeouts.
unfoldable pub time_out : Thread → ℕ → Thread
unfolding query_move
time_out t q =
    let moved = query_move t q append_unused in
    record moved {
      stats = record (moved.stats) { num_timedout = add64 moved.stats.num_timedout 1 };
    }

-- The condition of that loop.
unfoldable pub is_late : ℕ → ℕ → QueryInfo → Bool
is_late timeout now q = ltb q.timestamp now && leb timeout (now - q.timestamp)

-- The loop, on fuel for the queries that are outstanding.
unfoldable pub timeouts_loop : ℕ → ℕ → ℕ → Thread → Option ℕ → Thread
unfolding time_out is_late tail?
timeouts_loop f timeout now t none = t
timeouts_loop zero timeout now t (some q) = t
timeouts_loop (suc f) timeout now t (some q) =
    let t' = time_out t q in
    let rest = timeouts_loop f timeout now t' (tail? t'.outstanding_queries) in
    elim (tail? t'.outstanding_queries) [
      | none ↦ t'
      | some p ↦ if is_late timeout now (t'.queries p) then rest else t'
    ]

-- process_timeouts
unfoldable pub process_timeouts : ℕ → ℕ → Thread → Thread
unfolding timeouts_loop tail?
process_timeouts timeout now t = elim (tail? t.outstanding_queries) [
  | none ↦ t
  | some q ↦
      if ltb now (t.queries q).timestamp || ltb (now - (t.queries q).timestamp) timeout
      then t
      else timeouts_loop (length t.outstanding_queries) timeout now t (some q)
]

-- One round of the loop of cancel_queries.
unfoldable pub cancel : Thread → ℕ → Thread
unfolding query_move
cancel t q =
    let t' = query_move t q append_unused in
    if (t.queries q).timestamp == uint64_max then t' else record t' {
      stats = record (t'.stats) { num_interrupted = add64 t'.stats.num_interrupted 1 };
    }

-- cancel_queries, on the same fuel.
unfoldable pub cancel_loop : ℕ → Thread → Thread
unfolding cancel tail?
cancel_loop zero t = t
cancel_loop (suc f) t = elim (tail? t.outstanding_queries) [
  | none ↦ t
  | some q ↦ cancel_loop f (cancel t q)
]

unfoldable pub cancel_queries : Thread → Thread
unfolding cancel_loop
cancel_queries t = cancel_loop (length t.outstanding_queries) t

-- The part of do_send under the first lock: a query id for the next query.
unfoldable pub take_query : Thread → Option (ℕ × Thread)
unfolding query_move
take_query t = elim t.unused_queries [
  | [] ↦ none
  | q ∷ _ ↦
      let t' = query_move t q prepend_outstanding in
      some (q, update t' q (record (t'.queries q) { timestamp = uint64_max }))
]

-- `q->sock = tinfo->socks[sock]` of do_send.
unfoldable pub bind_socket : Thread → ℕ → ℕ → Thread
unfolding update
bind_socket t q sock = update t q (record (t.queries q) { sock = sock })

-- `q->timestamp = now` of do_send.
unfoldable pub stamp : Thread → ℕ → ℕ → Thread
unfolding update
stamp t q now = update t q (record (t.queries q) { timestamp = now })

-- The end of a round of do_send that sent, or that has the packet in progress.
unfoldable pub record_sent : Thread → ℕ → Thread
record_sent t size = record t {
  stats = record (t.stats) {
    num_sent = add64 t.stats.num_sent 1;
    total_request_size = add64 t.stats.total_request_size size;
  };
}

-- perf__net_sent
unfoldable pub net_sent : Thread → ℕ → ℕ → Thread
unfolding update
net_sent t qid now =
    if (t.queries qid).timestamp == uint64_max
    then t
    else update t qid (record (t.queries qid) { timestamp = now })

pub data Event : Type 0 where
  connecting connected reconnecting reconnected : Event

abbrev conn_done : Stats → ℕ → Stats
conn_done s elapsed = record s {
  num_conn_completed = add64 s.num_conn_completed 1;
  conn_latency_sum = add64 s.conn_latency_sum elapsed;
  conn_latency_sum_squares = add64 s.conn_latency_sum_squares (elapsed * elapsed);
  conn_latency_min =
      if ltb elapsed s.conn_latency_min || add64 s.num_conn_completed 1 == 1
      then elapsed
      else s.conn_latency_min;
  conn_latency_max = if ltb s.conn_latency_max elapsed then elapsed else s.conn_latency_max;
}

-- perf__net_event
unfoldable pub net_event : Stats → Event → ℕ → Stats
net_event s connected elapsed = conn_done s elapsed
net_event s reconnected elapsed = conn_done s elapsed
net_event s connecting elapsed = record s { num_conn_attempts = add64 s.num_conn_attempts 1 }
net_event s reconnecting elapsed = record s { num_conn_attempts = add64 s.num_conn_attempts 1 }
