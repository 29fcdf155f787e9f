-- ===== src/Resperf.antt =====
-- src/resperf.c: the state of a run, and the moves of a query between the two lists. The numbers of the
-- file's static variables are fields; what is set once, by setup(), is the `Config`.
pub mod Send
pub mod Receive
pub mod Round
pub mod Partition
pub mod Balance
pub mod Answers
pub mod Limits
pub mod Start
pub mod Ids
use dnsperf.Common.{
  ℕ, zero, suc, ◌+◌, ◌-◌, ◌*◌, ◌/◌, ◌%◌, ◌^◌, ◌≤◌, ◌<◌, ◌≡◌, refl, sym, ap, ◌∙◌, ◌≢◌, ◌↔◌, ◌⊎◌, inl,
  inr, Bool, true, false, not, ◌&&◌, ◌||◌, Option, none, some, List, [], ◌∷◌, ◌++◌, map, arith, ltb,
  leb, ◌==◌, if◌then◌else◌, Bool-cases, is_digit, Bytes, length, length-append, get_or, set, take,
  drop, All, All-append, Code, failure, eof, invalid_file, no_space, Outcome, ok, err, abort, stuck,
  ◌>>=◌, bind-eq-ok,
}
use dnsperf.Perf.{add64, sub64}
use dnsperf.Links.{unlink}
use dnsperf.Datafile.{Datafile}

pub data QueryList : Type 0 where
  instanding outstanding : QueryList

pub record QueryInfo : Type 0 where
  pub sent_timestamp : ℕ
  pub is_inprogress : Bool
  pub list : QueryList

-- ramp_bucket, without the sums of latencies, which are floats.
pub record Bucket : Type 0 where
  pub queries : ℕ
  pub responses : ℕ
  pub failures : ℕ
  pub connections : ℕ

pub data Phase : Type 0 where
  ramp sustain wait : Phase

pub record Config : Type 0 where
  pub max_outstanding : ℕ
  pub nsocks : ℕ
  pub query_timeout : ℕ
  pub ramp_time : ℕ
  pub traffic_time : ℕ
  pub end_time : ℕ
  pub n_buckets : ℕ
  pub time_of_program_start : ℕ
  pub max_fall_behind : ℕ

pub record State : Type 0 where
  pub queries : ℕ → QueryInfo
  pub outstanding_list : List ℕ
  pub instanding_list : List ℕ
  pub input : Datafile
  pub phase : Phase
  pub time_now : ℕ
  pub num_queries_sent : ℕ
  pub num_queries_outstanding : ℕ
  pub num_responses_received : ℕ
  pub num_queries_timed_out : ℕ
  pub rcodecounts : List ℕ
  pub num_conn_completed : ℕ
  pub num_conn_attempts : ℕ
  pub buckets : List Bucket
  pub sustain_phase_began : ℕ
  pub wait_phase_began : ℕ

unfoldable pub update : State → ℕ → QueryInfo → State
update s q info = record s { queries = λ i. if i == q then info else s.queries i }

-- perf_list_unlink, perf_list_prepend and `q->list` of a query that is sent.
unfoldable pub to_outstanding : State → ℕ → State
unfolding update unlink
to_outstanding s q = record (update s q (record (s.queries q) { list = outstanding })) {
  instanding_list = unlink q s.instanding_list;
  outstanding_list = q ∷ s.outstanding_list;
}

-- perf_list_unlink, perf_list_append and `q->list` of a query that is done.
unfoldable pub to_instanding : State → ℕ → State
unfolding update unlink
to_instanding s q = record (update s q (record (s.queries q) { list = instanding })) {
  outstanding_list = unlink q s.outstanding_list;
  instanding_list = s.instanding_list ++ q ∷ [];
}

-- The index in find_bucket. The product is a uint64_t, and the cast to int takes its 32 low bits.
unfoldable pub bucket_index : Config → ℕ → ℕ
bucket_index c when =
    let i = c.n_buckets * sub64 when c.time_of_program_start % 2 ^ 64 / c.traffic_time % 2 ^ 32 in
    if leb (2 ^ 31) i then 0 else if ltb (c.n_buckets - 1) i then c.n_buckets - 1 else i

abbrev pub no_bucket : Bucket
no_bucket = record { queries = 0; responses = 0; failures = 0; connections = 0 }

abbrev pub in_bucket : Config → ℕ → (Bucket → Bucket) → State → State
in_bucket c when f s =
    let i = bucket_index c when in
    record s { buckets = set s.buckets i (f (get_or s.buckets i no_bucket)) }

-- perf__net_sent; `index` is sock->data. `none` is its assert().
unfoldable pub net_sent : Config → ℕ → ℕ → State → Option State
unfolding update bucket_index
net_sent c index qid s =
    let s' = in_bucket c s.time_now (λ b. record b { queries = b.queries + 1 }) s in
    let idx = qid * c.nsocks + index in
    if ltb idx c.max_outstanding
    then some (update s' idx (record (s'.queries idx) { sent_timestamp = s'.time_now }))
    else none

-- perf__net_event of a connection that is made, and of one that is tried.
unfoldable pub net_connected : Config → State → State
unfolding bucket_index
net_connected c s =
    let s' = in_bucket c s.time_now (λ b. record b { connections = b.connections + 1 }) s in
    record s' { num_conn_completed = add64 s'.num_conn_completed 1 }

unfoldable pub net_connecting : State → State
net_connecting s = record s { num_conn_attempts = add64 s.num_conn_attempts 1 }
