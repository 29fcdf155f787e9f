-- ===== src/Resperf/Start.antt =====
-- src/resperf.c, setup(): the lists, the limits and the times of a run.
use dnsperf.Resperf.{sub64}
use dnsperf.Resperf.{add64}
use dnsperf.Common.{
  some_case, ℕ, zero, suc, ◌-◌, ◌*◌, ◌/◌, ◌%◌, ◌<◌, ◌||◌, leb, ◌^◌, ◌≤◌, ◌≡◌, refl, Bool, false,
  Option, none, some, [], ◌∷◌, ◌++◌, arith, ltb, ◌==◌, if◌then◌else◌, Bytes,
}
use dnsperf.Perf.{add64, sub64}
use dnsperf.Common.{replicate, if_cases, none-ne-some}
use dnsperf.Links.Count.{count, count-append}
use dnsperf.Datafile.{Datafile, open_file, set_maxruns, text_query}
use dnsperf.Perf.Batch.{sum}
use dnsperf.Resperf.{Config, State, instanding, outstanding, ramp, no_bucket}
use dnsperf.Resperf.Partition.{IsPartition}
use dnsperf.Resperf.Balance.{IsBalanced}

-- What the options give.
pub record Given : Type 0 where
  pub max_outstanding : ℕ
  pub nsocks : ℕ
  pub query_timeout : ℕ
  pub ramp_time : ℕ
  pub sustain_time : ℕ
  pub wait_time : ℕ
  pub bucket_interval : ℕ
  pub max_fall_behind : ℕ
  pub reopen_datafile : Bool

-- The first rounds of the loop over the queries, in a state with empty lists.
unfoldable pub init_queries : ℕ → State → State
init_queries zero s = record s {
  queries = λ _. record { sent_timestamp = 0; is_inprogress = false; list = instanding };
  instanding_list = [];
  outstanding_list = [];
}
init_queries (suc i) s =
    let t = init_queries i s in
    record t {
      instanding_list = t.instanding_list ++ i ∷ [];
      queries = λ q. if q == i then record (t.queries i) { list = instanding } else t.queries q;
    }

-- The number of buckets is an int; `setup` refuses the values that are negative.
abbrev pub config : Given → ℕ → Config
config g now = record {
  max_outstanding = g.max_outstanding;
  nsocks = g.nsocks;
  query_timeout = g.query_timeout;
  ramp_time = g.ramp_time;
  traffic_time = add64 g.ramp_time g.sustain_time;
  end_time = add64 (add64 g.ramp_time g.sustain_time) g.wait_time;
  n_buckets =
      sub64 (add64 (add64 g.ramp_time g.sustain_time) g.bucket_interval) 1
      / g.bucket_interval
      % 2 ^ 32;
  time_of_program_start = now;
  max_fall_behind = g.max_fall_behind;
}

abbrev pub blank : Datafile → ℕ → ℕ → State
blank input n now = record {
  queries = λ _. record { sent_timestamp = 0; is_inprogress = false; list = instanding };
  outstanding_list = [];
  instanding_list = [];
  input = input;
  phase = ramp;
  time_now = now;
  num_queries_sent = 0;
  num_queries_outstanding = 0;
  num_responses_received = 0;
  num_queries_timed_out = 0;
  rcodecounts = replicate 16 0;
  num_conn_completed = 0;
  num_conn_attempts = 0;
  buckets = replicate n no_bucket;
  sustain_phase_began = 0;
  wait_phase_began = 0;
}

-- setup() from the check of the limits on, for a regular file; `none` is the end of the process: by
-- perf_log_fatal; by the division, where the buckets have no length; or by init_buckets, where the
-- number of buckets is negative, since calloc() has no memory of that size.
unfoldable pub setup : Given → Bytes → ℕ → Option (Config × State)
unfolding init_queries open_file set_maxruns
setup g content now =
    let opened = open_file content text_query in
    let input = if g.reopen_datafile then set_maxruns opened (2 ^ 32 - 1) else opened in
    let c = config g now in
    if ltb (g.nsocks * (64 * 1024) % 2 ^ 32) g.max_outstanding
    then none
    else if c.traffic_time == 0
    then none
    else if g.bucket_interval == 0 || leb (2 ^ 31) c.n_buckets
    then none
    else some (c, init_queries g.max_outstanding (blank input c.n_buckets now))

list-init_queries : (n q : ℕ) (s : State) → ((init_queries n s).queries q).list ≡ instanding
unfolding init_queries
list-init_queries zero q s = refl
list-init_queries (suc i) q s = ground (arith, list-init_queries i q s)

count-init_queries :
    (n p : ℕ) (s : State) → count p (init_queries n s).instanding_list ≡ (if ltb p n then 1 else 0)
unfolding init_queries count
count-init_queries zero p s = ground arith
count-init_queries (suc i) p s =
    ground
      (arith, count-append p (init_queries i s).instanding_list (i ∷ []), count-init_queries i p s)

-- The rest of the state is that of before the loop.
outstanding-init_queries : (n : ℕ) (s : State) → (init_queries n s).outstanding_list ≡ []
unfolding init_queries
outstanding-init_queries zero s = refl
outstanding-init_queries (suc i) s = outstanding-init_queries i s

rcodecounts-init_queries : (n : ℕ) (s : State) → (init_queries n s).rcodecounts ≡ s.rcodecounts
unfolding init_queries
rcodecounts-init_queries zero s = refl
rcodecounts-init_queries (suc i) s = rcodecounts-init_queries i s

record SameCounters (s t : State) : Type 0 where
  sent : s.num_queries_sent ≡ t.num_queries_sent
  held : s.num_queries_outstanding ≡ t.num_queries_outstanding
  received : s.num_responses_received ≡ t.num_responses_received
  timed_out : s.num_queries_timed_out ≡ t.num_queries_timed_out

counters-init_queries : (n : ℕ) (s : State) → SameCounters (init_queries n s) s
unfolding init_queries
counters-init_queries zero s = record {
  sent = refl;
  held = refl;
  received = refl;
  timed_out = refl;
}
counters-init_queries (suc i) s =
    let same = counters-init_queries i s in
    record {
      sent = same.sent;
      held = same.held;
      received = same.received;
      timed_out = same.timed_out;
    }

init_queries-IsPartition : (n : ℕ) (s : State) → IsPartition n (init_queries n s)
unfolding count
init_queries-IsPartition n s instanding p = rw (list-init_queries n p s) (count-init_queries n p s)
init_queries-IsPartition n s outstanding p =
    rw (list-init_queries n p s, outstanding-init_queries n s) (ground arith)

init_queries-IsBalanced :
    (g : Given) (now : ℕ) (input : Datafile)
    → IsBalanced
        (config g now)
        (init_queries g.max_outstanding (blank input (config g now).n_buckets now))
unfolding sum
init_queries-IsBalanced g now input =
    let s = blank input (config g now).n_buckets now in
    let n = g.max_outstanding in
    let same = counters-init_queries n s in
    record {
      partition = init_queries-IsPartition n s;
      held = rw (same.held, outstanding-init_queries n s) refl;
      balance = rw (same.sent, same.received, same.timed_out, outstanding-init_queries n s) refl;
      sixteen = rw (rcodecounts-init_queries n s) refl;
      together = rw (rcodecounts-init_queries n s, same.received) refl;
    }

-- What the checks of setup() leave.
pub record WithinLimits (c : Config) : Type 0 where
  pub per_client : c.max_outstanding ≤ c.nsocks * 65536
  pub whole : c.max_outstanding ≤ c.nsocks * 65536 % 2 ^ 32
  pub lasts : 0 < c.traffic_time
  pub an_int : c.n_buckets < 2 ^ 31

-- If setup() gives a state, it is balanced; there are at most 65536 queries for each client, and at
-- most as many as this number of clients allows in the arithmetic of unsigned int; the time of the
-- traffic is not 0; and the number of buckets is an int that is not negative.
pub setup-IsBalanced :
    (g : Given) (content : Bytes) (now : ℕ) (c : Config) (s : State)
    → setup g content now ≡ some (c, s)
    → IsBalanced c s × WithinLimits c
unfolding setup
setup-IsBalanced g content now c s e =
    if_cases Good (ltb (g.nsocks * (64 * 1024) % 2 ^ 32) g.max_outstanding) _ _
      (λ _ k. absurd (none-ne-some k))
      (λ few.
        if_cases Good (add64 g.ramp_time g.sustain_time == 0) _ _ (λ _ k. absurd (none-ne-some k))
          (λ lasts.
            if_cases Good (g.bucket_interval == 0 || leb (2 ^ 31) (config g now).n_buckets) _ _
              (λ _ k. absurd (none-ne-some k))
              (λ int k.
                some_case (λ (r : Config × State). IsBalanced r.0 r.1 × WithinLimits r.0)
                  (
                    init_queries-IsBalanced g now _,
                    record {
                      per_client = ground arith;
                      whole = ground arith;
                      lasts = ground arith;
                      an_int = ground arith;
                    },
                  )
                  k)))
      e
  where
    Good : Option (Config × State) → Type 0
    Good o = o ≡ some (c, s) → IsBalanced c s × WithinLimits c
