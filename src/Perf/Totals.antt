-- ===== src/Perf/Totals.antt =====
-- src/dnsperf.c, sum_stats and diff_stats: the statistics of all threads, and of an interval.
use dnsperf.Common.{
  ℕ, ◌+◌, ◌%◌, ◌^◌, ◌<◌, ◌≡◌, refl, sym, ◌∙◌, Bool, true, false, ◌||◌, List, [], ◌∷◌, arith, ltb,
  if◌then◌else◌, length, All,
}
use dnsperf.Common.{replicate}
use dnsperf.Perf.{Stats, add64, sub64}
use dnsperf.Perf.Batch.{CountsRcodes, sum}

-- The loop over the counters of the rcodes.
unfoldable pub each : (ℕ → ℕ → ℕ) → List ℕ → List ℕ → List ℕ
each f [] ys = []
each f (x ∷ xs) [] = []
each f (x ∷ xs) (y ∷ ys) = f x y ∷ each f xs ys

-- memset() of the total.
unfoldable pub cleared : Stats
cleared = record {
  rcodecounts = replicate 16 0;
  num_sent = 0;
  num_interrupted = 0;
  num_timedout = 0;
  num_completed = 0;
  total_request_size = 0;
  total_response_size = 0;
  latency_sum = 0;
  latency_sum_squares = 0;
  latency_min = 0;
  latency_max = 0;
  num_conn_attempts = 0;
  num_conn_completed = 0;
  conn_latency_sum = 0;
  conn_latency_sum_squares = 0;
  conn_latency_min = 0;
  conn_latency_max = 0;
}

-- One round of the loop of sum_stats; `first` is `i == 0`.
unfoldable pub add_stats : Bool → Stats → Stats → Stats
unfolding each
add_stats first total s = record {
  rcodecounts = each add64 total.rcodecounts s.rcodecounts;
  num_sent = add64 total.num_sent s.num_sent;
  num_interrupted = add64 total.num_interrupted s.num_interrupted;
  num_timedout = add64 total.num_timedout s.num_timedout;
  num_completed = add64 total.num_completed s.num_completed;
  total_request_size = add64 total.total_request_size s.total_request_size;
  total_response_size = add64 total.total_response_size s.total_response_size;
  latency_sum = add64 total.latency_sum s.latency_sum;
  latency_sum_squares = add64 total.latency_sum_squares s.latency_sum_squares;
  latency_min =
      if ltb s.latency_min total.latency_min || first then s.latency_min else total.latency_min;
  latency_max = if ltb total.latency_max s.latency_max then s.latency_max else total.latency_max;
  num_conn_attempts = add64 total.num_conn_attempts s.num_conn_attempts;
  num_conn_completed = add64 total.num_conn_completed s.num_conn_completed;
  conn_latency_sum = add64 total.conn_latency_sum s.conn_latency_sum;
  conn_latency_sum_squares = add64 total.conn_latency_sum_squares s.conn_latency_sum_squares;
  conn_latency_min =
      if ltb s.conn_latency_min total.conn_latency_min || first
      then s.conn_latency_min
      else total.conn_latency_min;
  conn_latency_max =
      if ltb total.conn_latency_max s.conn_latency_max
      then s.conn_latency_max
      else total.conn_latency_max;
}

unfoldable pub sum_loop : Bool → Stats → List Stats → Stats
unfolding add_stats
sum_loop first total [] = total
sum_loop first total (s ∷ ss) = sum_loop false (add_stats first total s) ss

-- sum_stats over the statistics of the threads.
unfoldable pub sum_stats : List Stats → Stats
unfolding sum_loop cleared
sum_stats ss = sum_loop true cleared ss

-- diff_stats, of a build without histograms.
unfoldable pub diff_stats : Stats → Stats → Stats
unfolding each
diff_stats last now = record {
  rcodecounts = each sub64 now.rcodecounts last.rcodecounts;
  num_sent = sub64 now.num_sent last.num_sent;
  num_interrupted = sub64 now.num_interrupted last.num_interrupted;
  num_timedout = sub64 now.num_timedout last.num_timedout;
  num_completed = sub64 now.num_completed last.num_completed;
  total_request_size = sub64 now.total_request_size last.total_request_size;
  total_response_size = sub64 now.total_response_size last.total_response_size;
  latency_sum = sub64 now.latency_sum last.latency_sum;
  latency_sum_squares = sub64 now.latency_sum_squares last.latency_sum_squares;
  latency_min = 0;
  latency_max = 0;
  num_conn_attempts = sub64 now.num_conn_attempts last.num_conn_attempts;
  num_conn_completed = sub64 now.num_conn_completed last.num_conn_completed;
  conn_latency_sum = sub64 now.conn_latency_sum last.conn_latency_sum;
  conn_latency_sum_squares = sub64 now.conn_latency_sum_squares last.conn_latency_sum_squares;
  conn_latency_min = 0;
  conn_latency_max = 0;
}

length-each :
    (f : ℕ → ℕ → ℕ) (xs ys : List ℕ) → length xs ≡ length ys → length (each f xs ys) ≡ length xs
unfolding each
length-each f [] ys e = refl
length-each f (x ∷ xs) [] e = absurd (omega arith)
length-each f (x ∷ xs) (y ∷ ys) e = omega (arith, length-each f xs ys (omega arith))

sum-each_add :
    (xs ys : List ℕ)
    → length xs ≡ length ys
    → sum (each add64 xs ys) % 2 ^ 64 ≡ (sum xs + sum ys) % 2 ^ 64
unfolding each sum
sum-each_add [] [] e = refl
sum-each_add [] (y ∷ ys) e = absurd (omega arith)
sum-each_add (x ∷ xs) [] e = absurd (omega arith)
sum-each_add (x ∷ xs) (y ∷ ys) e = omega (arith, sum-each_add xs ys (omega arith))

abbrev pub IsUint64 : ℕ → Type 0
IsUint64 n = n < 2 ^ 64

sum-each_sub :
    (xs ys : List ℕ)
    → length xs ≡ length ys
    → All IsUint64 ys
    → (sum (each sub64 xs ys) + sum ys) % 2 ^ 64 ≡ sum xs % 2 ^ 64
unfolding each sum
sum-each_sub [] [] e h = refl
sum-each_sub [] (y ∷ ys) e h = absurd (omega arith)
sum-each_sub (x ∷ xs) [] e h = absurd (omega arith)
sum-each_sub (x ∷ xs) (y ∷ ys) e h = omega (arith, h.0, sum-each_sub xs ys (omega arith) h.1)

add_stats-Counts :
    (first : Bool) (total s : Stats)
    → CountsRcodes total
    → CountsRcodes s
    → CountsRcodes (add_stats first total s)
unfolding add_stats
add_stats-Counts first total s c d =
    let same : length total.rcodecounts ≡ length s.rcodecounts = c.sixteen ∙ sym d.sixteen in
    record {
      sixteen = length-each add64 total.rcodecounts s.rcodecounts same ∙ c.sixteen;
      together =
          omega (arith, sum-each_add total.rcodecounts s.rcodecounts same, c.together, d.together);
    }

sum_loop-Counts :
    (first : Bool) (total : Stats) (ss : List Stats)
    → CountsRcodes total
    → All CountsRcodes ss
    → CountsRcodes (sum_loop first total ss)
unfolding sum_loop
sum_loop-Counts first total [] c h = c
sum_loop-Counts first total (s ∷ ss) c h =
    sum_loop-Counts false (add_stats first total s) ss (add_stats-Counts first total s c h.0) h.1

-- If the counters of the 16 rcodes add up to the completed queries in the statistics of each thread,
-- they do so in the total of sum_stats.
pub sum_stats-Counts : (ss : List Stats) → All CountsRcodes ss → CountsRcodes (sum_stats ss)
unfolding sum_stats cleared sum
sum_stats-Counts ss h =
    sum_loop-Counts true cleared ss (record { sixteen = refl; together = refl }) h

-- If the counters of the 16 rcodes add up to the completed queries at both ends of an interval, and
-- those of its start are values of uint64_t, they do so in the interval's statistics, and the start's
-- completed queries with the interval's are the end's, in the arithmetic of uint64_t.
pub diff_stats-Counts :
    (last now : Stats)
    → CountsRcodes last
    → CountsRcodes now
    → All IsUint64 last.rcodecounts
    → IsUint64 last.num_completed
    → CountsRcodes (diff_stats last now)
      × ((last.num_completed + (diff_stats last now).num_completed) % 2 ^ 64
          ≡ now.num_completed % 2 ^ 64)
unfolding diff_stats
diff_stats-Counts last now c d h k =
    let same : length now.rcodecounts ≡ length last.rcodecounts = d.sixteen ∙ sym c.sixteen in
    (
      record {
        sixteen = length-each sub64 now.rcodecounts last.rcodecounts same ∙ d.sixteen;
        together = omega (
          arith,
          sum-each_sub now.rcodecounts last.rcodecounts same h,
          c.together,
          d.together,
          k,
        );
      },
      omega (arith, k),
    )
