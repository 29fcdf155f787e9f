-- ===== src/Resperf/Limits.antt =====
-- src/resperf.c: the bounds of find_bucket and of the schedule.
use dnsperf.Common.{
  ℕ, ◌+◌, ◌-◌, ◌%◌, ◌^◌, ◌≤◌, ◌<◌, ◌≡◌, refl, true, false, not, ◌&&◌, some, arith, ltb, leb, ◌==◌,
}
use dnsperf.Perf.{sub64}
use dnsperf.Resperf.{Config, State, bucket_index}
use dnsperf.Resperf.Send.{Network}
use dnsperf.Resperf.Round.{enter_wait_phase, should_send, is_behind, send_part}

-- With a bucket at all, find_bucket stays in the array, whatever the time, and in spite of the
-- overflow of its product.
pub bucket_index-lt : (c : Config) (when : ℕ) → 0 < c.n_buckets → bucket_index c when < c.n_buckets
unfolding bucket_index
bucket_index-lt c when h = ground arith

-- If k more queries were counted as sent than num_scheduled gives, the limit on falling behind
-- is on and the number -k read as unsigned is not below it, then the round takes this for falling
-- behind: it sends nothing and enters the wait phase.
pub send_part-Overrun :
    (c : Config) (net : Network) (scheduled k : ℕ) (s : State)
    → s.num_queries_sent ≡ scheduled + k
    → scheduled + k < 2 ^ 64
    → 0 < k
    → k ≤ 2 ^ 31
    → 0 < c.max_fall_behind
    → c.max_fall_behind + k ≤ 2 ^ 32
    → send_part c net scheduled s ≡ some (enter_wait_phase s)
unfolding send_part should_send is_behind
send_part-Overrun c net scheduled k s sent whole some_more small on limit =
    rw (value, behind, quiet) refl
  where
    value : sub64 scheduled s.num_queries_sent % 2 ^ 32 ≡ 2 ^ 32 - k
    value = omega arith

    behind : (not (c.max_fall_behind == 0) && leb c.max_fall_behind (2 ^ 32 - k)) ≡ true
    behind = ground arith

    quiet : (ltb 0 (2 ^ 32 - k) && ltb (2 ^ 32 - k) (2 ^ 31)) ≡ false
    quiet = ground arith
