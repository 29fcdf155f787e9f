-- ===== src/Tests/Rates.antt =====
-- Runs of the limit of queries a second, and the theorems on it.
use dnsperf.Common.{ℕ, ◌++◌, ◌+◌, ◌<◌, ◌≤◌, ◌≡◌, ◌⊎◌, refl, false, true, List, [], ◌∷◌, arith}
use dnsperf.Perf.Pace.{
  Pace, Rate, Round, go_on, sleep, slice, step, limit_rate, counts, paced, pace_start,
}
use dnsperf.Perf.Slices.{paced-Limited}
use dnsperf.Perf.Sleeps.{limit_rate-Wakes, limit_rate-Goes}

abbrev two_a_second : Rate
two_a_second = record { max_qps = 2; threshold_wait = 100 }

abbrev round_at : ℕ → Round
round_at now = record { now = now; any_inprogress = false; is_sent = true }

-- The first query goes out at once, the second half a second later, the third in the next slice.
abbrev tries : List Round
tries = round_at 7 ∷ round_at 8 ∷ round_at 500007 ∷ round_at 500008 ∷ []

three_tries : (paced two_a_second (tries ++ round_at 1000007 ∷ []) (pace_start 7)).0 ≡ 3
unfolding paced counts limit_rate slice step sleep
three_tries = refl

abbrev begun : Pace
begun = (paced two_a_second (round_at 7 ∷ []) (pace_start 7)).1

paced-Limited_example :
    (paced two_a_second (round_at 8 ∷ round_at 500007 ∷ []) begun).0 + begun.q_sent ≤ 2
unfolding paced counts limit_rate slice step sleep
paced-Limited_example =
    paced-Limited two_a_second 7 (round_at 7 ∷ []) (round_at 8 ∷ round_at 500007 ∷ []) (omega arith)
      (omega arith) (omega arith, (omega arith, tt))

limit_rate-Wakes_example : (8 + 499899 < begun.q_slice) ⊎ (8 + 499899 < begun.req_time)
unfolding paced counts limit_rate slice step sleep
limit_rate-Wakes_example =
    limit_rate-Wakes two_a_second false 8 begun 499899 (omega arith) (omega arith) (omega arith)
      refl

limit_rate-Goes_example : (limit_rate two_a_second false 1000007 begun).0 ≡ go_on
unfolding paced counts limit_rate slice step sleep
limit_rate-Goes_example =
    limit_rate-Goes two_a_second false 1000007 begun (omega arith) (omega arith)
