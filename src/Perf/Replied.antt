-- ===== src/Perf/Replied.antt =====
-- src/dnsperf.c, process_timeouts and do_recv: each step keeps a sound state sound.
use dnsperf.Common.{
  ℕ, ◌+◌, ◌≡◌, refl, sym, ap, ◌∙◌, true, false, ◌||◌, some, List, [], ◌∷◌, ◌++◌, arith, All,
  All-append, subst, length-set, if_false,
}
use dnsperf.Links.{tail?}
use dnsperf.Perf.{Stats}
use dnsperf.Perf.Receive.{Received, match_one, account}
use dnsperf.Perf.Batch.{IsFresh, HasRcode, completed, completed-append, match_one-Matched, sum-set}
use dnsperf.Perf.Partition.{tail-Outstanding, with_stats-IsPartition}
use dnsperf.Perf.System.{
  System, Receiver, waiting, seen, rested, checked, matching, matched, counting, Field,
  response_size, rcode_count, total_latency, total_squares, least_latency, most_latency, put_field,
  behind_field, with_stats, one_more_completed,
}
use dnsperf.Perf.Runs.{
  pending, uncounted, Small, IsSound, turned-IsSound, with_stats-IsSound, SameStats,
}

-- The receiver goes from one place to another where no response is counted in between.
pub goes-IsSound :
    (n : ℕ) (s : System) (v w : Receiver)
    → IsSound n s
    → s.receiver ≡ v
    → (Small n v → Small n w)
    → uncounted w ≡ uncounted v
    → pending w ≡ pending v
    → IsSound n (record s { receiver = w })
goes-IsSound n s v w inv e small same same' =
    turned-IsSound n s w inv (small (subst (Small n) e inv.small)) (same ∙ sym (ap uncounted e))
      (same' ∙ sym (ap pending e))

-- The query that the tail names is one of the queries.
pub look-IsSound :
    (n : ℕ) (s : System) (now q : ℕ)
    → IsSound n s
    → s.receiver ≡ waiting
    → tail? s.thread.outstanding_queries ≡ some q
    → IsSound n (record s { receiver = seen now q })
look-IsSound n s now q inv e k =
    goes-IsSound n s waiting (seen now q) inv e
      (λ _. (tail-Outstanding n s.thread q inv.partition k).0) refl refl

pub look_again-IsSound :
    (n : ℕ) (s : System) (now q : ℕ)
    → IsSound n s
    → s.receiver ≡ rested now
    → tail? s.thread.outstanding_queries ≡ some q
    → IsSound n (record s { receiver = checked now q })
look_again-IsSound n s now q inv e k =
    goes-IsSound n s (rested now) (checked now q) inv e
      (λ _. (tail-Outstanding n s.thread q inv.partition k).0) refl refl

pub receive-IsSound :
    (n : ℕ) (s : System) (rs : List Received)
    → IsSound n s
    → s.receiver ≡ waiting
    → All (IsFresh n) rs
    → IsSound n (record s { receiver = matching [] rs })
unfolding completed
receive-IsSound n s rs inv e fresh =
    goes-IsSound n s waiting (matching [] rs) inv e (λ _. (tt, fresh)) refl refl

pub match_next-IsSound :
    (n : ℕ) (s : System) (done rest : List Received) (r : Received)
    → IsSound n s
    → s.receiver ≡ matching done (r ∷ rest)
    → IsSound n (record s {
      thread = (match_one s.thread r).0;
      receiver = matching (done ++ (match_one s.thread r).1 ∷ []) rest;
    })
match_next-IsSound n s done rest r inv e =
    let small : Small n (matching done (r ∷ rest)) = subst (Small n) e inv.small in
    let (part, (one, (same, low))) = match_one-Matched n s.thread r inv.partition small.1.0 in
    let waits : pending s.receiver ≡ completed done = ap pending e in
    let none_counted : uncounted s.receiver ≡ 0 = ap uncounted e in
    record {
      partition = part;
      sixteen = rw (same) inv.sixteen;
      together = rw (same) (omega (arith, inv.together, none_counted));
      known = inv.known;
      small =
          (All-append HasRcode done ((match_one s.thread r).1 ∷ []) small.0 (low, tt), small.1.1);
      balance =
          rw (same) (
            omega (arith, inv.balance, one, waits, completed-append done (match_one s.thread r).1));
    }

pub skip-IsSound :
    (n : ℕ) (s : System) (r : Received) (rs : List Received)
    → IsSound n s
    → s.receiver ≡ matched (r ∷ rs)
    → (r.short_response || r.unexpected) ≡ true
    → IsSound n (record s { receiver = matched rs })
unfolding completed
skip-IsSound n s r rs inv e k =
    goes-IsSound n s (matched (r ∷ rs)) (matched rs) inv e (λ small. small.1) refl (rw (k) refl)

completed-counted :
    (r : Received) (rs : List Received)
    → (r.short_response || r.unexpected) ≡ false
    → completed (r ∷ rs) ≡ completed rs + 1
unfolding completed
completed-counted r rs k = rw (k) (omega arith)

pub complete-IsSound :
    (n : ℕ) (s : System) (r : Received) (rs : List Received)
    → IsSound n s
    → s.receiver ≡ matched (r ∷ rs)
    → (r.short_response || r.unexpected) ≡ false
    → IsSound n (record (with_stats s (one_more_completed s.thread.stats)) {
      receiver = counting response_size r rs;
    })
complete-IsSound n s r rs inv e k =
    let waits : pending s.receiver ≡ completed rs + 1 = ap pending e ∙ completed-counted r rs k in
    let none_counted : uncounted s.receiver ≡ 0 = ap uncounted e in
    record {
      partition = with_stats-IsPartition n s.thread _ inv.partition;
      sixteen = inv.sixteen;
      together = omega (arith, inv.together, none_counted);
      known = inv.known;
      small = subst (Small n) e inv.small;
      balance = omega (arith, inv.balance, waits);
    }

-- A counter that the invariant does not read.
other-IsSound :
    (n : ℕ) (s : System) (stats : Stats) (v w : Receiver)
    → IsSound n s
    → SameStats s.thread.stats stats
    → s.receiver ≡ v
    → (Small n v → Small n w)
    → uncounted w ≡ uncounted v
    → pending w ≡ pending v
    → IsSound n (record (with_stats s stats) { receiver = w })
other-IsSound n s stats v w inv kept e small same same' =
    goes-IsSound n (with_stats s stats) v w (with_stats-IsSound n s stats inv kept) e small same
      same'

rcode-IsSound :
    (n : ℕ) (s : System) (r : Received) (rs : List Received)
    → IsSound n s
    → s.receiver ≡ counting rcode_count r rs
    → IsSound n (record (with_stats s (put_field s.thread.stats r rcode_count)) {
      receiver = counting total_latency r rs;
    })
unfolding put_field
rcode-IsSound n s r rs inv e =
    let small : Small n (counting rcode_count r rs) = subst (Small n) e inv.small in
    let waits : pending s.receiver ≡ completed rs = ap pending e in
    let one : uncounted s.receiver ≡ 1 = ap uncounted e in
    record {
      partition = with_stats-IsPartition n s.thread _ inv.partition;
      sixteen = length-set s.thread.stats.rcodecounts r.rcode _ ∙ inv.sixteen;
      together = omega (
        arith,
        sum-set s.thread.stats.rcodecounts r.rcode (omega (arith, inv.sixteen, small.0)),
        inv.together,
        one,
      );
      known = inv.known;
      small = small;
      balance = omega (arith, inv.balance, waits);
    }

pub put-IsSound :
    (n : ℕ) (s : System) (f : Field) (r : Received) (rs : List Received)
    → IsSound n s
    → s.receiver ≡ counting f r rs
    → IsSound n
        (record (with_stats s (put_field s.thread.stats r f)) { receiver = behind_field f r rs })
unfolding put_field
put-IsSound n s rcode_count r rs inv e = rcode-IsSound n s r rs inv e
put-IsSound n s response_size r rs inv e =
    other-IsSound n s _ (counting response_size r rs) (counting rcode_count r rs) inv
      (refl, (refl, (refl, refl))) e (λ small. small) refl refl
put-IsSound n s total_latency r rs inv e =
    other-IsSound n s _ (counting total_latency r rs) (counting total_squares r rs) inv
      (refl, (refl, (refl, refl))) e (λ small. small) refl refl
put-IsSound n s total_squares r rs inv e =
    other-IsSound n s _ (counting total_squares r rs) (counting least_latency r rs) inv
      (refl, (refl, (refl, refl))) e (λ small. small) refl refl
put-IsSound n s least_latency r rs inv e =
    other-IsSound n s _ (counting least_latency r rs) (counting most_latency r rs) inv
      (refl, (refl, (refl, refl))) e (λ small. small) refl refl
put-IsSound n s most_latency r rs inv e =
    other-IsSound n s _ (counting most_latency r rs) (matched rs) inv (refl, (refl, (refl, refl))) e
      (λ small. small.1) refl refl

-- One after the other, these updates are the body of the loop.
pub put_field-account :
    (s : Stats) (r : Received)
    → (r.short_response || r.unexpected) ≡ false
    → put_field
        (put_field
          (put_field
            (put_field
              (put_field (put_field (one_more_completed s) r response_size) r rcode_count)
              r
              total_latency)
            r
            total_squares)
          r
          least_latency)
        r
        most_latency
      ≡ account s r
unfolding put_field account
put_field-account s r e = sym (if_false (r.short_response || r.unexpected) _ _ e)
