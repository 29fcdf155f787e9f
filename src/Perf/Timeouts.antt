-- ===== src/Perf/Timeouts.antt =====
-- src/dnsperf.c, process_timeouts and cancel_queries: what they leave outstanding.
use dnsperf.Common.{
  Bool, none, ◌==◌, true, List, ◌∷◌, [], eq-nil_of_length, Option-cases, if_cases, ℕ, zero, suc,
  ◌+◌, ◌-◌, ◌%◌, ◌^◌, ◌≤◌, ◌≡◌, refl, ◌∙◌, inl, inr, false, ◌||◌, some, arith, ltb, length,
}
use dnsperf.Links.{tail?}
use dnsperf.Perf.{
  cancel, query_move, append_unused, cancel_loop, cancel_queries, uint64_max, Thread, QueryInfo,
  time_out, is_late, timeouts_loop, process_timeouts,
}
use dnsperf.Perf.Partition.{
  with_stats-IsPartition, IsPartition, query_move-IsPartition, tail-Outstanding, length-query_move,
  stats-query_move,
}

-- The last of the outstanding queries, the oldest if the clock goes forward, is late.
abbrev pub has_late : ℕ → ℕ → Thread → Bool
has_late timeout now t = elim (tail? t.outstanding_queries) [
  | none ↦ false
  | some q ↦ is_late timeout now (t.queries q)
]

none-Current :
    (timeout now : ℕ) (t : Thread)
    → tail? t.outstanding_queries ≡ none
    → has_late timeout now t ≡ false
none-Current timeout now t e = rw (e, has_late) refl

some-Current :
    (timeout now : ℕ) (t : Thread) (q : ℕ)
    → tail? t.outstanding_queries ≡ some q
    → is_late timeout now (t.queries q) ≡ false
    → has_late timeout now t ≡ false
some-Current timeout now t q e late = rw (e, has_late) late

-- Each query that left the outstanding ones is counted; the counter is a uint64_t.
abbrev pub CountsTimeouts : Thread → Thread → Type 0
CountsTimeouts t t' =
    (t'.stats.num_timedout + length t'.outstanding_queries) % 2 ^ 64
    ≡ (t.stats.num_timedout + length t.outstanding_queries) % 2 ^ 64

time_out-IsPartition :
    (n : ℕ) (t : Thread) (q : ℕ)
    → IsPartition n t
    → tail? t.outstanding_queries ≡ some q
    → IsPartition n (time_out t q)
unfolding time_out
time_out-IsPartition n t q inv e =
    with_stats-IsPartition n _ _
      (query_move-IsPartition n t q append_unused (tail-Outstanding n t q inv e).0 inv)

retired :
    (n : ℕ) (t : Thread) (q : ℕ)
    → IsPartition n t
    → tail? t.outstanding_queries ≡ some q
    → suc (length (query_move t q append_unused).outstanding_queries) ≡ length t.outstanding_queries
retired n t q inv e =
    let (low, listed) = tail-Outstanding n t q inv e in length-query_move n t q inv low listed

time_out-Counts :
    (n : ℕ) (t : Thread) (q : ℕ)
    → IsPartition n t
    → tail? t.outstanding_queries ≡ some q
    → (suc (length (time_out t q).outstanding_queries) ≡ length t.outstanding_queries)
      × CountsTimeouts t (time_out t q)
unfolding time_out
time_out-Counts n t q inv e = (
  retired n t q inv e,
  rw (stats-query_move t q append_unused) (omega (arith, retired n t q inv e)),
)

-- What holds behind the timeouts of `t`.
abbrev pub Settled : ℕ → ℕ → ℕ → Thread → Thread → Type 0
Settled n timeout now t t' =
    IsPartition n t' × ((has_late timeout now t' ≡ false) × CountsTimeouts t t')

timeouts_loop-Settled :
    (f n timeout now : ℕ) (t : Thread) (q : ℕ)
    → IsPartition n t
    → tail? t.outstanding_queries ≡ some q
    → length t.outstanding_queries ≤ f
    → Settled n timeout now t (timeouts_loop f timeout now t (some q))
unfolding timeouts_loop
timeouts_loop-Settled zero n timeout now t q inv e h =
    absurd (omega (arith, (time_out-Counts n t q inv e).0))
timeouts_loop-Settled (suc f) n timeout now t q inv e h =
    let inv' = time_out-IsPartition n t q inv e in
    let (shorter, counted) = time_out-Counts n t q inv e in
    elim (Option-cases (tail? (time_out t q).outstanding_queries)) [
      | inl left ↦
          rw (left, timeouts_loop) (inv', (none-Current timeout now (time_out t q) left, counted))
      | inr (p, left) ↦
          rw (left, timeouts_loop)
            (if_cases (Settled n timeout now t) (is_late timeout now ((time_out t q).queries p)) _ _
              (λ late.
                let (a, (b, c)) = next p left (
                  timeouts_loop-Settled f n timeout now (time_out t q) p inv' left
                    (omega (arith, shorter))) in
                (a, (b, c ∙ counted)))
              (λ late. (inv', (some-Current timeout now (time_out t q) p left late, counted))))
    ]
  where
    next :
        (p : ℕ)
        → tail? (time_out t q).outstanding_queries ≡ some p
        → Settled n timeout now (time_out t q) (timeouts_loop f timeout now (time_out t q) (some p))
        → Settled n timeout now
            (time_out t q)
            (timeouts_loop f timeout now (time_out t q) (tail? (time_out t q).outstanding_queries))
    next p left x = rw (left) x

-- If each query stands in exactly the list that it names, this holds after process_timeouts too; no
-- query is outstanding or the last of them is not late; and each query that left the outstanding
-- ones is counted once as timed out, in the arithmetic of uint64_t.
pub process_timeouts-Settled :
    (n timeout now : ℕ) (t : Thread)
    → IsPartition n t
    → Settled n timeout now t (process_timeouts timeout now t)
unfolding process_timeouts is_late
process_timeouts-Settled n timeout now t inv = elim (Option-cases (tail? t.outstanding_queries)) [
  | inl none_left ↦
      rw (none_left, process_timeouts) (inv, (none-Current timeout now t none_left, refl))
  | inr (q, left) ↦
      rw (left, process_timeouts)
        (if_cases (Settled n timeout now t)
          (ltb now (t.queries q).timestamp || ltb (now - (t.queries q).timestamp) timeout) _ _
          (λ early. (inv, (some-Current timeout now t q left (not_late (t.queries q) early), refl)))
          (λ late.
            timeouts_loop-Settled (length t.outstanding_queries) n timeout now t q inv left
              (omega arith)))
]
  where
    not_late :
        (info : QueryInfo)
        → (ltb now info.timestamp || ltb (now - info.timestamp) timeout) ≡ true
        → is_late timeout now info ≡ false
    not_late info h = ground arith

tail-nil : (xs : List ℕ) → tail? xs ≡ none → xs ≡ []
unfolding tail?
tail-nil [] e = refl
tail-nil (x ∷ []) e = cc
tail-nil (x ∷ y ∷ xs) e = let nil : y ∷ xs ≡ [] = tail-nil (y ∷ xs) e in cc

cancel-IsPartition :
    (n : ℕ) (t : Thread) (q : ℕ)
    → IsPartition n t
    → tail? t.outstanding_queries ≡ some q
    → IsPartition n (cancel t q)
      × (suc (length (cancel t q).outstanding_queries) ≡ length t.outstanding_queries)
unfolding cancel
cancel-IsPartition n t q inv e =
    if_cases
      (λ t'.
        IsPartition n t' × (suc (length t'.outstanding_queries) ≡ length t.outstanding_queries))
      ((t.queries q).timestamp == uint64_max) _ _ (λ _. (moved, shorter))
      (λ _. (with_stats-IsPartition n (query_move t q append_unused) _ moved, shorter))
  where
    moved : IsPartition n (query_move t q append_unused)
    moved = query_move-IsPartition n t q append_unused (tail-Outstanding n t q inv e).0 inv

    shorter :
        suc (length (query_move t q append_unused).outstanding_queries)
        ≡ length t.outstanding_queries
    shorter = retired n t q inv e

cancel_loop-Empties :
    (f n : ℕ) (t : Thread)
    → IsPartition n t
    → length t.outstanding_queries ≤ f
    → IsPartition n (cancel_loop f t) × ((cancel_loop f t).outstanding_queries ≡ [])
unfolding cancel_loop
cancel_loop-Empties zero n t inv h = (inv, eq-nil_of_length t.outstanding_queries (omega arith))
cancel_loop-Empties (suc f) n t inv h = elim (Option-cases (tail? t.outstanding_queries)) [
  | inl e ↦ rw (e, cancel_loop) (inv, tail-nil t.outstanding_queries e)
  | inr (q, e) ↦
      let (inv', shorter) = cancel-IsPartition n t q inv e in
      rw (e, cancel_loop) (cancel_loop-Empties f n (cancel t q) inv' (omega (arith, shorter)))
]

-- If each query stands in exactly the list that it names, cancel_queries leaves no query
-- outstanding, and each stands in the list that it names.
pub cancel_queries-Empties :
    (n : ℕ) (t : Thread)
    → IsPartition n t
    → IsPartition n (cancel_queries t) × ((cancel_queries t).outstanding_queries ≡ [])
unfolding cancel_queries
cancel_queries-Empties n t inv =
    cancel_loop-Empties (length t.outstanding_queries) n t inv (omega arith)
