-- ===== src/Perf/Batch.antt =====
-- src/dnsperf.c, do_recv: each completed query leaves the outstanding ones, and each is counted once.
use dnsperf.Common.{
  some_case, none-ne-some, All, length-set, List, [], ◌∷◌, ◌++◌, set, get_or, ◌%◌, ◌^◌, ap, ◌∙◌,
  zero, ℕ, suc, ◌+◌, ◌<◌, ◌≡◌, refl, true, false, not, ◌&&◌, ◌||◌, Option, some, arith, ◌==◌,
  if◌then◌else◌, length,
}
use dnsperf.Common.{length-set, if_cases}
use dnsperf.Perf.{
  add64, Stats, Thread, QueryInfo, QueryList, unused, outstanding, append_unused, uint64_max,
}
use dnsperf.Perf.Partition.{
  with_stats-IsPartition, IsPartition, query_move-IsPartition, length-query_move, stats-query_move,
}
use dnsperf.Perf.Receive.{
  match_batch, account, account_batch, receive_batch, recv_one, failed, got, Received, RecvResult,
  is_outstanding, is_expected, match_one,
}

-- What recv_one leaves, for `n` queries.
pub record IsFresh (n : ℕ) (r : Received) : Type 0 where
  pub known : r.qid < n
  pub expected : r.unexpected ≡ false
  pub small : r.rcode < 16

-- How many of the responses are counted as completed queries.
unfoldable pub completed : List Received → ℕ
completed [] = 0
completed (r ∷ rs) =
    let rest = completed rs in if r.short_response || r.unexpected then rest else suc rest

abbrev pub HasRcode : Received → Type 0
HasRcode r = r.rcode < 16

expected-Outstanding :
    (q : QueryInfo) (r : Received) → is_expected q r ≡ true → q.list ≡ outstanding
unfolding is_expected
expected-Outstanding q r e = go q.list e
  where
    go :
        (l : QueryList)
        → (is_outstanding l && (not (q.timestamp == uint64_max) && q.sock == r.sock)) ≡ true
        → l ≡ outstanding
    go unused e = cc
    go outstanding e = refl

-- One response: the state behind it, and whether it is counted.
abbrev pub Matched : ℕ → Thread → Thread × Received → Type 0
Matched n t m =
    IsPartition n m.0
    × ((completed (m.1 ∷ []) + length m.0.outstanding_queries ≡ length t.outstanding_queries)
        × ((m.0.stats ≡ t.stats) × HasRcode m.1))

pub match_one-Matched :
    (n : ℕ) (t : Thread) (r : Received)
    → IsPartition n t
    → IsFresh n r
    → Matched n t (match_one t r)
unfolding match_one completed
match_one-Matched n t r inv fresh =
    if_cases (Matched n t) r.short_response _ _
      (λ short. (inv, (rw (short) (omega arith), (refl, fresh.small))))
      (λ long.
        if_cases (Matched n t) (is_expected (t.queries r.qid) r) _ _
          (λ e.
            let listed = expected-Outstanding (t.queries r.qid) r e in
            (
              query_move-IsPartition n t r.qid append_unused fresh.known inv,
              (
                rw (long, fresh.expected)
                    (omega (arith, length-query_move n t r.qid inv fresh.known listed)),
                (stats-query_move t r.qid append_unused, fresh.small),
              ),
            ))
          (λ e. (inv, (rw (long) (omega arith), (refl, fresh.small)))))

pub completed-cons :
    (r : Received) (rs : List Received) → completed (r ∷ rs) ≡ completed (r ∷ []) + completed rs
unfolding completed
completed-cons r rs = ground arith

pub completed-append :
    (rs : List Received) (r : Received)
    → completed (rs ++ r ∷ []) ≡ completed rs + completed (r ∷ [])
unfolding completed
completed-append [] r = omega arith
completed-append (x ∷ rs) r =
    omega (arith, completed-cons x (rs ++ r ∷ []), completed-append rs r, completed-cons x rs)

-- A batch of responses: as many queries leave the outstanding ones as are counted.
abbrev pub MatchedAll : ℕ → Thread → Thread × List Received → Type 0
MatchedAll n t m =
    IsPartition n m.0
    × ((completed m.1 + length m.0.outstanding_queries ≡ length t.outstanding_queries)
        × ((m.0.stats ≡ t.stats) × All HasRcode m.1))

pub match_batch-Matched :
    (n : ℕ) (t : Thread) (rs : List Received)
    → IsPartition n t
    → All (IsFresh n) rs
    → MatchedAll n t (match_batch t rs)
unfolding match_batch completed
match_batch-Matched n t [] inv fresh = (inv, (omega arith, (refl, tt)))
match_batch-Matched n t (r ∷ rs) inv fresh =
    let (inv', (one, (same, small))) = match_one-Matched n t r inv fresh.0 in
    let (inv'', (more, (same', small'))) =
      match_batch-Matched n (match_one t r).0 rs inv' fresh.1 in
    (
      inv'',
      (
        omega (
          arith,
          one,
          more,
          completed-cons (match_one t r).1 (match_batch (match_one t r).0 rs).1,
        ),
        (same' ∙ same, (small, small')),
      ),
    )

-- The counters of responses agree: there is one for each rcode, and together they are the number of
-- completed queries, in the arithmetic of uint64_t.
unfoldable pub sum : List ℕ → ℕ
sum [] = 0
sum (x ∷ xs) = x + sum xs

pub record CountsRcodes (s : Stats) : Type 0 where
  pub sixteen : length s.rcodecounts ≡ 16
  pub together : sum s.rcodecounts % 2 ^ 64 ≡ s.num_completed % 2 ^ 64

pub sum-set :
    (xs : List ℕ) (i : ℕ)
    → i < length xs
    → sum (set xs i (add64 (get_or xs i 0) 1)) % 2 ^ 64 ≡ (sum xs + 1) % 2 ^ 64
unfolding sum
sum-set [] i h = absurd (omega arith)
sum-set (x ∷ xs) zero h = omega arith
sum-set (x ∷ xs) (suc i) h = omega (arith, sum-set xs i (omega arith))

pub account-Counts :
    (s : Stats) (r : Received)
    → HasRcode r
    → CountsRcodes s
    → CountsRcodes (account s r)
      × ((account s r).num_completed % 2 ^ 64 ≡ (s.num_completed + completed (r ∷ [])) % 2 ^ 64)
unfolding account completed
account-Counts s r small counts =
    if_cases
      (λ s'.
        CountsRcodes s'
        × (s'.num_completed % 2 ^ 64 ≡ (s.num_completed + completed (r ∷ [])) % 2 ^ 64))
      (r.short_response || r.unexpected) _ _ (λ e. (counts, rw (e) (omega arith)))
      (λ e. (
        record {
          sixteen = length-set s.rcodecounts r.rcode _ ∙ counts.sixteen;
          together = omega (
            arith,
            sum-set s.rcodecounts r.rcode (omega (arith, counts.sixteen)),
            counts.together,
          );
        },
        rw (e) (omega arith),
      ))

account_batch-Counts :
    (s : Stats) (rs : List Received)
    → All HasRcode rs
    → CountsRcodes s
    → CountsRcodes (account_batch s rs)
      × ((account_batch s rs).num_completed % 2 ^ 64 ≡ (s.num_completed + completed rs) % 2 ^ 64)
unfolding account_batch completed
account_batch-Counts s [] small counts = (counts, omega arith)
account_batch-Counts s (r ∷ rs) small counts =
    let (counts', one) = account-Counts s r small.0 counts in
    let (counts'', more) = account_batch-Counts (account s r) rs small.1 counts' in
    (counts'', omega (arith, one, more, completed-cons r rs))

-- If each of the n queries stands in exactly the list that it names, the counters of the 16 rcodes
-- add up to the number of completed queries, and the responses are as recv_one leaves them, then a
-- batch of do_recv keeps the first two, and each query that it takes off the outstanding ones is
-- counted once as completed, in the arithmetic of uint64_t.
pub receive_batch-Counts :
    (n : ℕ) (t : Thread) (rs : List Received)
    → IsPartition n t
    → CountsRcodes t.stats
    → All (IsFresh n) rs
    → let t' = receive_batch t rs in
      IsPartition n t'
      × (CountsRcodes t'.stats
          × ((t'.stats.num_completed + length t'.outstanding_queries) % 2 ^ 64
              ≡ (t.stats.num_completed + length t.outstanding_queries) % 2 ^ 64))
unfolding receive_batch
receive_batch-Counts n t rs inv counts fresh =
    let (inv', (more, (same, small))) = match_batch-Matched n t rs inv fresh in
    let (counts', total) =
      account_batch-Counts (match_batch t rs).0.stats (match_batch t rs).1 small
        (rw (same) counts) in
    (
      with_stats-IsPartition n (match_batch t rs).0 _ inv',
      (counts', omega (arith, more, total, ap (λ s. s.num_completed) same)),
    )

-- What recv_one returns is fresh: the id is one of the 65536 and the rcode one of the 16.
pub recv_one-IsFresh :
    (sock now : ℕ) (packet : List ℕ) (got : RecvResult) (saved_errno : ℕ) (r : Received)
    → get_or packet 0 0 < 256
    → get_or packet 1 0 < 256
    → (recv_one sock packet now got saved_errno).0 ≡ some r
    → IsFresh 65536 r
unfolding recv_one
recv_one-IsFresh sock now packet (failed e) saved_errno r h k eq = cc
recv_one-IsFresh sock now packet (got n) saved_errno r h k eq =
    if_cases (λ (m : Option Received × ℕ). m.0 ≡ some r → IsFresh 65536 r) (n == 0) _ _
      (λ _ e. absurd (none-ne-some e))
      (λ _ e.
        some_case (IsFresh 65536)
          (record { known = omega (arith, h, k); expected = refl; small = omega arith }) e)
      eq
