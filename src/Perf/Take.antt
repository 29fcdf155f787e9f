-- ===== src/Perf/Take.antt =====
-- src/dnsperf.c, do_send: while fewer queries are outstanding than there are, an id is free.
use dnsperf.Perf.Partition.{members-query_move}
use dnsperf.Common.{
  sym, some_case, none-ne-some, suc, ◌∙◌, Option, none, some, ◌∷◌, [], ==→eq, Bool, true, false,
  ◌==◌, ap, ℕ, zero, suc, ◌+◌, ◌≤◌, ◌<◌, ◌≡◌, refl, List, arith, ltb, if◌then◌else◌, length,
}
use dnsperf.Links.Count.{count}
use dnsperf.Perf.{
  link_into, unlink_from, QueryInfo, take_query, query_move, update, uint64_max,
  prepend_outstanding, Thread, QueryList, unused, outstanding,
}
use dnsperf.Perf.Partition.{
  query_move-IsPartition, queries-query_move, members, one_if, one_if-Names, IsPartition,
}

-- How many elements of a list are below `n`, counted number by number.
tally : ℕ → List ℕ → ℕ
tally zero xs = 0
tally (suc n) xs = count n xs + tally n xs

tally-nil : (n : ℕ) → tally n [] ≡ 0
unfolding tally count
tally-nil zero = refl
tally-nil (suc n) = omega (arith, tally-nil n)

tally-cons :
    (n x : ℕ) (xs : List ℕ) → tally n (x ∷ xs) ≡ (if ltb x n then suc (tally n xs) else tally n xs)
unfolding tally count
tally-cons zero x xs = ground arith
tally-cons (suc n) x xs = ground (arith, tally-cons n x xs)

tally-eq-length :
    (n : ℕ) (xs : List ℕ) → ((p : ℕ) → n ≤ p → count p xs ≡ 0) → tally n xs ≡ length xs
unfolding count
tally-eq-length n [] h = tally-nil n
tally-eq-length n (x ∷ xs) h =
    ground (arith, tally-cons n x xs, h x, tally-eq-length n xs (λ p k. ground (arith, h p k)))

tally-both :
    (n m : ℕ) (xs ys : List ℕ)
    → m ≤ n
    → ((p : ℕ) → p < n → count p xs + count p ys ≡ 1)
    → tally m xs + tally m ys ≡ m
unfolding tally
tally-both n zero xs ys k h = refl
tally-both n (suc m) xs ys k h =
    omega (arith, h m (omega arith), tally-both n m xs ys (omega arith) h)

-- The two lists have as many elements as there are queries.
pub length-IsPartition :
    (n : ℕ) (t : Thread)
    → IsPartition n t
    → length t.unused_queries + length t.outstanding_queries ≡ n
length-IsPartition n t inv = omega (
  arith,
  tally-eq-length n t.unused_queries (λ p h. ground (arith, inv unused p)),
  tally-eq-length n t.outstanding_queries (λ p h. ground (arith, inv outstanding p)),
  tally-both n n t.unused_queries t.outstanding_queries (omega arith) once,
)
  where
    one : (l : QueryList) → one_if unused l + one_if outstanding l ≡ 1
    one unused = refl
    one outstanding = refl

    once : (p : ℕ) → p < n → count p t.unused_queries + count p t.outstanding_queries ≡ 1
    once p h = ground (arith, inv unused p, inv outstanding p, one (t.queries p).list)

pub update-IsPartition :
    (n : ℕ) (t : Thread) (q : ℕ) (info : QueryInfo)
    → info.list ≡ (t.queries q).list
    → IsPartition n t
    → IsPartition n (update t q info)
unfolding update
update-IsPartition n t q info e inv l p = rw (same_list p (p == q) refl) (kept l)
  where
    same_list :
        (p : ℕ) (b : Bool)
        → p == q ≡ b
        → (if p == q then info else t.queries p).list ≡ (t.queries p).list
    same_list p true k = let pq : p ≡ q = ==→eq p q k in rw (k, pq) e
    same_list p false k = rw (k) refl

    kept :
        (l : QueryList)
        → count p (members l (update t q info))
          ≡ (if ltb p n then one_if l (t.queries p).list else 0)
    kept unused = inv unused p
    kept outstanding = inv outstanding p

head-Unused :
    (n : ℕ) (t : Thread) (q : ℕ) (xs : List ℕ)
    → IsPartition n t
    → t.unused_queries ≡ q ∷ xs
    → (q < n) × ((t.queries q).list ≡ unused)
unfolding count
head-Unused n t q xs inv e = (
  ground (arith, head, inv unused q),
  one_if-Names unused (t.queries q).list (ground (arith, head, inv unused q)),
)
  where
    head : 0 < count q t.unused_queries
    head = rw (e) (ground arith)

-- The state behind the lock, with the query `q` taken.
abbrev taken : Thread → ℕ → Thread
taken t q =
    let t' = query_move t q prepend_outstanding in
    update t' q (record (t'.queries q) { timestamp = uint64_max })

abbrev taken_of : Thread → List ℕ → Option (ℕ × Thread)
taken_of t [] = none
taken_of t (q ∷ _) = some (q, taken t q)

taken-IsPartition :
    (n : ℕ) (t : Thread) (q : ℕ) → q < n → IsPartition n t → IsPartition n (taken t q)
taken-IsPartition n t q low inv =
    update-IsPartition n (query_move t q prepend_outstanding) q _ refl
      (query_move-IsPartition n t q prepend_outstanding low inv)

queries-taken :
    (t : Thread) (q : ℕ)
    → (taken t q).queries q ≡ record (t.queries q) { timestamp = uint64_max; list = outstanding }
unfolding update
queries-taken t q =
    let same : q == q ≡ true = ground arith in
    rw (same, queries-query_move t q prepend_outstanding q, same) refl

-- What take_query answers for the query `q`.
abbrev pub Taken : ℕ → Thread → ℕ → Thread → Type 0
Taken n t q t' =
    (q < n)
    × (((t.queries q).list ≡ unused)
        × (IsPartition n t'
            × (t'.queries q ≡ record (t.queries q) { timestamp = uint64_max; list = outstanding })))

-- If each of the n queries stands in exactly the list that it names, and fewer than n stand among
-- the outstanding ones, do_send finds an unused one at the head of the list; it becomes outstanding,
-- marked as not sent, and each query stands in the list that it names.
pub take_query-Taken :
    (n : ℕ) (t : Thread)
    → IsPartition n t
    → length t.outstanding_queries < n
    → (q : ℕ) × (t' : Thread) × ((take_query t ≡ some (q, t')) × Taken n t q t')
unfolding take_query
take_query-Taken n t inv h = go t.unused_queries refl
  where
    go :
        (xs : List ℕ)
        → t.unused_queries ≡ xs
        → (q : ℕ) × (t' : Thread) × ((take_query t ≡ some (q, t')) × Taken n t q t')
    go [] e = absurd (omega (arith, ap length e, length-IsPartition n t inv))
    go (q ∷ xs) e =
        let (low, named) = head-Unused n t q xs inv e in
        (
          q,
          taken t q,
          (ap (taken_of t) e, (low, (named, (taken-IsPartition n t q low inv, queries-taken t q)))),
        )

adds :
    (t : Thread) (q : ℕ) (k : QueryList)
    → k ≡ unused
    → length (link_into prepend_outstanding (unlink_from k t q) q).outstanding_queries
      ≡ suc (length t.outstanding_queries)
adds t q k e = rw (e) refl

-- The move of the query that is taken puts it on top of the outstanding ones.
pub take_query-Moves :
    (n : ℕ) (t : Thread) (q : ℕ) (t' : Thread)
    → IsPartition n t
    → take_query t ≡ some (q, t')
    → (q < n)
      × (length (query_move t q prepend_outstanding).outstanding_queries
          ≡ suc (length t.outstanding_queries))
unfolding take_query
take_query-Moves n t q t' inv e = go t.unused_queries refl
  where
    go :
        (xs : List ℕ)
        → t.unused_queries ≡ xs
        → (q < n)
          × (length (query_move t q prepend_outstanding).outstanding_queries
              ≡ suc (length t.outstanding_queries))
    go [] k = absurd (none-ne-some (sym (ap (taken_of t) k) ∙ e))
    go (p ∷ xs) k =
        some_case
          (λ (r : ℕ × Thread).
            (r.0 < n)
            × (length (query_move t r.0 prepend_outstanding).outstanding_queries
                ≡ suc (length t.outstanding_queries)))
          (let (low, named) = head-Unused n t p xs inv k in
            (
              low,
              ap length (members-query_move t p prepend_outstanding outstanding)
                  ∙ adds t p (t.queries p).list named,
            ))
          (sym (ap (taken_of t) k) ∙ e)
