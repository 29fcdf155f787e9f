-- ===== src/Perf/Partition.antt =====
-- src/dnsperf.c, src/list.h: each query stands in exactly the list that its `list` names.
use dnsperf.Common.{
  some, length, ==→eq, ℕ, suc, ◌+◌, ◌-◌, ◌<◌, ◌≡◌, refl, Bool, true, false, List, [], ◌∷◌, arith,
  ltb, ◌==◌, if◌then◌else◌,
}
use dnsperf.Links.{tail?}
use dnsperf.Links.Count.{count, count-append, count-unlink, tail-In, length-unlink}
use dnsperf.Perf.{
  Stats, tail?, Thread, QueryInfo, QueryList, unused, outstanding, MoveOp, prepend_unused,
  append_unused, prepend_outstanding, unlink_from, link_into, target, update, query_move,
}

abbrev pub members : QueryList → Thread → List ℕ
members unused t = t.unused_queries
members outstanding t = t.outstanding_queries

abbrev pub one_if : QueryList → QueryList → ℕ
one_if unused unused = 1
one_if unused outstanding = 0
one_if outstanding unused = 0
one_if outstanding outstanding = 1

-- Of `n` queries, each stands once in the list that it names and in no other, and nothing else
-- stands in a list.
abbrev pub IsPartition : ℕ → Thread → Type 0
IsPartition n t =
    (l : QueryList) (p : ℕ)
    → count p (members l t) ≡ (if ltb p n then one_if l (t.queries p).list else 0)

count-unlink_from :
    (p q : ℕ) (l k : QueryList) (t : Thread)
    → count p (members l (unlink_from k t q))
      ≡ (if p == q then count p (members l t) - one_if l k else count p (members l t))
count-unlink_from p q unused unused t = count-unlink p q t.unused_queries
count-unlink_from p q unused outstanding t = ground arith
count-unlink_from p q outstanding unused t = ground arith
count-unlink_from p q outstanding outstanding t = count-unlink p q t.outstanding_queries

count-link_into :
    (p q : ℕ) (l : QueryList) (op : MoveOp) (t : Thread)
    → count p (members l (link_into op t q))
      ≡ count p (members l t) + (if p == q then one_if l (target op) else 0)
unfolding count
count-link_into p q unused prepend_unused t = ground arith
count-link_into p q outstanding prepend_unused t = ground arith
count-link_into p q unused append_unused t =
    ground (arith, count-append p t.unused_queries (q ∷ []))
count-link_into p q outstanding append_unused t = ground arith
count-link_into p q unused prepend_outstanding t = ground arith
count-link_into p q outstanding prepend_outstanding t = ground arith

pub members-query_move :
    (t : Thread) (q : ℕ) (op : MoveOp) (l : QueryList)
    → members l (query_move t q op)
      ≡ members l (link_into op (unlink_from (t.queries q).list t q) q)
unfolding query_move update
members-query_move t q op unused = refl
members-query_move t q op outstanding = refl

queries-link_into :
    (op : MoveOp) (k : QueryList) (t : Thread) (q : ℕ)
    → (link_into op (unlink_from k t q) q).queries ≡ t.queries
queries-link_into prepend_unused unused t q = refl
queries-link_into prepend_unused outstanding t q = refl
queries-link_into append_unused unused t q = refl
queries-link_into append_unused outstanding t q = refl
queries-link_into prepend_outstanding unused t q = refl
queries-link_into prepend_outstanding outstanding t q = refl

pub queries-query_move :
    (t : Thread) (q : ℕ) (op : MoveOp) (p : ℕ)
    → (query_move t q op).queries p
      ≡ (if p == q then record (t.queries q) { list = target op } else t.queries p)
unfolding query_move update
queries-query_move t q op p = rw (queries-link_into op (t.queries q).list t q) refl

settled :
    (same : Bool) (l now : QueryList) (info other : QueryInfo)
    → (if same then one_if l info.list - one_if l info.list else one_if l other.list)
        + (if same then one_if l now else 0)
      ≡ one_if l (if same then record info { list = now } else other).list
settled true l now info other = ground arith
settled false l now info other = ground arith

-- If each of the n queries stands once in the list that it names and in no other list, a move of one
-- of them keeps this.
pub query_move-IsPartition :
    (n : ℕ) (t : Thread) (q : ℕ) (op : MoveOp)
    → q < n
    → IsPartition n t
    → IsPartition n (query_move t q op)
query_move-IsPartition n t q op h inv l p =
    rw
      (
        members-query_move t q op l,
        queries-query_move t q op p,
        count-link_into p q l op (unlink_from (t.queries q).list t q),
        count-unlink_from p q l (t.queries q).list t,
        inv l p,
      )
      (settle (p == q) refl)
  where
    settle :
        (same : Bool)
        → p == q ≡ same
        → (if same
              then (if ltb p n then one_if l (t.queries p).list else 0)
                - one_if l (t.queries q).list
              else (if ltb p n then one_if l (t.queries p).list else 0))
            + (if same then one_if l (target op) else 0)
          ≡ (if ltb p n
              then one_if l
                  (if same then record (t.queries q) { list = target op } else t.queries p).list
              else 0)
    settle true e =
        let pq : p ≡ q = ==→eq p q e in
        let low : ltb q n ≡ true = ground arith in
        rw (pq, low) (settled true l (target op) (t.queries q) (t.queries q))
    settle false e = ground arith

pub one_if-Names : (l k : QueryList) → 0 < one_if l k → k ≡ l
one_if-Names unused unused h = refl
one_if-Names unused outstanding h = absurd (omega arith)
one_if-Names outstanding unused h = absurd (omega arith)
one_if-Names outstanding outstanding h = refl

-- The last of the outstanding queries is one of the queries, and names its list.
pub tail-Outstanding :
    (n : ℕ) (t : Thread) (q : ℕ)
    → IsPartition n t
    → tail? t.outstanding_queries ≡ some q
    → (q < n) × ((t.queries q).list ≡ outstanding)
tail-Outstanding n t q inv e = (
  ground (arith, tail-In t.outstanding_queries q e, inv outstanding q),
  one_if-Names outstanding (t.queries q).list
      (ground (arith, tail-In t.outstanding_queries q e, inv outstanding q)),
)

-- The move of an outstanding query to the unused ones leaves one outstanding query less.
pub length-query_move :
    (n : ℕ) (t : Thread) (q : ℕ)
    → IsPartition n t
    → q < n
    → (t.queries q).list ≡ outstanding
    → suc (length (query_move t q append_unused).outstanding_queries) ≡ length t.outstanding_queries
length-query_move n t q inv h e =
    rw (members-query_move t q append_unused outstanding, e)
      (length-unlink q t.outstanding_queries (once (inv outstanding q)))
  where
    once :
        count q t.outstanding_queries
          ≡ (if ltb q n then one_if outstanding (t.queries q).list else 0)
        → 0 < count q t.outstanding_queries
    once k = rw (k, e) (ground arith)

-- The move of a query to the unused ones: one outstanding query less, if it was one.
pub length-to_unused :
    (n : ℕ) (t : Thread) (q : ℕ) (op : MoveOp)
    → target op ≡ unused
    → IsPartition n t
    → q < n
    → length (query_move t q op).outstanding_queries + one_if outstanding (t.queries q).list
      ≡ length t.outstanding_queries
length-to_unused n t q op e inv h =
    rw (members-query_move t q op outstanding) (go op (t.queries q).list e (inv outstanding q))
  where
    go :
        (op : MoveOp) (k : QueryList)
        → target op ≡ unused
        → count q t.outstanding_queries ≡ (if ltb q n then one_if outstanding k else 0)
        → length (members outstanding (link_into op (unlink_from k t q) q)) + one_if outstanding k
          ≡ length t.outstanding_queries
    go prepend_unused unused i e = omega arith
    go append_unused unused i e = omega arith
    go prepend_unused outstanding i e =
        let once : 0 < count q t.outstanding_queries = ground arith in
        omega (arith, length-unlink q t.outstanding_queries once)
    go append_unused outstanding i e =
        let once : 0 < count q t.outstanding_queries = ground arith in
        omega (arith, length-unlink q t.outstanding_queries once)
    go prepend_outstanding k i e = cc

pub with_stats-IsPartition :
    (n : ℕ) (t : Thread) (s : Stats) → IsPartition n t → IsPartition n (record t { stats = s })
with_stats-IsPartition n t s inv unused p = inv unused p
with_stats-IsPartition n t s inv outstanding p = inv outstanding p

pub stats-query_move : (t : Thread) (q : ℕ) (op : MoveOp) → (query_move t q op).stats ≡ t.stats
unfolding query_move update
stats-query_move t q op = go op (t.queries q).list
  where
    go : (op : MoveOp) (k : QueryList) → (link_into op (unlink_from k t q) q).stats ≡ t.stats
    go prepend_unused unused = refl
    go prepend_unused outstanding = refl
    go append_unused unused = refl
    go append_unused outstanding = refl
    go prepend_outstanding unused = refl
    go prepend_outstanding outstanding = refl
