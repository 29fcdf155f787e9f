-- ===== src/Perf/Start.antt =====
-- src/dnsperf.c, threadinfo_init: a thread's queries and its limits at the start.
use dnsperf.Common.{ℕ, zero, suc, ◌≡◌, refl, [], ◌∷◌, ◌++◌, arith, ltb, ◌==◌, if◌then◌else◌}
use dnsperf.Links.Count.{count, count-append}
use dnsperf.Perf.{Thread, unused, outstanding}
use dnsperf.Perf.Share.{per_thread}
use dnsperf.Perf.Totals.{cleared}
use dnsperf.Perf.Partition.{IsPartition}

-- NQIDS and MAX_SOCKETS
abbrev pub nqids : ℕ
nqids = 65536

abbrev pub max_sockets : ℕ
max_sockets = 256

-- memset() of the thread. The `list` of a query is NULL there; it is set before it is read.
unfoldable pub cleared_thread : Thread
unfolding cleared
cleared_thread = record {
  queries = λ _. record { timestamp = 0; list = unused; sock = 0 };
  outstanding_queries = [];
  unused_queries = [];
  stats = cleared;
}

-- The first `n` rounds of the loop over the queries.
unfoldable pub init_queries : ℕ → Thread
unfolding cleared_thread
init_queries zero = cleared_thread
init_queries (suc i) =
    let t = init_queries i in
    record t {
      unused_queries = t.unused_queries ++ i ∷ [];
      queries = λ q. if q == i then record (t.queries i) { list = unused } else t.queries q;
    }

-- The thread's shares of the limits, as far as threadinfo_init cuts them.
pub record Limits : Type 0 where
  pub max_outstanding : ℕ
  pub max_qps : ℕ
  pub nsocks : ℕ

-- `max_outstanding`, `max_qps` and `clients` are those of all `nthreads` threads.
unfoldable pub limits : ℕ → ℕ → ℕ → ℕ → ℕ → Limits
unfolding per_thread
limits max_outstanding max_qps clients nthreads offset =
    let share = per_thread max_outstanding nthreads offset in
    let socks = per_thread clients nthreads offset in
    record {
      max_outstanding = if ltb nqids share then nqids else share;
      max_qps = per_thread max_qps nthreads offset;
      nsocks = if ltb max_sockets socks then max_sockets else socks;
    }

list-init_queries : (n q : ℕ) → ((init_queries n).queries q).list ≡ unused
unfolding init_queries cleared_thread
list-init_queries zero q = refl
list-init_queries (suc i) q = ground (arith, list-init_queries i q)

pub outstanding-init_queries : (n : ℕ) → (init_queries n).outstanding_queries ≡ []
unfolding init_queries cleared_thread
outstanding-init_queries zero = refl
outstanding-init_queries (suc i) = outstanding-init_queries i

pub stats-init_queries : (n : ℕ) → (init_queries n).stats ≡ cleared
unfolding init_queries cleared_thread
stats-init_queries zero = refl
stats-init_queries (suc i) = stats-init_queries i

count-init_queries :
    (n p : ℕ) → count p (init_queries n).unused_queries ≡ (if ltb p n then 1 else 0)
unfolding init_queries cleared_thread count
count-init_queries zero p = ground arith
count-init_queries (suc i) p =
    ground (arith, count-append p (init_queries i).unused_queries (i ∷ []), count-init_queries i p)

-- After the loop over n queries, each stands once among the unused ones, which is the list that it
-- names, and in no other list.
pub init_queries-IsPartition : (n : ℕ) → IsPartition n (init_queries n)
unfolding count
init_queries-IsPartition n unused p = rw (list-init_queries n p) (count-init_queries n p)
init_queries-IsPartition n outstanding p =
    rw (list-init_queries n p, outstanding-init_queries n) (ground arith)
