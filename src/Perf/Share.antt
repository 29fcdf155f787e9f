-- ===== src/Perf/Share.antt =====
-- src/dnsperf.c, per_thread: the shares of the threads.
use dnsperf.Common.{
  ℕ, zero, suc, ◌+◌, ◌-◌, ◌*◌, ◌/◌, ◌≤◌, ◌<◌, ◌≡◌, inl, inr, ◌&&◌, arith, ltb, leb, if◌then◌else◌,
  Bool-cases,
}
use native.Mathlib.Nat.{div-add-mod, mod-lt}

-- per_thread; uint32_t arithmetic, in which nothing wraps, since value * nthreads <= total.
unfoldable pub per_thread : ℕ → ℕ → ℕ → ℕ
per_thread total nthreads offset =
    let value = total / nthreads in
    let temp_total = value * nthreads in
    if ltb temp_total total && ltb offset (total - temp_total) then value + 1 else value

-- The shares of the threads 0 to n - 1.
unfoldable pub shares : ℕ → ℕ → ℕ → ℕ
unfolding per_thread
shares total nthreads zero = 0
shares total nthreads (suc n) = shares total nthreads n + per_thread total nthreads n

shares_below :
    (total nthreads n : ℕ)
    → n ≤ total - total / nthreads * nthreads
    → shares total nthreads n ≡ n * (total / nthreads) + n
unfolding shares
shares_below total nthreads zero h = omega arith
shares_below total nthreads (suc n) h = ground (arith, shares_below total nthreads n)

-- From the remainder on, a share is the quotient.
shares_above :
    (total nthreads n : ℕ)
    → total - total / nthreads * nthreads ≤ n
    → shares total nthreads n ≡ n * (total / nthreads) + (total - total / nthreads * nthreads)
unfolding shares
shares_above total nthreads zero h = omega arith
shares_above total nthreads (suc n) h =
    elim (Bool-cases (leb (total - total / nthreads * nthreads) n)) [
      | inl e ↦ ground (arith, shares_above total nthreads n)
      | inr e ↦ ground (arith, shares_below total nthreads n)
    ]

-- The shares of all threads make up the total, if there is a thread.
pub shares-eq-total : (total nthreads : ℕ) → 0 < nthreads → shares total nthreads nthreads ≡ total
shares-eq-total total zero h = absurd (omega arith)
shares-eq-total total (suc n) h =
    grind (arith, shares_above total (suc n) (suc n), div-add-mod total (suc n), mod-lt total h)

-- The shares of two threads differ by one at most.
pub per_thread-Even :
    (total nthreads i j : ℕ) → per_thread total nthreads i ≤ per_thread total nthreads j + 1
unfolding per_thread
per_thread-Even total nthreads i j = ground arith
