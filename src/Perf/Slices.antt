-- ===== src/Perf/Slices.antt =====
-- src/dnsperf.c, do_send: the limit of queries a second holds in each slice.
use dnsperf.Common.{
  ℕ, suc, ◌+◌, ◌^◌, ◌≤◌, ◌<◌, ◌≡◌, refl, ◌∙◌, Bool, true, false, List, [], ◌∷◌, arith, ltb, leb,
  if◌then◌else◌, if_cases, All,
}
use dnsperf.Perf.{add64}
use dnsperf.Perf.Pace.{
  Pace, Rate, Turn, slice, step, limit_rate, Round, goes_on, counts, paced, pace_start, million,
}

-- A new slice.
abbrev slice_over : ℕ → Pace → Pace
slice_over now p = record { req_time = now; q_sent = 0; q_slice = add64 p.q_slice million }

-- The variables behind the limit: no more than `max` queries are counted in the slice, fewer if the
-- round goes on, and inside the slice the count is kept.
abbrev IsFair : ℕ → ℕ → Pace → Turn × Pace → Type 0
IsFair max now p t =
    (t.1.q_sent ≤ max)
    × ((goes_on t.0 ≡ true → t.1.q_sent < max)
        × (now < p.q_slice → (t.1.q_sent ≡ p.q_sent) × (t.1.q_slice ≡ p.q_slice)))

step-IsFair :
    (r : Rate) (b : Bool) (now : ℕ) (p : Pace)
    → p.q_sent ≤ r.max_qps
    → IsFair r.max_qps now p (step r b now p)
unfolding step
step-IsFair r b now p h =
    if_cases (IsFair r.max_qps now p) (leb r.max_qps p.q_sent) _ _
      (λ full. (h, (λ e. cc, λ k. (refl, refl))))
      (λ space.
        if_cases (IsFair r.max_qps now p) (ltb now p.req_time) _ _
          (λ early. (h, (λ e. cc, λ k. (refl, refl))))
          (λ late. (h, (λ e. ground arith, λ k. (refl, refl)))))

limit_rate-IsFair :
    (r : Rate) (b : Bool) (now : ℕ) (p : Pace)
    → 0 < r.max_qps
    → p.q_sent ≤ r.max_qps
    → IsFair r.max_qps now p (limit_rate r b now p)
unfolding limit_rate slice
limit_rate-IsFair r b now p some_limit h =
    if_cases (IsFair r.max_qps now p) (ltb 0 r.max_qps) _ _
      (λ limited.
        if_cases (λ (q : Pace). IsFair r.max_qps now p (step r b now q)) (leb p.q_slice now) _ _
          (λ over.
            let (a, (c, same)) = step-IsFair r b now (slice_over now p) (omega arith) in
            (a, (c, λ k. absurd (ground arith))))
          (λ inside. step-IsFair r b now p h))
      (λ unlimited. absurd (ground arith))

-- One round more.
abbrev behind : Rate → Round → Pace → Pace
behind r d p =
    let p' = (limit_rate r d.any_inprogress d.now p).1 in
    record p' { q_sent = if counts r d p then add64 p'.q_sent 1 else p'.q_sent }

behind-le :
    (r : Rate) (d : Round) (p : Pace)
    → 0 < r.max_qps
    → r.max_qps < 2 ^ 32
    → p.q_sent ≤ r.max_qps
    → (behind r d p).q_sent ≤ r.max_qps
unfolding counts
behind-le r d p k small h =
    let (a, (c, same)) = limit_rate-IsFair r d.any_inprogress d.now p k h in ground (arith, a, c)

behind-eq :
    (r : Rate) (d : Round) (p : Pace)
    → 0 < r.max_qps
    → r.max_qps < 2 ^ 32
    → p.q_sent ≤ r.max_qps
    → d.now < p.q_slice
    → ((behind r d p).q_sent ≡ (if counts r d p then suc p.q_sent else p.q_sent))
      × ((behind r d p).q_slice ≡ p.q_slice)
unfolding counts
behind-eq r d p k small h inside =
    let (a, (c, same)) = limit_rate-IsFair r d.any_inprogress d.now p k h in
    (ground (arith, a, c, (same inside).0), (same inside).1)

-- Rounds of one slice.
abbrev InSlice : Pace → Round → Type 0
InSlice p d = d.now < p.q_slice

paced-le :
    (r : Rate) (ds : List Round) (p : Pace) (end : ℕ)
    → 0 < r.max_qps
    → r.max_qps < 2 ^ 32
    → p.q_sent ≤ r.max_qps
    → p.q_slice ≡ end
    → All (λ (d : Round). d.now < end) ds
    → (paced r ds p).0 + p.q_sent ≤ r.max_qps
unfolding paced
paced-le r [] p end k small h e all = omega arith
paced-le r (d ∷ ds) p end k small h e all =
    let (sent, same) = behind-eq r d p k small h (rw (e) all.0) in
    let rest =
      paced-le r ds (behind r d p) end k small (behind-le r d p k small h) (same ∙ e) all.1 in
    go (counts r d p) sent rest
  where
    go :
        (b : Bool)
        → (behind r d p).q_sent ≡ (if b then suc p.q_sent else p.q_sent)
        → (paced r ds (behind r d p)).0 + (behind r d p).q_sent ≤ r.max_qps
        → (if b then suc (paced r ds (behind r d p)).0 else (paced r ds (behind r d p)).0)
            + p.q_sent
          ≤ r.max_qps
    go true s k = omega arith
    go false s k = omega arith

paced-Keeps :
    (r : Rate) (ds : List Round) (p : Pace)
    → 0 < r.max_qps
    → r.max_qps < 2 ^ 32
    → p.q_sent ≤ r.max_qps
    → (paced r ds p).1.q_sent ≤ r.max_qps
unfolding paced
paced-Keeps r [] p k small h = h
paced-Keeps r (d ∷ ds) p k small h =
    paced-Keeps r ds (behind r d p) k small (behind-le r d p k small h)

-- If a limit of queries a second is set, then whatever rounds do_send went through from its start,
-- the rounds that follow inside the slice of one second that it is in send no more queries than the
-- limit, together with those that it has counted in this slice.
pub paced-Limited :
    (r : Rate) (start : ℕ) (before after : List Round)
    → 0 < r.max_qps
    → r.max_qps < 2 ^ 32
    → All (InSlice (paced r before (pace_start start)).1) after
    → let p = (paced r before (pace_start start)).1 in (paced r after p).0 + p.q_sent ≤ r.max_qps
paced-Limited r start before after k small all =
    paced-le r after (paced r before (pace_start start)).1 _ k small
      (paced-Keeps r before (pace_start start) k small (omega arith)) refl all
