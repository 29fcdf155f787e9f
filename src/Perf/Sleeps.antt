-- ===== src/Perf/Sleeps.antt =====
-- src/dnsperf.c, do_send: the sleeps of the limit of queries a second, and that they end.
use dnsperf.Common.{
  ℕ, ◌+◌, ◌^◌, ◌≤◌, ◌<◌, ◌≡◌, ◌⊎◌, inl, inr, refl, sym, ap, ◌∙◌, Bool, false, not, ◌&&◌, Option,
  none, some, arith, ltb, leb, ◌==◌, if_cases, some_case, none-ne-some,
}
use dnsperf.Perf.{add64, sub64}
use dnsperf.Perf.Pace.{Pace, Rate, Turn, go_on, again, sleep, slice, step, limit_rate, million}

abbrev slept : Turn → Option ℕ
slept go_on = none
slept (again w) = w

sleep-lt : (r : Rate) (b : Bool) (u w : ℕ) → u < 2 ^ 64 → sleep r b u ≡ some w → w < u
unfolding sleep
sleep-lt r b u w small =
    if_cases (λ (o : Option ℕ). o ≡ some w → w < u) b _ _ (λ _ e. absurd (none-ne-some e))
      (λ _.
        if_cases (λ (o : Option ℕ). o ≡ some w → w < u)
          (not (r.threshold_wait == 0) && ltb r.threshold_wait u) _ _
          (λ long e. some_case (λ v. v < u) (ground arith) e) (λ _ e. absurd (none-ne-some e)))

-- In a new slice the round goes on.
new_slice-Goes :
    (r : Rate) (b : Bool) (now end : ℕ)
    → 0 < r.max_qps
    → (step r b now (record { req_time = now; q_sent = 0; q_slice = end })).0 ≡ go_on
unfolding step
new_slice-Goes r b now end limited =
    let space : leb r.max_qps 0 ≡ false = ground arith in
    let due : ltb now now ≡ false = ground arith in rw (space, due) refl

-- If a limit is set and the times are values of uint64_t, then a sleep of the limit ends before the
-- slice does or before the next query is due: no difference of times in front of it wraps around.
pub limit_rate-Wakes :
    (r : Rate) (b : Bool) (now : ℕ) (p : Pace) (w : ℕ)
    → 0 < r.max_qps
    → p.q_slice < 2 ^ 64
    → p.req_time < 2 ^ 64
    → (limit_rate r b now p).0 ≡ again (some w)
    → (now + w < p.q_slice) ⊎ (now + w < p.req_time)
unfolding limit_rate slice step
limit_rate-Wakes r b now p w limited small small' =
    if_cases Ends (ltb 0 r.max_qps) _ _
      (λ _.
        if_cases (λ (q : Pace). Ends (step r b now q)) (leb p.q_slice now) _ _
          (λ over e. absurd (
            none-ne-some (
              sym (ap slept (new_slice-Goes r b now (add64 p.q_slice million) limited))
              ∙ ap slept e)))
          (λ inside.
            if_cases Ends (leb r.max_qps p.q_sent) _ _
              (λ full e.
                inl
                  (ground (arith, sleep-lt r b (sub64 p.q_slice now) w (omega arith) (ap slept e))))
              (λ space.
                if_cases Ends (ltb now p.req_time) _ _
                  (λ early e. inr (
                    ground
                      (arith, sleep-lt r b (sub64 p.req_time now) w (omega arith) (ap slept e))))
                  (λ due e. absurd (none-ne-some (ap slept e))))))
      (λ none_set e. absurd (none-ne-some (ap slept e)))
  where
    Ends : Turn × Pace → Type 0
    Ends t = t.0 ≡ again (some w) → (now + w < p.q_slice) ⊎ (now + w < p.req_time)

-- If a limit is set, a round at or behind the end of the slice goes on to a query, whatever was
-- counted in the slice and whenever the next query was due.
pub limit_rate-Goes :
    (r : Rate) (b : Bool) (now : ℕ) (p : Pace)
    → 0 < r.max_qps
    → p.q_slice ≤ now
    → (limit_rate r b now p).0 ≡ go_on
unfolding limit_rate slice
limit_rate-Goes r b now p limited over =
    if_cases (λ (t : Turn × Pace). t.0 ≡ go_on) (ltb 0 r.max_qps) _ _
      (λ _.
        if_cases (λ (q : Pace). (step r b now q).0 ≡ go_on) (leb p.q_slice now) _ _
          (λ _. new_slice-Goes r b now (add64 p.q_slice million) limited)
          (λ inside. absurd (ground arith)))
      (λ _. refl)
