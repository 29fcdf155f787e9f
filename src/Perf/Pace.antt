-- ===== src/Perf/Pace.antt =====
-- src/dnsperf.c, do_send: how many queries a second are sent (the option -Q).
use dnsperf.Common.{
  ℕ, suc, ◌/◌, Bool, true, false, not, ◌&&◌, Option, none, some, List, [], ◌∷◌, ltb, leb, ◌==◌,
  if◌then◌else◌,
}
use dnsperf.Perf.{add64, sub64}

abbrev pub million : ℕ
million = 1000000

-- The variables of do_send that the limit reads.
pub record Pace : Type 0 where
  pub req_time : ℕ
  pub q_sent : ℕ
  pub q_slice : ℕ

-- max_qps of the thread, and qps_threshold_wait.
pub record Rate : Type 0 where
  pub max_qps : ℕ
  pub threshold_wait : ℕ

-- The round goes on to a query; or it starts again, behind a sleep of so many microseconds or none.
pub data Turn : Type 0 where
  go_on : Turn
  again : Option ℕ → Turn

-- The variables in front of the loop.
abbrev pub pace_start : ℕ → Pace
pace_start now = record { req_time = now; q_sent = 0; q_slice = add64 now million }

abbrev pub q_step : Rate → ℕ
q_step r = if ltb 0 r.max_qps then million / r.max_qps else 0

unfoldable pub sleep : Rate → Bool → ℕ → Option ℕ
sleep r any_inprogress wait_us =
    if any_inprogress
    then none
    else if not (r.threshold_wait == 0) && ltb r.threshold_wait wait_us
    then some (sub64 wait_us r.threshold_wait)
    else none

-- The time slice of one second.
unfoldable pub slice : ℕ → Pace → Pace
slice now p =
    if leb p.q_slice now
    then record { req_time = now; q_sent = 0; q_slice = add64 p.q_slice million }
    else p

-- The limit of queries in a slice, and the stepping inside it.
unfoldable pub step : Rate → Bool → ℕ → Pace → Turn × Pace
unfolding sleep
step r any_inprogress now p =
    if leb r.max_qps p.q_sent
    then (again (sleep r any_inprogress (sub64 p.q_slice now)), p)
    else if ltb now p.req_time
    then (again (sleep r any_inprogress (sub64 p.req_time now)), p)
    else (go_on, record p { req_time = add64 p.req_time (q_step r) })

unfoldable pub limit_rate : Rate → Bool → ℕ → Pace → Turn × Pace
unfolding slice step
limit_rate r any_inprogress now p =
    if ltb 0 r.max_qps then step r any_inprogress now (slice now p) else (go_on, p)

-- A round: what it finds, and whether its query is sent.
pub record Round : Type 0 where
  pub now : ℕ
  pub any_inprogress : Bool
  pub is_sent : Bool

abbrev pub goes_on : Turn → Bool
goes_on go_on = true
goes_on (again w) = false

unfoldable pub counts : Rate → Round → Pace → Bool
unfolding limit_rate
counts r d p = goes_on (limit_rate r d.any_inprogress d.now p).0 && d.is_sent

-- The rounds of a run: how many queries are sent, and the variables.
unfoldable pub paced : Rate → List Round → Pace → ℕ × Pace
unfolding limit_rate counts
paced r [] p = (0, p)
paced r (d ∷ ds) p =
    let p' = (limit_rate r d.any_inprogress d.now p).1 in
    let p'' = record p' { q_sent = if counts r d p then add64 p'.q_sent 1 else p'.q_sent } in
    let (k, last) = paced r ds p'' in (if counts r d p then suc k else k, last)
