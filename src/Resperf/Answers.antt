-- ===== src/Resperf/Answers.antt =====
-- src/resperf.c: responses, timeouts and the rounds of main() keep the balance.
use dnsperf.Common.{
  ℕ, zero, suc, ◌+◌, ◌*◌, ◌%◌, ◌^◌, ◌<◌, ◌≡◌, refl, ◌∙◌, true, false, not, ◌&&◌, ◌||◌, Option, none,
  some, List, [], ◌∷◌, arith, ltb, leb, if◌then◌else◌, length, get_or,
}
use dnsperf.Common.{if_cases, length-set, no_more}
use dnsperf.Links.{tail?}
use dnsperf.Perf.{add64, sub64}
use dnsperf.Perf.Batch.{sum-set}
use dnsperf.Resperf.{
  Config, State, QueryList, Phase, ramp, sustain, wait, instanding, outstanding, to_instanding,
}
use dnsperf.Resperf.Partition.{to_instanding-IsPartition, tail-Names, length-to_instanding}
use dnsperf.Resperf.Balance.{IsBalanced, same-IsPartition, rest-IsBalanced, do_one_line-IsBalanced}
use dnsperf.Resperf.Send.{Line, success, refused, fatal, Network}
use dnsperf.Resperf.Receive.{
  complete, try_process_response, RecvResult, try_again, failed, got, is_outstanding, retire_loop,
  retire_old_queries,
}
use dnsperf.Resperf.Round.{
  enter_sustain_phase, enter_wait_phase, is_empty, next_phase, switch_phase, should_send, is_behind,
  after_line, send_part, send_in, responses, finish_round, Turn, more, ended, died, answer, round,
}

-- A query that a response or a timeout may end.
abbrev IsOpen : Config → State → ℕ → Type 0
IsOpen c s q = (q < c.max_outstanding) × ((s.queries q).list ≡ outstanding)

complete-IsBalanced :
    (c : Config) (idx rcode : ℕ) (s : State)
    → rcode < 16
    → IsOpen c s idx
    → IsBalanced c s
    → IsBalanced c (complete c idx rcode s)
unfolding complete
complete-IsBalanced c idx rcode s small (low, open_now) v =
    let shorter = length-to_instanding c.max_outstanding s idx v.partition low open_now in
    record {
      partition =
          same-IsPartition c.max_outstanding (to_instanding s idx) _ refl refl refl
            (to_instanding-IsPartition c.max_outstanding s idx low open_now v.partition);
      held = omega (arith, shorter, v.held);
      balance = omega (arith, shorter, v.balance);
      sixteen = length-set s.rcodecounts rcode _ ∙ v.sixteen;
      together = omega (arith, sum-set s.rcodecounts rcode (omega (arith, v.sixteen)), v.together);
    }

-- What is left of a step that may end the process.
abbrev pub Keeps : Config → Option State → Type 0
Keeps c none = Unit {0}
Keeps c (some s) = IsBalanced c s

pub try_process_response-Keeps :
    (c : Config) (sockindex : ℕ) (r : RecvResult) (s : State)
    → IsBalanced c s
    → Keeps c (try_process_response c sockindex r s)
unfolding try_process_response
try_process_response-Keeps c sockindex try_again s v = v
try_process_response-Keeps c sockindex failed s v = tt
try_process_response-Keeps c sockindex (got n packet) s v =
    if_cases (Keeps c) (ltb n 4) _ _ (λ _. v)
      (λ _.
        if_cases (Keeps c) (leb c.max_outstanding idx || not (is_outstanding (s.queries idx).list))
          _ _ (λ _. v)
          (λ e.
            complete-IsBalanced c idx _ s (omega arith)
              (low e, open_now (s.queries idx).list (ground arith)) v))
  where
    idx : ℕ
    idx = ((get_or packet 0 0 * 256 + get_or packet 1 0) * c.nsocks + sockindex) % 2 ^ 32

    low :
        (leb c.max_outstanding idx || not (is_outstanding (s.queries idx).list)) ≡ false
        → idx < c.max_outstanding
    low e = ground arith

    open_now : (l : QueryList) → is_outstanding l ≡ true → l ≡ outstanding
    open_now instanding e = cc
    open_now outstanding e = refl

retire_loop-IsBalanced :
    (c : Config) (f : ℕ) (s : State) → IsBalanced c s → IsBalanced c (retire_loop c f s)
unfolding retire_loop
retire_loop-IsBalanced c zero s v = v
retire_loop-IsBalanced c (suc f) s v =
    go (tail? s.outstanding_list) refl (retire_loop-IsBalanced c f)
  where
    retired : ℕ → State
    retired q =
        let s' = to_instanding s q in
        record s' {
          num_queries_outstanding = sub64 s'.num_queries_outstanding 1;
          num_queries_timed_out = add64 s'.num_queries_timed_out 1;
        }

    retired-IsBalanced : (q : ℕ) → IsOpen c s q → IsBalanced c (retired q)
    retired-IsBalanced q (low, open_now) =
        let shorter = length-to_instanding c.max_outstanding s q v.partition low open_now in
        record {
          partition =
              same-IsPartition c.max_outstanding (to_instanding s q) _ refl refl refl
                (to_instanding-IsPartition c.max_outstanding s q low open_now v.partition);
          held = omega (arith, shorter, v.held);
          balance = omega (arith, shorter, v.balance);
          sixteen = v.sixteen;
          together = v.together;
        }

    go :
        (o : Option ℕ)
        → tail? s.outstanding_list ≡ o
        → ((s' : State) → IsBalanced c s' → IsBalanced c (retire_loop c f s'))
        → IsBalanced c (
            let r : State = elim o [
              | none ↦ s
              | some q ↦
                  let rest = retire_loop c f (retired q) in
                  if ltb (sub64 s.time_now (s.queries q).sent_timestamp) c.query_timeout
                  then s
                  else rest
            ] in
            r)
    go none e ih = v
    go (some q) e ih =
        if_cases (IsBalanced c)
          (ltb (sub64 s.time_now (s.queries q).sent_timestamp) c.query_timeout) _ _ (λ _. v)
          (λ _. ih _ (retired-IsBalanced q (tail-Names c.max_outstanding s q v.partition e)))

pub retire_old_queries-IsBalanced :
    (c : Config) (s : State) → IsBalanced c s → IsBalanced c (retire_old_queries c s)
unfolding retire_old_queries
retire_old_queries-IsBalanced c s v = retire_loop-IsBalanced c (length s.outstanding_list) s v

wait-IsBalanced : (c : Config) (s : State) → IsBalanced c s → IsBalanced c (enter_wait_phase s)
unfolding enter_wait_phase
wait-IsBalanced c s v =
    rest-IsBalanced c s s.input wait s.time_now s.sustain_phase_began s.time_now s.buckets v

sustain-IsBalanced :
    (c : Config) (s : State) → IsBalanced c s → IsBalanced c (enter_sustain_phase s)
unfolding enter_sustain_phase
sustain-IsBalanced c s v =
    rest-IsBalanced c s s.input sustain s.time_now s.time_now s.wait_phase_began s.buckets v

switch_phase-Keeps : (c : Config) (s : State) → IsBalanced c s → Keeps c (switch_phase c s)
unfolding switch_phase
switch_phase-Keeps c s v = go s.phase
  where
    since : ℕ
    since = sub64 s.time_now c.time_of_program_start

    go : (p : Phase) → Keeps c (next_phase c since p s)
    go ramp =
        if_cases (IsBalanced c) (leb c.ramp_time since) _ _ (λ _. sustain-IsBalanced c s v) (λ _. v)
    go sustain =
        if_cases (IsBalanced c) (leb c.traffic_time since) _ _ (λ _. wait-IsBalanced c s v) (λ _. v)
    go wait =
        if_cases (Keeps c) (leb c.end_time since || is_empty s.outstanding_list) _ _ (λ _. tt)
          (λ _. v)

after_line-Keeps : (c : Config) (r : Line × State) → IsBalanced c r.1 → Keeps c (after_line c r)
unfolding after_line
after_line-Keeps c (success, s) v =
    rest-IsBalanced c s s.input s.phase s.time_now s.sustain_phase_began s.wait_phase_began _ v
after_line-Keeps c (refused no_more, s) v = wait-IsBalanced c s v
after_line-Keeps c (refused _, s) v = v
after_line-Keeps c (fatal, s) v = tt

send_part-Keeps :
    (c : Config) (net : Network) (scheduled : ℕ) (s : State)
    → IsBalanced c s
    → Keeps c (send_part c net scheduled s)
unfolding send_part
send_part-Keeps c net scheduled s v =
    if_cases (Keeps c) (ltb 0 send && ltb send (2 ^ 31)) _ _
      (λ _. after_line-Keeps c _ (do_one_line-IsBalanced c net _ started)) (λ _. started)
  where
    send : ℕ
    send = should_send scheduled s

    started : IsBalanced c (if is_behind c send then enter_wait_phase s else s)
    started = if_cases (IsBalanced c) (is_behind c send) _ _ (λ _. wait-IsBalanced c s v) (λ _. v)

send_in-Keeps :
    (c : Config) (net : Network) (scheduled : ℕ) (p : Phase) (s : State)
    → IsBalanced c s
    → Keeps c (send_in p c net scheduled s)
send_in-Keeps c net scheduled ramp s v = send_part-Keeps c net scheduled s v
send_in-Keeps c net scheduled sustain s v = send_part-Keeps c net scheduled s v
send_in-Keeps c net scheduled wait s v = v

abbrev KeepsPair : Config → Option (State × ℕ) → Type 0
KeepsPair c none = Unit {0}
KeepsPair c (some r) = IsBalanced c r.0

responses-Keeps :
    (c : Config) (sock : ℕ) (rs : List RecvResult) (s : State)
    → IsBalanced c s
    → KeepsPair c (responses c sock rs s)
unfolding responses
responses-Keeps c sock [] s v = v
responses-Keeps c sock (r ∷ rs) s v =
    go (try_process_response c sock r s) (try_process_response-Keeps c sock r s v)
      (responses-Keeps c (if leb c.nsocks (sock + 1) then 0 else sock + 1) rs)
  where
    next : ℕ
    next = if leb c.nsocks (sock + 1) then 0 else sock + 1

    go :
        (o : Option State)
        → Keeps c o
        → ((s' : State) → IsBalanced c s' → KeepsPair c (responses c next rs s'))
        → KeepsPair c (
            let r : Option (State × ℕ) = elim o [
              | none ↦ none
              | some s' ↦ responses c next rs s'
            ] in
            r)
    go none k ih = tt
    go (some s') k ih = ih s' k

-- The state behind a round, if the process goes on or ends its loop.
abbrev pub KeepsTurn : Config → Turn → Type 0
KeepsTurn c (more r) = IsBalanced c r.0
KeepsTurn c (ended s) = IsBalanced c s
KeepsTurn c died = Unit {0}

answer-Keeps :
    (c : Config) (now : ℕ) (o : Option (State × ℕ)) → KeepsPair c o → KeepsTurn c (answer c now o)
unfolding finish_round
answer-Keeps c now none k = tt
answer-Keeps c now (some (s, sock)) k =
    let s' = retire_old_queries c s in
    rest-IsBalanced c s' s'.input s'.phase now s'.sustain_phase_began s'.wait_phase_began s'.buckets
      (retire_old_queries-IsBalanced c s k)

-- Each round of the loop of main() keeps the balance, whatever the sockets, the data file and the
-- clock answer: each query stands in exactly the list that it names; the queries that were sent are
-- those that were answered, those that timed out and those that are outstanding; and the counters of
-- the rcodes add up to the responses, in the arithmetic of uint64_t.
pub round-Keeps :
    (c : Config) (net : Network) (scheduled : ℕ) (received : List RecvResult) (now sock : ℕ)
    (s : State)
    → IsBalanced c s
    → KeepsTurn c (round c net scheduled received now (s, sock))
unfolding round
round-Keeps c net scheduled received now sock s v = go (switch_phase c s) (switch_phase-Keeps c s v)
  where
    sent_part :
        (s₁ : State) (o : Option State)
        → Keeps c o
        → KeepsTurn c (
            let r : Turn = elim o [
              | none ↦ died
              | some s₂ ↦ answer c now (responses c sock received s₂)
            ] in
            r)
    sent_part s₁ none k = tt
    sent_part s₁ (some s₂) k = answer-Keeps c now _ (responses-Keeps c sock received s₂ k)

    go :
        (o : Option State)
        → Keeps c o
        → KeepsTurn c (
            let r : Turn = elim o [
              | none ↦ ended s
              | some s₁ ↦ elim (send_in s₁.phase c net scheduled s₁) [
                | none ↦ died
                | some s₂ ↦ answer c now (responses c sock received s₂)
              ]
            ] in
            r)
    go none k = v
    go (some s₁) k = sent_part s₁ _ (send_in-Keeps c net scheduled s₁.phase s₁ k)
