-- ===== src/Resperf/Balance.antt =====
-- src/resperf.c: what holds of the lists and the counters of a run, and that each step keeps it.
use dnsperf.Common.{
  Bytes, ℕ, zero, suc, ◌+◌, ◌%◌, ◌^◌, ◌<◌, ◌≡◌, refl, ◌∙◌, true, List, [], ◌∷◌, arith, ◌==◌,
  if◌then◌else◌, length, failure, Outcome, ok, err, abort, stuck,
}
use dnsperf.Common.{if_cases, no_more}
use dnsperf.Datafile.{Datafile}
use dnsperf.Datafile.Runs.{next}
use dnsperf.Buffer.{Buffer, init}
use dnsperf.Perf.Batch.{sum}
use dnsperf.Resperf.{
  Config, State, QueryInfo, Phase, Bucket, instanding, outstanding, update, to_outstanding,
}
use dnsperf.Resperf.Partition.{
  IsPartition, to_outstanding-IsPartition, head-Names, update-IsPartition,
}
use dnsperf.Resperf.Send.{
  Ready, ready, not_ready, ready_failed, Sent, sent, in_progress, send_failed, Line, refused,
  Network, sock_of, count_sent, clear_inprogress, Settled, at, stopped, out_of_fuel, settle_loop,
  send_packet, send_request, send_line, send_query, send_settled, do_one_line, line_size,
}

-- The lists hold each query once, and the counters agree with the lists and with each other, in the
-- arithmetic of uint64_t.
pub record IsBalanced (c : Config) (s : State) : Type 0 where
  pub partition : IsPartition c.max_outstanding s
  pub held : s.num_queries_outstanding % 2 ^ 64 ≡ length s.outstanding_list % 2 ^ 64
  pub balance :
      s.num_queries_sent % 2 ^ 64
      ≡ (s.num_responses_received + s.num_queries_timed_out + length s.outstanding_list) % 2 ^ 64
  pub sixteen : length s.rcodecounts ≡ 16
  pub together : sum s.rcodecounts % 2 ^ 64 ≡ s.num_responses_received % 2 ^ 64

pub same-IsPartition :
    (n : ℕ) (s s' : State)
    → s'.queries ≡ s.queries
    → s'.instanding_list ≡ s.instanding_list
    → s'.outstanding_list ≡ s.outstanding_list
    → IsPartition n s
    → IsPartition n s'
same-IsPartition n s s' e f g inv instanding p = rw (e, f) (inv instanding p)
same-IsPartition n s s' e f g inv outstanding p = rw (e, g) (inv outstanding p)

-- The fields that the balance does not read.
pub rest-IsBalanced :
    (c : Config) (s : State) (input : Datafile) (phase : Phase) (now sustained waited : ℕ)
    (buckets : List Bucket)
    → IsBalanced c s
    → IsBalanced c (record s {
      input = input;
      phase = phase;
      time_now = now;
      sustain_phase_began = sustained;
      wait_phase_began = waited;
      buckets = buckets;
    })
rest-IsBalanced c s input phase now sustained waited buckets v = record {
  partition = same-IsPartition c.max_outstanding s _ refl refl refl v.partition;
  held = v.held;
  balance = v.balance;
  sixteen = v.sixteen;
  together = v.together;
}

update-IsBalanced :
    (c : Config) (s : State) (q : ℕ) (info : QueryInfo)
    → info.list ≡ (s.queries q).list
    → IsBalanced c s
    → IsBalanced c (update s q info)
unfolding update
update-IsBalanced c s q info e v = record {
  partition = update-IsPartition c.max_outstanding s q info e v.partition;
  held = v.held;
  balance = v.balance;
  sixteen = v.sixteen;
  together = v.together;
}

-- A query that is free to be sent.
abbrev IsFree : Config → State → ℕ → Type 0
IsFree c s q = (q < c.max_outstanding) × ((s.queries q).list ≡ instanding)

update-IsFree :
    (c : Config) (s : State) (q : ℕ) (info : QueryInfo)
    → info.list ≡ (s.queries q).list
    → IsFree c s q
    → IsFree c (update s q info) q
unfolding update
update-IsFree c s q info e (low, free) =
    let same : q == q ≡ true = ground arith in (low, rw (same) (e ∙ free))

count_sent-IsBalanced :
    (c : Config) (s : State) (q : ℕ) → IsFree c s q → IsBalanced c s → IsBalanced c (count_sent s q)
unfolding count_sent update
count_sent-IsBalanced c s q (low, free) v = record {
  partition =
      same-IsPartition c.max_outstanding (to_outstanding s q) _ refl refl refl
        (to_outstanding-IsPartition c.max_outstanding s q low free v.partition);
  held = omega (arith, v.held);
  balance = omega (arith, v.balance);
  sixteen = v.sixteen;
  together = v.together;
}

clear_inprogress-IsBalanced :
    (c : Config) (s : State) (q : ℕ) → IsBalanced c s → IsBalanced c (clear_inprogress s q)
unfolding clear_inprogress
clear_inprogress-IsBalanced c s q v = update-IsBalanced c s q _ refl v

clear_inprogress-IsFree :
    (c : Config) (s : State) (q : ℕ) → IsFree c s q → IsFree c (clear_inprogress s q) q
unfolding clear_inprogress
clear_inprogress-IsFree c s q free = update-IsFree c s q _ refl free

-- The end of the loop over the queries in progress: a query that is free, or a code.
abbrev Found : Config → Settled × State → Type 0
Found c (at q k, s) = IsBalanced c s × IsFree c s q
Found c (stopped e, s) = IsBalanced c s
Found c (out_of_fuel, s) = IsBalanced c s

settle_loop-Found :
    (c : Config) (sockready : ℕ → ℕ → Ready) (f k : ℕ) (s : State)
    → IsBalanced c s
    → Found c (settle_loop sockready f k s)
unfolding settle_loop
settle_loop-Found c sockready zero k s v = v
settle_loop-Found c sockready (suc f) k s v =
    go s.instanding_list refl (settle_loop-Found c sockready f (k + 1))
  where
    go :
        (xs : List ℕ)
        → s.instanding_list ≡ xs
        → ((s' : State) → IsBalanced c s' → Found c (settle_loop sockready f (k + 1) s'))
        → Found c (
            let r : Settled × State = elim xs [
              | [] ↦ (stopped no_more, s)
              | q ∷ _ ↦
                  let moved =
                    settle_loop sockready f (k + 1) (count_sent (clear_inprogress s q) q) in
                  if (s.queries q).is_inprogress
                  then (elim (sockready q k) [
                    | ready_failed ↦ (stopped failure, s)
                    | ready ↦ moved
                    | not_ready ↦ moved
                  ])
                  else (at q k, s)
            ] in
            r)
    go [] e ih = v
    go (q ∷ xs) e ih =
        let free = head-Names c.max_outstanding s q xs v.partition e in
        if_cases (Found c) (s.queries q).is_inprogress _ _ (λ _. answered q free (sockready q k))
          (λ _. (v, free))
      where
        again :
            (q : ℕ)
            → IsFree c s q
            → Found c (settle_loop sockready f (k + 1) (count_sent (clear_inprogress s q) q))
        again q free = ih _ (
            count_sent-IsBalanced c (clear_inprogress s q) q (clear_inprogress-IsFree c s q free)
              (clear_inprogress-IsBalanced c s q v))

        answered :
            (q : ℕ)
            → IsFree c s q
            → (r : Ready)
            → Found c (
                let moved = settle_loop sockready f (k + 1) (count_sent (clear_inprogress s q) q) in
                let a : Settled × State = elim r [
                  | ready_failed ↦ (stopped failure, s)
                  | ready ↦ moved
                  | not_ready ↦ moved
                ] in
                a)
        answered q free ready = again q free
        answered q free not_ready = again q free
        answered q free ready_failed = v

send_packet-IsBalanced :
    (c : Config) (result : Sent) (q : ℕ) (s : State)
    → IsFree c s q
    → IsBalanced c s
    → IsBalanced c (send_packet result q s).1
unfolding send_packet
send_packet-IsBalanced c sent q s free v =
    count_sent-IsBalanced c _ q (update-IsFree c s q _ refl free) (update-IsBalanced c s q _ refl v)
send_packet-IsBalanced c in_progress q s free v =
    update-IsBalanced c _ q _ refl (update-IsBalanced c s q _ refl v)
send_packet-IsBalanced c send_failed q s free v = update-IsBalanced c s q _ refl v

send_request-IsBalanced :
    (c : Config) (request : Outcome Buffer) (sendto : Bytes → Sent) (q : ℕ) (s : State)
    → IsFree c s q
    → IsBalanced c s
    → IsBalanced c (send_request request sendto q s).1
unfolding send_request
send_request-IsBalanced c (ok msg) sendto q s free v =
    send_packet-IsBalanced c (sendto msg.bytes) q s free v
send_request-IsBalanced c (err e) sendto q s free v = v
send_request-IsBalanced c abort sendto q s free v = v
send_request-IsBalanced c stuck sendto q s free v = v

send_line-IsBalanced :
    (c : Config) (net : Network) (line : Outcome Buffer) (q : ℕ) (s : State)
    → IsFree c s q
    → IsBalanced c s
    → IsBalanced c (send_line c net line q s).1
unfolding send_line
send_line-IsBalanced c net (ok lines) q s free v =
    send_request-IsBalanced c _ (net.sendto (sock_of c q)) q s free v
send_line-IsBalanced c net (err e) q s free v = v
send_line-IsBalanced c net abort q s free v = v
send_line-IsBalanced c net stuck q s free v = v

send_query-IsBalanced :
    (c : Config) (net : Network) (q k : ℕ) (s : State)
    → IsFree c s q
    → IsBalanced c s
    → IsBalanced c (send_query c net q k s).1
unfolding send_query
send_query-IsBalanced c net q k s free v = go (net.sockready (sock_of c q) k)
  where
    line : Outcome Buffer
    line = (next net.system s.input (init line_size)).0

    input : Datafile
    input = (next net.system s.input (init line_size)).1

    go :
        (r : Ready)
        → IsBalanced c
            (let a : Line × State = elim r [
              | ready ↦ send_line c net line q (record s { input = input })
              | not_ready ↦ (refused failure, s)
              | ready_failed ↦ (refused failure, s)
            ] in
              a).1
    go ready = send_line-IsBalanced c net line q _ free (
        rest-IsBalanced c s input s.phase s.time_now s.sustain_phase_began s.wait_phase_began
          s.buckets v)
    go not_ready = v
    go ready_failed = v

send_settled-IsBalanced :
    (c : Config) (net : Network) (r : Settled × State)
    → Found c r
    → IsBalanced c (send_settled c net r).1
unfolding send_settled
send_settled-IsBalanced c net (at q k, s) (v, free) = send_query-IsBalanced c net q k s free v
send_settled-IsBalanced c net (stopped e, s) v = v
send_settled-IsBalanced c net (out_of_fuel, s) v = v

pub do_one_line-IsBalanced :
    (c : Config) (net : Network) (s : State) → IsBalanced c s → IsBalanced c (do_one_line c net s).1
unfolding do_one_line
do_one_line-IsBalanced c net s v =
    send_settled-IsBalanced c net _
      (settle_loop-Found c (λ q. net.sockready (sock_of c q)) (length s.instanding_list + 1) 0 s v)
