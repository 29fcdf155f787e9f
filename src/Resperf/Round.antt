-- ===== src/Resperf/Round.antt =====
-- src/resperf.c, the loop of main().
use dnsperf.Common.{
  ℕ, ◌+◌, ◌%◌, ◌^◌, Bool, true, false, not, ◌&&◌, ◌||◌, Option, none, some, List, [], ◌∷◌, ltb, leb,
  ◌==◌, if◌then◌else◌,
}
use dnsperf.Perf.{sub64}
use dnsperf.Common.{no_more}
use dnsperf.Resperf.{Config, State, Phase, ramp, sustain, wait, bucket_index, in_bucket}
use dnsperf.Resperf.Send.{Network, Line, success, refused, fatal, do_one_line}
use dnsperf.Resperf.Receive.{RecvResult, try_process_response, retire_old_queries}

unfoldable pub enter_sustain_phase : State → State
enter_sustain_phase s = record s { phase = sustain; sustain_phase_began = s.time_now }

unfoldable pub enter_wait_phase : State → State
enter_wait_phase s = record s { phase = wait; wait_phase_began = s.time_now }

abbrev pub is_empty : List ℕ → Bool
is_empty [] = true
is_empty (x ∷ xs) = false

-- The switch at the start of a round; `none` is the end of the loop.
abbrev pub next_phase : Config → ℕ → Phase → State → Option State
next_phase c since ramp s = some (if leb c.ramp_time since then enter_sustain_phase s else s)
next_phase c since sustain s = some (if leb c.traffic_time since then enter_wait_phase s else s)
next_phase c since wait s =
    if leb c.end_time since || is_empty s.outstanding_list then none else some s

unfoldable pub switch_phase : Config → State → Option State
unfolding enter_sustain_phase enter_wait_phase
switch_phase c s = next_phase c (sub64 s.time_now c.time_of_program_start) s.phase s

-- `should_send`, an int, as its 32 bits. num_scheduled computes in floats: what it gives in the state's
-- phase is the argument `scheduled`.
unfoldable pub should_send : ℕ → State → ℕ
should_send scheduled s = sub64 scheduled s.num_queries_sent % 2 ^ 32

-- max_fall_behind is unsigned, so that the comparison takes `should_send` for an unsigned number.
unfoldable pub is_behind : Config → ℕ → Bool
is_behind c send = not (c.max_fall_behind == 0) && leb c.max_fall_behind send

-- What follows a call of do_one_line. `none` is the end of the process.
unfoldable pub after_line : Config → Line × State → Option State
unfolding bucket_index enter_wait_phase
after_line c (success, s) =
    some (in_bucket c s.time_now (λ b. record b { queries = b.queries + 1 }) s)
after_line c (refused no_more, s) = some (enter_wait_phase s)
after_line c (refused e, s) = some s
after_line c (fatal, s) = none

-- The part of a round under `if (phase != PHASE_WAIT)`.
unfoldable pub send_part : Config → Network → ℕ → State → Option State
unfolding should_send is_behind enter_wait_phase after_line
send_part c net scheduled s =
    let send = should_send scheduled s in
    let s' = if is_behind c send then enter_wait_phase s else s in
    if ltb 0 send && ltb send (2 ^ 31) then after_line c (do_one_line c net s') else some s'

abbrev pub send_in : Phase → Config → Network → ℕ → State → Option State
send_in wait c net scheduled s = some s
send_in ramp c net scheduled s = send_part c net scheduled s
send_in sustain c net scheduled s = send_part c net scheduled s

-- The responses of a round: what perf_net_recv gives, socket after socket from `sock` on. The result
-- also has the next socket.
unfoldable pub responses : Config → ℕ → List RecvResult → State → Option (State × ℕ)
unfolding try_process_response
responses c sock [] s = some (s, sock)
responses c sock (r ∷ rs) s = elim (try_process_response c sock r s) [
  | none ↦ none
  | some s' ↦ responses c (if leb c.nsocks (sock + 1) then 0 else sock + 1) rs s'
]

-- The end of a round; `now` is the new time.
unfoldable pub finish_round : Config → ℕ → State × ℕ → State × ℕ
unfolding retire_old_queries
finish_round c now (s, sock) = (record (retire_old_queries c s) { time_now = now }, sock)

pub data Turn : Type 0 where
  more : State × ℕ → Turn
  ended : State → Turn
  died : Turn

abbrev pub answer : Config → ℕ → Option (State × ℕ) → Turn
answer c now none = died
answer c now (some r) = more (finish_round c now r)

-- A round of the loop. `scheduled` is what num_scheduled gives.
unfoldable pub round : Config → Network → ℕ → List RecvResult → ℕ → State × ℕ → Turn
unfolding switch_phase send_part responses finish_round
round c net scheduled received now (s, sock) = elim (switch_phase c s) [
  | none ↦ ended s
  | some s₁ ↦ elim (send_in s₁.phase c net scheduled s₁) [
    | none ↦ died
    | some s₂ ↦ answer c now (responses c sock received s₂)
  ]
]
