-- ===== src/Opt.antt =====
-- src/opt.c: numbers, and the list of messages to suppress.
use dnsperf.Common.{
  ℕ, zero, suc, ◌^◌, Bool, true, false, not, ◌&&◌, ◌||◌, Option, none, some, [], ◌∷◌, leb, ◌==◌,
  if◌then◌else◌, Bytes, length, failure, Outcome, ok, err, stuck, ◌>>=◌,
}
use dnsperf.Libc.{codes, strtoul}

-- parse_uint; `err failure` is the message and exit(1). An overflow of strtoul() gives ULONG_MAX,
-- which is above UINT32_MAX.
unfoldable pub parse_uint : Bytes → ℕ → ℕ → Outcome ℕ
unfolding strtoul
parse_uint str min max =
    let (val, rest) = strtoul 10 str in
    if length str == 0 || (not (length rest == 0) || leb (2 ^ 32) val)
    then err failure
    else if leb min val && leb val max
    then ok val
    else err failure

pub record Suppress : Type 0 where
  pub timeouts : Bool
  pub congestion : Bool
  pub sendfailed : Bool
  pub sockready : Bool
  pub unexpected : Bool

-- strncmp(val, name, len) == 0 for `len` characters of `val`.
unfoldable pub is_start : Bytes → Bytes → Bool
is_start [] name = true
is_start (c ∷ cs) [] = false
is_start (c ∷ cs) (d ∷ ds) = c == d && is_start cs ds

-- strchr(val, ','): the entry, and what follows its comma.
unfoldable pub split_comma : Bytes → Bytes × Option Bytes
split_comma [] = ([], none)
split_comma (c ∷ cs) =
    let (entry, next) = split_comma cs in if c == b',' then ([], some cs) else (c ∷ entry, next)

-- One entry.
unfoldable pub suppress_one : Bytes → Suppress → Outcome Suppress
unfolding is_start
suppress_one e s =
    if is_start e (codes "timeouts")
    then ok (record s { timeouts = true })
    else if is_start e (codes "congestion")
    then ok (record s { congestion = true })
    else if is_start e (codes "sendfailed")
    then ok (record s { sendfailed = true })
    else if is_start e (codes "sockready")
    then ok (record s { sockready = true })
    else if is_start e (codes "unexpected")
    then ok (record s { unexpected = true })
    else err failure

-- The loop, on fuel for the characters.
unfoldable pub suppress_loop : ℕ → Bytes → Suppress → Outcome Suppress
unfolding split_comma suppress_one
suppress_loop f [] s = ok s
suppress_loop zero (c ∷ cs) s = stuck
suppress_loop (suc f) (c ∷ cs) s =
    let (entry, next) = split_comma (c ∷ cs) in
    suppress_one entry s >>= λ s'. elim next [ none ↦ ok s' | some v ↦ suppress_loop f v s' ]

-- perf_opt_parse_suppress
unfoldable pub parse_suppress : Bytes → Outcome Suppress
unfolding suppress_loop
parse_suppress val = suppress_loop (length val) val (record {
  timeouts = false;
  congestion = false;
  sendfailed = false;
  sockready = false;
  unexpected = false;
})
