-- ===== src/Tests/Ramp.antt =====
-- Runs of resperf's rounds, and the theorems on them.
use dnsperf.Resperf.Send.{request_of}
use dnsperf.Common.{ok, ◌++◌}
use dnsperf.Common.{◌++◌}
use dnsperf.Resperf.Send.{sock_of}
use dnsperf.Common.{◌-◌, ◌^◌, ◌<◌, ◌≡◌, refl, true, false, none, some, [], ◌∷◌, arith, Bytes}
use dnsperf.Buffer.{init, put_uint8, put_uint16, put_mem, increment}
use dnsperf.Libc.{codes, c_string, token, behind_token}
use dnsperf.Datafile.{open_file, text_query, set_maxruns}
use dnsperf.Datafile.Runs.{next}
use dnsperf.Dns.Name.{dname_from_string, name_loop, put_label}
use dnsperf.Dns.Qtype.{qtype_from_string}
use dnsperf.Dns.Query.{build_query}
use dnsperf.Dns.Request.{build_request}
use dnsperf.Tests.Files.{system}
use dnsperf.Resperf.{Config, State, outstanding, bucket_index, update, to_outstanding}
use dnsperf.Resperf.Start.{
  Given, setup, init_queries, config, blank, WithinLimits, setup-IsBalanced,
}
use dnsperf.Resperf.Balance.{IsBalanced}
use dnsperf.Resperf.Send.{
  Network, Sent, sent, in_progress, ready, do_one_line, settle_loop, count_sent, clear_inprogress,
  send_settled, send_query, send_line, send_request, send_packet,
}
use dnsperf.Resperf.Receive.{got, complete, try_process_response}
use dnsperf.Resperf.Ids.{try_process_response-Finds}
use dnsperf.Resperf.Round.{round, send_part, enter_wait_phase}
use dnsperf.Resperf.Answers.{KeepsTurn, round-Keeps}
use dnsperf.Resperf.Limits.{bucket_index-lt, send_part-Overrun}

abbrev given : Given
given = record {
  max_outstanding = 3;
  nsocks = 1;
  query_timeout = 100;
  ramp_time = 1000;
  sustain_time = 0;
  wait_time = 50;
  bucket_interval = 500;
  max_fall_behind = 1000;
  reopen_datafile = true;
}

abbrev content : Bytes
content = codes "a A\n"

abbrev settings : Config
settings = config given 10

abbrev start : State
start =
    init_queries 3
      (blank (set_maxruns (open_file content text_query) (2 ^ 32 - 1)) settings.n_buckets 10)

started : setup given content 10 ≡ some (settings, start)
unfolding setup
started = refl

setup-IsBalanced_example : IsBalanced settings start × WithinLimits settings
setup-IsBalanced_example = setup-IsBalanced given content 10 settings start started

abbrev network : Sent → Network
network result = record {
  sockready = λ _ _. ready;
  sendto = λ _ _. result;
  system = system;
  hmac = λ xs. xs;
  time_signed = 0;
  options = record {
    edns = false;
    dnssec = false;
    is_update = false;
    tsigkey = none;
    edns_option = none;
  };
}

-- A packet that goes on its way later, and one call more: two queries are counted in one call.
two_at_once :
    (do_one_line settings
      (network sent)
      (do_one_line settings (network in_progress) start).1).1.num_queries_sent
    ≡ 2
unfolding do_one_line settle_loop count_sent clear_inprogress send_settled send_query send_line
    send_request send_packet request_of update to_outstanding next build_request build_query
    dname_from_string name_loop put_label qtype_from_string put_uint8 put_uint16 put_mem increment
    c_string token behind_token init open_file set_maxruns init_queries
two_at_once = refl

round-Keeps_example :
    KeepsTurn settings
      (round settings (network sent) 1 (got 4 (0 ∷ 0 ∷ 0 ∷ 3 ∷ []) ∷ []) 20 (start, 0))
round-Keeps_example =
    round-Keeps settings (network sent) 1 (got 4 (0 ∷ 0 ∷ 0 ∷ 3 ∷ []) ∷ []) 20 0 start
      setup-IsBalanced_example.0

bucket_index-lt_example : bucket_index settings 5 < settings.n_buckets
bucket_index-lt_example = bucket_index-lt settings 5 (omega arith)

-- Two queries are counted where one was scheduled.
abbrev overrun : State
overrun = record start { num_queries_sent = 2 }

send_part-Overrun_example :
    send_part settings (network sent) 1 overrun ≡ some (enter_wait_phase overrun)
send_part-Overrun_example =
    send_part-Overrun settings (network sent) 1 1 overrun refl (omega arith) (omega arith)
      (omega arith) (omega arith) (omega arith)

-- Three clients; query 7 has the id 2 and goes over socket 1.
abbrev three_clients : Config
three_clients = record settings { nsocks = 3; max_outstanding = 9 }

abbrev seven_out : State
seven_out = to_outstanding start 7

seven_out-Listed : (seven_out.queries 7).list ≡ outstanding
unfolding to_outstanding update
seven_out-Listed = refl

-- 65536 clients: their number times 65536 is 0 in an unsigned int.
too_many_clients : setup (record given { nsocks = 65536 }) content 10 ≡ none
unfolding setup
too_many_clients = refl

-- The request for "a A" as query 7: the id 2, the question, and nothing else.
abbrev request_seven : Bytes
request_seven = 0 ∷ 2 ∷ 1 ∷ 0 ∷ 0 ∷ 1 ∷ 0 ∷ 0 ∷ 0 ∷ 0 ∷ 0 ∷ 0 ∷ 1 ∷ 97 ∷ 0 ∷ 0 ∷ 1 ∷ 0 ∷ 1 ∷ []

seven_built :
    request_of three_clients (network sent) (codes "a A" ++ 0 ∷ []) 7
    ≡ ok (record { bytes = request_seven; cap = 512 })
unfolding request_of build_request build_query dname_from_string name_loop put_label
    qtype_from_string put_uint8 put_uint16 put_mem increment c_string token behind_token init
seven_built = refl

try_process_response-Finds_example :
    try_process_response three_clients
      (sock_of three_clients 7)
      (got 12 (0 ∷ 2 ∷ 129 ∷ 131 ∷ []))
      seven_out
    ≡ some (complete three_clients 7 3 seven_out)
try_process_response-Finds_example =
    try_process_response-Finds three_clients (network sent) (codes "a A" ++ 0 ∷ [])
      (record { bytes = request_seven; cap = 512 }) 7 12 (129 ∷ 131 ∷ []) seven_out (omega arith)
      (omega arith) (omega arith) (omega arith) seven_built (omega arith) seven_out-Listed
