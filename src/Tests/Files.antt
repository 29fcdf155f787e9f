-- ===== src/Tests/Files.antt =====
-- Runs of the reader of the data file, and the theorem on it.
use dnsperf.Common.{false}
use dnsperf.Common.{ℕ}
use dnsperf.Common.{All}
use dnsperf.Common.{
  if_true, ap, List, ◌≡◌, refl, none, some, [], ◌∷◌, ◌++◌, arith, leb, if◌then◌else◌, Bytes, eof,
  invalid_file, Outcome, ok, err,
}
use dnsperf.Buffer.{Buffer, init, put_uint8, put_mem}
use dnsperf.Libc.{codes}
use dnsperf.Datafile.{
  Datafile, System, text_query, tcp_wire_format, open_file, open_stream, reopen_file, compact, fill,
  read_more, set_maxruns,
}
use dnsperf.Datafile.Reader.{
  line_length, advance, is_wanted, line_loop, put_line, read_one_line, read_one_blob, preamble_loop,
  body_loop, take_blob,
}
use dnsperf.Datafile.Runs.{read_func, end_run, finish_record, finish_read, at_eof, next}
use dnsperf.Datafile.Valid.{IsValid, IsBounded, open_file-IsValid}
use dnsperf.Datafile.Keeps.{next-IsValid}
use dnsperf.Datafile.Reads.{IsReading}
use dnsperf.Datafile.AllRuns.{answers, next-Lines}
use dnsperf.Datafile.Pending.{shown}

-- A system whose read(2) fills the room as far as the file goes.
abbrev pub system : System
system = record { read = λ left room. some (if leb left room then left else room); wait = none }

system-IsBounded : IsBounded system
system-IsBounded left room n e = ground arith

abbrev two_lines : Bytes
two_lines = codes "; c\na A\n\nb A\n"

abbrev first_lines : Outcome Buffer × Datafile
first_lines = next system (open_file two_lines text_query) (init 9)

-- Comments and empty lines are passed over, the end of the text is the end of the run.
lines :
    (first_lines.0 ≡ ok (record { bytes = codes "a A" ++ 0 ∷ []; cap = 9 }))
    × (((next system first_lines.1 (init 9)).0
          ≡ ok (record { bytes = codes "b A" ++ 0 ∷ []; cap = 9 }))
        × ((next system (next system first_lines.1 (init 9)).1 (init 9)).0 ≡ err eof))
unfolding next read_func at_eof finish_read open_file init put_line line_loop fill compact
    line_length advance is_wanted put_mem put_uint8 read_one_line read_more end_run reopen_file
    finish_record
lines = (refl, (refl, refl))

-- The last line has no newline: a file has it, a stream loses it.
last_line :
    ((next system (open_file (codes "a A") text_query) (init 9)).0
      ≡ ok (record { bytes = codes "a A" ++ 0 ∷ []; cap = 9 }))
    × ((next system (open_stream (codes "a A") text_query) (init 9)).0 ≡ err invalid_file)
unfolding next read_func at_eof finish_read open_file open_stream init put_line line_loop fill
    compact line_length advance is_wanted put_mem put_uint8 read_one_line read_more end_run
    reopen_file finish_record
last_line = (refl, refl)

packet :
    (next system (open_file (0 ∷ 2 ∷ 7 ∷ 8 ∷ []) tcp_wire_format) (init 9)).0
    ≡ ok (record { bytes = 7 ∷ 8 ∷ []; cap = 9 })
unfolding next read_func at_eof finish_read open_file init fill compact preamble_loop body_loop
    take_blob put_mem read_one_blob read_more end_run reopen_file finish_record
packet = refl

next-IsValid_example : IsValid (next system (open_file two_lines text_query) (init 9)).1
next-IsValid_example =
    next-IsValid system (open_file two_lines text_query) (init 9) system-IsBounded
      (open_file-IsValid two_lines text_query)

-- Two runs through a file of four lines, two of which are wanted.
abbrev four_lines : List Bytes
four_lines = codes "; c" ∷ codes "a A" ∷ [] ∷ codes "b A" ∷ []

system-IsReading : IsReading system
system-IsReading = record {
  bounded = system-IsBounded;
  reads = λ left room more space. (if leb left room then left else room, (refl, ground arith));
  ends = λ room. ap some (if_true (leb 0 room) _ _ (ground arith));
  waits = refl;
}

next-Lines_example :
    answers system 3 5 (set_maxruns (open_file (codes "; c\na A\n\nb A\n") text_query) 2)
    ≡ shown 3 (codes "a ")
      ∷ shown 3 (codes "b ")
      ∷ shown 3 (codes "a ")
      ∷ shown 3 (codes "b ")
      ∷ err eof
      ∷ []
unfolding is_wanted
next-Lines_example =
    let plain_3 : All (λ (c : ℕ). false ≡ false) (0 ∷ 0 ∷ 0 ∷ []) = (refl, (refl, (refl, tt))) in
    next-Lines system 3 2 four_lines system-IsReading (ground arith) (ground arith) (ground arith)
      (
        (plain_3, omega arith),
        ((plain_3, omega arith), ((tt, omega arith), ((plain_3, omega arith), tt))),
      )
      (ground arith)
