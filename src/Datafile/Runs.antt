-- ===== src/Datafile/Runs.antt =====
-- src/datafile.c, perf_datafile_next: runs through the file.
use dnsperf.Common.{
  ℕ, zero, suc, ◌+◌, ◌%◌, ◌^◌, Bool, true, not, ◌&&◌, ltb, ◌==◌, if◌then◌else◌, Bytes, length, drop,
  eof, invalid_file, Outcome, ok, err, abort, stuck,
}
use dnsperf.Buffer.{Buffer, used_length}
use dnsperf.Libc.{codes, c_string, strncasecmp_eq}
use dnsperf.Datafile.{
  Datafile, Format, System, reopen_file, text_query, text_update, tcp_wire_format,
}
use dnsperf.Datafile.Reader.{read_one_line, read_one_blob}

-- `dfile->readfunc`, as perf_datafile_open sets it.
unfoldable pub read_func : System → Format → Datafile → Buffer → Outcome Buffer × Datafile
unfolding read_one_line read_one_blob
read_func sys text_query d lines = read_one_line sys d lines
read_func sys text_update d lines = read_one_line sys d lines
read_func sys tcp_wire_format d lines = read_one_blob sys d lines

-- strcasecmp(line, "send") == 0
unfoldable pub is_send : Bytes → Bool
unfolding c_string strncasecmp_eq
is_send line = length (c_string line) == 4 && strncasecmp_eq 4 (c_string line) (codes "send")

-- `nruns++` on an unsigned int.
abbrev pub next_run : Datafile → ℕ
next_run d = (d.nruns + 1) % 2 ^ 32

-- PERF_R_EOF ends a run.
unfoldable pub end_run : Datafile → Datafile
unfolding reopen_file
end_run d =
    let d' = record d { nruns = next_run d } in
    if d.maxruns == next_run d then d' else reopen_file d'

-- The lines of an update up to "send"; whatever ends it, the caller gets PERF_R_SUCCESS.
unfoldable pub update_loop : System → ℕ → Datafile → Buffer → Outcome Buffer × Datafile
unfolding read_func is_send end_run
update_loop sys zero d lines = (stuck, d)
update_loop sys (suc f) d lines =
    let (r, d') = read_func sys d.format d lines in
    elim r [
      | ok lines' ↦
          let more = update_loop sys f d' lines' in
          if is_send (drop (used_length lines) lines'.bytes) then (ok lines', d') else more
      | err eof ↦ (ok lines, end_run d')
      | err e ↦ (ok lines, d')
      | abort ↦ (abort, d')
      | stuck ↦ (stuck, d')
    ]

-- Behind a first successful read.
unfoldable pub finish_record : System → Format → Datafile → Buffer → Outcome Buffer × Datafile
unfolding update_loop
finish_record sys text_update d lines =
    update_loop sys (length d.content + length d.buf + 2) d lines
finish_record sys text_query d lines = (ok lines, d)
finish_record sys tcp_wire_format d lines = (ok lines, d)

unfoldable pub finish_read : System → Outcome Buffer × Datafile → Outcome Buffer × Datafile
unfolding finish_record
finish_read sys (ok lines, d) = finish_record sys d.format (record d { read_any = true }) lines
finish_read sys (err e, d) = (err e, d)
finish_read sys (abort, d) = (abort, d)
finish_read sys (stuck, d) = (stuck, d)

-- At the end of the file: the next run's first record, if there is a next run.
unfoldable pub at_eof : System → Datafile → Buffer → Outcome Buffer × Datafile
unfolding end_run read_func finish_read
at_eof sys d lines =
    if not d.read_any
    then (err invalid_file, d)
    else if d.maxruns == next_run d
    then (err eof, end_run d)
    else finish_read sys (read_func sys d.format (end_run d) lines)

-- perf_datafile_next
unfoldable pub next : System → Datafile → Buffer → Outcome Buffer × Datafile
unfolding read_func at_eof finish_read
next sys d lines =
    if ltb 0 d.maxruns && d.maxruns == d.nruns
    then (err eof, d)
    else (let (r, d') = read_func sys d.format d lines in
        elim r [ err eof ↦ at_eof sys d' lines | other ↦ finish_read sys (other, d') ])
