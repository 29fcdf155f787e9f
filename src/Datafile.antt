-- ===== src/Datafile.antt =====
-- src/datafile.c: the reader of the input file. `content` is the file, `unread` what lies behind the
-- descriptor's offset, and `buf` is databuf[0] to databuf[have - 1], so `have` is its length. The
-- terminating zero at databuf[have] is the end of `buf`. The lock is held for each call.
pub mod Reader
pub mod Runs
pub mod Valid
pub mod Keeps
pub mod Lines
pub mod Reads
pub mod FirstLine
pub mod Pending
pub mod Calls
pub mod AllRuns
use dnsperf.Common.{
  ℕ, zero, suc, ◌+◌, ◌-◌, ◌*◌, ◌/◌, ◌%◌, ◌^◌, ◌≤◌, ◌<◌, ◌≡◌, refl, sym, ap, ◌∙◌, ◌≢◌, ◌↔◌, ◌⊎◌, inl,
  inr, Bool, true, false, not, ◌&&◌, ◌||◌, Option, none, some, List, [], ◌∷◌, ◌++◌, map, arith, ltb,
  leb, ◌==◌, if◌then◌else◌, Bool-cases, is_digit, Bytes, length, length-append, get_or, set, take,
  drop, All, All-append, Code, failure, eof, invalid_file, no_space, Outcome, ok, err, abort, stuck,
  ◌>>=◌, bind-eq-ok,
}

pub data Format : Type 0 where
  text_query text_update tcp_wire_format : Format

pub record Datafile : Type 0 where
  pub content : Bytes
  pub unread : Bytes
  pub pipe_fd : Bool
  pub is_file : Bool
  pub size : ℕ
  pub at : ℕ
  pub buf : Bytes
  pub cached : Bool
  pub maxruns : ℕ
  pub nruns : ℕ
  pub read_any : Bool
  pub format : Format

-- What read(2) and the wait for a pipe answer. `read left room` is asked with `left` bytes in front
-- of the offset and room for `room`: the number of bytes read, or `none` for -1.
pub record System : Type 0 where
  pub read : ℕ → ℕ → Option ℕ
  pub wait : Option Code

-- sizeof(databuf)
abbrev pub databuf_size : ℕ
databuf_size = 65538

-- perf_datafile_open of a regular file, and of a stream.
unfoldable pub open_file : Bytes → Format → Datafile
open_file content format = record {
  content = content;
  unread = content;
  pipe_fd = false;
  is_file = true;
  size = length content;
  at = 0;
  buf = [];
  cached = false;
  maxruns = 1;
  nruns = 0;
  read_any = false;
  format = format;
}

unfoldable pub open_stream : Bytes → Format → Datafile
unfolding open_file
open_stream content format = record (open_file content format) { is_file = false; size = 0 }

-- perf_datafile_setpipefd, perf_datafile_setmaxruns
unfoldable pub set_pipe_fd : Datafile → Datafile
set_pipe_fd d = record d { pipe_fd = true }

unfoldable pub set_maxruns : Datafile → ℕ → Datafile
set_maxruns d n = record d { maxruns = n }

-- reopen_file, where lseek() succeeds.
unfoldable pub reopen_file : Datafile → Datafile
reopen_file d =
    if d.cached then record d { at = 0 } else record d { at = 0; buf = []; unread = d.content }

-- The memmove() of read_more.
unfoldable pub compact : Datafile → Datafile
compact d =
    if ltb 0 d.at && ltb d.at (length d.buf)
    then record d { buf = drop d.at d.buf; at = 0 }
    else if d.at == length d.buf
    then record d { buf = []; at = 0 }
    else d

-- The part of read_more behind the memmove(). `none` is PERF_R_SUCCESS.
unfoldable pub fill : System → Datafile → Option Code × Datafile
fill sys d = elim (sys.read (length d.unread) (databuf_size - length d.buf - 1)) [
  | none ↦ (some failure, d)
  | some n ↦ if n == 0 then (some eof, d) else (
    none,
    record d {
      unread = drop n d.unread;
      buf = d.buf ++ take n d.unread;
      cached = if d.is_file && length (d.buf ++ take n d.unread) == d.size then true else d.cached;
    },
  )
]

-- read_more
unfoldable pub read_more : System → Datafile → Option Code × Datafile
unfolding compact fill
read_more sys d =
    let waited = if not d.is_file && d.pipe_fd then sys.wait else none in
    elim waited [ some e ↦ (some e, d) | none ↦ fill sys (compact d) ]
