-- ===== src/Datafile/Keeps.antt =====
-- src/datafile.c: every call keeps the reader's state valid.
use dnsperf.Common.{
  ℕ, zero, suc, ◌+◌, ◌≤◌, ◌≡◌, refl, Bool, true, not, ◌&&◌, Option, none, some, [], ◌∷◌, arith, ltb,
  leb, ◌==◌, if◌then◌else◌, Bytes, length, take, drop, Code, eof, invalid_file, Outcome, ok, err,
  abort, stuck, if_cases, length-drop,
}
use dnsperf.Buffer.{Buffer, used_length}
use dnsperf.Datafile.{Datafile, Format, System, read_more, text_query, text_update, tcp_wire_format}
use dnsperf.Datafile.Reader.{
  line_length, current, remaining, advance, is_wanted, line_loop, line_fuel, read_one_line,
  preamble_loop, body_loop, take_blob, blob_body, read_one_blob,
}
use dnsperf.Datafile.Runs.{
  read_func, is_send, next_run, end_run, update_loop, finish_record, finish_read, at_eof, next,
}
use dnsperf.Datafile.Valid.{IsValid, IsBounded, read_more-IsValid, reopen_file-IsValid}

-- The state that a call leaves behind is valid.
abbrev Keeps : {A : Type 0} → A × Datafile → Type 0
Keeps r = IsValid r.1

pub line_length_le : (cs : Bytes) → line_length cs ≤ length cs
unfolding line_length
line_length_le [] = omega arith
line_length_le (c ∷ cs) = ground (arith, line_length_le cs)

abbrev moved : Datafile → ℕ → Datafile
moved d k = record d { at = k }

moved-IsValid : (d : Datafile) (k : ℕ) → IsValid d → k ≤ length d.buf → IsValid (moved d k)
moved-IsValid d k v h = record {
  before = v.before;
  splits = v.splits;
  at_in = h;
  small = v.small;
  size_is = v.size_is;
  whole = v.whole;
}

-- The fields that count runs have no part in the invariant.
abbrev pub relabelled : Datafile → ℕ → Bool → Datafile
relabelled d n any = record d { nruns = n; read_any = any }

pub relabelled-IsValid :
    (d : Datafile) (n : ℕ) (any : Bool) → IsValid d → IsValid (relabelled d n any)
relabelled-IsValid d n any v = record {
  before = v.before;
  splits = v.splits;
  at_in = v.at_in;
  small = v.small;
  size_is = v.size_is;
  whole = v.whole;
}

pub end_run-IsValid : (d : Datafile) → IsValid d → IsValid (end_run d)
unfolding end_run
end_run-IsValid d v =
    let w = relabelled-IsValid d (next_run d) d.read_any v in
    if_cases IsValid (d.maxruns == next_run d) _ _ (λ _. w) (λ _. reopen_file-IsValid _ w)

pub advance-IsValid : (d : Datafile) → IsValid d → IsValid (advance d (line_length (current d)))
unfolding advance
advance-IsValid d v =
    moved-IsValid d _ v
      (ground (arith, line_length_le (current d), length-drop d.at d.buf, v.at_in))

-- Behind a read_more that left `d`.
after_code :
    {A : Type 0} (c : Option Code) (again : Outcome A × Datafile) (x : Outcome A) (d : Datafile)
    → Keeps again
    → IsValid d
    → Keeps (
        let r : Outcome A × Datafile = elim c [
          | none ↦ again
          | some eof ↦ (x, d)
          | some e ↦ (err e, d)
        ] in
        r)
after_code none again x d h v = h
after_code (some eof) again x d h v = v
after_code (some _) again x d h v = v

module _ (sys : System) (bound : IsBounded sys) where
  line_loop-IsValid : (f : ℕ) (d : Datafile) → IsValid d → Keeps (line_loop sys f d)
  unfolding line_loop
  line_loop-IsValid zero d v = v
  line_loop-IsValid (suc f) d v =
      let taken =
        if_cases Keeps (is_wanted (take (line_length (current d)) (current d)))
          (ok (take (line_length (current d)) (current d)), advance d (line_length (current d)))
          (line_loop sys f (advance d (line_length (current d)))) (λ _. advance-IsValid d v)
          (λ _. line_loop-IsValid f (advance d (line_length (current d))) (advance-IsValid d v)) in
      if_cases Keeps (not (line_length (current d) == remaining d)) _ _ (λ _. taken)
        (λ _.
          if_cases Keeps d.cached _ _
            (λ _. if_cases Keeps (remaining d == 0) _ _ (λ _. v) (λ _. taken))
            (λ u.
              let w = read_more-IsValid sys d bound v u in
              elim (read_more sys d).0
                as (λ c. Keeps (
                  let again = line_loop sys f (read_more sys d).1 in
                  let r : Outcome Bytes × Datafile = elim c [
                    | some e ↦ (err e, (read_more sys d).1)
                    | none ↦ again
                  ] in
                  r)) [ some e ↦ w | none ↦ line_loop-IsValid f (read_more sys d).1 w ]))

  preamble_loop-IsValid : (f : ℕ) (d : Datafile) → IsValid d → Keeps (preamble_loop sys f d)
  unfolding preamble_loop
  preamble_loop-IsValid zero d v = v
  preamble_loop-IsValid (suc f) d v =
      if_cases Keeps (leb 2 (remaining d)) _ _ (λ _. v)
        (λ _.
          if_cases Keeps d.cached _ _ (λ _. v)
            (λ u.
              let w = read_more-IsValid sys d bound v u in
              after_code (read_more sys d).0 _ _ (read_more sys d).1
                (preamble_loop-IsValid f (read_more sys d).1 w) w))

  body_loop-Fits :
      (size f : ℕ) (d : Datafile)
      → IsValid d
      → Keeps (body_loop sys size f d)
        × ((body_loop sys size f d).0 ≡ ok tt → 2 + size ≤ remaining (body_loop sys size f d).1)
  unfolding body_loop
  body_loop-Fits size zero d v = (v, λ h. cc)
  body_loop-Fits size (suc f) d v =
      if_cases Found (leb (2 + size) (remaining d)) _ _ (λ e. (v, λ _. ground arith))
        (λ _.
          if_cases Found d.cached _ _ (λ _. (v, λ h. cc))
            (λ u.
              let w = read_more-IsValid sys d bound v u in
              after_read (read_more sys d).0 _ (read_more sys d).1
                (body_loop-Fits size f (read_more sys d).1 w) w))
    where
      Found : Outcome (Unit {0}) × Datafile → Type 0
      Found r = Keeps r × (r.0 ≡ ok tt → 2 + size ≤ remaining r.1)

      after_read :
          (c : Option Code) (again : Outcome (Unit {0}) × Datafile) (d' : Datafile)
          → Found again
          → IsValid d'
          → Found (
              let r : Outcome (Unit {0}) × Datafile = elim c [
                | none ↦ again
                | some eof ↦ (err invalid_file, d')
                | some e ↦ (err e, d')
              ] in
              r)
      after_read none again d' h w = h
      after_read (some eof) again d' h w = (w, λ e. cc)
      after_read (some _) again d' h w = (w, λ e. cc)

  blob_body-IsValid :
      (d : Datafile) (wire : Buffer) (r : Outcome ℕ) → IsValid d → Keeps (blob_body sys d wire r)
  unfolding take_blob
  blob_body-IsValid d wire (ok size) v = go (body_loop sys size (length d.unread + 1) d).0 refl
    where
      done : Datafile
      done = (body_loop sys size (length d.unread + 1) d).1

      go :
          (o : Outcome (Unit {0}))
          → (body_loop sys size (length d.unread + 1) d).0 ≡ o
          → Keeps (
              let r : Outcome Buffer × Datafile = elim o [
                | ok _ ↦ take_blob size done wire
                | err e ↦ (err e, done)
                | abort ↦ (abort, done)
                | stuck ↦ (stuck, done)
              ] in
              r)
      go (ok x) e =
          let (w, room) = body_loop-Fits size (length d.unread + 1) d v in
          moved-IsValid done (done.at + (2 + size)) w (omega (arith, room e, w.at_in))
      go (err x) e = (body_loop-Fits size (length d.unread + 1) d v).0
      go abort e = (body_loop-Fits size (length d.unread + 1) d v).0
      go stuck e = (body_loop-Fits size (length d.unread + 1) d v).0
  blob_body-IsValid d wire (err e) v = v
  blob_body-IsValid d wire abort v = v
  blob_body-IsValid d wire stuck v = v

  read_func-IsValid :
      (format : Format) (d : Datafile) (lines : Buffer)
      → IsValid d
      → Keeps (read_func sys format d lines)
  unfolding read_func read_one_line read_one_blob
  read_func-IsValid text_query d lines v = line_loop-IsValid (line_fuel d) d v
  read_func-IsValid text_update d lines v = line_loop-IsValid (line_fuel d) d v
  read_func-IsValid tcp_wire_format d lines v =
      blob_body-IsValid (preamble_loop sys (length d.unread + 1) d).1 lines
        (preamble_loop sys (length d.unread + 1) d).0
        (preamble_loop-IsValid (length d.unread + 1) d v)

  update_loop-IsValid :
      (f : ℕ) (d : Datafile) (lines : Buffer) → IsValid d → Keeps (update_loop sys f d lines)
  unfolding update_loop
  update_loop-IsValid zero d lines v = v
  update_loop-IsValid (suc f) d lines v =
      go (read_func sys d.format d lines) (read_func-IsValid d.format d lines v)
        (λ d' lines' w. update_loop-IsValid f d' lines' w)
    where
      go :
          (r : Outcome Buffer × Datafile)
          → Keeps r
          → ((d' : Datafile) (lines' : Buffer) → IsValid d' → Keeps (update_loop sys f d' lines'))
          → Keeps (
              let s : Outcome Buffer × Datafile = elim r.0 [
                | ok lines' ↦
                    let more = update_loop sys f r.1 lines' in
                    if is_send (drop (used_length lines) lines'.bytes)
                    then (ok lines', r.1)
                    else more
                | err eof ↦ (ok lines, end_run r.1)
                | err e ↦ (ok lines, r.1)
                | abort ↦ (abort, r.1)
                | stuck ↦ (stuck, r.1)
              ] in
              s)
      go (ok lines', d') w ih =
          if_cases Keeps (is_send (drop (used_length lines) lines'.bytes)) _ _ (λ _. w)
            (λ _. ih d' lines' w)
      go (err eof, d') w ih = end_run-IsValid d' w
      go (err _, d') w ih = w
      go (abort, d') w ih = w
      go (stuck, d') w ih = w

  finish_record-IsValid :
      (format : Format) (d : Datafile) (lines : Buffer)
      → IsValid d
      → Keeps (finish_record sys format d lines)
  unfolding finish_record
  finish_record-IsValid text_update d lines v = update_loop-IsValid _ d lines v
  finish_record-IsValid text_query d lines v = v
  finish_record-IsValid tcp_wire_format d lines v = v

  finish_read-IsValid : (r : Outcome Buffer × Datafile) → Keeps r → Keeps (finish_read sys r)
  unfolding finish_read
  finish_read-IsValid (ok lines, d) v =
      finish_record-IsValid d.format _ lines (relabelled-IsValid d d.nruns true v)
  finish_read-IsValid (err e, d) v = v
  finish_read-IsValid (abort, d) v = v
  finish_read-IsValid (stuck, d) v = v

  at_eof-IsValid : (d : Datafile) (lines : Buffer) → IsValid d → Keeps (at_eof sys d lines)
  unfolding at_eof
  at_eof-IsValid d lines v =
      if_cases Keeps (not d.read_any) _ _ (λ _. v)
        (λ _.
          if_cases Keeps (d.maxruns == next_run d) _ _ (λ _. end_run-IsValid d v)
            (λ _.
              finish_read-IsValid _
                (read_func-IsValid d.format (end_run d) lines (end_run-IsValid d v))))

-- If read(2) never returns more than it is asked for, a call of perf_datafile_next keeps the
-- reader's state valid, whatever it answers: the buffer is the piece of the file in front of the
-- descriptor's offset with space for a zero behind it, the read position lies inside it, and in
-- cached mode it is the whole file.
pub next-IsValid :
    (sys : System) (d : Datafile) (lines : Buffer)
    → IsBounded sys
    → IsValid d
    → IsValid (next sys d lines).1
unfolding next
next-IsValid sys d lines bound v =
    if_cases Keeps (ltb 0 d.maxruns && d.maxruns == d.nruns) _ _ (λ _. v)
      (λ _. go (read_func sys d.format d lines) (read_func-IsValid sys bound d.format d lines v))
  where
    go :
        (r : Outcome Buffer × Datafile)
        → Keeps r
        → Keeps (
            let s : Outcome Buffer × Datafile = elim r.0 [
              | err eof ↦ at_eof sys r.1 lines
              | other ↦ finish_read sys (other, r.1)
            ] in
            s)
    go (err eof, d') w = at_eof-IsValid sys bound d' lines w
    go (ok x, d') w = finish_read-IsValid sys bound (ok x, d') w
    go (err e, d') w = finish_read-IsValid sys bound (err e, d') w
    go (abort, d') w = finish_read-IsValid sys bound (abort, d') w
    go (stuck, d') w = finish_read-IsValid sys bound (stuck, d') w
