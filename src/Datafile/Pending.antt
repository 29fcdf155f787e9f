-- ===== src/Datafile/Pending.antt =====
-- src/datafile.c: what is left of a run, and how a call of read_one_line changes it.
use dnsperf.Common.{
  leb, ℕ, ◌+◌, ◌-◌, ◌^◌, ◌≡◌, ◌<◌, refl, sym, ap, ◌∙◌, subst, Bool, true, false, ◌&&◌, List, [],
  ◌∷◌, ◌++◌, arith, ltb, ◌==◌, if◌then◌else◌, if_cases, if_false, if_true, Bytes, length, take,
  take_all, length-take-le, All, eof, Outcome, ok, err, ◌>>=◌,
}
use mathlib.Core.List.{append-nil}
use dnsperf.Buffer.{Buffer, init, put_mem, put_uint8}
use dnsperf.Datafile.{Datafile, System, text_query, reopen_file}
use dnsperf.Datafile.Reader.{is_wanted, line_loop, put_line, line_fuel, read_one_line}
use dnsperf.Datafile.Runs.{next_run, end_run}
use dnsperf.Datafile.Valid.{IsValid}
use dnsperf.Datafile.Keeps.{end_run-IsValid, relabelled-IsValid}
use dnsperf.Datafile.Lines.{is_wanted-eq-is_text, text_of, wanted_lines}
use dnsperf.Datafile.Reads.{IsReading, ahead, labels}
use dnsperf.Datafile.FirstLine.{IsShort, Ready, Gets, line_loop-Gets}

-- The file is the lines `ls`, of its `m` runs `j` are done, and of this one the wanted lines `ws` are
-- left; `any` is `read_any`.
pub record Pending (ls : List Bytes) (m j : ℕ) (any : Bool) (ws : List Bytes) (d : Datafile)
    : Type 0 where
  pub rest : List Bytes
  pub ready : Ready rest d
  pub short : All IsShort rest
  pub wanted_is : wanted_lines rest ≡ ws
  pub labels_are : labels d ≡ (text_query, (m, (j, (any, text_of ls))))

-- What a line leaves in a buffer of `size` octets.
abbrev pub held : ℕ → Bytes → Buffer
held size l = record { bytes = take (size - 1) l ++ 0 ∷ []; cap = size }

abbrev pub shown : ℕ → Bytes → Outcome Buffer
shown size l = ok (held size l)

-- The outcome of the loop, by the wanted lines that are left.
abbrev First : Datafile → List Bytes → Outcome Bytes × Datafile → Type 0
First d [] r = (r.0 ≡ err eof) × (Ready [] r.1 × (labels r.1 ≡ labels d))
First d (w ∷ ws) r =
    (r.0 ≡ ok w)
    × ((rest : List Bytes) × (Ready rest r.1
          × (All IsShort rest × ((wanted_lines rest ≡ ws) × (labels r.1 ≡ labels d)))))

Gets-First :
    (d : Datafile) (rest : List Bytes) (r : Outcome Bytes × Datafile)
    → All IsShort rest
    → Gets d rest r
    → First d (wanted_lines rest) r
Gets-First d [] r short g = g
Gets-First d (l ∷ ls) r short g =
    subst (λ (b : Bool). First d (if b then l ∷ wanted_lines ls else wanted_lines ls) r)
      (is_wanted-eq-is_text l) (go (is_wanted l) (Gets-First d ls r short.1) g)
  where
    go :
        (b : Bool)
        → (Gets d ls r → First d (wanted_lines ls) r)
        → (if b then ((r.0 ≡ ok l) × (Ready ls r.1 × (labels r.1 ≡ labels d))) else Gets d ls r)
        → First d (if b then l ∷ wanted_lines ls else wanted_lines ls) r
    go true later g = (g.0, (ls, (g.1.0, (short.1, (refl, g.1.1)))))
    go false later g = later g

put_cut :
    (size : ℕ) (xs : Bytes)
    → length xs < size
    → (put_mem (init size) xs >>= λ lines. put_uint8 lines 0)
      ≡ ok (record { bytes = xs ++ 0 ∷ []; cap = size })
unfolding put_mem put_uint8 init
put_cut size xs h =
    ap (λ (o : Outcome Buffer). o >>= λ lines. put_uint8 lines 0)
      (if_true (leb (length xs) (size - 0)) _ _ (ground arith))
    ∙ if_true (leb 1 (size - length xs)) _ _ (ground arith)

put_line-shown : (size : ℕ) (l : Bytes) → 0 < size → put_line (init size) l ≡ shown size l
unfolding put_line init
put_line-shown size l h =
    ap (λ (xs : Bytes). put_mem (init size) xs >>= λ lines. put_uint8 lines 0) cut_is
    ∙ put_cut size (take (size - 1) l) (omega (arith, length-take-le (size - 1) l))
  where
    cut_is :
        (if ltb 0 (size - 0) && ltb (size - 0 - 1) (length l) then take (size - 0 - 1) l else l)
        ≡ take (size - 1) l
    cut_is =
        if_cases (λ (xs : Bytes). xs ≡ take (size - 1) l)
          (ltb 0 (size - 0) && ltb (size - 0 - 1) (length l)) _ _
          (λ _. ap (λ (i : ℕ). take i l) (omega arith))
          (λ c. sym (take_all (size - 1) l (ground arith)))

module _ (sys : System) (k : IsReading sys) (size : ℕ) (room : 0 < size) (ls : List Bytes) (m j : ℕ)
    (any : Bool) where
  found :
      (ws : List Bytes) (d : Datafile)
      → Pending ls m j any ws d
      → First d ws (line_loop sys (line_fuel d) d)
  found ws d p =
      subst (λ (xs : List Bytes). First d xs (line_loop sys (line_fuel d) d)) p.wanted_is
        (Gets-First d p.rest (line_loop sys (line_fuel d) d) p.short
          (line_loop-Gets sys (line_fuel d) d p.rest k p.short p.ready (omega arith)))

  -- read_one_line gives the first wanted line,
  pub read_one_line-Line :
      (w : Bytes) (ws : List Bytes) (d : Datafile)
      → Pending ls m j any (w ∷ ws) d
      → (d' : Datafile) × ((read_one_line sys d (init size) ≡ (shown size w, d'))
          × Pending ls m j any ws d')
  unfolding read_one_line
  read_one_line-Line w ws d p =
      let (code, (rest, (ready, (short, (wanted_is, kept))))) = found (w ∷ ws) d p in
      let d' : Datafile = (line_loop sys (line_fuel d) d).1 in
      (
        d',
        (
          ap (λ (o : Outcome Bytes). (o >>= put_line (init size), d')) code
              ∙ ap (λ (o : Outcome Buffer). (o, d')) (put_line-shown size w room),
          record {
            rest = rest;
            ready = ready;
            short = short;
            wanted_is = wanted_is;
            labels_are = kept ∙ p.labels_are;
          },
        ),
      )

  -- and PERF_R_EOF where none is left.
  pub read_one_line-End :
      (d : Datafile)
      → Pending ls m j any [] d
      → (d' : Datafile) × ((read_one_line sys d (init size) ≡ (err eof, d'))
          × Pending ls m j any [] d')
  unfolding read_one_line
  read_one_line-End d p =
      let (code, (ready, kept)) = found [] d p in
      let d' : Datafile = (line_loop sys (line_fuel d) d).1 in
      (
        d',
        (
          ap (λ (o : Outcome Bytes). (o >>= put_line (init size), d')) code,
          record {
            rest = [];
            ready = ready;
            short = tt;
            wanted_is = refl;
            labels_are = kept ∙ p.labels_are;
          },
        ),
      )

reopen_file-ahead : (d : Datafile) → IsValid d → ahead (reopen_file d) ≡ d.content
unfolding reopen_file
reopen_file-ahead d v =
    if_cases (λ (e : Datafile). ahead e ≡ d.content) d.cached _ _
      (λ c. ap (λ (xs : Bytes). d.buf ++ xs) (v.whole c).1 ∙ append-nil d.buf ∙ (v.whole c).0)
      (λ _. refl)

reopen_file-labels : (d : Datafile) → labels (reopen_file d) ≡ labels d
unfolding reopen_file
reopen_file-labels d =
    if_cases (λ (e : Datafile). labels e ≡ labels d) d.cached _ _ (λ _. refl) (λ _. refl)

-- The end of a run that is not the last.
pub end_run-Pending :
    (ls : List Bytes) (m j : ℕ) (any : Bool) (d : Datafile)
    → All IsShort ls
    → j + 1 < m
    → m < 2 ^ 32
    → Pending ls m j any [] d
    → Pending ls m (j + 1) any (wanted_lines ls) (end_run d)
unfolding end_run
end_run-Pending ls m j any d short more small p =
    let runs : d.nruns ≡ j = ap (λ t. t.1.1.0) p.labels_are in
    let max_is : d.maxruns ≡ m = ap (λ t. t.1.0) p.labels_are in
    let content_is : d.content ≡ text_of ls = ap (λ t. t.1.1.1.1) p.labels_are in
    let next_is : next_run d ≡ j + 1 = omega (arith, runs, more, small) in
    let d' : Datafile = record d { nruns = next_run d } in
    let reopens : end_run d ≡ reopen_file d' =
      if_false (d.maxruns == next_run d) _ _ (ground (arith, next_is, max_is, more)) in
    let v : IsValid (end_run d) = end_run-IsValid d p.ready.0 in
    record {
      rest = ls;
      ready = (
        v,
        ap ahead reopens
            ∙ reopen_file-ahead d' (relabelled-IsValid d (next_run d) d.read_any p.ready.0)
            ∙ content_is,
      );
      short = short;
      wanted_is = refl;
      labels_are =
          ap labels reopens
          ∙ reopen_file-labels d'
          ∙ ap (λ t. (t.0, (t.1.0, (next_run d, t.1.1.1)))) p.labels_are
          ∙ ap (λ i. (text_query, (m, (i, (any, text_of ls))))) next_is;
    }
