-- ===== src/Datafile/Calls.antt =====
-- src/datafile.c, perf_datafile_next: one call on a text file.
use dnsperf.Common.{
  eq→==, lt→==_false, ℕ, ◌+◌, ◌^◌, ◌≡◌, ◌<◌, refl, sym, ap, ◌∙◌, subst, Bool, true, false, not,
  ◌&&◌, List, [], ◌∷◌, arith, ltb, ◌==◌, if_false, if_true, Bytes, All, eof, Outcome, err,
}
use dnsperf.Buffer.{Buffer, init}
use dnsperf.Datafile.{Datafile, Format, System, text_query}
use dnsperf.Datafile.Reader.{read_one_line}
use dnsperf.Datafile.Runs.{read_func, end_run, next_run, finish_record, finish_read, at_eof, next}
use dnsperf.Datafile.Lines.{wanted_lines}
use dnsperf.Datafile.Reads.{IsReading}
use dnsperf.Datafile.FirstLine.{IsShort}
use dnsperf.Datafile.Keeps.{relabelled-IsValid}
use dnsperf.Datafile.Pending.{
  held, Pending, shown, read_one_line-Line, read_one_line-End, end_run-Pending,
}

-- perf_datafile_next behind its first read.
abbrev behind_first : System → Buffer → Outcome Buffer × Datafile → Outcome Buffer × Datafile
behind_first sys lines (r, d') = elim r [
  | err eof ↦ at_eof sys d' lines
  | other ↦ finish_read sys (other, d')
]

read_is :
    (sys : System) (size : ℕ) (f : Format) (d : Datafile)
    → f ≡ text_query
    → read_func sys f d (init size) ≡ read_one_line sys d (init size)
unfolding read_func
read_is sys size f d e = ap (λ (g : Format). read_func sys g d (init size)) e

module _ (sys : System) (k : IsReading sys) (size : ℕ) (room : 0 < size) (ls : List Bytes)
    (m j : ℕ) where
  abbrev pub Shows : Bool → Datafile → Bytes → List Bytes → ℕ → Type 0
  Shows any d w ws i =
      (d' : Datafile) × ((next sys d (init size) ≡ (shown size w, d')) × Pending ls m i true ws d')

  not_over :
      (any : Bool) (ws : List Bytes) (d : Datafile)
      → Pending ls m j any ws d
      → j < m
      → (ltb 0 d.maxruns && d.maxruns == d.nruns) ≡ false
  not_over any ws d p h =
      let runs : d.nruns ≡ j = ap (λ t. t.1.1.0) p.labels_are in
      let max_is : d.maxruns ≡ m = ap (λ t. t.1.0) p.labels_are in ground (arith, runs, max_is)

  -- A line that was read.
  finish_read-Line :
      (any : Bool) (w : Bytes) (ws : List Bytes) (d : Datafile)
      → Pending ls m j any ws d
      → (d' : Datafile) × ((finish_read sys (shown size w, d) ≡ (shown size w, d'))
          × Pending ls m j true ws d')
  unfolding finish_read finish_record
  finish_read-Line any w ws d p = (
    record d { read_any = true },
    (
      ap (λ (f : Format). finish_record sys f (record d { read_any = true }) (held size w))
          (ap (λ t. t.0) p.labels_are),
      record {
        rest = p.rest;
        ready = (relabelled-IsValid d d.nruns true p.ready.0, p.ready.1);
        short = p.short;
        wanted_is = p.wanted_is;
        labels_are = ap (λ t. (t.0, (t.1.0, (t.1.1.0, (true, t.1.1.1.1))))) p.labels_are;
      },
    ),
  )

  pub next-Line :
      (any : Bool) (w : Bytes) (ws : List Bytes) (d : Datafile)
      → Pending ls m j any (w ∷ ws) d
      → j < m
      → Shows any d w ws j
  unfolding next
  next-Line any w ws d p h =
      let (d₁, (read, p₁)) = read_one_line-Line sys k size room ls m j any w ws d p in
      let (d₂, (done, p₂)) = finish_read-Line any w ws d₁ p₁ in
      (
        d₂,
        (
          if_false (ltb 0 d.maxruns && d.maxruns == d.nruns) _ _ (not_over any (w ∷ ws) d p h)
              ∙ ap (behind_first sys (init size))
                  (read_is sys size d.format d (ap (λ t. t.0) p.labels_are) ∙ read)
              ∙ done,
          p₂,
        ),
      )

  -- The end of the last run.
  pub next-Over :
      (d : Datafile)
      → Pending ls m j true [] d
      → m ≡ j + 1
      → m < 2 ^ 32
      → (next sys d (init size)).0 ≡ err eof
  unfolding next at_eof
  next-Over d p last small =
      let (d₁, (read, p₁)) = read_one_line-End sys k size room ls m j true d p in
      let any : d₁.read_any ≡ true = ap (λ t. t.1.1.1.0) p₁.labels_are in
      let runs : d₁.nruns ≡ j = ap (λ t. t.1.1.0) p₁.labels_are in
      let max_is : d₁.maxruns ≡ m = ap (λ t. t.1.0) p₁.labels_are in
      let next_is : next_run d₁ ≡ m = omega (arith, runs, last, small) in
      ap (λ r. r.0)
        (if_false (ltb 0 d.maxruns && d.maxruns == d.nruns) _ _ (not_over true [] d p (omega arith))
          ∙ ap (behind_first sys (init size))
              (read_is sys size d.format d (ap (λ t. t.0) p.labels_are) ∙ read)
          ∙ if_false (not d₁.read_any) _ _ (rw (any) refl)
          ∙ if_true (d₁.maxruns == next_run d₁) _ _
              (eq→== d₁.maxruns (next_run d₁) (max_is ∙ sym next_is)))

-- The end of another run: the next one starts with its first line.
at_eof-Again :
    (sys : System) (size : ℕ) (ls : List Bytes) (m j : ℕ) (d : Datafile) (w : Bytes)
    (ws : List Bytes)
    → IsReading sys
    → 0 < size
    → All IsShort ls
    → wanted_lines ls ≡ w ∷ ws
    → Pending ls m j true [] d
    → j + 1 < m
    → m < 2 ^ 32
    → (d' : Datafile) × ((at_eof sys d (init size) ≡ (shown size w, d'))
        × Pending ls m (j + 1) true ws d')
unfolding at_eof
at_eof-Again sys size ls m j d w ws k room short wanted p more small =
    let any : d.read_any ≡ true = ap (λ t. t.1.1.1.0) p.labels_are in
    let runs : d.nruns ≡ j = ap (λ t. t.1.1.0) p.labels_are in
    let max_is : d.maxruns ≡ m = ap (λ t. t.1.0) p.labels_are in
    let next_is : next_run d ≡ j + 1 = omega (arith, runs, more, small) in
    let p₁ : Pending ls m (j + 1) true (w ∷ ws) (end_run d) =
      subst (λ (xs : List Bytes). Pending ls m (j + 1) true xs (end_run d)) wanted
        (end_run-Pending ls m j true d short more small p) in
    let (d₂, (read, p₂)) =
      read_one_line-Line sys k size room ls m (j + 1) true w ws (end_run d) p₁ in
    let (d₃, (done, p₃)) = finish_read-Line sys k size room ls m (j + 1) true w ws d₂ p₂ in
    (
      d₃,
      (
        if_false (not d.read_any) _ _ (ap not any)
            ∙ if_false (d.maxruns == next_run d) _ _
                (lt→==_false d.maxruns (next_run d) (omega (arith, max_is, next_is, more)))
            ∙ ap (finish_read sys)
                (read_is sys size d.format (end_run d) (ap (λ t. t.0) p.labels_are) ∙ read)
            ∙ done,
        p₃,
      ),
    )

pub next-Again :
    (sys : System) (size : ℕ) (ls : List Bytes) (m j : ℕ) (d : Datafile) (w : Bytes)
    (ws : List Bytes)
    → IsReading sys
    → 0 < size
    → All IsShort ls
    → wanted_lines ls ≡ w ∷ ws
    → Pending ls m j true [] d
    → j + 1 < m
    → m < 2 ^ 32
    → (d' : Datafile) × ((next sys d (init size) ≡ (shown size w, d'))
        × Pending ls m (j + 1) true ws d')
unfolding next
next-Again sys size ls m j d w ws k room short wanted p more small =
    let (d₁, (read, p₁)) = read_one_line-End sys k size room ls m j true d p in
    let (d₂, (given, p₂)) =
      at_eof-Again sys size ls m j d₁ w ws k room short wanted p₁ more small in
    (
      d₂,
      (
        if_false (ltb 0 d.maxruns && d.maxruns == d.nruns) _ _
              (not_over sys k size room ls m j true [] d p (omega arith))
            ∙ ap (behind_first sys (init size))
                (read_is sys size d.format d (ap (λ t. t.0) p.labels_are) ∙ read)
            ∙ given,
        p₂,
      ),
    )
