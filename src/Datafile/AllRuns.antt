-- ===== src/Datafile/AllRuns.antt =====
-- src/datafile.c, perf_datafile_next: the lines of a text file, over all its runs.
use dnsperf.Common.{
  ℕ, zero, suc, ◌+◌, ◌^◌, ◌≡◌, ◌<◌, refl, ap, ◌∙◌, true, false, List, [], ◌∷◌, ◌++◌, map, arith,
  Bytes, length, All, eof, Outcome, err,
}
use dnsperf.Buffer.{Buffer, init}
use dnsperf.Datafile.{Datafile, System, text_query, open_file, set_maxruns}
use dnsperf.Datafile.Runs.{next}
use dnsperf.Datafile.Valid.{open_file-IsValid}
use dnsperf.Datafile.Lines.{text_of, wanted_lines}
use dnsperf.Datafile.Reads.{IsReading}
use dnsperf.Datafile.FirstLine.{IsShort}
use dnsperf.Datafile.Pending.{Pending, shown}
use dnsperf.Datafile.Calls.{next-Line, next-Over, next-Again}

-- The answers of `n` calls, each with an empty buffer of `size` octets.
unfoldable pub answers : System → ℕ → ℕ → Datafile → List (Outcome Buffer)
answers sys size zero d = []
answers sys size (suc n) d =
    let (answer, d') = next sys d (init size) in answer ∷ answers sys size n d'

abbrev pub repeated : ℕ → List Bytes → List Bytes
repeated zero ls = []
repeated (suc n) ls = ls ++ repeated n ls

answers_step :
    (sys : System) (size n : ℕ) (d d' : Datafile) (r : Outcome Buffer) (ys : List (Outcome Buffer))
    → next sys d (init size) ≡ (r, d')
    → answers sys size n d' ≡ ys
    → answers sys size (suc n) d ≡ r ∷ ys
unfolding answers
answers_step sys size n d d' r ys e h =
    ap (λ (x : Outcome Buffer × Datafile). x.0 ∷ answers sys size n x.1) e ∙ ap (λ zs. r ∷ zs) h

-- What is left to answer: the lines of this run, and `r` more runs.
answers_left :
    (sys : System) (size : ℕ) (ls : List Bytes) (m : ℕ) (w : Bytes) (ws : List Bytes)
    → IsReading sys
    → 0 < size
    → All IsShort ls
    → wanted_lines ls ≡ w ∷ ws
    → m < 2 ^ 32
    → (r j : ℕ) (now : List Bytes) (d : Datafile) → m ≡ j + suc r
    → Pending ls m j true now d
    → answers sys size (suc (length (now ++ repeated r (w ∷ ws)))) d
      ≡ map (shown size) (now ++ repeated r (w ∷ ws)) ++ err eof ∷ []
unfolding answers
answers_left sys size ls m w ws k room short wanted small r j (l ∷ now) d e p =
    let (d', (given, p')) = next-Line sys k size room ls m j true l now d p (omega (arith, e)) in
    answers_step sys size (suc (length (now ++ repeated r (w ∷ ws)))) d d' (shown size l) _ given
      (answers_left sys size ls m w ws k room short wanted small r j now d' e p')
answers_left sys size ls m w ws k room short wanted small zero j [] d e p =
    ap (λ x. x ∷ []) (next-Over sys k size room ls m j d p (omega (arith, e)) small)
answers_left sys size ls m w ws k room short wanted small (suc r) j [] d e p =
    let (d', (given, p')) =
      next-Again sys size ls m j d w ws k room short wanted p (omega (arith, e)) small in
    answers_step sys size (suc (length (ws ++ repeated r (w ∷ ws)))) d d' (shown size w) _ given (
      answers_left sys size ls m w ws k room short wanted small r (j + 1) ws d' (omega (arith, e))
        p')

started :
    (ls : List Bytes) (m : ℕ) (ws : List Bytes)
    → All IsShort ls
    → wanted_lines ls ≡ ws
    → Pending ls m 0 false ws (set_maxruns (open_file (text_of ls) text_query) m)
unfolding set_maxruns open_file
started ls m ws short e =
    let v = open_file-IsValid (text_of ls) text_query in
    record {
      rest = ls;
      ready = (
        record {
          before = [];
          splits = refl;
          at_in = v.at_in;
          small = v.small;
          size_is = v.size_is;
          whole = v.whole;
        },
        refl,
      );
      short = short;
      wanted_is = e;
      labels_are = refl;
    }

-- A text file of queries whose lines hold no zero octet, each of them ended by a newline and
-- short enough to fit with it into the reader's buffer, one of them at least neither empty nor
-- a comment, is read in `m` runs, m below 2^32 and not 0, by a read(2) that gives an octet at
-- least where there is one and room for it, nothing at the end, and never more than it is asked
-- for, however it splits the file: then the calls of perf_datafile_next, each with an empty
-- buffer that has some space, give the lines that are neither empty nor comments, in their
-- order, `m` times, each cut to the space in front of its zero, and then PERF_R_EOF.
pub next-Lines :
    (sys : System) (size m : ℕ) (ls : List Bytes)
    → IsReading sys
    → 0 < size
    → 0 < m
    → m < 2 ^ 32
    → All IsShort ls
    → 0 < length (wanted_lines ls)
    → answers sys size
        (suc (length (repeated m (wanted_lines ls))))
        (set_maxruns (open_file (text_of ls) text_query) m)
      ≡ map (shown size) (repeated m (wanted_lines ls)) ++ err eof ∷ []
next-Lines sys size zero ls k room some_run small short some_line = absurd (omega arith)
next-Lines sys size (suc r) ls k room some_run small short some_line =
    go (wanted_lines ls) refl some_line
  where
    start : Datafile
    start = set_maxruns (open_file (text_of ls) text_query) (suc r)

    fresh : (ws : List Bytes) → wanted_lines ls ≡ ws → Pending ls (suc r) 0 false ws start
    fresh ws e = started ls (suc r) ws short e

    go :
        (ws : List Bytes)
        → wanted_lines ls ≡ ws
        → 0 < length ws
        → answers sys size (suc (length (repeated (suc r) ws))) start
          ≡ map (shown size) (repeated (suc r) ws) ++ err eof ∷ []
    go [] e h = absurd (omega arith)
    go (w ∷ ws) e h =
        let (d', (given, p')) =
          next-Line sys k size room ls (suc r) 0 false w ws start (fresh (w ∷ ws) e) some_run in
        answers_step sys size (suc (length (ws ++ repeated r (w ∷ ws)))) start d' (shown size w) _
          given
          (answers_left sys size ls (suc r) w ws k room short e small r 0 ws d' (omega arith) p')
