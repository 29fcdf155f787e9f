-- ===== src/Datafile/FirstLine.antt =====
-- src/datafile.c, read_one_line: it finds the next line that is wanted.
use native.Mathlib.Nat.{suc-add}
use dnsperf.Common.{
  drop-add, Bool-cases, ℕ, zero, suc, ◌+◌, ◌*◌, ◌≡◌, ◌<◌, refl, sym, ap, ◌∙◌, subst, Bool, true,
  false, not, Option, none, some, List, [], ◌∷◌, ◌++◌, arith, ltb, ◌==◌, if◌then◌else◌, if_false,
  if_true, Bytes, length, length-append, length-drop, take, drop, take-append, eq-nil_of_length,
  All, Code, eof, Outcome, ok, err, inl, inr,
}
use dnsperf.Datafile.{Datafile, System, read_more, databuf_size}
use dnsperf.Datafile.Reader.{current, remaining, line_length, advance, is_wanted, line_loop}
use dnsperf.Datafile.Valid.{IsValid, read_more-IsValid}
use dnsperf.Datafile.Keeps.{advance-IsValid}
use dnsperf.Datafile.Lines.{
  text_of, IsLine, line_length-part, line_length-whole, Split, newline_place,
}
use dnsperf.Datafile.Reads.{IsReading, ahead, labels, read_more-Advances, read_more-Exhausts}

-- A line that the buffer holds with its newline.
abbrev pub IsShort : Bytes → Type 0
IsShort l = IsLine l × (length l + 1 < databuf_size)

-- The lines `ls` are ahead of the reader.
abbrev pub Ready : List Bytes → Datafile → Type 0
Ready ls d = IsValid d × (ahead d ≡ text_of ls)

-- The first of the lines that is wanted, or the end.
abbrev pub Gets : Datafile → List Bytes → Outcome Bytes × Datafile → Type 0
Gets d [] r = (r.0 ≡ err eof) × (Ready [] r.1 × (labels r.1 ≡ labels d))
Gets d (l ∷ ls) r =
    if is_wanted l then ((r.0 ≡ ok l) × (Ready ls r.1 × (labels r.1 ≡ labels d))) else Gets d ls r

Gets-labels :
    (d e : Datafile) (ls : List Bytes) (r : Outcome Bytes × Datafile)
    → labels e ≡ labels d
    → Gets e ls r
    → Gets d ls r
Gets-labels d e [] r h g = (g.0, (g.1.0, g.1.1 ∙ h))
Gets-labels d e (l ∷ ls) r h g = go (is_wanted l) (Gets-labels d e ls r h) g
  where
    go :
        (b : Bool)
        → (Gets e ls r → Gets d ls r)
        → (if b then ((r.0 ≡ ok l) × (Ready ls r.1 × (labels r.1 ≡ labels e))) else Gets e ls r)
        → (if b then ((r.0 ≡ ok l) × (Ready ls r.1 × (labels r.1 ≡ labels d))) else Gets d ls r)
    go true rest g = (g.0, (g.1.0, g.1.1 ∙ h))
    go false rest g = rest g

-- Past a line and its newline.
abbrev behind : ℕ → Datafile → Datafile
behind n d = record d { at = d.at + (n + 1) }

advance-behind : (n : ℕ) (d : Datafile) → n < remaining d → advance d n ≡ behind n d
unfolding advance
advance-behind n d h =
    ap (λ (k : ℕ). record d { at = k })
      (if_true (ltb (d.at + n) (length d.buf)) _ _ (ground (arith, h)) ∙ omega arith)

drop_line : (l cs : Bytes) → drop (length l + 1) (l ++ 10 ∷ cs) ≡ cs
drop_line [] cs = refl
drop_line (x ∷ l) cs = rw (suc-add) (drop_line l cs)

abbrev taken : System → ℕ → Datafile → ℕ → Outcome Bytes × Datafile
taken sys f d n =
    if is_wanted (take n (current d))
    then (ok (take n (current d)), advance d n)
    else line_loop sys f (advance d n)

abbrev after_read : System → ℕ → Option Code × Datafile → Outcome Bytes × Datafile
after_read sys f (code, d') = elim code [ some e ↦ (err e, d') | none ↦ line_loop sys f d' ]

module _ (sys : System) (k : IsReading sys) (f : ℕ) (d : Datafile) where
  -- A round of the loop.
  round_reads :
      line_length (current d) ≡ remaining d
      → d.cached ≡ false
      → line_loop sys (suc f) d ≡ after_read sys f (read_more sys d)
  unfolding line_loop
  round_reads e u =
      if_false (not (line_length (current d) == remaining d)) _ _ (ground (arith, e))
      ∙ if_false d.cached _ _ u

  round_takes :
      line_length (current d) < remaining d
      → line_loop sys (suc f) d ≡ taken sys f d (line_length (current d))
  unfolding line_loop
  round_takes h = if_true (not (line_length (current d) == remaining d)) _ _ (ground (arith, h))

  round_ends :
      remaining d ≡ 0
      → line_length (current d) ≡ 0
      → d.cached ≡ true
      → line_loop sys (suc f) d ≡ (err eof, d)
  unfolding line_loop
  round_ends e z c =
      if_false (not (line_length (current d) == remaining d)) _ _ (ground (arith, e, z))
      ∙ if_true d.cached _ _ c
      ∙ if_true (remaining d == 0) _ _ (ground (arith, e))

  -- Nothing is ahead.
  at_end : Ready [] d → Gets d [] (line_loop sys (suc f) d)
  at_end (v, e) =
      let none_left : current d ≡ [] =
        eq-nil_of_length (current d)
          (omega (arith, ap length e, length-append (current d) d.unread)) in
      let no_more : d.unread ≡ [] =
        eq-nil_of_length d.unread
          (omega (arith, ap length e, length-append (current d) d.unread)) in
      let z : remaining d ≡ 0 = sym (length-drop d.at d.buf) ∙ ap length none_left in
      let zl : line_length (current d) ≡ 0 = ap line_length none_left ∙ line_length-part [] [] tt in
      elim (Bool-cases d.cached) [
        | inl c ↦ subst (Gets d []) (sym (round_ends z zl c)) (refl, ((v, e), refl))
        | inr u ↦
            let (code_is, (same, kept)) = read_more-Exhausts sys d k v.at_in no_more in
            let w = read_more-IsValid sys d k.bounded v u in
            subst (Gets d [])
              (sym (
                round_reads (zl ∙ sym z) u
                ∙ ap (λ (o : Option Code). after_read sys f (o, (read_more sys d).1)) code_is))
              (refl, ((w, same ∙ e), kept))
      ]

  abbrev Finder : Type 0
  Finder =
      (e : Datafile) (ls : List Bytes)
      → All IsShort ls
      → Ready ls e
      → 2 * length e.unread + remaining e < f
      → Gets e ls (line_loop sys f e)

  -- The first line ends behind the buffer.
  more_to_read :
      (l : Bytes) (ls : List Bytes) (m : Bytes)
      → All IsShort (l ∷ ls)
      → Ready (l ∷ ls) d
      → current d ++ m ≡ l
      → d.unread ≡ m ++ 10 ∷ text_of ls
      → 2 * length d.unread + remaining d < suc f
      → Finder
      → Gets d (l ∷ ls) (line_loop sys (suc f) d)
  more_to_read l ls m short (v, e) l_is unread_is fuel find =
      let cur : length (current d) ≡ remaining d = length-drop d.at d.buf in
      let in_buf : remaining d + 1 < databuf_size =
        omega (arith, cur, length-append (current d) m, ap length l_is, short.0.1) in
      let unread_some : 0 < length d.unread =
        omega (arith, ap length unread_is, length-append m (10 ∷ text_of ls)) in
      let u : d.cached ≡ false = not_cached in
      let (code_is, (same, (kept, less))) = read_more-Advances sys d k v.at_in unread_some in_buf in
      let w = read_more-IsValid sys d k.bounded v u in
      let whole : line_length (current d) ≡ remaining d =
        line_length-part (current d) m (subst IsLine (sym l_is) short.0.0) ∙ cur in
      subst (Gets d (l ∷ ls))
        (sym (
          round_reads whole u
          ∙ ap (λ (o : Option Code). after_read sys f (o, (read_more sys d).1)) code_is))
        (Gets-labels d (read_more sys d).1 (l ∷ ls) (line_loop sys f (read_more sys d).1) kept
          (find (read_more sys d).1 (l ∷ ls) short (w, same ∙ e) (omega (arith, less, fuel))))
    where
      not_cached : d.cached ≡ false
      not_cached = elim (Bool-cases d.cached) [
        | inl c ↦ absurd (
            omega (
              arith,
              ap length (v.whole c).1,
              ap length unread_is,
              length-append m (10 ∷ text_of ls),
            ))
        | inr u ↦ u
      ]

  -- The first line ends in the buffer.
  takes_line :
      (l : Bytes) (ls : List Bytes) (cs : Bytes)
      → All IsShort (l ∷ ls)
      → Ready (l ∷ ls) d
      → current d ≡ l ++ 10 ∷ cs
      → cs ++ d.unread ≡ text_of ls
      → 2 * length d.unread + remaining d < suc f
      → Finder
      → Gets d (l ∷ ls) (line_loop sys (suc f) d)
  takes_line l ls cs short (v, e) cur_is rest_is fuel find =
      let n_is : line_length (current d) ≡ length l =
        ap line_length cur_is ∙ line_length-whole l cs short.0.0 in
      let long : length (current d) ≡ length l + 1 + length cs =
        omega (arith, ap length cur_is, length-append l (10 ∷ cs)) in
      let cur : length (current d) ≡ remaining d = length-drop d.at d.buf in
      let line_is : take (line_length (current d)) (current d) ≡ l =
        ap (λ (i : ℕ). take i (current d)) n_is
        ∙ ap (take (length l)) cur_is
        ∙ take-append l (10 ∷ cs) in
      let d' : Datafile = behind (length l) d in
      let moved : advance d (line_length (current d)) ≡ d' =
        ap (advance d) n_is ∙ advance-behind (length l) d (omega (arith, long, cur)) in
      let w : IsValid d' = subst IsValid moved (advance-IsValid d v) in
      let ahead_is : ahead d' ≡ text_of ls =
        ap (λ (xs : Bytes). xs ++ d.unread)
          (sym (drop-add d.at (length l + 1) d.buf)
            ∙ ap (drop (length l + 1)) cur_is
            ∙ drop_line l cs)
        ∙ rest_is in
      let left : remaining d' ≡ length cs = omega (arith, long, cur) in
      subst (Gets d (l ∷ ls))
        (sym (
          round_takes (omega (arith, n_is, long, cur))
          ∙ ap
              (λ (xs : Bytes).
                if is_wanted xs
                then (ok xs, advance d (line_length (current d)))
                else line_loop sys f (advance d (line_length (current d))))
              line_is
          ∙ ap (λ (t : Datafile). if is_wanted l then (ok l, t) else line_loop sys f t) moved))
        (found (is_wanted l) d' (w, ahead_is) refl
          (find d' ls short.1 (w, ahead_is) (omega (arith, left, long, cur, fuel))))
    where
      Found : Bool → Outcome Bytes × Datafile → Type 0
      Found b r =
          if b then ((r.0 ≡ ok l) × (Ready ls r.1 × (labels r.1 ≡ labels d))) else Gets d ls r

      found :
          (b : Bool) (t : Datafile)
          → Ready ls t
          → labels t ≡ labels d
          → Gets t ls (line_loop sys f t)
          → Found b (if b then (ok l, t) else line_loop sys f t)
      found true t r kept g = (refl, (r, kept))
      found false t r kept g = Gets-labels d t ls (line_loop sys f t) kept g

-- Whatever lines are ahead, with enough fuel the loop finds the first wanted one, or the end.
pub line_loop-Gets :
    (sys : System) (f : ℕ) (d : Datafile) (ls : List Bytes)
    → IsReading sys
    → All IsShort ls
    → Ready ls d
    → 2 * length d.unread + remaining d < f
    → Gets d ls (line_loop sys f d)
line_loop-Gets sys zero d ls k short r fuel = absurd (omega (arith, fuel))
line_loop-Gets sys (suc f) d [] k short r fuel = at_end sys k f d r
line_loop-Gets sys (suc f) d (l ∷ ls) k short r fuel =
    first (newline_place (current d) d.unread l (text_of ls) r.1)
      (λ e ls' short' r' fuel'. line_loop-Gets sys f e ls' k short' r' fuel')
  where
    first :
        Split (current d) d.unread l (text_of ls)
        → Finder sys k f d
        → Gets d (l ∷ ls) (line_loop sys (suc f) d)
    first (inl (m, (l_is, unread_is))) find =
        more_to_read sys k f d l ls m short r l_is unread_is fuel find
    first (inr (cs, (cur_is, rest_is))) find =
        takes_line sys k f d l ls cs short r cur_is rest_is fuel find
