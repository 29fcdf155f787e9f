-- ===== src/Datafile/Valid.antt =====
-- src/datafile.c: what holds of the reader's state between calls.
use dnsperf.Common.{
  if_cases, Option-cases, ℕ, ◌-◌, ◌≤◌, ◌<◌, ◌≡◌, refl, sym, ap, ◌∙◌, inl, inr, Bool, true, false,
  not, ◌&&◌, Option, none, some, [], ◌++◌, arith, ltb, ◌==◌, if◌then◌else◌, Bytes, length,
  length-append, take, drop, Code, eof, middle_whole, take-drop, length-take-le, length-drop,
}
use mathlib.Core.List.{append_assoc}
use dnsperf.Datafile.{
  Datafile, Format, System, open_file, reopen_file, compact, fill, read_more, databuf_size,
}

-- read(2) returns no more than it is asked for.
abbrev pub IsBounded : System → Type 0
IsBounded sys = (left room n : ℕ) → sys.read left room ≡ some n → n ≤ room

-- The buffer is a piece of the file that ends at the descriptor's offset, with space for a zero
-- behind it; in cached mode it is the whole file.
pub record IsValid (d : Datafile) : Type 0 where
  pub before : Bytes
  pub splits : before ++ (d.buf ++ d.unread) ≡ d.content
  pub at_in : d.at ≤ length d.buf
  pub small : length d.buf < databuf_size
  pub size_is : d.is_file ≡ true → d.size ≡ length d.content
  pub whole : d.cached ≡ true → (d.buf ≡ d.content) × (d.unread ≡ [])

pub open_file-IsValid : (content : Bytes) (format : Format) → IsValid (open_file content format)
unfolding open_file
open_file-IsValid content format = record {
  before = [];
  splits = refl;
  at_in = omega arith;
  small = omega arith;
  size_is = λ _. refl;
  whole = λ h. cc;
}

pub reopen_file-IsValid : (d : Datafile) → IsValid d → IsValid (reopen_file d)
unfolding reopen_file
reopen_file-IsValid d v =
    if_cases IsValid d.cached (record d { at = 0 })
      (record d { at = 0; buf = []; unread = d.content })
      (λ c. record {
        before = v.before;
        splits = v.splits;
        at_in = omega arith;
        small = v.small;
        size_is = v.size_is;
        whole = v.whole;
      })
      (λ c. record {
        before = [];
        splits = refl;
        at_in = omega arith;
        small = omega arith;
        size_is = v.size_is;
        whole = λ h. cc;
      })

-- A state that is not in cached mode.
abbrev IsLoading : Datafile → Type 0
IsLoading d = IsValid d × (d.cached ≡ false)

compact-IsLoading : (d : Datafile) → IsLoading d → IsLoading (compact d)
unfolding compact
compact-IsLoading d (v, u) =
    if_cases IsLoading (ltb 0 d.at && ltb d.at (length d.buf))
      (record d { buf = drop d.at d.buf; at = 0 })
      (if d.at == length d.buf then record d { buf = []; at = 0 } else d)
      (λ c. (
        record {
          before = v.before ++ take d.at d.buf;
          splits =
              append_assoc v.before (take d.at d.buf) (drop d.at d.buf ++ d.unread)
              ∙ ap (λ xs. v.before ++ xs)
                  (sym (append_assoc (take d.at d.buf) (drop d.at d.buf) d.unread)
                    ∙ ap (λ xs. xs ++ d.unread) (take-drop d.at d.buf))
              ∙ v.splits;
          at_in = omega arith;
          small = omega (arith, length-drop d.at d.buf, v.small);
          size_is = v.size_is;
          whole = λ h. cc;
        },
        u,
      ))
      (λ c.
        if_cases IsLoading (d.at == length d.buf) (record d { buf = []; at = 0 }) d
          (λ e. (
            record {
              before = v.before ++ d.buf;
              splits = append_assoc v.before d.buf d.unread ∙ v.splits;
              at_in = omega arith;
              small = omega arith;
              size_is = v.size_is;
              whole = λ h. cc;
            },
            u,
          ))
          (λ e. (v, u)))

cached_means :
    (file : Bool) (a b : ℕ) (old : Bool)
    → (if file && a == b then true else old) ≡ true
    → old ≡ false
    → (file ≡ true) × (a ≡ b)
cached_means file a b old h u = (ground arith, ground arith)

-- The state behind a read of `n` bytes.
abbrev filled : ℕ → Datafile → Datafile
filled n d = record d {
  unread = drop n d.unread;
  buf = d.buf ++ take n d.unread;
  cached = if d.is_file && length (d.buf ++ take n d.unread) == d.size then true else d.cached;
}

filled_splits :
    (d : Datafile) (v : IsValid d) (n : ℕ)
    → v.before ++ ((d.buf ++ take n d.unread) ++ drop n d.unread) ≡ d.content
filled_splits d v n =
    ap (λ xs. v.before ++ xs)
      (append_assoc d.buf (take n d.unread) (drop n d.unread)
        ∙ ap (λ xs. d.buf ++ xs) (take-drop n d.unread))
    ∙ v.splits

filled-IsValid :
    (d : Datafile) (n : ℕ)
    → n ≤ databuf_size - length d.buf - 1
    → IsLoading d
    → IsValid (filled n d)
filled-IsValid d n room (v, u) = record {
  before = v.before;
  splits = filled_splits d v n;
  at_in = omega (arith, length-append d.buf (take n d.unread), v.at_in);
  small = omega (arith, length-append d.buf (take n d.unread), length-take-le n d.unread, v.small);
  size_is = v.size_is;
  whole = λ h.
      let (file, all) =
        cached_means d.is_file (length (d.buf ++ take n d.unread)) d.size d.cached h u in
      middle_whole v.before (d.buf ++ take n d.unread) (drop n d.unread) d.content
        (filled_splits d v n) (all ∙ v.size_is file);
}

fill-IsValid : (sys : System) (d : Datafile) → IsBounded sys → IsLoading d → IsValid (fill sys d).1
unfolding fill
fill-IsValid sys d bound l =
    elim (Option-cases (sys.read (length d.unread) (databuf_size - length d.buf - 1))) [
      | inl e ↦ rw (e, fill) l.0
      | inr (n, e) ↦
          rw (e, fill)
            (if_cases (λ (r : Option Code × Datafile). IsValid r.1) (n == 0) (some eof, d)
              (none, filled n d) (λ z. l.0) (λ z. filled-IsValid d n (bound _ _ n e) l))
    ]

-- read_more keeps the state valid, and enters cached mode only with the whole file at hand.
pub read_more-IsValid :
    (sys : System) (d : Datafile)
    → IsBounded sys
    → IsValid d
    → d.cached ≡ false
    → IsValid (read_more sys d).1
unfolding read_more
read_more-IsValid sys d bound v u =
    elim (Option-cases (if not d.is_file && d.pipe_fd then sys.wait else none)) [
      | inl e ↦ rw (e, read_more) (fill-IsValid sys (compact d) bound (compact-IsLoading d (v, u)))
      | inr (c, e) ↦ rw (e, read_more) v
    ]
