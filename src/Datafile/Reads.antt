-- ===== src/Datafile/Reads.antt =====
-- src/datafile.c, read_more: what lies ahead of the reader stays the same.
use dnsperf.Common.{eof}
use dnsperf.Common.{[]}
use dnsperf.Common.{
  ℕ, ◌+◌, ◌-◌, ◌*◌, ◌≡◌, ◌≤◌, ◌<◌, refl, sym, ap, ◌∙◌, Bool, not, ◌&&◌, Option, none, some, ◌++◌,
  arith, ltb, ◌==◌, if◌then◌else◌, if_cases, Bytes, length, length-append, length-drop, take, drop,
  take-drop, eq-nil_of_length, Code,
}
use mathlib.Core.List.{append_assoc}
use dnsperf.Datafile.{Datafile, Format, System, compact, fill, read_more, databuf_size}
use dnsperf.Datafile.Reader.{current, remaining}

-- read(2) gives a byte at least where the file has one and there is room for one, and nothing at its
-- end; and there is no wait that fails.
pub record IsReading (sys : System) : Type 0 where
  pub bounded : (left room n : ℕ) → sys.read left room ≡ some n → n ≤ room
  pub reads :
      (left room : ℕ) → 0 < left → 0 < room → (n : ℕ) × ((sys.read left room ≡ some n) × (0 < n))
  pub ends : (room : ℕ) → sys.read 0 room ≡ some 0
  pub waits : sys.wait ≡ none

-- What the reader has not passed yet.
abbrev pub ahead : Datafile → Bytes
ahead d = current d ++ d.unread

-- What no reading changes.
abbrev pub labels : Datafile → Format × (ℕ × (ℕ × (Bool × Bytes)))
labels d = (d.format, (d.maxruns, (d.nruns, (d.read_any, d.content))))

abbrev Compacted : Datafile → Datafile → Type 0
Compacted d e = (e.at ≡ 0) × ((e.buf ≡ current d) × ((e.unread ≡ d.unread) × (labels e ≡ labels d)))

compact-Compacted : (d : Datafile) → d.at ≤ length d.buf → Compacted d (compact d)
unfolding compact
compact-Compacted d h =
    if_cases (Compacted d) (ltb 0 d.at && ltb d.at (length d.buf)) _ _
      (λ c. (refl, (refl, (refl, refl))))
      (λ c.
        if_cases (Compacted d) (d.at == length d.buf) _ _
          (λ e. (
            refl,
            (
              sym (eq-nil_of_length (current d) (ground (arith, length-drop d.at d.buf))),
              (refl, refl),
            ),
          ))
          (λ e.
            let start : d.at ≡ 0 = ground arith in
            (start, (ap (λ k. drop k d.buf) (sym start), (refl, refl)))))

-- A read of some bytes.
abbrev pub Advances : Datafile → Option Code × Datafile → Type 0
Advances d r =
    (r.0 ≡ none)
    × ((ahead r.1 ≡ ahead d)
        × ((labels r.1 ≡ labels d)
            × (2 * length r.1.unread + remaining r.1 < 2 * length d.unread + remaining d)))

fill-Advances :
    (sys : System) (e : Datafile)
    → IsReading sys
    → e.at ≡ 0
    → 0 < length e.unread
    → length e.buf + 1 < databuf_size
    → Advances e (fill sys e)
unfolding fill
fill-Advances sys e k start more room =
    let (n, (eq, some_read)) =
      k.reads (length e.unread) (databuf_size - length e.buf - 1) more (omega arith) in
    rw (eq, fill)
      (if_cases (Advances e) (n == 0) _ _ (λ z. absurd (ground arith))
        (λ _. (
          refl,
          (
            rw (start) (
                append_assoc e.buf (take n e.unread) (drop n e.unread)
                ∙ ap (λ xs. e.buf ++ xs) (take-drop n e.unread)),
            (
              refl,
              omega (
                arith,
                start,
                length-append e.buf (take n e.unread),
                length-drop n e.unread,
                length-append (take n e.unread) (drop n e.unread),
                ap length (take-drop n e.unread),
              ),
            ),
          ),
        )))

no_wait :
    (sys : System) (d : Datafile)
    → IsReading sys
    → (if not d.is_file && d.pipe_fd then sys.wait else none) ≡ none
no_wait sys d k =
    if_cases (λ (o : Option Code). o ≡ none) (not d.is_file && d.pipe_fd) _ _ (λ _. k.waits)
      (λ _. refl)

-- In a buffer with space left, read_more reads.
pub read_more-Advances :
    (sys : System) (d : Datafile)
    → IsReading sys
    → d.at ≤ length d.buf
    → 0 < length d.unread
    → remaining d + 1 < databuf_size
    → Advances d (read_more sys d)
unfolding read_more
read_more-Advances sys d k at_in more room =
    let (start, (buf_is, (unread_is, labels_are))) = compact-Compacted d at_in in
    let len : length (compact d).buf ≡ remaining d = ap length buf_is ∙ length-drop d.at d.buf in
    let (none_is, (same, (kept, less))) =
      fill-Advances sys (compact d) k start (rw (unread_is) more) (rw (len) room) in
    rw (no_wait sys d k, read_more)
      (
        none_is,
        (
          same
              ∙ ap (λ (i : ℕ). drop i (compact d).buf ++ (compact d).unread) start
              ∙ ap (λ (xs : Bytes). xs ++ (compact d).unread) buf_is
              ∙ ap (λ (xs : Bytes). current d ++ xs) unread_is,
          (kept ∙ labels_are, omega (arith, less, len, start, ap length unread_is)),
        ),
      )

-- At the end of the file it answers PERF_R_EOF.
abbrev pub Exhausts : Datafile → Option Code × Datafile → Type 0
Exhausts d r = (r.0 ≡ some eof) × ((ahead r.1 ≡ ahead d) × (labels r.1 ≡ labels d))

pub read_more-Exhausts :
    (sys : System) (d : Datafile)
    → IsReading sys
    → d.at ≤ length d.buf
    → d.unread ≡ []
    → Exhausts d (read_more sys d)
unfolding read_more fill
read_more-Exhausts sys d k at_in none_left =
    let (start, (buf_is, (unread_is, labels_are))) = compact-Compacted d at_in in
    let left : length (compact d).unread ≡ 0 = ap length (unread_is ∙ none_left) in
    let nothing : sys.read (length (compact d).unread) (databuf_size - length (compact d).buf - 1)
        ≡ some 0 =
      ap (λ (i : ℕ). sys.read i (databuf_size - length (compact d).buf - 1)) left ∙ k.ends _ in
    rw (no_wait sys d k, read_more, nothing, fill)
      (
        refl,
        (
          ap (λ (i : ℕ). drop i (compact d).buf ++ (compact d).unread) start
              ∙ ap (λ (xs : Bytes). xs ++ (compact d).unread) buf_is
              ∙ ap (λ (xs : Bytes). current d ++ xs) unread_is,
          labels_are,
        ),
      )
