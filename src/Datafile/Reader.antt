-- ===== src/Datafile/Reader.antt =====
-- src/datafile.c, read_one_line and read_one_blob.
use dnsperf.Common.{
  ℕ, zero, suc, ◌+◌, ◌-◌, ◌*◌, Bool, false, not, ◌&&◌, ◌||◌, none, some, [], ◌∷◌, ltb, leb, ◌==◌,
  if◌then◌else◌, Bytes, length, get_or, take, drop, eof, invalid_file, Outcome, ok, err, abort,
  stuck, ◌>>=◌,
}
use dnsperf.Buffer.{Buffer, available, put_mem, put_uint8}
use dnsperf.Datafile.{Datafile, System, read_more}

-- strcspn(cur, "\n") on text that ends at the first zero.
unfoldable pub line_length : Bytes → ℕ
line_length [] = 0
line_length (c ∷ cs) = let rest = suc (line_length cs) in if c == 10 || c == 0 then 0 else rest

-- `dfile->have - dfile->at`
abbrev pub remaining : Datafile → ℕ
remaining d = length d.buf - d.at

abbrev pub current : Datafile → Bytes
current d = drop d.at d.buf

-- Past the line of length `n`, and past its end if it has one in the buffer.
unfoldable pub advance : Datafile → ℕ → Datafile
advance d n = record d { at = if ltb (d.at + n) (length d.buf) then d.at + n + 1 else d.at + n }

-- `curlen > 0 && cur[0] != ';'`
unfoldable pub is_wanted : Bytes → Bool
is_wanted [] = false
is_wanted (c ∷ cs) = not (c == b';')

-- The `while (true)` of read_one_line: the next line that is neither empty nor a comment.
unfoldable pub line_loop : System → ℕ → Datafile → Outcome Bytes × Datafile
unfolding line_length advance is_wanted read_more
line_loop sys zero d = (stuck, d)
line_loop sys (suc f) d =
    let n = line_length (current d) in
    let line = take n (current d) in
    let after = line_loop sys f (advance d n) in
    let taken = if is_wanted line then (ok line, advance d n) else after in
    let (code, d') = read_more sys d in
    let again = line_loop sys f d' in
    if not (n == remaining d)
    then taken
    else if d.cached
    then (if remaining d == 0 then (err eof, d) else taken)
    else elim code [ some e ↦ (err e, d') | none ↦ again ]

-- What read_one_line puts into `lines`: the text cut to the space, and a zero. `length - 1` is an
-- unsigned number, so that with no space at all nothing is cut.
unfoldable pub put_line : Buffer → Bytes → Outcome Buffer
put_line lines line =
    let space = available lines in
    let cut =
      if ltb 0 space && ltb (space - 1) (length line) then take (space - 1) line else line in
    put_mem lines cut >>= λ lines'. put_uint8 lines' 0

abbrev pub line_fuel : Datafile → ℕ
line_fuel d = 2 * length d.unread + length d.buf + 2

-- read_one_line
unfoldable pub read_one_line : System → Datafile → Buffer → Outcome Buffer × Datafile
unfolding line_loop put_line
read_one_line sys d lines =
    let (line, d') = line_loop sys (line_fuel d) d in (line >>= put_line lines, d')

abbrev pub big_endian : Bytes → ℕ
big_endian cur = get_or cur 0 0 * 256 + get_or cur 1 0

-- The first `while (true)` of read_one_blob: the packet's size from its two octets.
unfoldable pub preamble_loop : System → ℕ → Datafile → Outcome ℕ × Datafile
unfolding read_more
preamble_loop sys zero d = (stuck, d)
preamble_loop sys (suc f) d =
    let (code, d') = read_more sys d in
    let again = preamble_loop sys f d' in
    if leb 2 (remaining d)
    then (ok (big_endian (current d)), d)
    else if d.cached
    then (if remaining d == 0 then err eof else err invalid_file, d)
    else elim code [
      | none ↦ again
      | some eof ↦ (if remaining d' == 0 then err eof else err invalid_file, d')
      | some e ↦ (err e, d')
    ]

-- The second one: until the whole packet is in the buffer.
unfoldable pub body_loop : System → ℕ → ℕ → Datafile → Outcome (Unit {0}) × Datafile
unfolding read_more
body_loop sys size zero d = (stuck, d)
body_loop sys size (suc f) d =
    let (code, d') = read_more sys d in
    let again = body_loop sys size f d' in
    if leb (2 + size) (remaining d)
    then (ok tt, d)
    else if d.cached
    then (err invalid_file, d)
    else elim code [ none ↦ again | some eof ↦ (err invalid_file, d') | some e ↦ (err e, d') ]

unfoldable pub take_blob : ℕ → Datafile → Buffer → Outcome Buffer × Datafile
take_blob size d wire =
    (put_mem wire (take size (drop 2 (current d))), record d { at = d.at + (2 + size) })

abbrev pub blob_body : System → Datafile → Buffer → Outcome ℕ → Outcome Buffer × Datafile
blob_body sys d wire (ok size) =
    let (done, d') = body_loop sys size (length d.unread + 1) d in
    elim done [
      | ok _ ↦ take_blob size d' wire
      | err e ↦ (err e, d')
      | abort ↦ (abort, d')
      | stuck ↦ (stuck, d')
    ]
blob_body sys d wire (err e) = (err e, d)
blob_body sys d wire abort = (abort, d)
blob_body sys d wire stuck = (stuck, d)

-- read_one_blob
unfoldable pub read_one_blob : System → Datafile → Buffer → Outcome Buffer × Datafile
unfolding preamble_loop body_loop take_blob
read_one_blob sys d wire =
    let (size, d') = preamble_loop sys (length d.unread + 1) d in blob_body sys d' wire size
