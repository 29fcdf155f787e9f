-- ===== src/Dns/Name.antt =====
-- src/dns.c, perf_dname_fromstring: a domain name from its text to wire format.
pub mod Octets
pub mod Steps
pub mod Label
pub mod Copy
pub mod Wire
pub mod Encode
pub mod Safety
pub mod Decimal
use dnsperf.Common.{
  ℕ, zero, suc, ◌+◌, ◌-◌, ◌*◌, Bool, true, false, not, ◌&&◌, ◌||◌, Option, none, some, [], ◌∷◌, ltb,
  leb, ◌==◌, if◌then◌else◌, is_digit, Bytes, length, take, drop, failure, no_space, Outcome, ok,
  err, abort, stuck, ◌>>=◌,
}
use dnsperf.Buffer.{Buffer, available, put_mem, put_uint8}

-- Where a pass over the text stands: `escaped` behind a backslash, `one` and `two` behind that
-- many digits of an escape `\DDD`. Each state is one `at++` of the C loops.
pub data Escape : Type 0 where
  plain escaped : Escape
  one : ℕ → Escape
  two : ℕ → ℕ → Escape

-- The first pass over a label: its length in octets, and whether it holds an escape.
-- `none` is PERF_R_FAILURE. It stops at a dot or at the end of the text.
unfoldable pub scan_label : Escape → Bytes → ℕ → Bool → Option (ℕ × Bool)
scan_label plain [] n quoted = some (n, quoted)
scan_label plain (c ∷ cs) n quoted =
    let in_escape = scan_label escaped cs n true in
    let behind = scan_label plain cs (n + 1) quoted in
    if c == b'\\' then in_escape else if c == b'.' then some (n, quoted) else behind
scan_label escaped [] n quoted = none
scan_label escaped (c ∷ cs) n quoted =
    let digits = scan_label (one c) cs n quoted in
    let behind = scan_label plain cs (n + 1) quoted in if is_digit c then digits else behind
scan_label (one d) [] n quoted = none
scan_label (one d) (c ∷ cs) n quoted =
    let digits = scan_label (two d c) cs n quoted in if is_digit c then digits else none
scan_label (two d e) [] n quoted = none
scan_label (two d e) (c ∷ cs) n quoted =
    let behind = scan_label plain cs (n + 1) quoted in if is_digit c then behind else none

-- strtol(b, 0, 7) on text that begins with a decimal digit: it stops at the first character
-- that is no digit of base 7.
unfoldable pub strtol_7 : ℕ → Bytes → ℕ
strtol_7 acc [] = acc
strtol_7 acc (c ∷ cs) =
    let more = strtol_7 (acc * 7 + (c - b'0')) cs in if leb b'0' c && leb c b'6' then more else acc

-- The second pass, over a label with escapes: what is left of the text, and the buffer.
-- The first pass has ruled out an end of the text inside an escape.
unfoldable pub copy_label : Escape → Bytes → Buffer → Outcome (Bytes × Buffer)
unfolding strtol_7 put_mem put_uint8
copy_label plain [] b = ok ([], b)
copy_label plain (c ∷ cs) b =
    let in_escape = copy_label escaped cs b in
    let copied = put_mem b (c ∷ []) >>= λ b'. copy_label plain cs b' in
    if c == b'\\' then in_escape else if c == b'.' then ok (c ∷ cs, b) else copied
copy_label escaped [] b = abort
copy_label escaped (c ∷ cs) b =
    let digits = copy_label (one c) cs b in
    let copied = put_mem b (c ∷ []) >>= λ b'. copy_label plain cs b' in
    if is_digit c then digits else copied
copy_label (one d) [] b = abort
copy_label (one d) (c ∷ cs) b = copy_label (two d c) cs b
copy_label (two d e) [] b = abort
copy_label (two d e) (c ∷ cs) b =
    let v = strtol_7 0 (d ∷ e ∷ c ∷ []) in
    let stored = put_uint8 b v >>= λ b'. copy_label plain cs b' in
    if ltb 255 v then err failure else stored

-- A label of `n` octets behind its length: what is left of the text, and the buffer.
unfoldable pub put_label : Bytes → ℕ → Bool → Buffer → Outcome (Bytes × Buffer)
unfolding put_mem put_uint8
put_label str n true b = do b' ← put_uint8 b n; copy_label plain str b'
put_label str n false b = do b' ← put_uint8 b n; b'' ← put_mem b' (take n str); ok (drop n str, b'')

-- `while (len)`: `first` says that `str == orig_str`, and `room` is `max`.
unfoldable pub name_loop : ℕ → Bool → Bytes → ℕ → Buffer → Outcome Buffer
unfolding scan_label put_uint8
name_loop fuel first [] room b = ok b
name_loop zero first (c ∷ cs) room b = stuck
name_loop (suc fuel) first (c ∷ cs) room b = elim (scan_label plain (c ∷ cs) 0 false) [
  | none ↦ err failure
  | some (n, quoted) ↦
      if n == 0
      then (if ltb 1 (length (c ∷ cs)) || not first then err failure else put_uint8 b 0)
      else if ltb 63 n || ltb room (n + 1)
      then err failure
      else put_label (c ∷ cs) n quoted b >>= λ (rest, b').
          let more = name_loop fuel false (drop 1 rest) (room - (n + 1)) b' in
          if ltb (length rest) 2 then put_uint8 b' 0 else more
]

-- perf_dname_fromstring. Each round takes an octet at least, so `length str` rounds are enough.
unfoldable pub dname_from_string : Bytes → Buffer → Outcome Buffer
dname_from_string str target =
    if ltb (available target) (length str)
    then err no_space
    else name_loop (length str) true str 255 target
