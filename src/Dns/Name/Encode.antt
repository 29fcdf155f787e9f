-- ===== src/Dns/Name/Encode.antt =====
-- src/dns.c, perf_dname_fromstring: names without escapes, with and without a dot at the end.
use dnsperf.Common.{
  take-append, drop-append, ℕ, zero, suc, ◌+◌, ◌-◌, ◌%◌, ◌≤◌, ◌<◌, ◌≡◌, refl, ap, ◌∙◌, Bool, true,
  false, ◌||◌, some, List, [], ◌∷◌, ◌++◌, arith, ltb, ◌==◌, if◌then◌else◌, Bytes, length,
  length-append, drop, All, ok,
}
use mathlib.Core.List.{append_assoc}
use dnsperf.Buffer.{Buffer, used_length, available, put_uint8}
use dnsperf.Buffer.Laws.{put_mem_fits, put_uint8_fits}
use dnsperf.Dns.Name.{plain, scan_label, put_label, name_loop, dname_from_string}
use dnsperf.Dns.Name.Steps.{scan_plain}
use dnsperf.Dns.Name.Wire.{wire, wire_cons, size, IsLabel}

-- An octet that a name may show as it is.
abbrev pub IsPlain : ℕ → Type 0
IsPlain c = ((c == b'\\') ≡ false) × ((c == b'.') ≡ false)

-- A label as the loop of the source reads it: 1 to 63 octets, none a dot or a backslash.
abbrev pub IsPlainLabel : Bytes → Type 0
IsPlainLabel l = All IsPlain l × IsLabel l

-- The text of a name: the labels with dots between them, and a dot at the end if `absolute`.
abbrev pub ending : Bool → Bytes
ending absolute = if absolute then b'.' ∷ [] else []

unfoldable pub text : Bool → Bytes → List Bytes → Bytes
text absolute l [] = l ++ ending absolute
text absolute l (m ∷ ls) = l ++ (b'.' ∷ text absolute m ls)

-- What ends a label.
abbrev Ends : Bytes → Type 0
Ends [] = Unit {0}
Ends (c ∷ cs) = c ≡ b'.'

scan_whole :
    (l rest : Bytes) (n : ℕ)
    → All IsPlain l
    → Ends rest
    → scan_label plain (l ++ rest) n false ≡ some (n + length l, false)
scan_whole [] [] n p e = unfold scan_label in ground arith
scan_whole [] (c ∷ cs) n p e = ground (arith, scan_plain c cs n false)
scan_whole (c ∷ l) rest n ((a, d), p) e =
    rw (scan_plain, a, d, scan_whole l rest (n + 1) p e) (ap (λ k. some (k, false)) (omega arith))

label_octets :
    (b : Buffer) (l : Bytes)
    → length l ≤ 63
    → (b.bytes ++ length l % 256 ∷ []) ++ l ≡ b.bytes ++ (length l ∷ l)
label_octets b l small =
    let e : length l % 256 ≡ length l = omega arith in rw e (append_assoc b.bytes (length l ∷ []) l)

put_whole_label :
    (l rest : Bytes) (b : Buffer)
    → length l ≤ 63
    → used_length b + (length l + 1) ≤ b.cap
    → put_label (l ++ rest) (length l) false b
      ≡ ok (rest, record b { bytes = b.bytes ++ (length l ∷ l) })
unfolding put_label
put_whole_label l rest b small fits =
    rw
      (
        put_uint8_fits b (length l) (omega arith),
        take-append l rest,
        drop-append l rest,
        put_mem_fits (record b { bytes = b.bytes ++ length l % 256 ∷ [] }) l
            (omega (arith, length-append b.bytes (length l % 256 ∷ []))),
      )
      (ap (λ xs. ok (rest, record b { bytes = xs })) (label_octets b l small))

-- One round of the loop over a plain label.
plain_round :
    (f : ℕ) (first : Bool) (c : ℕ) (l rest : Bytes) (room : ℕ) (b : Buffer)
    → IsPlainLabel (c ∷ l)
    → Ends rest
    → length (c ∷ l) + 1 ≤ room
    → used_length b + (length (c ∷ l) + 1) ≤ b.cap
    → let b₁ = record b { bytes = b.bytes ++ (length (c ∷ l) ∷ c ∷ l) } in
      name_loop (suc f) first ((c ∷ l) ++ rest) room b ≡ (
        if ltb (length rest) 2
        then put_uint8 b₁ 0
        else name_loop f false (drop 1 rest) (room - (length (c ∷ l) + 1)) b₁)
plain_round f first c l rest room b (p, (lo, hi)) e fits space =
    let found : scan_label plain ((c ∷ l) ++ rest) 0 false ≡ some (length (c ∷ l), false) =
      scan_whole (c ∷ l) rest 0 p e ∙ ap (λ k. some (k, false)) (omega arith) in
    let label : (length (c ∷ l) == 0) ≡ false = ground arith in
    let small : (ltb 63 (length (c ∷ l)) || ltb room (length (c ∷ l) + 1)) ≡ false = ground arith in
    unfold name_loop in rw (found, name_loop, label, small, put_whole_label (c ∷ l) rest b hi space)

-- The space that a name takes is free in `b`.
abbrev Fits : ℕ → Buffer → List Bytes → Type 0
Fits room b ls = (size ls ≤ room) × (used_length b + (size ls + 1) ≤ b.cap)

last_label :
    (absolute : Bool) (f room : ℕ) (l : Bytes) (b : Buffer)
    → used_length b + (length l + 2) ≤ b.cap
    → let b₁ = record b { bytes = b.bytes ++ (length l ∷ l) } in
      (if ltb (length (ending absolute)) 2
        then put_uint8 b₁ 0
        else name_loop f false (drop 1 (ending absolute)) room b₁)
      ≡ ok (record b { bytes = b.bytes ++ wire (l ∷ []) })
unfolding wire
last_label absolute f room l b space =
    let b₁ : Buffer = record b { bytes = b.bytes ++ (length l ∷ l) } in
    let root : (ltb (length (ending absolute)) 2) ≡ true = ground arith in
    let done = put_uint8_fits b₁ 0 (omega (arith, length-append b.bytes (length l ∷ l))) in
    rw root done
    ∙ ap (λ xs. ok (record b { bytes = xs })) (append_assoc b.bytes (length l ∷ l) (0 ∷ []))

text_long : (absolute : Bool) (l : Bytes) (ls : List Bytes) → length l ≤ length (text absolute l ls)
unfolding text
text_long absolute l [] = omega (arith, length-append l (ending absolute))
text_long absolute l (m ∷ ls) = omega (arith, length-append l (b'.' ∷ text absolute m ls))

name_loop-text :
    (f : ℕ) (first absolute : Bool) (l : Bytes) (ls : List Bytes) (room : ℕ) (b : Buffer)
    → All IsPlainLabel (l ∷ ls)
    → Fits room b (l ∷ ls)
    → length ls < f
    → name_loop f first (text absolute l ls) room b
      ≡ ok (record b { bytes = b.bytes ++ wire (l ∷ ls) })
unfolding text size
name_loop-text zero first absolute l ls room b p fits fuel = absurd (omega arith)
name_loop-text (suc f) first absolute [] ls room b p fits fuel = absurd (omega arith)
name_loop-text (suc f) first true (c ∷ l) [] room b (p, _) fits fuel =
    plain_round f first c l (ending true) room b p refl (omega arith) (omega arith)
    ∙ last_label true f (room - (length (c ∷ l) + 1)) (c ∷ l) b (omega arith)
name_loop-text (suc f) first false (c ∷ l) [] room b (p, _) fits fuel =
    plain_round f first c l (ending false) room b p tt (omega arith) (omega arith)
    ∙ last_label false f (room - (length (c ∷ l) + 1)) (c ∷ l) b (omega arith)
name_loop-text (suc f) first absolute (c ∷ l) (m ∷ ls) room b (p, ps) fits fuel =
    let b₁ : Buffer = record b { bytes = b.bytes ++ (length (c ∷ l) ∷ c ∷ l) } in
    let more : (ltb (length (b'.' ∷ text absolute m ls)) 2) ≡ false =
      ground (arith, text_long absolute m ls) in
    plain_round f first c l (b'.' ∷ text absolute m ls) room b p refl (omega arith) (omega arith)
    ∙ rw more (
        name_loop-text f false absolute m ls (room - (length (c ∷ l) + 1)) b₁ ps
          (omega (arith, length-append b.bytes (length (c ∷ l) ∷ c ∷ l))) (omega arith))
    ∙ ap (λ xs. ok (record b { bytes = xs })) (wire_cons b.bytes (c ∷ l) (m ∷ ls))

text_short :
    (absolute : Bool) (l : Bytes) (ls : List Bytes) → length (text absolute l ls) ≤ size (l ∷ ls)
unfolding text size
text_short true l [] = omega (arith, length-append l (ending true))
text_short false l [] = omega (arith, length-append l (ending false))
text_short absolute l (m ∷ ls) =
    omega (arith, length-append l (b'.' ∷ text absolute m ls), text_short absolute m ls)

-- Without a dot at the end the text is one octet shorter.
pub text_exact : (l : Bytes) (ls : List Bytes) → length (text false l ls) + 1 ≡ size (l ∷ ls)
unfolding text size
text_exact l [] = omega (arith, length-append l (ending false))
text_exact l (m ∷ ls) = omega (arith, length-append l (b'.' ∷ text false m ls), text_exact m ls)

labels_lt :
    (absolute : Bool) (l : Bytes) (ls : List Bytes)
    → All IsPlainLabel (l ∷ ls)
    → length ls < length (text absolute l ls)
unfolding text
labels_lt absolute l [] (p, _) = omega (arith, length-append l (ending absolute))
labels_lt absolute l (m ∷ ls) (p, ps) =
    omega (arith, length-append l (b'.' ∷ text absolute m ls), labels_lt absolute m ls ps)

-- A name written in dotted labels of 1 to 63 octets, none a dot or a backslash, with or without a
-- dot at the end, comes out as its labels in wire format, behind what the buffer held, if the
-- labels with their length octets take at most 255 octets and the buffer has room for these and
-- the root's octet.
pub dname_from_string-text :
    (absolute : Bool) (l : Bytes) (ls : List Bytes) (b : Buffer)
    → All IsPlainLabel (l ∷ ls)
    → size (l ∷ ls) ≤ 255
    → used_length b + (size (l ∷ ls) + 1) ≤ b.cap
    → dname_from_string (text absolute l ls) b ≡ ok (record b { bytes = b.bytes ++ wire (l ∷ ls) })
unfolding dname_from_string
dname_from_string-text absolute l ls b p small fits =
    let room : ltb (available b) (length (text absolute l ls)) ≡ false =
      ground (arith, text_short absolute l ls) in
    rw room (
      name_loop-text (length (text absolute l ls)) true absolute l ls 255 b p (small, fits)
        (labels_lt absolute l ls p))
