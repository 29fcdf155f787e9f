-- ===== src/Dns/Name/Wire.antt =====
-- src/dns.c, perf_dname_fromstring: whatever it accepts comes out as a domain name in wire format.
use dnsperf.Common.{
  ltb_suc2, Option-cases, err-ne-ok, stuck-ne-ok, ℕ, zero, suc, ◌+◌, ◌-◌, ◌≤◌, ◌≡◌, ap, ◌∙◌, inl,
  inr, Bool, true, false, not, ◌||◌, some, List, [], ◌∷◌, ◌++◌, arith, ltb, ◌==◌, if◌then◌else◌,
  Bool-cases, Bytes, length, length-append, drop, All, ok, ◌>>=◌, bind-eq-ok,
}
use mathlib.Core.List.{append_assoc}
use dnsperf.Buffer.{Buffer, available, put_uint8}
use dnsperf.Buffer.Laws.{put_uint8-eq-ok}
use dnsperf.Dns.Name.{plain, scan_label, put_label, name_loop, dname_from_string}
use dnsperf.Dns.Name.Octets.{octets}
use dnsperf.Dns.Name.Copy.{put_label-Copied}

-- RFC 1035, 3.1: each label behind its length, and a zero octet at the end.
unfoldable pub wire : List Bytes → Bytes
wire [] = 0 ∷ []
wire (l ∷ ls) = length l ∷ (l ++ wire ls)

-- The octets of the labels with their lengths, the root's not counted.
unfoldable pub size : List Bytes → ℕ
size [] = 0
size (l ∷ ls) = length l + 1 + size ls

pub length-wire : (ls : List Bytes) → length (wire ls) ≡ size ls + 1
unfolding wire size
length-wire [] = omega arith
length-wire (l ∷ ls) = omega (arith, length-append l (wire ls), length-wire ls)

pub wire_cons :
    (xs l : Bytes) (ls : List Bytes) → (xs ++ (length l ∷ l)) ++ wire ls ≡ xs ++ wire (l ∷ ls)
unfolding wire
wire_cons xs l ls = append_assoc xs (length l ∷ l) (wire ls)

abbrev pub IsLabel : Bytes → Type 0
IsLabel l = (1 ≤ length l) × (length l ≤ 63)

-- `b'` holds what `b` holds and a domain name whose labels take at most `room` octets.
abbrev pub HoldsName : ℕ → Buffer → Buffer → Type 0
HoldsName room b b' =
    (ls : List Bytes) × All IsLabel ls
    × (size ls ≤ room)
    × (b' ≡ record b { bytes = b.bytes ++ wire ls })

holds_root : (room : ℕ) (b : Buffer) {b' : Buffer} → put_uint8 b 0 ≡ ok b' → HoldsName room b b'
unfolding wire size
holds_root room b h = ([], tt, omega arith, put_uint8-eq-ok b 0 h)

holds_label :
    (room n : ℕ) (l : Bytes) (b b' b'' : Buffer)
    → length l ≡ n
    → 1 ≤ n
    → n ≤ 63
    → n + 1 ≤ room
    → b' ≡ record b { bytes = b.bytes ++ (n ∷ l) }
    → HoldsName (room - (n + 1)) b' b''
    → HoldsName room b b''
unfolding wire size
holds_label room n l b b' b'' len lo hi fits w (ls, good, small, e) = (
  l ∷ ls,
  ((omega arith, omega arith), good),
  omega arith,
  rw w at e ∙ ap (λ xs. record b { bytes = xs }) (rw len (append_assoc b.bytes (n ∷ l) (wire ls))),
)

-- Behind a label: the end of the name, or more labels.
behind :
    (f room : ℕ) (rest : Bytes) (b : Buffer) {b' : Buffer}
    → ((c : ℕ) (cs : Bytes) → name_loop f false (c ∷ cs) room b ≡ ok b' → HoldsName room b b')
    → (let more = name_loop f false (drop 1 rest) room b in
        if ltb (length rest) 2 then put_uint8 b 0 else more)
      ≡ ok b'
    → HoldsName room b b'
behind f room [] b ih h = holds_root room b h
behind f room (x ∷ []) b ih h = holds_root room b h
behind f room (x ∷ y ∷ r) b ih h = ih y r (rw (ltb_suc2 (length r)) at h)

-- One round of the loop that found a label.
label_round :
    (f room n : ℕ) (quoted : Bool) (str : Bytes) (b : Buffer) {b' : Buffer}
    → ((c : ℕ) (cs : Bytes) (b₁ : Buffer)
        → name_loop f false (c ∷ cs) (room - (n + 1)) b₁ ≡ ok b'
        → HoldsName (room - (n + 1)) b₁ b')
    → scan_label plain str 0 false ≡ some (n, quoted)
    → (n == 0) ≡ false
    → (ltb 63 n || ltb room (n + 1)) ≡ false
    → (put_label str n quoted b >>= λ (rest, b₁).
        let more = name_loop f false (drop 1 rest) (room - (n + 1)) b₁ in
        if ltb (length rest) 2 then put_uint8 b₁ 0 else more)
      ≡ ok b'
    → HoldsName room b b'
label_round f room n quoted str b ih s pos fits h =
    let ((rest, b₁), put, next) = bind-eq-ok (put_label str n quoted b) _ h in
    let (len, r, w) = put_label-Copied str n quoted b s (ground arith) put in
    holds_label room n (octets plain str) b b₁ _ len (ground arith) (ground arith) (ground arith) w
      (behind f (room - (n + 1)) rest b₁ (λ c cs. ih c cs b₁) next)

name_loop-HoldsName :
    (fuel : ℕ) (first : Bool) (c : ℕ) (cs : Bytes) (room : ℕ) (b : Buffer) {b' : Buffer}
    → name_loop fuel first (c ∷ cs) room b ≡ ok b'
    → HoldsName room b b'
unfolding name_loop
name_loop-HoldsName zero first c cs room b h = absurd (stuck-ne-ok h)
name_loop-HoldsName (suc f) first c cs room b h =
    elim (Option-cases (scan_label plain (c ∷ cs) 0 false)) [
      | inl e ↦ absurd (err-ne-ok (rw (e, name_loop) at h))
      | inr ((n, quoted), e) ↦ elim (Bool-cases (n == 0)) [
        | inl root ↦ elim (Bool-cases (ltb 1 (length (c ∷ cs)) || not first)) [
          | inl bad ↦ absurd (err-ne-ok (rw (e, name_loop, root, bad) at h))
          | inr alone ↦ holds_root room b (rw (e, name_loop, root, alone) at h)
        ]
        | inr label ↦ elim (Bool-cases (ltb 63 n || ltb room (n + 1))) [
          | inl big ↦ absurd (err-ne-ok (rw (e, name_loop, label, big) at h))
          | inr fits ↦
              label_round f room n quoted (c ∷ cs) b
                (λ d ds b₁. name_loop-HoldsName f false d ds (room - (n + 1)) b₁) e label fits
                (rw (e, name_loop, label, fits) at h)
        ]
      ]
    ]

-- A text that is not empty and that is accepted, escapes included, appends one well-formed name
-- and nothing else: labels of 1 to 63 octets with their length octets, 255 octets of these at
-- most, and the root's zero octet.
pub dname_from_string-HoldsName :
    (c : ℕ) (cs : Bytes) (b : Buffer) {b' : Buffer}
    → dname_from_string (c ∷ cs) b ≡ ok b'
    → HoldsName 255 b b'
unfolding dname_from_string
dname_from_string-HoldsName c cs b h = elim (Bool-cases (ltb (available b) (length (c ∷ cs)))) [
  | inl full ↦ absurd (err-ne-ok (rw full at h))
  | inr fits ↦ name_loop-HoldsName (length (c ∷ cs)) true c cs 255 b (rw fits at h)
]
