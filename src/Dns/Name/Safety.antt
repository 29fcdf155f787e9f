-- ===== src/Dns/Name/Safety.antt =====
-- src/dns.c, perf_dname_fromstring: it ends, and with room to spare no assert() fails.
use dnsperf.Common.{
  length-take-le, length-drop, Option-cases, none-ne-some, ℕ, zero, suc, ◌+◌, ◌-◌, ◌%◌, ◌≤◌, ◌≡◌,
  refl, inl, inr, Bool, true, false, not, ◌||◌, some, [], ◌∷◌, ◌++◌, arith, ltb, ◌==◌,
  if◌then◌else◌, Bool-cases, is_digit, Bytes, length, length-append, take, drop, Code, failure,
  Outcome, ok, err, ◌>>=◌,
}
use dnsperf.Buffer.{Buffer, used_length, available, put_uint8, put_mem}
use dnsperf.Buffer.Laws.{put_mem_fits, put_uint8_fits}
use dnsperf.Dns.Name.{
  Escape, plain, escaped, one, two, scan_label, copy_label, put_label, name_loop, dname_from_string,
  strtol_7,
}
use dnsperf.Dns.Name.Octets.{octets}
use dnsperf.Dns.Name.Steps.{
  scan_plain, scan_escaped, scan_one, scan_two, octets_plain, octets_escaped, octets_one,
  octets_two, copy_plain, copy_escaped, copy_one, copy_two,
}
use dnsperf.Dns.Name.Label.{scan_label-length, octets_short}
use dnsperf.Dns.Name.Copy.{put_label-Copied}

-- A call that returns: neither a failed assert() nor a loop cut short.
pub data Returns {ℓ} {A : Type ℓ} : Outcome A → Type ℓ where
  returned : (a : A) → Returns (ok a)
  refused : (e : Code) → Returns (err e)

bind_Returns :
    {A B : Type 0} (m : Outcome A) (f : A → Outcome B)
    → Returns m
    → ((a : A) → m ≡ ok a → Returns (f a))
    → Returns (m >>= f)
bind_Returns m f (returned a) k = k a refl
bind_Returns m f (refused e) k = refused e

-- A write that fits, then a step that returns.
put_then :
    {A : Type 0} (b : Buffer) (xs : Bytes) (f : Buffer → Outcome A)
    → used_length b + length xs ≤ b.cap
    → Returns (f (record b { bytes = b.bytes ++ xs }))
    → Returns (put_mem b xs >>= f)
put_then b xs f fits r = rw (put_mem_fits b xs fits) r

put_uint8_then_Returns :
    {A : Type 0} (b : Buffer) (v : ℕ) (f : Buffer → Outcome A)
    → used_length b + 1 ≤ b.cap
    → Returns (f (record b { bytes = b.bytes ++ v % 256 ∷ [] }))
    → Returns (put_uint8 b v >>= f)
put_uint8_then_Returns b v f fits r = rw (put_uint8_fits b v fits) r

copy_nil :
    (st : Escape) (n : ℕ) (quoted : Bool) (b : Buffer) {p : ℕ × Bool}
    → scan_label st [] n quoted ≡ some p
    → Returns (copy_label st [] b)
unfolding copy_label scan_label
copy_nil plain n quoted b h = returned _
copy_nil escaped n quoted b h = cc
copy_nil (one d) n quoted b h = cc
copy_nil (two d e) n quoted b h = cc

copy_label-Returns :
    (st : Escape) (cs : Bytes) (n : ℕ) (quoted : Bool) (b : Buffer) {p : ℕ × Bool}
    → scan_label st cs n quoted ≡ some p
    → used_length b + length (octets st cs) ≤ b.cap
    → Returns (copy_label st cs b)
copy_label-Returns st [] n quoted b h fits = copy_nil st n quoted b h
copy_label-Returns plain (c ∷ cs) n quoted b h fits = elim (Bool-cases (c == b'\\')) [
  | inl e ↦
      rw (copy_plain, e)
        (copy_label-Returns escaped cs n true b (rw (scan_plain, e) at h)
          (rw (octets_plain, e) at fits))
  | inr e ↦ elim (Bool-cases (c == b'.')) [
    | inl dot ↦ rw (copy_plain, e, dot) (returned _)
    | inr other ↦
        let room : used_length b + length (c ∷ octets plain cs) ≤ b.cap =
          rw (octets_plain, e, other) at fits in
        rw (copy_plain, e, other)
          (put_then b (c ∷ []) _ (omega arith) (
            copy_label-Returns plain cs (n + 1) quoted _ (rw (scan_plain, e, other) at h)
              (omega (arith, length-append b.bytes (c ∷ [])))))
  ]
]
copy_label-Returns escaped (c ∷ cs) n quoted b h fits = elim (Bool-cases (is_digit c)) [
  | inl e ↦
      rw (copy_escaped, e)
        (copy_label-Returns (one c) cs n quoted b (rw (scan_escaped, e) at h)
          (rw (octets_escaped, e) at fits))
  | inr e ↦
      let room : used_length b + length (c ∷ octets plain cs) ≤ b.cap =
        rw (octets_escaped, e) at fits in
      rw (copy_escaped, e)
        (put_then b (c ∷ []) _ (omega arith) (
          copy_label-Returns plain cs (n + 1) quoted _ (rw (scan_escaped, e) at h)
            (omega (arith, length-append b.bytes (c ∷ [])))))
]
copy_label-Returns (one d) (c ∷ cs) n quoted b h fits = elim (Bool-cases (is_digit c)) [
  | inl e ↦
      rw copy_one
        (copy_label-Returns (two d c) cs n quoted b (rw (scan_one, e) at h) (rw octets_one at fits))
  | inr e ↦ absurd (none-ne-some (rw (scan_one, e) at h))
]
copy_label-Returns (two d e) (c ∷ cs) n quoted b h fits = elim (Bool-cases (is_digit c)) [
  | inr bad ↦ absurd (none-ne-some (rw (scan_two, bad) at h))
  | inl digit ↦
      let v = strtol_7 0 (d ∷ e ∷ c ∷ []) in
      elim (Bool-cases (ltb 255 v)) [
        | inl big ↦ rw (copy_two, big) (refused failure)
        | inr small ↦
            let room : used_length b + length (v % 256 ∷ octets plain cs) ≤ b.cap =
              rw octets_two at fits in
            rw (copy_two, small)
              (put_uint8_then_Returns b v _ (omega arith) (
                copy_label-Returns plain cs (n + 1) quoted _ (rw (scan_two, digit) at h)
                  (omega (arith, length-append b.bytes (v % 256 ∷ [])))))
      ]
]

put_label-Returns :
    (str : Bytes) (n : ℕ) (quoted : Bool) (b : Buffer)
    → scan_label plain str 0 false ≡ some (n, quoted)
    → used_length b + (n + 1) ≤ b.cap
    → Returns (put_label str n quoted b)
unfolding put_label
put_label-Returns str n true b s fits =
    let len = scan_label-length plain str 0 false n true s in
    put_uint8_then_Returns b n _ (omega arith) (
      copy_label-Returns plain str 0 false _ s
        (omega (arith, length-append b.bytes (n % 256 ∷ []))))
put_label-Returns str n false b s fits = put_uint8_then_Returns b n _ (omega arith) (
    put_then _ (take n str) _
      (omega (arith, length-append b.bytes (n % 256 ∷ []), length-take-le n str)) (returned _))

-- Enough room and enough rounds for the text that is left.
abbrev Ready : ℕ → Bytes → Buffer → Type 0
Ready fuel str b = (length str ≤ fuel) × (used_length b + (length str + 2) ≤ b.cap)

pub label_bounds :
    (n room : ℕ)
    → (n == 0) ≡ false
    → (ltb 63 n || ltb room (n + 1)) ≡ false
    → (1 ≤ n) × (n ≤ 63) × (n + 1 ≤ room)
label_bounds n room label fits = ground arith

octets_fit :
    (str : Bytes) (n : ℕ) (quoted : Bool)
    → scan_label plain str 0 false ≡ some (n, quoted)
    → n ≤ length str
octets_fit str n quoted e =
    omega (arith, scan_label-length plain str 0 false n quoted e, octets_short plain str)

-- Behind a label of `n` octets.
rest_Ready :
    (f : ℕ) (str : Bytes) (n : ℕ) (quoted : Bool) (b : Buffer) (rest : Bytes) (b₁ : Buffer)
    → Ready (suc f) str b
    → scan_label plain str 0 false ≡ some (n, quoted)
    → (1 ≤ n) × (n ≤ 63)
    → put_label str n quoted b ≡ ok (rest, b₁)
    → used_length b₁ + (length rest + 1) ≤ b₁.cap × (length rest ≤ f)
rest_Ready f str n quoted b rest b₁ ready e small put =
    let (len, r, w) = put_label-Copied str n quoted b e small.1 put in
    rw (w, r) (omega (arith, octets_short plain str, length-append b.bytes (n ∷ octets plain str)))

behind_Returns :
    (f : ℕ) (rest : Bytes) (room : ℕ) (b : Buffer)
    → used_length b + (length rest + 1) ≤ b.cap × (length rest ≤ f)
    → (Ready f (drop 1 rest) b → Returns (name_loop f false (drop 1 rest) room b))
    → Returns
        (if ltb (length rest) 2 then put_uint8 b 0 else name_loop f false (drop 1 rest) room b)
behind_Returns f rest room b h k = elim (Bool-cases (ltb (length rest) 2)) [
  | inl last ↦ rw (last, put_uint8_fits b 0 (omega arith)) (returned _)
  | inr more ↦ rw more (k (ground (arith, length-drop 1 rest)))
]

name_loop-Returns :
    (fuel : ℕ) (first : Bool) (str : Bytes) (room : ℕ) (b : Buffer)
    → Ready fuel str b
    → Returns (name_loop fuel first str room b)
unfolding name_loop
name_loop-Returns fuel first [] room b ready = returned b
name_loop-Returns zero first (c ∷ cs) room b ready = absurd (omega arith)
name_loop-Returns (suc f) first (c ∷ cs) room b ready =
    elim (Option-cases (scan_label plain (c ∷ cs) 0 false)) [
      | inl e ↦ rw (e, name_loop) (refused failure)
      | inr ((n, quoted), e) ↦ elim (Bool-cases (n == 0)) [
        | inl root ↦ elim (Bool-cases (ltb 1 (length (c ∷ cs)) || not first)) [
          | inl bad ↦ rw (e, name_loop, root, bad) (refused failure)
          | inr alone ↦
              rw (e, name_loop, root, alone, put_uint8_fits b 0 (omega arith)) (returned _)
        ]
        | inr label ↦ elim (Bool-cases (ltb 63 n || ltb room (n + 1))) [
          | inl big ↦ rw (e, name_loop, label, big) (refused failure)
          | inr fits ↦
              rw (e, name_loop, label, fits)
                (bind_Returns (put_label (c ∷ cs) n quoted b) _
                  (put_label-Returns (c ∷ cs) n quoted b e
                    (omega (arith, octets_fit (c ∷ cs) n quoted e)))
                  λ (rest, b₁) put.
                    let (lo, hi, _) = label_bounds n room label fits in
                    let left = rest_Ready f (c ∷ cs) n quoted b rest b₁ ready e (lo, hi) put in
                    behind_Returns f rest (room - (n + 1)) b₁ left
                      (name_loop-Returns f false (drop 1 rest) (room - (n + 1)) b₁))
        ]
      ]
    ]

-- On every text perf_dname_fromstring returns, if the buffer has room for two octets more than the
-- text: its loop ends and no assert() of the buffer fails.
pub dname_from_string-Returns :
    (str : Bytes) (b : Buffer)
    → used_length b + (length str + 2) ≤ b.cap
    → Returns (dname_from_string str b)
unfolding dname_from_string
dname_from_string-Returns str b fits =
    let room : ltb (available b) (length str) ≡ false = ground arith in
    rw room (name_loop-Returns (length str) true str 255 b (omega arith))
