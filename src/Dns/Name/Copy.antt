-- ===== src/Dns/Name/Copy.antt =====
-- src/dns.c, perf_dname_fromstring: what the second pass writes, and that it fits.
use dnsperf.Common.{
  err-ne-ok, ok_pair, ℕ, ◌%◌, ◌≤◌, ◌≡◌, sym, ap, ◌∙◌, inl, inr, Bool, true, false, some, [], ◌∷◌,
  ◌++◌, arith, ltb, ◌==◌, Bool-cases, is_digit, Bytes, length, take, drop, Outcome, ok,
}
use mathlib.Core.List.{append_assoc, append-nil}
use dnsperf.Buffer.{Buffer}
use dnsperf.Buffer.Laws.{put_mem_then, put_uint8_then}
use dnsperf.Dns.Name.{Escape, plain, escaped, one, two, scan_label, copy_label, put_label, strtol_7}
use dnsperf.Dns.Name.Octets.{octets, behind_label}
use dnsperf.Dns.Name.Steps.{
  octets_plain, octets_escaped, octets_one, octets_two, behind_plain, behind_escaped, behind_one,
  behind_two, copy_plain, copy_escaped, copy_one, copy_two,
}
use dnsperf.Dns.Name.Label.{scan_label-length, take_unquoted}

-- What the second pass leaves behind when it succeeds.
abbrev pub Copied : Escape → Bytes → Buffer → Bytes → Buffer → Type 0
Copied st cs b rest b' =
    (rest ≡ behind_label st cs) × (b' ≡ record b { bytes = b.bytes ++ octets st cs })

-- One octet written, then the rest of the label.
Copied-octet :
    (cs : Bytes) (b : Buffer) (v : ℕ) (st : Escape) (ds : Bytes) {rest : Bytes} {b' : Buffer}
    → octets st ds ≡ v ∷ octets plain cs
    → behind_label st ds ≡ behind_label plain cs
    → Copied plain cs (record b { bytes = b.bytes ++ v ∷ [] }) rest b'
    → Copied st ds b rest b'
Copied-octet cs b v st ds e r h = (
  h.0 ∙ sym r,
  h.1
      ∙ ap (λ xs. record b { bytes = xs })
          (append_assoc b.bytes (v ∷ []) (octets plain cs) ∙ ap (λ xs. b.bytes ++ xs) (sym e)),
)

-- At a dot, or at the end of the text.
Copied-here :
    (st : Escape) (ds : Bytes) (b : Buffer) (r : Bytes) {rest : Bytes} {b' : Buffer}
    → octets st ds ≡ []
    → behind_label st ds ≡ r
    → ◌≡◌ {A = Outcome (Bytes × Buffer)} (ok (r, b)) (ok (rest, b'))
    → Copied st ds b rest b'
Copied-here st ds b r e f h = ground (arith, append-nil b.bytes)

copy_nil :
    (st : Escape) (b : Buffer) {rest : Bytes} {b' : Buffer}
    → copy_label st [] b ≡ ok (rest, b')
    → Copied st [] b rest b'
unfolding copy_label octets behind_label
copy_nil plain b h = ground (arith, append-nil b.bytes)
copy_nil escaped b h = cc
copy_nil (one d) b h = cc
copy_nil (two d e) b h = cc

pub copy_label-Copied :
    (st : Escape) (cs : Bytes) (b : Buffer) {rest : Bytes} {b' : Buffer}
    → copy_label st cs b ≡ ok (rest, b')
    → Copied st cs b rest b'
copy_label-Copied st [] b h = copy_nil st b h
copy_label-Copied plain (c ∷ cs) b h = elim (Bool-cases (c == b'\\')) [
  | inl e ↦
      let (r, w) = copy_label-Copied escaped cs b (rw (copy_plain, e) at h) in
      (rw (behind_plain, e) r, rw (octets_plain, e) w)
  | inr e ↦ elim (Bool-cases (c == b'.')) [
    | inl dot ↦
        Copied-here plain (c ∷ cs) b (c ∷ cs) (rw (octets_plain, e, dot))
          (rw (behind_plain, e, dot)) (rw (copy_plain, e, dot) at h)
    | inr other ↦
        Copied-octet cs b c plain (c ∷ cs) (rw (octets_plain, e, other))
          (rw (behind_plain, e, other))
          (copy_label-Copied plain cs _
            (put_mem_then b (c ∷ []) _ (rw (copy_plain, e, other) at h)))
  ]
]
copy_label-Copied escaped (c ∷ cs) b h = elim (Bool-cases (is_digit c)) [
  | inl e ↦
      let (r, w) = copy_label-Copied (one c) cs b (rw (copy_escaped, e) at h) in
      (rw (behind_escaped, e) r, rw (octets_escaped, e) w)
  | inr e ↦
      Copied-octet cs b c escaped (c ∷ cs) (rw (octets_escaped, e)) (rw (behind_escaped, e))
        (copy_label-Copied plain cs _ (put_mem_then b (c ∷ []) _ (rw (copy_escaped, e) at h)))
]
copy_label-Copied (one d) (c ∷ cs) b h =
    let (r, w) = copy_label-Copied (two d c) cs b (rw copy_one at h) in
    (rw behind_one r, rw octets_one w)
copy_label-Copied (two d e) (c ∷ cs) b h =
    let v = strtol_7 0 (d ∷ e ∷ c ∷ []) in
    elim (Bool-cases (ltb 255 v)) [
      | inl big ↦ absurd (err-ne-ok (rw (copy_two, big) at h))
      | inr small ↦
          Copied-octet cs b (v % 256) (two d e) (c ∷ cs) (octets_two c cs d e) (behind_two c cs d e)
            (copy_label-Copied plain cs _ (put_uint8_then b v _ (rw (copy_two, small) at h)))
    ]

label_bytes :
    (b : Buffer) (n : ℕ) (l : Bytes) {b' : Buffer}
    → n ≤ 63
    → b' ≡ record b { bytes = (b.bytes ++ n % 256 ∷ []) ++ l }
    → b' ≡ record b { bytes = b.bytes ++ (n ∷ l) }
label_bytes b n l small w =
    let e : n % 256 ≡ n = omega arith in
    w ∙ ap (λ xs. record b { bytes = xs }) (rw e (append_assoc b.bytes (n ∷ []) l))

put_whole :
    (str : Bytes) (n : ℕ) (b : Buffer) {rest : Bytes} {b' : Buffer}
    → length (octets plain str) ≡ n
    → take n str ≡ octets plain str
    → drop n str ≡ behind_label plain str
    → n ≤ 63
    → ◌≡◌ {A = Outcome (Bytes × Buffer)}
        (ok (drop n str, record b { bytes = (b.bytes ++ n % 256 ∷ []) ++ take n str }))
        (ok (rest, b'))
    → (length (octets plain str) ≡ n)
      × (rest ≡ behind_label plain str)
      × (b' ≡ record b { bytes = b.bytes ++ (n ∷ octets plain str) })
put_whole str n b len taken left small done =
    let (r, w) = ok_pair done in
    (len, r ∙ left, label_bytes b n (octets plain str) small (rw taken at w))

-- A whole label, length octet first.
pub put_label-Copied :
    (str : Bytes) (n : ℕ) (quoted : Bool) (b : Buffer) {rest : Bytes} {b' : Buffer}
    → scan_label plain str 0 false ≡ some (n, quoted)
    → n ≤ 63
    → put_label str n quoted b ≡ ok (rest, b')
    → (length (octets plain str) ≡ n)
      × (rest ≡ behind_label plain str)
      × (b' ≡ record b { bytes = b.bytes ++ (n ∷ octets plain str) })
unfolding put_label
put_label-Copied str n true b s small h =
    let (r, w) = copy_label-Copied plain str _ (put_uint8_then b n _ h) in
    (omega (arith, scan_label-length plain str 0 false n true s), r, label_bytes b n _ small w)
put_label-Copied str n false b s small h =
    let len : length (octets plain str) ≡ n =
      omega (arith, scan_label-length plain str 0 false n false s) in
    let (taken, left) = take_unquoted str 0 n s in
    let done = put_mem_then _ (take n str) _ (put_uint8_then b n _ h) in
    put_whole str n b len (rw len at taken) (rw len at left) small done
