-- ===== src/Buffer/Laws.antt =====
-- Laws of the buffer's writes.
use mathlib.Core.List.{append_assoc}
use mathlib.Core.Path.{fun_ext, sym, ◌∙◌}
use dnsperf.Common.{
  ◌-◌, true, false, ap, length-append, ℕ, ◌%◌, Outcome, ◌>>=◌, Bool-cases, leb, abort-ne-ok, ◌⊎◌,
  inl, inr, [], ◌∷◌, refl, ◌+◌, ◌≤◌, ◌<◌, ◌≡◌, Bytes, length, ◌++◌, arith, ok, abort, le→leb,
  lt→leb_false,
}
use dnsperf.Buffer.{put_uint8, Buffer, put_mem, used_length, available}

pub put_mem_fits :
    (b : Buffer) (xs : Bytes)
    → used_length b + length xs ≤ b.cap
    → put_mem b xs ≡ ok (record b { bytes = b.bytes ++ xs })
unfolding put_mem
put_mem_fits b xs h = rw (le→leb (length xs) (available b) (omega arith))

pub put_mem_aborts :
    (b : Buffer) (xs : Bytes)
    → used_length b ≤ b.cap
    → b.cap < used_length b + length xs
    → put_mem b xs ≡ abort
unfolding put_mem
put_mem_aborts b xs v h = rw (lt→leb_false (length xs) (available b) (omega arith))

pub put_mem-eq-ok :
    (b : Buffer) (xs : Bytes) {b' : Buffer}
    → put_mem b xs ≡ ok b'
    → (b' ≡ record b { bytes = b.bytes ++ xs }) × (used_length b + length xs ≤ b.cap ⊎ (xs ≡ []))
unfolding put_mem
put_mem-eq-ok b [] h = (ground arith, inr refl)
put_mem-eq-ok b (x ∷ xs) h = (ground arith, inl (ground arith))

-- A write in front of other steps.
pub put_mem_then {ℓ} :
    {A : Type ℓ} (b : Buffer) (xs : Bytes) (f : Buffer → Outcome A) {a : A}
    → (put_mem b xs >>= f) ≡ ok a
    → f (record b { bytes = b.bytes ++ xs }) ≡ ok a
unfolding put_mem
put_mem_then b xs f h = elim (Bool-cases (leb (length xs) (available b))) [
  | inl fits ↦ rw fits at h
  | inr full ↦ absurd (abort-ne-ok (rw full at h))
]

pub put_uint8_then {ℓ} :
    {A : Type ℓ} (b : Buffer) (v : ℕ) (f : Buffer → Outcome A) {a : A}
    → (put_uint8 b v >>= f) ≡ ok a
    → f (record b { bytes = b.bytes ++ v % 256 ∷ [] }) ≡ ok a
unfolding put_uint8
put_uint8_then b v f h = put_mem_then b (v % 256 ∷ []) f h

pub put_uint8-eq-ok :
    (b : Buffer) (v : ℕ) {b' : Buffer}
    → put_uint8 b v ≡ ok b'
    → b' ≡ record b { bytes = b.bytes ++ v % 256 ∷ [] }
unfolding put_uint8
put_uint8-eq-ok b v h = (put_mem-eq-ok b (v % 256 ∷ []) h).0

pub put_uint8_fits :
    (b : Buffer) (v : ℕ)
    → used_length b + 1 ≤ b.cap
    → put_uint8 b v ≡ ok (record b { bytes = b.bytes ++ v % 256 ∷ [] })
unfolding put_uint8
put_uint8_fits b v h = put_mem_fits b (v % 256 ∷ []) h

-- Two writes are one write of both.
pub put_put {ℓ} :
    {A : Type ℓ} (b : Buffer) (xs ys : Bytes) (f : Buffer → Outcome A)
    → (put_mem b xs >>= λ b'. put_mem b' ys >>= f) ≡ (put_mem b (xs ++ ys) >>= f)
unfolding put_mem
put_put b xs ys f = elim (Bool-cases (leb (length xs) (available b))) [
  | inr full ↦
      let both : leb (length (xs ++ ys)) (available b) ≡ false =
        ground (arith, length-append xs ys) in
      rw (full, both) refl
  | inl one ↦ elim (Bool-cases (leb (length (xs ++ ys)) (available b))) [
    | inl both ↦
        let two : leb (length ys) (b.cap - length (b.bytes ++ xs)) ≡ true =
          ground (arith, length-append xs ys, length-append b.bytes xs) in
        rw (one, both, two) (ap (λ zs. f (record b { bytes = zs })) (append_assoc b.bytes xs ys))
    | inr both ↦
        let two : leb (length ys) (b.cap - length (b.bytes ++ xs)) ≡ false =
          ground (arith, length-append xs ys, length-append b.bytes xs) in
        rw (one, both, two) refl
  ]
]

bind_ok {ℓ} : {A : Type ℓ} (m : Outcome A) → (m >>= ok) ≡ m
bind_ok (ok a) = refl
bind_ok _ = refl

pub put_put_end :
    (b : Buffer) (xs ys : Bytes) → (put_mem b xs >>= λ b'. put_mem b' ys) ≡ put_mem b (xs ++ ys)
put_put_end b xs ys =
    ap (λ f. put_mem b xs >>= f) (fun_ext (λ b'. sym (bind_ok (put_mem b' ys))))
    ∙ put_put b xs ys ok
    ∙ bind_ok (put_mem b (xs ++ ys))
