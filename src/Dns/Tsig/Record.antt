-- ===== src/Dns/Tsig/Record.antt =====
-- src/tsig.c, perf_add_tsig: the record that it appends.
use dnsperf.Common.{
  length-take, ℕ, ◌+◌, ◌≤◌, ◌≡◌, refl, ap, inl, inr, false, List, [], ◌∷◌, ◌++◌, arith, ltb,
  if◌then◌else◌, Bool-cases, Bytes, length, length-append, take, All, no_space, ok, err,
}
use dnsperf.Buffer.{
  Buffer, init, used_length, available, put_uint16, put_uint32, increment, uint16, uint32,
}
use mathlib.Core.List.{append_assoc}
use dnsperf.Buffer.Laws.{put_mem_fits, put_put, put_put_end}
use dnsperf.Dns.Name.{dname_from_string}
use dnsperf.Dns.Name.Wire.{wire, size, length-wire}
use dnsperf.Dns.Name.Encode.{IsPlainLabel, text, text_exact, dname_from_string-text}
use dnsperf.Dns.Tsig.{TsigKey, digest_record, put_tsig, add_tsig}

-- A key whose two names are dotted labels without escapes and without a dot at the end.
pub record IsPlainKey (key : TsigKey) : Type 0 where
  pub name_first : Bytes
  pub name_rest : List Bytes
  pub name_is : key.name ≡ text false name_first name_rest
  pub name_plain : All IsPlainLabel (name_first ∷ name_rest)
  pub name_small : size (name_first ∷ name_rest) ≤ 255
  pub alg_first : Bytes
  pub alg_rest : List Bytes
  pub alg_is : key.alg ≡ text false alg_first alg_rest
  pub alg_plain : All IsPlainLabel (alg_first ∷ alg_rest)
  pub alg_small : size (alg_first ∷ alg_rest) ≤ 220

abbrev append : Buffer → Bytes → Buffer
append b xs = record b { bytes = b.bytes ++ xs }

-- RFC 8945, 4.2: type TSIG, class ANY, TTL 0 and the length of the RDATA.
unfoldable pub fixed_part : ℕ → Bytes
fixed_part rdlen = uint16 250 ++ (uint16 255 ++ (uint32 0 ++ uint16 rdlen))

length-fixed_part : (n : ℕ) → length (fixed_part n) ≡ 10
unfolding fixed_part
length-fixed_part n = refl

-- The RDATA behind the algorithm's name: time, fudge, digest, original id, error, other length.
unfoldable pub tail_part : ℕ → Bytes → Bytes → Bytes
tail_part now md id =
    uint16 0
    ++ (uint32 now
        ++ (uint16 300 ++ (uint16 (length md) ++ (md ++ (id ++ (uint16 0 ++ uint16 0))))))

length-tail_part :
    (now : ℕ) (md id : Bytes) → length (tail_part now md id) ≡ 14 + length md + length id
unfolding tail_part
length-tail_part now md id = omega (
  arith,
  length-append md (id ++ (uint16 0 ++ uint16 0)),
  length-append id (uint16 0 ++ uint16 0),
)

-- Four pieces that fit together fit one behind the other.
four_fit :
    (xs n f a t : Bytes) (cap : ℕ)
    → length xs + length (n ++ (f ++ (a ++ t))) ≤ cap
    → (length xs + length n ≤ cap)
      × (length (xs ++ n) + length f ≤ cap)
      × (length ((xs ++ n) ++ f) + length a ≤ cap)
      × (length (((xs ++ n) ++ f) ++ a) + length t ≤ cap)
four_fit xs n f a t cap h = omega (
  arith,
  length-append n (f ++ (a ++ t)),
  length-append f (a ++ t),
  length-append a t,
  length-append xs n,
  length-append (xs ++ n) f,
  length-append ((xs ++ n) ++ f) a,
)

module _ (key : TsigKey) (k : IsPlainKey key) where
  abbrev pub name_wire : Bytes
  name_wire = wire (k.name_first ∷ k.name_rest)

  abbrev pub alg_wire : Bytes
  alg_wire = wire (k.alg_first ∷ k.alg_rest)

  put_name :
      (b : Buffer)
      → used_length b + length name_wire ≤ b.cap
      → dname_from_string key.name b ≡ ok (append b name_wire)
  put_name b fits = rw k.name_is (
      dname_from_string-text false k.name_first k.name_rest b k.name_plain k.name_small
        (omega (arith, length-wire (k.name_first ∷ k.name_rest))))

  put_alg :
      (b : Buffer)
      → used_length b + length alg_wire ≤ b.cap
      → dname_from_string key.alg b ≡ ok (append b alg_wire)
  put_alg b fits = rw k.alg_is (
      dname_from_string-text false k.alg_first k.alg_rest b k.alg_plain (omega (arith, k.alg_small))
        (omega (arith, length-wire (k.alg_first ∷ k.alg_rest))))

  module _ (now : ℕ) (md : Bytes) (packet : Buffer) (header : 2 ≤ used_length packet) where
    abbrev rdlen : ℕ
    rdlen = length key.alg + 18 + length md

    abbrev record_bytes : Bytes
    record_bytes =
        name_wire ++ (fixed_part rdlen ++ (alg_wire ++ tail_part now md (take 2 packet.bytes)))

    -- The source's `rdlen` and `totallen`.
    rdata_length : length (alg_wire ++ tail_part now md (take 2 packet.bytes)) ≡ rdlen
    rdata_length = omega (
      arith,
      length-append alg_wire (tail_part now md (take 2 packet.bytes)),
      length-tail_part now md (take 2 packet.bytes),
      length-take 2 packet.bytes header,
      length-wire (k.alg_first ∷ k.alg_rest),
      text_exact k.alg_first k.alg_rest,
      ap length k.alg_is,
    )

    total_length : length record_bytes ≡ length key.name + 12 + rdlen
    total_length = omega (
      arith,
      rdata_length,
      length-append name_wire
          (fixed_part rdlen ++ (alg_wire ++ tail_part now md (take 2 packet.bytes))),
      length-append (fixed_part rdlen) (alg_wire ++ tail_part now md (take 2 packet.bytes)),
      length-fixed_part rdlen,
      length-wire (k.name_first ∷ k.name_rest),
      text_exact k.name_first k.name_rest,
      ap length k.name_is,
    )

    put_tsig_lem :
        used_length packet + length record_bytes ≤ packet.cap
        → put_tsig key now md packet ≡ ok (increment (append packet record_bytes) 11)
    unfolding put_tsig put_uint16 put_uint32 fixed_part tail_part
    put_tsig_lem fits =
        let t = tail_part now md (take 2 packet.bytes) in
        let f = fixed_part rdlen in
        let (f₁, f₂, f₃, f₄) = four_fit packet.bytes name_wire f alg_wire t packet.cap fits in
        let b₁ : Buffer = append packet name_wire in
        let b₂ : Buffer = append b₁ f in
        let b₃ : Buffer = append b₂ alg_wire in
        rw (put_name packet f₁) (
          simp put_put (
            rw (put_mem_fits b₁ f f₂) (
              rw (put_alg b₂ f₃) (
                rw (put_mem_fits b₃ t f₄) (
                  ap (λ xs. ok (increment (record packet { bytes = xs }) 11))
                    (simp append_assoc))))))

  -- The variables of RFC 8945, 4.3.3, that are digested behind the message.
  pub digest_bytes : ℕ → Bytes
  digest_bytes now =
      name_wire
      ++ ((uint16 255 ++ uint32 0)
          ++ (alg_wire ++ (uint16 0 ++ (uint32 now ++ (uint16 300 ++ (uint16 0 ++ uint16 0))))))

  digest_fits : (now : ℕ) → length (digest_bytes now) ≤ 512
  unfolding digest_bytes
  digest_fits now =
      let t = uint16 0 ++ (uint32 now ++ (uint16 300 ++ (uint16 0 ++ uint16 0))) in
      omega (
        arith,
        length-wire (k.name_first ∷ k.name_rest),
        length-wire (k.alg_first ∷ k.alg_rest),
        length-append name_wire ((uint16 255 ++ uint32 0) ++ (alg_wire ++ t)),
        length-append alg_wire t,
        k.name_small,
        k.alg_small,
      )

  digest_record_lem :
      (now : ℕ) → digest_record key now ≡ ok (record { bytes = digest_bytes now; cap = 512 })
  unfolding digest_record put_uint16 put_uint32 digest_bytes init
  digest_record_lem now =
      let t = uint16 0 ++ (uint32 now ++ (uint16 300 ++ (uint16 0 ++ uint16 0))) in
      let f = uint16 255 ++ uint32 0 in
      let (f₁, f₂, f₃, f₄) =
        four_fit [] name_wire f alg_wire t 512 (omega (arith, digest_fits now)) in
      let b₁ : Buffer = append (init 512) name_wire in
      let b₂ : Buffer = append b₁ f in
      let b₃ : Buffer = append b₂ alg_wire in
      rw (put_name (init 512) f₁) (
        simp (put_put, put_put_end)
          (rw (put_mem_fits b₁ f f₂) (
            rw (put_alg b₂ f₃) (
              rw (put_mem_fits b₃ t f₄)
                (ap (λ xs. ok (record { bytes = xs; cap = 512 })) (simp append_assoc))))))

room_of_test :
    (packet : Buffer) (xs : Bytes) (n : ℕ)
    → length xs ≡ n
    → ltb (available packet) n ≡ false
    → 2 ≤ used_length packet
    → used_length packet ≤ packet.cap
    → used_length packet + length xs ≤ packet.cap
room_of_test packet xs n e h header valid = ground arith

-- With a key of two plain names, perf_add_tsig digests the message and the TSIG variables, appends
-- exactly the TSIG record and counts it, if the record fits; else it answers PERF_R_NOSPACE. The
-- check for space and the length of the RDATA count the octets that are written.
pub add_tsig_lem :
    (hmac : Bytes → Bytes) (now : ℕ) (key : TsigKey) (k : IsPlainKey key) (packet : Buffer)
    → 2 ≤ used_length packet
    → used_length packet ≤ packet.cap
    → let md = hmac (packet.bytes ++ digest_bytes key k now) in
      let rdata = alg_wire key k ++ tail_part now md (take 2 packet.bytes) in
      let bytes = name_wire key k ++ (fixed_part (length rdata) ++ rdata) in
      add_tsig hmac now key packet ≡ (
        if ltb (available packet) (length bytes)
        then err no_space
        else ok (increment (record packet { bytes = packet.bytes ++ bytes }) 11))
unfolding add_tsig
add_tsig_lem hmac now key k packet header valid =
    let md = hmac (packet.bytes ++ digest_bytes key k now) in
    let id = take 2 packet.bytes in
    let rd : length (alg_wire key k ++ tail_part now md id) ≡ length key.alg + 18 + length md =
      rdata_length key k now md packet header in
    let total = total_length key k now md packet header in
    elim (Bool-cases
      (ltb (available packet) (length key.name + 12 + (length key.alg + 18 + length md)))) [
        | inl full ↦ rw (rd, digest_record_lem key k now, total, full)
        | inr fits ↦
            rw (rd, digest_record_lem key k now, total, fits)
              (put_tsig_lem key k now md packet header
                (room_of_test packet _ _ total fits header valid))
      ]
