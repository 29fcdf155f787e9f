-- ===== src/Dns/Tsig.antt =====
-- src/tsig.c: signing a message with a TSIG record.
pub mod Record
pub mod Key
pub mod Parsed
use dnsperf.Common.{
  ℕ, zero, suc, ◌+◌, ◌-◌, ◌*◌, ◌/◌, ◌%◌, ◌^◌, ◌≤◌, ◌<◌, ◌≡◌, refl, sym, ap, ◌∙◌, ◌≢◌, ◌↔◌, ◌⊎◌, inl,
  inr, Bool, true, false, not, ◌&&◌, ◌||◌, Option, none, some, List, [], ◌∷◌, ◌++◌, map, arith, ltb,
  leb, ◌==◌, if◌then◌else◌, Bool-cases, is_digit, Bytes, length, length-append, get_or, set, take,
  drop, All, All-append, Code, failure, eof, invalid_file, no_space, Outcome, ok, err, abort, stuck,
  ◌>>=◌, bind-eq-ok,
}
use dnsperf.Buffer.{
  Buffer, init, used_length, available, put_mem, put_uint16, put_uint32, increment,
}
use dnsperf.Dns.Name.{dname_from_string}

-- perf_tsigkey_t: the owner's name and the algorithm's, as text. The OpenSSL contexts are the
-- parameter `hmac` below.
pub record TsigKey : Type 0 where
  pub name : Bytes
  pub alg : Bytes

-- `unsigned char tmpdata[512]`
abbrev pub tmp_size : ℕ
tmp_size = 512

-- The variables that a request's digest covers, RFC 8945, 4.3.3.
unfoldable pub digest_record : TsigKey → ℕ → Outcome Buffer
digest_record key now = dname_from_string key.name (init tmp_size) >>= λ t₁.
    put_uint16 t₁ 255 >>= λ t₂. put_uint32 t₂ 0 >>= λ t₃. dname_from_string key.alg t₃ >>= λ t₄.
    put_uint16 t₄ 0 >>= λ t₅. put_uint32 t₅ now >>= λ t₆.
    put_uint16 t₆ 300 >>= λ t₇. put_uint16 t₇ 0 >>= λ t₈. put_uint16 t₈ 0

-- The record itself, behind `packet`; `md` is the digest.
unfoldable pub put_tsig : TsigKey → ℕ → Bytes → Buffer → Outcome Buffer
put_tsig key now md packet = dname_from_string key.name packet >>= λ p₁. put_uint16 p₁ 250 >>= λ p₂.
    put_uint16 p₂ 255 >>= λ p₃. put_uint32 p₃ 0 >>= λ p₄.
    put_uint16 p₄ (length key.alg + 18 + length md) >>= λ p₅. dname_from_string key.alg p₅ >>= λ p₆.
    put_uint16 p₆ 0 >>= λ p₇. put_uint32 p₇ now >>= λ p₈. put_uint16 p₈ 300 >>= λ p₉.
    put_uint16 p₉ (length md) >>= λ q₁. put_mem q₁ md >>= λ q₂.
    put_mem q₂ (take 2 packet.bytes) >>= λ q₃.
    put_uint16 q₃ 0 >>= λ q₄. put_uint16 q₄ 0 >>= λ q₅. ok (increment q₅ 11)

-- perf_add_tsig. `hmac` is OpenSSL's digest of all data under the key, `now` is time(NULL).
unfoldable pub add_tsig : (Bytes → Bytes) → ℕ → TsigKey → Buffer → Outcome Buffer
unfolding digest_record put_tsig
add_tsig hmac now key packet = digest_record key now >>= λ tmp.
    let md = hmac (packet.bytes ++ tmp.bytes) in
    let rdlen = length key.alg + 18 + length md in
    if ltb (available packet) (length key.name + 12 + rdlen)
    then err no_space
    else put_tsig key now md packet
