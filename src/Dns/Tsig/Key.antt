-- ===== src/Dns/Tsig/Key.antt =====
-- src/tsig.c, perf_tsig_parsekey: the key from the option's argument. What EVP_DecodeUpdate() answers is
-- an argument; the contexts of OpenSSL are the digest and the secret that they are made of.
use dnsperf.Common.{
  ℕ, Bool, Option, none, some, map, ltb, ◌==◌, if◌then◌else◌, Bytes, length, failure, Outcome, ok,
  err,
}
use dnsperf.Libc.{codes, to_lower, strncasecmp_eq}
use dnsperf.Dns.Edns.{split_colon}
use dnsperf.Dns.Tsig.{TsigKey}

-- EVP_md5() to EVP_sha512().
pub data Digest : Type 0 where
  md5 sha1 sha224 sha256 sha384 sha512 : Digest

-- The texts that perf_tsig_parsekey looks for.
abbrev pub alg_prefix : Digest → Bytes
alg_prefix md5 = codes "hmac-md5:"
alg_prefix sha1 = codes "hmac-sha1:"
alg_prefix sha224 = codes "hmac-sha224:"
alg_prefix sha256 = codes "hmac-sha256:"
alg_prefix sha384 = codes "hmac-sha384:"
alg_prefix sha512 = codes "hmac-sha512:"

-- TSIG_HMACMD5_NAME to TSIG_HMACSHA512_NAME
abbrev pub alg_name : Digest → Bytes
alg_name md5 = codes "hmac-md5.sig-alg.reg.int"
alg_name sha1 = codes "hmac-sha1"
alg_name sha224 = codes "hmac-sha224"
alg_name sha256 = codes "hmac-sha256"
alg_name sha384 = codes "hmac-sha384"
alg_name sha512 = codes "hmac-sha512"

-- `!strncasecmp(alg, ...)`
unfoldable pub starts_with : Bytes → Digest → Bool
unfolding strncasecmp_eq
starts_with arg d = strncasecmp_eq (length (alg_prefix d)) arg (alg_prefix d)

-- The algorithm that the argument names.
unfoldable pub digest_of : Bytes → Option Digest
unfolding starts_with
digest_of arg =
    if starts_with arg md5
    then some md5
    else if starts_with arg sha1
    then some sha1
    else if starts_with arg sha224
    then some sha224
    else if starts_with arg sha256
    then some sha256
    else if starts_with arg sha384
    then some sha384
    else if starts_with arg sha512
    then some sha512
    else none

-- What EVP_DecodeUpdate() answers: -1; 0, no more text is expected; 1, more may follow.
pub data Decoded : Type 0 where
  refused : Decoded
  finished expecting : Bytes → Decoded

-- decode64: any answer but 0 is a failure.
abbrev pub decode64 : Decoded → Option Bytes
decode64 refused = none
decode64 (finished key) = some key
decode64 (expecting key) = none

pub record ParsedKey : Type 0 where
  pub key : TsigKey
  pub digest : Digest
  pub secret : Bytes

-- sizeof(tsigkey->name)
abbrev pub name_size : ℕ
name_size = 256

-- The part behind the separators; each failure ends the process.
unfoldable pub make_key : (Bytes → Decoded) → Option Digest → Bytes → Bytes → Outcome ParsedKey
unfolding to_lower
make_key decode none name secret = err failure
make_key decode (some d) name secret =
    if ltb name_size (length name)
    then err failure
    else if length secret == 0
    then err failure
    else elim (decode64 (decode secret)) [
      | none ↦ err failure
      | some key ↦ ok (record {
        key = record { name = map to_lower name; alg = alg_name d };
        digest = d;
        secret = key;
      })
    ]

-- perf_tsig_parsekey
unfoldable pub parse_key : (Bytes → Decoded) → Bytes → Outcome ParsedKey
unfolding split_colon digest_of make_key
parse_key decode arg = elim (split_colon arg) [
  | none ↦ err failure
  | some (first, rest) ↦ elim (split_colon rest) [
    | none ↦ make_key decode (some md5) first rest
    | some (second, secret) ↦ make_key decode (digest_of arg) second secret
  ]
]
