-- ===== src/Tests/Keys.antt =====
-- Runs of the parser of TSIG keys, and the theorem on it.
use dnsperf.Common.{◌≡◌, ◌∷◌, [], refl, arith, Bytes, ok, err, failure, length, ◌==◌, if◌then◌else◌}
use dnsperf.Libc.{codes, to_lower, strncasecmp_eq}
use dnsperf.Dns.Edns.{split_colon}
use dnsperf.Dns.Tsig.Key.{
  Decoded, finished, expecting, parse_key, make_key, digest_of, md5, sha256, alg_name,
}
use dnsperf.Dns.Tsig.Parsed.{parse_key-text}

-- Decodes a text that ends in '='.
abbrev decode : Bytes → Decoded
decode text = if length text == 4 then finished (1 ∷ []) else expecting (1 ∷ 2 ∷ 3 ∷ [])

-- Without an algorithm the key is for MD5; a wrong algorithm and a text that could go on are refused.
keys :
    (parse_key decode (codes "Key:AQ==")
      ≡ ok (record {
        key = record { name = codes "key"; alg = alg_name md5 };
        digest = md5;
        secret = 1 ∷ [];
      }))
    × ((parse_key decode (codes "hmac-sha3:key:AQ==") ≡ err failure)
        × (parse_key decode (codes "hmac-sha1:key:AQIDAQID") ≡ err failure))
unfolding parse_key make_key digest_of split_colon to_lower strncasecmp_eq
keys = (refl, (refl, refl))

parse_key-text_example :
    parse_key decode (codes "HMAC-SHA256:Key:AQ==")
    ≡ ok (record {
      key = record { name = codes "key"; alg = codes "hmac-sha256" };
      digest = sha256;
      secret = 1 ∷ [];
    })
unfolding to_lower
parse_key-text_example =
    parse_key-text decode sha256 (codes "HMAC-SHA256") (codes "Key") (codes "AQ==") (1 ∷ []) refl
      (refl, (refl, (refl, tt))) (omega arith) (omega arith) refl
