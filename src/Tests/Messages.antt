-- ===== src/Tests/Messages.antt =====
-- Runs of the functions that build a message, and the theorems on them.
use dnsperf.Common.{
  ◌%◌, ◌≡◌, refl, true, false, none, [], ◌∷◌, ◌++◌, arith, ltb, if◌then◌else◌, Bytes, length,
  failure, no_space, ok, err,
}
use dnsperf.Buffer.{
  Buffer, init, available, put_uint8, put_uint16, put_mem, add_zeros, overwrite_uint16, increment,
}
use dnsperf.Libc.{codes, c_string, token, behind_token, strtoul}
use dnsperf.Dns.Name.{dname_from_string, name_loop, put_label}
use dnsperf.Dns.Name.Wire.{size}
use dnsperf.Dns.Name.Encode.{text}
use dnsperf.Dns.Qtype.{qtype_from_string}
use dnsperf.Dns.Query.{build_query}
use dnsperf.Dns.Edns.{hex_loop, split_colon, parse_option, add_edns}
use dnsperf.Dns.Edns.Record.{opt_record, add_edns_lem}
use dnsperf.Dns.Tsig.{TsigKey, add_tsig}
use dnsperf.Dns.Tsig.Record.{
  IsPlainKey, alg_wire, name_wire, digest_bytes, fixed_part, tail_part, add_tsig_lem,
}
use dnsperf.Dns.Request.{Options, build_request}

types :
    (qtype_from_string (codes "aAaA") (init 8) ≡ ok (record { bytes = 0 ∷ 28 ∷ []; cap = 8 }))
    × (qtype_from_string (codes "type257") (init 8) ≡ ok (record { bytes = 1 ∷ 1 ∷ []; cap = 8 }))
    × (qtype_from_string (codes "TYPE65536") (init 8) ≡ err failure)
    × (qtype_from_string (codes "TYPE1x") (init 8) ≡ err failure)
    × (qtype_from_string (codes "NOPE") (init 8) ≡ err failure)
unfolding qtype_from_string put_uint16 put_mem init
types = (refl, refl, refl, refl, refl)

-- A prefix of a type's name is taken for the first type that it begins.
prefix_type : qtype_from_string (codes "C") (init 8) ≡ ok (record { bytes = 0 ∷ 5 ∷ []; cap = 8 })
unfolding qtype_from_string put_uint16 put_mem init
prefix_type = refl

option :
    parse_option (codes "10:0aff") ≡ ok (record { bytes = 0 ∷ 10 ∷ 0 ∷ 2 ∷ 10 ∷ 255 ∷ []; cap = 6 })
unfolding parse_option hex_loop split_colon strtoul put_uint8 put_uint16 put_mem add_zeros
    overwrite_uint16 init
option = refl

bad_options :
    (parse_option (codes "10") ≡ err failure)
    × (parse_option (codes "10:") ≡ err failure)
    × (parse_option (codes "10:abc") ≡ err failure)
    × (parse_option (codes "1x:ab") ≡ err failure)
    × (parse_option (codes "10:zz") ≡ err failure)
unfolding parse_option hex_loop split_colon strtoul put_uint8 put_uint16 put_mem add_zeros
    overwrite_uint16 init
bad_options = (refl, refl, refl, refl, refl)

abbrev plain_query : Options
plain_query = record {
  edns = true;
  dnssec = true;
  is_update = false;
  tsigkey = none;
  edns_option = none;
}

query :
    build_request (λ xs. xs) 0 (codes "cz A\n") 258 plain_query (init 512)
    ≡ ok (record {
      bytes =
          1 ∷ 2 ∷ 1 ∷ 0 ∷ 0 ∷ 1 ∷ 0 ∷ 0 ∷ 0 ∷ 0 ∷ 0 ∷ 1 ∷ 2 ∷ b'c' ∷ b'z' ∷ 0 ∷ 0 ∷ 1 ∷ 0 ∷ 1 ∷ 0
          ∷ 0 ∷ 41 ∷ 16 ∷ 0 ∷ 0 ∷ 0 ∷ 128 ∷ 0 ∷ 0 ∷ 0 ∷ [];
      cap = 512;
    })
unfolding build_request build_query qtype_from_string add_edns put_uint8 put_uint16 put_mem init
    increment c_string token behind_token dname_from_string name_loop put_label
query = refl

abbrev key : TsigKey
key = record { name = codes "k.cz"; alg = codes "hmac-sha1" }

key-IsPlainKey : IsPlainKey key
unfolding text size
key-IsPlainKey = record {
  name_first = codes "k";
  name_rest = codes "cz" ∷ [];
  name_is = refl;
  name_plain = ground arith;
  name_small = omega arith;
  alg_first = codes "hmac-sha1";
  alg_rest = [];
  alg_is = refl;
  alg_plain = ground arith;
  alg_small = omega arith;
}

abbrev header : Buffer
header = record { bytes = 1 ∷ 2 ∷ 0 ∷ 0 ∷ 0 ∷ 0 ∷ 0 ∷ 0 ∷ 0 ∷ 0 ∷ 0 ∷ 0 ∷ []; cap = 512 }

abbrev sum_digest : Bytes → Bytes
sum_digest xs = length xs % 256 ∷ 5 ∷ []

add_tsig_lem_example :
    let md = sum_digest (header.bytes ++ digest_bytes key key-IsPlainKey 9) in
    let rdata = alg_wire key key-IsPlainKey ++ tail_part 9 md (1 ∷ 2 ∷ []) in
    let bytes = name_wire key key-IsPlainKey ++ (fixed_part (length rdata) ++ rdata) in
    add_tsig sum_digest 9 key header ≡ (
      if ltb (available header) (length bytes)
      then err no_space
      else ok (increment (record header { bytes = header.bytes ++ bytes }) 11))
add_tsig_lem_example =
    add_tsig_lem sum_digest 9 key key-IsPlainKey header (omega arith) (omega arith)

add_edns_lem_example : add_edns header true none ≡ (
    if ltb (available header) 11
    then err no_space
    else ok (increment (record header { bytes = header.bytes ++ opt_record true [] }) 11))
add_edns_lem_example = add_edns_lem header true none
