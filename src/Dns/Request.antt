-- ===== src/Dns/Request.antt =====
-- src/dns.c, perf_dns_buildrequest, in a build without LDNS.
pub mod Id
use dnsperf.Common.{
  ℕ, Bool, Option, none, some, if◌then◌else◌, Bytes, failure, Outcome, ok, err, ◌>>=◌,
}
use dnsperf.Buffer.{Buffer, put_uint16}
use dnsperf.Dns.Query.{build_query}
use dnsperf.Dns.Edns.{add_edns}
use dnsperf.Dns.Tsig.{TsigKey, add_tsig}

-- The header: id, flags, and the four counters.
unfoldable pub put_header : ℕ → ℕ → Buffer → Outcome Buffer
put_header qid flags msg = put_uint16 msg qid >>= λ m₁. put_uint16 m₁ flags >>= λ m₂.
    put_uint16 m₂ 1 >>= λ m₃. put_uint16 m₃ 0 >>= λ m₄. put_uint16 m₄ 0 >>= λ m₅. put_uint16 m₅ 0

-- What a request is built with: `hmac` and `now` are as in `add_tsig`.
pub record Options : Type 0 where
  pub edns : Bool
  pub dnssec : Bool
  pub is_update : Bool
  pub tsigkey : Option TsigKey
  pub edns_option : Option Buffer

unfoldable pub sign : (Bytes → Bytes) → ℕ → Option TsigKey → Buffer → Outcome Buffer
sign hmac now none msg = ok msg
sign hmac now (some key) msg = add_tsig hmac now key msg

-- perf_dns_buildrequest
unfoldable pub build_request : (Bytes → Bytes) → ℕ → Bytes → ℕ → Options → Buffer → Outcome Buffer
unfolding put_header sign
build_request hmac now line qid options msg =
    put_header qid (if options.is_update then 10240 else 256) msg >>= λ m₁.
    (if options.is_update then err failure else build_query line m₁) >>= λ m₂.
    (if options.edns then add_edns m₂ options.dnssec options.edns_option else ok m₂) >>= λ m₃.
    sign hmac now options.tsigkey m₃
