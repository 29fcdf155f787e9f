-- ===== src/Dns/Query.antt =====
-- src/dns.c, build_query: the question section from a line "domain type".
use dnsperf.Common.{◌==◌, if◌then◌else◌, Bytes, length, failure, Outcome, err, ◌>>=◌}
use dnsperf.Buffer.{Buffer, put_uint16}
use dnsperf.Libc.{c_string, token, behind_token, skip_spaces}
use dnsperf.Dns.Name.{dname_from_string}
use dnsperf.Dns.Qtype.{qtype_from_string}

-- build_query; `line` is the memory at `line->base`.
unfoldable pub build_query : Bytes → Buffer → Outcome Buffer
build_query line msg =
    let domain = token (c_string line) in
    let qtype = token (skip_spaces (behind_token (c_string line))) in
    if length domain == 0
    then err failure
    else dname_from_string domain msg >>= λ msg₁.
        if length qtype == 0
        then err failure
        else qtype_from_string qtype msg₁ >>= λ msg₂. put_uint16 msg₂ 1
