-- ===== src/Dns/Name/Octets.antt =====
-- src/dns.c, perf_dname_fromstring: what the text of a label stands for.
use dnsperf.Common.{◌%◌, [], ◌∷◌, ◌==◌, if◌then◌else◌, is_digit, Bytes}
use dnsperf.Dns.Name.{Escape, plain, escaped, one, two, strtol_7}

-- The octets that a label's text stands for.
unfoldable pub octets : Escape → Bytes → Bytes
octets _ [] = []
octets plain (c ∷ cs) =
    let in_escape = octets escaped cs in
    let behind = c ∷ octets plain cs in
    if c == b'\\' then in_escape else if c == b'.' then [] else behind
octets escaped (c ∷ cs) =
    let digits = octets (one c) cs in
    let behind = c ∷ octets plain cs in if is_digit c then digits else behind
octets (one d) (c ∷ cs) = octets (two d c) cs
octets (two d e) (c ∷ cs) = strtol_7 0 (d ∷ e ∷ c ∷ []) % 256 ∷ octets plain cs

-- The text behind the label, from its dot on.
unfoldable pub behind_label : Escape → Bytes → Bytes
behind_label _ [] = []
behind_label plain (c ∷ cs) =
    let in_escape = behind_label escaped cs in
    let behind = behind_label plain cs in
    if c == b'\\' then in_escape else if c == b'.' then c ∷ cs else behind
behind_label escaped (c ∷ cs) = behind_label (if is_digit c then one c else plain) cs
behind_label (one d) (c ∷ cs) = behind_label (two d c) cs
behind_label (two d e) (c ∷ cs) = behind_label plain cs
