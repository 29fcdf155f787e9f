-- ===== src/Dns/Name/Decimal.antt =====
-- src/dns.c, perf_dname_fromstring: the value of an escape `\\DDD`.
use dnsperf.Common.{ℕ, ◌+◌, ◌-◌, ◌*◌, ◌≤◌, ◌≡◌, ◌↔◌, true, [], ◌∷◌, arith, is_digit}
use dnsperf.Dns.Name.{strtol_7}

-- RFC 1035, 5.1: `\\DDD` is the octet of that decimal number.
abbrev pub decimal : ℕ → ℕ → ℕ → ℕ
decimal d e f = 100 * (d - b'0') + 10 * (e - b'0') + (f - b'0')

-- Of all escapes of three digits, the code reads exactly `\\000` to `\\006` as decimal numbers,
-- since it calls strtol() with base 7.
pub strtol_7-eq-decimal :
    (d e f : ℕ)
    → is_digit d ≡ true
    → is_digit e ≡ true
    → is_digit f ≡ true
    → (strtol_7 0 (d ∷ e ∷ f ∷ []) ≡ decimal d e f) ↔ ((d ≡ b'0') × (e ≡ b'0') × (f ≤ b'6'))
unfolding strtol_7
strtol_7-eq-decimal d e f hd he hf = (λ h. ground arith, λ h. ground arith)
