-- ===== src/Tests/Names.antt =====
-- Runs of perf_dname_fromstring and of the theorems on it.
use dnsperf.Common.{
  ℕ, ◌≤◌, ◌≡◌, refl, ◌↔◌, true, [], ◌∷◌, ◌++◌, arith, failure, no_space, ok, err, abort,
}
use dnsperf.Buffer.{Buffer, init}
use dnsperf.Libc.{codes}
use dnsperf.Dns.Name.{copy_label, put_label, name_loop, dname_from_string, strtol_7}
use dnsperf.Dns.Name.Wire.{wire, size, HoldsName, dname_from_string-HoldsName}
use dnsperf.Dns.Name.Encode.{text, dname_from_string-text}
use dnsperf.Dns.Name.Safety.{Returns, dname_from_string-Returns}
use dnsperf.Dns.Name.Decimal.{strtol_7-eq-decimal}

abbrev packet : Buffer
packet = record { bytes = 7 ∷ []; cap = 64 }

www_cz :
    dname_from_string (codes "www.cz") packet
    ≡ ok (record packet { bytes = 7 ∷ 3 ∷ b'w' ∷ b'w' ∷ b'w' ∷ 2 ∷ b'c' ∷ b'z' ∷ 0 ∷ [] })
unfolding dname_from_string name_loop put_label
www_cz = refl

root_dot : dname_from_string (codes ".") packet ≡ ok (record packet { bytes = 7 ∷ 0 ∷ [] })
unfolding dname_from_string name_loop put_label
root_dot = refl

-- Escapes: a dot inside a label, and three digits, which are read with base 7.
escapes :
    dname_from_string (codes "a\\.b\\012") packet
    ≡ ok (record packet { bytes = 7 ∷ 4 ∷ b'a' ∷ b'.' ∷ b'b' ∷ 9 ∷ 0 ∷ [] })
unfolding dname_from_string name_loop put_label copy_label
escapes = refl

refusals :
    (dname_from_string (codes "a..b") packet ≡ err failure)
    × (dname_from_string (codes ".a") packet ≡ err failure)
    × (dname_from_string (codes "a\\") packet ≡ err failure)
    × (dname_from_string (codes "\\666") packet ≡ err failure)
    × (dname_from_string (codes "abc") (init 2) ≡ err no_space)
unfolding dname_from_string name_loop put_label copy_label init
refusals = (refl, refl, refl, refl, refl)

-- The check for space counts the text alone: here an assert() of the buffer fails.
short_buffer : dname_from_string (codes "abc") (init 4) ≡ abort
unfolding dname_from_string name_loop put_label init
short_buffer = refl

dname_from_string-text_example :
    dname_from_string (text true (codes "www") (codes "cz" ∷ [])) packet
    ≡ ok (record packet { bytes = packet.bytes ++ wire (codes "www" ∷ codes "cz" ∷ []) })
unfolding size
dname_from_string-text_example =
    dname_from_string-text true (codes "www") (codes "cz" ∷ []) packet (ground arith) (omega arith)
      (omega arith)

dname_from_string-HoldsName_example :
    HoldsName 255 packet (record packet { bytes = 7 ∷ 4 ∷ b'a' ∷ b'.' ∷ b'b' ∷ 9 ∷ 0 ∷ [] })
dname_from_string-HoldsName_example =
    dname_from_string-HoldsName b'a' (codes "\\.b\\012") packet escapes

dname_from_string-Returns_example : Returns (dname_from_string (codes "a\\.b\\999") packet)
dname_from_string-Returns_example =
    dname_from_string-Returns (codes "a\\.b\\999") packet (omega arith)

strtol_7-eq-decimal_example :
    (strtol_7 0 (b'0' ∷ b'6' ∷ b'5' ∷ []) ≡ 65)
    ↔ ((◌≡◌ {A = ℕ} b'0' b'0') × (◌≡◌ {A = ℕ} b'6' b'0') × (b'5' ≤ b'6'))
strtol_7-eq-decimal_example = strtol_7-eq-decimal b'0' b'6' b'5' refl refl refl
