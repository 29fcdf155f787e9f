-- ===== src/Dns/Edns/Record.antt =====
-- src/edns.c, perf_add_edns: the record that it appends.
use dnsperf.Common.{
  ◌+◌, ◌≤◌, ◌≡◌, refl, inl, inr, Bool, true, false, Option, ◌∷◌, ◌++◌, arith, ltb, if◌then◌else◌,
  Bool-cases, Bytes, length, no_space, ok, err,
}
use dnsperf.Buffer.{Buffer, used_length, available, put_uint8, put_uint16, increment, uint16}
use dnsperf.Buffer.Laws.{put_mem_fits, put_put}
use dnsperf.Dns.Edns.{add_edns, option_bytes}

-- RFC 6891, 6.1.2: root, type OPT, the payload size as class, the extended flags as TTL, and the
-- options behind their length.
abbrev pub opt_record : Bool → Bytes → Bytes
opt_record dnssec option =
    0
    ∷ 0
    ∷ 41
    ∷ 16
    ∷ 0
    ∷ 0
    ∷ 0
    ∷ (if dnssec then 128 else 0)
    ∷ 0
    ∷ (uint16 (length option) ++ option)

opt_record_fits :
    (packet : Buffer) (dnssec : Bool) (option : Bytes)
    → ltb (available packet) (11 + length option) ≡ false
    → used_length packet + length (opt_record dnssec option) ≤ packet.cap
opt_record_fits packet dnssec option h = ground arith

-- perf_add_edns appends one OPT record with all options behind their right length and counts it in
-- the header, if the record fits; else it answers PERF_R_NOSPACE. No assert() fails.
pub add_edns_lem :
    (packet : Buffer) (dnssec : Bool) (option : Option Buffer)
    → add_edns packet dnssec option ≡ (
        if ltb (available packet) (11 + length (option_bytes option))
        then err no_space
        else ok (
            increment
              (record packet { bytes = packet.bytes ++ opt_record dnssec (option_bytes option) })
              11))
unfolding add_edns put_uint8 put_uint16
add_edns_lem packet true option =
    let n = length (option_bytes option) in
    elim (Bool-cases (ltb (available packet) (11 + n))) [
      | inl full ↦ rw full refl
      | inr fits ↦
          rw fits
            (simp put_put (rw (put_mem_fits packet _ (opt_record_fits packet true _ fits)) refl))
    ]
add_edns_lem packet false option =
    let n = length (option_bytes option) in
    elim (Bool-cases (ltb (available packet) (11 + n))) [
      | inl full ↦ rw full refl
      | inr fits ↦
          rw fits
            (simp put_put (rw (put_mem_fits packet _ (opt_record_fits packet false _ fits)) refl))
    ]
