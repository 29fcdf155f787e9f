-- ===== src/Dns/Name/Steps.antt =====
-- src/dns.c, perf_dname_fromstring: one character of each pass, as equations.
use dnsperf.Common.{
  ℕ, ◌+◌, ◌%◌, ◌≡◌, refl, Bool, true, none, some, [], ◌∷◌, arith, ltb, ◌==◌, if◌then◌else◌,
  is_digit, Bytes, failure, ok, err, ◌>>=◌,
}
use dnsperf.Buffer.{Buffer, put_mem, put_uint8}
use dnsperf.Dns.Name.{plain, escaped, one, two, scan_label, copy_label, strtol_7}
use dnsperf.Dns.Name.Octets.{octets, behind_label}

module _ (c : ℕ) (cs : Bytes) where
  pub scan_plain :
      (n : ℕ) (quoted : Bool)
      → scan_label plain (c ∷ cs) n quoted ≡ (
          if c == b'\\'
          then scan_label escaped cs n true
          else if c == b'.'
          then some (n, quoted)
          else scan_label plain cs (n + 1) quoted)
  unfolding scan_label
  scan_plain n quoted = refl

  pub scan_escaped :
      (n : ℕ) (quoted : Bool)
      → scan_label escaped (c ∷ cs) n quoted ≡ (
          if is_digit c then scan_label (one c) cs n quoted else scan_label plain cs (n + 1) quoted)
  unfolding scan_label
  scan_escaped n quoted = refl

  pub scan_one :
      (d n : ℕ) (quoted : Bool)
      → scan_label (one d) (c ∷ cs) n quoted
        ≡ (if is_digit c then scan_label (two d c) cs n quoted else none)
  unfolding scan_label
  scan_one d n quoted = refl

  pub scan_two :
      (d e n : ℕ) (quoted : Bool)
      → scan_label (two d e) (c ∷ cs) n quoted
        ≡ (if is_digit c then scan_label plain cs (n + 1) quoted else none)
  unfolding scan_label
  scan_two d e n quoted = refl

  pub octets_plain :
      octets plain (c ∷ cs)
      ≡ (if c == b'\\' then octets escaped cs else if c == b'.' then [] else c ∷ octets plain cs)
  unfolding octets
  octets_plain = refl

  pub octets_escaped :
      octets escaped (c ∷ cs) ≡ (if is_digit c then octets (one c) cs else c ∷ octets plain cs)
  unfolding octets
  octets_escaped = refl

  pub octets_one : (d : ℕ) → octets (one d) (c ∷ cs) ≡ octets (two d c) cs
  unfolding octets
  octets_one d = refl

  pub octets_two :
      (d e : ℕ) → octets (two d e) (c ∷ cs) ≡ strtol_7 0 (d ∷ e ∷ c ∷ []) % 256 ∷ octets plain cs
  unfolding octets
  octets_two d e = refl

  pub behind_plain : behind_label plain (c ∷ cs) ≡ (
      if c == b'\\'
      then behind_label escaped cs
      else if c == b'.'
      then c ∷ cs
      else behind_label plain cs)
  unfolding behind_label
  behind_plain = refl

  pub behind_escaped :
      behind_label escaped (c ∷ cs)
      ≡ (if is_digit c then behind_label (one c) cs else behind_label plain cs)
  unfolding behind_label
  behind_escaped = ground arith

  pub behind_one : (d : ℕ) → behind_label (one d) (c ∷ cs) ≡ behind_label (two d c) cs
  unfolding behind_label
  behind_one d = refl

  pub behind_two : (d e : ℕ) → behind_label (two d e) (c ∷ cs) ≡ behind_label plain cs
  unfolding behind_label
  behind_two d e = refl

  module _ (b : Buffer) where
    pub copy_plain : copy_label plain (c ∷ cs) b ≡ (
        if c == b'\\'
        then copy_label escaped cs b
        else if c == b'.'
        then ok (c ∷ cs, b)
        else put_mem b (c ∷ []) >>= λ b'. copy_label plain cs b')
    unfolding copy_label
    copy_plain = refl

    pub copy_escaped : copy_label escaped (c ∷ cs) b ≡ (
        if is_digit c
        then copy_label (one c) cs b
        else put_mem b (c ∷ []) >>= λ b'. copy_label plain cs b')
    unfolding copy_label
    copy_escaped = refl

    pub copy_one : (d : ℕ) → copy_label (one d) (c ∷ cs) b ≡ copy_label (two d c) cs b
    unfolding copy_label
    copy_one d = refl

    pub copy_two :
        (d e : ℕ)
        → copy_label (two d e) (c ∷ cs) b ≡ (
            if ltb 255 (strtol_7 0 (d ∷ e ∷ c ∷ []))
            then err failure
            else put_uint8 b (strtol_7 0 (d ∷ e ∷ c ∷ [])) >>= λ b'. copy_label plain cs b')
    unfolding copy_label
    copy_two d e = refl
