-- ===== src/Dns/Name/Label.antt =====
-- src/dns.c, perf_dname_fromstring: the two passes over one label agree.
use dnsperf.Common.{
  ℕ, ◌+◌, ◌≤◌, ◌≡◌, refl, Bool, true, false, some, [], ◌∷◌, arith, Bytes, length, take, drop,
}
use dnsperf.Dns.Name.{Escape, plain, escaped, one, two, scan_label}
use dnsperf.Dns.Name.Octets.{octets, behind_label}
use dnsperf.Dns.Name.Steps.{
  scan_plain, scan_escaped, scan_one, scan_two, octets_plain, octets_escaped, octets_one,
  octets_two, behind_plain, behind_escaped, behind_one, behind_two,
}

pub scan_nil :
    (st : Escape) (n : ℕ) (quoted : Bool) {p : ℕ × Bool}
    → scan_label st [] n quoted ≡ some p
    → (p ≡ (n, quoted)) × (st ≡ plain)
unfolding scan_label
scan_nil plain n quoted h = ground arith
scan_nil escaped n quoted h = cc
scan_nil (one d) n quoted h = cc
scan_nil (two d e) n quoted h = cc

pub octets_nil : (st : Escape) → octets st [] ≡ []
unfolding octets
octets_nil plain = refl
octets_nil _ = refl

pub behind_nil : (st : Escape) → behind_label st [] ≡ []
unfolding behind_label
behind_nil plain = refl
behind_nil _ = refl

-- The first pass counts the octets.
pub scan_label-length :
    (st : Escape) (cs : Bytes) (n : ℕ) (quoted : Bool) (m : ℕ) (q : Bool)
    → scan_label st cs n quoted ≡ some (m, q)
    → m ≡ n + length (octets st cs)
scan_label-length st [] n quoted m q h = ground (arith, scan_nil st n quoted h, octets_nil st)
scan_label-length plain (c ∷ cs) n quoted m q h = ground (
  arith,
  scan_plain c cs n quoted,
  octets_plain c cs,
  scan_label-length escaped cs n true m q,
  scan_label-length plain cs (n + 1) quoted m q,
)
scan_label-length escaped (c ∷ cs) n quoted m q h = ground (
  arith,
  scan_escaped c cs n quoted,
  octets_escaped c cs,
  scan_label-length (one c) cs n quoted m q,
  scan_label-length plain cs (n + 1) quoted m q,
)
scan_label-length (one d) (c ∷ cs) n quoted m q h = ground (
  arith,
  scan_one c cs d n quoted,
  octets_one c cs d,
  scan_label-length (two d c) cs n quoted m q,
)
scan_label-length (two d e) (c ∷ cs) n quoted m q h = ground (
  arith,
  scan_two c cs d e n quoted,
  octets_two c cs d e,
  scan_label-length plain cs (n + 1) quoted m q,
)

-- Octets and rest together are no longer than the text.
pub octets_short :
    (st : Escape) (cs : Bytes) → length (octets st cs) + length (behind_label st cs) ≤ length cs
octets_short st [] = rw (octets_nil st, behind_nil st) (omega arith)
octets_short plain (c ∷ cs) =
    ground
      (arith, octets_plain c cs, behind_plain c cs, octets_short escaped cs, octets_short plain cs)
octets_short escaped (c ∷ cs) = ground (
  arith,
  octets_escaped c cs,
  behind_escaped c cs,
  octets_short (one c) cs,
  octets_short plain cs,
)
octets_short (one d) (c ∷ cs) =
    rw (octets_one c cs d, behind_one c cs d) (omega (arith, octets_short (two d c) cs))
octets_short (two d e) (c ∷ cs) =
    rw (octets_two c cs d e, behind_two c cs d e) (omega (arith, octets_short plain cs))

-- Behind a backslash the first pass reports a label with escapes.
scan_label_quoted :
    (st : Escape) (cs : Bytes) (n : ℕ) (m : ℕ) (q : Bool)
    → scan_label st cs n true ≡ some (m, q)
    → q ≡ true
scan_label_quoted st [] n m q h = ground (arith, scan_nil st n true h)
scan_label_quoted plain (c ∷ cs) n m q h = ground (
  arith,
  scan_plain c cs n true,
  scan_label_quoted escaped cs n m q,
  scan_label_quoted plain cs (n + 1) m q,
)
scan_label_quoted escaped (c ∷ cs) n m q h = ground (
  arith,
  scan_escaped c cs n true,
  scan_label_quoted (one c) cs n m q,
  scan_label_quoted plain cs (n + 1) m q,
)
scan_label_quoted (one d) (c ∷ cs) n m q h =
    ground (arith, scan_one c cs d n true, scan_label_quoted (two d c) cs n m q)
scan_label_quoted (two d e) (c ∷ cs) n m q h =
    ground (arith, scan_two c cs d e n true, scan_label_quoted plain cs (n + 1) m q)

-- A label with no escape is copied whole.
pub take_unquoted :
    (cs : Bytes) (n m : ℕ)
    → scan_label plain cs n false ≡ some (m, false)
    → (take (length (octets plain cs)) cs ≡ octets plain cs)
      × (drop (length (octets plain cs)) cs ≡ behind_label plain cs)
take_unquoted [] n m h = unfold octets behind_label in (refl, refl)
take_unquoted (c ∷ cs) n m h = ground (
  arith,
  scan_plain c cs n false,
  octets_plain c cs,
  behind_plain c cs,
  scan_label_quoted escaped cs n m false,
  take_unquoted cs (n + 1) m,
)
