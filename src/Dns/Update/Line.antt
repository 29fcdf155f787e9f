-- ===== src/Dns/Update/Line.antt =====
-- src/dns.c, build_update: the class and the data of the record that a line gives.
use dnsperf.Libc.{skip_spaces, behind_token, token, strtoul, ulong_max}
use dnsperf.Common.{ap, zero, suc, arith, Code}
use dnsperf.Dns.Update.{token}
use dnsperf.Common.{ap}
use dnsperf.Common.{Code}
use dnsperf.Common.{
  ℕ, ◌-◌, ◌≡◌, refl, Bool, true, false, not, Option, none, some, [], if_cases, ltb, ◌==◌,
  if◌then◌else◌, Bytes, length, Outcome, ok, err, abort, stuck, ◌>>=◌, ◌⊎◌, inl, inr, ◌||◌, ◌<◌,
}
use dnsperf.Dns.Update.{
  Rr, Ldns, class_in, class_none, class_any, read_owner, read_ttl, read_rdata, read_type, Wanted,
  read_update_line, Command, add, delete, require, prohibit, new_rr, wanted, class_of, run_command,
  tmp_size,
}

-- The call returns, and a record that it gives has the property.
abbrev pub Gives {ℓ} : {A : Type ℓ} → (A → Type 0) → Outcome A → Type 0
Gives P (ok a) = P a
Gives P (err e) = Unit {0}
Gives P abort = ⊥
Gives P stuck = ⊥

pub Gives-bind {ℓ κ} :
    {A : Type ℓ} {B : Type κ} (P : A → Type 0) (Q : B → Type 0) (m : Outcome A) (f : A → Outcome B)
    → Gives P m
    → ((a : A) → P a → Gives Q (f a))
    → Gives Q (m >>= f)
Gives-bind P Q (ok a) f h k = k a h
Gives-bind P Q (err e) f h k = tt
Gives-bind P Q abort f h k = h
Gives-bind P Q stuck f h k = h

read_owner-Gives :
    (L : Ldns) (origin name : Bytes) → Gives (λ (n : Bytes). Unit {0}) (read_owner L origin name)
unfolding read_owner
read_owner-Gives L origin name =
    if_cases (Gives (λ (n : Bytes). Unit {0})) (ltb (tmp_size - 1) (length name)) _ _ (λ _. tt)
      (λ _. named (L.name_of name))
  where
    whole :
        (o : Option Bytes)
        → Gives (λ (n : Bytes). Unit {0}) (elim o [ none ↦ err Code.failure | some n ↦ ok n ])
    whole none = tt
    whole (some n) = tt

    named :
        (o : Option Bytes)
        → Gives
            (λ (n : Bytes). Unit {0})
            (elim o [
              | none ↦ err Code.failure
              | some owner ↦
                  if L.is_absolute name
                  then ok owner
                  else elim (L.cat owner origin) [ none ↦ err Code.failure | some n ↦ ok n ]
            ])
    named none = tt
    named (some owner) =
        if_cases (Gives (λ (n : Bytes). Unit {0})) (L.is_absolute name) _ _ (λ _. tt)
          (λ _. whole (L.cat owner origin))

read_ttl-Gives :
    (b : Bool) (ttl : ℕ) (str : Bytes) → Gives (λ (r : ℕ × Bytes). Unit {0}) (read_ttl b ttl str)
unfolding read_ttl
read_ttl-Gives b ttl str =
    if_cases (Gives (λ (r : ℕ × Bytes). Unit {0})) (not b) _ _ (λ _. tt)
      (λ _.
        if_cases (Gives (λ (r : ℕ × Bytes). Unit {0})) (ltb (tmp_size - 1) (length (token str))) _ _
          (λ _. tt)
          (λ _.
            if_cases (Gives (λ (r : ℕ × Bytes). Unit {0}))
              (not (length (strtoul 10 (token str)).1 == 0)
                || (strtoul 10 (token str)).0 == ulong_max)
              _ _ (λ _. tt) (λ _. tt)))

-- Data stands in a record only where it is wanted.
abbrev NoData : Bool → Rr → Type 0
NoData want rr = want ≡ false → rr.rdata ≡ []

clash : (b : Bool) {P : Type 0} → not b ≡ false → b ≡ false → P
clash true h k = cc
clash false h k = cc

read_rdata-Gives :
    (L : Ldns) (origin line : Bytes) (want need : Bool) (str : Bytes) (rr : Rr)
    → rr.rdata ≡ []
    → Gives (NoData want) (read_rdata L origin line want need str rr)
unfolding read_rdata
read_rdata-Gives L origin line want need str rr e =
    if_cases (Gives (NoData want)) (not want) _ _ (λ _ _. e)
      (λ wants.
        if_cases (Gives (NoData want)) (length str == 0) _ _
          (λ _. if_cases (Gives (NoData want)) need _ _ (λ _. tt) (λ _ _. e))
          (λ _. parsed wants (L.rr_of line origin)))
  where
    parsed :
        not want ≡ false
        → (o : Option Rr)
        → Gives (NoData want) (elim o [
          | none ↦ err Code.invalid_update
          | some rr₂ ↦ ok (record rr₂ { ttl = rr.ttl })
        ])
    parsed wants none = tt
    parsed wants (some rr₂) = λ k. clash want wants k

read_type-Gives :
    (L : Ldns) (origin line : Bytes) (need_type want need : Bool) (str : Bytes) (rr : Rr)
    → rr.rdata ≡ []
    → Gives (NoData want) (read_type L origin line need_type want need str rr)
unfolding read_type
read_type-Gives L origin line need_type want need str rr e =
    if_cases (Gives (NoData want)) (length (token str) == 0) _ _
      (λ _. if_cases (Gives (NoData want)) need_type _ _ (λ _. tt) (λ _ _. e))
      (λ _.
        if_cases (Gives (NoData want)) (ltb (tmp_size - 1) (length (token str))) _ _ (λ _. tt)
          (λ _.
            if_cases (Gives (NoData want)) (L.type_of (token str) == 0) _ _ (λ _. tt)
              (λ _. read_rdata-Gives L origin line want need _ _ e)))

read_update_line-Gives :
    (L : Ldns) (str origin : Bytes) (w : Wanted)
    → Gives (NoData w.want_rdata) (read_update_line L str origin w new_rr)
unfolding read_update_line
read_update_line-Gives L str origin w =
    let line : Bytes = skip_spaces str in
    let behind : Bytes = skip_spaces (behind_token line) in
    Gives-bind (λ (n : Bytes). Unit {0}) (NoData w.want_rdata) (read_owner L origin (token line)) _
      (read_owner-Gives L origin (token line))
      (λ owner _.
        Gives-bind (λ (r : ℕ × Bytes). Unit {0}) (NoData w.want_rdata)
          (read_ttl w.want_ttl 0 behind) _ (read_ttl-Gives w.want_ttl 0 behind)
          (λ r _.
            read_type-Gives L origin line w.need_type w.want_rdata w.need_rdata r.1
              (record new_rr { owner = owner; ttl = r.0 }) refl))

-- The classes of RFC 2136: what is added has class IN; what is deleted has class NONE where the line
-- names data, and ANY where it does not; what is to exist has class IN where the line names data,
-- and ANY where it does not; what is not to exist has class NONE and no data.
abbrev pub IsClassed : Command → Rr → Type 0
IsClassed add rr = rr.class ≡ class_in
IsClassed delete rr =
    ((rr.class ≡ class_none) × (0 < length rr.rdata))
    ⊎ ((rr.class ≡ class_any) × (length rr.rdata ≡ 0))
IsClassed require rr =
    ((rr.class ≡ class_in) × (0 < length rr.rdata))
    ⊎ ((rr.class ≡ class_any) × (length rr.rdata ≡ 0))
IsClassed prohibit rr = (rr.class ≡ class_none) × (length rr.rdata ≡ 0)

class_of-IsClassed :
    (cmd : Command) (rr : Rr)
    → NoData (wanted cmd).want_rdata rr
    → IsClassed cmd (record rr { class = class_of cmd (length rr.rdata) })
class_of-IsClassed add rr h = refl
class_of-IsClassed delete rr h = go (length rr.rdata)
  where
    go :
        (n : ℕ)
        → (((if n == 0 then class_any else class_none) ≡ class_none) × (0 < n))
          ⊎ (((if n == 0 then class_any else class_none) ≡ class_any) × (n ≡ 0))
    go zero = inr (refl, refl)
    go (suc n) = inl (ground arith, omega arith)
class_of-IsClassed require rr h = go (length rr.rdata)
  where
    go :
        (n : ℕ)
        → (((if n == 0 then class_any else class_in) ≡ class_in) × (0 < n))
          ⊎ (((if n == 0 then class_any else class_in) ≡ class_any) × (n ≡ 0))
    go zero = inr (refl, refl)
    go (suc n) = inl (ground arith, omega arith)
class_of-IsClassed prohibit rr h = (refl, ap length (h refl))

pub run_command-Gives :
    (L : Ldns) (origin : Bytes) (cmd : Command) (text : Bytes)
    → Gives (IsClassed cmd) (run_command L origin cmd text)
unfolding run_command
run_command-Gives L origin cmd text =
    Gives-bind (NoData (wanted cmd).want_rdata) (IsClassed cmd)
      (read_update_line L text origin (wanted cmd) new_rr) _
      (read_update_line-Gives L text origin (wanted cmd)) (λ rr h. class_of-IsClassed cmd rr h)
