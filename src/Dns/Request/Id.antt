-- ===== src/Dns/Request/Id.antt =====
-- src/dns.c, perf_dns_buildrequest: the id in front of the request.
use dnsperf.Common.{if◌then◌else◌, take}
use dnsperf.Dns.Edns.{edns_len, max_edns_packet}
use dnsperf.Libc.{behind_token}
use dnsperf.Libc.{ulong_max}
use dnsperf.Libc.{skip_spaces}
use dnsperf.Common.{◌==◌}
use dnsperf.Libc.{strtoul}
use dnsperf.Libc.{c_string}
use dnsperf.Dns.Edns.{option_bytes}
use dnsperf.Libc.{token}
use dnsperf.Dns.Edns.{edns_len}
use dnsperf.Common.{not}
use dnsperf.Common.{Code, leb, ◌||◌, ◌%◌, ◌+◌, set, get_or, drop, no_space}
use dnsperf.Buffer.{uint16}
use dnsperf.Dns.Name.{name_loop}
use dnsperf.Dns.Name.Wire.{wire}
use dnsperf.Common.{
  ℕ, ◌≡◌, refl, ap, ◌∙◌, Bool, ◌&&◌, Option, none, some, [], ◌∷◌, ◌++◌, ltb, if_cases, Bytes,
  length, Outcome, ok, err, abort, stuck, ◌>>=◌, failure, subst,
}
use dnsperf.Buffer.{
  Buffer, uint16, put_mem, put_uint8, put_uint16, put_uint32, increment, available,
}
use dnsperf.Libc.{codes, strncasecmp_eq}
use dnsperf.Dns.Name.{dname_from_string}
use dnsperf.Dns.Name.Wire.{dname_from_string-HoldsName}
use dnsperf.Dns.Qtype.{qtype_from_string, find_type, qtype_table}
use dnsperf.Dns.Query.{build_query}
use dnsperf.Dns.Edns.{add_edns, max_edns_packet}
use dnsperf.Dns.Tsig.{TsigKey, put_tsig, add_tsig, digest_record}
use dnsperf.Dns.Request.{Options, put_header, sign, build_request}

-- What the call gives, if it succeeds, has the property.
unfoldable pub IfOk {ℓ} : {A : Type ℓ} → (A → Type 0) → Outcome A → Type 0
IfOk P (ok a) = P a
IfOk P (err e) = Unit {0}
IfOk P abort = Unit {0}
IfOk P stuck = Unit {0}

kept {ℓ} : {A : Type ℓ} (P : A → Type 0) (a : A) → P a → IfOk P (ok a)
unfolding IfOk
kept P a h = h

gone {ℓ} : {A : Type ℓ} (P : A → Type 0) (e : Code) → IfOk P (err e)
unfolding IfOk
gone P e = tt

fails {ℓ} : {A : Type ℓ} (P : A → Type 0) → IfOk P abort
unfolding IfOk
fails P = tt

IfOk-bind {ℓ κ} :
    {A : Type ℓ} {B : Type κ} (P : A → Type 0) (Q : B → Type 0) (m : Outcome A) (f : A → Outcome B)
    → IfOk P m
    → ((a : A) → P a → IfOk Q (f a))
    → IfOk Q (m >>= f)
unfolding IfOk
IfOk-bind P Q (ok a) f h k = k a h
IfOk-bind P Q (err e) f h k = tt
IfOk-bind P Q abort f h k = tt
IfOk-bind P Q stuck f h k = tt

-- Nothing is asked of the first step.
IfOk-behind {ℓ κ} :
    {A : Type ℓ} {B : Type κ} (Q : B → Type 0) (m : Outcome A) (f : A → Outcome B)
    → ((a : A) → IfOk Q (f a))
    → IfOk Q (m >>= f)
unfolding IfOk
IfOk-behind Q (ok a) f k = k a
IfOk-behind Q (err e) f k = tt
IfOk-behind Q abort f k = tt
IfOk-behind Q stuck f k = tt

IfOk-of {ℓ} : {A : Type ℓ} (P : A → Type 0) (m : Outcome A) → ((a : A) → m ≡ ok a → P a) → IfOk P m
unfolding IfOk
IfOk-of P (ok a) h = h a refl
IfOk-of P (err e) h = tt
IfOk-of P abort h = tt
IfOk-of P stuck h = tt

-- The id stands in the first two octets.
abbrev pub HasId : ℕ → Buffer → Type 0
HasId qid b = (rest : Bytes) × (b.bytes ≡ uint16 qid ++ rest)

module _ (qid : ℕ) where
  put_mem-HasId : (b : Buffer) (xs : Bytes) → HasId qid b → IfOk (HasId qid) (put_mem b xs)
  unfolding put_mem
  put_mem-HasId b xs (rest, e) =
      if_cases (IfOk (HasId qid)) (leb (length xs) (available b)) _ _
        (λ _.
          kept (HasId qid) (record b { bytes = b.bytes ++ xs }) (rest ++ xs, ap (λ ys. ys ++ xs) e))
        (λ _. fails (HasId qid))

  put_uint8-HasId : (v : ℕ) (b : Buffer) → HasId qid b → IfOk (HasId qid) (put_uint8 b v)
  unfolding put_uint8
  put_uint8-HasId v b h = put_mem-HasId b _ h

  put_uint16-HasId : (v : ℕ) (b : Buffer) → HasId qid b → IfOk (HasId qid) (put_uint16 b v)
  unfolding put_uint16
  put_uint16-HasId v b h = put_mem-HasId b _ h

  put_uint32-HasId : (v : ℕ) (b : Buffer) → HasId qid b → IfOk (HasId qid) (put_uint32 b v)
  unfolding put_uint32
  put_uint32-HasId v b h = put_mem-HasId b _ h

  increment-HasId : (b : Buffer) → HasId qid b → HasId qid (increment b 11)
  unfolding increment
  increment-HasId b (rest, e) = (
    set rest 9 ((get_or b.bytes 11 0 + 1) % 256),
    ap (λ ys. set ys 11 ((get_or b.bytes 11 0 + 1) % 256)) e,
  )

  -- Steps that keep the id, one behind the other.
  then_HasId :
      (m : Outcome Buffer) (f : Buffer → Outcome Buffer)
      → IfOk (HasId qid) m
      → ((b : Buffer) → HasId qid b → IfOk (HasId qid) (f b))
      → IfOk (HasId qid) (m >>= f)
  then_HasId m f h k = IfOk-bind (HasId qid) (HasId qid) m f h k

  dname_from_string-HasId :
      (str : Bytes) (b : Buffer) → HasId qid b → IfOk (HasId qid) (dname_from_string str b)
  unfolding dname_from_string name_loop
  dname_from_string-HasId [] b h =
      if_cases (IfOk (HasId qid)) (ltb (available b) 0) _ _ (λ _. gone (HasId qid) no_space)
        (λ _. kept (HasId qid) b h)
  dname_from_string-HasId (c ∷ cs) b (rest, e) =
      IfOk-of (HasId qid) (dname_from_string (c ∷ cs) b) (λ b' k.
        let (ls, good, small, is) = dname_from_string-HoldsName c cs b k in
        (rest ++ wire ls, ap (λ (x : Buffer). x.bytes) is ∙ ap (λ ys. ys ++ wire ls) e))

  qtype_from_string-HasId :
      (str : Bytes) (b : Buffer) → HasId qid b → IfOk (HasId qid) (qtype_from_string str b)
  unfolding qtype_from_string
  qtype_from_string-HasId str b h =
      if_cases (IfOk (HasId qid)) (ltb 4 (length str) && strncasecmp_eq 4 str (codes "TYPE")) _ _
        (λ _.
          if_cases (IfOk (HasId qid))
            (not (length (strtoul 10 (drop 4 str)).1 == 0)
              || (strtoul 10 (drop 4 str)).0 == ulong_max
              || ltb 65535 (strtoul 10 (drop 4 str)).0)
            _ _ (λ _. gone (HasId qid) failure)
            (λ _. put_uint16-HasId (strtoul 10 (drop 4 str)).0 b h))
        (λ _. named (find_type qtype_table str))
    where
      named :
          (o : Option ℕ)
          → IfOk (HasId qid) (elim o [ none ↦ err failure | some value ↦ put_uint16 b value ])
      named none = gone (HasId qid) failure
      named (some value) = put_uint16-HasId value b h

  build_query-HasId :
      (line : Bytes) (b : Buffer) → HasId qid b → IfOk (HasId qid) (build_query line b)
  unfolding build_query
  build_query-HasId line b h =
      if_cases (IfOk (HasId qid)) (length (token (c_string line)) == 0) _ _
        (λ _. gone (HasId qid) failure)
        (λ _. then_HasId _ _ (dname_from_string-HasId (token (c_string line)) b h) (λ b₁ h₁.
          if_cases (IfOk (HasId qid))
            (length (token (skip_spaces (behind_token (c_string line)))) == 0) _ _
            (λ _. gone (HasId qid) failure)
            (λ _.
              then_HasId _ _
                (qtype_from_string-HasId (token (skip_spaces (behind_token (c_string line)))) b₁ h₁)
                (λ b₂ h₂. put_uint16-HasId 1 b₂ h₂))))

  add_edns-HasId :
      (dnssec : Bool) (option : Option Buffer) (b : Buffer)
      → HasId qid b
      → IfOk (HasId qid) (add_edns b dnssec option)
  unfolding add_edns
  add_edns-HasId dnssec option b h =
      if_cases (IfOk (HasId qid)) (ltb (available b) (edns_len + length (option_bytes option))) _ _
        (λ _. gone (HasId qid) no_space)
        (λ _. then_HasId _ _ (put_uint8-HasId 0 b h) (λ b1 h1.
          then_HasId _ _ (put_uint16-HasId 41 b1 h1) (λ b2 h2.
            then_HasId _ _ (put_uint16-HasId max_edns_packet b2 h2) (λ b3 h3.
              then_HasId _ _ (put_uint8-HasId 0 b3 h3) (λ b4 h4.
                then_HasId _ _ (put_uint8-HasId 0 b4 h4) (λ b5 h5.
                  then_HasId _ _ (put_uint16-HasId (if dnssec then 0x8000 else 0) b5 h5) (λ b6 h6.
                    then_HasId _ _ (put_uint16-HasId (length (option_bytes option)) b6 h6) (λ b7 h7.
                      then_HasId _ _ (put_mem-HasId b7 (option_bytes option) h7) (λ b8 h8.
                        kept (HasId qid) (increment b8 11) (increment-HasId b8 h8))))))))))

  put_tsig-HasId :
      (key : TsigKey) (now : ℕ) (md : Bytes) (b : Buffer)
      → HasId qid b
      → IfOk (HasId qid) (put_tsig key now md b)
  unfolding put_tsig
  put_tsig-HasId key now md b h = then_HasId _ _ (dname_from_string-HasId key.name b h) (λ b1 h1.
      then_HasId _ _ (put_uint16-HasId 250 b1 h1) (λ b2 h2.
        then_HasId _ _ (put_uint16-HasId 255 b2 h2) (λ b3 h3.
          then_HasId _ _ (put_uint32-HasId 0 b3 h3) (λ b4 h4.
            then_HasId _ _ (put_uint16-HasId (length key.alg + 18 + length md) b4 h4) (λ b5 h5.
              then_HasId _ _ (dname_from_string-HasId key.alg b5 h5) (λ b6 h6.
                then_HasId _ _ (put_uint16-HasId 0 b6 h6) (λ b7 h7.
                  then_HasId _ _ (put_uint32-HasId now b7 h7) (λ b8 h8.
                    then_HasId _ _ (put_uint16-HasId 300 b8 h8) (λ b9 h9.
                      then_HasId _ _ (put_uint16-HasId (length md) b9 h9) (λ b10 h10.
                        then_HasId _ _ (put_mem-HasId b10 md h10) (λ b11 h11.
                          then_HasId _ _ (put_mem-HasId b11 (take 2 b.bytes) h11) (λ b12 h12.
                            then_HasId _ _ (put_uint16-HasId 0 b12 h12) (λ b13 h13.
                              then_HasId _ _ (put_uint16-HasId 0 b13 h13) (λ b14 h14.
                                kept (HasId qid) (increment b14 11)
                                  (increment-HasId b14 h14)))))))))))))))

  sign-HasId :
      (hmac : Bytes → Bytes) (now : ℕ) (key : Option TsigKey) (b : Buffer)
      → HasId qid b
      → IfOk (HasId qid) (sign hmac now key b)
  unfolding sign add_tsig
  sign-HasId hmac now none b h = kept (HasId qid) b h
  sign-HasId hmac now (some key) b h = IfOk-behind (HasId qid) (digest_record key now) _ (λ tmp.
      if_cases (IfOk (HasId qid))
        (ltb (available b)
          (length key.name + 12 + (length key.alg + 18 + length (hmac (b.bytes ++ tmp.bytes)))))
        _ _ (λ _. gone (HasId qid) no_space)
        (λ _. put_tsig-HasId key now (hmac (b.bytes ++ tmp.bytes)) b h))

  -- The header of an empty buffer.
  put_header-HasId :
      (flags : ℕ) (b : Buffer) → b.bytes ≡ [] → IfOk (HasId qid) (put_header qid flags b)
  unfolding put_header put_uint16 put_mem
  put_header-HasId flags b e = then_HasId _ _ (first) (λ b1 h1.
      then_HasId _ _ (put_uint16-HasId flags b1 h1) (λ b2 h2.
        then_HasId _ _ (put_uint16-HasId 1 b2 h2) (λ b3 h3.
          then_HasId _ _ (put_uint16-HasId 0 b3 h3) (λ b4 h4.
            then_HasId _ _ (put_uint16-HasId 0 b4 h4) (λ b5 h5. put_uint16-HasId 0 b5 h5)))))
    where
      first : IfOk (HasId qid) (put_uint16 b qid)
      first =
          if_cases (IfOk (HasId qid)) (leb 2 (available b)) _ _
            (λ _.
              kept (HasId qid) (record b { bytes = b.bytes ++ uint16 qid })
                ([], ap (λ ys. ys ++ uint16 qid) e))
            (λ _. fails (HasId qid))

  -- Every request that is built in an empty buffer starts with its id.
  pub build_request-HasId :
      (hmac : Bytes → Bytes) (now : ℕ) (line : Bytes) (options : Options) (b msg : Buffer)
      → b.bytes ≡ []
      → build_request hmac now line qid options b ≡ ok msg
      → HasId qid msg
  unfolding build_request IfOk
  build_request-HasId hmac now line options b msg e k = subst (IfOk (HasId qid)) k (
      then_HasId _ _ (put_header-HasId (if options.is_update then 10240 else 256) b e) (λ b₁ h₁.
        then_HasId _ _
          (if_cases (IfOk (HasId qid)) options.is_update _ _ (λ _. gone (HasId qid) failure)
            (λ _. build_query-HasId line b₁ h₁))
          (λ b₂ h₂.
            then_HasId _ _
              (if_cases (IfOk (HasId qid)) options.edns _ _
                (λ _. add_edns-HasId options.dnssec options.edns_option b₂ h₂)
                (λ _. kept (HasId qid) b₂ h₂))
              (λ b₃ h₃. sign-HasId hmac now options.tsigkey b₃ h₃))))
