-- ===== src/Dns/Tsig/Parsed.antt =====
-- src/tsig.c, perf_tsig_parsekey: what it makes of an argument in its three parts.
use dnsperf.Common.{
  ℕ, zero, suc, ◌≡◌, ◌≤◌, ◌<◌, refl, sym, ap, ◌∙◌, subst, Bool, true, false, not, ◌&&◌, some, [],
  ◌∷◌, ◌++◌, map, arith, ltb, ◌==◌, if_false, Bytes, length, All, ok,
}
use mathlib.Core.List.{map-append}
use dnsperf.Libc.{codes, to_lower, strncasecmp_eq}
use dnsperf.Dns.Edns.{split_colon}
use dnsperf.Dns.Tsig.Key.{
  Digest, md5, sha1, sha224, sha256, sha384, sha512, alg_name, starts_with, digest_of, Decoded,
  finished, name_size, make_key, parse_key,
}

-- The algorithms' names as they are written in the option.
abbrev pub alg_text : Digest → Bytes
alg_text md5 = codes "hmac-md5"
alg_text sha1 = codes "hmac-sha1"
alg_text sha224 = codes "hmac-sha224"
alg_text sha256 = codes "hmac-sha256"
alg_text sha384 = codes "hmac-sha384"
alg_text sha512 = codes "hmac-sha512"

abbrev pub HasNoColon : Bytes → Type 0
HasNoColon = All (λ c. (c == b':') ≡ false)

split_colon-front : (xs r : Bytes) → HasNoColon xs → split_colon (xs ++ b':' ∷ r) ≡ some (xs, r)
unfolding split_colon
split_colon-front [] r h = refl
split_colon-front (x ∷ xs) r h = rw (h.0, split_colon-front xs r h.1) refl

to_lower-twice : (c : ℕ) → to_lower (to_lower c) ≡ to_lower c
unfolding to_lower
to_lower-twice c = ground arith

to_lower-colon : (c : ℕ) → (to_lower c == b':') ≡ false → (c == b':') ≡ false
unfolding to_lower
to_lower-colon c h = ground arith

lower-HasNoColon : (xs : Bytes) → HasNoColon (map to_lower xs) → HasNoColon xs
lower-HasNoColon [] h = tt
lower-HasNoColon (x ∷ xs) h = (to_lower-colon x h.0, lower-HasNoColon xs h.1)

strncasecmp_eq-lower :
    (n : ℕ) (xs ys : Bytes) → strncasecmp_eq n xs ys ≡ strncasecmp_eq n (map to_lower xs) ys
unfolding strncasecmp_eq
strncasecmp_eq-lower zero xs ys = refl
strncasecmp_eq-lower (suc n) [] [] = refl
strncasecmp_eq-lower (suc n) [] (y ∷ ys) = refl
strncasecmp_eq-lower (suc n) (x ∷ xs) [] = refl
strncasecmp_eq-lower (suc n) (x ∷ xs) (y ∷ ys) =
    ap (λ (c : ℕ). c == to_lower y && strncasecmp_eq n xs ys) (sym (to_lower-twice x))
    ∙ ap (λ (b : Bool). to_lower (to_lower x) == to_lower y && b) (strncasecmp_eq-lower n xs ys)

starts_with-lower :
    (arg : Bytes) (d : Digest) → starts_with arg d ≡ starts_with (map to_lower arg) d
unfolding starts_with
starts_with-lower arg d = strncasecmp_eq-lower _ arg _

digest_of-lower : (arg : Bytes) → digest_of arg ≡ digest_of (map to_lower arg)
unfolding digest_of
digest_of-lower arg =
    rw
      (
        starts_with-lower arg md5,
        starts_with-lower arg sha1,
        starts_with-lower arg sha224,
        starts_with-lower arg sha256,
        starts_with-lower arg sha384,
        starts_with-lower arg sha512,
      )
      refl

digest_of-text : (d : Digest) (r : Bytes) → digest_of (alg_text d ++ b':' ∷ r) ≡ some d
unfolding digest_of starts_with strncasecmp_eq to_lower
digest_of-text md5 r = refl
digest_of-text sha1 r = refl
digest_of-text sha224 r = refl
digest_of-text sha256 r = refl
digest_of-text sha384 r = refl
digest_of-text sha512 r = refl

abbrev no_colons : Bytes → Bool
no_colons [] = true
no_colons (c ∷ cs) = not (c == b':') && no_colons cs

no_colons-HasNoColon : (xs : Bytes) → no_colons xs ≡ true → HasNoColon xs
no_colons-HasNoColon [] h = tt
no_colons-HasNoColon (x ∷ xs) h =
    (ground (arith, h), no_colons-HasNoColon xs (both (not (x == b':')) h))
  where
    both : (b : Bool) → (b && no_colons xs) ≡ true → no_colons xs ≡ true
    both true h = h
    both false h = cc

alg_text-HasNoColon : (d : Digest) → HasNoColon (alg_text d)
alg_text-HasNoColon d = no_colons-HasNoColon (alg_text d) (plain d)
  where
    plain : (d : Digest) → no_colons (alg_text d) ≡ true
    plain md5 = refl
    plain sha1 = refl
    plain sha224 = refl
    plain sha256 = refl
    plain sha384 = refl
    plain sha512 = refl

digest_of-written :
    (d : Digest) (alg r : Bytes)
    → map to_lower alg ≡ alg_text d
    → digest_of (alg ++ b':' ∷ r) ≡ some d
unfolding to_lower
digest_of-written d alg r e =
    digest_of-lower (alg ++ b':' ∷ r)
    ∙ ap digest_of (map-append to_lower alg (b':' ∷ r) ∙ ap (λ xs. xs ++ b':' ∷ map to_lower r) e)
    ∙ digest_of-text d (map to_lower r)

make_key-ok :
    (decode : Bytes → Decoded) (d : Digest) (name secret key : Bytes)
    → length name ≤ name_size
    → 0 < length secret
    → decode secret ≡ finished key
    → make_key decode (some d) name secret
      ≡ ok (record {
        key = record { name = map to_lower name; alg = alg_name d };
        digest = d;
        secret = key;
      })
unfolding make_key
make_key-ok decode d name secret key fits some_secret e =
    if_false (ltb name_size (length name)) _ _ (ground arith)
    ∙ if_false (length secret == 0) _ _ (ground arith)
    ∙ rw (e) refl

-- An argument with the name of an algorithm, in upper or lower case, a name of 256 octets at most and
-- without a colon, and a text of one octet at least that EVP_DecodeUpdate() decodes to its end, with
-- colons between them, gives the key with the name in lower case, the algorithm's name and digest,
-- and the decoded secret.
pub parse_key-text :
    (decode : Bytes → Decoded) (d : Digest) (alg name secret key : Bytes)
    → map to_lower alg ≡ alg_text d
    → HasNoColon name
    → length name ≤ name_size
    → 0 < length secret
    → decode secret ≡ finished key
    → parse_key decode (alg ++ b':' ∷ (name ++ b':' ∷ secret))
      ≡ ok (record {
        key = record { name = map to_lower name; alg = alg_name d };
        digest = d;
        secret = key;
      })
unfolding parse_key
parse_key-text decode d alg name secret key e plain fits some_secret decoded =
    let first : split_colon (alg ++ b':' ∷ (name ++ b':' ∷ secret))
        ≡ some (alg, name ++ b':' ∷ secret) =
      split_colon-front alg (name ++ b':' ∷ secret)
        (lower-HasNoColon alg (subst HasNoColon (sym e) (alg_text-HasNoColon d))) in
    let second : split_colon (name ++ b':' ∷ secret) ≡ some (name, secret) =
      split_colon-front name secret plain in
    rw (parse_key, first, second, digest_of-written d alg (name ++ b':' ∷ secret) e)
      (make_key-ok decode d name secret key fits some_secret decoded)
