-- ===== src/Links/Count.antt =====
-- src/list.h: how often a number stands in a list, and what the operations do to that.
use dnsperf.Common.{
  ℕ, suc, ◌+◌, ◌-◌, ◌<◌, ◌≡◌, some, List, [], ◌∷◌, ◌++◌, arith, ◌==◌, if◌then◌else◌, length,
}
use dnsperf.Links.{unlink, tail?}

-- How often a number stands in a list.
unfoldable pub count : ℕ → List ℕ → ℕ
count p [] = 0
count p (x ∷ xs) = let rest = count p xs in if p == x then suc rest else rest

pub count-append : (p : ℕ) (xs ys : List ℕ) → count p (xs ++ ys) ≡ count p xs + count p ys
unfolding count
count-append p [] ys = omega arith
count-append p (x ∷ xs) ys = ground (arith, count-append p xs ys)

pub count-unlink :
    (p q : ℕ) (xs : List ℕ)
    → count p (unlink q xs) ≡ (if p == q then count p xs - 1 else count p xs)
unfolding count unlink
count-unlink p q [] = ground arith
count-unlink p q (x ∷ xs) = ground (arith, count-unlink p q xs)

pub tail-In : (xs : List ℕ) (q : ℕ) → tail? xs ≡ some q → 0 < count q xs
unfolding tail? count
tail-In [] q h = cc
tail-In (x ∷ []) q h = let e : x ≡ q = cc in rw (e) (ground arith)
tail-In (x ∷ y ∷ xs) q h = ground (arith, tail-In (y ∷ xs) q h)

pub length-unlink : (q : ℕ) (xs : List ℕ) → 0 < count q xs → suc (length (unlink q xs)) ≡ length xs
unfolding unlink count
length-unlink q [] h = absurd (omega arith)
length-unlink q (x ∷ xs) h = ground (arith, length-unlink q xs)
