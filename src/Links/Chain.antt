-- ===== src/Links/Chain.antt =====
-- src/list.h: the links of a sequence of elements, and what a change of one link does to them.
use dnsperf.Common.{
  ℕ, ◌≤◌, ◌<◌, ◌≡◌, refl, ap, ◌∙◌, true, false, Option, none, some, List, [], ◌∷◌, ◌++◌, arith,
  ◌==◌,
}
use dnsperf.Links.Count.{count}
use dnsperf.Links.Store.{Link, set_link, set_prev, set_next, points}

-- The first element of a list in front of `n`, and the last one of a list behind `p`.
abbrev pub first : List ℕ → Option ℕ → Option ℕ
first [] n = n
first (x ∷ xs) n = some x

abbrev pub last : Option ℕ → List ℕ → Option ℕ
last p [] = p
last p (x ∷ xs) = last (some x) xs

-- The elements are linked in this order, behind `p` and in front of `n`.
abbrev pub IsChain : (ℕ → Link) → Option ℕ → List ℕ → Option ℕ → Type 0
IsChain m p [] n = Unit {0}
IsChain m p (x ∷ xs) n = (m x ≡ record { prev = p; next = first xs n }) × IsChain m (some x) xs n

pub set_link-other : (m : ℕ → Link) (q y : ℕ) (l : Link) → (y == q) ≡ false → set_link m q l y ≡ m y
unfolding set_link
set_link-other m q y l e = rw (e) refl

pub set_link-same : (m : ℕ → Link) (q : ℕ) (l : Link) → set_link m q l q ≡ l
unfolding set_link
set_link-same m q l = let same : (q == q) ≡ true = ground arith in rw (same) refl

-- The link of an element that is not among them does not matter.
pub set_link-IsChain :
    (m : ℕ → Link) (q : ℕ) (l : Link) (p : Option ℕ) (xs : List ℕ) (n : Option ℕ)
    → count q xs ≡ 0
    → IsChain m p xs n
    → IsChain (set_link m q l) p xs n
unfolding count
set_link-IsChain m q l p [] n h c = tt
set_link-IsChain m q l p (x ∷ xs) n h c = (
  set_link-other m q x l (ground (arith, h)) ∙ c.0,
  set_link-IsChain m q l (some x) xs n (ground (arith, h)) c.1,
)

-- A sequence in two parts.
pub append-IsChain :
    (m : ℕ → Link) (p : Option ℕ) (xs ys : List ℕ) (n : Option ℕ)
    → IsChain m p xs (first ys n)
    → IsChain m (last p xs) ys n
    → IsChain m p (xs ++ ys) n
append-IsChain m p [] ys n c d = d
append-IsChain m p (x ∷ []) ys n c d = (c.0, d)
append-IsChain m p (x ∷ y ∷ xs) ys n c d = (c.0, append-IsChain m (some x) (y ∷ xs) ys n c.1 d)

pub IsChain-append :
    (m : ℕ → Link) (p : Option ℕ) (xs ys : List ℕ) (n : Option ℕ)
    → IsChain m p (xs ++ ys) n
    → IsChain m p xs (first ys n) × IsChain m (last p xs) ys n
IsChain-append m p [] ys n c = (tt, c)
IsChain-append m p (x ∷ []) ys n c = ((c.0, tt), c.1)
IsChain-append m p (x ∷ y ∷ xs) ys n c =
    let (a, b) = IsChain-append m (some x) (y ∷ xs) ys n c.1 in ((c.0, a), b)

pub first-append : (xs ys : List ℕ) (n : Option ℕ) → first (xs ++ ys) n ≡ first xs (first ys n)
first-append [] ys n = refl
first-append (x ∷ xs) ys n = refl

pub last-append : (p : Option ℕ) (xs ys : List ℕ) → last p (xs ++ ys) ≡ last (last p xs) ys
last-append p [] ys = refl
last-append p (x ∷ xs) ys = last-append (some x) xs ys

-- Another element in front of the first one.
pub set_prev-IsChain :
    (m : ℕ → Link) (p r : Option ℕ) (x : ℕ) (xs : List ℕ) (n : Option ℕ)
    → count x xs ≡ 0
    → IsChain m p (x ∷ xs) n
    → IsChain (set_prev m x r) r (x ∷ xs) n
set_prev-IsChain m p r x xs n h c = (
  set_link-same m x _ ∙ ap (λ (l : Link). record l { prev = r }) c.0,
  set_link-IsChain m x _ (some x) xs n h c.1,
)

pub last-In :
    (p : Option ℕ) (x : ℕ) (xs : List ℕ) (a : ℕ) → last p (x ∷ xs) ≡ some a → 0 < count a (x ∷ xs)
unfolding count
last-In p x [] a e = let same : x ≡ a = cc in rw (same) (ground arith)
last-In p x (y ∷ xs) a e = ground (arith, last-In (some x) y xs a e)

-- Another element behind the last one.
pub set_next-IsChain :
    (m : ℕ → Link) (p : Option ℕ) (x : ℕ) (xs : List ℕ) (n r : Option ℕ) (a : ℕ)
    → last p (x ∷ xs) ≡ some a
    → ((y : ℕ) → count y (x ∷ xs) ≤ 1)
    → IsChain m p (x ∷ xs) n
    → IsChain (set_next m a r) p (x ∷ xs) r
unfolding count
set_next-IsChain m p x [] n r a e one c =
    let same : x ≡ a = cc in
    (rw⁻¹ (same) (set_link-same m x _ ∙ ap (λ (l : Link). record l { next = r }) c.0), tt)
set_next-IsChain m p x (y ∷ xs) n r a e one c =
    let inside : 0 < count a (y ∷ xs) = last-In (some x) y xs a e in
    (
      set_link-other m a x _ (ground (arith, one a, inside)) ∙ c.0,
      set_next-IsChain m (some x) y xs n r a e (λ z. ground (arith, one z)) c.1,
    )

-- A pointer into the list does not point to an element that is not in it.
pub points-first : (q : ℕ) (xs : List ℕ) → count q xs ≡ 0 → points (first xs none) q ≡ false
unfolding count
points-first q [] h = refl
points-first q (x ∷ xs) h = ground (arith, h)

pub points-last :
    (q : ℕ) (p : Option ℕ) (xs : List ℕ)
    → points p q ≡ false
    → count q xs ≡ 0
    → points (last p xs) q ≡ false
unfolding count
points-last q p [] k h = k
points-last q p (x ∷ xs) k h = points-last q (some x) xs (ground (arith, h)) (ground (arith, h))
