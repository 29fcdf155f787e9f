-- ===== src/Links/Parts.antt =====
-- src/list.h: the parts of a list around one of its elements.
use dnsperf.Common.{
  ℕ, ◌+◌, ◌≤◌, ◌<◌, ◌≡◌, refl, ap, Bool, true, false, Option, some, List, [], ◌∷◌, ◌++◌, arith,
  ◌==◌, ==→eq,
}
use dnsperf.Links.{unlink as unlinked}
use dnsperf.Links.Count.{count, count-append}
use dnsperf.Links.Chain.{last}

-- No element stands twice in the list.
abbrev pub AllDistinct : List ℕ → Type 0
AllDistinct xs = (y : ℕ) → count y xs ≤ 1

-- An element of a list stands between a part in front of it and a part behind it.
abbrev pub Split : ℕ → List ℕ → Type 0
Split q xs =
    (fs : List ℕ) × (bs : List ℕ) × ((xs ≡ fs ++ q ∷ bs)
      × ((unlinked q xs ≡ fs ++ bs) × (count q fs ≡ 0)))

pub split : (q : ℕ) (xs : List ℕ) → 0 < count q xs → Split q xs
unfolding count unlinked
split q [] h = absurd (omega arith)
split q (x ∷ xs) h = go (q == x) refl (split q xs)
  where
    go : (b : Bool) → q == x ≡ b → (0 < count q xs → Split q xs) → Split q (x ∷ xs)
    go true e rest =
        let same : q ≡ x = ==→eq q x e in ([], xs, (rw (same) refl, (rw (e) refl, refl)))
    go false e rest =
        let (fs, bs, (whole, (left, out))) = rest (ground (arith, h)) in
        (
          x ∷ fs,
          bs,
          (ap (λ zs. x ∷ zs) whole, (rw (e) (ap (λ zs. x ∷ zs) left), ground (arith, out))),
        )

-- What is known of the parts `fs` and `bs` around an element `q` of a list without repetitions.
pub record Apart (fs : List ℕ) (q : ℕ) (bs : List ℕ) : Type 0 where
  pub front : count q fs ≡ 0
  pub back : count q bs ≡ 0
  pub either : (y : ℕ) → count y fs + count y bs ≤ 1

pub apart : (fs : List ℕ) (q : ℕ) (bs : List ℕ) → AllDistinct (fs ++ q ∷ bs) → Apart fs q bs
unfolding count
apart fs q bs h = record {
  front = ground (arith, h q, count-append q fs (q ∷ bs));
  back = ground (arith, h q, count-append q fs (q ∷ bs));
  either = λ y. ground (arith, h y, count-append y fs (q ∷ bs));
}

pub not-In : (y b : ℕ) (bs : List ℕ) → count y (b ∷ bs) ≡ 0 → y == b ≡ false
unfolding count
not-In y b bs h = ground arith

pub not-In-behind :
    (y : ℕ) (fs : List ℕ) (q b : ℕ) (bs : List ℕ) → count y (fs ++ q ∷ b ∷ bs) ≡ 0 → y == b ≡ false
unfolding count
not-In-behind y fs q b bs h = ground (arith, count-append y fs (q ∷ b ∷ bs))

pub lone-head :
    (fs : List ℕ) (b : ℕ) (bs : List ℕ)
    → count b fs + count b (b ∷ bs) ≤ 1
    → (count b fs ≡ 0) × (count b bs ≡ 0)
unfolding count
lone-head fs b bs h = (ground arith, ground arith)

pub elsewhere : (a y : ℕ) (xs : List ℕ) → 0 < count a xs → count y xs ≡ 0 → y == a ≡ false
elsewhere a y xs k h = go (y == a) refl
  where
    go : (b : Bool) → y == a ≡ b → b ≡ false
    go false e = refl
    go true e = absurd (omega (arith, ap (λ z. count z xs) (==→eq y a e)))

pub last-some : (p : Option ℕ) (x : ℕ) (xs : List ℕ) → (a : ℕ) × (last p (x ∷ xs) ≡ some a)
last-some p x [] = (x, refl)
last-some p x (y ∷ xs) = last-some (some x) y xs
