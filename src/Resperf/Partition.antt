-- ===== src/Resperf/Partition.antt =====
-- src/resperf.c: each query stands in exactly the list that its `list` names.
use dnsperf.Common.{
  ℕ, suc, ◌+◌, ◌-◌, ◌<◌, ◌≡◌, refl, ◌∙◌, Bool, true, false, some, List, [], ◌∷◌, arith, ltb, ◌==◌,
  if◌then◌else◌, length,
}
use dnsperf.Common.{==→eq}
use dnsperf.Links.{unlink, tail?}
use dnsperf.Links.Count.{count, count-append, count-unlink, tail-In, length-unlink}
use dnsperf.Resperf.{
  State, QueryInfo, QueryList, instanding, outstanding, update, to_outstanding, to_instanding,
}

abbrev pub members : QueryList → State → List ℕ
members instanding s = s.instanding_list
members outstanding s = s.outstanding_list

abbrev pub one_if : QueryList → QueryList → ℕ
one_if instanding instanding = 1
one_if instanding outstanding = 0
one_if outstanding instanding = 0
one_if outstanding outstanding = 1

-- Of `n` queries, each stands once in the list that it names and in no other, and nothing else
-- stands in a list.
abbrev pub IsPartition : ℕ → State → Type 0
IsPartition n s =
    (l : QueryList) (p : ℕ)
    → count p (members l s) ≡ (if ltb p n then one_if l (s.queries p).list else 0)

abbrev other : QueryList → QueryList
other instanding = outstanding
other outstanding = instanding

-- The counts of a list that the query `q` leaves, and of the list that it enters.
left :
    (n p q : ℕ) (l : QueryList) (xs : List ℕ) (s : State)
    → (s.queries q).list ≡ l
    → count p xs ≡ (if ltb p n then one_if l (s.queries p).list else 0)
    → count p (unlink q xs) ≡ (
        if ltb p n
        then one_if l (if p == q then record (s.queries q) { list = other l } else s.queries p).list
        else 0)
left n p q l xs s e inv = rw (count-unlink p q xs, inv) (go (p == q) refl)
  where
    none_left : (l : QueryList) → one_if l l - 1 ≡ one_if l (other l)
    none_left instanding = refl
    none_left outstanding = refl

    go :
        (b : Bool)
        → p == q ≡ b
        → (if b
            then (if ltb p n then one_if l (s.queries p).list else 0) - 1
            else (if ltb p n then one_if l (s.queries p).list else 0))
          ≡ (if ltb p n
              then one_if l
                  (if b then record (s.queries q) { list = other l } else s.queries p).list
              else 0)
    go true k = rw (==→eq p q k, e) (ground (arith, none_left l))
    go false k = refl

entered :
    (n p q : ℕ) (l : QueryList) (xs : List ℕ) (s : State)
    → q < n
    → (s.queries q).list ≡ l
    → count p xs ≡ (if ltb p n then one_if (other l) (s.queries p).list else 0)
    → count p (q ∷ xs) ≡ (
        if ltb p n
        then one_if
            (other l)
            (if p == q then record (s.queries q) { list = other l } else s.queries p).list
        else 0)
unfolding count
entered n p q l xs s h e inv = rw (inv) (go (p == q) refl)
  where
    one : (l : QueryList) → suc (one_if (other l) l) ≡ one_if (other l) (other l)
    one instanding = refl
    one outstanding = refl

    go :
        (b : Bool)
        → p == q ≡ b
        → (if b
            then suc (if ltb p n then one_if (other l) (s.queries p).list else 0)
            else (if ltb p n then one_if (other l) (s.queries p).list else 0))
          ≡ (if ltb p n
              then one_if
                  (other l)
                  (if b then record (s.queries q) { list = other l } else s.queries p).list
              else 0)
    go true k = let low : ltb q n ≡ true = ground arith in rw (==→eq p q k, e, low) (one l)
    go false k = refl

pub to_outstanding-IsPartition :
    (n : ℕ) (s : State) (q : ℕ)
    → q < n
    → (s.queries q).list ≡ instanding
    → IsPartition n s
    → IsPartition n (to_outstanding s q)
unfolding to_outstanding update
to_outstanding-IsPartition n s q h e inv instanding p =
    left n p q instanding s.instanding_list s e (inv instanding p)
to_outstanding-IsPartition n s q h e inv outstanding p =
    entered n p q instanding s.outstanding_list s h e (inv outstanding p)

pub to_instanding-IsPartition :
    (n : ℕ) (s : State) (q : ℕ)
    → q < n
    → (s.queries q).list ≡ outstanding
    → IsPartition n s
    → IsPartition n (to_instanding s q)
unfolding to_instanding update count
to_instanding-IsPartition n s q h e inv outstanding p =
    left n p q outstanding s.outstanding_list s e (inv outstanding p)
to_instanding-IsPartition n s q h e inv instanding p =
    let one = entered n p q outstanding s.instanding_list s h e (inv instanding p) in
    count-append p s.instanding_list (q ∷ []) ∙ (swapped ∙ one)
  where
    swapped : count p s.instanding_list + count p (q ∷ []) ≡ count p (q ∷ s.instanding_list)
    swapped = ground arith

one_if-Names : (l k : QueryList) → 0 < one_if l k → k ≡ l
one_if-Names instanding instanding h = refl
one_if-Names instanding outstanding h = absurd (omega arith)
one_if-Names outstanding instanding h = absurd (omega arith)
one_if-Names outstanding outstanding h = refl

-- What stands in a list is one of the queries, and names it.
pub IsPartition-Names :
    (n : ℕ) (s : State) (l : QueryList) (q : ℕ)
    → IsPartition n s
    → 0 < count q (members l s)
    → (q < n) × ((s.queries q).list ≡ l)
IsPartition-Names n s l q inv h =
    (ground (arith, inv l q), one_if-Names l (s.queries q).list (ground (arith, inv l q)))

pub head-Names :
    (n : ℕ) (s : State) (q : ℕ) (xs : List ℕ)
    → IsPartition n s
    → s.instanding_list ≡ q ∷ xs
    → (q < n) × ((s.queries q).list ≡ instanding)
unfolding count
head-Names n s q xs inv e = IsPartition-Names n s instanding q inv (rw (e) (ground arith))

pub tail-Names :
    (n : ℕ) (s : State) (q : ℕ)
    → IsPartition n s
    → tail? s.outstanding_list ≡ some q
    → (q < n) × ((s.queries q).list ≡ outstanding)
tail-Names n s q inv e = IsPartition-Names n s outstanding q inv (tail-In s.outstanding_list q e)

-- A change of a query that leaves its list.
pub update-IsPartition :
    (n : ℕ) (s : State) (q : ℕ) (info : QueryInfo)
    → info.list ≡ (s.queries q).list
    → IsPartition n s
    → IsPartition n (update s q info)
unfolding update
update-IsPartition n s q info e inv l p = rw (kept (p == q) refl) (same l)
  where
    kept : (b : Bool) → p == q ≡ b → (if b then info else s.queries p).list ≡ (s.queries p).list
    kept true k = rw (==→eq p q k) e
    kept false k = refl

    same :
        (l : QueryList)
        → count p (members l (update s q info))
          ≡ (if ltb p n then one_if l (s.queries p).list else 0)
    same instanding = inv instanding p
    same outstanding = inv outstanding p

-- The move of an outstanding query leaves one outstanding query less.
pub length-to_instanding :
    (n : ℕ) (s : State) (q : ℕ)
    → IsPartition n s
    → q < n
    → (s.queries q).list ≡ outstanding
    → suc (length (to_instanding s q).outstanding_list) ≡ length s.outstanding_list
unfolding to_instanding update
length-to_instanding n s q inv h e = length-unlink q s.outstanding_list (once (inv outstanding q))
  where
    once :
        count q s.outstanding_list ≡ (if ltb q n then one_if outstanding (s.queries q).list else 0)
        → 0 < count q s.outstanding_list
    once k = rw (k, e) (ground arith)
