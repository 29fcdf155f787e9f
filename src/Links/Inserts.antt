-- ===== src/Links/Inserts.antt =====
-- src/list.h: perf_list_prepend and perf_list_append over the links.
use dnsperf.Common.{
  ℕ, ◌<◌, ◌≡◌, refl, sym, ap, subst, ◌∙◌, false, Option, none, some, List, [], ◌∷◌, ◌++◌, arith,
  ◌==◌,
}
use dnsperf.Links.Count.{count}
use dnsperf.Links.Store.{Link, Store, set_link, set_prev, set_next, append, prepend}
use dnsperf.Links.Chain.{
  IsChain, set_link-other, set_link-same, set_link-IsChain, append-IsChain, set_prev-IsChain,
  last-In, set_next-IsChain, last-append,
}
use dnsperf.Links.Refines.{Represents, SameElsewhere}
use dnsperf.Links.Parts.{AllDistinct, last-some, elsewhere}

-- The element's own link is set to `p` and `n`.
abbrev between : (ℕ → Link) → ℕ → Option ℕ → Option ℕ → ℕ → Link
between m q p n = set_next (set_prev m q p) q n

abbrev at_ends : (ℕ → Link) → Option ℕ → Option ℕ → Store
at_ends m h t = record { links = m; head = h; tail = t }

between-same :
    (m : ℕ → Link) (q : ℕ) (p n : Option ℕ) → between m q p n q ≡ record { prev = p; next = n }
between-same m q p n =
    set_link-same (set_prev m q p) q _
    ∙ ap (λ (l : Link). record l { next = n }) (set_link-same m q _)

between-other :
    (m : ℕ → Link) (q : ℕ) (p n : Option ℕ) (y : ℕ) → y == q ≡ false → between m q p n y ≡ m y
between-other m q p n y e = set_link-other (set_prev m q p) q y _ e ∙ set_link-other m q y _ e

between-IsChain :
    (m : ℕ → Link) (q : ℕ) (p n : Option ℕ) (r : Option ℕ) (xs : List ℕ) (t : Option ℕ)
    → count q xs ≡ 0
    → IsChain m r xs t
    → IsChain (between m q p n) r xs t
between-IsChain m q p n r xs t h c =
    set_link-IsChain (set_prev m q p) q _ r xs t h (set_link-IsChain m q _ r xs t h c)

-- What perf_list_prepend does to an empty list, and to one that has a first element.
prepend-nil :
    (s : Store) (q : ℕ)
    → s.head ≡ none
    → prepend s q ≡ at_ends (between s.links q none none) (some q) (some q)
unfolding prepend set_link
prepend-nil s q e =
    rw (e, prepend) (ap (λ (n : Option ℕ). at_ends (between s.links q none n) (some q) (some q)) e)

prepend-cons :
    (s : Store) (q h : ℕ)
    → s.head ≡ some h
    → prepend s q ≡ record {
      links = between (set_prev s.links h (some q)) q none (some h);
      head = some q;
      tail = s.tail;
    }
unfolding prepend set_link
prepend-cons s q h e =
    rw (e, prepend)
      (ap
        (λ (n : Option ℕ). at_ends (between (set_prev s.links h (some q)) q none n) (some q) s.tail)
        e)

append-nil :
    (s : Store) (q : ℕ)
    → s.tail ≡ none
    → append s q ≡ at_ends (between s.links q none none) (some q) (some q)
unfolding append set_link
append-nil s q e =
    rw (e, append) (ap (λ (p : Option ℕ). at_ends (between s.links q p none) (some q) (some q)) e)

append-cons :
    (s : Store) (q t : ℕ)
    → s.tail ≡ some t
    → append s q ≡ record {
      links = between (set_next s.links t (some q)) q (some t) none;
      head = s.head;
      tail = some q;
    }
unfolding append set_link
append-cons s q t e =
    rw (e, append)
      (ap
        (λ (p : Option ℕ). at_ends (between (set_next s.links t (some q)) q p none) s.head (some q))
        e)

abbrev Inserted : Store → List ℕ → ℕ → List ℕ → Store → Type 0
Inserted s xs q ys s' = Represents s' ys × SameElsewhere s (q ∷ xs) s'

-- If the pointers are those of a sequence without repetitions and the element is not in it, then
-- after perf_list_prepend they are those of the sequence with the element in front, and the links of
-- all other elements that are not in the list stay as they are.
prepend-Represents :
    (s : Store) (xs : List ℕ) (q : ℕ)
    → Represents s xs
    → AllDistinct xs
    → count q xs ≡ 0
    → Represents (prepend s q) (q ∷ xs) × SameElsewhere s (q ∷ xs) (prepend s q)
unfolding count
prepend-Represents s [] q rep one h =
    subst (Inserted s [] q (q ∷ [])) (sym (prepend-nil s q rep.head)) (
      record { head = refl; tail = refl; chain = (between-same s.links q none none, tt) },
      λ y k. between-other s.links q none none y (ground (arith, k)),
    )
prepend-Represents s (x ∷ xs) q rep one h =
    let m : ℕ → Link = set_prev s.links x (some q) in
    subst (Inserted s (x ∷ xs) q (q ∷ x ∷ xs)) (sym (prepend-cons s q x rep.head)) (
      record {
        head = refl;
        tail = rep.tail;
        chain = (
          between-same m q none (some x),
          between-IsChain m q none (some x) (some q) (x ∷ xs) none h
              (set_prev-IsChain s.links none (some q) x xs none (ground (arith, one x)) rep.chain),
        );
      },
      λ y k.
          between-other m q none (some x) y (ground (arith, k))
          ∙ set_link-other s.links x y _ (ground (arith, k)),
    )

-- If the pointers are those of a sequence without repetitions and the element is not in it, then
-- after perf_list_append they are those of the sequence with the element behind it, and the links of
-- all other elements that are not in the list stay as they are.
append-Represents :
    (s : Store) (xs : List ℕ) (q : ℕ)
    → Represents s xs
    → AllDistinct xs
    → count q xs ≡ 0
    → Represents (append s q) (xs ++ q ∷ []) × SameElsewhere s (q ∷ xs) (append s q)
unfolding count
append-Represents s [] q rep one h =
    subst (Inserted s [] q (q ∷ [])) (sym (append-nil s q rep.tail)) (
      record { head = refl; tail = refl; chain = (between-same s.links q none none, tt) },
      λ y k. between-other s.links q none none y (ground (arith, k)),
    )
append-Represents s (x ∷ xs) q rep one h =
    let (a, end) = last-some none x xs in
    let inside : 0 < count a (x ∷ xs) = last-In none x xs a end in
    let m : ℕ → Link = set_next s.links a (some q) in
    subst (Inserted s (x ∷ xs) q (x ∷ xs ++ q ∷ [])) (sym (append-cons s q a (rep.tail ∙ end))) (
      record {
        head = rep.head;
        tail = sym (last-append none (x ∷ xs) (q ∷ []));
        chain =
            append-IsChain (between m q (some a) none) none (x ∷ xs) (q ∷ []) none
              (between-IsChain m q (some a) none none (x ∷ xs) (some q) h
                (set_next-IsChain s.links none x xs none (some q) a end one rep.chain))
              (between-same m q (some a) none ∙ rw (end) refl, tt);
      },
      λ y k.
          between-other m q (some a) none y (ground (arith, k))
          ∙ set_link-other s.links a y _ (elsewhere a y (x ∷ xs) inside (ground (arith, k))),
    )

-- If the pointers are those of a sequence without repetitions and the element is not in it,
-- then after perf_list_prepend they are those of the sequence with the element in front, after
-- perf_list_append those of the sequence with the element behind it, and after either the links
-- of all other elements that are not in the list stay as they are.
pub ends-Represents :
    (s : Store) (xs : List ℕ) (q : ℕ)
    → Represents s xs
    → AllDistinct xs
    → count q xs ≡ 0
    → (Represents (prepend s q) (q ∷ xs) × SameElsewhere s (q ∷ xs) (prepend s q))
      × (Represents (append s q) (xs ++ q ∷ []) × SameElsewhere s (q ∷ xs) (append s q))
ends-Represents s xs q rep one h =
    (prepend-Represents s xs q rep one h, append-Represents s xs q rep one h)
