-- ===== src/Links/Refines.antt =====
-- src/list.h: the operations over the links do what they do on the sequence of the elements.
use dnsperf.Common.{
  ℕ, ◌<◌, ◌≡◌, refl, sym, ap, subst, ◌∙◌, true, false, none, some, List, [], ◌∷◌, ◌++◌, arith, ◌==◌,
  ok,
}
use dnsperf.Links.{unlink as unlinked}
use dnsperf.Links.Count.{count, count-append}
use dnsperf.Links.Store.{
  Link, Store, set_link, set_prev, set_next, link_init, points, unlink, unlink_next, unlink_prev,
}
use dnsperf.Links.Chain.{
  first, last, IsChain, set_link-other, set_link-IsChain, append-IsChain, IsChain-append,
  first-append, last-append, set_prev-IsChain, last-In, set_next-IsChain, points-first, points-last,
}
use dnsperf.Links.Parts.{
  AllDistinct, split, Apart, apart, not-In, not-In-behind, lone-head, elsewhere, last-some,
}

-- The list's pointers and the links of its elements are those of the sequence.
pub record Represents (s : Store) (xs : List ℕ) : Type 0 where
  pub head : s.head ≡ first xs none
  pub tail : s.tail ≡ last none xs
  pub chain : IsChain s.links none xs none

-- The links of the elements of other lists stay fs they are.
abbrev pub SameElsewhere : Store → List ℕ → Store → Type 0
SameElsewhere s xs s' = (y : ℕ) → count y xs ≡ 0 → s'.links y ≡ s.links y

-- Behind the first `if` of perf_list_unlink.
record IsHalfway (s : Store) (fs : List ℕ) (q : ℕ) (bs : List ℕ) : Type 0 where
  head : s.head ≡ first fs (some q)
  tail : s.tail ≡ last (last none fs) bs
  front : IsChain s.links none fs (some q)
  back : IsChain s.links (last none fs) bs none
  own : s.links q ≡ record { prev = last none fs; next = first bs none }

unlink_next-IsHalfway :
    (s : Store) (fs : List ℕ) (q : ℕ) (bs : List ℕ)
    → Apart fs q bs
    → Represents s (fs ++ q ∷ bs)
    → (s' : Store) × ((unlink_next s q ≡ ok s')
        × (IsHalfway s' fs q bs × SameElsewhere s (fs ++ q ∷ bs) s'))
unfolding unlink_next
unlink_next-IsHalfway s fs q [] apt rep =
    let (front, (own, done)) = IsChain-append s.links none fs (q ∷ []) none rep.chain in
    let end : s.tail ≡ some q = rep.tail ∙ last-append none fs (q ∷ []) in
    let same : (q == q) ≡ true = ground arith in
    (
      record s { tail = last none fs },
      (
        rw (own, end, same, unlink_next) (ap (λ (l : Link). ok (record s { tail = l.prev })) own),
        (
          record {
            head = rep.head ∙ first-append fs (q ∷ []) none;
            tail = refl;
            front = front;
            back = tt;
            own = own;
          },
          λ y h. refl,
        ),
      ),
    )
unlink_next-IsHalfway s fs q (b ∷ bs) apt rep =
    let (front, (own, back)) = IsChain-append s.links none fs (q ∷ b ∷ bs) none rep.chain in
    let other : (q == b) ≡ false = not-In q b bs apt.back in
    (
      record s { links = set_prev s.links b (last none fs) },
      (
        rw (own, unlink_next)
            (ap (λ (l : Link). ok (record s { links = set_prev s.links b l.prev })) own),
        (
          record {
            head = rep.head ∙ first-append fs (q ∷ b ∷ bs) none;
            tail = rep.tail ∙ last-append none fs (q ∷ b ∷ bs);
            front =
                set_link-IsChain s.links b _ none fs (some q) (lone-head fs b bs (apt.either b)).0
                  front;
            back =
                set_prev-IsChain s.links (some q) (last none fs) b bs none
                  (lone-head fs b bs (apt.either b)).1 back;
            own = set_link-other s.links b q _ other ∙ own;
          },
          λ y h. set_link-other s.links b y _ (not-In-behind y fs q b bs h),
        ),
      ),
    )

joined :
    (s : Store) (fs bs : List ℕ)
    → s.head ≡ first fs (first bs none)
    → s.tail ≡ last (last none fs) bs
    → IsChain s.links none fs (first bs none)
    → IsChain s.links (last none fs) bs none
    → Represents s (fs ++ bs)
joined s fs bs h t c d = record {
  head = h ∙ sym (first-append fs bs none);
  tail = t ∙ sym (last-append none fs bs);
  chain = append-IsChain s.links none fs bs none c d;
}

unlink_prev-Represents :
    (s : Store) (fs : List ℕ) (q : ℕ) (bs : List ℕ)
    → Apart fs q bs
    → IsHalfway s fs q bs
    → (s' : Store) × ((unlink_prev s q ≡ ok s')
        × (Represents s' (fs ++ bs) × SameElsewhere s (fs ++ q ∷ bs) s'))
unfolding unlink_prev count
unlink_prev-Represents s [] q bs apt half =
    let same : (q == q) ≡ true = ground arith in
    (
      record s { head = first bs none },
      (
        rw (half.own, half.head, same, unlink_prev)
            (ap (λ (l : Link). ok (record s { head = l.next })) half.own),
        (record { head = refl; tail = half.tail; chain = half.back }, λ y h. refl),
      ),
    )
unlink_prev-Represents s (x ∷ xs) q bs apt half =
    let (a, end) = last-some none x xs in
    let inside : 0 < count a (x ∷ xs) = last-In none x xs a end in
    let s' : Store = record s { links = set_next s.links a (first bs none) } in
    (
      s',
      (
        rw (half.own, end, unlink_prev)
            (ap (λ (l : Link). ok (record s { links = set_next s.links a l.next })) half.own),
        (
          joined s' (x ∷ xs) bs half.head half.tail
              (set_next-IsChain s.links none x xs (some q) (first bs none) a end
                (λ y. omega (arith, apt.either y)) half.front)
              (set_link-IsChain s.links a _ (last none (x ∷ xs)) bs none
                (omega (arith, apt.either a, inside)) half.back),
          λ y h.
              set_link-other s.links a y _ (
                elsewhere a y (x ∷ xs) inside
                  (ground (arith, h, count-append y (x ∷ xs) (q ∷ bs)))),
        ),
      ),
    )

unlink-Joined :
    (s : Store) (fs : List ℕ) (q : ℕ) (bs : List ℕ)
    → Apart fs q bs
    → Represents s (fs ++ q ∷ bs)
    → (s' : Store) × ((unlink s q ≡ ok s')
        × (Represents s' (fs ++ bs) × SameElsewhere s (fs ++ q ∷ bs) s'))
unfolding count unlink set_link
unlink-Joined s fs q bs apt rep =
    let (s₁, (next, (half, same₁))) = unlink_next-IsHalfway s fs q bs apt rep in
    let (s₂, (prev, (done, same₂))) = unlink_prev-Represents s₁ fs q bs apt half in
    let out : count q (fs ++ bs) ≡ 0 = omega (arith, count-append q fs bs, apt.front, apt.back) in
    let no_head : points s₂.head q ≡ false =
      ap (λ p. points p q) done.head ∙ points-first q (fs ++ bs) out in
    let no_tail : points s₂.tail q ≡ false =
      ap (λ p. points p q) done.tail ∙ points-last q none (fs ++ bs) refl out in
    (
      record s₂ { links = link_init s₂.links q },
      (
        rw (next, prev, no_head, no_tail, unlink) refl,
        (
          record {
            head = done.head;
            tail = done.tail;
            chain = set_link-IsChain s₂.links q _ none (fs ++ bs) none out done.chain;
          },
          λ y h.
              set_link-other s₂.links q y _ (ground (arith, h, count-append y fs (q ∷ bs)))
              ∙ (same₂ y h ∙ same₁ y h),
        ),
      ),
    )

-- If the pointers are those of a sequence without repetitions and the element is in it, then
-- perf_list_unlink fails none of its assert()s, the pointers become those of the sequence without the
-- element, and the links of all elements that are not in the list stay as they are.
pub unlink-Represents :
    (s : Store) (xs : List ℕ) (q : ℕ)
    → Represents s xs
    → AllDistinct xs
    → 0 < count q xs
    → (s' : Store) × ((unlink s q ≡ ok s')
        × (Represents s' (unlinked q xs) × SameElsewhere s xs s'))
unlink-Represents s xs q rep one h =
    let (fs, bs, (whole, (left, out))) = split q xs h in
    let (s', (e, (done, same))) =
      unlink-Joined s fs q bs (apart fs q bs (subst AllDistinct whole one))
        (subst (Represents s) whole rep) in
    (
      s',
      (
        e,
        (
          subst (Represents s') (sym left) done,
          subst (λ zs. SameElsewhere s zs s') (sym whole) same,
        ),
      ),
    )
