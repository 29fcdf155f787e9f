-- ===== src/Links/Store.antt =====
-- src/list.h: the macros over the links of the elements. An element's address is a number; `links` holds
-- the links of all elements, in whatever list they stand.
use dnsperf.Common.{
  ℕ, Bool, false, ◌||◌, Option, none, some, ◌==◌, if◌then◌else◌, Outcome, ok, abort, ◌>>=◌,
}

-- perf_link
pub record Link : Type 0 where
  pub prev : Option ℕ
  pub next : Option ℕ

-- perf_list, and the links of all elements.
pub record Store : Type 0 where
  pub links : ℕ → Link
  pub head : Option ℕ
  pub tail : Option ℕ

unfoldable pub set_link : (ℕ → Link) → ℕ → Link → ℕ → Link
set_link m q l i = if i == q then l else m i

abbrev pub set_prev : (ℕ → Link) → ℕ → Option ℕ → ℕ → Link
set_prev m q p = set_link m q (record (m q) { prev = p })

abbrev pub set_next : (ℕ → Link) → ℕ → Option ℕ → ℕ → Link
set_next m q n = set_link m q (record (m q) { next = n })

-- perf_link_init
abbrev pub link_init : (ℕ → Link) → ℕ → ℕ → Link
link_init m q = set_link m q (record { prev = none; next = none })

-- perf_list_append
unfoldable pub append : Store → ℕ → Store
unfolding set_link
append s q =
    let s' : Store = elim s.tail [
      | none ↦ record s { head = some q }
      | some t ↦ record s { links = set_next s.links t (some q) }
    ] in
    record s' { links = set_next (set_prev s'.links q s'.tail) q none; tail = some q }

-- perf_list_prepend
unfoldable pub prepend : Store → ℕ → Store
unfolding set_link
prepend s q =
    let s' : Store = elim s.head [
      | none ↦ record s { tail = some q }
      | some h ↦ record s { links = set_prev s.links h (some q) }
    ] in
    record s' { links = set_next (set_prev s'.links q none) q s'.head; head = some q }

-- Whether a pointer is the element's address.
abbrev pub points : Option ℕ → ℕ → Bool
points none q = false
points (some p) q = p == q

-- The first `if` of perf_list_unlink.
unfoldable pub unlink_next : Store → ℕ → Outcome Store
unfolding set_link
unlink_next s q = elim (s.links q).next [
  | none ↦ if points s.tail q then ok (record s { tail = (s.links q).prev }) else abort
  | some n ↦ ok (record s { links = set_prev s.links n (s.links q).prev })
]

-- The second one.
unfoldable pub unlink_prev : Store → ℕ → Outcome Store
unfolding set_link
unlink_prev s q = elim (s.links q).prev [
  | none ↦ if points s.head q then ok (record s { head = (s.links q).next }) else abort
  | some p ↦ ok (record s { links = set_next s.links p (s.links q).next })
]

-- perf_list_unlink
unfoldable pub unlink : Store → ℕ → Outcome Store
unfolding unlink_next unlink_prev set_link
unlink s q = do
  s₁ ← unlink_next s q
  s₂ ← unlink_prev s₁ q
  let s₃ : Store = record s₂ { links = link_init s₂.links q }
  if points s₃.head q || points s₃.tail q then abort else ok s₃
