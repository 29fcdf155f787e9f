-- ===== src/Links.antt =====
-- src/list.h: a list is the sequence of its elements from head to tail; an element is a number.
pub mod Count
pub mod Store
pub mod Chain
pub mod Parts
pub mod Refines
pub mod Inserts
use dnsperf.Common.{
  ℕ, zero, suc, ◌+◌, ◌-◌, ◌*◌, ◌/◌, ◌%◌, ◌^◌, ◌≤◌, ◌<◌, ◌≡◌, refl, sym, ap, ◌∙◌, ◌≢◌, ◌↔◌, ◌⊎◌, inl,
  inr, Bool, true, false, not, ◌&&◌, ◌||◌, Option, none, some, List, [], ◌∷◌, ◌++◌, map, arith, ltb,
  leb, ◌==◌, if◌then◌else◌, Bool-cases, is_digit, Bytes, length, length-append, get_or, set, take,
  drop, All, All-append, Code, failure, eof, invalid_file, no_space, Outcome, ok, err, abort, stuck,
  ◌>>=◌, bind-eq-ok,
}

-- perf_list_unlink of an element, and perf_list_tail.
unfoldable pub unlink : ℕ → List ℕ → List ℕ
unlink q [] = []
unlink q (x ∷ xs) = let rest = x ∷ unlink q xs in if q == x then xs else rest

unfoldable pub tail? : List ℕ → Option ℕ
tail? [] = none
tail? (x ∷ []) = some x
tail? (x ∷ y ∷ xs) = tail? (y ∷ xs)
