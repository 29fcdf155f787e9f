-- ===== src/Tests/Pointers.antt =====
-- A list of three elements over its links, and the theorems on it.
use dnsperf.Common.{◌≡◌, ◌++◌, refl, none, [], ◌∷◌, arith, ok}
use dnsperf.Links.{unlink as unlinked}
use dnsperf.Links.Count.{count}
use dnsperf.Links.Store.{Store, set_link, append, prepend, unlink}
use dnsperf.Links.Refines.{Represents, SameElsewhere, unlink-Represents}
use dnsperf.Links.Parts.{AllDistinct}
use dnsperf.Links.Inserts.{ends-Represents}

abbrev no_elements : Store
no_elements = record { links = λ _. record { prev = none; next = none }; head = none; tail = none }

abbrev three : Store
three = append (append (append no_elements 5) 6) 7

three-Represents : Represents three (5 ∷ 6 ∷ 7 ∷ [])
unfolding append set_link
three-Represents = record { head = refl; tail = refl; chain = (refl, (refl, (refl, tt))) }

three-AllDistinct : AllDistinct (5 ∷ 6 ∷ 7 ∷ [])
unfolding count
three-AllDistinct y = ground arith

unlink-Represents_example :
    (s' : Store) × ((unlink three 6 ≡ ok s')
      × (Represents s' (unlinked 6 (5 ∷ 6 ∷ 7 ∷ [])) × SameElsewhere three (5 ∷ 6 ∷ 7 ∷ []) s'))
unfolding count
unlink-Represents_example =
    unlink-Represents three (5 ∷ 6 ∷ 7 ∷ []) 6 three-Represents three-AllDistinct (omega arith)

ends-Represents_example :
    (Represents (prepend three 4) (4 ∷ 5 ∷ 6 ∷ 7 ∷ [])
      × SameElsewhere three (4 ∷ 5 ∷ 6 ∷ 7 ∷ []) (prepend three 4))
    × (Represents (append three 4) ((5 ∷ 6 ∷ 7 ∷ []) ++ 4 ∷ [])
        × SameElsewhere three (4 ∷ 5 ∷ 6 ∷ 7 ∷ []) (append three 4))
unfolding count
ends-Represents_example =
    ends-Represents three (5 ∷ 6 ∷ 7 ∷ []) 4 three-Represents three-AllDistinct refl
