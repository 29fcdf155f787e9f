-- ===== src/Datafile/Lines.antt =====
-- src/datafile.c: text files as sequences of lines, and the first line in a buffer.
use dnsperf.Common.{true}
use dnsperf.Common.{not}
use dnsperf.Common.{Bool}
use dnsperf.Common.{
  ◌≡◌, refl, ap, ◌∙◌, ◌⊎◌, inl, inr, false, ◌||◌, List, [], ◌∷◌, ◌++◌, ◌==◌, if◌then◌else◌, Bytes,
  length, All,
}
use dnsperf.Datafile.Reader.{line_length, is_wanted}

-- Each line with its newline.
abbrev pub text_of : List Bytes → Bytes
text_of [] = []
text_of (l ∷ ls) = l ++ 10 ∷ text_of ls

-- No newline and no zero.
abbrev pub IsLine : Bytes → Type 0
IsLine l = All (λ c. (c == 10 || c == 0) ≡ false) l

-- A line that is neither empty nor a comment.
abbrev pub is_text : Bytes → Bool
is_text [] = false
is_text (c ∷ cs) = if c == b';' then false else true

pub is_wanted-eq-is_text : (l : Bytes) → is_wanted l ≡ is_text l
unfolding is_wanted
is_wanted-eq-is_text [] = refl
is_wanted-eq-is_text (c ∷ cs) = flip (c == b';')
  where
    flip : (b : Bool) → not b ≡ (if b then false else true)
    flip true = refl
    flip false = refl

abbrev pub wanted_lines : List Bytes → List Bytes
wanted_lines [] = []
wanted_lines (l ∷ ls) = let rest = wanted_lines ls in if is_text l then l ∷ rest else rest

pub line_length-part : (cs m : Bytes) → IsLine (cs ++ m) → line_length cs ≡ length cs
unfolding line_length
line_length-part [] m h = refl
line_length-part (c ∷ cs) m h = rw (h.0, line_length-part cs m h.1) refl

pub line_length-whole : (l r : Bytes) → IsLine l → line_length (l ++ 10 ∷ r) ≡ length l
unfolding line_length
line_length-whole [] r h = refl
line_length-whole (c ∷ l) r h = rw (h.0, line_length-whole l r h.1) refl

-- Where the end of the first line is: behind `cs`, or in it.
abbrev pub Split : Bytes → Bytes → Bytes → Bytes → Type 0
Split cs us l r =
    ((m : Bytes) × ((cs ++ m ≡ l) × (us ≡ m ++ 10 ∷ r)))
    ⊎ ((cs' : Bytes) × ((cs ≡ l ++ 10 ∷ cs') × (cs' ++ us ≡ r)))

pub newline_place : (cs us l r : Bytes) → cs ++ us ≡ l ++ 10 ∷ r → Split cs us l r
newline_place [] us l r e = inl (l, (refl, e))
newline_place (c ∷ cs) us [] r e =
    let c_is : c ≡ 10 = cc in
    let rest : cs ++ us ≡ r = cc in inr (cs, (ap (λ x. x ∷ cs) c_is, rest))
newline_place (c ∷ cs) us (x ∷ l) r e =
    let c_is : c ≡ x = cc in
    let rest : cs ++ us ≡ l ++ 10 ∷ r = cc in
    elim (newline_place cs us l r rest) [
      | inl (m, (p, q)) ↦ inl (m, (ap (λ ys. c ∷ ys) p ∙ ap (λ y. y ∷ l) c_is, q))
      | inr (cs', (p, q)) ↦ inr (cs', (ap (λ ys. c ∷ ys) p ∙ ap (λ y. y ∷ (l ++ 10 ∷ cs')) c_is, q))
    ]
