-- ===== src/Common/Outcomes.antt =====
-- `perf_result_t` (result.h), and the outcome of a call that may return it or abort.
use mathlib.Core.Path.{◌≡◌, refl}

-- The codes that stand for an error; PERF_R_SUCCESS is the constructor `ok` of `Outcome`.
pub data Code : Type 0 where
  failure canceled eof invalid_file no_more no_space timed_out invalid_update : Code

-- `abort` is a failed assert(), which ends the process. `stuck` is no outcome of the program: a
-- loop of the model ran out of fuel.
pub data Outcome {ℓ} (A : Type ℓ) : Type ℓ where
  ok : A → Outcome A
  err : Code → Outcome A
  abort stuck : Outcome A

infixl 5 ◌>>=◌
abbrev pub ◌>>=◌ {ℓ κ} : {A : Type ℓ} {B : Type κ} → Outcome A → (A → Outcome B) → Outcome B
ok a >>= f = f a
err e >>= f = err e
abort >>= f = abort
stuck >>= f = stuck

pub bind-eq-ok {ℓ κ} :
    {A : Type ℓ} {B : Type κ} (m : Outcome A) (f : A → Outcome B) {b : B}
    → (m >>= f) ≡ ok b
    → (a : A) × (m ≡ ok a) × (f a ≡ ok b)
bind-eq-ok (ok a) f h = (a, refl, h)
bind-eq-ok (err e) f h = cc
bind-eq-ok abort f h = cc
bind-eq-ok stuck f h = cc

pub abort-ne-ok {ℓ} : {A : Type ℓ} {a : A} → abort ≡ ok a → ⊥
abort-ne-ok h = cc

pub err-ne-ok {ℓ} : {A : Type ℓ} {e : Code} {a : A} → err e ≡ ok a → ⊥
err-ne-ok h = cc

pub ok_pair {ℓ κ} :
    {A : Type ℓ} {B : Type κ} {x u : A} {y v : B}
    → ◌≡◌ {A = Outcome (A × B)} (ok (x, y)) (ok (u, v))
    → (u ≡ x) × (v ≡ y)
ok_pair h = (cc, cc)

pub stuck-ne-ok {ℓ} : {A : Type ℓ} {a : A} → stuck ≡ ok a → ⊥
stuck-ne-ok h = cc
