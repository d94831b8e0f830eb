-- ===== src/Base/Outcome.antt =====
-- The outcome of kernel code: it returns, it stops the machine in KeBugCheck, or it spins for ever.
-- A failed ASSERT is a KeBugCheck, since inc/assert.h defines DEBUG.
use mathlib.Core.Path.{◌≡◌, refl, ap}
use mathlib.Core.Bool.{Bool, true, false}

pub data Outcome {ℓ} (A : Type ℓ) : Type ℓ where
  ok : A → Outcome A
  bug_check : Outcome A
  spin : Outcome A

infixl 5 ◌>>=◌ ◌>>◌
abbrev pub ◌>>=◌ {κ ℓ} : {R : Type κ} {A : Type ℓ} → Outcome A → (A → Outcome R) → Outcome R
spin >>= rest = spin
bug_check >>= rest = bug_check
ok x >>= rest = rest x

abbrev pub ◌>>◌ {κ} : {R : Type κ} → Outcome (Unit {0}) → Outcome R → Outcome R
first >> next = first >>= λ done. next

-- ASSERT, ASSERT1 and ASSERT2.
abbrev pub assert : Bool → Outcome (Unit {0})
assert true = ok tt
assert false = bug_check

-- The code returns, and its result satisfies `P`.
pub data Returns {ℓ κ} {A : Type ℓ} (P : A → Type κ) : Outcome A → Type (ℓ ⊔ κ) where
  returns : {a : A} → P a → Returns P (ok a)

-- A sequence that returns: its first part did, and then the rest.
pub >>=-eq-ok {κ ℓ} :
    {R : Type κ} {A : Type ℓ} (first : Outcome A) (rest : A → Outcome R) {r : R}
    → (first >>= rest) ≡ ok r
    → (x : A) × (first ≡ ok x) × (rest x ≡ ok r)
>>=-eq-ok spin rest e = cc
>>=-eq-ok bug_check rest e = cc
>>=-eq-ok (ok x) rest e = (x, refl, e)

pub ok-injective {ℓ} : {A : Type ℓ} {a b : A} → ok a ≡ ok b → a ≡ b
ok-injective e = cc

pub assert_then {ℓ} :
    {A : Type ℓ} (b : Bool) (m : Outcome A) {a : A}
    → (assert b >> m) ≡ ok a
    → (b ≡ true) × (m ≡ ok a)
assert_then true m e = (refl, e)
assert_then false m e = cc

pub assert-pass {ℓ} : {A : Type ℓ} {b : Bool} (m : Outcome A) → b ≡ true → (assert b >> m) ≡ m
assert-pass {b = true} m h = refl
assert-pass {b = false} m h = cc

pub >>=-ok {ℓ κ} :
    {A : Type ℓ} {B : Type κ} {m : Outcome A} {a : A} (f : A → Outcome B)
    → m ≡ ok a
    → (m >>= f) ≡ f a
>>=-ok {m = ok b} f h = ap f (ok-injective h)
>>=-ok {m = bug_check} f h = cc
>>=-ok {m = spin} f h = cc
