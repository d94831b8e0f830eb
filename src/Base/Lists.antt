-- ===== src/Base/Lists.antt =====
-- Lists measured and searched with native numbers.
use Prim.Native.Nat.{ℕ, suc, ◌+◌}
use mathlib.Core.Path.{◌≡◌, refl, ap}
use mathlib.Core.Logic.{◌⊎◌, inl, inr}
use mathlib.Core.Bool.{Bool, true, false, ◌||◌}
use mathlib.Core.List.{List, [], ◌∷◌, ◌++◌}
use native.Mathlib.Omega.{arith}
use kaush_os.Base.Tests.{◌==◌, if◌then◌else◌, eqb→eq, Bool-cases}

module _ {ℓ} {A : Type ℓ} where
  abbrev pub length : List A → ℕ
  length [] = 0
  length (x ∷ xs) = suc (length xs)

  pub length-append : (xs ys : List A) → length (xs ++ ys) ≡ length xs + length ys
  length-append [] ys = omega arith
  length-append (x ∷ xs) ys = omega (arith, length-append xs ys)

pub List-cases {ℓ} :
    {A : Type ℓ} (xs : List A) → (xs ≡ []) ⊎ ((x : A) × (ys : List A) × (xs ≡ x ∷ ys))
List-cases [] = inl refl
List-cases (x ∷ xs) = inr (x, xs, refl)

-- Whether a node stands in a list of nodes.
abbrev pub has : ℕ → List ℕ → Bool
has a [] = false
has a (x ∷ xs) = (a == x) || has a xs

infix 40 ◌∈◌ ◌∉◌
abbrev pub ◌∈◌ : ℕ → List ℕ → Type 0
a ∈ xs = has a xs ≡ true

abbrev pub ◌∉◌ : ℕ → List ℕ → Type 0
a ∉ xs = has a xs ≡ false

-- No node stands twice.
abbrev pub Distinct : List ℕ → Type 0
Distinct [] = Unit {0}
Distinct (x ∷ xs) = (x ∉ xs) × Distinct xs

pub has-append : (a : ℕ) (xs ys : List ℕ) → has a (xs ++ ys) ≡ (has a xs || has a ys)
has-append a [] ys = refl
has-append a (x ∷ xs) ys = ground (arith, has-append a xs ys)

-- The list without the first occurrence of a node.
unfoldable pub erase : ℕ → List ℕ → List ℕ
erase a [] = []
erase a (x ∷ xs) = if a == x then xs else x ∷ erase a xs

pub not-mem-erase : (b a : ℕ) (xs : List ℕ) → b ∉ xs → b ∉ erase a xs
unfolding erase
not-mem-erase b a [] h = refl
not-mem-erase b a (x ∷ xs) h = ground (arith, not-mem-erase b a xs)

pub Distinct-erase : (a : ℕ) (xs : List ℕ) → Distinct xs → Distinct (erase a xs)
unfolding erase
Distinct-erase a [] d = tt
Distinct-erase a (x ∷ xs) d = ground (arith, Distinct-erase a xs, not-mem-erase x a xs)

pub not-mem-erase_self : (a : ℕ) (xs : List ℕ) → Distinct xs → a ∉ erase a xs
unfolding erase
not-mem-erase_self a [] d = refl
not-mem-erase_self a (x ∷ xs) d = ground (arith, not-mem-erase_self a xs)

pub length-erase : (a : ℕ) (xs : List ℕ) → a ∈ xs → suc (length (erase a xs)) ≡ length xs
unfolding erase
length-erase a [] h = cc
length-erase a (x ∷ xs) h = ground (arith, length-erase a xs)

pub has-erase_ne : (b a : ℕ) (xs : List ℕ) → (b == a) ≡ false → has b (erase a xs) ≡ has b xs
unfolding erase
has-erase_ne b a [] h = refl
has-erase_ne b a (x ∷ xs) h = ground (arith, has-erase_ne b a xs h)

pub Distinct-snoc : (xs : List ℕ) (a : ℕ) → Distinct xs → a ∉ xs → Distinct (xs ++ a ∷ [])
Distinct-snoc [] a d h = (refl, tt)
Distinct-snoc (x ∷ xs) a d h = ground (arith, has-append x xs (a ∷ []), Distinct-snoc xs a)

-- A member splits the list, and `erase` joins the parts.
pub mem_split :
    (a : ℕ) (xs : List ℕ)
    → a ∈ xs
    → (ys : List ℕ) × (zs : List ℕ) × (xs ≡ ys ++ a ∷ zs) × (erase a xs ≡ ys ++ zs)
unfolding erase
mem_split a [] h = cc
mem_split a (x ∷ xs) h = elim (Bool-cases (a == x)) [
  | inl e ↦ ([], xs, ap (λ (t : ℕ). t ∷ xs) (ground (arith, eqb→eq a x e)), ground arith)
  | inr e ↦
      let (ys, zs, p, q) = mem_split a xs (ground arith) in (x ∷ ys, zs, ap (◌∷◌ x) p, ground arith)
]

pub Distinct-append :
    (ys zs : List ℕ) → Distinct (ys ++ zs) → Distinct ys × Distinct zs × ((b : ℕ) → b ∈ zs → b ∉ ys)
Distinct-append [] zs d = (tt, d, λ b h. refl)
Distinct-append (y ∷ ys) zs d =
    let (p, q, r) = Distinct-append ys zs d.1 in
    ((ground (arith, has-append y ys zs), p), q, λ b h. ground (arith, has-append y ys zs, r b h))

pub Distinct-drop : (ys zs : List ℕ) (e : ℕ) → Distinct (ys ++ e ∷ zs) → Distinct (ys ++ zs)
Distinct-drop [] zs e d = d.1
Distinct-drop (y ∷ ys) zs e d =
    ground (arith, has-append y ys zs, has-append y ys (e ∷ zs), Distinct-drop ys zs e d.1)

pub erase-snoc : (xs : List ℕ) (e : ℕ) → e ∉ xs → erase e (xs ++ e ∷ []) ≡ xs
unfolding erase
erase-snoc [] e h = ground arith
erase-snoc (x ∷ xs) e h = ground (arith, erase-snoc xs e)
