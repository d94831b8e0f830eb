-- ===== src/KList/Ring.antt =====
-- Paths of linked elements, and what inserting or unlinking one does to them.
use kaush_os.Base.{ℕ, ◌≡◌, refl, false, List, [], ◌∷◌, ◌++◌, arith, ◌==◌, ◌∈◌, ◌∉◌}
use kaush_os.KList.{Links}

abbrev pub Linked : Links → ℕ → ℕ → Type 0
Linked l a b = (l.le_next a ≡ b) × (l.le_prev b ≡ a)

-- From `a` the links lead through `xs` to `z`, in both directions.
abbrev pub Leads : Links → ℕ → List ℕ → ℕ → Type 0
Leads l a [] z = Linked l a z
Leads l a (x ∷ xs) z = Linked l a x × Leads l x xs z

pub Leads-append :
    (l : Links) (a e z : ℕ) (xs ys : List ℕ)
    → Leads l a xs e
    → Leads l e ys z
    → Leads l a (xs ++ e ∷ ys) z
Leads-append l a e z [] ys p q = (p, q)
Leads-append l a e z (x ∷ xs) ys p q = (p.0, Leads-append l x e z xs ys p.1 q)

pub Leads-split :
    (l : Links) (a e z : ℕ) (xs ys : List ℕ)
    → Leads l a (xs ++ e ∷ ys) z
    → Leads l a xs e × Leads l e ys z
Leads-split l a e z [] ys p = p
Leads-split l a e z (x ∷ xs) ys p = let (q, r) = Leads-split l x e z xs ys p.1 in ((p.0, q), r)

-- The element before the end.
unfoldable pub last_of : ℕ → List ℕ → ℕ
last_of a [] = a
last_of a (x ∷ xs) = last_of x xs

pub prev-last_of : (l : Links) (a z : ℕ) (xs : List ℕ) → Leads l a xs z → l.le_prev z ≡ last_of a xs
unfolding last_of
prev-last_of l a z [] p = p.1
prev-last_of l a z (x ∷ xs) p = prev-last_of l x z xs p.1

pub last_of-mem : (a : ℕ) (xs : List ℕ) → last_of a xs ∈ a ∷ xs
unfolding last_of
last_of-mem a [] = ground arith
last_of-mem a (x ∷ xs) = ground (arith, last_of-mem x xs)

-- Changing the links of others leaves a path as it was.
pub Leads-frame :
    (l g : Links) (a z p n : ℕ) (xs : List ℕ)
    → Leads l a xs z
    → p ∉ a ∷ xs
    → n ∉ xs ++ z ∷ []
    → ((b : ℕ) → (b == p) ≡ false → g.le_next b ≡ l.le_next b)
    → ((b : ℕ) → (b == n) ≡ false → g.le_prev b ≡ l.le_prev b)
    → Leads g a xs z
Leads-frame l g a z p n [] h hp hn f b = ground (arith, f a, b z)
Leads-frame l g a z p n (x ∷ xs) h hp hn f b =
    (ground (arith, f a, b x), Leads-frame l g x z p n xs h.1 (ground arith) (ground arith) f b)

pub next-mem : (l : Links) (a z : ℕ) (xs : List ℕ) → Leads l a xs z → l.le_next a ∈ z ∷ xs
next-mem l a z [] h = ground arith
next-mem l a z (x ∷ xs) h = ground arith

pub last_of-snoc : (a e : ℕ) (xs : List ℕ) → last_of a (xs ++ e ∷ []) ≡ e
unfolding last_of
last_of-snoc a e [] = refl
last_of-snoc a e (x ∷ xs) = last_of-snoc x e xs
