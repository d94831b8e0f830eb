-- ===== src/Mm/Pages/Segments.antt =====
-- Runs of pages, one page after the other.
use kaush_os.Base.{
  ℕ, zero, suc, ◌+◌, ◌*◌, ◌/◌, ◌%◌, ◌^◌, ◌≤◌, ◌<◌, ◌≡◌, refl, sym, ◌∙◌, subst, true, false, ◌==◌,
  ltb, Bool-cases, inl, inr, ◌⊎◌, eqb→eq, arith,
}
use kaush_os.Mm.Pages.{Memory, valid, directory_base, pte_index, pde_index, page_size}
use kaush_os.Mm.Pages.Counting.{maps}
use kaush_os.Mm.Pages.Accounting.{entry_count, Accounted, Ordinary}
use kaush_os.Mm.Pages.Insert.{Inserted}

-- The addresses of `k` pages from an aligned address.
abbrev pub OrdinaryPages : ℕ → ℕ → Type 0
OrdinaryPages va k = (p : ℕ) → p < k → Ordinary (va + p * 4096)

-- `k` pages are mapped, each in a table that is there, and no other page has changed.
pub record PagesMapped (kept : ℕ → ℕ) (va k : ℕ) (m m' : Memory) : Type 0 where
  pub accounted : Accounted kept m'
  pub mapped : (p : ℕ) → p < k → valid (m'.entries (pte_index va + p)) ≡ true
  pub there :
      (p : ℕ) → p < k → valid (m'.entries (directory_base + (pte_index va + p) / 1024)) ≡ true
  pub others :
      (j : ℕ)
      → j < entry_count
      → (j / 1024 == 768) ≡ false
      → (j < pte_index va) ⊎ (pte_index va + k ≤ j)
      → m'.entries j ≡ m.entries j
  pub tables :
      (j : ℕ)
      → j < entry_count
      → (j / 1024 == 768) ≡ true
      → valid (m.entries j) ≡ true
      → valid (m'.entries j) ≡ true

maps-valid : (f w : ℕ) → maps f w ≡ true → valid w ≡ true
unfolding maps
maps-valid f w h = ground (arith, h)

-- The page behind the first one, unless there is none.
abbrev pub Next : ℕ → ℕ → Type 0
Next va k = ((va + page_size) % 2 ^ 32 ≡ va + 4096) ⊎ ((k ≡ 0) × ((va + page_size) % 2 ^ 32 ≡ 0))

pub OrdinaryPages-Next : (va k : ℕ) → va % 4096 ≡ 0 → OrdinaryPages va (suc k) → Next va k
OrdinaryPages-Next va zero aligned os = elim (Bool-cases (ltb (va + 4096) (2 ^ 32))) [
  | inl h ↦ inl (ground (arith, h))
  | inr h ↦ inr (refl, ground (arith, h, aligned, (os 0 (omega arith)).below))
]
OrdinaryPages-Next va (suc k) aligned os = inl (omega (arith, (os 1 (omega arith)).below))

pub OrdinaryPages-tail :
    (va k : ℕ) → Next va k → OrdinaryPages va (suc k) → OrdinaryPages ((va + page_size) % 2 ^ 32) k
OrdinaryPages-tail va k (inr (z, _)) os p h = absurd (omega (arith, z, h))
OrdinaryPages-tail va k (inl n) os p h =
    subst Ordinary (omega (arith, n)) (os (suc p) (omega (arith, h)))

pub outside_first :
    (va k : ℕ)
    → Next va k
    → (pte_index va < pte_index ((va + page_size) % 2 ^ 32))
      ⊎ (pte_index ((va + page_size) % 2 ^ 32) + k ≤ pte_index va)
outside_first va k (inl n) = inl (omega (arith, n))
outside_first va k (inr (z, n)) = inr (omega (arith, z, n))

pub outside_behind :
    (va k j : ℕ)
    → Next va k
    → (j < pte_index va) ⊎ (pte_index va + suc k ≤ j)
    → (j < pte_index ((va + page_size) % 2 ^ 32)) ⊎ (pte_index ((va + page_size) % 2 ^ 32) + k ≤ j)
outside_behind va k j (inl n) (inl h) = inl (omega (arith, n, h))
outside_behind va k j (inl n) (inr h) = inr (omega (arith, n, h))
outside_behind va k j (inr (z, n)) h = inr (omega (arith, z, n))

pub tables-step :
    {kept : ℕ → ℕ} (va f : ℕ) (m m1 : Memory)
    → Ordinary va
    → Inserted kept va f m m1
    → (j : ℕ) → j < entry_count
    → (j / 1024 == 768) ≡ true
    → valid (m.entries j) ≡ true
    → valid (m1.entries j) ≡ true
tables-step va f m m1 o i j jlt at v = elim (Bool-cases (j == pde_index va)) [
  | inl e ↦ subst (λ (x : ℕ). valid (m1.entries x) ≡ true) (sym (eqb→eq _ _ e)) i.there
  | inr e ↦
      let ne : (j == pte_index va) ≡ false = ground (arith, at, o.not_table) in
      subst (λ (w : ℕ). valid w ≡ true) (sym (i.others j jlt ne e)) v
]

mapped-step :
    (va k : ℕ) (m' : Memory)
    → Next va k
    → valid (m'.entries (pte_index va)) ≡ true
    → ((p : ℕ) → p < k → valid (m'.entries (pte_index ((va + page_size) % 2 ^ 32) + p)) ≡ true)
    → (p : ℕ) → p < suc k
    → valid (m'.entries (pte_index va + p)) ≡ true
mapped-step va k m' next first rest zero h =
    let at : pte_index va ≡ pte_index va + 0 = omega arith in
    subst (λ (x : ℕ). valid (m'.entries x) ≡ true) at first
mapped-step va k m' (inr (z, _)) first rest (suc p) h = absurd (omega (arith, z, h))
mapped-step va k m' (inl n) first rest (suc p) h =
    let at : pte_index ((va + page_size) % 2 ^ 32) + p ≡ pte_index va + suc p = omega (arith, n) in
    subst (λ (x : ℕ). valid (m'.entries x) ≡ true) at (rest p (omega (arith, h)))

there-step :
    (va k : ℕ) (m' : Memory)
    → Next va k
    → valid (m'.entries (pde_index va)) ≡ true
    → ((p : ℕ)
        → p < k
        → valid (m'.entries (directory_base + (pte_index ((va + page_size) % 2 ^ 32) + p) / 1024))
          ≡ true)
    → (p : ℕ) → p < suc k
    → valid (m'.entries (directory_base + (pte_index va + p) / 1024)) ≡ true
there-step va k m' next first rest zero h =
    let at : pde_index va ≡ directory_base + (pte_index va + 0) / 1024 = omega arith in
    subst (λ (x : ℕ). valid (m'.entries x) ≡ true) at first
there-step va k m' (inr (z, _)) first rest (suc p) h = absurd (omega (arith, z, h))
there-step va k m' (inl n) first rest (suc p) h =
    let at : pte_index ((va + page_size) % 2 ^ 32) + p ≡ pte_index va + suc p = omega (arith, n) in
    subst (λ (x : ℕ). valid (m'.entries (directory_base + x / 1024)) ≡ true) at
      (rest p (omega (arith, h)))

-- One page and the pages behind it.
pub PagesMapped-cons :
    {kept : ℕ → ℕ} (va f k : ℕ) (m m1 m' : Memory)
    → Ordinary va
    → va % 4096 ≡ 0
    → Next va k
    → Inserted kept va f m m1
    → PagesMapped kept ((va + page_size) % 2 ^ 32) k m1 m'
    → PagesMapped kept va (suc k) m m'
PagesMapped-cons {kept} va f k m m1 m' o aligned next i r =
    let lt : pte_index va < entry_count = omega (arith, o.below) in
    let nt : (pte_index va / 1024 == 768) ≡ false = ground (arith, o.not_table) in
    let first : valid (m1.entries (pte_index va)) ≡ true = maps-valid f _ i.mapped in
    let stays = r.others (pte_index va) lt nt (outside_first va k next) in
    record {
      accounted = r.accounted;
      mapped = λ p h.
          mapped-step va k m' next (subst (λ (w : ℕ). valid w ≡ true) (sym stays) first) r.mapped p
            h;
      there = λ p h.
          there-step va k m' next
            (r.tables (pde_index va) (omega (arith, o.below)) (ground (arith, o.below)) i.there)
            r.there p h;
      others = λ j jlt ne out.
          r.others j jlt ne (outside_behind va k j next out)
          ∙ i.others j jlt (ground (arith, out)) (ground (arith, ne, o.below));
      tables = λ j jlt at v. r.tables j jlt at (tables-step va f m m1 o i j jlt at v);
    }
