-- ===== src/Mm/Pages/Free.antt =====
-- MmVirtualFree, and that it takes back what MmVirtualAlloc gave.
use kaush_os.Base.{
  ◌*◌, ℕ, zero, suc, ◌+◌, ◌/◌, ◌%◌, ◌^◌, ◌≤◌, ◌<◌, ◌≡◌, refl, ap, ◌∙◌, subst, true, false, ◌==◌,
  if◌then◌else◌, inl, inr, ◌⊎◌, arith,
}
use kaush_os.Base.Outcome.{ok}
use kaush_os.Mm.Pages.{
  Memory, valid, directory_base, pte_index, pde_index, page_size, virtual_alloc, page_count,
}
use kaush_os.Mm.Pages.Accounting.{entry_count, Accounted, Ordinary}
use kaush_os.Mm.Pages.Segments.{
  outside_first, outside_behind, OrdinaryPages, Next, OrdinaryPages-Next, OrdinaryPages-tail,
}
use kaush_os.Mm.Pages.{free_pages, virtual_free, remove_page}
use kaush_os.Mm.Pages.Progress.{remove_page-ok}
use kaush_os.Mm.Pages.Remove.{remove_page-Removed, remove_page-Accounted}
use kaush_os.Mm.Pages.Virtual.{virtual_alloc-PagesMapped}
use kaush_os.Base.Outcome.{>>=-ok}

-- `k` pages are unmapped, and no other entry has changed.
pub record PagesFreed (kept : ℕ → ℕ) (va k : ℕ) (m m' : Memory) : Type 0 where
  pub accounted : Accounted kept m'
  pub cleared : (p : ℕ) → p < k → m'.entries (pte_index va + p) ≡ 0
  pub others : (j : ℕ) → (j < pte_index va) ⊎ (pte_index va + k ≤ j) → m'.entries j ≡ m.entries j

-- The page at an address is mapped, in a table that is there.
abbrev pub MappedPages : ℕ → ℕ → Memory → Type 0
MappedPages va k m =
    (p : ℕ)
    → p < k
    → (valid (m.entries (pte_index va + p)) ≡ true)
      × (valid (m.entries (directory_base + (pte_index va + p) / 1024)) ≡ true)

remove_page-others :
    {kept : ℕ → ℕ} (va : ℕ) (m t : Memory)
    → Accounted kept m
    → Ordinary va
    → remove_page true va m ≡ ok t
    → (j : ℕ) → t.entries j ≡ (if j == pte_index va then 0 else m.entries j)
remove_page-others va m t a o e j =
    let r = remove_page-Removed true va m t a o e in
    let (u, released, eq) = r.released in
    ap (λ (x : Memory). x.entries j) eq
    ∙ ap (λ (x : ℕ → ℕ). if j == pte_index va then 0 else x j) released.same

-- The pages behind the first one are still mapped when it is gone.
MappedPages-tail :
    (va k : ℕ) (m t : Memory)
    → Next va k
    → OrdinaryPages va (suc k)
    → ((j : ℕ) → t.entries j ≡ (if j == pte_index va then 0 else m.entries j))
    → MappedPages va (suc k) m
    → MappedPages ((va + page_size) % 2 ^ 32) k t
MappedPages-tail va k m t (inr (z, _)) os same h p lt = absurd (omega (arith, z, lt))
MappedPages-tail va k m t (inl n) os same h p lt =
    let i = pte_index va + suc p in
    let at : i ≡ pte_index ((va + page_size) % 2 ^ 32) + p = omega (arith, n) in
    let o = os 0 (omega arith) in
    let far = os (suc p) (omega (arith, lt)) in
    let (v, there) = h (suc p) (omega (arith, lt)) in
    let ne : (i == pte_index va) ≡ false = ground arith in
    let low : i / 1024 < 1024 = omega (arith, far.below) in
    let ne2 : (directory_base + i / 1024 == pte_index va) ≡ false =
      ground (arith, o.not_table, low) in
    (
      subst (λ (x : ℕ). valid (t.entries x) ≡ true) at (ground (arith, same i, ne, v)),
      subst (λ (x : ℕ). valid (t.entries (directory_base + x / 1024)) ≡ true) at
          (ground (arith, same (directory_base + i / 1024), ne2, there)),
    )

cleared-step :
    (va k : ℕ) (m' : Memory)
    → Next va k
    → m'.entries (pte_index va) ≡ 0
    → ((p : ℕ) → p < k → m'.entries (pte_index ((va + page_size) % 2 ^ 32) + p) ≡ 0)
    → (p : ℕ) → p < suc k
    → m'.entries (pte_index va + p) ≡ 0
cleared-step va k m' next first rest zero h =
    let at : pte_index va ≡ pte_index va + 0 = omega arith in
    subst (λ (x : ℕ). m'.entries x ≡ 0) at first
cleared-step va k m' (inr (z, _)) first rest (suc p) h = absurd (omega (arith, z, h))
cleared-step va k m' (inl n) first rest (suc p) h =
    let at : pte_index ((va + page_size) % 2 ^ 32) + p ≡ pte_index va + suc p = omega (arith, n) in
    subst (λ (x : ℕ). m'.entries x ≡ 0) at (rest p (omega (arith, h)))

PagesFreed-cons :
    {kept : ℕ → ℕ} (va k : ℕ) (m t m' : Memory)
    → Next va k
    → ((j : ℕ) → t.entries j ≡ (if j == pte_index va then 0 else m.entries j))
    → PagesFreed kept ((va + page_size) % 2 ^ 32) k t m'
    → PagesFreed kept va (suc k) m m'
PagesFreed-cons va k m t m' next same r =
    let i = pte_index va in
    let out = outside_first va k next in
    let first : m'.entries i ≡ 0 = r.others i out ∙ same i ∙ ground arith in
    record {
      accounted = r.accounted;
      cleared = cleared-step va k m' next first r.cleared;
      others = λ j out. r.others j (outside_behind va k j next out) ∙ same j ∙ ground (arith, out);
    }

at_zero :
    (va : ℕ) (m : Memory)
    → valid (m.entries (directory_base + (pte_index va + 0) / 1024)) ≡ true
    → valid (m.entries (pde_index va)) ≡ true
at_zero va m h =
    let at : directory_base + (pte_index va + 0) / 1024 ≡ pde_index va = omega arith in
    subst (λ (x : ℕ). valid (m.entries x) ≡ true) at h

at_zero_page :
    (va : ℕ) (m : Memory)
    → valid (m.entries (pte_index va + 0)) ≡ true
    → valid (m.entries (pte_index va)) ≡ true
at_zero_page va m h =
    let at : pte_index va + 0 ≡ pte_index va = omega arith in
    subst (λ (x : ℕ). valid (m.entries x) ≡ true) at h

-- MmVirtualFree's loop over mapped pages returns and unmaps them.
pub free_pages-PagesFreed :
    {kept : ℕ → ℕ} (k va : ℕ) (m : Memory)
    → Accounted kept m
    → OrdinaryPages va k
    → va % 4096 ≡ 0
    → MappedPages va k m
    → (m' : Memory) × (free_pages k va m ≡ ok m') × PagesFreed kept va k m m'
unfolding free_pages
free_pages-PagesFreed zero va m a os aligned h = (
  m,
  refl,
  record { accounted = a; cleared = λ p lt. absurd (omega (arith, lt)); others = λ j out. refl },
)
free_pages-PagesFreed (suc k) va m a os aligned h =
    let o : Ordinary va = subst Ordinary (omega arith) (os 0 (omega arith)) in
    let next = OrdinaryPages-Next va k aligned os in
    let (v, there) = h 0 (omega arith) in
    let (t, e, _) = remove_page-ok va m aligned (at_zero va m there) (at_zero_page va m v) in
    let same = remove_page-others va m t a o e in
    let (m', e1, r) =
      free_pages-PagesFreed k ((va + page_size) % 2 ^ 32) t
        (remove_page-Accounted true va m t a o e) (OrdinaryPages-tail va k next os)
        (omega (arith, aligned)) (MappedPages-tail va k m t next os same h) in
    (m', >>=-ok _ e ∙ e1, PagesFreed-cons va k m t m' next same r)

-- MmVirtualFree of `n` pages.
pub virtual_free-PagesFreed :
    {kept : ℕ → ℕ} (va n : ℕ) (m : Memory)
    → Accounted kept m
    → OrdinaryPages va n
    → va % 4096 ≡ 0
    → page_count (n * page_size % 2 ^ 32) ≡ n
    → MappedPages va n m
    → (m' : Memory) × (virtual_free va (n * page_size % 2 ^ 32) m ≡ ok m')
      × PagesFreed kept va n m m'
unfolding virtual_free
virtual_free-PagesFreed va n m a os aligned pages h =
    let (m', e, f) = free_pages-PagesFreed n va m a os aligned h in
    (m', ap (λ (k : ℕ). free_pages k va m) pages ∙ e, f)

-- What MmVirtualAlloc has mapped, from an aligned address and over pages that neither the boot code
-- has mapped nor the page table area holds, MmVirtualFree of the same address and size takes back:
-- it returns, the pages are unmapped, each other page has the entry that it had before the two
-- calls, and the counts of all frames agree with the entries that map them.
pub virtual_free-virtual_alloc :
    {kept : ℕ → ℕ} (va size perm : ℕ) (m m1 : Memory)
    → Accounted kept m
    → OrdinaryPages va (page_count size)
    → va % 4096 ≡ 0
    → perm < 4096
    → virtual_alloc va size perm m ≡ ok m1
    → (m2 : Memory) × (virtual_free va size m1 ≡ ok m2)
      × Accounted kept m2
      × ((p : ℕ) → p < page_count size → m2.entries (pte_index va + p) ≡ 0)
      × ((j : ℕ)
          → j < entry_count
          → (j / 1024 == 768) ≡ false
          → (j < pte_index va) ⊎ (pte_index va + page_count size ≤ j)
          → m2.entries j ≡ m.entries j)
unfolding virtual_free
virtual_free-virtual_alloc va size perm m m1 a os aligned few e =
    let r = virtual_alloc-PagesMapped va size perm m m1 a os aligned few e in
    let (m2, e1, f) =
      free_pages-PagesFreed (page_count size) va m1 r.accounted os aligned
        (λ p lt. (r.mapped p lt, r.there p lt)) in
    (m2, e1, f.accounted, f.cleared, λ j lt ne out. f.others j out ∙ r.others j lt ne out)
