-- ===== src/Mm/Pages/Enough.antt =====
-- MmVirtualAlloc returns where there are enough frames.
use kaush_os.Base.{
  ℕ, zero, suc, ◌+◌, ◌*◌, ◌%◌, ◌^◌, ◌≤◌, ◌<◌, ◌≡◌, refl, ◌∙◌, subst, true, inl, inr, arith, length,
}
use kaush_os.Base.Outcome.{ok, >>=-ok}
use kaush_os.Mm.Pages.{
  Memory, pde_index, or_present, map_pages, virtual_alloc, page_count, page_size,
}
use kaush_os.Mm.Pages.Accounting.{Accounted, Ordinary}
use kaush_os.Mm.Pages.Insert.{Inserted}
use kaush_os.Mm.Pages.Segments.{
  OrdinaryPages, PagesMapped, Next, OrdinaryPages-Next, OrdinaryPages-tail, tables-step,
}
use kaush_os.Mm.Pages.Virtual.{map_new_page-Inserted, or_present-low, virtual_alloc-PagesMapped}
use kaush_os.Mm.Pages.Progress.{HasTable, map_new_page-ok}

-- The tables of the pages behind the first one are still there.
HasTable-tail :
    {kept : ℕ → ℕ} (va f k : ℕ) (m m1 : Memory)
    → Next va k
    → OrdinaryPages va (suc k)
    → Inserted kept va f m m1
    → ((p : ℕ) → p < suc k → HasTable (va + p * 4096) m)
    → (p : ℕ) → p < k
    → HasTable ((va + page_size) % 2 ^ 32 + p * 4096) m1
HasTable-tail va f k m m1 (inr (z, _)) os i tables p lt = absurd (omega (arith, z, lt))
HasTable-tail va f k m m1 (inl n) os i tables p lt =
    let x = va + suc p * 4096 in
    let at : x ≡ (va + page_size) % 2 ^ 32 + p * 4096 = omega (arith, n) in
    let first : Ordinary va = subst Ordinary (omega arith) (os 0 (omega arith)) in
    let far = os (suc p) (omega (arith, lt)) in
    let there : HasTable x m1 = elim (tables (suc p) (omega (arith, lt))) [
      | inl v ↦ inl (
          tables-step va f m m1 first i (pde_index x) (omega (arith, far.below))
            (ground (arith, far.below)) v)
      | inr u ↦ inr u
    ] in
    subst (λ (y : ℕ). HasTable y m1) at there

-- Two free frames for each page are enough.
map_pages-ok :
    {kept : ℕ → ℕ} (k va perm : ℕ) (m : Memory)
    → Accounted kept m
    → OrdinaryPages va k
    → va % 4096 ≡ 0
    → perm < 4096
    → ((p : ℕ) → p < k → HasTable (va + p * 4096) m)
    → 2 * k ≤ length m.pfn_free_list
    → (m' : Memory) × (map_pages k true va perm m ≡ ok m')
unfolding map_pages
map_pages-ok zero va perm m a os aligned few tables enough = (m, refl)
map_pages-ok (suc k) va perm m a os aligned few tables enough =
    let first : Ordinary va = subst Ordinary (omega arith) (os 0 (omega arith)) in
    let next = OrdinaryPages-Next va k aligned os in
    let has_table : HasTable va m =
      subst (λ (x : ℕ). HasTable x m) (omega arith) (tables 0 (omega arith)) in
    let (m1, e1, l1) = map_new_page-ok va perm m a aligned has_table (omega (arith, enough)) in
    let (f, i) = map_new_page-Inserted _ true va perm m m1 a first few e1 in
    let (m2, e2) =
      map_pages-ok k ((va + page_size) % 2 ^ 32) perm m1 i.accounted
        (OrdinaryPages-tail va k next os) (omega (arith, aligned)) few
        (HasTable-tail va f k m m1 next os i tables) (omega (arith, enough, l1)) in
    (m2, >>=-ok _ e1 ∙ e2)

-- MmVirtualAlloc from an aligned address, over pages that neither the boot code has mapped nor the page
-- table area holds, each a user address or one whose page table is there, with two free frames for
-- each page, returns: it has mapped each of the pages, in a page table that is there. No page outside
-- the range has changed, no page table is gone, and the counts of all frames agree with the entries
-- that map them.
pub virtual_alloc-Returns :
    {kept : ℕ → ℕ} (va size perm : ℕ) (m : Memory)
    → Accounted kept m
    → OrdinaryPages va (page_count size)
    → va % 4096 ≡ 0
    → perm < 4096
    → ((p : ℕ) → p < page_count size → HasTable (va + p * 4096) m)
    → 2 * page_count size ≤ length m.pfn_free_list
    → (m' : Memory) × (virtual_alloc va size perm m ≡ ok m')
      × PagesMapped kept va (page_count size) m m'
unfolding virtual_alloc
virtual_alloc-Returns va size perm m a os aligned few tables enough =
    let (m', e) =
      map_pages-ok (page_count size) va (or_present perm) m a os aligned (or_present-low perm few)
        tables enough in
    (m', e, virtual_alloc-PagesMapped va size perm m m' a os aligned few e)
