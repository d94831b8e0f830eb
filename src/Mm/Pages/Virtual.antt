-- ===== src/Mm/Pages/Virtual.antt =====
-- MmVirtualAlloc and MmMapSegment.
use kaush_os.Base.{
  ◌-◌, ◌*◌, ◌/◌, ◌≤◌, ℕ, zero, suc, ◌+◌, ◌%◌, ◌^◌, ◌<◌, ◌≡◌, refl, ap, ◌∙◌, subst, Bool, true, inl,
  inr, arith, some, Option-cases,
}
use kaush_os.Base.Outcome.{ok, ok-injective, >>=-eq-ok}
use kaush_os.Mm.Pool.{round_up}
use kaush_os.Mm.Pages.{
  map_segment, Memory, allocate_pfn, pte_index, page_size, insert_page, KStatus, success, no_memory,
  map_new_page, map_pages, virtual_alloc, page_count, or_present, require_success,
}
use kaush_os.Mm.Pages.Accounting.{Accounted, Ordinary}
use kaush_os.Mm.Pages.Allocate.{allocate_pfn-Allocated}
use kaush_os.Mm.Pages.Insert.{Inserted, InsertResult, insert_page-InsertResult}
use kaush_os.Mm.Pages.Segments.{
  OrdinaryPages, PagesMapped, OrdinaryPages-Next, OrdinaryPages-tail, PagesMapped-cons,
}

mapped-with-success :
    (kept : ℕ → ℕ) (va f : ℕ) (m m1 m' : Memory) (r : KStatus × Memory)
    → m1.entries ≡ m.entries
    → InsertResult kept va f m1 r
    → require_success r ≡ ok m'
    → Inserted kept va f m m'
mapped-with-success kept va f m m1 m' (no_memory, m2) same res e = cc
mapped-with-success kept va f m m1 m' (success, m2) same res e =
    subst (Inserted kept va f m) (ok-injective e) (record {
      accounted = res.accounted;
      mapped = res.mapped;
      there = res.there;
      others = λ j lt ne1 ne2. res.others j lt ne1 ne2 ∙ ap (λ (u : ℕ → ℕ). u j) same;
    })

pub map_new_page-Inserted :
    (kept : ℕ → ℕ) (current : Bool) (va perm : ℕ) (m m' : Memory)
    → Accounted kept m
    → Ordinary va
    → perm < 4096
    → map_new_page current va perm m ≡ ok m'
    → (f : ℕ) × Inserted kept va f m m'
unfolding map_new_page
map_new_page-Inserted kept current va perm m m' a o few e =
    elim (Option-cases (allocate_pfn (pte_index va) m)) [
      | inl none_left ↦ absurd (ground (arith, rw (none_left, map_new_page) at e))
      | inr ((f, m1), some_left) ↦
          let e1 = rw (some_left, map_new_page) at e in
          let al = allocate_pfn-Allocated _ m f m1 a some_left in
          let (r, e2, e3) = >>=-eq-ok (insert_page current va (some f) perm m1) _ e1 in
          let res = insert_page-InsertResult current va f perm m1 r al.accounted o al.held few e2 in
          (f, mapped-with-success kept va f m m1 m' r al.same res e3)
    ]

pub map_pages-PagesMapped :
    {kept : ℕ → ℕ} (k : ℕ) (current : Bool) (va perm : ℕ) (m m' : Memory)
    → Accounted kept m
    → OrdinaryPages va k
    → va % 4096 ≡ 0
    → perm < 4096
    → map_pages k current va perm m ≡ ok m'
    → PagesMapped kept va k m m'
unfolding map_pages
map_pages-PagesMapped {kept} zero current va perm m m' a os aligned few e =
    subst (PagesMapped kept va 0 m) (ok-injective e) (record {
      accounted = a;
      mapped = λ p h. absurd (omega (arith, h));
      there = λ p h. absurd (omega (arith, h));
      others = λ j lt ne out. refl;
      tables = λ j lt at v. v;
    })
map_pages-PagesMapped {kept} (suc k) current va perm m m' a os aligned few e =
    let first : Ordinary va = subst Ordinary (omega arith) (os 0 (omega arith)) in
    let next = OrdinaryPages-Next va k aligned os in
    let (m1, e1, e2) = >>=-eq-ok (map_new_page current va perm m) _ e in
    let (f, i) = map_new_page-Inserted kept current va perm m m1 a first few e1 in
    let rest =
      map_pages-PagesMapped k current ((va + page_size) % 2 ^ 32) perm m1 m' i.accounted
        (OrdinaryPages-tail va k next os) (omega (arith, aligned)) few e2 in
    PagesMapped-cons va f k m m1 m' first aligned next i rest

pub or_present-low : (perm : ℕ) → perm < 4096 → or_present perm < 4096
or_present-low perm h = ground (arith, h)

-- A call of MmVirtualAlloc that returns, from an aligned address and over pages that neither the
-- boot code has mapped nor the page table area holds, has mapped each of the pages, in a page table
-- that is there. No page outside the range has changed, no page table is gone, and the counts of all
-- frames agree with the entries that map them.
pub virtual_alloc-PagesMapped :
    {kept : ℕ → ℕ} (va size perm : ℕ) (m m' : Memory)
    → Accounted kept m
    → OrdinaryPages va (page_count size)
    → va % 4096 ≡ 0
    → perm < 4096
    → virtual_alloc va size perm m ≡ ok m'
    → PagesMapped kept va (page_count size) m m'
unfolding virtual_alloc
virtual_alloc-PagesMapped va size perm m m' a os aligned few e =
    map_pages-PagesMapped (page_count size) true va (or_present perm) m m' a os aligned
      (or_present-low perm few) e

-- The pages of a segment.
abbrev pub segment_start : ℕ → ℕ
segment_start va = va - va % page_size

abbrev pub segment_pages : ℕ → ℕ → ℕ
segment_pages va length =
    (round_up ((va + length) % 2 ^ 32) page_size - segment_start va) / page_size

whole_pages-reach :
    (va length top : ℕ)
    → top ≡ va + length + 4095
    → (va - va % 4096 ≤ va)
      × (va + length ≤ va - va % 4096 + 4096 * ((top - top % 4096 - (va - va % 4096)) / 4096))
whole_pages-reach va length top e = (omega arith, omega (arith, e))

segment_pages-reach :
    (va length : ℕ)
    → va + length + 4095 < 2 ^ 32
    → (segment_start va ≤ va)
      × (va + length ≤ segment_start va + page_size * segment_pages va length)
unfolding round_up
segment_pages-reach va length h = whole_pages-reach va length _ (omega (arith, h))

-- A call of MmMapSegment that returns, over pages that neither the boot code has mapped nor the page
-- table area holds, and that do not reach the end of the address space: whole pages from at or
-- below the address to at or above the end of the segment are mapped, each in a page table that is
-- there. No page outside has changed, no page table is gone, and the counts of all frames agree with
-- the entries that map them.
pub map_segment-PagesMapped :
    {kept : ℕ → ℕ} (current : Bool) (va length perm : ℕ) (m m' : Memory)
    → Accounted kept m
    → va + length + 4095 < 2 ^ 32
    → OrdinaryPages (segment_start va) (segment_pages va length)
    → perm < 4096
    → map_segment current va length perm m ≡ ok m'
    → (segment_start va ≤ va)
      × (va + length ≤ segment_start va + page_size * segment_pages va length)
      × PagesMapped kept (segment_start va) (segment_pages va length) m m'
unfolding map_segment
map_segment-PagesMapped current va length perm m m' a h os few e =
    let (lo, hi) = segment_pages-reach va length h in
    (
      lo,
      hi,
      map_pages-PagesMapped (segment_pages va length) current (segment_start va) perm m m' a os
          (omega arith) few e,
    )
