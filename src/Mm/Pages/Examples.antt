-- ===== src/Mm/Pages/Examples.antt =====
-- A memory with four free frames, in which only the page tables of the kernel are mapped.
use kaush_os.Base.{
  some, ◌/◌, ◌⊎◌, inr, length, ℕ, ◌+◌, ◌*◌, ◌≤◌, ◌<◌, ◌≡◌, refl, true, false, arith, [], ◌∷◌, ◌&&◌,
  ◌==◌, ltb, leb, if◌then◌else◌,
}
use kaush_os.Base.Outcome.{Outcome, ok}
use kaush_os.Mm.Pool.{round_up}
use kaush_os.Mm.Pages.{
  Memory, KStatus, no_memory, insert_page, virtual_alloc, virtual_free, page_count, insert_table,
  insert_rest, insert_frame, page_frame, allocate_pfn, inc_reference_pfn, map_pages, map_new_page,
}
use kaush_os.Mm.Pages.Insert.{InsertResult, insert_page-InsertResult}
use kaush_os.Mm.Pages.Progress.{HasTable}
use kaush_os.Mm.Pages.Enough.{virtual_alloc-Returns}
use kaush_os.Mm.Pages.Free.{virtual_free-virtual_alloc}
use kaush_os.Mm.Pages.Counting.{is_boot_entry}
use kaush_os.Mm.Pages.Accounting.{Accounted, Ordinary, references_boot, entry_count}
use kaush_os.Mm.Pages.Allocate.{Held}
use kaush_os.Mm.Pages.Segments.{OrdinaryPages, PagesMapped}

-- The page tables of the kernel all stand in frame 5.
abbrev pub calm_entries : ℕ → ℕ
calm_entries i = if leb 786944 i && ltb i 787456 then 20483 else 0

abbrev pub kept : ℕ → ℕ
kept f = if f == 0 then 1 else 0

abbrev pub calm : Memory
calm = record {
  ref_count = kept;
  pte_address = λ f. 0;
  pfn_free_list = 300 ∷ 301 ∷ 302 ∷ 303 ∷ [];
  entries = calm_entries;
  testing_on = false;
}

pub only_boot : (i : ℕ) → is_boot_entry i ≡ false → calm_entries i ≡ 0
unfolding is_boot_entry
only_boot i h = ground (arith, h)

pub calm-Accounted : Accounted kept calm
calm-Accounted = record {
  counted = λ f. omega (arith, references_boot 1048576 f calm_entries only_boot);
  zero_kept = omega arith;
  small = λ f. ground arith;
  free = λ f h. ground (arith, h);
  distinct = ground arith;
  in_range = λ f h. ground (arith, h);
  words = λ i. ground arith;
  absent = λ i lt h. ground (arith, h, lt);
  self_map = refl;
  clean = λ i h. ground (arith, h);
}

-- The user address of 4 megabytes.
user_page : Ordinary 4194304
unfolding is_boot_entry
user_page = record { below = omega arith; not_boot = refl; not_table = refl }

user_pages : (k : ℕ) → k ≤ 4 → OrdinaryPages 4194304 k
unfolding is_boot_entry
user_pages k few p lt = record {
  below = omega (arith, lt, few);
  not_boot = ground (arith, lt, few);
  not_table = ground (arith, lt, few);
}

abbrev result : Outcome (KStatus × Memory) → KStatus × Memory
result (ok r) = r
result x = (no_memory, calm)

abbrev memory_of : Outcome Memory → Memory
memory_of (ok m) = m
memory_of x = calm

-- Frame 310 is mapped at the address.
abbrev pub inserted : KStatus × Memory
inserted = result (insert_page true 4194304 (some 310) 6 calm)

insert_ok : insert_page true 4194304 (some 310) 6 calm ≡ ok inserted
unfolding insert_page insert_table insert_rest insert_frame page_frame allocate_pfn
    inc_reference_pfn
insert_ok = refl

pub held : Held 310 calm
held = record { out = refl; bound = omega arith; nonzero = refl }

insert_page-InsertResult_example : InsertResult kept 4194304 310 calm inserted
insert_page-InsertResult_example =
    insert_page-InsertResult true 4194304 310 6 calm inserted calm-Accounted user_page held
      (omega arith) insert_ok

pub inserted-Accounted : Accounted kept inserted.1
unfolding insert_page insert_table insert_rest insert_frame page_frame allocate_pfn
    inc_reference_pfn
inserted-Accounted =
    (insert_page-InsertResult true 4194304 310 6 calm inserted calm-Accounted user_page held
      (omega arith) insert_ok).accounted

two_pages : page_count 8192 ≡ 2
unfolding round_up
two_pages = refl

pages : OrdinaryPages 4194304 (page_count 8192)
unfolding round_up
pages = user_pages 2 (omega arith)

tables : (p : ℕ) → p < page_count 8192 → HasTable (4194304 + p * 4096) calm
unfolding round_up
tables p lt = inr (ground (arith, lt))

enough : 2 * page_count 8192 ≤ length calm.pfn_free_list
unfolding round_up
enough = omega arith

abbrev mapped : Outcome Memory
mapped = virtual_alloc 4194304 8192 6 calm

mapped_ok : mapped ≡ ok (memory_of mapped)
unfolding virtual_alloc map_pages map_new_page insert_page insert_table insert_rest insert_frame
    page_frame allocate_pfn inc_reference_pfn round_up
mapped_ok = refl

virtual_alloc-Returns_example :
    (m' : Memory) × (virtual_alloc 4194304 8192 6 calm ≡ ok m')
    × PagesMapped kept 4194304 (page_count 8192) calm m'
virtual_alloc-Returns_example =
    virtual_alloc-Returns 4194304 8192 6 calm calm-Accounted pages refl (omega arith) tables enough

virtual_free-virtual_alloc_example :
    (m2 : Memory) × (virtual_free 4194304 8192 (memory_of mapped) ≡ ok m2)
    × Accounted kept m2
    × ((p : ℕ) → p < page_count 8192 → m2.entries (1024 + p) ≡ 0)
    × ((j : ℕ)
        → j < entry_count
        → (j / 1024 == 768) ≡ false
        → (j < 1024) ⊎ (1024 + page_count 8192 ≤ j)
        → m2.entries j ≡ calm.entries j)
virtual_free-virtual_alloc_example =
    virtual_free-virtual_alloc 4194304 8192 6 calm (memory_of mapped) calm-Accounted pages refl
      (omega arith) mapped_ok
