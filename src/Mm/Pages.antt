-- ===== src/Mm/Pages.antt =====
-- KaushOS/kern/mm/mm.c: page frames and the page tables of the current address space. The entry of
-- the page directory for the page table area is the directory itself, so all entries of all tables
-- lie in one array of words: the entry of an address x is number x / 2 ^ 12, and the directory's
-- entry for x is number 0xC0000 + x / 2 ^ 22, which is the entry of the table that x uses. The
-- permissions that a caller gives are below 2 ^ 12, where `|` with the address of a frame is a sum.
-- A frame is its number in PfnDataBase. The translation cache is not modelled, and neither are the
-- contents of pages that are no page tables.
pub mod Counting
pub mod Accounting
pub mod Remove
pub mod Allocate
pub mod Table
pub mod Insert
pub mod Segments
pub mod Progress
pub mod Enough
pub mod Virtual
pub mod Free
pub mod Examples
use kaush_os.Base.{
  ℕ, zero, suc, ◌+◌, ◌-◌, ◌*◌, ◌/◌, ◌%◌, ◌^◌, Bool, true, false, not, ◌&&◌, ◌||◌, List, [], ◌∷◌,
  Option, none, some, ◌==◌, ◌!=◌, ltb, leb, if◌then◌else◌,
}
use kaush_os.Base.Outcome.{Outcome, ok, bug_check, assert, ◌>>=◌, ◌>>◌}
use kaush_os.Mm.Pool.{round_up}

abbrev pub page_size : ℕ
page_size = 4096

-- PTSIZE, what the pages of one table map.
abbrev pub table_size : ℕ
table_size = 4194304

abbrev pub kernel_base : ℕ
kernel_base = 2147483648

abbrev pub user_top : ℕ
user_top = kernel_base - table_size

-- The number of the first entry of the page directory.
abbrev pub directory_base : ℕ
directory_base = 786432

-- PTE_P | PTE_W | PTE_U and PTE_P | PTE_W.
abbrev pub user_table_flags : ℕ
user_table_flags = 7

abbrev pub kernel_table_flags : ℕ
kernel_table_flags = 3

pub data KStatus : Type 0 where
  success no_memory : KStatus

-- `ref_count` and `pte_address` are the fields of the MMPFN of a frame; `testing_on` is
-- MemManagerTestingON.
pub record Memory : Type 0 where
  pub ref_count : ℕ → ℕ
  pub pte_address : ℕ → ℕ
  pub pfn_free_list : List ℕ
  pub entries : ℕ → ℕ
  pub testing_on : Bool

-- MmGetPteAddress and MmGetPdeAddress, as numbers of entries.
abbrev pub pte_index : ℕ → ℕ
pte_index va = va / page_size

abbrev pub pde_index : ℕ → ℕ
pde_index va = directory_base + va / table_size

-- The bit Valid of an entry, and its PageFrameNumber.
abbrev pub valid : ℕ → Bool
valid e = e % 2 == 1

abbrev pub frame_of : ℕ → ℕ
frame_of e = e / page_size

-- `| PTE_P`.
abbrev pub or_present : ℕ → ℕ
or_present perm = if perm % 2 == 1 then perm else perm + 1

-- MiPFNtoPhysicalAddress(pfn) | flags.
abbrev pub entry_for : ℕ → ℕ → ℕ
entry_for f flags = f * page_size % 2 ^ 32 + flags

abbrev pub is_user_address : ℕ → Bool
is_user_address va = ltb va user_top

abbrev pub is_page_aligned : ℕ → Bool
is_page_aligned va = va % page_size == 0

abbrev pub set_entry : ℕ → ℕ → Memory → Memory
set_entry i e m = record m { entries = λ j. if j == i then e else m.entries j }

abbrev pub set_ref_count : ℕ → ℕ → Memory → Memory
set_ref_count f n m = record m { ref_count = λ g. if g == f then n else m.ref_count g }

-- MmAllocatePFN; `none` is STATUS_NO_MEMORY.
abbrev take_head : ℕ → Memory → List ℕ → Option (ℕ × Memory)
take_head pte m [] = none
take_head pte m (f ∷ fs) =
    some (
      f,
      record m { pfn_free_list = fs; pte_address = λ g. if g == f then pte else m.pte_address g },
    )

unfoldable pub allocate_pfn : ℕ → Memory → Option (ℕ × Memory)
allocate_pfn pte m = take_head pte m m.pfn_free_list

-- MiFreePFN.
pub free_pfn : ℕ → Memory → Outcome Memory
free_pfn f m = do assert (m.ref_count f == 0); ok (record m { pfn_free_list = f ∷ m.pfn_free_list })

-- MiIncReferencePFN and MiDecReferencePFN, on a 32-bit count.
unfoldable pub inc_reference_pfn : ℕ → Memory → Memory
inc_reference_pfn f m = set_ref_count f ((m.ref_count f + 1) % 2 ^ 32) m

abbrev pub free_at_zero : ℕ → ℕ → Memory → Outcome Memory
free_at_zero f zero m = free_pfn f m
free_at_zero f (suc n) m = ok m

pub dec_reference_pfn : ℕ → Memory → Outcome Memory
dec_reference_pfn f m =
    let n = (m.ref_count f + 2 ^ 32 - 1) % 2 ^ 32 in free_at_zero f n (set_ref_count f n m)

-- MiRemovePage; `current` is IsCurrentPageDirectory(PageDirectory), for a directory that is not NULL.
pub remove_page : Bool → ℕ → Memory → Outcome Memory
remove_page current va m = do
  assert (is_page_aligned va)
  assert (if not current && is_user_address va then m.testing_on else true)
  assert (valid (m.entries (pde_index va)) && valid (m.entries (pte_index va)))
  m1 ← dec_reference_pfn (frame_of (m.entries (pte_index va))) m
  ok (set_entry (pte_index va) 0 m1)

-- memset(ROUNDDOWN(Pte, PGSIZE), 0, PGSIZE).
abbrev pub zero_table : ℕ → Memory → Memory
zero_table va m = record m { entries = λ j. if j / 1024 == va / table_size then 0 else m.entries j }

-- The page table that MiInsertPage adds, in a frame that it has taken.
abbrev pub install_table : ℕ → ℕ → Memory → Memory
install_table va f m =
    let m1 = inc_reference_pfn f m in
    let flags = if is_user_address va then user_table_flags else kernel_table_flags in
    zero_table va (set_entry (pde_index va) (entry_for f flags) m1)

-- The first part of MiInsertPage: the entry of the directory is made valid.
unfoldable pub insert_table : ℕ → Memory → Outcome (KStatus × Memory)
insert_table va m = elim (valid (m.entries (pde_index va))) [
  | true ↦ ok (success, m)
  | false ↦ do
    assert (is_user_address va)
    elim (allocate_pfn (pde_index va) m) [
      | none ↦ ok (no_memory, m)
      | some (f, m1) ↦ ok (success, install_table va f m1)
    ]
]

-- The last part of MiInsertPage: frame `f` is mapped, unless the page's entry has it already.
unfoldable pub insert_frame : Bool → ℕ → ℕ → ℕ → Memory → Outcome (KStatus × Memory)
insert_frame current va f perm m =
    let pte = m.entries (pte_index va) in
    elim (frame_of pte == f) [
      | true ↦ ok (success, m)
      | false ↦ do
        m1 ← elim (pte != 0) [ true ↦ remove_page current va m | false ↦ ok m ]
        ok (
          success,
          inc_reference_pfn f (set_entry (pte_index va) (entry_for f (or_present perm)) m1),
        )
    ]

-- The frame that the caller gives, or a new one where it gives NULL.
unfoldable pub page_frame : ℕ → Option ℕ → Memory → Option (ℕ × Memory)
page_frame va (some f) m = some (f, m)
page_frame va none m = allocate_pfn (pte_index va) m

-- MiInsertPage after its first part.
unfoldable pub insert_rest : Bool → ℕ → Option ℕ → ℕ → KStatus × Memory → Outcome (KStatus × Memory)
insert_rest current va pfn perm (no_memory, m) = ok (no_memory, m)
insert_rest current va pfn perm (success, m) = elim (page_frame va pfn m) [
  | none ↦ ok (no_memory, m)
  | some (f, m1) ↦ insert_frame current va f perm m1
]

-- MiInsertPage.
unfoldable pub insert_page : Bool → ℕ → Option ℕ → ℕ → Memory → Outcome (KStatus × Memory)
insert_page current va pfn perm m = do
  assert (current || not (is_user_address va))
  tabled ← insert_table va m
  insert_rest current va pfn perm tabled

-- The callers of MiInsertPage below stop the kernel where it fails.
abbrev pub require_success : KStatus × Memory → Outcome Memory
require_success (success, m) = ok m
require_success (no_memory, m) = bug_check

-- A new frame for a page; the loops below do not go on without it.
unfoldable pub map_new_page : Bool → ℕ → ℕ → Memory → Outcome Memory
map_new_page current va perm m = elim (allocate_pfn (pte_index va) m) [
  | none ↦ bug_check
  | some (f, m1) ↦ do r ← insert_page current va (some f) perm m1; require_success r
]

-- The loops of MmMapSegment and MmVirtualAlloc over `k` pages.
unfoldable pub map_pages : ℕ → Bool → ℕ → ℕ → Memory → Outcome Memory
map_pages zero current va perm m = ok m
map_pages (suc k) current va perm m = do
  m1 ← map_new_page current va perm m
  map_pages k current ((va + page_size) % 2 ^ 32) perm m1

abbrev pub page_count : ℕ → ℕ
page_count size = round_up size page_size / page_size

-- MmMapSegment.
pub map_segment : Bool → ℕ → ℕ → ℕ → Memory → Outcome Memory
map_segment current va length perm m =
    let va_start = va - va % page_size in
    let va_end = round_up ((va + length) % 2 ^ 32) page_size in
    map_pages ((va_end - va_start) / page_size) current va_start perm m

-- MmVirtualAlloc, for the current directory. A failure is a failed assertion, so the code that
-- would clean up is never reached.
unfoldable pub virtual_alloc : ℕ → ℕ → ℕ → Memory → Outcome Memory
virtual_alloc va size perm m = map_pages (page_count size) true va (or_present perm) m

-- The loop of MmVirtualFree over `k` pages.
pub free_pages : ℕ → ℕ → Memory → Outcome Memory
free_pages zero va m = ok m
free_pages (suc k) va m = do m1 ← remove_page true va m; free_pages k ((va + page_size) % 2 ^ 32) m1

-- MmVirtualFree.
pub virtual_free : ℕ → ℕ → Memory → Outcome Memory
virtual_free va size m = free_pages (page_count size) va m
