-- ===== src/Mm/Boot.antt =====
-- KaushOS/kern/mm/mm.c: the boot allocator, and MmInitPFNDataBase, which makes the free list of the
-- page frames. An address of PtrToBootFreemem is a number, and 0 is NULL.
pub mod Frames
mod Examples
use kaush_os.Base.{
  ℕ, zero, suc, ◌+◌, ◌-◌, ◌*◌, ◌/◌, ◌%◌, ◌^◌, ◌≤◌, ◌<◌, ◌≡◌, refl, sym, ap, ◌∙◌, subst, Bool, true,
  false, not, ◌&&◌, ◌||◌, ◌==◌, ◌!=◌, ltb, leb, if◌then◌else◌, Bool-cases, inl, inr, ◌⊎◌, eqb→eq,
  arith, List, [], ◌∷◌, ◌++◌, has, ◌∈◌, ◌∉◌, Distinct, Option, none, some, Distinct-snoc,
  has-append,
}
use kaush_os.Base.Outcome.{Outcome, ok, bug_check, assert, ◌>>=◌, ◌>>◌, ok-injective, assert_then}
use kaush_os.Mm.Pool.{round_up}
use kaush_os.Mm.Pages.{Memory, page_size, table_size, kernel_base, set_ref_count, valid}
use kaush_os.Mm.Pages.Counting.{is_boot_entry, references}
use kaush_os.Mm.Pages.Accounting.{entry_count, AbsentZero, Accounted}

-- basemem / PGSIZE, EXTPHYSMEM / PGSIZE and MaxPA / PGSIZE, of x86CalcRam.
abbrev pub base_pages : ℕ
base_pages = 160

abbrev pub extended_page : ℕ
extended_page = 256

abbrev pub number_of_physical_pages : ℕ
number_of_physical_pages = 65536

-- MiInitBootAlloc: the block, and PtrToBootFreemem behind it; `end` is the end of the kernel's image.
unfoldable pub init_boot_alloc : ℕ → ℕ → ℕ → ℕ → ℕ × ℕ
init_boot_alloc end num_bytes align boot_freemem =
    let start = round_up (if boot_freemem == 0 then end else boot_freemem) align in
    (start, (start + num_bytes) % 2 ^ 32)

-- MiBootVA2PA.
unfoldable pub boot_va_to_pa : ℕ → Outcome ℕ
boot_va_to_pa va = do assert (leb kernel_base va); ok (va - kernel_base)

-- `k` frames from frame `f` are in use.
pub mark_in_use : ℕ → ℕ → Memory → Memory
mark_in_use zero f m = m
mark_in_use (suc k) f m = mark_in_use k (suc f) (set_ref_count f 1 m)

-- `k` frames from frame `f` are free, LIST_INSERT_TAIL.
pub add_free : ℕ → ℕ → Memory → Memory
add_free zero f m = m
add_free (suc k) f m =
    let m1 = set_ref_count f 0 m in
    add_free k (suc f) (record m1 { pfn_free_list = m.pfn_free_list ++ f ∷ [] })

-- MmInitPFNDataBase.
unfoldable pub init_pfn_database : ℕ → Memory → Outcome Memory
init_pfn_database boot_freemem m = do
  let m1 = set_ref_count 0 1 (record m { pfn_free_list = [] })
  let m2 = mark_in_use (base_pages - 1) 1 m1
  let m3 = mark_in_use (extended_page - base_pages) base_pages m2
  assert (ltb boot_freemem (kernel_base + table_size))
  pa ← boot_va_to_pa boot_freemem
  let first = pa / page_size
  let m4 = mark_in_use (first - extended_page) extended_page m3
  ok (add_free (number_of_physical_pages - first) first m4)
