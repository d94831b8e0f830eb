-- ===== src/Mm/Ptes.antt =====
-- KaushOS/kern/mm/mm.c: runs of pages that a bitmap gives out, MmAllocateSystemPtes and its user mode
-- counterpart. The system's bitmap and that of each process stand for the memory that they lie in,
-- and the spin locks are taken and given back inside each operation.
pub mod Runs
pub mod Enough
pub mod RoundTrip
pub mod User
pub mod Boot
mod Examples
use kaush_os.Base.{
  ℕ, zero, suc, ◌+◌, ◌-◌, ◌*◌, ◌/◌, ◌%◌, ◌^◌, Bool, true, false, not, ◌&&◌, Option, none, some,
  ◌==◌, ltb, leb, if◌then◌else◌,
}
use kaush_os.Base.Outcome.{Outcome, ok, bug_check, assert, ◌>>=◌, ◌>>◌}
use kaush_os.Bitmap.{
  Bitmap, bitmap_error, bitmap_buffer_size, bitmap_create_in_buffer, bitmap_scan_and_flip,
  bitmap_set_multiple, bitmap_test,
}
use kaush_os.Mm.Pages.{
  Memory, page_size, table_size, kernel_base, user_top, is_page_aligned, virtual_alloc,
  virtual_free,
}
use kaush_os.Mm.Boot.{init_boot_alloc}

abbrev pub syspte_start : ℕ
syspte_start = kernel_base + 22 * table_size

abbrev pub syspte_size : ℕ
syspte_size = 64 * table_size

abbrev pub user_pool_size : ℕ
user_pool_size = 134217728

abbrev pub user_pool_start : ℕ
user_pool_start = user_top - user_pool_size

-- PTE_W, and PTE_W | PTE_U.
abbrev pub system_flags : ℕ
system_flags = 2

abbrev pub user_flags : ℕ
user_flags = 6

pub data KStatus : Type 0 where
  success insufficient_resources : KStatus

-- MmInitializeSystemPtes: the bitmap, and PtrToBootFreemem behind it. `memory` is what the words of
-- the block hold.
pub initialize_system_ptes : ℕ → ℕ → (ℕ → ℕ → Bool) → Outcome (Bitmap × ℕ)
initialize_system_ptes end boot_freemem memory = do
  let bit_count = syspte_size / page_size
  let buff_size = bitmap_buffer_size bit_count
  let (buffer, boot_freemem1) = init_boot_alloc end buff_size page_size boot_freemem
  b ← bitmap_create_in_buffer bit_count buff_size memory
  ok (b, boot_freemem1)

-- The address of the first of the pages, 0 for NULL, and what the bitmap and the memory become.
abbrev pub Ptes : Type 0
Ptes = ℕ × Bitmap × Memory

-- The pages of the bits that were found are mapped.
abbrev pub map_run : ℕ → ℕ → ℕ → Memory → ℕ × Bitmap → Outcome Ptes
map_run start flags number_of_pages m (page_index, b) =
    let memory = (start + page_size * page_index) % 2 ^ 32 in
    elim (page_index == bitmap_error) [
      | true ↦ ok (0, b, m)
      | false ↦ do
        m1 ← virtual_alloc memory (number_of_pages * page_size % 2 ^ 32) flags m
        ok (memory, b, m1)
    ]

abbrev pub allocate_ptes : ℕ → ℕ → ℕ → Bitmap → Memory → Outcome Ptes
allocate_ptes start flags number_of_pages b m = do
  found ← bitmap_scan_and_flip 0 number_of_pages false b
  map_run start flags number_of_pages m found

-- MmAllocateSystemPtes.
pub allocate_system_ptes : ℕ → Bitmap → Memory → Outcome Ptes
allocate_system_ptes number_of_pages b m =
    allocate_ptes syspte_start system_flags number_of_pages b m

-- MmAllocateUserPtes.
pub allocate_user_ptes : ℕ → Bitmap → Memory → Outcome Ptes
allocate_user_ptes number_of_pages b m =
    allocate_ptes user_pool_start user_flags number_of_pages b m

-- The bits are cleared and the pages unmapped.
abbrev pub free_run : ℕ → ℕ → ℕ → Bitmap → Memory → Outcome (Bitmap × Memory)
free_run start address number_of_pages b m = do
  b1 ← bitmap_set_multiple ((address - start) / page_size) number_of_pages false b
  m1 ← virtual_free address (number_of_pages * page_size % 2 ^ 32) m
  ok (b1, m1)

-- MmFreeSystemPtes.
pub free_system_ptes : ℕ → ℕ → Bitmap → Memory → Outcome (Bitmap × Memory)
free_system_ptes address number_of_pages b m = do
  assert (leb syspte_start address)
  assert (ltb address (syspte_start + syspte_size))
  assert (is_page_aligned address)
  free_run syspte_start address number_of_pages b m

-- The loop of MmFreeUserPtes that asserts `k` bits from bit `i`.
pub assert_bits : ℕ → ℕ → Bitmap → Outcome (Unit {0})
assert_bits zero i b = ok tt
assert_bits (suc k) i b = do bit ← bitmap_test i b; assert bit; assert_bits k (suc i) b

-- MmFreeUserPtes.
pub free_user_ptes : ℕ → ℕ → Bitmap → Memory → Outcome (Bitmap × Memory)
free_user_ptes address number_of_pages b m = do
  assert (leb user_pool_start address)
  assert (ltb address user_top)
  assert (is_page_aligned address)
  assert_bits number_of_pages ((address - user_pool_start) / page_size) b
  free_run user_pool_start address number_of_pages b m

-- The bitmap of a new process, in the page that was allocated for it.
abbrev pub new_user_bitmap :
    (Bitmap → Outcome Bitmap)
    → (ℕ → ℕ → Bool)
    → Ptes
    → Outcome (KStatus × Option Bitmap × Bitmap × Memory)
new_user_bitmap contents memory (buffer, b, m) = elim (buffer == 0) [
  | true ↦ ok (insufficient_resources, none, b, m)
  | false ↦ do
    created ← bitmap_create_in_buffer 0 page_size memory
    bitmap ← contents created
    ok (success, some bitmap, b, m)
]

-- MmInitializeUserPtes; `memory` is what the words of the new page hold.
pub initialize_user_ptes :
    (ℕ → ℕ → Bool) → Bitmap → Memory → Outcome (KStatus × Option Bitmap × Bitmap × Memory)
initialize_user_ptes memory b m = do
  page ← allocate_system_ptes 1 b m
  new_user_bitmap ok memory page
