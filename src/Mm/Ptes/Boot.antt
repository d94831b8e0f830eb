-- ===== src/Mm/Ptes/Boot.antt =====
-- MmInitializeSystemPtes, and the last frame of the boot allocator.
use kaush_os.Base.{
  ℕ, ◌+◌, ◌-◌, ◌/◌, ◌%◌, ◌^◌, ◌≤◌, ◌<◌, ◌≡◌, sym, ap, ◌∙◌, subst, Bool, false, ◌==◌, if◌then◌else◌,
  arith, ◌∈◌,
}
use kaush_os.Base.Outcome.{ok, ok-injective, >>=-ok}
use kaush_os.Bitmap.{
  Bitmap, bitmap_buffer_size, bitmap_create_in_buffer, bitmap_set_all, byte_count, element_count,
}
use kaush_os.Bitmap.Ranges.{bit, bitmap_set_multiple-Filled}
use kaush_os.Mm.Pool.{round_up}
use kaush_os.Mm.Pages.{Memory, page_size, kernel_base}
use kaush_os.Mm.Boot.{init_boot_alloc, init_pfn_database}
use kaush_os.Mm.Boot.Frames.{init_pfn_database-free, first_free_page}
use kaush_os.Mm.Ptes.{initialize_system_ptes}

-- PtrToBootFreemem behind the bitmap of 8200 bytes.
abbrev pub freemem_behind : ℕ → ℕ → ℕ
freemem_behind end boot_freemem =
    (round_up (if boot_freemem == 0 then end else boot_freemem) page_size + 8200) % 2 ^ 32

aligned_block : (t : ℕ) → (t - t % 4096 + 8200) % 2 ^ 32 % 4096 ≡ 8
aligned_block t = omega arith

freemem_behind-mod : (end boot_freemem : ℕ) → freemem_behind end boot_freemem % 4096 ≡ 8
unfolding round_up
freemem_behind-mod end boot_freemem =
    aligned_block (((if boot_freemem == 0 then end else boot_freemem) + page_size - 1) % 2 ^ 32)

-- MmInitializeSystemPtes returns a bitmap with a bit for each of the 65536 pages of its range, none
-- of them set.
pub initialize_system_ptes-clear :
    (end boot_freemem : ℕ) (memory : ℕ → ℕ → Bool)
    → (b : Bitmap) × (initialize_system_ptes end boot_freemem memory
        ≡ ok (b, freemem_behind end boot_freemem))
      × (b.bit_count ≡ 65536)
      × ((j : ℕ) → j < 65536 → bit b j ≡ false)
unfolding initialize_system_ptes init_boot_alloc bitmap_buffer_size byte_count element_count
    bitmap_create_in_buffer bitmap_set_all
initialize_system_ptes-clear end boot_freemem memory =
    let b0 : Bitmap = record { bit_count = 65536; bits = memory } in
    let (b, e, f) = bitmap_set_multiple-Filled 0 65536 false b0 (omega arith) (omega arith) in
    (b, >>=-ok _ e, f.size, λ j lt. ground (arith, f.value j, lt))

-- The page that holds the last byte of the bitmap of MmInitializeSystemPtes, which the boot allocator
-- has placed at or above one megabyte behind KERNBASE, is on the free list that MmInitPFNDataBase
-- makes of the memory behind it.
pub init_pfn_database-bitmap_frame :
    (end boot_freemem : ℕ) (memory : ℕ → ℕ → Bool) (b : Bitmap) (freemem : ℕ) (m m' : Memory)
    → initialize_system_ptes end boot_freemem memory ≡ ok (b, freemem)
    → kernel_base + 1048576 ≤ freemem
    → init_pfn_database freemem m ≡ ok m'
    → ((freemem - 1 - kernel_base) / page_size) ∈ m'.pfn_free_list
init_pfn_database-bitmap_frame end boot_freemem memory b freemem m m' e le e1 =
    let (b', e2, _, _) = initialize_system_ptes-clear end boot_freemem memory in
    let at : freemem ≡ freemem_behind end boot_freemem =
      ap (λ (x : Bitmap × ℕ). x.1) (ok-injective (sym e ∙ e2)) in
    let rest : freemem % 4096 ≡ 8 =
      ap (λ (x : ℕ). x % 4096) at ∙ freemem_behind-mod end boot_freemem in
    let same : (freemem - 1 - kernel_base) / page_size ≡ first_free_page freemem =
      omega (arith, rest, le) in
    subst (λ (x : ℕ). x ∈ m'.pfn_free_list) (sym same) (init_pfn_database-free freemem m m' le e1)
