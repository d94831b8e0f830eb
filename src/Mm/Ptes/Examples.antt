-- ===== src/Mm/Ptes/Examples.antt =====
-- One page of the system's range and of the user mode pool, from bitmaps without a set bit.
use kaush_os.Base.{true, ◌≤◌, ◌+◌, ◌-◌, ◌/◌, ◌∈◌, ℕ, ◌≡◌, refl, false, arith, inl}
use kaush_os.Base.Outcome.{Outcome, ok}
use kaush_os.Bitmap.{
  Bitmap, bitmap_scan_and_flip, bitmap_scan, scan_from, bitmap_contains, contains_from, bitmap_test,
  bitmap_set_multiple, set_from, bitmap_set, bitmap_mark,
}
use kaush_os.Mm.Pool.{round_up}
use kaush_os.Mm.Boot.{init_pfn_database, boot_va_to_pa}
use kaush_os.Mm.Ptes.Boot.{
  freemem_behind, initialize_system_ptes-clear, init_pfn_database-bitmap_frame,
}
use kaush_os.Mm.Pages.{
  kernel_base, page_size, Memory, virtual_alloc, map_pages, map_new_page, insert_page, insert_table,
  insert_rest, insert_frame, page_frame, allocate_pfn, inc_reference_pfn,
}
use kaush_os.Mm.Pages.Examples.{calm, calm-Accounted, kept}
use kaush_os.Mm.Ptes.{Ptes, allocate_system_ptes, free_system_ptes, syspte_start}
use kaush_os.Mm.Ptes.Runs.{RunResult}
use kaush_os.Mm.Ptes.Enough.{Enough, allocate_system_ptes-Returns}
use kaush_os.Mm.Ptes.RoundTrip.{Restored, free_system_ptes-allocate_system_ptes}

abbrev clear : ℕ → Bitmap
clear n = record { bit_count = n; bits = λ w p. false }

abbrev result : Outcome Ptes → Ptes
result (ok r) = r
result x = (0, clear 0, calm)

system-Enough : Enough syspte_start 65536 1 calm
system-Enough = record { tables = λ i lt. inl (ground (arith, lt)); frames = omega arith }

allocate_system_ptes-Returns_example :
    (r : Ptes) × (allocate_system_ptes 1 (clear 65536) calm ≡ ok r)
    × RunResult kept syspte_start 1 (clear 65536) calm r
allocate_system_ptes-Returns_example =
    allocate_system_ptes-Returns 1 (clear 65536) calm (omega arith) calm-Accounted system-Enough

abbrev system_page : Ptes
system_page = result (allocate_system_ptes 1 (clear 65536) calm)

system_ok :
    allocate_system_ptes 1 (clear 65536) calm ≡ ok (syspte_start, system_page.1, system_page.2)
unfolding allocate_system_ptes virtual_alloc map_pages map_new_page insert_page insert_table
    insert_rest insert_frame page_frame allocate_pfn inc_reference_pfn round_up bitmap_scan_and_flip
    bitmap_scan scan_from bitmap_contains contains_from bitmap_test bitmap_set_multiple set_from
    bitmap_set bitmap_mark
system_ok = refl

free_system_ptes-allocate_system_ptes_example :
    (r : Bitmap × Memory) × (free_system_ptes syspte_start 1 system_page.1 system_page.2 ≡ ok r)
    × Restored kept syspte_start 1 (clear 65536) calm r
free_system_ptes-allocate_system_ptes_example =
    free_system_ptes-allocate_system_ptes 1 syspte_start (clear 65536) system_page.1 calm
      system_page.2 (omega arith) (omega arith) calm-Accounted system_ok refl

-- The kernel's image ends 1300 kilobytes into its space, and the bitmap comes first.
abbrev image_end : ℕ
image_end = kernel_base + 1331200

abbrev made_bitmap : Bitmap
made_bitmap = (initialize_system_ptes-clear image_end 0 (λ w p. true)).0

abbrev memory_of : Outcome Memory → Memory
memory_of (ok m) = m
memory_of x = calm

behind : kernel_base + 1048576 ≤ freemem_behind image_end 0
unfolding round_up
behind = omega arith

booted :
    init_pfn_database (freemem_behind image_end 0) calm
    ≡ ok (memory_of (init_pfn_database (freemem_behind image_end 0) calm))
unfolding init_pfn_database boot_va_to_pa round_up
booted = refl

init_pfn_database-bitmap_frame_example :
    ((freemem_behind image_end 0 - 1 - kernel_base) / page_size)
    ∈ (memory_of (init_pfn_database (freemem_behind image_end 0) calm)).pfn_free_list
init_pfn_database-bitmap_frame_example =
    init_pfn_database-bitmap_frame image_end 0 (λ w p. true) made_bitmap
      (freemem_behind image_end 0) calm _ (initialize_system_ptes-clear image_end 0 (λ w p. true)).1
      behind booted
