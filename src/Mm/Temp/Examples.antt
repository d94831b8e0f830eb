-- ===== src/Mm/Temp/Examples.antt =====
-- Frame 310 in a memory without a page table for the window, and where its first page has the frame.
use kaush_os.Base.{ℕ, ◌≡◌, refl, arith}
use kaush_os.Base.Outcome.{Outcome, ok}
use kaush_os.Mm.Pages.{
  Memory, insert_page, insert_table, insert_rest, insert_frame, page_frame, allocate_pfn,
  inc_reference_pfn,
}
use kaush_os.Mm.Pages.Allocate.{Held}
use kaush_os.Mm.Pages.Examples.{calm, calm-Accounted, kept, held, inserted, inserted-Accounted}
use kaush_os.Mm.Temp.{map_page_temp, map_temp_at, search_temp, unmap_page_temp, user_temp}
use kaush_os.Mm.Temp.Window.{TempResult, map_page_temp-TempResult}
use kaush_os.Mm.Temp.RoundTrip.{Unmapped, unmap_page_temp-map_page_temp}

map_page_temp-TempResult_example :
    (r : ℕ × Memory) × (map_page_temp 310 calm ≡ ok r) × TempResult kept user_temp 1024 310 calm r
map_page_temp-TempResult_example = map_page_temp-TempResult 310 calm calm-Accounted held

held_twice : Held 310 inserted.1
unfolding insert_page insert_table insert_rest insert_frame page_frame allocate_pfn
    inc_reference_pfn
held_twice = record { out = refl; bound = omega arith; nonzero = refl }

abbrev memory_of : Outcome (ℕ × Memory) → Memory
memory_of (ok r) = r.1
memory_of x = calm

abbrev with_temp : Memory
with_temp = memory_of (map_page_temp 310 inserted.1)

second_page : map_page_temp 310 inserted.1 ≡ ok (4198400, with_temp)
unfolding map_page_temp search_temp map_temp_at insert_page insert_table insert_rest insert_frame
    page_frame allocate_pfn inc_reference_pfn
second_page = refl

two_references : with_temp.ref_count 310 ≡ 2
unfolding map_page_temp search_temp map_temp_at insert_page insert_table insert_rest insert_frame
    page_frame allocate_pfn inc_reference_pfn
two_references = refl

unmap_page_temp-map_page_temp_example :
    (m2 : Memory) × (unmap_page_temp 4198400 310 with_temp ≡ ok m2)
    × Unmapped kept 4198400 310 inserted.1 with_temp m2
unmap_page_temp-map_page_temp_example =
    unmap_page_temp-map_page_temp 310 4198400 inserted.1 with_temp inserted-Accounted held_twice
      second_page refl (omega (arith, two_references))
