-- ===== src/Mm/Temp.antt =====
-- KaushOS/kern/mm/mm.c: MmMapPageTemp and MmUnMapPageTemp, which map a frame for a short time in the
-- 4 megabytes from USERTEMP on.
pub mod Window
pub mod RoundTrip
mod Examples
use kaush_os.Base.{ℕ, zero, suc, ◌+◌, ◌*◌, Bool, true, false, ◌==◌, ◌!=◌, ltb, leb, some}
use kaush_os.Base.Outcome.{Outcome, ok, assert, ◌>>=◌, ◌>>◌}
use kaush_os.Mm.Pages.{
  Memory, KStatus, success, no_memory, page_size, table_size, valid, pte_index, pde_index,
  insert_page, remove_page,
}

abbrev pub user_temp : ℕ
user_temp = table_size

abbrev pub user_temp_end : ℕ
user_temp_end = user_temp + table_size

-- The end of MmMapPageTemp: the address, or 0 for NULL.
abbrev pub temp_address : ℕ → KStatus × Memory → ℕ × Memory
temp_address va (success, m) = (va, m)
temp_address va (no_memory, m) = (0, m)

unfoldable pub map_temp_at : ℕ → ℕ → Memory → Outcome (ℕ × Memory)
map_temp_at va page m = do r ← insert_page true va (some page) 2 m; ok (temp_address va r)

-- The loop of MmMapPageTemp over `k` pages.
unfoldable pub search_temp : ℕ → ℕ → ℕ → Memory → Outcome (ℕ × Memory)
search_temp zero va page m = ok (0, m)
search_temp (suc k) va page m = elim (valid (m.entries (pte_index va))) [
  | true ↦ search_temp k (va + page_size) page m
  | false ↦ map_temp_at va page m
]

-- MmMapPageTemp.
unfoldable pub map_page_temp : ℕ → Memory → Outcome (ℕ × Memory)
map_page_temp page m = elim (valid (m.entries (pde_index user_temp))) [
  | true ↦ search_temp 1024 user_temp page m
  | false ↦ map_temp_at user_temp page m
]

-- MmUnMapPageTemp.
unfoldable pub unmap_page_temp : ℕ → ℕ → Memory → Outcome Memory
unmap_page_temp va page m = do
  assert (leb user_temp va)
  assert (ltb va user_temp_end)
  m1 ← remove_page true va m
  assert (m1.ref_count page != 0)
  ok m1
