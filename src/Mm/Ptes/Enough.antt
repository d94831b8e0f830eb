-- ===== src/Mm/Ptes/Enough.antt =====
-- MmAllocateSystemPtes and MmAllocateUserPtes return where there are enough frames.
use kaush_os.Base.{
  ℕ, ◌+◌, ◌*◌, ◌%◌, ◌^◌, ◌≤◌, ◌<◌, ◌≡◌, refl, ◌∙◌, subst, true, false, ◌==◌, inl, inr, arith,
  length,
}
use kaush_os.Base.Outcome.{ok, >>=-ok}
use kaush_os.Bitmap.{Bitmap, bitmap_error}
use kaush_os.Bitmap.Scan.{bitmap_scan_and_flip-FlipResult}
use kaush_os.Mm.Pages.{Memory, page_count, page_size, virtual_alloc}
use kaush_os.Mm.Pages.Accounting.{Accounted}
use kaush_os.Mm.Pages.Segments.{OrdinaryPages}
use kaush_os.Mm.Pages.Progress.{HasTable}
use kaush_os.Mm.Pages.Enough.{virtual_alloc-Returns}
use kaush_os.Mm.Ptes.{
  Ptes, map_run, allocate_ptes, allocate_system_ptes, allocate_user_ptes, syspte_start,
  user_pool_start, system_flags, user_flags,
}
use kaush_os.Mm.Ptes.Runs.{
  RunResult, PageRange, page_count_pages, system_range, user_range, run_pages,
  allocate_ptes-RunResult,
}

-- Enough frames for the run, and the page tables of the range.
pub record Enough (start count n : ℕ) (m : Memory) : Type 0 where
  pub tables : (i : ℕ) → i < count → HasTable (start + 4096 * i) m
  pub frames : 2 * n ≤ length m.pfn_free_list

run_mapped :
    {kept : ℕ → ℕ} (start count flags i n : ℕ) (m : Memory)
    → PageRange start count
    → i + n ≤ count
    → flags < 4096
    → Accounted kept m
    → Enough start count n m
    → (m1 : Memory) × (virtual_alloc
          ((start + page_size * i) % 2 ^ 32)
          (n * page_size % 2 ^ 32)
          flags
          m
        ≡ ok m1)
run_mapped start count flags i n m range fits low a enough =
    let memory = (start + page_size * i) % 2 ^ 32 in
    let at : memory ≡ start + 4096 * i = omega (arith, fits, range.ends) in
    let pages = page_count_pages n (omega (arith, fits, range.few)) in
    let os : OrdinaryPages memory (page_count (n * page_size % 2 ^ 32)) =
      rw (pages, at) (run_pages start count i n range fits) in
    let tables : (p : ℕ)
        → p < page_count (n * page_size % 2 ^ 32)
        → HasTable (memory + p * 4096) m =
      rw (pages, at)
        (λ p lt.
          subst (λ (x : ℕ). HasTable x m) (omega arith)
            (enough.tables (i + p) (omega (arith, lt, fits)))) in
    let (m1, e, _) =
      virtual_alloc-Returns memory (n * page_size % 2 ^ 32) flags m a os
        (omega (arith, at, range.aligned)) low tables (omega (arith, pages, enough.frames)) in
    (m1, e)

allocate_ptes-Returns :
    {kept : ℕ → ℕ} (start count flags n : ℕ) (b : Bitmap) (m : Memory)
    → PageRange start count
    → b.bit_count ≤ count
    → flags < 4096
    → Accounted kept m
    → Enough start count n m
    → (r : Ptes) × (allocate_ptes start flags n b m ≡ ok r) × RunResult kept start n b m r
allocate_ptes-Returns start count flags n b m range le low a enough =
    let small : b.bit_count < bitmap_error = omega (arith, le, range.few) in
    let ((i, b1), e1, flipped) = bitmap_scan_and_flip-FlipResult 0 n false b small (omega arith) in
    let result = λ (r : Ptes) (e : allocate_ptes start flags n b m ≡ ok r).
      allocate_ptes-RunResult start count flags n b m r range le low a e in
    elim flipped [
      | inl (err, _, _) ↦
          let is_err : (i == bitmap_error) ≡ true = ground (arith, err) in
          let e : allocate_ptes start flags n b m ≡ ok (0, b1, m) =
            >>=-ok _ e1 ∙ rw (is_err, map_run) refl in
          ((0, b1, m), e, result (0, b1, m) e)
      | inr (g, filled) ↦
          let fits : i + n ≤ count = omega (arith, g.fits, le) in
          let is_index : (i == bitmap_error) ≡ false = ground (arith, g.fits, le, range.few) in
          let (m1, e2) = run_mapped start count flags i n m range fits low a enough in
          let r : Ptes = ((start + page_size * i) % 2 ^ 32, b1, m1) in
          let e : allocate_ptes start flags n b m ≡ ok r =
            >>=-ok _ e1 ∙ rw (is_index, map_run) (>>=-ok _ e2) in
          (r, e, result r e)
    ]

-- MmAllocateSystemPtes with a bitmap of at most one bit for each page of the range, the page tables of
-- the range, and two free frames for each page returns: NULL, with bitmap and memory as they were,
-- and there is no run of that many clear bits; or the address of the first such run, inside of the
-- range, whose bits and no others now are set, and whose pages are mapped.
pub allocate_system_ptes-Returns :
    {kept : ℕ → ℕ} (n : ℕ) (b : Bitmap) (m : Memory)
    → b.bit_count ≤ 65536
    → Accounted kept m
    → Enough syspte_start 65536 n m
    → (r : Ptes) × (allocate_system_ptes n b m ≡ ok r) × RunResult kept syspte_start n b m r
unfolding allocate_system_ptes
allocate_system_ptes-Returns n b m le a enough =
    allocate_ptes-Returns syspte_start 65536 system_flags n b m system_range le (omega arith) a
      enough

-- MmAllocateUserPtes with a bitmap of at most one bit for each page of its pool and two free frames
-- for each page returns, where the addresses of the pool are user addresses or have their page
-- tables: NULL, with bitmap and memory as they were, and there is no run of that many clear bits; or
-- the address of the first such run, inside of the pool, whose bits and no others now are set,
-- and whose pages are mapped.
pub allocate_user_ptes-Returns :
    {kept : ℕ → ℕ} (n : ℕ) (b : Bitmap) (m : Memory)
    → b.bit_count ≤ 32768
    → Accounted kept m
    → Enough user_pool_start 32768 n m
    → (r : Ptes) × (allocate_user_ptes n b m ≡ ok r) × RunResult kept user_pool_start n b m r
unfolding allocate_user_ptes
allocate_user_ptes-Returns n b m le a enough =
    allocate_ptes-Returns user_pool_start 32768 user_flags n b m user_range le (omega arith) a
      enough
