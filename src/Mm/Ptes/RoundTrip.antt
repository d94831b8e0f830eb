-- ===== src/Mm/Ptes/RoundTrip.antt =====
-- MmFreeSystemPtes and MmFreeUserPtes take back what was allocated.
use kaush_os.Base.{
  ℕ, zero, suc, ◌+◌, ◌-◌, ◌*◌, ◌/◌, ◌≤◌, ◌<◌, ◌≡◌, refl, sym, ap, ◌∙◌, subst, true, false, ◌==◌,
  ltb, leb, inl, inr, ◌⊎◌, arith,
}
use kaush_os.Base.Outcome.{ok, assert-pass, >>=-ok}
use kaush_os.Bitmap.{Bitmap, bitmap_set_multiple}
use kaush_os.Bitmap.Ranges.{bit, Filled, bitmap_set_multiple-Filled, bitmap_test-ok}
use kaush_os.Bitmap.Scan.{FirstGroup}
use kaush_os.Mm.Pages.{Memory, pte_index, page_size, user_top, is_page_aligned}
use kaush_os.Mm.Pages.Accounting.{Accounted, entry_count}
use kaush_os.Mm.Pages.Segments.{PagesMapped}
use kaush_os.Mm.Pages.Free.{virtual_free-PagesFreed}
use kaush_os.Mm.Ptes.{
  free_run, allocate_system_ptes, allocate_user_ptes, syspte_start, syspte_size, user_pool_start,
  free_system_ptes, free_user_ptes, assert_bits,
}
use kaush_os.Mm.Ptes.Runs.{
  PageRange, run_pages, page_count_pages, system_range, user_range, allocate_system_ptes-RunResult,
  allocate_user_ptes-RunResult,
}

-- The bitmap has the bits that it had, and the pages of the run are unmapped again.
pub record Restored (kept : ℕ → ℕ) (address n : ℕ) (b : Bitmap) (m : Memory) (r : Bitmap × Memory)
    : Type 0 where
  pub size : r.0.bit_count ≡ b.bit_count
  pub bits : (j : ℕ) → bit r.0 j ≡ bit b j
  pub accounted : Accounted kept r.1
  pub unmapped : (p : ℕ) → p < n → r.1.entries (pte_index address + p) ≡ 0
  pub others :
      (j : ℕ)
      → j < entry_count
      → (j / 1024 == 768) ≡ false
      → (j < pte_index address) ⊎ (pte_index address + n ≤ j)
      → r.1.entries j ≡ m.entries j

free_run-Restored :
    {kept : ℕ → ℕ} (start count i n : ℕ) (b b1 : Bitmap) (m m1 : Memory)
    → PageRange start count
    → b.bit_count ≤ count
    → FirstGroup 0 n false b i
    → Filled i n true b b1
    → PagesMapped kept (start + 4096 * i) n m m1
    → (r : Bitmap × Memory) × (free_run start (start + 4096 * i) n b1 m1 ≡ ok r)
      × Restored kept (start + 4096 * i) n b m r
free_run-Restored start count i n b b1 m m1 range le g filled mapped =
    let address = start + 4096 * i in
    let fits : i + n ≤ count = omega (arith, g.fits, le) in
    let at : (address - start) / page_size ≡ i = omega arith in
    let (b2, e1, cleared) =
      bitmap_set_multiple-Filled i n false b1 (omega (arith, filled.size, le, range.few))
        (omega (arith, filled.size, g.fits)) in
    let e2 : bitmap_set_multiple ((address - start) / page_size) n false b1 ≡ ok b2 =
      ap (λ (k : ℕ). bitmap_set_multiple k n false b1) at ∙ e1 in
    let pages = page_count_pages n (omega (arith, fits, range.few)) in
    let (m2, e3, f) =
      virtual_free-PagesFreed address n m1 mapped.accounted (run_pages start count i n range fits)
        (omega (arith, range.aligned)) pages (λ p lt. (mapped.mapped p lt, mapped.there p lt)) in
    (
      (b2, m2),
      >>=-ok _ e2 ∙ >>=-ok _ e3,
      record {
        size = cleared.size ∙ filled.size;
        bits = λ j. ground (arith, cleared.value j, filled.value j, g.all j);
        accounted = f.accounted;
        unmapped = f.cleared;
        others = λ j lt ne out. f.others j out ∙ mapped.others j lt ne out;
      },
    )

-- At least one page that MmAllocateSystemPtes gave, with a bitmap of at most one bit for each page of
-- the range, MmFreeSystemPtes takes back: it returns, the bitmap again has all its bits as before
-- the two calls, the pages are unmapped, every other page has the entry that it had, and the counts
-- of all frames agree with the entries that map them.
pub free_system_ptes-allocate_system_ptes :
    {kept : ℕ → ℕ} (n address : ℕ) (b b1 : Bitmap) (m m1 : Memory)
    → 1 ≤ n
    → b.bit_count ≤ 65536
    → Accounted kept m
    → allocate_system_ptes n b m ≡ ok (address, b1, m1)
    → (address == 0) ≡ false
    → (r : Bitmap × Memory) × (free_system_ptes address n b1 m1 ≡ ok r)
      × Restored kept address n b m r
unfolding free_system_ptes
free_system_ptes-allocate_system_ptes {kept} n address b b1 m m1 some_pages le a e nz =
    elim (allocate_system_ptes-RunResult n b m (address, b1, m1) le a e) [
      | inl (null, _, _, _) ↦ absurd (ground (arith, null, nz))
      | inr (i, at, g, filled, mapped) ↦
          let mapped_at = subst (λ (x : ℕ). PagesMapped kept x n m m1) at mapped in
          let (r, e1, restored) =
            free_run-Restored syspte_start 65536 i n b b1 m m1 system_range le g filled mapped_at in
          let last : i < 65536 = omega (arith, g.fits, le, some_pages) in
          (
            r,
            assert-pass {b = leb syspte_start address} _ (ground (arith, at))
                ∙ assert-pass {b = ltb address (syspte_start + syspte_size)} _
                    (ground (arith, at, last))
                ∙ assert-pass {b = is_page_aligned address} _ (ground (arith, at))
                ∙ ap (λ (x : ℕ). free_run syspte_start x n b1 m1) at
                ∙ e1,
            subst (λ (x : ℕ). Restored kept x n b m r) (sym at) restored,
          )
    ]

assert_bits-ok :
    (k i : ℕ) (b : Bitmap)
    → i + k ≤ b.bit_count
    → ((j : ℕ) → i ≤ j → j < i + k → bit b j ≡ true)
    → assert_bits k i b ≡ ok tt
unfolding assert_bits
assert_bits-ok zero i b fits set = refl
assert_bits-ok (suc k) i b fits set =
    >>=-ok _ (bitmap_test-ok i b (omega (arith, fits)))
    ∙ assert-pass {b = bit b i} _ (set i (omega arith) (omega arith))
    ∙ assert_bits-ok k (suc i) b (omega (arith, fits))
        (λ j lo hi. set j (omega (arith, lo)) (omega (arith, hi)))

-- The same of the user mode pool: no assertion of MmFreeUserPtes on the bits fails.
pub free_user_ptes-allocate_user_ptes :
    {kept : ℕ → ℕ} (n address : ℕ) (b b1 : Bitmap) (m m1 : Memory)
    → 1 ≤ n
    → b.bit_count ≤ 32768
    → Accounted kept m
    → allocate_user_ptes n b m ≡ ok (address, b1, m1)
    → (address == 0) ≡ false
    → (r : Bitmap × Memory) × (free_user_ptes address n b1 m1 ≡ ok r)
      × Restored kept address n b m r
unfolding free_user_ptes
free_user_ptes-allocate_user_ptes {kept} n address b b1 m m1 some_pages le a e nz =
    elim (allocate_user_ptes-RunResult n b m (address, b1, m1) le a e) [
      | inl (null, _, _, _) ↦ absurd (ground (arith, null, nz))
      | inr (i, at, g, filled, mapped) ↦
          let mapped_at = subst (λ (x : ℕ). PagesMapped kept x n m m1) at mapped in
          let (r, e1, restored) =
            free_run-Restored user_pool_start 32768 i n b b1 m m1 user_range le g filled
              mapped_at in
          let last : i < 32768 = omega (arith, g.fits, le, some_pages) in
          let index : (address - user_pool_start) / page_size ≡ i = omega (arith, at) in
          let bits =
            assert_bits-ok n i b1 (omega (arith, g.fits, filled.size))
              (λ j lo hi. ground (arith, filled.value j, lo, hi)) in
          (
            r,
            assert-pass {b = leb user_pool_start address} _ (ground (arith, at))
                ∙ assert-pass {b = ltb address user_top} _ (ground (arith, at, last))
                ∙ assert-pass {b = is_page_aligned address} _ (ground (arith, at))
                ∙ >>=-ok _ (ap (λ (k : ℕ). assert_bits n k b1) index ∙ bits)
                ∙ ap (λ (x : ℕ). free_run user_pool_start x n b1 m1) at
                ∙ e1,
            subst (λ (x : ℕ). Restored kept x n b m r) (sym at) restored,
          )
    ]
