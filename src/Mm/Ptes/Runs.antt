-- ===== src/Mm/Ptes/Runs.antt =====
-- What MmAllocateSystemPtes and MmAllocateUserPtes give.
use kaush_os.Base.{
  ℕ, ◌+◌, ◌*◌, ◌%◌, ◌^◌, ◌≤◌, ◌<◌, ◌≡◌, refl, sym, ◌∙◌, subst, true, false, ◌==◌, inl, inr, ◌⊎◌,
  arith,
}
use kaush_os.Base.Outcome.{ok, ok-injective, >>=-eq-ok, >>=-ok}
use kaush_os.Bitmap.{Bitmap, bitmap_error}
use kaush_os.Bitmap.Ranges.{Filled}
use kaush_os.Bitmap.Scan.{FirstGroup, NoGroup, FlipResult, bitmap_scan_and_flip-FlipResult}
use kaush_os.Mm.Pool.{round_up}
use kaush_os.Mm.Pages.{Memory, page_count, page_size, virtual_alloc}
use kaush_os.Mm.Pages.Counting.{is_boot_entry}
use kaush_os.Mm.Pages.Accounting.{Accounted, Ordinary}
use kaush_os.Mm.Pages.Segments.{OrdinaryPages, PagesMapped}
use kaush_os.Mm.Pages.Virtual.{virtual_alloc-PagesMapped}
use kaush_os.Mm.Ptes.{
  Ptes, map_run, allocate_ptes, allocate_system_ptes, allocate_user_ptes, syspte_start,
  user_pool_start, system_flags, user_flags,
}

-- The run of pages that was given, or that there is none.
abbrev pub RunResult : (ℕ → ℕ) → ℕ → ℕ → Bitmap → Memory → Ptes → Type 0
RunResult kept start n b m (address, b', m') =
    ((address ≡ 0) × (b' ≡ b) × (m' ≡ m) × NoGroup 0 n false b)
    ⊎ ((i : ℕ) × (address ≡ start + 4096 * i)
        × FirstGroup 0 n false b i
        × Filled i n true b b'
        × PagesMapped kept address n m m')

pub page_count_pages : (n : ℕ) → n ≤ 65536 → page_count (n * page_size % 2 ^ 32) ≡ n
unfolding round_up
page_count_pages n h =
    let small : n * 4096 % 2 ^ 32 ≡ n * 4096 = omega (arith, h) in omega (arith, small, h)

-- Pages of which neither the boot code has mapped any nor the page table area holds any.
pub record PageRange (start count : ℕ) : Type 0 where
  pub aligned : start % 4096 ≡ 0
  pub few : count ≤ 65536
  pub ends : start + 4096 * count < 2 ^ 32
  pub ordinary : (i : ℕ) → i < count → Ordinary (start + 4096 * i)

pub system_range : PageRange syspte_start 65536
unfolding is_boot_entry
system_range = record {
  aligned = refl;
  few = omega arith;
  ends = omega arith;
  ordinary = λ i lt. record {
    below = omega (arith, lt);
    not_boot = ground (arith, lt);
    not_table = ground (arith, lt);
  };
}

pub user_range : PageRange user_pool_start 32768
unfolding is_boot_entry
user_range = record {
  aligned = refl;
  few = omega arith;
  ends = omega arith;
  ordinary = λ i lt. record {
    below = omega (arith, lt);
    not_boot = ground (arith, lt);
    not_table = ground (arith, lt);
  };
}

-- A run of pages inside of the range.
pub run_pages :
    (start count i n : ℕ)
    → PageRange start count
    → i + n ≤ count
    → OrdinaryPages (start + 4096 * i) n
run_pages start count i n range fits p lt =
    subst Ordinary (omega arith) (range.ordinary (i + p) (omega (arith, fits, lt)))

map_run-RunResult :
    {kept : ℕ → ℕ} (start count flags n : ℕ) (b b' : Bitmap) (m : Memory) (i : ℕ) (r : Ptes)
    → PageRange start count
    → b.bit_count ≤ count
    → flags < 4096
    → Accounted kept m
    → FlipResult 0 n false b (i, b')
    → map_run start flags n m (i, b') ≡ ok r
    → RunResult kept start n b m r
map_run-RunResult {kept} start count flags n b b' m i r range le low a (inl (err, same, no_group))
      e =
    let is_err : (i == bitmap_error) ≡ true = ground (arith, err) in
    subst (RunResult kept start n b m) (ok-injective (rw (is_err, map_run) at e))
      (inl (refl, same, refl, no_group))
map_run-RunResult {kept} start count flags n b b' m i r range le low a (inr (g, filled)) e =
    let is_index : (i == bitmap_error) ≡ false = ground (arith, g.fits, le, range.few) in
    let memory = (start + page_size * i) % 2 ^ 32 in
    let at : memory ≡ start + 4096 * i = omega (arith, g.fits, le, range.ends) in
    let fits : i + n ≤ count = omega (arith, g.fits, le) in
    let pages = page_count_pages n (omega (arith, fits, range.few)) in
    let e1 = rw (is_index, map_run) at e in
    let (m1, e2, e3) = >>=-eq-ok (virtual_alloc memory (n * page_size % 2 ^ 32) flags m) _ e1 in
    let os : OrdinaryPages memory (page_count (n * page_size % 2 ^ 32)) =
      rw (pages, at) (run_pages start count i n range fits) in
    let aligned : memory % 4096 ≡ 0 = omega (arith, at, range.aligned) in
    let mapped =
      virtual_alloc-PagesMapped memory (n * page_size % 2 ^ 32) flags m m1 a os aligned low e2 in
    let mapped_n = subst (λ (k : ℕ). PagesMapped kept memory k m m1) pages mapped in
    subst (RunResult kept start n b m) (ok-injective e3) (inr (i, at, g, filled, mapped_n))

pub allocate_ptes-RunResult :
    {kept : ℕ → ℕ} (start count flags n : ℕ) (b : Bitmap) (m : Memory) (r : Ptes)
    → PageRange start count
    → b.bit_count ≤ count
    → flags < 4096
    → Accounted kept m
    → allocate_ptes start flags n b m ≡ ok r
    → RunResult kept start n b m r
allocate_ptes-RunResult start count flags n b m r range le low a e =
    let small : b.bit_count < bitmap_error = omega (arith, le, range.few) in
    let (found, e1, flipped) = bitmap_scan_and_flip-FlipResult 0 n false b small (omega arith) in
    map_run-RunResult start count flags n b found.1 m found.0 r range le low a flipped
      (sym (>>=-ok _ e1) ∙ e)

-- A call of MmAllocateSystemPtes that returns, with a bitmap of at most one bit for each page of the
-- range: NULL, with bitmap and memory as they were, and no run of that many clear bits; or the
-- address of the first such run in the range, whose bits and no others now are set, and whose
-- pages are mapped.
pub allocate_system_ptes-RunResult :
    {kept : ℕ → ℕ} (n : ℕ) (b : Bitmap) (m : Memory) (r : Ptes)
    → b.bit_count ≤ 65536
    → Accounted kept m
    → allocate_system_ptes n b m ≡ ok r
    → RunResult kept syspte_start n b m r
unfolding allocate_system_ptes
allocate_system_ptes-RunResult n b m r le a e =
    allocate_ptes-RunResult syspte_start 65536 system_flags n b m r system_range le (omega arith) a
      e

-- The same of MmAllocateUserPtes and the range of the user mode pool.
pub allocate_user_ptes-RunResult :
    {kept : ℕ → ℕ} (n : ℕ) (b : Bitmap) (m : Memory) (r : Ptes)
    → b.bit_count ≤ 32768
    → Accounted kept m
    → allocate_user_ptes n b m ≡ ok r
    → RunResult kept user_pool_start n b m r
unfolding allocate_user_ptes
allocate_user_ptes-RunResult n b m r le a e =
    allocate_ptes-RunResult user_pool_start 32768 user_flags n b m r user_range le (omega arith) a e
