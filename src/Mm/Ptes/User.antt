-- ===== src/Mm/Ptes/User.antt =====
-- MmInitializeUserPtes.
use kaush_os.Base.{
  ℕ, ◌*◌, ◌≤◌, ◌<◌, ◌≡◌, refl, ◌∙◌, Bool, true, false, Option, none, some, ◌==◌, inl, inr, arith,
}
use kaush_os.Base.Outcome.{ok, >>=-ok}
use kaush_os.Bitmap.{
  Bitmap, bitmap_create_in_buffer, bitmap_buffer_size, byte_count, element_count, bitmap_set_all,
}
use kaush_os.Bitmap.Ranges.{bit, bitmap_set_multiple-Filled}
use kaush_os.Bitmap.Scan.{NoGroup}
use kaush_os.Mm.Pages.{Memory, page_size}
use kaush_os.Mm.Pages.Accounting.{Accounted}
use kaush_os.Mm.Ptes.{
  Ptes, KStatus, success, insufficient_resources, syspte_start, new_user_bitmap,
  initialize_user_ptes, user_pool_size,
}
use kaush_os.Mm.Ptes.Runs.{RunResult}
use kaush_os.Mm.Ptes.Enough.{Enough, allocate_system_ptes-Returns}

-- A bitmap for the pages of the user mode pool, none of them taken, or no page for it.
abbrev pub UserBitmap : Bitmap → Memory → KStatus × Option Bitmap × Bitmap × Memory → Type 0
UserBitmap b m (success, some new, b', m') =
    (new.bit_count ≡ 32704) × ((j : ℕ) → j < 32704 → bit new j ≡ false)
UserBitmap b m (success, none, b', m') = true ≡ false
UserBitmap b m (insufficient_resources, some new, b', m') = true ≡ false
UserBitmap b m (insufficient_resources, none, b', m') = (b' ≡ b) × (m' ≡ m) × NoGroup 0 1 false b

-- BmBitmapCreateInBuffer in a page.
created_in_page :
    (memory : ℕ → ℕ → Bool)
    → (b : Bitmap) × (bitmap_create_in_buffer 0 page_size memory ≡ ok b)
      × (b.bit_count ≡ 32704)
      × ((j : ℕ) → j < 32704 → bit b j ≡ false)
unfolding bitmap_create_in_buffer bitmap_buffer_size byte_count element_count bitmap_set_all
created_in_page memory =
    let b0 : Bitmap = record { bit_count = 32704; bits = memory } in
    let (b, e, f) = bitmap_set_multiple-Filled 0 32704 false b0 (omega arith) (omega arith) in
    (b, e, f.size, λ j lt. ground (arith, f.value j, lt))

new_user_bitmap-UserBitmap :
    {kept : ℕ → ℕ} (memory : ℕ → ℕ → Bool) (b : Bitmap) (m : Memory) (page : Ptes)
    → RunResult kept syspte_start 1 b m page
    → (r : KStatus × Option Bitmap × Bitmap × Memory) × (new_user_bitmap ok memory page ≡ ok r)
      × UserBitmap b m r
new_user_bitmap-UserBitmap memory b m (address, b', m') (inl (null, same_b, same_m, no_page)) =
    let is_null : (address == 0) ≡ true = ground (arith, null) in
    (
      (insufficient_resources, none, b', m'),
      rw (is_null, new_user_bitmap) refl,
      (same_b, same_m, no_page),
    )
new_user_bitmap-UserBitmap memory b m (address, b', m') (inr (i, at, _, _, _)) =
    let is_page : (address == 0) ≡ false = ground (arith, at) in
    let (new, e, size, clear) = created_in_page memory in
    ((success, some new, b', m'), rw (is_page, new_user_bitmap) (>>=-ok _ e), (size, clear))

-- MmInitializeUserPtes, with a bitmap of at most one bit for each page of the system's range, the page
-- tables of the range, and two free frames, returns: a new bitmap of 32704 clear bits, which is no
-- more than the user mode pool has pages; or STATUS_INSUFFICIENT_RESOURCES, with bitmap and memory
-- as they were, where no page of the system's range is left.
pub initialize_user_ptes-UserBitmap :
    {kept : ℕ → ℕ} (memory : ℕ → ℕ → Bool) (b : Bitmap) (m : Memory)
    → b.bit_count ≤ 65536
    → Accounted kept m
    → Enough syspte_start 65536 1 m
    → (r : KStatus × Option Bitmap × Bitmap × Memory) × (initialize_user_ptes memory b m ≡ ok r)
      × UserBitmap b m r
      × (32704 * page_size ≤ user_pool_size)
unfolding initialize_user_ptes
initialize_user_ptes-UserBitmap memory b m le a enough =
    let (page, e, run) = allocate_system_ptes-Returns 1 b m le a enough in
    let (r, e1, result) = new_user_bitmap-UserBitmap memory b m page run in
    (r, >>=-ok _ e ∙ e1, result, omega arith)
