-- ===== src/Bitmap.antt =====
-- KaushOS/lib/bitmap.c: bitmaps in words of 32 bits. A word is the function from its places to its
-- bits, so that the mask of a place is that place, and orl, andl and xorl with a mask set, clear and
-- flip one bit. A bitmap is not NULL.
pub mod Ranges
pub mod Scan
mod Examples
use kaush_os.Base.{
  ℕ, zero, suc, ◌+◌, ◌-◌, ◌*◌, ◌/◌, ◌%◌, ◌^◌, Bool, true, false, not, ◌&&◌, ◌||◌, ◌==◌, ltb, leb,
  if◌then◌else◌,
}
use kaush_os.Base.Outcome.{Outcome, ok, bug_check, assert, ◌>>=◌, ◌>>◌}

-- ELEM_BITS, sizeof(BITMAP) and BITMAP_ERROR.
abbrev pub elem_bits : ℕ
elem_bits = 32

abbrev pub sizeof_bitmap : ℕ
sizeof_bitmap = 8

abbrev pub bitmap_error : ℕ
bitmap_error = 2 ^ 32 - 100

pub record Bitmap : Type 0 where
  pub bit_count : ℕ
  pub bits : ℕ → ℕ → Bool

abbrev pub element_index : ℕ → ℕ
element_index i = i / elem_bits

abbrev pub bit_mask : ℕ → ℕ
bit_mask i = i % elem_bits

-- BmElementCount, BmByteCount and BmBitmapBufferSize.
unfoldable pub element_count : ℕ → ℕ
element_count bit_count = (bit_count + elem_bits - 1) % 2 ^ 32 / elem_bits

unfoldable pub byte_count : ℕ → ℕ
byte_count bit_count = 4 * element_count bit_count

unfoldable pub bitmap_buffer_size : ℕ → ℕ
bitmap_buffer_size bit_count = sizeof_bitmap + byte_count bit_count

-- One bit of one word is replaced.
abbrev pub write_bit : ℕ → Bool → Bitmap → Bitmap
write_bit i v b = record b {
  bits = λ w p. if w == element_index i && p == bit_mask i then v else b.bits w p;
}

unfoldable pub bitmap_mark : ℕ → Bitmap → Bitmap
bitmap_mark i b = write_bit i true b

pub bitmap_reset : ℕ → Bitmap → Bitmap
bitmap_reset i b = write_bit i false b

pub bitmap_flip : ℕ → Bitmap → Bitmap
bitmap_flip i b = write_bit i (not (b.bits (element_index i) (bit_mask i))) b

unfoldable pub bitmap_set : ℕ → Bool → Bitmap → Outcome Bitmap
bitmap_set i v b = do
  assert (ltb i b.bit_count)
  ok (if v then bitmap_mark i b else bitmap_reset i b)

unfoldable pub bitmap_test : ℕ → Bitmap → Outcome Bool
bitmap_test i b = do assert (ltb i b.bit_count); ok (b.bits (element_index i) (bit_mask i))

-- The loop of BmBitmapSetMultiple over `k` bits from bit `i`.
unfoldable pub set_from : ℕ → ℕ → Bool → Bitmap → Outcome Bitmap
set_from zero i v b = ok b
set_from (suc k) i v b = do b1 ← bitmap_set i v b; set_from k (suc i) v b1

-- The assertions on a range; the sum is on 32 bits.
abbrev pub assert_range : ℕ → ℕ → Bitmap → Outcome (Unit {0})
assert_range start cnt b = do
  assert (leb start b.bit_count)
  assert (leb ((start + cnt) % 2 ^ 32) b.bit_count)

unfoldable pub bitmap_set_multiple : ℕ → ℕ → Bool → Bitmap → Outcome Bitmap
bitmap_set_multiple start cnt v b = do assert_range start cnt b; set_from cnt start v b

unfoldable pub bitmap_set_all : Bool → Bitmap → Outcome Bitmap
bitmap_set_all v b = bitmap_set_multiple 0 b.bit_count v b

-- BmBitmapCreateInBuffer, in a block whose words hold `memory`.
unfoldable pub bitmap_create_in_buffer : ℕ → ℕ → (ℕ → ℕ → Bool) → Outcome Bitmap
bitmap_create_in_buffer bit_count block_size memory = do
  assert (if bit_count == 0 then ltb sizeof_bitmap block_size else true)
  let n = if bit_count == 0 then (block_size - sizeof_bitmap) * 8 % 2 ^ 32 else bit_count
  assert (leb (bitmap_buffer_size n) block_size)
  bitmap_set_all false (record { bit_count = n; bits = memory })

abbrev pub same : Bool → Bool → Bool
same true v = v
same false v = not v

pub count_from : ℕ → ℕ → Bool → Bitmap → Outcome ℕ
count_from zero i v b = ok 0
count_from (suc k) i v b = do
  bit ← bitmap_test i b
  n ← count_from k (suc i) v b
  ok (if same bit v then n + 1 else n)

pub bitmap_count : ℕ → ℕ → Bool → Bitmap → Outcome ℕ
bitmap_count start cnt v b = do assert_range start cnt b; count_from cnt start v b

unfoldable pub contains_from : ℕ → ℕ → Bool → Bitmap → Outcome Bool
contains_from zero i v b = ok false
contains_from (suc k) i v b = do
  bit ← bitmap_test i b
  elim (same bit v) [ true ↦ ok true | false ↦ contains_from k (suc i) v b ]

unfoldable pub bitmap_contains : ℕ → ℕ → Bool → Bitmap → Outcome Bool
bitmap_contains start cnt v b = do assert_range start cnt b; contains_from cnt start v b

pub bitmap_any : ℕ → ℕ → Bitmap → Outcome Bool
bitmap_any start cnt b = bitmap_contains start cnt true b

pub bitmap_none : ℕ → ℕ → Bitmap → Outcome Bool
bitmap_none start cnt b = do found ← bitmap_contains start cnt true b; ok (not found)

pub bitmap_all : ℕ → ℕ → Bitmap → Outcome Bool
bitmap_all start cnt b = do found ← bitmap_contains start cnt false b; ok (not found)

-- The loop of BmBitmapScan over `k` starts from start `i`.
unfoldable pub scan_from : ℕ → ℕ → ℕ → Bool → Bitmap → Outcome ℕ
scan_from zero i cnt v b = ok bitmap_error
scan_from (suc k) i cnt v b = do
  other ← bitmap_contains i cnt (not v) b
  elim other [ true ↦ scan_from k (suc i) cnt v b | false ↦ ok i ]

unfoldable pub bitmap_scan : ℕ → ℕ → Bool → Bitmap → Outcome ℕ
bitmap_scan start cnt v b = do
  assert (leb start b.bit_count)
  if leb cnt b.bit_count
      then scan_from (suc (b.bit_count - cnt) - start) start cnt v b
      else ok bitmap_error

unfoldable pub bitmap_scan_and_flip : ℕ → ℕ → Bool → Bitmap → Outcome (ℕ × Bitmap)
bitmap_scan_and_flip start cnt v b = do
  i ← bitmap_scan start cnt v b
  elim (i == bitmap_error) [
    | true ↦ ok (i, b)
    | false ↦ do b1 ← bitmap_set_multiple i cnt (not v) b; ok (i, b1)
  ]
