-- ===== src/Bitmap/Examples.antt =====
-- A bitmap of 40 bits in which bits 0 and 35 are set.
use kaush_os.Base.{ℕ, ◌≡◌, false, ◌&&◌, ◌||◌, arith, ◌==◌}
use kaush_os.Base.Outcome.{ok}
use kaush_os.Bitmap.{Bitmap, bitmap_scan_and_flip}
use kaush_os.Bitmap.Scan.{FlipResult, bitmap_scan_and_flip-FlipResult}

abbrev forty : Bitmap
forty = record { bit_count = 40; bits = λ w p. (w == 0 && p == 0) || (w == 1 && p == 3) }

bitmap_scan_and_flip-FlipResult_example :
    (r : ℕ × Bitmap) × (bitmap_scan_and_flip 0 4 false forty ≡ ok r) × FlipResult 0 4 false forty r
bitmap_scan_and_flip-FlipResult_example =
    bitmap_scan_and_flip-FlipResult 0 4 false forty (omega arith) (omega arith)
