-- ===== src/Bitmap/Ranges.antt =====
-- Setting, finding and counting the bits of a range.
use kaush_os.Base.{
  ℕ, zero, suc, ◌+◌, ◌^◌, ◌≤◌, ◌<◌, ◌≡◌, refl, sym, ◌∙◌, subst, Bool, true, false, not, ◌&&◌, ◌||◌,
  arith, ◌==◌, ltb, leb, if◌then◌else◌, Bool-cases, inl, inr, eqb→eq,
}
use kaush_os.Base.Outcome.{ok, >>=-ok}
use kaush_os.Bitmap.{
  Bitmap, element_index, bit_mask, write_bit, bitmap_mark, bitmap_reset, bitmap_set, bitmap_test,
  set_from, bitmap_set_multiple, same, contains_from, bitmap_contains,
}

-- Bit `i` of the bitmap.
abbrev pub bit : Bitmap → ℕ → Bool
bit b i = b.bits (element_index i) (bit_mask i)

pub write_bit-bit :
    (i j : ℕ) (v : Bool) (b : Bitmap) → bit (write_bit i v b) j ≡ (if j == i then v else bit b j)
write_bit-bit i j v b = elim (Bool-cases (j == i)) [
  | inl e ↦ rw (e, eqb→eq j i e) (ground arith)
  | inr e ↦ rw e (ground (arith, e))
]

abbrev pub in_range : ℕ → ℕ → ℕ → Bool
in_range start cnt j = leb start j && ltb j (start + cnt)

pub bitmap_set-ok :
    (i : ℕ) (v : Bool) (b : Bitmap) → i < b.bit_count → bitmap_set i v b ≡ ok (write_bit i v b)
unfolding bitmap_set bitmap_mark bitmap_reset
bitmap_set-ok i true b h = ground (arith, h)
bitmap_set-ok i false b h = ground (arith, h)

pub bitmap_test-ok : (i : ℕ) (b : Bitmap) → i < b.bit_count → bitmap_test i b ≡ ok (bit b i)
unfolding bitmap_test
bitmap_test-ok i b h = ground (arith, h)

-- A bitmap with the bits of a range set to `v`, and the others as in `b`.
pub record Filled (start cnt : ℕ) (v : Bool) (b b' : Bitmap) : Type 0 where
  pub size : b'.bit_count ≡ b.bit_count
  pub value : (j : ℕ) → bit b' j ≡ (if in_range start cnt j then v else bit b j)

set_from-Filled :
    (k i : ℕ) (v : Bool) (b : Bitmap)
    → i + k ≤ b.bit_count
    → (b' : Bitmap) × (set_from k i v b ≡ ok b') × Filled i k v b b'
unfolding set_from
set_from-Filled zero i v b h = (b, refl, record { size = refl; value = λ j. ground arith })
set_from-Filled (suc k) i v b h =
    let (b', e, f) = set_from-Filled k (suc i) v (write_bit i v b) (omega (arith, h)) in
    (
      b',
      >>=-ok (λ b1. set_from k (suc i) v b1) (bitmap_set-ok i v b (omega (arith, h))) ∙ e,
      record { size = f.size; value = λ j. ground (arith, f.value j, write_bit-bit i j v b) },
    )

-- BmBitmapSetMultiple on a range of the bitmap returns, with the bits of the range set to the value
-- and all others as they were.
pub bitmap_set_multiple-Filled :
    (start cnt : ℕ) (v : Bool) (b : Bitmap)
    → b.bit_count < 2 ^ 32
    → start + cnt ≤ b.bit_count
    → (b' : Bitmap) × (bitmap_set_multiple start cnt v b ≡ ok b') × Filled start cnt v b b'
unfolding bitmap_set_multiple
bitmap_set_multiple-Filled start cnt v b small h =
    let (b', e, f) = set_from-Filled cnt start v b h in (b', ground (arith, small, h, e), f)

-- Whether the value occurs in a range.
abbrev pub occurs : ℕ → ℕ → Bool → Bitmap → Bool
occurs zero i v b = false
occurs (suc k) i v b = same (bit b i) v || occurs k (suc i) v b

contains_from-occurs :
    (k i : ℕ) (v : Bool) (b : Bitmap)
    → i + k ≤ b.bit_count
    → contains_from k i v b ≡ ok (occurs k i v b)
unfolding contains_from
contains_from-occurs zero i v b h = refl
contains_from-occurs (suc k) i v b h =
    >>=-ok _ (bitmap_test-ok i b (omega (arith, h))) ∙ elim (Bool-cases (same (bit b i) v)) [
      | inl e ↦ rw e
      | inr e ↦ rw e (contains_from-occurs k (suc i) v b (omega (arith, h)))
    ]

pub bitmap_contains-occurs :
    (start cnt : ℕ) (v : Bool) (b : Bitmap)
    → b.bit_count < 2 ^ 32
    → start + cnt ≤ b.bit_count
    → bitmap_contains start cnt v b ≡ ok (occurs cnt start v b)
unfolding bitmap_contains
bitmap_contains-occurs start cnt v b small h =
    ground (arith, small, h, contains_from-occurs cnt start v b h)

pub occurs-not-bit :
    (k i : ℕ) (v : Bool) (b : Bitmap)
    → occurs k i (not v) b ≡ false
    → (j : ℕ) → i ≤ j
    → j < i + k
    → bit b j ≡ v
occurs-not-bit zero i v b e j lo hi = absurd (omega (arith, lo, hi))
occurs-not-bit (suc k) i v b e j lo hi = elim (Bool-cases (j == i)) [
  | inl e1 ↦
      subst (λ x. bit b x ≡ v) (sym (eqb→eq j i e1)) (same_not (bit b i) v (ground (arith, e)))
  | inr e1 ↦
      occurs-not-bit k (suc i) v b (ground (arith, e)) j (ground (arith, e1)) (omega (arith, hi))
]
  where
    same_not : (x y : Bool) → same x (not y) ≡ false → x ≡ y
    same_not x y h = ground (arith, h)

pub occurs-bit :
    (k i : ℕ) (v : Bool) (b : Bitmap)
    → occurs k i v b ≡ true
    → (j : ℕ) × (i ≤ j) × (j < i + k) × (bit b j ≡ v)
occurs-bit zero i v b e = absurd (ground (arith, e))
occurs-bit (suc k) i v b e = elim (Bool-cases (same (bit b i) v)) [
  | inl e1 ↦ (i, omega arith, omega arith, ground (arith, e1))
  | inr e1 ↦
      let (j, lo, hi, at) = occurs-bit k (suc i) v b (ground (arith, e, e1)) in
      (j, omega (arith, lo), omega (arith, hi), at)
]
