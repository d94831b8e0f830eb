-- ===== src/Bitmap/Scan.antt =====
-- Finding a group of bits, and flipping it.
use kaush_os.Base.{
  ℕ, zero, suc, ◌+◌, ◌-◌, ◌^◌, ◌≤◌, ◌<◌, ◌≡◌, refl, sym, ap, ◌∙◌, subst, Bool, true, false, not,
  arith, ◌==◌, leb, Bool-cases, inl, inr, ◌⊎◌, eqb→eq,
}
use kaush_os.Base.Outcome.{ok, >>=-ok, assert-pass}
use kaush_os.Bitmap.{Bitmap, bitmap_error, scan_from, bitmap_scan, bitmap_scan_and_flip}
use kaush_os.Bitmap.Ranges.{
  bit, occurs, bitmap_contains-occurs, occurs-not-bit, occurs-bit, Filled,
  bitmap_set_multiple-Filled,
}

-- A bit of the group from `i` has the other value.
abbrev pub Broken : ℕ → ℕ → Bool → Bitmap → Type 0
Broken i cnt v b = (j : ℕ) × (i ≤ j) × (j < i + cnt) × (bit b j ≡ not v)

-- The first group of bits with the value from `start`.
pub record FirstGroup (start cnt : ℕ) (v : Bool) (b : Bitmap) (i : ℕ) : Type 0 where
  pub from : start ≤ i
  pub fits : i + cnt ≤ b.bit_count
  pub all : (j : ℕ) → i ≤ j → j < i + cnt → bit b j ≡ v
  pub first : (h : ℕ) → start ≤ h → h < i → Broken h cnt v b

abbrev pub NoGroup : ℕ → ℕ → Bool → Bitmap → Type 0
NoGroup start cnt v b = (h : ℕ) → start ≤ h → h + cnt ≤ b.bit_count → Broken h cnt v b

abbrev pub ScanResult : ℕ → ℕ → Bool → Bitmap → ℕ → Type 0
ScanResult start cnt v b r =
    ((r ≡ bitmap_error) × NoGroup start cnt v b) ⊎ FirstGroup start cnt v b r

later :
    {i cnt : ℕ} {v : Bool} (b : Bitmap) (r : ℕ)
    → Broken i cnt v b
    → ScanResult (suc i) cnt v b r
    → ScanResult i cnt v b r
later {i} {cnt} {v} b r broken (inl (e, none_left)) = inl (
  e,
  λ h lo fits. elim (Bool-cases (h == i)) [
    | inl e1 ↦ subst (λ x. Broken x cnt v b) (sym (eqb→eq h i e1)) broken
    | inr e1 ↦ none_left h (ground (arith, e1)) fits
  ],
)
later {i} {cnt} {v} b r broken (inr g) = inr (record {
  from = omega (arith, g.from);
  fits = g.fits;
  all = g.all;
  first = λ h lo hi. elim (Bool-cases (h == i)) [
    | inl e1 ↦ subst (λ x. Broken x cnt v b) (sym (eqb→eq h i e1)) broken
    | inr e1 ↦ g.first h (ground (arith, e1)) hi
  ];
})

scan_from-ScanResult :
    (k i cnt : ℕ) (v : Bool) (b : Bitmap)
    → b.bit_count < 2 ^ 32
    → cnt ≤ b.bit_count
    → (i + k ≡ suc (b.bit_count - cnt)) ⊎ ((k ≡ 0) × (suc (b.bit_count - cnt) ≤ i))
    → (r : ℕ) × (scan_from k i cnt v b ≡ ok r) × ScanResult i cnt v b r
unfolding scan_from
scan_from-ScanResult zero i cnt v b small le last =
    (bitmap_error, refl, inl (refl, λ h lo fits. absurd (ground (arith, last, le, lo, fits))))
scan_from-ScanResult (suc k) i cnt v b small le last =
    let fits : i + cnt ≤ b.bit_count = ground (arith, last, le) in
    let looked = bitmap_contains-occurs i cnt (not v) b small fits in
    elim (Bool-cases (occurs cnt i (not v) b)) [
      | inl e ↦
          let (r, e1, res) =
            scan_from-ScanResult k (suc i) cnt v b small le (ground (arith, last)) in
          (r, >>=-ok _ (looked ∙ ap ok e) ∙ e1, later b r (occurs-bit cnt i (not v) b e) res)
      | inr e ↦ (
        i,
        >>=-ok _ (looked ∙ ap ok e),
        inr (record {
          from = omega arith;
          fits = fits;
          all = occurs-not-bit cnt i v b e;
          first = λ h lo hi. absurd (omega (arith, lo, hi));
        }),
      )
    ]

-- BmBitmapScan from a bit of the bitmap returns the start of the first group of that many bits with
-- the value, or BITMAP_ERROR when there is no such group.
pub bitmap_scan-ScanResult :
    (start cnt : ℕ) (v : Bool) (b : Bitmap)
    → b.bit_count < 2 ^ 32
    → start ≤ b.bit_count
    → (r : ℕ) × (bitmap_scan start cnt v b ≡ ok r) × ScanResult start cnt v b r
unfolding bitmap_scan
bitmap_scan-ScanResult start cnt v b small h = elim (Bool-cases (leb cnt b.bit_count)) [
  | inl le ↦
      let (r, e, res) =
        scan_from-ScanResult (suc (b.bit_count - cnt) - start) start cnt v b small
          (ground (arith, le)) (ground (arith, le)) in
      (r, rw le (assert-pass {b = leb start b.bit_count} _ (ground (arith, h)) ∙ e), res)
  | inr gt ↦ (
    bitmap_error,
    rw gt (assert-pass {b = leb start b.bit_count} _ (ground (arith, h))),
    inl (refl, λ g lo fits. absurd (ground (arith, gt, fits))),
  )
]

-- What BmBitmapScanAndFlip leaves: nothing is changed where no group was found, and else exactly the
-- bits of the first group are flipped.
abbrev pub FlipResult : ℕ → ℕ → Bool → Bitmap → ℕ × Bitmap → Type 0
FlipResult start cnt v b (r, b') =
    ((r ≡ bitmap_error) × (b' ≡ b) × NoGroup start cnt v b)
    ⊎ (FirstGroup start cnt v b r × Filled r cnt (not v) b b')

-- BmBitmapScanAndFlip from a bit of the bitmap, which is short of BITMAP_ERROR, returns: it finds
-- the first group of that many bits with the value, flips all of its bits and no other, and gives
-- the group's start; or it changes nothing and gives BITMAP_ERROR, and there is no such group.
pub bitmap_scan_and_flip-FlipResult :
    (start cnt : ℕ) (v : Bool) (b : Bitmap)
    → b.bit_count < bitmap_error
    → start ≤ b.bit_count
    → (r : ℕ × Bitmap) × (bitmap_scan_and_flip start cnt v b ≡ ok r) × FlipResult start cnt v b r
unfolding bitmap_scan_and_flip
bitmap_scan_and_flip-FlipResult start cnt v b small h =
    let (r, e, res) = bitmap_scan-ScanResult start cnt v b (omega (arith, small)) h in
    elim res [
      | inl (err, none_left) ↦
          let is_err : (r == bitmap_error) ≡ true = ground (arith, err) in
          ((r, b), >>=-ok _ e ∙ rw is_err, inl (err, refl, none_left))
      | inr g ↦
          let found : (r == bitmap_error) ≡ false = ground (arith, g.fits, small) in
          let (b', e1, f) =
            bitmap_set_multiple-Filled r cnt (not v) b (omega (arith, small)) g.fits in
          ((r, b'), >>=-ok _ e ∙ rw found (>>=-ok _ e1), inr (g, f))
    ]
