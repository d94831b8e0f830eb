-- ===== src/Mm/Pool/Underflow.antt =====
-- The subtraction of MINIMUMFREEPOOLSIZE in MmAllocatePoolWithTag on a block that is smaller.
use kaush_os.Base.{ℕ, ◌+◌, ◌^◌, ◌<◌, ◌≡◌, ◌≢◌, true, [], ◌∷◌, ◌++◌, arith, inl, inr, subst}
use kaush_os.Base.Outcome.{ok}
use kaush_os.Mm.Pool.{
  PoolHeader, FreePoolList, sizeof_header, padded, carve, divides, new_pool_block, fits,
  allocate_pool_with_tag, minimum_free_pool_size,
}
use kaush_os.Mm.Pool.Tiling.{Tiles, Tiles-le, Tiles-split, end_of}
use kaush_os.Mm.Pool.Allocate.{fits_free}
use kaush_os.Mm.Pool.Requests.{allocate_cases}

-- Every block that fits the request is below MINIMUMFREEPOOLSIZE and without room for a header
-- behind the request.
abbrev pub AllShort : ℕ → FreePoolList → Type 0
AllShort n [] = Unit {0}
AllShort n (b ∷ bs) =
    (fits n b ≡ true → (b.size < minimum_free_pool_size) × (b.size < n + sizeof_header))
    × AllShort n bs

AllShort-block :
    (n : ℕ) (xs : FreePoolList) (b : PoolHeader) (ys : FreePoolList)
    → AllShort n (xs ++ b ∷ ys)
    → fits n b ≡ true
    → (b.size < minimum_free_pool_size) × (b.size < n + sizeof_header)
AllShort-block n [] b ys r f = r.0 f
AllShort-block n (x ∷ xs) b ys r f = AllShort-block n xs b ys r.1 f

short_divides :
    (pooltype n : ℕ) (b : PoolHeader)
    → n < b.size
    → b.size < minimum_free_pool_size
    → b.size < n + sizeof_header
    → (divides n b ≡ true)
      × ((new_pool_block pooltype n b).size + n + sizeof_header ≡ b.size + 2 ^ 32)
unfolding divides new_pool_block
short_divides pooltype n b lt small short = (ground arith, omega arith)

carve_short :
    (pooltype n tag a z : ℕ) (b : PoolHeader) (bs : FreePoolList)
    → n < b.size
    → b.size < minimum_free_pool_size
    → b.size < n + sizeof_header
    → z < 2 ^ 32
    → ¬ Tiles a z (carve pooltype n tag b ++ bs)
unfolding carve
carve_short pooltype n tag a z b bs lt small short h t =
    let (d, size) = short_divides pooltype n b lt small short in
    let t' : Tiles a z
        (record b { size = n; tag = tag; allocated = true } ∷ new_pool_block pooltype n b ∷ bs) =
      rw d at t in
    absurd (omega (arith, size, Tiles-le _ z bs t'.1.1))

-- If every block that fits a request is below MINIMUMFREEPOOLSIZE bytes and has no room for a
-- header behind the request, then a call of MmAllocatePoolWithTag that returns a pointer leaves
-- blocks that no longer lie end to end over the pool's memory.
pub allocate_pool_with_tag-breaks :
    (irql pooltype bytes tag a z : ℕ) (bs : FreePoolList) {cs : FreePoolList} {p : ℕ}
    → z < 2 ^ 32
    → AllShort (padded bytes) bs
    → allocate_pool_with_tag irql pooltype bytes tag bs ≡ ok (cs, p)
    → p ≢ 0
    → ¬ Tiles a z cs
allocate_pool_with_tag-breaks irql pooltype bytes tag a z bs h short e ne after =
    elim (allocate_cases irql pooltype bytes tag bs e) [
      | inl (_, zero_p, _) ↦ ne zero_p
      | inr k ↦
          let n = padded bytes in
          let (small, no_room) =
            AllShort-block n k.before k.block k.behind (subst (AllShort n) k.was short) k.fit in
          let (_, t) =
            Tiles-split a z k.before (carve pooltype n tag k.block ++ k.behind)
              (subst (Tiles a z) k.becomes after) in
          carve_short pooltype n tag (end_of a k.before) z k.block k.behind
            (fits_free n k.block k.fit).1 small no_room h t
    ]
