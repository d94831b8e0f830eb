-- ===== src/Mm/Pool/RoundTrip.antt =====
-- An allocation that is freed leaves the pool as it was.
use kaush_os.Base.{
  ℕ, ◌+◌, ◌^◌, ◌≤◌, ◌<◌, ◌≡◌, refl, Bool, true, false, not, [], ◌∷◌, ◌++◌, arith, Bool-cases, inl,
  inr, subst, ap, ◌∙◌,
}
use kaush_os.Base.Outcome.{Outcome, ok}
use kaush_os.Mm.Pool.{
  PoolHeader, FreePoolList, sizeof_header, offset_mem, null_tag, verification_fails, merge_next,
  merge_prev, free_block, mem_at, free_behind, free_listed, holds, free_pool_with_tag, freed,
  absorb, carve, divides, new_pool_block, fits,
}
use kaush_os.Mm.Pool.Tiling.{
  Tiles, Tiles-le, Tiles-split, end_of, Coalesced, Coalesced-split, free_end,
}
use kaush_os.Mm.Pool.Free.{free_block_again}
use kaush_os.Mm.Pool.Allocate.{IsRoomy, Picked, divides_roomy, new_pool_block-size, fits_free}

own_tag_passes : (tag : ℕ) (c : PoolHeader) → c.tag ≡ tag → verification_fails tag c ≡ false
unfolding verification_fails
own_tag_passes tag c e = ground arith

absorb_new :
    (pooltype n tag : ℕ) (b : PoolHeader)
    → b.allocated ≡ false
    → b.tag ≡ null_tag
    → n + sizeof_header ≤ b.size
    → b.size < 2 ^ 32
    → absorb
        (freed (record b { size = n; tag = tag; allocated = true }))
        (new_pool_block pooltype n b)
      ≡ b
absorb_new pooltype n tag b f g h k = ground (arith, new_pool_block-size pooltype n b h k)

next_allocated :
    (q : Bool) (b : PoolHeader) (bs : FreePoolList)
    → Coalesced q (b ∷ bs)
    → b.allocated ≡ false
    → merge_next b bs ≡ b ∷ bs
unfolding merge_next
next_allocated q b [] c f = refl
next_allocated q b (x ∷ bs) c f = ground arith

merge_new :
    (pooltype n : ℕ) (c b : PoolHeader) (bs : FreePoolList)
    → merge_next c (new_pool_block pooltype n b ∷ bs) ≡ absorb c (new_pool_block pooltype n b) ∷ bs
unfolding merge_next new_pool_block
merge_new pooltype n c b bs = refl

retagged :
    (tag : ℕ) (b : PoolHeader)
    → b.allocated ≡ false
    → b.tag ≡ null_tag
    → freed (record b { tag = tag; allocated = true }) ≡ b
retagged tag b f g = ground arith

-- The block of an allocation, freed with its tag, is the block that was found.
free_block-carve :
    (pooltype n tag a z : ℕ) (q : Bool) (b : PoolHeader) (bs : FreePoolList)
    → Tiles a z (b ∷ bs)
    → z < 2 ^ 32
    → Coalesced q (b ∷ bs)
    → fits n b ≡ true
    → IsRoomy n b
    → (c : PoolHeader) × (cs : FreePoolList) × (carve pooltype n tag b ++ bs ≡ c ∷ cs)
      × (c.address ≡ b.address)
      × (free_block tag c cs ≡ ok (b ∷ bs))
unfolding carve free_block
free_block-carve pooltype n tag a z q b bs t h co f r =
    let le = Tiles-le (a + sizeof_header + b.size) z bs t.1 in
    let (free, lt) = fits_free n b f in
    elim (Bool-cases (divides n b)) [
      | inl e ↦
          let c = record b { size = n; tag = tag; allocated = true } in
          let room = divides_roomy n b r (omega (arith, le)) e in
          (
            c,
            new_pool_block pooltype n b ∷ bs,
            rw e,
            refl,
            rw (own_tag_passes tag c refl) (
                ap ok (
                  merge_new pooltype n (freed c) b bs
                  ∙ ap (λ t. t ∷ bs)
                      (absorb_new pooltype n tag b free (co.0 free).1 room (omega (arith, le))))),
          )
      | inr e ↦
          let c = record b { tag = tag; allocated = true } in
          (
            c,
            bs,
            rw e,
            refl,
            rw (own_tag_passes tag c refl) (
                ap ok (
                  ap (λ t. merge_next t bs) (retagged tag b free (co.0 free).1)
                  ∙ next_allocated q b bs co free)),
          )
    ]

-- Every block before the one at `p` lies below it.
abbrev AllMiss : ℕ → FreePoolList → Type 0
AllMiss p [] = Unit {0}
AllMiss p (b ∷ bs) = (mem_at p b ≡ false) × AllMiss p bs

Tiles-AllMiss : (a m p : ℕ) (xs : FreePoolList) → Tiles a m xs → m + offset_mem ≤ p → AllMiss p xs
Tiles-AllMiss a m p [] t h = tt
Tiles-AllMiss a m p (b ∷ bs) t h =
    let le = Tiles-le (a + sizeof_header + b.size) m bs t.1 in
    (ground (arith, le), Tiles-AllMiss (a + sizeof_header + b.size) m p bs t.1 h)

free_behind-restores :
    (p tag : ℕ) (q : Bool) (prev : PoolHeader) (xs : FreePoolList) (b c : PoolHeader)
    (bs cs : FreePoolList)
    → AllMiss p xs
    → mem_at p c ≡ true
    → free_block tag c cs ≡ ok (b ∷ bs)
    → free_end q (prev ∷ xs) ≡ false
    → free_behind p tag prev (xs ++ c ∷ cs) ≡ ok (prev ∷ xs ++ b ∷ bs)
unfolding free_behind merge_prev free_end
free_behind-restores p tag q prev [] b c bs cs m h f e = rw (h, f) (ground arith)
free_behind-restores p tag q prev (x ∷ xs) b c bs cs m h f e =
    rw (m.0, free_behind-restores p tag (not prev.allocated) x xs b c bs cs m.1 h f e)

holds_behind :
    (p : ℕ) (xs : FreePoolList) (c : PoolHeader) (cs : FreePoolList)
    → mem_at p c ≡ true
    → holds p (xs ++ c ∷ cs) ≡ true
unfolding holds
holds_behind p [] c cs h = rw h refl
holds_behind p (x ∷ xs) c cs h = elim (Bool-cases (mem_at p x)) [
  | inl e ↦ rw e refl
  | inr e ↦ rw e (holds_behind p xs c cs h)
]

free_listed-restores :
    (p tag : ℕ) (xs : FreePoolList) (b c : PoolHeader) (bs cs : FreePoolList)
    → AllMiss p xs
    → mem_at p c ≡ true
    → free_block tag c cs ≡ ok (b ∷ bs)
    → free_end false xs ≡ false
    → free_listed p tag (xs ++ c ∷ cs) ≡ ok (xs ++ b ∷ bs)
unfolding free_listed
free_listed-restores p tag [] b c bs cs m h f e = rw h f
free_listed-restores p tag (x ∷ xs) b c bs cs m h f e =
    rw m.0 (free_behind-restores p tag false x xs b c bs cs m.1 h f e)

-- Behind the blocks `xs`, freeing the block at `p` puts back the free block `b`.
free_restores :
    (unlisted : FreePoolList → Outcome FreePoolList) (p tag : ℕ) (xs : FreePoolList)
    (b c : PoolHeader) (bs cs : FreePoolList)
    → AllMiss p xs
    → mem_at p c ≡ true
    → free_block tag c cs ≡ ok (b ∷ bs)
    → free_end false xs ≡ false
    → free_pool_with_tag unlisted p tag (xs ++ c ∷ cs) ≡ ok (xs ++ b ∷ bs)
unfolding free_pool_with_tag
free_restores unlisted p tag xs b c bs cs m h f e =
    rw (holds_behind p xs c cs h) (free_listed-restores p tag xs b c bs cs m h f e)

-- Freeing an allocation with its tag gives back the list that it was taken from.
pub free-allocate :
    (unlisted : FreePoolList → Outcome FreePoolList) {pooltype n tag p : ℕ} (a z : ℕ)
    {bs cs : FreePoolList}
    → Tiles a z bs
    → z < 2 ^ 32
    → Coalesced false bs
    → (k : Picked pooltype n tag bs cs p) → IsRoomy n k.block
    → free_pool_with_tag unlisted p tag cs ≡ ok bs
free-allocate unlisted {pooltype} {n} {tag} {p} a z t h co k r =
    let (t0, t1) = Tiles-split a z k.before (k.block ∷ k.behind) (subst (Tiles a z) k.was t) in
    let (c0, c1) =
      Coalesced-split false k.before (k.block ∷ k.behind) (subst (Coalesced false) k.was co) in
    let (c, ds, e, ad, f) =
      free_block-carve pooltype n tag (end_of a k.before) z (free_end false k.before) k.block
        k.behind t1 h c1 k.fit r in
    let free = (fits_free n k.block k.fit).0 in
    rw (k.becomes, e, k.was)
      (free_restores unlisted p tag k.before k.block c k.behind ds
        (Tiles-AllMiss a (end_of a k.before) p k.before t0 (omega (arith, k.pointer, t1.0)))
        (ground (arith, ad, k.pointer)) f (c1.0 free).0)

-- MmFreePoolWithTag with tag 0 on a block that is free already returns and changes nothing, in a
-- list whose blocks lie end to end with no two free ones side by side and no tag on a free one.
pub free_again :
    (unlisted : FreePoolList → Outcome FreePoolList) (a z : ℕ) (xs : FreePoolList) (b : PoolHeader)
    (bs : FreePoolList)
    → Tiles a z (xs ++ b ∷ bs)
    → Coalesced false (xs ++ b ∷ bs)
    → b.allocated ≡ false
    → free_pool_with_tag unlisted (b.address + offset_mem) 0 (xs ++ b ∷ bs) ≡ ok (xs ++ b ∷ bs)
free_again unlisted a z xs b bs t co f =
    let (t0, t1) = Tiles-split a z xs (b ∷ bs) t in
    let (_, c1) = Coalesced-split false xs (b ∷ bs) co in
    free_restores unlisted (b.address + offset_mem) 0 xs b b bs bs
      (Tiles-AllMiss a (end_of a xs) (b.address + offset_mem) xs t0 (omega (arith, t1.0)))
      (ground arith) (free_block_again b bs (free_end false xs) c1 f) (c1.0 f).0
