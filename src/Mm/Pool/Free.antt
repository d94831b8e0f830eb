-- ===== src/Mm/Pool/Free.antt =====
-- What freeing a block keeps.
use kaush_os.Base.{
  ℕ, ◌+◌, ◌^◌, ◌<◌, ◌≡◌, Bool, true, false, not, [], ◌∷◌, arith, Bool-cases, inl, inr, subst, ap,
  ◌∙◌,
}
use kaush_os.Base.Outcome.{Outcome, ok, >>=-eq-ok, ok-injective}
use kaush_os.Mm.Pool.{
  PoolHeader, FreePoolList, sizeof_header, verification_fails, merge_next, merge_prev, free_block,
  mem_at, free_behind, free_listed, holds, free_pool_with_tag, freed,
}
use kaush_os.Mm.Pool.Tiling.{Tiles, Tiles-le, Coalesced}

merge_next-Tiles :
    (a z : ℕ) (b : PoolHeader) (bs : FreePoolList)
    → Tiles a z (b ∷ bs)
    → z < 2 ^ 32
    → Tiles a z (merge_next b bs)
unfolding merge_next
merge_next-Tiles a z b [] t h = t
merge_next-Tiles a z b (c ∷ bs) t h = elim (Bool-cases c.allocated) [
  | inl e ↦ rw e t
  | inr e ↦
      let le = Tiles-le (a + sizeof_header + b.size + sizeof_header + c.size) z bs t.1.1 in
      rw e (t.0, subst (λ k. Tiles k z bs) (omega (arith, le, h)) t.1.1)
]

merge_prev-Tiles :
    (a z : ℕ) (b : PoolHeader) (bs : FreePoolList)
    → Tiles a z (b ∷ bs)
    → z < 2 ^ 32
    → Tiles a z (merge_prev b bs)
unfolding merge_prev
merge_prev-Tiles a z b [] t h = t
merge_prev-Tiles a z b (c ∷ bs) t h = elim (Bool-cases b.allocated) [
  | inl e ↦ rw e t
  | inr e ↦
      let le = Tiles-le (a + sizeof_header + b.size + sizeof_header + c.size) z bs t.1.1 in
      rw e (t.0, subst (λ k. Tiles k z bs) (omega (arith, le, h)) t.1.1)
]

free_block-Tiles :
    (tag a z : ℕ) (b : PoolHeader) (bs : FreePoolList) {cs : FreePoolList}
    → Tiles a z (b ∷ bs)
    → z < 2 ^ 32
    → free_block tag b bs ≡ ok cs
    → Tiles a z cs
unfolding free_block
free_block-Tiles tag a z b bs t h e = ground (arith, merge_next-Tiles a z (freed b) bs t h)

free_behind-Tiles :
    (p tag a z : ℕ) (prev : PoolHeader) (bs : FreePoolList) {cs : FreePoolList}
    → Tiles a z (prev ∷ bs)
    → z < 2 ^ 32
    → free_behind p tag prev bs ≡ ok cs
    → Tiles a z cs
unfolding free_behind
free_behind-Tiles p tag a z prev [] t h e = subst (Tiles a z) (ok-injective e) t
free_behind-Tiles p tag a z prev (b ∷ bs) t h e = elim (Bool-cases (mem_at p b)) [
  | inl f ↦
      let (ds, d, r) =
        >>=-eq-ok (free_block tag b bs) (λ ds. ok (merge_prev prev ds)) (rw f at e) in
      subst (Tiles a z) (ok-injective r) (
        merge_prev-Tiles a z prev ds
          (t.0, free_block-Tiles tag (a + sizeof_header + prev.size) z b bs t.1 h d) h)
  | inr f ↦
      let (ds, d, r) = >>=-eq-ok (free_behind p tag b bs) (λ ds. ok (prev ∷ ds)) (rw f at e) in
      subst (Tiles a z) (ok-injective r)
        (t.0, free_behind-Tiles p tag (a + sizeof_header + prev.size) z b bs t.1 h d)
]

free_listed-Tiles :
    (p tag a z : ℕ) (bs : FreePoolList) {cs : FreePoolList}
    → Tiles a z bs
    → z < 2 ^ 32
    → free_listed p tag bs ≡ ok cs
    → Tiles a z cs
unfolding free_listed
free_listed-Tiles p tag a z [] t h e = subst (Tiles a z) (ok-injective e) t
free_listed-Tiles p tag a z (b ∷ bs) t h e = elim (Bool-cases (mem_at p b)) [
  | inl f ↦ free_block-Tiles tag a z b bs t h (rw f at e)
  | inr f ↦ free_behind-Tiles p tag a z b bs t h (rw f at e)
]

-- A call of MmFreePoolWithTag on a block of the list that returns keeps the blocks end to end over
-- the same memory below 2 ^ 32, whatever it merges.
pub free_pool_with_tag-Tiles :
    (unlisted : FreePoolList → Outcome FreePoolList) (p tag a z : ℕ) (bs : FreePoolList)
    {cs : FreePoolList}
    → Tiles a z bs
    → z < 2 ^ 32
    → holds p bs ≡ true
    → free_pool_with_tag unlisted p tag bs ≡ ok cs
    → Tiles a z cs
unfolding free_pool_with_tag
free_pool_with_tag-Tiles unlisted p tag a z bs t h listed e =
    free_listed-Tiles p tag a z bs t h (rw listed at e)

-- The list of a block that was freed.
merge_next-Coalesced :
    (q : Bool) (b : PoolHeader) (bs : FreePoolList)
    → Coalesced q (b ∷ bs)
    → Coalesced false (merge_next (freed b) bs)
unfolding merge_next
merge_next-Coalesced q b [] c = ground arith
merge_next-Coalesced q b (x ∷ bs) c = ground arith

merge_prev-Coalesced :
    (q : Bool) (prev : PoolHeader) (b : PoolHeader) (bs : FreePoolList)
    → Coalesced q (prev ∷ b ∷ bs)
    → Coalesced q (merge_prev prev (merge_next (freed b) bs))
unfolding merge_prev merge_next
merge_prev-Coalesced q prev b [] c = ground arith
merge_prev-Coalesced q prev b (x ∷ bs) c = ground arith

free_block-merge :
    (tag : ℕ) (b : PoolHeader) (bs : FreePoolList) {cs : FreePoolList}
    → free_block tag b bs ≡ ok cs
    → merge_next (freed b) bs ≡ cs
unfolding free_block
free_block-merge tag b bs e = ground arith

free_behind-Coalesced :
    (p tag : ℕ) (q : Bool) (prev : PoolHeader) (bs : FreePoolList) {cs : FreePoolList}
    → Coalesced q (prev ∷ bs)
    → free_behind p tag prev bs ≡ ok cs
    → Coalesced q cs
unfolding free_behind
free_behind-Coalesced p tag q prev [] c e = subst (Coalesced q) (ok-injective e) c
free_behind-Coalesced p tag q prev (b ∷ bs) c e = elim (Bool-cases (mem_at p b)) [
  | inl f ↦
      let (ds, d, r) =
        >>=-eq-ok (free_block tag b bs) (λ ds. ok (merge_prev prev ds)) (rw f at e) in
      subst (Coalesced q) (ap (merge_prev prev) (free_block-merge tag b bs d) ∙ ok-injective r)
        (merge_prev-Coalesced q prev b bs c)
  | inr f ↦
      let (ds, d, r) = >>=-eq-ok (free_behind p tag b bs) (λ ds. ok (prev ∷ ds)) (rw f at e) in
      subst (Coalesced q) (ok-injective r)
        (c.0, free_behind-Coalesced p tag (not prev.allocated) b bs c.1 d)
]

free_listed-Coalesced :
    (p tag : ℕ) (bs : FreePoolList) {cs : FreePoolList}
    → Coalesced false bs
    → free_listed p tag bs ≡ ok cs
    → Coalesced false cs
unfolding free_listed
free_listed-Coalesced p tag [] c e = subst (Coalesced false) (ok-injective e) c
free_listed-Coalesced p tag (b ∷ bs) c e = elim (Bool-cases (mem_at p b)) [
  | inl f ↦
      subst (Coalesced false) (free_block-merge tag b bs (rw f at e))
        (merge_next-Coalesced false b bs c)
  | inr f ↦ free_behind-Coalesced p tag false b bs c (rw f at e)
]

-- A call of MmFreePoolWithTag on a block of the list that returns leaves no two free blocks side by
-- side and no tag on a free block, if it was so before.
pub free_pool_with_tag-Coalesced :
    (unlisted : FreePoolList → Outcome FreePoolList) (p tag : ℕ) (bs : FreePoolList)
    {cs : FreePoolList}
    → Coalesced false bs
    → holds p bs ≡ true
    → free_pool_with_tag unlisted p tag bs ≡ ok cs
    → Coalesced false cs
unfolding free_pool_with_tag
free_pool_with_tag-Coalesced unlisted p tag bs c listed e =
    free_listed-Coalesced p tag bs c (rw listed at e)

pub free_block_again :
    (b : PoolHeader) (bs : FreePoolList) (q : Bool)
    → Coalesced q (b ∷ bs)
    → b.allocated ≡ false
    → free_block 0 b bs ≡ ok (b ∷ bs)
unfolding free_block merge_next verification_fails
free_block_again b [] q c f = ground arith
free_block_again b (x ∷ bs) q c f = ground arith
