-- ===== src/Mm/Pool/Requests.antt =====
-- MmAllocatePoolWithTag as its callers see it.
use kaush_os.Base.{
  ℕ, ◌+◌, ◌^◌, ◌≤◌, ◌<◌, ◌≡◌, ◌≢◌, refl, true, false, [], ◌∷◌, ◌++◌, arith, ◌⊎◌, Bool-cases, inl,
  inr, subst, sym, ap, ◌∙◌, none, some, Option-cases,
}
use kaush_os.Base.Outcome.{Outcome, ok}
use kaush_os.Mm.Pool.{
  PoolHeader, FreePoolList, offset_mem, pool_pad, round_up, padded, carve, divides, new_pool_block,
  fits, allocate_in, or_null, allocate_pool_with_tag, free_pool_with_tag,
}
use kaush_os.Mm.Pool.Tiling.{Tiles, Coalesced}
use kaush_os.Mm.Pool.Allocate.{
  IsRoomy, Picked, NoneFits, AllRoomy, AllRoomy-block, allocate_in-Picked, allocate_in-Tiles,
  allocate_in-Coalesced, fits_free,
}
use kaush_os.Mm.Pool.RoundTrip.{free-allocate}

allocate_in-none :
    (pooltype n tag : ℕ) (bs : FreePoolList) → allocate_in pooltype n tag bs ≡ none → NoneFits n bs
unfolding allocate_in
allocate_in-none pooltype n tag [] e = tt
allocate_in-none pooltype n tag (b ∷ bs) e = elim (Bool-cases (fits n b)) [
  | inl f ↦ ground (arith, f)
  | inr f ↦ (f, allocate_in-none pooltype n tag bs (ground (arith, f)))
]

Picked-IsRoomy :
    {pooltype n tag p : ℕ} {bs cs : FreePoolList}
    → AllRoomy n bs
    → (k : Picked pooltype n tag bs cs p) → IsRoomy n k.block
Picked-IsRoomy {n} r k =
    AllRoomy-block n k.before k.block k.behind (subst (AllRoomy n) k.was r) k.fit

searched :
    (irql pooltype bytes tag : ℕ) (bs : FreePoolList) {r : FreePoolList × ℕ}
    → allocate_pool_with_tag irql pooltype bytes tag bs ≡ ok r
    → or_null bs (allocate_in pooltype (padded bytes) tag bs) ≡ r
unfolding allocate_pool_with_tag
searched irql pooltype bytes tag bs e = ground arith

-- What a call that returns has done: it found the first block that fits, or no block fits.
pub allocate_cases :
    (irql pooltype bytes tag : ℕ) (bs : FreePoolList) {cs : FreePoolList} {p : ℕ}
    → allocate_pool_with_tag irql pooltype bytes tag bs ≡ ok (cs, p)
    → ((cs ≡ bs) × (p ≡ 0) × NoneFits (padded bytes) bs)
      ⊎ Picked pooltype (padded bytes) tag bs cs p
allocate_cases irql pooltype bytes tag bs {cs} {p} e =
    let r = searched irql pooltype bytes tag bs e in
    elim (Option-cases (allocate_in pooltype (padded bytes) tag bs)) [
      | inl miss ↦
          let m : ◌≡◌ {A = FreePoolList × ℕ} (bs, 0) (cs, p) = rw miss at r in
          inl (ground arith, ground arith, allocate_in-none pooltype (padded bytes) tag bs miss)
      | inr (x, hit) ↦
          let m : x ≡ (cs, p) = rw hit at r in
          inr (allocate_in-Picked pooltype (padded bytes) tag bs (hit ∙ ap some m))
    ]

-- A call of MmAllocatePoolWithTag that returns keeps the blocks of its pool end to end over the
-- pool's memory, if each free block that fits the request is at least MINIMUMFREEPOOLSIZE bytes
-- or has room for a header behind the request.
pub allocate_pool_with_tag-Tiles :
    (irql pooltype bytes tag a z : ℕ) (bs : FreePoolList) {cs : FreePoolList} {p : ℕ}
    → Tiles a z bs
    → z < 2 ^ 32
    → AllRoomy (padded bytes) bs
    → allocate_pool_with_tag irql pooltype bytes tag bs ≡ ok (cs, p)
    → Tiles a z cs
allocate_pool_with_tag-Tiles irql pooltype bytes tag a z bs t h r e =
    elim (allocate_cases irql pooltype bytes tag bs e) [
      | inl (same, _, _) ↦ subst (Tiles a z) (sym same) t
      | inr k ↦ allocate_in-Tiles a z t h k (Picked-IsRoomy r k)
    ]

-- A call of MmAllocatePoolWithTag that returns leaves no two free blocks side by side and no tag
-- on a free block, if it was so before.
pub allocate_pool_with_tag-Coalesced :
    (irql pooltype bytes tag : ℕ) (bs : FreePoolList) {cs : FreePoolList} {p : ℕ}
    → Coalesced false bs
    → allocate_pool_with_tag irql pooltype bytes tag bs ≡ ok (cs, p)
    → Coalesced false cs
allocate_pool_with_tag-Coalesced irql pooltype bytes tag bs c e =
    elim (allocate_cases irql pooltype bytes tag bs e) [
      | inl (same, _, _) ↦ subst (Coalesced false) (sym same) c
      | inr k ↦ allocate_in-Coalesced false c k
    ]

-- The pool's blocks lie end to end below 2 ^ 32, no two free ones side by side and none of them
-- with a tag, and each free block that fits is at least MINIMUMFREEPOOLSIZE bytes or has room for a
-- header behind the request. Then what MmAllocatePoolWithTag gives, unless it is NULL,
-- MmFreePoolWithTag with the same tag takes back without a bug check, and the list is again the one
-- before the two calls.
pub free-allocate_pool :
    (unlisted : FreePoolList → Outcome FreePoolList) (irql pooltype bytes tag a z : ℕ)
    (bs : FreePoolList) {cs : FreePoolList} {p : ℕ}
    → Tiles a z bs
    → z < 2 ^ 32
    → Coalesced false bs
    → AllRoomy (padded bytes) bs
    → allocate_pool_with_tag irql pooltype bytes tag bs ≡ ok (cs, p)
    → p ≢ 0
    → free_pool_with_tag unlisted p tag cs ≡ ok bs
free-allocate_pool unlisted irql pooltype bytes tag a z bs t h c r e ne =
    elim (allocate_cases irql pooltype bytes tag bs e) [
      | inl (_, zero_p, _) ↦ absurd (ne zero_p)
      | inr k ↦ free-allocate unlisted a z t h c k (Picked-IsRoomy r k)
    ]

padded-le : (bytes : ℕ) → bytes + pool_pad + 3 < 2 ^ 32 → bytes + pool_pad ≤ padded bytes
unfolding padded round_up
padded-le bytes h = omega arith

-- What the caller of a successful allocation gets.
pub record Served (bytes tag p : ℕ) (bs cs : FreePoolList) : Type 0 where
  pub before : FreePoolList
  pub taken : PoolHeader
  pub left : FreePoolList
  pub behind : FreePoolList
  pub was : PoolHeader
  pub split : bs ≡ before ++ was ∷ behind
  pub becomes : cs ≡ before ++ (taken ∷ (left ++ behind))
  pub none_before : NoneFits (padded bytes) before
  pub was_free : was.allocated ≡ false
  pub in_use : taken.allocated ≡ true
  pub owner : taken.tag ≡ tag
  pub pointer : p ≡ taken.address + offset_mem
  pub large : bytes + pool_pad ≤ taken.size

-- A call of MmAllocatePoolWithTag with a small number of bytes that does not return NULL takes the
-- first block of the list that fits. That block was free; it now is in use under the caller's tag,
-- lies right before the pointer, and holds the bytes and the pad. The other blocks stay.
pub allocate_pool_with_tag-Served :
    (irql pooltype bytes tag : ℕ) (bs : FreePoolList) {cs : FreePoolList} {p : ℕ}
    → bytes + pool_pad + 3 < 2 ^ 32
    → allocate_pool_with_tag irql pooltype bytes tag bs ≡ ok (cs, p)
    → p ≢ 0
    → Served bytes tag p bs cs
unfolding carve
allocate_pool_with_tag-Served irql pooltype bytes tag bs small e ne =
    elim (allocate_cases irql pooltype bytes tag bs e) [
      | inl (_, zero_p, _) ↦ absurd (ne zero_p)
      | inr k ↦
          let (free, lt) = fits_free (padded bytes) k.block k.fit in
          elim (Bool-cases (divides (padded bytes) k.block)) [
            | inl d ↦ record {
              before = k.before;
              taken = record (k.block) { size = padded bytes; tag = tag; allocated = true };
              left = new_pool_block pooltype (padded bytes) k.block ∷ [];
              behind = k.behind;
              was = k.block;
              split = k.was;
              becomes = rw d at k.becomes;
              none_before = k.first;
              was_free = free;
              in_use = refl;
              owner = refl;
              pointer = k.pointer;
              large = padded-le bytes small;
            }
            | inr d ↦ record {
              before = k.before;
              taken = record (k.block) { tag = tag; allocated = true };
              left = [];
              behind = k.behind;
              was = k.block;
              split = k.was;
              becomes = rw d at k.becomes;
              none_before = k.first;
              was_free = free;
              in_use = refl;
              owner = refl;
              pointer = k.pointer;
              large = omega (arith, padded-le bytes small, lt);
            }
          ]
    ]
