-- ===== src/Mm/Pool/History.antt =====
-- A pool from MmInitializePool on, under any calls of MmAllocatePoolWithTag and MmFreePoolWithTag.
use kaush_os.Base.{ℕ, ◌+◌, ◌^◌, ◌≤◌, ◌<◌, ◌≡◌, arith, true, false}
use kaush_os.Base.Outcome.{Outcome, ok}
use kaush_os.Mm.Pool.{
  FreePoolList, initialize_pool, padded, allocate_pool_with_tag, free_pool_with_tag, holds,
  sizeof_header,
}
use kaush_os.Mm.Pool.Tiling.{Tiles, Coalesced, initialize_pool-Tiles}
use kaush_os.Mm.Pool.Allocate.{AllRoomy}
use kaush_os.Mm.Pool.Requests.{allocate_pool_with_tag-Tiles, allocate_pool_with_tag-Coalesced}
use kaush_os.Mm.Pool.Free.{free_pool_with_tag-Tiles, free_pool_with_tag-Coalesced}

-- A call that returns. A free is of a block whose header is in the list. A request only comes where each free block that fits it is at least
-- MINIMUMFREEPOOLSIZE bytes or has room for a header behind the request.
pub data Step : FreePoolList → FreePoolList → Type 0 where
  allocates :
      {bs cs : FreePoolList} {p : ℕ} (irql pooltype bytes tag : ℕ)
      → AllRoomy (padded bytes) bs
      → allocate_pool_with_tag irql pooltype bytes tag bs ≡ ok (cs, p)
      → Step bs cs
  frees :
      {bs cs : FreePoolList} (unlisted : FreePoolList → Outcome FreePoolList) (p tag : ℕ)
      → holds p bs ≡ true
      → free_pool_with_tag unlisted p tag bs ≡ ok cs
      → Step bs cs

pub data Reach (bs : FreePoolList) : FreePoolList → Type 0 where
  done : Reach bs bs
  next : {cs ds : FreePoolList} → Reach bs cs → Step cs ds → Reach bs ds

-- The blocks lie end to end over the memory, and free blocks have no tag and no free neighbour.
pub record WellFormed (a z : ℕ) (bs : FreePoolList) : Type 0 where
  pub tiles : Tiles a z bs
  pub coalesced : Coalesced false bs

initialize_pool-WellFormed :
    (va size pooltype : ℕ)
    → sizeof_header ≤ size
    → va + size < 2 ^ 32
    → WellFormed va (va + size) (initialize_pool va size pooltype)
unfolding initialize_pool
initialize_pool-WellFormed va size pooltype lo hi = record {
  tiles = initialize_pool-Tiles va size pooltype lo (omega (arith, hi));
  coalesced = ground arith;
}

Step-WellFormed :
    {a z : ℕ} {bs cs : FreePoolList}
    → z < 2 ^ 32
    → Step bs cs
    → WellFormed a z bs
    → WellFormed a z cs
Step-WellFormed {a} {z} {bs} h (allocates irql pooltype bytes tag r e) w = record {
  tiles = allocate_pool_with_tag-Tiles irql pooltype bytes tag a z bs w.tiles h r e;
  coalesced = allocate_pool_with_tag-Coalesced irql pooltype bytes tag bs w.coalesced e;
}
Step-WellFormed {a} {z} {bs} h (frees unlisted p tag listed e) w = record {
  tiles = free_pool_with_tag-Tiles unlisted p tag a z bs w.tiles h listed e;
  coalesced = free_pool_with_tag-Coalesced unlisted p tag bs w.coalesced listed e;
}

-- A pool that MmInitializePool has made of memory that ends below 2 ^ 32 and has room for a header,
-- after any calls of MmAllocatePoolWithTag and MmFreePoolWithTag that return, in any order, where
-- each free is of memory before which a header of the list lies, in use or not: its blocks lie end to end over all of the memory, no two free ones stand side by side, and none of
-- them has a tag. Each request comes where every free block that fits it is at least
-- MINIMUMFREEPOOLSIZE bytes or has room for a header behind the request.
pub Reach-WellFormed :
    (va size pooltype : ℕ) (bs : FreePoolList)
    → sizeof_header ≤ size
    → va + size < 2 ^ 32
    → Reach (initialize_pool va size pooltype) bs
    → WellFormed va (va + size) bs
Reach-WellFormed va size pooltype bs lo hi r = go r
  where
    go :
        {cs : FreePoolList}
        → Reach (initialize_pool va size pooltype) cs
        → WellFormed va (va + size) cs
    go done = initialize_pool-WellFormed va size pooltype lo hi
    go (next r1 step) = Step-WellFormed hi step (go r1)
