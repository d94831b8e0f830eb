-- ===== src/Mm/Pool.antt =====
-- KaushOS/kern/mm/pool.c: the kernel pool, a list of blocks with headers in the memory they manage.
-- The list is the one of KList; here it is the list of its headers in order. The first byte of a
-- block's memory, which the code clears in a free block, is not modelled, and the pool's spin lock
-- is taken and given back inside each operation.
pub mod Tiling
pub mod Allocate
pub mod Free
pub mod RoundTrip
pub mod Requests
pub mod Underflow
pub mod History
mod Examples
use kaush_os.Base.{
  ℕ, ◌+◌, ◌-◌, ◌*◌, ◌/◌, ◌%◌, ◌^◌, Bool, true, false, not, ◌&&◌, ◌||◌, List, [], ◌∷◌, ◌++◌, Option,
  none, some, ◌==◌, ◌!=◌, ltb, leb, if◌then◌else◌,
}
use kaush_os.Base.Outcome.{Outcome, ok, bug_check, assert, ◌>>=◌, ◌>>◌}

-- sizeof(POOLHEADER) and the offset of `mem` in it, on the 32-bit target.
abbrev pub sizeof_header : ℕ
sizeof_header = 28

abbrev pub offset_mem : ℕ
offset_mem = 24

abbrev pub pool_pad : ℕ
pool_pad = 56

abbrev pub minimum_free_pool_size : ℕ
minimum_free_pool_size = 512

abbrev pub null_tag : ℕ
null_tag = 0

abbrev pub number_of_pools : ℕ
number_of_pools = 2

abbrev pub dispatch_level : ℕ
dispatch_level = 2

abbrev pub non_paged_pool : ℕ
non_paged_pool = 1

-- POOLHEADER, at `address`. `allocated` is POOL_STATUS_ALLOCATED, the only bit of `status`.
pub record PoolHeader : Type 0 where
  pub address : ℕ
  pub pool_type : ℕ
  pub size : ℕ
  pub tag : ℕ
  pub allocated : Bool

abbrev pub FreePoolList : Type 0
FreePoolList = List PoolHeader

-- ROUNDUP(a, n) of inc/types.h on a ULONG.
unfoldable pub round_up : ℕ → ℕ → ℕ
round_up a n = let top = (a + n - 1) % 2 ^ 32 in top - top % n

-- MmInitializePool, once MmVirtualAlloc has mapped the pages.
pub initialize_pool : ℕ → ℕ → ℕ → FreePoolList
initialize_pool va size pooltype =
    record {
      address = va;
      pool_type = pooltype;
      size = (size + 2 ^ 32 - sizeof_header) % 2 ^ 32;
      tag = null_tag;
      allocated = false;
    }
    ∷ []

-- The bytes that a request takes from the pool.
pub padded : ℕ → ℕ
padded number_of_bytes = round_up ((number_of_bytes + pool_pad) % 2 ^ 32) 4

pub fits : ℕ → PoolHeader → Bool
fits n b = not b.allocated && ltb n b.size

-- The subtraction of MINIMUMFREEPOOLSIZE is on unsigned numbers.
pub divides : ℕ → PoolHeader → Bool
divides n b = ltb n ((b.size + 2 ^ 32 - minimum_free_pool_size) % 2 ^ 32)

-- The block that is split off behind the first `n` bytes.
pub new_pool_block : ℕ → ℕ → PoolHeader → PoolHeader
new_pool_block pooltype n b = record {
  address = (b.address + sizeof_header + n) % 2 ^ 32;
  pool_type = pooltype;
  size = (b.size + 2 ^ 32 - sizeof_header + 2 ^ 32 - n) % 2 ^ 32;
  tag = null_tag;
  allocated = false;
}

-- What the block that was found becomes.
pub carve : ℕ → ℕ → ℕ → PoolHeader → FreePoolList
carve pooltype n tag b =
    if divides n b
    then record b { size = n; tag = tag; allocated = true } ∷ new_pool_block pooltype n b ∷ []
    else record b { tag = tag; allocated = true } ∷ []

-- The search and the update of the first block that fits; `none` if there is none.
pub allocate_in : ℕ → ℕ → ℕ → FreePoolList → Option (FreePoolList × ℕ)
allocate_in pooltype n tag [] = none
allocate_in pooltype n tag (b ∷ bs) =
    let rest = allocate_in pooltype n tag bs in
    if fits n b
    then some (carve pooltype n tag b ++ bs, b.address + offset_mem)
    else elim rest [ none ↦ none | some (bs', p) ↦ some (b ∷ bs', p) ]

pub list_is_empty : FreePoolList → Bool
list_is_empty [] = true
list_is_empty (b ∷ bs) = false

-- Where no block fits the pool stays as it was, and the caller gets NULL.
abbrev or_null : FreePoolList → Option (FreePoolList × ℕ) → FreePoolList × ℕ
or_null bs none = (bs, 0)
or_null bs (some r) = r

-- MmAllocatePoolWithTag on the list of its pool, at the current IRQL; 0 is NULL.
pub allocate_pool_with_tag : ℕ → ℕ → ℕ → ℕ → FreePoolList → Outcome (FreePoolList × ℕ)
allocate_pool_with_tag irql pooltype number_of_bytes tag bs = do
  assert (leb irql dispatch_level)
  assert (if irql == dispatch_level then pooltype == non_paged_pool else true)
  assert (not (list_is_empty bs))
  ok (or_null bs (allocate_in pooltype (padded number_of_bytes) tag bs))

-- The conditional binds looser than `||`, so the three tests only choose whether the tags count.
pub verification_fails : ℕ → PoolHeader → Bool
verification_fails tag b =
    if not b.allocated || leb number_of_pools b.pool_type || tag != 0 then b.tag != tag else false

abbrev pub absorb : PoolHeader → PoolHeader → PoolHeader
absorb b next = record b { size = (b.size + next.size + sizeof_header) % 2 ^ 32 }

-- A block that is now free swallows a free block behind it.
pub merge_next : PoolHeader → FreePoolList → FreePoolList
merge_next b [] = b ∷ []
merge_next b (next ∷ bs) = if not next.allocated then absorb b next ∷ bs else b ∷ next ∷ bs

-- A free block before it swallows it.
pub merge_prev : PoolHeader → FreePoolList → FreePoolList
merge_prev prev [] = prev ∷ []
merge_prev prev (b ∷ bs) = if not prev.allocated then absorb prev b ∷ bs else prev ∷ b ∷ bs

abbrev pub freed : PoolHeader → PoolHeader
freed b = record b { tag = null_tag; allocated = false }

-- The block is checked, marked free and merged with the block behind it.
pub free_block : ℕ → PoolHeader → FreePoolList → Outcome FreePoolList
free_block tag b bs = if verification_fails tag b then bug_check else ok (merge_next (freed b) bs)

abbrev pub mem_at : ℕ → PoolHeader → Bool
mem_at p b = b.address + offset_mem == p

-- Whether a header of the list lies before the memory at `p`.
pub holds : ℕ → FreePoolList → Bool
holds p [] = false
holds p (b ∷ bs) = mem_at p b || holds p bs

-- The block stands behind `prev`, in the list.
pub free_behind : ℕ → ℕ → PoolHeader → FreePoolList → Outcome FreePoolList
free_behind p tag prev [] = ok (prev ∷ [])
free_behind p tag prev (b ∷ bs) =
    if mem_at p b
    then (do bs' ← free_block tag b bs; ok (merge_prev prev bs'))
    else (do bs' ← free_behind p tag b bs; ok (prev ∷ bs'))

-- A block of the list is freed.
pub free_listed : ℕ → ℕ → FreePoolList → Outcome FreePoolList
free_listed p tag [] = ok []
free_listed p tag (b ∷ bs) = if mem_at p b then free_block tag b bs else free_behind p tag b bs

-- MmFreePoolWithTag on the list of the pool that the block's header names. The C code goes from `p`
-- to the header without a search. Where no header of the list lies there, it goes on with the bytes
-- that it finds, which the list does not say: `unlisted` is what it makes of the list then.
pub free_pool_with_tag :
    (FreePoolList → Outcome FreePoolList) → ℕ → ℕ → FreePoolList → Outcome FreePoolList
free_pool_with_tag unlisted p tag bs = if holds p bs then free_listed p tag bs else unlisted bs
