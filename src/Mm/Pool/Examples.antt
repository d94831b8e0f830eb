-- ===== src/Mm/Pool/Examples.antt =====
-- The pool's operations on a pool of two pages.
use kaush_os.Base.{ℕ, [], ◌∷◌, ◌≡◌, refl, Bool, true, false, arith}
use kaush_os.Base.Outcome.{ok, bug_check}
use kaush_os.Mm.Pool.{
  PoolHeader, FreePoolList, initialize_pool, allocate_pool_with_tag, free_pool_with_tag, padded,
  round_up, allocate_in, fits, carve, divides, new_pool_block, list_is_empty, free_block,
  free_behind, free_listed, holds, merge_next, merge_prev, verification_fails,
}
use kaush_os.Mm.Pool.Tiling.{Tiles}
use kaush_os.Mm.Pool.Allocate.{AllRoomy}
use kaush_os.Mm.Pool.RoundTrip.{free_again}
use kaush_os.Mm.Pool.Requests.{free-allocate_pool}
use kaush_os.Mm.Pool.History.{Reach, done, next, allocates, frees, WellFormed, Reach-WellFormed}
use kaush_os.Mm.Pool.Underflow.{allocate_pool_with_tag-breaks, AllShort}

abbrev block : ℕ → ℕ → ℕ → Bool → PoolHeader
block address size tag allocated = record {
  address = address;
  pool_type = 0;
  size = size;
  tag = tag;
  allocated = allocated;
}

abbrev fresh : FreePoolList
fresh = block 4096 8164 0 false ∷ []

-- After a request for 100 bytes.
abbrev used : FreePoolList
used = block 4096 156 7 true ∷ block 4280 7980 0 false ∷ []

-- A pool with a block of 160 bytes.
abbrev small : FreePoolList
small = block 4096 160 0 false ∷ []

-- The header behind its first 156 bytes says that 2 ^ 32 - 24 bytes are free.
abbrev overrun : FreePoolList
overrun = block 4096 156 7 true ∷ block 4280 4294967272 0 false ∷ []

allocated : allocate_pool_with_tag 0 0 100 7 fresh ≡ ok (used, 4120)
unfolding allocate_pool_with_tag padded round_up allocate_in fits carve divides new_pool_block
    list_is_empty
allocated = refl

listed : holds 4120 used ≡ true
unfolding holds
listed = refl

released : free_pool_with_tag (λ bs. bug_check) 4120 7 used ≡ ok fresh
unfolding holds free_listed free_pool_with_tag free_block free_behind merge_next merge_prev
    verification_fails
released = refl

roomy : AllRoomy (padded 100) fresh
unfolding padded round_up
roomy = ground arith

fresh-Tiles : Tiles 4096 12288 fresh
fresh-Tiles = (refl, refl)

free-allocate_pool_example : free_pool_with_tag (λ bs. bug_check) 4120 7 used ≡ ok fresh
free-allocate_pool_example =
    free-allocate_pool (λ bs. bug_check) 0 0 100 7 4096 12288 fresh fresh-Tiles (omega arith)
      (ground arith) roomy allocated (omega arith)

free_again_example : free_pool_with_tag (λ bs. bug_check) 4120 0 fresh ≡ ok fresh
free_again_example =
    free_again (λ bs. bug_check) 4096 12288 [] (block 4096 8164 0 false) [] fresh-Tiles
      (ground arith) refl

-- The pool is made, and 100 bytes are taken and given back.
history : Reach (initialize_pool 4096 8192 0) fresh
unfolding initialize_pool
history =
    next (next done (allocates 0 0 100 7 roomy allocated))
      (frees (λ bs. bug_check) 4120 7 listed released)

Reach-WellFormed_example : WellFormed 4096 12288 fresh
Reach-WellFormed_example = Reach-WellFormed 4096 8192 0 fresh (omega arith) (omega arith) history

served_small : allocate_pool_with_tag 0 0 100 7 small ≡ ok (overrun, 4120)
unfolding allocate_pool_with_tag padded round_up allocate_in fits carve divides new_pool_block
    list_is_empty
served_small = refl

short : AllShort (padded 100) small
unfolding padded round_up
short = ground arith

allocate_pool_with_tag-breaks_example : ¬ Tiles 4096 4284 overrun
allocate_pool_with_tag-breaks_example =
    allocate_pool_with_tag-breaks 0 0 100 7 4096 4284 small (omega arith) short served_small
      (omega arith)
