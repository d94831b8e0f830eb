-- ===== src/Mm/Pool/Allocate.antt =====
-- What an allocation keeps, and the request that breaks the pool.
use kaush_os.Base.{
  ℕ, ◌+◌, ◌^◌, ◌≤◌, ◌<◌, ◌≡◌, refl, Bool, true, false, [], ◌∷◌, ◌++◌, Option, some, arith, ◌⊎◌, inl,
  inr, Bool-cases, Option-cases, ap, subst, ◌∙◌, sym,
}
use kaush_os.Mm.Pool.{
  PoolHeader, FreePoolList, sizeof_header, offset_mem, minimum_free_pool_size, fits, divides, carve,
  new_pool_block, allocate_in,
}
use kaush_os.Mm.Pool.Tiling.{
  Tiles, Tiles-le, Tiles-split, Tiles-join, end_of, Coalesced-split, Coalesced-join, free_end,
  Coalesced,
}

abbrev pub NoneFits : ℕ → FreePoolList → Type 0
NoneFits n [] = Unit {0}
NoneFits n (b ∷ bs) = (fits n b ≡ false) × NoneFits n bs

-- A successful search: the first block that fits, and what stands before and behind it.
pub record Picked (pooltype n tag : ℕ) (bs cs : FreePoolList) (p : ℕ) : Type 0 where
  pub before : FreePoolList
  pub block : PoolHeader
  pub behind : FreePoolList
  pub was : bs ≡ before ++ block ∷ behind
  pub becomes : cs ≡ before ++ (carve pooltype n tag block ++ behind)
  pub pointer : p ≡ block.address + offset_mem
  pub fit : fits n block ≡ true
  pub first : NoneFits n before

Picked-cons :
    {pooltype n tag : ℕ} {bs cs : FreePoolList} {p : ℕ} (b : PoolHeader)
    → fits n b ≡ false
    → Picked pooltype n tag bs cs p
    → Picked pooltype n tag (b ∷ bs) (b ∷ cs) p
Picked-cons b f k = record {
  before = b ∷ k.before;
  block = k.block;
  behind = k.behind;
  was = ap (◌∷◌ b) k.was;
  becomes = ap (◌∷◌ b) k.becomes;
  pointer = k.pointer;
  fit = k.fit;
  first = (f, k.first);
}

some_pair :
    {A B : Type 0} {a c : A} {b d : B}
    → ◌≡◌ {A = Option (A × B)} (some (a, b)) (some (c, d))
    → (a ≡ c) × (b ≡ d)
some_pair e = ground arith

pub allocate_in-Picked :
    (pooltype n tag : ℕ) (bs : FreePoolList) {cs : FreePoolList} {p : ℕ}
    → allocate_in pooltype n tag bs ≡ some (cs, p)
    → Picked pooltype n tag bs cs p
unfolding allocate_in
allocate_in-Picked pooltype n tag [] e = cc
allocate_in-Picked pooltype n tag (b ∷ bs) {cs} {p = r} e = elim (Bool-cases (fits n b)) [
  | inl f ↦
      let (p, q) = some_pair (rw f at e) in
      record {
        before = [];
        block = b;
        behind = bs;
        was = refl;
        becomes = sym p;
        pointer = sym q;
        fit = f;
        first = tt;
      }
  | inr f ↦ elim (Option-cases (allocate_in pooltype n tag bs)) [
    | inl miss ↦ ground (arith, miss)
    | inr ((ds, q), hit) ↦
        let (u, v) = some_pair (rw (f, hit) at e) in
        subst (λ t. Picked pooltype n tag (b ∷ bs) t r) u
          (subst (Picked pooltype n tag (b ∷ bs) (b ∷ ds)) v
            (Picked-cons b f (allocate_in-Picked pooltype n tag bs hit)))
  ]
]

-- A block is large enough for the test of the division, or for the request with a header.
abbrev pub IsRoomy : ℕ → PoolHeader → Type 0
IsRoomy n b = (minimum_free_pool_size ≤ b.size) ⊎ (n + sizeof_header ≤ b.size)

abbrev pub AllRoomy : ℕ → FreePoolList → Type 0
AllRoomy n [] = Unit {0}
AllRoomy n (b ∷ bs) = (fits n b ≡ true → IsRoomy n b) × AllRoomy n bs

pub new_pool_block-size :
    (pooltype n : ℕ) (b : PoolHeader)
    → n + sizeof_header ≤ b.size
    → b.size < 2 ^ 32
    → (new_pool_block pooltype n b).size + n + sizeof_header ≡ b.size
unfolding new_pool_block
new_pool_block-size pooltype n b h k = omega arith

new_pool_block-address :
    (pooltype n : ℕ) (b : PoolHeader)
    → b.address + sizeof_header + n < 2 ^ 32
    → (new_pool_block pooltype n b).address ≡ b.address + sizeof_header + n
unfolding new_pool_block
new_pool_block-address pooltype n b h = omega arith

pub divides_roomy :
    (n : ℕ) (b : PoolHeader)
    → IsRoomy n b
    → b.size < 2 ^ 32
    → divides n b ≡ true
    → n + sizeof_header ≤ b.size
unfolding divides
divides_roomy n b r k d = ground arith

carve-Tiles :
    (pooltype n tag a z : ℕ) (b : PoolHeader) (bs : FreePoolList)
    → Tiles a z (b ∷ bs)
    → z < 2 ^ 32
    → IsRoomy n b
    → Tiles a z (carve pooltype n tag b ++ bs)
unfolding carve
carve-Tiles pooltype n tag a z b bs t h r =
    let le = Tiles-le (a + sizeof_header + b.size) z bs t.1 in
    elim (Bool-cases (divides n b)) [
      | inl e ↦
          let room = divides_roomy n b r (omega (arith, le)) e in
          let same = new_pool_block-size pooltype n b room (omega (arith, le)) in
          rw e (
            t.0,
            (
              new_pool_block-address pooltype n b (omega (arith, le, t.0, room))
                  ∙ ap (λ (k : ℕ). k + sizeof_header + n) t.0,
              subst (λ k. Tiles k z bs) (omega (arith, same)) t.1,
            ),
          )
      | inr e ↦ rw e t
    ]

-- An allocation from a block that is roomy keeps the blocks end to end over the same memory.
pub allocate_in-Tiles :
    {pooltype n tag p : ℕ} (a z : ℕ) {bs cs : FreePoolList}
    → Tiles a z bs
    → z < 2 ^ 32
    → (k : Picked pooltype n tag bs cs p) → IsRoomy n k.block
    → Tiles a z cs
allocate_in-Tiles {pooltype} {n} {tag} a z t h k r =
    let (u, v) = Tiles-split a z k.before (k.block ∷ k.behind) (subst (Tiles a z) k.was t) in
    subst (Tiles a z) (sym k.becomes) (
      Tiles-join a (end_of a k.before) z k.before (carve pooltype n tag k.block ++ k.behind) u
        (carve-Tiles pooltype n tag (end_of a k.before) z k.block k.behind v h r))

pub AllRoomy-block :
    (n : ℕ) (xs : FreePoolList) (b : PoolHeader) (ys : FreePoolList)
    → AllRoomy n (xs ++ b ∷ ys)
    → fits n b ≡ true
    → IsRoomy n b
AllRoomy-block n [] b ys r f = r.0 f
AllRoomy-block n (x ∷ xs) b ys r f = AllRoomy-block n xs b ys r.1 f

carve-Coalesced :
    (pooltype n tag : ℕ) (q : Bool) (b : PoolHeader) (bs : FreePoolList)
    → Coalesced q (b ∷ bs)
    → b.allocated ≡ false
    → Coalesced q (carve pooltype n tag b ++ bs)
unfolding carve new_pool_block
carve-Coalesced pooltype n tag q b [] c f = ground arith
carve-Coalesced pooltype n tag q b (x ∷ bs) c f = ground arith

pub fits_free : (n : ℕ) (b : PoolHeader) → fits n b ≡ true → (b.allocated ≡ false) × (n < b.size)
unfolding fits
fits_free n b f = ground arith

-- An allocation keeps free blocks apart.
pub allocate_in-Coalesced :
    {pooltype n tag p : ℕ} (q : Bool) {bs cs : FreePoolList}
    → Coalesced q bs
    → Picked pooltype n tag bs cs p
    → Coalesced q cs
allocate_in-Coalesced {pooltype} {n} {tag} q c k =
    let (u, v) = Coalesced-split q k.before (k.block ∷ k.behind) (subst (Coalesced q) k.was c) in
    subst (Coalesced q) (sym k.becomes) (
      Coalesced-join q k.before (carve pooltype n tag k.block ++ k.behind) u (
        carve-Coalesced pooltype n tag (free_end q k.before) k.block k.behind v
          (fits_free n k.block k.fit).0))
