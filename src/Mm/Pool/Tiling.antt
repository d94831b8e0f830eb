-- ===== src/Mm/Pool/Tiling.antt =====
-- The blocks of a pool lie end to end over its memory.
use kaush_os.Base.{
  ℕ, ◌+◌, ◌^◌, ◌≤◌, ◌<◌, ◌≡◌, refl, Bool, false, [], ◌∷◌, ◌++◌, arith, not, subst, sym,
}
use kaush_os.Mm.Pool.{FreePoolList, sizeof_header, null_tag, initialize_pool}

-- From `a` to `z`, each block with its header.
abbrev pub Tiles : ℕ → ℕ → FreePoolList → Type 0
Tiles a z [] = a ≡ z
Tiles a z (b ∷ bs) = (b.address ≡ a) × Tiles (a + sizeof_header + b.size) z bs

pub Tiles-le : (a z : ℕ) (bs : FreePoolList) → Tiles a z bs → a ≤ z
Tiles-le a z [] t = omega arith
Tiles-le a z (b ∷ bs) t = omega (arith, Tiles-le (a + sizeof_header + b.size) z bs t.1)

-- No two free blocks are neighbours, and a free block carries no tag. The first argument says
-- whether the block before the list is free.
abbrev pub Coalesced : Bool → FreePoolList → Type 0
Coalesced q [] = Unit {0}
Coalesced q (b ∷ bs) =
    (b.allocated ≡ false → (q ≡ false) × (b.tag ≡ null_tag)) × Coalesced (not b.allocated) bs

-- Whether the last block before the end is free.
unfoldable pub free_end : Bool → FreePoolList → Bool
free_end q [] = q
free_end q (b ∷ bs) = free_end (not b.allocated) bs

pub Coalesced-split :
    (q : Bool) (xs ys : FreePoolList)
    → Coalesced q (xs ++ ys)
    → Coalesced q xs × Coalesced (free_end q xs) ys
unfolding free_end
Coalesced-split q [] ys c = (tt, c)
Coalesced-split q (x ∷ xs) ys c =
    let (u, v) = Coalesced-split (not x.allocated) xs ys c.1 in ((c.0, u), v)

pub Coalesced-join :
    (q : Bool) (xs ys : FreePoolList)
    → Coalesced q xs
    → Coalesced (free_end q xs) ys
    → Coalesced q (xs ++ ys)
unfolding free_end
Coalesced-join q [] ys c d = d
Coalesced-join q (x ∷ xs) ys c d = (c.0, Coalesced-join (not x.allocated) xs ys c.1 d)

pub initialize_pool-Tiles :
    (va size pooltype : ℕ)
    → sizeof_header ≤ size
    → size < 2 ^ 32
    → Tiles va (va + size) (initialize_pool va size pooltype)
unfolding initialize_pool
initialize_pool-Tiles va size pooltype h k = omega arith

-- Where the blocks `xs` end.
unfoldable pub end_of : ℕ → FreePoolList → ℕ
end_of a [] = a
end_of a (b ∷ bs) = end_of (a + sizeof_header + b.size) bs

pub Tiles-split :
    (a z : ℕ) (xs ys : FreePoolList)
    → Tiles a z (xs ++ ys)
    → Tiles a (end_of a xs) xs × Tiles (end_of a xs) z ys
unfolding end_of
Tiles-split a z [] ys t = (refl, t)
Tiles-split a z (x ∷ xs) ys t =
    let (p, q) = Tiles-split (a + sizeof_header + x.size) z xs ys t.1 in ((t.0, p), q)

pub Tiles-join :
    (a m z : ℕ) (xs ys : FreePoolList) → Tiles a m xs → Tiles m z ys → Tiles a z (xs ++ ys)
Tiles-join a m z [] ys t u = subst (λ k. Tiles k z ys) (sym t) u
Tiles-join a m z (x ∷ xs) ys t u = (t.0, Tiles-join (a + sizeof_header + x.size) m z xs ys t.1 u)
