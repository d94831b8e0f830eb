-- ===== src/Strings/Blocks.antt =====
-- The functions of string.c that copy and compare blocks of memory.
use kaush_os.Base.{
  ℕ, zero, suc, ◌+◌, ◌-◌, ◌%◌, ◌^◌, ◌≤◌, ◌≡◌, sym, ◌∙◌, false, ◌&&◌, ltb, leb, if◌then◌else◌, arith,
  ◌⊎◌, inl, inr, Bool-cases, ap,
}
use kaush_os.Strings.{Bytes, store, memcpy, move_down, memmove, memset, set_bytes}

-- What a block of `n` bytes at `dst` becomes by copying all of it at once.
abbrev pub moved : ℕ → ℕ → ℕ → Bytes → Bytes
moved dst src n m = λ a. if leb dst a && ltb a (dst + n) then m (src + (a - dst)) else m a

same_byte : (m : Bytes) (i j : ℕ) → i ≡ j → m i ≡ m j
same_byte m i j e = ap m e

moved_first :
    (dst src n : ℕ) (m : Bytes) (a : ℕ)
    → (dst ≤ src) ⊎ (src + suc n ≤ dst)
    → moved (suc dst) (suc src) n (store dst (m src) m) a ≡ moved dst src (suc n) m a
moved_first dst src n m a apart = ground (
  arith,
  apart,
  same_byte m (src + (a - dst)) src,
  same_byte m (src + (a - dst)) (suc src + (a - suc dst)),
)

moved_last :
    (dst src n : ℕ) (m : Bytes) (a : ℕ)
    → src ≤ dst
    → moved dst src n (store (dst + n) (m (src + n)) m) a ≡ moved dst src (suc n) m a
moved_last dst src n m a apart = ground (arith, apart, same_byte m (src + (a - dst)) (src + n))

memcpy-moved :
    (dst src n : ℕ) (m : Bytes) (a : ℕ)
    → (dst ≤ src) ⊎ (src + n ≤ dst)
    → memcpy dst src n m a ≡ moved dst src n m a
unfolding memcpy
memcpy-moved dst src zero m a apart = ground arith
memcpy-moved dst src (suc n) m a apart =
    memcpy-moved (suc dst) (suc src) n (store dst (m src) m) a (ground (arith, apart))
    ∙ moved_first dst src n m a apart

move_down-moved :
    (dst src n : ℕ) (m : Bytes) (a : ℕ)
    → src ≤ dst
    → move_down (dst + n) (src + n) n m a ≡ moved dst src n m a
unfolding move_down
move_down-moved dst src zero m a apart = ground arith
move_down-moved dst src (suc n) m a apart =
    let at_d : dst + suc n - 1 ≡ dst + n = omega arith in
    let at_s : src + suc n - 1 ≡ src + n = omega arith in
    rw (at_d, at_s)
      (move_down-moved dst src n (store (dst + n) (m (src + n)) m) a apart
        ∙ moved_last dst src n m a apart)

-- memmove copies a block as if all of it were read before any of it is written, whether the blocks
-- overlap or not, and changes no byte outside the destination.
pub memmove-moved :
    (dst src n : ℕ) (m : Bytes) (a : ℕ) → memmove dst src n m a ≡ moved dst src n m a
unfolding memmove
memmove-moved dst src n m a = elim (Bool-cases (ltb src dst && ltb dst (src + n))) [
  | inl behind ↦ rw (behind, memmove) (move_down-moved dst src n m a (ground (arith, behind)))
  | inr apart ↦ rw (apart, memmove) (memcpy-moved dst src n m a (apart_of dst src n apart))
]
  where
    apart_of :
        (dst src n : ℕ) → (ltb src dst && ltb dst (src + n)) ≡ false → (dst ≤ src) ⊎ (src + n ≤ dst)
    apart_of dst src n h = ground (arith, h)

-- memcpy does what memmove does, unless the destination starts inside of the source.
pub memcpy-memmove :
    (dst src n : ℕ) (m : Bytes) (a : ℕ)
    → (dst ≤ src) ⊎ (src + n ≤ dst)
    → memcpy dst src n m a ≡ memmove dst src n m a
memcpy-memmove dst src n m a apart =
    memcpy-moved dst src n m a apart ∙ sym (memmove-moved dst src n m a)

set_bytes-filled :
    (n p c : ℕ) (m : Bytes) (a : ℕ)
    → set_bytes n p c m a ≡ (if leb p a && ltb a (p + n) then c % 256 else m a)
unfolding set_bytes
set_bytes-filled zero p c m a = ground arith
set_bytes-filled (suc n) p c m a =
    ground (arith, set_bytes-filled n (suc p) c (store p (c % 256) m) a)

-- memset fills a block of fewer than 2 ^ 31 bytes and changes no byte outside; it does nothing to a
-- block of 2 ^ 31 bytes or more.
pub memset-filled :
    (v c n : ℕ) (m : Bytes) (a : ℕ)
    → memset v c n m a ≡ (if leb v a && ltb a (v + n) && ltb n (2 ^ 31) then c % 256 else m a)
unfolding memset
memset-filled v c n m a = ground (arith, set_bytes-filled n v c m a)
