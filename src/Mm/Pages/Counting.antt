-- ===== src/Mm/Pages/Counting.antt =====
-- How many entries map a frame, and what a write to one entry does to the number.
use kaush_os.Base.{
  ℕ, zero, suc, ◌+◌, ◌≤◌, ◌<◌, ◌≡◌, refl, Bool, true, false, not, ◌&&◌, ◌||◌, ◌==◌, ltb, leb,
  if◌then◌else◌, Bool-cases, inl, inr, eqb→eq, arith,
}
use kaush_os.Mm.Pages.{frame_of, valid}

-- The entries that MiBootInitMemoryLayout makes without counting a reference: the first four
-- megabytes of the kernel, and the directory's entries for the kernel.
unfoldable pub is_boot_entry : ℕ → Bool
is_boot_entry i = (leb 524288 i && ltb i 525312) || (leb 786944 i && ltb i 787456)

-- An entry that is valid and maps the frame.
unfoldable pub maps : ℕ → ℕ → Bool
maps f w = valid w && frame_of w == f

-- Entry `i` is counted as a reference to the frame.
abbrev pub refers : ℕ → (ℕ → ℕ) → ℕ → Bool
refers f e i = not (is_boot_entry i) && maps f (e i)

abbrev pub one : Bool → ℕ
one b = if b then 1 else 0

-- The references among the first `n` entries.
unfoldable pub references : ℕ → ℕ → (ℕ → ℕ) → ℕ
references zero f e = 0
references (suc n) f e = one (refers f e n) + references n f e

pub references_le : (n f : ℕ) (e : ℕ → ℕ) → references n f e ≤ n
unfolding references
references_le zero f e = omega arith
references_le (suc n) f e = ground (arith, references_le n f e)

pub references_ext :
    (n f : ℕ) (e e' : ℕ → ℕ) → ((i : ℕ) → i < n → e' i ≡ e i) → references n f e' ≡ references n f e
unfolding references
references_ext zero f e e' h = refl
references_ext (suc n) f e e' h =
    rw (h n (omega arith), references_ext n f e e' (λ i lt. h i (omega (arith, lt)))) refl

-- A write to an entry outside the first `n`.
references-set_ge :
    (n f i w : ℕ) (e : ℕ → ℕ)
    → n ≤ i
    → references n f (λ j. if j == i then w else e j) ≡ references n f e
references-set_ge n f i w e le = references_ext n f e _ λ j lt. ground (arith, le, lt)

-- A write to one of them moves one reference.
pub references-set :
    (n f i w : ℕ) (e : ℕ → ℕ)
    → i < n
    → is_boot_entry i ≡ false
    → references n f (λ j. if j == i then w else e j) + one (maps f (e i))
      ≡ references n f e + one (maps f w)
unfolding references
references-set zero f i w e lt boot = absurd (omega (arith, lt))
references-set (suc n) f i w e lt boot = elim (Bool-cases (n == i)) [
  | inl e1 ↦ ground (arith, eqb→eq n i e1, boot, references-set_ge n f i w e (ground (arith, e1)))
  | inr e1 ↦ ground (arith, e1, references-set n f i w e (ground (arith, e1, lt)) boot)
]

-- A counted entry gives its frame a reference.
pub references_pos : (n f i : ℕ) (e : ℕ → ℕ) → i < n → refers f e i ≡ true → 1 ≤ references n f e
unfolding references
references_pos zero f i e lt h = absurd (omega (arith, lt))
references_pos (suc n) f i e lt h = elim (Bool-cases (n == i)) [
  | inl e1 ↦ ground (arith, eqb→eq n i e1, h)
  | inr e1 ↦ ground (arith, e1, lt, references_pos n f i e (ground (arith, e1, lt)) h)
]
