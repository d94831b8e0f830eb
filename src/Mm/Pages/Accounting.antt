-- ===== src/Mm/Pages/Accounting.antt =====
-- The reference counts of the frames agree with the entries that map them.
use kaush_os.Base.{
  zero, suc, refl, ap, ℕ, ◌+◌, ◌/◌, ◌^◌, ◌≤◌, ◌<◌, ◌≡◌, refl, sym, subst, true, false, ◌==◌,
  if◌then◌else◌, Bool-cases, inl, inr, ◌⊎◌, eqb→eq, arith, has, ◌∈◌, ◌∉◌, Distinct,
}
use kaush_os.Mm.Pages.{Memory, pte_index, valid, frame_of, table_size, directory_base}
use kaush_os.Mm.Pages.Counting.{is_boot_entry, maps, references, references_le, references_pos}

-- The number of entries of all page tables, and of frames that an entry can name.
abbrev pub entry_count : ℕ
entry_count = 1048576

-- Entries whose table is not there count as 0.
abbrev pub AbsentZero : (ℕ → ℕ) → Type 0
AbsentZero e = (i : ℕ) → i < entry_count → valid (e (directory_base + i / 1024)) ≡ false → e i ≡ 0

-- `kept` counts the references from elsewhere: the boot code, which keeps frame 0, and other address
-- spaces.
pub record Accounted (kept : ℕ → ℕ) (m : Memory) : Type 0 where
  pub counted : (f : ℕ) → m.ref_count f ≡ references entry_count f m.entries + kept f
  pub zero_kept : 1 ≤ kept 0
  pub small : (f : ℕ) → kept f < 2 ^ 31
  pub free : (f : ℕ) → f ∈ m.pfn_free_list → m.ref_count f ≡ 0
  pub distinct : Distinct m.pfn_free_list
  pub in_range : (f : ℕ) → f ∈ m.pfn_free_list → f < entry_count
  pub words : (i : ℕ) → m.entries i < 2 ^ 32
  pub absent : AbsentZero m.entries
  pub self_map : valid (m.entries 787200) ≡ true
  pub clean : (i : ℕ) → valid (m.entries i) ≡ false → m.entries i ≡ 0

-- An address that the boot code has not mapped and that is not in the page table area.
pub record Ordinary (va : ℕ) : Type 0 where
  pub below : va < 2 ^ 32
  pub not_boot : is_boot_entry (pte_index va) ≡ false
  pub not_table : (va / table_size == 768) ≡ false

pub maps_zero : (f : ℕ) → maps f 0 ≡ false
unfolding maps
maps_zero f = refl

pub maps_self : (w : ℕ) → valid w ≡ true → maps (frame_of w) w ≡ true
unfolding maps
maps_self w h = ground (arith, h)

pub maps_ne : (f w : ℕ) → (f == frame_of w) ≡ false → maps f w ≡ false
unfolding maps
maps_ne f w h = ground (arith, h)

-- No count comes near the end of its 32 bits.
pub Accounted-bound :
    {kept : ℕ → ℕ} {m : Memory} (f : ℕ) → Accounted kept m → m.ref_count f < 2 ^ 31 + 1048576
Accounted-bound {kept} {m} f a =
    omega (arith, a.counted f, a.small f, references_le entry_count f m.entries)

pub Accounted-maps :
    {kept : ℕ → ℕ} {m : Memory} (i : ℕ)
    → Accounted kept m
    → i < entry_count
    → is_boot_entry i ≡ false
    → valid (m.entries i) ≡ true
    → (1 ≤ m.ref_count (frame_of (m.entries i)))
Accounted-maps {kept} {m} i a lt boot v =
    let f = frame_of (m.entries i) in
    ground (
      arith,
      a.counted f,
      references_pos entry_count f i m.entries lt (ground (arith, boot, maps_self (m.entries i) v)),
    )

pub Accounted-not-free :
    {kept : ℕ → ℕ} {m : Memory} (f : ℕ) → Accounted kept m → 1 ≤ m.ref_count f → f ∉ m.pfn_free_list
Accounted-not-free {kept} {m} f a pos = elim (Bool-cases (has f m.pfn_free_list)) [
  | inl h ↦ absurd (omega (arith, pos, a.free f h))
  | inr h ↦ h
]

pub set-words :
    (i w : ℕ) (e : ℕ → ℕ)
    → w < 2 ^ 32
    → ((j : ℕ) → e j < 2 ^ 32)
    → (j : ℕ) → (if j == i then w else e j) < 2 ^ 32
set-words i w e small h j = ground (arith, small, h j)

-- A write outside the page directory, to an entry that is there.
pub set-absent :
    (i w : ℕ) (e : ℕ → ℕ)
    → AbsentZero e
    → i < entry_count
    → (i / 1024 == 768) ≡ false
    → (valid (e (directory_base + i / 1024)) ≡ true) ⊎ (w ≡ 0)
    → AbsentZero (λ j. if j == i then w else e j)
set-absent i w e absent lt nt there j jlt h =
    let other : (directory_base + j / 1024 == i) ≡ false = ground (arith, nt, jlt) in
    let gone : valid (e (directory_base + j / 1024)) ≡ false = ground (arith, other, h) in
    let zero_before = absent j jlt gone in
    elim (Bool-cases (j == i)) [
      | inl e1 ↦ elim there [
        | inl v ↦
            let same : valid (e (directory_base + j / 1024)) ≡ true =
              subst (λ (k : ℕ). valid (e (directory_base + k / 1024)) ≡ true) (sym (eqb→eq j i e1))
                v in
            absurd (ground (arith, same, gone))
        | inr z ↦ ground (arith, e1, z)
      ]
      | inr e1 ↦ ground (arith, e1, zero_before)
    ]

pub set-clean :
    (i w : ℕ) (e : ℕ → ℕ)
    → (valid w ≡ true) ⊎ (w ≡ 0)
    → ((j : ℕ) → valid (e j) ≡ false → e j ≡ 0)
    → (j : ℕ) → valid (if j == i then w else e j) ≡ false
    → (if j == i then w else e j) ≡ 0
set-clean i w e good h j = ground (arith, good, h j)

-- The directory's entry for itself is one of the boot code's.
pub set-self_map :
    (i w : ℕ) (e : ℕ → ℕ)
    → is_boot_entry i ≡ false
    → valid (e 787200) ≡ true
    → valid (if 787200 == i then w else e 787200) ≡ true
unfolding is_boot_entry
set-self_map i w e boot v = ground (arith, boot, v)

-- Frame 0 is never free.
pub Accounted-nonzero :
    {kept : ℕ → ℕ} {m : Memory} (f : ℕ) → Accounted kept m → f ∈ m.pfn_free_list → (f == 0) ≡ false
Accounted-nonzero {kept} {m} f a h = elim (Bool-cases (f == 0)) [
  | inl e ↦
      let zero_in = subst (λ (x : ℕ). x ∈ m.pfn_free_list) (eqb→eq f 0 e) h in
      absurd (omega (arith, a.free 0 zero_in, a.counted 0, a.zero_kept))
  | inr e ↦ e
]

-- Entries that only the boot code has made are not counted.
pub references_boot :
    (n f : ℕ) (e : ℕ → ℕ) → ((i : ℕ) → is_boot_entry i ≡ false → e i ≡ 0) → references n f e ≡ 0
unfolding references
references_boot zero f e only = refl
references_boot (suc n) f e only =
    ground (arith, references_boot n f e only, maps_zero f, only n, ap (maps f) (only n _))
