-- ===== src/Mm/Pages/Allocate.antt =====
-- MmAllocatePFN, and a frame that becomes the target of an entry.
use kaush_os.Base.{
  ℕ, ◌+◌, ◌*◌, ◌/◌, ◌%◌, ◌^◌, ◌<◌, ◌≡◌, refl, subst, true, false, ◌==◌, if◌then◌else◌, inl, inr,
  eqb→eq, arith, List, [], ◌∷◌, ◌∉◌, Distinct, none, some, List-cases,
}
use kaush_os.Mm.Pages.{
  Memory, valid, allocate_pfn, inc_reference_pfn, entry_for, set_entry, directory_base, take_head,
}
use kaush_os.Mm.Pages.Counting.{is_boot_entry, maps, references, references-set}
use kaush_os.Mm.Pages.Accounting.{
  entry_count, Accounted, Accounted-bound, Accounted-nonzero, set-words, set-absent, set-self_map,
  set-clean,
}

-- A frame that is not free and that an entry can name.
pub record Held (f : ℕ) (m : Memory) : Type 0 where
  pub out : f ∉ m.pfn_free_list
  pub bound : f < entry_count
  pub nonzero : (f == 0) ≡ false

-- What a frame from the free list leaves behind.
pub record Allocated (kept : ℕ → ℕ) (m : Memory) (f : ℕ) (m1 : Memory) : Type 0 where
  pub list : m.pfn_free_list ≡ f ∷ m1.pfn_free_list
  pub same : m1.entries ≡ m.entries
  pub counts : m1.ref_count ≡ m.ref_count
  pub accounted : Accounted kept m1
  pub held : Held f m1

allocated :
    {kept : ℕ → ℕ} (pte : ℕ) (m : Memory) (f : ℕ) (fs : List ℕ)
    → Accounted kept m
    → m.pfn_free_list ≡ f ∷ fs
    → Allocated kept m f (record m {
      pfn_free_list = fs;
      pte_address = λ g. if g == f then pte else m.pte_address g;
    })
allocated {kept} pte m f fs a l =
    let d = subst Distinct l a.distinct in
    record {
      list = l;
      same = refl;
      counts = refl;
      accounted = record {
        counted = a.counted;
        zero_kept = a.zero_kept;
        small = a.small;
        free = λ g h. a.free g (ground (arith, l, h));
        distinct = d.1;
        in_range = λ g h. a.in_range g (ground (arith, l, h));
        words = a.words;
        absent = a.absent;
        self_map = a.self_map;
        clean = a.clean;
      };
      held = record {
        out = d.0;
        bound = a.in_range f (ground (arith, l));
        nonzero = Accounted-nonzero f a (ground (arith, l));
      };
    }

some-injective {ℓ} : {A : Type ℓ} {x y : A} → some x ≡ some y → x ≡ y
some-injective e = cc

pub allocate_pfn-Allocated :
    {kept : ℕ → ℕ} (pte : ℕ) (m : Memory) (f : ℕ) (m1 : Memory)
    → Accounted kept m
    → allocate_pfn pte m ≡ some (f, m1)
    → Allocated kept m f m1
unfolding allocate_pfn
allocate_pfn-Allocated {kept} pte m f m1 a e = elim (List-cases m.pfn_free_list) [
  | inl l ↦ absurd (ground (arith, l, e))
  | inr (g, fs, l) ↦
      let e1 = subst (λ (t : List ℕ). take_head pte m t ≡ some (f, m1)) l e in
      subst (λ (p : ℕ × Memory). Allocated kept m p.0 p.1) (some-injective e1)
        (allocated pte m g fs a l)
]

maps-invalid : (g w : ℕ) → valid w ≡ false → maps g w ≡ false
unfolding maps
maps-invalid g w h = ground (arith, h)

pub allocate_pfn-none : (pte : ℕ) (m : Memory) → allocate_pfn pte m ≡ none → m.pfn_free_list ≡ []
unfolding allocate_pfn
allocate_pfn-none pte m e = elim (List-cases m.pfn_free_list) [
  | inl l ↦ l
  | inr (g, fs, l) ↦ absurd (ground (arith, l, e))
]

pub entry_for-valid : (f flags : ℕ) → flags % 2 ≡ 1 → valid (entry_for f flags) ≡ true
entry_for-valid f flags odd =
    let bit : (f * 4096 % 2 ^ 32 + flags) % 2 ≡ 1 = omega (arith, odd) in ground (arith, bit)

pub maps-entry_for :
    (g f flags : ℕ)
    → f < entry_count
    → flags < 4096
    → flags % 2 ≡ 1
    → maps g (entry_for f flags) ≡ (f == g)
unfolding maps
maps-entry_for g f flags small few odd =
    let low : f * 4096 % 2 ^ 32 ≡ f * 4096 = omega (arith, small) in
    let frame : (f * 4096 % 2 ^ 32 + flags) / 4096 ≡ f = omega (arith, low, few) in
    let bit : (f * 4096 % 2 ^ 32 + flags) % 2 ≡ 1 = omega (arith, low, odd) in
    ground (arith, frame, bit)

pub map-counted :
    {kept : ℕ → ℕ} (m : Memory) (i f flags : ℕ)
    → Accounted kept m
    → i < entry_count
    → is_boot_entry i ≡ false
    → valid (m.entries i) ≡ false
    → Held f m
    → flags < 4096
    → flags % 2 ≡ 1
    → (g : ℕ)
    → (if g == f then (m.ref_count f + 1) % 2 ^ 32 else m.ref_count g)
      ≡ references entry_count g (λ j. if j == i then entry_for f flags else m.entries j) + kept g
map-counted m i f flags a lt boot empty held few odd g =
    let step = references-set entry_count g i (entry_for f flags) m.entries lt boot in
    ground (
      arith,
      step,
      maps-entry_for g f flags held.bound few odd,
      maps-invalid g (m.entries i) empty,
      a.counted g,
      a.counted f,
      Accounted-bound f a,
      eqb→eq g f,
    )

-- An entry that was 0 gets the frame, which gets a reference.
pub map-Accounted :
    {kept : ℕ → ℕ} (m : Memory) (i f flags : ℕ)
    → Accounted kept m
    → i < entry_count
    → is_boot_entry i ≡ false
    → (i / 1024 == 768) ≡ false
    → valid (m.entries (directory_base + i / 1024)) ≡ true
    → m.entries i ≡ 0
    → Held f m
    → flags < 4096
    → flags % 2 ≡ 1
    → Accounted kept (inc_reference_pfn f (set_entry i (entry_for f flags) m))
unfolding inc_reference_pfn
map-Accounted {kept} m i f flags a lt boot nt there empty held few odd =
    let w = entry_for f flags in
    let odd_word : valid w ≡ true = entry_for-valid f flags odd in
    record {
      counted = map-counted m i f flags a lt boot (rw (empty) refl) held few odd;
      zero_kept = a.zero_kept;
      small = a.small;
      free = λ g h. ground (arith, a.free g h, held.out, eqb→eq g f, h);
      distinct = a.distinct;
      in_range = a.in_range;
      words = set-words i w m.entries (omega (arith, few)) a.words;
      self_map = set-self_map i w m.entries boot a.self_map;
      absent = set-absent i w m.entries a.absent lt nt (inl there);
      clean = set-clean i w m.entries (inl odd_word) a.clean;
    }
