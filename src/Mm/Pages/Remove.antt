-- ===== src/Mm/Pages/Remove.antt =====
-- MiRemovePage and MiDecReferencePFN.
use kaush_os.Base.{
  ℕ, zero, suc, ◌+◌, ◌-◌, ◌/◌, ◌%◌, ◌^◌, ◌≤◌, ◌<◌, ◌≡◌, refl, sym, ap, subst, Bool, true, false,
  not, ◌&&◌, ◌==◌, if◌then◌else◌, Bool-cases, inl, inr, ◌⊎◌, eqb→eq, arith, List, ◌∷◌, ◌∈◌,
  Distinct,
}
use kaush_os.Base.Outcome.{ok, >>=-eq-ok, assert_then, ok-injective}
use kaush_os.Mm.Pages.{
  Memory, pte_index, pde_index, valid, frame_of, dec_reference_pfn, free_pfn, set_entry,
  remove_page, free_at_zero, set_ref_count, is_page_aligned, is_user_address,
}
use kaush_os.Mm.Pages.Counting.{is_boot_entry, maps, one, references, references-set}
use kaush_os.Mm.Pages.Accounting.{
  entry_count, AbsentZero, Accounted, Ordinary, maps_zero, maps_self, maps_ne, Accounted-bound,
  Accounted-maps, Accounted-not-free, set-words, set-absent, set-self_map, set-clean,
}

-- What one reference less does.
pub record Released (f : ℕ) (m m' : Memory) : Type 0 where
  pub same : m'.entries ≡ m.entries
  pub count : (g : ℕ) → m'.ref_count g ≡ (if g == f then m.ref_count f - 1 else m.ref_count g)
  pub free :
      ((m.ref_count f ≡ 1) × (m'.pfn_free_list ≡ f ∷ m.pfn_free_list))
      ⊎ ((m.ref_count f == 1) ≡ false) × (m'.pfn_free_list ≡ m.pfn_free_list)

free_at_zero-Released :
    (f n : ℕ) (m m' : Memory)
    → m.ref_count f ≡ suc n
    → free_at_zero f n (set_ref_count f n m) ≡ ok m'
    → Released f m m'
unfolding free_pfn
free_at_zero-Released f zero m m' r e =
    let m1 = set_ref_count f 0 m in
    let (_, e1) = assert_then (m1.ref_count f == 0) _ e in
    let m2 = record m1 { pfn_free_list = f ∷ m.pfn_free_list } in
    let done : Released f m m2 = record {
      same = refl;
      count = λ g. ground (arith, r);
      free = inl (r, refl);
    } in
    subst (λ (t : Memory). Released f m t) (ok-injective e1) done
free_at_zero-Released f (suc n) m m' r e =
    let m1 = set_ref_count f (suc n) m in
    let done : Released f m m1 = record {
      same = refl;
      count = λ g. ground (arith, r);
      free = inr (ground (arith, r), refl);
    } in
    subst (λ (t : Memory). Released f m t) (ok-injective e) done

dec_reference_pfn-Released :
    (f : ℕ) (m m' : Memory)
    → 1 ≤ m.ref_count f
    → m.ref_count f < 2 ^ 32
    → dec_reference_pfn f m ≡ ok m'
    → Released f m m'
unfolding dec_reference_pfn
dec_reference_pfn-Released f m m' lo hi e =
    let n : (m.ref_count f + 2 ^ 32 - 1) % 2 ^ 32 ≡ m.ref_count f - 1 = omega (arith, lo, hi) in
    free_at_zero-Released f (m.ref_count f - 1) m m' (omega (arith, lo))
      (subst (λ (k : ℕ). free_at_zero f k (set_ref_count f k m) ≡ ok m') n e)

-- What a call of MiRemovePage that returns has checked, and what it does.
pub record Removed (va : ℕ) (m m' : Memory) : Type 0 where
  pub table : valid (m.entries (pde_index va)) ≡ true
  pub mapped : valid (m.entries (pte_index va)) ≡ true
  pub released :
      (t : Memory) × Released (frame_of (m.entries (pte_index va))) m t
      × (m' ≡ set_entry (pte_index va) 0 t)

pub remove_page-Removed :
    {kept : ℕ → ℕ} (current : Bool) (va : ℕ) (m m' : Memory)
    → Accounted kept m
    → Ordinary va
    → remove_page current va m ≡ ok m'
    → Removed va m m'
unfolding remove_page
remove_page-Removed current va m m' a o e =
    let (_, e1) = assert_then (is_page_aligned va) _ e in
    let (_, e2) =
      assert_then (if not current && is_user_address va then m.testing_on else true) _ e1 in
    let old = m.entries (pte_index va) in
    let (v, e3) = assert_then (valid (m.entries (pde_index va)) && valid old) _ e2 in
    let (t, e4, e5) = >>=-eq-ok (dec_reference_pfn (frame_of old) m) _ e3 in
    let mapped : valid old ≡ true = ground (arith, v) in
    let lt : pte_index va < entry_count = omega (arith, o.below) in
    let some_reference = Accounted-maps (pte_index va) a lt o.not_boot mapped in
    let bounded : m.ref_count (frame_of old) < 2 ^ 32 =
      omega (arith, Accounted-bound (frame_of old) a) in
    record {
      table = ground (arith, v);
      mapped = mapped;
      released =
          (t, dec_reference_pfn-Released _ m t some_reference bounded e4, sym (ok-injective e5));
    }

-- The frames that are free when a reference is gone.
record FreeAfter (f : ℕ) (m t : Memory) : Type 0 where
  distinct : Distinct t.pfn_free_list
  unused : (g : ℕ) → g ∈ t.pfn_free_list → t.ref_count g ≡ 0
  in_range : (g : ℕ) → g ∈ t.pfn_free_list → g < entry_count

Released-FreeAfter :
    {kept : ℕ → ℕ} {m t : Memory} (f : ℕ)
    → Accounted kept m
    → 1 ≤ m.ref_count f
    → f < entry_count
    → Released f m t
    → FreeAfter f m t
Released-FreeAfter {kept} {m} {t} f a pos lt r =
    let out = Accounted-not-free f a pos in
    elim r.free [
      | inl (one_left, e) ↦ record {
        distinct = subst Distinct (sym e) (out, a.distinct);
        unused = λ g h. ground (arith, r.count g, e, h, one_left, a.free g);
        in_range = λ g h. ground (arith, eqb→eq g f, e, h, a.in_range g, lt);
      }
      | inr (_, e) ↦ record {
        distinct = subst Distinct (sym e) a.distinct;
        unused = λ g h. ground (arith, r.count g, e, h, a.free g, pos);
        in_range = λ g h. a.in_range g (subst (λ (l : List ℕ). g ∈ l) e h);
      }
    ]

-- One reference less, and the entry that was it set to 0.
clear-counted :
    {kept : ℕ → ℕ} {m t : Memory} (i : ℕ)
    → Accounted kept m
    → i < entry_count
    → is_boot_entry i ≡ false
    → valid (m.entries i) ≡ true
    → Released (frame_of (m.entries i)) m t
    → (g : ℕ)
    → t.ref_count g ≡ references entry_count g (λ j. if j == i then 0 else t.entries j) + kept g
clear-counted {kept} {m} {t} i a lt boot v r g =
    let f = frame_of (m.entries i) in
    let w = m.entries i in
    let moved : references entry_count g (λ j. if j == i then 0 else t.entries j) + one (maps g w)
        ≡ references entry_count g m.entries =
      subst
        (λ (u : ℕ → ℕ).
          references entry_count g (λ j. if j == i then 0 else u j) + one (maps g w)
          ≡ references entry_count g m.entries)
        (sym r.same)
        (ground (arith, references-set entry_count g i 0 m.entries lt boot, maps_zero g)) in
    let pos = Accounted-maps i a lt boot v in
    elim (Bool-cases (g == f)) [
      | inl e ↦
          let eq = eqb→eq g f e in
          let hit : maps g w ≡ true = subst (λ (x : ℕ). maps x w ≡ true) (sym eq) (maps_self w v) in
          ground (arith, moved, a.counted g, r.count g, e, hit, pos, ap m.ref_count eq)
      | inr e ↦ ground (arith, moved, a.counted g, r.count g, e, maps_ne g w e)
    ]

clear-Accounted :
    {kept : ℕ → ℕ} {m t : Memory} (i : ℕ)
    → Accounted kept m
    → i < entry_count
    → is_boot_entry i ≡ false
    → (i / 1024 == 768) ≡ false
    → valid (m.entries i) ≡ true
    → Released (frame_of (m.entries i)) m t
    → Accounted kept (set_entry i 0 t)
clear-Accounted {kept} {m} {t} i a lt boot nt v r =
    let f = frame_of (m.entries i) in
    let pos = Accounted-maps i a lt boot v in
    let after = Released-FreeAfter f a pos (omega (arith, a.words i)) r in
    record {
      counted = clear-counted i a lt boot v r;
      zero_kept = a.zero_kept;
      small = a.small;
      free = after.unused;
      distinct = after.distinct;
      in_range = after.in_range;
      words = λ j.
          set-words i 0 t.entries (omega arith)
            (λ k. subst (λ (u : ℕ → ℕ). u k < 2 ^ 32) (sym r.same) (a.words k)) j;
      clean =
          set-clean i 0 t.entries (inr refl)
            (λ k. subst (λ (u : ℕ → ℕ). valid (u k) ≡ false → u k ≡ 0) (sym r.same) (a.clean k));
      self_map =
          set-self_map i 0 t.entries boot
            (subst (λ (u : ℕ → ℕ). valid (u 787200) ≡ true) (sym r.same) a.self_map);
      absent = set-absent i 0 t.entries (subst AbsentZero (sym r.same) a.absent) lt nt (inr refl);
    }

-- A call of MiRemovePage that returns, at an address that neither the boot code has mapped nor the
-- page table area holds, keeps the count of each frame equal to the number of entries that map it,
-- and the frames of the free list unused and distinct.
pub remove_page-Accounted :
    {kept : ℕ → ℕ} (current : Bool) (va : ℕ) (m m' : Memory)
    → Accounted kept m
    → Ordinary va
    → remove_page current va m ≡ ok m'
    → Accounted kept m'
remove_page-Accounted {kept} current va m m' a o e =
    let r = remove_page-Removed current va m m' a o e in
    let (t, released, eq) = r.released in
    subst (Accounted kept) (sym eq) (
      clear-Accounted (pte_index va) a (omega (arith, o.below)) o.not_boot
        (ground (arith, o.not_table)) r.mapped released)
