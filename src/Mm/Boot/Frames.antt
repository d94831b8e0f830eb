-- ===== src/Mm/Boot/Frames.antt =====
-- The free list and the counts that MmInitPFNDataBase makes.
use kaush_os.Base.{
  ◌∈◌, ℕ, zero, suc, ◌+◌, ◌-◌, ◌/◌, ◌^◌, ◌≤◌, ◌<◌, ◌≡◌, refl, sym, ap, ◌∙◌, subst, true, false,
  ◌&&◌, ltb, leb, if◌then◌else◌, arith, [], ◌∷◌, ◌++◌, has, ◌∉◌, Distinct, Distinct-snoc,
  has-append,
}
use kaush_os.Base.Outcome.{ok, ok-injective, assert_then, >>=-eq-ok}
use kaush_os.Mm.Pages.{Memory, page_size, table_size, kernel_base, set_ref_count, valid}
use kaush_os.Mm.Pages.Counting.{is_boot_entry}
use kaush_os.Mm.Pages.Accounting.{entry_count, AbsentZero, Accounted, references_boot}
use kaush_os.Mm.Boot.{
  base_pages, extended_page, number_of_physical_pages, mark_in_use, add_free, init_pfn_database,
  boot_va_to_pa,
}

mark_in_use-count :
    (k f : ℕ) (m : Memory) (g : ℕ)
    → (mark_in_use k f m).ref_count g ≡ (if leb f g && ltb g (f + k) then 1 else m.ref_count g)
unfolding mark_in_use
mark_in_use-count zero f m g = ground arith
mark_in_use-count (suc k) f m g =
    ground (arith, mark_in_use-count k (suc f) (set_ref_count f 1 m) g)

mark_in_use-rest :
    (k f : ℕ) (m : Memory)
    → ((mark_in_use k f m).entries ≡ m.entries)
      × ((mark_in_use k f m).pfn_free_list ≡ m.pfn_free_list)
unfolding mark_in_use
mark_in_use-rest zero f m = (refl, refl)
mark_in_use-rest (suc k) f m = mark_in_use-rest k (suc f) (set_ref_count f 1 m)

-- The frames from `lo` to below `f` are free, in order, and the list holds no other.
record FreeUpTo (lo f : ℕ) (m : Memory) : Type 0 where
  distinct : Distinct m.pfn_free_list
  member : (g : ℕ) → has g m.pfn_free_list ≡ (leb lo g && ltb g f)

add_free-FreeUpTo :
    (k lo f : ℕ) (m : Memory) → lo ≤ f → FreeUpTo lo f m → FreeUpTo lo (f + k) (add_free k f m)
unfolding add_free
add_free-FreeUpTo zero lo f m le h = subst (λ (x : ℕ). FreeUpTo lo x m) (omega arith) h
add_free-FreeUpTo (suc k) lo f m le h =
    let out : f ∉ m.pfn_free_list = ground (arith, h.member f) in
    let m1 = set_ref_count f 0 m in
    let m2 = record m1 { pfn_free_list = m.pfn_free_list ++ f ∷ [] } in
    let one : FreeUpTo lo (suc f) m2 = record {
      distinct = Distinct-snoc m.pfn_free_list f h.distinct out;
      member = λ g. ground (arith, has-append g m.pfn_free_list (f ∷ []), h.member g, le);
    } in
    subst (λ (x : ℕ). FreeUpTo lo x (add_free k (suc f) m2)) (omega arith)
      (add_free-FreeUpTo k lo (suc f) m2 (omega (arith, le)) one)

add_free-count :
    (k f : ℕ) (m : Memory) (g : ℕ)
    → (add_free k f m).ref_count g ≡ (if leb f g && ltb g (f + k) then 0 else m.ref_count g)
unfolding add_free
add_free-count zero f m g = ground arith
add_free-count (suc k) f m g =
    let m1 = set_ref_count f 0 m in
    ground
      (arith, add_free-count k (suc f) (record m1 { pfn_free_list = m.pfn_free_list ++ f ∷ [] }) g)

add_free-entries : (k f : ℕ) (m : Memory) → (add_free k f m).entries ≡ m.entries
unfolding add_free
add_free-entries zero f m = refl
add_free-entries (suc k) f m =
    let m1 = set_ref_count f 0 m in
    add_free-entries k (suc f) (record m1 { pfn_free_list = m.pfn_free_list ++ f ∷ [] })

-- The entries that the boot code makes, with the directory's entry for itself.
pub record BootEntries (e : ℕ → ℕ) : Type 0 where
  pub only : (i : ℕ) → is_boot_entry i ≡ false → e i ≡ 0
  pub words : (i : ℕ) → e i < 2 ^ 32
  pub self_map : valid (e 787200) ≡ true
  pub absent : AbsentZero e
  pub clean : (i : ℕ) → valid (e i) ≡ false → e i ≡ 0

-- One reference to each frame below the first free one, and what lies behind the memory.
abbrev pub boot_references : ℕ → Memory → ℕ → ℕ
boot_references first m g =
    if ltb g first then 1 else (if ltb g number_of_physical_pages then 0 else m.ref_count g)

abbrev pub first_free_page : ℕ → ℕ
first_free_page boot_freemem = (boot_freemem - kernel_base) / page_size

-- What MmInitPFNDataBase leaves of the frames.
record FramesMade (first : ℕ) (m m' : Memory) : Type 0 where
  free : FreeUpTo first number_of_physical_pages m'
  count : (g : ℕ) → m'.ref_count g ≡ boot_references first m g

frames-made :
    (first : ℕ) (m : Memory)
    → extended_page ≤ first
    → first ≤ 1024
    → FramesMade first m (
        add_free (number_of_physical_pages - first) first (
          mark_in_use (first - extended_page) extended_page (
            mark_in_use (extended_page - base_pages) base_pages (
              mark_in_use
                (base_pages - 1)
                1
                (set_ref_count 0 1 (record m { pfn_free_list = [] }))))))
frames-made first m low high =
    let m1 = set_ref_count 0 1 (record m { pfn_free_list = [] }) in
    let m2 = mark_in_use (base_pages - 1) 1 m1 in
    let m3 = mark_in_use (extended_page - base_pages) base_pages m2 in
    let m4 = mark_in_use (first - extended_page) extended_page m3 in
    let (_, l2) = mark_in_use-rest (base_pages - 1) 1 m1 in
    let (_, l3) = mark_in_use-rest (extended_page - base_pages) base_pages m2 in
    let (_, l4) = mark_in_use-rest (first - extended_page) extended_page m3 in
    let empty : m4.pfn_free_list ≡ [] = l4 ∙ l3 ∙ l2 in
    let start : FreeUpTo first first m4 = record {
      distinct = subst Distinct (sym empty) tt;
      member = λ g. ap (has g) empty ∙ ground arith;
    } in
    record {
      free =
          subst (λ (x : ℕ). FreeUpTo first x (add_free (number_of_physical_pages - first) first m4))
            (omega (arith, high))
            (add_free-FreeUpTo (number_of_physical_pages - first) first first m4 (omega arith)
              start);
      count = λ g. ground (
        arith,
        high,
        low,
        add_free-count (number_of_physical_pages - first) first m4 g,
        mark_in_use-count (first - extended_page) extended_page m3 g,
        mark_in_use-count (extended_page - base_pages) base_pages m2 g,
        mark_in_use-count (base_pages - 1) 1 m1 g,
      );
    }

init_pfn_database-FramesMade :
    (boot_freemem : ℕ) (m m' : Memory)
    → kernel_base + 1048576 ≤ boot_freemem
    → init_pfn_database boot_freemem m ≡ ok m'
    → FramesMade (first_free_page boot_freemem) m m'
unfolding init_pfn_database boot_va_to_pa
init_pfn_database-FramesMade boot_freemem m m' le e =
    let first = first_free_page boot_freemem in
    let m1 = set_ref_count 0 1 (record m { pfn_free_list = [] }) in
    let m2 = mark_in_use (base_pages - 1) 1 m1 in
    let m3 = mark_in_use (extended_page - base_pages) base_pages m2 in
    let m4 = mark_in_use (first - extended_page) extended_page m3 in
    let (below, e1) = assert_then (ltb boot_freemem (kernel_base + table_size)) _ e in
    let (pa, e2, e3) = >>=-eq-ok (boot_va_to_pa boot_freemem) _ e1 in
    let (_, e4) = assert_then (leb kernel_base boot_freemem) _ e2 in
    let m5 = add_free (number_of_physical_pages - first) first m4 in
    let done : ok m5 ≡ ok m' =
      subst
        (λ (x : ℕ).
          ok (
            add_free (number_of_physical_pages - x / page_size) (x / page_size)
              (mark_in_use (x / page_size - extended_page) extended_page m3))
          ≡ ok m')
        (sym (ok-injective e4)) e3 in
    let low : extended_page ≤ first = omega (arith, le) in
    let high : first ≤ 1024 = ground (arith, below) in
    subst (FramesMade first m) (ok-injective done) (frames-made first m low high)

-- The first frame of the free memory is free.
pub init_pfn_database-free :
    (boot_freemem : ℕ) (m m' : Memory)
    → kernel_base + 1048576 ≤ boot_freemem
    → init_pfn_database boot_freemem m ≡ ok m'
    → first_free_page boot_freemem ∈ m'.pfn_free_list
unfolding init_pfn_database
init_pfn_database-free boot_freemem m m' le e =
    let made = init_pfn_database-FramesMade boot_freemem m m' le e in
    let (below, _) = assert_then (ltb boot_freemem (kernel_base + table_size)) _ e in
    ground (arith, made.free.member (first_free_page boot_freemem), below)

-- MmInitPFNDataBase that returns, with free memory at or above one megabyte behind KERNBASE, and the
-- entries of the boot code: the count of each frame is the number of the entries that map it and
-- of its references from the boot code, one for each frame below the first free one; the free
-- list holds exactly the frames from that one to the end of the memory, each once.
pub init_pfn_database-Accounted :
    (boot_freemem : ℕ) (m m' : Memory) (e : ℕ → ℕ)
    → BootEntries e
    → kernel_base + 1048576 ≤ boot_freemem
    → ((g : ℕ) → m.ref_count g < 2 ^ 31)
    → init_pfn_database boot_freemem m ≡ ok m'
    → Accounted (boot_references (first_free_page boot_freemem) m) (record m' { entries = e })
      × ((g : ℕ)
          → has g m'.pfn_free_list
            ≡ (leb (first_free_page boot_freemem) g && ltb g number_of_physical_pages))
init_pfn_database-Accounted boot_freemem m m' e b le small eq =
    let made = init_pfn_database-FramesMade boot_freemem m m' le eq in
    let first = first_free_page boot_freemem in
    let low : extended_page ≤ first = omega (arith, le) in
    (
      record {
        counted = λ g. omega (arith, references_boot entry_count g e b.only, made.count g);
        zero_kept = ground (arith, low);
        small = λ g. ground (arith, small g);
        free = λ g h. ground (arith, h, made.free.member g, made.count g);
        distinct = made.free.distinct;
        in_range = λ g h. ground (arith, h, made.free.member g);
        words = b.words;
        absent = b.absent;
        self_map = b.self_map;
        clean = b.clean;
      },
      made.free.member,
    )
