-- ===== src/Mm/Pages/Insert.antt =====
-- MiInsertPage.
use kaush_os.Base.{
  ℕ, ◌+◌, ◌/◌, ◌%◌, ◌<◌, ◌≡◌, refl, sym, ap, ◌∙◌, subst, Bool, true, false, not, ◌||◌, ◌==◌, ◌!=◌,
  Bool-cases, inl, inr, eqb→eq, arith, [], some,
}
use kaush_os.Base.Outcome.{ok, ok-injective, assert_then, >>=-eq-ok}
use kaush_os.Mm.Pages.{
  Memory, valid, frame_of, inc_reference_pfn, entry_for, set_entry, directory_base, pte_index,
  pde_index, insert_table, insert_frame, insert_page, KStatus, success, no_memory, is_user_address,
  or_present, remove_page, page_frame, insert_rest,
}
use kaush_os.Mm.Pages.Counting.{maps}
use kaush_os.Mm.Pages.Accounting.{entry_count, Accounted, Ordinary, maps_self}
use kaush_os.Mm.Pages.Allocate.{Held, map-Accounted, maps-entry_for}
use kaush_os.Mm.Pages.Remove.{remove_page-Removed, remove_page-Accounted}
use kaush_os.Mm.Pages.Table.{Tabled, TableResult, insert_table-TableResult}

-- Frame `f` is mapped at the address; the other entries but the directory's are as they were.
pub record Inserted (kept : ℕ → ℕ) (va f : ℕ) (m m' : Memory) : Type 0 where
  pub accounted : Accounted kept m'
  pub mapped : maps f (m'.entries (pte_index va)) ≡ true
  pub there : valid (m'.entries (pde_index va)) ≡ true
  pub others :
      (j : ℕ)
      → j < entry_count
      → (j == pte_index va) ≡ false
      → (j == pde_index va) ≡ false
      → m'.entries j ≡ m.entries j

-- MiRemovePage leaves the page unmapped and the new frame out of the free list.
record Cleared (kept : ℕ → ℕ) (va f : ℕ) (m t : Memory) : Type 0 where
  accounted : Accounted kept t
  empty : t.entries (pte_index va) ≡ 0
  others : (j : ℕ) → (j == pte_index va) ≡ false → t.entries j ≡ m.entries j
  held : Held f t

remove_page-Cleared :
    {kept : ℕ → ℕ} (current : Bool) (va f : ℕ) (m t : Memory)
    → Accounted kept m
    → Ordinary va
    → Held f m
    → (frame_of (m.entries (pte_index va)) == f) ≡ false
    → remove_page current va m ≡ ok t
    → Cleared kept va f m t
remove_page-Cleared {kept} current va f m t a o held ne e =
    let r = remove_page-Removed current va m t a o e in
    let (u, released, eq) = r.released in
    let entries = ap (λ (x : Memory). x.entries) eq in
    let list = ap (λ (x : Memory). x.pfn_free_list) eq in
    record {
      accounted = remove_page-Accounted current va m t a o e;
      empty = ap (λ (x : ℕ → ℕ). x (pte_index va)) entries ∙ ground arith;
      others = λ j other.
          ap (λ (x : ℕ → ℕ). x j) entries
          ∙ ground (arith, other, ap (λ (x : ℕ → ℕ). x j) released.same);
      held = record {
        out = elim released.free [
          | inl (_, l) ↦ ground (arith, list, l, held.out, ne)
          | inr (_, l) ↦ ground (arith, list, l, held.out)
        ];
        bound = held.bound;
        nonzero = held.nonzero;
      };
    }

or_present-odd : (perm : ℕ) → perm < 4096 → (or_present perm < 4096) × (or_present perm % 2 ≡ 1)
or_present-odd perm h = (ground (arith, h), ground (arith, h))

-- The page's entry, once it is 0, gets the frame.
insert-empty :
    {kept : ℕ → ℕ} (va f perm : ℕ) (m t : Memory)
    → Ordinary va
    → valid (m.entries (pde_index va)) ≡ true
    → perm < 4096
    → Cleared kept va f m t
    → Inserted kept va f m
        (inc_reference_pfn f (set_entry (pte_index va) (entry_for f (or_present perm)) t))
unfolding inc_reference_pfn
insert-empty {kept} va f perm m t o v few c =
    let (low, odd) = or_present-odd perm few in
    let lt : pte_index va < entry_count = omega (arith, o.below) in
    let nt : (pte_index va / 1024 == 768) ≡ false = ground (arith, o.not_table) in
    let apart : (pde_index va == pte_index va) ≡ false = ground (arith, o.not_table, o.below) in
    let table : directory_base + pte_index va / 1024 ≡ pde_index va = omega arith in
    let there = c.others (pde_index va) apart ∙ refl in
    let there_at : valid (t.entries (pde_index va)) ≡ true =
      subst (λ (w : ℕ). valid w ≡ true) (sym there) v in
    let there_at_table = subst (λ (k : ℕ). valid (t.entries k) ≡ true) (sym table) there_at in
    record {
      accounted =
          map-Accounted t (pte_index va) f (or_present perm) c.accounted lt o.not_boot nt
            there_at_table c.empty c.held low odd;
      mapped = ground (arith, maps-entry_for f f (or_present perm) c.held.bound low odd);
      there = ground (arith, apart, there_at);
      others = λ j jlt ne1 ne2. ground (arith, ne1, c.others j ne1);
    }

-- What MiInsertPage of frame `f` does, on success and without memory for a page table.
abbrev pub InsertResult : (ℕ → ℕ) → ℕ → ℕ → Memory → KStatus × Memory → Type 0
InsertResult kept va f m (success, m') = Inserted kept va f m m'
InsertResult kept va f m (no_memory, m') = (m' ≡ m) × (m.pfn_free_list ≡ [])

-- An entry with the number of a frame that is not frame 0 is valid.
already_mapped :
    (f w : ℕ) → frame_of w ≡ f → (f == 0) ≡ false → (valid w ≡ false → w ≡ 0) → maps f w ≡ true
already_mapped f w e nz clean = elim (Bool-cases (valid w)) [
  | inl v ↦ subst (λ (x : ℕ). maps x w ≡ true) e (maps_self w v)
  | inr v ↦ absurd (ground (arith, e, nz, clean v))
]

-- The last part always succeeds.
abbrev FrameResult : (ℕ → ℕ) → ℕ → ℕ → Memory → KStatus × Memory → Type 0
FrameResult kept va f m (success, m') = Inserted kept va f m m'
FrameResult kept va f m (no_memory, m') = true ≡ false

insert_frame-FrameResult :
    {kept : ℕ → ℕ} (current : Bool) (va f perm : ℕ) (m : Memory) (r : KStatus × Memory)
    → Accounted kept m
    → Ordinary va
    → valid (m.entries (pde_index va)) ≡ true
    → Held f m
    → perm < 4096
    → insert_frame current va f perm m ≡ ok r
    → FrameResult kept va f m r
unfolding insert_frame
insert_frame-FrameResult {kept} current va f perm m r a o v held few e =
    let old = m.entries (pte_index va) in
    elim (Bool-cases (frame_of old == f)) [
      | inl e1 ↦
          let e2 = rw (e1, insert_frame) at e in
          let done : Inserted kept va f m m = record {
            accounted = a;
            mapped = already_mapped f old (eqb→eq _ f e1) held.nonzero (a.clean (pte_index va));
            there = v;
            others = λ j lt ne1 ne2. refl;
          } in
          subst (FrameResult kept va f m) (ok-injective e2) done
      | inr e1 ↦
          let e2 = rw (e1, insert_frame) at e in
          elim (Bool-cases (old != 0)) [
            | inl used ↦
                let e3 = rw (used) at e2 in
                let (t, e4, e5) = >>=-eq-ok (remove_page current va m) _ e3 in
                let c = remove_page-Cleared current va f m t a o held e1 e4 in
                subst (FrameResult kept va f m) (ok-injective e5)
                  (insert-empty va f perm m t o v few c)
            | inr unused ↦
                let e3 = rw (unused) at e2 in
                let c : Cleared kept va f m m = record {
                  accounted = a;
                  empty = ground (arith, unused);
                  others = λ j ne. refl;
                  held = held;
                } in
                subst (FrameResult kept va f m) (ok-injective e3)
                  (insert-empty va f perm m m o v few c)
          ]
    ]

-- From what the first part of MiInsertPage has done.
Inserted-after :
    {kept : ℕ → ℕ} (va f : ℕ) (m m1 : Memory) (r : KStatus × Memory)
    → Tabled kept va m m1
    → FrameResult kept va f m1 r
    → InsertResult kept va f m r
Inserted-after va f m m1 (success, m') t i = record {
  accounted = i.accounted;
  mapped = i.mapped;
  there = i.there;
  others = λ j lt ne1 ne2. i.others j lt ne1 ne2 ∙ t.others j lt ne2;
}
Inserted-after va f m m1 (no_memory, m') t e = cc

insert_rest-InsertResult :
    (kept : ℕ → ℕ) (current : Bool) (va f perm : ℕ) (m : Memory) (r t : KStatus × Memory)
    → Ordinary va
    → Held f m
    → perm < 4096
    → TableResult kept va m t
    → insert_rest current va (some f) perm t ≡ ok r
    → InsertResult kept va f m r
unfolding insert_rest page_frame
insert_rest-InsertResult kept current va f perm m r (success, m1) o held few t e =
    Inserted-after va f m m1 r t
      (insert_frame-FrameResult current va f perm m1 r t.accounted o t.there (t.holds f held) few e)
insert_rest-InsertResult kept current va f perm m r (no_memory, m1) o held few t e =
    subst (InsertResult kept va f m) (ok-injective e) t

-- A call of MiInsertPage with a frame that is not free and not frame 0, at an address that neither
-- the boot code has mapped nor the page table area holds, that returns: with success the frame is
-- mapped at the address, every other entry but the page directory's for the address is as it was,
-- and the counts of all frames agree with the entries that map them; without, no frame was free
-- for a page table and nothing has changed.
pub insert_page-InsertResult :
    {kept : ℕ → ℕ} (current : Bool) (va f perm : ℕ) (m : Memory) (r : KStatus × Memory)
    → Accounted kept m
    → Ordinary va
    → Held f m
    → perm < 4096
    → insert_page current va (some f) perm m ≡ ok r
    → InsertResult kept va f m r
unfolding insert_page
insert_page-InsertResult {kept} current va f perm m r a o held few e =
    let (_, e1) = assert_then (current || not (is_user_address va)) _ e in
    let (t, e2, e3) = >>=-eq-ok (insert_table va m) _ e1 in
    insert_rest-InsertResult kept current va f perm m r t o held few
      (insert_table-TableResult va m t a e2) e3
