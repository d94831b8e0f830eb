-- ===== src/Mm/Pages/Progress.antt =====
-- MiInsertPage and MiRemovePage return where there are enough frames.
use kaush_os.Base.{
  ℕ, zero, suc, ◌+◌, ◌-◌, ◌%◌, ◌^◌, ◌≤◌, ◌≡◌, refl, sym, ◌∙◌, subst, true, ◌&&◌, ◌==◌, ◌!=◌,
  Bool-cases, inl, inr, ◌⊎◌, arith, length, some, Option-cases,
}
use kaush_os.Base.Outcome.{ok, assert-pass, >>=-ok}
use kaush_os.Mm.Pages.{
  Memory, valid, frame_of, allocate_pfn, inc_reference_pfn, entry_for, set_entry, pte_index,
  pde_index, insert_table, insert_frame, insert_rest, page_frame, insert_page, success,
  is_user_address, is_page_aligned, or_present, remove_page, dec_reference_pfn, free_pfn,
  free_at_zero, set_ref_count, map_new_page, install_table,
}
use kaush_os.Mm.Pages.Accounting.{Accounted}
use kaush_os.Mm.Pages.Allocate.{allocate_pfn-Allocated, allocate_pfn-none}
use kaush_os.Mm.Pages.Table.{insert_table-TableResult}

free_at_zero-ok :
    (f n : ℕ) (m : Memory)
    → (t : Memory) × (free_at_zero f n (set_ref_count f n m) ≡ ok t)
      × (length m.pfn_free_list ≤ length t.pfn_free_list)
unfolding free_pfn
free_at_zero-ok f zero m =
    let m1 = set_ref_count f 0 m in
    (_, assert-pass {b = m1.ref_count f == 0} _ (ground arith), omega arith)
free_at_zero-ok f (suc n) m = (_, refl, omega arith)

pub remove_page-ok :
    (va : ℕ) (m : Memory)
    → va % 4096 ≡ 0
    → valid (m.entries (pde_index va)) ≡ true
    → valid (m.entries (pte_index va)) ≡ true
    → (t : Memory) × (remove_page true va m ≡ ok t)
      × (length m.pfn_free_list ≤ length t.pfn_free_list)
unfolding remove_page dec_reference_pfn
remove_page-ok va m aligned there mapped =
    let f = frame_of (m.entries (pte_index va)) in
    let (t, e, more) = free_at_zero-ok f ((m.ref_count f + 2 ^ 32 - 1) % 2 ^ 32) m in
    (
      set_entry (pte_index va) 0 t,
      assert-pass {b = is_page_aligned va} _ (ground (arith, aligned))
          ∙ assert-pass {b = valid (m.entries (pde_index va)) && valid (m.entries (pte_index va))} _
              (ground (arith, there, mapped))
          ∙ >>=-ok _ e,
      more,
    )

-- A new frame, where one is left.
pub allocate_pfn-some :
    (pte : ℕ) (m : Memory)
    → 1 ≤ length m.pfn_free_list
    → (f : ℕ) × (m1 : Memory) × (allocate_pfn pte m ≡ some (f, m1))
allocate_pfn-some pte m h = elim (Option-cases (allocate_pfn pte m)) [
  | inl e ↦ absurd (ground (arith, h, allocate_pfn-none pte m e))
  | inr ((f, m1), e) ↦ (f, m1, e)
]

-- The page table is there, or a user address gets one.
abbrev pub HasTable : ℕ → Memory → Type 0
HasTable va m = (valid (m.entries (pde_index va)) ≡ true) ⊎ (is_user_address va ≡ true)

insert_table-ok :
    {kept : ℕ → ℕ} (va : ℕ) (m : Memory)
    → Accounted kept m
    → HasTable va m
    → 1 ≤ length m.pfn_free_list
    → (m1 : Memory) × (insert_table va m ≡ ok (success, m1))
      × (length m.pfn_free_list ≤ suc (length m1.pfn_free_list))
unfolding insert_table inc_reference_pfn
insert_table-ok va m a has_table some_left = elim (Bool-cases (valid (m.entries (pde_index va)))) [
  | inl v ↦ (m, rw (v, insert_table) refl, omega arith)
  | inr v ↦
      let user : is_user_address va ≡ true = ground (arith, has_table, v) in
      let (f, m1, e) = allocate_pfn-some (pde_index va) m some_left in
      let al = allocate_pfn-Allocated (pde_index va) m f m1 a e in
      (
        install_table va f m1,
        rw (v, insert_table) (assert-pass {b = is_user_address va} _ user ∙ rw (e) refl),
        ground (arith, al.list),
      )
]

pub insert_frame-ok :
    {kept : ℕ → ℕ} (va f perm : ℕ) (m : Memory)
    → Accounted kept m
    → va % 4096 ≡ 0
    → valid (m.entries (pde_index va)) ≡ true
    → (m' : Memory) × (insert_frame true va f perm m ≡ ok (success, m'))
      × (length m.pfn_free_list ≤ length m'.pfn_free_list)
unfolding insert_frame inc_reference_pfn
insert_frame-ok va f perm m a aligned there =
    let old = m.entries (pte_index va) in
    let filled = λ (t : Memory).
      inc_reference_pfn f (set_entry (pte_index va) (entry_for f (or_present perm)) t) in
    elim (Bool-cases (frame_of old == f)) [
      | inl e1 ↦ (m, rw (e1, insert_frame) refl, omega arith)
      | inr e1 ↦ elim (Bool-cases (old != 0)) [
        | inl used ↦
            let mapped : valid old ≡ true = ground (arith, used, a.clean (pte_index va)) in
            let (t, e2, more) = remove_page-ok va m aligned there mapped in
            (filled t, rw (e1, insert_frame) (rw (used) (>>=-ok _ e2)), more)
        | inr unused ↦ (filled m, rw (e1, insert_frame) (rw (unused) refl), omega arith)
      ]
    ]

pub insert_page-ok :
    {kept : ℕ → ℕ} (va f perm : ℕ) (m : Memory)
    → Accounted kept m
    → va % 4096 ≡ 0
    → HasTable va m
    → 1 ≤ length m.pfn_free_list
    → (m' : Memory) × (insert_page true va (some f) perm m ≡ ok (success, m'))
      × (length m.pfn_free_list ≤ suc (length m'.pfn_free_list))
unfolding insert_page insert_rest page_frame
insert_page-ok va f perm m a aligned has_table some_left =
    let (m1, e1, l1) = insert_table-ok va m a has_table some_left in
    let t = insert_table-TableResult va m (success, m1) a e1 in
    let (m2, e2, l2) = insert_frame-ok va f perm m1 t.accounted aligned t.there in
    (m2, >>=-ok _ e1 ∙ e2, omega (arith, l1, l2))

pub map_new_page-ok :
    {kept : ℕ → ℕ} (va perm : ℕ) (m : Memory)
    → Accounted kept m
    → va % 4096 ≡ 0
    → HasTable va m
    → 2 ≤ length m.pfn_free_list
    → (m' : Memory) × (map_new_page true va perm m ≡ ok m')
      × (length m.pfn_free_list ≤ 2 + length m'.pfn_free_list)
unfolding map_new_page
map_new_page-ok va perm m a aligned has_table two_left =
    let (f, m1, e) = allocate_pfn-some (pte_index va) m (omega (arith, two_left)) in
    let al = allocate_pfn-Allocated (pte_index va) m f m1 a e in
    let less : length m.pfn_free_list ≡ suc (length m1.pfn_free_list) = ground (arith, al.list) in
    let still : HasTable va m1 =
      subst (λ (u : ℕ → ℕ). (valid (u (pde_index va)) ≡ true) ⊎ (is_user_address va ≡ true))
        (sym al.same) has_table in
    let (m2, e2, l2) =
      insert_page-ok va f perm m1 al.accounted aligned still (omega (arith, less, two_left)) in
    (m2, rw (e, map_new_page) (>>=-ok _ e2), omega (arith, less, l2))
