-- ===== src/Mm/Temp/Window.antt =====
-- MmMapPageTemp.
use kaush_os.Base.{
  ℕ, zero, suc, ◌+◌, ◌*◌, ◌%◌, ◌≤◌, ◌<◌, ◌≡◌, refl, ap, ◌∙◌, subst, true, false, some, none, [],
  Bool-cases, Option-cases, inl, inr, ◌⊎◌, arith,
}
use kaush_os.Base.Outcome.{ok, >>=-ok}
use kaush_os.Mm.Pages.{
  Memory, page_size, pte_index, pde_index, valid, insert_page, insert_table, insert_rest,
  page_frame, success, no_memory, allocate_pfn,
}
use kaush_os.Mm.Pages.Counting.{is_boot_entry}
use kaush_os.Mm.Pages.Accounting.{Accounted, Ordinary}
use kaush_os.Mm.Pages.Allocate.{Held, allocate_pfn-none, allocate_pfn-Allocated}
use kaush_os.Mm.Pages.Insert.{Inserted, insert_page-InsertResult}
use kaush_os.Mm.Pages.Progress.{insert_frame-ok, insert_page-ok}
use kaush_os.Mm.Temp.{map_page_temp, map_temp_at, search_temp, user_temp, user_temp_end}

-- No page of the window is left, from address `va` on, for `k` pages.
abbrev pub Taken : ℕ → ℕ → Memory → Type 0
Taken va k m = (i : ℕ) → i < k → valid (m.entries (pte_index (va + page_size * i))) ≡ true

-- The frame is mapped in the window at the address.
pub record Mapped (kept : ℕ → ℕ) (va page : ℕ) (m m' : Memory) : Type 0 where
  pub low : user_temp ≤ va
  pub high : va < user_temp_end
  pub aligned : va % page_size ≡ 0
  pub unused : valid (m.entries (pte_index va)) ≡ false
  pub inserted : Inserted kept va page m m'

-- NULL, with the memory as it was, or the address of the frame.
abbrev pub TempResult : (ℕ → ℕ) → ℕ → ℕ → ℕ → Memory → ℕ × Memory → Type 0
TempResult kept start k page m (va, m') =
    ((va ≡ 0) × (m' ≡ m) × ((m.pfn_free_list ≡ []) ⊎ Taken start k m)) ⊎ Mapped kept va page m m'

pub temp-Ordinary : (va : ℕ) → user_temp ≤ va → va < user_temp_end → Ordinary va
unfolding is_boot_entry
temp-Ordinary va lo hi = record {
  below = omega (arith, hi);
  not_boot = ground (arith, lo, hi);
  not_table = ground (arith, lo, hi);
}

insert_in_table :
    (va page : ℕ) (m : Memory)
    → valid (m.entries (pde_index va)) ≡ true
    → insert_page true va (some page) 2 m ≡ insert_rest true va (some page) 2 (success, m)
unfolding insert_page insert_table
insert_in_table va page m there = rw (there, insert_table) refl

map_temp_at-Mapped :
    {kept : ℕ → ℕ} (va page : ℕ) (m : Memory)
    → Accounted kept m
    → Held page m
    → user_temp ≤ va
    → va < user_temp_end
    → va % 4096 ≡ 0
    → valid (m.entries (pde_index va)) ≡ true
    → valid (m.entries (pte_index va)) ≡ false
    → (m' : Memory) × (map_temp_at va page m ≡ ok (va, m')) × Mapped kept va page m m'
unfolding map_temp_at insert_rest page_frame
map_temp_at-Mapped va page m a held lo hi al there free =
    let (m', e, _) = insert_frame-ok va page 2 m a al there in
    let e1 = insert_in_table va page m there ∙ e in
    (
      m',
      >>=-ok _ e1,
      record {
        low = lo;
        high = hi;
        aligned = al;
        unused = free;
        inserted =
            insert_page-InsertResult true va page 2 m (success, m') a (temp-Ordinary va lo hi) held
              (omega arith) e1;
      },
    )

Taken-cons :
    (va k : ℕ) (m : Memory)
    → valid (m.entries (pte_index va)) ≡ true
    → Taken (va + page_size) k m
    → Taken va (suc k) m
Taken-cons va k m first rest zero lt =
    subst (λ (x : ℕ). valid (m.entries (pte_index x)) ≡ true) (omega arith) first
Taken-cons va k m first rest (suc i) lt =
    subst (λ (x : ℕ). valid (m.entries (pte_index x)) ≡ true) (omega arith)
      (rest i (omega (arith, lt)))

TempResult-cons :
    (kept : ℕ → ℕ) (va k page : ℕ) (m : Memory) (r : ℕ × Memory)
    → valid (m.entries (pte_index va)) ≡ true
    → TempResult kept (va + page_size) k page m r
    → TempResult kept va (suc k) page m r
TempResult-cons kept va k page m (va', m') first (inl (z, same, inl none_left)) =
    inl (z, same, inl none_left)
TempResult-cons kept va k page m (va', m') first (inl (z, same, inr taken)) =
    inl (z, same, inr (Taken-cons va k m first taken))
TempResult-cons kept va k page m (va', m') first (inr mapped) = inr mapped

search_temp-TempResult :
    {kept : ℕ → ℕ} (k va page : ℕ) (m : Memory)
    → Accounted kept m
    → Held page m
    → user_temp ≤ va
    → va + 4096 * k ≤ user_temp_end
    → va % 4096 ≡ 0
    → valid (m.entries (pde_index user_temp)) ≡ true
    → (r : ℕ × Memory) × (search_temp k va page m ≡ ok r) × TempResult kept va k page m r
unfolding search_temp
search_temp-TempResult zero va page m a held lo hi al there =
    ((0, m), refl, inl (refl, refl, inr (λ i lt. absurd (omega (arith, lt)))))
search_temp-TempResult (suc k) va page m a held lo hi al there =
    elim (Bool-cases (valid (m.entries (pte_index va)))) [
      | inl used ↦
          let (r, e, result) =
            search_temp-TempResult k (va + page_size) page m a held (omega (arith, lo))
              (omega (arith, hi)) (omega (arith, al)) there in
          (r, rw (used, search_temp) e, TempResult-cons _ va k page m r used result)
      | inr free ↦
          let table : pde_index va ≡ pde_index user_temp = omega (arith, lo, hi) in
          let (m', e, mapped) =
            map_temp_at-Mapped va page m a held lo (omega (arith, hi)) al
              (ap (λ (i : ℕ). valid (m.entries i)) table ∙ there) free in
          ((va, m'), rw (free, search_temp) e, inr mapped)
    ]

insert_without_frame :
    (page : ℕ) (m : Memory)
    → valid (m.entries (pde_index user_temp)) ≡ false
    → allocate_pfn (pde_index user_temp) m ≡ none
    → insert_page true user_temp (some page) 2 m ≡ ok (no_memory, m)
unfolding insert_page insert_table insert_rest
insert_without_frame page m gone e = rw (gone, insert_table) (rw (e) refl)

map_first-TempResult :
    {kept : ℕ → ℕ} (page : ℕ) (m : Memory)
    → Accounted kept m
    → Held page m
    → valid (m.entries (pde_index user_temp)) ≡ false
    → (r : ℕ × Memory) × (map_temp_at user_temp page m ≡ ok r)
      × TempResult kept user_temp 1024 page m r
unfolding map_temp_at
map_first-TempResult page m a held gone =
    elim (Option-cases (allocate_pfn (pde_index user_temp) m)) [
      | inl e ↦
          let e1 = insert_without_frame page m gone e in
          ((0, m), >>=-ok _ e1, inl (refl, refl, inl (allocate_pfn-none _ m e)))
      | inr ((f, m1), e) ↦
          let al = allocate_pfn-Allocated _ m f m1 a e in
          let empty : m.entries 1024 ≡ 0 = a.absent 1024 (omega arith) gone in
          let (m', e1, _) =
            insert_page-ok user_temp page 2 m a refl (inr refl) (ground (arith, al.list)) in
          let o = temp-Ordinary user_temp (omega arith) (omega arith) in
          (
            (user_temp, m'),
            >>=-ok _ e1,
            inr (record {
              low = omega arith;
              high = omega arith;
              aligned = refl;
              unused = ap valid empty;
              inserted =
                  insert_page-InsertResult true user_temp page 2 m (success, m') a o held
                    (omega arith) e1;
            }),
          )
    ]

-- MmMapPageTemp, with a frame that is not free and not frame 0, returns: the address of a page of
-- the window that was not in use, at which the frame is mapped now, while every other entry but the
-- page directory's is as it was and the counts of all frames agree with the entries that map them;
-- or NULL with the memory as it was, where no frame is free or all 1024 pages are in use.
pub map_page_temp-TempResult :
    {kept : ℕ → ℕ} (page : ℕ) (m : Memory)
    → Accounted kept m
    → Held page m
    → (r : ℕ × Memory) × (map_page_temp page m ≡ ok r) × TempResult kept user_temp 1024 page m r
unfolding map_page_temp
map_page_temp-TempResult page m a held =
    elim (Bool-cases (valid (m.entries (pde_index user_temp)))) [
      | inl there ↦
          let (r, e, result) =
            search_temp-TempResult 1024 user_temp page m a held (omega arith) (omega arith) refl
              there in
          (r, rw (there, map_page_temp) e, result)
      | inr gone ↦
          let (r, e, result) = map_first-TempResult page m a held gone in
          (r, rw (gone, map_page_temp) e, result)
    ]
