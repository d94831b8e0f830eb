-- ===== src/Mm/Temp/RoundTrip.antt =====
-- MmUnMapPageTemp behind MmMapPageTemp.
use kaush_os.Base.{
  ℕ, ◌-◌, ◌≤◌, ◌<◌, ◌≡◌, sym, ap, ◌∙◌, subst, true, false, ◌==◌, ◌!=◌, leb, ltb, inl, inr, arith,
}
use kaush_os.Base.Outcome.{ok, ok-injective, >>=-ok, assert-pass}
use kaush_os.Mm.Pages.{Memory, pte_index, pde_index, valid, frame_of, set_entry}
use kaush_os.Mm.Pages.Counting.{maps}
use kaush_os.Mm.Pages.Accounting.{Accounted, entry_count}
use kaush_os.Mm.Pages.Allocate.{Held}
use kaush_os.Mm.Pages.Remove.{Released, remove_page-Removed, remove_page-Accounted}
use kaush_os.Mm.Pages.Progress.{remove_page-ok}
use kaush_os.Mm.Temp.{map_page_temp, unmap_page_temp, user_temp, user_temp_end}
use kaush_os.Mm.Temp.Window.{TempResult, Mapped, temp-Ordinary, map_page_temp-TempResult}

-- The memory `m2`, from which the frame is unmapped again; it was mapped in `m1`, and not yet in `m`.
pub record Unmapped (kept : ℕ → ℕ) (va page : ℕ) (m m1 m2 : Memory) : Type 0 where
  pub accounted : Accounted kept m2
  pub gone : m2.entries (pte_index va) ≡ 0
  pub count : m2.ref_count page ≡ m1.ref_count page - 1
  pub still_held : m2.pfn_free_list ≡ m1.pfn_free_list
  pub others :
      (j : ℕ)
      → j < entry_count
      → (j == pde_index va) ≡ false
      → (j == pte_index va) ≡ false
      → m2.entries j ≡ m.entries j

maps-parts : (f w : ℕ) → maps f w ≡ true → (valid w ≡ true) × (frame_of w ≡ f)
unfolding maps
maps-parts f w h = ground (arith, h)

TempResult-Mapped :
    (kept : ℕ → ℕ) (k page va : ℕ) (m m1 : Memory) (r : ℕ × Memory)
    → r ≡ (va, m1)
    → (va == 0) ≡ false
    → TempResult kept user_temp k page m r
    → Mapped kept va page m m1
TempResult-Mapped kept k page va m m1 (va', m1') e found (inl (z, _, _)) =
    absurd (ground (arith, z, found, ap (λ (p : ℕ × Memory). p.0) e))
TempResult-Mapped kept k page va m m1 (va', m1') e found (inr mapped) =
    subst (λ (p : ℕ × Memory). Mapped kept (p.0) page m (p.1)) e mapped

Released-Unmapped :
    (kept : ℕ → ℕ) (va page : ℕ) (m m1 m2 t : Memory)
    → Mapped kept va page m m1
    → 2 ≤ m1.ref_count page
    → Accounted kept m2
    → Released page m1 t
    → m2 ≡ set_entry (pte_index va) 0 t
    → Unmapped kept va page m m1 m2
Released-Unmapped kept va page m m1 m2 t mapped two a released eq =
    let count : t.ref_count page ≡ m1.ref_count page - 1 = ground (arith, released.count page) in
    let list : t.pfn_free_list ≡ m1.pfn_free_list = ground (arith, released.free, two) in
    subst (Unmapped kept va page m m1) (sym eq) (record {
      accounted = subst (Accounted kept) eq a;
      gone = ground arith;
      count = count;
      still_held = list;
      others = λ j lt ne1 ne2.
          ground (
            arith,
            ne2,
            ap (λ (u : ℕ → ℕ). u j) released.same,
            mapped.inserted.others j lt ne2 ne1,
          );
    })

-- A frame that MmMapPageTemp has mapped at an address, and that has another reference than this,
-- is unmapped by MmUnMapPageTemp, which returns: the address is unmapped, the frame has one
-- reference less and is not free, every other entry but the page directory's is as it was before
-- both calls, and the counts of all frames agree with the entries that map them.
pub unmap_page_temp-map_page_temp :
    {kept : ℕ → ℕ} (page va : ℕ) (m m1 : Memory)
    → Accounted kept m
    → Held page m
    → map_page_temp page m ≡ ok (va, m1)
    → (va == 0) ≡ false
    → 2 ≤ m1.ref_count page
    → (m2 : Memory) × (unmap_page_temp va page m1 ≡ ok m2) × Unmapped kept va page m m1 m2
unfolding unmap_page_temp
unmap_page_temp-map_page_temp {kept} page va m m1 a held e found two =
    let (r, e1, result) = map_page_temp-TempResult page m a held in
    let mapped =
      TempResult-Mapped kept 1024 page va m m1 r (ok-injective (sym e1 ∙ e)) found result in
    let i = mapped.inserted in
    let (v, f) = maps-parts page _ i.mapped in
    let o = temp-Ordinary va mapped.low mapped.high in
    let (m2, e2, _) = remove_page-ok va m1 mapped.aligned i.there v in
    let a2 = remove_page-Accounted true va m1 m2 i.accounted o e2 in
    let (t, released, eq) = (remove_page-Removed true va m1 m2 i.accounted o e2).released in
    let un =
      Released-Unmapped kept va page m m1 m2 t mapped two a2
        (subst (λ (x : ℕ). Released x m1 t) f released) eq in
    (
      m2,
      assert-pass {b = leb user_temp va} _ (ground (arith, mapped.low))
          ∙ assert-pass {b = ltb va user_temp_end} _ (ground (arith, mapped.high))
          ∙ >>=-ok _ e2
          ∙ assert-pass {b = m2.ref_count page != 0} _ (ground (arith, un.count, two)),
      un,
    )
