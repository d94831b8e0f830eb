-- ===== src/Mm/Pages/Table.antt =====
-- The page table that MiInsertPage adds for a user address.
use kaush_os.Base.{
  ℕ, ◌+◌, ◌/◌, ◌%◌, ◌^◌, ◌<◌, ◌≡◌, refl, sym, ap, ◌∙◌, subst, Bool, true, false, ◌==◌,
  if◌then◌else◌, Bool-cases, inl, inr, eqb→eq, arith, [], Option-cases,
}
use kaush_os.Base.Outcome.{ok, ok-injective, assert_then}
use kaush_os.Mm.Pages.{
  Memory, valid, allocate_pfn, inc_reference_pfn, entry_for, directory_base, pde_index, table_size,
  user_top, install_table, insert_table, KStatus, success, no_memory, is_user_address,
  user_table_flags, kernel_table_flags,
}
use kaush_os.Mm.Pages.Counting.{is_boot_entry, references_ext}
use kaush_os.Mm.Pages.Accounting.{entry_count, AbsentZero, Accounted}
use kaush_os.Mm.Pages.Allocate.{
  Held, Allocated, allocate_pfn-Allocated, allocate_pfn-none, map-counted, entry_for-valid,
}

-- The directory's entry of a user address is not one that the boot code made.
pde_index-not_boot : (va : ℕ) → va < user_top → is_boot_entry (pde_index va) ≡ false
unfolding is_boot_entry
pde_index-not_boot va h = let k : va / 4194304 < 511 = omega (arith, h) in ground (arith, k)

-- The entries that a new table brings.
abbrev with_table : ℕ → ℕ → (ℕ → ℕ) → ℕ → ℕ
with_table va f e j =
    if j / 1024 == va / table_size then 0 else (if j == pde_index va then entry_for f 7 else e j)

-- They differ from those before in the directory's entry only, since what had no table counts as 0.
with_table-same :
    (va f : ℕ) (e : ℕ → ℕ)
    → va < user_top
    → AbsentZero e
    → valid (e (pde_index va)) ≡ false
    → (j : ℕ) → j < entry_count
    → with_table va f e j ≡ (if j == pde_index va then entry_for f 7 else e j)
with_table-same va f e user absent gone j lt = elim (Bool-cases (j / 1024 == va / table_size)) [
  | inl e1 ↦
      let at : valid (e (directory_base + j / 1024)) ≡ false =
        subst (λ (k : ℕ). valid (e (directory_base + k)) ≡ false) (sym (eqb→eq _ _ e1)) gone in
      ground (arith, e1, absent j lt at, user)
  | inr e1 ↦ rw (e1) refl
]

with_table-AbsentZero :
    (va f : ℕ) (e : ℕ → ℕ)
    → va < user_top
    → AbsentZero e
    → valid (e 787200) ≡ true
    → AbsentZero (with_table va f e)
with_table-AbsentZero va f e user absent self j lt h =
    elim (Bool-cases (j / 1024 == va / table_size)) [
      | inl e1 ↦ rw (e1) refl
      | inr e1 ↦
          let high : ((directory_base + j / 1024) / 1024 == va / table_size) ≡ false =
            ground (arith, lt, user) in
          let gone : valid (e (directory_base + j / 1024)) ≡ false = ground (arith, h, high, e1) in
          let other : (j == pde_index va) ≡ false = elim (Bool-cases (j == pde_index va)) [
            | inl e2 ↦
                let k : j / 1024 ≡ 768 = ground (arith, e2, user) in
                let no_self = subst (λ (x : ℕ). valid (e (directory_base + x)) ≡ false) k gone in
                absurd (ground (arith, self, no_self))
            | inr e2 ↦ e2
          ] in
          ground (arith, e1, other, absent j lt gone)
    ]

pub record Tabled (kept : ℕ → ℕ) (va : ℕ) (m m1 : Memory) : Type 0 where
  pub accounted : Accounted kept m1
  pub there : valid (m1.entries (pde_index va)) ≡ true
  pub others : (j : ℕ) → j < entry_count → (j == pde_index va) ≡ false → m1.entries j ≡ m.entries j
  pub holds : (f : ℕ) → Held f m → Held f m1

install_table-Tabled :
    {kept : ℕ → ℕ} (va f : ℕ) (m : Memory)
    → Accounted kept m
    → va < user_top
    → valid (m.entries (pde_index va)) ≡ false
    → Held f m
    → Tabled kept va m (install_table va f m)
unfolding inc_reference_pfn
install_table-Tabled {kept} va f m a user gone held =
    let i = pde_index va in
    let is_user : is_user_address va ≡ true = ground (arith, user) in
    let same = with_table-same va f m.entries user a.absent gone in
    let lt : i < entry_count = omega (arith, user) in
    let boot = pde_index-not_boot va user in
    let count = map-counted m i f 7 a lt boot gone held (omega arith) refl in
    let after = record m {
      ref_count = λ g. if g == f then (m.ref_count f + 1) % 2 ^ 32 else m.ref_count g;
      entries = with_table va f m.entries;
    } in
    let done : Tabled kept va m after = record {
      accounted = record {
        counted = λ g.
            count g
            ∙ ap (λ (n : ℕ). n + kept g)
                (sym (references_ext entry_count g _ (with_table va f m.entries) same));
        zero_kept = a.zero_kept;
        small = a.small;
        free = λ g h. ground (arith, a.free g h, held.out, eqb→eq g f, h);
        distinct = a.distinct;
        in_range = a.in_range;
        words = λ j. ground (arith, a.words j);
        absent = with_table-AbsentZero va f m.entries user a.absent a.self_map;
        self_map = ground (arith, user, a.self_map);
        clean = λ j h. ground (arith, h, a.clean j, entry_for-valid f 7 refl);
      };
      there = ground (arith, user, entry_for-valid f 7 refl);
      others = λ j jlt ne. ground (arith, same j jlt, ne);
      holds = λ g h. record { out = h.out; bound = h.bound; nonzero = h.nonzero };
    } in
    subst
      (λ (b : Bool). Tabled kept va m (record m {
        ref_count = λ g. if g == f then (m.ref_count f + 1) % 2 ^ 32 else m.ref_count g;
        entries = λ j.
            if j / 1024 == va / table_size
            then 0
            else (if j == i
                then entry_for f (if b then user_table_flags else kernel_table_flags)
                else m.entries j);
      }))
      (sym is_user) done

-- What the first part of MiInsertPage does, on success and without memory.
abbrev pub TableResult : (ℕ → ℕ) → ℕ → Memory → KStatus × Memory → Type 0
TableResult kept va m (success, m1) = Tabled kept va m m1
TableResult kept va m (no_memory, m1) = (m1 ≡ m) × (m.pfn_free_list ≡ [])

Tabled-after :
    {kept : ℕ → ℕ} (va : ℕ) {f : ℕ} {m m2 m1 : Memory}
    → Allocated kept m f m2
    → Tabled kept va m2 m1
    → Tabled kept va m m1
Tabled-after va {f} {m} al t = record {
  accounted = t.accounted;
  there = t.there;
  others = λ j lt ne. t.others j lt ne ∙ ap (λ (u : ℕ → ℕ). u j) al.same;
  holds = λ g h.
      t.holds g
        (record { out = ground (arith, h.out, al.list); bound = h.bound; nonzero = h.nonzero });
}

pub insert_table-TableResult :
    {kept : ℕ → ℕ} (va : ℕ) (m : Memory) (r : KStatus × Memory)
    → Accounted kept m
    → insert_table va m ≡ ok r
    → TableResult kept va m r
unfolding insert_table
insert_table-TableResult {kept} va m r a e = elim (Bool-cases (valid (m.entries (pde_index va)))) [
  | inl v ↦
      let e1 = rw (v, insert_table) at e in
      let done : Tabled kept va m m = record {
        accounted = a;
        there = v;
        others = λ j lt ne. refl;
        holds = λ f h. h;
      } in
      subst (TableResult kept va m) (ok-injective e1) done
  | inr v ↦
      let e1 = rw (v, insert_table) at e in
      let (user, e2) = assert_then (is_user_address va) _ e1 in
      elim (Option-cases (allocate_pfn (pde_index va) m)) [
        | inl none_left ↦
            let e3 = rw (none_left) at e2 in
            subst (TableResult kept va m) (ok-injective e3) (refl, allocate_pfn-none _ m none_left)
        | inr ((f, m2), some_left) ↦
            let e3 = rw (some_left) at e2 in
            let al = allocate_pfn-Allocated _ m f m2 a some_left in
            let gone = subst (λ (u : ℕ → ℕ). valid (u (pde_index va)) ≡ false) (sym al.same) v in
            let t = install_table-Tabled va f m2 al.accounted (ground (arith, user)) gone al.held in
            subst (TableResult kept va m) (ok-injective e3) (Tabled-after va al t)
      ]
]
