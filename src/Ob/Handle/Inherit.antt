-- ===== src/Ob/Handle/Inherit.antt =====
-- The handle table of a clone, and a new one.
use kaush_os.Base.{
  ℕ, zero, suc, ◌+◌, ◌≤◌, ◌<◌, ◌≡◌, ◌≢◌, refl, ap, ◌∙◌, subst, true, false, ◌||◌, Option, none,
  some, arith, ◌==◌, ◌!=◌, Bool-cases, Option-cases, inl, inr, ◌⊎◌,
}
use kaush_os.Base.Outcome.{ok, >>=-eq-ok, ok-injective}
use kaush_os.Ob.Object.{Objects, reference_object}
use kaush_os.Ob.Handle.{
  Status, success, too_many_opened_files, HandleTable, put, ex_max_handle, invalid_handle,
  first_free, insert_handle, inherit_slot, inherit_from, is_inherited, fill_from,
  allocate_handle_table,
}
use kaush_os.Ob.Handle.Slots.{first_free-some}

inherit_slot-cases :
    (i : ℕ) (parent t : HandleTable) (s : Objects) (r : HandleTable × Objects)
    → inherit_slot true i parent t s ≡ ok r
    → (t ≡ r.0) ⊎ ((parent i ≢ invalid_handle) × (put i (parent i) t ≡ r.0))
unfolding inherit_slot is_inherited
inherit_slot-cases i parent t s r e =
    elim (Bool-cases (parent i == invalid_handle || parent i == 0)) [
      | inl unused ↦ inl (ap (λ (x : HandleTable × Objects). x.0) (ok-injective (rw unused at e)))
      | inr used ↦
          let (s1, _, e1) = >>=-eq-ok (reference_object (parent i) s) _ (rw used at e) in
          inr (ground (arith, used), ap (λ (x : HandleTable × Objects). x.0) (ok-injective e1))
    ]

inherit_from-used :
    (k i : ℕ) (parent t : HandleTable) (s : Objects) (r : HandleTable × Objects)
    → inherit_from true k i parent t s ≡ ok r
    → ((j : ℕ) → t j ≢ invalid_handle)
    → (j : ℕ) → r.0 j ≢ invalid_handle
unfolding inherit_from
inherit_from-used zero i parent t s r e used =
    subst (λ (x : HandleTable × Objects). (j : ℕ) → x.0 j ≢ invalid_handle) (ok-injective e) used
inherit_from-used (suc k) i parent t s r e used =
    let (q, e1, e2) = >>=-eq-ok (inherit_slot true i parent t s) _ e in
    let used1 : (j : ℕ) → q.0 j ≢ invalid_handle = elim (inherit_slot-cases i parent t s q e1) [
      | inl same ↦ subst (λ (x : HandleTable). (j : ℕ) → x j ≢ invalid_handle) same used
      | inr (parent_used, same) ↦
          subst (λ (x : HandleTable). (j : ℕ) → x j ≢ invalid_handle) same
            (λ j. elim (Bool-cases (j == i)) [
              | inl at_i ↦ rw at_i parent_used
              | inr off ↦ rw off (used j)
            ])
    ] in
    inherit_from-used k (suc i) parent q.0 q.1 r e2 used1

no_free-first_free :
    (k a : ℕ) (t : HandleTable) → ((j : ℕ) → t j ≢ invalid_handle) → first_free k a t ≡ none
no_free-first_free k a t used = elim (Option-cases (first_free k a t)) [
  | inl miss ↦ miss
  | inr (i, hit) ↦ let f = first_free-some k a i t hit in absurd (used i f.free)
]

-- The table of a clone has no free slot, when the memory it was made in holds no OB_INVALID_HANDLE:
-- slots that the parent does not use are passed over and not marked free. Every ObInsertHandle on it
-- fails with STATUS_TOO_MANY_OPENED_FILES.
pub clone_table-full :
    (memory parent : HandleTable) (s s1 : Objects) (t : HandleTable) (o : ℕ)
    → allocate_handle_table (some memory) (some parent) true s ≡ ok (success, some t, s1)
    → ((j : ℕ) → memory j ≢ invalid_handle)
    → o ≢ 0
    → insert_handle o t ≡ ok (too_many_opened_files, invalid_handle, t)
unfolding allocate_handle_table insert_handle
clone_table-full memory parent s s1 t o e fresh ne =
    let (q, e1, e2) = >>=-eq-ok (inherit_from true ex_max_handle 0 parent memory s) _ e in
    let e3 : ◌≡◌ {A = Status × Option HandleTable × Objects} (success, some q.0, q.1)
        (success, some t, s1) =
      ok-injective e2 in
    let same : q.0 ≡ t =
      ground (arith, ap (λ (x : Status × Option HandleTable × Objects). x.1) e3) in
    let used : (j : ℕ) → t j ≢ invalid_handle =
      subst (λ (x : HandleTable). (j : ℕ) → x j ≢ invalid_handle) same
        (inherit_from-used ex_max_handle 0 parent memory s q e1 fresh) in
    let passed : (o != 0) ≡ true = ground (arith, ne) in
    rw (passed, no_free-first_free ex_max_handle 0 t used)

fill_from-keeps : (k i : ℕ) (t : HandleTable) (j : ℕ) → j < i → fill_from k i t j ≡ t j
unfolding fill_from
fill_from-keeps zero i t j h = refl
fill_from-keeps (suc k) i t j h =
    fill_from-keeps k (suc i) (put i invalid_handle t) j (omega (arith, h)) ∙ ground (arith, h)

fill_from-free :
    (k i : ℕ) (t : HandleTable) (j : ℕ) → i ≤ j → j < i + k → fill_from k i t j ≡ invalid_handle
unfolding fill_from
fill_from-free zero i t j lo hi = absurd (omega (arith, lo, hi))
fill_from-free (suc k) i t j lo hi = elim (Bool-cases (j == i)) [
  | inl e ↦ fill_from-keeps k (suc i) (put i invalid_handle t) j (ground (arith, e)) ∙ rw e
  | inr e ↦
      fill_from-free k (suc i) (put i invalid_handle t) j (ground (arith, e)) (omega (arith, hi))
]

-- ObAllocateHandleTable without a table to inherit from returns, and every slot is free, whatever
-- the memory held.
pub allocate_handle_table-free :
    (memory : HandleTable) (s : Objects)
    → (t : HandleTable) × (allocate_handle_table (some memory) none false s
        ≡ ok (success, some t, s))
      × ((j : ℕ) → j < ex_max_handle → t j ≡ invalid_handle)
unfolding allocate_handle_table
allocate_handle_table-free memory s = (
  fill_from ex_max_handle 0 memory,
  refl,
  λ j h. fill_from-free ex_max_handle 0 memory j (omega arith) h,
)
