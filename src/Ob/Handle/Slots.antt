-- ===== src/Ob/Handle/Slots.antt =====
-- Inserting, looking up and removing handles.
use kaush_os.Base.{
  ℕ, zero, suc, ◌+◌, ◌≤◌, ◌<◌, ◌≡◌, ◌≢◌, sym, ap, ◌∙◌, subst, true, false, Option, none, some,
  arith, ◌==◌, ◌!=◌, Bool-cases, Option-cases, inl, inr, eqb→eq,
}
use kaush_os.Base.Outcome.{ok, >>=-eq-ok, ok-injective, assert_then}
use kaush_os.Ob.Object.{
  Objects, dereference_object, close_object, remove_object, reference_object_by_pointer,
}
use kaush_os.Ob.Handle.{
  Status, success, too_many_opened_files, HandleTable, put, ex_max_handle, invalid_handle,
  first_free, insert_handle, remove_handle, lookup_object_by_handle, close,
  reference_object_by_handle, deref_from, deref_all_handle_table_objects,
}

-- Slot `i` is the first free one from `a`.
pub record FirstFree (a z i : ℕ) (t : HandleTable) : Type 0 where
  pub from : a ≤ i
  pub below : i < z
  pub free : t i ≡ invalid_handle
  pub taken : (j : ℕ) → a ≤ j → j < i → t j ≢ invalid_handle

pub first_free-some :
    (k a i : ℕ) (t : HandleTable) → first_free k a t ≡ some i → FirstFree a (a + k) i t
unfolding first_free
first_free-some zero a i t e = ground arith
first_free-some (suc k) a i t e = elim (Bool-cases (t a == invalid_handle)) [
  | inl free ↦
      let here : ◌≡◌ {A = Option ℕ} (some a) (some i) = rw free at e in
      let same : a ≡ i = ground (arith, here) in
      record {
        from = omega (arith, same);
        below = omega (arith, same);
        free = subst (λ x. t x ≡ invalid_handle) same (eqb→eq (t a) invalid_handle free);
        taken = λ j lo hi. absurd (omega (arith, same, lo, hi));
      }
  | inr taken ↦
      let r = first_free-some k (suc a) i t (rw taken at e) in
      record {
        from = omega (arith, r.from);
        below = omega (arith, r.below);
        free = r.free;
        taken = λ j lo hi. elim (Bool-cases (j == a)) [
          | inl e1 ↦ subst (λ x. t x ≢ invalid_handle) (sym (eqb→eq j a e1)) (ground (arith, taken))
          | inr e1 ↦ r.taken j (ground (arith, e1)) hi
        ];
      }
]

pub first_free-none :
    (k a : ℕ) (t : HandleTable)
    → first_free k a t ≡ none
    → (j : ℕ) → a ≤ j
    → j < a + k
    → t j ≢ invalid_handle
unfolding first_free
first_free-none zero a t e j lo hi = absurd (omega (arith, lo, hi))
first_free-none (suc k) a t e j lo hi = elim (Bool-cases (t a == invalid_handle)) [
  | inl free ↦ absurd (ground (arith, free))
  | inr taken ↦ elim (Bool-cases (j == a)) [
    | inl e1 ↦ subst (λ x. t x ≢ invalid_handle) (sym (eqb→eq j a e1)) (ground (arith, taken))
    | inr e1 ↦
        first_free-none k (suc a) t (rw taken at e) j (ground (arith, e1)) (omega (arith, hi))
  ]
]

-- ObInsertHandle of an object that is not NULL: it stores the object in the first free slot and
-- gives the slot's number, or, if no slot is free, fails and leaves the table as it was.
pub data Inserted (o : ℕ) (t : HandleTable) : Status × ℕ × HandleTable → Type 0 where
  stored : {i : ℕ} → FirstFree 0 ex_max_handle i t → Inserted o t (success, i, put i o t)
  full :
      ((j : ℕ) → j < ex_max_handle → t j ≢ invalid_handle)
      → Inserted o t (too_many_opened_files, invalid_handle, t)

-- ObInsertHandle of an object that is not NULL returns: it stores the object in the first free slot
-- and gives the slot's number, or fails, with the table as it was, when no slot is free.
pub insert_handle-Inserted :
    (o : ℕ) (t : HandleTable)
    → o ≢ 0
    → (r : Status × ℕ × HandleTable) × (insert_handle o t ≡ ok r) × Inserted o t r
unfolding insert_handle
insert_handle-Inserted o t ne =
    let passed : (o != 0) ≡ true = ground (arith, ne) in
    elim (Option-cases (first_free ex_max_handle 0 t)) [
      | inl miss ↦ (
        (too_many_opened_files, invalid_handle, t),
        rw (passed, miss),
        full (λ j h. first_free-none ex_max_handle 0 t miss j (omega arith) h),
      )
      | inr (i, hit) ↦ (
        (success, i, put i o t),
        rw (passed, hit),
        stored (first_free-some ex_max_handle 0 i t hit),
      )
    ]

-- What a handle leads to, and how its removal leaves the table.
Undone : ℕ → HandleTable → ℕ × HandleTable → Type 0
Undone o t (handle, t1) =
    (lookup_object_by_handle handle t1 ≡ ok o)
    × ((t2 : HandleTable) × (remove_handle handle t1 o ≡ ok t2) × ((j : ℕ) → t2 j ≡ t j))

put-Undone : (o i : ℕ) (t : HandleTable) → FirstFree 0 ex_max_handle i t → Undone o t (i, put i o t)
unfolding Undone lookup_object_by_handle remove_handle
put-Undone o i t f = (
  ground (arith, f.below),
  (
    put i invalid_handle (put i o t),
    ground (arith, f.below),
    λ j. elim (Bool-cases (j == i)) [
      | inl e ↦ rw e (sym f.free ∙ ap t (sym (eqb→eq j i e)))
      | inr e ↦ rw e
    ],
  ),
)

-- A handle that ObInsertHandle gave with success leads ObLookupObjectByHandle to the object, and
-- ObRemoveHandle then returns and gives back the table as it was before.
pub remove_handle-insert_handle :
    (o handle : ℕ) (t t1 : HandleTable)
    → insert_handle o t ≡ ok (success, handle, t1)
    → (lookup_object_by_handle handle t1 ≡ ok o)
      × ((t2 : HandleTable) × (remove_handle handle t1 o ≡ ok t2) × ((j : ℕ) → t2 j ≡ t j))
unfolding insert_handle Undone
remove_handle-insert_handle o handle t t1 e =
    let (_, e1) = assert_then (o != 0) _ e in
    elim (Option-cases (first_free ex_max_handle 0 t)) [
      | inl miss ↦ absurd (ground (arith, miss, e1))
      | inr (i, hit) ↦
          let e2 : ◌≡◌ {A = Status × ℕ × HandleTable} (success, i, put i o t)
              (success, handle, t1) =
            ok-injective (rw hit at e1) in
          subst (Undone o t) (ap (λ (r : Status × ℕ × HandleTable). (r.1, r.2)) e2)
            (put-Undone o i t (first_free-some ex_max_handle 0 i t hit))
    ]

-- ObClose returns for no handle of an object that has a type: it looks the object up as one of type
-- NULL, and the types are compared by an assertion.
pub close-bug_check :
    (handle : ℕ) (t : HandleTable) (s s' : Objects)
    → (s.header (t handle)).object_type ≢ 0
    → close handle t s ≢ ok s'
unfolding close reference_object_by_handle lookup_object_by_handle reference_object_by_pointer
close-bug_check handle t s s' typed e = ground (arith, typed, e)

last_reference :
    (o : ℕ) (s : Objects)
    → (s.header o).ref_count ≡ 1
    → (s.header o).open_handle_count ≡ 1
    → (s.header o).permanent ≡ false
    → (s' : Objects) → dereference_object o s ≢ ok s'
unfolding dereference_object close_object remove_object
last_reference o s one_ref one_handle removable s' e =
    ground (arith, one_ref, one_handle, removable, e)

deref_from-stops :
    (k i : ℕ) (t : HandleTable) (s : Objects) (r : HandleTable × Objects)
    → t i ≢ invalid_handle
    → ((s' : Objects) → dereference_object (t i) s ≢ ok s')
    → deref_from (suc k) i t s ≢ ok r
unfolding deref_from
deref_from-stops k i t s r used stop e =
    let in_use : (t i != invalid_handle) ≡ true = ground (arith, used) in
    let (s1, e1, _) = >>=-eq-ok (dereference_object (t i) s) _ (rw (in_use, deref_from) at e) in
    stop s1 e1

-- ObDerefAllHandleTableObjects does not return on a table whose first slot holds the one reference
-- and the one open handle of an object that is not permanent: the open handle is not taken off, and
-- ObRemoveObject asserts that there is none.
pub deref_all-last_handle :
    (t : HandleTable) (s : Objects) (r : HandleTable × Objects)
    → t 0 ≢ invalid_handle
    → (s.header (t 0)).ref_count ≡ 1
    → (s.header (t 0)).open_handle_count ≡ 1
    → (s.header (t 0)).permanent ≡ false
    → deref_all_handle_table_objects t s ≢ ok r
unfolding deref_all_handle_table_objects
deref_all-last_handle t s r used one_ref one_handle removable e =
    deref_from-stops 1023 0 t s r used (last_reference (t 0) s one_ref one_handle removable) e
