-- ===== src/Ke/Wait/Invariant.antt =====
-- The invariant of the objects that threads wait for, and the steps that keep it.
use kaush_os.Base.{
  ℕ, ◌≡◌, sym, ap, ◌∙◌, subst, true, false, ◌||◌, List, [], ◌∷◌, ◌++◌, arith, ◌==◌, Bool-cases, inl,
  inr, ◌⊎◌, ◌∈◌, ◌∉◌, has, has-append, Distinct, Distinct-snoc, eqb→eq,
}
use kaush_os.Base.Outcome.{ok, bug_check}
use kaush_os.Ke.Dispatcher.{
  Dispatcher, running, waiting, ready_thread, swap_thread, block_thread, priority_idle,
}
use kaush_os.Ke.Dispatcher.Select.{with_next-cases}
use kaush_os.Ke.Dispatcher.Consistency.{Consistent, nobody, has_state}
use kaush_os.Ke.Dispatcher.Scheduling.{
  ready_thread-inv, ready_thread-Consistent, block_thread-inv, block_thread-Consistent,
  swap_thread-inv, with_state,
}
use kaush_os.Ke.Wait.{Object, Waits, set_object, set_dispatcher, is_empty}

abbrev pub waiters : Waits → ℕ → List ℕ
waiters s o = (s.object o).wait_list

-- The dispatcher is consistent, a thread that waits for an object is in the state for it and waits
-- for that object alone, once, and nobody waits for an object that is signalled.
pub record Settled (s : Waits) : Type 0 where
  pub consistent : Consistent nobody s.dispatcher
  pub is_waiting : (o t : ℕ) → t ∈ waiters s o → has_state s.dispatcher t waiting ≡ true
  pub alone : (o p t : ℕ) → t ∈ waiters s o → t ∈ waiters s p → o ≡ p
  pub distinct : (o : ℕ) → Distinct (waiters s o)
  pub idle : (o : ℕ) → ((s.object o).signal_state == 0 || is_empty (waiters s o)) ≡ true

-- The lists of waiting threads and their states stay.
pub Settled-agree :
    {s s' : Waits}
    → Settled s
    → Consistent nobody s'.dispatcher
    → ((t : ℕ) → has_state s.dispatcher t waiting ≡ true → has_state s'.dispatcher t waiting ≡ true)
    → ((o : ℕ) → waiters s' o ≡ waiters s o)
    → ((o : ℕ) → ((s'.object o).signal_state == 0 || is_empty (waiters s' o)) ≡ true)
    → Settled s'
Settled-agree k c w l i = record {
  consistent = c;
  is_waiting = λ o t m. w t (k.is_waiting o t (subst (λ x. t ∈ x) (l o) m));
  alone = λ o p t m n. k.alone o p t (subst (λ x. t ∈ x) (l o) m) (subst (λ x. t ∈ x) (l p) n);
  distinct = λ o. subst Distinct (sym (l o)) (k.distinct o);
  idle = i;
}

-- Another thread than the one made ready keeps its state.
pub ready_thread-state :
    (u : ℕ) (d : Dispatcher) {d' : Dispatcher}
    → ready_thread u d ≡ ok d'
    → (t : ℕ) → (t == u) ≡ false
    → has_state d' t waiting ≡ has_state d t waiting
ready_thread-state u d {d'} e t ne =
    let (_, same) = ready_thread-inv u d d' e in
    ap (λ (x : Dispatcher). has_state x t waiting) (sym same) ∙ ground (arith, ne)

pub set_object-at :
    (o p : ℕ) (v : Object) (s : Waits) → (p == o) ≡ true → (set_object o v s).object p ≡ v
set_object-at o p v s e = rw e

pub set_object-off :
    (o p : ℕ) (v : Object) (s : Waits) → (p == o) ≡ false → (set_object o v s).object p ≡ s.object p
set_object-off o p v s e = rw e

-- An object in its place keeps what holds of the new object and of the other ones.
pub for_all :
    (P : Object → Type 0) (o : ℕ) (v : Object) (s : Waits)
    → P v
    → ((p : ℕ) → (p == o) ≡ false → P (s.object p))
    → (p : ℕ) → P ((set_object o v s).object p)
for_all P o v s at off p = elim (Bool-cases (p == o)) [
  | inl e ↦ subst P (sym (set_object-at o p v s e)) at
  | inr e ↦ subst P (sym (set_object-off o p v s e)) (off p e)
]

-- The first thread of a list is made ready, and leaves the list.
pub Settled-release :
    {s : Waits} (o t : ℕ) (ts : List ℕ) (v : Object) {d : Dispatcher}
    → Settled s
    → waiters s o ≡ t ∷ ts
    → ready_thread t s.dispatcher ≡ ok d
    → v.wait_list ≡ ts
    → v.signal_state ≡ (s.object o).signal_state
    → Settled (set_dispatcher d (set_object o v s))
Settled-release {s} o t ts v {d} k w e l sig =
    let here : t ∈ waiters s o = subst (λ x. t ∈ x) (sym w) (ground arith) in
    let rest : (u : ℕ) → u ∈ ts → u ∈ waiters s o =
      λ u m. subst (λ x. u ∈ x) (sym w) (ground arith) in
    let apart : Distinct (t ∷ ts) = subst Distinct w (k.distinct o) in
    let s' = set_dispatcher d (set_object o v s) in
    let back : (p u : ℕ) → u ∈ waiters s' p → (u ∈ waiters s p) × ((u == t) ≡ false) = λ p u m.
      elim (Bool-cases (p == o)) [
        | inl e1 ↦
            let m1 : u ∈ ts =
              subst (λ x. u ∈ x) (ap (λ (x : Object). x.wait_list) (set_object-at o p v s e1) ∙ l)
                m in
            (
              subst (λ x. u ∈ waiters s x) (sym (eqb→eq p o e1)) (rest u m1),
              ground (arith, apart.0, m1, eqb→eq u t),
            )
        | inr e1 ↦
            let m1 : u ∈ waiters s p =
              subst (λ (x : Object). u ∈ x.wait_list) (set_object-off o p v s e1) m in
            (
              m1,
              elim (Bool-cases (u == t)) [
                | inl e2 ↦ absurd (
                    ground (
                      arith,
                      e1,
                      k.alone p o t (subst (λ x. x ∈ waiters s p) (eqb→eq u t e2) m1) here,
                    ))
                | inr e2 ↦ e2
              ],
            )
      ] in
    record {
      consistent = ready_thread-Consistent t k.consistent e;
      is_waiting = λ p u m.
          ready_thread-state t s.dispatcher e u (back p u m).1 ∙ k.is_waiting p u (back p u m).0;
      alone = λ p q u m n. k.alone p q u (back p u m).0 (back q u n).0;
      distinct =
          for_all (λ x. Distinct x.wait_list) o v s (subst Distinct (sym l) apart.1)
            (λ p off. k.distinct p);
      idle =
          for_all (λ x. (x.signal_state == 0 || is_empty x.wait_list) ≡ true) o v s
            (ground (
              arith,
              sig,
              subst (λ x. ((s.object o).signal_state == 0 || is_empty x) ≡ true) w (k.idle o),
            ))
            (λ p off. k.idle p);
    }

pub resumed-state :
    (u n : ℕ) (d : Dispatcher) {d' : Dispatcher}
    → swap_thread u n d ≡ ok d'
    → (t : ℕ) → has_state d t waiting ≡ true
    → has_state d' t waiting ≡ true
resumed-state u n d {d'} e t w =
    let (_, _, r, same) = swap_thread-inv u n d d' e in
    subst (λ x. has_state x t waiting ≡ true) same
      (elim (Bool-cases (t == n)) [
        | inl e1 ↦
            absurd (ground (arith, r, subst (λ x. has_state d x waiting ≡ true) (eqb→eq t n e1) w))
        | inr e1 ↦ ground (arith, e1, w)
      ])

-- KiBlockThread was called on a thread that runs; it and the threads that waited wait.
pub block_thread-state :
    (d : Dispatcher) {d' : Dispatcher}
    → block_thread d ≡ ok d'
    → (has_state d d.current_thread running ≡ true)
      × ((t : ℕ)
          → (has_state d t waiting ≡ true) ⊎ (t ≡ d.current_thread)
          → has_state d' t waiting ≡ true)
block_thread-state d {d'} e =
    let (run, e1) = block_thread-inv d e in
    elim (with_next-cases priority_idle (with_state waiting d) (λ d1. bug_check)
      (λ n d1. swap_thread d.current_thread n d1) e1) [
        | inl (_, stop) ↦ absurd (ground (arith, stop))
        | inr (n, d1, s, e2) ↦ (
          run,
          λ t h. resumed-state d.current_thread n d1 e2 t (
              ap (λ (x : Dispatcher). has_state x t waiting) s.becomes
              ∙ (elim h [ inl w ↦ ground (arith, w) | inr c ↦ ground (arith, c) ])),
        )
      ]

-- The current thread is put at the end of a list and blocked.
pub Settled-block :
    {s : Waits} (o : ℕ) (v : Object) {d : Dispatcher}
    → Settled s
    → block_thread s.dispatcher ≡ ok d
    → v.wait_list ≡ waiters s o ++ s.dispatcher.current_thread ∷ []
    → v.signal_state ≡ 0
    → Settled (set_dispatcher d (set_object o v s))
Settled-block {s} o v {d} k e l sig =
    let u = s.dispatcher.current_thread in
    let (run, stay) = block_thread-state s.dispatcher e in
    let new : (p : ℕ) → u ∉ waiters s p = λ p. elim (Bool-cases (has u (waiters s p))) [
      | inl m ↦ absurd (ground (arith, run, k.is_waiting p u m))
      | inr m ↦ m
    ] in
    let s' = set_dispatcher d (set_object o v s) in
    let back : (p t : ℕ) → t ∈ waiters s' p → (t ∈ waiters s p) ⊎ ((t ≡ u) × (p ≡ o)) = λ p t m.
      elim (Bool-cases (p == o)) [
        | inl e1 ↦
            let m1 : t ∈ waiters s o ++ u ∷ [] =
              subst (λ x. t ∈ x) (ap (λ (x : Object). x.wait_list) (set_object-at o p v s e1) ∙ l)
                m in
            elim (Bool-cases (t == u)) [
              | inl e2 ↦ inr (eqb→eq t u e2, eqb→eq p o e1)
              | inr e2 ↦ inl (
                  subst (λ x. t ∈ waiters s x) (sym (eqb→eq p o e1))
                    (ground (arith, m1, e2, has-append t (waiters s o) (u ∷ []))))
            ]
        | inr e1 ↦ inl (subst (λ (x : Object). t ∈ x.wait_list) (set_object-off o p v s e1) m)
      ] in
    record {
      consistent = block_thread-Consistent k.consistent e;
      is_waiting = λ p t m. elim (back p t m) [
        | inl m1 ↦ stay t (inl (k.is_waiting p t m1))
        | inr (c, _) ↦ stay t (inr c)
      ];
      alone = λ p q t m n. ground (arith, back p t m, back q t n, k.alone p q t, new p, new q);
      distinct =
          for_all (λ x. Distinct x.wait_list) o v s
            (subst Distinct (sym l) (Distinct-snoc (waiters s o) u (k.distinct o) (new o)))
            (λ p off. k.distinct p);
      idle =
          for_all (λ x. (x.signal_state == 0 || is_empty x.wait_list) ≡ true) o v s
            (ground (arith, sig)) (λ p off. k.idle p);
    }
