-- ===== src/Ke/Wait/Release.antt =====
-- Acquiring and releasing an object keeps the invariant, with the lock of the dispatcher database
-- taken and given back.
use kaush_os.Base.{
  ℕ, ◌≡◌, refl, sym, ap, ◌∙◌, subst, Bool, true, ◌||◌, List, [], ◌∷◌, arith, ◌==◌, Bool-cases, inl,
  inr, List-cases, eqb→eq,
}
use kaush_os.Base.Outcome.{Outcome, ok, ◌>>◌, >>=-eq-ok, ok-injective, assert_then}
use kaush_os.Ke.Dispatcher.{
  Dispatcher, SpinLock, ready_thread, block_thread, lock_dispatcher_database, dispatch_level,
}
use kaush_os.Ke.Wait.{
  Object, Waits, set_object, set_dispatcher, is_empty, unlock_dispatcher_database, assert_release,
  d_header_acquire, d_header_release, ready_all, d_header_release_all, locked_section,
}
use kaush_os.Ke.Wait.Invariant.{
  Settled, waiters, Settled-agree, Settled-release, Settled-block, for_all, set_object-off,
  set_object-at,
}

-- Only the IRQL and the lock of the dispatcher database differ.
abbrev with_lock : ℕ → SpinLock → Dispatcher → Dispatcher
with_lock irql l d = record d { current_irql = irql; database_lock = l }

Settled-with_lock :
    {s : Waits} (irql : ℕ) (l : SpinLock)
    → Settled s
    → Settled (set_dispatcher (with_lock irql l s.dispatcher) s)
Settled-with_lock irql l k =
    Settled-agree k
      (record {
        is_ready = k.consistent.is_ready;
        in_place = k.consistent.in_place;
        not_held = k.consistent.not_held;
        listed = k.consistent.listed;
        distinct = k.consistent.distinct;
        runs = k.consistent.runs;
      })
      (λ t h. h) (λ o. refl) k.idle

lock_dispatcher_database-inv :
    (d : Dispatcher) (r : ℕ × Dispatcher)
    → lock_dispatcher_database d ≡ ok r
    → with_lock dispatch_level
        (record { lock = 1; thread = d.current_thread; old_irql = d.current_irql })
        d
      ≡ r.1
unfolding lock_dispatcher_database
lock_dispatcher_database-inv d r e = ground arith

unlock_dispatcher_database-inv :
    (irql : ℕ) (d d' : Dispatcher)
    → unlock_dispatcher_database irql d ≡ ok d'
    → with_lock irql (record { lock = 0; thread = 0; old_irql = 0 }) d ≡ d'
unfolding unlock_dispatcher_database
unlock_dispatcher_database-inv irql d d' e = ground arith

pub Settled-lock :
    (s : Waits) {r : ℕ × Dispatcher}
    → Settled s
    → lock_dispatcher_database s.dispatcher ≡ ok r
    → Settled (set_dispatcher r.1 s)
Settled-lock s {r} k e =
    subst (λ x. Settled (set_dispatcher x s)) (lock_dispatcher_database-inv s.dispatcher r e)
      (Settled-with_lock _ _ k)

pub Settled-unlock :
    (irql : ℕ) (s : Waits) {d : Dispatcher}
    → Settled s
    → unlock_dispatcher_database irql s.dispatcher ≡ ok d
    → Settled (set_dispatcher d s)
Settled-unlock irql s {d} k e =
    subst (λ x. Settled (set_dispatcher x s)) (unlock_dispatcher_database-inv irql s.dispatcher d e)
      (Settled-with_lock _ _ k)

pub locked_section-Settled :
    (body : Waits → Outcome Waits) (s : Waits) {s' : Waits}
    → ((t t' : Waits) → Settled t → body t ≡ ok t' → Settled t')
    → Settled s
    → locked_section body s ≡ ok s'
    → Settled s'
locked_section-Settled body s {s'} keeps k e =
    let (r, e1, e2) = >>=-eq-ok (lock_dispatcher_database s.dispatcher) _ e in
    let (s1, e3, e4) = >>=-eq-ok (body (set_dispatcher r.1 s)) _ e2 in
    let (d1, e5, e6) = >>=-eq-ok (unlock_dispatcher_database r.0 s1.dispatcher) _ e4 in
    subst Settled (ok-injective e6)
      (Settled-unlock r.0 s1 (keeps (set_dispatcher r.1 s) s1 (Settled-lock s k e1) e3) e5)

assert_release-inv :
    (o : ℕ) (s : Waits) (m : Outcome Waits) {s' : Waits}
    → (assert_release o s >> m) ≡ ok s'
    → m ≡ ok s'
unfolding assert_release
assert_release-inv o s m e = ground arith

-- An object keeps its threads, and has none if it is signalled.
pub Settled-signal :
    (s : Waits) (o : ℕ) (v : Object)
    → Settled s
    → v.wait_list ≡ waiters s o
    → (v.signal_state == 0 || is_empty (waiters s o)) ≡ true
    → Settled (set_object o v s)
Settled-signal s o v k l i =
    Settled-agree k k.consistent (λ t h. h)
      (λ p. elim (Bool-cases (p == o)) [
        | inl e ↦
            ap (λ (x : Object). x.wait_list) (set_object-at o p v s e)
            ∙ l
            ∙ ap (waiters s) (sym (eqb→eq p o e))
        | inr e ↦ ap (λ (x : Object). x.wait_list) (set_object-off o p v s e)
      ])
      (for_all (λ x. (x.signal_state == 0 || is_empty x.wait_list) ≡ true) o v s
        (subst (λ x. (v.signal_state == 0 || is_empty x) ≡ true) (sym l) i) (λ p off. k.idle p))

-- KiDHeaderAcquire keeps the invariant, whether the thread takes the object or is blocked.
pub d_header_acquire-Settled :
    (o : ℕ) (s : Waits) {r : Bool × Waits} → Settled s → d_header_acquire o s ≡ ok r → Settled r.1
unfolding d_header_acquire
d_header_acquire-Settled o s {r} k e =
    let (_, e1) = assert_then (s.dispatcher.current_irql == dispatch_level) _ e in
    elim (Bool-cases ((s.object o).signal_state == 0)) [
      | inl zero ↦
          let (d, e2, e3) = >>=-eq-ok (block_thread s.dispatcher) _ (rw zero at e1) in
          subst (λ (x : Bool × Waits). Settled x.1) (ok-injective e3)
            (Settled-block o _ k e2 refl (ground (arith, zero)))
      | inr some_left ↦
          let e2 = ok-injective (rw some_left at e1) in
          let empty : is_empty (waiters s o) ≡ true = ground (arith, some_left, k.idle o) in
          subst (λ (x : Bool × Waits). Settled x.1) e2
            (Settled-signal s o _ k refl (ground (arith, empty)))
    ]

-- KiDHeaderRelease keeps the invariant.
pub d_header_release-Settled :
    (o : ℕ) (s : Waits) {s' : Waits} → Settled s → d_header_release o s ≡ ok s' → Settled s'
unfolding d_header_release
d_header_release-Settled o s {s'} k e =
    let e1 = assert_release-inv o s _ e in
    elim (List-cases (waiters s o)) [
      | inl empty ↦
          let e2 = ok-injective (rw empty at e1) in
          subst Settled e2 (
            Settled-signal s o _ k refl
              (ground (arith, subst (λ x. is_empty x ≡ true) (sym empty) refl)))
      | inr (t, ts, w) ↦
          let (d, e2, e3) = >>=-eq-ok (ready_thread t s.dispatcher) _ (rw w at e1) in
          subst Settled (ok-injective e3) (Settled-release o t ts _ k w e2 refl refl)
    ]

ready_all-Settled :
    (o : ℕ) (ts : List ℕ) (s : Waits) {d : Dispatcher}
    → Settled s
    → waiters s o ≡ ts
    → ready_all ts s.dispatcher ≡ ok d
    → Settled (set_dispatcher d (set_object o (record (s.object o) { wait_list = [] }) s))
unfolding ready_all
ready_all-Settled o [] s {d} k w e =
    subst
      (λ x. Settled (set_dispatcher x (set_object o (record (s.object o) { wait_list = [] }) s)))
      (ok-injective e)
      (Settled-signal s o _ k (sym w) (ground (arith, subst (λ x. is_empty x ≡ true) (sym w) refl)))
ready_all-Settled o (t ∷ ts) s {d} k w e =
    let (d1, e1, e2) = >>=-eq-ok (ready_thread t s.dispatcher) (ready_all ts) e in
    let v = record (s.object o) { wait_list = ts } in
    let s1 = set_dispatcher d1 (set_object o v s) in
    let k1 = Settled-release o t ts v k w e1 refl refl in
    let k2 =
      ready_all-Settled o ts s1 k1
        (ap (λ (x : Object). x.wait_list) (set_object-at o o v s (ground arith))) e2 in
    Settled-agree k2 k2.consistent (λ u h. h)
      (λ p. elim (Bool-cases (p == o)) [ inl e3 ↦ rw (e3, waiters) | inr e3 ↦ rw (e3, waiters) ])
      (λ p. elim (Bool-cases (p == o)) [
        | inl e3 ↦ rw e3 (ground arith)
        | inr e3 ↦ rw e3 (ground (arith, e3, k.idle p))
      ])

-- KiDHeaderReleaseAll keeps the invariant.
pub d_header_release_all-Settled :
    (o : ℕ) (s : Waits) {s' : Waits} → Settled s → d_header_release_all o s ≡ ok s' → Settled s'
unfolding d_header_release_all
d_header_release_all-Settled o s {s'} k e =
    let e1 = assert_release-inv o s _ e in
    let (d, e2, e3) = >>=-eq-ok (ready_all (waiters s o) s.dispatcher) _ e1 in
    let k1 = ready_all-Settled o (waiters s o) s k refl e2 in
    subst Settled (ok-injective e3) (
      Settled-agree k1 k1.consistent (λ u h. h)
        (λ p. elim (Bool-cases (p == o)) [ inl e4 ↦ rw (e4, waiters) | inr e4 ↦ rw (e4, waiters) ])
        (λ p. elim (Bool-cases (p == o)) [
          | inl e4 ↦ rw e4 (ground arith)
          | inr e4 ↦ rw (e4, waiters) (k.idle p)
        ]))
