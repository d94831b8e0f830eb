-- ===== src/Ke/Wait/Objects.antt =====
-- The calls on semaphores, mutants and events.
use kaush_os.Base.{
  ℕ, ◌≡◌, refl, ap, subst, Bool, true, false, arith, ◌==◌, ◌!=◌, if◌then◌else◌, Bool-cases, inl,
  inr, ltb, leb,
}
use kaush_os.Base.Outcome.{ok, bug_check, ◌>>=◌, >>=-eq-ok, ok-injective, assert_then}
use kaush_os.Ke.Dispatcher.{lock_dispatcher_database, apc_level}
use kaush_os.Ke.Wait.{
  ObjectType, event_notification, event_synchronization, mutant, process, semaphore, thread, other,
  Object, Waits, set_object, set_dispatcher, unlock_dispatcher_database, d_header_acquire,
  d_header_release, d_header_release_all, locked_section, is_event, is_notification,
  release_notification_d_header, release_mutant, release_semaphore, set_event, wait_for_mutant,
  wait_for_single_object, wait_end,
}
use kaush_os.Ke.Wait.Invariant.{Settled, set_object-at}
use kaush_os.Ke.Wait.Release.{
  Settled-lock, Settled-unlock, Settled-signal, locked_section-Settled, d_header_acquire-Settled,
  d_header_release-Settled, d_header_release_all-Settled,
}

-- When KeReleaseNotificationDHeader returns from a settled state, which has made all threads ready
-- that waited for the object, the state is settled again.
pub release_notification_d_header-Settled :
    (o : ℕ) (s : Waits) {s' : Waits}
    → Settled s
    → release_notification_d_header o s ≡ ok s'
    → Settled s'
unfolding release_notification_d_header
release_notification_d_header-Settled o s k e =
    locked_section-Settled (d_header_release_all o) s
      (λ t t' kt et. d_header_release_all-Settled o t kt et) k e

-- When KeReleaseMutant returns from a settled state, the state is settled again.
pub release_mutant-Settled :
    (o : ℕ) (s : Waits) {s' : Waits} → Settled s → release_mutant o s ≡ ok s' → Settled s'
unfolding release_mutant
release_mutant-Settled o s k e =
    let (_, e1) = assert_then ((s.object o).owner_thread == s.dispatcher.current_thread) _ e in
    locked_section-Settled (d_header_release o) _ (λ t t' kt et. d_header_release-Settled o t kt et)
      (Settled-signal s o _ k refl (k.idle o)) e1

-- When KeReleaseSemaphore returns from a settled state, the state is settled again.
pub release_semaphore-Settled :
    (o : ℕ) (s : Waits) {r : ℕ × Waits} → Settled s → release_semaphore o s ≡ ok r → Settled r.1
unfolding release_semaphore
release_semaphore-Settled o s {r} k e =
    let (_, e1) = assert_then (ltb (s.object o).signal_state (s.object o).limit) _ e in
    let (s1, e2, e3) = >>=-eq-ok (locked_section (d_header_release o) s) _ e1 in
    subst (λ (x : ℕ × Waits). Settled x.1) (ok-injective e3)
      (locked_section-Settled (d_header_release o) s
        (λ t t' kt et. d_header_release-Settled o t kt et) k e2)

-- When KeSetEvent returns from a settled state, the state is settled again, for an event of either
-- type.
pub set_event-Settled :
    (o : ℕ) (s : Waits) {r : ℕ × Waits} → Settled s → set_event o s ≡ ok r → Settled r.1
unfolding set_event
set_event-Settled o s {r} k e =
    let (_, e1) = assert_then (is_event (s.object o).object_type) _ e in
    let (l, e2, e3) = >>=-eq-ok (lock_dispatcher_database s.dispatcher) _ e1 in
    let s1 = set_dispatcher l.1 s in
    let k1 = Settled-lock s k e2 in
    let (s2, e4, e5) =
      >>=-eq-ok
        (if is_notification (s.object o).object_type
          then d_header_release_all o s1
          else d_header_release o s1)
        _ e3 in
    let k2 : Settled s2 = elim (Bool-cases (is_notification (s.object o).object_type)) [
      | inl n ↦ d_header_release_all-Settled o s1 k1 (rw n at e4)
      | inr n ↦ d_header_release-Settled o s1 k1 (rw n at e4)
    ] in
    let s3 = set_object o (record (s2.object o) { signal_state = 0 }) s2 in
    let (d, e6, e7) = >>=-eq-ok (unlock_dispatcher_database l.0 s3.dispatcher) _ e5 in
    subst (λ (x : ℕ × Waits). Settled x.1) (ok-injective e7)
      (Settled-unlock l.0 s3 (Settled-signal s2 o _ k2 refl refl) e6)

-- When KeSetEvent returns, the event is not signalled, whatever its type and whoever waited for it.
pub set_event-unsignalled :
    (o : ℕ) (s : Waits) {r : ℕ × Waits} → set_event o s ≡ ok r → (r.1.object o).signal_state ≡ 0
unfolding set_event
set_event-unsignalled o s {r} e =
    let (_, e1) = assert_then (is_event (s.object o).object_type) _ e in
    let (l, e2, e3) = >>=-eq-ok (lock_dispatcher_database s.dispatcher) _ e1 in
    let s1 = set_dispatcher l.1 s in
    let (s2, e4, e5) =
      >>=-eq-ok
        (if is_notification (s.object o).object_type
          then d_header_release_all o s1
          else d_header_release o s1)
        _ e3 in
    let v = record (s2.object o) { signal_state = 0 } in
    let s3 = set_object o v s2 in
    let (d, e6, e7) = >>=-eq-ok (unlock_dispatcher_database l.0 s3.dispatcher) _ e5 in
    subst (λ (x : ℕ × Waits). (x.1.object o).signal_state ≡ 0) (ok-injective e7)
      (ap (λ (x : Object). x.signal_state) (set_object-at o o v s2 (ground arith)))

wait_end-Settled :
    (irql : ℕ) (r : Bool × Waits) {q : Bool × Waits}
    → Settled r.1
    → wait_end irql r ≡ ok q
    → Settled q.1
wait_end-Settled irql (true, s) k e = subst (λ (x : Bool × Waits). Settled x.1) (ok-injective e) k
wait_end-Settled irql (false, s) k e =
    let (d, e1, e2) = >>=-eq-ok (unlock_dispatcher_database irql s.dispatcher) _ e in
    subst (λ (x : Bool × Waits). Settled x.1) (ok-injective e2) (Settled-unlock irql s k e1)

wait_for_mutant-Settled :
    (o irql : ℕ) (s : Waits) {q : Bool × Waits}
    → Settled s
    → wait_for_mutant o irql s ≡ ok q
    → Settled q.1
unfolding wait_for_mutant
wait_for_mutant-Settled o irql s k e =
    let (_, e1) = assert_then ((s.object o).owner_thread != s.dispatcher.current_thread) _ e in
    let (_, e2) = assert_then ((s.object o).signal_state != 0) _ e1 in
    let (r, e3, e4) = >>=-eq-ok (d_header_acquire o s) _ e2 in
    let k1 = d_header_acquire-Settled o s k e3 in
    wait_end-Settled irql _ (Settled-signal r.1 o _ k1 refl (k1.idle o)) e4

wait_for_other-Settled :
    (o irql : ℕ) (s : Waits) {q : Bool × Waits}
    → Settled s
    → (d_header_acquire o s >>= wait_end irql) ≡ ok q
    → Settled q.1
wait_for_other-Settled o irql s k e =
    let (r, e1, e2) = >>=-eq-ok (d_header_acquire o s) (wait_end irql) e in
    wait_end-Settled irql r (d_header_acquire-Settled o s k e1) e2

-- When KeWaitForSingleObject returns or blocks its thread, from a settled state and on an object of
-- any type, the state is settled again: the dispatcher is consistent, each thread in a wait list is
-- waiting and stands in that list alone and once, and nobody waits for an object that is signalled.
pub wait_for_single_object-Settled :
    (o : ℕ) (s : Waits) {q : Bool × Waits}
    → Settled s
    → wait_for_single_object o s ≡ ok q
    → Settled q.1
unfolding wait_for_single_object
wait_for_single_object-Settled o s {q} k e =
    let (_, e1) = assert_then (leb s.dispatcher.current_irql apc_level) _ e in
    let (l, e2, e3) = >>=-eq-ok (lock_dispatcher_database s.dispatcher) _ e1 in
    by_type (s.object o).object_type l.0 (set_dispatcher l.1 s) (Settled-lock s k e2) e3
  where
    by_type :
        (t : ObjectType) (irql : ℕ) (s1 : Waits)
        → Settled s1
        → (elim t [
          | mutant ↦ wait_for_mutant o irql s1
          | other ↦ bug_check
          | _ ↦ do r ← d_header_acquire o s1; wait_end irql r
        ])
          ≡ ok q
        → Settled q.1
    by_type mutant irql s1 k1 e4 = wait_for_mutant-Settled o irql s1 k1 e4
    by_type other irql s1 k1 e4 = absurd (ground (arith, e4))
    by_type process irql s1 k1 e4 = wait_for_other-Settled o irql s1 k1 e4
    by_type thread irql s1 k1 e4 = wait_for_other-Settled o irql s1 k1 e4
    by_type semaphore irql s1 k1 e4 = wait_for_other-Settled o irql s1 k1 e4
    by_type event_notification irql s1 k1 e4 = wait_for_other-Settled o irql s1 k1 e4
    by_type event_synchronization irql s1 k1 e4 = wait_for_other-Settled o irql s1 k1 e4
