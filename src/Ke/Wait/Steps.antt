-- ===== src/Ke/Wait/Steps.antt =====
-- The calls on dispatcher objects in any order, with Schedule between them.
use kaush_os.Base.{
  ℕ, ◌≡◌, refl, sym, ap, ◌∙◌, subst, Bool, true, false, arith, ◌==◌, ◌!=◌, Bool-cases, inl, inr,
  eqb→eq,
}
use kaush_os.Base.Outcome.{ok, bug_check, >>=-eq-ok, ok-injective, assert_then, ◌>>=◌}
use kaush_os.Ke.Dispatcher.{
  Dispatcher, waiting, terminated, ready_thread, swap_thread, schedule, schedule_running,
  schedule_terminated, priority_idle,
}
use kaush_os.Ke.Dispatcher.Select.{with_next-cases}
use kaush_os.Ke.Dispatcher.Consistency.{has_state}
use kaush_os.Ke.Dispatcher.Scheduling.{
  schedule-inv, schedule-Consistent, schedule_running-inv, schedule_terminated-inv, leave-inv,
  exited, scheduling, take_over, leave,
}
use kaush_os.Ke.Wait.{
  Waits, set_dispatcher, is_event, clear_event, reset_event, release_notification_d_header,
  release_mutant, release_semaphore, set_event, wait_for_single_object, unlock_dispatcher_database,
}
use kaush_os.Ke.Wait.Invariant.{Settled, Settled-agree, ready_thread-state, resumed-state}
use kaush_os.Ke.Wait.Release.{Settled-signal, Settled-unlock}
use kaush_os.Ke.Wait.Objects.{
  release_notification_d_header-Settled, release_mutant-Settled, release_semaphore-Settled,
  set_event-Settled, wait_for_single_object-Settled,
}

-- A call that returns, or blocks its thread and gives the processor to another one. Schedule is
-- called by a thread that does not wait, and a thread that
-- was switched to gives the dispatcher database back.
pub data Step : Waits → Waits → Type 0 where
  waits :
      {s s' : Waits} {blocked : Bool} (o : ℕ)
      → wait_for_single_object o s ≡ ok (blocked, s')
      → Step s s'
  sets : {s s' : Waits} {old : ℕ} (o : ℕ) → set_event o s ≡ ok (old, s') → Step s s'
  clears : {s s' : Waits} (o : ℕ) → clear_event o s ≡ ok s' → Step s s'
  resets : {s s' : Waits} {old : ℕ} (o : ℕ) → reset_event o s ≡ ok (old, s') → Step s s'
  releases_semaphore :
      {s s' : Waits} {old : ℕ} (o : ℕ) → release_semaphore o s ≡ ok (old, s') → Step s s'
  releases_mutant : {s s' : Waits} (o : ℕ) → release_mutant o s ≡ ok s' → Step s s'
  notifies : {s s' : Waits} (o : ℕ) → release_notification_d_header o s ≡ ok s' → Step s s'
  schedules :
      {s : Waits} {d : Dispatcher}
      → has_state s.dispatcher s.dispatcher.current_thread waiting ≡ false
      → schedule s.dispatcher ≡ ok d
      → Step s (set_dispatcher d s)
  resumes :
      {s : Waits} {d : Dispatcher} (old_irql : ℕ)
      → unlock_dispatcher_database old_irql s.dispatcher ≡ ok d
      → Step s (set_dispatcher d s)

pub data Reach (s : Waits) : Waits → Type 0 where
  done : Reach s s
  next : {t u : Waits} → Reach s t → Step t u → Reach s u

clear_event-Settled :
    (o : ℕ) (s : Waits) {s' : Waits} → Settled s → clear_event o s ≡ ok s' → Settled s'
unfolding clear_event
clear_event-Settled o s k e =
    let (_, e1) = assert_then (is_event (s.object o).object_type) _ e in
    subst Settled (ok-injective e1) (Settled-signal s o _ k refl refl)

reset_event-Settled :
    (o : ℕ) (s : Waits) {r : ℕ × Waits} → Settled s → reset_event o s ≡ ok r → Settled r.1
unfolding reset_event
reset_event-Settled o s k e =
    let (t, e1, e2) = >>=-eq-ok (clear_event o s) _ e in
    subst (λ (x : ℕ × Waits). Settled x.1) (ok-injective e2) (clear_event-Settled o s k e1)

-- Threads that wait go on waiting when Schedule switches.
schedule_running-waiting :
    (u : ℕ) (d : Dispatcher) {d' : Dispatcher}
    → has_state d u waiting ≡ false
    → schedule_running u d ≡ ok d'
    → (t : ℕ) → has_state d t waiting ≡ true
    → has_state d' t waiting ≡ true
schedule_running-waiting u d {d'} here e t w =
    elim (with_next-cases (d.threads u).priority d (λ d1. ok d1) (take_over u)
      (sym (schedule_running-inv u d) ∙ e)) [
        | inl (_, same) ↦ subst (λ x. has_state x t waiting ≡ true) (ok-injective same) w
        | inr (n, d1, s, e1) ↦
            let (ne, e2) =
              assert_then (u != n) (ready_thread u d1 >>= λ d2. swap_thread u n d2) e1 in
            let (d2, e3, e4) = >>=-eq-ok (ready_thread u d1) (λ d2. swap_thread u n d2) e2 in
            let w1 = ap (λ (x : Dispatcher). has_state x t waiting) s.becomes ∙ w in
            let other : (t == u) ≡ false = elim (Bool-cases (t == u)) [
              | inl eq ↦ absurd (
                  ground (
                    arith,
                    here,
                    subst (λ (x : ℕ). has_state d x waiting ≡ true) (eqb→eq t u eq) w,
                  ))
              | inr eq ↦ eq
            ] in
            resumed-state u n d2 e4 t (ready_thread-state u d1 e3 t other ∙ w1)
      ]

schedule_terminated-waiting :
    (u : ℕ) (d : Dispatcher) {d' : Dispatcher}
    → schedule_terminated u d ≡ ok d'
    → (t : ℕ) → has_state d t waiting ≡ true
    → has_state d' t waiting ≡ true
schedule_terminated-waiting u d {d'} e t w =
    elim (with_next-cases priority_idle d (λ d1. bug_check) (leave u)
      (sym (schedule_terminated-inv u d) ∙ e)) [
        | inl (_, stop) ↦ absurd (ground (arith, stop))
        | inr (n, d1, s, e1) ↦
            resumed-state u n (exited u d1) (leave-inv u n d1 e1) t
              (ap (λ (x : Dispatcher). has_state x t waiting) s.becomes ∙ w)
      ]

schedule-waiting :
    (d : Dispatcher) {d' : Dispatcher}
    → has_state d d.current_thread waiting ≡ false
    → schedule d ≡ ok d'
    → (t : ℕ) → has_state d t waiting ≡ true
    → has_state d' t waiting ≡ true
schedule-waiting d here e t w =
    let u = d.current_thread in
    let w1 : has_state (scheduling d) t waiting ≡ true = ground (arith, w, eqb→eq t u) in
    let here1 : has_state (scheduling d) u waiting ≡ false = ground (arith, here) in
    elim (Bool-cases (has_state d u terminated)) [
      | inl x ↦ schedule_terminated-waiting u (scheduling d) (rw x at (schedule-inv d e)) t w1
      | inr x ↦ schedule_running-waiting u (scheduling d) here1 (rw x at (schedule-inv d e)) t w1
    ]

Step-Settled : {s s' : Waits} → Step s s' → Settled s → Settled s'
Step-Settled (waits o e) k = wait_for_single_object-Settled o _ k e
Step-Settled (sets o e) k = set_event-Settled o _ k e
Step-Settled (clears o e) k = clear_event-Settled o _ k e
Step-Settled (resets o e) k = reset_event-Settled o _ k e
Step-Settled (releases_semaphore o e) k = release_semaphore-Settled o _ k e
Step-Settled (releases_mutant o e) k = release_mutant-Settled o _ k e
Step-Settled (notifies o e) k = release_notification_d_header-Settled o _ k e
Step-Settled {s} (resumes irql e) k = Settled-unlock irql s k e
Step-Settled {s} (schedules here e) k =
    Settled-agree k (schedule-Consistent k.consistent e) (schedule-waiting s.dispatcher here e)
      (λ o. refl) k.idle

-- From a settled state, whatever calls of KeWaitForSingleObject, KeSetEvent, KeClearEvent,
-- KeResetEvent, KeReleaseSemaphore, KeReleaseMutant and KeReleaseNotificationDHeader return or block
-- their thread, on any objects and in any order, and wherever Schedule switches between them on a
-- thread that does not wait, or a thread that was switched to gives the dispatcher database back, the
-- state stays settled: the dispatcher is consistent, each thread in
-- a wait list is waiting and stands in that list alone and once, and nobody waits for an object
-- that is signalled.
pub Reach-Settled : {s s' : Waits} → Settled s → Reach s s' → Settled s'
Reach-Settled k done = k
Reach-Settled k (next r step) = Step-Settled step (Reach-Settled k r)
