-- ===== src/Ke/Wait/Progress.antt =====
-- Releasing a semaphore does not stop the machine.
use kaush_os.Base.{
  ℕ, ◌+◌, ◌≤◌, ◌<◌, ◌≡◌, refl, sym, ap, ◌∙◌, subst, true, List, [], ◌∷◌, arith, inl, inr,
  List-cases, ltb, ◌∈◌,
}
use kaush_os.Base.Outcome.{Outcome, ok, ◌>>=◌, ◌>>◌, >>=-ok, assert-pass, Returns, returns}
use kaush_os.Ke.Dispatcher.{
  Dispatcher, waiting, ready_thread, lock_dispatcher_database, dispatch_level,
}
use kaush_os.Ke.Dispatcher.Consistency.{has_state}
use kaush_os.Ke.Dispatcher.Scheduling.{appended}
use kaush_os.Ke.Wait.{
  Waits, set_object, set_dispatcher, unlock_dispatcher_database, assert_release, d_header_release,
  locked_section, release_semaphore, max_dispatch_signal_state,
}
use kaush_os.Ke.Wait.Invariant.{Settled, waiters}
use kaush_os.Ke.Wait.Objects.{release_semaphore-Settled}

ready_thread-waiting :
    (u : ℕ) (d : Dispatcher)
    → d.current_irql ≡ dispatch_level
    → d.database_lock.lock ≡ 1
    → d.database_lock.thread ≡ d.current_thread
    → has_state d u waiting ≡ true
    → ready_thread u d ≡ ok (appended u d)
unfolding ready_thread
ready_thread-waiting u d i l o r = ground (arith, i, l, o, r)

assert_release-ok :
    (o : ℕ) (s : Waits) (m : Outcome Waits)
    → Settled s
    → s.dispatcher.current_irql ≡ dispatch_level
    → (s.object o).signal_state < max_dispatch_signal_state
    → (assert_release o s >> m) ≡ m
unfolding assert_release
assert_release-ok o s m k i h = ground (arith, i, h, k.idle o)

-- The database is still locked after a release.
record Released (o : ℕ) (s : Waits) : Type 0 where
  after : Waits
  done : d_header_release o s ≡ ok after
  raised : after.dispatcher.current_irql ≡ dispatch_level
  taken : after.dispatcher.database_lock.lock ≡ 1

d_header_release-Released :
    (o : ℕ) (s : Waits)
    → Settled s
    → s.dispatcher.current_irql ≡ dispatch_level
    → s.dispatcher.database_lock.lock ≡ 1
    → s.dispatcher.database_lock.thread ≡ s.dispatcher.current_thread
    → (s.object o).signal_state < max_dispatch_signal_state
    → Released o s
unfolding d_header_release
d_header_release-Released o s k i l w h =
    let v = s.object o in
    elim (List-cases (waiters s o)) [
      | inl empty ↦ record {
        after = set_object o (record v { signal_state = v.signal_state + 1 }) s;
        done =
            assert_release-ok o s _ k i h
            ∙ ap
                (λ (ws : List ℕ). elim ws [
                  | [] ↦ ok (set_object o (record v { signal_state = v.signal_state + 1 }) s)
                  | t ∷ ts ↦ ready_thread t s.dispatcher >>= λ d.
                      ok (set_dispatcher d (set_object o (record v { wait_list = ts }) s))
                ])
                empty;
        raised = i;
        taken = l;
      }
      | inr (t, ts, q) ↦
          let waits = k.is_waiting o t (subst (λ x. t ∈ x) (sym q) (ground arith)) in
          let made = ready_thread-waiting t s.dispatcher i l w waits in
          record {
            after =
                set_dispatcher (appended t s.dispatcher)
                  (set_object o (record v { wait_list = ts }) s);
            done = assert_release-ok o s _ k i h ∙ rw q (>>=-ok _ made);
            raised = i;
            taken = l;
          }
    ]

abbrev locked : Dispatcher → Dispatcher
locked d = record d {
  current_irql = dispatch_level;
  database_lock = record { lock = 1; thread = d.current_thread; old_irql = d.current_irql };
}

lock_dispatcher_database-ok :
    (d : Dispatcher)
    → d.current_irql ≤ dispatch_level
    → d.database_lock.lock ≡ 0
    → d.database_lock.thread ≡ 0
    → lock_dispatcher_database d ≡ ok (d.current_irql, locked d)
unfolding lock_dispatcher_database
lock_dispatcher_database-ok d i l w = ground (arith, i, l, w)

unlock_dispatcher_database-ok :
    (irql : ℕ) (d : Dispatcher)
    → irql ≤ dispatch_level
    → d.current_irql ≡ dispatch_level
    → d.database_lock.lock ≡ 1
    → (d' : Dispatcher) × (unlock_dispatcher_database irql d ≡ ok d')
unfolding unlock_dispatcher_database
unlock_dispatcher_database-ok irql d h i l = (
  record d { current_irql = irql; database_lock = record { lock = 0; thread = 0; old_irql = 0 } },
  ground (arith, h, i, l),
)

Settled-locked : (s : Waits) → Settled s → Settled (set_dispatcher (locked s.dispatcher) s)
Settled-locked s k = record {
  consistent = record {
    is_ready = k.consistent.is_ready;
    in_place = k.consistent.in_place;
    not_held = k.consistent.not_held;
    listed = k.consistent.listed;
    distinct = k.consistent.distinct;
    runs = k.consistent.runs;
  };
  is_waiting = k.is_waiting;
  alone = k.alone;
  distinct = k.distinct;
  idle = k.idle;
}

release_semaphore-ok :
    (o : ℕ) (s : Waits) {s1 : Waits}
    → (s.object o).signal_state < (s.object o).limit
    → locked_section (d_header_release o) s ≡ ok s1
    → release_semaphore o s ≡ ok ((s.object o).signal_state, s1)
unfolding release_semaphore
release_semaphore-ok o s h e =
    assert-pass {b = ltb (s.object o).signal_state (s.object o).limit} _ (ground (arith, h))
    ∙ >>=-ok _ e

-- From a settled state at or below DISPATCH_LEVEL with the lock of the dispatcher database free,
-- KeReleaseSemaphore returns on a semaphore whose count is below its limit and below
-- MAX_DISPATCH_SIGNAL_STATE, whether a thread waits for it or not, and the state is settled again.
pub release_semaphore-Returns :
    (o : ℕ) (s : Waits)
    → Settled s
    → s.dispatcher.current_irql ≤ dispatch_level
    → s.dispatcher.database_lock.lock ≡ 0
    → s.dispatcher.database_lock.thread ≡ 0
    → (s.object o).signal_state < (s.object o).limit
    → (s.object o).signal_state < max_dispatch_signal_state
    → Returns (λ r. Settled r.1) (release_semaphore o s)
release_semaphore-Returns o s k i l w below most =
    let s1 = set_dispatcher (locked s.dispatcher) s in
    let rel = d_header_release-Released o s1 (Settled-locked s k) refl refl refl most in
    let (d', unlocked) =
      unlock_dispatcher_database-ok s.dispatcher.current_irql rel.after.dispatcher i rel.raised
        rel.taken in
    let section : locked_section (d_header_release o) s ≡ ok (set_dispatcher d' rel.after) =
      >>=-ok _ (lock_dispatcher_database-ok s.dispatcher i l w)
      ∙ >>=-ok _ rel.done
      ∙ >>=-ok _ unlocked in
    let done = release_semaphore-ok o s below section in
    subst (Returns (λ r. Settled r.1)) (sym done) (returns (release_semaphore-Settled o s k done))
