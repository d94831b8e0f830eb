-- ===== src/Ke/Locks.antt =====
-- KaushOS/kern/ke/irql.c and locks.c: the IRQL of the processor and the spin locks, of which every
-- address can be one. The interrupt controller is not modelled. What KiProcessDpcQueue does to this
-- state is an argument of the calls that lower the IRQL. On the one processor the exchange loop
-- on a lock that is taken runs for ever.
pub mod Exclusion
mod Examples
use kaush_os.Base.{ℕ, Bool, true, false, not, ◌&&◌, ◌||◌, ◌==◌, ◌!=◌, ltb, leb, if◌then◌else◌}
use kaush_os.Base.Outcome.{Outcome, ok, bug_check, spin, assert, ◌>>=◌, ◌>>◌}
use kaush_os.Ke.Dispatcher.{SpinLock, dispatch_level}

-- `database` is the address of DispatcherDataBaseLock; thread 0 is NULL.
pub record Processor : Type 0 where
  pub current_irql : ℕ
  pub current_thread : ℕ
  pub database : ℕ
  pub spin_lock : ℕ → SpinLock

abbrev pub set_irql : ℕ → Processor → Processor
set_irql irql s = record s { current_irql = irql }

abbrev pub set_lock : ℕ → SpinLock → Processor → Processor
set_lock p l s = record s { spin_lock = λ q. if q == p then l else s.spin_lock q }

-- A lock that nobody holds.
abbrev pub free_lock : SpinLock
free_lock = record { lock = 0; thread = 0; old_irql = 0 }

-- KeRaiseIrql: the old IRQL and the new state.
pub raise_irql : ℕ → Processor → Outcome (ℕ × Processor)
raise_irql new_irql s = do
  assert (leb s.current_irql new_irql)
  assert (new_irql != 3)
  ok (s.current_irql, if new_irql != s.current_irql then set_irql new_irql s else s)

-- KeLowerIrql, which takes the DPC queue on its way below DISPATCH_LEVEL.
pub lower_irql : (Processor → Outcome Processor) → ℕ → Processor → Outcome Processor
lower_irql process_dpc_queue old_irql s = do
  assert (leb old_irql s.current_irql)
  s1 ← elim (ltb old_irql dispatch_level && leb dispatch_level s.current_irql) [
    | true ↦ process_dpc_queue (set_irql dispatch_level s)
    | false ↦ ok s
  ]
  ok (set_irql old_irql s1)

-- KeInitializeSpinLock clears its own copy of the pointer, and not the lock. A lock is longer than a
-- pointer; what the call clears of the stack behind the pointer is not modelled.
pub initialize_spin_lock : ℕ → Processor → Processor
initialize_spin_lock p s = s

-- KeQuerySpinLock: the thread that has the lock, and whether it is taken.
pub query_spin_lock : ℕ → Processor → ℕ × ℕ
query_spin_lock p s = ((s.spin_lock p).thread, (s.spin_lock p).lock)

-- The current thread does not hold the lock already.
abbrev pub assert_not_owner : ℕ → Processor → Outcome (Unit {0})
assert_not_owner p s =
    let owner = (s.spin_lock p).thread in
    assert (if owner == 0 then true else owner != s.current_thread)

-- The exchange loop, and the fields that are stored behind it.
pub take_lock : ℕ → ℕ → Processor → Outcome Processor
take_lock p old_irql s = elim ((s.spin_lock p).lock == 0) [
  | true ↦ ok (set_lock p (record { lock = 1; thread = s.current_thread; old_irql = old_irql }) s)
  | false ↦ spin
]

-- KeAcquireSpinLock: the old IRQL and the new state.
pub acquire_spin_lock : ℕ → Processor → Outcome (ℕ × Processor)
acquire_spin_lock p s = do
  assert (leb s.current_irql dispatch_level)
  assert_not_owner p s
  (old_irql, s1) ← raise_irql dispatch_level s
  s2 ← take_lock p old_irql s1
  ok (old_irql, s2)

-- KeReleaseSpinLock.
pub release_spin_lock : (Processor → Outcome Processor) → ℕ → ℕ → Processor → Outcome Processor
release_spin_lock process_dpc_queue p old_irql s = do
  let l = s.spin_lock p
  assert (s.current_irql == dispatch_level)
  assert (p == s.database || l.old_irql == old_irql)
  assert (p == s.database || l.thread == s.current_thread)
  assert (l.lock == 1)
  lower_irql process_dpc_queue old_irql (set_lock p free_lock s)

-- KeAcquireSpinLockAtDpcLevel.
pub acquire_spin_lock_at_dpc_level : ℕ → Processor → Outcome Processor
acquire_spin_lock_at_dpc_level p s = do
  assert (leb dispatch_level s.current_irql)
  assert_not_owner p s
  take_lock p dispatch_level s

-- KeReleaseSpinLockFromDpcLevel.
pub release_spin_lock_from_dpc_level : ℕ → Processor → Outcome Processor
release_spin_lock_from_dpc_level p s = do
  let l = s.spin_lock p
  assert (leb dispatch_level s.current_irql)
  assert (l.thread == s.current_thread)
  assert (l.lock == 1)
  ok (set_lock p free_lock s)
