-- ===== src/Ke/Dispatcher.antt =====
-- KaushOS/kern/ke/scheduler.c on the state that ke.h and processor.c declare: the threads, the
-- ready queues of the one processor, and the spin lock of the dispatcher database (locks.c).
-- A queue is a list of KList; here it is the list of its threads in order. A function is modelled
-- up to the point where KiContextSwitch leaves its thread.
pub mod Select
pub mod Consistency
pub mod Scheduling
pub mod Policy
pub mod Finish
pub mod Kept
pub mod Cleanup
pub mod Progress
pub mod Examples
use kaush_os.Base.{
  ℕ, zero, suc, ◌+◌, ◌-◌, Bool, true, false, not, ◌&&◌, ◌||◌, List, [], ◌∷◌, ◌++◌, Option, none,
  some, ◌==◌, ◌!=◌, ltb, leb, if◌then◌else◌, erase,
}
use kaush_os.Base.Outcome.{Outcome, ok, bug_check, spin, assert, ◌>>=◌, ◌>>◌}

-- THREAD_STATE.
pub data ThreadState : Type 0 where
  initialized ready standby running waiting terminated : ThreadState

-- The values of the enumeration.
abbrev pub state_number : ThreadState → ℕ
state_number initialized = 0
state_number ready = 1
state_number standby = 2
state_number running = 3
state_number waiting = 4
state_number terminated = 5

abbrev pub is_state : ThreadState → ThreadState → Bool
is_state s t = state_number s == state_number t

abbrev pub passive_level : ℕ
passive_level = 0

abbrev pub apc_level : ℕ
apc_level = 1

abbrev pub dispatch_level : ℕ
dispatch_level = 2

-- PROCESS_PRIORITY, whose first value is for nothing that runs.
abbrev pub priority_idle : ℕ
priority_idle = 1

abbrev pub priority_max : ℕ
priority_max = 6

-- The scheduler's fields of KTHREAD; `process_quantum` is ThreadProcess->Quantum.
pub record Thread : Type 0 where
  pub state : ThreadState
  pub priority : ℕ
  pub quantum : ℕ
  pub process_quantum : ℕ
  pub wait_irql : ℕ

-- KSPIN_LOCK; thread 0 is NULL.
pub record SpinLock : Type 0 where
  pub lock : ℕ
  pub thread : ℕ
  pub old_irql : ℕ

pub record Dispatcher : Type 0 where
  pub threads : ℕ → Thread
  pub current_thread : ℕ
  pub current_irql : ℕ
  pub scheduler_list : ℕ → List ℕ
  pub exit_thread_list : List ℕ
  pub exit_thread_lock : SpinLock
  pub database_lock : SpinLock

abbrev pub set_thread : ℕ → Thread → Dispatcher → Dispatcher
set_thread t v d = record d { threads = λ u. if u == t then v else d.threads u }

abbrev pub set_list : ℕ → List ℕ → Dispatcher → Dispatcher
set_list p l d = record d { scheduler_list = λ q. if q == p then l else d.scheduler_list q }

-- The DEBUG test that the database is locked by the current thread at DISPATCH_LEVEL.
abbrev pub assert_locked : Dispatcher → Outcome (Unit {0})
assert_locked d = do
  assert (d.current_irql == dispatch_level)
  assert (d.database_lock.lock == 1)
  assert (d.database_lock.thread == d.current_thread)

-- KeAcquireSpinLock on DispatcherDataBaseLock: the old IRQL and the new state. A lock that is taken
-- makes the exchange loop run for ever on the one processor.
unfoldable pub lock_dispatcher_database : Dispatcher → Outcome (ℕ × Dispatcher)
lock_dispatcher_database d = do
  assert (leb d.current_irql dispatch_level)
  assert (if d.database_lock.thread == 0 then true else d.database_lock.thread != d.current_thread)
  if d.database_lock.lock == 0
      then ok (
        d.current_irql,
        record d {
          current_irql = dispatch_level;
          database_lock = record { lock = 1; thread = d.current_thread; old_irql = d.current_irql };
        },
      )
      else spin

-- KiSelectNextThread's loop from a priority downwards. Where the priority has come down to 0 it is
-- below CurrentPriority, which is at least PROCESS_PRIORITY_IDLE.
unfoldable pub select_from : ℕ → ℕ → Dispatcher → Option ℕ × Dispatcher
select_from current_priority zero d = (none, d)
select_from current_priority (suc p) d =
    let rest = select_from current_priority p d in
    if ltb (suc p) current_priority
    then (none, d)
    else elim (d.scheduler_list (suc p)) [ [] ↦ rest | t ∷ ts ↦ (some t, set_list (suc p) ts d) ]

unfoldable pub select_next_thread : ℕ → Dispatcher → Outcome (Option ℕ × Dispatcher)
select_next_thread current_priority d = do
  assert (d.current_irql == dispatch_level)
  assert (leb current_priority priority_max)
  assert (leb priority_idle current_priority)
  ok (select_from current_priority priority_max d)

-- KiReadyThread.
unfoldable pub ready_thread : ℕ → Dispatcher → Outcome Dispatcher
ready_thread tcb d = do
  let t = d.threads tcb
  assert_locked d
  assert (is_state t.state initialized || is_state t.state waiting || is_state t.state running)
  let d1 = set_thread tcb (record t { state = ready; quantum = t.process_quantum }) d
  ok (set_list t.priority (d1.scheduler_list t.priority ++ tcb ∷ []) d1)

-- KiSwapThread; the address space, the TSS and the stack are switched outside this model.
unfoldable pub swap_thread : ℕ → ℕ → Dispatcher → Outcome Dispatcher
swap_thread current_thread next_thread d = do
  let c = d.threads current_thread
  let n = d.threads next_thread
  assert_locked d
  assert (d.current_thread == current_thread)
  assert (current_thread != 0)
  assert (is_state c.state ready || is_state c.state terminated || is_state c.state waiting)
  assert (is_state n.state ready)
  ok (record (set_thread next_thread (record n { state = running }) d) {
    current_thread = next_thread;
  })

-- KiBlockThread.
unfoldable pub block_thread : Dispatcher → Outcome Dispatcher
block_thread d = do
  let current = d.current_thread
  let c = d.threads current
  assert_locked d
  assert (is_state c.state running)
  (next, d2) ←
      select_next_thread priority_idle (set_thread current (record c { state = waiting }) d)
  elim next [ none ↦ bug_check | some n ↦ swap_thread current n d2 ]

abbrev pub free_lock : SpinLock
free_lock = record { lock = 0; thread = 0; old_irql = 0 }

-- The insertion into ExitThreadList between KeAcquireSpinLockAtDpcLevel and
-- KeReleaseSpinLockFromDpcLevel on ExitThreadLock. A lock that is taken makes the loop run for ever.
unfoldable pub enter_exit_list : ℕ → Dispatcher → Outcome Dispatcher
enter_exit_list current d = do
  let l = d.exit_thread_lock
  assert (leb dispatch_level d.current_irql)
  assert (if l.thread == 0 then true else l.thread != d.current_thread)
  elim (l.lock == 0) [
    | false ↦ spin
    | true ↦ do
      let d1 = record d {
        exit_thread_list = d.exit_thread_list ++ current ∷ [];
        exit_thread_lock = record {
          lock = 1;
          thread = d.current_thread;
          old_irql = dispatch_level;
        };
      }
      assert (leb dispatch_level d1.current_irql)
      assert (d1.exit_thread_lock.thread == d1.current_thread)
      assert (d1.exit_thread_lock.lock == 1)
      ok (record d1 { exit_thread_lock = free_lock })
  ]

-- Schedule, on a thread that is terminated.
pub schedule_terminated : ℕ → Dispatcher → Outcome Dispatcher
schedule_terminated current d = do
  (next, d1) ← select_next_thread priority_idle d
  elim next [
    | none ↦ bug_check
    | some n ↦ do assert (current != n); d2 ← enter_exit_list current d1; swap_thread current n d2
  ]

-- Schedule, on a thread that can go on: it does, unless another one of its priority or above waits
-- for the processor.
pub schedule_running : ℕ → Dispatcher → Outcome Dispatcher
schedule_running current d = do
  (next, d1) ← select_next_thread (d.threads current).priority d
  elim next [
    | none ↦ ok d1
    | some n ↦ do assert (current != n); d2 ← ready_thread current d1; swap_thread current n d2
  ]

-- Schedule, up to the release of the dispatcher database; Finish is what comes behind that.
pub schedule : Dispatcher → Outcome Dispatcher
schedule d = do
  (old_irql, d1) ← lock_dispatcher_database d
  let current = d1.current_thread
  assert (current != 0)
  let c = d1.threads current
  let d2 = set_thread current (record c { wait_irql = old_irql }) d1
  if is_state c.state terminated
      then schedule_terminated current d2
      else schedule_running current d2

-- KiStandbyThread: the test of the state is a disjunction of two inequalities.
pub standby_thread : ℕ → Dispatcher → Outcome Dispatcher
standby_thread tcb d = do
  let t = d.threads tcb
  assert_locked d
  assert (not (not (is_state t.state ready) || not (is_state t.state terminated)))
  let d1 =
      if not (is_state t.state terminated)
      then set_thread tcb (record t { state = standby }) d
      else d
  ok (set_list t.priority (erase tcb (d1.scheduler_list t.priority)) d1)
