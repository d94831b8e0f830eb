-- ===== src/Ke/Wait.antt =====
-- KaushOS/kern/ke/wait.c: dispatcher objects and the threads that wait for them, on top of
-- Ke.Dispatcher. A thread waits through block 0 of its WaitBlock, so a list of wait blocks is the
-- list of their threads. No code of the kernel puts a block into a thread's WaitBlockList, so the
-- branches for a thread that waits for several objects are left out. SignalState is never negative:
-- it only is decremented where it is not 0. A DPC that is pending when the dispatcher database is
-- given back is a step of its own.
pub mod Invariant
pub mod Release
pub mod Objects
pub mod Steps
pub mod Progress
mod Examples
use kaush_os.Base.{
  ℕ, ◌+◌, ◌-◌, Bool, true, false, not, ◌&&◌, ◌||◌, List, [], ◌∷◌, ◌++◌, Option, none, some, ◌==◌,
  ◌!=◌, ltb, leb, if◌then◌else◌,
}
use kaush_os.Base.Outcome.{Outcome, ok, bug_check, spin, assert, ◌>>=◌, ◌>>◌}
use kaush_os.Ke.Dispatcher.{
  Dispatcher, lock_dispatcher_database, ready_thread, block_thread, dispatch_level, apc_level,
}

-- The values of KOBJECTS that an object waited for may have, and the others.
pub data ObjectType : Type 0 where
  event_notification event_synchronization mutant process semaphore thread other : ObjectType

abbrev pub is_event : ObjectType → Bool
is_event event_notification = true
is_event event_synchronization = true
is_event t = false

abbrev pub max_dispatch_signal_state : ℕ
max_dispatch_signal_state = 100

-- DISPATCHER_HEADER with the fields of the KMUTANT and KSEMAPHORE that begin with one; owner 0 is
-- NULL.
pub record Object : Type 0 where
  pub object_type : ObjectType
  pub signal_state : ℕ
  pub wait_list : List ℕ
  pub owner_thread : ℕ
  pub limit : ℕ

pub record Waits : Type 0 where
  pub dispatcher : Dispatcher
  pub object : ℕ → Object

abbrev pub set_object : ℕ → Object → Waits → Waits
set_object o v s = record s { object = λ p. if p == o then v else s.object p }

abbrev pub set_dispatcher : Dispatcher → Waits → Waits
set_dispatcher d s = record s { dispatcher = d }

-- KeInitDispatcherHeader.
pub init_dispatcher_header : ObjectType → ℕ → Object → Object
init_dispatcher_header object_type signal_state v = record v {
  object_type = object_type;
  signal_state = signal_state;
  wait_list = [];
}

-- KeReleaseSpinLock on DispatcherDataBaseLock.
pub unlock_dispatcher_database : ℕ → Dispatcher → Outcome Dispatcher
unlock_dispatcher_database old_irql d = do
  assert (d.current_irql == dispatch_level)
  assert (d.database_lock.lock == 1)
  assert (leb old_irql dispatch_level)
  ok (record d {
    current_irql = old_irql;
    database_lock = record { lock = 0; thread = 0; old_irql = 0 };
  })

-- KiDHeaderAcquire: whether the current thread was blocked, and the new state. The condition of the
-- decrement is a disjunction of constants that are not 0.
pub d_header_acquire : ℕ → Waits → Outcome (Bool × Waits)
d_header_acquire o s = do
  let h = s.object o
  assert (s.dispatcher.current_irql == dispatch_level)
  if h.signal_state == 0
      then (do
        let v = record h { wait_list = h.wait_list ++ s.dispatcher.current_thread ∷ [] }
        d ← block_thread s.dispatcher
        ok (true, set_dispatcher d (set_object o v s)))
      else ok (false, set_object o (record h { signal_state = h.signal_state - 1 }) s)

-- KiDHeaderTryAcquire.
pub d_header_try_acquire : ℕ → Waits → Outcome (Bool × Waits)
d_header_try_acquire o s = do
  let h = s.object o
  assert (s.dispatcher.current_irql == dispatch_level)
  if ltb 0 h.signal_state
      then ok (true, set_object o (record h { signal_state = h.signal_state - 1 }) s)
      else ok (false, s)

abbrev pub is_empty : List ℕ → Bool
is_empty [] = true
is_empty (t ∷ ts) = false

-- The assertions at the head of KiDHeaderRelease and KiDHeaderReleaseAll.
pub assert_release : ℕ → Waits → Outcome (Unit {0})
assert_release o s = do
  assert (s.dispatcher.current_irql == dispatch_level)
  assert (ltb (s.object o).signal_state max_dispatch_signal_state)
  assert ((s.object o).signal_state == 0 || is_empty (s.object o).wait_list)

-- KiDHeaderRelease.
pub d_header_release : ℕ → Waits → Outcome Waits
d_header_release o s = do
  let h = s.object o
  assert_release o s
  elim h.wait_list [
    | [] ↦ ok (set_object o (record h { signal_state = h.signal_state + 1 }) s)
    | t ∷ ts ↦ do
      d ← ready_thread t s.dispatcher
      ok (set_dispatcher d (set_object o (record h { wait_list = ts }) s))
  ]

-- The loop of KiDHeaderReleaseAll over the list.
pub ready_all : List ℕ → Dispatcher → Outcome Dispatcher
ready_all [] d = ok d
ready_all (t ∷ ts) d = do d1 ← ready_thread t d; ready_all ts d1

-- KiDHeaderReleaseAll.
pub d_header_release_all : ℕ → Waits → Outcome Waits
d_header_release_all o s = do
  let h = s.object o
  assert_release o s
  d ← ready_all h.wait_list s.dispatcher
  ok (set_dispatcher d (set_object o (record h { signal_state = 1; wait_list = [] }) s))

-- What stands between the lock and the unlock of the dispatcher database.
abbrev pub locked_section : (Waits → Outcome Waits) → Waits → Outcome Waits
locked_section body s = do
  (old_irql, d) ← lock_dispatcher_database s.dispatcher
  s1 ← body (set_dispatcher d s)
  d1 ← unlock_dispatcher_database old_irql s1.dispatcher
  ok (set_dispatcher d1 s1)

-- KeReleaseNotificationDHeader.
pub release_notification_d_header : ℕ → Waits → Outcome Waits
release_notification_d_header o s = locked_section (d_header_release_all o) s

-- KeInitializeMutant.
pub initialize_mutant : Bool → ℕ → Object → Object
initialize_mutant initial_owner current v =
    if not initial_owner
    then record (init_dispatcher_header mutant 1 v) { owner_thread = 0 }
    else record (init_dispatcher_header mutant 0 v) { owner_thread = current }

-- KeReleaseMutant.
pub release_mutant : ℕ → Waits → Outcome Waits
release_mutant o s = do
  assert ((s.object o).owner_thread == s.dispatcher.current_thread)
  locked_section (d_header_release o) (set_object o (record (s.object o) { owner_thread = 0 }) s)

-- KeInitializeSemaphore.
pub initialize_semaphore : ℕ → ℕ → Object → Outcome Object
initialize_semaphore count limit v = do
  assert (leb count limit)
  ok (record (init_dispatcher_header semaphore count v) { limit = limit })

-- KeReleaseSemaphore with an increment of 0 and an adjustment of 1: the old count and the new state.
pub release_semaphore : ℕ → Waits → Outcome (ℕ × Waits)
release_semaphore o s = do
  assert (ltb (s.object o).signal_state (s.object o).limit)
  s1 ← locked_section (d_header_release o) s
  ok ((s.object o).signal_state, s1)

-- KeInitializeEvent.
pub initialize_event : Bool → Bool → Object → Object
initialize_event is_notification state v = record v {
  object_type = if is_notification then event_notification else event_synchronization;
  signal_state = if state then 1 else 0;
  wait_list = [];
}

-- KeClearEvent.
pub clear_event : ℕ → Waits → Outcome Waits
clear_event o s = do
  assert (is_event (s.object o).object_type)
  ok (set_object o (record (s.object o) { signal_state = 0 }) s)

-- KeResetEvent: the old state of the event and the new state.
pub reset_event : ℕ → Waits → Outcome (ℕ × Waits)
reset_event o s = do s1 ← clear_event o s; ok ((s.object o).signal_state, s1)

abbrev pub is_notification : ObjectType → Bool
is_notification event_notification = true
is_notification t = false

-- KeSetEvent, which ends with an exchange of the new signal state for 0.
pub set_event : ℕ → Waits → Outcome (ℕ × Waits)
set_event o s = do
  assert (is_event (s.object o).object_type)
  (old_irql, d) ← lock_dispatcher_database s.dispatcher
  let s1 = set_dispatcher d s
  s2 ←
      (if is_notification (s.object o).object_type
        then d_header_release_all o s1
        else d_header_release o s1)
  let s3 = set_object o (record (s2.object o) { signal_state = 0 }) s2
  d1 ← unlock_dispatcher_database old_irql s3.dispatcher
  ok ((s2.object o).signal_state, set_dispatcher d1 s3)

-- KeWaitForSingleObject, up to the point where the thread leaves the processor if it has to wait.
abbrev pub wait_end : ℕ → Bool × Waits → Outcome (Bool × Waits)
wait_end old_irql (true, s) = ok (true, s)
wait_end old_irql (false, s) = do
  d ← unlock_dispatcher_database old_irql s.dispatcher
  ok (false, set_dispatcher d s)

pub wait_for_mutant : ℕ → ℕ → Waits → Outcome (Bool × Waits)
wait_for_mutant o old_irql s = do
  let current = s.dispatcher.current_thread
  assert ((s.object o).owner_thread != current)
  assert ((s.object o).signal_state != 0)
  (blocked, s1) ← d_header_acquire o s
  wait_end old_irql (blocked, set_object o (record (s1.object o) { owner_thread = current }) s1)

pub wait_for_single_object : ℕ → Waits → Outcome (Bool × Waits)
wait_for_single_object o s = do
  assert (leb s.dispatcher.current_irql apc_level)
  (old_irql, d) ← lock_dispatcher_database s.dispatcher
  let s1 = set_dispatcher d s
  elim (s.object o).object_type [
    | mutant ↦ wait_for_mutant o old_irql s1
    | other ↦ bug_check
    | _ ↦ do r ← d_header_acquire o s1; wait_end old_irql r
  ]
