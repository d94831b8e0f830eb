-- ===== src/Ke/Dispatcher/Finish.antt =====
-- KaushOS/kern/ke/scheduler.c: Schedule behind the release of the dispatcher database, which it comes
-- to at once where it goes on with its thread. Where KiContextSwitch has left the thread, the rest
-- belongs to the time when that thread runs again. KiProcessDpcQueue, which KeLowerIrql calls on the
-- way below DISPATCH_LEVEL (irql.c), and PsExitThread are arguments.
use kaush_os.Base.{ℕ, zero, suc, true, false, ◌&&◌, [], ◌∷◌, ◌==◌, ◌!=◌, ltb, leb, if◌then◌else◌}
use kaush_os.Base.Outcome.{Outcome, ok, spin, assert, ◌>>=◌, ◌>>◌}
use kaush_os.Ke.Dispatcher.{Dispatcher, dispatch_level, free_lock, schedule}

-- KeLowerIrql.
unfoldable pub lower_level : (Dispatcher → Outcome Dispatcher) → ℕ → Dispatcher → Outcome Dispatcher
lower_level process_dpc_queue old_irql d = do
  assert (leb old_irql d.current_irql)
  d1 ← elim (ltb old_irql dispatch_level && leb dispatch_level d.current_irql) [
    | true ↦ process_dpc_queue (record d { current_irql = dispatch_level })
    | false ↦ ok d
  ]
  ok (record d1 { current_irql = old_irql })

-- KeReleaseSpinLock on DispatcherDataBaseLock.
unfoldable pub release_database :
    (Dispatcher → Outcome Dispatcher) → ℕ → Dispatcher → Outcome Dispatcher
release_database process_dpc_queue old_irql d = do
  assert (d.current_irql == dispatch_level)
  assert (d.database_lock.lock == 1)
  lower_level process_dpc_queue old_irql (record d { database_lock = free_lock })

-- KeAcquireSpinLock on ExitThreadLock: the old IRQL and the new state.
unfoldable pub acquire_exit_lock : Dispatcher → Outcome (ℕ × Dispatcher)
acquire_exit_lock d = do
  let l = d.exit_thread_lock
  assert (leb d.current_irql dispatch_level)
  assert (if l.thread == 0 then true else l.thread != d.current_thread)
  elim (l.lock == 0) [
    | false ↦ spin
    | true ↦ ok (
      d.current_irql,
      record d {
        current_irql = dispatch_level;
        exit_thread_lock = record {
          lock = 1;
          thread = d.current_thread;
          old_irql = d.current_irql;
        };
      },
    )
  ]

-- KeReleaseSpinLock on ExitThreadLock.
unfoldable pub release_exit_lock :
    (Dispatcher → Outcome Dispatcher) → ℕ → Dispatcher → Outcome Dispatcher
release_exit_lock process_dpc_queue old_irql d = do
  let l = d.exit_thread_lock
  assert (d.current_irql == dispatch_level)
  assert (l.old_irql == old_irql)
  assert (l.thread == d.current_thread)
  assert (l.lock == 1)
  lower_level process_dpc_queue old_irql (record d { exit_thread_lock = free_lock })

-- The loop over ExitThreadList, on fuel. Without fuel left it has not ended.
unfoldable pub clean_threads :
    (ℕ → Dispatcher → Outcome Dispatcher) → ℕ → Dispatcher → Outcome Dispatcher
clean_threads ps_exit_thread zero d = spin
clean_threads ps_exit_thread (suc k) d = elim d.exit_thread_list [
  | [] ↦ ok d
  | t ∷ ts ↦ do
    d1 ← ps_exit_thread t (record d { exit_thread_list = ts })
    clean_threads ps_exit_thread k d1
]

-- The rest of Schedule.
unfoldable pub finish_schedule :
    (ℕ → Dispatcher → Outcome Dispatcher)
    → (Dispatcher → Outcome Dispatcher)
    → ℕ
    → Dispatcher
    → Outcome Dispatcher
finish_schedule ps_exit_thread process_dpc_queue k d = do
  let wait_irql = (d.threads d.current_thread).wait_irql
  assert (leb wait_irql dispatch_level)
  d1 ← release_database process_dpc_queue wait_irql d
  (old_irql, d2) ← acquire_exit_lock d1
  d3 ← clean_threads ps_exit_thread k d2
  release_exit_lock process_dpc_queue old_irql d3

-- Schedule, up to the switch to another thread or to its end.
unfoldable pub schedule_to_end :
    (ℕ → Dispatcher → Outcome Dispatcher)
    → (Dispatcher → Outcome Dispatcher)
    → ℕ
    → Dispatcher
    → Outcome Dispatcher
schedule_to_end ps_exit_thread process_dpc_queue k d = do
  d1 ← schedule d
  elim (d1.current_thread == d.current_thread) [
    | false ↦ ok d1
    | true ↦ finish_schedule ps_exit_thread process_dpc_queue k d1
  ]
