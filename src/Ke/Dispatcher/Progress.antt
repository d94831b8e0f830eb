-- ===== src/Ke/Dispatcher/Progress.antt =====
-- Schedule on a thread that runs, to the switch to another one or to its end.
use kaush_os.Base.{◌⊎◌, ◌≡◌, ◌≢◌, true, false, ◌==◌}
use kaush_os.Base.Outcome.{Outcome, ok}
use kaush_os.Ke.Dispatcher.{Dispatcher, running, dispatch_level}
use kaush_os.Ke.Dispatcher.Cleanup.{Finished}
use kaush_os.Ke.Dispatcher.Consistency.{Consistent, nobody, has_state}

-- The database is locked by the current thread, which runs.
record Holding (d : Dispatcher) : Type 0 where
  raised : d.current_irql ≡ dispatch_level
  taken : d.database_lock.lock ≡ 1
  owned : d.database_lock.thread ≡ d.current_thread
  runs : has_state d d.current_thread running ≡ true
  someone : d.current_thread ≢ 0

-- It comes to a switch to another thread, or leaves the state as it is.
abbrev Decided : Dispatcher → Outcome Dispatcher → Type 0
Decided d o =
    (d' : Dispatcher) × (o ≡ ok d') × (((d'.current_thread == d.current_thread) ≡ false) ⊎ (d' ≡ d))

-- How Schedule goes on.
pub data Ended (d d' : Dispatcher) : Type 0 where
  switched : (d'.current_thread == d.current_thread) ≡ false → Consistent nobody d' → Ended d d'
  went_on : Finished d.current_irql d.current_thread d' → Ended d d'
