-- ===== src/Ke/Dispatcher/Examples.antt =====
-- The scheduler on three threads: thread 1 runs, 2 and 3 are ready, and 5 waits.
use kaush_os.Base.{ℕ, ◌≡◌, refl, List, [], ◌∷◌, arith, ◌==◌, if◌then◌else◌}
use kaush_os.Base.Outcome.{Outcome, ok}
use kaush_os.Ke.Dispatcher.{
  Dispatcher, Thread, initialized, ready, running, waiting, ready_thread, swap_thread,
  select_next_thread, select_from, block_thread, schedule, schedule_running,
  lock_dispatcher_database,
}
use kaush_os.Ke.Dispatcher.Consistency.{Consistent, nobody}
use kaush_os.Ke.Dispatcher.Scheduling.{schedule-Consistent}
use kaush_os.Ke.Dispatcher.Policy.{Highest, schedule-Highest}
use kaush_os.Ke.Dispatcher.Finish.{
  lower_level, release_database, acquire_exit_lock, release_exit_lock, clean_threads,
  finish_schedule,
}

abbrev thread : ℕ → Thread
thread t = record {
  state =
      if t == 1
      then running
      else if t == 2
      then ready
      else if t == 3
      then ready
      else if t == 5
      then waiting
      else initialized;
  priority = if t == 3 then 2 else 3;
  quantum = 0;
  process_quantum = 10;
  wait_irql = 0;
}

abbrev queues : ℕ → List ℕ
queues p = if p == 3 then 2 ∷ [] else if p == 2 then 3 ∷ [] else []

-- The lock is free.
abbrev pub calm : Dispatcher
calm = record {
  threads = thread;
  current_thread = 1;
  current_irql = 0;
  scheduler_list = queues;
  exit_thread_list = [];
  exit_thread_lock = record { lock = 0; thread = 0; old_irql = 0 };
  database_lock = record { lock = 0; thread = 0; old_irql = 0 };
}

-- Thread 1 holds the lock.
abbrev held : Dispatcher
held = record calm {
  current_irql = 2;
  database_lock = record { lock = 1; thread = 1; old_irql = 0 };
}

pub calm-Consistent : Consistent nobody calm
calm-Consistent = record {
  is_ready = λ p t m. ground arith;
  in_place = λ p t m. ground arith;
  not_held = λ p t m. refl;
  listed = λ t r h. ground arith;
  distinct = λ p. ground arith;
  runs = λ t r. ground arith;
}

held-Consistent : Consistent nobody held
held-Consistent = record {
  is_ready = calm-Consistent.is_ready;
  in_place = calm-Consistent.in_place;
  not_held = calm-Consistent.not_held;
  listed = calm-Consistent.listed;
  distinct = calm-Consistent.distinct;
  runs = calm-Consistent.runs;
}

abbrev state_of : Outcome Dispatcher → Dispatcher
state_of (ok d) = d
state_of other = calm

scheduled : schedule calm ≡ ok (state_of (schedule calm))
unfolding schedule lock_dispatcher_database schedule_running select_next_thread select_from
    ready_thread swap_thread
scheduled = refl

blocked : block_thread held ≡ ok (state_of (block_thread held))
unfolding block_thread select_next_thread select_from swap_thread
blocked = refl

readied_4 : ready_thread 4 held ≡ ok (state_of (ready_thread 4 held))
unfolding ready_thread
readied_4 = refl

schedule-Consistent_example : Consistent nobody (state_of (schedule calm))
schedule-Consistent_example = schedule-Consistent calm-Consistent scheduled

schedule-Highest_example :
    Highest
      ((state_of (schedule calm)).threads (state_of (schedule calm)).current_thread).priority
      (state_of (schedule calm))
schedule-Highest_example = schedule-Highest calm-Consistent scheduled

-- The end of Schedule, with the exited thread 5 in the list.
cleaned :
    finish_schedule (λ t d. ok d) (λ d. ok d) 2 (record held { exit_thread_list = 5 ∷ [] })
    ≡ ok calm
unfolding finish_schedule release_database acquire_exit_lock clean_threads release_exit_lock
    lower_level
cleaned = refl

-- Thread 2 runs, thread 1 waits behind it, and the lower queue is as it was.
round_robin :
    ((state_of (schedule calm)).current_thread ≡ 2)
    × ((state_of (schedule calm)).scheduler_list 3 ≡ 1 ∷ [])
unfolding schedule lock_dispatcher_database schedule_running select_next_thread select_from
    ready_thread swap_thread
round_robin = (refl, refl)
