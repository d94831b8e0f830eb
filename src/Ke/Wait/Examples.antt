-- ===== src/Ke/Wait/Examples.antt =====
-- Waiting and releasing: thread 1 runs, thread 5 waits for the semaphore 1, and thread 1 owns the
-- mutant 2. Object 3 is an event and object 4 a process.
use kaush_os.Base.{ℕ, ◌≡◌, refl, true, [], ◌∷◌, arith, ◌==◌, if◌then◌else◌}
use kaush_os.Base.Outcome.{Outcome, ok}
use kaush_os.Ke.Dispatcher.{
  Dispatcher, lock_dispatcher_database, ready_thread, block_thread, swap_thread, select_next_thread,
  select_from,
}
use kaush_os.Ke.Dispatcher.Examples.{calm, calm-Consistent}
use kaush_os.Ke.Wait.{
  set_dispatcher, Object, Waits, mutant, semaphore, process, event_notification,
  unlock_dispatcher_database, assert_release, d_header_acquire, d_header_release, ready_all,
  d_header_release_all, release_notification_d_header, release_mutant, release_semaphore, set_event,
  wait_for_single_object,
}
use kaush_os.Ke.Wait.Invariant.{Settled}
use kaush_os.Base.Outcome.{Returns}
use kaush_os.Ke.Wait.Progress.{release_semaphore-Returns}
use kaush_os.Ke.Wait.Objects.{set_event-unsignalled}
use kaush_os.Ke.Wait.Steps.{
  waits, sets, releases_semaphore, releases_mutant, notifies, resumes, Reach, done, next,
  Reach-Settled,
}

abbrev objects : ℕ → Object
objects o =
    if o == 1
    then record {
      object_type = semaphore;
      signal_state = 0;
      wait_list = 5 ∷ [];
      owner_thread = 0;
      limit = 3;
    }
    else if o == 2
    then record {
      object_type = mutant;
      signal_state = 0;
      wait_list = [];
      owner_thread = 1;
      limit = 0;
    }
    else if o == 3
    then record {
      object_type = event_notification;
      signal_state = 0;
      wait_list = [];
      owner_thread = 0;
      limit = 0;
    }
    else record {
      object_type = process;
      signal_state = 0;
      wait_list = [];
      owner_thread = 0;
      limit = 0;
    }

abbrev start : Waits
start = record { dispatcher = calm; object = objects }

start-Settled : Settled start
start-Settled = record {
  consistent = calm-Consistent;
  is_waiting = λ o t m. ground arith;
  alone = λ o p t m n. ground arith;
  distinct = λ o. ground arith;
  idle = λ o. ground arith;
}

abbrev end_of : Outcome Waits → Waits
end_of (ok s) = s
end_of x = start

abbrev given_back : Outcome Dispatcher → Dispatcher
given_back (ok d) = d
given_back x = calm

abbrev end_with {ℓ} : {A : Type ℓ} → A → Outcome (A × Waits) → A × Waits
end_with a (ok r) = r
end_with a x = (a, start)

event_set : set_event 3 start ≡ ok (end_with 0 (set_event 3 start))
unfolding set_event lock_dispatcher_database assert_release d_header_release_all ready_all
    unlock_dispatcher_database
event_set = refl

set_event-unsignalled_example : ((end_with 0 (set_event 3 start)).1.object 3).signal_state ≡ 0
set_event-unsignalled_example = set_event-unsignalled 3 start event_set

release_semaphore-Returns_example : Returns (λ r. Settled r.1) (release_semaphore 1 start)
release_semaphore-Returns_example =
    release_semaphore-Returns 1 start start-Settled (omega arith) refl refl (omega arith)
      (omega arith)

-- Thread 1 gives back the mutant, sets the event, makes thread 5 ready through the semaphore, tells
-- the waiters of the process, and waits for the semaphore, so that another thread runs and gives the
-- dispatcher database back.
abbrev after_mutant : Waits
after_mutant = end_of (release_mutant 2 start)

abbrev after_event : Waits
after_event = (end_with 0 (set_event 3 after_mutant)).1

abbrev after_semaphore : Waits
after_semaphore = (end_with 0 (release_semaphore 1 after_event)).1

abbrev after_notice : Waits
after_notice = end_of (release_notification_d_header 4 after_semaphore)

abbrev after_wait : Waits
after_wait = (end_with true (wait_for_single_object 1 after_notice)).1

abbrev after_switch : Waits
after_switch =
    set_dispatcher (given_back (unlock_dispatcher_database 0 after_wait.dispatcher)) after_wait

history : Reach start after_switch
unfolding assert_release block_thread d_header_acquire d_header_release d_header_release_all
    lock_dispatcher_database ready_all ready_thread release_mutant release_notification_d_header
    release_semaphore select_from select_next_thread set_event swap_thread
    unlock_dispatcher_database wait_for_single_object
history =
    next
      (next
        (next
          (next (next (next done (releases_mutant 2 refl)) (sets 3 refl))
            (releases_semaphore 1 refl))
          (notifies 4 refl))
        (waits 1 refl))
      (resumes 0 refl)

Reach-Settled_example : Settled after_switch
Reach-Settled_example = Reach-Settled start-Settled history
