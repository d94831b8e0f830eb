-- ===== src/Ke/Dispatcher/Cleanup.antt =====
-- The end of Schedule, with the lock of the dispatcher database taken and ExitThreadLock free.
use kaush_os.Base.{
  ℕ, zero, suc, List, [], ◌∷◌, ◌≤◌, ◌<◌, ◌≡◌, refl, sym, ap, ◌∙◌, arith, ◌==◌, leb, length,
}
use kaush_os.Base.Outcome.{Outcome, ok, assert-pass, >>=-ok}
use kaush_os.Ke.Dispatcher.{Dispatcher, SpinLock, dispatch_level, free_lock}
use kaush_os.Ke.Dispatcher.Consistency.{Consistent, nobody}
use kaush_os.Ke.Dispatcher.Finish.{
  release_database, acquire_exit_lock, release_exit_lock, clean_threads, finish_schedule,
}
use kaush_os.Ke.Dispatcher.Kept.{Kept, Tidy, Consistent-beside, lower_level-Kept}

release_database-Kept :
    (process_dpc_queue : Dispatcher → Outcome Dispatcher) (irql : ℕ) (d : Dispatcher)
    → Tidy process_dpc_queue
    → irql ≤ dispatch_level
    → d.current_irql ≡ dispatch_level
    → d.database_lock.lock ≡ 1
    → (d' : Dispatcher) × (release_database process_dpc_queue irql d ≡ ok d')
      × Kept (record d { current_irql = irql; database_lock = free_lock }) d'
unfolding release_database
release_database-Kept process_dpc_queue irql d tidy low level taken =
    let (d', e, kept) =
      lower_level-Kept process_dpc_queue irql (record d { database_lock = free_lock }) tidy low
        level in
    (
      d',
      assert-pass {b = d.current_irql == dispatch_level} _ (ground (arith, level))
          ∙ assert-pass {b = d.database_lock.lock == 1} _ (ground (arith, taken))
          ∙ e,
      kept,
    )

-- The state with ExitThreadLock taken.
abbrev exit_locked : Dispatcher → Dispatcher
exit_locked d = record d {
  current_irql = dispatch_level;
  exit_thread_lock = record { lock = 1; thread = d.current_thread; old_irql = d.current_irql };
}

acquire_exit_lock-locks :
    (d : Dispatcher)
    → d.current_irql ≤ dispatch_level
    → d.exit_thread_lock.lock ≡ 0
    → d.exit_thread_lock.thread ≡ 0
    → acquire_exit_lock d ≡ ok (d.current_irql, exit_locked d)
unfolding acquire_exit_lock
acquire_exit_lock-locks d low free no_owner = ground (arith, low, free, no_owner)

release_exit_lock-Kept :
    (process_dpc_queue : Dispatcher → Outcome Dispatcher) (irql : ℕ) (d : Dispatcher)
    → Tidy process_dpc_queue
    → irql ≤ dispatch_level
    → d.current_irql ≡ dispatch_level
    → d.exit_thread_lock ≡ record { lock = 1; thread = d.current_thread; old_irql = irql }
    → (d' : Dispatcher) × (release_exit_lock process_dpc_queue irql d ≡ ok d')
      × Kept (record d { current_irql = irql; exit_thread_lock = free_lock }) d'
unfolding release_exit_lock
release_exit_lock-Kept process_dpc_queue irql d tidy low level taken =
    let (d', e, kept) =
      lower_level-Kept process_dpc_queue irql (record d { exit_thread_lock = free_lock }) tidy low
        level in
    (
      d',
      assert-pass {b = d.current_irql == dispatch_level} _ (ground (arith, level))
          ∙ assert-pass {b = d.exit_thread_lock.old_irql == irql} _ (ground (arith, taken))
          ∙ assert-pass {b = d.exit_thread_lock.thread == d.current_thread} _
              (ground (arith, taken))
          ∙ assert-pass {b = d.exit_thread_lock.lock == 1} _ (ground (arith, taken))
          ∙ e,
      kept,
    )

clean_threads_end :
    (ps_exit_thread : ℕ → Dispatcher → Outcome Dispatcher) (k : ℕ) (d : Dispatcher)
    → d.exit_thread_list ≡ []
    → clean_threads ps_exit_thread (suc k) d ≡ ok d
unfolding clean_threads
clean_threads_end ps_exit_thread k d q = simp (q, clean_threads)

clean_threads-Kept :
    (ps_exit_thread : ℕ → Dispatcher → Outcome Dispatcher) (k : ℕ) (d : Dispatcher) (ts : List ℕ)
    → ((t : ℕ) → Tidy (ps_exit_thread t))
    → d.exit_thread_list ≡ ts
    → length ts < k
    → (d' : Dispatcher) × (clean_threads ps_exit_thread k d ≡ ok d')
      × Kept (record d { exit_thread_list = [] }) d'
unfolding clean_threads
clean_threads-Kept ps_exit_thread zero d ts tidy q h = absurd (omega (arith, h))
clean_threads-Kept ps_exit_thread (suc k) d [] tidy q h = (
  d,
  clean_threads_end ps_exit_thread k d q,
  record {
    irql = refl;
    current = refl;
    exits = q;
    exit_lock = refl;
    database = refl;
    consistent = λ c.
        Consistent-beside d.current_irql d.database_lock d.exit_thread_lock d.exit_thread_list c;
  },
)
clean_threads-Kept ps_exit_thread (suc k) d (t ∷ ts) tidy q h =
    let d0 = record d { exit_thread_list = ts } in
    let (d1, e1, kept1) = tidy t d0 in
    let (d', e, kept) =
      clean_threads-Kept ps_exit_thread k d1 ts tidy kept1.exits (omega (arith, h)) in
    (
      d',
      rw (q, clean_threads) (>>=-ok _ e1 ∙ e),
      record {
        irql = kept.irql ∙ kept1.irql;
        current = kept.current ∙ kept1.current;
        exits = kept.exits;
        exit_lock = kept.exit_lock ∙ kept1.exit_lock;
        database = kept.database ∙ kept1.database;
        consistent = λ c. kept.consistent (
            Consistent-beside d1.current_irql d1.database_lock d1.exit_thread_lock [] (
              kept1.consistent
                (Consistent-beside d.current_irql d.database_lock d.exit_thread_lock ts c)));
      },
    )

-- What is so where Schedule has come to its end.
pub record Finished (irql current : ℕ) (d : Dispatcher) : Type 0 where
  pub consistent : Consistent nobody d
  pub same_thread : d.current_thread ≡ current
  pub same_irql : d.current_irql ≡ irql
  pub nobody_left : d.exit_thread_list ≡ []
  pub database_free : d.database_lock ≡ free_lock
  pub exit_free : d.exit_thread_lock ≡ free_lock

pub finish_schedule-Finished :
    (ps_exit_thread : ℕ → Dispatcher → Outcome Dispatcher)
    (process_dpc_queue : Dispatcher → Outcome Dispatcher) (k : ℕ) (d : Dispatcher)
    → ((t : ℕ) → Tidy (ps_exit_thread t))
    → Tidy process_dpc_queue
    → Consistent nobody d
    → (d.threads d.current_thread).wait_irql ≤ dispatch_level
    → d.current_irql ≡ dispatch_level
    → d.database_lock.lock ≡ 1
    → (d.exit_thread_lock.lock ≡ 0) × (d.exit_thread_lock.thread ≡ 0)
    → length d.exit_thread_list < k
    → (d' : Dispatcher) × (finish_schedule ps_exit_thread process_dpc_queue k d ≡ ok d')
      × Finished (d.threads d.current_thread).wait_irql d.current_thread d'
unfolding finish_schedule
finish_schedule-Finished ps_exit_thread process_dpc_queue k d exits tidy c low level taken
      (free, no_owner) h =
    let irql = (d.threads d.current_thread).wait_irql in
    let (d1, e1, kept1) = release_database-Kept process_dpc_queue irql d tidy low level taken in
    let low1 : d1.current_irql ≤ dispatch_level = omega (arith, kept1.irql, low) in
    let e2 =
      acquire_exit_lock-locks d1 low1 (ap (λ (l : SpinLock). l.lock) kept1.exit_lock ∙ free)
        (ap (λ (l : SpinLock). l.thread) kept1.exit_lock ∙ no_owner) in
    let d2 = exit_locked d1 in
    let (d3, e3, kept3) =
      clean_threads-Kept ps_exit_thread k d2 d.exit_thread_list exits kept1.exits h in
    let (d4, e4, kept4) =
      release_exit_lock-Kept process_dpc_queue d1.current_irql d3 tidy low1 kept3.irql (
        kept3.exit_lock
        ∙ ap (λ (u : ℕ). record { lock = 1; thread = u; old_irql = d1.current_irql })
            (sym kept3.current)) in
    (
      d4,
      assert-pass {b = leb irql dispatch_level} _ (ground (arith, low))
          ∙ >>=-ok _ e1
          ∙ >>=-ok _ e2
          ∙ >>=-ok _ e3
          ∙ e4,
      record {
        consistent = kept4.consistent (
            Consistent-beside d1.current_irql d3.database_lock free_lock d3.exit_thread_list (
              kept3.consistent (
                Consistent-beside dispatch_level d1.database_lock d2.exit_thread_lock [] (
                  kept1.consistent
                    (Consistent-beside irql free_lock d.exit_thread_lock d.exit_thread_list c)))));
        same_thread = kept4.current ∙ kept3.current ∙ kept1.current;
        same_irql = kept4.irql ∙ kept1.irql;
        nobody_left = kept4.exits ∙ kept3.exits;
        database_free = kept4.database ∙ kept3.database ∙ kept1.database;
        exit_free = kept4.exit_lock;
      },
    )
