-- ===== src/Ke/Dispatcher/Kept.antt =====
-- What the lowering of the IRQL at the end of Schedule keeps.
use kaush_os.Base.{ℕ, List, ◌≤◌, ◌≡◌, refl, ◌∙◌, arith, ltb, leb, Bool-cases, inl, inr}
use kaush_os.Base.Outcome.{Outcome, ok, assert-pass, >>=-ok}
use kaush_os.Ke.Dispatcher.{Dispatcher, SpinLock, dispatch_level}
use kaush_os.Ke.Dispatcher.Consistency.{Consistent, nobody}
use kaush_os.Ke.Dispatcher.Finish.{lower_level}

-- What KiProcessDpcQueue and PsExitThread are taken to keep.
pub record Kept (d d' : Dispatcher) : Type 0 where
  pub irql : d'.current_irql ≡ d.current_irql
  pub current : d'.current_thread ≡ d.current_thread
  pub exits : d'.exit_thread_list ≡ d.exit_thread_list
  pub exit_lock : d'.exit_thread_lock ≡ d.exit_thread_lock
  pub database : d'.database_lock ≡ d.database_lock
  pub consistent : Consistent nobody d → Consistent nobody d'

-- A call that returns and keeps these.
abbrev pub Tidy : (Dispatcher → Outcome Dispatcher) → Type 0
Tidy f = (d : Dispatcher) → (d' : Dispatcher) × (f d ≡ ok d') × Kept d d'

-- The level, the two locks and the list of the exited threads are of no concern to the queues.
pub Consistent-beside :
    {d : Dispatcher} (irql : ℕ) (database exit : SpinLock) (exits : List ℕ)
    → Consistent nobody d
    → Consistent nobody (record d {
      current_irql = irql;
      database_lock = database;
      exit_thread_lock = exit;
      exit_thread_list = exits;
    })
Consistent-beside irql database exit exits k = record {
  is_ready = k.is_ready;
  in_place = k.in_place;
  not_held = k.not_held;
  listed = k.listed;
  distinct = k.distinct;
  runs = k.runs;
}

pub lower_level-Kept :
    (process_dpc_queue : Dispatcher → Outcome Dispatcher) (irql : ℕ) (d : Dispatcher)
    → Tidy process_dpc_queue
    → irql ≤ dispatch_level
    → d.current_irql ≡ dispatch_level
    → (d' : Dispatcher) × (lower_level process_dpc_queue irql d ≡ ok d')
      × Kept (record d { current_irql = irql }) d'
unfolding lower_level
lower_level-Kept process_dpc_queue irql d tidy low level =
    elim (Bool-cases (ltb irql dispatch_level)) [
      | inl below ↦
          let (d1, e, kept) = tidy (record d { current_irql = dispatch_level }) in
          (
            record d1 { current_irql = irql },
            assert-pass {b = leb irql d.current_irql} _ (ground (arith, level, low))
                ∙ rw (below, level) (>>=-ok _ e),
            record {
              irql = refl;
              current = kept.current;
              exits = kept.exits;
              exit_lock = kept.exit_lock;
              database = kept.database;
              consistent = λ c.
                  Consistent-beside irql d1.database_lock d1.exit_thread_lock d1.exit_thread_list (
                    kept.consistent (
                      Consistent-beside dispatch_level d.database_lock d.exit_thread_lock
                        d.exit_thread_list c));
            },
          )
      | inr above ↦ (
        record d { current_irql = irql },
        assert-pass {b = leb irql d.current_irql} _ (ground (arith, level, low)) ∙ rw above refl,
        record {
          irql = refl;
          current = refl;
          exits = refl;
          exit_lock = refl;
          database = refl;
          consistent = λ c. c;
        },
      )
    ]
