-- ===== src/Ke/Locks/Examples.antt =====
-- Thread 7 at PASSIVE_LEVEL and a lock at address 64.
use kaush_os.Base.{ℕ, ◌≡◌, refl, ◌≢◌}
use kaush_os.Base.Outcome.{Outcome, ok}
use kaush_os.Ke.Locks.{
  Processor, free_lock, acquire_spin_lock, acquire_spin_lock_at_dpc_level, raise_irql, take_lock,
}
use kaush_os.Ke.Locks.Exclusion.{acquire_spin_lock-excludes}

abbrev calm : Processor
calm = record { current_irql = 0; current_thread = 7; database = 32; spin_lock = λ q. free_lock }

abbrev result : Outcome (ℕ × Processor) → ℕ × Processor
result (ok r) = r
result x = (0, calm)

abbrev taken : ℕ × Processor
taken = result (acquire_spin_lock 64 calm)

acquired : acquire_spin_lock 64 calm ≡ ok taken
unfolding acquire_spin_lock raise_irql take_lock
acquired = refl

acquire_spin_lock-excludes_example :
    ((q : ℕ × Processor) → acquire_spin_lock 64 taken.1 ≢ ok q)
    × ((t : Processor) → acquire_spin_lock_at_dpc_level 64 taken.1 ≢ ok t)
acquire_spin_lock-excludes_example = acquire_spin_lock-excludes 64 calm taken.1 taken acquired refl
