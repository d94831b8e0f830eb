-- ===== src/Ke/Locks/Exclusion.antt =====
-- A spin lock excludes, and is given back as it was taken.
use kaush_os.Base.{
  ℕ, ◌≡◌, refl, sym, ap, ◌∙◌, subst, Bool, true, ◌||◌, ◌&&◌, ◌==◌, ◌!=◌, ltb, leb, if◌then◌else◌,
  Bool-cases, inl, inr, arith, ◌≢◌,
}
use kaush_os.Base.Outcome.{Outcome, ok, assert-pass, assert_then, >>=-ok, ok-injective}
use kaush_os.Ke.Dispatcher.{SpinLock, dispatch_level}
use kaush_os.Ke.Locks.{
  Processor, set_irql, set_lock, free_lock, raise_irql, lower_irql, initialize_spin_lock, take_lock,
  acquire_spin_lock, release_spin_lock, acquire_spin_lock_at_dpc_level,
}

-- The DPC queue is taken at DISPATCH_LEVEL, and every lock is as before when it is done.
abbrev pub Keeps : (Processor → Outcome Processor) → Type 0
Keeps process_dpc_queue =
    (s : Processor)
    → s.current_irql ≡ dispatch_level
    → (s' : Processor) × (process_dpc_queue s ≡ ok s') × (s'.spin_lock ≡ s.spin_lock)

-- What KeAcquireSpinLock does.
record Acquired (p : ℕ) (s : Processor) (r : ℕ × Processor) : Type 0 where
  level : leb s.current_irql dispatch_level ≡ true
  old : r.0 ≡ s.current_irql
  was_free : (s.spin_lock p).lock ≡ 0
  state :
      r.1
      ≡ set_lock p
          (record { lock = 1; thread = s.current_thread; old_irql = s.current_irql })
          (set_irql dispatch_level s)

-- KeRaiseIrql to DISPATCH_LEVEL.
raised :
    (s : Processor)
    → (if dispatch_level != s.current_irql then set_irql dispatch_level s else s)
      ≡ set_irql dispatch_level s
raised s = elim (Bool-cases (dispatch_level != s.current_irql)) [
  | inl n ↦ rw n refl
  | inr n ↦ rw n (ap (λ (k : ℕ). set_irql k s) (ground (arith, n)))
]

raise_irql-ok :
    (s : Processor)
    → leb s.current_irql dispatch_level ≡ true
    → raise_irql dispatch_level s ≡ ok (s.current_irql, set_irql dispatch_level s)
unfolding raise_irql
raise_irql-ok s low =
    assert-pass {b = leb s.current_irql dispatch_level} _ low
    ∙ ap (λ (x : Processor). ok (s.current_irql, x)) (raised s)

take_lock-ok :
    (p old_irql : ℕ) (s : Processor)
    → (s.spin_lock p).lock ≡ 0
    → take_lock p old_irql s
      ≡ ok (set_lock p (record { lock = 1; thread = s.current_thread; old_irql = old_irql }) s)
unfolding take_lock
take_lock-ok p old_irql s h = ground (arith, h)

abbrev not_owner : ℕ → Processor → Bool
not_owner p s =
    if (s.spin_lock p).thread == 0 then true else (s.spin_lock p).thread != s.current_thread

acquire_spin_lock-ok :
    (p : ℕ) (s : Processor)
    → leb s.current_irql dispatch_level ≡ true
    → not_owner p s ≡ true
    → (s.spin_lock p).lock ≡ 0
    → acquire_spin_lock p s
      ≡ ok (
        s.current_irql,
        set_lock p
            (record { lock = 1; thread = s.current_thread; old_irql = s.current_irql })
            (set_irql dispatch_level s),
      )
unfolding acquire_spin_lock
acquire_spin_lock-ok p s low other was_free =
    assert-pass {b = leb s.current_irql dispatch_level} _ low
    ∙ assert-pass {b = not_owner p s} _ other
    ∙ >>=-ok _ (raise_irql-ok s low)
    ∙ >>=-ok _ (take_lock-ok p s.current_irql (set_irql dispatch_level s) was_free)

acquire_spin_lock-guards :
    (p : ℕ) (s : Processor) {r : ℕ × Processor}
    → acquire_spin_lock p s ≡ ok r
    → (leb s.current_irql dispatch_level ≡ true)
      × (not_owner p s ≡ true)
      × ((s.spin_lock p).lock ≡ 0)
unfolding acquire_spin_lock raise_irql take_lock
acquire_spin_lock-guards p s e =
    let (low, e1) = assert_then (leb s.current_irql dispatch_level) _ e in
    let (other, e2) = assert_then (not_owner p s) _ e1 in (low, other, ground (arith, e2))

acquire_spin_lock-Acquired :
    (p : ℕ) (s : Processor) {r : ℕ × Processor} → acquire_spin_lock p s ≡ ok r → Acquired p s r
acquire_spin_lock-Acquired p s e =
    let (low, other, was_free) = acquire_spin_lock-guards p s e in
    subst (Acquired p s) (ok-injective (sym (acquire_spin_lock-ok p s low other was_free) ∙ e))
      (record { level = low; old = refl; was_free = was_free; state = refl })

-- While the lock stays as KeAcquireSpinLock left it, neither KeAcquireSpinLock nor
-- KeAcquireSpinLockAtDpcLevel returns with it again, for any thread and at any IRQL.
pub acquire_spin_lock-excludes :
    (p : ℕ) (s s' : Processor) (r : ℕ × Processor)
    → acquire_spin_lock p s ≡ ok r
    → s'.spin_lock p ≡ r.1.spin_lock p
    → ((q : ℕ × Processor) → acquire_spin_lock p s' ≢ ok q)
      × ((t : Processor) → acquire_spin_lock_at_dpc_level p s' ≢ ok t)
unfolding acquire_spin_lock_at_dpc_level take_lock
acquire_spin_lock-excludes p s s' r e same =
    let a = acquire_spin_lock-Acquired p s e in
    let taken : (s'.spin_lock p).lock ≡ 1 =
      ap (λ (l : SpinLock). l.lock) same
      ∙ ap (λ (x : Processor). (x.spin_lock p).lock) a.state
      ∙ ground arith in
    (
      λ q e1. ground (arith, taken, (acquire_spin_lock-guards p s' e1).2),
      λ t e1. ground (arith, taken, e1),
    )

-- KeLowerIrql from DISPATCH_LEVEL.
lower_irql-Lowered :
    (process_dpc_queue : Processor → Outcome Processor) (old_irql : ℕ) (s : Processor)
    → Keeps process_dpc_queue
    → leb old_irql dispatch_level ≡ true
    → s.current_irql ≡ dispatch_level
    → (s' : Processor) × (lower_irql process_dpc_queue old_irql s ≡ ok s')
      × (s'.current_irql ≡ old_irql)
      × (s'.spin_lock ≡ s.spin_lock)
unfolding lower_irql
lower_irql-Lowered process_dpc_queue old_irql s keeps low at =
    let may = ltb old_irql dispatch_level && leb dispatch_level s.current_irql in
    let start : leb old_irql s.current_irql ≡ true = ground (arith, low, at) in
    elim (Bool-cases may) [
      | inl e ↦
          let (t, e1, same) = keeps (set_irql dispatch_level s) refl in
          (
            set_irql old_irql t,
            assert-pass {b = leb old_irql s.current_irql} _ start ∙ rw (e) (>>=-ok _ e1),
            refl,
            same,
          )
      | inr e ↦ (
        set_irql old_irql s,
        assert-pass {b = leb old_irql s.current_irql} _ start ∙ rw (e) refl,
        refl,
        refl,
      )
    ]

-- A lock that KeAcquireSpinLock has taken, KeReleaseSpinLock of the same thread with the old IRQL
-- gives back, whatever happens to the other locks in between: at DISPATCH_LEVEL it returns, the
-- lock is free, the other locks are as they were before the release, and the IRQL is the one before
-- the lock was taken. KiProcessDpcQueue has to return at DISPATCH_LEVEL, with all locks as before.
pub release_spin_lock-acquire_spin_lock :
    (process_dpc_queue : Processor → Outcome Processor) (p : ℕ) (s s1 : Processor)
    (r : ℕ × Processor)
    → Keeps process_dpc_queue
    → acquire_spin_lock p s ≡ ok r
    → s1.current_irql ≡ dispatch_level
    → s1.current_thread ≡ s.current_thread
    → s1.spin_lock p ≡ r.1.spin_lock p
    → (s2 : Processor) × (release_spin_lock process_dpc_queue p r.0 s1 ≡ ok s2)
      × (s2.current_irql ≡ s.current_irql)
      × ((q : ℕ) → s2.spin_lock q ≡ (if q == p then free_lock else s1.spin_lock q))
unfolding release_spin_lock
release_spin_lock-acquire_spin_lock process_dpc_queue p s s1 r keeps e at who same =
    let a = acquire_spin_lock-Acquired p s e in
    let l = s1.spin_lock p in
    let taken : l ≡ record { lock = 1; thread = s.current_thread; old_irql = s.current_irql } =
      same ∙ ap (λ (x : Processor). x.spin_lock p) a.state ∙ ground arith in
    let low : leb r.0 dispatch_level ≡ true = ground (arith, a.level, a.old) in
    let (s2, e1, level, locks) =
      lower_irql-Lowered process_dpc_queue r.0 (set_lock p free_lock s1) keeps low at in
    let was_old : l.old_irql ≡ r.0 = ap (λ (x : SpinLock). x.old_irql) taken ∙ sym a.old in
    let was_mine : l.thread ≡ s1.current_thread = ap (λ (x : SpinLock). x.thread) taken ∙ sym who in
    let was_taken : l.lock ≡ 1 = ap (λ (x : SpinLock). x.lock) taken in
    let old_ok : (p == s1.database || l.old_irql == r.0) ≡ true = ground (arith, was_old) in
    let thread_ok : (p == s1.database || l.thread == s1.current_thread) ≡ true =
      ground (arith, was_mine) in
    let lock_ok : (l.lock == 1) ≡ true = ground (arith, was_taken) in
    (
      s2,
      assert-pass {b = s1.current_irql == dispatch_level} _ (ground (arith, at))
          ∙ assert-pass {b = p == s1.database || l.old_irql == r.0} _ old_ok
          ∙ assert-pass {b = p == s1.database || l.thread == s1.current_thread} _ thread_ok
          ∙ assert-pass {b = l.lock == 1} _ lock_ok
          ∙ e1,
      level ∙ a.old,
      λ q. ap (λ (f : ℕ → SpinLock). f q) locks,
    )

-- KeInitializeSpinLock does not make a lock free: with a lock that the memory shows as taken,
-- KeAcquireSpinLock does not return behind it.
pub acquire_spin_lock-initialize_spin_lock :
    (p : ℕ) (s : Processor) (r : ℕ × Processor)
    → (s.spin_lock p).lock ≢ 0
    → acquire_spin_lock p (initialize_spin_lock p s) ≢ ok r
unfolding initialize_spin_lock
acquire_spin_lock-initialize_spin_lock p s r taken e = taken (acquire_spin_lock-guards p s e).2
