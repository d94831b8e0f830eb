-- ===== src/Ke/Dispatcher/Scheduling.antt =====
-- KiReadyThread, KiBlockThread and Schedule keep the invariant, and pick the right thread.
use kaush_os.Base.{
  ◌==◌, ℕ, ◌≡◌, refl, sym, ◌∙◌, subst, Bool, true, false, List, [], ◌∷◌, ◌++◌, arith, ◌!=◌,
  if◌then◌else◌, Bool-cases, inl, inr,
}
use kaush_os.Base.Outcome.{
  Outcome, ok, bug_check, assert, ◌>>=◌, ◌>>◌, >>=-eq-ok, ok-injective, assert_then,
}
use kaush_os.Ke.Dispatcher.{
  Dispatcher, Thread, ThreadState, ready, running, waiting, terminated, set_list, set_thread,
  ready_thread, swap_thread, select_next_thread, block_thread, schedule, schedule_running, SpinLock,
  free_lock, enter_exit_list, schedule_terminated, lock_dispatcher_database, priority_idle,
  dispatch_level,
}
use kaush_os.Ke.Dispatcher.Select.{with_next, with_next-cases}
use kaush_os.Ke.Dispatcher.Consistency.{
  Consistent, nobody, only, has_state, Consistent-same, Consistent-stop, Consistent-append,
  Consistent-select, Consistent-swap,
}

-- The thread as KiReadyThread leaves it.
abbrev pub readied : Thread → Thread
readied v = record v { state = ready; quantum = v.process_quantum }

abbrev pub appended : ℕ → Dispatcher → Dispatcher
appended u d =
    set_list (d.threads u).priority (d.scheduler_list (d.threads u).priority ++ u ∷ [])
      (set_thread u (readied (d.threads u)) d)

pub ready_thread-inv :
    (u : ℕ) (d d' : Dispatcher)
    → ready_thread u d ≡ ok d'
    → (has_state d u ready ≡ false) × (appended u d ≡ d')
unfolding ready_thread
ready_thread-inv u d d' e = ground arith

abbrev pub resumed : ℕ → Dispatcher → Dispatcher
resumed n d = record (set_thread n (record (d.threads n) { state = running }) d) {
  current_thread = n;
}

pub swap_thread-inv :
    (c n : ℕ) (d d' : Dispatcher)
    → swap_thread c n d ≡ ok d'
    → (d.current_thread ≡ c)
      × (has_state d c running ≡ false)
      × (has_state d n ready ≡ true)
      × (resumed n d ≡ d')
unfolding swap_thread
swap_thread-inv c n d d' e = ground arith

-- When KiReadyThread returns from a consistent state, the state is consistent again.
pub ready_thread-Consistent :
    (u : ℕ) {d d' : Dispatcher}
    → Consistent nobody d
    → ready_thread u d ≡ ok d'
    → Consistent nobody d'
ready_thread-Consistent u {d} {d'} k e =
    let (was, same) = ready_thread-inv u d d' e in
    subst (Consistent nobody) same
      (Consistent-append nobody d k u (readied (d.threads u)) was refl refl)

-- A thread that is held is swapped in for one that does not run.
swap_held-Consistent :
    (u n : ℕ) {d d' : Dispatcher}
    → Consistent (only n) d
    → swap_thread u n d ≡ ok d'
    → Consistent nobody d'
swap_held-Consistent u n {d} {d'} k e =
    let (current, stopped, r, same) = swap_thread-inv u n d d' e in
    subst (Consistent nobody) same (
      Consistent-swap n (record (d.threads n) { state = running }) d k
        (subst (λ t. has_state d t running ≡ false) (sym current) stopped) r refl)

abbrev pub with_state : ThreadState → Dispatcher → Dispatcher
with_state s d = set_thread d.current_thread (record (d.threads d.current_thread) { state = s }) d

pub block_thread-inv :
    (d : Dispatcher) {d' : Dispatcher}
    → block_thread d ≡ ok d'
    → (has_state d d.current_thread running ≡ true)
      × ((select_next_thread priority_idle (with_state waiting d)
            >>= with_next (λ d1. bug_check) (λ n d1. swap_thread d.current_thread n d1))
          ≡ ok d')
unfolding block_thread
block_thread-inv d e = ground arith

-- When KiBlockThread returns from a consistent state, the state is consistent again.
pub block_thread-Consistent :
    {d d' : Dispatcher} → Consistent nobody d → block_thread d ≡ ok d' → Consistent nobody d'
block_thread-Consistent {d} {d'} k e =
    let (run, e1) = block_thread-inv d e in
    let stopped =
      Consistent-stop nobody d k d.current_thread
        (record (d.threads d.current_thread) { state = waiting }) (ground (arith, run)) refl refl in
    elim (with_next-cases priority_idle (with_state waiting d) (λ d1. bug_check)
      (λ n d1. swap_thread d.current_thread n d1) e1) [
        | inl (_, stop) ↦ absurd (ground (arith, stop))
        | inr (n, d1, s, e2) ↦
            swap_held-Consistent d.current_thread n (Consistent-select stopped s).0 e2
      ]

abbrev pub take_over : ℕ → ℕ → Dispatcher → Outcome Dispatcher
take_over current n d1 =
    assert (current != n) >> (ready_thread current d1 >>= λ d2. swap_thread current n d2)

abbrev pub leave : ℕ → ℕ → Dispatcher → Outcome Dispatcher
leave current n d1 =
    assert (current != n) >> (enter_exit_list current d1 >>= λ d2. swap_thread current n d2)

-- The state behind the insertion into ExitThreadList.
abbrev pub exited : ℕ → Dispatcher → Dispatcher
exited current d = record d {
  exit_thread_list = d.exit_thread_list ++ current ∷ [];
  exit_thread_lock = free_lock;
}

enter_exit_list-inv :
    (current : ℕ) (d : Dispatcher) {d' : Dispatcher}
    → enter_exit_list current d ≡ ok d'
    → exited current d ≡ d'
unfolding enter_exit_list
enter_exit_list-inv current d e = elim (Bool-cases (d.exit_thread_lock.lock == 0)) [
  | inl free ↦ ground (arith, free)
  | inr taken ↦ ground (arith, taken)
]

pub leave-inv :
    (current n : ℕ) (d : Dispatcher) {d' : Dispatcher}
    → leave current n d ≡ ok d'
    → swap_thread current n (exited current d) ≡ ok d'
leave-inv current n d {d'} e =
    let (_, e1) =
      assert_then (current != n) (enter_exit_list current d >>= λ d2. swap_thread current n d2) e in
    let (d2, e2, e3) = >>=-eq-ok (enter_exit_list current d) (λ d2. swap_thread current n d2) e1 in
    subst (λ x. swap_thread current n x ≡ ok d') (sym (enter_exit_list-inv current d e2)) e3

pub schedule_running-inv :
    (u : ℕ) (d : Dispatcher)
    → schedule_running u d
      ≡ (select_next_thread (d.threads u).priority d >>= with_next (λ d1. ok d1) (take_over u))
unfolding schedule_running
schedule_running-inv u d = refl

pub schedule_terminated-inv :
    (u : ℕ) (d : Dispatcher)
    → schedule_terminated u d
      ≡ (select_next_thread priority_idle d >>= with_next (λ d1. bug_check) (leave u))
unfolding schedule_terminated
schedule_terminated-inv u d = refl

-- The state in which Schedule looks for the next thread.
abbrev pub locked : Dispatcher → Dispatcher
locked d = record d {
  current_irql = dispatch_level;
  database_lock = record { lock = 1; thread = d.current_thread; old_irql = d.current_irql };
}

abbrev pub scheduling : Dispatcher → Dispatcher
scheduling d =
    set_thread d.current_thread (record (d.threads d.current_thread) { wait_irql = d.current_irql })
      (locked d)

pub schedule-inv :
    (d : Dispatcher) {d' : Dispatcher}
    → schedule d ≡ ok d'
    → (if has_state d d.current_thread terminated
        then schedule_terminated d.current_thread (scheduling d)
        else schedule_running d.current_thread (scheduling d))
      ≡ ok d'
unfolding schedule lock_dispatcher_database
schedule-inv d e = elim (Bool-cases (has_state d d.current_thread terminated)) [
  | inl t ↦ ground (arith, t)
  | inr t ↦ ground (arith, t)
]

schedule_running-Consistent :
    (u : ℕ) {d d' : Dispatcher}
    → Consistent nobody d
    → schedule_running u d ≡ ok d'
    → Consistent nobody d'
schedule_running-Consistent u {d} {d'} k e =
    elim (with_next-cases (d.threads u).priority d (λ d1. ok d1) (take_over u)
      (sym (schedule_running-inv u d) ∙ e)) [
        | inl (_, same) ↦ subst (Consistent nobody) (ok-injective same) k
        | inr (n, d1, s, e1) ↦
            let (ne, e2) =
              assert_then (u != n) (ready_thread u d1 >>= λ d2. swap_thread u n d2) e1 in
            let (d2, e3, e4) = >>=-eq-ok (ready_thread u d1) (λ d2. swap_thread u n d2) e2 in
            let (was, same) = ready_thread-inv u d1 d2 e3 in
            swap_held-Consistent u n
              (subst (Consistent (only n)) same (
                Consistent-append (only n) d1 (Consistent-select k s).0 u (readied (d1.threads u))
                  was (ground arith) refl))
              e4
      ]

Consistent-exit :
    {held : ℕ → Bool} {d : Dispatcher} (l : List ℕ) (lock : SpinLock)
    → Consistent held d
    → Consistent held (record d { exit_thread_list = l; exit_thread_lock = lock })
Consistent-exit l lock k = record {
  is_ready = k.is_ready;
  in_place = k.in_place;
  not_held = k.not_held;
  listed = k.listed;
  distinct = k.distinct;
  runs = k.runs;
}

schedule_terminated-Consistent :
    (u : ℕ) {d d' : Dispatcher}
    → Consistent nobody d
    → schedule_terminated u d ≡ ok d'
    → Consistent nobody d'
schedule_terminated-Consistent u {d} {d'} k e =
    elim (with_next-cases priority_idle d (λ d1. bug_check) (leave u)
      (sym (schedule_terminated-inv u d) ∙ e)) [
        | inl (_, stop) ↦ absurd (ground (arith, stop))
        | inr (n, d1, s, e1) ↦
            swap_held-Consistent u n
              (Consistent-exit (d1.exit_thread_list ++ u ∷ []) free_lock (Consistent-select k s).0)
              (leave-inv u n d1 e1)
      ]

pub Consistent-locked : {d : Dispatcher} → Consistent nobody d → Consistent nobody (scheduling d)
Consistent-locked {d} k =
    let l : Consistent nobody (locked d) = record {
      is_ready = k.is_ready;
      in_place = k.in_place;
      not_held = k.not_held;
      listed = k.listed;
      distinct = k.distinct;
      runs = k.runs;
    } in
    Consistent-same nobody (locked d) l d.current_thread
      (record (d.threads d.current_thread) { wait_irql = d.current_irql }) refl refl

-- When Schedule returns from a consistent state, the state is consistent again, whether the current
-- thread goes on, gives way or is terminated: the ready queues hold the threads that are ready, each
-- once and in the queue of its priority, and no thread but the current one is running.
pub schedule-Consistent :
    {d d' : Dispatcher} → Consistent nobody d → schedule d ≡ ok d' → Consistent nobody d'
schedule-Consistent {d} {d'} k e = elim (Bool-cases (has_state d d.current_thread terminated)) [
  | inl t ↦
      schedule_terminated-Consistent d.current_thread (Consistent-locked k)
        (rw t at (schedule-inv d e))
  | inr t ↦
      schedule_running-Consistent d.current_thread (Consistent-locked k)
        (rw t at (schedule-inv d e))
]
