-- ===== src/Ke/Dispatcher/Policy.antt =====
-- Which thread Schedule lets run, and that it does not stop the machine.
use kaush_os.Base.{
  ℕ, ◌≤◌, ◌<◌, ◌≡◌, ◌≢◌, refl, sym, ap, ◌∙◌, subst, true, [], arith, ◌==◌, ◌!=◌, Bool-cases, inl,
  inr, ◌∈◌, eqb→eq, leb,
}
use kaush_os.Base.Outcome.{ok, bug_check, ◌>>=◌, >>=-eq-ok, ok-injective, assert_then}
use kaush_os.Ke.Dispatcher.{
  Dispatcher, ready, running, terminated, ready_thread, swap_thread, select_next_thread,
  select_from, schedule, schedule_running, schedule_terminated, lock_dispatcher_database,
  priority_idle, priority_max, dispatch_level, standby_thread,
}
use kaush_os.Ke.Dispatcher.Select.{Selected, NoneReady, with_next-cases}
use kaush_os.Ke.Dispatcher.Consistency.{Consistent, nobody, has_state, Consistent-select}
use kaush_os.Ke.Dispatcher.Scheduling.{
  schedule_running-inv, schedule_terminated-inv, schedule-inv, take_over, leave, leave-inv, exited,
  scheduling, ready_thread-inv, swap_thread-inv, appended, resumed, Consistent-locked,
}

-- No thread that is ready has a higher priority than `p`.
abbrev pub Highest : ℕ → Dispatcher → Type 0
Highest p d =
    (t : ℕ)
    → has_state d t ready ≡ true
    → (d.threads t).priority ≤ priority_max
    → (d.threads t).priority ≤ p

queue_empty :
    {d : Dispatcher} (k : Consistent nobody d) (t : ℕ)
    → has_state d t ready ≡ true
    → d.scheduler_list (d.threads t).priority ≢ []
queue_empty {d} k t r empty = ground (arith, subst (λ l. t ∈ l) empty (k.listed t r refl))

Highest-none :
    {c : ℕ} {d : Dispatcher} → Consistent nobody d → NoneReady c priority_max d → Highest c d
Highest-none {c} {d} k none_ready t r hi = elim (Bool-cases (leb c (d.threads t).priority)) [
  | inl lo ↦ absurd (queue_empty k t r (none_ready (d.threads t).priority (ground arith) hi))
  | inr lo ↦ ground arith
]

Highest-Selected :
    {c n : ℕ} {d d1 : Dispatcher}
    → Consistent nobody d
    → (s : Selected c priority_max n d d1) → Highest s.level d
Highest-Selected {c} {n} {d} k s t r hi = elim (Bool-cases (leb (d.threads t).priority s.level)) [
  | inl lo ↦ ground arith
  | inr lo ↦ absurd (queue_empty k t r (s.above (d.threads t).priority (ground arith) hi))
]

Highest-resumed :
    (n p : ℕ) (d : Dispatcher)
    → (d.threads n).priority ≡ p
    → Highest p d
    → Highest ((resumed n d).threads n).priority (resumed n d)
Highest-resumed n p d e h t r hi = ground (arith, h t)

Highest-appended :
    (u p : ℕ) (d : Dispatcher) → (d.threads u).priority ≤ p → Highest p d → Highest p (appended u d)
Highest-appended u p d e h t r hi = ground (arith, h t, eqb→eq t u)

appended-priority :
    (u n : ℕ) (d : Dispatcher) → ((appended u d).threads n).priority ≡ (d.threads n).priority
appended-priority u n d = elim (Bool-cases (n == u)) [ inl e ↦ rw (e, eqb→eq n u e) | inr e ↦ rw e ]

Selected-priority :
    {c n : ℕ} {d d1 : Dispatcher}
    → Selected c priority_max n d d1
    → (t : ℕ) → (d1.threads t).priority ≡ (d.threads t).priority
Selected-priority s t = ap (λ (x : Dispatcher). (x.threads t).priority) s.becomes

schedule_running-Highest :
    (u : ℕ) {d d' : Dispatcher}
    → Consistent nobody d
    → schedule_running u d ≡ ok d'
    → d.current_thread ≡ u
    → Highest (d'.threads d'.current_thread).priority d'
schedule_running-Highest u {d} {d'} k e cur =
    elim (with_next-cases (d.threads u).priority d (λ d1. ok d1) (take_over u)
      (sym (schedule_running-inv u d) ∙ e)) [
        | inl (none_ready, same) ↦
            subst (λ x. Highest (x.threads x.current_thread).priority x) (ok-injective same)
              (subst (λ x. Highest (d.threads x).priority d) (sym cur) (Highest-none k none_ready))
        | inr (n, d1, s, e1) ↦
            let (ne, e2) =
              assert_then (u != n) (ready_thread u d1 >>= λ d2. swap_thread u n d2) e1 in
            let (d2, e3, e4) = >>=-eq-ok (ready_thread u d1) (λ d2. swap_thread u n d2) e2 in
            let (_, same1) = ready_thread-inv u d1 d2 e3 in
            let (_, _, _, same2) = swap_thread-inv u n d2 d' e4 in
            let (_, _, level) = Consistent-select k s in
            let chosen : (d2.threads n).priority ≡ s.level =
              ap (λ (x : Dispatcher). (x.threads n).priority) (sym same1)
              ∙ appended-priority u n d1
              ∙ Selected-priority s n
              ∙ level in
            let enough : (d1.threads u).priority ≤ s.level =
              subst (λ q. q ≤ s.level) (sym (Selected-priority s u)) s.enough in
            subst (λ x. Highest (x.threads x.current_thread).priority x) same2
              (Highest-resumed n s.level d2 chosen (
                subst (Highest s.level) same1 (
                  Highest-appended u s.level d1 enough
                    (subst (Highest s.level) (sym s.becomes) (Highest-Selected k s)))))
      ]

schedule_terminated-Highest :
    (u : ℕ) {d d' : Dispatcher}
    → Consistent nobody d
    → schedule_terminated u d ≡ ok d'
    → Highest (d'.threads d'.current_thread).priority d'
schedule_terminated-Highest u {d} {d'} k e =
    elim (with_next-cases priority_idle d (λ d1. bug_check) (leave u)
      (sym (schedule_terminated-inv u d) ∙ e)) [
        | inl (_, stop) ↦ absurd (ground (arith, stop))
        | inr (n, d1, s, e1) ↦
            let d2 = exited u d1 in
            let e2 = leave-inv u n d1 e1 in
            let (_, _, _, same) = swap_thread-inv u n d2 d' e2 in
            let (_, _, level) = Consistent-select k s in
            let high : Highest s.level d1 =
              subst (Highest s.level) (sym s.becomes) (Highest-Selected k s) in
            subst (λ x. Highest (x.threads x.current_thread).priority x) same
              (Highest-resumed n s.level d2 (Selected-priority s n ∙ level) high)
      ]

-- When Schedule returns from a consistent state, no thread that is ready at a priority up to
-- PROCESS_PRIORITY_MAX has a higher one than the thread that then is the current one.
pub schedule-Highest :
    {d d' : Dispatcher}
    → Consistent nobody d
    → schedule d ≡ ok d'
    → Highest (d'.threads d'.current_thread).priority d'
schedule-Highest {d} {d'} k e = elim (Bool-cases (has_state d d.current_thread terminated)) [
  | inl t ↦
      schedule_terminated-Highest d.current_thread (Consistent-locked k)
        (rw t at (schedule-inv d e))
  | inr t ↦
      schedule_running-Highest d.current_thread (Consistent-locked k) (rw t at (schedule-inv d e))
        refl
]

-- KiStandbyThread never returns: its test of the state fails in every state.
pub standby_thread-bug_check : (t : ℕ) (d d' : Dispatcher) → standby_thread t d ≢ ok d'
unfolding standby_thread
standby_thread-bug_check t d d' e = ground arith

pub ready_thread-returns :
    (u : ℕ) (d : Dispatcher)
    → d.current_irql ≡ dispatch_level
    → d.database_lock.lock ≡ 1
    → d.database_lock.thread ≡ d.current_thread
    → has_state d u running ≡ true
    → ready_thread u d ≡ ok (appended u d)
unfolding ready_thread
ready_thread-returns u d i l o r = ground (arith, i, l, o, r)

pub swap_thread-returns :
    (u n : ℕ) (d : Dispatcher)
    → d.current_irql ≡ dispatch_level
    → d.database_lock.lock ≡ 1
    → d.database_lock.thread ≡ d.current_thread
    → d.current_thread ≡ u
    → u ≢ 0
    → has_state d u ready ≡ true
    → has_state d n ready ≡ true
    → swap_thread u n d ≡ ok (resumed n d)
unfolding swap_thread
swap_thread-returns u n d i l o c ne ru rn = ground (arith, i, l, o, c, ne, ru, rn)

-- The locks and the current thread when Schedule runs to its end.
pub select_next_thread-returns :
    (c : ℕ) (d : Dispatcher)
    → d.current_irql ≡ dispatch_level
    → 0 < c
    → c ≤ priority_max
    → select_next_thread c d ≡ ok (select_from c priority_max d)
unfolding select_next_thread
select_next_thread-returns c d i lo hi = ground (arith, i)

pub schedule-locks :
    (d : Dispatcher)
    → d.current_irql ≤ dispatch_level
    → d.database_lock.lock ≡ 0
    → d.database_lock.thread ≡ 0
    → d.current_thread ≢ 0
    → has_state d d.current_thread running ≡ true
    → schedule d ≡ schedule_running d.current_thread (scheduling d)
unfolding schedule lock_dispatcher_database
schedule-locks d i l o ne r = ground (arith, i, l, o, ne, r)
