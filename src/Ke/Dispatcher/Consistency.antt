-- ===== src/Ke/Dispatcher/Consistency.antt =====
-- The invariant between the states of the threads and the ready queues, and what keeps it.
use kaush_os.Base.{
  ℕ, ◌≡◌, refl, sym, ap, ◌∙◌, subst, Bool, true, false, [], ◌∷◌, ◌++◌, arith, ◌==◌, Bool-cases, inl,
  inr, ◌∈◌, ◌∉◌, has, Distinct, has-append, Distinct-snoc, eqb→eq,
}
use kaush_os.Ke.Dispatcher.{
  Dispatcher, Thread, ThreadState, is_state, ready, running, set_list, set_thread,
}
use kaush_os.Ke.Dispatcher.Select.{Selected}

abbrev pub has_state : Dispatcher → ℕ → ThreadState → Bool
has_state d t s = is_state (d.threads t).state s

-- A thread that is ready and not `held` stands in the queue of its priority, once, and nothing else
-- stands in a queue; nobody but the current thread runs.
pub record Consistent (held : ℕ → Bool) (d : Dispatcher) : Type 0 where
  pub is_ready : (p t : ℕ) → t ∈ d.scheduler_list p → has_state d t ready ≡ true
  pub in_place : (p t : ℕ) → t ∈ d.scheduler_list p → (d.threads t).priority ≡ p
  pub not_held : (p t : ℕ) → t ∈ d.scheduler_list p → held t ≡ false
  pub listed :
      (t : ℕ)
      → has_state d t ready ≡ true
      → held t ≡ false
      → t ∈ d.scheduler_list (d.threads t).priority
  pub distinct : (p : ℕ) → Distinct (d.scheduler_list p)
  pub runs : (t : ℕ) → has_state d t running ≡ true → t ≡ d.current_thread

abbrev pub nobody : ℕ → Bool
nobody t = false

abbrev pub only : ℕ → ℕ → Bool
only n t = t == n

set_thread-state :
    (u : ℕ) (v : Thread) (d : Dispatcher)
    → v.state ≡ (d.threads u).state
    → (t : ℕ) → ((set_thread u v d).threads t).state ≡ (d.threads t).state
set_thread-state u v d h t = elim (Bool-cases (t == u)) [
  | inl e ↦ rw (e, h, eqb→eq t u e)
  | inr e ↦ rw e
]

set_thread-priority :
    (u : ℕ) (v : Thread) (d : Dispatcher)
    → v.priority ≡ (d.threads u).priority
    → (t : ℕ) → ((set_thread u v d).threads t).priority ≡ (d.threads t).priority
set_thread-priority u v d h t = elim (Bool-cases (t == u)) [
  | inl e ↦ rw (e, h, eqb→eq t u e)
  | inr e ↦ rw e
]

module _ (held : ℕ → Bool) (d : Dispatcher) (c : Consistent held d) where
  -- A thread keeps its state and priority.
  pub Consistent-same :
      (u : ℕ) (v : Thread)
      → v.state ≡ (d.threads u).state
      → v.priority ≡ (d.threads u).priority
      → Consistent held (set_thread u v d)
  Consistent-same u v hs hp = record {
    is_ready = λ p t m. ap (λ s. is_state s ready) (set_thread-state u v d hs t) ∙ c.is_ready p t m;
    in_place = λ p t m. set_thread-priority u v d hp t ∙ c.in_place p t m;
    not_held = c.not_held;
    listed = λ t r h.
        subst (λ q. t ∈ d.scheduler_list q) (sym (set_thread-priority u v d hp t))
          (c.listed t (ap (λ s. is_state s ready) (sym (set_thread-state u v d hs t)) ∙ r) h);
    distinct = c.distinct;
    runs = λ t r. c.runs t (ap (λ s. is_state s running) (sym (set_thread-state u v d hs t)) ∙ r);
  }

  not_queued : (u p : ℕ) → has_state d u ready ≡ false → u ∉ d.scheduler_list p
  not_queued u p was = elim (Bool-cases (has u (d.scheduler_list p))) [
    | inl m ↦ absurd (ground (arith, was, c.is_ready p u m))
    | inr m ↦ m
  ]

  -- A thread that was not ready stops.
  pub Consistent-stop :
      (u : ℕ) (v : Thread)
      → has_state d u ready ≡ false
      → is_state v.state ready ≡ false
      → is_state v.state running ≡ false
      → Consistent held (set_thread u v d)
  Consistent-stop u v was r s = record {
    is_ready = λ p t m. ground (arith, c.is_ready p t m, not_queued u p was, eqb→eq t u);
    in_place = λ p t m. ground (arith, c.in_place p t m, not_queued u p was, eqb→eq t u);
    not_held = c.not_held;
    listed = λ t q h. elim (Bool-cases (t == u)) [
      | inl e ↦ absurd (ground (arith, rw e at q))
      | inr e ↦ rw e (c.listed t (rw e at q) h)
    ];
    distinct = c.distinct;
    runs = λ t r. ground (arith, c.runs t);
  }

  -- A thread that was not ready is appended to the queue of its priority.
  pub Consistent-append :
      (u : ℕ) (v : Thread)
      → has_state d u ready ≡ false
      → held u ≡ false
      → is_state v.state ready ≡ true
      → Consistent held
          (set_list v.priority (d.scheduler_list v.priority ++ u ∷ []) (set_thread u v d))
  Consistent-append u v was h r = record {
    is_ready = λ p t m.
        ground (arith, c.is_ready p t, has-append t (d.scheduler_list v.priority) (u ∷ []));
    in_place = λ p t m. ground (
      arith,
      c.in_place p t,
      c.is_ready p t,
      has-append t (d.scheduler_list v.priority) (u ∷ []),
    );
    not_held = λ p t m.
        ground (arith, c.not_held p t, has-append t (d.scheduler_list v.priority) (u ∷ []));
    listed =
        λ t r h. ground (arith, c.listed t, has-append t (d.scheduler_list v.priority) (u ∷ []));
    distinct = λ p. ground (
      arith,
      c.distinct p,
      not_queued u v.priority was,
      Distinct-snoc (d.scheduler_list v.priority) u (c.distinct v.priority),
    );
    runs = λ t q. elim (Bool-cases (t == u)) [
      | inl e ↦ absurd (ground (arith, rw e at q))
      | inr e ↦ c.runs t (rw e at q)
    ];
  }

-- The thread that KiSelectNextThread gives back is ready, and held by its caller.
pub Consistent-select :
    {c top n : ℕ} {d d' : Dispatcher}
    → Consistent nobody d
    → (s : Selected c top n d d')
    → Consistent (only n) d' × (has_state d n ready ≡ true) × ((d.threads n).priority ≡ s.level)
Consistent-select {c} {top} {n} {d} {d'} k s =
    let head : n ∈ d.scheduler_list s.level = subst (λ l. n ∈ l) (sym s.was) (ground arith) in
    let apart : Distinct (n ∷ s.rest) = subst Distinct s.was (k.distinct s.level) in
    let tail : (t : ℕ) → t ∈ s.rest → t ∈ d.scheduler_list s.level =
      λ t m. subst (λ l. t ∈ l) (sym s.was) (ground arith) in
    let back : (t : ℕ) → t ∈ d.scheduler_list s.level → (t == n) ≡ false → t ∈ s.rest =
      λ t m e. ground (arith, subst (λ l. t ∈ l) s.was m) in
    (
      subst (Consistent (only n)) (sym s.becomes) (record {
        is_ready = λ p t m. ground (arith, k.is_ready p t, tail t, k.is_ready s.level t);
        in_place = λ p t m. ground (arith, k.in_place p t, tail t, k.in_place s.level t);
        not_held = λ p t m. elim (Bool-cases (t == n)) [
          | inl e ↦
              let at_n =
                subst (λ x. x ∈ (set_list s.level s.rest d).scheduler_list p) (eqb→eq t n e) m in
              absurd (ground (arith, at_n, apart.0, k.in_place p n, k.in_place s.level n head))
          | inr e ↦ e
        ];
        listed = λ t q h. ground (arith, k.listed t q refl, back t, k.in_place s.level t);
        distinct = λ p. ground (arith, apart, k.distinct p);
        runs = k.runs;
      }),
      k.is_ready s.level n head,
      k.in_place s.level n head,
    )

-- The held thread becomes the current one in place of a thread that does not run.
pub Consistent-swap :
    (n : ℕ) (v : Thread) (d : Dispatcher)
    → Consistent (only n) d
    → has_state d d.current_thread running ≡ false
    → has_state d n ready ≡ true
    → v.state ≡ running
    → Consistent nobody (record (set_thread n v d) { current_thread = n })
Consistent-swap n v d k stopped r run = record {
  is_ready = λ p t m. ground (arith, k.is_ready p t m, k.not_held p t m);
  in_place = λ p t m. ground (arith, k.in_place p t m, k.not_held p t m);
  not_held = λ p t m. refl;
  listed = λ t q h. elim (Bool-cases (t == n)) [
    | inl e ↦ absurd (ground (arith, run, rw e at q))
    | inr e ↦ rw e (k.listed t (rw e at q) e)
  ];
  distinct = k.distinct;
  runs = λ t q. elim (Bool-cases (t == n)) [
    | inl e ↦ eqb→eq t n e
    | inr e ↦ absurd (ground (arith, stopped, k.runs t (rw e at q), rw e at q))
  ];
}
