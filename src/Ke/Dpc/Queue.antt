-- ===== src/Ke/Dpc/Queue.antt =====
-- The queue as its callers see it.
use kaush_os.Base.{
  ℕ, ◌≡◌, ◌≢◌, refl, sym, ap, ◌∙◌, subst, Bool, true, false, not, [], ◌∷◌, ◌++◌, arith, ◌==◌, ltb,
  if◌then◌else◌, Bool-cases, inl, inr, ◌∈◌, ◌∉◌, has, has-append, Distinct, Distinct-snoc,
  Distinct-erase, erase, not-mem-erase, has-erase_ne, not-mem-erase_self, eqb→eq,
}
use kaush_os.Base.Outcome.{ok, assert_then, ok-injective}
use kaush_os.Ke.Dpc.{
  Dpc, Dpcs, set_dpc, set_dpc_list, is_dpc, is_high, is_queued, enqueue, insert_queue_dpc,
  remove_queue_dpc,
}

-- A DPC stands in a queue once, it is linked, and the queue is that of its processor.
pub record QueuesOk (s : Dpcs) : Type 0 where
  pub is_linked : (n p : ℕ) → p ∈ s.dpc_list n → (s.dpc p).linked ≡ true
  pub in_place : (n p : ℕ) → p ∈ s.dpc_list n → (s.dpc p).number ≡ n
  pub distinct : (n : ℕ) → Distinct (s.dpc_list n)

is_queued-has :
    (p : ℕ) (s : Dpcs) → QueuesOk s → is_queued p s ≡ has p (s.dpc_list (s.dpc p).number)
unfolding is_queued
is_queued-has p s k = elim (Bool-cases (s.dpc p).linked) [
  | inl l ↦ rw l
  | inr l ↦ elim (Bool-cases (has p (s.dpc_list (s.dpc p).number))) [
    | inl m ↦ absurd (ground (arith, l, k.is_linked (s.dpc p).number p m))
    | inr m ↦ rw (l, m)
  ]
]

QueuesOk-arguments :
    (p a b : ℕ) (s : Dpcs)
    → QueuesOk s
    → QueuesOk (set_dpc p (record (s.dpc p) { system_argument1 = a; system_argument2 = b }) s)
QueuesOk-arguments p a b s k = record {
  is_linked = λ n q m. ground (arith, k.is_linked n q m, eqb→eq q p);
  in_place = λ n q m. elim (Bool-cases (q == p)) [
    | inl e ↦ rw e (subst (λ x. (s.dpc x).number ≡ n) (eqb→eq q p e) (k.in_place n q m))
    | inr e ↦ rw e (k.in_place n q m)
  ];
  distinct = k.distinct;
}

QueuesOk-enqueue :
    (p : ℕ) (s : Dpcs) → QueuesOk s → p ∉ s.dpc_list (s.dpc p).number → QueuesOk (enqueue p s)
unfolding enqueue
QueuesOk-enqueue p s k new =
    let l = s.dpc_list (s.dpc p).number in
    elim (Bool-cases (is_high (s.dpc p).importance)) [
      | inl hi ↦ rw hi (record {
        is_linked = λ n q m. ground (arith, k.is_linked n q, m);
        in_place = λ n q m. ground (arith, k.in_place n q, m, eqb→eq q p);
        distinct = λ n. ground (arith, k.distinct n, k.distinct (s.dpc p).number, new);
      })
      | inr lo ↦ rw lo (record {
        is_linked = λ n q m. ground (arith, k.is_linked n q, m, has-append q l (p ∷ []));
        in_place = λ n q m. ground (arith, k.in_place n q, m, eqb→eq q p, has-append q l (p ∷ []));
        distinct =
            λ n. ground (arith, k.distinct n, Distinct-snoc l p (k.distinct (s.dpc p).number) new);
      })
    ]

-- What a call of KeInsertQueueDpc did.
pub record InsertResult (p : ℕ) (s : Dpcs) (r : Bool) (s' : Dpcs) : Type 0 where
  pub queues : QueuesOk s'
  pub answer : r ≡ not (has p (s.dpc_list (s.dpc p).number))
  pub becomes : s'.dpc_list (s.dpc p).number ≡ (
      if has p (s.dpc_list (s.dpc p).number)
      then s.dpc_list (s.dpc p).number
      else if is_high (s.dpc p).importance
      then p ∷ s.dpc_list (s.dpc p).number
      else s.dpc_list (s.dpc p).number ++ p ∷ [])
  pub others : (n : ℕ) → n ≢ (s.dpc p).number → s'.dpc_list n ≡ s.dpc_list n

enqueue-dpc_list :
    (p n : ℕ) (s : Dpcs)
    → (enqueue p s).dpc_list n ≡ (
        if n == (s.dpc p).number
        then (if is_high (s.dpc p).importance
            then p ∷ s.dpc_list (s.dpc p).number
            else s.dpc_list (s.dpc p).number ++ p ∷ [])
        else s.dpc_list n)
unfolding enqueue
enqueue-dpc_list p n s = elim (Bool-cases (is_high (s.dpc p).importance)) [
  | inl h ↦ rw h
  | inr h ↦ rw h
]

-- KeInsertQueueDpc that returns keeps the queues in order. It says whether the DPC is new to the
-- queue of its processor. A DPC that is there already stays where it is; a new one of high
-- importance goes to the front and any other to the end. No other queue changes.
pub insert_queue_dpc-InsertResult :
    (p argument1 argument2 : ℕ) (s : Dpcs) (r : Bool) (s' : Dpcs)
    → QueuesOk s
    → insert_queue_dpc p argument1 argument2 s ≡ ok (r, s')
    → InsertResult p s r s'
unfolding insert_queue_dpc
insert_queue_dpc-InsertResult p a b s r s' k e =
    let s1 = set_dpc p (record (s.dpc p) { system_argument1 = a; system_argument2 = b }) s in
    let k1 = QueuesOk-arguments p a b s k in
    let (_, e1) = assert_then (is_dpc (s.dpc p)) _ e in
    let (_, e2) = assert_then (ltb 2 s.current_irql) _ e1 in
    let at_p : s1.dpc p ≡ record (s.dpc p) { system_argument1 = a; system_argument2 = b } =
      ground arith in
    let number : (s1.dpc p).number ≡ (s.dpc p).number = ap (λ (x : Dpc). x.number) at_p in
    let importance : is_high (s1.dpc p).importance ≡ is_high (s.dpc p).importance =
      ap (λ (x : Dpc). is_high x.importance) at_p in
    let asked : is_queued p s1 ≡ has p (s.dpc_list (s.dpc p).number) =
      is_queued-has p s1 k1 ∙ ap (λ (n : ℕ). has p (s.dpc_list n)) number in
    elim (Bool-cases (has p (s.dpc_list (s.dpc p).number))) [
      | inl there ↦
          let e3 : ◌≡◌ {A = Bool × Dpcs} (false, s1) (r, s') =
            ok-injective (rw (asked ∙ there) at e2) in
          subst (λ (x : Bool × Dpcs). InsertResult p s x.0 x.1) e3
            (record {
              queues = k1;
              answer = ground (arith, there);
              becomes = rw there;
              others = λ n ne. refl;
            })
      | inr absent ↦
          let e3 : ◌≡◌ {A = Bool × Dpcs} (true, enqueue p s1) (r, s') =
            ok-injective (rw (asked ∙ absent) at e2) in
          subst (λ (x : Bool × Dpcs). InsertResult p s x.0 x.1) e3
            (record {
              queues =
                  QueuesOk-enqueue p s1 k1 (ap (λ (n : ℕ). has p (s.dpc_list n)) number ∙ absent);
              answer = ground (arith, absent);
              becomes =
                  enqueue-dpc_list p (s.dpc p).number s1
                  ∙ ground (arith, number, importance, absent);
              others = λ n ne. enqueue-dpc_list p n s1 ∙ ground (arith, number, ne);
            })
    ]

-- What a call of KeRemoveQueueDpc did.
pub record RemoveResult (p : ℕ) (s : Dpcs) (r : Bool) (s' : Dpcs) : Type 0 where
  pub queues : QueuesOk s'
  pub answer : r ≡ has p (s.dpc_list (s.dpc p).number)
  pub gone : (n : ℕ) → p ∉ s'.dpc_list n
  pub others : (n q : ℕ) → q ≢ p → has q (s'.dpc_list n) ≡ has q (s.dpc_list n)

-- KeRemoveQueueDpc that returns keeps the queues in order. It says whether the DPC stood in the
-- queue of its processor; after it the DPC stands in no queue, and all others stand where they did.
pub remove_queue_dpc-RemoveResult :
    (p : ℕ) (s : Dpcs) (r : Bool) (s' : Dpcs)
    → QueuesOk s
    → remove_queue_dpc p s ≡ ok (r, s')
    → RemoveResult p s r s'
unfolding remove_queue_dpc
remove_queue_dpc-RemoveResult p s r s' k e =
    let n = (s.dpc p).number in
    let l = s.dpc_list n in
    let (_, e1) = assert_then (is_dpc (s.dpc p)) _ e in
    let (_, e2) = assert_then (s.current_irql == 2) _ e1 in
    let elsewhere : (m : ℕ) → m ≢ n → p ∉ s.dpc_list m = λ m ne.
      elim (Bool-cases (has p (s.dpc_list m))) [
        | inl i ↦ absurd (ne (sym (k.in_place m p i)))
        | inr i ↦ i
      ] in
    elim (Bool-cases (has p l)) [
      | inl there ↦
          let e3 : ◌≡◌ {A = Bool × Dpcs} (true, set_dpc_list n (erase p l) s) (r, s') =
            ok-injective (rw (is_queued-has p s k ∙ there) at e2) in
          let kept : (m q : ℕ) → q ∈ (set_dpc_list n (erase p l) s).dpc_list m → q ∈ s.dpc_list m =
            λ m q i. elim (Bool-cases (has q (s.dpc_list m))) [
              | inl j ↦ j
              | inr j ↦ absurd (ground (arith, i, j, not-mem-erase q p l))
            ] in
          subst (λ (x : Bool × Dpcs). RemoveResult p s x.0 x.1) e3
            (record {
              queues = record {
                is_linked = λ m q i. k.is_linked m q (kept m q i);
                in_place = λ m q i. k.in_place m q (kept m q i);
                distinct = λ m. ground (arith, k.distinct m, Distinct-erase p l (k.distinct n));
              };
              answer = sym there;
              gone = λ m. ground (arith, elsewhere m, not-mem-erase_self p l (k.distinct n));
              others = λ m q ne. ground (arith, ne, has-erase_ne q p l);
            })
      | inr absent ↦
          let e3 : ◌≡◌ {A = Bool × Dpcs} (false, s) (r, s') =
            ok-injective (rw (is_queued-has p s k ∙ absent) at e2) in
          subst (λ (x : Bool × Dpcs). RemoveResult p s x.0 x.1) e3
            (record {
              queues = k;
              answer = sym absent;
              gone = λ m. elim (Bool-cases (m == n)) [
                | inl i ↦ subst (λ x. p ∉ s.dpc_list x) (sym (eqb→eq m n i)) absent
                | inr i ↦ elsewhere m (ground (arith, i))
              ];
              others = λ m q ne. refl;
            })
    ]
