-- ===== src/Ke/Dispatcher/Select.antt =====
-- What KiSelectNextThread takes out of the ready queues.
use kaush_os.Base.{
  ℕ, zero, suc, ◌≤◌, ◌<◌, ◌≡◌, sym, ap, ◌∙◌, subst, List, [], ◌∷◌, Option, none, some, arith, ◌==◌,
  ltb, Bool-cases, List-cases, inl, inr, ◌⊎◌, Option-cases, ltb→lt, ltb_false→le,
}
use kaush_os.Base.Outcome.{Outcome, ok, ◌>>=◌, >>=-eq-ok}
use kaush_os.Ke.Dispatcher.{Dispatcher, set_list, select_from, select_next_thread, priority_max}

-- The queues from priority `c` up to `top` are empty.
abbrev pub NoneReady : ℕ → ℕ → Dispatcher → Type 0
NoneReady c top d = (q : ℕ) → c ≤ q → q ≤ top → d.scheduler_list q ≡ []

-- Thread `n` was the head of the highest queue with a thread, and only that queue loses it.
pub record Selected (c top n : ℕ) (d d' : Dispatcher) : Type 0 where
  pub level : ℕ
  pub rest : List ℕ
  pub was : d.scheduler_list level ≡ n ∷ rest
  pub becomes : d' ≡ set_list level rest d
  pub enough : c ≤ level
  pub within : level ≤ top
  pub above : NoneReady (suc level) top d

widen :
    {c p : ℕ} (d : Dispatcher)
    → d.scheduler_list (suc p) ≡ []
    → NoneReady c p d
    → NoneReady c (suc p) d
widen {c} {p} d empty none_ready q lo hi = elim (Bool-cases (q == suc p)) [
  | inl e ↦ ap d.scheduler_list (ground arith) ∙ empty
  | inr e ↦ none_ready q lo (ground arith)
]

pub select_from-Selected :
    (c p n : ℕ) (d d' : Dispatcher) → select_from c p d ≡ (some n, d') → Selected c p n d d'
unfolding select_from
select_from-Selected c zero n d d' e = ground arith
select_from-Selected c (suc p) n d d' e = elim (Bool-cases (ltb (suc p) c)) [
  | inl low ↦ ground (arith, low)
  | inr high ↦ elim (List-cases (d.scheduler_list (suc p))) [
    | inl empty ↦
        let s = select_from-Selected c p n d d' (rw (high, empty) at e) in
        record {
          level = s.level;
          rest = s.rest;
          was = s.was;
          becomes = s.becomes;
          enough = s.enough;
          within = omega (arith, s.within);
          above = widen d empty s.above;
        }
    | inr (t, ts, queue) ↦
        let e' : ◌≡◌ {A = Option ℕ × Dispatcher} (some t, set_list (suc p) ts d) (some n, d') =
          rw (high, queue) at e in
        record {
          level = suc p;
          rest = ts;
          was = queue ∙ ap (λ t. t ∷ ts) (cc);
          becomes = sym (ap (λ r. r.1) e');
          enough = ltb_false→le (suc p) c high;
          within = omega arith;
          above = λ q lo hi. absurd (omega arith);
        }
  ]
]

pub select_from-NoneReady :
    (c p : ℕ) (d d' : Dispatcher)
    → 0 < c
    → select_from c p d ≡ (none, d')
    → (d' ≡ d) × NoneReady c p d
unfolding select_from
select_from-NoneReady c zero d d' h e = (sym (ap (λ r. r.1) e), λ q lo hi. absurd (omega arith))
select_from-NoneReady c (suc p) d d' h e = elim (Bool-cases (ltb (suc p) c)) [
  | inl low ↦
      let e' : ◌≡◌ {A = Option ℕ × Dispatcher} (none, d) (none, d') = rw low at e in
      (sym (ap (λ r. r.1) e'), λ q lo hi. absurd (omega (arith, ltb→lt (suc p) c low)))
  | inr high ↦ elim (List-cases (d.scheduler_list (suc p))) [
    | inl empty ↦
        let (same, none_ready) = select_from-NoneReady c p d d' h (rw (high, empty) at e) in
        (same, widen d empty none_ready)
    | inr (t, ts, queue) ↦
        let e' : ◌≡◌ {A = Option ℕ × Dispatcher} (some t, set_list (suc p) ts d) (none, d') =
          rw (high, queue) at e in
        absurd (cc)
  ]
]

select_next_thread-inv :
    (c : ℕ) (d : Dispatcher) (r : Option ℕ × Dispatcher)
    → select_next_thread c d ≡ ok r
    → (0 < c) × (select_from c priority_max d ≡ r)
unfolding select_next_thread
select_next_thread-inv c d r e = ground arith

-- What the three callers of KiSelectNextThread do: `f` on a thread, `m` where there is none.
abbrev pub with_next :
    (Dispatcher → Outcome Dispatcher)
    → (ℕ → Dispatcher → Outcome Dispatcher)
    → Option ℕ × Dispatcher
    → Outcome Dispatcher
with_next m f (next, d) = elim next [ none ↦ m d | some n ↦ f n d ]

pub with_next-cases :
    (c : ℕ) (d : Dispatcher) (m : Dispatcher → Outcome Dispatcher)
    (f : ℕ → Dispatcher → Outcome Dispatcher) {d' : Dispatcher}
    → (select_next_thread c d >>= with_next m f) ≡ ok d'
    → (NoneReady c priority_max d × (m d ≡ ok d'))
      ⊎ ((n : ℕ) × (d1 : Dispatcher) × Selected c priority_max n d d1 × (f n d1 ≡ ok d'))
with_next-cases c d m f {d'} e =
    let (r, e1, e2) = >>=-eq-ok (select_next_thread c d) (with_next m f) e in
    let (pos, e3) = select_next_thread-inv c d r e1 in
    elim (Option-cases r.0) [
      | inl miss ↦
          let (same, none_ready) =
            select_from-NoneReady c priority_max d r.1 pos
              (e3 ∙ ap (λ (o : Option ℕ). (o, r.1)) miss) in
          inl (
            none_ready,
            subst (λ x. m x ≡ ok d') same
                (ap (λ (o : Option ℕ). with_next m f (o, r.1)) (sym miss) ∙ e2),
          )
      | inr (n, hit) ↦ inr (
        n,
        r.1,
        select_from-Selected c priority_max n d r.1 (e3 ∙ ap (λ (o : Option ℕ). (o, r.1)) hit),
        ap (λ (o : Option ℕ). with_next m f (o, r.1)) (sym hit) ∙ e2,
      )
    ]
