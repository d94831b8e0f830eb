-- ===== src/Ke/Dpc/Process.antt =====
-- The loop that calls the routines of the queued DPCs.
use kaush_os.Base.{ℕ, zero, suc, ◌<◌, ◌≡◌, refl, sym, ap, ◌∙◌, List, [], ◌∷◌, arith, length}
use kaush_os.Base.Outcome.{Outcome, ok, >>=-ok}
use kaush_os.Ke.Dpc.{Dpcs, set_dpc_list, remove_head, process_from, process_dpc_queue}

-- A routine that returns at the IRQL at which it is called, and queues nothing.
abbrev pub Quiet : (ℕ → Dpcs → Outcome Dpcs) → Type 0
Quiet routine =
    (p : ℕ) (s : Dpcs)
    → (s' : Dpcs) × (routine p s ≡ ok s')
      × (s'.dpc_list s.processor ≡ s.dpc_list s.processor)
      × (s'.processor ≡ s.processor)
      × (s'.current_irql ≡ s.current_irql)

remove_head_lem :
    (ps : List ℕ) (s : Dpcs)
    → s.current_irql ≡ 2
    → remove_head ps s ≡ ok (set_dpc_list s.processor ps s)
unfolding remove_head
remove_head_lem ps s level = rw level refl

process_from-calls :
    (routine : ℕ → Dpcs → Outcome Dpcs) (k : ℕ) (s : Dpcs) (ps : List ℕ)
    → Quiet routine
    → s.current_irql ≡ 2
    → s.dpc_list s.processor ≡ ps
    → length ps < k
    → (s' : Dpcs) × (process_from routine k s ≡ ok (ps, s')) × (s'.dpc_list s.processor ≡ [])
unfolding process_from
process_from-calls routine zero s ps quiet level q h = absurd (omega (arith, h))
process_from-calls routine (suc k) s [] quiet level q h = (s, rw (q, process_from), q)
process_from-calls routine (suc k) s (p ∷ ps) quiet level q h =
    let t = set_dpc_list s.processor ps s in
    let (s1, e1, same, at, kept) = quiet p t in
    let rest : s1.dpc_list s1.processor ≡ ps = ap s1.dpc_list at ∙ same ∙ ground arith in
    let (s2, e2, empty) =
      process_from-calls routine k s1 ps quiet (kept ∙ level) rest (omega (arith, h)) in
    (
      s2,
      rw (q, process_from) (>>=-ok _ (remove_head_lem ps s level) ∙ >>=-ok _ e1 ∙ >>=-ok _ e2),
      ap s2.dpc_list (sym at) ∙ empty,
    )

-- At DISPATCH_LEVEL, with routines that return at the IRQL at which they are called and
-- queue nothing, KiProcessDpcQueue ends after as
-- many rounds as there are DPCs in the queue of its processor: it has called each of them once, in
-- the order of the queue, and the queue is empty.
pub process_dpc_queue-calls :
    (routine : ℕ → Dpcs → Outcome Dpcs) (k : ℕ) (s : Dpcs)
    → Quiet routine
    → s.current_irql ≡ 2
    → length (s.dpc_list s.processor) < k
    → (s' : Dpcs) × (process_dpc_queue routine k s ≡ ok (s.dpc_list s.processor, s'))
      × (s'.dpc_list s.processor ≡ [])
unfolding process_dpc_queue
process_dpc_queue-calls routine k s quiet level h =
    let (s', e, empty) =
      process_from-calls routine k s (s.dpc_list s.processor) quiet level refl h in
    (s', ground (arith, level, e), empty)
