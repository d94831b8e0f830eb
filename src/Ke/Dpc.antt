-- ===== src/Ke/Dpc.antt =====
-- KaushOS/kern/ke/dpc.c: the queues of deferred procedure calls, one for each processor. The lock of
-- the processor (KiLockProcessorRaisetoHighLevel) is taken and given back inside each operation. A
-- queue is the list of its DPCs in order; `linked` says that a DPC's le_next is not NULL, which stays
-- so when the DPC leaves its queue. The deferred routine of a DPC is an argument of what calls it.
pub mod Queue
pub mod Process
mod Examples
use kaush_os.Base.{
  ℕ, zero, suc, ◌+◌, Bool, true, false, not, ◌&&◌, ◌||◌, List, [], ◌∷◌, ◌++◌, ◌==◌, ltb, leb,
  if◌then◌else◌, has, erase,
}
use kaush_os.Base.Outcome.{Outcome, ok, bug_check, spin, assert, ◌>>=◌, ◌>>◌}

abbrev dispatch_level : ℕ
dispatch_level = 2

abbrev high_level : ℕ
high_level = 31

-- KDPC_IMPORTANCE.
pub data Importance : Type 0 where
  low medium high medium_high : Importance

-- DpcObject and ThreadedDpcObject.
abbrev pub dpc_object : ℕ
dpc_object = 19

abbrev pub threaded_dpc_object : ℕ
threaded_dpc_object = 24

-- KDPC.
pub record Dpc : Type 0 where
  pub object_type : ℕ
  pub importance : Importance
  pub number : ℕ
  pub system_argument1 : ℕ
  pub system_argument2 : ℕ
  pub linked : Bool

pub record Dpcs : Type 0 where
  pub current_irql : ℕ
  pub processor : ℕ
  pub dpc : ℕ → Dpc
  pub dpc_list : ℕ → List ℕ

abbrev pub set_dpc : ℕ → Dpc → Dpcs → Dpcs
set_dpc p v s = record s { dpc = λ q. if q == p then v else s.dpc q }

abbrev pub set_dpc_list : ℕ → List ℕ → Dpcs → Dpcs
set_dpc_list n l s = record s { dpc_list = λ m. if m == n then l else s.dpc_list m }

-- ASSERT_DPC.
abbrev pub is_dpc : Dpc → Bool
is_dpc v = v.object_type == 0 || v.object_type == dpc_object || v.object_type == threaded_dpc_object

-- KeSetImportanceDpc.
pub set_importance_dpc : ℕ → Importance → Dpcs → Outcome Dpcs
set_importance_dpc p importance s = do
  assert (is_dpc (s.dpc p))
  ok (set_dpc p (record (s.dpc p) { importance = importance }) s)

-- KeSetTargetProcessorDpc.
pub set_target_processor_dpc : ℕ → ℕ → Dpcs → Outcome Dpcs
set_target_processor_dpc p number s = do
  assert (is_dpc (s.dpc p))
  ok (set_dpc p (record (s.dpc p) { number = number }) s)

-- KeInitializeDpc clears the size of a pointer, which the link and the arguments lie behind.
pub initialize_dpc : ℕ → Dpcs → Dpcs
initialize_dpc p s =
    set_dpc p
      (record (s.dpc p) { object_type = dpc_object; importance = low; number = s.processor }) s

abbrev pub is_high : Importance → Bool
is_high high = true
is_high i = false

-- The insertion into the queue, which links the DPC.
pub enqueue : ℕ → Dpcs → Dpcs
enqueue p s =
    let v = s.dpc p in
    let s1 = set_dpc p (record v { linked = true }) s in
    if is_high v.importance
    then set_dpc_list v.number (p ∷ s.dpc_list v.number) s1
    else set_dpc_list v.number (s.dpc_list v.number ++ p ∷ []) s1

-- Whether the DPC stands in its queue, which is searched if the DPC is linked.
pub is_queued : ℕ → Dpcs → Bool
is_queued p s = if (s.dpc p).linked then has p (s.dpc_list (s.dpc p).number) else false

-- KeInsertQueueDpc.
pub insert_queue_dpc : ℕ → ℕ → ℕ → Dpcs → Outcome (Bool × Dpcs)
insert_queue_dpc p argument1 argument2 s = do
  assert (is_dpc (s.dpc p))
  assert (ltb dispatch_level s.current_irql)
  let s1 =
      set_dpc p (record (s.dpc p) { system_argument1 = argument1; system_argument2 = argument2 }) s
  ok (if is_queued p s1 then (false, s1) else (true, enqueue p s1))

-- KeRemoveQueueDpc.
pub remove_queue_dpc : ℕ → Dpcs → Outcome (Bool × Dpcs)
remove_queue_dpc p s = do
  assert (is_dpc (s.dpc p))
  assert (s.current_irql == dispatch_level)
  let n = (s.dpc p).number
  ok (if is_queued p s then (true, set_dpc_list n (erase p (s.dpc_list n)) s) else (false, s))

-- The first DPC leaves the queue: KiLockProcessorRaisetoHighLevel, LIST_REMOVE_HEAD,
-- KiUnLockProcessorFromHighLevel, and their assertions and those of the loop. From an IRQL below
-- DISPATCH_LEVEL, KeLowerIrql would take the rest of the queue on its way; the last assertion fails
-- then, so that this is not modelled.
pub remove_head : List ℕ → Dpcs → Outcome Dpcs
remove_head ps s = do
  let old_irql = s.current_irql
  assert (leb s.current_irql high_level)
  let raised = record s { current_irql = high_level }
  assert (raised.current_irql == high_level)
  let removed = set_dpc_list raised.processor ps raised
  assert (removed.current_irql == high_level)
  let lowered = record removed { current_irql = old_irql }
  assert (lowered.current_irql == dispatch_level)
  ok lowered

-- The loop of KiProcessDpcQueue, on fuel: the DPCs whose routine was called, and the new state.
-- Without fuel left the loop has not ended.
pub process_from : (ℕ → Dpcs → Outcome Dpcs) → ℕ → Dpcs → Outcome (List ℕ × Dpcs)
process_from routine zero s = spin
process_from routine (suc k) s = elim (s.dpc_list s.processor) [
  | [] ↦ ok ([], s)
  | p ∷ ps ↦ do
    s1 ← remove_head ps s
    s2 ← routine p s1
    (called, s3) ← process_from routine k s2
    ok (p ∷ called, s3)
]

-- KiProcessDpcQueue.
pub process_dpc_queue : (ℕ → Dpcs → Outcome Dpcs) → ℕ → Dpcs → Outcome (List ℕ × Dpcs)
process_dpc_queue routine k s = do
  assert (s.current_irql == dispatch_level)
  process_from routine k s
