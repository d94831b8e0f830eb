-- ===== src/Ke/Dpc/Examples.antt =====
-- Processor 0 with DPC 8 in its queue.
use kaush_os.Base.{ℕ, ◌≡◌, refl, Bool, true, false, [], ◌∷◌, arith, ◌==◌, if◌then◌else◌}
use kaush_os.Base.Outcome.{Outcome, ok}
use kaush_os.Ke.Dpc.{Dpcs, low, high, insert_queue_dpc, is_queued, enqueue, process_dpc_queue}
use kaush_os.Ke.Dpc.Queue.{QueuesOk, InsertResult, insert_queue_dpc-InsertResult}
use kaush_os.Ke.Dpc.Process.{process_dpc_queue-calls}

-- DPC 16 is of high importance.
abbrev one : ℕ → Dpcs
one irql = record {
  current_irql = irql;
  processor = 0;
  dpc = λ p. record {
    object_type = 19;
    importance = if p == 16 then high else low;
    number = 0;
    system_argument1 = 0;
    system_argument2 = 0;
    linked = p == 8;
  };
  dpc_list = λ n. if n == 0 then 8 ∷ [] else [];
}

one-QueuesOk : (irql : ℕ) → QueuesOk (one irql)
one-QueuesOk irql = record {
  is_linked = λ n p m. ground arith;
  in_place = λ n p m. ground arith;
  distinct = λ n. ground arith;
}

abbrev result : ℕ → Outcome (Bool × Dpcs) → Bool × Dpcs
result irql (ok r) = r
result irql x = (false, one irql)

inserted :
    insert_queue_dpc 16 3 4 (one 31) ≡ ok (true, (result 31 (insert_queue_dpc 16 3 4 (one 31))).1)
unfolding insert_queue_dpc is_queued enqueue
inserted = refl

insert_queue_dpc-InsertResult_example :
    InsertResult 16 (one 31) true (result 31 (insert_queue_dpc 16 3 4 (one 31))).1
insert_queue_dpc-InsertResult_example =
    insert_queue_dpc-InsertResult 16 3 4 (one 31) true
      (result 31 (insert_queue_dpc 16 3 4 (one 31))).1 (one-QueuesOk 31) inserted

process_dpc_queue-calls_example :
    (s' : Dpcs) × (process_dpc_queue (λ p s. ok s) 2 (one 2) ≡ ok (8 ∷ [], s'))
    × (s'.dpc_list 0 ≡ [])
process_dpc_queue-calls_example =
    process_dpc_queue-calls (λ p s. ok s) 2 (one 2) (λ p s. (s, refl, refl, refl, refl)) refl
      (omega arith)
