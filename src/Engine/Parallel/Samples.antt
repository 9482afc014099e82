-- ===== src/Engine/Parallel/Samples.antt =====
-- A batch of two items and one worker that goes through them, and the theorem at it.
use jobflow_project.Common.{
  List, Map, Text, [], arith, insert, none, refl, suc, text, zero, ℕ, ◌+◌, ◌<◌, ◌∷◌, ◌≡◌, ◌≤◌, ◌⊎◌,
}
use jobflow_project.Domain.{TaskRun, TaskStatus}
use mathlib.Core.List.{Perm}
use jobflow_project.Engine.Parallel.{
  Item, BatchState, start_batch, WorkerStep, take_item, return_idle, finish_item, BatchRun,
  batch_start, batch_step,
}
use jobflow_project.Engine.Parallel.Once.{run_batch-once}

abbrev item_named : Text → Item ℕ
item_named id = (
  record {
    id = id;
    name = id;
    handler = text "h";
    timeout_ms = 5;
    optional = none;
    depends_on = none;
  },
  record {
    id = id;
    run_id = text "r";
    definition_task_id = id;
    handler = text "h";
    status = TaskStatus.queued;
    attempt = 0;
    started_at = none;
    finished_at = none;
    output = none;
    error_message = none;
  },
)

abbrev a_item : Item ℕ
a_item = item_named (text "a")

abbrev b_item : Item ℕ
b_item = item_named (text "b")

abbrev pair_batch : List (Item ℕ)
pair_batch = a_item ∷ b_item ∷ []

abbrev results : ℕ → Map (TaskRun ℕ)
results zero = []
results (suc zero) = insert a_item.0.id a_item.1 []
results (suc (suc n)) = insert b_item.0.id b_item.1 (insert a_item.0.id a_item.1 [])

abbrev state : ℕ → ℕ → ℕ → List (Item ℕ) → ℕ → BatchState ℕ
state index n idle busy returned = record {
  index = index;
  updated = results n;
  idle = idle;
  busy = busy;
  returned = returned;
}

-- The items are run in their order.
run_through : BatchRun 1 pair_batch [] (b_item ∷ a_item ∷ []) (state 2 2 0 [] 1)
unfolding start_batch
run_through =
    batch_step _ (state 2 2 1 [] 0) _
      (batch_step _ (state 2 1 0 (b_item ∷ []) 0) _
        (batch_step _ (state 1 1 1 [] 0) _
          (batch_step _ (state 1 0 0 (a_item ∷ []) 0) _
            (batch_step _ (state 0 0 1 [] 0) _ batch_start (take_item 0 [] 0 [] 0 a_item refl))
            (finish_item 1 [] 0 [] [] 0 a_item a_item.1))
          (take_item 1 (results 1) 0 [] 0 b_item refl))
        (finish_item 2 (results 1) 0 [] [] 0 b_item b_item.1))
      (return_idle 2 (results 2) 0 [] 0 (omega arith))

run_batch-once_example :
    (0 ≤ 1)
    × ((0 + 0 ≡ 0) ⊎ ((t : BatchState ℕ) × WorkerStep pair_batch (state 2 2 0 [] 1) t))
    × (0 + 0 ≡ 0 → 0 < 1 → Perm (b_item ∷ a_item ∷ []) pair_batch)
run_batch-once_example =
    run_batch-once 1 pair_batch [] (b_item ∷ a_item ∷ []) (state 2 2 0 [] 1) run_through
