-- ===== src/Engine/Parallel.antt =====
-- src/engine/parallel-executor.ts: the workers of `runBatch` as a step relation, in any order in which
-- their awaits may end. What the executor returns for a task is any result; where it throws, `runBatch`
-- throws, and no step is made.
pub mod Once
mod Samples
use jobflow_project.Common.{
  List, Map, Option, Text, [], find, get_elem?, insert, length, lookup, min, none, ok, some, suc,
  text_eq, ℕ, ◌++◌, ◌+◌, ◌∷◌, ◌≡◌, ◌≤◌,
}
use jobflow_project.Domain.{TaskDefinition, TaskRun}
use jobflow_project.Graph.Visit.{VisitError}
use jobflow_project.Engine.Planner.{DagPlan, plan}

-- `{ def, run }`.
abbrev pub Item : Type 0 → Type 0
Item D = TaskDefinition × TaskRun D

-- `index`, the map, and the workers: those at the head of their loop, at work, or returned.
pub record BatchState (D : Type 0) : Type 0 where
  pub index : ℕ
  pub updated : Map (TaskRun D)
  pub idle : ℕ
  pub busy : List (Item D)
  pub returned : ℕ

module _ {D : Type 0} where
  -- `Math.min(maxConcurrency, batch.length)` workers.
  unfoldable pub start_batch :
      (max_concurrency : ℕ) → List (Item D) → Map (TaskRun D) → BatchState D
  start_batch max_concurrency batch updated = record {
    index = 0;
    updated = updated;
    idle = min max_concurrency (length batch);
    busy = [];
    returned = 0;
  }

  -- What a worker does up to its next await, where one is idle, `suc idle` of them.
  pub data WorkerStep (batch : List (Item D)) : BatchState D → BatchState D → Type 0 where
    take_item :
        (index : ℕ) (updated : Map (TaskRun D)) (idle : ℕ) (busy : List (Item D)) (returned : ℕ)
        (item : Item D)
        → get_elem? batch index ≡ some item
        → WorkerStep batch
            (record {
              index = index;
              updated = updated;
              idle = suc idle;
              busy = busy;
              returned = returned;
            })
            (record {
              index = suc index;
              updated = updated;
              idle = idle;
              busy = item ∷ busy;
              returned = returned;
            })
    return_idle :
        (index : ℕ) (updated : Map (TaskRun D)) (idle : ℕ) (busy : List (Item D)) (returned : ℕ)
        → length batch ≤ index
        → WorkerStep batch
            (record {
              index = index;
              updated = updated;
              idle = suc idle;
              busy = busy;
              returned = returned;
            })
            (record {
              index = index;
              updated = updated;
              idle = idle;
              busy = busy;
              returned = suc returned;
            })
    finish_item :
        (index : ℕ) (updated : Map (TaskRun D)) (idle : ℕ) (xs ys : List (Item D)) (returned : ℕ)
        (item : Item D) (result : TaskRun D)
        → WorkerStep batch
            (record {
              index = index;
              updated = updated;
              idle = idle;
              busy = xs ++ item ∷ ys;
              returned = returned;
            })
            (record {
              index = index;
              updated = insert item.0.id result updated;
              idle = suc idle;
              busy = xs ++ ys;
              returned = returned;
            })

  -- The item that is finished, if one is.
  abbrev pub ran_by :
      {batch : List (Item D)} {s t : BatchState D} → WorkerStep batch s t → List (Item D)
  ran_by (take_item index updated idle busy returned item e) = []
  ran_by (return_idle index updated idle busy returned b) = []
  ran_by (finish_item index updated idle xs ys returned item result) = item ∷ []

  -- The batch of a level: its tasks that are defined and have a run.
  unfoldable pub item_of : List TaskDefinition → Map (TaskRun D) → Text → List (Item D)
  item_of tasks updated id = both (find (λ t. text_eq t.id id) tasks) (lookup id updated)
    where
      both : Option TaskDefinition → Option (TaskRun D) → List (Item D)
      both none r = []
      both (some t) none = []
      both (some t) (some r) = (t, r) ∷ []

  unfoldable pub batch_of : List TaskDefinition → Map (TaskRun D) → List Text → List (Item D)
  unfolding item_of
  batch_of tasks updated [] = []
  batch_of tasks updated (id ∷ ids) = item_of tasks updated id ++ batch_of tasks updated ids

  -- What the workers have come to, and the items whose results they have set, newest first.
  pub data BatchRun (max_concurrency : ℕ) (batch : List (Item D)) (updated : Map (TaskRun D))
      : List (Item D) → BatchState D → Type 0 where
    batch_start :
        BatchRun max_concurrency batch updated [] (start_batch max_concurrency batch updated)
    batch_step :
        (ran : List (Item D)) (s t : BatchState D)
        → BatchRun max_concurrency batch updated ran s
        → (w : WorkerStep batch s t) → BatchRun max_concurrency batch updated (ran_by w ++ ran) t

  -- The loop of `executeLevel`: the batch of a level is made from the map that the levels before have
  -- left, and ends when all its workers have returned.
  pub data LevelsRun (max_concurrency : ℕ) (tasks : List TaskDefinition)
      : List (List Text) → Map (TaskRun D) → Map (TaskRun D) → Type 0 where
    no_level : (updated : Map (TaskRun D)) → LevelsRun max_concurrency tasks [] updated updated
    next_level :
        (level : List Text) (levels : List (List Text)) (updated after : Map (TaskRun D))
        (ran : List (Item D)) (s : BatchState D)
        → BatchRun max_concurrency (batch_of tasks updated level) updated ran s
        → s.idle + length s.busy ≡ 0
        → LevelsRun max_concurrency tasks levels s.updated after
        → LevelsRun max_concurrency tasks (level ∷ levels) updated after

  -- `executeLevel`, which throws where no plan is made.
  pub record LevelRun (max_concurrency : ℕ) (tasks : List TaskDefinition)
      (runs after : Map (TaskRun D)) : Type 0 where
    pub planned : DagPlan
    pub is_planned : plan tasks ≡ ok planned
    pub levels_run : LevelsRun max_concurrency tasks planned.levels runs after
