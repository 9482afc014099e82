-- ===== src/Workers/Pool.antt =====
-- src/workers/pool.ts with src/domain/priority.ts: the runs that wait for a worker, the most urgent
-- first.
pub mod Fairness
use jobflow_project.Common.{
  Bool, List, Option, Text, [], if◌then◌else◌, length, ltb, none, some, suc, ℕ, ◌++◌, ◌-◌, ◌∷◌,
}
use jobflow_project.Common.Sort.{sort}

pub data RunPriority : Type 0 where
  low normal high critical : RunPriority

-- The number that the enumeration gives.
unfoldable pub priority_number : RunPriority → ℕ
priority_number low = 1
priority_number normal = 5
priority_number high = 10
priority_number critical = 20

pub record QueuedRun : Type 0 where
  pub run_id : Text
  pub priority : RunPriority
  pub enqueued_at : Text

pub record WorkerPool : Type 0 where
  pub queue : List QueuedRun
  pub running : ℕ
  pub concurrency : ℕ

-- `comparePriority(a, b)` is `b - a`: whether it is negative.
unfoldable pub priority_before : QueuedRun → QueuedRun → Bool
unfolding priority_number
priority_before a b = ltb (priority_number b.priority) (priority_number a.priority)

unfoldable pub new_pool : ℕ → WorkerPool
new_pool concurrency = record { queue = []; running = 0; concurrency = concurrency }

unfoldable pub enqueue : QueuedRun → WorkerPool → WorkerPool
enqueue item pool = record pool { queue = sort priority_before (pool.queue ++ item ∷ []) }

unfoldable pub can_accept : WorkerPool → Bool
can_accept pool = ltb pool.running pool.concurrency

-- `queue.shift()`.
unfoldable pub shift : WorkerPool → List QueuedRun → Option QueuedRun × WorkerPool
shift pool [] = (none, pool)
shift pool (item ∷ rest) = (some item, record pool { queue = rest; running = suc pool.running })

unfoldable pub start : WorkerPool → Option QueuedRun × WorkerPool
unfolding can_accept shift
start pool = if can_accept pool then shift pool pool.queue else (none, pool)

-- `Math.max(0, running - 1)`.
unfoldable pub complete : WorkerPool → WorkerPool
complete pool = record pool { running = pool.running - 1 }

unfoldable pub depth : WorkerPool → ℕ
depth pool = length pool.queue
