-- ===== src/Engine/Scheduler.antt =====
-- src/workers/scheduler.ts: which task of a run may start, and whether the run is finished.
pub mod Progress
use jobflow_project.Common.{
  Bool, List, Map, Option, Text, [], every, false, find, if◌then◌else◌, insert, lookup, none, not,
  select, some, true, ◌||◌, ◌∷◌,
}
use jobflow_project.Domain.{TaskDefinition, TaskRun, TaskStatus, status_eq}

module _ {D : Type 0} where
  -- `new Map(tasks.map((t) => [t.definitionTaskId, t.status]))`
  unfoldable pub statuses_onto : Map TaskStatus → List (TaskRun D) → Map TaskStatus
  statuses_onto m [] = m
  statuses_onto m (t ∷ ts) = statuses_onto (insert t.definition_task_id t.status m) ts

  unfoldable pub status_by_def : List (TaskRun D) → Map TaskStatus
  unfolding statuses_onto
  status_by_def tasks = statuses_onto [] tasks

-- `status === Succeeded || status === Skipped`, where `undefined` is neither.
unfoldable pub is_done : Option TaskStatus → Bool
is_done none = false
is_done (some s) = status_eq s TaskStatus.succeeded || status_eq s TaskStatus.skipped

unfoldable pub is_busy : Option TaskStatus → Bool
is_busy none = false
is_busy (some s) = status_eq s TaskStatus.running || status_eq s TaskStatus.retrying

-- `x ?? []`
abbrev pub or_empty : Option (List Text) → List Text
or_empty none = []
or_empty (some xs) = xs

unfoldable pub dependencies_met : TaskDefinition → Map TaskStatus → Bool
unfolding is_done
dependencies_met def statuses =
    every (λ dep. is_done (lookup dep statuses)) (or_empty def.depends_on)

unfoldable pub is_runnable : Map TaskStatus → TaskDefinition → Bool
unfolding is_busy dependencies_met
is_runnable statuses def =
    let status = lookup def.id statuses in
    if is_done status
    then false
    else if is_busy status
    then false
    else dependencies_met def statuses

-- `!d.optional`
abbrev pub is_required : TaskDefinition → Bool
is_required d = elim d.optional [ none ↦ true | some b ↦ not b ]

module _ {D : Type 0} where
  unfoldable pub next_runnable : List (TaskRun D) → List TaskDefinition → Option TaskDefinition
  unfolding is_runnable status_by_def
  next_runnable tasks definitions = find (is_runnable (status_by_def tasks)) definitions

  unfoldable pub all_done : List (TaskRun D) → List TaskDefinition → Bool
  unfolding is_done status_by_def
  all_done tasks definitions =
      every (λ d. is_done (lookup d.id (status_by_def tasks))) (select is_required definitions)
