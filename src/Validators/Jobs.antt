-- ===== src/Validators/Jobs.antt =====
-- src/validators/job-definition-validator.ts: `validate`. Each message that is gathered is a
-- constructor, with the names that stand in it.
pub mod Sound
use jobflow_project.Common.{
  Bool, List, Option, Result, Text, [], err, if◌then◌else◌, includes, length, ltb, none, not, ok,
  some, text_eq, ◌++◌, ◌==◌, ◌∷◌,
}
use jobflow_project.Domain.{JobDefinition, TaskDefinition}

pub data Problem : Type 0 where
  no_tasks : Problem
  duplicate_task : (id : Text) → Problem
  timeout_not_positive : (id : Text) → Problem
  unknown_dependency : (id dep : Text) → Problem
  self_dependency : (id : Text) → Problem
  no_attempts : Problem

-- `task.dependsOn ?? []`.
abbrev pub deps_of : TaskDefinition → List Text
deps_of t = listed t.depends_on
  where
    listed : Option (List Text) → List Text
    listed none = []
    listed (some deps) = deps

abbrev pub problem_if : Bool → Problem → List Problem
problem_if b p = if b then p ∷ [] else []

unfoldable pub check_deps : (task_ids : List Text) → (id : Text) → List Text → List Problem
check_deps ids id [] = []
check_deps ids id (dep ∷ deps) =
    problem_if (not (includes ids dep)) (unknown_dependency id dep)
    ++ (problem_if (text_eq dep id) (self_dependency id) ++ check_deps ids id deps)

unfoldable pub validate_task : TaskDefinition → (task_ids : List Text) → List Problem
unfolding check_deps
validate_task task ids =
    problem_if (task.timeout_ms == 0) (timeout_not_positive task.id)
    ++ check_deps ids task.id (deps_of task)

-- The loop over the tasks.
unfoldable pub check_tasks : (task_ids seen : List Text) → List TaskDefinition → List Problem
unfolding validate_task
check_tasks ids seen [] = []
check_tasks ids seen (task ∷ tasks) =
    if includes seen task.id
    then duplicate_task task.id ∷ check_tasks ids seen tasks
    else validate_task task ids ++ check_tasks ids (task.id ∷ seen) tasks

abbrev pub task_ids : List TaskDefinition → List Text
task_ids [] = []
task_ids (t ∷ ts) = t.id ∷ task_ids ts

unfoldable pub problems : JobDefinition → List Problem
unfolding check_tasks
problems d =
    problem_if (length d.tasks == 0) no_tasks
    ++ (check_tasks (task_ids d.tasks) [] d.tasks
        ++ problem_if (ltb d.retry_policy.max_attempts 1) no_attempts)

-- `ValidationError` carries the problems.
unfoldable pub report : List Problem → Result (List Problem) (Unit {0})
report [] = ok tt
report (p ∷ ps) = err (p ∷ ps)

unfoldable pub validate : JobDefinition → Result (List Problem) (Unit {0})
unfolding problems report
validate d = report (problems d)
