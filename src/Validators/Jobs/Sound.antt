-- ===== src/Validators/Jobs/Sound.antt =====
-- What a definition that passes is like.
use jobflow_project.Common.{
  All, List, Text, [], arith, false, includes, length, ltb, ok, refl, text_eq, text_eq_iff, true,
  ◌++◌, ◌<◌, ◌==◌, ◌↔◌, ◌∷◌, ◌≡◌,
}
use jobflow_project.Domain.{JobDefinition, TaskDefinition}
use jobflow_project.Validators.Jobs.{
  Problem, no_tasks, no_attempts, deps_of, problem_if, check_deps, validate_task, check_tasks,
  task_ids, problems, report, validate,
}

IsKnown : (ids : List Text) → (id : Text) → List Text → Type 0
IsKnown ids id deps = All (λ dep. (includes ids dep ≡ true) × (text_eq dep id ≡ false)) deps

unfoldable pub IsSound : (ids : List Text) → TaskDefinition → Type 0
IsSound ids t =
    (0 < t.timeout_ms)
    × All (λ dep. (includes ids dep ≡ true) × (text_eq dep t.id ≡ false)) (deps_of t)

unfoldable pub IsDistinct : List Text → Type 0
IsDistinct [] = Unit
IsDistinct (x ∷ xs) = (includes xs x ≡ false) × IsDistinct xs

unfoldable pub IsValid : JobDefinition → Type 0
IsValid d =
    (0 < length d.tasks)
    × IsDistinct (task_ids d.tasks)
    × All (IsSound (task_ids d.tasks)) d.tasks
    × (0 < d.retry_policy.max_attempts)

append_nil_iff : {A : Type 0} (xs ys : List A) → (xs ++ ys ≡ []) ↔ ((xs ≡ []) × (ys ≡ []))
append_nil_iff [] ys = ground arith
append_nil_iff (x ∷ xs) ys = ground arith

check_deps_iff :
    (ids : List Text) (id : Text) (deps : List Text)
    → (check_deps ids id deps ≡ []) ↔ IsKnown ids id deps
unfolding check_deps IsKnown
check_deps_iff ids id [] = ground arith
check_deps_iff ids id (dep ∷ deps) = ground (arith, check_deps_iff ids id deps)

validate_task_iff :
    (ids : List Text) (t : TaskDefinition) → (validate_task t ids ≡ []) ↔ IsSound ids t
unfolding validate_task IsSound IsKnown
validate_task_iff ids t = ground (arith, check_deps_iff ids t.id (deps_of t))

Fresh : List Text → List TaskDefinition → Type 0
Fresh seen ts = All (λ t. includes seen t.id ≡ false) ts

Fresh-cons :
    (x : Text) (seen : List Text) (ts : List TaskDefinition)
    → Fresh (x ∷ seen) ts ↔ ((includes (task_ids ts) x ≡ false) × Fresh seen ts)
unfolding Fresh includes
Fresh-cons x seen [] = ground arith
Fresh-cons x seen (t ∷ ts) =
    ground (arith, Fresh-cons x seen ts, text_eq_iff x t.id, text_eq_iff t.id x)

check_tasks_iff :
    (ids seen : List Text) (ts : List TaskDefinition)
    → (check_tasks ids seen ts ≡ [])
      ↔ (Fresh seen ts × IsDistinct (task_ids ts) × All (IsSound ids) ts)
unfolding check_tasks Fresh IsDistinct
check_tasks_iff ids seen [] = ground arith
check_tasks_iff ids seen (t ∷ ts) = ground (
  arith,
  check_tasks_iff ids (t.id ∷ seen) ts,
  Fresh-cons t.id seen ts,
  validate_task_iff ids t,
  append_nil_iff (validate_task t ids) (check_tasks ids (t.id ∷ seen) ts),
)

Fresh-none : (ts : List TaskDefinition) → Fresh [] ts
unfolding Fresh includes
Fresh-none [] = tt
Fresh-none (t ∷ ts) = (refl, Fresh-none ts)

problems_iff : (d : JobDefinition) → (problems d ≡ []) ↔ IsValid d
unfolding problems IsValid
problems_iff d =
    let ids = task_ids d.tasks in
    let checked = check_tasks ids [] d.tasks in
    let last = problem_if (ltb d.retry_policy.max_attempts 1) no_attempts in
    ground (
      arith,
      append_nil_iff (problem_if (length d.tasks == 0) no_tasks) (checked ++ last),
      append_nil_iff checked last,
      check_tasks_iff ids [] d.tasks,
      Fresh-none d.tasks,
    )

report_iff : (ps : List Problem) → (report ps ≡ ok tt) ↔ (ps ≡ [])
unfolding report
report_iff [] = ground arith
report_iff (p ∷ ps) = ground arith

-- A job definition passes exactly when it has a task, its task ids are distinct, every timeout is
-- positive, every dependency names a task of the job and not the task itself, and at least one attempt
-- is allowed.
pub validate_iff : (d : JobDefinition) → (validate d ≡ ok tt) ↔ IsValid d
unfolding validate
validate_iff d = ground (arith, report_iff (problems d), problems_iff d)
