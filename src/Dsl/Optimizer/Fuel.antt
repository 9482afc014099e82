-- ===== src/Dsl/Optimizer/Fuel.antt =====
-- `optimize` comes to an end.
use jobflow_project.Common.{
  Bool-cases, List, Map, Option-cases, Result-cases, Text, [], arith, err, err_is_not_ok, includes,
  inl, inr, keys, length, length-select-le, lookup, not, ok, refl, some, some_is_not_none, suc, sym,
  zero, ℕ, ◌<◌, ◌>>=◌, ◌∙◌, ◌∷◌, ◌≡◌, ◌≢◌,
}
use jobflow_project.Dsl.Ast.{TaskDslNode, WorkflowDslNode}
use jobflow_project.Graph.Visit.{VisitError, mark}
use jobflow_project.Graph.Visit.Fuel.{waiting, waiting-le, waiting-mark-lt}
use jobflow_project.Engine.Planner.Depth.{some-includes}
use jobflow_project.Dsl.Optimizer.{
  Sorted, Sorting, tasks_onto, visit_deps, push_task, visit_task, task_ids_of,
  sort_tasks_topologically, merge_parallel_tasks, optimize,
}
use jobflow_project.Dsl.Optimizer.Complete.{IsSorting, enter-IsSorting, visit_task-Keeps}
use jobflow_project.Dsl.Optimizer.Kept.{IsListing, optimize-keeps, tasks_onto-own, start-IsSorting}

push_task_err :
    (t : TaskDslNode) (r : Sorting) {e : VisitError} → (r >>= push_task t) ≡ err e → r ≡ err e
unfolding push_task
push_task_err t (ok s) h = absurd (err_is_not_ok (sym h))
push_task_err t (err e) h = h

module _ (by_id : Map TaskDslNode)
    (own : (id : Text) (t : TaskDslNode) → lookup id by_id ≡ some t → t.id ≡ id)
    (bad : VisitError) where
  abbrev Ends : ℕ → (Text → Sorted → Sorting) → Type 0
  Ends fuel step =
      (stack : List Text) (id : Text) (s : Sorted)
      → IsSorting by_id own stack s
      → waiting (keys by_id) s.visited < fuel
      → step id s ≢ err bad

  visit_deps-Ends :
      (fuel : ℕ)
      → Ends fuel (visit_task by_id fuel)
      → (stack ids : List Text) (s : Sorted) → IsSorting by_id own stack s
      → waiting (keys by_id) s.visited < fuel
      → visit_deps (visit_task by_id fuel) ids s ≢ err bad
  unfolding visit_deps
  visit_deps-Ends fuel f stack [] s w b h = absurd (err_is_not_ok (sym h))
  visit_deps-Ends fuel f stack (id ∷ ids) s w b h =
      elim (Result-cases (visit_task by_id fuel id s)) [
        | inl (e, q) ↦ f stack id s w b (q ∙ (rw (q, visit_deps) at (h)))
        | inr (r, q) ↦
            let kept = visit_task-Keeps by_id own fuel stack id s r q w in
            visit_deps-Ends fuel f stack ids r kept.0
              (omega (arith, b, waiting-le (keys by_id) s.visited r.visited kept.2))
              (rw (q, visit_deps) at (h))
      ]

  visit_task-Ends : (fuel : ℕ) → Ends fuel (visit_task by_id fuel)
  unfolding visit_task
  visit_task-Ends zero stack id s w b h = absurd (omega arith)
  visit_task-Ends (suc fuel) stack id s w b h = elim (Bool-cases (includes s.visited id)) [
    | inl v ↦ absurd (err_is_not_ok (sym (rw (v, visit_task) at (h))))
    | inr v ↦ elim (Option-cases (lookup id by_id)) [
      | inl e ↦ absurd (err_is_not_ok (sym (rw (v, e, visit_task) at (h))))
      | inr (t, e) ↦
          visit_deps-Ends fuel (visit_task-Ends fuel) (id ∷ stack) t.depends_on
            (record s { visited = mark id s.visited }) (enter-IsSorting by_id own stack id s w v)
            (omega
              (arith, b, waiting-mark-lt id (keys by_id) s.visited (some-includes id by_id t e) v))
            (push_task_err t _ (rw (v, e, visit_task) at (h)))
    ]
  ]

optimize_ends : (w : WorkflowDslNode) → (w' : WorkflowDslNode) × (optimize w ≡ ok w')
unfolding optimize sort_tasks_topologically waiting
optimize_ends w =
    let by_id = tasks_onto [] w.tasks in
    let start : Sorted = record { visited = []; out = [] } in
    let fuel = suc (length (keys by_id)) in
    let own = tasks_onto-own [] w.tasks (λ k t e. nothing_at k e) in
    elim (Result-cases (visit_deps (visit_task by_id fuel) (task_ids_of w.tasks) start)) [
      | inl (e, q) ↦ absurd (
          visit_deps-Ends by_id own e fuel (visit_task-Ends by_id own e fuel) []
            (task_ids_of w.tasks) start (start-IsSorting by_id own)
            (omega (arith, length-select-le (λ k. not (includes [] k)) (keys by_id))) q)
      | inr (s, q) ↦ (record w { tasks = merge_parallel_tasks s.out }, rw q refl)
    ]
  where
    nothing_at : (k : Text) {t : TaskDslNode} {x y : Text} → lookup k [] ≡ some t → x ≡ y
    nothing_at k e = unfold lookup in some_is_not_none (sym e)

-- Every workflow is optimised, also where the dependencies have a cycle. The result has the tasks of the
-- workflow, each id once: an id finds the last task of that id in the workflow, and none where it had
-- none. The rest of the workflow is as it was.
pub optimize-IsListing :
    (w : WorkflowDslNode)
    → (w' : WorkflowDslNode) × (optimize w ≡ ok w')
      × IsListing (tasks_onto [] w.tasks) w'.tasks
      × (w'.name ≡ w.name)
      × (w'.version ≡ w.version)
      × (w'.constraints ≡ w.constraints)
optimize-IsListing w =
    let (w', e) = optimize_ends w in
    let kept = optimize-keeps w w' e in (w', e, kept.0, kept.1, kept.2, kept.3)
