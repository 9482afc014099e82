-- ===== src/Dsl/Optimizer.antt =====
-- src/dsl/optimizer.ts: `WorkflowDslOptimizer`.
pub mod Complete
pub mod Kept
pub mod Fuel
pub mod Ordered
pub mod Depths
mod Samples
use jobflow_project.Common.{
  Bool, List, Map, Option, Result, Text, [], err, false, includes, insert, keys, length, lookup,
  ltb, max, none, ok, some, suc, true, zero, ℕ, ◌++◌, ◌+◌, ◌>>=◌, ◌∷◌,
}
use jobflow_project.Common.Sort.{sort}
use jobflow_project.Dsl.Ast.{TaskDslNode, WorkflowDslNode}
use jobflow_project.Graph.Visit.{VisitError, out_of_fuel, mark}

-- `new Map(tasks.map((t) => [t.id, t]))`.
unfoldable pub tasks_onto : Map TaskDslNode → List TaskDslNode → Map TaskDslNode
tasks_onto m [] = m
tasks_onto m (t ∷ ts) = tasks_onto (insert t.id t m) ts

-- What `visit` changes: the ids seen, newest first, and the tasks in their new order.
pub record Sorted : Type 0 where
  pub visited : List Text
  pub out : List TaskDslNode

abbrev pub Sorting : Type 0
Sorting = Result VisitError Sorted

unfoldable pub visit_deps : (Text → Sorted → Sorting) → List Text → Sorted → Sorting
visit_deps step [] s = ok s
visit_deps step (id ∷ ids) s = step id s >>= visit_deps step ids

unfoldable pub push_task : TaskDslNode → Sorted → Sorting
push_task t s = ok (record s { out = s.out ++ t ∷ [] })

unfoldable pub visit_task : Map TaskDslNode → ℕ → Text → Sorted → Sorting
unfolding visit_deps push_task mark
visit_task by_id zero id s = err out_of_fuel
visit_task by_id (suc fuel) id s = elim (includes s.visited id) [
  | true ↦ ok s
  | false ↦ elim (lookup id by_id) [
    | none ↦ ok (record s { visited = mark id s.visited })
    | some t ↦
        visit_deps (visit_task by_id fuel) t.depends_on (record s { visited = mark id s.visited })
        >>= push_task t
  ]
]

unfoldable pub task_ids_of : List TaskDslNode → List Text
task_ids_of [] = []
task_ids_of (t ∷ ts) = t.id ∷ task_ids_of ts

-- The fuel is one more than the number of tasks, of which each is entered once.
unfoldable pub sort_tasks_topologically : List TaskDslNode → Result VisitError (List TaskDslNode)
unfolding tasks_onto visit_task visit_deps
sort_tasks_topologically tasks =
    let by_id = tasks_onto [] tasks in
    visit_deps (visit_task by_id (suc (length (keys by_id)))) (task_ids_of tasks)
      (record { visited = []; out = [] })
    >>= λ s. ok s.out

-- `depth.get(id) ?? 0`.
unfoldable pub depth_of : Text → Map ℕ → ℕ
depth_of id depth = or_zero (lookup id depth)
  where
    or_zero : Option ℕ → ℕ
    or_zero none = 0
    or_zero (some n) = n

unfoldable pub deepest : Map ℕ → ℕ → List Text → ℕ
unfolding depth_of
deepest depth m [] = m
deepest depth m (id ∷ ids) = deepest depth (max m (depth_of id depth)) ids

unfoldable pub depths_onto : Map ℕ → List TaskDslNode → Map ℕ
unfolding deepest
depths_onto depth [] = depth
depths_onto depth (t ∷ ts) = depths_onto (insert t.id (deepest depth 0 t.depends_on + 1) depth) ts

-- The comparison is negative.
unfoldable pub shallower : Map ℕ → TaskDslNode → TaskDslNode → Bool
unfolding depth_of
shallower depth a b = ltb (depth_of a.id depth) (depth_of b.id depth)

unfoldable pub merge_parallel_tasks : List TaskDslNode → List TaskDslNode
unfolding depths_onto shallower sort
merge_parallel_tasks tasks = sort (shallower (depths_onto [] tasks)) tasks

unfoldable pub optimize : WorkflowDslNode → Result VisitError WorkflowDslNode
unfolding sort_tasks_topologically merge_parallel_tasks
optimize workflow = sort_tasks_topologically workflow.tasks >>= λ tasks.
    ok (record workflow { tasks = merge_parallel_tasks tasks })
