-- ===== src/Dsl/Optimizer/Samples.antt =====
-- A workflow of three tasks in the wrong order, the theorems at it, and its compilation.
use jobflow_project.Common.{
  All, All-lookup, List, Text, [], arith, false, includes, insert, keys, lookup, map, none, ok,
  refl, some, text, text_eq, ℕ, ◌<◌, ◌∷◌, ◌≡◌,
}
use jobflow_project.Common.Sort.{sort, sort_onto, place}
use jobflow_project.Domain.Retry.{default_retry_policy}
use jobflow_project.Dsl.Ast.{TaskDslNode, WorkflowDslNode}
use jobflow_project.Graph.Visit.{mark}
use jobflow_project.Dsl.Optimizer.{
  tasks_onto, visit_deps, push_task, visit_task, task_ids_of, sort_tasks_topologically, depth_of,
  deepest, depths_onto, shallower, merge_parallel_tasks, optimize,
}
use jobflow_project.Dsl.Optimizer.Kept.{IsListing}
use jobflow_project.Dsl.Optimizer.Fuel.{optimize-IsListing}
use jobflow_project.Dsl.Optimizer.Ordered.{IsInOrder}
use jobflow_project.Dsl.Optimizer.Depths.{optimize-IsInOrder}
use jobflow_project.Dsl.Compiler.{underscores, to_task, id_or_name, to_job_definition}

abbrev task_node : Text → List Text → TaskDslNode
task_node id deps = record {
  id = id;
  handler = text "h";
  timeout_ms = 5;
  depends_on = deps;
  optional = false;
}

abbrev workflow_of : List TaskDslNode → WorkflowDslNode
workflow_of tasks = record { name = text "my  flow"; version = 1; tasks = tasks; constraints = [] }

abbrev c_node : TaskDslNode
c_node = task_node (text "c") (text "b" ∷ [])

abbrev b_node : TaskDslNode
b_node = task_node (text "b") (text "a" ∷ [])

abbrev a_node : TaskDslNode
a_node = task_node (text "a") []

abbrev backwards : WorkflowDslNode
backwards = workflow_of (c_node ∷ b_node ∷ a_node ∷ [])

abbrev forwards : WorkflowDslNode
forwards = workflow_of (a_node ∷ b_node ∷ c_node ∷ [])

put_forwards : optimize backwards ≡ ok forwards
unfolding optimize sort_tasks_topologically merge_parallel_tasks tasks_onto visit_deps push_task
    visit_task task_ids_of depth_of deepest depths_onto shallower sort sort_onto place mark text_eq
    includes lookup insert keys
put_forwards = refl

optimize-IsListing_example :
    (w' : WorkflowDslNode) × (optimize backwards ≡ ok w')
    × IsListing (tasks_onto [] backwards.tasks) w'.tasks
    × (w'.name ≡ backwards.name)
    × (w'.version ≡ backwards.version)
    × (w'.constraints ≡ backwards.constraints)
optimize-IsListing_example = optimize-IsListing backwards

-- The rank of "a", "b" and "c" is 97, 98 and 99.
abbrev rank : Text → ℕ
rank [] = 0
rank (c ∷ cs) = c

backwards_ranked :
    (id : Text) (t : TaskDslNode)
    → lookup id (tasks_onto [] backwards.tasks) ≡ some t
    → All (λ dep. rank dep < rank id) t.depends_on
unfolding tasks_onto lookup insert text_eq
backwards_ranked id t h =
    All-lookup (λ k u. All (λ dep. rank dep < rank k) u.depends_on)
      ((text "c", c_node) ∷ (text "b", b_node) ∷ (text "a", a_node) ∷ []) id t
      ((omega arith, tt), ((omega arith, tt), (tt, tt))) h

optimize-IsInOrder_example : IsInOrder (tasks_onto [] backwards.tasks) [] forwards.tasks
optimize-IsInOrder_example =
    optimize-IsInOrder backwards forwards rank backwards_ranked put_forwards

compiled : to_job_definition (λ t. t) (text "now") forwards none ≡ record {
  id = text "my_flow";
  name = text "my  flow";
  version = 1;
  description = none;
  tasks = map to_task (a_node ∷ b_node ∷ c_node ∷ []);
  constraints = [];
  retry_policy = default_retry_policy;
  allowed_transitions = [];
  metadata = (text "compiledFrom", text "dsl") ∷ [];
  created_at = text "now";
  updated_at = text "now";
}
unfolding to_job_definition id_or_name underscores
compiled = refl
