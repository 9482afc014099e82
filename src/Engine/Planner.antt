-- ===== src/Engine/Planner.antt =====
-- src/engine/dag-planner.ts: the levels in which the tasks of a job can run, and its critical path.
-- `buildGraph` is build_graph, `topologicalLevels` topological_levels, `criticalPath` critical_path.
pub mod Chains
pub mod Longest
pub mod Depth
pub mod Rounds
pub mod Graphs
pub mod Layers
pub mod Levels
pub mod Planned
mod Samples
use jobflow_project.Common.{
  Bool, List, Map, Option, Result, Text, [], err, false, if◌then◌else◌, includes, insert, keys,
  length, lookup, ltb, none, ok, select, some, suc, true, values, zero, ℕ, ◌++◌, ◌+◌, ◌>>=◌, ◌>>◌,
  ◌∷◌,
}
use jobflow_project.Domain.{TaskDefinition}
use jobflow_project.Validators.Jobs.{deps_of}
use jobflow_project.Graph.Visit.{VisitError, out_of_fuel, visit_all}

pub record DagNode : Type 0 where
  pub task_id : Text
  pub depends_on : List Text
  pub weight_ms : ℕ

pub record DagPlan : Type 0 where
  pub levels : List (List Text)
  pub critical_path : List Text
  pub estimated_ms : ℕ

unfoldable pub node_of : TaskDefinition → DagNode
node_of t = record { task_id = t.id; depends_on = deps_of t; weight_ms = t.timeout_ms }

unfoldable pub nodes_onto : Map DagNode → List TaskDefinition → Map DagNode
unfolding node_of
nodes_onto g [] = g
nodes_onto g (t ∷ ts) = nodes_onto (insert t.id (node_of t) g) ts

-- `node?.dependsOn ?? []` and `node?.weightMs ?? 0`.
unfoldable pub deps_of_node : Option DagNode → List Text
deps_of_node none = []
deps_of_node (some n) = n.depends_on

unfoldable pub weight_of_node : Option DagNode → ℕ
weight_of_node none = 0
weight_of_node (some n) = n.weight_ms

unfoldable pub assert_acyclic : Map DagNode → Result VisitError (Unit {0})
unfolding deps_of_node
assert_acyclic g =
    visit_all (λ id. deps_of_node (lookup id g)) (suc (length (keys g))) (keys g) >>= λ m. ok tt

unfoldable pub build_graph : List TaskDefinition → Result VisitError (Map DagNode)
unfolding nodes_onto assert_acyclic
build_graph tasks = let g = nodes_onto [] tasks in assert_acyclic g >>= λ u. ok g

-- The degrees are counted down, below 0 too.
pub data ℤ : Type 0 where
  pos negsuc : ℕ → ℤ

unfoldable pub pred : ℤ → ℤ
pred (pos zero) = negsuc 0
pred (pos (suc n)) = pos n
pred (negsuc n) = negsuc (suc n)

unfoldable pub is_zero : ℤ → Bool
is_zero (pos zero) = true
is_zero (pos (suc n)) = false
is_zero (negsuc n) = false

unfoldable pub degree_of : Text → Map ℤ → ℤ
degree_of id degrees = or_zero (lookup id degrees)
  where
    or_zero : Option ℤ → ℤ
    or_zero none = pos 0
    or_zero (some d) = d

unfoldable pub zero_degrees : List Text → Map ℤ → Map ℤ
zero_degrees [] degrees = degrees
zero_degrees (id ∷ ids) degrees = zero_degrees ids (insert id (pos 0) degrees)

unfoldable pub count_degrees : List DagNode → Map ℤ → Map ℤ
count_degrees [] degrees = degrees
count_degrees (n ∷ ns) degrees =
    count_degrees ns (insert n.task_id (pos (length n.depends_on)) degrees)

-- What the rounds change: the degrees, and the set of tasks for the next level.
pub record Round : Type 0 where
  pub degrees : Map ℤ
  pub next : List Text

-- `next.add(taskId)`: a JavaScript set keeps the order of insertion.
unfoldable pub add_last : Text → List Text → List Text
add_last id ids = if includes ids id then ids else ids ++ id ∷ []

unfoldable pub lower : Text → Round → Round
unfolding pred is_zero degree_of add_last
lower id r =
    let d = pred (degree_of id r.degrees) in
    record {
      degrees = insert id d r.degrees;
      next = if is_zero d then add_last id r.next else r.next;
    }

-- The loop over the nodes of the graph, for a task that is done.
unfoldable pub lower_dependents : Text → Map DagNode → Round → Round
unfolding lower
lower_dependents id [] r = r
lower_dependents id ((t, n) ∷ g) r =
    lower_dependents id g (if includes n.depends_on id then lower t r else r)

unfoldable pub lower_each : Map DagNode → List Text → Round → Round
unfolding lower_dependents
lower_each g [] r = r
lower_each g (id ∷ ids) r = lower_each g ids (lower_dependents id g r)

-- The loop `while (ready.length)`.
unfoldable pub levels_from :
    Map DagNode → ℕ → List Text → Map ℤ → Result VisitError (List (List Text))
unfolding lower_each
levels_from g fuel [] degrees = ok []
levels_from g zero (id ∷ ids) degrees = err out_of_fuel
levels_from g (suc fuel) (id ∷ ids) degrees =
    let r = lower_each g (id ∷ ids) (record { degrees = degrees; next = [] }) in
    levels_from g fuel r.next r.degrees >>= λ levels. ok ((id ∷ ids) ∷ levels)

unfoldable pub topological_levels : Map DagNode → Result VisitError (List (List Text))
unfolding zero_degrees count_degrees levels_from is_zero degree_of
topological_levels g =
    let degrees = count_degrees (values g) (zero_degrees (keys g) []) in
    levels_from g (suc (length (keys g))) (select (λ id. is_zero (degree_of id degrees)) (keys g))
      degrees

pub record Route : Type 0 where
  pub cost : ℕ
  pub path : List Text

abbrev pub no_path : Route
no_path = record { cost = 0; path = [] }

abbrev pub Memo : Type 0
Memo = Map Route

unfoldable pub better : Route → Route → Route
better child best = if ltb best.cost child.cost then child else best

-- The loops of criticalPath and of longestFrom, over the tasks and over a task's dependencies.
unfoldable pub best_of :
    (Text → Memo → Result VisitError (Route × Memo))
    → List Text
    → Route
    → Memo
    → Result VisitError (Route × Memo)
unfolding better
best_of step [] best memo = ok (best, memo)
best_of step (id ∷ ids) best memo = step id memo >>= λ r. best_of step ids (better r.0 best) r.1

unfoldable pub extend : Text → DagNode → Route × Memo → Result VisitError (Route × Memo)
extend id n (best, memo) =
    let r : Route = record { cost = n.weight_ms + best.cost; path = best.path ++ id ∷ [] } in
    ok (r, insert id r memo)

unfoldable pub longest_from : Map DagNode → ℕ → Text → Memo → Result VisitError (Route × Memo)
unfolding best_of extend
longest_from g zero id memo = err out_of_fuel
longest_from g (suc fuel) id memo = elim (lookup id memo) [
  | some r ↦ ok (r, memo)
  | none ↦ elim (lookup id g) [
    | none ↦ ok (no_path, memo)
    | some n ↦ best_of (longest_from g fuel) n.depends_on no_path memo >>= extend id n
  ]
]

-- The fuel is two more than the number of tasks: a path of them, and an unknown task at its end.
unfoldable pub critical_path : Map DagNode → Result VisitError Route
unfolding best_of longest_from
critical_path g =
    best_of (longest_from g (suc (suc (length (keys g))))) (keys g) no_path [] >>= λ r. ok r.0

unfoldable pub add_weights : Map DagNode → ℕ → List Text → ℕ
unfolding weight_of_node
add_weights g sum [] = sum
add_weights g sum (id ∷ ids) = add_weights g (sum + weight_of_node (lookup id g)) ids

unfoldable pub plan : List TaskDefinition → Result VisitError DagPlan
unfolding build_graph topological_levels critical_path add_weights
plan tasks = do
  g ← build_graph tasks
  levels ← topological_levels g
  best ← critical_path g
  ok (record {
    levels = levels;
    critical_path = best.path;
    estimated_ms = add_weights g 0 best.path;
  })
