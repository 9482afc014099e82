-- ===== src/Engine/Planner/Samples.antt =====
-- A job of four tasks, one that names a dependency twice, and the theorems on plans at the first.
use jobflow_project.Common.{
  List, Text, [], err, includes, insert, keys, lookup, none, ok, refl, some, text, text_eq, values,
  ℕ, ◌↔◌, ◌∷◌, ◌≡◌, ◌≢◌,
}
use jobflow_project.Domain.{TaskDefinition}
use jobflow_project.Graph.Visit.{out_of_fuel, visit, visit_all, visit_each, leave, mark, unmark}
use jobflow_project.Engine.Planner.{
  DagPlan, nodes_onto, node_of, assert_acyclic, build_graph, topological_levels, critical_path,
  best_of, longest_from, add_weights, plan, deps_of_node, weight_of_node, extend, better,
  levels_from, lower_each, lower_dependents, lower, pred, is_zero, degree_of, add_last,
  count_degrees, zero_degrees,
}
use jobflow_project.Engine.Planner.Planned.{
  IsCriticalIn, IsRankedIn, plan-critical, plan-levels, plan_iff,
}
use jobflow_project.Engine.Planner.Levels.{IsLayered}

abbrev timed : Text → ℕ → List Text → TaskDefinition
timed id timeout_ms deps = record {
  id = id;
  name = id;
  handler = text "h";
  timeout_ms = timeout_ms;
  optional = none;
  depends_on = some deps;
}

abbrev diamond : List TaskDefinition
diamond =
    timed (text "d") 2 (text "b" ∷ text "c" ∷ [])
    ∷ timed (text "a") 5 []
    ∷ timed (text "b") 7 (text "a" ∷ [])
    ∷ timed (text "c") 3 (text "a" ∷ [])
    ∷ []

abbrev diamond_plan : DagPlan
diamond_plan = record {
  levels = (text "a" ∷ []) ∷ (text "b" ∷ text "c" ∷ []) ∷ (text "d" ∷ []) ∷ [];
  critical_path = text "a" ∷ text "b" ∷ text "d" ∷ [];
  estimated_ms = 14;
}

program : Unit {0}
unfolding plan build_graph nodes_onto node_of assert_acyclic topological_levels critical_path
    best_of longest_from add_weights deps_of_node weight_of_node extend better levels_from
    lower_each lower_dependents lower pred is_zero degree_of add_last count_degrees zero_degrees
    visit_all visit visit_each leave mark unmark text_eq includes lookup insert keys values
program = tt

diamond_planned : plan diamond ≡ ok diamond_plan
unfolding program
diamond_planned = refl

-- The task that names a dependency twice is in no level.
abbrev twice : List TaskDefinition
twice = timed (text "a") 5 [] ∷ timed (text "b") 7 (text "a" ∷ text "a" ∷ []) ∷ []

twice_lost :
    plan twice
    ≡ ok (record {
      levels = (text "a" ∷ []) ∷ [];
      critical_path = text "a" ∷ text "b" ∷ [];
      estimated_ms = 12;
    })
unfolding program
twice_lost = refl

plan-critical_example : IsCriticalIn (nodes_onto [] diamond) diamond_plan
plan-critical_example = plan-critical diamond diamond_plan diamond_planned

plan_iff_example :
    (((p : DagPlan) × (plan diamond ≡ ok p))
      ↔ ((rank : Text → ℕ) × IsRankedIn rank (nodes_onto [] diamond)))
    × (plan diamond ≢ err out_of_fuel)
plan_iff_example = plan_iff diamond

plan-levels_example : IsLayered (nodes_onto [] diamond) [] diamond_plan.levels
plan-levels_example = plan-levels diamond diamond_plan diamond_planned
