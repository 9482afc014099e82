-- ===== src/Engine/Planner/Planned.antt =====
-- What `plan` promises.
use jobflow_project.Common.{
  >>=-eq-ok, All, All-includes, List, Map, Option-cases, Result, Result-cases, Text, [], ap, arith,
  err, err_inj, err_is_not_ok, false, includes, includes-All, inl, inr, keys, length, lookup, none,
  ok, ok_inj, refl, some, some_is_not_none, subst, suc, sym, true, ℕ, ◌<◌, ◌↔◌, ◌∙◌, ◌∷◌, ◌≡◌, ◌≢◌,
  ◌≤◌, ◌⊎◌,
}
use jobflow_project.Domain.{TaskDefinition}
use jobflow_project.Graph.Visit.{Marks, VisitError, cycle, out_of_fuel, visit_all}
use jobflow_project.Graph.Visit.Ranking.{place_of, visit_all-ranks}
use jobflow_project.Graph.Visit.Cycles.{visit_all-no_cycle}
use jobflow_project.Graph.Visit.Fuel.{visit_all_ends}
use jobflow_project.Engine.Planner.{
  DagNode, DagPlan, Route, no_path, nodes_onto, deps_of_node, assert_acyclic, build_graph,
  topological_levels, critical_path, best_of, longest_from, add_weights, plan,
}
use jobflow_project.Engine.Planner.Chains.{Chain, Chain-lookup, IsChainTo, add_weights-Chain}
use jobflow_project.Engine.Planner.Longest.{best_of-Finds, longest_from-Finds}
use jobflow_project.Engine.Planner.Depth.{some-includes, critical_path_ends}
use jobflow_project.Engine.Planner.Graphs.{nodes_onto-IsGraph, empty-IsGraph}
use jobflow_project.Engine.Planner.Levels.{IsLayered, topological_levels-IsLayered}
use jobflow_project.Engine.Planner.Rounds.{topological_levels_ends}

abbrev pub IsRankedIn : (Text → ℕ) → Map DagNode → Type 0
IsRankedIn rank g =
    (id : Text) (n : DagNode) → lookup id g ≡ some n → All (λ dep. rank dep < rank id) n.depends_on

abbrev deps : Map DagNode → Text → List Text
deps g id = deps_of_node (lookup id g)

lookup-keys : (id : Text) (g : Map DagNode) → includes (keys g) id ≡ false → lookup id g ≡ none
unfolding lookup includes keys
lookup-keys id [] h = refl
lookup-keys id ((k, n) ∷ g) h = ground (arith, lookup-keys id g)

module _ (g : Map DagNode) where
  abbrev visited : Result VisitError Marks
  visited = visit_all (deps g) (suc (length (keys g))) (keys g)

  no_deps : (id : Text) → includes (keys g) id ≡ false → deps g id ≡ []
  unfolding deps_of_node
  no_deps id h = rw (lookup-keys id g h) refl

  acyclic_ranked : (m : Marks) → visited ≡ ok m → IsRankedIn (place_of m.visited) g
  acyclic_ranked m h id n e =
      includes-All (λ dep. place_of m.visited dep < place_of m.visited id) n.depends_on
        (λ dep i.
          visit_all-ranks (deps g) (suc (length (keys g))) (keys g) m h id dep
            (some-includes id g n e) (unfold deps_of_node in rw e i))

  ranked_deps :
      (rank : Text → ℕ)
      → IsRankedIn rank g
      → (id : Text) → All (λ dep. rank dep < rank id) (deps g id)
  unfolding deps_of_node
  ranked_deps rank r id = elim (Option-cases (lookup id g)) [
    | inl e ↦ rw e tt
    | inr (n, e) ↦ rw e (r id n e)
  ]

  acyclic_ends : visited ≢ err out_of_fuel
  acyclic_ends =
      visit_all_ends (deps g) (keys g) no_deps (suc (length (keys g))) (keys g) (omega arith)

  critical_path-IsLongest :
      (best : Route)
      → critical_path g ≡ ok best
      → IsChainTo g (λ k. includes (keys g) k ≡ true) best
        × ((id : Text) (path : List Text) (weight : ℕ)
            → Chain g id path weight
            → weight ≤ best.cost)
  unfolding critical_path lookup
  critical_path-IsLongest best h =
      let fuel = suc (suc (length (keys g))) in
      let (r, e, e') =
        >>=-eq-ok (best_of (longest_from g fuel) (keys g) no_path []) (λ r. ok r.0) h in
      let found =
        best_of-Finds g (longest_from g fuel) (longest_from-Finds g fuel) (keys g) (keys g) no_path
          r.0 [] r.1 (λ k i. i) (λ k s q. some_is_not_none (sym q)) (inl refl) e in
      subst
        (λ p.
          IsChainTo g (λ k. includes (keys g) k ≡ true) p
          × ((id : Text) (path : List Text) (weight : ℕ)
              → Chain g id path weight
              → weight ≤ p.cost))
        (ok_inj e')
        (
          found.0,
          λ id path w c.
              let (n, q) = Chain-lookup g id path w c in
              All-includes (λ k. (p : List Text) (v : ℕ) → Chain g k p v → v ≤ r.0.cost) (keys g) id
                found.1 (some-includes id g n q) path w c,
        )

  chain_weight :
      (P : Text → Type 0) (best : Route)
      → IsChainTo g P best
      → add_weights g 0 best.path ≡ best.cost
  unfolding add_weights
  chain_weight P best (inl e) = rw e refl
  chain_weight P best (inr (id, p, c)) = add_weights-Chain g id best.path best.cost c

  -- The three parts of a plan, where there is no cycle.
  plan_of :
      (m : Marks)
      → visited ≡ ok m
      → (ls : List (List Text)) × (best : Route) × (topological_levels g ≡ ok ls)
        × (critical_path g ≡ ok best)
  plan_of m h = elim (Result-cases (topological_levels g)) [
    | inl (e, q) ↦ absurd (topological_levels_ends e g q)
    | inr (ls, q) ↦ elim (Result-cases (critical_path g)) [
      | inl (e, q₂) ↦ absurd (critical_path_ends e g (place_of m.visited) (acyclic_ranked m h) q₂)
      | inr (best, q₂) ↦ (ls, best, q, q₂)
    ]
  ]

abbrev graph_of : List TaskDefinition → Map DagNode
graph_of tasks = nodes_onto [] tasks

-- The plan's path is empty or a chain of the graph, it weighs what the plan estimates, and no chain
-- weighs more.
abbrev pub IsCriticalIn : Map DagNode → DagPlan → Type 0
IsCriticalIn g p =
    ((p.critical_path ≡ []) ⊎ ((id : Text) × Chain g id p.critical_path p.estimated_ms))
    × (p.estimated_ms ≡ add_weights g 0 p.critical_path)
    × ((id : Text) (path : List Text) (weight : ℕ)
        → Chain g id path weight
        → weight ≤ p.estimated_ms)

assembled-IsCriticalIn :
    (g : Map DagNode) (ls : List (List Text)) (best : Route)
    → critical_path g ≡ ok best
    → IsCriticalIn g (record {
      levels = ls;
      critical_path = best.path;
      estimated_ms = add_weights g 0 best.path;
    })
assembled-IsCriticalIn g ls best h =
    let longest = critical_path-IsLongest g best h in
    let weight = sym (chain_weight g (λ k. includes (keys g) k ≡ true) best longest.0) in
    (
      elim longest.0 [
        | inl e ↦ inl (ap Route.path e)
        | inr (id, p, c) ↦ inr (id, subst (Chain g id best.path) weight c)
      ],
      refl,
      λ id path w c. subst (w ≤◌) weight (longest.1 id path w c),
    )

-- Where a plan is made, its estimate is the weight of its critical path, which is empty or a chain of
-- tasks, each a dependency of the next; and no chain of tasks of the job weighs more.
pub plan-critical :
    (tasks : List TaskDefinition) (p : DagPlan)
    → plan tasks ≡ ok p
    → IsCriticalIn (graph_of tasks) p
unfolding plan build_graph
plan-critical tasks p h =
    let (g, eg, h₁) = >>=-eq-ok (build_graph tasks) _ h in
    let (ls, el, h₂) = >>=-eq-ok (topological_levels g) _ h₁ in
    let (best, eb, h₃) = >>=-eq-ok (critical_path g) _ h₂ in
    let (u, eu, e₄) = >>=-eq-ok (assert_acyclic (graph_of tasks)) (λ u. ok (graph_of tasks)) eg in
    subst (λ g'. IsCriticalIn g' p) (sym (ok_inj e₄))
      (subst (IsCriticalIn g) (ok_inj h₃) (assembled-IsCriticalIn g ls best eb))

plan_made :
    (tasks : List TaskDefinition) (m : Marks)
    → visited (graph_of tasks) ≡ ok m
    → (p : DagPlan) × (plan tasks ≡ ok p)
unfolding plan build_graph assert_acyclic
plan_made tasks m h =
    let (ls, best, el, eb) = plan_of (graph_of tasks) m h in
    (
      record {
        levels = ls;
        critical_path = best.path;
        estimated_ms = add_weights (graph_of tasks) 0 best.path;
      },
      rw (h, el, eb) refl,
    )

plan_refused :
    (tasks : List TaskDefinition) (e : VisitError)
    → visited (graph_of tasks) ≡ err e
    → plan tasks ≡ err e
unfolding plan build_graph assert_acyclic
plan_refused tasks e h = rw h refl

-- A plan is made exactly where some ranking puts every task above its dependencies.
pub plan_iff :
    (tasks : List TaskDefinition)
    → (((p : DagPlan) × (plan tasks ≡ ok p))
        ↔ ((rank : Text → ℕ) × IsRankedIn rank (graph_of tasks)))
      × (plan tasks ≢ err out_of_fuel)
plan_iff tasks = elim (Result-cases (visited (graph_of tasks))) [
  | inr (m, h) ↦ (
    (
      λ made. (place_of m.visited, acyclic_ranked (graph_of tasks) m h),
      λ ranked. plan_made tasks m h,
    ),
    λ bad. err_is_not_ok (sym bad ∙ (plan_made tasks m h).1),
  )
  | inl (out_of_fuel, h) ↦ absurd (acyclic_ends (graph_of tasks) h)
  | inl (cycle c, h) ↦ (
    (
      λ (p, made). absurd (err_is_not_ok (sym (plan_refused tasks (cycle c) h) ∙ made)),
      λ (rank, r). absurd (
          visit_all-no_cycle (deps (graph_of tasks)) rank (ranked_deps (graph_of tasks) rank r)
            (suc (length (keys (graph_of tasks)))) (keys (graph_of tasks)) c h),
    ),
    λ bad.
        let e : ◌≡◌ {A = VisitError} (cycle c) out_of_fuel =
          err_inj (sym (plan_refused tasks (cycle c) h) ∙ bad) in
        cc,
  )
]

-- Where a plan is made, each of its levels holds tasks of the job that are in no level before it and not
-- twice in it, and all dependencies of a task are in levels before its own.
pub plan-levels :
    (tasks : List TaskDefinition) (p : DagPlan)
    → plan tasks ≡ ok p
    → IsLayered (graph_of tasks) [] p.levels
unfolding plan build_graph
plan-levels tasks p h =
    let (g, eg, h₁) = >>=-eq-ok (build_graph tasks) _ h in
    let (ls, el, h₂) = >>=-eq-ok (topological_levels g) _ h₁ in
    let (best, eb, h₃) = >>=-eq-ok (critical_path g) _ h₂ in
    let (u, eu, e₄) = >>=-eq-ok (assert_acyclic (graph_of tasks)) (λ u. ok (graph_of tasks)) eg in
    let same : graph_of tasks ≡ g = ok_inj e₄ in
    subst (λ q. IsLayered (graph_of tasks) [] q.levels) (ok_inj h₃)
      (topological_levels-IsLayered (graph_of tasks) (nodes_onto-IsGraph tasks [] empty-IsGraph) ls
        (ap topological_levels same ∙ el))
