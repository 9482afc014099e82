-- ===== src/Engine/Planner/Chains.antt =====
-- A chain of tasks, each a dependency of the next, and its weight: what a critical path is to be.
use jobflow_project.Common.{
  List, Map, Text, [], arith, includes, lookup, refl, some, true, ℕ, ◌++◌, ◌+◌, ◌∙◌, ◌∷◌, ◌≡◌, ◌≤◌,
  ◌⊎◌,
}
use jobflow_project.Engine.Planner.{DagNode, Route, no_path, add_weights, weight_of_node}

module _ (g : Map DagNode) where
  -- A chain that ends in a task, listed from its start.
  pub data Chain : Text → List Text → ℕ → Type 0 where
    single : (id : Text) (n : DagNode) → lookup id g ≡ some n → Chain id (id ∷ []) n.weight_ms
    link :
        (id : Text) (n : DagNode) (dep : Text) (path : List Text) (weight : ℕ)
        → lookup id g ≡ some n
        → includes n.depends_on dep ≡ true
        → Chain dep path weight
        → Chain id (path ++ id ∷ []) (n.weight_ms + weight)

  -- A path is the empty one, or a chain to one of the given tasks, of its cost.
  abbrev pub IsChainTo : (Text → Type 0) → Route → Type 0
  IsChainTo P r = (r ≡ no_path) ⊎ ((id : Text) × P id × Chain id r.path r.cost)

  -- No chain to the task weighs more.
  abbrev pub Bounds : Text → ℕ → Type 0
  Bounds id cost = (path : List Text) (weight : ℕ) → Chain id path weight → weight ≤ cost

  add_weights-append :
      (id : Text) (sum : ℕ) (path : List Text)
      → add_weights g sum (path ++ id ∷ []) ≡ add_weights g sum path + weight_of_node (lookup id g)
  unfolding add_weights
  add_weights-append id sum [] = refl
  add_weights-append id sum (k ∷ path) =
      add_weights-append id (sum + weight_of_node (lookup k g)) path

  -- A chain weighs what its tasks weigh together.
  pub add_weights-Chain :
      (id : Text) (path : List Text) (weight : ℕ)
      → Chain id path weight
      → add_weights g 0 path ≡ weight
  unfolding add_weights weight_of_node
  add_weights-Chain id path weight (single k n e) = rw e omega arith
  add_weights-Chain id path weight (link k n dep p w e d c) =
      add_weights-append k 0 p ∙ rw (e, add_weights-Chain dep p w c) omega arith

  pub Chain-lookup :
      (id : Text) (path : List Text) (weight : ℕ)
      → Chain id path weight
      → (n : DagNode) × (lookup id g ≡ some n)
  Chain-lookup id path weight (single k n e) = (n, e)
  Chain-lookup id path weight (link k n dep p w e d c) = (n, e)
