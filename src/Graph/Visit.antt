-- ===== src/Graph/Visit.antt =====
-- `visit`, the inner function of `validateDependencyOrder` and of `assertAcyclic`: the two differ in
-- how a node's dependencies are found, `deps`, and in the error thrown. Sets hold the newest first.
pub mod Restore
pub mod Ranking
pub mod Cycles
pub mod Fuel
use jobflow_project.Common.{
  List, Result, Text, [], err, false, if◌then◌else◌, includes, not, ok, select, suc, text_eq, true,
  zero, ℕ, ◌>>=◌, ◌∷◌,
}

pub record Marks : Type 0 where
  pub visiting : List Text
  pub visited : List Text

-- `out_of_fuel` has no counterpart in the program.
pub data VisitError : Type 0 where
  cycle : (id : Text) → VisitError
  out_of_fuel : VisitError

abbrev pub Visited : Type 0
Visited = Result VisitError Marks

-- `set.add` and `set.delete`.
unfoldable pub mark : Text → List Text → List Text
mark id ids = if includes ids id then ids else id ∷ ids

unfoldable pub unmark : Text → List Text → List Text
unmark id ids = select (λ k. not (text_eq k id)) ids

-- `for (const dep of deps) visit(dep)`.
unfoldable pub visit_each : (Text → Marks → Visited) → List Text → Marks → Visited
visit_each step [] m = ok m
visit_each step (id ∷ ids) m = step id m >>= visit_each step ids

-- Once the dependencies are visited.
unfoldable pub leave : Text → Marks → Visited
unfolding mark unmark
leave id m = ok (record { visiting = unmark id m.visiting; visited = mark id m.visited })

abbrev pub unmarked : Marks
unmarked = record { visiting = []; visited = [] }

module _ (deps : Text → List Text) where
  unfoldable pub visit : ℕ → Text → Marks → Visited
  unfolding visit_each leave mark
  visit zero id m = err out_of_fuel
  visit (suc fuel) id m = elim (includes m.visited id) [
    | true ↦ ok m
    | false ↦ elim (includes m.visiting id) [
      | true ↦ err (cycle id)
      | false ↦
          visit_each (visit fuel) (deps id) (record m { visiting = mark id m.visiting })
          >>= leave id
    ]
  ]

  -- A visit of every node.
  unfoldable pub visit_all : ℕ → List Text → Visited
  unfolding visit visit_each
  visit_all fuel ids = visit_each (visit fuel) ids unmarked
