-- ===== src/Validators/Order.antt =====
-- src/validators/job-definition-validator.ts: `validateDependencyOrder`.
pub mod Acyclic
use jobflow_project.Common.{
  List, Map, Option, Result, Text, [], insert, length, lookup, none, ok, some, suc, ◌>>=◌, ◌∷◌,
}
use jobflow_project.Domain.{TaskDefinition}
use jobflow_project.Validators.Jobs.{deps_of, task_ids}
use jobflow_project.Graph.Visit.{VisitError, visit_all}

-- `new Map(tasks.map((t) => [t.id, t]))`: of tasks with one id the last counts.
unfoldable pub index_onto : Map TaskDefinition → List TaskDefinition → Map TaskDefinition
index_onto m [] = m
index_onto m (t ∷ ts) = index_onto (insert t.id t m) ts

-- `task?.dependsOn ?? []`.
unfoldable pub deps_in : Option TaskDefinition → List Text
deps_in none = []
deps_in (some t) = deps_of t

unfoldable pub deps_by_id : List TaskDefinition → Text → List Text
unfolding deps_in index_onto
deps_by_id tasks id = deps_in (lookup id (index_onto [] tasks))

-- The fuel is one more than the number of tasks, of which each is entered once on a path.
unfoldable pub validate_dependency_order : List TaskDefinition → Result VisitError (Unit {0})
unfolding deps_by_id
validate_dependency_order tasks =
    visit_all (deps_by_id tasks) (suc (length tasks)) (task_ids tasks) >>= λ m. ok tt
