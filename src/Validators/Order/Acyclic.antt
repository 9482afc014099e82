-- ===== src/Validators/Order/Acyclic.antt =====
-- The order is refused exactly where the dependencies have a cycle.
use jobflow_project.Common.{
  >>=-eq-ok, All, Bool-cases, List, Map, Option-cases, Result, Result-cases, Text, [], ap, arith,
  err, err_inj, false, includes, includes-All, inl, inr, insert, length, lookup, lookup-insert,
  lookup-insert_self, ok, refl, some, some_inj, subst, suc, sym, text_eq, text_eq_iff, text_eq_refl,
  true, ℕ, ◌<◌, ◌>>=◌, ◌↔◌, ◌∙◌, ◌∷◌, ◌≡◌, ◌≢◌,
}
use jobflow_project.Domain.{TaskDefinition}
use jobflow_project.Validators.Jobs.{deps_of, task_ids}
use jobflow_project.Validators.Jobs.Sound.{IsDistinct}
use jobflow_project.Validators.Order.{index_onto, deps_in, deps_by_id, validate_dependency_order}
use jobflow_project.Graph.Visit.{Marks, VisitError, cycle, out_of_fuel, visit_all}
use jobflow_project.Graph.Visit.Ranking.{place_of, visit_all-ranks}
use jobflow_project.Graph.Visit.Cycles.{visit_all-no_cycle}
use jobflow_project.Graph.Visit.Fuel.{visit_all_ends}

-- `rank` puts each dependency below its task.
abbrev pub IsRankedBy : (Text → ℕ) → List TaskDefinition → Type 0
IsRankedBy rank tasks = All (λ t. All (λ dep. rank dep < rank t.id) (deps_of t)) tasks

lookup-index_other :
    (k : Text) (m : Map TaskDefinition) (ts : List TaskDefinition)
    → includes (task_ids ts) k ≡ false
    → lookup k (index_onto m ts) ≡ lookup k m
unfolding index_onto includes
lookup-index_other k m [] h = refl
lookup-index_other k m (t ∷ ts) h =
    ground (arith, lookup-index_other k (insert t.id t m) ts, lookup-insert t.id k t m)

index-All :
    (m : Map TaskDefinition) (ts : List TaskDefinition)
    → IsDistinct (task_ids ts)
    → All (λ t. lookup t.id (index_onto m ts) ≡ some t) ts
unfolding index_onto IsDistinct
index-All m [] d = tt
index-All m (t ∷ ts) d = (
  lookup-index_other t.id (insert t.id t m) ts d.0 ∙ lookup-insert_self t.id t m,
  index-All (insert t.id t m) ts d.1,
)

deps_by_id-unknown :
    (tasks : List TaskDefinition) (id : Text)
    → includes (task_ids tasks) id ≡ false
    → deps_by_id tasks id ≡ []
unfolding deps_by_id deps_in lookup
deps_by_id-unknown tasks id h = rw (lookup-index_other id [] tasks h) refl

length-task_ids : (ts : List TaskDefinition) → length (task_ids ts) ≡ length ts
length-task_ids [] = refl
length-task_ids (t ∷ ts) = ap suc (length-task_ids ts)

order_ends : (tasks : List TaskDefinition) → validate_dependency_order tasks ≢ err out_of_fuel
unfolding validate_dependency_order
order_ends tasks h =
    elim (Result-cases (visit_all (deps_by_id tasks) (suc (length tasks)) (task_ids tasks))) [
      | inl (e, q) ↦
          visit_all_ends (deps_by_id tasks) (task_ids tasks) (deps_by_id-unknown tasks)
            (suc (length tasks)) (task_ids tasks) (omega (arith, length-task_ids tasks))
            (q ∙ ap err (err_inj (rw q at (h))))
      | inr (m, q) ↦ let e = rw q at h in cc
    ]

found_in :
    (P : Text → TaskDefinition → Type 0) (id : Text) (m : Map TaskDefinition)
    (ts : List TaskDefinition)
    → All (λ t. P t.id t) ts
    → ((t : TaskDefinition) → lookup id m ≡ some t → P id t)
    → (t : TaskDefinition) → lookup id (index_onto m ts) ≡ some t
    → P id t
unfolding index_onto
found_in P id m [] a f t h = f t h
found_in P id m (u ∷ us) a f t h =
    found_in P id (insert u.id u m) us a.1
      (λ v e. elim (Bool-cases (text_eq u.id id)) [
        | inl q ↦
            let same : u ≡ v = some_inj (sym (lookup-insert u.id id u m ∙ rw q refl) ∙ e) in
            subst (P id) same (subst (λ k. P k u) ((text_eq_iff u.id id).0 q) a.0)
        | inr q ↦ f v (sym (lookup-insert u.id id u m ∙ rw q refl) ∙ e)
      ])
      t h

module _ (tasks : List TaskDefinition) where
  -- Of the tasks `ts`, with ids among those of all tasks, each is found under its id.
  ranked_tasks :
      (rank : Text → ℕ) (ts : List TaskDefinition)
      → All (λ t. lookup t.id (index_onto [] tasks) ≡ some t) ts
      → ((k dep : Text)
          → includes (task_ids ts) k ≡ true
          → includes (deps_by_id tasks k) dep ≡ true
          → rank dep < rank k)
      → IsRankedBy rank ts
  unfolding deps_by_id deps_in includes
  ranked_tasks rank [] a f = tt
  ranked_tasks rank (t ∷ ts) a f = (
    includes-All (λ dep. rank dep < rank t.id) (deps_of t)
        (λ dep i. f t.id dep (ground (arith, text_eq_refl t.id)) (rw a.0 i)),
    ranked_tasks rank ts a.1 (λ k dep i d. f k dep (ground (arith, i)) d),
  )

  ranked_ids :
      (rank : Text → ℕ)
      → IsRankedBy rank tasks
      → (id : Text) → All (λ dep. rank dep < rank id) (deps_by_id tasks id)
  unfolding deps_by_id deps_in lookup
  ranked_ids rank r id = elim (Option-cases (lookup id (index_onto [] tasks))) [
    | inl e ↦ rw e tt
    | inr (t, e) ↦
        rw e (
          found_in (λ k u. All (λ dep. rank dep < rank k) (deps_of u)) id [] tasks r (λ u n. cc) t
            e)
  ]

  abbrev deps : Text → List Text
  deps = deps_by_id tasks

  abbrev fuel : ℕ
  fuel = suc (length tasks)

  accepted :
      (rank : Text → ℕ)
      → IsRankedBy rank tasks
      → (r : Result VisitError Marks) → visit_all deps fuel (task_ids tasks) ≡ r
      → ◌≡◌ {A = Result VisitError (Unit {0})} (r >>= λ m. ok tt) (ok tt)
  accepted rank k (ok m) q = refl
  accepted rank k (err (cycle c)) q =
      absurd (visit_all-no_cycle deps rank (ranked_ids rank k) fuel (task_ids tasks) c q)
  accepted rank k (err out_of_fuel) q = absurd (
      visit_all_ends deps (task_ids tasks) (deps_by_id-unknown tasks) fuel (task_ids tasks)
        (omega (arith, length-task_ids tasks)) q)

  -- With distinct ids, the order is accepted exactly when some ranking puts every task above its
  -- dependencies, and refused only for a cycle.
  pub validate_dependency_order_iff :
      IsDistinct (task_ids tasks)
      → ((validate_dependency_order tasks ≡ ok tt) ↔ ((rank : Text → ℕ) × IsRankedBy rank tasks))
        × (validate_dependency_order tasks ≢ err out_of_fuel)
  unfolding validate_dependency_order
  validate_dependency_order_iff d = (
    (
      λ h.
          let (m, e, e') = >>=-eq-ok (visit_all deps fuel (task_ids tasks)) (λ n. ok tt) h in
          (
            place_of m.visited,
            ranked_tasks (place_of m.visited) tasks (index-All [] tasks d)
                (λ k dep i j. visit_all-ranks deps fuel (task_ids tasks) m e k dep i j),
          ),
      λ (rank, r). accepted rank r (visit_all deps fuel (task_ids tasks)) refl,
    ),
    order_ends tasks,
  )
