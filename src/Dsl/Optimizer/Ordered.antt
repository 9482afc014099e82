-- ===== src/Dsl/Optimizer/Ordered.antt =====
-- The order of the tasks after `optimize`: each behind its dependencies.
use jobflow_project.Common.{
  >>=-eq-ok, All, All-mapped, Bool-cases, List, Map, Option-cases, Text, [], arith, err_is_not_ok,
  includes, inl, inr, lookup, ok, ok_inj, some, subst, suc, text_eq, text_eq_iff, true, zero, ℕ,
  ◌++◌, ◌<◌, ◌||◌, ◌∷◌, ◌≡◌,
}
use jobflow_project.Dsl.Ast.{TaskDslNode}
use jobflow_project.Graph.Visit.{mark}
use jobflow_project.Dsl.Optimizer.{Sorted, Sorting, visit_deps, push_task, visit_task, task_ids_of}
use jobflow_project.Dsl.Optimizer.Complete.{
  IsSorting, enter-IsSorting, visit_task-Keeps, visit_deps-Keeps,
}

module _ (by_id : Map TaskDslNode) where
  -- The dependencies of a task that are tasks are among `earlier`.
  abbrev pub IsBehind : List Text → TaskDslNode → Type 0
  IsBehind earlier t =
      All (λ dep. (u : TaskDslNode) → lookup dep by_id ≡ some u → includes earlier dep ≡ true)
        t.depends_on

  -- Each task is behind its dependencies.
  unfoldable pub IsInOrder : List Text → List TaskDslNode → Type 0
  IsInOrder earlier [] = Unit
  IsInOrder earlier (t ∷ ts) = IsBehind earlier t × IsInOrder (t.id ∷ earlier) ts

  last-IsInOrder :
      (earlier : List Text) (ts : List TaskDslNode) (t : TaskDslNode)
      → IsInOrder earlier ts
      → All
          (λ dep.
            (u : TaskDslNode)
            → lookup dep by_id ≡ some u
            → (includes earlier dep || includes (task_ids_of ts) dep) ≡ true)
          t.depends_on
      → IsInOrder earlier (ts ++ t ∷ [])
  unfolding IsInOrder task_ids_of includes
  last-IsInOrder earlier [] t o a =
      (All-mapped t.depends_on (λ dep f u e. ground (arith, f u e)) a, tt)
  last-IsInOrder earlier (v ∷ ts) t o a = (
    o.0,
    last-IsInOrder (v.id ∷ earlier) ts t o.1
        (All-mapped t.depends_on (λ dep f u e. ground (arith, f u e)) a),
  )

  module _ (own : (id : Text) (t : TaskDslNode) → lookup id by_id ≡ some t → t.id ≡ id)
      (rank : Text → ℕ)
      (ranked : (id : Text) (t : TaskDslNode)
        → lookup id by_id ≡ some t
        → All (λ dep. rank dep < rank id) t.depends_on) where
    -- The node lies below all that wait.
    abbrev Below : Text → List Text → Type 0
    Below id stack = (k : Text) → includes stack k ≡ true → rank id < rank k

    abbrev Orders : (Text → Sorted → Sorting) → Type 0
    Orders step =
        (stack : List Text) (id : Text) (s s' : Sorted)
        → step id s ≡ ok s'
        → IsSorting by_id own stack s
        → Below id stack
        → IsInOrder [] s.out
        → IsInOrder [] s'.out

    pub visit_deps-Orders :
        (fuel : ℕ)
        → Orders (visit_task by_id fuel)
        → (stack ids : List Text) (s s' : Sorted) → visit_deps (visit_task by_id fuel) ids s ≡ ok s'
        → IsSorting by_id own stack s
        → All (λ id. Below id stack) ids
        → IsInOrder [] s.out
        → IsInOrder [] s'.out
    unfolding visit_deps
    visit_deps-Orders fuel f stack [] s s' h w b o = subst (λ r. IsInOrder [] r.out) (ok_inj h) o
    visit_deps-Orders fuel f stack (id ∷ ids) s s' h w b o =
        let (r, e, e') =
          >>=-eq-ok (visit_task by_id fuel id s) (visit_deps (visit_task by_id fuel) ids) h in
        let kept = visit_task-Keeps by_id own fuel stack id s r e w in
        visit_deps-Orders fuel f stack ids r s' e' kept.0 b.1 (f stack id s r e w b.0 o)

    -- The dependencies of a task lie below it and below all that wait for it.
    deps-Below :
        (id : Text) (stack ids : List Text)
        → Below id stack
        → All (λ dep. rank dep < rank id) ids
        → All (λ dep. Below dep (id ∷ stack)) ids
    unfolding includes
    deps-Below id stack [] b a = tt
    deps-Below id stack (dep ∷ ids) b a = (
      λ k i. elim (Bool-cases (text_eq id k)) [
        | inl e ↦ subst (λ j. rank dep < rank j) ((text_eq_iff id k).0 e) a.0
        | inr e ↦ omega (arith, b k (rw e at (i)), a.0)
      ],
      deps-Below id stack ids b a.1,
    )

    -- A dependency that was visited does not wait, so it is in the new order.
    deps_done :
        (stack ids : List Text) (r : Sorted)
        → IsSorting by_id own stack r
        → All (λ dep. Below dep stack) ids
        → All (λ dep. includes r.visited dep ≡ true) ids
        → All
            (λ dep.
              (u : TaskDslNode)
              → lookup dep by_id ≡ some u
              → (includes [] dep || includes (task_ids_of r.out) dep) ≡ true)
            ids
    unfolding includes
    deps_done stack [] r w b a = tt
    deps_done stack (dep ∷ ids) r w b a = (
      λ u e. elim (w.complete dep u a.0 e) [
        | inl i ↦ absurd (omega (arith, b.0 dep i))
        | inr i ↦ i
      ],
      deps_done stack ids r w b.1 a.1,
    )

    pub visit_task-Orders : (fuel : ℕ) → Orders (visit_task by_id fuel)
    unfolding visit_task push_task
    visit_task-Orders zero stack id s s' h w b o = absurd (err_is_not_ok h)
    visit_task-Orders (suc fuel) stack id s s' h w b o = elim (Bool-cases (includes s.visited id)) [
      | inl v ↦ subst (λ r. IsInOrder [] r.out) (ok_inj (rw (v, visit_task) at (h))) o
      | inr v ↦ elim (Option-cases (lookup id by_id)) [
        | inl e ↦ subst (λ r. IsInOrder [] r.out) (ok_inj (rw (v, e, visit_task) at (h))) o
        | inr (t, e) ↦
            let inner = record s { visited = mark id s.visited } in
            let (r, q, q') =
              >>=-eq-ok (visit_deps (visit_task by_id fuel) t.depends_on inner) (push_task t)
                (rw (v, e, visit_task) at (h)) in
            let below = deps-Below id stack t.depends_on b (ranked id t e) in
            let start = enter-IsSorting by_id own stack id s w v in
            let kept =
              visit_deps-Keeps by_id own (visit_task by_id fuel) (visit_task-Keeps by_id own fuel)
                (id ∷ stack) t.depends_on inner r q start in
            let order =
              visit_deps-Orders fuel (visit_task-Orders fuel) (id ∷ stack) t.depends_on inner r q
                start below o in
            subst (λ x. IsInOrder [] x.out) (ok_inj q')
              (last-IsInOrder [] r.out t order
                (deps_done (id ∷ stack) t.depends_on r kept.0 below kept.1))
      ]
    ]
