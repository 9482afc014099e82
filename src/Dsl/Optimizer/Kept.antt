-- ===== src/Dsl/Optimizer/Kept.antt =====
-- No task is lost: what `optimize` makes of the tasks.
use jobflow_project.Common.{
  >>=-eq-ok, All, All-includes, Bool, Bool-cases, List, Map, Option-cases, Text, [], ap, arith,
  false, if◌then◌else◌, includes, inl, inr, insert, keys, length, lookup, lookup-insert, none, ok,
  ok_inj, refl, some, some_inj, some_is_not_none, subst, suc, sym, text_eq, text_eq_iff, true, ◌||◌,
  ◌∙◌, ◌∷◌, ◌≡◌, ◌⊎◌,
}
use jobflow_project.Common.Sort.{sort, sort_onto, place}
use jobflow_project.Dsl.Ast.{TaskDslNode, WorkflowDslNode}
use jobflow_project.Validators.Jobs.Sound.{IsDistinct}
use jobflow_project.Dsl.Optimizer.{
  Sorted, tasks_onto, visit_deps, visit_task, task_ids_of, sort_tasks_topologically, shallower,
  depths_onto, merge_parallel_tasks, optimize,
}
use jobflow_project.Dsl.Optimizer.Complete.{
  task_with, IsSorting, visit_deps-Keeps, visit_task-Keeps,
}

pub tasks_onto-own :
    (m : Map TaskDslNode) (ts : List TaskDslNode)
    → ((id : Text) (t : TaskDslNode) → lookup id m ≡ some t → t.id ≡ id)
    → (id : Text) (t : TaskDslNode) → lookup id (tasks_onto m ts) ≡ some t
    → t.id ≡ id
unfolding tasks_onto
tasks_onto-own m [] f id t h = f id t h
tasks_onto-own m (u ∷ us) f id t h =
    tasks_onto-own (insert u.id u m) us
      (λ k v e. elim (Bool-cases (text_eq u.id k)) [
        | inl q ↦
            let same : u ≡ v = some_inj (sym (lookup-insert u.id k u m ∙ rw q refl) ∙ e) in
            ap TaskDslNode.id (sym same) ∙ (text_eq_iff u.id k).0 q
        | inr q ↦ f k v (sym (lookup-insert u.id k u m ∙ rw q refl) ∙ e)
      ])
      id t h

tasks_onto-listed :
    (m : Map TaskDslNode) (ts : List TaskDslNode) (k : Text) (t : TaskDslNode)
    → lookup k (tasks_onto m ts) ≡ some t
    → (includes (task_ids_of ts) k ≡ true) ⊎ (lookup k m ≡ some t)
unfolding tasks_onto task_ids_of includes
tasks_onto-listed m [] k t h = inr h
tasks_onto-listed m (u ∷ us) k t h = elim (tasks_onto-listed (insert u.id u m) us k t h) [
  | inl i ↦ inl (ground (arith, i))
  | inr e ↦ elim (Bool-cases (text_eq u.id k)) [
    | inl q ↦ inl (ground (arith, q))
    | inr q ↦ inr (sym (lookup-insert u.id k u m ∙ rw q refl) ∙ e)
  ]
]

-- Of entries that are found under their ids, each id finds its own.
task_with-lookup :
    (m : Map TaskDslNode) (ts : List TaskDslNode) (id : Text)
    → All (λ t. lookup t.id m ≡ some t) ts
    → includes (task_ids_of ts) id ≡ true
    → task_with id ts ≡ lookup id m
unfolding task_ids_of includes
task_with-lookup m [] id a h = cc
task_with-lookup m (t ∷ ts) id a h = elim (Bool-cases (text_eq t.id id)) [
  | inl e ↦ rw e (sym a.0 ∙ ap (λ j. lookup j m) ((text_eq_iff t.id id).0 e))
  | inr e ↦ rw e (task_with-lookup m ts id a.1 (rw e at (h)))
]

pub task_with-missing :
    (ts : List TaskDslNode) (id : Text)
    → includes (task_ids_of ts) id ≡ false
    → task_with id ts ≡ none
unfolding task_ids_of includes
task_with-missing [] id h = refl
task_with-missing (t ∷ ts) id h = ground (arith, task_with-missing ts id)

-- Each id once, with the task that the map holds.
abbrev pub IsListing : Map TaskDslNode → List TaskDslNode → Type 0
IsListing m ts = IsDistinct (task_ids_of ts) × ((id : Text) → task_with id ts ≡ lookup id m)

pub nothing_in : (k : Text) {A : Type 0} {a b : A} → includes [] k ≡ true → a ≡ b
unfolding includes
nothing_in k h = cc

pub start-IsSorting :
    (by_id : Map TaskDslNode)
    (own : (id : Text) (t : TaskDslNode) → lookup id by_id ≡ some t → t.id ≡ id)
    → IsSorting by_id own [] (record { visited = []; out = [] })
unfolding includes task_ids_of IsDistinct
start-IsSorting by_id own = record {
  entries = tt;
  distinct = tt;
  seen = λ k i. i;
  complete = λ k t i e. inl i;
  apart = λ k i. refl;
  entered = λ k i. i;
}

pub sorted-IsListing :
    (tasks out : List TaskDslNode)
    → sort_tasks_topologically tasks ≡ ok out
    → IsListing (tasks_onto [] tasks) out
unfolding sort_tasks_topologically lookup
sorted-IsListing tasks out h =
    let by_id = tasks_onto [] tasks in
    let own = tasks_onto-own [] tasks (λ k t e. some_is_not_none (sym e)) in
    let start : Sorted = record { visited = []; out = [] } in
    let fuel = suc (length (keys by_id)) in
    let (s, e, e') =
      >>=-eq-ok (visit_deps (visit_task by_id fuel) (task_ids_of tasks) start) (λ s. ok s.out) h in
    let kept =
      visit_deps-Keeps by_id own (visit_task by_id fuel) (visit_task-Keeps by_id own fuel) []
        (task_ids_of tasks) start s e (start-IsSorting by_id own) in
    subst (IsListing by_id) (ok_inj e') (
      kept.0.distinct,
      λ id. elim (Bool-cases (includes (task_ids_of s.out) id)) [
        | inl i ↦ task_with-lookup by_id s.out id kept.0.entries i
        | inr i ↦ elim (Option-cases (lookup id by_id)) [
          | inl q ↦ task_with-missing s.out id i ∙ sym q
          | inr (t, q) ↦ elim (tasks_onto-listed [] tasks id t q) [
            | inr none_there ↦ some_is_not_none (sym none_there)
            | inl listed ↦
                elim (kept.0.complete id t
                  (All-includes (λ k. includes s.visited k ≡ true) (task_ids_of tasks) id kept.1
                    listed)
                  q) [
                    | inl waits ↦ nothing_in id waits
                    | inr there ↦ let clash : true ≡ false = sym there ∙ i in cc
                  ]
          ]
        ]
      ],
    )

module _ (lt : TaskDslNode → TaskDslNode → Bool) where
  includes-place :
      (x : TaskDslNode) (xs : List TaskDslNode) (k : Text)
      → includes (task_ids_of (place lt x xs)) k ≡ (text_eq x.id k || includes (task_ids_of xs) k)
  unfolding place task_ids_of includes
  includes-place x [] k = refl
  includes-place x (y ∷ ys) k = ground (arith, includes-place x ys k)

  place-IsDistinct :
      (x : TaskDslNode) (xs : List TaskDslNode)
      → includes (task_ids_of xs) x.id ≡ false
      → IsDistinct (task_ids_of xs)
      → IsDistinct (task_ids_of (place lt x xs))
  unfolding place task_ids_of includes IsDistinct
  place-IsDistinct x [] h d = (refl, tt)
  place-IsDistinct x (y ∷ ys) h d = elim (Bool-cases (lt x y)) [
    | inl e ↦ rw e (h, d)
    | inr e ↦ rw e (
      ground
          (arith, includes-place x ys y.id, text_eq_iff x.id y.id, text_eq_iff y.id x.id, h, d.0),
      place-IsDistinct x ys (ground (arith, h)) d.1,
    )
  ]

  task_with-place :
      (x : TaskDslNode) (xs : List TaskDslNode) (id : Text)
      → includes (task_ids_of xs) x.id ≡ false
      → task_with id (place lt x xs) ≡ (if text_eq x.id id then some x else task_with id xs)
  unfolding place task_ids_of includes
  task_with-place x [] id h = refl
  task_with-place x (y ∷ ys) id h = ground (
    arith,
    task_with-place x ys id,
    h,
    text_eq_iff x.id id,
    text_eq_iff y.id id,
    text_eq_iff y.id x.id,
  )

  -- The entries still to be placed are others than those that are.
  abbrev AreOthers : List TaskDslNode → List TaskDslNode → Type 0
  AreOthers sorted xs = All (λ x. includes (task_ids_of sorted) x.id ≡ false) xs

  place-AreOthers :
      (x : TaskDslNode) (sorted xs : List TaskDslNode)
      → includes (task_ids_of xs) x.id ≡ false
      → AreOthers sorted xs
      → AreOthers (place lt x sorted) xs
  unfolding task_ids_of includes
  place-AreOthers x sorted [] h a = tt
  place-AreOthers x sorted (y ∷ ys) h a = (
    ground
        (arith, includes-place x sorted y.id, text_eq_iff x.id y.id, text_eq_iff y.id x.id, h, a.0),
    place-AreOthers x sorted ys (ground (arith, h)) a.1,
  )

  sort_onto-task_with :
      (sorted xs : List TaskDslNode)
      → IsDistinct (task_ids_of sorted)
      → IsDistinct (task_ids_of xs)
      → AreOthers sorted xs
      → IsDistinct (task_ids_of (sort_onto lt sorted xs))
        × ((id : Text)
            → task_with id (sort_onto lt sorted xs)
              ≡ (if includes (task_ids_of sorted) id then task_with id sorted else task_with id xs))
  unfolding sort_onto task_ids_of IsDistinct includes
  sort_onto-task_with sorted [] d e a = (d, λ id. ground (arith, task_with-missing sorted id))
  sort_onto-task_with sorted (x ∷ xs) d e a =
      let rest =
        sort_onto-task_with (place lt x sorted) xs (place-IsDistinct x sorted a.0 d) e.1
          (place-AreOthers x sorted xs e.0 a.1) in
      (
        rest.0,
        λ id.
            let absent : text_eq x.id id ≡ true → includes (task_ids_of sorted) id ≡ false = λ q.
              subst (λ j. includes (task_ids_of sorted) j ≡ false) ((text_eq_iff x.id id).0 q)
                a.0 in
            rest.1 id ∙ elim (Bool-cases (text_eq x.id id)) [
              | inl q ↦
                  rw (task_with-place x sorted id a.0, includes-place x sorted id, q, absent q) refl
              | inr q ↦ rw (task_with-place x sorted id a.0, includes-place x sorted id, q) refl
            ],
      )

  pub sort-task_with :
      (xs : List TaskDslNode)
      → IsDistinct (task_ids_of xs)
      → IsDistinct (task_ids_of (sort lt xs))
        × ((id : Text) → task_with id (sort lt xs) ≡ task_with id xs)
  unfolding sort includes task_ids_of IsDistinct
  sort-task_with xs d = sort_onto-task_with [] xs tt d (none_placed xs)
    where
      none_placed : (ys : List TaskDslNode) → AreOthers [] ys
      none_placed [] = tt
      none_placed (y ∷ ys) = (refl, none_placed ys)

-- What `optimize` keeps.
pub optimize-keeps :
    (w w' : WorkflowDslNode)
    → optimize w ≡ ok w'
    → IsListing (tasks_onto [] w.tasks) w'.tasks
      × (w'.name ≡ w.name)
      × (w'.version ≡ w.version)
      × (w'.constraints ≡ w.constraints)
unfolding optimize merge_parallel_tasks
optimize-keeps w w' h =
    let (tasks, e, e') = >>=-eq-ok (sort_tasks_topologically w.tasks) _ h in
    let listing = sorted-IsListing w.tasks tasks e in
    let merged = sort-task_with (shallower (depths_onto [] tasks)) tasks listing.0 in
    let same = ok_inj e' in
    (
      subst (λ o. IsListing (tasks_onto [] w.tasks) o.tasks) same
          (merged.0, λ id. merged.1 id ∙ listing.1 id),
      ap WorkflowDslNode.name (sym same),
      ap WorkflowDslNode.version (sym same),
      ap WorkflowDslNode.constraints (sym same),
    )
