-- ===== src/Dsl/Optimizer/Depths.antt =====
-- The sort by depth keeps every task behind its dependencies.
use jobflow_project.Common.{
  >>=-eq-ok, All, All-includes, Bool-cases, List, Map, Text, [], ap, arith, false, if◌then◌else◌,
  includes, includes-All, inl, inr, insert, keys, length, lookup, lookup-insert, max, ok, ok_inj,
  refl, some, some_is_not_none, subst, suc, sym, text_eq, text_eq_iff, text_eq_refl, true,
  true_is_not_false, ℕ, ◌+◌, ◌<◌, ◌||◌, ◌∙◌, ◌∷◌, ◌≡◌, ◌≤◌,
}
use jobflow_project.Common.Sort.{sort, IsSorted, sort-IsSorted, All-sort}
use jobflow_project.Dsl.Ast.{TaskDslNode, WorkflowDslNode}
use jobflow_project.Validators.Jobs.Sound.{IsDistinct}
use jobflow_project.Dsl.Optimizer.{
  Sorted, tasks_onto, visit_deps, visit_task, task_ids_of, depth_of, deepest, depths_onto,
  shallower, sort_tasks_topologically, merge_parallel_tasks, optimize,
}
use jobflow_project.Dsl.Optimizer.Complete.{task_with}
use jobflow_project.Dsl.Optimizer.Kept.{
  IsListing, nothing_in, sort-task_with, tasks_onto-own, start-IsSorting, task_with-missing,
  sorted-IsListing,
}
use jobflow_project.Dsl.Optimizer.Ordered.{IsInOrder, visit_task-Orders, visit_deps-Orders}

depth_of-insert :
    (id k : Text) (d : ℕ) (depth : Map ℕ)
    → depth_of k (insert id d depth) ≡ (if text_eq id k then d else depth_of k depth)
unfolding depth_of
depth_of-insert id k d depth = elim (Bool-cases (text_eq id k)) [
  | inl e ↦ rw (lookup-insert id k d depth, e) refl
  | inr e ↦ rw (lookup-insert id k d depth, e) refl
]

depths_onto-other :
    (depth : Map ℕ) (ts : List TaskDslNode) (k : Text)
    → includes (task_ids_of ts) k ≡ false
    → depth_of k (depths_onto depth ts) ≡ depth_of k depth
unfolding depths_onto task_ids_of includes
depths_onto-other depth [] k h = refl
depths_onto-other depth (t ∷ ts) k h =
    let d = deepest depth 0 t.depends_on + 1 in
    let other : text_eq t.id k ≡ false = ground (arith, h) in
    depths_onto-other (insert t.id d depth) ts k (ground (arith, h))
    ∙ (depth_of-insert t.id k d depth ∙ rw other refl)

deepest-le :
    (depth : Map ℕ) (m : ℕ) (ids : List Text)
    → (m ≤ deepest depth m ids) × All (λ id. depth_of id depth ≤ deepest depth m ids) ids
unfolding deepest
deepest-le depth m [] = (omega arith, tt)
deepest-le depth m (id ∷ ids) =
    let rest = deepest-le depth (max m (depth_of id depth)) ids in
    (omega (arith, rest.0), (omega (arith, rest.0), rest.1))

shallower_asym :
    (depth : Map ℕ) (x y : TaskDslNode) → shallower depth x y ≡ true → shallower depth y x ≡ false
unfolding shallower
shallower_asym depth x y h = ground (arith, h)

shallower_trans :
    (depth : Map ℕ) (x y z : TaskDslNode)
    → shallower depth y x ≡ false
    → shallower depth z y ≡ false
    → shallower depth z x ≡ false
unfolding shallower
shallower_trans depth x y z h g = ground (arith, h, g)

-- A task that is found is listed.
listed_in :
    (ts : List TaskDslNode) (k : Text) (u : TaskDslNode)
    → task_with k ts ≡ some u
    → (includes [] k || includes (task_ids_of ts) k) ≡ true
unfolding includes
listed_in ts k u h = elim (Bool-cases (includes (task_ids_of ts) k)) [
  | inl e ↦ e
  | inr e ↦ some_is_not_none (sym h ∙ task_with-missing ts k e)
]

module _ (by_id : Map TaskDslNode) where
  -- The dependencies of a task that are tasks are less deep.
  abbrev Rises : Map ℕ → TaskDslNode → Type 0
  Rises depth t =
      (dep : Text) (u : TaskDslNode)
      → includes t.depends_on dep ≡ true
      → lookup dep by_id ≡ some u
      → depth_of dep depth < depth_of t.id depth

  depths_onto-Rises :
      (earlier : List Text) (ts : List TaskDslNode) (depth : Map ℕ)
      → IsInOrder by_id earlier ts
      → IsDistinct (task_ids_of ts)
      → ((k : Text) → includes earlier k ≡ true → includes (task_ids_of ts) k ≡ false)
      → All (Rises (depths_onto depth ts)) ts
  unfolding depths_onto IsInOrder task_ids_of includes IsDistinct
  depths_onto-Rises earlier [] depth o d f = tt
  depths_onto-Rises earlier (t ∷ ts) depth o d f =
      let deepest_dep = deepest depth 0 t.depends_on in
      let depth₁ = insert t.id (deepest_dep + 1) depth in
      let own : depth_of t.id (depths_onto depth₁ ts) ≡ deepest_dep + 1 =
        depths_onto-other depth₁ ts t.id d.0
        ∙ (depth_of-insert t.id t.id (deepest_dep + 1) depth ∙ rw (text_eq_refl t.id) refl) in
      (
        λ dep u i e.
            let before =
              All-includes
                (λ k. (v : TaskDslNode) → lookup k by_id ≡ some v → includes earlier k ≡ true)
                t.depends_on dep o.0 i u e in
            let apart = f dep before in
            let other : text_eq t.id dep ≡ false = ground (arith, apart) in
            let same : depth_of dep (depths_onto depth₁ ts) ≡ depth_of dep depth =
              depths_onto-other depth₁ ts dep (ground (arith, apart))
              ∙ (depth_of-insert t.id dep (deepest_dep + 1) depth ∙ rw other refl) in
            let le =
              All-includes (λ k. depth_of k depth ≤ deepest_dep) t.depends_on dep
                (deepest-le depth 0 t.depends_on).1 i in
            omega (arith, own, same, le),
        depths_onto-Rises (t.id ∷ earlier) ts depth₁ o.1 d.1 (λ k i.
            elim (Bool-cases (text_eq t.id k)) [
              | inl q ↦
                  subst (λ j. includes (task_ids_of ts) j ≡ false) ((text_eq_iff t.id k).0 q) d.0
              | inr q ↦ let apart = f k (ground (arith, i, q)) in ground (arith, apart)
            ]),
      )

  not_shallower :
      (depth : Map ℕ) (t : TaskDslNode) (ts : List TaskDslNode) (k : Text)
      → All (λ y. shallower depth y t ≡ false) ts
      → includes (task_ids_of ts) k ≡ true
      → depth_of t.id depth ≤ depth_of k depth
  unfolding shallower task_ids_of includes
  not_shallower depth t [] k a h = cc
  not_shallower depth t (y ∷ ys) k a h = elim (Bool-cases (text_eq y.id k)) [
    | inl e ↦
        subst (λ j. depth_of t.id depth ≤ depth_of j depth) ((text_eq_iff y.id k).0 e)
          (ground (arith, a.0))
    | inr e ↦ not_shallower depth t ys k a.1 (rw e at (h))
  ]

  sorted-IsInOrder :
      (depth : Map ℕ) (earlier : List Text) (ts : List TaskDslNode)
      → IsSorted (shallower depth) ts
      → All (Rises depth) ts
      → ((k : Text) (u : TaskDslNode)
          → lookup k by_id ≡ some u
          → (includes earlier k || includes (task_ids_of ts) k) ≡ true)
      → IsInOrder by_id earlier ts
  unfolding IsInOrder task_ids_of includes
  sorted-IsInOrder depth earlier [] s r f = tt
  sorted-IsInOrder depth earlier (t ∷ ts) s r f = (
    includes-All
        (λ dep. (u : TaskDslNode) → lookup dep by_id ≡ some u → includes earlier dep ≡ true)
        t.depends_on
        (λ dep i u e.
          let lower = r.0 dep u i e in
          elim (Bool-cases (includes earlier dep)) [
            | inl q ↦ q
            | inr q ↦ elim (Bool-cases (text_eq t.id dep)) [
              | inl z ↦
                  let same = ap (λ j. depth_of j depth) ((text_eq_iff t.id dep).0 z) in
                  absurd (omega (arith, same, lower))
              | inr z ↦
                  let listed = f dep u e in
                  let later : includes (task_ids_of ts) dep ≡ true = ground (arith, listed, q, z) in
                  absurd (omega (arith, lower, not_shallower depth t ts dep s.0 later))
            ]
          ]),
    sorted-IsInOrder depth (t.id ∷ earlier) ts s.1 r.1
        (λ k u e. let listed = f k u e in ground (arith, listed)),
  )

none_wait :
    (rank : Text → ℕ) (ids : List Text)
    → All (λ id. (k : Text) → includes [] k ≡ true → rank id < rank k) ids
unfolding includes
none_wait rank [] = tt
none_wait rank (id ∷ ids) = (λ k i. absurd (true_is_not_false (sym i)), none_wait rank ids)

merged-IsInOrder :
    (by_id : Map TaskDslNode) (w : WorkflowDslNode) (tasks : List TaskDslNode)
    (w' : WorkflowDslNode)
    → IsInOrder by_id [] tasks
    → IsListing by_id tasks
    → record w { tasks = merge_parallel_tasks tasks } ≡ w'
    → IsInOrder by_id [] w'.tasks
unfolding merge_parallel_tasks
merged-IsInOrder by_id w tasks w' o listing same =
    let depth = depths_onto [] tasks in
    let merged = sort-task_with (shallower depth) tasks listing.0 in
    subst (λ x. IsInOrder by_id [] x.tasks) same
      (sorted-IsInOrder by_id depth [] (sort (shallower depth) tasks)
        (sort-IsSorted (shallower depth) (shallower_asym depth) (shallower_trans depth) tasks)
        (All-sort (shallower depth) (Rises by_id depth) tasks
          (depths_onto-Rises by_id [] tasks [] o listing.0 (λ k i. nothing_in k i)))
        (λ k u e. listed_in (sort (shallower depth) tasks) k u (merged.1 k ∙ (listing.1 k ∙ e))))

-- Where some ranking puts every task above its dependencies, `optimize` puts each task behind those of
-- its dependencies that are tasks of the workflow.
pub optimize-IsInOrder :
    (w w' : WorkflowDslNode) (rank : Text → ℕ)
    → ((id : Text) (t : TaskDslNode)
        → lookup id (tasks_onto [] w.tasks) ≡ some t
        → All (λ dep. rank dep < rank id) t.depends_on)
    → optimize w ≡ ok w'
    → IsInOrder (tasks_onto [] w.tasks) [] w'.tasks
unfolding optimize sort_tasks_topologically lookup
optimize-IsInOrder w w' rank ranked h =
    let by_id = tasks_onto [] w.tasks in
    let own = tasks_onto-own [] w.tasks (λ k t e. some_is_not_none (sym e)) in
    let start : Sorted = record { visited = []; out = [] } in
    let fuel = suc (length (keys by_id)) in
    let (tasks, e, e') = >>=-eq-ok (sort_tasks_topologically w.tasks) _ h in
    let listing = sorted-IsListing w.tasks tasks e in
    let (s, q, q') =
      >>=-eq-ok (visit_deps (visit_task by_id fuel) (task_ids_of w.tasks) start) (λ s. ok s.out)
        e in
    let order =
      visit_deps-Orders by_id own rank ranked fuel (visit_task-Orders by_id own rank ranked fuel) []
        (task_ids_of w.tasks) start s q (start-IsSorting by_id own)
        (none_wait rank (task_ids_of w.tasks)) (unfold IsInOrder in tt) in
    merged-IsInOrder by_id w tasks w' (subst (IsInOrder by_id []) (ok_inj q') order) listing
      (ok_inj e')
